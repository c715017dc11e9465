-- ===== src/EarlyPmm/Init/Ready.antt =====
-- early_pmm_init leaves a clean map that spares the kernel's image, and a cursor in it.
use snap_os.Prelude.{
  ℕ, zero, suc, ◌+◌, ◌-◌, ◌^◌, ◌≤◌, ◌<◌, ◌≡◌, ◌≢◌, refl, inl, inr, ◌||◌, true, Option, none, some,
  arith, ltb, ◌==◌, Bool-cases, ok, ◌>>=◌, Returns, returns, Returns->>=, enomem, einval, write,
  write_self,
}
use snap_os.EarlyPmm.{
  RegionType, usable, region_priority, PhysRegion, Regions, phys_region_max_size,
  pmm_sanitize_memory_map,
}
use snap_os.EarlyPmm.Classify.{covers, Best, uncovered, best}
use snap_os.EarlyPmm.Sweep.{type_at}
use snap_os.EarlyPmm.Sanitize.{IsClean, pmm_sanitize_memory_map-IsClean}
use snap_os.EarlyPmm.Cursor.{Pa, pa_init}
use snap_os.EarlyPmm.Cursor.Alloc.{IsMap, AtRegion, IsPlaced, used_up, at_region, pa_init-IsPlaced}
use snap_os.EarlyPmm.Init.{E820Entry, EarlyPmm, kernel_region, start_cursor, early_pmm_init}
use snap_os.EarlyPmm.Init.Raw.{AreLow, IsRaw, arch_get_memory_map-IsRaw}

-- Where some region of higher priority than a usable one lies, the address is not usable.
not_usable :
    {inp : ℕ → PhysRegion} {n x : ℕ} {o : Option RegionType} (k : ℕ)
    → k < n
    → covers (inp k) x ≡ true
    → 0 < region_priority (inp k).type
    → Best inp n x o
    → o ≢ some usable
unfolding region_priority
not_usable k h c p (uncovered none_covers) e = cc
not_usable {inp} k h c p (best m hm cm top first) e = ground (arith, top k)

-- A region of a map gives its addresses a type.
type_at-covered :
    (reg : ℕ → PhysRegion) (n k x : ℕ) → k < n → covers (reg k) x ≡ true → type_at reg n x ≢ none
unfolding type_at
type_at-covered reg zero k x h c = absurd (omega arith)
type_at-covered reg (suc n) k x h c = ground (arith, type_at-covered reg n k x)

-- The ends of a clean map are no higher than those of the input.
clean_low :
    {inp out : Regions} (bound : ℕ)
    → IsClean inp out
    → ((k : ℕ) → k < inp.count → (inp.reg k).end ≤ bound)
    → (k : ℕ) → k < out.count
    → (out.reg k).end ≤ bound
unfolding covers
clean_low {inp} {out} bound c low k h =
    let x : ℕ = (out.reg k).end - 1 in
    let p = c.proper k h in
    below (c.types x) (type_at-covered out.reg out.count k x h (ground arith))
  where
    below :
        {o : Option RegionType}
        → Best inp.reg inp.count ((out.reg k).end - 1) o
        → o ≢ none
        → (out.reg k).end ≤ bound
    below (uncovered miss) ne = absurd (ne refl)
    below (best m hm cm top first) ne = ground (arith, low m, c.proper k h)

IsClean-IsMap :
    {inp out : Regions}
    → IsClean inp out
    → ((k : ℕ) → k < inp.count → (inp.reg k).end ≤ 2 ^ 52)
    → inp.count ≤ phys_region_max_size
    → IsMap out
IsClean-IsMap c low few = record {
  apart = c.apart;
  proper = c.proper;
  low = clean_low (2 ^ 52) c low;
  few = omega (arith, c.few);
}

-- What early_pmm_init may return: an error, or 0 with the cursor in a usable region; in both cases
-- the clean map is that of the raw map, and no address of the kernel's image is usable in it.
pub data Started (kernel_size : ℕ) : ℕ × EarlyPmm → Type 0 where
  failed :
      (code : ℕ) (s : EarlyPmm) → code ≢ 0 → IsClean s.raw s.clean → Started kernel_size (code, s)
  ready :
      (s : EarlyPmm)
      → IsClean s.raw s.clean
      → IsMap s.clean
      → AtRegion s.clean s.pa
      → ((x : ℕ)
          → covers (kernel_region kernel_size) x ≡ true
          → type_at s.clean.reg s.clean.count x ≢ some usable)
      → Started kernel_size (0, s)

start_cursor-Started :
    (kernel_size : ℕ) (raw : Regions) (s : EarlyPmm) (clean : Regions)
    → IsClean raw clean
    → IsMap clean
    → ((x : ℕ)
        → covers (kernel_region kernel_size) x ≡ true
        → type_at clean.reg clean.count x ≢ some usable)
    → Started kernel_size (start_cursor raw s clean)
unfolding start_cursor
start_cursor-Started kernel_size raw s clean c m spared =
    elim (Bool-cases (raw.count == 0 || clean.count == 0)) [
      | inl empty ↦ rw empty (failed einval _ (λ e. absurd (omega arith)) c)
      | inr filled ↦ rw filled (started (pa_init clean s.pa) (pa_init-IsPlaced m s.pa))
    ]
  where
    started :
        (pa : Pa)
        → IsPlaced clean pa
        → Started kernel_size (
          elim pa.reg [ none ↦ enomem | some r ↦ 0 ],
          record s { raw = raw; clean = clean; pa = pa },
        )
    started pa (used_up e) =
        let code : ◌≡◌ {A = ℕ} (elim pa.reg [ none ↦ enomem | some r ↦ 0 ]) enomem = ground arith in
        rw code (failed enomem _ (λ e. absurd (omega arith)) c)
    started pa (at_region at) =
        let code : ◌≡◌ {A = ℕ} (elim pa.reg [ none ↦ enomem | some r ↦ 0 ]) 0 =
          ground (arith, at.current) in
        rw code (ready _ c m at spared)

kernel_priority : (kernel_size : ℕ) → 0 < region_priority (kernel_region kernel_size).type
unfolding region_priority
kernel_priority kernel_size = omega arith

-- With at most 63 entries below 2^52, and a kernel of at most 2^40 bytes, early_pmm_init returns
-- with the clean map of the entries and of the kernel's image. If it returns 0, the regions of the
-- map are in order and disjoint, the cursor stands in a usable one, and no address of the pages of
-- the kernel's image is usable.
pub early_pmm_init-Started :
    (entry : ℕ → E820Entry) (entries kernel_size : ℕ) (s : EarlyPmm)
    → entries ≤ 63
    → AreLow entry entries
    → kernel_size ≤ 2 ^ 40
    → Returns (Started kernel_size) (early_pmm_init entry entries kernel_size s)
unfolding early_pmm_init
early_pmm_init-Started entry entries kernel_size s few low small =
    Returns->>= _ (arch_get_memory_map-IsRaw entry entries s.raw.reg (omega arith) low) (λ raw r.
      let fits : ltb raw.count (phys_region_max_size + 1) ≡ true = ground (arith, r.few) in
      rw fits (with_kernel raw r))
  where
    with_kernel :
        (raw : Regions)
        → IsRaw entries raw
        → Returns (Started kernel_size) (
            let raw' : Regions = record {
              reg = write raw.reg raw.count (kernel_region kernel_size);
              count = raw.count + 1;
            } in
            pmm_sanitize_memory_map s.boundaries raw' s.clean.reg phys_region_max_size
            >>= (λ clean. ok (start_cursor raw' s clean)))
    with_kernel raw r =
        let raw' : Regions = record {
          reg = write raw.reg raw.count (kernel_region kernel_size);
          count = raw.count + 1;
        } in
        Returns->>= _
          (pmm_sanitize_memory_map-IsClean s.boundaries raw' s.clean.reg phys_region_max_size
            (omega (arith, r.few)) (omega (arith, r.few)))
          (λ clean c. returns (
            start_cursor-Started kernel_size raw' s clean c
              (IsClean-IsMap c (λ k h. ground (arith, r.low k)) (omega (arith, r.few)))
              (λ x cover.
                not_usable raw.count (omega arith)
                  (rw (write_self raw.reg raw.count (kernel_region kernel_size)) cover)
                  (rw (write_self raw.reg raw.count (kernel_region kernel_size))
                    (kernel_priority kernel_size))
                  (c.types x))))
