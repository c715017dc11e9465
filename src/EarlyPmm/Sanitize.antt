-- ===== src/EarlyPmm/Sanitize.antt =====
-- pmm_sanitize_memory_map of mm/early_pmm.c as a whole.
use snap_os.Prelude.{
  ℕ, ◌+◌, ◌-◌, ◌*◌, ◌≤◌, ◌<◌, ◌≡◌, ◌⊎◌, inl, inr, ◌∙◌, false, none, arith, ◌==◌, Bool-cases, dec_lt,
  Exec, fault, ◌>>=◌, Returns, returns, Returns-mono,
}
use snap_os.EarlyPmm.{
  PhysRegion, Regions, phys_region_max_size, sort_u64, unique_loop, sweep, pmm_sanitize_memory_map,
}
use snap_os.EarlyPmm.Sort.{Holds, sort_u64_lem, sort_u64-Holds}
use snap_os.EarlyPmm.Unique.{Ends, Collected, collect-Collected, collect_fault, unique_loop_lem}
use snap_os.EarlyPmm.Classify.{covers, Best, uncovered, Undivided}
use snap_os.EarlyPmm.Sweep.{type_at, type_at_beyond, Swept, sweep-Swept}

-- A clean memory map: its regions are not empty, in order and disjoint, and give each address the
-- type that the input gives it.
pub record IsClean (inp : Regions) (out : Regions) : Type 0 where
  pub types : (x : ℕ) → Best inp.reg inp.count x (type_at out.reg out.count x)
  pub proper : (k : ℕ) → k < out.count → (out.reg k).start < (out.reg k).end
  pub apart : (k : ℕ) → k + 1 < out.count → (out.reg k).end ≤ (out.reg (k + 1)).start
  pub few : out.count ≤ inp.count * 2

-- The ends of every region stand among the `nu` increasing values of `us`.
record Cut (inp : ℕ → PhysRegion) (n nu : ℕ) (us : ℕ → ℕ) : Type 0 where
  increasing : (a b : ℕ) → a < b → b < nu → us a < us b
  ends : Ends inp n nu us

module _ {inp : ℕ → PhysRegion} {n nu : ℕ} {us : ℕ → ℕ} (c : Cut inp n nu us) where
  value_apart : (i v : ℕ) → i + 1 < nu → Holds us nu v → (v ≤ us i) ⊎ (us (i + 1) ≤ v)
  value_apart i v h (a, lt, e) = elim (dec_lt i a) [
    | yes above ↦ inr (ground (arith, c.increasing (i + 1) a))
    | no below ↦ inl (ground (arith, c.increasing a i))
  ]

  Cut-Undivided : (i : ℕ) → i + 1 < nu → Undivided inp (us i) (us (i + 1)) n
  Cut-Undivided i h k lt =
      (value_apart i _ h (c.ends.starts k lt), value_apart i _ h (c.ends.ends k lt))

  value_le_last : (v : ℕ) → Holds us nu v → v ≤ us (nu - 1)
  value_le_last v (a, lt, e) = ground (arith, c.increasing a (nu - 1))

  first_le_value : (v : ℕ) → Holds us nu v → us 0 ≤ v
  first_le_value v (a, lt, e) = ground (arith, c.increasing 0 a)

-- Sorting and dropping repetitions lose no value.
Holds-unique :
    (bs : ℕ → ℕ) (nb v : ℕ)
    → Holds bs nb v
    → let (nu, us) = unique_loop nb 0 0 (sort_u64 bs nb) in Holds us nu v
Holds-unique bs nb v h =
    let (i, lt, e) = sort_u64-Holds bs nb h in
    let u = unique_loop_lem nb (sort_u64 bs nb) (sort_u64_lem bs nb).0 in
    let (j, lj, ej) = u.kept i lt in (j, lj, ej ∙ e)

Unique-Cut :
    (inp : ℕ → PhysRegion) (n : ℕ) {col : ℕ × (ℕ → ℕ)}
    → Collected inp n col
    → let (nu, us) = unique_loop col.0 0 0 (sort_u64 col.1 col.0) in Cut inp n nu us × (nu ≤ n * 2)
Unique-Cut inp n {col} h =
    let (nb, bs) = col in
    let u = unique_loop_lem nb (sort_u64 bs nb) (sort_u64_lem bs nb).0 in
    (
      record {
        increasing = u.increasing;
        ends = record {
          starts = λ k lt. Holds-unique bs nb _ (h.ends.starts k lt);
          ends = λ k lt. Holds-unique bs nb _ (h.ends.ends k lt);
        };
      },
      omega (arith, u.short, h.number),
    )

module _ (inp : Regions) {nu : ℕ} {us : ℕ → ℕ} (c : Cut inp.reg inp.count nu us) where
  -- Below the first boundary there is no region, and nothing is written yet.
  Swept-start :
      (out : ℕ → PhysRegion) → Swept inp.reg inp.count (us 0) (record { reg = out; count = 0 })
  unfolding type_at
  Swept-start out = record {
    types = λ x lt. uncovered (λ k hk. not_before x k lt hk);
    ends = λ k h. absurd (omega arith);
    proper = λ k h. absurd (omega arith);
    apart = λ k h. absurd (omega arith);
  }
    where
      not_before : (x k : ℕ) → x < us 0 → k < inp.count → covers (inp.reg k) x ≡ false
      not_before x k lt hk =
          unfold covers in ground (arith, first_le_value c (inp.reg k).start (c.ends.starts k hk))

  -- From the last boundary on there is no region either.
  Swept-IsClean :
      (out : Regions)
      → Swept inp.reg inp.count (us (nu - 1)) out
      → out.count ≤ inp.count * 2
      → IsClean inp out
  Swept-IsClean out s few = record {
    few = few;
    types = λ x. elim (dec_lt x (us (nu - 1))) [
      | yes before ↦ s.types x before
      | no after ↦ rw (beyond x (omega arith)) (uncovered (λ k hk. not_after x k (omega arith) hk))
    ];
    proper = s.proper;
    apart = s.apart;
  }
    where
      beyond : (x : ℕ) → us (nu - 1) ≤ x → type_at out.reg out.count x ≡ none
      beyond x h = type_at_beyond out.reg out.count x (λ k hk. omega (arith, s.ends k hk))

      not_after : (x k : ℕ) → us (nu - 1) ≤ x → k < inp.count → covers (inp.reg k) x ≡ false
      not_after x k h hk =
          unfold covers in ground (arith, value_le_last c (inp.reg k).end (c.ends.ends k hk))

after_collect :
    (inp : Regions) (out : ℕ → PhysRegion) (out_max : ℕ) {m : Exec (ℕ × (ℕ → ℕ))}
    → 0 < inp.count
    → inp.count * 2 ≤ out_max + 1
    → Returns (Collected inp.reg inp.count) m
    → Returns (IsClean inp) (
        m >>= (λ (nb, bs).
          let (nu, us) = unique_loop nb 0 0 (sort_u64 bs nb) in
          sweep out_max inp.reg inp.count us (nu - 1) 0 (record { reg = out; count = 0 })))
after_collect inp out out_max pos room (returns {a} h) =
    let (nb, bs) = a in
    let (nu, us) = unique_loop nb 0 0 (sort_u64 bs nb) in
    let cut = Unique-Cut inp.reg inp.count h in
    let (j, lt, e) = cut.0.ends.starts 0 pos in
    Returns-mono
      (sweep-Swept out_max inp.reg inp.count nu us cut.0.increasing (Cut-Undivided cut.0) (nu - 1) 0
        (nu - 1) (record { reg = out; count = 0 }) (omega arith) (omega arith)
        (omega (arith, cut.1)) (omega arith) (Swept-start inp cut.0 out))
      (λ out' h. Swept-IsClean inp cut.0 out' h.0 (omega (arith, h.1, cut.1)))

-- With at most 128 regions, and an output array that has room for one region fewer than they have
-- ends, pmm_sanitize_memory_map returns a clean map of them: the regions that it writes are not
-- empty, in order and disjoint, and an address lies in one of them exactly where it lies in a
-- region of the input, with the type of the first of those of highest priority.
pub pmm_sanitize_memory_map-IsClean :
    (boundaries : ℕ → ℕ) (inp : Regions) (out : ℕ → PhysRegion) (out_max : ℕ)
    → inp.count ≤ phys_region_max_size
    → inp.count * 2 ≤ out_max + 1
    → Returns (IsClean inp) (pmm_sanitize_memory_map boundaries inp out out_max)
unfolding pmm_sanitize_memory_map type_at
pmm_sanitize_memory_map-IsClean boundaries inp out out_max fits room =
    elim (Bool-cases (inp.count == 0)) [
      | inl none_given ↦ rw none_given (
          returns (record {
            types = λ x. uncovered (λ k h. absurd (ground arith));
            proper = λ k h. absurd (omega arith);
            apart = λ k h. absurd (omega arith);
            few = omega arith;
          }))
      | inr given ↦ rw given (
          after_collect inp out out_max (ground arith) room (
            collect-Collected inp.reg inp.count 0 inp.count 0 boundaries (omega arith) (omega arith)
              fits
              (record {
                starts = λ k h. absurd (omega arith);
                ends = λ k h. absurd (omega arith);
              })))
    ]

-- More than 128 regions are written past the end of the static array of boundaries, which has room
-- for 256. early_pmm_init adds one region of its own to the up to 128 of the firmware.
pub pmm_sanitize_memory_map_fault :
    (boundaries : ℕ → ℕ) (inp : Regions) (out : ℕ → PhysRegion) (out_max : ℕ)
    → phys_region_max_size < inp.count
    → pmm_sanitize_memory_map boundaries inp out out_max ≡ fault
unfolding pmm_sanitize_memory_map
pmm_sanitize_memory_map_fault boundaries inp out out_max more =
    let given : (inp.count == 0) ≡ false = ground arith in
    rw (
      given,
      collect_fault inp.reg inp.count 0 0 boundaries (omega arith) (omega arith) (omega arith),
    )
