-- ===== src/EarlyPmm/Cursor/Alloc.antt =====
-- The early allocator hands out page aligned memory of usable regions only, and never the same twice.
use snap_os.Prelude.{
  ℕ, zero, suc, ◌+◌, ◌-◌, ◌*◌, ◌%◌, ◌^◌, ◌≤◌, ◌<◌, ◌≡◌, refl, inl, inr, true, none, some, arith,
  leb, if◌then◌else◌, Bool-cases, ok, Returns, returns, Returns-mono, word64, page_size,
  page_align_up,
}
use snap_os.EarlyPmm.{Regions}
use snap_os.EarlyPmm.Cursor.{
  Pa, is_usable, min_usable_paddr, next_loop, pa_next, pa_init, cursor_loop,
  early_pmm_alloc_continuous_frames, early_pmm_alloc_frame, max_u64,
}

-- A memory map in order, whose addresses leave room for the arithmetic of the allocator.
pub record IsMap (clean : Regions) : Type 0 where
  pub apart : (k : ℕ) → k + 1 < clean.count → (clean.reg k).end ≤ (clean.reg (k + 1)).start
  pub proper : (k : ℕ) → k < clean.count → (clean.reg k).start < (clean.reg k).end
  pub low : (k : ℕ) → k < clean.count → (clean.reg k).end ≤ 2 ^ 52
  pub few : clean.count < 2 ^ 32

-- Regions further on lie higher up.
pub end_le_start :
    {clean : Regions} (m : IsMap clean) (d k : ℕ)
    → k + suc d < clean.count
    → (clean.reg k).end ≤ (clean.reg (k + suc d)).start
end_le_start m zero k h =
    let e : k + 1 ≡ k + suc zero = omega arith in rw e at (m.apart k (omega arith))
end_le_start {clean} m (suc d) k h =
    let e : k + suc (suc d) ≡ k + suc d + 1 = omega arith in
    rw e (
      omega (
        arith,
        end_le_start m d k (omega arith),
        m.proper (k + suc d) (omega arith),
        m.apart (k + suc d) (omega arith),
      ))

pub end-le-start :
    {clean : Regions} (m : IsMap clean) (j k : ℕ)
    → j < k
    → k < clean.count
    → (clean.reg j).end ≤ (clean.reg k).start
end-le-start {clean} m j k lt h =
    let e : j + suc (k - j - 1) ≡ k = omega arith in
    rw e at (end_le_start m (k - j - 1) j (omega arith))

-- The cursor stands in the usable region `idx`, at a page boundary.
pub record AtRegion (clean : Regions) (pa : Pa) : Type 0 where
  pub current : pa.reg ≡ some pa.idx
  pub inside : pa.idx < clean.count
  pub usable : is_usable (clean.reg pa.idx).type ≡ true
  pub high : min_usable_paddr < (clean.reg pa.idx).end
  pub from : (clean.reg pa.idx).start ≤ pa.cursor
  pub above : min_usable_paddr ≤ pa.cursor
  pub upto : pa.cursor ≤ page_align_up (clean.reg pa.idx).end
  pub aligned : pa.cursor % page_size ≡ 0

-- The regions are used up, or the cursor stands in one.
pub data IsPlaced (clean : Regions) (pa : Pa) : Type 0 where
  used_up : pa.reg ≡ none → IsPlaced clean pa
  at_region : AtRegion clean pa → IsPlaced clean pa

-- Where pa_next goes on from region `i`: with the cursor no lower than `c`.
data Moved (clean : Regions) (i c : ℕ) (pa : Pa) : Type 0 where
  none_left : pa.reg ≡ none → Moved clean i c pa
  on : AtRegion clean pa → i ≤ pa.idx → c ≤ pa.cursor → Moved clean i c pa

later : {clean : Regions} {i c : ℕ} {pa : Pa} → Moved clean (i + 1) c pa → Moved clean i c pa
later (none_left e) = none_left e
later (on at le low) = on at (omega arith) low

module _ {clean : Regions} (m : IsMap clean) where
  next_loop-Moved :
      (k i c : ℕ) (pa : Pa)
      → i + k ≡ clean.count
      → ((j : ℕ)
          → i ≤ j
          → j < clean.count
          → c ≤ page_align_up (max_u64 min_usable_paddr (clean.reg j).start))
      → Moved clean i c (next_loop clean k i pa)
  unfolding next_loop
  next_loop-Moved zero i c pa e low = none_left refl
  next_loop-Moved (suc k) i c pa e low =
      let rest =
        later (next_loop-Moved k (i + 1) c pa (omega arith) (λ j le lt. low j (omega arith) lt)) in
      let r = clean.reg i in
      let bound = m.low i (omega arith) in
      let filled = m.proper i (omega arith) in
      elim (Bool-cases (is_usable r.type)) [
        | inr other ↦ rw other rest
        | inl good ↦ elim (Bool-cases (leb r.end min_usable_paddr)) [
          | inl under ↦ rw (good, under) rest
          | inr over ↦
              rw (good, over)
                (on
                  (record {
                    current = refl;
                    inside = omega arith;
                    usable = good;
                    high = ground arith;
                    from = ground arith;
                    above = ground arith;
                    upto = ground arith;
                    aligned = omega arith;
                  })
                  (omega arith) (low i (omega arith) (omega arith)))
        ]
      ]

  -- The next region starts above the cursor.
  pa_next-Moved :
      {pa : Pa} → AtRegion clean pa → Moved clean (pa.idx + 1) pa.cursor (pa_next clean pa)
  unfolding pa_next
  pa_next-Moved {pa} at =
      let e : word64 (pa.idx + 1) ≡ pa.idx + 1 = omega (arith, at.inside, m.few) in
      rw e (
        next_loop-Moved (clean.count - (pa.idx + 1)) (pa.idx + 1) pa.cursor pa
          (omega (arith, at.inside))
          (λ j le lt. ground (arith, at.upto, end-le-start m pa.idx j, m.low j, m.proper j)))

-- What the allocator may return for `size` bytes: a piece of a usable region of the map above the
-- first megabyte, that starts at a page boundary no lower than the cursor and ends where the cursor
-- now stands; or null, with no region left.
pub data Given (clean : Regions) (size : ℕ) (pa : Pa) : ℕ × Pa → Type 0 where
  given :
      (r a : ℕ) (pa' : Pa)
      → r < clean.count
      → is_usable (clean.reg r).type ≡ true
      → (clean.reg r).start ≤ a
      → min_usable_paddr ≤ a
      → a + size ≤ (clean.reg r).end
      → pa.cursor ≤ a
      → a % page_size ≡ 0
      → pa'.cursor ≡ a + size
      → IsPlaced clean pa'
      → Given clean size pa (a, pa')
  exhausted : (pa' : Pa) → pa'.reg ≡ none → Given clean size pa (0, pa')

from_later :
    {clean : Regions} {size : ℕ} {pa pa' : Pa} {out : ℕ × Pa}
    → pa.cursor ≤ pa'.cursor
    → Given clean size pa' out
    → Given clean size pa out
from_later le (given r a q hr us lo min hi above al stop placed) =
    given r a q hr us lo min hi (omega arith) al stop placed
from_later le (exhausted q e) = exhausted q e

module _ {clean : Regions} (m : IsMap clean) (size : ℕ) (whole : size % page_size ≡ 0)
    (small : size ≤ 2 ^ 52) where
  cursor_loop-none :
      (fuel : ℕ) (pa : Pa) → pa.reg ≡ none → 0 < fuel → cursor_loop clean size fuel pa ≡ ok (0, pa)
  unfolding cursor_loop
  cursor_loop-none zero pa e h = absurd (omega arith)
  cursor_loop-none (suc fuel) pa e h = ground arith

  cursor_loop-some :
      (fuel r : ℕ) (pa : Pa)
      → pa.reg ≡ some r
      → cursor_loop clean size (suc fuel) pa ≡ (
          if leb (word64 (pa.cursor + size)) (clean.reg r).end
          then ok (pa.cursor, record pa { cursor = word64 (pa.cursor + size) })
          else cursor_loop clean size fuel (pa_next clean pa))
  unfolding cursor_loop
  cursor_loop-some fuel r pa e = ground arith

  -- The cursor after a piece of the current region is handed out.
  AtRegion-advance :
      (pa : Pa)
      → AtRegion clean pa
      → pa.cursor + size ≤ (clean.reg pa.idx).end
      → AtRegion clean (record pa { cursor = pa.cursor + size })
  AtRegion-advance pa at fits = record {
    current = at.current;
    inside = at.inside;
    usable = at.usable;
    high = at.high;
    from = omega (arith, at.from);
    above = omega (arith, at.above);
    upto = omega (arith, m.low pa.idx at.inside);
    aligned = omega (arith, at.aligned, whole);
  }

  cursor_loop-at :
      (fuel : ℕ) (pa : Pa)
      → AtRegion clean pa
      → clean.count < fuel + pa.idx
      → Returns (Given clean size pa) (cursor_loop clean size fuel pa)
  cursor_loop-at zero pa at h = absurd (omega (arith, at.inside))
  cursor_loop-at (suc fuel) pa at h =
      let bound = m.low pa.idx at.inside in
      let e : word64 (pa.cursor + size) ≡ pa.cursor + size = omega (arith, at.upto) in
      rw (cursor_loop-some fuel pa.idx pa at.current, e)
        (elim (Bool-cases (leb (pa.cursor + size) (clean.reg pa.idx).end)) [
          | inl fits ↦ rw fits (
              returns (
                given pa.idx pa.cursor (record pa { cursor = pa.cursor + size }) at.inside at.usable
                  at.from at.above (ground arith) (omega arith) at.aligned refl
                  (at_region (AtRegion-advance pa at (ground arith)))))
          | inr tight ↦ rw tight (
              go_on (pa_next clean pa) (pa_next-Moved m at)
                (λ q at' le. cursor_loop-at fuel q at' le) (omega (arith, at.inside)))
        ])
    where
      go_on :
          (next : Pa)
          → Moved clean (pa.idx + 1) pa.cursor next
          → ((q : Pa)
              → AtRegion clean q
              → clean.count < fuel + q.idx
              → Returns (Given clean size q) (cursor_loop clean size fuel q))
          → 0 < fuel
          → Returns (Given clean size pa) (cursor_loop clean size fuel next)
      go_on next (none_left e) again some_fuel =
          rw (cursor_loop-none fuel next e some_fuel) (returns (exhausted next e))
      go_on next (on at' le low) again some_fuel =
          Returns-mono (again next at' (omega arith)) (λ out g. from_later low g)

  cursor_loop-Given :
      (pa : Pa)
      → IsPlaced clean pa
      → Returns (Given clean size pa) (cursor_loop clean size (clean.count + 2) pa)
  cursor_loop-Given pa (used_up e) =
      rw (cursor_loop-none (clean.count + 2) pa e (omega arith)) (returns (exhausted pa e))
  cursor_loop-Given pa (at_region at) = cursor_loop-at (clean.count + 2) pa at (omega arith)

Moved-IsPlaced : {clean : Regions} {i c : ℕ} {pa : Pa} → Moved clean i c pa → IsPlaced clean pa
Moved-IsPlaced (none_left e) = used_up e
Moved-IsPlaced (on at le low) = at_region at

-- pa_init puts the cursor into the map, or says that no region is left.
pub pa_init-IsPlaced :
    {clean : Regions} → IsMap clean → (pa : Pa) → IsPlaced clean (pa_init clean pa)
unfolding pa_init pa_next
pa_init-IsPlaced {clean} m pa =
    let e : word64 (2 ^ 64 - 1 + 1) ≡ 0 = omega arith in
    rw e (
      Moved-IsPlaced (
        next_loop-Moved m (clean.count - 0) 0 0 (record pa { idx = 2 ^ 64 - 1 }) (omega arith)
          (λ j le lt. omega arith)))

-- From a cursor that is placed, early_pmm_alloc_continuous_frames returns: a page aligned piece of
-- `count` pages of one usable region, above the first megabyte and no lower than the cursor, and
-- the cursor then stands at its end, placed again; or null, with no region left.
pub early_pmm_alloc_continuous_frames-Given :
    {clean : Regions} (count : ℕ) {pa : Pa}
    → IsMap clean
    → IsPlaced clean pa
    → count ≤ 2 ^ 40
    → Returns
        (Given clean (page_size * count) pa)
        (early_pmm_alloc_continuous_frames count clean pa)
unfolding early_pmm_alloc_continuous_frames
early_pmm_alloc_continuous_frames-Given count {pa} m placed small =
    let e : word64 (page_size * count) ≡ page_size * count = omega arith in
    rw e (cursor_loop-Given m (page_size * count) (omega arith) (omega arith) pa placed)

-- early_pmm_alloc_frame does so for one page.
pub early_pmm_alloc_frame-Given :
    {clean : Regions} {pa : Pa}
    → IsMap clean
    → IsPlaced clean pa
    → Returns (Given clean page_size pa) (early_pmm_alloc_frame clean pa)
unfolding early_pmm_alloc_frame
early_pmm_alloc_frame-Given {pa} m placed =
    cursor_loop-Given m page_size refl (omega arith) pa placed
