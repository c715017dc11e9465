-- ===== src/EarlyPmm/Cursor/Max.antt =====
-- early_pmm_get_max_usable: no usable region of a map in order ends higher.
use snap_os.Prelude.{
  ℕ, zero, suc, ◌+◌, ◌^◌, ◌≤◌, ◌<◌, ◌≡◌, inl, inr, true, arith, if◌then◌else◌, Bool-cases,
}
use snap_os.EarlyPmm.{Regions}
use snap_os.EarlyPmm.Cursor.{is_usable, max_loop, early_pmm_get_max_usable}
use snap_os.EarlyPmm.Cursor.Alloc.{IsMap, end-le-start}

-- The highest end of a usable region below index `i`, if regions further on end higher.
record IsTop (clean : Regions) (i max : ℕ) : Type 0 where
  top : (k : ℕ) → k < i → is_usable (clean.reg k).type ≡ true → (clean.reg k).end ≤ max
  bound : max ≤ 2 ^ 52

max_loop-IsTop :
    {clean : Regions} (m : IsMap clean) (k i max : ℕ)
    → i + k ≡ clean.count
    → IsTop clean i max
    → IsTop clean clean.count (max_loop clean k i max)
unfolding max_loop
max_loop-IsTop m zero i max e t = record { top = λ k h u. t.top k (omega arith) u; bound = t.bound }
max_loop-IsTop {clean} m (suc k) i max e t =
    max_loop-IsTop m k (i + 1) (if is_usable (clean.reg i).type then (clean.reg i).end else max)
      (omega arith)
      (elim (Bool-cases (is_usable (clean.reg i).type)) [
        | inr other ↦ rw other (record { top = λ j h u. ground (arith, t.top j); bound = t.bound })
        | inl good ↦ rw good (record {
          top = λ j h u. ground (arith, end-le-start m j i, m.proper i);
          bound = m.low i (omega arith);
        })
      ])

pub early_pmm_get_max_usable-top :
    {clean : Regions} (k : ℕ)
    → IsMap clean
    → k < clean.count
    → is_usable (clean.reg k).type ≡ true
    → (clean.reg k).end ≤ early_pmm_get_max_usable clean
unfolding early_pmm_get_max_usable
early_pmm_get_max_usable-top {clean} k m h u =
    (max_loop-IsTop m clean.count 0 0 (omega arith)
        (record { top = λ j h u. absurd (omega arith); bound = omega arith })).top
      k h u

pub early_pmm_get_max_usable-le :
    {clean : Regions} → IsMap clean → early_pmm_get_max_usable clean ≤ 2 ^ 52
unfolding early_pmm_get_max_usable
early_pmm_get_max_usable-le {clean} m =
    (max_loop-IsTop m clean.count 0 0 (omega arith)
      (record { top = λ j h u. absurd (omega arith); bound = omega arith })).bound
