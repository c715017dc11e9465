-- ===== src/EarlyPmm/Init/Raw.antt =====
-- The raw memory map: as many regions as entries at most, none beyond the last entry.
use snap_os.Prelude.{
  ℕ, zero, suc, ◌+◌, ◌^◌, ◌≤◌, ◌<◌, ◌≡◌, inl, inr, true, arith, ltb, ◌==◌, Bool-cases, Returns,
  returns, Returns->>=,
}
use snap_os.EarlyPmm.{PhysRegion, Regions, phys_region_max_size}
use snap_os.EarlyPmm.Init.{E820Entry, phys_region_push, push_entries, arch_get_memory_map}

-- The entries end below the limit of physical addresses.
abbrev pub AreLow : (ℕ → E820Entry) → ℕ → Type 0
AreLow entry n = (i : ℕ) → i < n → (entry i).base + (entry i).len ≤ 2 ^ 52

-- The raw map after `i` entries.
pub record IsRaw (i : ℕ) (raw : Regions) : Type 0 where
  pub few : raw.count ≤ i
  pub low : (k : ℕ) → k < raw.count → (raw.reg k).end ≤ 2 ^ 52

phys_region_push-IsRaw :
    (e : E820Entry) (i : ℕ) (raw : Regions)
    → i ≤ phys_region_max_size
    → e.base + e.len ≤ 2 ^ 52
    → IsRaw i raw
    → Returns (IsRaw (i + 1)) (phys_region_push e raw)
unfolding phys_region_push
phys_region_push-IsRaw e i raw room low r = elim (Bool-cases (e.len == 0)) [
  | inl empty ↦ rw empty (returns (record { few = omega (arith, r.few); low = r.low }))
  | inr filled ↦
      let fits : ltb raw.count (phys_region_max_size + 1) ≡ true = ground (arith, r.few) in
      rw (filled, fits)
        (returns (record { few = omega (arith, r.few); low = λ k h. ground (arith, r.low k) }))
]

push_entries-IsRaw :
    (entry : ℕ → E820Entry) (n k i : ℕ) (raw : Regions)
    → i + k ≡ n
    → n ≤ phys_region_max_size
    → AreLow entry n
    → IsRaw i raw
    → Returns (IsRaw n) (push_entries entry k i raw)
unfolding push_entries
push_entries-IsRaw entry n zero i raw e room low r =
    let same : i ≡ n = omega arith in returns (rw same at r)
push_entries-IsRaw entry n (suc k) i raw e room low r =
    Returns->>= _ (phys_region_push-IsRaw (entry i) i raw (omega arith) (low i (omega arith)) r)
      (λ raw' r'. push_entries-IsRaw entry n k (i + 1) raw' (omega arith) room low r')

pub arch_get_memory_map-IsRaw :
    (entry : ℕ → E820Entry) (n : ℕ) (raw : ℕ → PhysRegion)
    → n ≤ phys_region_max_size
    → AreLow entry n
    → Returns (IsRaw n) (arch_get_memory_map entry n raw)
unfolding arch_get_memory_map
arch_get_memory_map-IsRaw entry n raw room low =
    push_entries-IsRaw entry n n 0 _ (omega arith) room low
      (record { few = omega arith; low = λ k h. absurd (omega arith) })
