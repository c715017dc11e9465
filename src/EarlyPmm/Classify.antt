-- ===== src/EarlyPmm/Classify.antt =====
-- The type that pmm_sanitize_memory_map gives a sub-interval is that of the region of highest
-- priority that spans it.
use snap_os.Prelude.{
  ℕ, zero, suc, ◌+◌, ◌≤◌, ◌<◌, ◌≡◌, refl, ◌⊎◌, inl, inr, Bool, true, false, ◌&&◌, ◌||◌, Option,
  none, some, arith, ltb, leb, if◌then◌else◌, Bool-cases,
}
use snap_os.EarlyPmm.{RegionType, usable, region_priority, PhysRegion, spans, classify}

-- Whether address `x` lies in the region.
unfoldable pub covers : PhysRegion → ℕ → Bool
covers r x = leb r.start x && ltb x r.end

-- What the type of an address is by the first `n` regions of the input: none where no region
-- covers it, else that of the first among the covering regions of highest priority.
pub data Best (inp : ℕ → PhysRegion) (n x : ℕ) : Option RegionType → Type 0 where
  uncovered : ((k : ℕ) → k < n → covers (inp k) x ≡ false) → Best inp n x none
  best :
      (m : ℕ)
      → m < n
      → covers (inp m) x ≡ true
      → ((k : ℕ)
          → k < n
          → covers (inp k) x ≡ true
          → region_priority (inp k).type ≤ region_priority (inp m).type)
      → ((k : ℕ)
          → k < m
          → covers (inp k) x ≡ true
          → region_priority (inp k).type < region_priority (inp m).type)
      → Best inp n x (some (inp m).type)

-- What the loop knows after `j` regions.
data Scanned (inp : ℕ → PhysRegion) (lo hi j : ℕ) : Bool → ℕ → RegionType → Type 0 where
  nothing :
      (t : RegionType)
      → ((k : ℕ) → k < j → spans (inp k) lo hi ≡ false)
      → Scanned inp lo hi j false 0 t
  picked :
      (m : ℕ) (b : ℕ)
      → b ≡ region_priority (inp m).type + 1
      → m < j
      → spans (inp m) lo hi ≡ true
      → ((k : ℕ)
          → k < j
          → spans (inp k) lo hi ≡ true
          → region_priority (inp k).type ≤ region_priority (inp m).type)
      → ((k : ℕ)
          → k < m
          → spans (inp k) lo hi ≡ true
          → region_priority (inp k).type < region_priority (inp m).type)
      → Scanned inp lo hi j true b (inp m).type

module _ (inp : ℕ → PhysRegion) (lo hi : ℕ) where
  abbrev next_best : ℕ → ℕ → ℕ
  next_best j b =
      if spans (inp j) lo hi && ltb b (region_priority (inp j).type + 1)
      then region_priority (inp j).type + 1
      else b

  abbrev next_type : ℕ → ℕ → RegionType → RegionType
  next_type j b t =
      if spans (inp j) lo hi && ltb b (region_priority (inp j).type + 1) then (inp j).type else t

  Scanned-step :
      (j : ℕ) {c : Bool} {b : ℕ} {t : RegionType}
      → Scanned inp lo hi j c b t
      → Scanned inp lo hi (j + 1) (c || spans (inp j) lo hi) (next_best j b) (next_type j b t)
  Scanned-step j (nothing t none_before) = elim (Bool-cases (spans (inp j) lo hi)) [
    | inr miss ↦ rw miss (nothing t (λ k lt. ground (arith, none_before k)))
    | inl hit ↦
        let first : ltb 0 (region_priority (inp j).type + 1) ≡ true = ground arith in
        rw (hit, first)
          (picked j _ refl (omega arith) hit (λ k lt sp. ground (arith, none_before k))
            (λ k lt sp. ground (arith, none_before k)))
  ]
  Scanned-step j (picked m b eb lt spanned top first) =
      elim (Bool-cases (spans (inp j) lo hi && ltb b (region_priority (inp j).type + 1))) [
        | inl better ↦ rw better (
            picked j _ refl (omega arith) (ground arith) (λ k lt' sp. ground (arith, top k))
              (λ k lt' sp. ground (arith, top k)))
        | inr worse ↦
            rw worse (picked m b eb (omega arith) spanned (λ k lt' sp. ground (arith, top k)) first)
      ]

  classify-Scanned :
      (k j n : ℕ) {c : Bool} {b : ℕ} {t : RegionType}
      → j + k ≡ n
      → Scanned inp lo hi j c b t
      → let (c', b', t') = classify inp lo hi k j c b t in Scanned inp lo hi n c' b' t'
  unfolding classify
  classify-Scanned zero j n e s = let same : j ≡ n = omega arith in rw same at s
  classify-Scanned (suc k) j n e s = classify-Scanned k (j + 1) n (omega arith) (Scanned-step j s)

  -- No boundary lies inside the sub-interval, so a region spans it or misses it.
  abbrev pub Undivided : ℕ → Type 0
  Undivided n =
      (k : ℕ)
      → k < n
      → (((inp k).start ≤ lo) ⊎ (hi ≤ (inp k).start)) × (((inp k).end ≤ lo) ⊎ (hi ≤ (inp k).end))

  spans-eq-covers :
      (n x k : ℕ) → Undivided n → lo ≤ x → x < hi → k < n → spans (inp k) lo hi ≡ covers (inp k) x
  unfolding spans covers
  spans-eq-covers n x k u lo_le lt hk = ground (arith, u k)

  Scanned-Best :
      (n x : ℕ) {c : Bool} {b : ℕ} {t : RegionType}
      → Undivided n
      → lo ≤ x
      → x < hi
      → Scanned inp lo hi n c b t
      → Best inp n x (if c then some t else none)
  Scanned-Best n x u lo_le lt (nothing t miss) =
      uncovered (λ k hk. ground (arith, miss k, spans-eq-covers n x k u lo_le lt))
  Scanned-Best n x u lo_le lt (picked m b eb hm spanned top first) =
      best m hm (ground (arith, spans-eq-covers n x m u lo_le lt))
        (λ k hk c. ground (arith, top k, spans-eq-covers n x k u lo_le lt))
        (λ k hk c. ground (arith, first k, spans-eq-covers n x k u lo_le lt))

  -- What `classify` says of the sub-interval is what the input says of each address in it.
  pub classify-Best :
      (n x : ℕ)
      → Undivided n
      → lo ≤ x
      → x < hi
      → let (c, _, t) = classify inp lo hi n 0 false 0 usable in
        Best inp n x (if c then some t else none)
  classify-Best n x u lo_le lt =
      Scanned-Best n x u lo_le lt
        (classify-Scanned n 0 n (omega arith) (nothing usable (λ k h. absurd (omega arith))))
