-- ===== src/EarlyPmm/Unique.antt =====
-- The boundaries of pmm_sanitize_memory_map: the array holds both ends of every region, and after
-- the loop that drops repetitions it is strictly increasing.
use snap_os.Prelude.{
  ℕ, zero, suc, ◌+◌, ◌-◌, ◌*◌, ◌≤◌, ◌<◌, ◌≡◌, refl, inl, inr, true, false, not, ◌||◌, arith, ltb,
  ◌==◌, Bool-cases, dec_lt, fault, Returns, returns, write,
}
use snap_os.EarlyPmm.{PhysRegion, phys_region_max_size, collect, unique_loop}
use snap_os.EarlyPmm.Sort.{IsSorted, Holds}

-- Both ends of the first `i` regions stand among the first `nb` boundaries.
pub record Ends (inp : ℕ → PhysRegion) (i nb : ℕ) (bs : ℕ → ℕ) : Type 0 where
  pub starts : (k : ℕ) → k < i → Holds bs nb (inp k).start
  pub ends : (k : ℕ) → k < i → Holds bs nb (inp k).end

Holds-write2 :
    (bs : ℕ → ℕ) (nb x y v : ℕ)
    → Holds bs nb v
    → Holds (write (write bs nb x) (nb + 1) y) (nb + 2) v
Holds-write2 bs nb x y v (i, lt, e) = (i, omega arith, ground arith)

Ends-step :
    (inp : ℕ → PhysRegion) (i nb : ℕ) (bs : ℕ → ℕ)
    → Ends inp i nb bs
    → Ends inp (i + 1) (nb + 2) (write (write bs nb (inp i).start) (nb + 1) (inp i).end)
Ends-step inp i nb bs h = record {
  starts = λ k lt. elim (dec_lt k i) [
    | yes before ↦ Holds-write2 bs nb (inp i).start (inp i).end _ (h.starts k before)
    | no last ↦ let same : k ≡ i = omega arith in rw same (nb, omega arith, ground arith)
  ];
  ends = λ k lt. elim (dec_lt k i) [
    | yes before ↦ Holds-write2 bs nb (inp i).start (inp i).end _ (h.ends k before)
    | no last ↦ let same : k ≡ i = omega arith in rw same (nb + 1, omega arith, ground arith)
  ];
}

-- The outcome of the loop that fills the array, for `n` regions.
pub record Collected (inp : ℕ → PhysRegion) (n : ℕ) (out : ℕ × (ℕ → ℕ)) : Type 0 where
  pub number : out.0 ≡ n * 2
  pub ends : Ends inp n out.0 out.1

pub collect-Collected :
    (inp : ℕ → PhysRegion) (k i n nb : ℕ) (bs : ℕ → ℕ)
    → i + k ≡ n
    → nb ≡ i * 2
    → n ≤ phys_region_max_size
    → Ends inp i nb bs
    → Returns (Collected inp n) (collect inp k i nb bs)
unfolding collect
collect-Collected inp zero i n nb bs e enb fits h =
    let same : i ≡ n = omega arith in rw (← same) (returns (record { number = enb; ends = h }))
collect-Collected inp (suc k) i n nb bs e enb fits h =
    let first : ltb nb (phys_region_max_size * 2) ≡ true = ground arith in
    let second : ltb (nb + 1) (phys_region_max_size * 2) ≡ true = ground arith in
    rw (first, second)
      (collect-Collected inp k (i + 1) n (nb + 2)
        (write (write bs nb (inp i).start) (nb + 1) (inp i).end) (omega arith) (omega arith) fits
        (Ends-step inp i nb bs h))

-- More regions than the array has room for are written past its end.
pub collect_fault :
    (inp : ℕ → PhysRegion) (k i nb : ℕ) (bs : ℕ → ℕ)
    → nb ≡ i * 2
    → phys_region_max_size < i + k
    → i ≤ phys_region_max_size
    → collect inp k i nb bs ≡ fault
unfolding collect
collect_fault inp zero i nb bs enb more le = absurd (omega arith)
collect_fault inp (suc k) i nb bs enb more le =
    elim (Bool-cases (ltb nb (phys_region_max_size * 2))) [
      | inr out ↦ rw out
      | inl room ↦
          let second : ltb (nb + 1) (phys_region_max_size * 2) ≡ true = ground arith in
          rw (room, second)
            (collect_fault inp k (i + 1) (nb + 2) _ (omega arith) (omega arith) (ground arith))
    ]

-- Where the loop over the sorted boundaries `s` has come to.
record Uniq (s : ℕ → ℕ) (i n nu : ℕ) (us : ℕ → ℕ) : Type 0 where
  short : nu ≤ i
  some_kept : 0 < i → (0 < nu) × (us (nu - 1) ≡ s (i - 1))
  kept : (k : ℕ) → k < i → Holds us nu (s k)
  rest : (k : ℕ) → i ≤ k → us k ≡ s k
  increasing : (a b : ℕ) → a < b → b < nu → us a < us b

-- What the loop leaves.
pub record Unique (s : ℕ → ℕ) (n : ℕ) (out : ℕ × (ℕ → ℕ)) : Type 0 where
  pub short : out.0 ≤ n
  pub kept : (k : ℕ) → k < n → Holds out.1 out.0 (s k)
  pub increasing : (a b : ℕ) → a < b → b < out.0 → out.1 a < out.1 b

Uniq-fresh :
    (s : ℕ → ℕ) (i n nu : ℕ) (us : ℕ → ℕ)
    → IsSorted s n
    → i < n
    → Uniq s i n nu us
    → (i == 0 || not (us i == us (nu - 1))) ≡ true
    → Uniq s (i + 1) n (nu + 1) (write us nu (us i))
Uniq-fresh s i n nu us sorted lt u fresh = record {
  short = omega (arith, u.short);
  some_kept = λ h.
      let e : nu + 1 - 1 ≡ nu = omega arith in
      let e' : i + 1 - 1 ≡ i = omega arith in (omega arith, rw (e, e') (ground (arith, u.rest i)));
  kept = λ k h. elim (dec_lt k i) [
    | yes before ↦ let (j, lt', e) = u.kept k before in (j, omega arith, ground arith)
    | no last ↦
        let same : k ≡ i = omega arith in rw same (nu, omega arith, ground (arith, u.rest i))
  ];
  rest = λ k h. ground (arith, u.rest k, u.short);
  increasing = λ a b hab hb. ground (
    arith,
    u.short,
    u.increasing a b,
    u.increasing a (nu - 1),
    u.some_kept,
    sorted (i - 1) i,
    u.rest i,
  );
}

Uniq-repeat :
    (s : ℕ → ℕ) (i n nu : ℕ) (us : ℕ → ℕ)
    → Uniq s i n nu us
    → (i == 0 || not (us i == us (nu - 1))) ≡ false
    → Uniq s (i + 1) n nu us
Uniq-repeat s i n nu us u repeated = record {
  short = omega (arith, u.short);
  some_kept = λ h.
      let old = u.some_kept (ground arith) in
      let e : i + 1 - 1 ≡ i = omega arith in rw e (old.0, ground (arith, old, u.rest i));
  kept = λ k h. elim (dec_lt k i) [
    | yes before ↦ u.kept k before
    | no last ↦
        let same : k ≡ i = omega arith in
        let old = u.some_kept (ground arith) in
        rw same (nu - 1, omega (arith, old.0), ground (arith, old, u.rest i))
  ];
  rest = λ k h. ground (arith, u.rest k, u.short);
  increasing = u.increasing;
}

unique_loop-Unique :
    (k i n nu : ℕ) (s us : ℕ → ℕ)
    → IsSorted s n
    → i + k ≡ n
    → Uniq s i n nu us
    → Unique s n (unique_loop k i nu us)
unfolding unique_loop
unique_loop-Unique zero i n nu s us sorted e u =
    let same : i ≡ n = omega arith in
    record {
      short = omega (arith, u.short);
      kept = λ k h. u.kept k (omega arith);
      increasing = u.increasing;
    }
unique_loop-Unique (suc k) i n nu s us sorted e u =
    elim (Bool-cases (i == 0 || not (us i == us (nu - 1)))) [
      | inl fresh ↦ rw fresh (
          unique_loop-Unique k (i + 1) n (nu + 1) s (write us nu (us i)) sorted (omega arith)
            (Uniq-fresh s i n nu us sorted (omega arith) u fresh))
      | inr repeated ↦ rw repeated (
          unique_loop-Unique k (i + 1) n nu s us sorted (omega arith)
            (Uniq-repeat s i n nu us u repeated))
    ]

-- The loop keeps every value of a sorted array, once.
pub unique_loop_lem : (n : ℕ) (s : ℕ → ℕ) → IsSorted s n → Unique s n (unique_loop n 0 0 s)
unique_loop_lem n s sorted = unique_loop-Unique n 0 n 0 s s sorted (omega arith) (record {
  short = omega arith;
  some_kept = λ h. absurd (omega arith);
  kept = λ k h. absurd (omega arith);
  rest = λ k h. refl;
  increasing = λ a b hab hb. absurd (omega arith);
})
