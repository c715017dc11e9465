-- ===== src/EarlyPmm/Sort.antt =====
-- sort_u64 of mm/early_pmm.c sorts: the result is ordered and holds the same values, as often.
use snap_os.Prelude.{
  ℕ, zero, suc, ◌+◌, ◌≤◌, ◌<◌, ◌≡◌, refl, inl, inr, ◌∙◌, arith, leb, ◌==◌, if◌then◌else◌,
  Bool-cases, dec_lt, write,
}
use snap_os.EarlyPmm.{min_index, swap, sort_loop, sort_u64}

-- The first `n` entries are in order.
abbrev pub IsSorted : (ℕ → ℕ) → ℕ → Type 0
IsSorted arr n = (i j : ℕ) → i < j → j < n → arr i ≤ arr j

-- How often `v` stands among the first `n` entries.
unfoldable pub occurrences : ℕ → (ℕ → ℕ) → ℕ → ℕ
occurrences v arr zero = 0
occurrences v arr (suc n) = occurrences v arr n + (if arr n == v then 1 else 0)

-- An index below `n` that holds `v`.
abbrev pub Holds : (ℕ → ℕ) → ℕ → ℕ → Type 0
Holds arr n v = (i : ℕ) × (i < n) × (arr i ≡ v)

occurrences-write_beyond :
    (v : ℕ) (arr : ℕ → ℕ) (i x n : ℕ)
    → n ≤ i
    → occurrences v (write arr i x) n ≡ occurrences v arr n
unfolding occurrences
occurrences-write_beyond v arr i x zero h = refl
occurrences-write_beyond v arr i x (suc n) h = ground (arith, occurrences-write_beyond v arr i x n)

occurrences-write :
    (v : ℕ) (arr : ℕ → ℕ) (i x n : ℕ)
    → i < n
    → occurrences v (write arr i x) n + (if arr i == v then 1 else 0)
      ≡ occurrences v arr n + (if x == v then 1 else 0)
unfolding occurrences
occurrences-write v arr i x zero h = absurd (omega arith)
occurrences-write v arr i x (suc n) h =
    ground (arith, occurrences-write v arr i x n, occurrences-write_beyond v arr i x n)

occurrences-swap :
    (v : ℕ) (arr : ℕ → ℕ) (i j n : ℕ)
    → i < n
    → j < n
    → occurrences v (swap arr i j) n ≡ occurrences v arr n
occurrences-swap v arr i j n hi hj = ground (
  arith,
  occurrences-write v (write arr i (arr j)) j (arr i) n,
  occurrences-write v arr i (arr j) n,
)

pos_of_Holds : (v : ℕ) (arr : ℕ → ℕ) (n : ℕ) → Holds arr n v → 0 < occurrences v arr n
unfolding occurrences
pos_of_Holds v arr zero h = absurd (omega arith)
pos_of_Holds v arr (suc n) (i, lt, e) = elim (dec_lt i n) [
  | yes below ↦ omega (arith, pos_of_Holds v arr n (i, below, e))
  | no last ↦ let same : i ≡ n = omega arith in ground arith
]

Holds-of_pos : (v : ℕ) (arr : ℕ → ℕ) (n : ℕ) → 0 < occurrences v arr n → Holds arr n v
unfolding occurrences
Holds-of_pos v arr zero h = absurd (omega arith)
Holds-of_pos v arr (suc n) h = elim (Bool-cases (arr n == v)) [
  | inl eq ↦ (n, omega arith, ground arith)
  | inr ne ↦ let (i, lt, e) = Holds-of_pos v arr n (ground arith) in (i, omega arith, e)
]

-- The inner loop finds a least entry of `arr[i..n)`, if `m` is one of `arr[i..j)`.
record IsLeast (arr : ℕ → ℕ) (i n m : ℕ) : Type 0 where
  from : i ≤ m
  below : m < n
  least : (a : ℕ) → i ≤ a → a < n → arr m ≤ arr a

min_index-IsLeast :
    (arr : ℕ → ℕ) (i k j m : ℕ) → IsLeast arr i j m → IsLeast arr i (j + k) (min_index arr k j m)
unfolding min_index
min_index-IsLeast arr i zero j m h = let e : j + 0 ≡ j = omega arith in rw e h
min_index-IsLeast arr i (suc k) j m h =
    let e : j + suc k ≡ j + 1 + k = omega arith in
    rw e (
      min_index-IsLeast arr i k (j + 1) (if leb (arr m) (arr j) then m else j)
        (elim (Bool-cases (leb (arr m) (arr j))) [
          | inl keep ↦ rw keep (record {
            from = h.from;
            below = omega (arith, h.below);
            least = λ a lo hi. ground (arith, h.least a);
          })
          | inr take ↦ rw take (record {
            from = omega (arith, h.from, h.below);
            below = omega arith;
            least = λ a lo hi. ground (arith, h.least a);
          })
        ]))

-- The first `i` entries are in order and below the rest.
record Prefix (arr : ℕ → ℕ) (i n : ℕ) : Type 0 where
  sorted : (a b : ℕ) → a < b → b < i → arr a ≤ arr b
  below : (a b : ℕ) → a < i → i ≤ b → b < n → arr a ≤ arr b

Prefix-swap :
    (arr : ℕ → ℕ) (i n m : ℕ) → Prefix arr i n → IsLeast arr i n m → Prefix (swap arr i m) (i + 1) n
Prefix-swap arr i n m p l = record {
  sorted = λ a b lt hb. ground (arith, p.sorted a b, p.below a m, l.from, l.below);
  below = λ a b ha lo hb. ground (
    arith,
    p.below a b,
    p.below a i,
    p.below a m,
    l.from,
    l.below,
    l.least b,
    l.least i,
    l.least a,
  );
}

Prefix-keep : (arr : ℕ → ℕ) (i n : ℕ) → Prefix arr i n → IsLeast arr i n i → Prefix arr (i + 1) n
Prefix-keep arr i n p l = record {
  sorted = λ a b lt hb. ground (arith, p.sorted a b, p.below a b, l.below);
  below = λ a b ha lo hb. ground (arith, p.below a b, l.least b, l.least a);
}

record Sorted (arr : ℕ → ℕ) (n : ℕ) (arr' : ℕ → ℕ) : Type 0 where
  sorted : IsSorted arr' n
  same : (v : ℕ) → occurrences v arr' n ≡ occurrences v arr n

scan-IsLeast :
    (arr : ℕ → ℕ) (i k n : ℕ) → i + suc k ≡ n → IsLeast arr i n (min_index arr k (i + 1) i)
scan-IsLeast arr i k n e =
    let end : i + 1 + k ≡ n = omega arith in
    rw end at (
      min_index-IsLeast arr i k (i + 1) i (record {
        from = omega arith;
        below = omega arith;
        least = λ a lo hi. let same : a ≡ i = omega arith in rw same (omega arith);
      }))

-- One round of the outer loop, with the least entry of the rest at `m`.
abbrev placed : (ℕ → ℕ) → ℕ → ℕ → ℕ → ℕ
placed arr i m = if m == i then arr else swap arr i m

placed-Prefix :
    (arr : ℕ → ℕ) (i n m : ℕ)
    → Prefix arr i n
    → IsLeast arr i n m
    → Prefix (placed arr i m) (i + 1) n
placed-Prefix arr i n m p l = elim (Bool-cases (m == i)) [
  | inl same ↦ let e : m ≡ i = ground arith in rw same (Prefix-keep arr i n p (rw e at l))
  | inr other ↦ rw other (Prefix-swap arr i n m p l)
]

occurrences-placed :
    (v : ℕ) (arr : ℕ → ℕ) (i n m : ℕ)
    → IsLeast arr i n m
    → occurrences v (placed arr i m) n ≡ occurrences v arr n
occurrences-placed v arr i n m l = elim (Bool-cases (m == i)) [
  | inl same ↦ rw same
  | inr other ↦ rw other (occurrences-swap v arr i m n (omega (arith, l.from, l.below)) l.below)
]

sort_loop-Sorted :
    (k i n : ℕ) (arr : ℕ → ℕ) → i + k ≡ n → Prefix arr i n → Sorted arr n (sort_loop k i arr)
unfolding sort_loop
sort_loop-Sorted zero i n arr e p = record {
  sorted = λ a b lt hb. p.sorted a b lt (omega arith);
  same = λ v. refl;
}
sort_loop-Sorted (suc k) i n arr e p =
    let least = scan-IsLeast arr i k n e in
    let m = min_index arr k (i + 1) i in
    let rest =
      sort_loop-Sorted k (i + 1) n (placed arr i m) (omega arith)
        (placed-Prefix arr i n m p least) in
    record { sorted = rest.sorted; same = λ v. rest.same v ∙ occurrences-placed v arr i n m least }

-- sort_u64 puts the first `n` entries in order, and each value stands among them as often as before.
pub sort_u64_lem :
    (arr : ℕ → ℕ) (n : ℕ)
    → IsSorted (sort_u64 arr n) n
      × ((v : ℕ) → occurrences v (sort_u64 arr n) n ≡ occurrences v arr n)
unfolding sort_u64
sort_u64_lem arr n =
    let s = sort_loop-Sorted n 0 n arr (omega arith) (record {
      sorted = λ a b lt hb. absurd (omega arith);
      below = λ a b ha lo hb. absurd (omega arith);
    }) in
    (s.sorted, s.same)

pub sort_u64-Holds : (arr : ℕ → ℕ) (n : ℕ) {v : ℕ} → Holds arr n v → Holds (sort_u64 arr n) n v
sort_u64-Holds arr n {v} h =
    Holds-of_pos v (sort_u64 arr n) n
      (omega (arith, (sort_u64_lem arr n).1 v, pos_of_Holds v arr n h))
