-- ===== src/Strings/Compare.antt =====
-- klibc/string.c: what a comparison says.
use snap_os.Prelude.{
  ℕ, zero, suc, ◌+◌, ◌-◌, ◌<◌, ◌≡◌, ◌≢◌, inl, inr, true, false, arith, leb, ◌==◌, Bool-cases,
  dec_lt, Returns, returns, Returns-mono,
}
use snap_os.Strings.{ℤ, pos, negsuc, difference, from, memcmp, strcmp}

-- A string of `n` characters before its zero.
pub record IsString (s : ℕ → ℕ) (n : ℕ) : Type 0 where
  pub ends : s n ≡ 0
  pub chars : (i : ℕ) → i < n → s i ≢ 0

-- The order of two sequences whose first difference, if any, stands at `k`, and the number that says
-- so: 0 for equal ones, else the difference of the bytes there.
pub data Compared (s1 s2 : ℕ → ℕ) (n : ℕ) : ℤ → Type 0 where
  same : ((i : ℕ) → i < n → s1 i ≡ s2 i) → Compared s1 s2 n (pos 0)
  above :
      (k : ℕ)
      → k < n
      → ((i : ℕ) → i < k → s1 i ≡ s2 i)
      → s2 k < s1 k
      → Compared s1 s2 n (pos (s1 k - s2 k))
  below :
      (k : ℕ)
      → k < n
      → ((i : ℕ) → i < k → s1 i ≡ s2 i)
      → s1 k < s2 k
      → Compared s1 s2 n (negsuc (s2 k - s1 k - 1))

one_more :
    (s1 s2 : ℕ → ℕ) {m : ℕ}
    → s1 0 ≡ s2 0
    → ((i : ℕ) → i < m → from s1 1 i ≡ from s2 1 i)
    → (i : ℕ) → i < 1 + m
    → s1 i ≡ s2 i
one_more s1 s2 e h i lt = elim (dec_lt 0 i) [
  | yes behind ↦
      let back : 1 + (i - 1) ≡ i = omega arith in
      let there = h (i - 1) (omega arith) in rw back at there
  | no at_start ↦ (let z : i ≡ 0 = omega arith in rw z e)
]

later :
    {s1 s2 : ℕ → ℕ} {n : ℕ} {z : ℤ}
    → s1 0 ≡ s2 0
    → Compared (from s1 1) (from s2 1) n z
    → Compared s1 s2 (suc n) z
later {s1} {s2} e (same h) = same (λ i lt. one_more s1 s2 e h i (omega arith))
later {s1} {s2} e (above k lt h gt) = above (1 + k) (omega arith) (one_more s1 s2 e h) gt
later {s1} {s2} e (below k lt h gt) = below (1 + k) (omega arith) (one_more s1 s2 e h) gt

-- The first bytes differ.
here : {s1 s2 : ℕ → ℕ} (n : ℕ) → s1 0 ≢ s2 0 → Compared s1 s2 (suc n) (difference (s1 0) (s2 0))
here {s1} {s2} n other = elim (Bool-cases (leb (s2 0) (s1 0))) [
  | inl le ↦ rw le (above 0 (omega arith) (λ i lt. absurd (omega arith)) (ground arith))
  | inr gt ↦ rw gt (below 0 (omega arith) (λ i lt. absurd (omega arith)) (ground arith))
]

-- memcmp returns 0 if and only if the first `n` bytes agree, and else the difference of the first
-- two bytes that do not.
pub memcmp-Compared : (s1 s2 : ℕ → ℕ) (n : ℕ) → Compared s1 s2 n (memcmp s1 s2 n)
unfolding memcmp
memcmp-Compared s1 s2 zero = same (λ i lt. absurd (omega arith))
memcmp-Compared s1 s2 (suc n) = elim (Bool-cases (s1 0 == s2 0)) [
  | inl e ↦ rw e (later (ground arith) (memcmp-Compared (from s1 1) (from s2 1) n))
  | inr other ↦ rw other (here n (ground arith))
]

tail_IsString : {s : ℕ → ℕ} {n : ℕ} → IsString s (suc n) → IsString (from s 1) n
tail_IsString {s} {n} h = record {
  ends = (let e : 1 + n ≡ suc n = omega arith in rw e h.ends);
  chars = λ i lt. h.chars (1 + i) (omega arith);
}

-- On a string of `n` characters, strcmp looks at no more than its `n + 1` bytes, and returns 0 if
-- and only if the other string has the same, and else the difference of the first two that differ.
pub strcmp-Compared :
    (n fuel : ℕ) {s1 : ℕ → ℕ} (s2 : ℕ → ℕ)
    → IsString s1 n
    → n < fuel
    → Returns (Compared s1 s2 (suc n)) (strcmp fuel s1 s2)
unfolding strcmp
strcmp-Compared n zero s2 h lt = absurd (omega arith)
strcmp-Compared zero (suc fuel) {s1} s2 h lt =
    let stop : (s1 0 == 0) ≡ true = ground (arith, h.ends) in rw stop (returns (at_end s2 h.ends))
  where
    at_end : (s2 : ℕ → ℕ) → s1 0 ≡ 0 → Compared s1 s2 1 (difference (s1 0) (s2 0))
    at_end s2 e = elim (Bool-cases (s1 0 == s2 0)) [
      | inr other ↦ here 0 (ground arith)
      | inl equal ↦
          let le : leb (s2 0) (s1 0) ≡ true = ground arith in
          let none : s1 0 - s2 0 ≡ 0 = ground arith in
          rw (le, none) (same (λ i lt. (let z : i ≡ 0 = omega arith in rw z (ground arith))))
    ]
strcmp-Compared (suc n) (suc fuel) {s1} s2 h lt =
    let go : (s1 0 == 0) ≡ false = ground (arith, h.chars 0) in
    elim (Bool-cases (s1 0 == s2 0)) [
      | inr other ↦ rw (go, other) (returns (here (suc n) (ground arith)))
      | inl equal ↦
          rw (go, equal)
            (Returns-mono (strcmp-Compared n fuel (from s2 1) (tail_IsString h) (omega arith))
              (λ z c. later (ground arith) c))
    ]
