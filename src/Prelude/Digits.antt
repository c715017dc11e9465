-- ===== src/Prelude/Digits.antt =====
-- `bit_or` of whole words: its quotient and remainder by a power of two.
use Prim.Native.Nat.{
  ℕ, zero, suc, ◌+◌, ◌*◌, ◌/◌, ◌%◌, ◌^◌, ◌≤◌, max, digits, bit_or, bit_or-bitwise,
}
use mathlib.Core.Path.{◌≡◌, refl, sym, ap, ◌∙◌}
use native.Mathlib.Omega.{arith}
use native.Mathlib.Decide.{dec_lt}
use native.Mathlib.Nat.{div-div-eq-div-mul, div-add-mod, mul_assoc, div-one, mod-one, pow-succ'}

-- The count of digits only has to be large enough.
digits_enough :
    (n m a b : ℕ) → a ≤ n → a ≤ m → digits (λ y. y) max n a b ≡ digits (λ y. y) max m a b
digits_enough zero zero a b p q = refl
digits_enough n m zero b p q = from n m
  where
    from : (n m : ℕ) → digits (λ y. y) max n 0 b ≡ digits (λ y. y) max m 0 b
    from zero zero = refl
    from zero (suc m) = refl
    from (suc n) zero = refl
    from (suc n) (suc m) = refl
digits_enough zero m (suc a) b p q = absurd (omega arith)
digits_enough (suc n) zero (suc a) b p q = absurd (omega arith)
digits_enough (suc n) (suc m) (suc a) b p q =
    rw (digits_enough n m (suc a / 2) (b / 2) (omega arith) (omega arith))

-- The lowest digit and the others.
pub bit_or_digit : (a b : ℕ) → bit_or a b ≡ bit_or (a / 2) (b / 2) * 2 + max (a % 2) (b % 2)
bit_or_digit zero b = simp bit_or-bitwise (omega arith)
bit_or_digit (suc a) b =
    simp bit_or-bitwise
      (omega (arith, digits_enough a (suc a / 2) (suc a / 2) (b / 2) (omega arith) (omega arith)))

bit_or_half : (a b : ℕ) → bit_or a b / 2 ≡ bit_or (a / 2) (b / 2)
bit_or_half a b = omega (arith, bit_or_digit a b)

bit_or_pair :
    (x y a b : ℕ) → bit_or (x * 2 + a % 2) (y * 2 + b % 2) ≡ bit_or x y * 2 + max (a % 2) (b % 2)
bit_or_pair x y a b =
    let h : (x * 2 + a % 2) / 2 ≡ x = omega arith in
    let k : (y * 2 + b % 2) / 2 ≡ y = omega arith in
    let l : (x * 2 + a % 2) % 2 ≡ a % 2 = omega arith in
    let m : (y * 2 + b % 2) % 2 ≡ b % 2 = omega arith in
    bit_or_digit (x * 2 + a % 2) (y * 2 + b % 2) ∙ rw (h, k, l, m) refl

div_double : (a m : ℕ) → a / (2 * m) ≡ a / 2 / m
div_double a m = sym (div-div-eq-div-mul a 2 m)

mod_double : (a m : ℕ) → a % (2 * m) ≡ a / 2 % m * 2 + a % 2
mod_double a m = omega (
  arith,
  div_double a m,
  div-add-mod a (2 * m),
  div-add-mod (a / 2) m,
  ap (λ q. 2 * m * q) (div_double a m),
  mul_assoc 2 m (a / 2 / m),
)

pub bit_or-div : (k a b : ℕ) → bit_or a b / 2 ^ k ≡ bit_or (a / 2 ^ k) (b / 2 ^ k)
bit_or-div zero a b = rw (div-one, div-one, div-one) refl
bit_or-div (suc k) a b =
    rw (pow-succ' 2 k, div_double, div_double, div_double)
      (rw (bit_or_half a b) (bit_or-div k (a / 2) (b / 2)))

pub bit_or-mod : (k a b : ℕ) → bit_or a b % 2 ^ k ≡ bit_or (a % 2 ^ k) (b % 2 ^ k)
bit_or-mod zero a b = rw (mod-one, mod-one, mod-one) refl
bit_or-mod (suc k) a b =
    rw (pow-succ' 2 k, mod_double, mod_double, mod_double)
      (rw (bit_or_half a b, bit_or-mod k (a / 2) (b / 2))
        (omega (arith, bit_or_digit a b, bit_or_pair (a / 2 % 2 ^ k) (b / 2 % 2 ^ k) a b)))

pub bit_or_zero : (a : ℕ) → bit_or a 0 ≡ a
bit_or_zero a = upto a a (omega arith)
  where
    upto : (n a : ℕ) → a ≤ n → bit_or a 0 ≡ a
    upto zero a le = ground (arith)
    upto (suc n) a le = elim (dec_lt 0 a) [
      | yes p ↦ omega (arith, bit_or_digit a 0, upto n (a / 2) (omega arith))
      | no p ↦ ground arith
    ]
