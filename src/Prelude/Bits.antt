-- ===== src/Prelude/Bits.antt =====
-- Single bits of a byte: `x & (1 << b)`, `x |= 1 << b` and `x &= ~(1 << b)`, with their laws,
-- which are checked at every byte and bit by evaluation.
use Prim.Native.Nat.{ℕ, zero, suc, ◌-◌, ◌^◌, ◌<◌, bit_and, bit_or}
use mathlib.Core.Path.{◌≡◌, refl, ◌∙◌}
use mathlib.Core.Bool.{Bool, true, false, not, ◌&&◌, ◌||◌}
use native.Mathlib.Omega.{arith}
use snap_os.Prelude.Tests.{◌==◌, ltb, if◌then◌else◌}

unfoldable pub test_bit : ℕ → ℕ → Bool
test_bit x b = not (bit_and x (2 ^ b) == 0)

unfoldable pub set_bit : ℕ → ℕ → ℕ
set_bit x b = bit_or x (2 ^ b)

-- `~(1 << b)` cut to the byte that it is stored in.
unfoldable pub clear_bit : ℕ → ℕ → ℕ
clear_bit x b = bit_and x (255 - 2 ^ b)

-- Whether a test passes at `0` to `n - 1`.
passes : (ℕ → Bool) → ℕ → Bool
passes test zero = true
passes test (suc n) = if test n then passes test n else false

passes_at : (test : ℕ → Bool) {x : ℕ} (n : ℕ) → x < n → passes test n ≡ true → test x ≡ true
unfolding passes
passes_at test zero lt ran = absurd (omega arith)
passes_at test {x} (suc n) lt ran = ground (arith, passes_at test {x = x} n)

abbrev iff : Bool → Bool → Bool
iff true b = b
iff false b = not b

iff_sound : (a b : Bool) → iff a b ≡ true → a ≡ b
iff_sound a b h = ground arith

-- A test on bytes and two bits that holds at all of them.
abbrev everywhere : (ℕ → ℕ → ℕ → Bool) → Bool
everywhere p = passes (λ x. passes (λ b. passes (p x b) 8) 8) 256

everywhere_sound :
    (p : ℕ → ℕ → ℕ → Bool)
    → everywhere p ≡ true
    → (x b c : ℕ) → x < 256
    → b < 8
    → c < 8
    → p x b c ≡ true
everywhere_sound p h x b c hx hb hc = passes_at (p x b) 8 hc (
    passes_at (λ b. passes (p x b) 8) 8 hb
      (passes_at (λ x. passes (λ b. passes (p x b) 8) 8) 256 hx h))

set_table : everywhere (λ x b c. iff (test_bit (set_bit x b) c) ((b == c) || test_bit x c)) ≡ true
unfolding passes test_bit set_bit
set_table = refl

clear_table :
    everywhere (λ x b c. iff (test_bit (clear_bit x b) c) (not (b == c) && test_bit x c)) ≡ true
unfolding passes test_bit clear_bit
clear_table = refl

range_table : everywhere (λ x b c. ltb (set_bit x b) 256 && ltb (clear_bit x b) 256) ≡ true
unfolding passes set_bit clear_bit
range_table = refl

-- 0xff is the byte with every bit set.
full_table : everywhere (λ x b c. iff (x == 255) (passes (test_bit x) 8)) ≡ true
unfolding passes test_bit
full_table = refl

module _ (x b c : ℕ) (hx : x < 256) (hb : b < 8) (hc : c < 8) where
  pub test_bit-set_bit : test_bit (set_bit x b) c ≡ ((b == c) || test_bit x c)
  test_bit-set_bit = iff_sound _ _ (everywhere_sound _ set_table x b c hx hb hc)

  pub test_bit-clear_bit : test_bit (clear_bit x b) c ≡ (not (b == c) && test_bit x c)
  test_bit-clear_bit = iff_sound _ _ (everywhere_sound _ clear_table x b c hx hb hc)

ltb_sound : (a b : ℕ) → ltb a b ≡ true → a < b
ltb_sound a b h = ground arith

and_left : (a b : Bool) → (a && b) ≡ true → a ≡ true
and_left a b h = ground arith

and_right : (a b : Bool) → (a && b) ≡ true → b ≡ true
and_right a b h = ground arith

pub set_bit-lt : (x b : ℕ) → x < 256 → b < 8 → set_bit x b < 256
set_bit-lt x b hx hb =
    ltb_sound _ _ (and_left _ _ (everywhere_sound _ range_table x b 0 hx hb (omega arith)))

pub clear_bit-lt : (x b : ℕ) → x < 256 → b < 8 → clear_bit x b < 256
clear_bit-lt x b hx hb =
    ltb_sound _ _ (
      and_right (ltb (set_bit x b) 256) _
        (everywhere_sound _ range_table x b 0 hx hb (omega arith)))

full_iff : (x : ℕ) → x < 256 → (x == 255) ≡ passes (test_bit x) 8
full_iff x hx = iff_sound _ _ (everywhere_sound _ full_table x 0 0 hx (omega arith) (omega arith))

-- A byte that equals 0xff has every bit set.
pub test_bit_of_full : (x b : ℕ) → x < 256 → (x == 255) ≡ true → b < 8 → test_bit x b ≡ true
test_bit_of_full x b hx e hb = passes_at (test_bit x) 8 hb (rw (← full_iff x hx) e)

-- A byte with every bit set equals 0xff.
pub full_of_test_bit :
    (x : ℕ) → x < 256 → ((b : ℕ) → b < 8 → test_bit x b ≡ true) → (x == 255) ≡ true
unfolding passes
full_of_test_bit x hx h = full_iff x hx ∙ ground (arith, h 0, h 1, h 2, h 3, h 4, h 5, h 6, h 7)

zero_table : passes (λ c. not (test_bit 0 c)) 8 ≡ true
unfolding passes test_bit
zero_table = refl

pub test_bit-zero : (c : ℕ) → c < 8 → test_bit 0 c ≡ false
test_bit-zero c hc = ground (arith, passes_at (λ c. not (test_bit 0 c)) 8 hc zero_table)

ones_table : passes (λ c. test_bit 255 c) 8 ≡ true
unfolding passes test_bit
ones_table = refl

pub test_bit_ones : (c : ℕ) → c < 8 → test_bit 255 c ≡ true
test_bit_ones c hc = passes_at (λ c. test_bit 255 c) 8 hc ones_table
