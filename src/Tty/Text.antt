-- ===== src/Tty/Text.antt =====
-- The text that waits in the terminal's ring buffer.
use snap_os.Prelude.{
  ℕ, zero, suc, ◌+◌, ◌-◌, ◌%◌, ◌≤◌, ◌<◌, ◌≡◌, ◌≢◌, refl, arith, ◌==◌, if◌then◌else◌,
}
use snap_os.Tty.{Tty, tty_buf_size}

-- How many characters wait, and which.
abbrev pub length : Tty → ℕ
length t = (t.tail + tty_buf_size - t.head) % tty_buf_size

abbrev pub char_at : Tty → ℕ → ℕ
char_at t i = t.buffer ((t.head + i) % tty_buf_size)

-- The newlines among the first `n` characters.
unfoldable pub lines : (ℕ → ℕ) → ℕ → ℕ
lines text zero = 0
lines text (suc n) = lines text n + (if text n == 10 then 1 else 0)

pub record IsRing (t : Tty) : Type 0 where
  pub head : t.head < tty_buf_size
  pub tail : t.tail < tty_buf_size

-- The counter of lines is that of the text.
pub record IsTty (t : Tty) : Type 0 where
  pub ring : IsRing t
  pub counted : t.canon_lines ≡ lines (char_at t) (length t)

pub lines-same : {a b : ℕ → ℕ} (n : ℕ) → ((i : ℕ) → i < n → a i ≡ b i) → lines a n ≡ lines b n
unfolding lines
lines-same zero e = refl
lines-same (suc n) e = rw (lines-same n (λ i lt. e i (omega arith)), e n (omega arith)) refl

pub lines-split :
    (text : ℕ → ℕ) (m n : ℕ) → lines text (m + n) ≡ lines text m + lines (λ i. text (m + i)) n
unfolding lines
lines-split text m zero = let e : m + 0 ≡ m = omega arith in rw e (omega arith)
lines-split text m (suc n) =
    let e : m + suc n ≡ suc (m + n) = omega arith in rw (e, lines-split text m n) (omega arith)

pub lines-le : (text : ℕ → ℕ) (n : ℕ) → lines text n ≤ n
unfolding lines
lines-le text zero = omega arith
lines-le text (suc n) = ground (arith, lines-le text n)

-- No newline, no line.
pub lines-none : (text : ℕ → ℕ) (n : ℕ) → ((i : ℕ) → i < n → text i ≢ 10) → lines text n ≡ 0
unfolding lines
lines-none text zero none = refl
lines-none text (suc n) none =
    ground (arith, lines-none text n (λ i lt. none i (omega arith)), none n)

pub lines-next :
    (text : ℕ → ℕ) (n : ℕ) → lines text (n + 1) ≡ lines text n + (if text n == 10 then 1 else 0)
unfolding lines
lines-next text n = let e : n + 1 ≡ suc n = omega arith in rw e refl
