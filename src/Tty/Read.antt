-- ===== src/Tty/Read.antt =====
-- __tty_read: a line, or the part of it that the caller has room for.
use snap_os.Prelude.{
  ℕ, zero, suc, ◌+◌, ◌-◌, ◌%◌, ◌^◌, ◌≤◌, ◌<◌, ◌≡◌, ◌≢◌, refl, inl, inr, arith, ltb, ◌==◌,
  Bool-cases, dec_lt, write, word64,
}
use snap_os.Tty.{Tty, tty_buf_size, tty_has_line, available, size_min, read_loop, tty_read_line}
use snap_os.Tty.Text.{
  length, char_at, lines, IsRing, IsTty, lines-same, lines-le, lines-next, lines-none, lines-split,
}

-- The characters `i` to `n - 1` of the text stand in the caller's buffer, and nothing else changes.
pub record Copied (text buf : ℕ → ℕ) (i n : ℕ) (buf' : ℕ → ℕ) : Type 0 where
  pub copied : (j : ℕ) → i ≤ j → j < n → buf' j ≡ text j
  pub before : (j : ℕ) → j < i → buf' j ≡ buf j
  pub behind : (j : ℕ) → n ≤ j → buf' j ≡ buf j

-- How the loop ends, `count` being the counter of lines.
data Ended (text buf : ℕ → ℕ) (i k count : ℕ) : ℕ × (ℕ → ℕ) × ℕ → Type 0 where
  at_line :
      (n : ℕ) (buf' : ℕ → ℕ)
      → i < n
      → n ≤ i + k
      → text (n - 1) ≡ 10
      → ((j : ℕ) → i ≤ j → j + 1 < n → text j ≢ 10)
      → Copied text buf i n buf'
      → Ended text buf i k count (n, buf', word64 (count + (2 ^ 64 - 1)))
  at_end :
      (n : ℕ) (buf' : ℕ → ℕ)
      → n ≡ i + k
      → ((j : ℕ) → i ≤ j → j < n → text j ≢ 10)
      → Copied text buf i n buf'
      → Ended text buf i k count (n, buf', count)

Copied-later :
    {text buf : ℕ → ℕ} {i n : ℕ} {buf' : ℕ → ℕ}
    → i < n
    → Copied text (write buf i (text i)) (i + 1) n buf'
    → Copied text buf i n buf'
Copied-later {text} {buf} {i} lt c = record {
  copied = λ j le lt. ground (arith, c.copied j, c.before j);
  before = λ j lt. ground (arith, c.before j);
  behind = λ j le. ground (arith, c.behind j);
}

from_char :
    {text : ℕ → ℕ} {n : ℕ} (i : ℕ)
    → text i ≢ 10
    → ((j : ℕ) → i + 1 ≤ j → j + 1 < n → text j ≢ 10)
    → (j : ℕ) → i ≤ j
    → j + 1 < n
    → text j ≢ 10
from_char i char none j le lt = ground (arith, char, none j)

from_last :
    {text : ℕ → ℕ} {n : ℕ} (i : ℕ)
    → text i ≢ 10
    → ((j : ℕ) → i + 1 ≤ j → j < n → text j ≢ 10)
    → (j : ℕ) → i ≤ j
    → j < n
    → text j ≢ 10
from_last i char none j le lt = ground (arith, char, none j)

next_char :
    {text buf : ℕ → ℕ} {i k count : ℕ} {out : ℕ × (ℕ → ℕ) × ℕ}
    → text i ≢ 10
    → Ended text (write buf i (text i)) (i + 1) k count out
    → Ended text buf i (suc k) count out
next_char {text} {buf} {i} {k} char (at_line n buf' low high line none c) =
    at_line n buf' (omega arith) (omega arith) line (from_char i char none)
      (Copied-later (omega arith) c)
next_char {text} {buf} {i} {k} char (at_end n buf' e none c) =
    at_end n buf' (omega arith) (from_last i char none) (Copied-later (omega arith) c)

read_loop-Ended :
    (t : Tty) (k i : ℕ) (buf : ℕ → ℕ)
    → Ended (char_at t) buf i k t.canon_lines (read_loop t k i buf)
unfolding read_loop
read_loop-Ended t zero i buf =
    at_end i buf (omega arith) (λ j le lt. absurd (omega arith))
      (record {
        copied = λ j le lt. absurd (omega arith);
        before = λ j lt. refl;
        behind = λ j le. refl;
      })
read_loop-Ended t (suc k) i buf = elim (Bool-cases (char_at t i == 10)) [
  | inl line ↦ rw line (
      at_line (i + 1) (write buf i (char_at t i)) (omega arith) (omega arith)
        (let e : i + 1 - 1 ≡ i = omega arith in ground (arith, e, line))
        (λ j le lt. absurd (omega arith))
        (record {
          copied = λ j le lt. ground arith;
          before = λ j lt. ground arith;
          behind = λ j le. ground arith;
        }))
  | inr char ↦
      rw char (next_char (ground arith) (read_loop-Ended t k (i + 1) (write buf i (char_at t i))))
]

-- The text without its first `n` characters.
pub record Shifted (t : Tty) (n : ℕ) (t' : Tty) : Type 0 where
  pub shorter : length t ≡ n + length t'
  pub text : (i : ℕ) → i < length t' → char_at t' i ≡ char_at t (n + i)

-- What __tty_read may return: nothing where there is no line; the first line with its newline; or as
-- many characters of it as the caller has asked for, with no newline among them.
pub data Taken (t : Tty) (buf : ℕ → ℕ) (count : ℕ) : ℕ × (ℕ → ℕ) × Tty → Type 0 where
  no_line : lines (char_at t) (length t) ≡ 0 → Taken t buf count (0, buf, t)
  whole :
      (n : ℕ) (buf' : ℕ → ℕ) (t' : Tty)
      → 0 < n
      → n ≤ count
      → char_at t (n - 1) ≡ 10
      → ((j : ℕ) → j + 1 < n → char_at t j ≢ 10)
      → Copied (char_at t) buf 0 n buf'
      → Shifted t n t'
      → t.canon_lines ≡ t'.canon_lines + 1
      → IsTty t'
      → Taken t buf count (n, buf', t')
  part :
      (buf' : ℕ → ℕ) (t' : Tty)
      → ((j : ℕ) → j < count → char_at t j ≢ 10)
      → Copied (char_at t) buf 0 count buf'
      → Shifted t count t'
      → t'.canon_lines ≡ t.canon_lines
      → IsTty t'
      → Taken t buf count (count, buf', t')

move_head-Shifted :
    (n lines' : ℕ) {t : Tty}
    → IsRing t
    → n ≤ length t
    → Shifted t n (record t { head = (t.head + n) % tty_buf_size; canon_lines = lines' })
move_head-Shifted n lines' {t} r le = record {
  shorter = ground (arith, r.head, r.tail);
  text = λ i lt.
      (let e : ((t.head + n) % tty_buf_size + i) % tty_buf_size
            ≡ (t.head + (n + i)) % tty_buf_size =
          omega arith in
        rw e refl);
}

-- The newlines that are left.
Shifted-lines :
    {t t' : Tty} {n : ℕ}
    → Shifted t n t'
    → lines (char_at t) (length t) ≡ lines (char_at t) n + lines (char_at t') (length t')
Shifted-lines {t} {t'} {n} h =
    rw (h.shorter, lines-split (char_at t) n (length t'), lines-same (length t') h.text) refl

lines-one :
    (text : ℕ → ℕ) (n : ℕ)
    → 0 < n
    → text (n - 1) ≡ 10
    → ((j : ℕ) → 0 ≤ j → j + 1 < n → text j ≢ 10)
    → lines text n ≡ 1
lines-one text n low line none =
    let e : n - 1 + 1 ≡ n = omega arith in
    let l = lines-next text (n - 1) in
    let z = lines-none text (n - 1) (λ j lt. none j (omega arith) (omega arith)) in
    let r : lines text (n - 1 + 1) ≡ 1 = ground (arith, l, z, line) in rw e at r

Ended-Taken :
    {t : Tty} {buf : ℕ → ℕ} {count : ℕ} {out : ℕ × (ℕ → ℕ) × ℕ}
    → IsTty t
    → 0 < t.canon_lines
    → Ended (char_at t) buf 0 (size_min (length t) count) t.canon_lines out
    → Taken t buf count
        (out.0, out.1, record t { head = (t.head + out.0) % tty_buf_size; canon_lines = out.2 })
Ended-Taken {t} {buf} {count} h has (at_line n buf' low high line none c) =
    let small = lines-le (char_at t) (length t) in
    let fits : n ≤ length t = ground arith in
    let s = move_head-Shifted n (word64 (t.canon_lines + (2 ^ 64 - 1))) h.ring fits in
    let left = Shifted-lines s in
    let one = lines-one (char_at t) n low line none in
    whole n buf' _ low (ground arith) line (λ j lt. none j (omega arith) lt) c s
      (omega (arith, h.counted))
      (record {
        ring = record { head = omega arith; tail = h.ring.tail };
        counted = omega (arith, h.counted, left, one);
      })
Ended-Taken {t} {buf} {count} h has (at_end n buf' e none c) = elim (dec_lt count (length t)) [
  | yes more ↦
      let all : n ≡ count = ground arith in
      let s = move_head-Shifted count t.canon_lines h.ring (omega arith) in
      let left = Shifted-lines s in
      let none' = rw all at none in
      let z = lines-none (char_at t) count (λ j lt. none' j (omega arith) lt) in
      rw all (
        part buf' _ (λ j lt. none' j (omega arith) lt) (rw all at c) s refl
          (record {
            ring = record { head = omega arith; tail = h.ring.tail };
            counted = omega (arith, h.counted, left, z);
          }))
  | no enough ↦
      (let all : n ≡ length t = ground arith in
        let z = lines-none (char_at t) (length t) (λ j lt. none j (omega arith) (omega arith)) in
        absurd (omega (arith, h.counted)))
]

-- On a terminal whose count of lines is right, __tty_read returns 0 where no line waits. Otherwise
-- it copies the text up to the first newline, or `count` characters of it where no newline is
-- among them, and takes them out of the text; the rest of it is kept and its count of lines is right.
pub tty_read_line-Taken :
    {t : Tty} (buf : ℕ → ℕ) (count : ℕ) → IsTty t → Taken t buf count (tty_read_line t buf count)
unfolding tty_read_line tty_has_line
tty_read_line-Taken {t} buf count h = elim (Bool-cases (ltb 0 t.canon_lines)) [
  | inr none_left ↦ rw none_left (no_line (ground (arith, h.counted)))
  | inl some_line ↦
      let small = lines-le (char_at t) (length t) in
      let e : available t ≡ length t = ground (arith, h.counted, h.ring.head, h.ring.tail) in
      rw (some_line, e)
        (Ended-Taken h (ground arith) (read_loop-Ended t (size_min (length t) count) 0 buf))
]
