-- ===== src/Tty/Push.antt =====
-- tty_push_char: every branch of the line discipline.
use snap_os.Prelude.{
  ℕ, ◌+◌, ◌-◌, ◌%◌, ◌<◌, ◌≡◌, ◌≢◌, refl, inl, inr, Bool, true, false, arith, ◌==◌, if◌then◌else◌,
  Bool-cases, dec_lt, word64, ok, Returns, returns, Returns->>=,
}
use snap_os.Vga.{Vga}
use snap_os.Vga.Cursor.{IsCursor, vga_putchar-IsCursor, vga_del_last-Erased}
use snap_os.Tty.{
  Tty, tty_buf_size, tty_is_empty, handle_backspace, store, count_line, tty_push_char,
}
use snap_os.Tty.Text.{length, char_at, lines, IsRing, IsTty, lines-same, lines-le, lines-next}

-- One slot of the buffer stays free.
abbrev pub capacity : ℕ
capacity = 511

-- The text with a character typed behind it.
record Typed (input : ℕ) (t t' : Tty) : Type 0 where
  pub ring : IsRing t'
  pub longer : length t' ≡ length t + 1
  pub last : char_at t' (length t) ≡ input
  pub others : (i : ℕ) → i < length t → char_at t' i ≡ char_at t i

store-Typed : (input : ℕ) {t : Tty} → IsRing t → length t < capacity → Typed input t (store input t)
store-Typed input {t} r room =
    let free : ((t.tail + 1) % tty_buf_size == t.head) ≡ false = ground (arith, r.head, r.tail) in
    let e : (t.head + length t) % tty_buf_size ≡ t.tail = ground (arith, r.head, r.tail) in
    rw free (record {
      ring = record { head = r.head; tail = omega arith };
      longer = ground (arith, r.head, r.tail);
      last = rw e (ground arith);
      others = λ i lt. ground (arith, r.head, r.tail);
    })

store-full : (input : ℕ) {t : Tty} → IsRing t → length t ≡ capacity → store input t ≡ t
store-full input {t} r full =
    let e : ((t.tail + 1) % tty_buf_size == t.head) ≡ true = ground (arith, r.head, r.tail) in
    rw e refl

-- What tty_push_char may leave of a terminal whose count of lines is right.
pub data Pushed (input : ℕ) (t : Tty) : Bool × Tty × Vga → Type 0 where
  stored :
      (t' : Tty) (v : Vga)
      → input ≢ 8
      → IsTty t'
      → length t' ≡ length t + 1
      → char_at t' (length t) ≡ input
      → ((i : ℕ) → i < length t → char_at t' i ≡ char_at t i)
      → IsCursor v
      → Pushed input t (input == 10, t', v)
  dropped :
      (v : Vga)
      → input ≢ 8
      → input ≢ 10
      → length t ≡ capacity
      → IsCursor v
      → Pushed input t (false, t, v)
  overcounted :
      (v : Vga)
      → input ≡ 10
      → length t ≡ capacity
      → IsCursor v
      → Pushed input t (true, record t { canon_lines = t.canon_lines + 1 }, v)
  erased :
      (t' : Tty) (v : Vga)
      → input ≡ 8
      → length t ≡ length t' + 1
      → ((i : ℕ) → i < length t' → char_at t' i ≡ char_at t i)
      → char_at t (length t') ≢ 10
      → IsTty t'
      → IsCursor v
      → Pushed input t (false, t', v)
  uncounted :
      (t' : Tty) (v : Vga)
      → input ≡ 8
      → length t ≡ length t' + 1
      → ((i : ℕ) → i < length t' → char_at t' i ≡ char_at t i)
      → char_at t (length t') ≡ 10
      → t'.canon_lines ≡ lines (char_at t') (length t') + 1
      → IsRing t'
      → IsCursor v
      → Pushed input t (false, t', v)
  nothing : (v : Vga) → input ≡ 8 → length t ≡ 0 → IsCursor v → Pushed input t (false, t, v)

count_line-IsTty :
    (input : ℕ) {t t' : Tty}
    → IsTty t
    → t'.canon_lines ≡ t.canon_lines
    → Typed input t t'
    → IsTty (count_line input t')
count_line-IsTty input {t} {t'} h same y =
    let all : lines (char_at t') (length t')
        ≡ lines (char_at t) (length t) + (if input == 10 then 1 else 0) =
      rw (y.longer, lines-next (char_at t') (length t), lines-same (length t) y.others, y.last)
        refl in
    let small = lines-le (char_at t) (length t) in
    elim (Bool-cases (input == 10)) [
      | inl line ↦ rw line (record {
        ring = record { head = y.ring.head; tail = y.ring.tail };
        counted = ground (arith, h.counted, all);
      })
      | inr other ↦ rw other (record { ring = y.ring; counted = ground (arith, h.counted, all) })
    ]

count_line-Typed : (input : ℕ) {t t' : Tty} → Typed input t t' → Typed input t (count_line input t')
count_line-Typed input {t} {t'} y = elim (Bool-cases (input == 10)) [
  | inl line ↦ rw line (record {
    ring = record { head = y.ring.head; tail = y.ring.tail };
    longer = y.longer;
    last = y.last;
    others = y.others;
  })
  | inr other ↦ rw other y
]

stored-Pushed :
    (input : ℕ) {t t' : Tty} {v : Vga}
    → input ≢ 8
    → IsTty t
    → t'.canon_lines ≡ t.canon_lines
    → Typed input t t'
    → IsCursor v
    → Pushed input t (input == 10, count_line input t', v)
stored-Pushed input {t} {t'} {v} char h same y c =
    let h' = count_line-IsTty input h same y in
    let y' = count_line-Typed input y in
    stored (count_line input t') v char h' y'.longer y'.last y'.others c

full-Pushed :
    (input : ℕ) {t : Tty} {v : Vga}
    → input ≢ 8
    → IsTty t
    → length t ≡ capacity
    → IsCursor v
    → Pushed input t (input == 10, count_line input t, v)
full-Pushed input {t} {v} char h full c = elim (Bool-cases (input == 10)) [
  | inl line ↦
      let small = lines-le (char_at t) (length t) in
      let e : word64 (t.canon_lines + 1) ≡ t.canon_lines + 1 = ground (arith, h.counted) in
      rw (line, e) (overcounted v (ground arith) full c)
  | inr other ↦ rw other (dropped v char (ground arith) full c)
]

-- The text without its last character.
record Shortened (t t' : Tty) : Type 0 where
  ring : IsRing t'
  shorter : length t ≡ length t' + 1
  others : (i : ℕ) → i < length t' → char_at t' i ≡ char_at t i
  counter : t'.canon_lines ≡ t.canon_lines

backspace-Shortened :
    {t : Tty}
    → IsRing t
    → 0 < length t
    → Shortened t (record t { tail = if t.tail == 0 then tty_buf_size - 1 else t.tail - 1 })
backspace-Shortened {t} r some_text = record {
  ring = record { head = r.head; tail = ground (arith, r.tail) };
  shorter = ground (arith, r.head, r.tail);
  others = λ i lt. refl;
  counter = refl;
}

Shortened-Pushed :
    {t t' : Tty} {v : Vga} → IsTty t → Shortened t t' → IsCursor v → Pushed 8 t (false, t', v)
Shortened-Pushed {t} {t'} {v} h y c =
    let all : lines (char_at t) (length t)
        ≡ lines (char_at t') (length t') + (if char_at t (length t') == 10 then 1 else 0) =
      rw (y.shorter, lines-next (char_at t) (length t'), lines-same (length t') y.others) refl in
    elim (Bool-cases (char_at t (length t') == 10)) [
      | inl line ↦
          uncounted t' v refl y.shorter y.others (ground arith)
            (ground (arith, y.counter, h.counted, all)) y.ring c
      | inr other ↦
          erased t' v refl y.shorter y.others (ground arith)
            (record { ring = y.ring; counted = ground (arith, y.counter, h.counted, all) }) c
    ]

-- On a terminal whose count of lines is right, tty_push_char returns. A character is put behind the
-- text, and a newline is counted, if there is room. If there is none, the character is dropped, but
-- a newline is counted and wakes the readers all the same. A backspace takes the last character
-- away, if there is one, but does not count back where that is a newline.
pub tty_push_char-Pushed :
    (input : ℕ) {t : Tty} {v : Vga}
    → IsTty t
    → IsCursor v
    → Returns (Pushed input t) (tty_push_char input (t, v))
unfolding tty_push_char handle_backspace tty_is_empty
tty_push_char-Pushed input {t} {v} h c = elim (Bool-cases (input == 8)) [
  | inr char ↦ rw char (
      Returns->>= _ (vga_putchar-IsCursor input c) (λ v' c'. elim (dec_lt (length t) capacity) [
        | yes room ↦
            let y = store-Typed input h.ring room in
            let same : (store input t).canon_lines ≡ t.canon_lines = ground arith in
            returns (stored-Pushed input (ground arith) h same y c')
        | no tight ↦
            let full : length t ≡ capacity = ground (arith, h.ring.head, h.ring.tail) in
            rw (store-full input h.ring full) (returns (full-Pushed input (ground arith) h full c'))
      ]))
  | inl back ↦
      let e : input ≡ 8 = ground arith in
      elim (Bool-cases (t.head == t.tail)) [
        | inl empty ↦ rw (back, empty) (returns (nothing v e (ground (arith, h.ring.head)) c))
        | inr text ↦
            rw (back, text, e)
              (Returns->>= {P = λ s. Pushed 8 t (false, s.0, s.1)} (λ s. ok (false, s.0, s.1))
                (Returns->>= _ (vga_del_last-Erased c) (λ v' r. returns (
                  Shortened-Pushed h
                    (backspace-Shortened h.ring (ground (arith, h.ring.head, h.ring.tail)))
                    r.cursor)))
                (λ s p. returns p))
      ]
]

-- Whatever the count of lines, the ring and the cursor stay in their bounds.
pub tty_push_char-IsRing :
    (input : ℕ) {t : Tty} {v : Vga}
    → IsRing t
    → IsCursor v
    → Returns (λ out. IsRing out.1 × IsCursor out.2) (tty_push_char input (t, v))
unfolding tty_push_char handle_backspace tty_is_empty
tty_push_char-IsRing input {t} {v} r c = elim (Bool-cases (input == 8)) [
  | inr char ↦ rw char (
      Returns->>= _ (vga_putchar-IsCursor input c) (λ v' c'.
        returns (record { head = ground (arith, r.head); tail = ground (arith, r.tail) }, c')))
  | inl back ↦ elim (Bool-cases (t.head == t.tail)) [
    | inl empty ↦ rw (back, empty) (returns (r, c))
    | inr text ↦
        rw (back, text)
          (Returns->>= {P = λ s. IsRing s.0 × IsCursor s.1} (λ s. ok (false, s.0, s.1))
            (Returns->>= _ (vga_del_last-Erased c)
              (λ v' e. returns (record { head = r.head; tail = ground (arith, r.tail) }, e.cursor)))
            (λ s p. returns p))
  ]
]
