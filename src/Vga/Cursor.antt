-- ===== src/Vga/Cursor.antt =====
-- The cursor of the console stays on the screen, and what is typed can be taken back.
use snap_os.Prelude.{
  ℕ, zero, suc, ◌+◌, ◌-◌, ◌*◌, ◌≤◌, ◌<◌, ◌≡◌, ◌≢◌, refl, inl, inr, true, false, arith, ltb, ◌==◌,
  if◌then◌else◌, Bool-cases, ◌∙◌, ◌>>=◌, Returns, returns, Returns->>=, Returns-mono,
}
use snap_os.Vga.{
  Vga, vga_buf_width, vga_buf_height, isfull, makechar, vga_write, vga_putchar_color, vga_putchar,
  vga_print_color, vga_del_last,
}

-- The cursor stands in a cell, or at the start of the line below the last.
pub record IsCursor (v : Vga) : Type 0 where
  pub column : v.x < vga_buf_width
  pub row : v.y ≤ vga_buf_height
  pub below : v.y ≡ vga_buf_height → v.x ≡ 0

abbrev pub cell : Vga → ℕ
cell v = v.y * vga_buf_width + v.x

-- What printing a character leaves: on a full screen nothing changes; a newline moves the cursor; any
-- other character is put into the cell at the cursor and the cursor moves on by one cell.
pub data Printed (c color : ℕ) (v : Vga) : Vga → Type 0 where
  full : v.y ≡ vga_buf_height → Printed c color v v
  newline :
      (v' : Vga)
      → c ≡ 10
      → v'.x ≡ 0
      → v'.y ≡ v.y + 1
      → ((i : ℕ) → v'.vga_buf i ≡ v.vga_buf i)
      → IsCursor v'
      → Printed c color v v'
  shown :
      (v' : Vga)
      → c ≢ 10
      → v.y < vga_buf_height
      → cell v' ≡ cell v + 1
      → v'.vga_buf (cell v) ≡ makechar c color
      → ((i : ℕ) → i ≢ cell v → v'.vga_buf i ≡ v.vga_buf i)
      → IsCursor v'
      → Printed c color v v'

-- From a cursor on the screen, printing a character never writes outside the buffer, and leaves the
-- cursor on the screen.
pub vga_putchar_color-Printed :
    (c color : ℕ) {v : Vga} → IsCursor v → Returns (Printed c color v) (vga_putchar_color c color v)
unfolding vga_putchar_color isfull vga_write
vga_putchar_color-Printed c color {v} h = elim (Bool-cases (ltb v.y vga_buf_height)) [
  | inr below ↦
      let e : isfull v ≡ true = ground (arith, h.column) in
      rw e (returns (full (ground (arith, h.row))))
  | inl on ↦
      let e : isfull v ≡ false = ground arith in
      elim (Bool-cases (c == 10)) [
        | inl line ↦
            rw (e, line)
              (returns (
                newline _ (ground arith) refl refl (λ i. refl)
                  (record { column = omega arith; row = ground arith; below = λ b. refl })))
        | inr char ↦
            let fits : ltb (cell v) (vga_buf_width * vga_buf_height) ≡ true =
              ground (arith, h.column) in
            rw (e, char, fits)
              (returns (
                shown _ (ground arith) (ground arith) (ground (arith, h.column)) (ground arith)
                  (λ i other. ground arith)
                  (record {
                    column = ground (arith, h.column);
                    row = ground (arith, h.row);
                    below = λ b. ground (arith, h.column);
                  })))
      ]
]

-- What taking back a character leaves: the cursor one cell further back, or in the first cell, and
-- that cell blank.
pub record Erased (v v' : Vga) : Type 0 where
  pub back : cell v' ≡ cell v - 1
  pub blank : v'.vga_buf (cell v') ≡ 0x720
  pub others : (i : ℕ) → i ≢ cell v' → v'.vga_buf i ≡ v.vga_buf i
  pub cursor : IsCursor v'

-- vga_del_last never writes outside the buffer, blanks the cell before the cursor, and leaves the
-- cursor on it.
pub vga_del_last-Erased : {v : Vga} → IsCursor v → Returns (Erased v) (vga_del_last v)
unfolding vga_del_last vga_write
vga_del_last-Erased {v} h =
    let x : ℕ = if v.x == 0 then (if v.y == 0 then 0 else vga_buf_width - 1) else v.x - 1 in
    let y : ℕ = if v.x == 0 then (if v.y == 0 then 0 else v.y - 1) else v.y in
    let bx : x < vga_buf_width = ground (arith, h.column) in
    let by : y < vga_buf_height = ground (arith, h.row, h.below) in
    let fits : ltb (y * vga_buf_width + x) (vga_buf_width * vga_buf_height) ≡ true =
      ground (arith, bx, by) in
    rw fits (
      returns (record {
        back = ground (arith, h.column);
        blank = ground arith;
        others = λ i other. ground arith;
        cursor = record {
          column = bx;
          row = omega (arith, by);
          below = λ b. absurd (omega (arith, by, b));
        };
      }))

after_printed :
    {c color : ℕ} {v v' : Vga}
    → c ≢ 10
    → v.y < vga_buf_height
    → Printed c color v v'
    → Returns
        (λ w. (cell w ≡ cell v) × ((i : ℕ) → i ≢ cell v → w.vga_buf i ≡ v.vga_buf i))
        (vga_del_last v')
after_printed char on (full e) = absurd (omega arith)
after_printed char on (newline v' e x y same h) = absurd (char e)
after_printed {v = v} char on (shown v' e lt next put others h) =
    Returns-mono (vga_del_last-Erased h) (λ w r.
      let here : cell w ≡ cell v = omega (arith, r.back, next) in
      (here, λ i other. r.others i (λ e. other (e ∙ here)) ∙ others i other))

-- Printing a character that is no newline on a screen that is not full, and then taking it back,
-- puts the cursor where it was, and changes no other cell.
pub vga_del_last-vga_putchar_color :
    (c color : ℕ) {v : Vga}
    → IsCursor v
    → c ≢ 10
    → v.y < vga_buf_height
    → Returns
        (λ w. (cell w ≡ cell v) × ((i : ℕ) → i ≢ cell v → w.vga_buf i ≡ v.vga_buf i))
        (vga_putchar_color c color v >>= vga_del_last)
vga_del_last-vga_putchar_color c color h char on =
    Returns->>= vga_del_last (vga_putchar_color-Printed c color h) (λ v' p. after_printed char on p)

Printed-IsCursor : {c color : ℕ} {v v' : Vga} → IsCursor v → Printed c color v v' → IsCursor v'
Printed-IsCursor h (full e) = h
Printed-IsCursor h (newline v' e x y same h') = h'
Printed-IsCursor h (shown v' e lt next put others h') = h'

-- vga_print_color never writes outside the buffer, whatever the length of the string.
pub vga_print_color-IsCursor :
    (s : ℕ → ℕ) (n color : ℕ) {v : Vga}
    → IsCursor v
    → Returns IsCursor (vga_print_color s n color v)
unfolding vga_print_color
vga_print_color-IsCursor s zero color h = returns h
vga_print_color-IsCursor s (suc n) color h =
    Returns->>= _ (vga_putchar_color-Printed (s 0) color h)
      (λ v' p. vga_print_color-IsCursor (λ i. s (i + 1)) n color (Printed-IsCursor h p))

pub vga_putchar-IsCursor : (c : ℕ) {v : Vga} → IsCursor v → Returns IsCursor (vga_putchar c v)
unfolding vga_putchar
vga_putchar-IsCursor c h =
    Returns-mono (vga_putchar_color-Printed c 15 h) (λ v' p. Printed-IsCursor h p)
