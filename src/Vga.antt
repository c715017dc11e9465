-- ===== src/Vga.antt =====
-- drivers/vga/vga.c: the text console. The buffer is the 80 by 25 cells at 0xB8000, and a write
-- beyond them is a fault.
pub mod Cursor
mod Tests
use snap_os.Prelude.{
  ℕ, zero, suc, ◌+◌, ◌-◌, ◌*◌, ◌%◌, Bool, true, false, ltb, leb, ◌==◌, if◌then◌else◌, Exec, ok,
  ◌>>=◌, ◌>>◌, in_bounds, write,
}

abbrev pub vga_buf_width : ℕ
vga_buf_width = 80

abbrev pub vga_buf_height : ℕ
vga_buf_height = 25

-- The statics.
pub record Vga : Type 0 where
  pub vga_buf : ℕ → ℕ
  pub x : ℕ
  pub y : ℕ

unfoldable pub isfull : Vga → Bool
isfull v = if ltb v.y vga_buf_height then false else if leb vga_buf_width v.x then false else true

-- `color << 8 | c` in 16 bits; `c` is a signed char, so that one above 127 sets all higher bits.
unfoldable pub makechar : (c color : ℕ) → ℕ
makechar c color = if ltb c 128 then color * 256 + c else 0xff00 + c

unfoldable pub vga_write : (x y val : ℕ) → Vga → Exec Vga
vga_write x y val v =
    let offset : ℕ = y * vga_buf_width + x in
    in_bounds (ltb offset (vga_buf_width * vga_buf_height))
    >> ok (record v { vga_buf = write v.vga_buf offset val })

-- The cursor behind a character.
abbrev pub advance : Vga → Vga
advance v =
    if (v.x + 1) % vga_buf_width == 0
    then record v { x = 0; y = v.y + 1 }
    else record v { x = v.x + 1 }

pub vga_putchar_color : (c color : ℕ) → Vga → Exec Vga
unfolding isfull vga_write makechar
vga_putchar_color c color v =
    if isfull v
    then ok v
    else if c == 10
    then ok (record v { x = 0; y = v.y + 1 })
    else vga_write v.x v.y (makechar c color) v >>= (λ v'. ok (advance v'))

-- VGA_DEFAULT_TEXT_COLOR
abbrev pub vga_default_text_color : ℕ
vga_default_text_color = 15

pub vga_putchar : ℕ → Vga → Exec Vga
unfolding vga_putchar_color
vga_putchar c v = vga_putchar_color c vga_default_text_color v

-- `n` characters of a string, which ends at the first zero.
pub vga_print_color : (s : ℕ → ℕ) (n color : ℕ) → Vga → Exec Vga
unfolding vga_putchar_color
vga_print_color s zero color v = ok v
vga_print_color s (suc n) color v =
    vga_putchar_color (s 0) color v >>= (λ v'. vga_print_color (λ i. s (i + 1)) n color v')

pub vga_del_last : Vga → Exec Vga
unfolding vga_write
vga_del_last v =
    let x : ℕ = if v.x == 0 then (if v.y == 0 then 0 else vga_buf_width - 1) else v.x - 1 in
    let y : ℕ = if v.x == 0 then (if v.y == 0 then 0 else v.y - 1) else v.y in
    vga_write x y 0x720 (record v { x = x; y = y })
