-- ===== src/Input.antt =====
-- kernel/input.c and the interrupt handler of drivers/ps2/ps2.c: from scan codes to characters. A key
-- is its code in include/input.h.
pub mod Keys
pub mod Letters
mod Tests
use snap_os.Prelude.{
  ℕ, zero, suc, ◌+◌, ◌-◌, ◌%◌, Bool, true, false, not, ◌&&◌, ◌||◌, ltb, leb, ◌==◌, if◌then◌else◌,
  Exec, ok, ◌>>=◌, List, [], ◌∷◌,
}
use snap_os.Vga.{Vga}
use snap_os.Tty.{Tty, tty_push_char}

abbrev pub key_q : ℕ
key_q = 16

abbrev pub key_m : ℕ
key_m = 50

abbrev pub key_leftctrl : ℕ
key_leftctrl = 29

abbrev pub key_leftshift : ℕ
key_leftshift = 42

abbrev pub key_rightshift : ℕ
key_rightshift = 54

abbrev pub key_capslock : ℕ
key_capslock = 58

abbrev pub key_rightctrl : ℕ
key_rightctrl = 97

-- Entry `i` of a table, 0 behind its end.
abbrev pub entry : List ℕ → ℕ → ℕ
entry [] i = 0
entry (a ∷ l) zero = a
entry (a ∷ l) (suc i) = entry l i

-- The characters of the keys 0 to 57; the table's other entries are 0. The codes of the enumerators
-- index it.
unfoldable pub ascii_map : ℕ → ℕ
ascii_map = entry (
    0 ∷ 0 ∷ b'1' ∷ b'2' ∷ b'3' ∷ b'4' ∷ b'5' ∷ b'6' ∷ b'7' ∷ b'8' ∷ b'9' ∷ b'0' ∷ b'-' ∷ b'=' ∷ 8
    ∷ 0 ∷ b'q' ∷ b'w' ∷ b'e' ∷ b'r' ∷ b't' ∷ b'y' ∷ b'u' ∷ b'i' ∷ b'o' ∷ b'p' ∷ b'[' ∷ b']' ∷ 10 ∷ 0
    ∷ b'a' ∷ b's' ∷ b'd' ∷ b'f' ∷ b'g' ∷ b'h' ∷ b'j' ∷ b'k' ∷ b'l' ∷ b';' ∷ 39 ∷ b'`' ∷ 0 ∷ 92
    ∷ b'z' ∷ b'x' ∷ b'c' ∷ b'v' ∷ b'b' ∷ b'n' ∷ b'm' ∷ b',' ∷ b'.' ∷ b'/' ∷ 0 ∷ 0 ∷ 0 ∷ 32 ∷ [])

unfoldable pub ascii_shift_map : ℕ → ℕ
ascii_shift_map = entry (
    0 ∷ 0 ∷ b'!' ∷ b'@' ∷ b'#' ∷ b'$' ∷ b'%' ∷ b'^' ∷ b'&' ∷ b'*' ∷ b'(' ∷ b')' ∷ b'_' ∷ b'+' ∷ 8
    ∷ 0 ∷ b'Q' ∷ b'W' ∷ b'E' ∷ b'R' ∷ b'T' ∷ b'Y' ∷ b'U' ∷ b'I' ∷ b'O' ∷ b'P' ∷ b'{' ∷ b'}' ∷ 10 ∷ 0
    ∷ b'A' ∷ b'S' ∷ b'D' ∷ b'F' ∷ b'G' ∷ b'H' ∷ b'J' ∷ b'K' ∷ b'L' ∷ b':' ∷ b'"' ∷ b'~' ∷ 0 ∷ b'|'
    ∷ b'Z' ∷ b'X' ∷ b'C' ∷ b'V' ∷ b'B' ∷ b'N' ∷ b'M' ∷ b'<' ∷ b'>' ∷ b'?' ∷ 0 ∷ 0 ∷ 0 ∷ 32 ∷ [])

unfoldable pub ps2_scancode_base : ℕ → ℕ
ps2_scancode_base = entry (
    0 ∷ 1 ∷ 2 ∷ 3 ∷ 4 ∷ 5 ∷ 6 ∷ 7 ∷ 8 ∷ 9 ∷ 10 ∷ 11 ∷ 12 ∷ 13 ∷ 14 ∷ 15 ∷ 16 ∷ 17 ∷ 18 ∷ 19 ∷ 20
    ∷ 21 ∷ 22 ∷ 23 ∷ 24 ∷ 25 ∷ 26 ∷ 27 ∷ 28 ∷ 29 ∷ 30 ∷ 31 ∷ 32 ∷ 33 ∷ 34 ∷ 35 ∷ 36 ∷ 37 ∷ 38 ∷ 39
    ∷ 40 ∷ 41 ∷ 42 ∷ 43 ∷ 44 ∷ 45 ∷ 46 ∷ 47 ∷ 48 ∷ 49 ∷ 50 ∷ 51 ∷ 52 ∷ 53 ∷ 54 ∷ 55 ∷ 56 ∷ 57 ∷ 58
    ∷ 59 ∷ 60 ∷ 61 ∷ 62 ∷ 63 ∷ 64 ∷ 65 ∷ 66 ∷ 67 ∷ 68 ∷ 69 ∷ 70 ∷ 71 ∷ 72 ∷ 73 ∷ 74 ∷ 75 ∷ 76 ∷ 77
    ∷ 78 ∷ 79 ∷ 80 ∷ 81 ∷ 82 ∷ 83 ∷ 0 ∷ 0 ∷ 0 ∷ 87 ∷ 88 ∷ [])

-- The statics of kernel/input.c, and `is_extended` of ps2_irq.
pub record Input : Type 0 where
  pub shift_count : ℕ
  pub caps_active : Bool
  pub ctrl_count : ℕ
  pub is_extended : Bool

-- A key of a modifier goes down or up: the count is held between 0 and 2.
abbrev pub count_key : (is_release : Bool) → ℕ → ℕ
count_key true count = count - 1
count_key false count = if ltb 2 (count + 1) then 2 else count + 1

-- The character of a key, or 0.
pub key_char : ℕ → Input → ℕ
unfolding ascii_map ascii_shift_map
key_char key s =
    let shifted : Bool = ltb 0 s.shift_count in
    let is_upper : Bool = if shifted then not s.caps_active else s.caps_active in
    if leb key_q key && leb key key_m
    then (if is_upper then ascii_shift_map key else ascii_map key)
    else (if shifted then ascii_shift_map key else ascii_map key)

-- What the devices leave: the keyboard's state, the terminal and the screen.
pub input_handle_event :
    (key : ℕ) → (is_release : Bool) → Input × Tty × Vga → Exec (Input × Tty × Vga)
unfolding key_char
input_handle_event key is_release (s, t, v) =
    if key == key_leftshift || key == key_rightshift
    then ok (record s { shift_count = count_key is_release s.shift_count }, t, v)
    else if key == key_leftctrl || key == key_rightctrl
    then ok (record s { ctrl_count = count_key is_release s.ctrl_count }, t, v)
    else if key == key_capslock && not is_release
    then ok (record s { caps_active = not s.caps_active }, t, v)
    else if is_release
    then ok (s, t, v)
    else if leb 128 key
    then ok (s, t, v)
    else if key_char key s == 0
    then ok (s, t, v)
    else tty_push_char (key_char key s) (t, v) >>= (λ (woken, t', v'). ok (s, t', v'))

-- The scan code that the controller gives.
pub ps2_irq : (scancode : ℕ) → Input × Tty × Vga → Exec (Input × Tty × Vga)
unfolding input_handle_event ps2_scancode_base
ps2_irq scancode (s, t, v) =
    let is_release : Bool = leb 128 scancode in
    let raw_key = scancode % 128 in
    if s.is_extended
    then ok (record s { is_extended = false }, t, v)
    else if scancode == 0xe0
    then ok (record s { is_extended = true }, t, v)
    else if ltb raw_key 89 && not (ps2_scancode_base raw_key == 0)
    then input_handle_event raw_key is_release (s, t, v)
    else ok (s, t, v)
