-- ===== src/Tty.antt =====
-- kernel/tty.c: the ring buffer of typed characters, its line discipline, and reading from it. The
-- lock of the terminal is held throughout each of these functions. Echo goes to drivers/vga/vga.c.
pub mod Text
pub mod Push
pub mod Read
pub mod Ghost
mod Tests
use snap_os.Prelude.{
  ℕ, zero, suc, ◌+◌, ◌-◌, ◌%◌, ◌^◌, Bool, true, false, not, ltb, leb, ◌==◌, if◌then◌else◌, Exec, ok,
  ◌>>=◌, word64, write,
}
use snap_os.Vga.{Vga, vga_putchar, vga_del_last}

abbrev pub tty_buf_size : ℕ
tty_buf_size = 512

-- `struct tty_struct`, without the lock and the two wait queues.
pub record Tty : Type 0 where
  pub buffer : ℕ → ℕ
  pub head : ℕ
  pub tail : ℕ
  pub canon_lines : ℕ
  pub fg_pid : ℕ
  pub leader_pid : ℕ

unfoldable pub tty_has_line : Tty → Bool
tty_has_line t = ltb 0 t.canon_lines

unfoldable pub tty_is_empty : Tty → Bool
tty_is_empty t = t.head == t.tail

unfoldable pub is_fg : Tty → (pid : ℕ) → Bool
is_fg t pid = t.fg_pid == pid

pub handle_backspace : Tty × Vga → Exec (Tty × Vga)
unfolding tty_is_empty
handle_backspace (t, v) =
    if not (tty_is_empty t)
    then vga_del_last v
      >>= (λ v'. ok (record t { tail = if t.tail == 0 then tty_buf_size - 1 else t.tail - 1 }, v'))
    else ok (t, v)

-- A character goes into the buffer, if there is room.
abbrev pub store : ℕ → Tty → Tty
store input t =
    let tail = (t.tail + 1) % tty_buf_size in
    if tail == t.head then t else record t { buffer = write t.buffer t.tail input; tail = tail }

-- A newline counts.
abbrev pub count_line : ℕ → Tty → Tty
count_line input t =
    if input == 10 then record t { canon_lines = word64 (t.canon_lines + 1) } else t

-- Whether the readers are woken, and what is left.
pub tty_push_char : (input : ℕ) → Tty × Vga → Exec (Bool × Tty × Vga)
unfolding handle_backspace
tty_push_char input (t, v) =
    if input == 8
    then handle_backspace (t, v) >>= (λ (t', v'). ok (false, t', v'))
    else vga_putchar input v >>= (λ v'. ok (input == 10, count_line input (store input t), v'))

-- The loop of __tty_read, from round `i` on with `k` left: how many characters were taken, the
-- caller's buffer, and the count of lines.
pub read_loop : Tty → (k i : ℕ) → (buf : ℕ → ℕ) → ℕ × (ℕ → ℕ) × ℕ
read_loop t zero i buf = (i, buf, t.canon_lines)
read_loop t (suc k) i buf =
    let c = t.buffer ((t.head + i) % tty_buf_size) in
    let rest = read_loop t k (i + 1) (write buf i c) in
    if c == 10 then (i + 1, write buf i c, word64 (t.canon_lines + (2 ^ 64 - 1))) else rest

-- `available`
abbrev pub available : Tty → ℕ
available t = if ltb t.head t.tail then t.tail - t.head else tty_buf_size - t.head + t.tail

abbrev pub size_min : ℕ → ℕ → ℕ
size_min a b = if ltb a b then a else b

-- __tty_read: the number of characters, the caller's buffer, and the terminal.
pub tty_read_line : Tty → (buf : ℕ → ℕ) → (count : ℕ) → ℕ × (ℕ → ℕ) × Tty
unfolding tty_has_line read_loop
tty_read_line t buf count =
    if not (tty_has_line t)
    then (0, buf, t)
    else let (i, buf', lines) = read_loop t (size_min (available t) count) 0 buf in
      (i, buf', record t { head = (t.head + i) % tty_buf_size; canon_lines = lines })
