-- ===== src/Tty/Tests.antt =====
-- kernel/tty.c with the line `A` and the start of another in a buffer that wraps around.
use snap_os.Prelude.{ℕ, refl, arith, ◌==◌, if◌then◌else◌, ◌>>=◌, Returns}
use snap_os.Vga.{Vga}
use snap_os.Vga.Cursor.{IsCursor}
use snap_os.Tty.{Tty, tty_push_char, tty_read_line}
use snap_os.Tty.Text.{IsTty, lines}
use snap_os.Tty.Push.{Pushed, tty_push_char-Pushed}
use snap_os.Tty.Read.{Taken, tty_read_line-Taken}
use snap_os.Tty.Ghost.{Ghost, tty_read_line-Ghost}

abbrev screen : Vga
screen = record { vga_buf = λ i. 0; x = 0; y = 3 }

screen-IsCursor : IsCursor screen
screen-IsCursor = record { column = omega arith; row = omega arith; below = λ e. refl }

abbrev text : ℕ → ℕ
text i = if i == 511 then 65 else if i == 0 then 10 else 66

abbrev typed : Tty
typed = record { buffer = text; head = 511; tail = 2; canon_lines = 1; fg_pid = 1; leader_pid = 1 }

typed-IsTty : IsTty typed
unfolding lines
typed-IsTty = record { ring = record { head = omega arith; tail = omega arith }; counted = refl }

tty_push_char-Pushed_example : Returns (Pushed 67 typed) (tty_push_char 67 (typed, screen))
tty_push_char-Pushed_example = tty_push_char-Pushed 67 typed-IsTty screen-IsCursor

tty_read_line-Taken_example : Taken typed (λ i. 0) 10 (tty_read_line typed (λ i. 0) 10)
tty_read_line-Taken_example = tty_read_line-Taken (λ i. 0) 10 typed-IsTty

abbrev quiet : Tty
quiet = record typed { head = 0; tail = 0; canon_lines = 0 }

quiet-IsTty : IsTty quiet
unfolding lines
quiet-IsTty = record { ring = record { head = omega arith; tail = omega arith }; counted = refl }

tty_read_line-Ghost_example :
    Returns
      (Ghost (λ i. 0) 4)
      (tty_push_char 10 (quiet, screen) >>= (λ (woken, t', v'). tty_push_char 8 (t', v')))
tty_read_line-Ghost_example =
    tty_read_line-Ghost (λ i. 0) 4 quiet-IsTty screen-IsCursor refl (omega arith)
