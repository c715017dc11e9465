-- ===== src/Input/Keys.antt =====
-- From scan codes to the terminal: any sequence of codes is safe.
use snap_os.Prelude.{
  ℕ, ◌%◌, ◌≤◌, Bool, true, false, not, ◌&&◌, ◌||◌, arith, ltb, leb, ◌==◌, Exec, ok, ◌>>=◌, Returns,
  returns, Returns->>=, Returns-if, List, [], ◌∷◌,
}
use snap_os.Vga.{Vga}
use snap_os.Vga.Cursor.{IsCursor}
use snap_os.Tty.{Tty}
use snap_os.Tty.Text.{IsRing}
use snap_os.Tty.Push.{tty_push_char-IsRing}
use snap_os.Input.{
  Input, ps2_scancode_base, key_char, input_handle_event, ps2_irq, key_leftshift, key_rightshift,
  key_leftctrl, key_rightctrl, key_capslock, count_key,
}

-- The terminal and the screen in bounds, and the modifiers counted between 0 and 2.
pub record IsSane (s : Input × Tty × Vga) : Type 0 where
  pub ring : IsRing s.1
  pub cursor : IsCursor s.2
  pub shift : s.0.shift_count ≤ 2
  pub ctrl : s.0.ctrl_count ≤ 2

count_key-le : (is_release : Bool) (n : ℕ) → n ≤ 2 → count_key is_release n ≤ 2
count_key-le true n le = omega arith
count_key-le false n le = ground arith

input_handle_event-IsSane :
    (key : ℕ) (is_release : Bool) {s : Input} {t : Tty} {v : Vga}
    → IsSane (s, t, v)
    → Returns IsSane (input_handle_event key is_release (s, t, v))
unfolding input_handle_event
input_handle_event-IsSane key is_release {s} {t} {v} h =
    Returns-if (key == key_leftshift || key == key_rightshift)
      (returns (record {
        ring = h.ring;
        cursor = h.cursor;
        shift = count_key-le is_release s.shift_count h.shift;
        ctrl = h.ctrl;
      }))
      (Returns-if (key == key_leftctrl || key == key_rightctrl)
        (returns (record {
          ring = h.ring;
          cursor = h.cursor;
          shift = h.shift;
          ctrl = count_key-le is_release s.ctrl_count h.ctrl;
        }))
        (Returns-if (key == key_capslock && not is_release)
          (returns (record { ring = h.ring; cursor = h.cursor; shift = h.shift; ctrl = h.ctrl }))
          (Returns-if is_release (returns h) (
            Returns-if (leb 128 key) (returns h) (
              Returns-if (key_char key s == 0) (returns h) (
                Returns->>= _ (tty_push_char-IsRing (key_char key s) h.ring h.cursor) (λ out p.
                  returns
                    (record { ring = p.0; cursor = p.1; shift = h.shift; ctrl = h.ctrl }))))))))

ps2_irq-IsSane :
    (scancode : ℕ) {s : Input} {t : Tty} {v : Vga}
    → IsSane (s, t, v)
    → Returns IsSane (ps2_irq scancode (s, t, v))
unfolding ps2_irq
ps2_irq-IsSane scancode {s} {t} {v} h =
    Returns-if s.is_extended
      (returns (record { ring = h.ring; cursor = h.cursor; shift = h.shift; ctrl = h.ctrl }))
      (Returns-if (scancode == 0xe0)
        (returns (record { ring = h.ring; cursor = h.cursor; shift = h.shift; ctrl = h.ctrl }))
        (Returns-if (ltb (scancode % 128) 89 && not (ps2_scancode_base (scancode % 128) == 0))
          (input_handle_event-IsSane (scancode % 128) (leb 128 scancode) h) (returns h)))

-- The interrupts of a list of scan codes.
pub ps2_irqs : List ℕ → Input × Tty × Vga → Exec (Input × Tty × Vga)
unfolding ps2_irq
ps2_irqs [] s = ok s
ps2_irqs (c ∷ l) s = ps2_irq c s >>= ps2_irqs l

-- Whatever scan codes the keyboard sends, the handler returns each time: no write leaves the screen,
-- the ring buffer of the terminal stays in its bounds, and the modifiers are counted between 0 and 2.
pub ps2_irqs-IsSane :
    (l : List ℕ) {s : Input × Tty × Vga} → IsSane s → Returns IsSane (ps2_irqs l s)
unfolding ps2_irqs
ps2_irqs-IsSane [] h = returns h
ps2_irqs-IsSane (c ∷ l) {s} h = Returns->>= _ (ps2_irq-IsSane c h) (λ s' h'. ps2_irqs-IsSane l h')
