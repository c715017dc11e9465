-- ===== src/Input/Tests.antt =====
-- kernel/input.c with caps lock on.
use snap_os.Prelude.{◌≡◌, refl, arith, true, false, ok, ◌>>=◌, Returns, [], ◌∷◌}
use snap_os.Vga.{Vga}
use snap_os.Tty.{Tty, tty_push_char}
use snap_os.Input.{Input, ps2_irq, ascii_map}
use snap_os.Input.Keys.{IsSane, ps2_irqs, ps2_irqs-IsSane}
use snap_os.Input.Letters.{ps2_irq-letter}

abbrev screen : Vga
screen = record { vga_buf = λ i. 0; x = 0; y = 0 }

abbrev quiet : Tty
quiet = record { buffer = λ i. 0; head = 0; tail = 0; canon_lines = 0; fg_pid = 1; leader_pid = 1 }

abbrev caps : Input
caps = record { shift_count = 0; caps_active = true; ctrl_count = 0; is_extended = false }

start-IsSane : IsSane (caps, quiet, screen)
start-IsSane = record {
  ring = record { head = omega arith; tail = omega arith };
  cursor = record { column = omega arith; row = omega arith; below = λ e. absurd (omega arith) };
  shift = omega arith;
  ctrl = omega arith;
}

ps2_irqs-IsSane_example : Returns IsSane (ps2_irqs (42 ∷ 30 ∷ 158 ∷ 170 ∷ []) (caps, quiet, screen))
ps2_irqs-IsSane_example = ps2_irqs-IsSane (42 ∷ 30 ∷ 158 ∷ 170 ∷ []) start-IsSane

-- The key of `a`.
ps2_irq-letter_example :
    (ps2_irq 30 (caps, quiet, screen)
      ≡ (tty_push_char 65 (quiet, screen) >>= (λ (woken, t', v'). ok (caps, t', v'))))
    × (ps2_irq 158 (caps, quiet, screen) ≡ ok (caps, quiet, screen))
unfolding ascii_map
ps2_irq-letter_example = ps2_irq-letter 30 (omega arith) refl caps quiet screen refl
