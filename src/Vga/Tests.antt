-- ===== src/Vga/Tests.antt =====
-- drivers/vga/vga.c at the last cell of the second line.
use snap_os.Prelude.{arith, Returns}
use snap_os.Vga.{Vga, vga_putchar_color}
use snap_os.Vga.Cursor.{IsCursor, Printed, vga_putchar_color-Printed}

abbrev screen : Vga
screen = record { vga_buf = λ i. 0; x = 79; y = 1 }

screen-IsCursor : IsCursor screen
screen-IsCursor = record {
  column = omega arith;
  row = omega arith;
  below = λ e. absurd (omega arith);
}

vga_putchar_color-Printed_example : Returns (Printed 65 15 screen) (vga_putchar_color 65 15 screen)
vga_putchar_color-Printed_example = vga_putchar_color-Printed 65 15 screen-IsCursor
