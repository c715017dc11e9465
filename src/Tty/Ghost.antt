-- ===== src/Tty/Ghost.antt =====
-- kernel/tty.c: a newline that is taken back leaves a line without text.
use snap_os.Prelude.{
  ℕ, zero, suc, ◌+◌, ◌%◌, ◌≤◌, ◌<◌, ◌≡◌, refl, Bool, true, false, arith, ltb, write, ◌>>=◌, Returns,
  Returns->>=, Returns-mono,
}
use snap_os.Vga.{Vga}
use snap_os.Vga.Cursor.{IsCursor}
use snap_os.Tty.{
  Tty, tty_buf_size, tty_has_line, available, size_min, read_loop, tty_push_char, tty_read_line,
}
use snap_os.Tty.Text.{length, char_at, IsTty}
use snap_os.Tty.Push.{
  Pushed, stored, dropped, overcounted, erased, uncounted, nothing, tty_push_char-Pushed,
}

read_loop-some : (t : Tty) (k i : ℕ) (buf : ℕ → ℕ) → i + k ≤ (read_loop t k i buf).0 + k
unfolding read_loop
read_loop-some t zero i buf = omega arith
read_loop-some t (suc k) i buf =
    ground
      (arith, read_loop-some t k (i + 1) (write buf i (t.buffer ((t.head + i) % tty_buf_size))))

-- The first round takes a character.
read_loop-first : (t : Tty) (k : ℕ) (buf : ℕ → ℕ) → 0 < k → 0 < (read_loop t k 0 buf).0
unfolding read_loop
read_loop-first t zero buf h = absurd (omega arith)
read_loop-first t (suc k) buf h =
    ground (arith, read_loop-some t k 1 (write buf 0 (t.buffer ((t.head + 0) % tty_buf_size))))

-- No text waits, and a reader gets some.
pub data Ghost (buf : ℕ → ℕ) (count : ℕ) : Bool × Tty × Vga → Type 0 where
  ghost :
      (woken : Bool) (t : Tty) (v : Vga)
      → length t ≡ 0
      → 0 < (tty_read_line t buf count).0
      → Ghost buf count (woken, t, v)

tty_read_line-stale :
    (t : Tty) (buf : ℕ → ℕ) (count : ℕ)
    → 0 < t.canon_lines
    → length t ≡ 0
    → t.head < tty_buf_size
    → 0 < count
    → 0 < (tty_read_line t buf count).0
unfolding tty_read_line tty_has_line
tty_read_line-stale t buf count has empty h some_room =
    let e : ltb 0 t.canon_lines ≡ true = ground arith in
    rw e (read_loop-first t (size_min (available t) count) buf (ground arith))

erase_newline :
    {t : Tty} {out : Bool × Tty × Vga} (buf : ℕ → ℕ) (count : ℕ)
    → 0 < count
    → length t ≡ 1
    → char_at t 0 ≡ 10
    → Pushed 8 t out
    → Ghost buf count out
erase_newline buf count some_room one line (stored t' v other h l c s p) = absurd (other refl)
erase_newline buf count some_room one line (dropped v other o f c) = absurd (other refl)
erase_newline buf count some_room one line (overcounted v e f c) = absurd (omega arith)
erase_newline buf count some_room one line (erased t' v e l s last h c) =
    absurd (let z : length t' ≡ 0 = omega arith in last (rw z line))
erase_newline buf count some_room one line (uncounted t' v e l s last n r c) =
    ghost false t' v (omega arith)
      (tty_read_line-stale t' buf count (omega arith) (omega arith) r.head some_room)
erase_newline buf count some_room one line (nothing v e z c) = absurd (omega arith)

after_newline :
    {t : Tty} {out : Bool × Tty × Vga} (buf : ℕ → ℕ) (count : ℕ)
    → 0 < count
    → length t ≡ 0
    → Pushed 10 t out
    → Returns (Ghost buf count) (tty_push_char 8 (out.1, out.2))
after_newline {t} buf count some_room empty (stored t' v other h l c s p) =
    let one : length t' ≡ 1 = omega arith in
    let line : char_at t' 0 ≡ 10 = rw empty at c in
    Returns-mono (tty_push_char-Pushed 8 h p)
      (λ out q. erase_newline buf count some_room one line q)
after_newline buf count some_room empty (dropped v other o f c) = absurd (o refl)
after_newline buf count some_room empty (overcounted v e f c) = absurd (omega arith)
after_newline buf count some_room empty (erased t' v e l s last h c) = absurd (omega arith)
after_newline buf count some_room empty (uncounted t' v e l s last n r c) = absurd (omega arith)
after_newline buf count some_room empty (nothing v e z c) = absurd (omega arith)

-- On a terminal with no text waiting, a newline that is typed and taken back leaves no text waiting,
-- but __tty_read then returns characters, for every positive count.
pub tty_read_line-Ghost :
    {t : Tty} {v : Vga} (buf : ℕ → ℕ) (count : ℕ)
    → IsTty t
    → IsCursor v
    → length t ≡ 0
    → 0 < count
    → Returns
        (Ghost buf count)
        (tty_push_char 10 (t, v) >>= (λ (woken, t', v'). tty_push_char 8 (t', v')))
tty_read_line-Ghost buf count h c empty some_room =
    Returns->>= _ (tty_push_char-Pushed 10 h c) (λ out p. after_newline buf count some_room empty p)
