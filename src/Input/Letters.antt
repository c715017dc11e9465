-- ===== src/Input/Letters.antt =====
-- The keys of letters come out as typed.
use snap_os.Prelude.{
  ℕ, zero, suc, ◌+◌, ◌-◌, ◌%◌, ◌≤◌, ◌<◌, ◌≡◌, ◌≢◌, refl, inl, inr, Bool, true, false, not, ◌&&◌,
  ◌||◌, arith, ltb, leb, ◌==◌, if◌then◌else◌, Bool-cases, ok, ◌>>=◌, if_false,
}
use snap_os.Vga.{Vga}
use snap_os.Tty.{Tty, tty_push_char}
use snap_os.Input.{
  Input, ascii_map, ascii_shift_map, ps2_scancode_base, key_char, ps2_irq, key_q, key_m,
  key_leftshift, key_rightshift, key_leftctrl, key_rightctrl, key_capslock,
}

-- `p` holds of every number below `n`.
holds_below : ℕ → (ℕ → Bool) → Bool
holds_below zero p = true
holds_below (suc n) p = p n && holds_below n p

holds_below_lem : (n : ℕ) (p : ℕ → Bool) → holds_below n p ≡ true → (k : ℕ) → k < n → p k ≡ true
unfolding holds_below
holds_below_lem zero p h k lt = absurd (omega arith)
holds_below_lem (suc n) p h k lt = elim (Bool-cases (k == n)) [
  | inl last ↦ (let e : k ≡ n = ground arith in rw e (ground arith))
  | inr earlier ↦ holds_below_lem n p (ground arith) k (ground arith)
]

abbrev pub is_letter : ℕ → Bool
is_letter k = leb 97 (ascii_map k) && leb (ascii_map k) 122

-- What the tables say of key `k`, if it is a letter.
letter_entry : ℕ → Bool
letter_entry k =
    not (is_letter k)
    || (leb key_q k
        && leb k key_m
        && not (k == key_leftshift)
        && not (k == key_leftctrl)
        && ascii_shift_map k + 32 == ascii_map k
        && ps2_scancode_base k == k)

letters : holds_below 58 letter_entry ≡ true
unfolding holds_below letter_entry ascii_map ascii_shift_map ps2_scancode_base
letters = refl

-- Upper case where exactly one of shift and caps lock is on.
abbrev pub is_upper_case : Input → Bool
is_upper_case s = if ltb 0 s.shift_count then not s.caps_active else s.caps_active

-- The character of a letter's key, by the letters' codes.
abbrev pub letter_char : ℕ → Input → ℕ
letter_char k s = if is_upper_case s then ascii_map k - 32 else ascii_map k

module _ (k : ℕ) (low : k < 58) (letter : is_letter k ≡ true) where
  entry_holds : letter_entry k ≡ true
  entry_holds = holds_below_lem 58 letter_entry letters k low

  letter_range : (16 ≤ k) × (k ≤ 50) × (k ≢ 42) × (k ≢ 29)
  unfolding letter_entry
  letter_range = let e = entry_holds in (ground arith, ground arith, ground arith, ground arith)

  key_char-letter : (s : Input) → key_char k s ≡ letter_char k s
  unfolding key_char letter_entry
  key_char-letter s = let e = entry_holds in ground arith

  scancode-letter : ps2_scancode_base k ≡ k
  unfolding letter_entry
  scancode-letter = let e = entry_holds in ground arith

  some_char : (s : Input) → (key_char k s == 0) ≡ false
  unfolding letter_entry
  some_char s = let e = entry_holds in let c = key_char-letter s in ground arith

  -- The scan code of a letter's key, below 58 and with no prefix before it, types the letter: in
  -- upper case where exactly one of shift and caps lock is on. Its release does nothing.
  pub ps2_irq-letter :
      (s : Input) (t : Tty) (v : Vga)
      → s.is_extended ≡ false
      → (ps2_irq k (s, t, v)
          ≡ (tty_push_char (letter_char k s) (t, v) >>= (λ (woken, t', v'). ok (s, t', v'))))
        × (ps2_irq (k + 128) (s, t, v) ≡ ok (s, t, v))
  unfolding ps2_irq
  ps2_irq-letter s t v plain =
      let r = letter_range in
      let down : leb 128 k ≡ false = ground arith in
      let raw : k % 128 ≡ k = omega arith in
      let raw' : (k + 128) % 128 ≡ k = omega arith in
      let c = scancode-letter in
      let z : (letter_char k s == 0) ≡ false = rw (key_char-letter s) at (some_char s) in
      let up : leb 128 (k + 128) ≡ true = ground arith in
      let no_shift : (k == key_leftshift || k == key_rightshift) ≡ false = ground (arith, r) in
      let no_ctrl : (k == key_leftctrl || k == key_rightctrl) ≡ false = ground (arith, r) in
      let known : (ltb k 89 && not (ps2_scancode_base k == 0)) ≡ true = ground (arith, c, r.0) in
      (
        if_false s.is_extended _ plain (
            if_false (k == 0xe0) _ (ground arith) (
              rw (raw, down, known, key_char-letter s)
                (if_false _ _ no_shift (
                  if_false _ _ no_ctrl (
                    if_false (k == key_capslock && true) _ (ground arith)
                      (if_false (letter_char k s == 0) _ z refl)))))),
        if_false s.is_extended _ plain (
            if_false (k + 128 == 0xe0) _ (ground arith) (
              rw (raw', up, known)
                (if_false _ _ no_shift (
                  if_false _ _ no_ctrl
                    (if_false (k == key_capslock && false) _ (ground arith) refl))))),
      )
