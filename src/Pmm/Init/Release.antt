-- ===== src/Pmm/Init/Release.antt =====
-- Dropping a range of frames, in pmm_init of mm/pmm.c: the bits before and behind the whole bytes,
-- and the bytes.
use snap_os.Prelude.{
  ℕ, zero, suc, ◌+◌, ◌-◌, ◌*◌, ◌/◌, ◌%◌, ◌≤◌, ◌<◌, ◌≡◌, refl, inl, inr, true, false, ◌||◌, arith,
  ltb, ◌==◌, Bool-cases, Returns, returns, Returns-mono, Returns->>=, clear_bit, test_bit-zero,
  write,
}
use snap_os.Pmm.{Pmm, is_taken, drop_frame, drop_frames}
use snap_os.Pmm.Frames.{IsValid, in_run, Cleared, Cleared-trans}
use snap_os.Pmm.Free.{drop_frames-Cleared}
use snap_os.Pmm.Init.{clear_bits, zero_bytes, release_range}

-- Clearing bits of one byte is dropping their frames.
clear_bits-eq-drop_frames :
    (k byte b : ℕ) (p : Pmm) → b + k ≤ 8 → clear_bits k byte b p ≡ drop_frames k (byte * 8 + b) p
unfolding clear_bits drop_frames drop_frame
clear_bits-eq-drop_frames zero byte b p h = refl
clear_bits-eq-drop_frames (suc k) byte b p h =
    let e : (byte * 8 + b) / 8 ≡ byte = omega arith in
    let m : (byte * 8 + b) % 8 ≡ b = omega arith in
    let e' : byte * 8 + b + 1 ≡ byte * 8 + (b + 1) = omega arith in
    rw (
      e,
      m,
      e',
      clear_bits-eq-drop_frames k byte (b + 1)
          (record p { bitmap = write p.bitmap byte (clear_bit (p.bitmap byte) b) }) (omega arith),
    )

clear_bits-Cleared :
    (k byte b : ℕ) {p : Pmm}
    → IsValid p
    → b + k ≤ 8
    → byte * 8 + b + k ≤ p.size * 8
    → Returns (Cleared p (in_run (byte * 8 + b) k)) (clear_bits k byte b p)
clear_bits-Cleared k byte b {p} v h fits =
    rw (clear_bits-eq-drop_frames k byte b p h) (drop_frames-Cleared k (byte * 8 + b) v fits)

zero_byte-Cleared :
    (i : ℕ) {p : Pmm}
    → IsValid p
    → Cleared p (in_run (i * 8) 8) (record p { bitmap = write p.bitmap i 0 })
unfolding is_taken
zero_byte-Cleared i {p} v = record {
  bits = λ g. ground (arith, test_bit-zero (g % 8));
  size = refl;
  valid = record { bytes = λ j. ground (arith, v.bytes j); small = v.small };
}

zero_bytes-Cleared :
    (k i : ℕ) {p : Pmm}
    → IsValid p
    → i + k ≤ p.size
    → Returns (Cleared p (in_run (i * 8) (k * 8))) (zero_bytes k i p)
unfolding zero_bytes
zero_bytes-Cleared zero i v h =
    returns (record { bits = λ g. ground arith; size = refl; valid = v })
zero_bytes-Cleared (suc k) i {p} v h =
    let inside : ltb i p.size ≡ true = ground arith in
    let c = zero_byte-Cleared i v in
    rw inside (
      Returns-mono (zero_bytes-Cleared k (i + 1) c.valid (omega arith))
        (λ q d. Cleared-trans (in_run (i * 8) (suc k * 8)) (λ g. ground arith) c d))

pub idle : {p : Pmm} → IsValid p → Cleared p (λ g. false) p
idle v = record { bits = λ g. refl; size = refl; valid = v }

-- The three loops drop the frames of the range and no other.
pub release_range-Cleared :
    (s e : ℕ) {p : Pmm}
    → IsValid p
    → s < e
    → e ≤ p.size * 8
    → Returns (Cleared p (in_run s (e - s))) (release_range s e p)
unfolding release_range
release_range-Cleared s e {p} v lt fits = elim (Bool-cases (s / 8 == e / 8)) [
  | inl same ↦
      let start : s / 8 * 8 + s % 8 ≡ s = omega arith in
      let number : e % 8 - s % 8 ≡ e - s = ground arith in
      rw same (
        Returns-mono
          (clear_bits-Cleared (e % 8 - s % 8) (s / 8) (s % 8) v (omega arith) (ground arith))
          (λ q c.
            Cleared-trans (in_run s (e - s)) (λ g. ground (arith, start, number)) c (idle c.valid)))
  | inr other ↦ rw other (
      Returns->>= _
        (Returns->>= _
          (clear_bits-Cleared (8 - s % 8) (s / 8) (s % 8) v (omega arith) (ground arith))
          (λ q c.
            Returns-mono
              (clear_bits-Cleared (e % 8) (e / 8) 0 c.valid (omega arith) (omega (arith, c.size)))
              (λ r d.
                Cleared-trans
                  (λ g.
                    in_run (s / 8 * 8 + s % 8) (8 - s % 8) g || in_run (e / 8 * 8 + 0) (e % 8) g)
                  (λ g. refl) c d)))
        (λ r d.
          Returns-mono
            (zero_bytes-Cleared (e / 8 - (s / 8 + 1)) (s / 8 + 1) d.valid (ground (arith, d.size)))
            (λ t f. Cleared-trans (in_run s (e - s)) (λ g. ground arith) d f)))
]
