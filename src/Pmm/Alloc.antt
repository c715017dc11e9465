-- ===== src/Pmm/Alloc.antt =====
-- pmm_alloc_frame of mm/pmm.c: first fit.
use snap_os.Prelude.{
  ℕ, zero, suc, ◌↔◌, ◌≢◌, refl, ◌+◌, ◌*◌, ◌/◌, ◌%◌, ◌≤◌, ◌<◌, ◌≡◌, inl, inr, true, false, ◌||◌,
  Option, none, some, arith, ◌==◌, Bool-cases, dec_lt, ◌∙◌, test_bit, set_bit, write,
  test_bit_of_full,
}
use snap_os.Pmm.{Pmm, is_taken, take_frame, frame_address, find_bit, frame_loop, pmm_alloc_frame}
use snap_os.Pmm.Frames.{
  IsValid, FreeRun, in_run, is_taken-take_frame, take_frame-IsValid, size-take_frame,
}

-- What an allocation of `count` frames may return: the address of the first run of `count` free
-- frames, with that run taken and no other frame changed; or null, if there is no such run.
pub data Allocated (p : Pmm) (count : ℕ) : ℕ × Pmm → Type 0 where
  taken :
      (f : ℕ) (p' : Pmm)
      → FreeRun p f count
      → ((e : ℕ) → e < f → ¬ FreeRun p e count)
      → ((g : ℕ) → is_taken p' g ≡ (in_run f count g || is_taken p g))
      → p'.size ≡ p.size
      → IsValid p'
      → Allocated p count (frame_address f, p')
  null : ((e : ℕ) → ¬ FreeRun p e count) → Allocated p count (0, p)

-- What the scan of one byte finds, from bit `b` on.
data Found (x b : ℕ) : Option ℕ → Type 0 where
  bit :
      (c : ℕ)
      → c < 8
      → test_bit x c ≡ false
      → ((d : ℕ) → b ≤ d → d < c → test_bit x d ≡ true)
      → Found x b (some c)
  full : ((d : ℕ) → b ≤ d → d < 8 → test_bit x d ≡ true) → Found x b none

Found-step : {x b : ℕ} {o : Option ℕ} → test_bit x b ≡ true → Found x (b + 1) o → Found x b o
Found-step {x} {b} set (bit c hc clear below) = bit c hc clear (λ d lo hi. ground (arith, below d))
Found-step {x} {b} set (full above) = full (λ d lo hi. ground (arith, above d))

find_bit-Found : (k b x : ℕ) → k + b ≡ 8 → Found x b (find_bit k b x)
unfolding find_bit
find_bit-Found zero b x e = full (λ d lo hi. absurd (omega arith))
find_bit-Found (suc k) b x e = elim (Bool-cases (test_bit x b)) [
  | inl set ↦ rw set (Found-step set (find_bit-Found k (b + 1) x (omega arith)))
  | inr clear ↦ rw clear (bit b (omega arith) clear (λ d lo hi. absurd (omega arith)))
]

module _ (p : Pmm) (i b : ℕ) (hb : b < 8) where
  byte_of : (i * 8 + b) / 8 ≡ i
  byte_of = omega arith

  bit_of : (i * 8 + b) % 8 ≡ b
  bit_of = omega arith

  is_taken_lem : is_taken p (i * 8 + b) ≡ test_bit (p.bitmap i) b
  unfolding is_taken
  is_taken_lem = rw (byte_of, bit_of)

  take_frame_lem :
      take_frame p (i * 8 + b) ≡ record p { bitmap = write p.bitmap i (set_bit (p.bitmap i) b) }
  unfolding take_frame
  take_frame_lem = rw (byte_of, bit_of)

-- The frames of the bytes below `i` and of the first `n` bits of byte `i`.
taken_through :
    (p : Pmm) (i n : ℕ)
    → ((g : ℕ) → g < i * 8 → is_taken p g ≡ true)
    → ((d : ℕ) → 0 ≤ d → d < n → test_bit (p.bitmap i) d ≡ true)
    → n ≤ 8
    → (g : ℕ) → g < i * 8 + n
    → is_taken p g ≡ true
unfolding is_taken
taken_through p i n below low hn g h = elim (dec_lt g (i * 8)) [
  | yes lt ↦ below g lt
  | no ge ↦ let byte : g / 8 ≡ i = omega arith in rw byte (low (g % 8) (omega arith) (omega arith))
]

module _ {p : Pmm} (v : IsValid p) where
  -- The frame at bit `b` of byte `i` is the first free one.
  byte-Allocated :
      (i : ℕ) {o : Option ℕ} {rest : ℕ × Pmm}
      → i < p.size
      → ((g : ℕ) → g < i * 8 → is_taken p g ≡ true)
      → Found (p.bitmap i) 0 o
      → (((g : ℕ) → g < (i + 1) * 8 → is_taken p g ≡ true) → Allocated p 1 rest)
      → Allocated p 1 (elim o [
        | none ↦ rest
        | some b ↦ (
          frame_address (i * 8 + b),
          record p { bitmap = write p.bitmap i (set_bit (p.bitmap i) b) },
        )
      ])
  byte-Allocated i hi below (full all) next =
      next (λ g h. taken_through p i 8 below all (omega arith) g (omega arith))
  byte-Allocated i hi below (bit b hb clear lower) next = rw (← take_frame_lem p i b hb) (
      taken (i * 8 + b) (take_frame p (i * 8 + b))
        (λ g lo hi'.
          let e : g ≡ i * 8 + b = omega arith in
          (omega arith, rw e (is_taken_lem p i b hb ∙ clear)))
        (λ e he run. cc (
          taken_through p i b below lower (omega arith) e he,
          (run e (omega arith) (omega arith)).1,
        ))
        (λ g. ground (arith, is_taken-take_frame v (i * 8 + b) g)) (size-take_frame p (i * 8 + b))
        (take_frame-IsValid v (i * 8 + b)))

  frame_loop-Allocated :
      (k i : ℕ)
      → k + i ≡ p.size
      → ((g : ℕ) → g < i * 8 → is_taken p g ≡ true)
      → Allocated p 1 (frame_loop k i p)
  unfolding frame_loop
  frame_loop-Allocated zero i e below =
      null (λ f run.
        let free = run f (omega arith) (omega arith) in cc (below f (omega arith), free.1))
  frame_loop-Allocated (suc k) i e below =
      let rest = frame_loop-Allocated k (i + 1) (omega arith) in
      elim (Bool-cases (p.bitmap i == 0xff)) [
        | inl ones ↦ rw ones (
            rest (λ g h.
              taken_through p i 8 below
                (λ d lo hi. test_bit_of_full (p.bitmap i) d (v.bytes i) ones hi) (omega arith) g
                (omega arith)))
        | inr some_clear ↦ rw some_clear (
            byte-Allocated i (omega arith) below (find_bit-Found 8 0 (p.bitmap i) (omega arith))
              rest)
      ]

  pub first_fit : Allocated p 1 (pmm_alloc_frame p)
  unfolding pmm_alloc_frame
  first_fit = frame_loop-Allocated p.size 0 (omega arith) (λ g h. absurd (omega arith))

  null_exactly :
      (out : ℕ × Pmm)
      → Allocated p 1 out
      → is_taken p 0 ≡ true
      → (out.0 ≡ 0) ↔ ((f : ℕ) → ¬ FreeRun p f 1)
  null_exactly _ (taken f p' free lowest change size valid) zero_taken =
      let at : (f < p.size * 8) × (is_taken p f ≡ false) = free f (omega arith) (omega arith) in
      let some_frame : f ≢ 0 = λ e. absurd (let h = rw e at at.1 in cc (h, zero_taken)) in
      let whole : frame_address f ≡ f * 4096 = omega (arith, at.0, v.small) in
      ((λ e. absurd (omega (arith, whole, e, some_frame))), (λ nowhere. absurd (nowhere f free)))
  null_exactly _ (null nowhere) zero_taken = ((λ e. nowhere), (λ all. refl))

-- pmm_alloc_frame returns the address of the first free frame, and takes that frame and no other; when
-- no frame is free it returns 0 and changes nothing. Frame 0 is taken, so the result is null exactly
-- when no frame is free.
pub pmm_alloc_frame-Allocated :
    {p : Pmm}
    → IsValid p
    → is_taken p 0 ≡ true
    → Allocated p 1 (pmm_alloc_frame p)
      × (((pmm_alloc_frame p).0 ≡ 0) ↔ ((f : ℕ) → ¬ FreeRun p f 1))
pmm_alloc_frame-Allocated {p} v zero_taken =
    let a = first_fit v in (a, null_exactly v (pmm_alloc_frame p) a zero_taken)
