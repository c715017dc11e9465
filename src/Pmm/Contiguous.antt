-- ===== src/Pmm/Contiguous.antt =====
-- pmm_alloc_contiguous_frames of mm/pmm.c: first fit for a run of frames.
use snap_os.Prelude.{
  ℕ, zero, suc, ◌+◌, ◌-◌, ◌*◌, ◌/◌, ◌%◌, ◌≤◌, ◌<◌, ◌≡◌, refl, inl, inr, ◌∙◌, true, false, not, ◌&&◌,
  ◌||◌, arith, ltb, ◌==◌, if◌then◌else◌, Bool-cases, dec_lt, Exec, ok, ◌>>=◌, Returns, returns,
  test_bit_of_full,
}
use snap_os.Pmm.{
  Pmm, is_taken, take_frame, frame_address, mark_taken, contiguous_run, check_for_contiguous_frames,
  contiguous_loop, pmm_alloc_contiguous_frames,
}
use snap_os.Pmm.Frames.{
  IsValid, IsFree, FreeRun, in_run, is_taken-take_frame, take_frame-IsValid, size-take_frame,
}
use snap_os.Pmm.Alloc.{Allocated, taken, null, first_fit}

-- What marking `count` frames from `f` on leaves.
pub data Marked (p : Pmm) (f count : ℕ) : Exec Pmm → Type 0 where
  marked :
      (p' : Pmm)
      → ((g : ℕ) → is_taken p' g ≡ (in_run f count g || is_taken p g))
      → p'.size ≡ p.size
      → IsValid p'
      → Marked p f count (ok p')

Marked-step :
    {p : Pmm} (v : IsValid p) (f k : ℕ) {m : Exec Pmm}
    → Marked (take_frame p f) (f + 1) k m
    → Marked p f (suc k) m
Marked-step {p} v f k (marked p' bits size valid) =
    marked p' (λ g. ground (arith, bits g, is_taken-take_frame v f g)) (size ∙ size-take_frame p f)
      valid

mark_taken-Marked :
    (k f : ℕ) {p : Pmm} → IsValid p → f + k ≤ p.size * 8 → Marked p f k (mark_taken k f p)
unfolding mark_taken
mark_taken-Marked zero f {p} v h = marked p (λ g. ground arith) refl v
mark_taken-Marked (suc k) f {p} v h =
    let inside : ltb (f / 8) p.size ≡ true = ground arith in
    rw inside (
      Marked-step v f k
        (mark_taken-Marked k (f + 1) (take_frame-IsValid v f) (omega (arith, size-take_frame p f))))

-- Where the scan for a run stops, started at `i` with `count` frames to find.
data Ran (p : Pmm) (count i : ℕ) : ℕ × ℕ → Type 0 where
  all : (j : ℕ) → j ≡ i + count → FreeRun p i count → Ran p count i (0, j)
  stop :
      (left j : ℕ)
      → 0 < left
      → i ≤ j
      → j + left ≡ i + count
      → ¬ IsFree p j
      → Ran p count i (left, j)

Ran-step : {p : Pmm} {c i : ℕ} {r : ℕ × ℕ} → IsFree p i → Ran p c (i + 1) r → Ran p (suc c) i r
Ran-step {p} {i} free (all j e run) = all j (omega arith) (λ g lo hi. elim (dec_lt i g) [
  | yes lt ↦ run g (omega arith) (omega arith)
  | no ge ↦ let same : g ≡ i = omega arith in rw same free
])
Ran-step free (stop left j pos le e busy) = stop left j pos (omega arith) (omega arith) busy

contiguous_run-Ran : (p : Pmm) (c i : ℕ) → Ran p c i (contiguous_run p c i)
unfolding contiguous_run
contiguous_run-Ran p zero i = all i (omega arith) (λ g lo hi. absurd (omega arith))
contiguous_run-Ran p (suc c) i = elim (Bool-cases (ltb (i / 8) p.size && not (is_taken p i))) [
  | inl go ↦ rw go (Ran-step (ground arith, ground arith) (contiguous_run-Ran p c (i + 1)))
  | inr halt ↦ rw halt (stop (suc c) i (omega arith) (omega arith) refl (λ free. ground arith))
]

-- No run of `count` frames starts at a place that the scan has passed.
Ran-none :
    (p : Pmm) (count : ℕ) {i left j : ℕ}
    → 0 < left
    → j + left ≡ i + count
    → ¬ IsFree p j
    → (e : ℕ) → i ≤ e
    → e ≤ j
    → ¬ FreeRun p e count
Ran-none p count {j} pos eq busy e lo hi run = busy (run j hi (omega arith))

module _ {p : Pmm} (v : IsValid p) (count : ℕ) (many : 0 < count) where
  Marked-Allocated :
      (i : ℕ) {m : Exec Pmm}
      → ((e : ℕ) → e < i → ¬ FreeRun p e count)
      → FreeRun p i count
      → Marked p i count m
      → Returns (Allocated p count) (m >>= (λ p'. ok (frame_address i, p')))
  Marked-Allocated i none_before run (marked p' bits size valid) =
      returns (taken i p' run none_before bits size valid)

  -- What a scan that ends as `r` makes of the round: a result, or the next round.
  round-Allocated :
      (i : ℕ) {r : ℕ × ℕ} (retry : ℕ → Exec (ℕ × Pmm))
      → ((e : ℕ) → e < i → ¬ FreeRun p e count)
      → Ran p count i r
      → ((j : ℕ)
          → i ≤ j
          → ((e : ℕ) → e < j + 1 → ¬ FreeRun p e count)
          → Returns (Allocated p count) (retry (j + 1)))
      → Returns (Allocated p count) (
          let i' : ℕ = if r.0 == 0 then r.1 else r.1 + 1 in
          if r.0 == 0 then mark_taken count i p >>= (λ p'. ok (frame_address i, p')) else retry i')
  round-Allocated i retry none_before (all j e run) next =
      let last = run (i + count - 1) (omega arith) (omega arith) in
      Marked-Allocated i none_before run (mark_taken-Marked count i v (omega (arith, last.0)))
  round-Allocated i retry none_before (stop left j pos le eq busy) next =
      let nz : (left == 0) ≡ false = ground arith in
      rw nz (
        next j le (λ e lt. elim (dec_lt e i) [
          | yes before ↦ none_before e before
          | no after ↦ Ran-none p count pos eq busy e (omega arith) (omega arith)
        ]))

  full_byte : (idx g : ℕ) → (p.bitmap idx == 0xff) ≡ true → g / 8 ≡ idx → ¬ IsFree p g
  unfolding is_taken
  full_byte idx g ones e free = cc (
    test_bit_of_full (p.bitmap (g / 8)) (g % 8) (v.bytes (g / 8)) (rw e ones) (omega arith),
    free.1,
  )

  contiguous_loop-Allocated :
      (fuel idx b : ℕ)
      → b < 8
      → 0 < fuel
      → p.size * 8 < fuel + (idx * 8 + b)
      → ((e : ℕ) → e < idx * 8 + b → ¬ FreeRun p e count)
      → Returns (Allocated p count) (contiguous_loop fuel count idx b p)
  unfolding contiguous_loop check_for_contiguous_frames
  contiguous_loop-Allocated zero idx b hb pos enough none_before = absurd (omega arith)
  contiguous_loop-Allocated (suc fuel) idx b hb pos enough none_before =
      elim (Bool-cases (ltb idx p.size)) [
        | inr end ↦ rw end (
            returns (
              null (λ e run.
                let first = run e (omega arith) (omega arith) in
                none_before e (ground (arith, first.0)) run)))
        | inl more ↦
            let inside : idx < p.size = ground arith in
            elim (Bool-cases (p.bitmap idx == 0xff)) [
              | inl ones ↦
                  rw (more, ones)
                    (contiguous_loop-Allocated fuel (idx + 1) 0 (omega arith) (omega arith)
                      (omega arith)
                      (λ e lt run. elim (dec_lt e (idx * 8 + b)) [
                        | yes before ↦ none_before e before run
                        | no after ↦
                            full_byte idx e ones (omega arith) (run e (omega arith) (omega arith))
                      ]))
              | inr some_clear ↦
                  rw (more, some_clear)
                    (round-Allocated (idx * 8 + b)
                      (λ i. contiguous_loop fuel count (i / 8) (i % 8) p) none_before
                      (contiguous_run-Ran p count (idx * 8 + b))
                      (λ j le none_below.
                        contiguous_loop-Allocated fuel ((j + 1) / 8) ((j + 1) % 8) (omega arith)
                          (omega arith) (omega arith) (λ e lt. none_below e (omega arith))))
            ]
      ]

-- pmm_alloc_contiguous_frames returns, for every count but 0: the first run of that many free
-- frames, which it takes with no other frame changed, or null where there is no such run.
pub pmm_alloc_contiguous_frames-Allocated :
    {p : Pmm} (count : ℕ)
    → IsValid p
    → 0 < count
    → Returns (Allocated p count) (pmm_alloc_contiguous_frames count p)
unfolding pmm_alloc_contiguous_frames
pmm_alloc_contiguous_frames-Allocated {p} count v many =
    let nz : (count == 0) ≡ false = ground arith in
    rw nz (elim (Bool-cases (count == 1)) [
      | inl one ↦ let e : count ≡ 1 = ground arith in rw (one, e) (returns (first_fit v))
      | inr more ↦ rw more (
          contiguous_loop-Allocated v count many (p.size * 8 + 1) 0 0 (omega arith) (omega arith)
            (omega arith) (λ e lt. absurd (omega arith)))
    ])
