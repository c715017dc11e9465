-- ===== src/Pmm/Free.antt =====
-- pmm_free_frame and pmm_free_contiguous_frames of mm/pmm.c, on every branch, and the round trip
-- with the allocation.
use snap_os.Prelude.{
  ℕ, zero, suc, ◌+◌, ◌-◌, ◌*◌, ◌/◌, ◌%◌, ◌≤◌, ◌<◌, ◌≡◌, ◌≢◌, refl, inl, inr, ◌∙◌, true, false, not,
  ◌&&◌, ◌||◌, arith, ltb, ◌==◌, Bool-cases, dec_lt, Exec, ok, panic, fault, Returns, Returns-ok,
  returns, page_size, is_page_aligned,
}
use snap_os.Pmm.{
  Pmm, is_taken, drop_frame, frame_address, pmm_free_frame, drop_frames, pmm_free_contiguous_frames,
  pmm_alloc_contiguous_frames,
}
use snap_os.Pmm.Frames.{
  IsValid, FreeRun, in_run, Cleared, is_taken-drop_frame, drop_frame-IsValid, size-drop_frame,
}
use snap_os.Pmm.Alloc.{Allocated, taken, null}
use snap_os.Pmm.Contiguous.{pmm_alloc_contiguous_frames-Allocated}

-- IS_PAGE_ALIGNED holds of every address: the complement of a word with 52 clear bits is not 0.
pub is_page_aligned-eq-true : (x : ℕ) → is_page_aligned x ≡ true
is_page_aligned-eq-true x = ground arith

-- What freeing the one frame `f` may come to.
pub data Freed (p : Pmm) (f : ℕ) : Exec Pmm → Type 0 where
  outside : p.size * 8 ≤ f → Freed p f fault
  double_free : f < p.size * 8 → is_taken p f ≡ false → Freed p f panic
  freed :
      (p' : Pmm)
      → f < p.size * 8
      → is_taken p f ≡ true
      → ((g : ℕ) → is_taken p' g ≡ (not (f == g) && is_taken p g))
      → p'.size ≡ p.size
      → IsValid p'
      → Freed p f (ok p')

-- pmm_free_frame at any address, aligned or not, is about the frame that the address lies in: it
-- panics where that frame is free, and else frees it and no other; beyond the bitmap it reads out
-- of bounds.
pub pmm_free_frame-Freed :
    {p : Pmm} (paddr : ℕ) → IsValid p → Freed p (paddr / page_size) (pmm_free_frame paddr p)
unfolding pmm_free_frame
pmm_free_frame-Freed {p} paddr v =
    let f : ℕ = paddr / page_size in
    let same : (paddr - paddr % page_size) / page_size ≡ paddr / page_size = omega arith in
    rw (is_page_aligned-eq-true paddr, same)
      (elim (Bool-cases (ltb (f / 8) p.size)) [
        | inr beyond ↦ rw beyond (outside (ground arith))
        | inl inside ↦ elim (Bool-cases (is_taken p f)) [
          | inr clear ↦ rw (inside, clear) (double_free (ground arith) clear)
          | inl set ↦
              rw (inside, set)
                (freed (drop_frame p f) (ground arith) set (is_taken-drop_frame v f)
                  (size-drop_frame p f) (drop_frame-IsValid v f))
        ]
      ])

Cleared-step :
    {p : Pmm} (v : IsValid p) (f k : ℕ) {m : Exec Pmm}
    → Returns (Cleared (drop_frame p f) (in_run (f + 1) k)) m
    → Returns (Cleared p (in_run f (suc k))) m
Cleared-step {p} v f k (returns c) = returns (record {
  bits = λ g. ground (arith, c.bits g, is_taken-drop_frame v f g);
  size = c.size ∙ size-drop_frame p f;
  valid = c.valid;
})

pub drop_frames-Cleared :
    (k f : ℕ) {p : Pmm}
    → IsValid p
    → f + k ≤ p.size * 8
    → Returns (Cleared p (in_run f k)) (drop_frames k f p)
unfolding drop_frames
drop_frames-Cleared zero f v h =
    returns (record { bits = λ g. ground arith; size = refl; valid = v })
drop_frames-Cleared (suc k) f {p} v h =
    let inside : ltb (f / 8) p.size ≡ true = ground arith in
    rw inside (
      Cleared-step v f k (
        drop_frames-Cleared k (f + 1) (drop_frame-IsValid v f)
          (omega (arith, size-drop_frame p f))))

drop_frames_fault : (k f : ℕ) (p : Pmm) → 0 < k → p.size * 8 < f + k → drop_frames k f p ≡ fault
unfolding drop_frames
drop_frames_fault zero f p pos h = absurd (omega arith)
drop_frames_fault (suc k) f p pos h = elim (Bool-cases (ltb (f / 8) p.size)) [
  | inr beyond ↦ rw beyond
  | inl inside ↦ rw inside (
      drop_frames_fault k (f + 1) (drop_frame p f) (ground arith)
        (omega (arith, size-drop_frame p f)))
]

-- What freeing the `count` frames from `f` on may come to.
pub data Released (p : Pmm) (f count : ℕ) : Exec Pmm → Type 0 where
  cleared :
      {m : Exec Pmm}
      → ((g : ℕ) → in_run f count g ≡ true → g < p.size * 8)
      → Returns (Cleared p (in_run f count)) m
      → Released p f count m
  outside : (g : ℕ) → in_run f count g ≡ true → p.size * 8 ≤ g → Released p f count fault

-- pmm_free_contiguous_frames clears the frames of the run and no other where the run lies in the
-- bitmap, without a check that they are taken or that the address is aligned; a run that leaves
-- the bitmap is written out of bounds.
pub pmm_free_contiguous_frames-Released :
    {p : Pmm} (paddr count : ℕ)
    → IsValid p
    → Released p (paddr / page_size) count (pmm_free_contiguous_frames paddr count p)
unfolding pmm_free_contiguous_frames drop_frames
pmm_free_contiguous_frames-Released {p} paddr zero v = rw (is_page_aligned-eq-true paddr) (
    cleared (λ g e. absurd (ground arith))
      (returns (record { bits = λ g. ground arith; size = refl; valid = v })))
pmm_free_contiguous_frames-Released {p} paddr (suc k) v =
    let f : ℕ = paddr / page_size in
    rw (is_page_aligned-eq-true paddr) (elim (dec_lt (p.size * 8) (f + suc k)) [
      | yes beyond ↦
          rw (drop_frames_fault (suc k) f p (omega arith) beyond)
            (Released.outside (f + k) (ground arith) (omega arith))
      | no inside ↦ cleared (λ g e. ground arith) (drop_frames-Cleared (suc k) f v (omega arith))
    ])

-- The frames of `p''` are as those of `p`.
pub record SameFrames (p p'' : Pmm) : Type 0 where
  pub bits : (g : ℕ) → is_taken p'' g ≡ is_taken p g
  pub size : p''.size ≡ p.size

SameFrames-of_Cleared :
    {p p' : Pmm} (f count : ℕ) {m : Exec Pmm}
    → FreeRun p f count
    → ((g : ℕ) → is_taken p' g ≡ (in_run f count g || is_taken p g))
    → p'.size ≡ p.size
    → Returns (Cleared p' (in_run f count)) m
    → Returns (SameFrames p) m
SameFrames-of_Cleared f count run marks size (returns c) =
    returns (record { bits = λ g. ground (arith, c.bits g, marks g, run g); size = c.size ∙ size })

-- A run that lies in the bitmap is cleared.
Released-Cleared :
    {p : Pmm} {f count : ℕ} {m : Exec Pmm}
    → IsValid p
    → f + count ≤ p.size * 8
    → Released p f count m
    → Returns (Cleared p (in_run f count)) m
Released-Cleared v inside (cleared within done) = done
Released-Cleared v inside (Released.outside g e beyond) = absurd (ground arith)

free-Allocated :
    {p : Pmm} (count : ℕ) {out : ℕ × Pmm}
    → IsValid p
    → 0 < count
    → Allocated p count out
    → out.0 ≢ 0
    → Returns (SameFrames p) (pmm_free_contiguous_frames out.0 count out.1)
free-Allocated {p} count v many (null no_run) nz = absurd (nz refl)
free-Allocated {p} count v many (taken f p' run first bits size valid) nz =
    let last = run (f + count - 1) (omega arith) (omega arith) in
    let e : frame_address f / page_size ≡ f = omega (arith, last.0, v.small) in
    SameFrames-of_Cleared f count run bits size (
      rw e at (
        Released-Cleared valid (omega (arith, e, last.0, size))
          (pmm_free_contiguous_frames-Released (frame_address f) count valid)))

-- Freeing what pmm_alloc_contiguous_frames returned, if that is not null, puts every frame back.
pub free-alloc :
    {p p' : Pmm} (count addr : ℕ)
    → IsValid p
    → 0 < count
    → pmm_alloc_contiguous_frames count p ≡ ok (addr, p')
    → addr ≢ 0
    → Returns (SameFrames p) (pmm_free_contiguous_frames addr count p')
free-alloc {p} {p'} count addr v many e nz =
    free-Allocated count v many
      (Returns-ok (rw e at (pmm_alloc_contiguous_frames-Allocated count v many))) nz
