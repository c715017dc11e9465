-- ===== src/Pmm/Tests.antt =====
-- mm/pmm.c on a bitmap of two bytes: frames 0 to 2 and 8 are taken.
use snap_os.Prelude.{
  ℕ, ◌*◌, ◌≡◌, ◌↔◌, refl, false, arith, ◌==◌, if◌then◌else◌, Exec, ok, Returns, test_bit, clear_bit,
}
use snap_os.Pmm.{
  Pmm, is_taken, pmm_alloc_frame, pmm_free_frame, mark_taken, pmm_alloc_contiguous_frames,
  pmm_free_contiguous_frames,
}
use snap_os.Pmm.Frames.{IsValid, FreeRun}
use snap_os.Pmm.Alloc.{Allocated, pmm_alloc_frame-Allocated}
use snap_os.Pmm.Contiguous.{pmm_alloc_contiguous_frames-Allocated}
use snap_os.Pmm.Free.{Freed, pmm_free_frame-Freed, SameFrames, free-alloc}

abbrev bytes : ℕ → ℕ
bytes i = if i == 0 then 7 else if i == 1 then 1 else 0

abbrev two_bytes : Pmm
two_bytes = record { bitmap = bytes; size = 2 }

two_bytes-IsValid : IsValid two_bytes
two_bytes-IsValid = record { bytes = λ i. ground arith; small = omega arith }

infixl 5 ◌>>-◌
abbrev ◌>>-◌ : Exec (ℕ × Pmm) → ℕ → ℕ
ok (a, p) >>- d = a
_ >>- d = d

-- Five frames fit below frame 8, six only behind it, and eight nowhere.
runs :
    ((pmm_alloc_contiguous_frames 5 two_bytes >>- 0) ≡ 3 * 4096)
    × ((pmm_alloc_contiguous_frames 6 two_bytes >>- 0) ≡ 9 * 4096)
    × ((pmm_alloc_contiguous_frames 8 two_bytes >>- 1) ≡ 0)
unfolding pmm_alloc_contiguous_frames test_bit
runs = (refl, refl, refl)

-- The frame of an address that is not page aligned is freed with no complaint.
unaligned : Returns (λ p. is_taken p 1 ≡ false) (pmm_free_frame 5000 two_bytes)
unfolding pmm_free_frame test_bit clear_bit
unaligned = Returns.returns refl

pmm_alloc_frame-Allocated_example :
    Allocated two_bytes 1 (pmm_alloc_frame two_bytes)
    × (((pmm_alloc_frame two_bytes).0 ≡ 0) ↔ ((f : ℕ) → ¬ FreeRun two_bytes f 1))
unfolding is_taken test_bit
pmm_alloc_frame-Allocated_example = pmm_alloc_frame-Allocated two_bytes-IsValid refl

pmm_alloc_contiguous_frames-Allocated_example :
    Returns (Allocated two_bytes 6) (pmm_alloc_contiguous_frames 6 two_bytes)
pmm_alloc_contiguous_frames-Allocated_example =
    pmm_alloc_contiguous_frames-Allocated 6 two_bytes-IsValid (omega arith)

pmm_free_frame-Freed_example : Freed two_bytes 2 (pmm_free_frame (2 * 4096) two_bytes)
pmm_free_frame-Freed_example = pmm_free_frame-Freed (2 * 4096) two_bytes-IsValid

abbrev six_taken : Pmm
unfolding mark_taken
six_taken = elim (mark_taken 6 9 two_bytes) [ ok p ↦ p | _ ↦ two_bytes ]

free-alloc_example :
    Returns (SameFrames two_bytes) (pmm_free_contiguous_frames (9 * 4096) 6 six_taken)
unfolding pmm_alloc_contiguous_frames test_bit
free-alloc_example = free-alloc 6 (9 * 4096) two_bytes-IsValid (omega arith) refl (omega arith)
