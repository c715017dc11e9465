-- ===== src/Pmm.antt =====
-- mm/pmm.c: the bitmap of page frames. Byte `i / 8` of the bitmap holds frame `i` in its bit
-- `i % 8`, and a set bit is a frame that is taken. Out of its `size` bytes an access is a fault.
pub mod Frames
pub mod Alloc
pub mod Contiguous
pub mod Free
pub mod Init
mod Tests
use snap_os.Prelude.{
  ℕ, zero, suc, ◌+◌, ◌*◌, ◌/◌, ◌%◌, Bool, true, false, not, ◌&&◌, Option, none, some, ltb, ◌==◌,
  if◌then◌else◌, Exec, ok, panic, out_of_fuel, ◌>>=◌, ◌>>◌, ensure, in_bounds, word64, page_size,
  page_align_down, is_page_aligned, test_bit, set_bit, clear_bit, write,
}

-- The statics `bitmap` and `size`.
pub record Pmm : Type 0 where
  pub bitmap : ℕ → ℕ
  pub size : ℕ

-- `bitmap[i / 8] & (1 << (i % 8))`
unfoldable pub is_taken : Pmm → ℕ → Bool
is_taken p i = test_bit (p.bitmap (i / 8)) (i % 8)

-- `bitmap[i / 8] |= (1 << (i % 8))`
unfoldable pub take_frame : Pmm → ℕ → Pmm
take_frame p i = record p { bitmap = write p.bitmap (i / 8) (set_bit (p.bitmap (i / 8)) (i % 8)) }

-- `bitmap[i / 8] &= ~(1 << (i % 8))`
unfoldable pub drop_frame : Pmm → ℕ → Pmm
drop_frame p i = record p { bitmap = write p.bitmap (i / 8) (clear_bit (p.bitmap (i / 8)) (i % 8)) }

-- The physical address of frame `i`.
abbrev pub frame_address : ℕ → ℕ
frame_address i = word64 (i * page_size)

-- The loop over `b`, with `k` rounds left: the first clear bit of a byte.
find_bit : ℕ → ℕ → ℕ → Option ℕ
find_bit zero b x = none
find_bit (suc k) b x = if test_bit x b then find_bit k (b + 1) x else some b

-- The loop over `i`, with `k` rounds left.
frame_loop : ℕ → ℕ → Pmm → ℕ × Pmm
frame_loop zero i p = (0, p)
frame_loop (suc k) i p =
    let rest = frame_loop k (i + 1) p in
    if p.bitmap i == 0xff then rest else elim (find_bit 8 0 (p.bitmap i)) [
      | none ↦ rest
      | some b ↦ (
        frame_address (i * 8 + b),
        record p { bitmap = write p.bitmap i (set_bit (p.bitmap i) b) },
      )
    ]

-- The address is 0, the null pointer, where no frame is free.
pub pmm_alloc_frame : Pmm → ℕ × Pmm
unfolding frame_loop find_bit
pmm_alloc_frame p = frame_loop p.size 0 p

pub pmm_free_frame : ℕ → Pmm → Exec Pmm
unfolding is_taken drop_frame
pmm_free_frame paddr p = do
  ensure (is_page_aligned paddr)
  let frame_no = page_align_down paddr / page_size
  in_bounds (ltb (frame_no / 8) p.size)
  ensure (is_taken p frame_no)
  ok (drop_frame p frame_no)

-- `k` frames from `i` on.
pub mark_taken : ℕ → ℕ → Pmm → Exec Pmm
unfolding take_frame
mark_taken zero i p = ok p
mark_taken (suc k) i p = in_bounds (ltb (i / 8) p.size) >> mark_taken k (i + 1) (take_frame p i)

-- The `for` of check_for_contiguous_frames: `count` and `i` when it stops.
contiguous_run : Pmm → ℕ → ℕ → ℕ × ℕ
unfolding is_taken
contiguous_run p zero i = (0, i)
contiguous_run p (suc count) i =
    if ltb (i / 8) p.size && not (is_taken p i)
    then contiguous_run p count (i + 1)
    else (suc count, i)

-- Whether the run was found, and the new `*idx` and `*b`.
check_for_contiguous_frames : Pmm → ℕ → ℕ → ℕ → Bool × ℕ × ℕ
unfolding contiguous_run
check_for_contiguous_frames p count idx b =
    let (left, i) = contiguous_run p count (idx * 8 + b) in
    let i' : ℕ = if left == 0 then i else i + 1 in (left == 0, i' / 8, i' % 8)

-- The `while` of pmm_alloc_contiguous_frames.
contiguous_loop : ℕ → ℕ → ℕ → ℕ → Pmm → Exec (ℕ × Pmm)
unfolding check_for_contiguous_frames mark_taken
contiguous_loop zero count idx b p = out_of_fuel
contiguous_loop (suc fuel) count idx b p =
    let skip = contiguous_loop fuel count (idx + 1) 0 p in
    let (found, idx', b') = check_for_contiguous_frames p count idx b in
    let retry = contiguous_loop fuel count idx' b' p in
    if not (ltb idx p.size)
    then ok (0, p)
    else if p.bitmap idx == 0xff
    then skip
    else if found
    then mark_taken count (idx * 8 + b) p >>= (λ p'. ok (frame_address (idx * 8 + b), p'))
    else retry

-- Every round moves the position `idx * 8 + b` on, and the loop ends at `size * 8`.
pub pmm_alloc_contiguous_frames : ℕ → Pmm → Exec (ℕ × Pmm)
unfolding contiguous_loop pmm_alloc_frame
pmm_alloc_contiguous_frames count p =
    if count == 0
    then panic
    else if count == 1
    then ok (pmm_alloc_frame p)
    else contiguous_loop (p.size * 8 + 1) count 0 0 p

pub drop_frames : ℕ → ℕ → Pmm → Exec Pmm
unfolding drop_frame
drop_frames zero i p = ok p
drop_frames (suc k) i p = in_bounds (ltb (i / 8) p.size) >> drop_frames k (i + 1) (drop_frame p i)

pub pmm_free_contiguous_frames : ℕ → ℕ → Pmm → Exec Pmm
unfolding drop_frames
pmm_free_contiguous_frames paddr count p =
    ensure (is_page_aligned paddr) >> drop_frames count (paddr / page_size) p
