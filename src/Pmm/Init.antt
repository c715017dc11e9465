-- ===== src/Pmm/Init.antt =====
-- pmm_init of mm/pmm.c: the bitmap is placed by the early allocator, every frame marked taken, and
-- those of the usable regions above the cursor of the early allocator dropped.
pub mod Release
pub mod Ready
mod Tests
use snap_os.Prelude.{
  ℕ, zero, suc, ◌+◌, ◌-◌, ◌*◌, ◌/◌, ◌%◌, Bool, true, false, not, ◌||◌, ltb, leb, ◌==◌,
  if◌then◌else◌, Exec, ok, ◌>>=◌, ◌>>◌, in_bounds, word64, page_size, page_align_down,
  page_align_up, clear_bit, write, enomem,
}
use snap_os.EarlyPmm.{PhysRegion, Regions}
use snap_os.EarlyPmm.Cursor.{
  Pa, is_usable, min_usable_paddr, early_pmm_alloc_frame, early_pmm_alloc_continuous_frames,
  early_pmm_get_max_usable,
}
use snap_os.Pmm.{Pmm, pmm_alloc_frame}

-- `for (b = from; ...; b++) bitmap[byte] &= ~(1 << b)`, with `k` rounds left.
pub clear_bits : ℕ → (byte b : ℕ) → Pmm → Exec Pmm
clear_bits zero byte b p = ok p
clear_bits (suc k) byte b p =
    in_bounds (ltb byte p.size)
    >> clear_bits k byte (b + 1)
        (record p { bitmap = write p.bitmap byte (clear_bit (p.bitmap byte) b) })

-- `for (i = from; ...; i++) bitmap[i] = 0x00`
pub zero_bytes : ℕ → ℕ → Pmm → Exec Pmm
zero_bytes zero i p = ok p
zero_bytes (suc k) i p =
    in_bounds (ltb i p.size) >> zero_bytes k (i + 1) (record p { bitmap = write p.bitmap i 0 })

-- The frames `sframe` to `eframe - 1`, bit by bit at the ends and byte by byte between them.
pub release_range : (sframe eframe : ℕ) → Pmm → Exec Pmm
unfolding clear_bits zero_bytes
release_range sframe eframe p =
    let sbyte = sframe / 8 in
    let ebyte = eframe / 8 in
    let sbit = sframe % 8 in
    let ebit = eframe % 8 in
    if sbyte == ebyte
    then clear_bits (ebit - sbit) sbyte sbit p
    else clear_bits (8 - sbit) sbyte sbit p
      >>= (λ p. clear_bits ebit ebyte 0 p)
      >>= (λ p. zero_bytes (ebyte - (sbyte + 1)) (sbyte + 1) p)

-- The first address of a region that may be handed out.
abbrev pub usable_start : PhysRegion → ℕ → ℕ
usable_start r cursor =
    let start : ℕ = if ltb r.start min_usable_paddr then min_usable_paddr else r.start in
    if ltb start cursor then cursor else start

pub release_region : PhysRegion → ℕ → Pmm → Exec Pmm
unfolding release_range
release_region r cursor p =
    let sframe = page_align_up (usable_start r cursor) / page_size in
    let eframe = page_align_down r.end / page_size in
    if not (is_usable r.type) || leb r.end cursor
    then ok p
    else if leb eframe sframe
    then ok p
    else release_range sframe eframe p

pub release_regions : Regions → ℕ → ℕ → ℕ → Pmm → Exec Pmm
unfolding release_region
release_regions clean cursor zero i p = ok p
release_regions clean cursor (suc k) i p =
    release_region (clean.reg i) cursor p >>= (λ p'. release_regions clean cursor k (i + 1) p')

-- Where `pmm_current_alloc_frame` points to.
pub data FrameSource : Type 0 where
  early bitmap : FrameSource

-- The statics of both allocators.
pub record Frames : Type 0 where
  pub pmm : Pmm
  pub pa : Pa
  pub source : FrameSource

-- The number of bytes that the bitmap takes.
abbrev pub bitmap_size : Regions → ℕ
bitmap_size clean =
    let frame_count = page_align_up (early_pmm_get_max_usable clean) / page_size in
    (frame_count + 7) / 8

-- memset(bitmap, 0xFF, size), where the memory held `old`.
abbrev pub all_taken : (ℕ → ℕ) → ℕ → Pmm
all_taken old size = record { bitmap = λ i. if ltb i size then 0xff else old i; size = size }

-- `contents a` is what the memory at the physical address `a` holds.
pub pmm_init : (contents : ℕ → ℕ → ℕ) → Regions → Frames → Exec (ℕ × Frames)
unfolding release_regions
pmm_init contents clean s =
    let size = bitmap_size clean in
    early_pmm_alloc_continuous_frames (page_align_up size / page_size) clean s.pa
    >>= (λ (frame, pa).
        if frame == 0
        then ok (enomem, record s { pmm = record s.pmm { size = size }; pa = pa })
        else release_regions clean pa.cursor clean.count 0 (all_taken (contents frame) size)
          >>= (λ p. ok (0, record { pmm = p; pa = pa; source = FrameSource.bitmap })))

pub pmm_current_alloc_frame : Regions → Frames → Exec (ℕ × Frames)
pmm_current_alloc_frame clean s = elim s.source [
  | early ↦ early_pmm_alloc_frame clean s.pa >>= (λ (frame, pa). ok (frame, record s { pa = pa }))
  | bitmap ↦ let (frame, p) = pmm_alloc_frame s.pmm in ok (frame, record s { pmm = p })
]
