-- ===== src/Pmm/Init/Ready.antt =====
-- pmm_init of mm/pmm.c: which frames the bitmap offers once it is set up.
use snap_os.Prelude.{
  ℕ, zero, suc, ◌+◌, ◌*◌, ◌/◌, ◌%◌, ◌≤◌, ◌<◌, ◌^◌, ◌≡◌, refl, inl, inr, Bool, true, false, ◌&&◌,
  ◌||◌, arith, leb, ◌==◌, if◌then◌else◌, Bool-cases, dec_lt, ok, ◌>>=◌, Returns, returns,
  Returns-mono, Returns->>=, page_size, page_align_up, page_align_down, test_bit_ones, enomem,
}
use snap_os.Pmm.{Pmm, is_taken}
use snap_os.Pmm.Frames.{IsValid, IsFree, Cleared, Cleared-trans}
use snap_os.EarlyPmm.{PhysRegion, Regions}
use snap_os.EarlyPmm.Cursor.{Pa, is_usable, min_usable_paddr, early_pmm_get_max_usable}
use snap_os.EarlyPmm.Cursor.Max.{early_pmm_get_max_usable-top, early_pmm_get_max_usable-le}
use snap_os.EarlyPmm.Cursor.Alloc.{
  IsMap, IsPlaced, Given, given, exhausted, early_pmm_alloc_continuous_frames-Given,
}
use snap_os.Pmm.Init.{
  usable_start, release_region, release_regions, Frames, FrameSource, bitmap_size, all_taken,
  pmm_init,
}
use snap_os.Pmm.Init.Release.{release_range-Cleared, idle}

-- Whether the page of frame `g` lies in a usable region, above the first megabyte and the cursor.
offers : PhysRegion → ℕ → ℕ → Bool
offers r cursor g =
    is_usable r.type
    && leb r.start (g * page_size)
    && leb ((g + 1) * page_size) r.end
    && leb min_usable_paddr (g * page_size)
    && leb cursor (g * page_size)

offered : Regions → ℕ → (k i g : ℕ) → Bool
offered clean cursor zero i g = false
offered clean cursor (suc k) i g = offers (clean.reg i) cursor g || offered clean cursor k (i + 1) g

release_region-Cleared :
    (r : PhysRegion) (cursor : ℕ) {p : Pmm}
    → IsValid p
    → r.start < r.end
    → r.end ≤ 2 ^ 52
    → cursor ≤ 2 ^ 52
    → (is_usable r.type ≡ true → r.end / page_size ≤ p.size * 8)
    → Returns (Cleared p (offers r cursor)) (release_region r cursor p)
unfolding release_region offers
release_region-Cleared r cursor {p} v filled low lowc fits = elim (Bool-cases (is_usable r.type)) [
  | inr other ↦ rw other (returns (record { bits = λ g. ground arith; size = refl; valid = v }))
  | inl good ↦ elim (Bool-cases (leb r.end cursor)) [
    | inl behind ↦
        rw (good, behind) (returns (record { bits = λ g. ground arith; size = refl; valid = v }))
    | inr ahead ↦
        rw (good, ahead)
          (elim (Bool-cases (
            leb (page_align_down r.end / page_size)
              (page_align_up (usable_start r cursor) / page_size))) [
                | inl empty ↦
                    rw empty (returns (record { bits = λ g. ground arith; size = refl; valid = v }))
                | inr some_frames ↦ rw some_frames (
                    Returns-mono
                      (release_range-Cleared (page_align_up (usable_start r cursor) / page_size)
                        (page_align_down r.end / page_size) v (ground arith)
                        (omega (arith, fits good)))
                      (λ q c. Cleared-trans (offers r cursor) (λ g. ground arith) c (idle c.valid)))
              ])
  ]
]

release_regions-Cleared :
    (clean : Regions) (cursor : ℕ)
    → cursor ≤ 2 ^ 52
    → IsMap clean
    → (k i : ℕ) {p : Pmm} → i + k ≡ clean.count
    → IsValid p
    → early_pmm_get_max_usable clean / page_size ≤ p.size * 8
    → Returns (Cleared p (offered clean cursor k i)) (release_regions clean cursor k i p)
unfolding release_regions offered
release_regions-Cleared clean cursor lowc m zero i e v room = returns (idle v)
release_regions-Cleared clean cursor lowc m (suc k) i e v room =
    Returns->>= _
      (release_region-Cleared (clean.reg i) cursor v (m.proper i (omega arith))
        (m.low i (omega arith)) lowc
        (λ good. omega (arith, early_pmm_get_max_usable-top i m (omega arith) good)))
      (λ q c.
        Returns-mono
          (release_regions-Cleared clean cursor lowc m k (i + 1) (omega arith) c.valid
            (omega (arith, c.size)))
          (λ r d. Cleared-trans _ (λ g. refl) c d))

all_taken-IsValid :
    (old : ℕ → ℕ) (size : ℕ)
    → ((i : ℕ) → old i < 256)
    → size < 2 ^ 49
    → IsValid (all_taken old size)
all_taken-IsValid old size bytes small = record {
  bytes = λ i. ground (arith, bytes i);
  small = small;
}

all_taken-is_taken :
    (old : ℕ → ℕ) (size g : ℕ) → g < size * 8 → is_taken (all_taken old size) g ≡ true
unfolding is_taken
all_taken-is_taken old size g h = ground (arith, test_bit_ones (g % 8))

-- The page of frame `g` is memory that may be handed out: it lies in a usable region, not in the
-- first megabyte and not below the cursor of the early allocator.
pub record Owns (clean : Regions) (cursor g : ℕ) : Type 0 where
  pub k : ℕ
  pub inside : k < clean.count
  pub usable : is_usable (clean.reg k).type ≡ true
  pub from : (clean.reg k).start ≤ g * page_size
  pub upto : (g + 1) * page_size ≤ (clean.reg k).end
  pub high : min_usable_paddr ≤ g * page_size
  pub above : cursor ≤ g * page_size

offered-Owns :
    (clean : Regions) (cursor k i g : ℕ)
    → i + k ≡ clean.count
    → offered clean cursor k i g ≡ true
    → Owns clean cursor g
unfolding offered offers
offered-Owns clean cursor zero i g e h = absurd (ground arith)
offered-Owns clean cursor (suc k) i g e h = elim (Bool-cases (offers (clean.reg i) cursor g)) [
  | inl here ↦ record {
    k = i;
    inside = omega arith;
    usable = ground arith;
    from = ground arith;
    upto = ground arith;
    high = ground arith;
    above = ground arith;
  }
  | inr there ↦ offered-Owns clean cursor k (i + 1) g (omega arith) (ground arith)
]

Owns-offered :
    (clean : Regions) (cursor k i g : ℕ) (o : Owns clean cursor g)
    → i + k ≡ clean.count
    → i ≤ o.k
    → offered clean cursor k i g ≡ true
unfolding offered offers
Owns-offered clean cursor zero i g o e h = absurd (omega (arith, o.inside))
Owns-offered clean cursor (suc k) i g o e h = elim (dec_lt i o.k) [
  | yes lt ↦ ground (arith, Owns-offered clean cursor k (i + 1) g o (omega arith) (omega arith))
  | no ge ↦
      let here : i ≡ o.k = omega arith in
      ground (arith, here, o.usable, o.from, o.upto, o.high, o.above)
]

-- What pmm_init may leave of the state `s`: ENOMEM, with the early allocator still in use; or 0, and
-- the bitmap is the allocator, lies below the early allocator's cursor, and has exactly those
-- frames free whose memory may be handed out.
pub data Initialised (clean : Regions) (s : Frames) : ℕ × Frames → Type 0 where
  no_memory : (s' : Frames) → s'.source ≡ s.source → Initialised clean s (enomem, s')
  ready :
      (bitmap : ℕ) (p : Pmm) (pa : Pa)
      → min_usable_paddr ≤ bitmap
      → bitmap + p.size ≤ pa.cursor
      → IsPlaced clean pa
      → IsValid p
      → ((g : ℕ) → IsFree p g → Owns clean pa.cursor g)
      → ((g : ℕ) → Owns clean pa.cursor g → IsFree p g)
      → Initialised clean s (0, record { pmm = p; pa = pa; source = FrameSource.bitmap })

-- The bitmap has a bit for every frame of the usable regions.
bitmap_size-room :
    (clean : Regions)
    → IsMap clean
    → early_pmm_get_max_usable clean / page_size ≤ bitmap_size clean * 8
bitmap_size-room clean m = let b = early_pmm_get_max_usable-le m in omega arith

bitmap_size-small : (clean : Regions) → IsMap clean → bitmap_size clean ≤ 2 ^ 38
bitmap_size-small clean m = let b = early_pmm_get_max_usable-le m in omega arith

module _ (contents : ℕ → ℕ → ℕ) (clean : Regions) (s : Frames) (m : IsMap clean)
    (bytes : (a i : ℕ) → contents a i < 256) where
  with_bitmap :
      (frame : ℕ) (pa : Pa)
      → min_usable_paddr ≤ frame
      → frame + bitmap_size clean ≤ pa.cursor
      → pa.cursor ≤ 2 ^ 52
      → IsPlaced clean pa
      → Returns (Initialised clean s) (
          release_regions clean pa.cursor clean.count 0
            (all_taken (contents frame) (bitmap_size clean))
          >>= (λ p. ok (0, record { pmm = p; pa = pa; source = FrameSource.bitmap })))
  with_bitmap frame pa high stop low placed =
      let small = bitmap_size-small clean m in
      let start = all_taken (contents frame) (bitmap_size clean) in
      let taken = all_taken-is_taken (contents frame) (bitmap_size clean) in
      Returns->>= _
        (release_regions-Cleared clean pa.cursor low m clean.count 0 (omega arith)
          (all_taken-IsValid (contents frame) (bitmap_size clean) (bytes frame) (omega arith))
          (bitmap_size-room clean m))
        (λ p c. returns (
          ready frame p pa high (omega (arith, c.size)) placed c.valid
            (λ g free.
              offered-Owns clean pa.cursor clean.count 0 g (omega arith)
                (ground (arith, free.0, free.1, c.bits g, c.size, taken g)))
            (λ g o.
              let there =
                Owns-offered clean pa.cursor clean.count 0 g o (omega arith) (omega arith) in
              let top = early_pmm_get_max_usable-top o.k m o.inside o.usable in
              let room = bitmap_size-room clean m in
              (omega (arith, c.size, o.upto), ground (arith, c.bits g)))))

  -- With a clean map whose regions are in order and end at 2^52 or lower, and a placed early
  -- allocator, pmm_init returns. It returns ENOMEM and the early allocator stays in use; or it
  -- returns 0, the bitmap is valid and lies above the first megabyte and below the early
  -- allocator's cursor, and a frame of it is free if and only if its whole page lies in a usable
  -- region, above the first megabyte and not below that cursor.
  pub pmm_init-Initialised :
      IsPlaced clean s.pa → Returns (Initialised clean s) (pmm_init contents clean s)
  unfolding pmm_init
  pmm_init-Initialised placed =
      let small = bitmap_size-small clean m in
      Returns->>= _
        (early_pmm_alloc_continuous_frames-Given (page_align_up (bitmap_size clean) / page_size) m
          placed (omega arith))
        (λ out g. allocated out g)
    where
      allocated :
          (out : ℕ × Pa)
          → Given clean (page_size * (page_align_up (bitmap_size clean) / page_size)) s.pa out
          → Returns (Initialised clean s) (
              if out.0 == 0
              then ok
                  (enomem, record s { pmm = record s.pmm { size = bitmap_size clean }; pa = out.1 })
              else release_regions clean out.1.cursor clean.count 0
                  (all_taken (contents out.0) (bitmap_size clean))
                >>= (λ p. ok (0, record { pmm = p; pa = out.1; source = FrameSource.bitmap })))
      allocated _ (exhausted pa e) = returns (no_memory _ refl)
      allocated _ (given r a pa inside good lo min hi above al stop placed') =
          let small = bitmap_size-small clean m in
          let nonnull : (a == 0) ≡ false = ground arith in
          rw nonnull (with_bitmap a pa min (omega arith) (omega (arith, m.low r)) placed')
