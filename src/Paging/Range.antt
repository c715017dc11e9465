-- ===== src/Paging/Range.antt =====
-- mmu_map_range: what its rounds map.
use snap_os.Prelude.{
  ℕ, zero, suc, ◌+◌, ◌-◌, ◌/◌, ◌%◌, ◌^◌, ◌<◌, ◌≡◌, refl, Bool, true, false, not, ◌||◌, arith, ◌==◌,
  if_false, ap, ok, panic, ◌>>=◌, Returns, returns, Returns->>=, word64, page_size,
}
use snap_os.Paging.{
  Mmu, Prot, PageSize, page_4k, chunk_of, mmu_map_one, choose_size, map_loop, mmu_map_range,
  is_aligned,
}
use snap_os.Paging.Entries.{IsFlags}
use snap_os.Paging.Translate.{is_clear, AtLeast, IsTree}
use snap_os.Paging.MapOne.{Mapped, mmu_map_one-Mapped}

-- A round of the loop, with the size that is chosen.
pub map_loop_round :
    (fuel : ℕ) (m : Mmu) (pgd v p len : ℕ) (opts : Prot) (size : PageSize)
    → (len == 0) ≡ false
    → choose_size m.cpu_has_1g_pages v p len ≡ size
    → map_loop (suc fuel) m pgd v p len opts ≡ (
        mmu_map_one m pgd v p size opts >>= λ m1.
        map_loop fuel m1 pgd
          (word64 (v + chunk_of size))
          (word64 (p + chunk_of size))
          (len - chunk_of size)
          opts)
unfolding map_loop
map_loop_round fuel m pgd v p len opts size more chosen = if_false (len == 0) (ok m) more (
    ap
      (λ s. mmu_map_one m pgd v p s opts >>= λ m1.
        map_loop fuel m1 pgd (word64 (v + chunk_of s)) (word64 (p + chunk_of s)) (len - chunk_of s)
          opts)
      chosen)

map_loop_done :
    (fuel : ℕ) (m : Mmu) (pgd v p : ℕ) (opts : Prot) → map_loop fuel m pgd v p 0 opts ≡ ok m
unfolding map_loop
map_loop_done zero m pgd v p opts = refl
map_loop_done (suc fuel) m pgd v p opts = refl

-- The checks of mmu_map_range, passed.
mmu_map_range_aligned :
    (m : Mmu) (pgd v p len : ℕ) (opts : Prot)
    → v % 4096 ≡ 0
    → p % 4096 ≡ 0
    → len % 4096 ≡ 0
    → mmu_map_range m pgd v p len opts ≡ map_loop (len / page_size) m pgd v p len opts
unfolding mmu_map_range
mmu_map_range_aligned m pgd v p len opts av aligned_p al =
    if_false (not (is_aligned v page_size) || not (is_aligned p page_size)) panic (ground arith)
      (if_false (not (is_aligned len page_size)) panic (ground arith) refl)

module _ (m : Mmu) (pgd v p : ℕ) (opts : Prot) (fits : p < 2 ^ 52) (flags : IsFlags opts.prot_flags)
    (is : IsTree m pgd) (left : AtLeast 3 m.frames) where
  small_page : (has_1g : Bool) → choose_size has_1g v p 4096 ≡ page_4k
  unfolding choose_size
  small_page has_1g = ground arith

  -- A range of one page: the page is mapped, and no other address changes.
  pub mmu_map_range-Mapped_page :
      v % 4096 ≡ 0
      → p % 4096 ≡ 0
      → is_clear m.tables opts.allow_overwrite 3 pgd v 0 ≡ true
      → Returns (Mapped m pgd v p page_4k) (mmu_map_range m pgd v p 4096 opts)
  mmu_map_range-Mapped_page va pa clear =
      rw
        (
          mmu_map_range_aligned m pgd v p 4096 opts va pa refl,
          map_loop_round 0 m pgd v p 4096 opts page_4k refl (small_page m.cpu_has_1g_pages),
        )
        (Returns->>= _ (mmu_map_one-Mapped m pgd v p page_4k opts fits pa flags is left clear)
          (λ m1 h. rw map_loop_done (returns h)))
