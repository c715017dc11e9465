-- ===== src/Paging/MapOne.antt =====
-- mmu_map_one in a tree of page tables.
use snap_os.Prelude.{
  ℕ, ◌+◌, ◌/◌, ◌%◌, ◌^◌, ◌<◌, ◌≡◌, ◌≢◌, refl, ap, ◌∙◌, Bool, true, false, not, ◌&&◌, some, arith,
  panic, Returns, returns, Returns->>=,
}
use snap_os.Paging.{
  Mmu, Prot, PageSize, page_4k, page_2m, page_1g, entry_value, Walked, slot, hit_huge, is_present,
  is_huge, set_entry, mmu_map_one,
}
use snap_os.Paging.Entries.{IsFlags, entry_value-Holds, is_large}
use snap_os.Paging.Translate.{page, leaf, ends_at, is_clear, translate, AtLeast, IsTree, tree}
use snap_os.Paging.Translate.Reach.{
  top, translate-put_entry, translate-put_entry_outside, Tree-put_entry,
}
use snap_os.Paging.Walk.{level_number, At, Found, found, mmu_walk-Found}

-- The bytes that an entry of each size maps: the processor fixes them by the entry's level.
abbrev pub bytes_of : PageSize → ℕ
bytes_of page_4k = 2 ^ 12
bytes_of page_2m = 2 ^ 21
bytes_of page_1g = 2 ^ 30

-- What a mapping of one page leaves: a tree in which the page has its address and every other page
-- what it had.
pub record Mapped (m : Mmu) (pgd vaddr paddr : ℕ) (size : PageSize) (m' : Mmu) : Type 0 where
  pub is_tree : IsTree m' pgd
  pub inside :
      (w : ℕ)
      → w % 2 ^ 48 / bytes_of size ≡ vaddr % 2 ^ 48 / bytes_of size
      → translate m'.tables pgd w ≡ some (paddr + w % bytes_of size)
  pub outside :
      (w : ℕ)
      → w % 2 ^ 48 / bytes_of size ≢ vaddr % 2 ^ 48 / bytes_of size
      → translate m'.tables pgd w ≡ translate m.tables pgd w

-- The page of an address, by division.
same_number :
    (size : PageSize) (v w : ℕ)
    → w % 2 ^ 48 / bytes_of size ≡ v % 2 ^ 48 / bytes_of size
    → page (level_number size) w ≡ page (level_number size) v
unfolding page
same_number page_4k v w e = omega arith
same_number page_2m v w e = omega arith
same_number page_1g v w e = omega arith

same_bytes :
    (size : PageSize) (v w : ℕ)
    → page (level_number size) w ≡ page (level_number size) v
    → w % 2 ^ 48 / bytes_of size ≡ v % 2 ^ 48 / bytes_of size
unfolding page
same_bytes page_4k v w e = omega arith
same_bytes page_2m v w e = omega arith
same_bytes page_1g v w e = omega arith

leaf_of_value :
    (size : PageSize) (val paddr w : ℕ)
    → val / 2 ^ 12 % 2 ^ 40 ≡ paddr / 2 ^ 12
    → paddr % bytes_of size ≡ 0
    → leaf (level_number size) val w ≡ paddr + w % bytes_of size
leaf_of_value page_4k val paddr w e aligned = omega arith
leaf_of_value page_2m val paddr w e aligned = omega arith
leaf_of_value page_1g val paddr w e aligned = omega arith

page_aligned : (size : PageSize) (paddr : ℕ) → paddr % bytes_of size ≡ 0 → paddr % 2 ^ 12 ≡ 0
page_aligned page_4k paddr e = omega arith
page_aligned page_2m paddr e = omega arith
page_aligned page_1g paddr e = omega arith

ends_at_level :
    (size : PageSize) (val : ℕ)
    → is_huge val ≡ is_large size
    → ends_at (level_number size) val ≡ true
ends_at_level page_4k val e = refl
ends_at_level page_2m val e = ground arith
ends_at_level page_1g val e = ground arith

last_clear :
    (tables : ℕ → ℕ → ℕ) (allow : Bool) (size : PageSize) (t vaddr : ℕ)
    → is_clear tables allow (level_number size) t vaddr (level_number size) ≡ true
    → (is_present (tables t (page (level_number size) vaddr % 512)) && not allow) ≡ false
unfolding is_clear
last_clear tables allow page_4k t vaddr e = ground arith
last_clear tables allow page_2m t vaddr e = ground arith
last_clear tables allow page_1g t vaddr e = ground arith

module _ (m : Mmu) (pgd vaddr paddr : ℕ) (size : PageSize) (opts : Prot) (fits : paddr < 2 ^ 52)
    (aligned : paddr % bytes_of size ≡ 0) (flags : IsFlags opts.prot_flags) where
  set_entry-Mapped :
      (t n : ℕ) (m1 : Mmu)
      → At m pgd vaddr opts.allow_overwrite (level_number size) (level_number size) t n m1
      → Returns
          (Mapped m pgd vaddr paddr size)
          (set_entry m1 t (page (level_number size) vaddr % 512) vaddr paddr size opts)
  unfolding set_entry
  set_entry-Mapped t n m1 a =
      let holds = entry_value-Holds paddr size opts (page_aligned size paddr aligned) fits flags in
      let ends = ends_at_level size (entry_value paddr size opts) holds.huge in
      rw (last_clear m1.tables opts.allow_overwrite size t vaddr a.clear) (
        returns (record {
          is_tree =
              tree a.level a.place
                (Tree-put_entry a.is (entry_value paddr size opts) a.reach holds.present ends)
                a.fresh;
          inside = λ w e.
              translate-put_entry a.is (entry_value paddr size opts) a.reach w
                (same_number size vaddr w e) holds.present ends
              ∙ ap some
                  (leaf_of_value size (entry_value paddr size opts) paddr w holds.address aligned);
          outside = λ w ne.
              translate-put_entry_outside a.is (entry_value paddr size opts) a.reach w
                (λ e. ne (same_bytes size vaddr w e))
              ∙ a.translated w;
        }))

  -- With three frames left and a clear way to the page, mmu_map_one returns, with the page mapped.
  pub mmu_map_one-Mapped :
      IsTree m pgd
      → AtLeast 3 m.frames
      → is_clear m.tables opts.allow_overwrite 3 pgd vaddr (level_number size) ≡ true
      → Returns (Mapped m pgd vaddr paddr size) (mmu_map_one m pgd vaddr paddr size opts)
  unfolding mmu_map_one
  mmu_map_one-Mapped (tree level place is fresh) left clear =
      let start : At m pgd vaddr opts.allow_overwrite (level_number size) 3 pgd 3 m = record {
        level = level;
        place = place;
        is = is;
        fresh = fresh;
        left = left;
        reach = top;
        clear = clear;
        translated = λ w. refl;
      } in
      Returns->>= _ (mmu_walk-Found m pgd vaddr opts.allow_overwrite size start) mapped
    where
      mapped :
          (f : Walked × Mmu)
          → Found m pgd vaddr opts.allow_overwrite (level_number size) f
          → Returns (Mapped m pgd vaddr paddr size) (elim f.0 [
            | hit_huge ↦ panic
            | slot table i ↦ set_entry f.1 table i vaddr paddr size opts
          ])
      mapped f (found a) = set_entry-Mapped _ _ _ a
