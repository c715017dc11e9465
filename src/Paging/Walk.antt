-- ===== src/Paging/Walk.antt =====
-- mmu_walk in a tree of page tables: it finds the entry for a page, and adds the tables that lack.
use snap_os.Prelude.{
  ℕ, suc, ◌/◌, ◌%◌, ◌^◌, ◌<◌, ◌≡◌, refl, ◌∙◌, Bool, true, false, arith, ◌==◌, ◌>>=◌, Returns,
  returns, Returns->>=, Returns-mono,
}
use snap_os.Paging.{
  Mmu, PageSize, page_4k, page_2m, page_1g, level_of, Walked, slot, is_huge, entry_paddr, enter,
  walk_pmd, walk_pud, mmu_walk,
}
use snap_os.Paging.Translate.{page, is_clear, translate, Tree, Fresh, AtLeast}
use snap_os.Paging.Translate.Agree.{is_clear_goes_on}
use snap_os.Paging.Translate.Enter.{enter-Entered}
use snap_os.Paging.Translate.Reach.{Reach, down, Reach-le, Reach-place, Reach-kept}

abbrev pub level_number : PageSize → ℕ
level_number page_4k = 0
level_number page_2m = 1
level_number page_1g = 2

module _ (m0 : Mmu) (pgd vaddr : ℕ) (allow : Bool) where
  -- The walk to a page of level `j` stands in table `t`, of level `k`, and needs at most `n` frames.
  pub record At (j k t n : ℕ) (m : Mmu) : Type 0 where
    pub level : ℕ → ℕ
    pub place : ℕ → ℕ
    pub is : Tree m.tables pgd level place
    pub fresh : Fresh level m.frames
    pub left : AtLeast n m.frames
    pub reach : Reach m.tables pgd vaddr k t
    pub clear : is_clear m.tables allow k t vaddr j ≡ true
    pub translated : (w : ℕ) → translate m.tables pgd w ≡ translate m0.tables pgd w

  step :
      {j k t n : ℕ} {m : Mmu}
      → At j (suc k) t (suc n) m
      → (j == suc k) ≡ false
      → Returns (λ (t', m'). At j k t' n m') (enter m t (page (suc k) vaddr % 512))
  step {j} {k} {t} {n} {m} at_table below =
      let le = Reach-le at_table.is at_table.reach in
      let (l, p) = Reach-place at_table.is at_table.reach in
      Returns-mono
        (enter-Entered m pgd k t vaddr at_table.is l le at_table.fresh at_table.left
          (is_clear_goes_on m.tables allow k t vaddr j at_table.clear below))
        (λ (t', m') e.
          let above =
            Reach-kept at_table.is {j = 0} m'.tables (λ a i _ la present. e.kept a i la present)
              (omega arith) at_table.reach in
          let way : Reach m'.tables pgd vaddr k
              (entry_paddr (m'.tables t (page (suc k) vaddr % 512))) =
            down above e.linked e.goes_on in
          record {
            level = e.level';
            place = e.place';
            is = e.is;
            fresh = e.fresh;
            left = e.left;
            reach = rw e.leads at way;
            clear = e.clear allow j at_table.clear below;
            translated = λ w. e.translated w ∙ at_table.translated w;
          })

  not_huge :
      {j k t n : ℕ} {m : Mmu}
      → At j (suc k) t n m
      → suc k < 3
      → (j == suc k) ≡ false
      → is_huge (m.tables t (page (suc k) vaddr % 512)) ≡ false
  not_huge {j} {k} {t} {n} {m} at_table lt below =
      ground (arith, is_clear_goes_on m.tables allow k t vaddr j at_table.clear below)

  pub data Found (j : ℕ) : Walked × Mmu → Type 0 where
    found : {t n : ℕ} {m : Mmu} → At j j t n m → Found j (slot t (page j vaddr % 512), m)

  index_0 : page 0 vaddr % 512 ≡ vaddr / 2 ^ 12 % 512
  unfolding page
  index_0 = omega arith

  index_1 : page 1 vaddr % 512 ≡ vaddr / 2 ^ 21 % 512
  unfolding page
  index_1 = omega arith

  index_2 : page 2 vaddr % 512 ≡ vaddr / 2 ^ 30 % 512
  unfolding page
  index_2 = omega arith

  index_3 : page 3 vaddr % 512 ≡ vaddr / 2 ^ 39 % 512
  unfolding page
  index_3 = omega arith

  -- mmu_walk from a pmd on, from a pud on, and from the root.
  walk_pmd-Found :
      (size : PageSize) {t n : ℕ} {m : Mmu}
      → level_number size < 2
      → At (level_number size) 1 t (suc n) m
      → Returns (Found (level_number size)) (walk_pmd m t vaddr (level_of size))
  unfolding walk_pmd page
  walk_pmd-Found page_4k {t} {n} {m} lt at_table =
      let here : is_huge (m.tables t (vaddr / 2 ^ 21 % 512)) ≡ false =
        rw index_1 at (not_huge at_table (omega arith) refl) in
      let next = rw index_1 at (step at_table refl) in
      rw here (Returns->>= _ next (λ (t', m') a. rw (← index_0) (returns (found a))))
  walk_pmd-Found page_2m lt at_table = rw (← index_1) (returns (found at_table))
  walk_pmd-Found page_1g lt at_table = absurd (omega arith)

  walk_pud_on :
      (size : PageSize) {t n : ℕ} {m : Mmu}
      → level_number size < 2
      → At (level_number size) 2 t (suc (suc n)) m
      → Returns (Found (level_number size)) (
          enter m t (vaddr / 2 ^ 30 % 512) >>= λ (pmd_base, m1).
          walk_pmd m1 pmd_base vaddr (level_of size))
  walk_pud_on size {t} {n} {m} lt at_table =
      let next = rw index_2 at (step at_table (ground arith)) in
      Returns->>= (λ (pmd_base, m1). walk_pmd m1 pmd_base vaddr (level_of size)) next
        (λ (t', m') a. walk_pmd-Found size lt a)

  walk_pud-Found :
      (size : PageSize) {t n : ℕ} {m : Mmu}
      → At (level_number size) 2 t (suc (suc n)) m
      → Returns (Found (level_number size)) (walk_pud m t vaddr (level_of size))
  unfolding walk_pud
  walk_pud-Found page_4k {t} {n} {m} at_table =
      let here : is_huge (m.tables t (vaddr / 2 ^ 30 % 512)) ≡ false =
        rw index_2 at (not_huge at_table (omega arith) refl) in
      rw here (walk_pud_on page_4k (omega arith) at_table)
  walk_pud-Found page_2m {t} {n} {m} at_table =
      let here : is_huge (m.tables t (vaddr / 2 ^ 30 % 512)) ≡ false =
        rw index_2 at (not_huge at_table (omega arith) refl) in
      rw here (walk_pud_on page_2m (omega arith) at_table)
  walk_pud-Found page_1g at_table = rw (← index_2) (returns (found at_table))

  pub mmu_walk-Found :
      (size : PageSize) {n : ℕ}
      → At (level_number size) 3 pgd (suc (suc (suc n))) m0
      → Returns (Found (level_number size)) (mmu_walk m0 pgd vaddr (level_of size))
  unfolding mmu_walk
  mmu_walk-Found page_4k at_table =
      Returns->>= _ (rw index_3 at (step at_table refl)) (λ (t', m') a. walk_pud-Found page_4k a)
  mmu_walk-Found page_2m at_table =
      Returns->>= _ (rw index_3 at (step at_table refl)) (λ (t', m') a. walk_pud-Found page_2m a)
  mmu_walk-Found page_1g at_table =
      Returns->>= _ (rw index_3 at (step at_table refl)) (λ (t', m') a. walk_pud-Found page_1g a)
