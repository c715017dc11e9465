-- ===== src/Paging/Translate/Agree.antt =====
-- What a change of one entry of the page tables leaves as it was.
use snap_os.Prelude.{
  ℕ, zero, suc, ◌%◌, ◌≤◌, ◌≡◌, refl, sym, ◌∙◌, Bool, true, false, List, Option, some, none, arith,
  inl, inr, Bool-cases, ◌==◌,
}
use snap_os.Paging.{is_present, entry_paddr}
use snap_os.Paging.Translate.{
  page, leaf, ends_at, read_entry, is_clear, translate_from, translate, Fresh, none_left, next,
  Tree,
}

pub Fresh-mono :
    {level level' : ℕ → ℕ} {frames : List ℕ}
    → ((f : ℕ) → level f ≡ 4 → level' f ≡ 4)
    → Fresh level frames
    → Fresh level' frames
Fresh-mono keep none_left = none_left
Fresh-mono {level} {level'} keep (next frame free pos aligned lt rest) =
    next frame (keep frame free) pos aligned lt (Fresh-mono (λ f e. ground (arith, keep f)) rest)

pub read_entry_below :
    (k e vaddr : ℕ) {x y : Option ℕ}
    → (is_present e ≡ true → ends_at k e ≡ false → x ≡ y)
    → read_entry k e vaddr x ≡ read_entry k e vaddr y
unfolding read_entry
read_entry_below k e vaddr h = elim (Bool-cases (is_present e)) [
  | inl present ↦ elim (Bool-cases (ends_at k e)) [
    | inl ends ↦ rw (present, ends) refl
    | inr on ↦ rw (present, on) (h present on)
  ]
  | inr absent ↦ rw absent refl
]

read_entry_absent :
    (k e vaddr : ℕ) (x : Option ℕ) → is_present e ≡ false → read_entry k e vaddr x ≡ none
unfolding read_entry
read_entry_absent k e vaddr x h = rw h refl

pub read_entry_on :
    (k e vaddr : ℕ) (x : Option ℕ)
    → is_present e ≡ true
    → ends_at k e ≡ false
    → read_entry k e vaddr x ≡ x
unfolding read_entry
read_entry_on k e vaddr x present on = rw (present, on) refl

pub read_entry_last :
    (k e vaddr : ℕ) (x : Option ℕ)
    → is_present e ≡ true
    → ends_at k e ≡ true
    → read_entry k e vaddr x ≡ some (leaf k e vaddr)
unfolding read_entry
read_entry_last k e vaddr x present ends = rw (present, ends) refl

module _ {tables : ℕ → ℕ → ℕ} {pgd : ℕ} {level place : ℕ → ℕ} (is : Tree tables pgd level place)
    (tables' : ℕ → ℕ → ℕ) (vaddr : ℕ) where
  -- Two sets of tables that agree on the way of a walk give the same address.
  pub data Agree (k a : ℕ) : Type 0 where
    same : tables' a (page k vaddr % 512) ≡ tables a (page k vaddr % 512) → Agree k a
    neither :
        is_present (tables a (page k vaddr % 512)) ≡ false
        → translate_from tables' k a vaddr ≡ none
        → Agree k a

  pub translate_from-Agree :
      ((k a : ℕ) → level a ≡ k → k ≤ 3 → place a ≡ page (suc k) vaddr → Agree k a)
      → (k a : ℕ) → level a ≡ k
      → k ≤ 3
      → place a ≡ page (suc k) vaddr
      → translate_from tables' k a vaddr ≡ translate_from tables k a vaddr
  unfolding translate_from page
  translate_from-Agree agree zero a la le pa = elim (agree zero a la le pa) [
    | same e ↦ rw e refl
    | neither absent e ↦ e ∙ sym (read_entry_absent 0 _ vaddr none absent)
  ]
  translate_from-Agree agree (suc k) a la le pa = elim (agree (suc k) a la le pa) [
    | neither absent e ↦ e ∙ sym (read_entry_absent (suc k) _ vaddr _ absent)
    | same e ↦ rw e (
        read_entry_below (suc k) (tables a (page (suc k) vaddr % 512)) vaddr (λ present on.
          let (lc, pc) = is.child a (page (suc k) vaddr % 512) k la le (omega arith) present on in
          translate_from-Agree agree k (entry_paddr (tables a (page (suc k) vaddr % 512))) lc
            (omega arith) (omega (arith, pc, pa))))
  ]

  -- The same for a whole walk.
  pub translate-Agree :
      ((k a : ℕ) → level a ≡ k → k ≤ 3 → place a ≡ page (suc k) vaddr → Agree k a)
      → translate tables' pgd vaddr ≡ translate tables pgd vaddr
  unfolding translate page
  translate-Agree agree =
      translate_from-Agree agree 3 pgd is.root_level (omega arith) (omega (arith, is.root_place))

pub clear_frame_none :
    (tables : ℕ → ℕ → ℕ) (k a vaddr : ℕ)
    → ((j : ℕ) → tables a j ≡ 0)
    → translate_from tables k a vaddr ≡ none
unfolding translate_from page
clear_frame_none tables zero a vaddr zeros =
    read_entry_absent 0 (tables a (page 0 vaddr % 512)) vaddr none
      (rw (zeros (page 0 vaddr % 512)) refl)
clear_frame_none tables (suc k) a vaddr zeros =
    read_entry_absent (suc k) (tables a (page (suc k) vaddr % 512)) vaddr _
      (rw (zeros (page (suc k) vaddr % 512)) refl)

pub clear_frame-is_clear :
    (tables : ℕ → ℕ → ℕ) (allow : Bool) (k a vaddr j : ℕ)
    → ((j : ℕ) → tables a j ≡ 0)
    → is_clear tables allow k a vaddr j ≡ true
unfolding is_clear
clear_frame-is_clear tables allow zero a vaddr j zeros =
    rw (zeros (page 0 vaddr % 512)) (ground arith)
clear_frame-is_clear tables allow (suc k) a vaddr j zeros =
    rw (zeros (page (suc k) vaddr % 512)) (ground arith)

-- From a clear way, the way below.
pub is_clear_below :
    (tables : ℕ → ℕ → ℕ) (allow : Bool) (k t vaddr j : ℕ)
    → is_clear tables allow (suc k) t vaddr j ≡ true
    → (j == suc k) ≡ false
    → is_present (tables t (page (suc k) vaddr % 512)) ≡ true
    → is_clear tables allow k (entry_paddr (tables t (page (suc k) vaddr % 512))) vaddr j ≡ true
unfolding is_clear
is_clear_below tables allow k t vaddr j c ne present = ground arith

-- No large page on the way.
pub is_clear_goes_on :
    (tables : ℕ → ℕ → ℕ) (allow : Bool) (k t vaddr j : ℕ)
    → is_clear tables allow (suc k) t vaddr j ≡ true
    → (j == suc k) ≡ false
    → is_present (tables t (page (suc k) vaddr % 512)) ≡ true
    → ends_at (suc k) (tables t (page (suc k) vaddr % 512)) ≡ false
unfolding is_clear
is_clear_goes_on tables allow k t vaddr j c ne present = ground arith
