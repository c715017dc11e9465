-- ===== src/Paging/Translate/Reach.antt =====
-- The tables on the way to the page of an address.
use snap_os.Prelude.{
  ℕ, zero, suc, ◌/◌, ◌%◌, ◌≤◌, ◌<◌, ◌≡◌, refl, ap, ◌∙◌, true, false, ◌&&◌, some, none, arith,
  Bool-cases, inl, inr, if_false, if_true, ◌==◌,
}
use snap_os.Paging.{is_present, entry_paddr, put_entry}
use snap_os.Paging.Translate.{page, leaf, ends_at, translate_from, translate, Tree}
use snap_os.Paging.Translate.Agree.{same, translate-Agree, read_entry_on, read_entry_last}

pub data Reach (tables : ℕ → ℕ → ℕ) (pgd vaddr : ℕ) : ℕ → ℕ → Type 0 where
  top : Reach tables pgd vaddr 3 pgd
  down :
      {k t : ℕ}
      → Reach tables pgd vaddr (suc k) t
      → is_present (tables t (page (suc k) vaddr % 512)) ≡ true
      → ends_at (suc k) (tables t (page (suc k) vaddr % 512)) ≡ false
      → Reach tables pgd vaddr k (entry_paddr (tables t (page (suc k) vaddr % 512)))

-- The walk goes through the table.
pub translate-Reach :
    {tables : ℕ → ℕ → ℕ} {pgd vaddr k t : ℕ}
    → Reach tables pgd vaddr k t
    → translate tables pgd vaddr ≡ translate_from tables k t vaddr
unfolding translate translate_from
translate-Reach top = refl
translate-Reach {tables} {pgd} {vaddr} (down {k} {t} above present on) =
    translate-Reach above
    ∙ read_entry_on (suc k) (tables t (page (suc k) vaddr % 512)) vaddr _ present on

-- Addresses of the same page have the same way to it.
Reach_same_page :
    {tables : ℕ → ℕ → ℕ} {pgd vaddr k t : ℕ} (w : ℕ)
    → page k w ≡ page k vaddr
    → Reach tables pgd vaddr k t
    → Reach tables pgd w k t
unfolding page
Reach_same_page w e top = top
Reach_same_page {tables} {pgd} {vaddr} w e (down {k} {t} above present on) =
    let up : page (suc k) w ≡ page (suc k) vaddr = ap (λ p. p / 512) e in
    let r : Reach tables pgd w k (entry_paddr (tables t (page (suc k) w % 512))) =
      down (Reach_same_page w up above) (rw up present) (rw up on) in
    rw up at r

-- A walk that ends in the table.
translate_from_last :
    (tables : ℕ → ℕ → ℕ) (k t w : ℕ)
    → is_present (tables t (page k w % 512)) ≡ true
    → ends_at k (tables t (page k w % 512)) ≡ true
    → translate_from tables k t w ≡ some (leaf k (tables t (page k w % 512)) w)
unfolding translate_from
translate_from_last tables zero t w present ends = read_entry_last 0 _ w none present ends
translate_from_last tables (suc k) t w present ends = read_entry_last (suc k) _ w _ present ends

module _ {tables : ℕ → ℕ → ℕ} {pgd : ℕ} {level place : ℕ → ℕ}
    (is : Tree tables pgd level place) where
  pub Reach-le : {vaddr k t : ℕ} → Reach tables pgd vaddr k t → k ≤ 3
  Reach-le top = omega arith
  Reach-le (down above present on) = omega (arith, Reach-le above)

  -- The level and the place of a table on the way.
  pub Reach-place :
      {vaddr k t : ℕ} → Reach tables pgd vaddr k t → (level t ≡ k) × (place t ≡ page (suc k) vaddr)
  unfolding page
  Reach-place top = (is.root_level, omega (arith, is.root_place))
  Reach-place {vaddr} (down {k} {t} above present on) =
      let (l, p) = Reach-place above in
      let (lc, pc) =
        is.child t (page (suc k) vaddr % 512) k l (Reach-le above) (omega arith) present on in
      (lc, omega (arith, pc, p))

  -- A change of tables that keeps the present entries above level `j`.
  pub Reach-kept :
      {vaddr j : ℕ} (tables' : ℕ → ℕ → ℕ)
      → ((a i : ℕ)
          → j < level a
          → level a ≤ 3
          → is_present (tables a i) ≡ true
          → tables' a i ≡ tables a i)
      → {k t : ℕ} → j ≤ k
      → Reach tables pgd vaddr k t
      → Reach tables' pgd vaddr k t
  Reach-kept tables' keep le top = top
  Reach-kept {vaddr} {j} tables' keep le (down {k} {t} above present on) =
      let l = (Reach-place above).0 in
      let e : tables' t (page (suc k) vaddr % 512) ≡ tables t (page (suc k) vaddr % 512) =
        keep t (page (suc k) vaddr % 512) (omega (arith, l)) (omega (arith, l, Reach-le above))
          present in
      let r : Reach tables' pgd vaddr k (entry_paddr (tables' t (page (suc k) vaddr % 512))) =
        down (Reach-kept tables' keep (omega arith) above) (rw e present) (rw e on) in
      rw e at r

  -- A store in the last table on the way: the page gets its address, and no other page changes.
  module _ {vaddr k t : ℕ} (val : ℕ) (reach : Reach tables pgd vaddr k t) where
    abbrev after : ℕ → ℕ → ℕ
    after = put_entry tables t (page k vaddr % 512) val

    stored : after t (page k vaddr % 512) ≡ val
    stored = ground arith

    above_kept : (a i : ℕ) → level t < level a → after a i ≡ tables a i
    above_kept a i above = let e : a ≡ t → level a ≡ level t = ap level in ground arith

    pub translate-put_entry :
        (w : ℕ)
        → page k w ≡ page k vaddr
        → is_present val ≡ true
        → ends_at k val ≡ true
        → translate after pgd w ≡ some (leaf k val w)
    translate-put_entry w inside present ends =
        let way = Reach_same_page w inside reach in
        let l = (Reach-place reach).0 in
        let kept =
          Reach-kept {j = k} after (λ a i above le p. above_kept a i (omega (arith, l)))
            (omega arith) way in
        let v : after t (page k w % 512) ≡ val = rw inside stored in
        translate-Reach kept
        ∙ translate_from_last after k t w (rw v present) (rw v ends)
        ∙ rw v refl

    pub translate-put_entry_outside :
        (w : ℕ) → (page k w ≡ page k vaddr → ⊥) → translate after pgd w ≡ translate tables pgd w
    unfolding page
    translate-put_entry_outside w outside = translate-Agree is after w (λ j a la le pa.
        same (elim (Bool-cases ((a == t) && (page j w % 512 == page k vaddr % 512))) [
          | inr other ↦ if_false ((a == t) && (page j w % 512 == page k vaddr % 512)) _ other refl
          | inl here ↦
              let ea : a ≡ t = ground arith in
              let ei : page j w % 512 ≡ page k vaddr % 512 = ground arith in
              let (lt1, pt) = Reach-place reach in
              let ej : j ≡ k = omega (arith, la, lt1, ap level ea) in
              let w_j : page j w ≡ page k w = rw ej refl in
              let pa1 : page j w / 512 ≡ page k vaddr / 512 = omega (arith, pa, pt, ap place ea) in
              absurd (outside (omega (arith, w_j, pa1, ei)))
        ]))

    pub Tree-put_entry : is_present val ≡ true → ends_at k val ≡ true → Tree after pgd level place
    Tree-put_entry present ends = record {
      root_level = is.root_level;
      root_place = is.root_place;
      child = λ a i j la le hi p on. elim (Bool-cases ((a == t) && (i == page k vaddr % 512))) [
        | inl here ↦
            let ea : a ≡ t = ground arith in
            let ek : k ≡ suc j = omega (arith, la, (Reach-place reach).0, ap level ea) in
            let v : after a i ≡ val = if_true ((a == t) && (i == page k vaddr % 512)) _ here refl in
            let bad : ends_at (suc j) val ≡ false = rw v at on in
            absurd (cc (bad, ends, ap (λ k. ends_at k val) ek))
        | inr other ↦
            let v : after a i ≡ tables a i =
              if_false ((a == t) && (i == page k vaddr % 512)) _ other refl in
            rw v (is.child a i j la le hi (rw v at p) (rw v at on))
      ];
    }
