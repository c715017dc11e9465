-- ===== src/Paging/Translate/Enter.antt =====
-- `enter`, the step down of mmu_walk, in a tree of page tables.
use snap_os.Prelude.{
  ℕ, zero, suc, ◌+◌, ◌*◌, ◌%◌, ◌^◌, ◌≤◌, ◌<◌, ◌≡◌, refl, sym, ap, ◌∙◌, Bool, true, false, ◌&&◌,
  List, [], ◌∷◌, none, arith, if_true, if_false, write, inl, inr, Bool-cases, ==_refl, ◌==◌, bit_or,
  Returns, returns,
}
use snap_os.Paging.{Mmu, is_present, entry_paddr, put_entry, clear_frame, enter, next_frame}
use snap_os.Paging.Entries.{Holds, table_entry-Holds}
use snap_os.Paging.Translate.{
  page, ends_at, is_clear, translate_from, translate, Fresh, next, Tree, AtLeast, enough, one_more,
}
use snap_os.Paging.Translate.Agree.{
  Fresh-mono, Agree, same, neither, translate-Agree, clear_frame_none, read_entry_on,
  clear_frame-is_clear, is_clear_below,
}

-- What the step from the entry of `vaddr` in table `t`, of level `k + 1`, gives: the table below it,
-- which the tree has now, and everything else as it was.
pub record Entered (m : Mmu) (pgd : ℕ) (level place : ℕ → ℕ) (k t vaddr n t' : ℕ) (m' : Mmu)
    : Type 0 where
  pub level' : ℕ → ℕ
  pub place' : ℕ → ℕ
  pub is : Tree m'.tables pgd level' place'
  pub fresh : Fresh level' m'.frames
  pub left : AtLeast n m'.frames
  pub child_level : level' t' ≡ k
  pub child_place : place' t' ≡ place t * 512 + page (suc k) vaddr % 512
  pub linked : is_present (m'.tables t (page (suc k) vaddr % 512)) ≡ true
  pub goes_on : ends_at (suc k) (m'.tables t (page (suc k) vaddr % 512)) ≡ false
  pub leads : entry_paddr (m'.tables t (page (suc k) vaddr % 512)) ≡ t'
  pub kept :
      (a j : ℕ) → level a ≤ 3 → is_present (m.tables a j) ≡ true → m'.tables a j ≡ m.tables a j
  pub level_kept : (a : ℕ) → level a ≤ 3 → level' a ≡ level a
  pub place_kept : (a : ℕ) → level a ≤ 3 → place' a ≡ place a
  pub translated : (w : ℕ) → translate m'.tables pgd w ≡ translate m.tables pgd w
  pub clear :
      (allow : Bool) (j : ℕ)
      → is_clear m.tables allow (suc k) t vaddr j ≡ true
      → (j == suc k) ≡ false
      → is_clear m'.tables allow k t' vaddr j ≡ true

less : {n : ℕ} {frames : List ℕ} → AtLeast (suc n) frames → AtLeast n frames
less {n = zero} (one_more rest) = enough
less {n = suc n} (one_more rest) = one_more (less rest)

module _ (m : Mmu) (pgd k t vaddr : ℕ) {level place : ℕ → ℕ} (is : Tree m.tables pgd level place)
    (lt : level t ≡ suc k) (le : suc k ≤ 3) where
  abbrev i : ℕ
  i = page (suc k) vaddr % 512

  enter_present :
      {n : ℕ}
      → Fresh level m.frames
      → AtLeast (suc n) m.frames
      → is_present (m.tables t i) ≡ true
      → ends_at (suc k) (m.tables t i) ≡ false
      → Entered m pgd level place k t vaddr n (entry_paddr (m.tables t i)) m
  enter_present fresh left present on =
      let child = is.child t i k lt le (omega arith) present on in
      record {
        level' = level;
        place' = place;
        is = is;
        fresh = fresh;
        left = less left;
        child_level = child.0;
        child_place = child.1;
        linked = present;
        goes_on = on;
        leads = refl;
        kept = λ a j _ _. refl;
        level_kept = λ a _. refl;
        place_kept = λ a _. refl;
        translated = λ w. refl;
        clear = λ allow j c ne. is_clear_below m.tables allow k t vaddr j c ne present;
      }

  module _ (frame : ℕ) (rest : List ℕ) (free : level frame ≡ 4) (aligned : frame % 2 ^ 12 ≡ 0)
      (small : frame < 2 ^ 52) (fresh : Fresh (write level frame 0) rest)
      (absent : is_present (m.tables t i) ≡ false) where
    abbrev val : ℕ
    val = bit_or (bit_or (bit_or frame 1) 2) 4

    abbrev after : Mmu
    after = record m { tables = put_entry (clear_frame m.tables frame) t i val; frames = rest }

    abbrev level_after : ℕ → ℕ
    level_after = write level frame k

    abbrev place_after : ℕ → ℕ
    place_after = write place frame (place t * 512 + i)

    holds : Holds val frame false
    holds = table_entry-Holds frame aligned small

    val_leads : entry_paddr val ≡ frame
    val_leads = omega (arith, holds.address)

    frame_not_t : (t == frame) ≡ false
    frame_not_t = ground (arith, ap level)

    after_frame : (j : ℕ) → after.tables frame j ≡ 0
    after_frame j = ground (arith, frame_not_t)

    after_t : after.tables t i ≡ val
    after_t = ground arith

    after_other : (a j : ℕ) → level a ≤ 3 → (a ≡ t → j ≡ i → ⊥) → after.tables a j ≡ m.tables a j
    after_other a j la ne =
        let other : a ≡ frame → level a ≡ level frame = λ e. ap level e in
        ground (arith, other, free)

    used : (a : ℕ) → level a ≤ 3 → (a == frame) ≡ false
    used a la = let other : a ≡ frame → level a ≡ level frame = λ e. ap level e in ground arith

    level_used : (a : ℕ) → level a ≤ 3 → level_after a ≡ level a
    level_used a la = if_false (a == frame) k (used a la) refl

    place_used : (a : ℕ) → level a ≤ 3 → place_after a ≡ place a
    place_used a la = if_false (a == frame) _ (used a la) refl

    -- Entries of a table that was there.
    child_used :
        (a j k1 : ℕ)
        → level a ≡ suc k1
        → suc k1 ≤ 3
        → j < 512
        → is_present (after.tables a j) ≡ true
        → ends_at (suc k1) (after.tables a j) ≡ false
        → (level_after (entry_paddr (after.tables a j)) ≡ k1)
          × (place_after (entry_paddr (after.tables a j)) ≡ place a * 512 + j)
    child_used a j k1 la le1 hj present on = elim (Bool-cases ((a == t) && (j == i))) [
      | inl here ↦
          let ea : a ≡ t = ground arith in
          let ej : j ≡ i = ground arith in
          let v : after.tables a j ≡ val = if_true ((a == t) && (j == i)) _ here refl in
          let l : k1 ≡ k = ground (arith, ap level ea) in
          rw (v, val_leads, ==_refl frame, ea, ej) (sym l, refl)
      | inr other ↦
          let v : after.tables a j ≡ m.tables a j =
            if_false ((a == t) && (j == i)) _ other
              (if_false (a == frame) _ (used a (omega (arith, la))) refl) in
          let (lc, pc) = is.child a j k1 la le1 hj (rw v at present) (rw v at on) in
          rw v (
            level_used (entry_paddr (m.tables a j)) (omega (arith, lc)) ∙ lc,
            place_used (entry_paddr (m.tables a j)) (omega (arith, lc)) ∙ pc,
          )
    ]

    Tree-after : Tree after.tables pgd level_after place_after
    Tree-after = record {
      root_level = level_used pgd (omega (arith, is.root_level)) ∙ is.root_level;
      root_place = place_used pgd (omega (arith, is.root_level)) ∙ is.root_place;
      child = λ a j k1 la le1 hj present on. elim (Bool-cases (a == frame)) [
        | inl new ↦
            let e : a ≡ frame = ground arith in
            let z : after.tables a j ≡ 0 = rw e (after_frame j) in absurd (ground (arith, z))
        | inr old ↦
            let l : level_after a ≡ level a = if_false (a == frame) k old refl in
            let p : place_after a ≡ place a = if_false (a == frame) _ old refl in
            rw p (child_used a j k1 (sym l ∙ la) le1 hj present on)
      ];
    }

    -- The new table maps nothing.
    below_is_empty :
        (k2 w : ℕ)
        → k ≡ k2
        → page (suc k2) w % 512 ≡ i
        → translate_from after.tables (suc k2) t w ≡ none
    unfolding translate_from
    below_is_empty k2 w e same_entry =
        rw (same_entry, after_t)
          (read_entry_on (suc k2) val w _ holds.present (ground (arith, holds.huge))
            ∙ clear_frame_none after.tables k2 (entry_paddr val) w (rw val_leads after_frame))

    translated_after : (w : ℕ) → translate after.tables pgd w ≡ translate m.tables pgd w
    translated_after w = translate-Agree is after.tables w (λ k1 a la le1 pa. agree k1 a la le1)
      where
        down :
            (k1 : ℕ) → suc k ≡ k1 → page k1 w % 512 ≡ i → translate_from after.tables k1 t w ≡ none
        down zero e same_entry = absurd (omega arith)
        down (suc k2) e same_entry = below_is_empty k2 w (omega arith) same_entry

        agree : (k1 a : ℕ) → level a ≡ k1 → k1 ≤ 3 → Agree is after.tables w k1 a
        agree k1 a la le1 = elim (Bool-cases ((a == t) && (page k1 w % 512 == i))) [
          | inl here ↦
              let ea : a ≡ t = ground arith in
              let ej : page k1 w % 512 ≡ i = ground arith in
              let l : suc k ≡ k1 = ground (arith, ap level ea) in
              neither (rw (ea, ej) absent) (rw ea (down k1 l ej))
          | inr other ↦ same (
              if_false ((a == t) && (page k1 w % 512 == i)) _ other
                (if_false (a == frame) _ (used a (omega (arith, la))) refl))
        ]

    enter_absent : {n : ℕ} → AtLeast n rest → Entered m pgd level place k t vaddr n frame after
    enter_absent left = record {
      level' = level_after;
      place' = place_after;
      is = Tree-after;
      fresh = Fresh-mono (λ f e. ground arith) fresh;
      left = left;
      child_level = if_true (frame == frame) _ (==_refl frame) refl;
      child_place = if_true (frame == frame) _ (==_refl frame) refl;
      linked = rw after_t holds.present;
      goes_on = rw after_t (ground (arith, holds.huge));
      leads = rw after_t val_leads;
      kept =
          λ a j la present. after_other a j la (λ ea ej. cc (ap m.tables ea, present, absent, ej));
      level_kept = level_used;
      place_kept = place_used;
      translated = translated_after;
      clear = λ allow j c ne. clear_frame-is_clear after.tables allow k frame vaddr j after_frame;
    }

  enter_allocates :
      {n : ℕ} (frames : List ℕ)
      → Fresh level frames
      → AtLeast (suc n) frames
      → is_present (m.tables t i) ≡ false
      → Returns
          (λ (t', m'). Entered m pgd level place k t vaddr n t' m')
          (enter (record m { frames = frames }) t i)
  unfolding enter next_frame
  enter_allocates [] fresh left absent = elim left [ ]
  enter_allocates (frame ∷ rest) (next _ free pos aligned small fresh) (one_more left) absent =
      let nonzero : (frame == 0) ≡ false = ground arith in
      let e = enter_absent frame rest free aligned small fresh absent left in
      rw (absent, nonzero, e.leads) (returns e)

  -- The step returns, with a frame left for it and no large page on the way.
  pub enter-Entered :
      {n : ℕ}
      → Fresh level m.frames
      → AtLeast (suc n) m.frames
      → (is_present (m.tables t i) ≡ true → ends_at (suc k) (m.tables t i) ≡ false)
      → Returns (λ (t', m'). Entered m pgd level place k t vaddr n t' m') (enter m t i)
  unfolding enter
  enter-Entered fresh left on = elim (Bool-cases (is_present (m.tables t i))) [
    | inl present ↦ rw present (returns (enter_present fresh left present (on present)))
    | inr absent ↦ enter_allocates m.frames fresh left absent
  ]
