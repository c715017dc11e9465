-- ===== src/Ext2/Dir/Search.antt =====
-- fs/ext2/dir.c: what search_dir_block finds in a block of directory entries.
use snap_os.Prelude.{
  ℕ, zero, suc, ◌+◌, ◌-◌, ◌≤◌, ◌<◌, ◌≡◌, ◌≢◌, refl, Bool, true, false, ltb, leb, ◌==◌, List, [],
  ◌∷◌, inl, inr, Bool-cases, arith, Exec, ok, out_of_fuel, in_bounds, ◌>>◌, Returns, returns,
  Returns-mono, ok-ne-out_of_fuel, if-ne-out_of_fuel,
}
use snap_os.Strings.{is_zero, ℤ, pos, memcmp}
use snap_os.Strings.Compare.{Compared, same, above, below, memcmp-Compared}
use snap_os.Ext2.Dir.{
  entry_inode, entry_size, name_len_lower, entry_name, Searched, found, absent, corrupt, is_zero,
  search_loop, search_dir_block,
}

-- A block whose entries, from `ptr` on, follow each other to its end, each with room for its name.
pub data Chain (buf : ℕ → ℕ) (block_size : ℕ) : ℕ → List ℕ → Type 0 where
  end : Chain buf block_size block_size []
  link :
      {ptr : ℕ} {rest : List ℕ}
      → 8 + name_len_lower buf ptr ≤ entry_size buf ptr
      → ptr + entry_size buf ptr ≤ block_size
      → Chain buf block_size (ptr + entry_size buf ptr) rest
      → Chain buf block_size ptr (ptr ∷ rest)

-- An entry that is in use, with the name.
pub record Matches (buf name : ℕ → ℕ) (len ptr : ℕ) : Type 0 where
  pub in_use : entry_inode buf ptr ≢ 0
  pub length_same : name_len_lower buf ptr ≡ len
  pub name_same : (i : ℕ) → i < len → entry_name buf ptr i ≡ name i

-- The first entry that matches, if there is one.
pub data First (buf name : ℕ → ℕ) (len : ℕ) : List ℕ → Searched → Type 0 where
  here :
      {ptr : ℕ} {rest : List ℕ}
      → Matches buf name len ptr
      → First buf name len (ptr ∷ rest) (found ptr)
  there :
      {ptr : ℕ} {rest : List ℕ} {r : Searched}
      → ¬ Matches buf name len ptr
      → First buf name len rest r
      → First buf name len (ptr ∷ rest) r
  nowhere : First buf name len [] absent

is_zero_pos : (d : ℕ) → 0 < d → is_zero (pos d) ≡ false
is_zero_pos zero lt = absurd (omega arith)
is_zero_pos (suc d) lt = refl

-- What memcmp says of two names.
is_zero-memcmp :
    (s1 s2 : ℕ → ℕ) (n : ℕ) (z : ℤ)
    → Compared s1 s2 n z
    → (is_zero z ≡ true → (i : ℕ) → i < n → s1 i ≡ s2 i)
      × (is_zero z ≡ false → ¬ ((i : ℕ) → i < n → s1 i ≡ s2 i))
is_zero-memcmp s1 s2 n _ (same all) = ((λ e. all), (λ e. absurd (ground arith)))
is_zero-memcmp s1 s2 n _ (above k lt before gt) = (
  (λ e. absurd (ground (arith, is_zero_pos (s1 k - s2 k)))),
  (λ e all. let h = all k lt in omega (arith, h)),
)
is_zero-memcmp s1 s2 n _ (below k lt before gt) =
    ((λ e. absurd (ground arith)), (λ e all. let h = all k lt in omega (arith, h)))

search_loop-First :
    (fuel ptr : ℕ) (buf : ℕ → ℕ) (block_size : ℕ) (name : ℕ → ℕ) (len : ℕ) (entries : List ℕ)
    → Chain buf block_size ptr entries
    → block_size ≤ ptr + fuel
    → Returns (First buf name len entries) (search_loop fuel ptr buf block_size name len)
unfolding search_loop
search_loop-First zero ptr buf block_size name len [] end enough =
    let e : ltb ptr ptr ≡ false = ground arith in rw e (returns nowhere)
search_loop-First (suc fuel) ptr buf block_size name len [] end enough =
    let e : ltb ptr ptr ≡ false = ground arith in rw e (returns nowhere)
search_loop-First zero ptr buf block_size name len (_ ∷ rest) (link room fits chain) enough =
    absurd (omega arith)
search_loop-First (suc fuel) ptr buf block_size name len (_ ∷ rest) (link room fits chain) enough =
    let next =
      search_loop-First fuel (ptr + entry_size buf ptr) buf block_size name len rest chain
        (omega arith) in
    let inside : ltb ptr block_size ≡ true = ground arith in
    let head : leb (ptr + 6) block_size ≡ true = ground arith in
    let sized : (entry_size buf ptr == 0) ≡ false = ground arith in
    let length : leb (ptr + 7) block_size ≡ true = ground arith in
    rw (inside, head, sized)
      (elim (Bool-cases (entry_inode buf ptr == 0)) [
        | inl unused ↦ rw unused (Returns-mono next (λ r f. there (λ m. m.in_use (ground arith)) f))
        | inr used ↦
            rw (used, length)
              (elim (Bool-cases (name_len_lower buf ptr == len)) [
                | inr other ↦ rw other (
                    Returns-mono next (λ r f. there (λ m. let h = m.length_same in ground arith) f))
                | inl as_long ↦
                    let named : leb (ptr + 8 + len) block_size ≡ true = ground arith in
                    let (equal, differ) =
                      is_zero-memcmp (entry_name buf ptr) name len _
                        (memcmp-Compared (entry_name buf ptr) name len) in
                    rw (as_long, named)
                      (elim (Bool-cases (is_zero (memcmp (entry_name buf ptr) name len))) [
                        | inl yes_same ↦ rw yes_same (
                            returns (
                              here (record {
                                in_use = λ e. ground arith;
                                length_same = ground arith;
                                name_same = equal yes_same;
                              })))
                        | inr not_same ↦
                            rw not_same (
                              Returns-mono next (λ r f. there (λ m. differ not_same m.name_same) f))
                      ])
              ])
      ])

-- In a block of entries that follow each other, search_dir_block ends and finds the first entry that
-- is in use and has the name, or finds that there is none.
pub search_dir_block-First :
    (buf : ℕ → ℕ) (block_size : ℕ) (name : ℕ → ℕ) (len : ℕ) (entries : List ℕ)
    → Chain buf block_size 0 entries
    → Returns (First buf name len entries) (search_dir_block buf block_size name len)
unfolding search_dir_block
search_dir_block-First buf block_size name len entries chain =
    search_loop-First block_size 0 buf block_size name len entries chain (omega arith)

in_bounds-ne-out_of_fuel {ℓ} :
    {A : Type ℓ} (b : Bool) (m : Exec A) → m ≢ out_of_fuel → (in_bounds b >> m) ≢ out_of_fuel
in_bounds-ne-out_of_fuel true m h = h
in_bounds-ne-out_of_fuel false m h = λ e. cc

search_loop-ne-out_of_fuel :
    (fuel ptr : ℕ) (buf : ℕ → ℕ) (block_size : ℕ) (name : ℕ → ℕ) (len : ℕ)
    → block_size ≤ ptr + fuel
    → search_loop fuel ptr buf block_size name len ≢ out_of_fuel
unfolding search_loop
search_loop-ne-out_of_fuel zero ptr buf block_size name len enough =
    let e : ltb ptr block_size ≡ false = ground arith in rw e (ok-ne-out_of_fuel absent)
search_loop-ne-out_of_fuel (suc fuel) ptr buf block_size name len enough =
    elim (Bool-cases (entry_size buf ptr == 0)) [
      | inl empty ↦ rw empty (
          if-ne-out_of_fuel (ltb ptr block_size)
            (in_bounds-ne-out_of_fuel (leb (ptr + 6) block_size) (ok corrupt)
              (ok-ne-out_of_fuel corrupt))
            (ok-ne-out_of_fuel absent))
      | inr sized ↦
          let next =
            search_loop-ne-out_of_fuel fuel (ptr + entry_size buf ptr) buf block_size name len
              (ground arith) in
          rw sized (
            if-ne-out_of_fuel (ltb ptr block_size)
              (in_bounds-ne-out_of_fuel (leb (ptr + 6) block_size) _ (
                if-ne-out_of_fuel (entry_inode buf ptr == 0) next (
                  in_bounds-ne-out_of_fuel (leb (ptr + 7) block_size) _ (
                    if-ne-out_of_fuel (name_len_lower buf ptr == len)
                      (in_bounds-ne-out_of_fuel (leb (ptr + 8 + len) block_size) _ (
                        if-ne-out_of_fuel (is_zero (memcmp (entry_name buf ptr) name len))
                          (ok-ne-out_of_fuel (found ptr)) next))
                      next))))
              (ok-ne-out_of_fuel absent))
    ]

-- search_dir_block ends on every block, well formed or not.
pub search_dir_block-ne-out_of_fuel :
    (buf : ℕ → ℕ) (block_size : ℕ) (name : ℕ → ℕ) (len : ℕ)
    → search_dir_block buf block_size name len ≢ out_of_fuel
unfolding search_dir_block
search_dir_block-ne-out_of_fuel buf block_size name len =
    search_loop-ne-out_of_fuel block_size 0 buf block_size name len (omega arith)
