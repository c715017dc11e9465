-- ===== src/Paging/Translate.antt =====
-- How the processor reads the page tables that arch/x86_64/kernel/paging.c writes, and when the
-- tables of an address space form a tree.
pub mod Agree
pub mod Reach
pub mod Enter
use snap_os.Prelude.{
  ℕ, zero, suc, ◌+◌, ◌*◌, ◌/◌, ◌%◌, ◌^◌, ◌≤◌, ◌<◌, ◌≡◌, Bool, true, false, ◌&&◌, List, [], ◌∷◌,
  Option, some, none, if◌then◌else◌, ltb, write, not, ◌||◌, ◌==◌,
}
use snap_os.Paging.{Mmu, is_present, is_huge, entry_paddr}

-- The number of the page, 4 KiB at level 0 and 512 times as large a level up, that holds an address,
-- by its low 48 bits: a canonical address repeats the highest of them.
unfoldable pub page : ℕ → ℕ → ℕ
page zero vaddr = vaddr % 2 ^ 48 / 2 ^ 12
page (suc k) vaddr = page k vaddr / 512

-- The bytes of a page at each level: 4 KiB, 2 MiB, 1 GiB and 512 GiB.
abbrev pub span : ℕ → ℕ
span zero = 2 ^ 12
span (suc zero) = 2 ^ 21
span (suc (suc zero)) = 2 ^ 30
span _ = 2 ^ 39

-- The address that an entry for a page of level `k` gives.
abbrev pub leaf : ℕ → ℕ → ℕ → ℕ
leaf k e vaddr = e % 2 ^ 52 / span k * span k + vaddr % span k

-- A large page: an entry of level 1 or 2 with _PAGE_PS.
abbrev pub ends_at : ℕ → ℕ → Bool
ends_at zero e = true
ends_at (suc k) e = is_huge e && ltb (suc k) 3

-- What an entry of level `k` gives, with the walk below it.
unfoldable pub read_entry : (k e vaddr : ℕ) → Option ℕ → Option ℕ
read_entry k e vaddr below =
    if is_present e then (if ends_at k e then some (leaf k e vaddr) else below) else none

-- The walk from a table of level `k`; `none` is a page fault.
unfoldable pub translate_from : (ℕ → ℕ → ℕ) → ℕ → ℕ → ℕ → Option ℕ
unfolding page read_entry
translate_from tables zero t vaddr = read_entry 0 (tables t (page 0 vaddr % 512)) vaddr none
translate_from tables (suc k) t vaddr =
    let e = tables t (page (suc k) vaddr % 512) in
    read_entry (suc k) e vaddr (translate_from tables k (entry_paddr e) vaddr)

unfoldable pub translate : (ℕ → ℕ → ℕ) → ℕ → ℕ → Option ℕ
unfolding translate_from
translate tables pgd vaddr = translate_from tables 3 pgd vaddr

-- Whether a page of level `j` can be mapped, in the tables from one of level `k` on: no larger page is
-- on the way, and its entry is not present, unless it may be overwritten.
unfoldable pub is_clear : (ℕ → ℕ → ℕ) → (allow : Bool) → (k t vaddr j : ℕ) → Bool
unfolding page
is_clear tables allow zero t vaddr j = allow || not (is_present (tables t (page 0 vaddr % 512)))
is_clear tables allow (suc k) t vaddr j =
    let e = tables t (page (suc k) vaddr % 512) in
    let below = is_clear tables allow k (entry_paddr e) vaddr j in
    if j == suc k
    then allow || not (is_present e)
    else not (is_present e) || (not (ends_at (suc k) e) && below)

-- Frames that no table uses yet: level 4 stands for those.
pub data Fresh : (ℕ → ℕ) → List ℕ → Type 0 where
  none_left : {level : ℕ → ℕ} → Fresh level []
  next :
      {level : ℕ → ℕ} (frame : ℕ) {rest : List ℕ}
      → level frame ≡ 4
      → 0 < frame
      → frame % 2 ^ 12 ≡ 0
      → frame < 2 ^ 52
      → Fresh (write level frame 0) rest
      → Fresh level (frame ∷ rest)

-- Each table has a level, 3 for the root and 0 for the last, and stands for one page of the level
-- above: the entries of a table lead to tables one level down, for the pages in their order.
pub record Tree (tables : ℕ → ℕ → ℕ) (pgd : ℕ) (level place : ℕ → ℕ) : Type 0 where
  pub root_level : level pgd ≡ 3
  pub root_place : place pgd ≡ 0
  pub child :
      (t i k : ℕ)
      → level t ≡ suc k
      → suc k ≤ 3
      → i < 512
      → is_present (tables t i) ≡ true
      → ends_at (suc k) (tables t i) ≡ false
      → (level (entry_paddr (tables t i)) ≡ k)
        × (place (entry_paddr (tables t i)) ≡ place t * 512 + i)

-- At least so many frames are left.
pub data AtLeast : ℕ → List ℕ → Type 0 where
  enough : {frames : List ℕ} → AtLeast zero frames
  one_more : {n frame : ℕ} {rest : List ℕ} → AtLeast n rest → AtLeast (suc n) (frame ∷ rest)

-- The tables of an address space form a tree, and the frames to come are not among them.
pub data IsTree (m : Mmu) (pgd : ℕ) : Type 0 where
  tree : (level place : ℕ → ℕ) → Tree m.tables pgd level place → Fresh level m.frames → IsTree m pgd
