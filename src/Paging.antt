-- ===== src/Paging.antt =====
-- arch/x86_64/kernel/paging.c: the page tables, and mapping into them. A page table is named by its
-- physical address, and its entries by their index: PHYS_TO_VIRT adds a constant, and a table's
-- address is the start of a page. A test or shift of a mask is written as a quotient and a remainder.
pub mod Entries
pub mod Translate
mod Walk
pub mod MapOne
mod Ends
pub mod Range
pub mod Sample
mod Tests
use snap_os.Prelude.{
  ℕ, zero, suc, ◌+◌, ◌-◌, ◌*◌, ◌/◌, ◌%◌, ◌^◌, Bool, true, false, not, ◌&&◌, ◌||◌, List, [], ◌∷◌,
  leb, ◌==◌, if◌then◌else◌, bit_or, page_size, word64, Exec, ok, panic, out_of_fuel, ◌>>=◌,
}

abbrev pub page_present : ℕ
page_present = 1

abbrev pub page_rw : ℕ
page_rw = 2

abbrev pub page_user : ℕ
page_user = 4

abbrev pub page_ps : ℕ
page_ps = 128

abbrev pub page_size_2m : ℕ
page_size_2m = 4096 * 1024 * 2

abbrev pub page_size_1g : ℕ
page_size_1g = 1024 * 1024 * 1024

-- PGD_INDEX and its like: nine bits of the address.
abbrev pub pgd_index : ℕ → ℕ
pgd_index vaddr = vaddr / 2 ^ 39 % 512

abbrev pub pud_index : ℕ → ℕ
pud_index vaddr = vaddr / 2 ^ 30 % 512

abbrev pub pmd_index : ℕ → ℕ
pmd_index vaddr = vaddr / 2 ^ 21 % 512

abbrev pub pte_index : ℕ → ℕ
pte_index vaddr = vaddr / 2 ^ 12 % 512

-- `val & ENTRY_PADDR_MASK`: bits 12 to 51.
abbrev pub entry_paddr : ℕ → ℕ
entry_paddr val = val / 2 ^ 12 % 2 ^ 40 * 2 ^ 12

abbrev pub is_present : ℕ → Bool
is_present val = val % 2 == 1

-- Present, with _PAGE_PS.
abbrev pub is_huge : ℕ → Bool
is_huge val = is_present val && (val / 2 ^ 7 % 2 == 1)

-- pgprot_t
pub record Prot : Type 0 where
  pub prot_flags : ℕ
  pub allow_overwrite : Bool

-- The entries of every page table; the addresses that the coming calls of
-- pmm_current_alloc_frame(), a pointer to a function, return, where 0 and the end of the list stand
-- for NULL; the addresses that were flushed from the TLB; and cpu_has_1g_pages.
pub record Mmu : Type 0 where
  pub tables : ℕ → ℕ → ℕ
  pub frames : List ℕ
  pub flushed : List ℕ
  pub cpu_has_1g_pages : Bool

-- The two enumerations.
pub data Level : Type 0 where
  lvl_pgd lvl_pud lvl_pmd lvl_pte : Level

pub data PageSize : Type 0 where
  page_4k page_2m page_1g : PageSize

-- The entry that a walk stops at, or its hit on a huge page.
pub data Walked : Type 0 where
  slot : ℕ → ℕ → Walked
  hit_huge : Walked

abbrev pub put_entry : (ℕ → ℕ → ℕ) → ℕ → ℕ → ℕ → ℕ → ℕ → ℕ
put_entry tables table i val t j = if (t == table) && (j == i) then val else tables t j

-- memset of a whole frame.
abbrev pub clear_frame : (ℕ → ℕ → ℕ) → ℕ → ℕ → ℕ → ℕ
clear_frame tables frame t j = if t == frame then 0 else tables t j

-- pmm_current_alloc_frame()
unfoldable pub next_frame : Mmu → ℕ × Mmu
next_frame m = elim m.frames [ [] ↦ (0, m) | frame ∷ rest ↦ (frame, record m { frames = rest }) ]

unfoldable pub mmu_alloc_table : Mmu → (table i : ℕ) → Exec Mmu
unfolding next_frame
mmu_alloc_table m table i =
    let (frame, m1) = next_frame m in
    let cleared = clear_frame m1.tables frame in
    let val = bit_or (bit_or (bit_or frame page_present) page_rw) page_user in
    if frame == 0 then panic else ok (record m1 { tables = put_entry cleared table i val })

-- The table that an entry points to, allocated when the entry is not present.
unfoldable pub enter : Mmu → (table i : ℕ) → Exec (ℕ × Mmu)
unfolding mmu_alloc_table
enter m table i = do
  m1 ← if is_present (m.tables table i) then ok m else mmu_alloc_table m table i
  ok (entry_paddr (m1.tables table i), m1)

-- The last part of mmu_walk, from a pmd on.
unfoldable pub walk_pmd : Mmu → (pmd_base vaddr : ℕ) → Level → Exec (Walked × Mmu)
unfolding enter
walk_pmd m pmd_base vaddr lvl_pmd = ok (slot pmd_base (pmd_index vaddr), m)
walk_pmd m pmd_base vaddr _ =
    let go_on = enter m pmd_base (pmd_index vaddr) >>= λ (pte_base, m1).
    ok (slot pte_base (pte_index vaddr), m1) in
    if is_huge (m.tables pmd_base (pmd_index vaddr)) then ok (hit_huge, m) else go_on

-- The part from a pud on.
unfoldable pub walk_pud : Mmu → (pud_base vaddr : ℕ) → Level → Exec (Walked × Mmu)
unfolding walk_pmd
walk_pud m pud_base vaddr lvl_pud = ok (slot pud_base (pud_index vaddr), m)
walk_pud m pud_base vaddr level =
    let go_on =
      enter m pud_base (pud_index vaddr) >>= λ (pmd_base, m1). walk_pmd m1 pmd_base vaddr level in
    if is_huge (m.tables pud_base (pud_index vaddr)) then ok (hit_huge, m) else go_on

unfoldable pub mmu_walk : Mmu → (pgd vaddr : ℕ) → Level → Exec (Walked × Mmu)
unfolding walk_pud
mmu_walk m pgd vaddr lvl_pgd = ok (slot pgd (pgd_index vaddr), m)
mmu_walk m pgd vaddr level = do
  (pud_base, m1) ← enter m pgd (pgd_index vaddr)
  walk_pud m1 pud_base vaddr level

abbrev pub level_of : PageSize → Level
level_of page_1g = lvl_pud
level_of page_2m = lvl_pmd
level_of page_4k = lvl_pte

abbrev pub ps_of : PageSize → ℕ
ps_of page_4k = 0
ps_of _ = page_ps

abbrev entry_value : (paddr : ℕ) → PageSize → Prot → ℕ
entry_value paddr size opts =
    bit_or (bit_or (bit_or paddr page_present) opts.prot_flags) (ps_of size)

-- The end of mmu_map_one, with the entry found.
unfoldable pub set_entry : Mmu → (table i vaddr paddr : ℕ) → PageSize → Prot → Exec Mmu
set_entry m table i vaddr paddr size opts =
    let present = is_present (m.tables table i) in
    let flushed = if present then vaddr ∷ m.flushed else m.flushed in
    let tables = put_entry m.tables table i (entry_value paddr size opts) in
    if present && not opts.allow_overwrite
    then panic
    else ok (record m { tables = tables; flushed = flushed })

unfoldable pub mmu_map_one : Mmu → (pgd vaddr paddr : ℕ) → PageSize → Prot → Exec Mmu
unfolding mmu_walk set_entry
mmu_map_one m pgd vaddr paddr size opts = mmu_walk m pgd vaddr (level_of size) >>= λ (walked, m1).
    elim walked [ hit_huge ↦ panic | slot table i ↦ set_entry m1 table i vaddr paddr size opts ]

abbrev pub is_aligned : ℕ → ℕ → Bool
is_aligned addr alignment = addr % alignment == 0

unfoldable pub choose_size : Bool → (vaddr paddr len : ℕ) → PageSize
choose_size has_1g vaddr paddr len =
    let fits_1g = is_aligned vaddr page_size_1g && is_aligned paddr page_size_1g in
    let fits_2m = is_aligned vaddr page_size_2m && is_aligned paddr page_size_2m in
    if has_1g && fits_1g && leb page_size_1g len
    then page_1g
    else if fits_2m && leb page_size_2m len
    then page_2m
    else page_4k

abbrev pub chunk_of : PageSize → ℕ
chunk_of page_4k = page_size
chunk_of page_2m = page_size_2m
chunk_of page_1g = page_size_1g

-- The while loop of mmu_map_range: each round maps at least a page.
unfoldable pub map_loop : (fuel : ℕ) → Mmu → (pgd vaddr paddr len : ℕ) → Prot → Exec Mmu
unfolding mmu_map_one choose_size
map_loop zero m pgd vaddr paddr len opts = if len == 0 then ok m else out_of_fuel
map_loop (suc fuel) m pgd vaddr paddr len opts =
    let size = choose_size m.cpu_has_1g_pages vaddr paddr len in
    let chunk = chunk_of size in
    let go_on = mmu_map_one m pgd vaddr paddr size opts >>= λ m1.
    map_loop fuel m1 pgd (word64 (vaddr + chunk)) (word64 (paddr + chunk)) (len - chunk) opts in
    if len == 0 then ok m else go_on

unfoldable pub mmu_map_range : Mmu → (pgd vaddr paddr len : ℕ) → Prot → Exec Mmu
unfolding map_loop
mmu_map_range m pgd vaddr paddr len opts =
    if not (is_aligned vaddr page_size) || not (is_aligned paddr page_size)
    then panic
    else if not (is_aligned len page_size)
    then panic
    else map_loop (len / page_size) m pgd vaddr paddr len opts
