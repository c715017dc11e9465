-- ===== src/Vmm.antt =====
-- mm/vmm.c: the kernel's address space, pages of an address space, and device memory.
pub mod Pages
mod Tests
use snap_os.Prelude.{
  ℕ, zero, suc, ◌+◌, ◌-◌, ◌*◌, ◌/◌, ◌%◌, ◌^◌, Bool, true, false, not, ◌||◌, ◌==◌, if◌then◌else◌,
  bit_or, page_size, page_align_down, page_align_up, is_page_aligned, word64, enomem, write, Exec,
  ok, panic, out_of_fuel, ◌>>=◌, Ssize, count, error, Option, some, none,
}
use snap_os.EarlyPmm.{Regions}
use snap_os.EarlyPmm.Cursor.{is_usable}
use snap_os.EarlyPmm.Init.{kernel_start_phys_addr}
use snap_os.Paging.{Mmu, Prot, page_rw, clear_frame, next_frame, mmu_map_range}

-- PHYS_TO_VIRT, and the addresses of include/mm.h.
abbrev pub phys_to_virt : ℕ → ℕ
phys_to_virt paddr = word64 (paddr + 0xffff888000000000)

abbrev kernel_start_virt_addr : ℕ
kernel_start_virt_addr = 0xFFFFFFFF81000000

abbrev page_no_execute : ℕ
page_no_execute = 2 ^ 63

abbrev page_write_through : ℕ
page_write_through = 8

abbrev page_cache_disable : ℕ
page_cache_disable = 16

abbrev pub direct_prot : Prot
direct_prot = record { prot_flags = bit_or page_rw page_no_execute; allow_overwrite = false }

abbrev pub kernel_prot : Prot
kernel_prot = record { prot_flags = page_rw; allow_overwrite = true }

abbrev pub device_prot : Prot
device_prot = record {
  prot_flags = bit_or (bit_or page_rw page_cache_disable) page_write_through;
  allow_overwrite = true;
}

-- `kernel_pgd`, by the physical address of the table, with the page tables and the register CR3.
pub record Vmm : Type 0 where
  pub mmu : Mmu
  pub kernel_pgd : ℕ
  pub cr3 : ℕ

-- The loop of vmm_init over the clean regions, with `k` rounds left.
unfoldable map_regions : (k i : ℕ) → Regions → Mmu → (pgd : ℕ) → Exec Mmu
unfolding is_usable
map_regions zero i clean m pgd = ok m
map_regions (suc k) i clean m pgd =
    let region = clean.reg i in
    let phys_start = page_align_down region.start in
    let phys_end = page_align_up region.end in
    let mapped =
      mmu_map_range m pgd (phys_to_virt phys_start) phys_start
        (word64 (phys_end + 2 ^ 64 - phys_start)) direct_prot in
    let skipped = map_regions k (i + 1) clean m pgd in
    let next = mapped >>= λ m1. map_regions k (i + 1) clean m1 pgd in
    if is_usable region.type then next else skipped

-- `kernel_end` is the address of _kernel_end, which the linker sets.
unfoldable pub vmm_init : Regions → (kernel_end : ℕ) → Vmm → Exec (ℕ × Vmm)
unfolding map_regions next_frame
vmm_init clean kernel_end s =
    let (pgd_raw, m) = next_frame s.mmu in
    let cleared = record m { tables = clear_frame m.tables pgd_raw } in
    let kernel_size = page_align_up (word64 (kernel_end + 2 ^ 64 - kernel_start_virt_addr)) in
    let mapped = map_regions clean.count 0 clean cleared pgd_raw >>= λ m1.
    mmu_map_range m1 pgd_raw kernel_start_virt_addr kernel_start_phys_addr kernel_size kernel_prot
    >>= λ m2. ok (0, record { mmu = m2; kernel_pgd = pgd_raw; cr3 = pgd_raw }) in
    if pgd_raw == 0 then ok (enomem, record s { mmu = m }) else mapped

-- The address that the device's registers have, and the tables that map them.
unfoldable pub ioremap : Mmu → (kernel_pgd paddr size : ℕ) → Exec (ℕ × Mmu)
ioremap m kernel_pgd paddr size =
    let paligned = page_align_down paddr in
    let offset = paddr - paligned in
    let size_aligned = page_align_up (word64 (size + offset)) in
    mmu_map_range m kernel_pgd (phys_to_virt paligned) paligned size_aligned device_prot >>= λ m1.
    ok (phys_to_virt paddr, m1)

unfoldable pub vmm_map_page : Mmu → (pgd vaddr paddr : ℕ) → Prot → Exec Mmu
vmm_map_page m pgd vaddr paddr prot =
    if not (is_page_aligned vaddr) || not (is_page_aligned paddr)
    then panic
    else mmu_map_range m pgd vaddr paddr page_size prot

unfoldable pub vmm_alloc_page : Mmu → (pgd vaddr : ℕ) → Prot → Exec (ℕ × Mmu)
unfolding vmm_map_page next_frame
vmm_alloc_page m pgd vaddr prot =
    let (frame, m1) = next_frame m in
    let mapped = vmm_map_page m1 pgd vaddr frame prot >>= λ m2. ok (0, m2) in
    if not (is_page_aligned vaddr) then panic else if frame == 0 then ok (enomem, m1) else mapped

-- The loop of vmm_alloc_range: `size` is a multiple of a page.
unfoldable alloc_range_loop : (fuel : ℕ) → Mmu → (pgd vaddr size n : ℕ) → Prot → Exec (Ssize × Mmu)
unfolding vmm_alloc_page
alloc_range_loop zero m pgd vaddr size n prot = if size == 0 then ok (count n, m) else out_of_fuel
alloc_range_loop (suc fuel) m pgd vaddr size n prot =
    let round = vmm_alloc_page m pgd vaddr prot >>= λ (res, m1).
    let rest =
      alloc_range_loop fuel m1 pgd (word64 (vaddr + page_size)) (size - page_size) (n + 1) prot in
    if res == 0 then rest else ok (error res, m1) in
    if size == 0 then ok (count n, m) else round

unfoldable pub vmm_alloc_range : Mmu → (pgd vaddr size : ℕ) → Prot → Exec (Ssize × Mmu)
unfolding alloc_range_loop
vmm_alloc_range m pgd vaddr size prot =
    let size = page_align_up size in
    if not (is_page_aligned vaddr)
    then panic
    else alloc_range_loop (size / page_size) m pgd vaddr size 0 prot

-- `page` is what alloc_page() of mm/kmalloc.c returns, or 0 for NULL; `none` is ERR_PTR(-ENOMEM).
unfoldable pub vmm_copy_kpgtbl : Mmu → (kernel_pgd page : ℕ) → Option ℕ × Mmu
vmm_copy_kpgtbl m kernel_pgd page =
    let copied : ℕ → ℕ → ℕ = λ t i. if t == page then m.tables kernel_pgd i else m.tables t i in
    if page == 0 then (none, m) else (some page, record m { tables = copied })
