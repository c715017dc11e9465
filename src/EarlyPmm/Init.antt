-- ===== src/EarlyPmm/Init.antt =====
-- The memory map of the firmware (arch/x86_64/kernel/setup.c), and early_pmm_init of
-- mm/early_pmm.c, which adds the kernel's own image to it.
pub mod Raw
pub mod Ready
mod Tests
use snap_os.Prelude.{
  ℕ, zero, suc, ◌+◌, ◌-◌, ◌||◌, Option, none, some, ltb, ◌==◌, if◌then◌else◌, Exec, ok, ◌>>=◌, ◌>>◌,
  in_bounds, word64, page_align_up, page_align_down, write, enomem, einval,
}
use snap_os.EarlyPmm.{
  RegionType, usable, reserved, acpi_reclaimable, acpi_nvs, bad, PhysRegion, Regions,
  phys_region_max_size, pmm_sanitize_memory_map,
}
use snap_os.EarlyPmm.Cursor.{Pa, pa_init}

-- `struct e820_entry`, as far as the kernel reads it.
pub record E820Entry : Type 0 where
  pub base : ℕ
  pub len : ℕ
  pub type : ℕ

unfoldable pub e820_region_type : ℕ → RegionType
e820_region_type t =
    if t == 1
    then usable
    else if t == 2
    then reserved
    else if t == 3
    then acpi_reclaimable
    else if t == 4
    then acpi_nvs
    else if t == 5
    then bad
    else reserved

-- The array has PHYS_REGION_MAX_SIZE + 1 entries.
pub phys_region_push : E820Entry → Regions → Exec Regions
unfolding e820_region_type
phys_region_push e raw =
    if e.len == 0
    then ok raw
    else in_bounds (ltb raw.count (phys_region_max_size + 1))
      >> ok (record {
        reg = write raw.reg raw.count (record {
          start = e.base;
          end = word64 (e.base + e.len);
          type = e820_region_type e.type;
        });
        count = raw.count + 1;
      })

push_entries : (ℕ → E820Entry) → ℕ → ℕ → Regions → Exec Regions
unfolding phys_region_push
push_entries entry zero i raw = ok raw
push_entries entry (suc k) i raw =
    phys_region_push (entry i) raw >>= (λ raw'. push_entries entry k (i + 1) raw')

-- `size` entries lie at MEMORY_MAP_ADDR.
pub arch_get_memory_map : (ℕ → E820Entry) → (size : ℕ) → (ℕ → PhysRegion) → Exec Regions
unfolding push_entries
arch_get_memory_map entry size raw = push_entries entry size 0 (record { reg = raw; count = 0 })

-- The statics of mm/early_pmm.c.
pub record EarlyPmm : Type 0 where
  pub raw : Regions
  pub clean : Regions
  pub pa : Pa
  pub boundaries : ℕ → ℕ

abbrev pub kernel_start_phys_addr : ℕ
kernel_start_phys_addr = 0x1000000

-- The pages of the kernel's image, which is `size` bytes long: `&_kernel_end` less
-- KERNEL_START_VIRT_ADDR.
abbrev pub kernel_region : ℕ → PhysRegion
kernel_region size = record {
  start = page_align_down kernel_start_phys_addr;
  end = page_align_up (word64 (kernel_start_phys_addr + size));
  type = reserved;
}

-- What follows once the map is clean: the error code, and the statics.
start_cursor : Regions → EarlyPmm → Regions → ℕ × EarlyPmm
start_cursor raw s clean =
    let pa = pa_init clean s.pa in
    let s' : EarlyPmm = record s { raw = raw; clean = clean } in
    if raw.count == 0 || clean.count == 0
    then (einval, s')
    else (elim pa.reg [ none ↦ enomem | some r ↦ 0 ], record s' { pa = pa })

pub early_pmm_init : (ℕ → E820Entry) → (entries kernel_size : ℕ) → EarlyPmm → Exec (ℕ × EarlyPmm)
unfolding start_cursor
early_pmm_init entry entries kernel_size s = arch_get_memory_map entry entries s.raw.reg >>= (λ raw.
    in_bounds (ltb raw.count (phys_region_max_size + 1))
    >> (let raw' : Regions = record {
      reg = write raw.reg raw.count (kernel_region kernel_size);
      count = raw.count + 1;
    } in
        pmm_sanitize_memory_map s.boundaries raw' s.clean.reg phys_region_max_size
        >>= (λ clean. ok (start_cursor raw' s clean))))
