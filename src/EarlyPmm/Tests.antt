-- ===== src/EarlyPmm/Tests.antt =====
-- mm/early_pmm.c on small maps.
use snap_os.Prelude.{ℕ, ◌+◌, ◌*◌, ◌≡◌, arith, ◌==◌, if◌then◌else◌, fault, Returns}
use snap_os.EarlyPmm.{usable, reserved, Regions, phys_region_max_size, pmm_sanitize_memory_map}
use snap_os.EarlyPmm.Sanitize.{
  IsClean, pmm_sanitize_memory_map-IsClean, pmm_sanitize_memory_map_fault,
}
use snap_os.EarlyPmm.Cursor.{early_pmm_alloc_continuous_frames}
use snap_os.EarlyPmm.Cursor.Alloc.{Given, early_pmm_alloc_continuous_frames-Given}
use snap_os.EarlyPmm.Sample.{clean, pa, clean-IsMap, pa-IsPlaced}

abbrev no_regions : Regions
no_regions = record { reg = λ i. record { start = 0; end = 0; type = reserved }; count = 0 }

abbrev values : ℕ → ℕ
values i = if i == 0 then 7 else if i == 1 then 3 else 7

abbrev overlapping : Regions
overlapping = record {
  reg = λ i.
      if i == 0
      then record { start = 0x100000; end = 0x500000; type = usable }
      else record { start = 0x300000; end = 0x400000; type = reserved };
  count = 2;
}

pmm_sanitize_memory_map-IsClean_example :
    Returns
      (IsClean overlapping)
      (pmm_sanitize_memory_map (λ i. 0) overlapping no_regions.reg phys_region_max_size)
pmm_sanitize_memory_map-IsClean_example =
    pmm_sanitize_memory_map-IsClean (λ i. 0) overlapping no_regions.reg phys_region_max_size
      (omega arith) (omega arith)

abbrev full : Regions
full = record {
  reg = λ i. record { start = i * 4096; end = (i + 1) * 4096; type = usable };
  count = 129;
}

pmm_sanitize_memory_map_fault_example :
    pmm_sanitize_memory_map (λ i. 0) full no_regions.reg phys_region_max_size ≡ fault
pmm_sanitize_memory_map_fault_example =
    pmm_sanitize_memory_map_fault (λ i. 0) full no_regions.reg phys_region_max_size (omega arith)

-- A request too big for the first region is served from the second.
early_pmm_alloc_continuous_frames-Given_example :
    Returns (Given clean (4096 * 200) pa) (early_pmm_alloc_continuous_frames 200 clean pa)
early_pmm_alloc_continuous_frames-Given_example =
    early_pmm_alloc_continuous_frames-Given 200 clean-IsMap pa-IsPlaced (omega arith)
