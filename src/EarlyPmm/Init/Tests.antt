-- ===== src/EarlyPmm/Init/Tests.antt =====
-- early_pmm_init on a machine with 128 MiB, and a kernel of 2 MiB at 16 MiB.
use snap_os.Prelude.{ℕ, ◌≡◌, refl, some, none, arith, ◌==◌, if◌then◌else◌, ok, Returns}
use snap_os.EarlyPmm.{reserved, type_no, region_priority, Regions, pmm_sanitize_memory_map, spans}
use snap_os.EarlyPmm.Cursor.{pa_init, is_usable}
use snap_os.EarlyPmm.Init.{E820Entry, EarlyPmm, early_pmm_init, arch_get_memory_map}
use snap_os.EarlyPmm.Init.Raw.{AreLow}
use snap_os.EarlyPmm.Init.Ready.{Started, early_pmm_init-Started}

abbrev entry : ℕ → E820Entry
entry i =
    if i == 0
    then record { base = 0; len = 0x9fc00; type = 1 }
    else if i == 1
    then record { base = 0x100000; len = 0x7f00000; type = 1 }
    else record { base = 0xfffc0000; len = 0x40000; type = 2 }

entry-AreLow : AreLow entry 3
entry-AreLow i h = ground arith

abbrev no_regions : Regions
no_regions = record { reg = λ i. record { start = 0; end = 0; type = reserved }; count = 0 }

abbrev before : EarlyPmm
before = record {
  raw = no_regions;
  clean = no_regions;
  pa = record { reg = none; idx = 0; cursor = 0 };
  boundaries = λ i. 0;
}

abbrev after : EarlyPmm
unfolding early_pmm_init
after = elim (early_pmm_init entry 3 0x200000 before) [ ok (c, s) ↦ s | _ ↦ before ]

-- The kernel's pages cut the second megabyte region in two, and the cursor starts at 1 MiB.
boots : (after.clean.count ≡ 5) × (after.pa.cursor ≡ 0x100000) × (after.pa.reg ≡ some 1)
unfolding early_pmm_init arch_get_memory_map pmm_sanitize_memory_map spans type_no region_priority
    pa_init is_usable
boots = (refl, refl, refl)

early_pmm_init-Started_example : Returns (Started 0x200000) (early_pmm_init entry 3 0x200000 before)
early_pmm_init-Started_example =
    early_pmm_init-Started entry 3 0x200000 before (omega arith) entry-AreLow (omega arith)
