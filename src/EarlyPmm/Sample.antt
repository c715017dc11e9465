-- ===== src/EarlyPmm/Sample.antt =====
-- A memory map for the tests, with the cursor of the early allocator in it.
use snap_os.Prelude.{refl, some, arith, ◌==◌, if◌then◌else◌}
use snap_os.EarlyPmm.{usable, Regions}
use snap_os.EarlyPmm.Cursor.{Pa, is_usable}
use snap_os.EarlyPmm.Cursor.Alloc.{IsMap, IsPlaced, at_region}

-- A clean map of two usable regions.
abbrev pub clean : Regions
clean = record {
  reg = λ i.
      if i == 0
      then record { start = 0x100000; end = 0x180000; type = usable }
      else record { start = 0x400000; end = 0x800000; type = usable };
  count = 2;
}

pub clean-IsMap : IsMap clean
clean-IsMap = record {
  apart = λ k h. ground arith;
  proper = λ k h. ground arith;
  low = λ k h. ground arith;
  few = omega arith;
}

abbrev pub pa : Pa
pa = record { reg = some 0; idx = 0; cursor = 0x101000 }

pub pa-IsPlaced : IsPlaced clean pa
unfolding is_usable
pa-IsPlaced = at_region (record {
  current = refl;
  inside = omega arith;
  usable = refl;
  high = omega arith;
  from = omega arith;
  above = omega arith;
  upto = omega arith;
  aligned = refl;
})
