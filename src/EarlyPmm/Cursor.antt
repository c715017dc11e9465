-- ===== src/EarlyPmm/Cursor.antt =====
-- The allocator of mm/early_pmm.c: a cursor that walks through the usable regions of the clean map.
pub mod Alloc
pub mod Max
use snap_os.Prelude.{
  ℕ, zero, suc, ◌+◌, ◌-◌, ◌*◌, ◌^◌, Bool, true, false, not, Option, none, some, ltb, leb, ◌==◌,
  if◌then◌else◌, Exec, ok, out_of_fuel, word64, page_size, page_align_up,
}
use snap_os.EarlyPmm.{RegionType, usable, type_no, Regions}

abbrev pub min_usable_paddr : ℕ
min_usable_paddr = 0x100000

-- The static `pa`. A region is named by its index in `clean`, the null pointer is `none`.
pub record Pa : Type 0 where
  pub reg : Option ℕ
  pub idx : ℕ
  pub cursor : ℕ

unfoldable pub is_usable : RegionType → Bool
unfolding type_no
is_usable t = type_no t == type_no usable

abbrev pub max_u64 : ℕ → ℕ → ℕ
max_u64 a b = if ltb b a then a else b

-- The loop of pa_next, with `k` rounds left.
pub next_loop : Regions → ℕ → ℕ → Pa → Pa
next_loop clean zero i pa = record pa { reg = none; idx = clean.count }
next_loop clean (suc k) i pa =
    let rest = next_loop clean k (i + 1) pa in
    if not (is_usable (clean.reg i).type)
    then rest
    else if leb (clean.reg i).end min_usable_paddr
    then rest
    else record {
      reg = some i;
      idx = i;
      cursor = page_align_up (max_u64 min_usable_paddr (clean.reg i).start);
    }

pub pa_next : Regions → Pa → Pa
unfolding next_loop
pa_next clean pa = let i = word64 (pa.idx + 1) in next_loop clean (clean.count - i) i pa

-- `(size_t)-1` is followed by index 0.
unfoldable pub pa_init : Regions → Pa → Pa
unfolding pa_next
pa_init clean pa = pa_next clean (record pa { idx = 2 ^ 64 - 1 })

-- The `while` of both allocation functions; the region's index grows in every round that goes on.
pub cursor_loop : Regions → ℕ → ℕ → Pa → Exec (ℕ × Pa)
unfolding pa_next
cursor_loop clean size zero pa = out_of_fuel
cursor_loop clean size (suc fuel) pa =
    let rest = cursor_loop clean size fuel (pa_next clean pa) in
    elim pa.reg [
      | none ↦ ok (0, pa)
      | some r ↦
          if leb (word64 (pa.cursor + size)) (clean.reg r).end
          then ok (pa.cursor, record pa { cursor = word64 (pa.cursor + size) })
          else rest
    ]

-- The address is 0, the null pointer, where the regions are used up.
pub early_pmm_alloc_continuous_frames : ℕ → Regions → Pa → Exec (ℕ × Pa)
unfolding cursor_loop
early_pmm_alloc_continuous_frames count clean pa =
    cursor_loop clean (word64 (page_size * count)) (clean.count + 2) pa

pub early_pmm_alloc_frame : Regions → Pa → Exec (ℕ × Pa)
unfolding cursor_loop
early_pmm_alloc_frame clean pa = cursor_loop clean page_size (clean.count + 2) pa

-- The end of the last usable region.
max_loop : Regions → ℕ → ℕ → ℕ → ℕ
max_loop clean zero i max = max
max_loop clean (suc k) i max =
    max_loop clean k (i + 1) (if is_usable (clean.reg i).type then (clean.reg i).end else max)

pub early_pmm_get_max_usable : Regions → ℕ
unfolding max_loop
early_pmm_get_max_usable clean = max_loop clean clean.count 0 0
