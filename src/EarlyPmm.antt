-- ===== src/EarlyPmm.antt =====
-- mm/early_pmm.c and arch/x86_64/kernel/setup.c: the memory map of the firmware made into disjoint
-- regions, and the allocator of frames from it that serves until mm/pmm.c is set up. An array is a
-- function from its indices; the bound of each static array is checked where the code writes it.
pub mod Sort
pub mod Unique
pub mod Classify
pub mod Sweep
pub mod Sanitize
pub mod Cursor
pub mod Init
pub mod Sample
mod Tests
use snap_os.Prelude.{
  ℕ, zero, suc, ◌+◌, ◌-◌, ◌*◌, ◌/◌, ◌%◌, Bool, true, false, not, ◌&&◌, ◌||◌, Option, none, some,
  ltb, leb, ◌==◌, if◌then◌else◌, Exec, ok, panic, out_of_fuel, ◌>>=◌, ◌>>◌, ensure, in_bounds,
  word64, page_size, page_align_down, page_align_up, write,
}

-- `phys_region_type_t`
pub data RegionType : Type 0 where
  usable reserved acpi_reclaimable acpi_nvs bad : RegionType

-- The number of an enumerator, by which C compares two.
unfoldable pub type_no : RegionType → ℕ
type_no usable = 1
type_no reserved = 2
type_no acpi_reclaimable = 3
type_no acpi_nvs = 4
type_no bad = 5

pub region_priority : RegionType → ℕ
region_priority usable = 0
region_priority reserved = 1
region_priority acpi_reclaimable = 1
region_priority acpi_nvs = 2
region_priority bad = 3

pub record PhysRegion : Type 0 where
  pub start : ℕ
  pub end : ℕ
  pub type : RegionType

-- `struct phys_region` arrays with their counts.
pub record Regions : Type 0 where
  pub reg : ℕ → PhysRegion
  pub count : ℕ

abbrev pub phys_region_max_size : ℕ
phys_region_max_size = 128

-- The loop over `j` of sort_u64, with `k` rounds left.
pub min_index : (ℕ → ℕ) → ℕ → ℕ → ℕ → ℕ
min_index arr zero j min_idx = min_idx
min_index arr (suc k) j min_idx =
    min_index arr k (j + 1) (if leb (arr min_idx) (arr j) then min_idx else j)

abbrev swap : (ℕ → ℕ) → ℕ → ℕ → ℕ → ℕ
swap arr i j = write (write arr i (arr j)) j (arr i)

-- The loop over `i`, with `k` rounds left: `j` runs over the `k - 1` indices behind `i`.
pub sort_loop : ℕ → ℕ → (ℕ → ℕ) → ℕ → ℕ
unfolding min_index
sort_loop zero i arr = arr
sort_loop (suc k) i arr =
    let min_idx = min_index arr k (i + 1) i in
    sort_loop k (i + 1) (if min_idx == i then arr else swap arr i min_idx)

pub sort_u64 : (ℕ → ℕ) → ℕ → ℕ → ℕ
unfolding sort_loop
sort_u64 arr n = sort_loop n 0 arr

-- The loop that fills the static `boundaries[PHYS_REGION_MAX_SIZE * 2]`: `nb` and the array.
pub collect : (ℕ → PhysRegion) → ℕ → ℕ → ℕ → (ℕ → ℕ) → Exec (ℕ × (ℕ → ℕ))
collect inp zero i nb bs = ok (nb, bs)
collect inp (suc k) i nb bs = do
  in_bounds (ltb nb (phys_region_max_size * 2))
  in_bounds (ltb (nb + 1) (phys_region_max_size * 2))
  collect inp k (i + 1) (nb + 2) (write (write bs nb (inp i).start) (nb + 1) (inp i).end)

-- The loop that drops repeated boundaries: `nu` and the array.
pub unique_loop : ℕ → ℕ → ℕ → (ℕ → ℕ) → ℕ × (ℕ → ℕ)
unique_loop zero i nu bs = (nu, bs)
unique_loop (suc k) i nu bs =
    let fresh = i == 0 || not (bs i == bs (nu - 1)) in
    unique_loop k (i + 1) (if fresh then nu + 1 else nu) (if fresh then write bs nu (bs i) else bs)

-- `in[j].start <= sub_start && in[j].end >= sub_end`
unfoldable pub spans : PhysRegion → ℕ → ℕ → Bool
spans r sub_start sub_end = leb r.start sub_start && leb sub_end r.end

-- The loop over `j` that picks the type of a sub-interval: `covered`, `best_priority` one up, so
-- that its -1 is 0, and `best_type`.
pub classify :
    (ℕ → PhysRegion) → (sub_start sub_end k j : ℕ) → Bool → ℕ → RegionType → Bool × ℕ × RegionType
classify inp lo hi zero j covered best t = (covered, best, t)
classify inp lo hi (suc k) j covered best t =
    let hit = spans (inp j) lo hi in
    let better = hit && ltb best (region_priority (inp j).type + 1) in
    classify inp lo hi k (j + 1) (covered || hit)
      (if better then region_priority (inp j).type + 1 else best)
      (if better then (inp j).type else t)

-- The sub-interval joins the last region, or becomes one of its own.
pub push_region : ℕ → (sub_start sub_end : ℕ) → RegionType → Regions → Exec Regions
push_region out_max lo hi t out =
    let last = out.reg (out.count - 1) in
    if ltb 0 out.count && (type_no last.type == type_no t && last.end == lo)
    then ok (record out { reg = write out.reg (out.count - 1) (record last { end = hi }) })
    else ensure (ltb out.count out_max)
      >> ok (record {
        reg = write out.reg out.count (record { start = lo; end = hi; type = t });
        count = out.count + 1;
      })

-- The loop over the sub-intervals between neighbouring boundaries.
pub sweep : ℕ → (ℕ → PhysRegion) → ℕ → (ℕ → ℕ) → ℕ → ℕ → Regions → Exec Regions
unfolding classify push_region
sweep out_max inp n bs zero i out = ok out
sweep out_max inp n bs (suc k) i out =
    let (covered, _, t) = classify inp (bs i) (bs (i + 1)) n 0 false 0 usable in
    (if covered then push_region out_max (bs i) (bs (i + 1)) t out else ok out)
    >>= (λ out'. sweep out_max inp n bs k (i + 1) out')

-- `boundaries` and `out` hold what they held before.
pub pmm_sanitize_memory_map :
    (boundaries : ℕ → ℕ) → Regions → (out : ℕ → PhysRegion) → (out_max : ℕ) → Exec Regions
unfolding collect sort_u64 unique_loop sweep
pmm_sanitize_memory_map boundaries inp out out_max =
    if inp.count == 0
    then ok (record { reg = out; count = 0 })
    else collect inp.reg inp.count 0 0 boundaries >>= (λ (nb, bs).
      let (nu, us) = unique_loop nb 0 0 (sort_u64 bs nb) in
      sweep out_max inp.reg inp.count us (nu - 1) 0 (record { reg = out; count = 0 }))
