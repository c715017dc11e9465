-- ===== src/Ext2/Super/Probe.antt =====
-- fs/ext2/super.c: what ext2_read_superblock and ext2_probe return.
use native.Mathlib.Nat.{div-add-mod'}
use snap_os.Prelude.{
  ℕ, ◌+◌, ◌-◌, ◌*◌, ◌/◌, ◌%◌, ◌≤◌, ◌<◌, ◌≡◌, refl, sym, ap, ◌∙◌, ◌⊎◌, true, false, ◌==◌,
  if◌then◌else◌, Option, some, none, inl, inr, Bool-cases, arith, enomem, einval, ok, Returns,
  returns, Returns->>=,
}
use snap_os.Ext2.{Env, alloc, free, bdev_read}
use snap_os.Ext2.Super.{
  Ext2Superblock, superblock_of, ext2_read_superblock, is_refused, ext2_probe, block_size_of,
}

-- The superblock of a device: the structure at byte 1024, whatever the size of its sectors.
unfoldable pub superblock_on : Env → Ext2Superblock
superblock_on e = superblock_of (λ j. e.bytes (1024 + j))

-- The same device and allocator, after one allocation and one read.
pub record Later (e e' : Env) : Type 0 where
  pub bytes_kept : e'.bytes ≡ e.bytes
  pub size_kept : e'.sector_size ≡ e.sector_size
  pub room : e'.refuses e'.allocs ≡ e.refuses (e.allocs + 1)
  pub status : e'.replies e'.reads ≡ e.replies (e.reads + 1)

-- Every result of ext2_read_superblock: no memory, the device's error, or the superblock. The buffer
-- is freed in each.
pub data SuperRead (e : Env) : ℕ × Option Ext2Superblock × Env → Type 0 where
  no_memory :
      {e' : Env} → e.refuses e.allocs ≡ true → e'.live ≡ e.live → SuperRead e (enomem, none, e')
  failed :
      {e' : Env}
      → e.refuses e.allocs ≡ false
      → (e.replies e.reads == 0) ≡ false
      → e'.live ≡ e.live
      → SuperRead e (e.replies e.reads, none, e')
  super_read :
      {e' : Env} {super : Ext2Superblock}
      → e.refuses e.allocs ≡ false
      → e.replies e.reads ≡ 0
      → super ≡ superblock_on e
      → e'.live ≡ e.live
      → Later e e'
      → SuperRead e (0, some super, e')

-- The superblock's place in the sectors that are read.
place_lem : (s j : ℕ) → 0 < s → 1024 / s * s + (1024 - 1024 / s * s + j) ≡ 1024 + j
place_lem s j pos = omega (arith, div-add-mod' 1024 s)

pub ext2_read_superblock-SuperRead :
    (e : Env) → 0 < e.sector_size → Returns (SuperRead e) (ext2_read_superblock e)
unfolding ext2_read_superblock alloc free bdev_read superblock_on
ext2_read_superblock-SuperRead e pos =
    let sized : (e.sector_size == 0) ≡ false = ground arith in
    rw sized (elim (Bool-cases (e.refuses e.allocs)) [
      | inl refused ↦ rw refused (returns (no_memory refused refl))
      | inr granted ↦ rw granted (elim (Bool-cases (e.replies e.reads == 0)) [
        | inl done ↦ rw done (
            returns (
              super_read granted (ground arith)
                (λ i. superblock_of (λ j. ap e.bytes (place_lem e.sector_size j pos) i))
                (omega arith)
                (record { bytes_kept = refl; size_kept = refl; room = refl; status = refl })))
        | inr error ↦ rw error (returns (failed granted error (omega arith)))
      ])
    ])

-- What ext2_probe asks of a file system: the signature of ext2, version 1, no required feature but the
-- type in directory entries, and a block size, a shift of 32 bits, of at most a page.
pub record IsSupported (super : Ext2Superblock) : Type 0 where
  pub signature : super.ext2_signature ≡ 0xEF53
  pub version : super.version_major ≡ 1
  pub features : super.required_features - super.required_features / 2 % 2 * 2 ≡ 0
  pub blocks : block_size_of super ≤ 4096

-- Every result of ext2_probe: an allocation was refused, the device failed, or the file system is or
-- is not supported. All memory is freed.
pub data Probed (e : Env) : ℕ × Env → Type 0 where
  out_of_memory :
      {e' : Env}
      → (e.refuses e.allocs ≡ true) ⊎ (e.refuses (e.allocs + 1) ≡ true)
      → e'.live ≡ e.live
      → Probed e (enomem, e')
  read_failed :
      {n : ℕ} {e' : Env}
      → n ≡ e.replies e.reads
      → (n == 0) ≡ false
      → e'.live ≡ e.live
      → Probed e (n, e')
  turned_down :
      {e' : Env} → ¬ IsSupported (superblock_on e) → e'.live ≡ e.live → Probed e (einval, e')
  accepted : {e' : Env} → IsSupported (superblock_on e) → e'.live ≡ e.live → Probed e (0, e')

refused_not : (super : Ext2Superblock) → is_refused super ≡ true → ¬ IsSupported super
refused_not super bad s = absurd (ground (arith, s.signature, s.version, s.features, s.blocks))

probe_accepted :
    (e e' : Env) → is_refused (superblock_on e) ≡ false → e'.live ≡ e.live → Probed e (0, e')
probe_accepted e e' good kept =
    let supported : IsSupported (superblock_on e) = record {
      signature = ground arith;
      version = ground arith;
      features = ground arith;
      blocks = ground arith;
    } in
    accepted supported kept

probe_rest :
    (e e1 : Env)
    → e1.live ≡ e.live + 1
    → e1.replies e1.reads ≡ e.replies e.reads
    → e1.bytes ≡ e.bytes
    → e1.refuses e1.allocs ≡ e.refuses (e.allocs + 1)
    → (r : ℕ × Option Ext2Superblock × Env) → SuperRead e1 r
    → Returns (Probed e) (elim r.1 [
      | none ↦ ok (r.0, free r.2)
      | some super ↦ if is_refused super then ok (einval, free r.2) else ok (0, free r.2)
    ])
unfolding free superblock_on
probe_rest e e1 live replies bytes next r (no_memory none_left kept) =
    returns (out_of_memory (inr (sym next ∙ none_left)) (omega (arith, live, kept)))
probe_rest e e1 live replies bytes next r (failed granted error kept) =
    returns (read_failed replies error (omega (arith, live, kept)))
probe_rest e e1 live replies bytes next r (super_read {super = super} granted done is kept later) =
    let on : super ≡ superblock_on e = is ∙ (λ i. superblock_of (λ j. bytes i (1024 + j))) in
    elim (Bool-cases (is_refused super)) [
      | inl bad ↦ rw bad (
          returns (
            turned_down (refused_not (superblock_on e) (rw on at bad)) (omega (arith, live, kept))))
      | inr good ↦
          rw good (returns (probe_accepted e _ (rw on at good) (omega (arith, live, kept))))
    ]

-- ext2_probe accepts exactly the file systems with the signature of ext2, of version 1, that need no
-- feature but the type in directory entries and whose block size, as a shift of 32 bits, is at most a
-- page. It says ENOMEM only when one of its two allocations is refused, gives the error of a device
-- that fails, and frees its memory on every path. The size of a sector is not 0.
pub ext2_probe-Probed : (e : Env) → 0 < e.sector_size → Returns (Probed e) (ext2_probe e)
unfolding ext2_probe alloc
ext2_probe-Probed e pos = elim (Bool-cases (e.refuses e.allocs)) [
  | inl none_left ↦ rw none_left (returns (out_of_memory (inl none_left) refl))
  | inr granted ↦
      let e1 = record e { allocs = e.allocs + 1; live = e.live + 1 } in
      rw granted (
        Returns->>= _ (ext2_read_superblock-SuperRead e1 pos) (probe_rest e e1 refl refl refl refl))
]
