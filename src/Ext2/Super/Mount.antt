-- ===== src/Ext2/Super/Mount.antt =====
-- fs/ext2/super.c: what ext2_mount makes of a device that fails.
use snap_os.Prelude.{
  ℕ, ◌+◌, ◌/◌, ◌≡◌, ◌≢◌, ◌⊎◌, inl, inr, ◌∙◌, Bool-cases, ◌<◌, refl, true, false, ◌==◌, Option, some,
  none, arith, Exec, ok, fault, ◌>>=◌, Returns, returns,
}
use snap_os.Ext2.{Env, alloc, free, bdev_read}
use snap_os.Ext2.Inode.{FsInfo, err_ptr, ext2_read_inode}
use snap_os.Ext2.Super.{
  Ext2Superblock, block_size_of, alloc_dentry, SuperblockPtr, error_ptr, BgdTable,
  ext2_fill_bgd_table_info, left_over, allocated, exit_err, free_bgd_table, Superblock,
  superblock_ptr, mount_root, mount_groups, ext2_mount,
}
use snap_os.Ext2.Super.Probe.{
  superblock_on, SuperRead, no_memory, failed, super_read, ext2_read_superblock-SuperRead,
}

-- What a mount that failed leaves, where kmalloc had left `bits` in the field `bgd_table`: with 0 there,
-- an error and no memory in use; with anything else, it is freed as a pointer, which is a fault.
pub data Failed (bits : ℕ) (e : Env) : Exec (SuperblockPtr × Env) → Type 0 where
  cleaned :
      {x : ℕ} {e' : Env}
      → bits ≡ 0
      → x ≢ 0
      → e'.live ≡ e.live
      → Failed bits e (ok (error_ptr x, e'))
  dangling : bits ≢ 0 → Failed bits e fault

Failed->>= {ℓ μ} :
    {A : Type ℓ} {P : A → Type μ} {m : Exec A} (bits : ℕ) (e : Env)
    (k : A → Exec (SuperblockPtr × Env))
    → Returns P m
    → ((a : A) → P a → Failed bits e (k a))
    → Failed bits e (m >>= k)
Failed->>= bits e k (returns p) next = next _ p

exit_err-Failed :
    (bits x : ℕ) (e e' : Env)
    → x ≢ 0
    → e'.live ≡ e.live + 2
    → Failed bits e (exit_err true (some (left_over bits)) x e')
unfolding exit_err free_bgd_table free
exit_err-Failed bits x e e' error live = elim (Bool-cases (bits == 0)) [
  | inl zeros ↦ rw zeros (cleaned (ground arith) error (omega (arith, live)))
  | inr some_bits ↦ rw some_bits (dangling (ground arith))
]

-- Reading the table of block groups fails: the field is as it was, and no memory is kept.
GroupsFailed : Env → ℕ → ℕ × Option FsInfo × BgdTable × Env → Type 0
GroupsFailed e bits (status, info, field, e') =
    (status ≢ 0) × (info ≡ none) × (field ≡ left_over bits) × (e'.live ≡ e.live)

groups_failed :
    (bits : ℕ) (e : Env) (super : Ext2Superblock)
    → 0 < e.sector_size
    → super.inodes_per_blockgroup ≢ 0
    → block_size_of super ≢ 0
    → (e.refuses e.allocs ≡ true) ⊎ ((e.replies e.reads == 0) ≡ false)
    → Returns (GroupsFailed e bits) (ext2_fill_bgd_table_info e super (left_over bits))
unfolding ext2_fill_bgd_table_info alloc bdev_read free GroupsFailed
groups_failed bits e super pos some_inodes some_block why =
    let inodes : (super.inodes_per_blockgroup == 0) ≡ false = ground arith in
    let block : (block_size_of super == 0) ≡ false = ground arith in
    let sector : (e.sector_size == 0) ≡ false = ground arith in
    rw (inodes, block, sector)
      (elim (Bool-cases (e.refuses e.allocs)) [
        | inl no_room ↦ rw no_room (returns (omega arith, refl, refl, refl))
        | inr room ↦
            let error : (e.replies e.reads == 0) ≡ false = elim why [
              | inl no_room ↦ absurd (cc (room, no_room))
              | inr bad ↦ bad
            ] in
            rw (room, error) (returns (ground (arith, error), refl, refl, omega arith))
      ])

-- Why a mount fails: memory is refused or the device fails, for the superblock or, after it, for the
-- table of block groups.
abbrev pub Failing : Env → Type 0
Failing e =
    (e.refuses e.allocs ≡ true)
    ⊎ ((e.replies e.reads == 0) ≡ false)
    ⊎ (e.refuses (e.allocs + 1) ≡ true)
    ⊎ ((e.replies (e.reads + 1) == 0) ≡ false)

-- The rest of ext2_mount, from the superblock on, when reading it or the table of groups fails.
after_failure :
    (bits : ℕ) (e e2 : Env)
    → e2.live ≡ e.live + 2
    → 0 < e2.sector_size
    → (superblock_on e2).inodes_per_blockgroup ≢ 0
    → block_size_of (superblock_on e2) ≢ 0
    → (r : ℕ × Option Ext2Superblock × Env) → SuperRead e2 r
    → Failing e2
    → Failed bits e (elim r.1 [
      | none ↦ exit_err true (some (left_over bits)) r.0 r.2
      | some super ↦ mount_groups r.2 super (left_over bits)
    ])
unfolding mount_groups GroupsFailed
after_failure bits e e2 live pos inodes block r (no_memory no_room kept) why =
    exit_err-Failed bits _ e _ (omega arith) (kept ∙ live)
after_failure bits e e2 live pos inodes block r (failed granted error kept) why =
    exit_err-Failed bits _ e _ (ground (arith, error)) (kept ∙ live)
after_failure bits e e2 live pos inodes block r
      (super_read {e' = e3} {super = super} granted done is kept later) why =
    Failed->>= bits e
      (λ (status, info, field1, e1). elim info [
        | none ↦ exit_err true (some field1) status e1
        | some info ↦ mount_root e1 super info field1
      ])
      (groups_failed bits e3 super (omega (arith, pos, later.size_kept)) (rw is inodes)
        (rw is block) then_fails)
      (λ (status, info, field1, e1) (bad, no_info, same, kept1).
        rw (no_info, same) (exit_err-Failed bits status e e1 bad (kept1 ∙ kept ∙ live)))
  where
    then_fails : (e3.refuses e3.allocs ≡ true) ⊎ ((e3.replies e3.reads == 0) ≡ false)
    then_fails = elim why [
      | inl no_room ↦ absurd (cc (granted, no_room))
      | inr (inl error) ↦ absurd (ground (arith, done, error))
      | inr (inr (inl no_room)) ↦ inl (later.room ∙ no_room)
      | inr (inr (inr error)) ↦ inr (rw later.status error)
    ]

-- When the superblock or the table of block groups cannot be read, for want of memory or because the
-- device fails, what ext2_mount does hangs on bits that nothing has set: with zeros in the field
-- `bgd_table` it returns an error and keeps no memory, and with any others it frees a pointer that it
-- never got. The superblock and its information are allocated, a sector and a block have some size, and
-- a group has some inodes.
pub ext2_mount-Failed :
    (bits : ℕ) (e : Env)
    → 0 < e.sector_size
    → (superblock_on e).inodes_per_blockgroup ≢ 0
    → block_size_of (superblock_on e) ≢ 0
    → e.refuses e.allocs ≡ false
    → e.refuses (e.allocs + 1) ≡ false
    → Failing (record e { allocs = e.allocs + 2; live = e.live + 2 })
    → Failed bits e (ext2_mount bits e)
unfolding ext2_mount alloc superblock_on
ext2_mount-Failed bits e pos inodes block granted granted_info why =
    let e2 : Env = record e { allocs = e.allocs + 1 + 1; live = e.live + 1 + 1 } in
    let allocs : e.allocs + 2 ≡ e.allocs + 1 + 1 = omega arith in
    let again : Failing e2 = rw allocs at why in
    rw (granted, granted_info)
      (Failed->>= bits e
        (λ (status, super, e3). elim super [
          | none ↦ exit_err true (some (left_over bits)) status e3
          | some super ↦ mount_groups e3 super (left_over bits)
        ])
        (ext2_read_superblock-SuperRead e2 pos)
        (λ r s. after_failure bits e e2 (omega arith) pos inodes block r s again))

-- When the root's inode cannot be read and the directory entry for it is allocated, the mount is
-- made all the same, with the error's pointer in the place of the inode.
pub mount_root-err_ptr :
    (e e1 : Env) (super : Ext2Superblock) (info : FsInfo) (x : ℕ)
    → ext2_read_inode e info
        (record {
          block_size = block_size_of super;
          sectors_per_block = block_size_of super / e.sector_size;
        })
        2
      ≡ ok (err_ptr x, e1)
    → (alloc_dentry e1).0 ≡ true
    → Returns
        (λ (sb, e2). (s : Superblock) × (sb ≡ superblock_ptr s) × (s.root ≡ err_ptr x))
        (mount_root e super info allocated)
unfolding mount_root
mount_root-err_ptr e e1 super info x failed_read got_entry =
    rw (failed_read, got_entry) (returns (_, refl, refl))
