-- ===== src/Ext2/Inode/Place.antt =====
-- fs/ext2/inode.c: where an inode is read from.
use native.Mathlib.Nat.{
  mod-lt, div-add-mod', add-mul, mul_assoc, mul_comm, add_assoc, suc-mul, mul-div_left,
  mul-le-mul_right,
}
use snap_os.Prelude.{
  ℕ, ◌+◌, ◌-◌, ◌*◌, ◌/◌, ◌%◌, ◌^◌, ◌≤◌, ◌<◌, ◌≡◌, refl, sym, ap, ◌∙◌, true, false, ◌||◌, leb, ◌==◌,
  ◌⊎◌, inl, inr, Bool-cases, arith, word32, einval, Returns, returns, Returns-mono,
}
use snap_os.Ext2.{Env, alloc, free, bdev_read, Ext2Inode, Geometry}
use snap_os.Ext2.File.Contents.{Works}
use snap_os.Ext2.Inode.{
  FsInfo, ext2_file_ops, ext2_dir_ops, Inode, InodePtr, inode_ptr, err_ptr, s_ifreg, s_ifdir,
  ext2_isdir, ext2_isreg, ext2_inode_data_size, ext2_inode_at, inode_of, alloc_four, fill_inode,
  read_slot, ext2_read_inode,
}

-- The group of an inode, and its number in the group.
abbrev pub group_of : FsInfo → ℕ → ℕ
group_of info ino = (ino - 1) / info.inodes_per_group

abbrev pub index_of : FsInfo → ℕ → ℕ
index_of info ino = (ino - 1) % info.inodes_per_group

-- The byte of the device where it starts: the table of a group is an array of inodes.
abbrev pub address_of : FsInfo → Geometry → ℕ → ℕ
address_of info sb ino =
    (info.bgd_table (group_of info ino)).inode_table_addr * sb.block_size
    + index_of info ino * info.inode_struct_size

-- Blocks that hold a whole number of inodes, on a device of less than 2^32 sectors.
pub record IsRegular (e : Env) (info : FsInfo) (sb : Geometry) (ino : ℕ) : Type 0 where
  pub numbered : 0 < ino
  pub small : ino < 2 ^ 32
  pub groups : 0 < info.inodes_per_group
  pub sectors : sb.block_size ≡ sb.sectors_per_block * e.sector_size
  pub per_block : ℕ
  pub inodes : sb.block_size ≡ per_block * info.inode_struct_size
  pub some_inodes : 0 < per_block
  pub wide : 128 ≤ info.inode_struct_size
  pub on_device :
      ((info.bgd_table (group_of info ino)).inode_table_addr + index_of info ino / per_block)
        * sb.sectors_per_block
      < 2 ^ 32
  pub block_small :
      (info.bgd_table (group_of info ino)).inode_table_addr + index_of info ino / per_block < 2 ^ 32

-- What is returned for an inode: an error if there is no such group; else what lies at its place,
-- with its kind. The structures that it is made of stay allocated.
pub data InodeRead (e : Env) (info : FsInfo) (sb : Geometry) (ino : ℕ)
    : InodePtr × Env → Type 0 where
  no_group :
      info.block_group_count ≤ group_of info ino → InodeRead e info sb ino (err_ptr einval, e)
  read_at :
      (inode : Inode) (e' : Env)
      → group_of info ino < info.block_group_count
      → inode.ino ≡ ino
      → inode.priv_data.inode ≡ ext2_inode_at e.bytes (address_of info sb ino)
      → inode.size ≡ ext2_inode_data_size (ext2_inode_at e.bytes (address_of info sb ino))
      → inode.priv_data.size ≡ inode.size
      → ((inode.mode ≡ s_ifreg) × (inode.operations ≡ ext2_file_ops))
        ⊎ ((inode.mode ≡ s_ifdir) × (inode.operations ≡ ext2_dir_ops))
      → e'.live ≡ e.live + 3
      → InodeRead e info sb ino (inode_ptr inode, e')

-- An inode in a part of the device.
ext2_inode_at_part :
    (bytes : ℕ → ℕ) (start place : ℕ)
    → ext2_inode_at (λ j. bytes (start + j)) place ≡ ext2_inode_at bytes (start + place)
unfolding ext2_inode_at
ext2_inode_at_part bytes start place =
    λ i. inode_of (λ j. ap bytes (sym (add_assoc start place j)) i)

module _ (e : Env) (info : FsInfo) (sb : Geometry) (ino : ℕ) (reg : IsRegular e info sb ino) where
  abbrev base : ℕ
  base = (info.bgd_table (group_of info ino)).inode_table_addr

  abbrev block : ℕ
  block = base + index_of info ino / reg.per_block

  per_block_lem : sb.block_size / info.inode_struct_size ≡ reg.per_block
  per_block_lem =
      ap (λ b. b / info.inode_struct_size) reg.inodes
      ∙ mul-div_left reg.per_block (omega (arith, reg.wide))

  place_fits : info.inode_struct_size * (index_of info ino % reg.per_block) + 128 ≤ sb.block_size
  place_fits =
      let lt = mod-lt (index_of info ino) reg.some_inodes in
      let m = mul-le-mul_right info.inode_struct_size lt in
      omega (
        arith,
        reg.inodes,
        reg.wide,
        m,
        suc-mul (index_of info ino % reg.per_block) info.inode_struct_size,
        mul_comm info.inode_struct_size (index_of info ino % reg.per_block),
      )

  address_lem :
      block * sb.sectors_per_block * e.sector_size
        + info.inode_struct_size * (index_of info ino % reg.per_block)
      ≡ address_of info sb ino
  address_lem =
      let table = index_of info ino / reg.per_block in
      let whole = ap (λ b. block * b) (sym reg.sectors) in
      let parts = add-mul base table sb.block_size in
      let in_table =
        ap (λ b. table * b) reg.inodes
        ∙ sym (mul_assoc table reg.per_block info.inode_struct_size) in
      let index =
        ap (λ n. n * info.inode_struct_size) (div-add-mod' (index_of info ino) reg.per_block) in
      let split =
        add-mul (table * reg.per_block) (index_of info ino % reg.per_block)
          info.inode_struct_size in
      omega (
        arith,
        whole,
        parts,
        in_table,
        index,
        split,
        mul_assoc block sb.sectors_per_block e.sector_size,
        mul_comm info.inode_struct_size (index_of info ino % reg.per_block),
      )

-- What read_slot makes of the bytes at an address.
record SlotRead (e : Env) (at ino : ℕ) (r : InodePtr × Env) : Type 0 where
  inode : Inode
  e' : Env
  result : r ≡ (inode_ptr inode, e')
  number : inode.ino ≡ ino
  data_kept : inode.priv_data.inode ≡ ext2_inode_at e.bytes at
  size_kept : inode.size ≡ ext2_inode_data_size (ext2_inode_at e.bytes at)
  size_same : inode.priv_data.size ≡ inode.size
  kind :
      ((inode.mode ≡ s_ifreg) × (inode.operations ≡ ext2_file_ops))
      ⊎ ((inode.mode ≡ s_ifdir) × (inode.operations ≡ ext2_dir_ops))
  left : e'.live ≡ e.live + 3

fill_inode-SlotRead :
    (e e0 : Env) (disk_inode : Ext2Inode) (at ino : ℕ)
    → disk_inode ≡ ext2_inode_at e0.bytes at
    → (ext2_isreg disk_inode.mode || ext2_isdir disk_inode.mode) ≡ true
    → e.live ≡ e0.live + 4
    → Returns (SlotRead e0 at ino) (fill_inode e disk_inode ino)
unfolding fill_inode free
fill_inode-SlotRead e e0 disk_inode at ino same kind live =
    elim (Bool-cases (ext2_isreg disk_inode.mode)) [
      | inl file ↦ rw file (
          returns (record {
            inode = _;
            e' = _;
            result = refl;
            number = refl;
            data_kept = same;
            size_kept = ap ext2_inode_data_size same;
            size_same = refl;
            kind = inl (refl, refl);
            left = omega (arith, live);
          }))
      | inr other ↦
          let dir : ext2_isdir disk_inode.mode ≡ true = ground arith in
          rw (other, dir)
            (returns (record {
              inode = _;
              e' = _;
              result = refl;
              number = refl;
              data_kept = same;
              size_kept = ap ext2_inode_data_size same;
              size_same = refl;
              kind = inr (refl, refl);
              left = omega (arith, live);
            }))
    ]

alloc_granted :
    (e : Env) → Works e → alloc e ≡ (true, record e { allocs = e.allocs + 1; live = e.live + 1 })
unfolding alloc
alloc_granted e works = rw (works.grants e.allocs) refl

alloc_four_granted :
    (e : Env)
    → Works e
    → alloc_four e
      ≡ (true, 4, record e { allocs = e.allocs + 1 + 1 + 1 + 1; live = e.live + 1 + 1 + 1 + 1 })
unfolding alloc_four
alloc_four_granted e works =
    let e1 = record e { allocs = e.allocs + 1; live = e.live + 1 } in
    let e2 = record e1 { allocs = e1.allocs + 1; live = e1.live + 1 } in
    let e3 = record e2 { allocs = e2.allocs + 1; live = e2.live + 1 } in
    rw
      (
        alloc_granted e works,
        alloc_granted e1 (record { answers = works.answers; grants = works.grants }),
        alloc_granted e2 (record { answers = works.answers; grants = works.grants }),
        alloc_granted e3 (record { answers = works.answers; grants = works.grants }),
      )
      refl

read_slot-SlotRead :
    (e : Env) (sb : Geometry) (lba place ino : ℕ)
    → Works e
    → place + 128 ≤ sb.block_size
    → (ext2_isreg (ext2_inode_at e.bytes (lba * e.sector_size + place)).mode
        || ext2_isdir (ext2_inode_at e.bytes (lba * e.sector_size + place)).mode)
      ≡ true
    → Returns (SlotRead e (lba * e.sector_size + place) ino) (read_slot e sb lba place ino)
unfolding read_slot bdev_read
read_slot-SlotRead e sb lba place ino works fits kind =
    let inside : leb (place + 128) sb.block_size ≡ true = ground arith in
    let part = ext2_inode_at_part e.bytes (lba * e.sector_size) place in
    rw (alloc_four_granted e works, works.answers e.reads, inside)
      (fill_inode-SlotRead _ e _ _ ino part (rw part kind) (omega arith))

-- On a device that works, ext2_read_inode finds an inode that is a file or a directory at its place
-- in the table of its group.
pub ext2_read_inode-InodeRead :
    (e : Env) (info : FsInfo) (sb : Geometry) (ino : ℕ)
    → Works e
    → IsRegular e info sb ino
    → (ext2_isreg (ext2_inode_at e.bytes (address_of info sb ino)).mode
        || ext2_isdir (ext2_inode_at e.bytes (address_of info sb ino)).mode)
      ≡ true
    → Returns (InodeRead e info sb ino) (ext2_read_inode e info sb ino)
unfolding ext2_read_inode
ext2_read_inode-InodeRead e info sb ino works reg kind =
    let number : word32 (ino + 2 ^ 32 - 1) ≡ ino - 1 =
      let h = reg.numbered in let k = reg.small in omega arith in
    let groups : (info.inodes_per_group == 0) ≡ false = let h = reg.groups in ground arith in
    rw (number, groups)
      (elim (Bool-cases (leb info.block_group_count (group_of info ino))) [
        | inl beyond ↦ rw beyond (returns (no_group (ground arith)))
        | inr inside ↦
            let q = per_block_lem e info sb ino reg in
            let sized : (info.inode_struct_size == 0) ≡ false = let h = reg.wide in ground arith in
            let some_inodes : (reg.per_block == 0) ≡ false =
              let h = reg.some_inodes in ground arith in
            let block_fits : word32 (block e info sb ino reg) ≡ block e info sb ino reg =
              let h = reg.block_small in omega arith in
            let lba_fits : word32 (block e info sb ino reg * sb.sectors_per_block)
                ≡ block e info sb ino reg * sb.sectors_per_block =
              let h = reg.on_device in omega arith in
            let address = address_lem e info sb ino reg in
            let r =
              read_slot-SlotRead e sb (block e info sb ino reg * sb.sectors_per_block)
                (info.inode_struct_size * (index_of info ino % reg.per_block)) ino works
                (place_fits e info sb ino reg) (rw address kind) in
            rw (inside, sized, q, some_inodes, block_fits, lba_fits)
              (Returns-mono r (λ p x. rw x.result (
                read_at x.inode x.e' (ground arith) x.number
                  (x.data_kept ∙ ap (ext2_inode_at e.bytes) address)
                  (x.size_kept ∙ ap (λ a. ext2_inode_data_size (ext2_inode_at e.bytes a)) address)
                  x.size_same x.kind x.left)))
      ])
