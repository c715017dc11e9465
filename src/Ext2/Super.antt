-- ===== src/Ext2/Super.antt =====
-- fs/ext2/super.c: the superblock, the table of block groups, and mounting.
pub mod Probe
pub mod Mount
mod Tests
use snap_os.Prelude.{
  ℕ, ◌+◌, ◌-◌, ◌*◌, ◌/◌, ◌%◌, ◌^◌, Bool, true, false, not, ◌&&◌, ◌||◌, ltb, ◌==◌, if◌then◌else◌,
  Option, some, none, min, word32, enomem, einval, page_size, Exec, ok, fault, in_bounds, ◌>>=◌,
  ◌>>◌,
}
use snap_os.Ext2.{Env, alloc, free, bdev_read, Geometry, le16, le32}
use snap_os.Ext2.Inode.{BlockGroupDesc, FsInfo, InodePtr, inode_ptr, err_ptr, ext2_read_inode}

abbrev pub ext2_superblock_offset : ℕ
ext2_superblock_offset = 1024

abbrev pub ext2_signature_value : ℕ
ext2_signature_value = 0xEF53

abbrev pub ext2_root_dir_ino : ℕ
ext2_root_dir_ino = 2

-- struct ext2_superblock, up to the name of the volume.
pub record Ext2Superblock : Type 0 where
  pub inode_count : ℕ
  pub block_count : ℕ
  pub superuser_rsv_block_count : ℕ
  pub free_block_count : ℕ
  pub free_inode_count : ℕ
  pub first_data_block : ℕ
  pub log_block_size : ℕ
  pub log_frag_size : ℕ
  pub blocks_per_blockgroup : ℕ
  pub fragments_per_blockgroup : ℕ
  pub inodes_per_blockgroup : ℕ
  pub last_mount_time : ℕ
  pub last_written_time : ℕ
  pub mount_count : ℕ
  pub max_mount_count : ℕ
  pub ext2_signature : ℕ
  pub fs_state : ℕ
  pub error_action : ℕ
  pub version_minor : ℕ
  pub last_check_time : ℕ
  pub check_interval : ℕ
  pub os_id : ℕ
  pub version_major : ℕ
  pub default_res_uid : ℕ
  pub default_res_gid : ℕ
  pub first_non_rsv_inode : ℕ
  pub inode_struct_size : ℕ
  pub superblock_blockgroup : ℕ
  pub optinal_features : ℕ
  pub required_features : ℕ
  pub ro_compat_features : ℕ
  pub volume_name : ℕ → ℕ

-- The structure is packed: a field starts where the one before it ends.
unfoldable pub superblock_of : (ℕ → ℕ) → Ext2Superblock
superblock_of buf = record {
  inode_count = le32 buf 0;
  block_count = le32 buf 4;
  superuser_rsv_block_count = le32 buf 8;
  free_block_count = le32 buf 12;
  free_inode_count = le32 buf 16;
  first_data_block = le32 buf 20;
  log_block_size = le32 buf 24;
  log_frag_size = le32 buf 28;
  blocks_per_blockgroup = le32 buf 32;
  fragments_per_blockgroup = le32 buf 36;
  inodes_per_blockgroup = le32 buf 40;
  last_mount_time = le32 buf 44;
  last_written_time = le32 buf 48;
  mount_count = le16 buf 52;
  max_mount_count = le16 buf 54;
  ext2_signature = le16 buf 56;
  fs_state = le16 buf 58;
  error_action = le16 buf 60;
  version_minor = le16 buf 62;
  last_check_time = le32 buf 64;
  check_interval = le32 buf 68;
  os_id = le32 buf 72;
  version_major = le32 buf 76;
  default_res_uid = le16 buf 80;
  default_res_gid = le16 buf 82;
  first_non_rsv_inode = le32 buf 84;
  inode_struct_size = le16 buf 88;
  superblock_blockgroup = le16 buf 90;
  optinal_features = le32 buf 92;
  required_features = le32 buf 96;
  ro_compat_features = le32 buf 100;
  volume_name = λ k. buf (120 + k);
}

-- The error, or 0, with what `out_sb` holds then.
unfoldable pub ext2_read_superblock : Env → Exec (ℕ × Option Ext2Superblock × Env)
ext2_read_superblock e =
    let start_sector = ext2_superblock_offset / e.sector_size in
    let end_byte = ext2_superblock_offset + 1024 in
    let end_sector = word32 (end_byte + e.sector_size - 1) / e.sector_size in
    let sector_count = end_sector - start_sector in
    let (got, e1) = alloc e in
    let (status, buf, e2) = bdev_read e1 start_sector (λ j. 0) in
    let offset = ext2_superblock_offset - start_sector * e.sector_size in
    let super = superblock_of (λ j. buf (offset + j)) in
    let result =
      if not got
      then ok (enomem, none, e1)
      else if status == 0
      then ok (0, some super, free e2)
      else ok (status, none, free e2) in
    in_bounds (not (e.sector_size == 0)) >> result

-- `1024 << log_block_size` of 32 bits, as the processor shifts.
abbrev pub block_size_of : Ext2Superblock → ℕ
block_size_of super = word32 (1024 * 2 ^ (super.log_block_size % 32))

-- Features other than EXT2_FEATURE_REQUIRED_FILETYPE, the bit of 2.
abbrev pub has_unsupported : ℕ → Bool
has_unsupported features = not (features - features / 2 % 2 * 2 == 0)

-- The test of ext2_probe that refuses a file system.
abbrev pub is_refused : Ext2Superblock → Bool
is_refused super =
    not (super.ext2_signature == ext2_signature_value)
    || not (super.version_major == 1)
    || has_unsupported super.required_features
    || ltb page_size (block_size_of super)

-- The error, or 0, and the label that is written then: strncpy, and a zero in the last of 32 bytes.
unfoldable pub ext2_probe : Env → Exec (ℕ × Env)
ext2_probe e =
    let (got, e1) = alloc e in
    let probed = ext2_read_superblock e1 >>= λ (status, super, e2). elim super [
      | none ↦ ok (status, free e2)
      | some super ↦ if is_refused super then ok (einval, free e2) else ok (0, free e2)
    ] in
    if not got then ok (enomem, e1) else probed

-- struct ext2_blockgroup_desc, the `g`-th of a buffer.
unfoldable pub bgd_at : (ℕ → ℕ) → ℕ → BlockGroupDesc
bgd_at buf g = record {
  block_bitmap_addr = le32 buf (32 * g);
  inode_bitmap_addr = le32 buf (32 * g + 4);
  inode_table_addr = le32 buf (32 * g + 8);
  free_blocks_count = le16 buf (32 * g + 12);
  free_inodes_count = le16 buf (32 * g + 14);
  dir_count = le16 buf (32 * g + 16);
}

-- The field `bgd_table` of struct ext2_fs_info: the bits that kmalloc leaves in it, 0 for NULL, or the
-- table, which is allocated.
pub data BgdTable : Type 0 where
  left_over : ℕ → BgdTable
  allocated : BgdTable

-- The error, or 0 with the other fields; and the field `bgd_table`, which is set only at the end.
unfoldable pub ext2_fill_bgd_table_info :
    Env → Ext2Superblock → BgdTable → Exec (ℕ × Option FsInfo × BgdTable × Env)
ext2_fill_bgd_table_info e super field =
    let inodes_per_group = super.inodes_per_blockgroup in
    let block_group_count =
      word32 (super.inode_count + inodes_per_group + 2 ^ 32 - 1) / inodes_per_group in
    let block_size = block_size_of super in
    let bgd_table_start_block = word32 (super.first_data_block + 1) in
    let bgd_table_bytes = word32 (32 * block_group_count) in
    let block_count = word32 (bgd_table_bytes + block_size + 2 ^ 32 - 1) / block_size in
    let (got, e1) = alloc e in
    let sectors_per_block = block_size / e.sector_size in
    let lba = word32 (bgd_table_start_block * sectors_per_block) in
    let (status, buf, e2) = bdev_read e1 lba (λ j. 0) in
    let info : FsInfo = record {
      inode_struct_size = super.inode_struct_size;
      inodes_per_group = inodes_per_group;
      block_per_group = super.blocks_per_blockgroup;
      block_group_count = block_group_count;
      bgd_table = bgd_at buf;
    } in
    let result =
      if not got
      then ok (enomem, none, field, e1)
      else if status == 0
      then ok (0, some info, allocated, e2)
      else ok (status, none, field, free e2) in
    in_bounds (not (inodes_per_group == 0))
    >> in_bounds (not (block_size == 0))
    >> in_bounds (not (e.sector_size == 0))
    >> result

-- A mounted file system: its root is a directory entry, whose inode may be a pointer to an error.
pub record Superblock : Type 0 where
  pub geometry : Geometry
  pub info : FsInfo
  pub root : InodePtr

pub data SuperblockPtr : Type 0 where
  superblock_ptr : Superblock → SuperblockPtr
  error_ptr : ℕ → SuperblockPtr

-- d_alloc of fs/vfs.c: the entry and its name.
unfoldable pub alloc_dentry : Env → Bool × Env
alloc_dentry e =
    let (got, e1) = alloc e in
    let (named, e2) = alloc e1 in
    if not got then (false, e1) else if named then (true, e2) else (false, free e2)

-- ext2_get_root: the inode is compared with NULL, and ext2_read_inode returns no NULL. `none` is the
-- error of d_alloc: the inode is freed then, and to free an error's pointer is a fault.
unfoldable pub ext2_get_root : Env → FsInfo → Geometry → Exec (Option InodePtr × Env)
ext2_get_root e info sb = ext2_read_inode e info sb ext2_root_dir_ino >>= λ (inode, e1).
    let (got, e2) = alloc_dentry e1 in
    let refused : Exec (Option InodePtr × Env) = elim inode [
      | inode_ptr i ↦ ok (none, free e2)
      | err_ptr x ↦ fault
    ] in
    if got then ok (some inode, e2) else refused

-- `if (info && info->bgd_table) kfree(info->bgd_table)`: to free what is left over is a fault.
unfoldable pub free_bgd_table : BgdTable → Env → Exec Env
free_bgd_table (left_over bits) e = if bits == 0 then ok e else fault
free_bgd_table allocated e = ok (free e)

-- `exit_err` with the error of `res`: `sb` says whether sb is not NULL, and `info` is its `bgd_table`, or
-- none where info is NULL.
unfoldable pub exit_err :
    (sb : Bool) → (info : Option BgdTable) → (res : ℕ) → Env → Exec (SuperblockPtr × Env)
exit_err sb info res e =
    let e1 = if sb then free e else e in
    elim info [
      | none ↦ ok (error_ptr res, e1)
      | some field ↦ free_bgd_table field e1 >>= λ e2. ok (error_ptr res, free e2)
    ]

-- The end of ext2_mount, with the superblock and the table of block groups.
unfoldable pub mount_root :
    Env → Ext2Superblock → FsInfo → (field : BgdTable) → Exec (SuperblockPtr × Env)
unfolding ext2_get_root
mount_root e super info field =
    let geometry : Geometry = record {
      block_size = block_size_of super;
      sectors_per_block = block_size_of super / e.sector_size;
    } in
    let mounted : InodePtr → Superblock =
      λ inode. record { geometry = geometry; info = info; root = inode } in
    ext2_get_root e info geometry >>= λ (root, e1). elim root [
      | none ↦ exit_err true (some field) enomem e1
      | some inode ↦ ok (superblock_ptr (mounted inode), e1)
    ]

-- The part before it, with the superblock.
unfoldable pub mount_groups : Env → Ext2Superblock → (field : BgdTable) → Exec (SuperblockPtr × Env)
unfolding ext2_fill_bgd_table_info mount_root
mount_groups e super field =
    ext2_fill_bgd_table_info e super field >>= λ (status, info, field1, e1). elim info [
      | none ↦ exit_err true (some field1) status e1
      | some info ↦ mount_root e1 super info field1
    ]

-- `bits` is what kmalloc leaves in `info->bgd_table`.
unfoldable pub ext2_mount : (bits : ℕ) → Env → Exec (SuperblockPtr × Env)
unfolding ext2_read_superblock mount_groups
ext2_mount bits e =
    let (got_sb, e1) = alloc e in
    let (got_info, e2) = alloc e1 in
    let field = left_over bits in
    let mounted = ext2_read_superblock e2 >>= λ (status, super, e3). elim super [
      | none ↦ exit_err true (some field) status e3
      | some super ↦ mount_groups e3 super field
    ] in
    if not got_sb
    then exit_err false none enomem e1
    else if not got_info
    then exit_err true none enomem e2
    else mounted
