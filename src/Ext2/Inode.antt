-- ===== src/Ext2/Inode.antt =====
-- fs/ext2/inode.c: reading an inode from the tables of its block group.
pub mod Place
mod Tests
use snap_os.Prelude.{
  ℕ, zero, suc, ◌+◌, ◌-◌, ◌*◌, ◌/◌, ◌%◌, ◌^◌, Bool, true, false, not, ◌&&◌, ◌||◌, leb, ◌==◌,
  if◌then◌else◌, Option, some, none, word32, enomem, einval, bit_and, bit_or, Exec, ok, panic,
  in_bounds, ◌>>=◌, ◌>>◌,
}
use snap_os.Ext2.{Env, alloc, free, bdev_read, Ext2Inode, Geometry, InodeInfo, le16, le32, words_of}

-- struct ext2_blockgroup_desc, and struct ext2_fs_info, as far as they are read.
pub record BlockGroupDesc : Type 0 where
  pub block_bitmap_addr : ℕ
  pub inode_bitmap_addr : ℕ
  pub inode_table_addr : ℕ
  pub free_blocks_count : ℕ
  pub free_inodes_count : ℕ
  pub dir_count : ℕ

pub record FsInfo : Type 0 where
  pub inode_struct_size : ℕ
  pub inodes_per_group : ℕ
  pub block_per_group : ℕ
  pub block_group_count : ℕ
  pub bgd_table : ℕ → BlockGroupDesc

-- The pairs of tables of functions that an inode gets.
pub data Operations : Type 0 where
  ext2_file_ops ext2_dir_ops : Operations

-- struct inode of include/vfs.h.
pub record Inode : Type 0 where
  pub ino : ℕ
  pub size : ℕ
  pub mode : ℕ
  pub operations : Operations
  pub priv_data : InodeInfo

-- An inode, or the error that ERR_PTR holds.
pub data InodePtr : Type 0 where
  inode_ptr : Inode → InodePtr
  err_ptr : ℕ → InodePtr

abbrev pub s_ifreg : ℕ
s_ifreg = 0x8000

abbrev pub s_ifdir : ℕ
s_ifdir = 0x4000

-- EXT2_ISDIR and EXT2_ISREG: the highest four of sixteen bits.
abbrev pub ext2_isdir : ℕ → Bool
ext2_isdir m = (m / 2 ^ 12 % 16 == 4)

abbrev pub ext2_isreg : ℕ → Bool
ext2_isreg m = (m / 2 ^ 12 % 16 == 8)

abbrev pub ext2_inode_data_size : Ext2Inode → ℕ
ext2_inode_data_size inode = bit_or inode.sizel (inode.sizeu * 2 ^ 32)

-- struct ext2_inode, from the bytes at a place.
unfoldable pub inode_of : (ℕ → ℕ) → Ext2Inode
inode_of buf = record {
  mode = le16 buf 0;
  sizel = le32 buf 4;
  direct_ptrs = λ k. le32 buf (40 + 4 * k);
  singly = le32 buf 88;
  sizeu = le32 buf 108;
}

-- The structure at an offset of a buffer.
unfoldable pub ext2_inode_at : (ℕ → ℕ) → ℕ → Ext2Inode
unfolding inode_of
ext2_inode_at buf place = inode_of (λ j. buf (place + j))

-- The four allocations of ext2_read_inode: whether all succeed, and how many do.
unfoldable pub alloc_four : Env → Bool × ℕ × Env
alloc_four e =
    let (got1, e1) = alloc e in
    let (got2, e2) = alloc e1 in
    let (got3, e3) = alloc e2 in
    let (got4, e4) = alloc e3 in
    let one : Bool → ℕ = λ got. if got then 1 else 0 in
    (got1 && got2 && got3 && got4, one got1 + one got2 + one got3 + one got4, e4)

-- `out_err`: the blocks that were allocated are freed.
unfoldable pub out_err : ℕ → (given : ℕ) → Env → Exec (InodePtr × Env)
out_err res given e = ok (err_ptr res, record e { live = e.live - given })

-- The end of ext2_read_inode, with the structure that was copied from the block.
unfoldable pub fill_inode : Env → Ext2Inode → (ino : ℕ) → Exec (InodePtr × Env)
fill_inode e inode ino =
    let size = ext2_inode_data_size inode in
    let info : InodeInfo = record { inode = inode; size = size; singly_table = none } in
    let file : Inode = record {
      ino = ino;
      size = size;
      mode = s_ifreg;
      operations = ext2_file_ops;
      priv_data = info;
    } in
    let dir : Inode = record {
      ino = ino;
      size = size;
      mode = s_ifdir;
      operations = ext2_dir_ops;
      priv_data = info;
    } in
    if ext2_isreg inode.mode
    then ok (inode_ptr file, free e)
    else if ext2_isdir inode.mode
    then ok (inode_ptr dir, free e)
    else panic

-- From the allocations on: the inode at `place` of the block at `lba` is read. A copy from outside
-- the block is a fault.
unfoldable pub read_slot : Env → Geometry → (lba place ino : ℕ) → Exec (InodePtr × Env)
unfolding out_err
read_slot e sb lba place ino =
    let (got, given, e1) = alloc_four e in
    let (status, block_buf, e2) = bdev_read e1 lba (λ j. 0) in
    let read =
      if status == 0
      then in_bounds (leb (place + 128) sb.block_size)
        >> fill_inode e2 (ext2_inode_at block_buf place) ino
      else out_err status given e2 in
    if got then read else out_err enomem given e1

-- A division by zero is a fault.
unfoldable pub ext2_read_inode : Env → FsInfo → Geometry → (ino : ℕ) → Exec (InodePtr × Env)
ext2_read_inode e info sb ino =
    let number = word32 (ino + 2 ^ 32 - 1) in
    let block_group = number / info.inodes_per_group in
    let inode_size = info.inode_struct_size in
    let index = number % info.inodes_per_group in
    let inodes_per_block = sb.block_size / inode_size in
    let block_offset = index / inodes_per_block in
    let index_in_block = index % inodes_per_block in
    let inode_table_base = (info.bgd_table block_group).inode_table_addr in
    let target_block = word32 (inode_table_base + block_offset) in
    let lba = word32 (target_block * sb.sectors_per_block) in
    let place = inode_size * index_in_block in
    let in_group =
      in_bounds (not (inode_size == 0))
      >> in_bounds (not (inodes_per_block == 0))
      >> read_slot e sb lba place ino in
    in_bounds (not (info.inodes_per_group == 0))
    >> (if leb info.block_group_count block_group then ok (err_ptr einval, e) else in_group)
