-- ===== src/Ext2.antt =====
-- fs/ext2: what its files share, include/fs/ext2.h and fs/ext2/ext2.c. The block device is reached
-- through a pointer to a function, and memory through kmalloc and alloc_page: both are a record of
-- what the coming calls do.
pub mod Dir
pub mod File
pub mod Inode
pub mod Super
pub mod Sample
use snap_os.Prelude.{
  ℕ, zero, suc, ◌+◌, ◌-◌, ◌*◌, ◌/◌, ◌%◌, ◌^◌, Bool, true, false, not, ◌==◌, if◌then◌else◌, Option,
  some, none, word32, enomem,
}

-- A device: its bytes, the size of a sector, and the results of the calls of its `read`: 0, or the
-- number of an error. And whether each coming allocation is refused, with the count of the
-- allocations that are not freed.
pub record Env : Type 0 where
  pub bytes : ℕ → ℕ
  pub sector_size : ℕ
  pub replies : ℕ → ℕ
  pub reads : ℕ
  pub refuses : ℕ → Bool
  pub allocs : ℕ
  pub live : ℕ

-- ext2_alloc_block, kmalloc and kzalloc: whether there is memory.
unfoldable pub alloc : Env → Bool × Env
alloc e =
    let next = record e { allocs = e.allocs + 1 } in
    if e.refuses e.allocs then (false, next) else (true, record next { live = e.live + 1 })

-- ext2_free_block and kfree.
unfoldable pub free : Env → Env
free e = record e { live = e.live - 1 }

-- `bdev->read(bdev, lba, count, iovec, 1)` into a buffer: its status, and the buffer.
unfoldable pub bdev_read : Env → (lba : ℕ) → (buf : ℕ → ℕ) → ℕ × (ℕ → ℕ) × Env
bdev_read e lba buf =
    let filled : ℕ → ℕ = λ j. e.bytes (lba * e.sector_size + j) in
    let status = e.replies e.reads in
    (status, (if status == 0 then filled else buf), record e { reads = e.reads + 1 })

-- struct ext2_inode: the fields that the code reads. The pointers are numbers of blocks.
pub record Ext2Inode : Type 0 where
  pub mode : ℕ
  pub sizel : ℕ
  pub direct_ptrs : ℕ → ℕ
  pub singly : ℕ
  pub sizeu : ℕ

-- struct superblock of include/vfs.h, the geometry of a mounted file system.
pub record Geometry : Type 0 where
  pub block_size : ℕ
  pub sectors_per_block : ℕ

-- struct ext2_inode_info: `singly` is the table of the indirect block, once it is read.
pub record InodeInfo : Type 0 where
  pub inode : Ext2Inode
  pub size : ℕ
  pub singly_table : Option (ℕ → ℕ)

-- Words of a buffer, the lowest byte first.
abbrev pub le16 : (ℕ → ℕ) → ℕ → ℕ
le16 buf i = buf i + 2 ^ 8 * buf (i + 1)

abbrev pub le32 : (ℕ → ℕ) → ℕ → ℕ
le32 buf i = le16 buf i + 2 ^ 16 * le16 buf (i + 2)

-- An array of `uint32_t` in a buffer.
abbrev pub words_of : (ℕ → ℕ) → ℕ → ℕ
words_of buf i = le32 buf (4 * i)

-- The error that it returns, or 0. `block_number * sectors_per_block` is a product of 32 bits.
unfoldable pub ext2_init_singly : Env → Geometry → InodeInfo → ℕ × InodeInfo × Env
unfolding alloc free bdev_read
ext2_init_singly e sb info = elim info.singly_table [
  | some table ↦ (0, info, e)
  | none ↦
      let (got, e1) = alloc e in
      let lba = word32 (info.inode.singly * sb.sectors_per_block) in
      let (status, buf, e2) = bdev_read e1 lba (λ j. 0) in
      if not got
      then (enomem, info, e1)
      else if status == 0
      then (0, record info { singly_table = some (words_of buf) }, e2)
      else (status, info, free e2)
]
