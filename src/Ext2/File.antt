-- ===== src/Ext2/File.antt =====
-- fs/ext2/file.c: reading a file.
pub mod Contents
mod Blocks
mod Loop
pub mod Read
mod Tests
use snap_os.Prelude.{
  ℕ, zero, suc, ◌+◌, ◌-◌, ◌*◌, ◌/◌, ◌%◌, ◌^◌, Bool, true, false, not, ◌&&◌, ltb, leb, ◌==◌,
  if◌then◌else◌, Option, some, none, min, word32, word64, enomem, Ssize, count, error, Exec, ok,
  fault, ◌>>=◌,
}
use snap_os.Ext2.{Env, alloc, free, bdev_read, Ext2Inode, Geometry, InodeInfo, ext2_init_singly}

-- The sector where a block of the file starts, or 0 for a block that is not on the device. What
-- ext2_init_singly returns is not looked at.
unfoldable block_lba : Env → Geometry → InodeInfo → (block : ℕ) → Exec (ℕ × InodeInfo × Env)
unfolding ext2_init_singly
block_lba e sb info block =
    let (status, info1, e1) = ext2_init_singly e sb info in
    let indirect : Exec (ℕ × InodeInfo × Env) = elim info1.singly_table [
      | none ↦ fault
      | some table ↦ ok (word32 (table (block - 12) * sb.sectors_per_block), info1, e1)
    ] in
    if ltb block 12
    then ok (word32 (info.inode.direct_ptrs block * sb.sectors_per_block), info, e)
    else if ltb block (12 + sb.block_size / 4)
    then indirect
    else ok (0, info, e)

-- A read that is tried once more when it fails. A block that is not on the device is not read.
unfoldable read_twice : Env → (lba : ℕ) → (buf : ℕ → ℕ) → ℕ × (ℕ → ℕ) × Env
unfolding bdev_read
read_twice e lba buf =
    let (status, filled, e1) = bdev_read e lba buf in
    if lba == 0
    then (0, buf, e)
    else if status == 0
    then (0, filled, e1)
    else bdev_read e1 lba filled

-- The variables of the loop: what is read of the inode, the block's buffer, the caller's buffer and
-- how far it is filled, and the bytes that remain.
pub record Reading : Type 0 where
  pub env : Env
  pub info : InodeInfo
  pub block_buf : ℕ → ℕ
  pub buf : ℕ → ℕ
  pub filled : ℕ
  pub remaining : ℕ

-- memcpy from the block, or memset for a block that is not on the device.
unfoldable copy_part : (lba src tocopy : ℕ) → Reading → Reading
copy_part lba src tocopy r =
    let byte : ℕ → ℕ = λ j. if lba == 0 then 0 else r.block_buf (src + (j - r.filled)) in
    let buf : ℕ → ℕ =
      λ j. if leb r.filled j && ltb j (r.filled + tocopy) then byte j else r.buf j in
    record r { buf = buf; filled = r.filled + tocopy; remaining = r.remaining - tocopy }

-- A round of the loop: an error, or 0.
unfoldable read_block : Geometry → (offset start_block block : ℕ) → Reading → Exec (ℕ × Reading)
unfolding block_lba read_twice copy_part
read_block sb offset start_block block r = block_lba r.env sb r.info block >>= λ (lba, info, e).
    let (status, block_buf, e1) = read_twice e lba r.block_buf in
    let src = if block == start_block then offset % sb.block_size else 0 in
    let tocopy =
      if block == start_block
      then min (word32 r.remaining) (sb.block_size - src)
      else min (word32 r.remaining) sb.block_size in
    let read = record r { env = e1; info = info; block_buf = block_buf } in
    if status == 0 then ok (0, copy_part lba src tocopy read) else ok (status, read)

-- The loop, with `k` rounds left, from round `i` on.
unfoldable read_blocks :
    (k i : ℕ) → Geometry → (offset start_block : ℕ) → Reading → Exec (ℕ × Reading)
unfolding read_block
read_blocks zero i sb offset start_block r = ok (0, r)
read_blocks (suc k) i sb offset start_block r =
    read_block sb offset start_block (word32 (start_block + i)) r >>= λ (status, r1).
    let rest = read_blocks k (i + 1) sb offset start_block r1 in
    if status == 0 then rest else ok (status, r1)

-- What the call leaves: its result, the caller's buffer and offset, the inode's data, the device.
pub record FileRead : Type 0 where
  pub ret : Ssize
  pub buf : ℕ → ℕ
  pub offset : ℕ
  pub info : InodeInfo
  pub env : Env

unfoldable pub ext2_read_file :
    Env → Geometry → InodeInfo → (buf : ℕ → ℕ) → (asked offset : ℕ) → Exec FileRead
unfolding alloc free read_blocks
ext2_read_file e sb info buf asked offset =
    let nothing : FileRead = record {
      ret = count 0;
      buf = buf;
      offset = offset;
      info = info;
      env = e;
    } in
    let n = if ltb info.size (word64 (offset + asked)) then info.size - offset else asked in
    let start_block = word32 (offset / sb.block_size) in
    let end_block = word32 ((offset + n + sb.block_size - 1) / sb.block_size) in
    let block_count = word32 (end_block + 2 ^ 32 - start_block) in
    let (got, e1) = alloc e in
    let start : Reading = record {
      env = e1;
      info = info;
      block_buf = λ j. 0;
      buf = buf;
      filled = 0;
      remaining = n;
    } in
    let refused = record nothing { ret = error enomem; env = e1 } in
    let read = read_blocks block_count 0 sb offset start_block start >>= λ (status, r).
    let done = record nothing { buf = r.buf; info = r.info; env = free r.env } in
    if status == 0
    then ok (record done { ret = count n; offset = offset + n })
    else ok (record done { ret = error status }) in
    if asked == 0
    then ok nothing
    else if leb info.size offset
    then ok nothing
    else if not got
    then ok refused
    else read
