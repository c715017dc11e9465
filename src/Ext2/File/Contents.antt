-- ===== src/Ext2/File/Contents.antt =====
-- fs/ext2/file.c: the contents of a file, as its inode gives them. A file of more blocks than the direct
-- and the singly indirect ones has contents that are not described here.
use snap_os.Prelude.{
  ◌<◌, ◌≤◌, ◌^◌, ℕ, ◌+◌, ◌-◌, ◌*◌, ◌/◌, ◌%◌, ◌≡◌, false, ltb, ◌==◌, if◌then◌else◌, some, none, min,
  count,
}
use snap_os.Ext2.{Env, Geometry, InodeInfo, words_of}
use snap_os.Ext2.File.{FileRead}

-- A device whose reads succeed, with memory for every request.
pub record Works (e : Env) : Type 0 where
  pub answers : (n : ℕ) → e.replies n ≡ 0
  pub grants : (n : ℕ) → e.refuses n ≡ false

module _ (e : Env) (sb : Geometry) (info : InodeInfo) where
  -- The table of the indirect block: the one in memory, or the one on the device.
  unfoldable pub indirect_table : ℕ → ℕ
  indirect_table = elim info.singly_table [
    | some table ↦ table
    | none ↦ words_of (λ j. e.bytes (info.inode.singly * sb.sectors_per_block * e.sector_size + j))
  ]

  -- The number of a block of the file, one of the direct or one of the indirect blocks.
  unfoldable pub block_number : ℕ → ℕ
  block_number block =
      if ltb block 12 then info.inode.direct_ptrs block else indirect_table (block - 12)

  unfoldable pub sector_of : ℕ → ℕ
  sector_of block = block_number block * sb.sectors_per_block

  -- A byte of the file: block 0 of the device stands for a hole, which reads as zeros.
  unfoldable pub byte_at : (block r : ℕ) → ℕ
  byte_at block r =
      if sector_of block == 0 then 0 else e.bytes (sector_of block * e.sector_size + r)

  unfoldable pub file_byte : ℕ → ℕ
  file_byte k = byte_at (k / sb.block_size) (k % sb.block_size)

  -- A file whose bytes lie in the direct and the singly indirect blocks, with sectors of 32 bits.
  pub record IsReachable : Type 0 where
    pub singly_small : info.inode.singly * sb.sectors_per_block < 2 ^ 32
    pub sectors_small : (block : ℕ) → block < 12 + sb.block_size / 4 → sector_of block < 2 ^ 32
    pub size_small : info.size ≤ (12 + sb.block_size / 4) * sb.block_size

unfoldable pub held : InodeInfo → ℕ
held info = elim info.singly_table [ some table ↦ 1 | none ↦ 0 ]

-- What a read returns: nothing at the end of the file; else the bytes of the file from the offset
-- on, as many as were asked for and the file has, with the offset behind them.
pub data Contents (e : Env) (sb : Geometry) (info : InodeInfo) (buf : ℕ → ℕ) (asked offset : ℕ)
    : FileRead → Type 0 where
  at_end :
      min asked (info.size - offset) ≡ 0
      → Contents e sb info buf asked offset
          (record { ret = count 0; buf = buf; offset = offset; info = info; env = e })
  bytes_read :
      (f : FileRead)
      → f.ret ≡ count (min asked (info.size - offset))
      → f.offset ≡ offset + min asked (info.size - offset)
      → ((j : ℕ)
          → f.buf j ≡ (
              if ltb j (min asked (info.size - offset))
              then file_byte e sb info (offset + j)
              else buf j))
      → f.env.live + held info ≡ e.live + held f.info
      → Contents e sb info buf asked offset f
