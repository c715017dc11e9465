-- ===== src/Ext2/File/Blocks.antt =====
-- fs/ext2/file.c: one round of the loop of ext2_read_file.
use snap_os.Prelude.{
  ℕ, ◌+◌, ◌-◌, ◌*◌, ◌/◌, ◌%◌, ◌^◌, ◌≤◌, ◌<◌, ◌≡◌, refl, ap, Bool, true, false, ◌&&◌, ltb, leb, ◌==◌,
  if◌then◌else◌, Option, some, none, min, arith, inl, inr, Bool-cases, word32, Returns, returns,
  Returns->>=,
}
use snap_os.Ext2.{Env, bdev_read, Geometry, InodeInfo, ext2_init_singly}
use snap_os.Ext2.File.{block_lba, read_twice, Reading, copy_part, read_block}
use snap_os.Ext2.File.Contents.{
  Works, indirect_table, block_number, sector_of, byte_at, held, IsReachable,
}

-- The state of a read that started in `e0` with `info0`, after some rounds.
pub record Follows (e0 : Env) (sb : Geometry) (info0 : InodeInfo) (e : Env) (info : InodeInfo)
    : Type 0 where
  pub bytes_kept : e.bytes ≡ e0.bytes
  pub sector_kept : e.sector_size ≡ e0.sector_size
  pub works : Works e
  pub inode_kept : info.inode ≡ info0.inode
  pub table_kept : indirect_table e sb info ≡ indirect_table e0 sb info0
  pub live_kept : e.live + held info0 ≡ e0.live + held info
  pub held_kept : held info0 ≤ held info

module _ (e0 : Env) (sb : Geometry) (info0 : InodeInfo) where
  -- One round, from `r.filled` bytes behind the offset, where `src` is the place in block `block`.
  pub record Round (offset block src : ℕ) (r r1 : Reading) : Type 0 where
    pub follows : Follows e0 sb info0 r1.env r1.info
    pub filled : r1.filled ≡ r.filled + min r.remaining (sb.block_size - src)
    pub remaining : r1.remaining ≡ r.remaining - min r.remaining (sb.block_size - src)
    pub bytes :
        (j : ℕ)
        → r1.buf j ≡ (
            if leb r.filled j && ltb j (r.filled + min r.remaining (sb.block_size - src))
            then byte_at e0 sb info0 block (src + (j - r.filled))
            else r.buf j)

module _ (e0 : Env) (sb : Geometry) (info0 : InodeInfo) (reach : IsReachable e0 sb info0) where
  init_table :
      (e : Env) (info : InodeInfo) (t : Option (ℕ → ℕ))
      → Follows e0 sb info0 e (record info { singly_table = t })
      → ((ext2_init_singly e sb (record info { singly_table = t })).1.singly_table
          ≡ some (indirect_table e0 sb info0))
        × Follows e0 sb info0
            (ext2_init_singly e sb (record info { singly_table = t })).2
            (ext2_init_singly e sb (record info { singly_table = t })).1
  unfolding ext2_init_singly indirect_table held
  init_table e info (some table) f = (ap some f.table_kept, f)
  init_table e info none f =
      let small : word32 (info.inode.singly * sb.sectors_per_block)
          ≡ info.inode.singly * sb.sectors_per_block =
        let i = ap (λ i. i.singly * sb.sectors_per_block) f.inode_kept in
        omega (arith, i, reach.singly_small) in
      rw (f.works.grants e.allocs, f.works.answers e.reads, small)
        (
          ap some f.table_kept,
          record {
            bytes_kept = f.bytes_kept;
            sector_kept = f.sector_kept;
            works = record { answers = f.works.answers; grants = f.works.grants };
            inode_kept = f.inode_kept;
            table_kept = f.table_kept;
            live_kept = omega (arith, f.live_kept);
            held_kept = omega (arith, f.held_kept);
          },
        )

  -- The block's sector, on a device that works.
  block_lba_lem :
      (e : Env) (info : InodeInfo) (block : ℕ)
      → Follows e0 sb info0 e info
      → block < 12 + sb.block_size / 4
      → Returns
          (λ (lba, info1, e1). (lba ≡ sector_of e0 sb info0 block) × Follows e0 sb info0 e1 info1)
          (block_lba e sb info block)
  unfolding block_lba sector_of block_number
  block_lba_lem e info block f inside = elim (Bool-cases (ltb block 12)) [
    | inl direct ↦
        let small : info0.inode.direct_ptrs block * sb.sectors_per_block < 2 ^ 32 =
          rw direct at (reach.sectors_small block inside) in
        let cut : word32 (info.inode.direct_ptrs block * sb.sectors_per_block)
            ≡ info0.inode.direct_ptrs block * sb.sectors_per_block =
          let i = ap (λ i. i.direct_ptrs block * sb.sectors_per_block) f.inode_kept in
          omega (arith, i, small) in
        rw direct (returns (cut, f))
    | inr later ↦
        let indirect : ltb block (12 + sb.block_size / 4) ≡ true = ground arith in
        let (t, f1) = init_table e info info.singly_table f in
        let small : indirect_table e0 sb info0 (block - 12) * sb.sectors_per_block < 2 ^ 32 =
          rw later at (reach.sectors_small block inside) in
        let cut : word32 (indirect_table e0 sb info0 (block - 12) * sb.sectors_per_block)
            ≡ indirect_table e0 sb info0 (block - 12) * sb.sectors_per_block =
          omega (arith, small) in
        rw (later, indirect, t) (returns (cut, f1))
  ]

  -- The read of a block, on a device that works.
  read_twice_lem :
      (e : Env) (info : InodeInfo) (lba : ℕ) (buf : ℕ → ℕ)
      → Follows e0 sb info0 e info
      → ((read_twice e lba buf).0 ≡ 0)
        × ((j : ℕ)
            → (lba == 0) ≡ false
            → (read_twice e lba buf).1 j ≡ e0.bytes (lba * e0.sector_size + j))
        × Follows e0 sb info0 (read_twice e lba buf).2 info
  unfolding read_twice bdev_read indirect_table
  read_twice_lem e info lba buf f = elim (Bool-cases (lba == 0)) [
    | inl hole ↦ rw hole (refl, (λ j no. absurd (ground arith)), f)
    | inr there ↦
        rw (there, f.works.answers e.reads)
          (
            refl,
            (λ j yes. rw (f.bytes_kept, f.sector_kept) refl),
            record {
              bytes_kept = f.bytes_kept;
              sector_kept = f.sector_kept;
              works = record { answers = f.works.answers; grants = f.works.grants };
              inode_kept = f.inode_kept;
              table_kept = f.table_kept;
              live_kept = f.live_kept;
              held_kept = f.held_kept;
            },
          )
  ]

  copy_part-Round :
      (offset lba block src tocopy : ℕ) (r : Reading)
      → Follows e0 sb info0 r.env r.info
      → lba ≡ sector_of e0 sb info0 block
      → ((j : ℕ) → (lba == 0) ≡ false → r.block_buf j ≡ e0.bytes (lba * e0.sector_size + j))
      → tocopy ≡ min r.remaining (sb.block_size - src)
      → Round e0 sb info0 offset block src r (copy_part lba src tocopy r)
  unfolding copy_part byte_at
  copy_part-Round offset lba block src tocopy r f e read whole = record {
    follows = f;
    filled = rw whole refl;
    remaining = rw whole refl;
    bytes = λ j. rw (← whole, ← e) (ground (arith, read (src + (j - r.filled))));
  }

  pub read_block-Round :
      (offset start_block block : ℕ) (r : Reading)
      → Follows e0 sb info0 r.env r.info
      → r.remaining < 2 ^ 32
      → block < 12 + sb.block_size / 4
      → Returns
          (λ (status, r1).
            (status ≡ 0)
            × Round e0 sb info0 offset block
                (if block == start_block then offset % sb.block_size else 0)
                r
                r1)
          (read_block sb offset start_block block r)
  unfolding read_block
  read_block-Round offset start_block block r f small inside =
      Returns->>= _ (block_lba_lem r.env r.info block f inside) (λ (lba, info, e) (l, f1).
        let (done, bytes, f2) = read_twice_lem e info lba r.block_buf f1 in
        let src = if block == start_block then offset % sb.block_size else 0 in
        let tocopy =
          if block == start_block
          then min (word32 r.remaining) (sb.block_size - src)
          else min (word32 r.remaining) sb.block_size in
        let x =
          copy_part-Round offset lba block src tocopy
            (record r {
              env = (read_twice e lba r.block_buf).2;
              info = info;
              block_buf = (read_twice e lba r.block_buf).1;
            })
            f2 l bytes (part_size (block == start_block)) in
        rw done (
          returns (
            refl,
            record {
              follows = x.follows;
              filled = x.filled;
              remaining = x.remaining;
              bytes = x.bytes;
            },
          )))
    where
      part_size :
          (first : Bool)
          → (if first
              then min
                  (word32 r.remaining)
                  (sb.block_size - (if first then offset % sb.block_size else 0))
              else min (word32 r.remaining) sb.block_size)
            ≡ min r.remaining (sb.block_size - (if first then offset % sb.block_size else 0))
      part_size true = omega arith
      part_size false = omega arith
