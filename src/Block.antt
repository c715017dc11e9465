-- ===== src/Block.antt =====
-- block/block.c and block/partition.c: the block devices, and the partitions of a disk. The names of the
-- devices are left out.
mod Entries
mod Settle
pub mod Scan
mod Tests
use snap_os.Prelude.{
  ℕ, zero, suc, ◌+◌, ◌-◌, ◌*◌, ◌^◌, Bool, true, false, not, leb, ltb, ◌==◌, if◌then◌else◌, Option,
  some, none, List, [], ◌∷◌, ◌++◌, word64, write, enomem, eio, Ssize, count, error,
}
use snap_os.Ext2.{Env, alloc, free, bdev_read, le32}

abbrev pub block_dev_max : ℕ
block_dev_max = 32

abbrev pub mbr_offset : ℕ
mbr_offset = 446

abbrev pub mbr_entry_count : ℕ
mbr_entry_count = 4

-- struct partition_info: the device, by its number, and the first sector.
pub record PartitionInfo : Type 0 where
  pub parent : ℕ
  pub lba_start : ℕ

-- struct block_dev; `priv_data` is none for NULL.
pub record BlockDev : Type 0 where
  pub sector_size : ℕ
  pub sector_count : ℕ
  pub priv_data : Option PartitionInfo

-- registered_block_devices and index.
pub record Registry : Type 0 where
  pub registered_block_devices : ℕ → BlockDev
  pub index : ℕ

unfoldable pub block_dev_register : Registry → BlockDev → Registry
block_dev_register g bdev =
    let devs = write g.registered_block_devices g.index bdev in
    if leb block_dev_max g.index
    then g
    else record { registered_block_devices = devs; index = g.index + 1 }

-- partition_read: the read of the parent, at the sector of the disk.
unfoldable pub partition_read : PartitionInfo → Env → (lba : ℕ) → (buf : ℕ → ℕ) → ℕ × (ℕ → ℕ) × Env
unfolding bdev_read
partition_read pinfo e lba buf = bdev_read e (word64 (pinfo.lba_start + lba)) buf

-- What kzalloc gives.
abbrev pub zeroed : BlockDev
zeroed = record { sector_size = 0; sector_count = 0; priv_data = none }

-- The device of the entry at `entry` of the sector.
abbrev pub partition_at : (bdev sector_size : ℕ) → (buf : ℕ → ℕ) → (entry : ℕ) → BlockDev
partition_at bdev sector_size buf entry = record {
  sector_size = sector_size;
  sector_count = le32 buf (entry + 12);
  priv_data = some (record { parent = bdev; lba_start = le32 buf (entry + 8) });
}

-- The loop of partition_scan over the entries, with `k` of them left: `res`, and pbdevs.
unfoldable pub scan_entries :
    (k i : ℕ) → Env → (bdev : ℕ) → (buf : ℕ → ℕ) → List BlockDev → ℕ × List BlockDev × Env
unfolding alloc
scan_entries zero i e bdev buf pbdevs = (0, pbdevs, e)
scan_entries (suc k) i e bdev buf pbdevs =
    let entry = mbr_offset + 16 * i in
    let (got, e1) = alloc e in
    let (got_info, e2) = alloc e1 in
    let skipped = scan_entries k (i + 1) e bdev buf pbdevs in
    let rest =
      scan_entries k (i + 1) e2 bdev buf
        (pbdevs ++ partition_at bdev e.sector_size buf entry ∷ []) in
    if buf (entry + 4) == 0
    then skipped
    else if not got
    then (enomem, pbdevs, e1)
    else if not got_info
    then (enomem, pbdevs ++ zeroed ∷ [], e2)
    else rest

-- A device that is given back.
unfoldable pub free_device : Option PartitionInfo → Env → Env
unfolding free
free_device none e = free e
free_device (some pinfo) e = free (free e)

-- The loop at `exit`.
unfoldable pub settle : (res : ℕ) → List BlockDev → Env → Registry → Env × Registry
unfolding free_device block_dev_register
settle res [] e g = (e, g)
settle res (p ∷ pbdevs) e g =
    let dropped = settle res pbdevs (free_device p.priv_data e) g in
    let kept = settle res pbdevs e (block_dev_register g p) in if res == 0 then kept else dropped

abbrev pub length : List BlockDev → ℕ
length [] = 0
length (p ∷ ps) = suc (length ps)

-- The end of partition_scan.
unfoldable pub scan_exit : ℕ × List BlockDev × Env → Registry → Ssize × Env × Registry
unfolding settle free
scan_exit (res, pbdevs, e) g =
    let (e1, g1) = settle res pbdevs e g in
    ((if res == 0 then count (length pbdevs) else error res), free e1, g1)

-- The part of partition_scan after the read of the first sector.
unfoldable pub scan_sector :
    (status : ℕ) → (buf : ℕ → ℕ) → Env → (bdev : ℕ) → Registry → Ssize × Env × Registry
scan_sector status buf e bdev g =
    if not (status == 0)
    then scan_exit (eio, [], e) g
    else scan_exit (scan_entries mbr_entry_count 0 e bdev buf []) g

unfoldable pub partition_scan : Env → (bdev : ℕ) → Registry → Ssize × Env × Registry
partition_scan e bdev g =
    let (got, e1) = alloc e in
    let (status, buf, e2) = bdev_read e1 0 (λ j. 0) in
    if not got then (error enomem, e1, g) else scan_sector status buf e2 bdev g
