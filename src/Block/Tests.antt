-- ===== src/Block/Tests.antt =====
-- block/partition.c on a disk of 512 byte sectors whose second entry is in use, with 30 devices.
use snap_os.Prelude.{◌≡◌, refl, arith, false, if◌then◌else◌, ◌==◌, count}
use snap_os.Ext2.{Env, alloc, free, bdev_read}
use snap_os.Block.{
  Registry, zeroed, partition_scan, scan_sector, scan_entries, scan_exit, settle,
  block_dev_register,
}
use snap_os.Block.Scan.{Scanned, partition_scan-Scanned}

abbrev disk : Env
disk = record {
  bytes = λ j. if j == 466 then 131 else if j == 471 then 8 else if j == 474 then 100 else 0;
  sector_size = 512;
  replies = λ k. 0;
  reads = 0;
  refuses = λ k. false;
  allocs = 0;
  live = 7;
}

abbrev thirty : Registry
thirty = record { registered_block_devices = λ i. zeroed; index = 30 }

partition_scan-Scanned_example : Scanned disk 3 thirty (partition_scan disk 3 thirty)
partition_scan-Scanned_example = partition_scan-Scanned disk 3 thirty (omega arith)

one_partition : (partition_scan disk 3 thirty).0 ≡ count 1
unfolding partition_scan scan_sector scan_entries scan_exit settle block_dev_register alloc free
    bdev_read
one_partition = refl

one_more : (partition_scan disk 3 thirty).2.index ≡ 31
unfolding partition_scan scan_sector scan_entries scan_exit settle block_dev_register alloc free
    bdev_read
one_more = refl
