-- ===== src/Ext2/Sample.antt =====
-- A small device for the tests: blocks of 1024 bytes, two sectors each. A byte is its block's number.
use snap_os.Prelude.{◌*◌, ◌/◌, false, none, ◌==◌, if◌then◌else◌, refl}
use snap_os.Ext2.{Env, Ext2Inode, Geometry, InodeInfo}
use snap_os.Ext2.File.Contents.{Works}

abbrev pub device : Env
device = record {
  bytes = λ a. if a / 1024 == 9 then (if a == 9 * 1024 then 7 else 0) else a / 1024;
  sector_size = 512;
  replies = λ n. 0;
  reads = 0;
  refuses = λ n. false;
  allocs = 0;
  live = 0;
}

pub device-Works : Works device
device-Works = record { answers = λ n. refl; grants = λ n. refl }

abbrev pub geometry : Geometry
geometry = record { block_size = 1024; sectors_per_block = 2 }

-- A file of fifteen thousand bytes: block 0 is 3 on the device, block 1 a hole, block 2 is 5, and its
-- indirect block, 9, says 7 for block 12.
abbrev pub inode : Ext2Inode
inode = record {
  mode = 0x8000;
  sizel = 15000;
  direct_ptrs = λ i. if i == 0 then 3 else if i == 2 then 5 else 0;
  singly = 9;
  sizeu = 0;
}

abbrev pub info : InodeInfo
info = record { inode = inode; size = 15000; singly_table = none }
