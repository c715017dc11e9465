-- ===== src/Ext2/Inode/Tests.antt =====
-- fs/ext2/inode.c: the root of a file system whose inodes start in block 4 and have 128 bytes.
use snap_os.Prelude.{◌+◌, ◌*◌, refl, arith, ◌==◌, if◌then◌else◌, Returns}
use snap_os.Ext2.{Env}
use snap_os.Ext2.Inode.{FsInfo, ext2_read_inode, ext2_inode_at}
use snap_os.Ext2.Inode.Place.{IsRegular, InodeRead, ext2_read_inode-InodeRead}
use snap_os.Ext2.Sample.{device, geometry}

-- The second inode is a directory.
abbrev table : Env
table = record device { bytes = λ a. if a == 4 * 1024 + 128 + 1 then 0x40 else 0 }

abbrev fs : FsInfo
fs = record {
  inode_struct_size = 128;
  inodes_per_group = 16;
  block_per_group = 8192;
  block_group_count = 1;
  bgd_table = λ g. record {
    block_bitmap_addr = 2;
    inode_bitmap_addr = 3;
    inode_table_addr = 4;
    free_blocks_count = 0;
    free_inodes_count = 0;
    dir_count = 1;
  };
}

table-IsRegular : IsRegular table fs geometry 2
table-IsRegular = record {
  numbered = omega arith;
  small = omega arith;
  groups = omega arith;
  sectors = refl;
  per_block = 8;
  inodes = refl;
  some_inodes = omega arith;
  wide = omega arith;
  on_device = omega arith;
  block_small = omega arith;
}

ext2_read_inode-InodeRead_example :
    Returns (InodeRead table fs geometry 2) (ext2_read_inode table fs geometry 2)
unfolding ext2_inode_at
ext2_read_inode-InodeRead_example =
    ext2_read_inode-InodeRead table fs geometry 2
      (record { answers = λ n. refl; grants = λ n. refl }) table-IsRegular refl
