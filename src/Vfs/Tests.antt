-- ===== src/Vfs/Tests.antt =====
-- fs/vfs.c on a root directory, 1, in which the file system knows every name, with an entry per
-- lookup from 2 on, and on an open file of 10 bytes at position 4.
use snap_os.Prelude.{
  ℕ, ◌+◌, ◌-◌, ◌*◌, ◌^◌, ◌≡◌, refl, arith, none, if◌then◌else◌, ◌==◌, count, error, einval,
}
use snap_os.Strings.Compare.{IsString}
use snap_os.Vfs.{Qstr, Inode, Dentry, Vfs, d_add, vfs_hash_name, vfs_lookup}
use snap_os.Vfs.File.{File, vfs_seek}
use snap_os.Vfs.Path.{words, walk, vfs_lookup-walk}
use snap_os.Vfs.Seek.{Seeked, vfs_seek-Seeked}

abbrev directory : Inode
directory = record { ino = 2; size = 0; mode = 4 * 2 ^ 12; fops = none }

abbrev plain : Inode
plain = record { ino = 5; size = 10; mode = 8 * 2 ^ 12; fops = none }

abbrev name_ab : Qstr
name_ab = record { str = λ i. 97 + i; len = 2; hash = 5863208 }

abbrev root_dir : Dentry
root_dir = record {
  name = name_ab;
  inode = directory;
  parent = 0;
  first_child = 0;
  next_sibling = 0;
}

abbrev mounted : Vfs
mounted = record {
  dentries = λ d. root_dir;
  vfs_root = 1;
  next_dentry = λ k. k + 2;
  allocs = 0;
  lookup =
      λ dir child ds. (0, d_add ds child (if (ds child).name.len == 1 then directory else plain));
}

-- The path "/a//bb".
abbrev path_a_bb : ℕ → ℕ
path_a_bb i =
    if i == 0
    then 47
    else if i == 1
    then 97
    else if i == 2
    then 47
    else if i == 3
    then 47
    else if i == 4
    then 98
    else if i == 5
    then 98
    else 0

path_a_bb-IsString : IsString path_a_bb 6
path_a_bb-IsString = record { ends = refl; chars = λ i lt. ground arith }

abbrev open_file : File
open_file = record { inode = plain; pos = 4; ref_count = 1; fops = none }

hash_ab : vfs_hash_name name_ab.str 2 ≡ name_ab.hash
unfolding vfs_hash_name
hash_ab = refl

vfs_lookup-walk_example :
    vfs_lookup 7 3 path_a_bb mounted ≡ walk 3 path_a_bb (words 6 0 none path_a_bb) mounted 1
vfs_lookup-walk_example = vfs_lookup-walk path_a_bb 6 path_a_bb-IsString 3 mounted

-- Three bytes back from position 4.
vfs_seek-Seeked_example : Seeked open_file (2 ^ 64 - 3) 1 (vfs_seek open_file (2 ^ 64 - 3) 1)
vfs_seek-Seeked_example =
    vfs_seek-Seeked open_file (2 ^ 64 - 3) 1 refl (omega arith) (omega arith) (omega arith)

seek_back : vfs_seek open_file (2 ^ 64 - 3) 1 ≡ (count 1, record open_file { pos = 1 })
unfolding vfs_seek
seek_back = refl

seek_before_start : vfs_seek open_file (2 ^ 64 - 5) 1 ≡ (error einval, open_file)
unfolding vfs_seek
seek_before_start = refl

seek_past_end : vfs_seek open_file 11 0 ≡ (count 10, record open_file { pos = 10 })
unfolding vfs_seek
seek_past_end = refl
