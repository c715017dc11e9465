-- ===== src/Ext2/Super/Tests.antt =====
-- fs/ext2/super.c on a device of zeros, and on one that fails.
use snap_os.Prelude.{ℕ, ◌+◌, ◌≡◌, inr, refl, arith, Exec, ok, fault, Returns, ◌==◌, if◌then◌else◌}
use snap_os.Ext2.{Env, alloc, free, bdev_read}
use snap_os.Ext2.Super.{
  ext2_probe, exit_err, free_bgd_table, ext2_mount, ext2_read_superblock, superblock_of,
}
use snap_os.Ext2.Super.Probe.{superblock_on, Probed, ext2_probe-Probed}
use snap_os.Ext2.Super.Mount.{Failed, ext2_mount-Failed}
use snap_os.Ext2.Sample.{device}

-- A signature and a version, and blocks of `1024 << 22` bytes, which 32 bits cut to none.
abbrev no_block : ℕ → ℕ
no_block a =
    if a == 1024 + 56
    then 0x53
    else if a == 1024 + 57
    then 0xEF
    else if a == 1024 + 76
    then 1
    else if a == 1024 + 24
    then 22
    else 0

abbrev code : Exec (ℕ × Env) → ℕ
code (ok (n, e)) = n
code _ = 99

-- It is accepted.
no_block_accepted : code (ext2_probe (record device { bytes = no_block })) ≡ 0
unfolding ext2_probe ext2_read_superblock alloc free bdev_read superblock_of
no_block_accepted = refl

ext2_probe-Probed_example : Returns (Probed device) (ext2_probe device)
ext2_probe-Probed_example = ext2_probe-Probed device (omega arith)

-- The second read fails, that of the table of block groups.
abbrev bad_table : Env
bad_table = record device { replies = λ n. if n == 1 then 5 else 0 }

ext2_mount-Failed_example : Failed 8 bad_table (ext2_mount 8 bad_table)
unfolding superblock_on superblock_of
ext2_mount-Failed_example =
    ext2_mount-Failed 8 bad_table (omega arith) (omega arith) (omega arith) refl refl
      (inr (inr (inr refl)))

-- A left over pointer is freed.
dangles : ext2_mount 8 (record device { replies = λ n. 5 }) ≡ fault
unfolding ext2_mount alloc ext2_read_superblock bdev_read exit_err free_bgd_table free
dangles = refl
