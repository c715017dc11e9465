-- ===== src/Vfs/Mount.antt =====
-- fs/vfs.c: partitions are found on every device, and the first file system that mounts is the root.
use snap_os.Prelude.{
  ℕ, ◌+◌, ◌==◌, if◌then◌else◌, Option, none, some, List, [], ◌∷◌, enoent, Ssize, count, error,
}

-- struct fs_driver: its functions (none: NULL) by what they return for a device, the mount by the root
-- of the superblock, or none for an error.
pub record FsDriver : Type 0 where
  pub probe : Option (ℕ → ℕ)
  pub mount : Option (ℕ → Option ℕ)

-- One driver on one device: the root, if it is mounted.
unfoldable pub try_driver : FsDriver → (bdev : ℕ) → Option ℕ
try_driver driver bdev = elim driver.probe [
  | none ↦ none
  | some probe ↦ elim driver.mount [
    | none ↦ none
    | some mount ↦ if probe bdev == 0 then mount bdev else none
  ]
]

-- The inner loop of vfs_mount_root.
unfoldable pub try_drivers : List FsDriver → (bdev : ℕ) → Option ℕ
unfolding try_driver
try_drivers [] bdev = none
try_drivers (driver ∷ drivers) bdev = elim (try_driver driver bdev) [
  | some root ↦ some root
  | none ↦ try_drivers drivers bdev
]

-- vfs_mount_root: the result, and the new vfs_root.
unfoldable pub vfs_mount_root : List FsDriver → (bdevs : List ℕ) → (vfs_root : ℕ) → ℕ × ℕ
unfolding try_drivers
vfs_mount_root drivers [] vfs_root = (enoent, vfs_root)
vfs_mount_root drivers (bdev ∷ bdevs) vfs_root = elim (try_drivers drivers bdev) [
  | some root ↦ (0, root)
  | none ↦ vfs_mount_root drivers bdevs vfs_root
]

-- vfs_scan_partitions, with what partition_scan returns for a device.
unfoldable pub scan_devices : (partition_scan : ℕ → Ssize) → (bdevs : List ℕ) → (found : ℕ) → Ssize
scan_devices partition_scan [] found = count found
scan_devices partition_scan (bdev ∷ bdevs) found = elim (partition_scan bdev) [
  | error x ↦ error x
  | count n ↦ scan_devices partition_scan bdevs (found + n)
]
