-- ===== src/Ext2/Dir.antt =====
-- fs/ext2/dir.c: the search for a name in a directory.
pub mod Search
mod Tests
use snap_os.Prelude.{
  ℕ, zero, suc, ◌+◌, ◌-◌, ◌*◌, ◌/◌, ◌%◌, ◌^◌, Bool, true, false, not, ltb, leb, ◌==◌, if◌then◌else◌,
  Option, some, none, word8, word32, enomem, enoent, euclean, Exec, ok, fault, out_of_fuel,
  in_bounds, ◌>>=◌, ◌>>◌,
}
use snap_os.Strings.{is_zero, ℤ, pos, negsuc, memcmp}
use snap_os.Ext2.{Env, alloc, free, bdev_read, Geometry, InodeInfo, ext2_init_singly, le16, le32}
use snap_os.Ext2.Inode.{FsInfo, Inode, InodePtr, inode_ptr, err_ptr, ext2_read_inode}

-- The fields of the struct ext2_dir_entry at a place of a block.
abbrev pub entry_inode : (ℕ → ℕ) → ℕ → ℕ
entry_inode buf ptr = le32 buf ptr

abbrev pub entry_size : (ℕ → ℕ) → ℕ → ℕ
entry_size buf ptr = le16 buf (ptr + 4)

abbrev pub name_len_lower : (ℕ → ℕ) → ℕ → ℕ
name_len_lower buf ptr = buf (ptr + 6)

abbrev pub entry_name : (ℕ → ℕ) → ℕ → ℕ → ℕ
entry_name buf ptr i = buf (ptr + 8 + i)

-- A pointer to an entry, NULL, or ERR_PTR(-EUCLEAN).
pub data Searched : Type 0 where
  found : ℕ → Searched
  absent : Searched
  corrupt : Searched

-- The loop, with `fuel` rounds: an access behind the block is a fault.
unfoldable pub search_loop :
    (fuel ptr : ℕ)
    → (buf : ℕ → ℕ) → (block_size : ℕ) → (name : ℕ → ℕ) → (name_len : ℕ) → Exec Searched
search_loop zero ptr buf block_size name name_len =
    if ltb ptr block_size then out_of_fuel else ok absent
search_loop (suc fuel) ptr buf block_size name name_len =
    let next = search_loop fuel (ptr + entry_size buf ptr) buf block_size name name_len in
    let compared =
      in_bounds (leb (ptr + 8 + name_len) block_size)
      >> (if is_zero (memcmp (entry_name buf ptr) name name_len) then ok (found ptr) else next) in
    let used =
      in_bounds (leb (ptr + 7) block_size)
      >> (if name_len_lower buf ptr == name_len then compared else next) in
    let sized = if entry_inode buf ptr == 0 then next else used in
    let entry =
      in_bounds (leb (ptr + 6) block_size)
      >> (if entry_size buf ptr == 0 then ok corrupt else sized) in
    if ltb ptr block_size then entry else ok absent

-- A round goes on by at least one byte.
unfoldable pub search_dir_block :
    (buf : ℕ → ℕ) → (block_size : ℕ) → (name : ℕ → ℕ) → (name_len : ℕ) → Exec Searched
unfolding search_loop
search_dir_block buf block_size name name_len =
    search_loop block_size 0 buf block_size name name_len

-- What ext2_lookup leaves: the error or 0, the inode that the child gets, the directory's data.
pub record Lookup : Type 0 where
  pub status : ℕ
  pub child : Option Inode
  pub dir : InodeInfo
  pub env : Env

-- The end of ext2_lookup, with the number of the inode in the entry that was found.
unfoldable pub lookup_inode : Env → FsInfo → Geometry → InodeInfo → (ino : ℕ) → Exec Lookup
lookup_inode e info sb dir ino = ext2_read_inode e info sb ino >>= λ (inode, e1).
    let result : Lookup = elim inode [
      | err_ptr x ↦ record { status = x; child = none; dir = dir; env = free e1 }
      | inode_ptr i ↦ record { status = 0; child = some i; dir = dir; env = free e1 }
    ] in
    ok result

-- The block of round `i`: an error, or 0 with its number.
unfoldable pub dir_block : Env → Geometry → InodeInfo → (i : ℕ) → Exec (ℕ × ℕ × InodeInfo × Env)
unfolding ext2_init_singly
dir_block e sb dir i =
    let (status, dir1, e1) = ext2_init_singly e sb dir in
    let indirect : Exec (ℕ × ℕ × InodeInfo × Env) = elim dir1.singly_table [
      | none ↦ fault
      | some table ↦ ok (0, table (i - 12), dir1, e1)
    ] in
    if ltb i 12
    then ok (0, dir.inode.direct_ptrs i, dir, e)
    else if status == 0
    then indirect
    else ok (status, 0, dir1, e1)

-- The loop over the blocks of the directory, with `k` rounds left.
unfoldable pub lookup_loop :
    (k i : ℕ) → Env → FsInfo → Geometry → InodeInfo → (name : ℕ → ℕ) → (len : ℕ) → Exec Lookup
lookup_loop zero i e info sb dir name len =
    ok (record { status = enoent; child = none; dir = dir; env = free e })
lookup_loop (suc k) i e info sb dir name len = dir_block e sb dir i >>= λ (status, addr, dir1, e1).
    let lba = word32 (addr * sb.sectors_per_block) in
    let (error, buf, e2) = bdev_read e1 lba (λ j. 0) in
    let next = lookup_loop k (i + 1) e2 info sb dir1 name len in
    let failed : ℕ → Env → Exec Lookup =
      λ n e. ok (record { status = n; child = none; dir = dir1; env = free e }) in
    let searched = search_dir_block buf sb.block_size name (word8 len) >>= λ entry. elim entry [
      | corrupt ↦ failed euclean e2
      | absent ↦ next
      | found ptr ↦ lookup_inode e2 info sb dir1 (entry_inode buf ptr)
    ] in
    if not (status == 0)
    then failed status e1
    else if addr == 0
    then failed enoent e1
    else if error == 0
    then searched
    else failed error e2

unfoldable pub ext2_lookup :
    Env → FsInfo → Geometry → InodeInfo → (name : ℕ → ℕ) → (len : ℕ) → Exec Lookup
unfolding lookup_loop
ext2_lookup e info sb dir name len =
    let (got, e1) = alloc e in
    let refused : Exec Lookup =
      ok (record { status = enomem; child = none; dir = dir; env = e1 }) in
    if got then lookup_loop (12 + sb.block_size / 4) 0 e1 info sb dir name len else refused
