-- ===== src/Vfs.antt =====
-- fs/vfs.c: names and paths, directory entries, and open files. The functions of a file system, which
-- are reached through pointers, are parameters.
pub mod Path
pub mod File
pub mod Seek
pub mod Mount
pub mod Cache
mod Tests
use snap_os.Prelude.{
  ℕ, zero, suc, ◌+◌, ◌-◌, ◌*◌, ◌/◌, ◌%◌, ◌^◌, Bool, true, false, not, ◌&&◌, ◌||◌, ltb, leb, ◌==◌,
  if◌then◌else◌, Option, some, none, min, word32, word64, enomem, einval, ebadf, enotdir, write,
  Ssize, count, error, Exec, ok, fault, out_of_fuel, ◌>>=◌,
}
use snap_os.Strings.{is_zero, memcmp, from}

abbrev pub s_isreg : ℕ → Bool
s_isreg m = m / 2 ^ 12 % 16 == 8

abbrev pub s_isdir : ℕ → Bool
s_isdir m = m / 2 ^ 12 % 16 == 4

-- A `char` is signed: from 128 on it is negative, and wraps in the sum.
abbrev pub char_of : ℕ → ℕ
char_of c = if ltb c 128 then c else c + 2 ^ 32 - 256

-- The loop of vfs_hash_name, with `k` characters left.
unfoldable pub hash_loop : (k i hash : ℕ) → (str : ℕ → ℕ) → ℕ
hash_loop zero i hash str = hash
hash_loop (suc k) i hash str =
    hash_loop k (i + 1) (word32 (word32 (hash * 2 ^ 5) + hash + char_of (str i))) str

unfoldable pub vfs_hash_name : (str : ℕ → ℕ) → (len : ℕ) → ℕ
unfolding hash_loop
vfs_hash_name str len = hash_loop len 0 5381 str

-- struct qstr
pub record Qstr : Type 0 where
  pub str : ℕ → ℕ
  pub len : ℕ
  pub hash : ℕ

-- A read or write function of an open file: the buffer, the number of bytes, and the position. It
-- gives its result and the new position.
abbrev pub Io : Type 0
Io = (buf count pos : ℕ) → Ssize × ℕ

-- struct file_operations
pub record FileOperations : Type 0 where
  pub read : Option Io
  pub write : Option Io

-- struct inode: its number, mode, size, and the functions of its files (none: NULL).
pub record Inode : Type 0 where
  pub ino : ℕ
  pub size : ℕ
  pub mode : ℕ
  pub fops : Option FileOperations

-- struct dentry: pointers are numbers, 0 is NULL.
pub record Dentry : Type 0 where
  pub name : Qstr
  pub inode : Inode
  pub parent : ℕ
  pub first_child : ℕ
  pub next_sibling : ℕ

-- The entries by their pointers, the pointer that the next d_alloc returns (0: no memory for it or its name), and the
-- ones after it. `lookup` is `iops->lookup` for the inode of a directory and the
-- child: it gives 0 or an error, and the entries as it leaves them.
pub record Vfs : Type 0 where
  pub dentries : ℕ → Dentry
  pub vfs_root : ℕ
  pub next_dentry : ℕ → ℕ
  pub allocs : ℕ
  pub lookup : Inode → (child : ℕ) → (ℕ → Dentry) → ℕ × (ℕ → Dentry)

-- A directory entry or an error, as ERR_PTR makes it.
pub data DentryPtr : Type 0 where
  dentry_ptr : ℕ → DentryPtr
  dentry_err : ℕ → DentryPtr

-- The copy of a name that d_alloc makes, with a zero behind it.
abbrev pub copy_of : Qstr → Qstr
copy_of q = record { str = λ j. if ltb j q.len then q.str j else 0; len = q.len; hash = q.hash }

-- d_alloc, for the name and the parent; the inode is set later.
unfoldable pub d_alloc : Vfs → (parent : ℕ) → Qstr → DentryPtr × Vfs
d_alloc v parent name =
    let d = v.next_dentry v.allocs in
    let old = v.dentries d in
    let fresh : Dentry = record {
      name = copy_of name;
      inode = old.inode;
      parent = parent;
      first_child = 0;
      next_sibling = 0;
    } in
    let next = record v { allocs = v.allocs + 1 } in
    if d == 0
    then (dentry_err enomem, next)
    else (dentry_ptr d, record next { dentries = write v.dentries d fresh })

-- d_add: the child gets its inode, and is put in front of the other children.
unfoldable pub d_add : (ℕ → Dentry) → (child : ℕ) → Inode → ℕ → Dentry
d_add dentries child inode =
    let with_inode = record (dentries child) { inode = inode } in
    let parent = with_inode.parent in
    let linked = record with_inode { next_sibling = (dentries parent).first_child } in
    let first = write dentries child linked in
    let both = write first parent (record (first parent) { first_child = child }) in
    if parent == 0 then write dentries child with_inode else both

abbrev pub same_name : Qstr → Qstr → Bool
same_name a b = a.hash == b.hash && a.len == b.len && is_zero (memcmp a.str b.str b.len)

-- The loop over the children, with `fuel` rounds: the child, or 0.
unfoldable pub find_child : (fuel cur : ℕ) → Vfs → Qstr → Exec ℕ
find_child zero cur v name = out_of_fuel
find_child (suc fuel) cur v name =
    let next = find_child fuel (v.dentries cur).next_sibling v name in
    if cur == 0 then ok 0 else if same_name (v.dentries cur).name name then ok cur else next

-- What vfs_lookup_direct does with the entry that d_alloc returned: the file system looks the child up,
-- and on an error the child is freed.
unfoldable pub attach : Vfs → (parent : ℕ) → DentryPtr × Vfs → DentryPtr × Vfs
attach v parent (dentry_err x, v1) = (dentry_err x, v1)
attach v parent (dentry_ptr d, v1) =
    let (res, dentries) = v.lookup (v1.dentries parent).inode d v1.dentries in
    let looked_up = record v1 { dentries = dentries } in
    if res == 0 then (dentry_ptr d, looked_up) else (dentry_err res, looked_up)

-- The part of vfs_lookup_direct for a name that no child has.
unfoldable pub lookup_new : Vfs → (parent : ℕ) → Qstr → DentryPtr × Vfs
unfolding d_alloc attach
lookup_new v parent name = attach v parent (d_alloc v parent name)

unfoldable pub vfs_lookup_direct : (fuel : ℕ) → Vfs → (parent : ℕ) → Qstr → Exec (DentryPtr × Vfs)
unfolding find_child lookup_new
vfs_lookup_direct fuel v parent name =
    find_child fuel (v.dentries parent).first_child v name >>= λ cur.
    if cur == 0 then ok (lookup_new v parent name) else ok (dentry_ptr cur, v)

abbrev pub slash : ℕ
slash = 47

-- `while (*path == '/') path++`
unfoldable pub skip_slashes : (fuel i : ℕ) → (path : ℕ → ℕ) → Exec ℕ
skip_slashes zero i path = out_of_fuel
skip_slashes (suc fuel) i path =
    let next = skip_slashes fuel (i + 1) path in if path i == slash then next else ok i

-- `while (*delim && *delim != '/') delim++`
unfoldable pub find_delim : (fuel i : ℕ) → (path : ℕ → ℕ) → Exec ℕ
find_delim zero i path = out_of_fuel
find_delim (suc fuel) i path =
    let next = find_delim fuel (i + 1) path in if path i == 0 || path i == slash then ok i else next

-- The name from `i` up to `delim`.
abbrev pub token_of : (path : ℕ → ℕ) → (i delim : ℕ) → Qstr
token_of path i delim = record {
  str = from path i;
  len = delim - i;
  hash = vfs_hash_name (from path i) (delim - i);
}

-- The loop of vfs_lookup. `len` bounds the loops over the path, and `fuel` the one over children.
unfoldable pub path_loop :
    (rounds len fuel i : ℕ) → (path : ℕ → ℕ) → Vfs → (cur : ℕ) → Exec (DentryPtr × Vfs)
path_loop zero len fuel i path v cur = if path i == 0 then ok (dentry_ptr cur, v) else out_of_fuel
path_loop (suc rounds) len fuel i path v cur =
    let walked = find_delim len i path >>= λ delim.
    vfs_lookup_direct fuel v cur (token_of path i delim) >>= λ (child, v1).
    let on : ℕ → Exec (DentryPtr × Vfs) =
      λ d. skip_slashes len delim path >>= λ j. path_loop rounds len fuel j path v1 d in
    elim child [ dentry_err x ↦ ok (dentry_err x, v1) | dentry_ptr d ↦ on d ] in
    if path i == 0
    then ok (dentry_ptr cur, v)
    else if s_isdir (v.dentries cur).inode.mode
    then walked
    else ok (dentry_err enotdir, v)

unfoldable pub vfs_lookup : (len fuel : ℕ) → (path : ℕ → ℕ) → Vfs → Exec (DentryPtr × Vfs)
vfs_lookup len fuel path v =
    skip_slashes len 0 path >>= λ i. path_loop len len fuel i path v v.vfs_root
