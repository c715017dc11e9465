-- ===== src/Vfs/File.antt =====
-- fs/vfs.c: open files, and the system calls that read and write them.
use snap_os.Prelude.{
  ℕ, ◌+◌, ◌-◌, ◌^◌, Bool, not, ltb, leb, ◌==◌, if◌then◌else◌, Option, some, none, min, word32,
  word64, enomem, einval, ebadf, enotdir, write, Ssize, count, error, Exec, ok, fault, ◌>>=◌,
}
use snap_os.Vfs.{
  Inode, Vfs, FileOperations, Io, DentryPtr, dentry_ptr, dentry_err, s_isreg, vfs_lookup,
}

-- struct file: the inode of its entry, and the rest.
pub record File : Type 0 where
  pub inode : Inode
  pub pos : ℕ
  pub ref_count : ℕ
  pub fops : Option FileOperations

-- An open file or an error.
pub data FilePtr : Type 0 where
  file_ptr : File → FilePtr
  file_err : ℕ → FilePtr

-- What vfs_open does with the entry; `room` says whether there is memory for the file.
unfoldable pub open_entry : (room : Bool) → DentryPtr × Vfs → FilePtr × Vfs
open_entry room (dentry_err x, v) = (file_err x, v)
open_entry room (dentry_ptr d, v) =
    let inode = (v.dentries d).inode in
    if not (s_isreg inode.mode)
    then (file_err enotdir, v)
    else if not room
    then (file_err enomem, v)
    else (file_ptr (record { inode = inode; pos = 0; ref_count = 1; fops = inode.fops }), v)

unfoldable pub vfs_open :
    (len fuel : ℕ) → (room : Bool) → (path : ℕ → ℕ) → Vfs → Exec (FilePtr × Vfs)
unfolding vfs_lookup open_entry
vfs_open len fuel room path v = vfs_lookup len fuel path v >>= λ r. ok (open_entry room r)

abbrev pub ssize_max : ℕ
ssize_max = 2 ^ 63 - 1

-- A call of a function of the file, at its position.
unfoldable pub run_io : Io → File → (buf n : ℕ) → Ssize × File
run_io io f buf n = let (res, pos) = io buf (min n ssize_max) f.pos in (res, record f { pos = pos })

abbrev pub read_of : Option FileOperations → Option Io
read_of ops = elim ops [ none ↦ none | some o ↦ o.read ]

abbrev pub write_of : Option FileOperations → Option Io
write_of ops = elim ops [ none ↦ none | some o ↦ o.write ]

-- vfs_read: it does not ask whether there is a function to call.
unfoldable pub vfs_read : File → (buf n : ℕ) → Exec (Ssize × File)
unfolding run_io
vfs_read f buf n =
    let call : Exec (Ssize × File) = elim (read_of f.fops) [
      | none ↦ fault
      | some io ↦ ok (run_io io f buf n)
    ] in
    if not (s_isreg f.inode.mode)
    then ok (error einval, f)
    else if f.ref_count == 0
    then ok (error einval, f)
    else call

-- vfs_close: the result, and the file if it is still there. The argument none is NULL.
unfoldable pub vfs_close : Option File → ℕ × Option File
vfs_close none = (einval, none)
vfs_close (some f) =
    let left = word32 (f.ref_count + 2 ^ 32 - 1) in
    if left == 0 then (0, none) else (0, some (record f { ref_count = left }))

-- The order of 64-bit words as signed numbers.
abbrev pub less_signed : ℕ → ℕ → Bool
less_signed a b = ltb (word64 (a + 2 ^ 63)) (word64 (b + 2 ^ 63))

-- The end of vfs_seek, for the new position.
unfoldable pub seek_to : File → (new_pos : ℕ) → Ssize × File
seek_to f new_pos =
    let p = if less_signed f.inode.size new_pos then f.inode.size else new_pos in
    if less_signed new_pos 0 then (error einval, f) else (count p, record f { pos = p })

-- vfs_seek. The offset is a 64-bit word.
unfoldable pub vfs_seek : File → (offset whence : ℕ) → Ssize × File
unfolding seek_to
vfs_seek f offset whence =
    if not (s_isreg f.inode.mode)
    then (error einval, f)
    else if whence == 0
    then seek_to f offset
    else if whence == 1
    then seek_to f (word64 (f.pos + offset))
    else (error einval, f)

abbrev pub open_file_table_count : ℕ
open_file_table_count = 16

-- The files by their pointers, and the pointers that the running task has open (0: NULL).
pub record Files : Type 0 where
  pub files : ℕ → File
  pub fd : ℕ → ℕ

-- A function of the file behind `fd`, for sys_read and sys_write.
unfoldable pub sys_io : (Option FileOperations → Option Io) → Files → (fd buf n : ℕ) → Ssize × Files
unfolding run_io
sys_io of t fd buf n =
    let p = t.fd fd in
    let f = t.files p in
    let run : Io → Ssize × Files =
      λ io. let (res, f1) = run_io io f buf n in (res, record t { files = write t.files p f1 }) in
    let call : Ssize × Files = elim (of f.fops) [ none ↦ (error ebadf, t) | some io ↦ run io ] in
    if leb open_file_table_count fd
    then (error ebadf, t)
    else if p == 0
    then (error ebadf, t)
    else call

unfoldable pub sys_read : Files → (fd buf n : ℕ) → Ssize × Files
unfolding sys_io
sys_read t fd buf n = sys_io read_of t fd buf n

unfoldable pub sys_write : Files → (fd buf n : ℕ) → Ssize × Files
unfolding sys_io
sys_write t fd buf n = sys_io write_of t fd buf n
