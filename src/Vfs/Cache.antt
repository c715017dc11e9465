-- ===== src/Vfs/Cache.antt =====
-- fs/vfs.c: what vfs_lookup_direct leaves among the children of a directory, by what the lookup of the
-- file system does.
use snap_os.Prelude.{if◌then◌else◌, write, Bool, ℕ, suc, ◌≡◌, ◌≢◌, true, false, ◌⊎◌, ok}
use snap_os.Vfs.{
  copy_of, Qstr, Inode, Dentry, Vfs, DentryPtr, dentry_ptr, dentry_err, d_add, find_child,
  vfs_lookup_direct,
}

-- What the lookup of a file system does: it finds the child and calls d_add, as ext2_lookup does
-- (`links` is true), or it finds it and only sets its inode, as include/vfs.h describes (`links` is
-- false); or it returns an error and attaches nothing.
pub data Answered (links : Bool) (dentries : ℕ → Dentry) (child : ℕ)
    : ℕ × (ℕ → Dentry) → Type 0 where
  answer :
      (inode : Inode)
      → Answered links dentries child (
        0,
        if links
            then d_add dentries child inode
            else write dentries child (record (dentries child) { inode = inode }),
      )
  missed : {res : ℕ} → res ≢ 0 → Answered links dentries child (res, dentries)

abbrev pub Answers : Bool → Vfs → Type 0
Answers links v =
    (dir : Inode) (child : ℕ) (dentries : ℕ → Dentry)
    → Answered links dentries child (v.lookup dir child dentries)

-- What a lookup gives. A child with the name: that one, with nothing changed. Else a new entry, which a
-- second lookup gives again with nothing changed, if the file system links it; if it does not, the new
-- entry is not among the children. Or an error, when there is no memory or the file system says so.
pub data Looked (links : Bool) (fuel : ℕ) (v : Vfs) (parent : ℕ) (name : Qstr)
    : DentryPtr × Vfs → Type 0 where
  known :
      {d : ℕ}
      → d ≢ 0
      → find_child fuel (v.dentries parent).first_child v name ≡ ok d
      → Looked links fuel v parent name (dentry_ptr d, v)
  again :
      {d : ℕ} {v1 : Vfs}
      → links ≡ true
      → find_child fuel (v.dentries parent).first_child v name ≡ ok 0
      → vfs_lookup_direct fuel v1 parent name ≡ ok (dentry_ptr d, v1)
      → Looked links fuel v parent name (dentry_ptr d, v1)
  forgotten :
      {d : ℕ} {v1 : Vfs}
      → links ≡ false
      → d ≢ 0
      → find_child fuel (v.dentries parent).first_child v name ≡ ok 0
      → find_child fuel (v1.dentries parent).first_child v1 name ≡ ok 0
      → Looked links fuel v parent name (dentry_ptr d, v1)
  absent :
      {x : ℕ} {v1 : Vfs}
      → find_child fuel (v.dentries parent).first_child v name ≡ ok 0
      → (v.next_dentry v.allocs ≡ 0) ⊎ (x ≢ 0)
      → find_child fuel (v1.dentries parent).first_child v1 name ≡ ok 0
      → Looked links fuel v parent name (dentry_err x, v1)

pointer_of : DentryPtr → ℕ
pointer_of (dentry_ptr d) = d
pointer_of (dentry_err x) = 0

-- The children of an entry end after `n` of them, and the entry that comes next is not among them.
pub data Siblings (v : Vfs) : ℕ → ℕ → Type 0 where
  no_more : Siblings v 0 0
  sibling :
      {cur n : ℕ}
      → cur ≢ 0
      → cur ≢ v.next_dentry v.allocs
      → Siblings v (v.dentries cur).next_sibling n
      → Siblings v cur (suc n)

module _ (links : Bool) (fuel : ℕ) (v : Vfs) (parent : ℕ) (name : Qstr) (some_parent : parent ≢ 0)
    (fresh : v.next_dentry v.allocs ≢ parent) where
  abbrev d : ℕ
  d = v.next_dentry v.allocs

  -- What d_alloc gives.
  record Allocated (c : ℕ) (v1 : Vfs) : Type 0 where
    some_memory : c ≢ 0
    is_next : c ≡ d
    parent_set : (v1.dentries c).parent ≡ parent
    named : (v1.dentries c).name ≡ copy_of name
    others : (a : ℕ) → a ≢ d → v1.dentries a ≡ v.dentries a
