-- ===== src/Paging/Sample.antt =====
-- An address space with no page mapped, for the tests: its root is at 0x1000, and the four frames
-- behind it are free.
use snap_os.Prelude.{ℕ, refl, false, [], ◌∷◌, arith, ◌==◌, if◌then◌else◌}
use snap_os.Paging.{Mmu, Prot}
use snap_os.Paging.Entries.{IsFlags}
use snap_os.Paging.Translate.{none_left, next, Tree, AtLeast, enough, one_more, IsTree, tree}

abbrev pub empty_space : Mmu
empty_space = record {
  tables = λ t i. 0;
  frames = 0x2000 ∷ 0x3000 ∷ 0x4000 ∷ 0x5000 ∷ [];
  flushed = [];
  cpu_has_1g_pages = false;
}

abbrev pub level : ℕ → ℕ
level t = if t == 0x1000 then 3 else 4

abbrev pub place : ℕ → ℕ
place t = 0

pub empty_space-Tree : Tree empty_space.tables 0x1000 level place
empty_space-Tree = record {
  root_level = refl;
  root_place = refl;
  child = λ t i k l le hi present on. absurd (ground arith);
}

pub empty_space-IsTree : IsTree empty_space 0x1000
empty_space-IsTree = tree level place empty_space-Tree (
    next 0x2000 refl (omega arith) refl (omega arith) (
      next 0x3000 refl (omega arith) refl (omega arith) (
        next 0x4000 refl (omega arith) refl (omega arith)
          (next 0x5000 refl (omega arith) refl (omega arith) none_left))))

pub three_frames : {frame : ℕ} → AtLeast 3 (frame ∷ 0x3000 ∷ 0x4000 ∷ [])
three_frames = one_more (one_more (one_more enough))

pub empty_space-AtLeast : AtLeast 3 empty_space.frames
empty_space-AtLeast = one_more (one_more (one_more enough))

abbrev pub user_prot : Prot
user_prot = record { prot_flags = 6; allow_overwrite = false }

pub user_prot-IsFlags : IsFlags user_prot.prot_flags
user_prot-IsFlags = record { no_address = refl; no_ps = refl }
