-- ===== src/Paging/Tests.antt =====
-- arch/x86_64/kernel/paging.c on an address space with no page mapped.
use snap_os.Prelude.{ℕ, ◌≡◌, refl, Option, some, none, arith, Exec, ok, panic, ◌>>=◌, Returns}
use snap_os.Paging.{Mmu, page_4k, mmu_map_one, mmu_map_range}
use snap_os.Paging.Translate.{page, is_clear, translate}
use snap_os.Paging.MapOne.{Mapped, mmu_map_one-Mapped}
use snap_os.Paging.Sample.{
  empty_space, empty_space-IsTree, empty_space-AtLeast, user_prot, user_prot-IsFlags,
}

abbrev reads : Exec Mmu → ℕ → Option ℕ
reads (ok m) w = translate m.tables 0x1000 w
reads _ w = none

-- Two pages at 0x400000, mapped to 0x7000: an address in the second, and one behind both.
two_pages :
    (reads (mmu_map_range empty_space 0x1000 0x400000 0x7000 0x2000 user_prot) 0x401234
      ≡ some 0x8234)
    × (reads (mmu_map_range empty_space 0x1000 0x400000 0x7000 0x2000 user_prot) 0x402000 ≡ none)
unfolding mmu_map_range translate page
two_pages = (refl, refl)

-- A page that is mapped already.
twice :
    (mmu_map_one empty_space 0x1000 0x400000 0x7000 page_4k user_prot >>= λ m.
    mmu_map_one m 0x1000 0x400000 0x8000 page_4k user_prot)
    ≡ panic
unfolding mmu_map_one
twice = refl

mmu_map_one-Mapped_example :
    Returns
      (Mapped empty_space 0x1000 0x400000 0x7000 page_4k)
      (mmu_map_one empty_space 0x1000 0x400000 0x7000 page_4k user_prot)
unfolding is_clear page
mmu_map_one-Mapped_example =
    mmu_map_one-Mapped empty_space 0x1000 0x400000 0x7000 page_4k user_prot (omega arith) refl
      user_prot-IsFlags empty_space-IsTree empty_space-AtLeast refl
