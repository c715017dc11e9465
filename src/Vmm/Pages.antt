-- ===== src/Vmm/Pages.antt =====
-- mm/vmm.c: what its operations leave in the page tables.
use snap_os.Prelude.{
  ℕ, ◌+◌, ◌-◌, ◌/◌, ◌%◌, ◌^◌, ◌≤◌, ◌<◌, ◌≡◌, ◌≢◌, refl, sym, ap, ◌∙◌, true, false, ◌==◌,
  if◌then◌else◌, List, [], ◌∷◌, some, arith, page_align_down, page_align_up, is_page_aligned,
  word64, enomem, ok, Returns, returns, Returns->>=,
}
use snap_os.Paging.{Mmu, Prot, page_4k, is_present, entry_paddr}
use snap_os.Paging.Entries.{IsFlags}
use snap_os.Paging.Translate.{
  page, ends_at, is_clear, translate, translate_from, next, Tree, AtLeast, IsTree, tree,
}
use snap_os.Paging.Translate.Agree.{Fresh-mono, same, translate_from-Agree, read_entry_below}
use snap_os.Paging.MapOne.{Mapped}
use snap_os.Paging.Range.{mmu_map_range-Mapped_page}
use snap_os.Vmm.{phys_to_virt, device_prot, ioremap, vmm_alloc_page, vmm_copy_kpgtbl}

-- IS_PAGE_ALIGNED of include/paging.h holds of every address.
aligned_always : (x : ℕ) → is_page_aligned x ≡ true
aligned_always x = ground arith

-- What vmm_alloc_page does: it maps the next frame, or there is none.
pub data PageAllocated (m : Mmu) (pgd vaddr : ℕ) : ℕ × Mmu → Type 0 where
  no_frame : m.frames ≡ [] → PageAllocated m pgd vaddr (enomem, m)
  allocated :
      {frame : ℕ} {rest : List ℕ} {m' : Mmu}
      → m.frames ≡ frame ∷ rest
      → Mapped m pgd vaddr frame page_4k m'
      → PageAllocated m pgd vaddr (0, m')

-- Enough frames for the page and the tables above it, or none at all.
pub data Stock : List ℕ → Type 0 where
  empty : Stock []
  stocked : {frame : ℕ} {rest : List ℕ} → AtLeast 3 rest → Stock (frame ∷ rest)

module _ (m : Mmu) (pgd vaddr : ℕ) (prot : Prot) (flags : IsFlags prot.prot_flags)
    (aligned : vaddr % 4096 ≡ 0)
    (clear : is_clear m.tables prot.allow_overwrite 3 pgd vaddr 0 ≡ true) where
  vmm_alloc_page_from :
      (frames : List ℕ)
      → IsTree (record m { frames = frames }) pgd
      → Stock frames
      → Returns
          (PageAllocated (record m { frames = frames }) pgd vaddr)
          (vmm_alloc_page (record m { frames = frames }) pgd vaddr prot)
  unfolding vmm_alloc_page
  vmm_alloc_page_from [] is empty = rw (aligned_always vaddr) (returns (no_frame refl))
  vmm_alloc_page_from (frame ∷ rest) (tree level place is (next _ free pos whole small fresh))
        (stocked left) =
      let nonzero : (frame == 0) ≡ false = ground arith in
      let is_rest : IsTree (record m { frames = rest }) pgd =
        tree level place is (Fresh-mono (λ f e. ground arith) fresh) in
      rw (aligned_always vaddr, aligned_always frame, nonzero)
        (Returns->>= (λ m2. ok (0, m2))
          (mmu_map_range-Mapped_page (record m { frames = rest }) pgd vaddr frame prot small flags
            is_rest left aligned whole clear)
          (λ m2 h. returns (
            allocated refl
              (record { is_tree = h.is_tree; inside = h.inside; outside = h.outside }))))

  -- vmm_alloc_page maps the next frame at a page that is free to be mapped, when at least four frames
  -- are left: that one, and three for the tables above it. When none is left it says ENOMEM and changes
  -- nothing. With one to three left, where a table may find none, nothing is said.
  pub vmm_alloc_page-PageAllocated :
      IsTree m pgd
      → Stock m.frames
      → Returns (PageAllocated m pgd vaddr) (vmm_alloc_page m pgd vaddr prot)
  vmm_alloc_page-PageAllocated is stock = vmm_alloc_page_from m.frames is stock

-- The flags of device memory.
device_prot-IsFlags : IsFlags device_prot.prot_flags
device_prot-IsFlags = record { no_address = refl; no_ps = refl }

-- What ioremap returns for registers that lie in one page: an address that the tables map to them,
-- while every other page is as it was.
pub record Remapped (m : Mmu) (kernel_pgd paddr : ℕ) (r : ℕ × Mmu) : Type 0 where
  pub here : translate r.1.tables kernel_pgd r.0 ≡ some paddr
  pub elsewhere :
      (w : ℕ)
      → w % 2 ^ 48 / 4096 ≢ r.0 % 2 ^ 48 / 4096
      → translate r.1.tables kernel_pgd w ≡ translate m.tables kernel_pgd w
  pub is_tree : IsTree r.1 kernel_pgd

module _ (m : Mmu) (kernel_pgd paddr size : ℕ) (fits : paddr < 2 ^ 52) (pos : 0 < size)
    (one_page : paddr % 4096 + size ≤ 4096) where
  one_page_long : page_align_up (word64 (size + (paddr - page_align_down paddr))) ≡ 4096
  one_page_long = omega arith

  same_page :
      phys_to_virt paddr % 2 ^ 48 / 4096 ≡ phys_to_virt (page_align_down paddr) % 2 ^ 48 / 4096
  same_page = omega arith

  -- ioremap of registers within one page, with three frames left and no large page on the way, returns
  -- an address that the tables map to `paddr`; every other page is as it was.
  pub ioremap-Remapped :
      IsTree m kernel_pgd
      → AtLeast 3 m.frames
      → is_clear m.tables true 3 kernel_pgd (phys_to_virt (page_align_down paddr)) 0 ≡ true
      → Returns (Remapped m kernel_pgd paddr) (ioremap m kernel_pgd paddr size)
  unfolding ioremap
  ioremap-Remapped is left clear = rw one_page_long (
      Returns->>= _
        (mmu_map_range-Mapped_page m kernel_pgd (phys_to_virt (page_align_down paddr))
          (page_align_down paddr) device_prot (omega arith) device_prot-IsFlags is left
          (omega arith) (omega arith) clear)
        (λ m1 h. returns (record {
          here = h.inside (phys_to_virt paddr) same_page ∙ ap some (omega arith);
          elsewhere = λ w ne. h.outside w (λ e. ne (e ∙ sym same_page));
          is_tree = h.is_tree;
        })))

page_root : (w : ℕ) → page 3 w / 512 ≡ 0
unfolding page
page_root w = omega arith

module _ {tables : ℕ → ℕ → ℕ} {pgd : ℕ} {level place : ℕ → ℕ} (is : Tree tables pgd level place)
    (tables' : ℕ → ℕ → ℕ) (copy : ℕ) (copied : (i : ℕ) → tables' copy i ≡ tables pgd i)
    (others : (a i : ℕ) → level a ≤ 3 → tables' a i ≡ tables a i) where
  translate-copy : (w : ℕ) → translate tables' copy w ≡ translate tables pgd w
  unfolding translate translate_from
  translate-copy w =
      let e : tables' copy (page 3 w % 512) ≡ tables pgd (page 3 w % 512) =
        copied (page 3 w % 512) in
      rw e (read_entry_below 3 (tables pgd (page 3 w % 512)) w (λ present on. below present on))
    where
      below :
          is_present (tables pgd (page 3 w % 512)) ≡ true
          → ends_at 3 (tables pgd (page 3 w % 512)) ≡ false
          → translate_from tables' 2 (entry_paddr (tables pgd (page 3 w % 512))) w
            ≡ translate_from tables 2 (entry_paddr (tables pgd (page 3 w % 512))) w
      below present on =
          let (l, p) =
            is.child pgd (page 3 w % 512) 2 is.root_level (omega arith) (omega arith) present on in
          translate_from-Agree is tables' w (λ k a la le pa. same (others a _ (omega (arith, la))))
            2 _ l (omega arith) (p ∙ omega (arith, is.root_place, page_root w))

-- A copy of the kernel's table, in a page that no table uses, maps what the kernel maps.
pub translate-vmm_copy_kpgtbl :
    (m : Mmu) (kernel_pgd copy : ℕ) {level place : ℕ → ℕ}
    → Tree m.tables kernel_pgd level place
    → level copy ≡ 4
    → 0 < copy
    → (w : ℕ)
    → translate (vmm_copy_kpgtbl m kernel_pgd copy).1.tables copy w
      ≡ translate m.tables kernel_pgd w
unfolding vmm_copy_kpgtbl
translate-vmm_copy_kpgtbl m kernel_pgd copy {level} is free pos w =
    let nonzero : (copy == 0) ≡ false = ground arith in
    rw nonzero (
      translate-copy is (λ t i. if t == copy then m.tables kernel_pgd i else m.tables t i) copy
        (λ i. ground arith)
        (λ a i le. let other : a ≡ copy → level a ≡ level copy = ap level in ground (arith, other))
        w)
