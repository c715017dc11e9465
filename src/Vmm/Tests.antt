-- ===== src/Vmm/Tests.antt =====
-- mm/vmm.c on an address space with no page mapped.
use snap_os.Prelude.{◌≡◌, refl, arith, Returns}
use snap_os.Paging.Translate.{page, is_clear, translate, one_more, enough}
use snap_os.Paging.Sample.{
  empty_space, empty_space-Tree, empty_space-IsTree, user_prot, user_prot-IsFlags,
}
use snap_os.Vmm.{vmm_alloc_page, vmm_copy_kpgtbl}
use snap_os.Vmm.Pages.{
  PageAllocated, stocked, vmm_alloc_page-PageAllocated, translate-vmm_copy_kpgtbl,
}

vmm_alloc_page-PageAllocated_example :
    Returns
      (PageAllocated empty_space 0x1000 0x400000)
      (vmm_alloc_page empty_space 0x1000 0x400000 user_prot)
unfolding is_clear page
vmm_alloc_page-PageAllocated_example =
    vmm_alloc_page-PageAllocated empty_space 0x1000 0x400000 user_prot user_prot-IsFlags refl refl
      empty_space-IsTree (stocked (one_more (one_more (one_more enough))))

translate-vmm_copy_kpgtbl_example :
    translate (vmm_copy_kpgtbl empty_space 0x1000 0x9000).1.tables 0x9000 0x400000
    ≡ translate empty_space.tables 0x1000 0x400000
translate-vmm_copy_kpgtbl_example =
    translate-vmm_copy_kpgtbl empty_space 0x1000 0x9000 empty_space-Tree refl (omega arith) 0x400000
