-- ===== src/Paging/Ends.antt =====
-- mmu_map_range: it ends.
use snap_os.Prelude.{ℕ, ◌%◌, ◌≤◌, ◌<◌, ◌≡◌, Bool, arith}
use snap_os.Paging.{chunk_of, choose_size}

-- The size chosen fits in what is left.
pub choose_size-fits :
    (has_1g : Bool) (v p len : ℕ)
    → len % 4096 ≡ 0
    → 0 < len
    → (chunk_of (choose_size has_1g v p len) ≤ len)
      × (4096 ≤ chunk_of (choose_size has_1g v p len))
      × (chunk_of (choose_size has_1g v p len) % 4096 ≡ 0)
unfolding choose_size
choose_size-fits has_1g v p len aligned pos = ground arith
