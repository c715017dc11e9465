-- ===== src/Ext2/Dir/Tests.antt =====
-- fs/ext2/dir.c on a block of 32 bytes: an unused entry of 12 bytes, and "ab" with inode 5.
use snap_os.Prelude.{
  ℕ, ◌+◌, ◌≡◌, ◌≢◌, refl, arith, [], ◌∷◌, ok, out_of_fuel, Returns, ◌==◌, if◌then◌else◌,
}
use snap_os.Strings.{memcmp}
use snap_os.Ext2.Dir.{found, search_dir_block}
use snap_os.Ext2.Dir.Search.{
  Chain, end, link, First, search_dir_block-First, search_dir_block-ne-out_of_fuel,
}

abbrev block : ℕ → ℕ
block a =
    if a == 4
    then 12
    else if a == 12
    then 5
    else if a == 16
    then 20
    else if a == 18
    then 2
    else if a == 20
    then 97
    else if a == 21
    then 98
    else 0

abbrev ab : ℕ → ℕ
ab i = 97 + i

block-Chain : Chain block 32 0 (0 ∷ 12 ∷ [])
block-Chain = link (omega arith) (omega arith) (link (omega arith) (omega arith) end)

finds : search_dir_block block 32 ab 2 ≡ ok (found 12)
unfolding search_dir_block memcmp
finds = refl

search_dir_block-First_example :
    Returns (First block ab 2 (0 ∷ 12 ∷ [])) (search_dir_block block 32 ab 2)
search_dir_block-First_example = search_dir_block-First block 32 ab 2 (0 ∷ 12 ∷ []) block-Chain

search_dir_block-ne-out_of_fuel_example : search_dir_block ab 32 ab 2 ≢ out_of_fuel
search_dir_block-ne-out_of_fuel_example = search_dir_block-ne-out_of_fuel ab 32 ab 2
