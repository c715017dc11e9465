-- ===== src/Ext2/File/Read.antt =====
-- fs/ext2/file.c: what a read returns is the contents of the file.
use native.Mathlib.Nat.{
  mul-add-div_right, div-add-mod', mod-lt, suc-mul, div-le_self, div-lt_iff_lt-mul,
}
use snap_os.Prelude.{
  ℕ, suc, ◌+◌, ◌-◌, ◌*◌, ◌/◌, ◌%◌, ◌^◌, ◌≤◌, ◌<◌, ◌≡◌, refl, sym, ap, ◌∙◌, ltb, leb, ◌==◌,
  if◌then◌else◌, min, arith, inl, inr, Bool-cases, word32, word64, Returns, returns, Returns->>=,
}
use snap_os.Ext2.{Env, Geometry, InodeInfo}
use snap_os.Ext2.File.{Reading, ext2_read_file}
use snap_os.Ext2.File.Contents.{
  Works, indirect_table, block_number, sector_of, byte_at, file_byte, Contents, at_end, bytes_read,
  IsReachable,
}
use snap_os.Ext2.File.Loop.{read_blocks-Filled}

-- The blocks that hold some bytes.
blocks_of :
    (offset n b : ℕ)
    → 0 < b
    → 0 < n
    → (offset / b + ((offset + n + b - 1) / b - offset / b) ≡ (offset + n + b - 1) / b)
      × (offset % b + n ≤ ((offset + n + b - 1) / b - offset / b) * b)
      × ((k : ℕ) → (offset + n + b - 1) / b - offset / b ≡ suc k → k * b < offset % b + n)
blocks_of offset n b pos some_bytes =
    let inside = offset % b + n + b - 1 in
    let split : offset + n + b - 1 ≡ offset / b * b + inside =
      omega (arith, div-add-mod' offset b) in
    let last : (offset + n + b - 1) / b ≡ offset / b + inside / b =
      ap (λ x. x / b) split ∙ mul-add-div_right pos (offset / b) inside in
    let number : (offset + n + b - 1) / b - offset / b ≡ inside / b = omega (arith, last) in
    let whole = div-add-mod' inside b in
    let rest = mod-lt inside pos in
    (
      omega (arith, last),
      rw number (omega (arith, whole, rest)),
      (λ k e.
          let m : inside / b * b ≡ k * b + b = ap (λ c. c * b) (sym number ∙ e) ∙ suc-mul k b in
          omega (arith, m, whole)),
    )

file_byte_alloc :
    (e : Env) (sb : Geometry) (info : InodeInfo) (k : ℕ)
    → file_byte (record e { allocs = e.allocs + 1; live = e.live + 1 }) sb info k
      ≡ file_byte e sb info k
unfolding file_byte byte_at sector_of block_number indirect_table
file_byte_alloc e sb info k = refl

IsReachable_alloc :
    (e : Env) (sb : Geometry) (info : InodeInfo)
    → IsReachable e sb info
    → IsReachable (record e { allocs = e.allocs + 1; live = e.live + 1 }) sb info
unfolding sector_of block_number indirect_table
IsReachable_alloc e sb info r = record {
  singly_small = r.singly_small;
  sectors_small = r.sectors_small;
  size_small = r.size_small;
}

-- The blocks that hold the first `x` bytes.
blocks_below : (x b n : ℕ) → 0 < b → x ≤ n * b → (x + b - 1) / b ≤ n
blocks_below x b n pos le =
    let m = suc-mul n b in
    let lt : (x + b - 1) / b < suc n = (div-lt_iff_lt-mul pos).1 (omega (arith, m, le)) in
    omega (arith, lt)

-- With memory and a device that answers, reading a file of less than 4 GiB that lies in the direct and
-- the singly indirect blocks, at sectors of 32 bits, gives its contents: the bytes from the offset on, holes as zeros, at most to the end of the file. No byte of the buffer
-- behind them changes, and all memory that is allocated is freed, but for the table of the indirect
-- block, which the inode keeps.
pub ext2_read_file-Contents :
    (e : Env) (sb : Geometry) (info : InodeInfo) (buf : ℕ → ℕ) (asked offset : ℕ)
    → Works e
    → IsReachable e sb info
    → 0 < sb.block_size
    → info.size + sb.block_size < 2 ^ 32
    → asked < 2 ^ 63
    → offset < 2 ^ 63
    → Returns (Contents e sb info buf asked offset) (ext2_read_file e sb info buf asked offset)
unfolding ext2_read_file
ext2_read_file-Contents e sb info buf asked offset works reach pos small short low =
    elim (Bool-cases (asked == 0)) [
      | inl none_asked ↦ rw none_asked (returns (at_end (ground arith)))
      | inr some_asked ↦ elim (Bool-cases (leb info.size offset)) [
        | inl behind ↦ rw (some_asked, behind) (returns (at_end (ground arith)))
        | inr inside ↦
            let some_bytes : 0 < min asked (info.size - offset) = ground arith in
            let n_eq : (if ltb info.size (word64 (offset + asked))
                  then info.size - offset
                  else asked)
                ≡ min asked (info.size - offset) =
              ground arith in
            let q = div-le_self offset sb.block_size in
            let q1 =
              div-le_self (offset + min asked (info.size - offset) + sb.block_size - 1)
                sb.block_size in
            let (whole, enough, needed) =
              blocks_of offset (min asked (info.size - offset)) sb.block_size pos some_bytes in
            let first : word32 (offset / sb.block_size) ≡ offset / sb.block_size = ground arith in
            let last : word32
                  ((offset + min asked (info.size - offset) + sb.block_size - 1) / sb.block_size)
                ≡ (offset + min asked (info.size - offset) + sb.block_size - 1) / sb.block_size =
              ground arith in
            let number : word32 (
                  (offset + min asked (info.size - offset) + sb.block_size - 1) / sb.block_size
                  + 2 ^ 32
                  - offset / sb.block_size)
                ≡ (offset + min asked (info.size - offset) + sb.block_size - 1) / sb.block_size
                  - offset / sb.block_size =
              ground arith in
            let end_block =
              blocks_below (offset + min asked (info.size - offset)) sb.block_size
                (12 + sb.block_size / 4) pos (omega (arith, reach.size_small)) in
            rw (some_asked, inside, works.grants e.allocs, n_eq, first, last, number)
              (Returns->>= _
                (read_blocks-Filled e1 sb info offset (offset / sb.block_size) refl pos reach1
                  ((offset + min asked (info.size - offset) + sb.block_size - 1) / sb.block_size
                    - offset / sb.block_size)
                  0 start
                  (record {
                    follows = record {
                      bytes_kept = refl;
                      sector_kept = refl;
                      works = record { answers = works.answers; grants = works.grants };
                      inode_kept = refl;
                      table_kept = refl;
                      live_kept = refl;
                      held_kept = omega arith;
                    };
                    place = λ more. div-add-mod'' offset sb.block_size;
                    enough = enough;
                    needed = needed;
                  })
                  (omega arith) (omega (arith, whole, q1)) (omega (arith, whole, end_block)))
                (λ (status, r) f. rw f.no_error (
                  returns (
                    bytes_read _ refl refl
                      (λ j. ground (arith, f.bytes j, file_byte_alloc e sb info (offset + j)))
                      (omega (arith, f.follows.live_kept, f.follows.held_kept))))))
      ]
    ]
  where
    reach1 : IsReachable (record e { allocs = e.allocs + 1; live = e.live + 1 }) sb info
    reach1 = IsReachable_alloc e sb info reach

    e1 : Env
    e1 = record e { allocs = e.allocs + 1; live = e.live + 1 }

    start : Reading
    start = record {
      env = e1;
      info = info;
      block_buf = λ j. 0;
      buf = buf;
      filled = 0;
      remaining = min asked (info.size - offset);
    }

    div-add-mod'' : (n m : ℕ) → n + 0 ≡ (n / m + 0) * m + n % m
    div-add-mod'' n m = omega (arith, div-add-mod' n m)
