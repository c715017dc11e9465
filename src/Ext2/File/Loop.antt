-- ===== src/Ext2/File/Loop.antt =====
-- fs/ext2/file.c: the loop of ext2_read_file.
use native.Mathlib.Nat.{
  mul-add-div_right, mul-add-mod_self_right, mod-eq_of_lt, div-eq_of_lt, mod-lt, suc-mul,
}
use snap_os.Prelude.{
  ℕ, zero, suc, ◌+◌, ◌-◌, ◌*◌, ◌/◌, ◌%◌, ◌^◌, ◌≤◌, ◌<◌, ◌≡◌, refl, sym, ap, ◌∙◌, false, ◌&&◌, ltb,
  leb, ◌==◌, if◌then◌else◌, min, arith, word32, Returns, returns, Returns-mono, Returns->>=,
}
use snap_os.Ext2.{Env, Geometry, InodeInfo}
use snap_os.Ext2.File.{Reading, read_blocks}
use snap_os.Ext2.File.Contents.{byte_at, file_byte, IsReachable}
use snap_os.Ext2.File.Blocks.{Follows, Round, read_block-Round}

module _ (e0 : Env) (sb : Geometry) (info0 : InodeInfo) where
  -- Where the loop stands: `base` is the start of block `start_block + i`, and the last of the `k`
  -- blocks that are left holds the last byte that remains.
  pub record Stands (offset start_block k i : ℕ) (r : Reading) : Type 0 where
    pub follows : Follows e0 sb info0 r.env r.info
    pub place :
        0 < r.remaining
        → offset + r.filled
          ≡ (start_block + i) * sb.block_size + (if i == 0 then offset % sb.block_size else 0)
    pub enough : (if i == 0 then offset % sb.block_size else 0) + r.remaining ≤ k * sb.block_size
    pub needed :
        (k' : ℕ)
        → k ≡ suc k'
        → k' * sb.block_size < (if i == 0 then offset % sb.block_size else 0) + r.remaining

  byte_of_block :
      (q r : ℕ)
      → r < sb.block_size
      → file_byte e0 sb info0 (q * sb.block_size + r) ≡ byte_at e0 sb info0 q r
  unfolding file_byte
  byte_of_block q r lt =
      let pos : 0 < sb.block_size = omega arith in
      let d : (q * sb.block_size + r) / sb.block_size ≡ q =
        mul-add-div_right pos q r ∙ omega (arith, div-eq_of_lt lt) in
      let m : (q * sb.block_size + r) % sb.block_size ≡ r =
        mul-add-mod_self_right q sb.block_size r ∙ mod-eq_of_lt lt in
      rw (d, m) refl

  -- The loop copies every byte that remains, and ends with no error.
  pub record Filled (offset : ℕ) (r : Reading) (x : ℕ × Reading) : Type 0 where
    pub no_error : x.0 ≡ 0
    pub follows : Follows e0 sb info0 x.1.env x.1.info
    pub bytes :
        (j : ℕ)
        → x.1.buf j ≡ (
            if leb r.filled j && ltb j (r.filled + r.remaining)
            then file_byte e0 sb info0 (offset + j)
            else r.buf j)

  module _ (offset start_block : ℕ) (starts : start_block ≡ offset / sb.block_size)
      (pos : 0 < sb.block_size) (reach : IsReachable e0 sb info0) where
    pub read_blocks-Filled :
        (k i : ℕ) (r : Reading)
        → Stands offset start_block k i r
        → r.remaining < 2 ^ 32
        → start_block + i + k < 2 ^ 32
        → start_block + i + k ≤ 12 + sb.block_size / 4
        → Returns (Filled offset r) (read_blocks k i sb offset start_block r)
    unfolding read_blocks
    read_blocks-Filled zero i r st small fits last = returns (record {
      no_error = refl;
      follows = st.follows;
      bytes = λ j. let e = st.enough in ground arith;
    })
    read_blocks-Filled (suc k) i r st small fits last =
        Returns->>= _
          (read_block-Round e0 sb info0 reach offset start_block (word32 (start_block + i)) r
            st.follows small (rw block (omega arith)))
          (λ (status, r1) (e, x).
            let x1 = rw (block, place_eq) at x in
            rw e (
              Returns-mono
                (read_blocks-Filled k (i + 1) r1 (next_stands r1 x1) (omega (arith, x1.remaining))
                  (omega arith) (omega arith))
                (all r1 x1)))
      where
        src : ℕ
        src = if i == 0 then offset % sb.block_size else 0

        block : word32 (start_block + i) ≡ start_block + i
        block = omega arith

        place_eq : (if (start_block + i) == start_block then offset % sb.block_size else 0) ≡ src
        place_eq = ground arith

        src_lt : src < sb.block_size
        src_lt = ground (arith, mod-lt offset pos)

        later : ((i + 1) == 0) ≡ false
        later = ground arith

        next_stands :
            (r1 : Reading)
            → Round e0 sb info0 offset (start_block + i) src r r1
            → Stands offset start_block k (i + 1) r1
        next_stands r1 x =
            let upper = suc-mul k sb.block_size in
            let lower = st.needed k refl in
            record {
              follows = x.follows;
              place = λ more. rw later (
                  omega (
                    arith,
                    st.place,
                    x.remaining,
                    x.filled,
                    suc-mul (start_block + i) sb.block_size,
                    src_lt,
                  ));
              enough = rw later (omega (arith, st.enough, x.remaining, upper, src_lt));
              needed = λ k' ek. rw later (
                  let m = suc-mul k' sb.block_size in
                  omega (arith, lower, x.remaining, ap (λ k. k * sb.block_size) ek, m, src_lt));
            }

        in_block :
            (j : ℕ)
            → r.filled ≤ j
            → j < r.filled + min r.remaining (sb.block_size - src)
            → byte_at e0 sb info0 (start_block + i) (src + (j - r.filled))
              ≡ file_byte e0 sb info0 (offset + j)
        in_block j lo hi =
            sym (byte_of_block (start_block + i) (src + (j - r.filled)) (omega (arith, src_lt)))
            ∙ ap (file_byte e0 sb info0) (omega (arith, st.place))

        all :
            (r1 : Reading)
            → Round e0 sb info0 offset (start_block + i) src r r1
            → (y : ℕ × Reading) → Filled offset r1 y
            → Filled offset r y
        all r1 x y f = record {
          no_error = f.no_error;
          follows = f.follows;
          bytes = λ j. ground (arith, f.bytes j, x.bytes j, in_block j, x.filled, x.remaining);
        }
