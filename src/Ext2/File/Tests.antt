-- ===== src/Ext2/File/Tests.antt =====
-- fs/ext2/file.c on a small device.
use snap_os.Prelude.{
  ℕ, ◌≡◌, ◌+◌, ◌-◌, ◌*◌, ◌^◌, ◌<◌, ◌≤◌, ◌==◌, ltb, if◌then◌else◌, Bool-cases, inl, inr, refl, arith,
  Exec, ok, fault, Returns,
}
use snap_os.Ext2.{words_of}
use snap_os.Ext2.File.{FileRead, ext2_read_file}
use snap_os.Ext2.File.Contents.{Contents, IsReachable, sector_of, block_number, indirect_table}
use snap_os.Ext2.File.Read.{ext2_read_file-Contents}
use snap_os.Ext2.Sample.{device, device-Works, geometry, info}

abbrev byte : Exec FileRead → ℕ → ℕ
byte (ok f) j = f.buf j
byte _ j = 99

-- From offset 1000: the end of block 0, the hole, the start of block 2; and block 12 by the table.
reads_on :
    (byte (ext2_read_file device geometry info (λ j. 1) 1100 1000) 23 ≡ 3)
    × (byte (ext2_read_file device geometry info (λ j. 1) 1100 1000) 24 ≡ 0)
    × (byte (ext2_read_file device geometry info (λ j. 1) 1100 1000) 1048 ≡ 5)
    × (byte (ext2_read_file device geometry info (λ j. 1) 1100 1000) 1100 ≡ 1)
    × (byte (ext2_read_file device geometry info (λ j. 1) 10 12288) 0 ≡ 7)
unfolding ext2_read_file
reads_on = (refl, refl, refl, refl, refl)

-- A failed read of the indirect block is not noticed, and the code uses a null pointer.
unnoticed :
    ext2_read_file (record device { replies = λ n. 5 }) geometry info (λ j. 1) 10 12288 ≡ fault
unfolding ext2_read_file
unnoticed = refl

indirect_byte : (j : ℕ) → j < 1024 → device.bytes (9 * 2 * 512 + j) ≤ (if j == 0 then 7 else 0)
indirect_byte j lt = ground arith

small_word :
    (bytes : ℕ → ℕ) (n : ℕ)
    → bytes (4 * n) ≤ 7
    → bytes (4 * n + 1) ≤ 0
    → bytes (4 * n + 2) ≤ 0
    → bytes (4 * n + 2 + 1) ≤ 0
    → words_of bytes n ≤ 7
small_word bytes n b0 b1 b2 b3 = omega (arith, b0, b1, b2, b3)

indirect_zero : (n k : ℕ) → n < 256 → 0 < k → k < 4 → device.bytes (9 * 2 * 512 + (4 * n + k)) ≤ 0
indirect_zero n k lt low high = let b = indirect_byte (4 * n + k) (omega arith) in ground (arith, b)

indirect_word : (n : ℕ) → n < 256 → indirect_table device geometry info n ≤ 7
unfolding indirect_table
indirect_word n lt =
    let b0 : device.bytes (9 * 2 * 512 + 4 * n) ≤ 7 =
      let b = indirect_byte (4 * n) (omega arith) in ground (arith, b) in
    let same : 4 * n + 2 + 1 ≡ 4 * n + 3 = omega arith in
    small_word (λ j. device.bytes (9 * 2 * 512 + j)) n b0
      (indirect_zero n 1 lt (omega arith) (omega arith))
      (indirect_zero n 2 lt (omega arith) (omega arith))
      (rw same (indirect_zero n 3 lt (omega arith) (omega arith)))

sectors : (block : ℕ) → block < 268 → sector_of device geometry info block < 2 ^ 32
unfolding sector_of block_number
sectors block inside = elim (Bool-cases (ltb block 12)) [
  | inl direct ↦ ground arith
  | inr indirect ↦
      rw indirect (let w = indirect_word (block - 12) (ground arith) in omega (arith, w))
]

info-IsReachable : IsReachable device geometry info
unfolding sector_of block_number indirect_table
info-IsReachable = record {
  singly_small = omega arith;
  sectors_small = sectors;
  size_small = omega arith;
}

ext2_read_file-Contents_example :
    Returns
      (Contents device geometry info (λ j. 1) 1100 1000)
      (ext2_read_file device geometry info (λ j. 1) 1100 1000)
ext2_read_file-Contents_example =
    ext2_read_file-Contents device geometry info (λ j. 1) 1100 1000 device-Works info-IsReachable
      (omega arith) (omega arith) (omega arith) (omega arith)
