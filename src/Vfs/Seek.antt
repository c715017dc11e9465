-- ===== src/Vfs/Seek.antt =====
-- fs/vfs.c: where vfs_seek puts the position of a file.
use snap_os.Prelude.{
  ℕ, ◌+◌, ◌-◌, ◌^◌, ◌≤◌, ◌<◌, ◌≡◌, refl, ◌∙◌, subst, true, false, ltb, leb, ◌==◌, if◌then◌else◌,
  Bool-cases, inl, inr, arith, Option, some, none, min, word64, einval, Ssize, count, error,
}
use snap_os.Vfs.{s_isreg}
use snap_os.Vfs.File.{File, less_signed, seek_to, vfs_seek}

-- Where the offset counts from: the start, or the position.
abbrev pub origin : File → (whence : ℕ) → Option ℕ
origin f whence = if whence == 0 then some 0 else if whence == 1 then some f.pos else none

-- The file at the place `n`, or at its end.
abbrev pub placed : File → ℕ → Ssize × File
placed f n = (count (min n f.inode.size), record f { pos = min n f.inode.size })

-- What seeking from `base` does. An offset of 2 ^ 64 - n is n bytes back.
pub data Sought (f : File) (base : ℕ) : (offset : ℕ) → Ssize × File → Type 0 where
  forward : {n : ℕ} → base + n < 2 ^ 63 → Sought f base n (placed f (base + n))
  too_far : {n : ℕ} → n < 2 ^ 63 → 2 ^ 63 ≤ base + n → Sought f base n (error einval, f)
  back : {n : ℕ} → 1 ≤ n → n ≤ base → Sought f base (2 ^ 64 - n) (placed f (base - n))
  before_start : {n : ℕ} → base < n → n ≤ 2 ^ 63 → Sought f base (2 ^ 64 - n) (error einval, f)

pub data Seeked (f : File) (offset whence : ℕ) (r : Ssize × File) : Type 0 where
  sought :
      {base : ℕ} → origin f whence ≡ some base → Sought f base offset r → Seeked f offset whence r
  unsupported : origin f whence ≡ none → r ≡ (error einval, f) → Seeked f offset whence r

less_signed-small : (a b : ℕ) → a < 2 ^ 63 → b < 2 ^ 63 → less_signed a b ≡ ltb a b
less_signed-small a b la lb =
    let wa : word64 (a + 2 ^ 63) ≡ a + 2 ^ 63 = ground arith in
    let wb : word64 (b + 2 ^ 63) ≡ b + 2 ^ 63 = ground arith in rw (wa, wb) (ground arith)

seek_to-placed : (f : File) (n : ℕ) → n < 2 ^ 63 → f.inode.size < 2 ^ 63 → seek_to f n ≡ placed f n
unfolding seek_to
seek_to-placed f n ln ls =
    let up : less_signed n 0 ≡ false = less_signed-small n 0 ln (omega arith) ∙ ground arith in
    let order = less_signed-small f.inode.size n ls ln in
    elim (Bool-cases (ltb f.inode.size n)) [
      | inl past ↦
          let m : min n f.inode.size ≡ f.inode.size = ground arith in rw (up, order, past, m) refl
      | inr within ↦ let m : min n f.inode.size ≡ n = ground arith in rw (up, order, within, m) refl
    ]

seek_to-negative : (f : File) (n : ℕ) → 2 ^ 63 ≤ n → n < 2 ^ 64 → seek_to f n ≡ (error einval, f)
unfolding seek_to
seek_to-negative f n ge lt =
    let down : less_signed n 0 ≡ true =
      let w : word64 (n + 2 ^ 63) ≡ n + 2 ^ 63 - 2 ^ 64 = ground arith in rw w (ground arith) in
    rw down refl

seek_to-Sought :
    (f : File) (base offset : ℕ)
    → f.inode.size < 2 ^ 63
    → base < 2 ^ 63
    → offset < 2 ^ 64
    → Sought f base offset (seek_to f (word64 (base + offset)))
seek_to-Sought f base offset ls lb lo = elim (Bool-cases (ltb offset (2 ^ 63))) [
  | inl ahead ↦
      let lt : offset < 2 ^ 63 = ground arith in
      let w : word64 (base + offset) ≡ base + offset = ground arith in
      elim (Bool-cases (ltb (base + offset) (2 ^ 63))) [
        | inl fits ↦
            let small : base + offset < 2 ^ 63 = ground arith in
            rw (w, seek_to-placed f (base + offset) small ls) (forward small)
        | inr over ↦
            let big : 2 ^ 63 ≤ base + offset = ground arith in
            rw (w, seek_to-negative f (base + offset) big (omega arith)) (too_far lt big)
      ]
  | inr behind ↦
      let ge : 2 ^ 63 ≤ offset = ground arith in
      let e : 2 ^ 64 - (2 ^ 64 - offset) ≡ offset = omega arith in
      elim (Bool-cases (leb (2 ^ 64 - offset) base)) [
        | inl fits ↦
            let le : 2 ^ 64 - offset ≤ base = ground arith in
            let w : word64 (base + offset) ≡ base - (2 ^ 64 - offset) = ground arith in
            rw (w, seek_to-placed f (base - (2 ^ 64 - offset)) (omega arith) ls)
              (subst (λ o. Sought f base o (placed f (base - (2 ^ 64 - offset)))) e
                (back (omega arith) le))
        | inr under ↦
            let gt : base < 2 ^ 64 - offset = ground arith in
            let w : word64 (base + offset) ≡ base + offset = ground arith in
            rw (w, seek_to-negative f (base + offset) (omega arith) (omega arith))
              (subst (λ o. Sought f base o (error einval, f)) e (before_start gt (omega arith)))
      ]
]

-- vfs_seek on a regular file counts a signed offset from the start or from the position, says EINVAL
-- for what would be before the start or does not fit, and stops at the end of the file; any other
-- `whence` is EINVAL. An error leaves the file as it is. The size and the position are below 2 ^ 63.
pub vfs_seek-Seeked :
    (f : File) (offset whence : ℕ)
    → s_isreg f.inode.mode ≡ true
    → f.inode.size < 2 ^ 63
    → f.pos < 2 ^ 63
    → offset < 2 ^ 64
    → Seeked f offset whence (vfs_seek f offset whence)
unfolding vfs_seek
vfs_seek-Seeked f offset whence reg ls lp lo = elim (Bool-cases (whence == 0)) [
  | inl start ↦
      let w : word64 (0 + offset) ≡ offset = ground arith in
      let there : Sought f 0 offset (seek_to f offset) =
        subst (λ x. Sought f 0 offset (seek_to f x)) w
          (seek_to-Sought f 0 offset ls (omega arith) lo) in
      let from : origin f whence ≡ some 0 = rw start refl in rw (reg, start) (sought from there)
  | inr later ↦ elim (Bool-cases (whence == 1)) [
    | inl here ↦
        let from : origin f whence ≡ some f.pos = rw (later, here) refl in
        rw (reg, later, here) (sought from (seek_to-Sought f f.pos offset ls lp lo))
    | inr other ↦
        let nowhere : origin f whence ≡ none = rw (later, other) refl in
        rw (reg, later, other) (unsupported nowhere refl)
  ]
]
