-- ===== src/Prelude/Words.antt =====
-- Machine words as native numbers, and the page macros of arch/x86_64/include/asm/paging.h.
use Prim.Native.Nat.{ℕ, ◌+◌, ◌-◌, ◌%◌, ◌^◌}
use mathlib.Core.Bool.{Bool, not}
use snap_os.Prelude.Tests.{◌==◌}

abbrev pub word8 : ℕ → ℕ
word8 x = x % 2 ^ 8

abbrev pub word32 : ℕ → ℕ
word32 x = x % 2 ^ 32

abbrev pub word64 : ℕ → ℕ
word64 x = x % 2 ^ 64

abbrev pub page_size : ℕ
page_size = 4096

-- PAGE_ALIGN_DOWN: `x & ~(PAGE_SIZE - 1)` on a 64-bit word.
abbrev pub page_align_down : ℕ → ℕ
page_align_down x = x - x % page_size

-- PAGE_ALIGN_UP: `(x + PAGE_SIZE - 1) & ~(PAGE_SIZE - 1)`, which wraps in the last page.
abbrev pub page_align_up : ℕ → ℕ
page_align_up x = page_align_down (word64 (x + page_size - 1))

-- IS_PAGE_ALIGNED of include/paging.h: `~(x & (PAGE_SIZE - 1))`, a bitwise complement of 64 bits
-- that is read as a truth value.
abbrev pub is_page_aligned : ℕ → Bool
is_page_aligned x = not (2 ^ 64 - 1 - x % page_size == 0)

-- A function that returns an error code, `-EINVAL` and the like, returns the code's number in the
-- model, and 0 for success; include/types.h has the numbers.
abbrev pub enomem : ℕ
enomem = 12

abbrev pub einval : ℕ
einval = 22

abbrev pub eio : ℕ
eio = 5

abbrev pub enoent : ℕ
enoent = 2

abbrev pub ebadf : ℕ
ebadf = 9

abbrev pub enotdir : ℕ
enotdir = 20

abbrev pub euclean : ℕ
euclean = 117

-- A `ssize_t`: a count, or the number of an error, which the code negates.
pub data Ssize : Type 0 where
  count : ℕ → Ssize
  error : ℕ → Ssize
