-- ===== src/Strings.antt =====
-- klibc/string.c. A pointer is the memory that it points to, as a function from offsets to bytes; a
-- loop that ends at a zero byte has rounds.
pub mod Compare
pub mod Copy
mod Tests
use snap_os.Prelude.{
  ℕ, zero, suc, ◌+◌, ◌-◌, ◌%◌, ◌^◌, Bool, true, false, not, ◌&&◌, ltb, leb, ◌==◌, if◌then◌else◌,
  Exec, ok, out_of_fuel, ◌>>=◌, word8, write,
}

-- An int.
pub data ℤ : Type 0 where
  pos : ℕ → ℤ
  negsuc : ℕ → ℤ

-- The difference of two bytes.
abbrev pub difference : ℕ → ℕ → ℤ
difference a b = if leb b a then pos (a - b) else negsuc (b - a - 1)

abbrev pub is_zero : ℤ → Bool
is_zero (pos zero) = true
is_zero _ = false

-- The memory `n` bytes on.
abbrev pub from : (ℕ → ℕ) → ℕ → ℕ → ℕ
from s n i = s (n + i)

memset_loop : (c : ℕ) → (k i : ℕ) → (ℕ → ℕ) → ℕ → ℕ
memset_loop c zero i s = s
memset_loop c (suc k) i s = memset_loop c k (i + 1) (write s i (word8 c))

pub memset : (s : ℕ → ℕ) (c n : ℕ) → ℕ → ℕ
unfolding memset_loop
memset s c n = memset_loop c n 0 s

pub memcpy_loop : (src : ℕ → ℕ) → (k i : ℕ) → (dest : ℕ → ℕ) → ℕ → ℕ
memcpy_loop src zero i dest = dest
memcpy_loop src (suc k) i dest = memcpy_loop src k (i + 1) (write dest i (src i))

pub memcpy : (dest src : ℕ → ℕ) (count : ℕ) → ℕ → ℕ
unfolding memcpy_loop
memcpy dest src count = memcpy_loop src count 0 dest

unfoldable pub memcmp : (s1 s2 : ℕ → ℕ) (n : ℕ) → ℤ
memcmp s1 s2 zero = pos 0
memcmp s1 s2 (suc n) =
    let rest = memcmp (from s1 1) (from s2 1) n in
    if s1 0 == s2 0 then rest else difference (s1 0) (s2 0)

-- With `fuel` rounds, `p - s` being `i`.
pub strlen : (fuel i : ℕ) → (ℕ → ℕ) → Exec ℕ
strlen zero i s = out_of_fuel
strlen (suc fuel) i s = let rest = strlen fuel (i + 1) s in if s i == 0 then ok i else rest

pub strcpy : (fuel i : ℕ) → (dest src : ℕ → ℕ) → Exec (ℕ → ℕ)
strcpy zero i dest src = out_of_fuel
strcpy (suc fuel) i dest src =
    let dest' = write dest i (src i) in
    let rest = strcpy fuel (i + 1) dest' src in if src i == 0 then ok dest' else rest

-- The second loop of strncpy.
pub pad : (n i : ℕ) → (ℕ → ℕ) → ℕ → ℕ
pad zero i dest = dest
pad (suc n) i dest = pad n (i + 1) (write dest i 0)

pub strncpy : (n i : ℕ) → (dest src : ℕ → ℕ) → ℕ → ℕ
unfolding pad
strncpy zero i dest src = dest
strncpy (suc n) i dest src =
    let rest = strncpy n (i + 1) (write dest i (src i)) src in
    if src i == 0 then pad (suc n) i dest else rest

pub strcmp : (fuel : ℕ) → (s1 s2 : ℕ → ℕ) → Exec ℤ
strcmp zero s1 s2 = out_of_fuel
strcmp (suc fuel) s1 s2 =
    let rest = strcmp fuel (from s1 1) (from s2 1) in
    if not (s1 0 == 0) && s1 0 == s2 0 then rest else ok (difference (s1 0) (s2 0))

pub strncmp : (n : ℕ) → (s1 s2 : ℕ → ℕ) → ℤ
strncmp zero s1 s2 = pos 0
strncmp (suc n) s1 s2 =
    let rest = strncmp n (from s1 1) (from s2 1) in
    if not (s1 0 == s2 0) then difference (s1 0) (s2 0) else if s1 0 == 0 then pos 0 else rest
