-- ===== src/Strings/Copy.antt =====
-- klibc/string.c: what a copy holds.
use snap_os.Prelude.{
  ℕ, zero, suc, ◌+◌, ◌≤◌, ◌<◌, ◌≡◌, refl, true, false, ◌&&◌, arith, ltb, leb, ◌==◌, if◌then◌else◌,
  dec_lt, ok, ◌>>=◌, Returns, returns, Returns->>=, Returns-mono, write,
}
use snap_os.Strings.{ℤ, pos, memcpy_loop, memcpy, strlen, strcpy, pad, strncpy, strcmp}
use snap_os.Strings.Compare.{IsString, Compared, same, above, below, strcmp-Compared}

memcpy_loop_lem :
    (src : ℕ → ℕ) (k i : ℕ) (dest : ℕ → ℕ) (j : ℕ)
    → memcpy_loop src k i dest j ≡ (if leb i j && ltb j (i + k) then src j else dest j)
unfolding memcpy_loop
memcpy_loop_lem src zero i dest j = ground arith
memcpy_loop_lem src (suc k) i dest j =
    ground (arith, memcpy_loop_lem src k (i + 1) (write dest i (src i)) j)

-- memcpy copies the first `count` bytes and changes no other.
pub memcpy_lem :
    (dest src : ℕ → ℕ) (count j : ℕ)
    → memcpy dest src count j ≡ (if ltb j count then src j else dest j)
unfolding memcpy
memcpy_lem dest src count j = ground (arith, memcpy_loop_lem src count 0 dest j)

pad_lem :
    (n i : ℕ) (dest : ℕ → ℕ) (j : ℕ)
    → pad n i dest j ≡ (if leb i j && ltb j (i + n) then 0 else dest j)
unfolding pad
pad_lem zero i dest j = ground arith
pad_lem (suc n) i dest j = ground (arith, pad_lem n (i + 1) (write dest i 0) j)

module _ {src : ℕ → ℕ} {m : ℕ} (h : IsString src m) where
  strncpy_from :
      (n i : ℕ) (dest : ℕ → ℕ) (j : ℕ)
      → i ≤ m
      → strncpy n i dest src j
        ≡ (if leb i j && ltb j (i + n) then (if ltb j m then src j else 0) else dest j)
  unfolding strncpy
  strncpy_from zero i dest j le = ground arith
  strncpy_from (suc n) i dest j le = elim (dec_lt i m) [
    | yes inside ↦
        let go : (src i == 0) ≡ false = ground (arith, h.chars i inside) in
        let rest = strncpy_from n (i + 1) (write dest i (src i)) j (omega arith) in
        rw go (ground (arith, rest))
    | no at_end ↦
        let e : i ≡ m = omega arith in
        let stop : (src i == 0) ≡ true = ground (arith, e, h.ends) in
        let padded = pad_lem (suc n) i dest j in rw stop (ground (arith, padded, e))
  ]

  -- From a string of `m` characters, strncpy fills exactly the first `n` bytes: with the characters
  -- of the string, as many as there is room for, and with zeros behind them.
  pub strncpy_lem :
      (n : ℕ) (dest : ℕ → ℕ) (j : ℕ)
      → strncpy n 0 dest src j ≡ (if ltb j n then (if ltb j m then src j else 0) else dest j)
  strncpy_lem n dest j = ground (arith, strncpy_from n 0 dest j (omega arith))

  strcpy_from :
      (fuel i : ℕ) (dest : ℕ → ℕ)
      → i ≤ m
      → m < i + fuel
      → Returns
          (λ d. (j : ℕ) → d j ≡ (if leb i j && leb j m then src j else dest j))
          (strcpy fuel i dest src)
  unfolding strcpy
  strcpy_from zero i dest le lt = absurd (omega arith)
  strcpy_from (suc fuel) i dest le lt = elim (dec_lt i m) [
    | yes inside ↦
        let go : (src i == 0) ≡ false = ground (arith, h.chars i inside) in
        rw go (
          Returns-mono (strcpy_from fuel (i + 1) (write dest i (src i)) (omega arith) (omega arith))
            (λ d c j. ground (arith, c j)))
    | no at_end ↦
        let e : i ≡ m = omega arith in
        let stop : (src i == 0) ≡ true = ground (arith, e, h.ends) in
        rw stop (returns (λ j. ground (arith, e)))
  ]

  strlen_from : (fuel i : ℕ) → i ≤ m → m < i + fuel → strlen fuel i src ≡ ok m
  unfolding strlen
  strlen_from zero i le lt = absurd (omega arith)
  strlen_from (suc fuel) i le lt = elim (dec_lt i m) [
    | yes inside ↦
        let go : (src i == 0) ≡ false = ground (arith, h.chars i inside) in
        rw go (strlen_from fuel (i + 1) (omega arith) (omega arith))
    | no at_end ↦
        let e : i ≡ m = omega arith in
        let stop : (src i == 0) ≡ true = ground (arith, e, h.ends) in rw (stop, e) refl
  ]

  -- strlen ends, and returns the number of characters.
  pub strlen_lem : (fuel : ℕ) → m < fuel → strlen fuel 0 src ≡ ok m
  strlen_lem fuel lt = strlen_from fuel 0 (omega arith) (omega arith)

  -- strcpy and then strcmp of the string and its copy both end, and strcmp finds them equal.
  pub strcmp-strcpy :
      (fuel : ℕ) (dest : ℕ → ℕ)
      → m < fuel
      → Returns (λ z. z ≡ pos 0) (strcpy fuel 0 dest src >>= (λ d. strcmp fuel src d))
  strcmp-strcpy fuel dest lt =
      Returns->>= _ (strcpy_from fuel 0 dest (omega arith) (omega arith)) (λ d c.
        Returns-mono (strcmp-Compared m fuel d h lt)
          (λ z r. equal d (λ i le. ground (arith, c i)) r))
    where
      equal :
          (d : ℕ → ℕ)
          → ((i : ℕ) → i ≤ m → d i ≡ src i)
          → {z : ℤ} → Compared src d (suc m) z
          → z ≡ pos 0
      equal d c (same e) = refl
      equal d c (above k le e gt) = absurd (ground (arith, c k))
      equal d c (below k le e gt) = absurd (ground (arith, c k))
