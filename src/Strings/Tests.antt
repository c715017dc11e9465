-- ===== src/Strings/Tests.antt =====
-- klibc/string.c on the string `ab`.
use snap_os.Prelude.{ℕ, ◌≡◌, refl, arith, ◌==◌, if◌then◌else◌, ◌>>=◌, Returns}
use snap_os.Strings.{pos, strcpy, strcmp}
use snap_os.Strings.Compare.{IsString}
use snap_os.Strings.Copy.{strcmp-strcpy}

abbrev ab : ℕ → ℕ
ab i = if i == 0 then 97 else if i == 1 then 98 else 0

ab-IsString : IsString ab 2
ab-IsString = record { ends = refl; chars = λ i lt. ground arith }

abbrev xs : ℕ → ℕ
xs i = 120

strcmp-strcpy_example : Returns (λ z. z ≡ pos 0) (strcpy 3 0 xs ab >>= (λ d. strcmp 3 ab d))
strcmp-strcpy_example = strcmp-strcpy ab-IsString 3 xs (omega arith)
