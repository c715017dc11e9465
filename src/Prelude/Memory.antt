-- ===== src/Prelude/Memory.antt =====
-- A block of memory as a function from offsets to values.
use Prim.Native.Nat.{ℕ}
use mathlib.Core.Path.{◌≡◌}
use snap_os.Prelude.Tests.{◌==◌, if◌then◌else◌, ==_refl}

module _ {ℓ} {A : Type ℓ} where
  abbrev pub write : (ℕ → A) → ℕ → A → ℕ → A
  write m i v j = if j == i then v else m j

  pub write_self : (m : ℕ → A) (i : ℕ) (v : A) → write m i v i ≡ v
  write_self m i v = rw (==_refl i)
