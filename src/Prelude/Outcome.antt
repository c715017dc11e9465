-- ===== src/Prelude/Outcome.antt =====
-- The outcome of running kernel code, and the monad over it. `panic` is a call of the kernel's
-- panic(), which never returns; `fault` is an access outside the object that the code works on,
-- undefined in C; `out_of_fuel` is a loop that has used up the rounds that the model gives it.
use mathlib.Core.Bool.{Bool, true, false}
use mathlib.Core.Path.{refl}
use mathlib.Core.Logic.{◌≢◌}
use snap_os.Prelude.Tests.{if◌then◌else◌}

pub data Exec {ℓ} (A : Type ℓ) : Type ℓ where
  ok : A → Exec A
  panic : Exec A
  fault : Exec A
  out_of_fuel : Exec A

infixl 5 ◌>>=◌ ◌>>◌
abbrev pub ◌>>=◌ {ℓ κ} : {A : Type ℓ} {B : Type κ} → Exec A → (A → Exec B) → Exec B
ok a >>= f = f a
panic >>= f = panic
fault >>= f = fault
out_of_fuel >>= f = out_of_fuel

abbrev pub ◌>>◌ {ℓ} : {B : Type ℓ} → Exec (Unit {0}) → Exec B → Exec B
m >> k = m >>= λ _. k

-- `if (!test) panic(...)`.
abbrev pub ensure : Bool → Exec (Unit {0})
ensure true = ok tt
ensure false = panic

-- The access is made only inside the object.
abbrev pub in_bounds : Bool → Exec (Unit {0})
in_bounds true = ok tt
in_bounds false = fault

-- The code returns, and what it returns satisfies `P`.
pub data Returns {ℓ κ} {A : Type ℓ} (P : A → Type κ) : Exec A → Type (ℓ ⊔ κ) where
  returns : {a : A} → P a → Returns P (ok a)

pub Returns-mono {ℓ κ μ} :
    {A : Type ℓ} {P : A → Type κ} {Q : A → Type μ} {m : Exec A}
    → Returns P m
    → ((a : A) → P a → Q a)
    → Returns Q m
Returns-mono (returns p) weaken = returns (weaken _ p)

-- Code that goes on after a part that returns.
pub Returns->>= {ℓ κ ν μ} :
    {A : Type ℓ} {B : Type κ} {P : A → Type ν} {Q : B → Type μ} {m : Exec A} (k : A → Exec B)
    → Returns P m
    → ((a : A) → P a → Returns Q (k a))
    → Returns Q (m >>= k)
Returns->>= k (returns p) next = next _ p

pub Returns-ok {ℓ κ} : {A : Type ℓ} {P : A → Type κ} {a : A} → Returns P (ok a) → P a
Returns-ok (returns h) = h

-- Both branches return.
pub Returns-if {ℓ κ} :
    {A : Type ℓ} {P : A → Type κ} {m n : Exec A} (test : Bool)
    → Returns P m
    → Returns P n
    → Returns P (if test then m else n)
Returns-if true then_returns else_returns = then_returns
Returns-if false then_returns else_returns = else_returns

-- Code that ends goes on to code that ends.
pub >>=-ne-out_of_fuel {ℓ κ} :
    {A : Type ℓ} {B : Type κ} (m : Exec A) (k : A → Exec B)
    → m ≢ out_of_fuel
    → ((a : A) → k a ≢ out_of_fuel)
    → (m >>= k) ≢ out_of_fuel
>>=-ne-out_of_fuel (ok a) k h next = next a
>>=-ne-out_of_fuel panic k h next = λ e. cc
>>=-ne-out_of_fuel fault k h next = λ e. cc
>>=-ne-out_of_fuel out_of_fuel k h next = absurd (h refl)

pub if-ne-out_of_fuel {ℓ} :
    {A : Type ℓ} (test : Bool) {m n : Exec A}
    → m ≢ out_of_fuel
    → n ≢ out_of_fuel
    → (if test then m else n) ≢ out_of_fuel
if-ne-out_of_fuel true h k = h
if-ne-out_of_fuel false h k = k

pub ok-ne-out_of_fuel {ℓ} : {A : Type ℓ} (a : A) → ◌≢◌ {A = Exec A} (ok a) out_of_fuel
ok-ne-out_of_fuel a e = cc

pub panic-ne-out_of_fuel {ℓ} : {A : Type ℓ} → ◌≢◌ {A = Exec A} panic out_of_fuel
panic-ne-out_of_fuel e = cc
