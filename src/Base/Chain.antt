-- ===== src/Base/Chain.antt =====
-- Chains of steps that may fail, for `do` blocks over `Option`.
use mathlib.Core.Option.{Option, none, some}
use mathlib.Core.Bool.{Bool, true, false}

infixl 5 ◌>>=◌ ◌>>◌
abbrev pub ◌>>=◌ {ℓ κ} : {A : Type ℓ} {B : Type κ} → Option A → (A → Option B) → Option B
none >>= f = none
some a >>= f = f a

abbrev pub ◌>>◌ {ℓ} : {B : Type ℓ} → Option (Unit {0}) → Option B → Option B
m >> k = m >>= λ _. k

-- `ASSERT(b)`, which ends the program when `b` is false.
abbrev pub check : Bool → Option (Unit {0})
check true = some tt
check false = none
