-- ===== src/Prelude/Options.antt =====
-- Code that can fail: `none` is a failed assertion, an error return or an undefined access.
use mathlib.Core.Bool.{Bool, true, false}
use mathlib.Core.Option.{Option, none, some}
use mathlib.Core.Path.{◌≡◌, refl}

infixl 5 ◌>>=◌ ◌>>◌
abbrev pub ◌>>=◌ {ℓ κ} : {A : Type ℓ} {B : Type κ} → Option A → (A → Option B) → Option B
none >>= f = none
some a >>= f = f a

abbrev pub ◌>>◌ {ℓ} : {B : Type ℓ} → Option (Unit {0}) → Option B → Option B
m >> k = m >>= λ _. k

-- `assert(b)`: the program stops where it does not hold.
abbrev pub assert : Bool → Option (Unit {0})
assert true = some tt
assert false = none

-- A property of the result, if there is one.
abbrev pub Holds {ℓ} : {A : Type ℓ} → (A → Type 0) → Option A → Type 0
Holds P none = Unit
Holds P (some x) = P x

pub Holds-bind {ℓ κ} :
    {A : Type ℓ} {B : Type κ} (P : A → Type 0) (Q : B → Type 0) (o : Option A) (f : A → Option B)
    → Holds P o
    → ((a : A) → P a → Holds Q (f a))
    → Holds Q (o >>= f)
Holds-bind P Q none f h k = tt
Holds-bind P Q (some a) f h k = k a h

pub Holds-assert {ℓ} :
    {B : Type ℓ} (Q : B → Type 0) (b : Bool) (o : Option B)
    → (b ≡ true → Holds Q o)
    → Holds Q (assert b >> o)
Holds-assert Q true o h = h refl
Holds-assert Q false o h = tt
