-- ===== src/Prelude/Tests.antt =====
-- Boolean tests on the native numbers, the conditional, and checks over a small range of numbers.
use Prim.Native.Nat.{ℕ, zero, suc, ◌≤◌, ◌<◌, compare, Ordering}
use mathlib.Core.Path.{◌≡◌, refl}
use mathlib.Core.Logic.{◌↔◌, ◌⊎◌, inl, inr}
use mathlib.Core.Bool.{Bool, true, false}
use mathlib.Core.Option.{Option, none, some}
use native.Mathlib.Omega.{arith}

abbrev pub ltb : ℕ → ℕ → Bool
ltb a b = elim (compare a b) [ Ordering.lt ↦ true | _ ↦ false ]

abbrev pub leb : ℕ → ℕ → Bool
leb a b = elim (compare a b) [ Ordering.gt ↦ false | _ ↦ true ]

infix 50 ◌==◌
abbrev pub ◌==◌ : ℕ → ℕ → Bool
a == b = elim (compare a b) [ Ordering.eq ↦ true | _ ↦ false ]

infix 1 if◌then◌else◌
abbrev pub if◌then◌else◌ {ℓ} : {A : Type ℓ} → Bool → A → A → A
if true then x else y = x
if false then x else y = y

pub ==_iff : (a b : ℕ) → ((a == b) ≡ true) ↔ (a ≡ b)
==_iff a b = ground arith

pub le→leb : (a b : ℕ) → a ≤ b → leb a b ≡ true
le→leb a b h = ground arith

pub lt→ltb : (a b : ℕ) → a < b → ltb a b ≡ true
lt→ltb a b h = ground arith

pub Bool-cases : (b : Bool) → (b ≡ true) ⊎ (b ≡ false)
Bool-cases true = inl refl
Bool-cases false = inr refl

pub Option-cases {ℓ} : {A : Type ℓ} (o : Option A) → (o ≡ none) ⊎ ((a : A) × (o ≡ some a))
Option-cases none = inl refl
Option-cases (some a) = inr (a, refl)

-- A table: whether every entry before the end is accepted.
unfoldable pub table_holds : (ℕ → Bool) → ℕ → Bool
table_holds entry zero = true
table_holds entry (suc end) = let rest = table_holds entry end in if entry end then rest else false

pub table_entry :
    (entry : ℕ → Bool) (end i : ℕ) → i < end → table_holds entry end ≡ true → entry i ≡ true
unfolding table_holds
table_entry entry zero i inside table = absurd (omega arith)
table_entry entry (suc end) i inside table = ground (arith, table_entry entry end i)

-- Two functions that agree at every number below a bound, by evaluation.
pub eq_below :
    (n : ℕ) (f g : ℕ → ℕ) (x : ℕ) → table_holds (λ y. f y == g y) n ≡ true → x < n → f x ≡ g x
eq_below n f g x table lt = (==_iff (f x) (g x)).0 (table_entry (λ y. f y == g y) n x lt table)
