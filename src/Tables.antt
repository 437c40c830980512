-- ===== src/Tables.antt =====
-- The maps of the C++ library (`std::map`, `std::unordered_map`) as lists of pairs, with what the code uses
-- of them. The key's `==` is an interface, for numbers and for strings of bytes.
use libbundle.Prelude.{
  Bool-cases, inl, inr, ◌∙◌, ℕ, ◌≡◌, ◌↔◌, refl, Bool, true, false, ◌&&◌, Option, none, some, List,
  [], ◌∷◌, Bytes, if◌then◌else◌, ◌==◌, ==_iff, arith,
}

pub record Key {ℓ} (K : Type ℓ) : Type ℓ where
  pub same : K → K → Bool
  pub same_iff : (a b : K) → (same a b ≡ true) ↔ (a ≡ b)

instance abbrev pub nat_key : Key ℕ
nat_key = record { same = ◌==◌; same_iff = ==_iff }

unfoldable pub bytes_eq : Bytes → Bytes → Bool
bytes_eq [] [] = true
bytes_eq [] (y ∷ ys) = false
bytes_eq (x ∷ xs) [] = false
bytes_eq (x ∷ xs) (y ∷ ys) = x == y && bytes_eq xs ys

pub bytes_eq_lem : (xs ys : Bytes) → (bytes_eq xs ys ≡ true) ↔ (xs ≡ ys)
unfolding bytes_eq
bytes_eq_lem [] [] = ground arith
bytes_eq_lem [] (y ∷ ys) = ground arith
bytes_eq_lem (x ∷ xs) [] = ground arith
bytes_eq_lem (x ∷ xs) (y ∷ ys) = ground (arith, bytes_eq_lem xs ys)

instance abbrev pub bytes_key : Key Bytes
bytes_key = record { same = bytes_eq; same_iff = bytes_eq_lem }

module _ {ℓ} {V : Type ℓ} where
  abbrev pub is_present : Option V → Bool
  is_present none = false
  is_present (some v) = true

  abbrev pub or_fresh : Option V → V → V
  or_fresh none fresh = fresh
  or_fresh (some v) fresh = v

module _ {ℓ} {K : Type ℓ} ⦃key : Key K⦄ where
  pub same_refl : (k : K) → key.same k k ≡ true
  same_refl k = (key.same_iff k k).1 refl

module _ {ℓ κ} {K : Type ℓ} {V : Type κ} ⦃key : Key K⦄ where
  -- `find`, whose end is `none`.
  unfoldable pub value_at : List (K × V) → K → Option V
  value_at [] k = none
  value_at ((j, v) ∷ m) k = let rest = value_at m k in if key.same j k then some v else rest

  -- `ContainsKey`.
  unfoldable pub contains_key : List (K × V) → K → Bool
  unfolding value_at
  contains_key m k = is_present (value_at m k)

  -- `insert`, which leaves the value of a key that is there, and says whether it added one.
  unfoldable pub emplace : List (K × V) → K → V → Bool × List (K × V)
  unfolding contains_key
  emplace m k v = if contains_key m k then (false, m) else (true, (k, v) ∷ m)

  -- `erase` of a key.
  unfoldable pub without : List (K × V) → K → List (K × V)
  without [] k = []
  without ((j, v) ∷ m) k = let rest = without m k in if key.same j k then rest else (j, v) ∷ rest

  -- A write through `operator[]`, where `change` makes the new value from the old one; `fresh` is what a
  -- missing key gets first.
  unfoldable pub write_at : List (K × V) → K → V → (V → V) → List (K × V)
  write_at [] k fresh change = (k, change fresh) ∷ []
  write_at ((j, v) ∷ m) k fresh change =
      let rest = write_at m k fresh change in
      if key.same j k then (j, change v) ∷ m else (j, v) ∷ rest

  -- A map is its lookup function; `update` changes it at one key.
  abbrev pub update : (K → Option V) → K → Option V → K → Option V
  update f k o j = if key.same k j then o else f j

  -- The lookup in a list with one pair more.
  pub value_at-cons :
      (m : List (K × V)) (k j : K) (v : V)
      → value_at ((k, v) ∷ m) j ≡ update (value_at m) k (some v) j
  unfolding value_at
  value_at-cons m k j v = refl

  pub value_at-without :
      (m : List (K × V)) (k j : K) → value_at (without m k) j ≡ update (value_at m) k none j
  unfolding value_at without
  value_at-without [] k j = ground arith
  value_at-without ((i, v) ∷ m) k j =
      grind (arith, value_at-without m k j, key.same_iff i k, key.same_iff i j, key.same_iff k j)

  pub value_at-write_at :
      (m : List (K × V)) (k j : K) (fresh : V) (change : V → V)
      → value_at (write_at m k fresh change) j
        ≡ update (value_at m) k (some (change (or_fresh (value_at m k) fresh))) j
  unfolding value_at write_at
  value_at-write_at [] k j fresh change = refl
  value_at-write_at ((i, v) ∷ m) k j fresh change = grind (
    arith,
    value_at-write_at m k j fresh change,
    key.same_iff i k,
    key.same_iff i j,
    key.same_iff k j,
  )

  -- No key twice.
  abbrev pub IsMap : List (K × V) → Type κ
  IsMap [] = Unit
  IsMap ((k, v) ∷ m) = (value_at m k ≡ none) × IsMap m

  pub write_at-IsMap :
      (m : List (K × V)) (k : K) (fresh : V) (change : V → V)
      → IsMap m
      → IsMap (write_at m k fresh change)
  unfolding value_at write_at
  write_at-IsMap [] k fresh change h = (refl, tt)
  write_at-IsMap ((j, v) ∷ m) k fresh change (h, hs) = elim (Bool-cases (key.same j k)) [
    | inl hit ↦ rw hit (h, hs)
    | inr miss ↦ rw miss (
      value_at-write_at m k j fresh change ∙ grind (arith, h, key.same_iff j k, key.same_iff k j),
      write_at-IsMap m k fresh change hs,
    )
  ]
