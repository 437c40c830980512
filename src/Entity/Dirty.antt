-- ===== src/Entity/Dirty.antt =====
-- The marks of changed values in src/entity/Entity.cpp.
use libbundle.Prelude.{
  ◌≡◌, ◌∙◌, refl, sym, ap, Bool, true, false, ◌||◌, Option, none, List, [], ◌∷◌, ◌++◌, Bytes, codes,
  if◌then◌else◌, All, arith, Bool-cases, inl, inr,
}
use libbundle.Tables.{bytes_key, bytes_eq, bytes_eq_lem, value_at, write_at, IsMap, write_at-IsMap}
use libbundle.Entity.{
  Value, Setting, to_integer, to_float, to_bool, to_string, Values, Entity, assign, set_to,
  undefined, clear_dirty,
}
use libbundle.Clib.{unsigned_text}
use libbundle.Entity.Json.{member_text, values_text, serialize_to_string}

bytes_eq_sym : (j k : Bytes) → bytes_eq j k ≡ bytes_eq k j
bytes_eq_sym j k = grind (arith, bytes_eq_lem j k, bytes_eq_lem k j)

module _ {Float : Type 0} where
  -- Assignments, in their order, and whether there is one to a name.
  abbrev pub assign_all : List (Bytes × Setting Float) → Values Float → Values Float
  assign_all [] m = m
  assign_all ((k, s) ∷ ws) m = assign_all ws (assign m k s)

  abbrev pub assigned : List (Bytes × Setting Float) → Bytes → Bool
  assigned [] n = false
  assigned ((k, s) ∷ ws) n = bytes_eq k n || assigned ws n

  -- The values of the names with a property.
  abbrev pub kept : (Bytes → Bool) → Values Float → Values Float
  kept seen [] = []
  kept seen ((n, v) ∷ m) = let rest = kept seen m in if seen n then (n, v) ∷ rest else rest

  -- The values of these names and no others are dirty.
  abbrev Marks : (Bytes → Bool) → Values Float → Type 0
  Marks seen m = All (λ p. p.1.dirty ≡ seen p.0) m

  set_to_dirty : (s : Setting Float) (v : Value Float) → (set_to s v).dirty ≡ true
  set_to_dirty (to_integer z) v = refl
  set_to_dirty (to_float x) v = refl
  set_to_dirty (to_bool b) v = refl
  set_to_dirty (to_string t) v = refl

  -- A name without a value has no mark.
  Marks-missing :
      (m : Values Float) (k : Bytes) (seen : Bytes → Bool)
      → value_at m k ≡ none
      → Marks seen m
      → Marks (λ n. bytes_eq k n || seen n) m
  unfolding value_at
  Marks-missing [] k seen e h = tt
  Marks-missing ((i, w) ∷ m) k seen e (hi, h) =
      let miss : bytes_eq i k ≡ false = ground arith in
      let rest : value_at m k ≡ none = ground arith in
      (
        hi ∙ ap (λ b. b || seen i) (sym (sym (bytes_eq_sym i k) ∙ miss)),
        Marks-missing m k seen rest h,
      )

  assign-Marks :
      (m : Values Float) (k : Bytes) (s : Setting Float) (seen : Bytes → Bool)
      → IsMap m
      → Marks seen m
      → Marks (λ n. bytes_eq k n || seen n) (assign m k s)
  unfolding assign write_at
  assign-Marks [] k s seen u h =
      (set_to_dirty s undefined ∙ ap (λ b. b || seen k) (sym ((bytes_eq_lem k k).1 refl)), tt)
  assign-Marks ((j, v) ∷ m) k s seen (u, us) (hj, h) = elim (Bool-cases (bytes_eq j k)) [
    | inl hit ↦ rw hit (
      set_to_dirty s v ∙ ap (λ b. b || seen j) (sym (sym (bytes_eq_sym j k) ∙ hit)),
      Marks-missing m k seen (ap (value_at m) (sym ((bytes_eq_lem j k).0 hit)) ∙ u) h,
    )
    | inr miss ↦ rw miss (
      hj ∙ ap (λ b. b || seen j) (sym (sym (bytes_eq_sym j k) ∙ miss)),
      assign-Marks m k s seen us h,
    )
  ]

  Marks-equal :
      (m : Values Float) (f g : Bytes → Bool) → ((n : Bytes) → f n ≡ g n) → Marks f m → Marks g m
  Marks-equal [] f g e h = tt
  Marks-equal ((j, v) ∷ m) f g e (hj, h) = (hj ∙ e j, Marks-equal m f g e h)

  assign_all-Marks :
      (ws : List (Bytes × Setting Float)) (m : Values Float) (seen : Bytes → Bool)
      → IsMap m
      → Marks seen m
      → Marks (λ n. assigned ws n || seen n) (assign_all ws m)
  unfolding assign
  assign_all-Marks [] m seen u h = h
  assign_all-Marks ((k, s) ∷ ws) m seen u h =
      Marks-equal (assign_all ws (assign m k s)) (λ n. assigned ws n || (bytes_eq k n || seen n))
        (λ n. assigned ((k, s) ∷ ws) n || seen n) (λ n. ground arith)
        (assign_all-Marks ws (assign m k s) (λ n. bytes_eq k n || seen n)
          (write_at-IsMap m k undefined (set_to s) u) (assign-Marks m k s seen u h))

  clear_dirty-Marks : (m : Values Float) → Marks (λ n. false) (clear_dirty m)
  unfolding clear_dirty
  clear_dirty-Marks [] = tt
  clear_dirty-Marks ((j, v) ∷ m) = (refl, clear_dirty-Marks m)

  value_at-clear_dirty :
      (m : Values Float) (k : Bytes) → value_at m k ≡ none → value_at (clear_dirty m) k ≡ none
  unfolding clear_dirty value_at
  value_at-clear_dirty [] k h = refl
  value_at-clear_dirty ((j, v) ∷ m) k h = ground (arith, value_at-clear_dirty m k)

  clear_dirty-IsMap : (m : Values Float) → IsMap m → IsMap (clear_dirty m)
  unfolding clear_dirty
  clear_dirty-IsMap [] h = tt
  clear_dirty-IsMap ((j, v) ∷ m) (hj, h) = (value_at-clear_dirty m j hj, clear_dirty-IsMap m h)

  values_text-kept :
      (float_text : Option Float → Bytes) (m : Values Float) (seen : Bytes → Bool)
      → Marks seen m
      → values_text float_text true m ≡ values_text float_text false (kept seen m)
  unfolding values_text
  values_text-kept float_text [] seen h = refl
  values_text-kept float_text ((j, v) ∷ m) seen (hj, h) =
      let rest = values_text-kept float_text m seen h in
      elim (Bool-cases (seen j)) [
        | inl hit ↦ simp (hj, hit) (ap (λ s. member_text float_text j v ++ s) rest)
        | inr miss ↦ simp (hj, miss) rest
      ]

  -- After `clearDirty` and any assignments, what `SerializeToString` writes of the dirty values is what it
  -- writes of all the values of the names that were assigned since. The values are a map: no name is in them twice.
  pub serialize_to_string-assign_all :
      (float_text : Option Float → Bytes) (ws : List (Bytes × Setting Float)) (e : Entity Float)
      → IsMap e.values
      → let after = assign_all ws (clear_dirty e.values) in
        serialize_to_string float_text true (record { id = e.id; values = after })
        ≡ serialize_to_string float_text false
            (record { id = e.id; values = kept (assigned ws) after })
  unfolding serialize_to_string
  serialize_to_string-assign_all float_text ws e u =
      let after = assign_all ws (clear_dirty e.values) in
      let marks =
        Marks-equal after (λ n. assigned ws n || false) (assigned ws) (λ n. ground arith)
          (assign_all-Marks ws (clear_dirty e.values) (λ n. false) (clear_dirty-IsMap e.values u)
            (clear_dirty-Marks e.values)) in
      ap (λ s. codes "{\"id\":" ++ unsigned_text e.id ++ s ++ codes "}")
        (values_text-kept float_text after (assigned ws) marks)
