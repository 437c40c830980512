-- ===== src/Record/Widening.antt =====
-- The rules in front of the table `m2m` of server/recordserver/src/RecordProcess.cpp, and the table.
use libbundle.Prelude.{ℕ, ◌≡◌, Bool, true, false, not, ◌||◌, ◌&&◌, some, none, ltb, arith}
use libbundle.Record.Columns.{
  FieldType, tiny, long, longlong, float, var_string, blob, long_blob, other_type, m2m,
}

-- The families of the types, and the sizes in a family.
pub data Family : Type 0 where
  integers floats texts others : Family

abbrev pub family_of : FieldType → Family
family_of tiny = integers
family_of long = integers
family_of longlong = integers
family_of float = floats
family_of var_string = texts
family_of blob = texts
family_of long_blob = texts
family_of (other_type n) = others

abbrev pub size_in_family : FieldType → ℕ
size_in_family tiny = 1
size_in_family long = 4
size_in_family longlong = 8
size_in_family float = 4
size_in_family var_string = 128
size_in_family blob = 65535
size_in_family long_blob = 4294967295
size_in_family (other_type n) = 0

abbrev pub same_family : Family → Family → Bool
same_family integers integers = true
same_family floats floats = true
same_family texts texts = true
same_family others others = true
same_family f g = false

-- The types of the tables.
abbrev pub is_known : FieldType → Bool
is_known (other_type n) = false
is_known t = true

-- A type that the tables know is changed to another such type exactly where the two are of different families, or
-- the new one is the larger one of the family; and types that the tables do not know are in neither of them.
pub m2m_rules :
    (a b : FieldType)
    → (is_known a && is_known b ≡ true
        → m2m a b
          ≡ some (
              not (same_family (family_of a) (family_of b))
              || ltb (size_in_family a) (size_in_family b)))
      × (is_known a && is_known b ≡ false → m2m a b ≡ none)
unfolding m2m
m2m_rules a b = ground arith
