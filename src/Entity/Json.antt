-- ===== src/Entity/Json.antt =====
-- `ParseFromString` and `SerializeToString` of src/entity/Entity.cpp. What the parser of JSON makes of a text is
-- an argument, and so is the text of a floating point number. The order of a map is that of its list.
use libbundle.Prelude.{
  ℕ, Bool, true, false, not, ◌||◌, Option, none, some, List, [], ◌∷◌, ◌++◌, Bytes, codes,
  if◌then◌else◌,
}
use libbundle.Clib.{c_str, ℤ, pos, w64, of_bits, unsigned_text, signed_text}
use libbundle.Entity.{
  type_integer, type_float, type_bool, type_string, Value, Setting, to_integer, to_float, to_bool,
  to_string, Values, Entity, assign,
}

module _ (Float : Type 0) where
  -- A value of a document, by the tests of rapidjson that the code makes.
  pub data JsonValue : Type 0 where
    number_double : Float → JsonValue
    number_int number_int64 : ℤ → JsonValue
    number_uint number_uint64 : ℕ → JsonValue
    text : Bytes → JsonValue
    truth : Bool → JsonValue
    null object array : JsonValue

  pub data Document : Type 0 where
    parse_error no_object : Document
    members : List (Bytes × JsonValue) → Document

module _ {Float : Type 0} where
  -- What is assigned; `none` is a refusal. A u64 becomes the s64 with its bits.
  abbrev pub setting_of : JsonValue Float → Option (Setting Float)
  setting_of (number_double x) = some (to_float x)
  setting_of (number_int z) = some (to_integer z)
  setting_of (number_int64 z) = some (to_integer z)
  setting_of (number_uint n) = some (to_integer (pos n))
  setting_of (number_uint64 n) = some (to_integer (of_bits w64 n))
  setting_of (text s) = some (to_string (c_str s))
  setting_of (truth b) = some (to_bool b)
  setting_of null = none
  setting_of object = none
  setting_of array = none

  -- The loop over the members.
  unfoldable pub parse_members : List (Bytes × JsonValue Float) → Values Float → Bool × Values Float
  parse_members [] m = (true, m)
  parse_members ((name, value) ∷ rest) m = elim (setting_of value) [
    | none ↦ (false, m)
    | some s ↦ parse_members rest (assign m (c_str name) s)
  ]

  unfoldable pub parse_from_string : Document Float → Values Float → Bool × Values Float
  parse_from_string parse_error m = (false, m)
  parse_from_string no_object m = (false, m)
  parse_from_string (members ms) m = parse_members ms m

  module _ (float_text : Option Float → Bytes) where
    unfoldable pub value_text : Value Float → Bytes
    value_text v = elim v.type_of [
      | type_integer ↦ signed_text v.value_integer
      | type_float ↦ float_text v.value_float
      | type_bool ↦ if v.value_bool then codes "true" else codes "false"
      | type_string ↦ b'"' ∷ v.value_string ++ b'"' ∷ []
    ]

    unfoldable pub member_text : Bytes → Value Float → Bytes
    member_text name v = b',' ∷ b'"' ∷ name ++ b'"' ∷ b':' ∷ value_text v

    -- The loop over the values.
    unfoldable pub values_text : Bool → Values Float → Bytes
    values_text only_dirty [] = []
    values_text only_dirty ((name, v) ∷ m) =
        let rest = values_text only_dirty m in
        if not only_dirty || v.dirty then member_text name v ++ rest else rest

    unfoldable pub serialize_to_string : Bool → Entity Float → Bytes
    serialize_to_string only_dirty e =
        codes "{\"id\":" ++ unsigned_text e.id ++ values_text only_dirty e.values ++ codes "}"
