-- ===== src/Entity/Parsing.antt =====
-- What `ParseFromString` of src/entity/Entity.cpp leaves of a document.
use libbundle.Prelude.{
  ltb, ◌-◌, ◌≡◌, Bool, true, false, Option, none, some, List, [], ◌∷◌, Bytes, if◌then◌else◌,
}
use libbundle.Tables.{bytes_key, bytes_eq, value_at}
use libbundle.Clib.{c_str, pos, negsuc}
use libbundle.Entity.{
  Value, Setting, to_integer, to_float, to_bool, to_string, Values, set_to, get_integer, get_string,
  get_bool, get_float,
}
use libbundle.Entity.Json.{
  JsonValue, number_double, number_int, number_int64, number_uint, number_uint64, text, truth, null,
  object, array,
}

module _ {Float : Type 0} where
  -- What a value of a document says; `none` for one that is no number, no string and no truth value. A number of 64
  -- bits without a sign is the signed one with its bits, and a string ends at its first zero byte.
  abbrev pub said : JsonValue Float → Option (Setting Float)
  said (number_double x) = some (to_float x)
  said (number_int z) = some (to_integer z)
  said (number_int64 z) = some (to_integer z)
  said (number_uint n) = some (to_integer (pos n))
  said (number_uint64 n) =
      some
        (to_integer (if ltb n 0x8000000000000000 then pos n else negsuc (0xffffffffffffffff - n)))
  said (text s) = some (to_string (c_str s))
  said (truth b) = some (to_bool b)
  said null = none
  said object = none
  said array = none

  -- The assignments that the members make, up to the first one that says nothing, and whether none does.
  abbrev pub settings_of : List (Bytes × JsonValue Float) → List (Bytes × Setting Float)
  settings_of [] = []
  settings_of ((name, value) ∷ ms) =
      let rest = settings_of ms in elim (said value) [ none ↦ [] | some s ↦ (c_str name, s) ∷ rest ]

  abbrev pub accepted : List (Bytes × JsonValue Float) → Bool
  accepted [] = true
  accepted ((name, value) ∷ ms) =
      let rest = accepted ms in elim (said value) [ none ↦ false | some s ↦ rest ]

  -- What a `GetX` finds after the assignment of a setting.
  abbrev pub Reads : Values Float → Bytes → Setting Float → Type 0
  Reads m k (to_integer z) = get_integer m k ≡ some z
  Reads m k (to_float x) = get_float m k ≡ some x
  Reads m k (to_bool b) = get_bool m k ≡ some b
  Reads m k (to_string s) = get_string m k ≡ some s

  -- The last assignment to a name.
  abbrev pub last_setting :
      List (Bytes × Setting Float) → Bytes → Option (Setting Float) → Option (Setting Float)
  last_setting [] k last = last
  last_setting ((j, s) ∷ ws) k last =
      let this = last_setting ws k (some s) in
      let other = last_setting ws k last in if bytes_eq j k then this else other

  -- What a name holds after the assignment of a setting: its type and value, and the mark.
  HoldsSetting : Values Float → Bytes → Option (Setting Float) → Type 0
  HoldsSetting m k none = Unit
  HoldsSetting m k (some s) = (old : Value Float) × (value_at m k ≡ some (set_to s old))
