-- ===== src/Entity.antt =====
-- src/entity/Entity.cpp and deps/bundle-0.01/include/entity/Entity.h: an entity's values under their names. The
-- floating point numbers and their text are parameters, and so is the parser of JSON.
pub mod Json
pub mod Dirty
pub mod Parsing
mod Tests
use libbundle.Prelude.{
  ℕ, Bool, true, false, not, ◌||◌, Option, none, some, List, [], ◌∷◌, ◌++◌, Bytes, codes,
  if◌then◌else◌, ◌>>=◌, map,
}
use libbundle.Tables.{bytes_key, value_at, contains_key, write_at}
use libbundle.Clib.{ℤ, pos, w64, of_bits, unsigned_text, signed_text}

-- `value_type`.
pub data ValueType : Type 0 where
  type_integer type_float type_bool type_string : ValueType

abbrev pub same_type : ValueType → ValueType → Bool
same_type type_integer type_integer = true
same_type type_float type_float = true
same_type type_bool type_bool = true
same_type type_string type_string = true
same_type a b = false

module _ (Float : Type 0) where
  -- `Entity::Value`; a float that nobody has set is `none`.
  pub record Value : Type 0 where
    pub type_of : ValueType
    pub value_integer : ℤ
    pub value_float : Option Float
    pub value_bool : Bool
    pub value_string : Bytes
    pub dirty : Bool

  -- What `set` is called with; the integer types arrive as the s64 that is stored.
  pub data Setting : Type 0 where
    to_integer : ℤ → Setting
    to_float : Float → Setting
    to_bool : Bool → Setting
    to_string : Bytes → Setting

  abbrev pub Values : Type 0
  Values = List (Bytes × Value)

  pub record Entity : Type 0 where
    pub id : ℕ
    pub values : Values

module _ {Float : Type 0} where
  -- `Value()`.
  abbrev pub undefined : Value Float
  undefined = record {
    type_of = type_string;
    value_integer = pos 0;
    value_float = none;
    value_bool = false;
    value_string = codes "UNDEFINED";
    dirty = false;
  }

  -- `set`.
  abbrev pub set_to : Setting Float → Value Float → Value Float
  set_to (to_integer z) v = record v { type_of = type_integer; value_integer = z; dirty = true }
  set_to (to_float x) v = record v { type_of = type_float; value_float = some x; dirty = true }
  set_to (to_bool b) v = record v { type_of = type_bool; value_bool = b; dirty = true }
  set_to (to_string s) v = record v { type_of = type_string; value_string = s; dirty = true }

  -- `this->_values[name] = value`.
  unfoldable pub assign : Values Float → Bytes → Setting Float → Values Float
  unfolding write_at
  assign m name s = write_at m name undefined (set_to s)

  -- `GetValue` and `operator[]`, where the value is only read.
  unfoldable pub touch : Values Float → Bytes → Values Float
  unfolding write_at
  touch m name = write_at m name undefined (λ v. v)

  unfoldable pub has_member : Values Float → Bytes → Bool
  unfolding contains_key
  has_member m name = contains_key m name

  -- `CHECK_VALUE_TYPE`, for `IsInteger`, `IsFloat`, `IsBool` and `IsString`.
  unfoldable pub is_type : ValueType → Values Float → Bytes → Bool
  unfolding value_at
  is_type t m name = elim (value_at m name) [ none ↦ false | some v ↦ same_type v.type_of t ]

  unfoldable pub is_number : Values Float → Bytes → Bool
  unfolding is_type
  is_number m name = is_type type_integer m name || is_type type_float m name

  -- `GET_VALUE`; `none` is a failed assertion.
  unfoldable pub get_of_type : ValueType → Values Float → Bytes → Option (Value Float)
  unfolding value_at
  get_of_type t m name = do v ← value_at m name; if same_type v.type_of t then some v else none

  unfoldable pub get_integer : Values Float → Bytes → Option ℤ
  unfolding get_of_type
  get_integer m name = do v ← get_of_type type_integer m name; some v.value_integer

  unfoldable pub get_float : Values Float → Bytes → Option Float
  unfolding get_of_type
  get_float m name = do v ← get_of_type type_float m name; v.value_float

  unfoldable pub get_bool : Values Float → Bytes → Option Bool
  unfolding get_of_type
  get_bool m name = do v ← get_of_type type_bool m name; some v.value_bool

  unfoldable pub get_string : Values Float → Bytes → Option Bytes
  unfolding get_of_type
  get_string m name = do v ← get_of_type type_string m name; some v.value_string

  abbrev pub clean : Value Float → Value Float
  clean v = record v { dirty = false }

  -- `clearDirty`.
  unfoldable pub clear_dirty : Values Float → Values Float
  clear_dirty [] = []
  clear_dirty ((name, v) ∷ m) = (name, clean v) ∷ clear_dirty m

  abbrev pub cleared : Values Float → Values Float
  cleared m = []
