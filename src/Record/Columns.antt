-- ===== src/Record/Columns.antt =====
-- The types of the columns, in the tables at the top of server/recordserver/src/RecordProcess.cpp: which types of
-- MySQL the server knows, what it writes for them, and which of them a column may be changed to.
use libbundle.Prelude.{
  ℕ, ◌/◌, ◌%◌, Bool, true, false, not, Option, none, some, Bytes, codes, ltb, ◌==◌, if◌then◌else◌,
  length, ◌-◌, ◌>>=◌,
}
use libbundle.Clib.{ℤ, pos, negsuc, w32, w64, modulus, bits_of, of_bits, sign_and_digits, std_sto}
use libbundle.Entity.{
  Value, Setting, to_integer, to_float, to_bool, to_string, type_integer, type_float, type_bool,
  type_string,
}

-- `enum_field_types`: those of the tables, and the others by their numbers.
pub data FieldType : Type 0 where
  tiny long longlong float var_string blob long_blob : FieldType
  other_type : ℕ → FieldType

-- A row of `m2m`, in the order of its entries.
abbrev row : Bool → Bool → Bool → Bool → Bool → Bool → Bool → FieldType → Option Bool
row a b c d e f g tiny = some a
row a b c d e f g long = some b
row a b c d e f g longlong = some c
row a b c d e f g float = some d
row a b c d e f g var_string = some e
row a b c d e f g blob = some f
row a b c d e f g long_blob = some g
row a b c d e f g (other_type n) = none

-- `m2m`: whether a column of the first type is changed for a value of the second.
unfoldable pub m2m : FieldType → FieldType → Option Bool
m2m tiny t = row false true true true true true true t
m2m long t = row false false true true true true true t
m2m longlong t = row false false false true true true true t
m2m float t = row true true true false true true true t
m2m var_string t = row true true true true false true true t
m2m blob t = row true true true true false false true t
m2m long_blob t = row true true true true false false false t
m2m (other_type n) t = none

-- `m2string`.
unfoldable pub m2string : FieldType → Option Bytes
m2string tiny = some (codes "TINYINT")
m2string long = some (codes "INT")
m2string longlong = some (codes "BIGINT")
m2string float = some (codes "FLOAT")
m2string var_string = some (codes "VARCHAR(128)")
m2string blob = some (codes "TEXT")
m2string long_blob = some (codes "LONGTEXT")
m2string (other_type n) = none

abbrev pub def_varchar_length : ℕ
def_varchar_length = 128

-- Whether an integer is outside of the range of an s32.
abbrev is_wide : ℤ → Bool
is_wide (pos n) = ltb 0x7fffffff n
is_wide (negsuc n) = ltb 0x7fffffff n

-- `v2m`: the type of a column for a value.
unfoldable pub v2m : {Float : Type 0} → Value Float → FieldType
v2m v = elim v.type_of [
  | type_integer ↦ if is_wide v.value_integer then longlong else long
  | type_float ↦ float
  | type_bool ↦ tiny
  | type_string ↦
      if ltb 65535 (length v.value_string)
      then long_blob
      else if ltb def_varchar_length (length v.value_string)
      then blob
      else var_string
]

-- `std::stoul` and `std::stoull`; `none` is an exception.
unfoldable pub std_stoul : Bytes → Option ℕ
unfolding sign_and_digits
std_stoul s = do
  n ← (sign_and_digits s).1
  if ltb n (modulus w64)
      then some (if (sign_and_digits s).0 then (modulus w64 - n) % modulus w64 else n)
      else none

abbrev is_zero : ℤ → Bool
is_zero (pos n) = n == 0
is_zero (negsuc n) = false

-- An integer column: the conditional operator makes an unsigned number of both results.
abbrev read_integer : Bool → Bytes → Option ℕ
read_integer is_unsigned s =
    if is_unsigned then std_stoul s else (do z ← std_sto w64 s; some (bits_of w64 z))

-- `m2value`: what a text of the database sets a value to; the inner `none` is an exception.
unfoldable pub m2value :
    {Float : Type 0}
    → (Bytes → Option Float)
    → FieldType
    → Bool
    → Bytes
    → Option (Option (Setting Float))
unfolding std_sto std_stoul
m2value stof tiny is_unsigned s = some (do z ← std_sto w32 s; some (to_bool (not (is_zero z))))
m2value stof long is_unsigned s =
    some (do n ← read_integer is_unsigned s; some (to_integer (of_bits w64 n)))
m2value stof longlong is_unsigned s =
    some (do n ← read_integer is_unsigned s; some (to_integer (of_bits w64 n)))
m2value stof float is_unsigned s = some (do x ← stof s; some (to_float x))
m2value stof var_string is_unsigned s = some (some (to_string s))
m2value stof blob is_unsigned s = some (some (to_string s))
m2value stof long_blob is_unsigned s = some (some (to_string s))
m2value stof (other_type n) is_unsigned s = none

-- `IS_UNSIGNED`, whose flag is 32.
abbrev pub is_unsigned_flag : ℕ → Bool
is_unsigned_flag flags = flags / 32 % 2 == 1
