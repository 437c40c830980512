-- ===== src/Registry.antt =====
-- src/tools/Registry.cpp: a table of strings under the types of their values. A `const char*` is the bytes
-- before its terminator. The overloads for `float` and `double` are not modelled.
pub mod Values
pub mod Refine
mod Tests
use libbundle.Prelude.{
  ℕ, ◌%◌, Bool, true, false, Option, none, some, List, [], ◌∷◌, Bytes, codes, take, ◌==◌, leb, ◌&&◌,
  ◌+◌, if◌then◌else◌,
}
use libbundle.Tables.{bytes_key, value_at, contains_key, emplace, without, bytes_eq}
use libbundle.Clib.{
  c_str, ℤ, Width, modulus, bits_of, of_bits, unsigned_text, signed_text, strtoul, strtol,
}

-- `_values`, with different keys.
abbrev pub Registry : Type 0
Registry = List (Bytes × Bytes)

-- `setValue`: `insert`, so that a key keeps the value that it has.
unfoldable pub set_value : Bytes → Bytes → Registry → Bool × Registry
set_value k text r = emplace r k (c_str text)

-- `SET_VALUE`: `snprintf` into 1024 bytes, the last of which is the terminator.
unfoldable pub set_formatted : Bytes → Bytes → Registry → Bool × Registry
set_formatted k text r = set_value k (take 1023 text) r

unfoldable pub set_bool : Bytes → Bool → Registry → Bool × Registry
set_bool k v r = set_formatted k (if v then codes "true" else codes "false") r

-- `set` for u8, u16, u32 and u64, whose values are below the modulus of their type.
unfoldable pub set_unsigned : Bytes → ℕ → Registry → Bool × Registry
set_unsigned k v r = set_formatted k (unsigned_text v) r

-- `set` for s8, s16, s32 and s64.
unfoldable pub set_signed : Bytes → ℤ → Registry → Bool × Registry
set_signed k v r = set_formatted k (signed_text v) r

-- `set` for `char*`, and for `std::string` with its `c_str()`.
unfoldable pub set_text : Bytes → Bytes → Registry → Bool × Registry
set_text k v r = set_formatted k (c_str v) r

-- `getValue`; `none` is the null pointer.
unfoldable pub get_value : Bytes → Registry → Option Bytes
get_value k r = value_at r k

-- `tolower` of the C locale, and `strcasecmp(a, b) == 0`.
abbrev pub to_lower : ℕ → ℕ
to_lower c = if leb b'A' c && leb c b'Z' then c + 32 else c

unfoldable pub same_letters : Bytes → Bytes → Bool
same_letters [] [] = true
same_letters [] (y ∷ ys) = false
same_letters (x ∷ xs) [] = false
same_letters (x ∷ xs) (y ∷ ys) = to_lower x == to_lower y && same_letters xs ys

-- The `get`s: what is read of the text, or the default.
abbrev pub or_default {ℓ} : {A : Type ℓ} → Option Bytes → (Bytes → A) → A → A
or_default none read default = default
or_default (some text) read default = read text

unfoldable pub get_bool : Bytes → Bool → Registry → Bool
get_bool k default r = or_default (get_value k r) (λ text. same_letters text (codes "true")) default

-- For u8, u16, u32 and u64, from `strtoul`.
unfoldable pub get_unsigned : Width → Bytes → ℕ → Registry → ℕ
get_unsigned w k default r = or_default (get_value k r) (λ text. strtoul text % modulus w) default

-- For s8, s16, s32 and s64, from `strtol`.
unfoldable pub get_signed : Width → Bytes → ℤ → Registry → ℤ
get_signed w k default r =
    or_default (get_value k r) (λ text. of_bits w (bits_of w (strtol text))) default

-- For `char*`.
unfoldable pub get_text : Bytes → Bytes → Registry → Bytes
get_text k default r = or_default (get_value k r) (λ text. text) default

unfoldable pub find_key : Bytes → Registry → Bool
find_key k r = contains_key r k

unfoldable pub remove_key : Bytes → Registry → Registry
remove_key k r = without r k

abbrev pub clear : Registry → Registry
clear r = []
