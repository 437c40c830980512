-- ===== src/Tools/Utf8.antt =====
-- `isUTF8String` of src/tools/Tools.cpp.
use libbundle.Prelude.{
  ℕ, zero, suc, Bool, true, false, ◌&&◌, Option, none, some, [], ◌∷◌, Bytes, ◌==◌, leb, bit_and,
  if◌then◌else◌,
}

-- Whether the byte after 0xed makes a surrogate; at the end of the string there is no such byte.
abbrev pub is_surrogate : ℕ → Bytes → Bool
is_surrogate c [] = false
is_surrogate c (next ∷ s) = c == 0xed && bit_and next 0xa0 == 0xa0

-- `n`, the number of bytes that have to follow the byte c, where s is what does; `none` is a refusal.
unfoldable pub following : ℕ → Bytes → Option ℕ
following c s =
    if leb c 0x7f
    then some 0
    else if bit_and c 0xe0 == 0xc0
    then some 1
    else if is_surrogate c s
    then none
    else if bit_and c 0xf0 == 0xe0
    then some 2
    else if bit_and c 0xf8 == 0xf0
    then some 3
    else none

-- `(byte & 0xC0) == 0x80`.
abbrev pub is_continued : ℕ → Bool
is_continued c = bit_and c 0xc0 == 0x80

-- The two loops: j of the n bytes have still to come.
unfoldable pub utf8_loop : ℕ → Bytes → Bool
utf8_loop zero [] = true
utf8_loop (suc j) [] = false
utf8_loop zero (c ∷ s) = elim (following c s) [ none ↦ false | some n ↦ utf8_loop n s ]
utf8_loop (suc j) (c ∷ s) = let rest = utf8_loop j s in if is_continued c then rest else false

unfoldable pub is_utf8_string : Bytes → Bool
is_utf8_string s = utf8_loop 0 s
