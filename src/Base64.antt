-- ===== src/Base64.antt =====
-- src/base64/base64.cpp: `base64_encode` and `base64_decode`, as loops over the bytes that are left,
-- with the index `i`, the scratch array and the output string as their state. An `unsigned char` is a
-- number kept below 256 by `% 256`, a shift by k is `* 2 ^ k` or `/ 2 ^ k`.
pub mod Tables
pub mod Blocks
pub mod RoundTrip
pub mod Reference
mod Tests
use libbundle.Prelude.{
  ℕ, zero, suc, ◌+◌, ◌-◌, ◌*◌, ◌/◌, ◌%◌, ◌^◌, bit_and, Bool, true, ◌&&◌, ◌||◌, not, [], ◌∷◌, ◌++◌,
  Bytes, codes, ltb, leb, ◌==◌, if◌then◌else◌, get_or, take,
}

abbrev pub base64_chars : Bytes
base64_chars = codes "ABCDEFGHIJKLMNOPQRSTUVWXYZabcdefghijklmnopqrstuvwxyz0123456789+/"

-- `isalnum` is that of the C locale.
abbrev pub is_alnum : ℕ → Bool
is_alnum c = leb b'0' c && leb c b'9' || leb b'A' c && leb c b'Z' || leb b'a' c && leb c b'z'

unfoldable pub is_base64 : ℕ → Bool
is_base64 c = is_alnum c || c == b'+' || c == b'/'

-- `char_array_3` and `char_array_4`.
pub record CharArray3 : Type 0 where
  pub c0 : ℕ
  pub c1 : ℕ
  pub c2 : ℕ

pub record CharArray4 : Type 0 where
  pub c0 : ℕ
  pub c1 : ℕ
  pub c2 : ℕ
  pub c3 : ℕ

-- `char_array_3[i] = v`.
pub store3 : CharArray3 → ℕ → ℕ → CharArray3
store3 a i v =
    if i == 0
    then record a { c0 = v }
    else if i == 1
    then record a { c1 = v }
    else if i == 2
    then record a { c2 = v }
    else a

pub store4 : CharArray4 → ℕ → ℕ → CharArray4
store4 a i v =
    if i == 0
    then record a { c0 = v }
    else if i == 1
    then record a { c1 = v }
    else if i == 2
    then record a { c2 = v }
    else if i == 3
    then record a { c3 = v }
    else a

-- The four indices that three bytes are cut into.
pub to_sextets : CharArray3 → CharArray4
to_sextets a = record {
  c0 = bit_and a.c0 0xfc / 2 ^ 2;
  c1 = (bit_and a.c0 0x03 * 2 ^ 4 + bit_and a.c1 0xf0 / 2 ^ 4) % 256;
  c2 = (bit_and a.c1 0x0f * 2 ^ 2 + bit_and a.c2 0xc0 / 2 ^ 6) % 256;
  c3 = bit_and a.c2 0x3f;
}

-- `base64_chars[i]`; the byte behind the end of a `std::string` is zero.
unfoldable pub char_at : ℕ → ℕ
char_at i = get_or base64_chars i 0

pub chars_of : CharArray4 → Bytes
chars_of a = char_at a.c0 ∷ char_at a.c1 ∷ char_at a.c2 ∷ char_at a.c3 ∷ []

-- `while (i++ < 3) ret_string += '='`, with i from 1 to 3.
pub padding : ℕ → Bytes
padding i = if i == 1 then b'=' ∷ b'=' ∷ [] else if i == 2 then b'=' ∷ [] else []

-- `for (j = i; j < 3; j++) char_array_3[j] = 0`.
pub zero_from3 : CharArray3 → ℕ → CharArray3
zero_from3 a i = record {
  c0 = if ltb 0 i then a.c0 else 0;
  c1 = if ltb 1 i then a.c1 else 0;
  c2 = if ltb 2 i then a.c2 else 0;
}

pub encode_tail : ℕ → CharArray3 → Bytes → Bytes
encode_tail i a out =
    if i == 0
    then out
    else out ++ (take (i + 1) (chars_of (to_sextets (zero_from3 a i))) ++ padding i)

pub encode_loop : Bytes → ℕ → CharArray3 → Bytes → Bytes
encode_loop [] i a out = encode_tail i a out
encode_loop (x ∷ xs) i a out =
    let a' = store3 a i x in
    let full = encode_loop xs 0 a' (out ++ chars_of (to_sextets a')) in
    let more = encode_loop xs (i + 1) a' out in if i + 1 == 3 then full else more

-- The scratch arrays are uninitialised; zeros stand for what they hold.
abbrev pub blank3 : CharArray3
blank3 = record { c0 = 0; c1 = 0; c2 = 0 }

abbrev pub blank4 : CharArray4
blank4 = record { c0 = 0; c1 = 0; c2 = 0; c3 = 0 }

pub base64_encode : Bytes → Bytes
unfolding encode_loop encode_tail store3 to_sextets chars_of padding zero_from3 char_at
base64_encode bytes = encode_loop bytes 0 blank3 []

-- `std::string::npos`.
abbrev pub npos : ℕ
npos = 2 ^ 64 - 1

-- `s.find(c)` from position i on.
unfoldable pub find_from : Bytes → ℕ → ℕ → ℕ
find_from [] c i = npos
find_from (x ∷ s) c i = let rest = find_from s c (i + 1) in if x == c then i else rest

-- `base64_chars.find(c)` stored into an `unsigned char`.
unfoldable pub index_of : ℕ → ℕ
unfolding find_from
index_of c = find_from base64_chars c 0 % 256

pub to_indices : CharArray4 → CharArray4
to_indices a = record {
  c0 = index_of a.c0;
  c1 = index_of a.c1;
  c2 = index_of a.c2;
  c3 = index_of a.c3;
}

-- The three bytes that four indices are joined into.
pub to_octets : CharArray4 → CharArray3
to_octets a = record {
  c0 = (a.c0 * 2 ^ 2 + bit_and a.c1 0x30 / 2 ^ 4) % 256;
  c1 = (bit_and a.c1 0xf * 2 ^ 4 + bit_and a.c2 0x3c / 2 ^ 2) % 256;
  c2 = (bit_and a.c2 0x3 * 2 ^ 6 + a.c3) % 256;
}

pub octets_of : CharArray3 → Bytes
octets_of a = a.c0 ∷ a.c1 ∷ a.c2 ∷ []

pub zero_from4 : CharArray4 → ℕ → CharArray4
zero_from4 a i = record {
  c0 = if ltb 0 i then a.c0 else 0;
  c1 = if ltb 1 i then a.c1 else 0;
  c2 = if ltb 2 i then a.c2 else 0;
  c3 = if ltb 3 i then a.c3 else 0;
}

pub decode_tail : ℕ → CharArray4 → Bytes → Bytes
decode_tail i a out =
    if i == 0
    then out
    else out ++ take (i - 1) (octets_of (to_octets (to_indices (zero_from4 a i))))

-- The loop's test: the character is not the padding, and is of the alphabet.
pub accepts : ℕ → Bool
unfolding is_base64
accepts c = not (c == b'=') && is_base64 c

pub decode_loop : Bytes → ℕ → CharArray4 → Bytes → Bytes
decode_loop [] i a out = decode_tail i a out
decode_loop (c ∷ s) i a out =
    let a' = store4 a i c in
    let full = decode_loop s 0 (to_indices a') (out ++ octets_of (to_octets (to_indices a'))) in
    let more = decode_loop s (i + 1) a' out in
    let stop = decode_tail i a out in if accepts c then if i + 1 == 4 then full else more else stop

pub base64_decode : Bytes → Bytes
unfolding decode_loop decode_tail store4 to_indices to_octets octets_of zero_from4 accepts index_of
base64_decode s = decode_loop s 0 blank4 []
