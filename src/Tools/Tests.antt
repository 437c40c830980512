-- ===== src/Tools/Tests.antt =====
-- src/tools/Tools.cpp at concrete inputs.
use libbundle.Prelude.{
  none, ◌+◌, ◌∙◌, append-nil, ℕ, ◌≡◌, refl, true, false, some, Option, List, [], ◌∷◌, ◌++◌, Bytes,
  codes, arith, length, ◌≤◌, All, inl, inr, map,
}
use libbundle.Clib.{pos, negsuc, w64, std_sto, digits, sign_and_digits}
use libbundle.Tables.{bytes_key, value_at, bytes_eq}
use libbundle.Tools.Split.{
  split_string, split_loop, split_string_lem, filename_extension, behind_dot, join, IsFree,
}
use libbundle.Tools.Numbers.{
  split_numbers, number_loop, numbers_text, as_int, split_numbers-numbers_text,
}
use libbundle.Tools.Utf8.{is_utf8_string, utf8_loop, following}
use libbundle.Tools.Encoded.{encode_all, is_utf8_string-encode_all}
use libbundle.Tools.Blocks.{Direction, openssl_des_encrypt, openssl_des_decrypt, IsCipher}
use libbundle.Tools.Padding.{filling, openssl_des_decrypt-openssl_des_encrypt}
use libbundle.Tools.Endpoint.{
  combine_network_endpoint, split_network_endpoint, split_network_endpoint-combine_network_endpoint,
}
use libbundle.Tools.Random.{
  Kinds, random_loop, random_loop_ends, any_kind, wants_character, wanted_draws,
}
use libbundle.Tools.Jscode.{
  Json, string, other, Called, curl_write_callback, curl_write_callback_fails, reports_success,
  check_members,
}

split_string_lem_test :
    (p : Bytes) × (ps : List Bytes) × (split_string b',' (codes "a,,b,") ≡ p ∷ ps)
    × IsFree b',' p
    × All (IsFree b',') ps
    × (join b',' p ps ≡ codes "a,,b,")
    × ((q : Bytes) (qs : List Bytes)
        → IsFree b',' q
        → All (IsFree b',') qs
        → split_string b',' (join b',' q qs) ≡ q ∷ qs)
split_string_lem_test = split_string_lem b',' (codes "a,,b,")

-- An empty piece at the end is a piece.
split_list : split_string b',' (codes "a,,b,") ≡ codes "a" ∷ [] ∷ codes "b" ∷ [] ∷ []
unfolding split_string split_loop
split_list = refl

split_name : filename_extension (codes "a.tar.gz") ≡ some (codes "tar.gz")
unfolding filename_extension behind_dot
split_name = refl

split_numbers-numbers_text_test :
    split_numbers w64 b',' (numbers_text b',' (pos 4294967301) (negsuc 6 ∷ [])) []
    ≡ (true, map as_int (pos 4294967301 ∷ negsuc 6 ∷ []))
split_numbers-numbers_text_test =
    split_numbers-numbers_text w64 b',' (pos 4294967301) (negsuc 6 ∷ []) [] refl (λ e. ground arith)
      (omega arith) (omega arith, tt)

-- 2 ^ 32 + 5 arrives as 5 in a vector of `long`.
long_cut : split_numbers w64 b',' (codes "4294967301,-7") [] ≡ (true, pos 5 ∷ negsuc 6 ∷ [])
unfolding split_numbers number_loop std_sto sign_and_digits digits
long_cut = refl

is_utf8_string-encode_all_example :
    is_utf8_string (encode_all (0x41 ∷ 0xe9 ∷ 0x20ac ∷ 0x1f600 ∷ [])) ≡ true
is_utf8_string-encode_all_example =
    is_utf8_string-encode_all (0x41 ∷ 0xe9 ∷ 0x20ac ∷ 0x1f600 ∷ []) (
      inl (omega arith),
      (inl (omega arith), (inl (omega arith), (inr (omega arith, omega arith), tt))),
    )

-- A zero in two bytes, and a number above the last code point, are accepted.
overlong : is_utf8_string (0xc0 ∷ 0x80 ∷ []) ≡ true
unfolding is_utf8_string utf8_loop following
overlong = refl

too_large : is_utf8_string (0xf4 ∷ 0x90 ∷ 0x80 ∷ 0x80 ∷ []) ≡ true
unfolding is_utf8_string utf8_loop following
too_large = refl

surrogate : is_utf8_string (0xed ∷ 0xa0 ∷ 0x80 ∷ []) ≡ false
unfolding is_utf8_string utf8_loop following
surrogate = refl

-- A block that is reversed is a block, and is reversed back.
abbrev reversed : Bytes → Bytes → Bytes
reversed [] acc = acc
reversed (x ∷ xs) acc = reversed xs (x ∷ acc)

abbrev reversing : Direction → Bytes → Bytes → Bytes
reversing dir key s = reversed s []

length-reversed : (s acc : Bytes) → length (reversed s acc) ≡ length s + length acc
length-reversed [] acc = omega arith
length-reversed (x ∷ s) acc = omega (arith, length-reversed s (x ∷ acc))

reversed_twice : (s acc end : Bytes) → reversed (reversed s acc) end ≡ reversed acc (s ++ end)
reversed_twice [] acc end = refl
reversed_twice (x ∷ s) acc end = reversed_twice s (x ∷ acc) end

abbrev reversing-IsCipher : IsCipher reversing
reversing-IsCipher = record {
  block = λ dir key s h. omega (arith, length-reversed s []);
  undone = λ key s h. reversed_twice s [] [] ∙ append-nil s;
}

openssl_des_decrypt-openssl_des_encrypt_example :
    openssl_des_decrypt reversing
      (openssl_des_encrypt reversing (codes "ten bytes!") (codes "key"))
      (codes "key")
    ≡ codes "ten bytes!" ++ filling (codes "ten bytes!")
openssl_des_decrypt-openssl_des_encrypt_example =
    openssl_des_decrypt-openssl_des_encrypt reversing reversing-IsCipher (codes "ten bytes!")
      (codes "key") (omega arith)

abbrev aton : Bytes → Option ℕ
aton s = some 0x0100007f

abbrev ntoa : ℕ → Bytes
ntoa n = codes "127.0.0.1"

endpoint_back :
    split_network_endpoint aton ntoa (combine_network_endpoint aton ntoa (codes "127.0.0.1") 8080)
    ≡ (codes "127.0.0.1", 8080)
endpoint_back =
    split_network_endpoint-combine_network_endpoint aton ntoa (codes "127.0.0.1") 0x0100007f 8080
      refl (omega arith) (omega arith)

abbrev digits_only : Kinds
digits_only = record { has_digit = true; has_lowercase = false; has_uppercase = false }

random_loop_ends_example :
    (any_kind digits_only ≡ true
      → 2 ≤ wanted_draws digits_only (7 ∷ 40 ∷ 3 ∷ [])
      → (added : Bytes) × (random_loop (7 ∷ 40 ∷ 3 ∷ []) digits_only 2 [] ≡ some ([] ++ added))
        × (length added ≡ 2)
        × All (λ c. wants_character digits_only c ≡ true) added)
    × (any_kind digits_only ≡ false → random_loop (7 ∷ 40 ∷ 3 ∷ []) digits_only 2 [] ≡ some [])
random_loop_ends_example =
    random_loop_ends (7 ∷ 40 ∷ 3 ∷ []) digits_only 2 []
      (omega arith, (omega arith, (omega arith, tt)))

random_digits : random_loop (7 ∷ 40 ∷ 3 ∷ []) digits_only 2 [] ≡ some (codes "73")
unfolding random_loop
random_digits = refl

-- An answer as it should be.
abbrev answer : Bytes → Option (List (Bytes × Json))
answer ptr =
    some ((codes "session_key", string (codes "k")) ∷ (codes "openid", string (codes "o")) ∷ [])

abbrev key_missing : Called
key_missing = some (false, codes "not found `session_key`", codes "{}")

abbrev id_missing : Called
id_missing = some (false, codes "not found `openid`", codes "{}")

curl_write_callback_fails_example :
    (reports_success (curl_write_callback answer (codes "{}")) ≡ false)
    × ((document : List (Bytes × Json))
        → answer (codes "{}") ≡ some document
        → value_at document (codes "errcode") ≡ none
        → ((s : Bytes)
            → value_at document (codes "session_key") ≡ some (string s)
            → curl_write_callback answer (codes "{}") ≡ key_missing)
          × (value_at document (codes "session_key") ≡ none
              → curl_write_callback answer (codes "{}") ≡ key_missing)
          × (value_at document (codes "session_key") ≡ some other
              → ((s : Bytes)
                  → value_at document (codes "openid") ≡ some (string s)
                  → curl_write_callback answer (codes "{}") ≡ none)
                × (value_at document (codes "openid") ≡ none
                    → curl_write_callback answer (codes "{}") ≡ id_missing)
                × (value_at document (codes "openid") ≡ some other
                    → curl_write_callback answer (codes "{}") ≡ id_missing)))
curl_write_callback_fails_example = curl_write_callback_fails answer (codes "{}")

answer_refused :
    curl_write_callback answer (codes "{}")
    ≡ some (false, codes "not found `session_key`", codes "{}")
unfolding curl_write_callback check_members value_at bytes_eq
answer_refused = refl
