-- ===== src/Base64/Reference.antt =====
-- src/base64/base64.cpp against the definition of the encoding (RFC 4648, section 4): the input in
-- groups of 24 bits, each written as four digits to the base 64.
use libbundle.Prelude.{
  ℕ, ◌+◌, ◌*◌, ◌/◌, ◌%◌, ◌<◌, ◌^◌, ◌≡◌, ◌∙◌, refl, [], ◌∷◌, ◌++◌, Bytes, arith, ◌==◌, Bool-cases,
  inl, inr, false, All, IsByte, length,
}
use libbundle.Base64.{
  CharArray3, CharArray4, to_sextets, chars_of, char_at, encode_loop, encode_tail, decode_loop,
  accepts, base64_encode, base64_decode, blank3, blank4,
}
use libbundle.Base64.Blocks.{block3, to_sextets-block3, encode_loop_block}
use libbundle.Base64.RoundTrip.{encode_loop-append, encode_tail_one, encode_tail_two}

-- The character of the k-th digit of n to the base 64, counted from the right.
abbrev pub digit : ℕ → ℕ → ℕ
digit n k = char_at (n / 64 ^ k % 64)

-- The number that a group of three bytes spells.
abbrev pub group : ℕ → ℕ → ℕ → ℕ
group x y z = (x * 256 + y) * 256 + z

pub reference : Bytes → Bytes
reference [] = []
reference (x ∷ []) = digit (group x 0 0) 3 ∷ digit (group x 0 0) 2 ∷ b'=' ∷ b'=' ∷ []
reference (x ∷ y ∷ []) =
    digit (group x y 0) 3 ∷ digit (group x y 0) 2 ∷ digit (group x y 0) 1 ∷ b'=' ∷ []
reference (x ∷ y ∷ z ∷ xs) =
    digit (group x y z) 3
    ∷ digit (group x y z) 2
    ∷ digit (group x y z) 1
    ∷ digit (group x y z) 0
    ∷ reference xs

digits_group :
    (x y z : ℕ)
    → x < 256
    → y < 256
    → z < 256
    → (x / 4 ≡ group x y z / 64 ^ 3 % 64)
      × (x % 4 * 16 + y / 16 ≡ group x y z / 64 ^ 2 % 64)
      × (y % 16 * 4 + z / 64 ≡ group x y z / 64 ^ 1 % 64)
      × (z % 64 ≡ group x y z / 64 ^ 0 % 64)
digits_group x y z hx hy hz = omega arith

encode_loop-reference :
    (xs : Bytes) (a : CharArray3) → All IsByte xs → encode_loop xs 0 a [] ≡ reference xs
unfolding reference
encode_loop-reference [] a h = unfold encode_loop encode_tail in refl
encode_loop-reference (x ∷ []) a (hx, _) =
    let d = digits_group x 0 0 hx (omega arith) (omega arith) in
    encode_tail_one x a hx ∙ rw (d.0, d.1)
encode_loop-reference (x ∷ y ∷ []) a (hx, (hy, _)) =
    let d = digits_group x y 0 hx hy (omega arith) in
    encode_tail_two x y a hx hy ∙ rw (d.0, d.1, d.2)
encode_loop-reference (x ∷ y ∷ z ∷ xs) a (hx, (hy, (hz, h))) =
    let d = digits_group x y z hx hy hz in
    encode_loop_block x y z xs a []
    ∙ encode_loop-append xs 0 (block3 x y z) (chars_of (to_sextets (block3 x y z)))
    ∙ rw (to_sextets-block3 x y z hx hy hz, encode_loop-reference xs (block3 x y z) h)
        (unfold chars_of in rw (d.0, d.1, d.2, d.3))

-- The encoder writes exactly the base-64 digits of each 24-bit group, with `=` for the groups of six
-- bits that the last bytes do not reach.
pub base64_encode-reference :
    (bytes : Bytes) → All IsByte bytes → base64_encode bytes ≡ reference bytes
unfolding base64_encode
base64_encode-reference bytes h = encode_loop-reference bytes blank3 h

length-reference : (xs : Bytes) → length (reference xs) ≡ (length xs + 2) / 3 * 4
unfolding reference
length-reference [] = refl
length-reference (x ∷ []) = refl
length-reference (x ∷ y ∷ []) = refl
length-reference (x ∷ y ∷ z ∷ xs) = omega (arith, length-reference xs)

-- The encoding is four characters for every three bytes or part of three.
pub length-base64_encode :
    (bytes : Bytes) → All IsByte bytes → length (base64_encode bytes) ≡ (length bytes + 2) / 3 * 4
length-base64_encode bytes h = rw (base64_encode-reference bytes h) (length-reference bytes)

-- The rest of the text does not matter once a character is refused.
decode_loop_stop :
    (s : Bytes) (c : ℕ) (rest : Bytes) (i : ℕ) (a : CharArray4) (out : Bytes)
    → accepts c ≡ false
    → decode_loop (s ++ c ∷ rest) i a out ≡ decode_loop s i a out
unfolding decode_loop
decode_loop_stop [] c rest i a out h = rw h
decode_loop_stop (x ∷ s) c rest i a out h = elim (Bool-cases (accepts x)) [
  | inl ok ↦ rw ok (elim (Bool-cases (i + 1 == 4)) [
    | inl full ↦ rw full (decode_loop_stop s c rest 0 _ _ h)
    | inr more ↦ rw more (decode_loop_stop s c rest (i + 1) _ out h)
  ])
  | inr bad ↦ rw bad
]

-- Decoding stops at the first character that is not of the alphabet, the padding or any other: it
-- gives what the text before that character gives, and reports no error.
pub base64_decode_stops :
    (s : Bytes) (c : ℕ) (rest : Bytes)
    → accepts c ≡ false
    → base64_decode (s ++ c ∷ rest) ≡ base64_decode s
unfolding base64_decode
base64_decode_stops s c rest h = decode_loop_stop s c rest 0 blank4 [] h
