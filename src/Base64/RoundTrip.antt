-- ===== src/Base64/RoundTrip.antt =====
-- What src/base64/base64.cpp writes is read back.
use libbundle.Prelude.{
  ℕ, length, ◌+◌, ◌*◌, ◌/◌, ◌%◌, ◌<◌, ◌≡◌, ◌∙◌, refl, sym, ap, [], ◌∷◌, ◌++◌, Bytes, append_assoc,
  append-nil, arith, ◌==◌, Bool-cases, inl, inr, All, IsByte,
}
use mathlib.Core.Path.{ap₂}
use libbundle.Base64.{
  CharArray3, CharArray4, to_sextets, chars_of, char_at, octets_of, to_octets, to_indices,
  encode_loop, encode_tail, store3, store4, decode_loop, decode_tail, accepts, base64_encode,
  base64_decode, blank3, blank4, padding, zero_from3, zero_from4,
}
use libbundle.Base64.Tables.{and_0f, and_30, and_3c, index_of-char_at, accepts-char_at}
use libbundle.Base64.Blocks.{
  block3, sextets, to_sextets-block3, to_octets-sextets, encode_loop_block, decode_loop_step,
  decode_loop_block,
}

encode_tail-append :
    (i : ℕ) (a : CharArray3) (out : Bytes) → encode_tail i a out ≡ out ++ encode_tail i a []
unfolding encode_tail
encode_tail-append i a out = elim (Bool-cases (i == 0)) [
  | inl e ↦ rw e (sym (append-nil out))
  | inr e ↦ rw e
]

-- The output string only grows.
pub encode_loop-append :
    (xs : Bytes) (i : ℕ) (a : CharArray3) (out : Bytes)
    → encode_loop xs i a out ≡ out ++ encode_loop xs i a []
unfolding encode_loop
encode_loop-append [] i a out = encode_tail-append i a out
encode_loop-append (x ∷ xs) i a out = elim (Bool-cases (i + 1 == 3)) [
  | inl full ↦ rw full (
      encode_loop-append xs 0 (store3 a i x) (out ++ chars_of (to_sextets (store3 a i x)))
      ∙ append_assoc out _ _
      ∙ ap (◌++◌ out)
          (sym (encode_loop-append xs 0 (store3 a i x) (chars_of (to_sextets (store3 a i x))))))
  | inr more ↦ rw more (encode_loop-append xs (i + 1) (store3 a i x) out)
]

-- A last group of one byte is two characters, one of two bytes is three.
pub encode_tail_one :
    (x : ℕ) (a : CharArray3)
    → x < 256
    → encode_loop (x ∷ []) 0 a []
      ≡ char_at (x / 4) ∷ char_at (x % 4 * 16 + 0 / 16) ∷ b'=' ∷ b'=' ∷ []
unfolding encode_loop encode_tail store3 zero_from3 padding chars_of
encode_tail_one x a h = rw (to_sextets-block3 x 0 0 h (omega arith) (omega arith))

pub encode_tail_two :
    (x y : ℕ) (a : CharArray3)
    → x < 256
    → y < 256
    → encode_loop (x ∷ y ∷ []) 0 a []
      ≡ char_at (x / 4) ∷ char_at (x % 4 * 16 + y / 16) ∷ char_at (y % 16 * 4 + 0 / 64) ∷ b'=' ∷ []
unfolding encode_loop encode_tail store3 zero_from3 padding chars_of
encode_tail_two x y a h k = rw (to_sextets-block3 x y 0 h k (omega arith))

-- The padding ends the loop.
decode_loop_padding :
    (s : Bytes) (i : ℕ) (a : CharArray4) (out : Bytes)
    → decode_loop (b'=' ∷ s) i a out ≡ decode_tail i a out
unfolding decode_loop accepts
decode_loop_padding s i a out = refl

decode_tail_one :
    (x : ℕ) (b : CharArray4) (out : Bytes)
    → x < 256
    → decode_loop (char_at (x / 4) ∷ char_at (x % 4 * 16 + 0 / 16) ∷ b'=' ∷ b'=' ∷ []) 0 b out
      ≡ out ++ x ∷ []
unfolding store4 decode_tail zero_from4 octets_of to_octets to_indices
decode_tail_one x b out h =
    rw
      (
        decode_loop_step (char_at (x / 4)) _ 0 b out (accepts-char_at (x / 4) (omega arith)),
        decode_loop_step (char_at (x % 4 * 16 + 0 / 16)) _ 1 _ out
            (accepts-char_at (x % 4 * 16 + 0 / 16) (omega arith)),
        decode_loop_padding,
        index_of-char_at (x / 4) (omega arith),
        index_of-char_at (x % 4 * 16 + 0 / 16) (omega arith),
        and_30 (x % 4 * 16 + 0 / 16) (omega arith),
      )
      (ap (λ (v : ℕ). out ++ v ∷ []) (omega arith))

decode_tail_two :
    (x y : ℕ) (b : CharArray4) (out : Bytes)
    → x < 256
    → y < 256
    → decode_loop
        (char_at (x / 4)
          ∷ char_at (x % 4 * 16 + y / 16)
          ∷ char_at (y % 16 * 4 + 0 / 64)
          ∷ b'='
          ∷ [])
        0
        b
        out
      ≡ out ++ x ∷ y ∷ []
unfolding store4 decode_tail zero_from4 octets_of to_octets to_indices
decode_tail_two x y b out h k =
    rw
      (
        decode_loop_step (char_at (x / 4)) _ 0 b out (accepts-char_at (x / 4) (omega arith)),
        decode_loop_step (char_at (x % 4 * 16 + y / 16)) _ 1 _ out
            (accepts-char_at (x % 4 * 16 + y / 16) (omega arith)),
        decode_loop_step (char_at (y % 16 * 4 + 0 / 64)) _ 2 _ out
            (accepts-char_at (y % 16 * 4 + 0 / 64) (omega arith)),
        decode_loop_padding,
        index_of-char_at (x / 4) (omega arith),
        index_of-char_at (x % 4 * 16 + y / 16) (omega arith),
        index_of-char_at (y % 16 * 4 + 0 / 64) (omega arith),
        and_30 (x % 4 * 16 + y / 16) (omega arith),
        and_0f (x % 4 * 16 + y / 16) (omega arith),
        and_3c (y % 16 * 4 + 0 / 64) (omega arith),
      )
      (ap₂ (λ (v w : ℕ). out ++ v ∷ w ∷ []) (omega arith) (omega arith))

-- Reading what is written for a list of bytes appends those bytes.
decode_loop-encode_loop :
    (xs : Bytes) (a : CharArray3) (b : CharArray4) (out : Bytes)
    → All IsByte xs
    → decode_loop (encode_loop xs 0 a []) 0 b out ≡ out ++ xs
decode_loop-encode_loop [] a b out h =
    unfold encode_loop encode_tail decode_loop decode_tail in sym (append-nil out)
decode_loop-encode_loop (x ∷ []) a b out (hx, _) =
    rw (encode_tail_one x a hx) (decode_tail_one x b out hx)
decode_loop-encode_loop (x ∷ y ∷ []) a b out (hx, (hy, _)) =
    rw (encode_tail_two x y a hx hy) (decode_tail_two x y b out hx hy)
decode_loop-encode_loop (x ∷ y ∷ z ∷ xs) a b out (hx, (hy, (hz, h))) =
    rw
      (
        encode_loop_block x y z xs a [],
        encode_loop-append xs 0 (block3 x y z) (chars_of (to_sextets (block3 x y z))),
        to_sextets-block3 x y z hx hy hz,
        decode_loop_block (sextets x y z) (encode_loop xs 0 (block3 x y z) []) b out (omega arith)
            (omega arith) (omega arith) (omega arith),
        to_octets-sextets x y z hx hy hz,
      )
      (decode_loop-encode_loop xs (block3 x y z) (sextets x y z) (out ++ octets_of (block3 x y z)) h
        ∙ unfold octets_of in append_assoc out (x ∷ y ∷ z ∷ []) xs)

-- Decoding the encoding of a byte string gives the byte string back, for every string whose encoding has a length
-- that an int holds, as `base64_decode` counts in ints: at most 1610612733 bytes, for 2 ^ 31 - 4 characters.
pub base64_decode-base64_encode :
    (bytes : Bytes)
    → All IsByte bytes
    → length bytes < 1610612734
    → base64_decode (base64_encode bytes) ≡ bytes
unfolding base64_decode base64_encode
base64_decode-base64_encode bytes h fits = decode_loop-encode_loop bytes blank3 blank4 [] h
