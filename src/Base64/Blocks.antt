-- ===== src/Base64/Blocks.antt =====
-- One round of the loops of src/base64/base64.cpp: three bytes against four characters.
use libbundle.Prelude.{
  ℕ, true, ◌+◌, ◌*◌, ◌/◌, ◌%◌, ◌<◌, ◌≡◌, refl, ◌∷◌, ◌++◌, Bytes, arith, if◌then◌else◌, ◌==◌,
}
use libbundle.Base64.{
  store3, CharArray3, CharArray4, to_sextets, chars_of, char_at, octets_of, to_octets, to_indices,
  encode_loop, store4, decode_loop, accepts,
}
use libbundle.Base64.Tables.{
  and_fc, and_03, and_f0, and_0f, and_c0, and_3f, and_30, and_3c, index_of-char_at, accepts-char_at,
}

abbrev pub block3 : ℕ → ℕ → ℕ → CharArray3
block3 x y z = record { c0 = x; c1 = y; c2 = z }

-- The indices by division: the 24 bits of three bytes in groups of six.
abbrev pub sextets : ℕ → ℕ → ℕ → CharArray4
sextets x y z = record {
  c0 = x / 4;
  c1 = x % 4 * 16 + y / 16;
  c2 = y % 16 * 4 + z / 64;
  c3 = z % 64;
}

pub to_sextets-block3 :
    (x y z : ℕ) → x < 256 → y < 256 → z < 256 → to_sextets (block3 x y z) ≡ sextets x y z
unfolding to_sextets
to_sextets-block3 x y z hx hy hz =
    ground (arith, and_fc x hx, and_03 x hx, and_f0 y hy, and_0f y hy, and_c0 z hz, and_3f z hz)

pub to_octets-sextets :
    (x y z : ℕ) → x < 256 → y < 256 → z < 256 → to_octets (sextets x y z) ≡ block3 x y z
unfolding to_octets
to_octets-sextets x y z hx hy hz = ground (
  arith,
  and_30 (x % 4 * 16 + y / 16) (omega arith),
  and_0f (x % 4 * 16 + y / 16) (omega arith),
  and_3c (y % 16 * 4 + z / 64) (omega arith),
  and_03 (y % 16 * 4 + z / 64) (omega arith),
)

-- Four characters of the alphabet are read as the four indices.
pub to_indices-chars :
    (a : CharArray4)
    → a.c0 < 64
    → a.c1 < 64
    → a.c2 < 64
    → a.c3 < 64
    → to_indices
        (record { c0 = char_at a.c0; c1 = char_at a.c1; c2 = char_at a.c2; c3 = char_at a.c3 })
      ≡ a
unfolding to_indices
to_indices-chars a h0 h1 h2 h3 = rw (
  index_of-char_at a.c0 h0,
  index_of-char_at a.c1 h1,
  index_of-char_at a.c2 h2,
  index_of-char_at a.c3 h3,
)

pub encode_loop_block :
    (x y z : ℕ) (xs : Bytes) (a : CharArray3) (out : Bytes)
    → encode_loop (x ∷ y ∷ z ∷ xs) 0 a out
      ≡ encode_loop xs 0 (block3 x y z) (out ++ chars_of (to_sextets (block3 x y z)))
unfolding encode_loop store3
encode_loop_block x y z xs a out = refl

-- A character that is accepted is stored, and the fourth one completes a block.
pub decode_loop_step :
    (c : ℕ) (s : Bytes) (i : ℕ) (a : CharArray4) (out : Bytes)
    → accepts c ≡ true
    → decode_loop (c ∷ s) i a out ≡ (
        if i + 1 == 4
        then decode_loop s 0
            (to_indices (store4 a i c))
            (out ++ octets_of (to_octets (to_indices (store4 a i c))))
        else decode_loop s (i + 1) (store4 a i c) out)
unfolding decode_loop
decode_loop_step c s i a out h = rw h

pub decode_loop_block :
    (a : CharArray4) (s : Bytes) (b : CharArray4) (out : Bytes)
    → a.c0 < 64
    → a.c1 < 64
    → a.c2 < 64
    → a.c3 < 64
    → decode_loop (chars_of a ++ s) 0 b out ≡ decode_loop s 0 a (out ++ octets_of (to_octets a))
unfolding chars_of store4
decode_loop_block a s b out h0 h1 h2 h3 = rw (
  decode_loop_step (char_at a.c0) _ 0 b out (accepts-char_at a.c0 h0),
  decode_loop_step (char_at a.c1) _ 1 _ out (accepts-char_at a.c1 h1),
  decode_loop_step (char_at a.c2) _ 2 _ out (accepts-char_at a.c2 h2),
  decode_loop_step (char_at a.c3) _ 3 _ out (accepts-char_at a.c3 h3),
  to_indices-chars a h0 h1 h2 h3,
)
