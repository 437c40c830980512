-- ===== src/Record/Wire.antt =====
-- src/protocol/recordserver.h: what the fields of a message read on the other side.
use libbundle.Prelude.{
  ℕ, suc, ◌+◌, ◌-◌, ◌%◌, ◌^◌, ◌<◌, ◌≤◌, ◌≡◌, ◌∙◌, ap, refl, sym, some, [], ◌∷◌, ◌++◌, Bytes, ◌==◌,
  take, drop, length, replicate, arith, length-append, length-take, length-replicate, drop-append,
  drop-drop, take-append, append_assoc, take-append_add, Bool-cases, inl, inr,
}
use libbundle.ByteBuffer.{to_le, of_le}
use libbundle.ByteBuffer.Values.{of_le-to_le, length-to_le}
use libbundle.Clib.{c_str}
use libbundle.Record.{
  Kind, serialize_request, unserialize_request, delete_request, select_request, alter_request,
  id_of_kind, kind_of, sizeof_object, strncpy, object_header, field_at, len_of, id_of, shard_of,
  table_of, objectid_of, request_size,
}

-- A name that fits into the field with its zero byte, and has none inside.
pub record IsName (table : Bytes) : Type 0 where
  pub short : length table < 16
  pub whole : c_str table ≡ table

length-c_str : (s : Bytes) → length (c_str s) ≤ length s
unfolding c_str
length-c_str [] = omega arith
length-c_str (x ∷ s) = ground (arith, length-c_str s)

length-strncpy : (n : ℕ) (s : Bytes) → length (strncpy n s) ≡ n
unfolding strncpy
length-strncpy n s = omega (
  arith,
  length-take n (c_str s ++ replicate n 0),
  length-append (c_str s) (replicate n 0),
  length-replicate {A = ℕ} n 0,
)

-- A string that is followed by a zero byte.
c_str-append : (s rest : Bytes) → c_str s ≡ s → c_str (s ++ 0 ∷ rest) ≡ s
unfolding c_str
c_str-append [] rest h = refl
c_str-append (x ∷ s) rest h = elim (Bool-cases (x == 0)) [
  | inl stop ↦ absurd (ground arith)
  | inr more ↦ rw more (ap (◌∷◌ x) (c_str-append s rest (ground arith)))
]

strncpy-name : (s rest : Bytes) → IsName s → c_str (strncpy 16 s ++ rest) ≡ s
unfolding strncpy
strncpy-name s rest h =
    let m = 15 - length s in
    let zeros : Bytes = replicate 16 0 in
    let e : 16 ≡ length s + suc m = omega (arith, h.short) in
    ap (λ l. c_str (take 16 (l ++ zeros) ++ rest)) h.whole
    ∙ ap (λ l. c_str (l ++ rest)) (take-append_add s zeros (suc m) 16 e)
    ∙ ap c_str (append_assoc s (0 ∷ take m (replicate 15 0)) rest)
    ∙ c_str-append s (take m (replicate 15 0) ++ rest) h.whole

module _ (len id shard : ℕ) (table : Bytes) (objectid : ℕ) (rest : Bytes) where
  abbrev pub q : Bytes
  q = object_header len id shard table objectid rest

  pub header_len : len_of q ≡ len % 2 ^ 32
  unfolding object_header field_at to_le of_le
  header_len = omega arith

  pub header_id : id < 2 ^ 16 → id_of q ≡ id
  unfolding object_header field_at to_le of_le
  header_id h = omega arith

  pub header_shard : shard < 2 ^ 32 → shard_of q ≡ shard
  unfolding object_header field_at to_le of_le
  header_shard h = omega arith

  pub header_table : IsName table → table_of q ≡ table
  unfolding object_header to_le
  header_table h = strncpy-name table _ h

  -- What stands behind the field of the name.
  behind_table : (n : ℕ) (tail : Bytes) → drop (16 + n) (strncpy 16 table ++ tail) ≡ drop n tail
  behind_table n tail =
      sym (drop-drop n 16 (strncpy 16 table ++ tail))
      ∙ ap (drop n) (
          ap (λ k. drop k (strncpy 16 table ++ tail)) (sym (length-strncpy 16 table))
          ∙ drop-append (strncpy 16 table) tail)

  pub header_objectid : objectid < 2 ^ 64 → objectid_of q ≡ objectid
  unfolding object_header field_at to_le of_le
  header_objectid h =
      ap (λ l. of_le (take 8 l)) (behind_table 0 (to_le 8 objectid ++ rest)) ∙ omega arith

  pub header_rest : drop sizeof_object q ≡ rest
  unfolding object_header to_le
  header_rest = behind_table 8 (to_le 8 objectid ++ rest)

  pub behind_header : (n : ℕ) → drop (sizeof_object + n) q ≡ drop n rest
  behind_header n = sym (drop-drop n sizeof_object q) ∙ ap (drop n) header_rest

  pub length-object_header : length q ≡ sizeof_object + length rest
  unfolding object_header to_le
  length-object_header =
      omega (
        arith,
        length-append (strncpy 16 table) (to_le 8 objectid ++ rest),
        length-strncpy 16 table,
      )

pub small_le : (n v : ℕ) (rest : Bytes) → v < 256 ^ n → of_le (take n (to_le n v ++ rest)) ≡ v
small_le n v rest h =
    ap (λ k. of_le (take k (to_le n v ++ rest))) (sym (length-to_le n v))
    ∙ ap of_le (take-append (to_le n v) rest)
    ∙ of_le-to_le n v h

pub kind_of-id_of_kind : (k : Kind) → kind_of (id_of_kind k) ≡ some k
unfolding kind_of
kind_of-id_of_kind serialize_request = refl
kind_of-id_of_kind unserialize_request = refl
kind_of-id_of_kind delete_request = refl
kind_of-id_of_kind select_request = refl
kind_of-id_of_kind alter_request = refl

pub id_of_kind_small : (k : Kind) → id_of_kind k < 2 ^ 16
id_of_kind_small serialize_request = omega arith
id_of_kind_small unserialize_request = omega arith
id_of_kind_small delete_request = omega arith
id_of_kind_small select_request = omega arith
id_of_kind_small alter_request = omega arith

-- What the server reads of a request: its kind, its size, which is also the length that it states, and its fields.
pub record Reads (k : Kind) (shard : ℕ) (table : Bytes) (objectid : ℕ) (q : Bytes) : Type 0 where
  pub kind : kind_of (id_of q) ≡ some k
  pub size : request_size k q ≡ some (len_of q)
  pub length_stated : len_of q ≡ length q
  pub shard_read : shard_of q ≡ shard
  pub table_read : table_of q ≡ table
  pub objectid_read : objectid_of q ≡ objectid
