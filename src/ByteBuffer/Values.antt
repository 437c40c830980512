-- ===== src/ByteBuffer/Values.antt =====
-- Integers in src/tools/ByteBuffer.cpp: `operator <<` and `operator >>` of the integral types.
use native.Mathlib.Nat.{pow-suc}
use libbundle.Prelude.{
  ℕ, zero, suc, ◌+◌, ◌/◌, ◌^◌, ◌<◌, ◌≡◌, ◌∙◌, refl, sym, ap, [], ◌∷◌, ◌++◌, Bytes, arith, some,
  Option, take, drop, length, length-append, take-append_le, drop-append_le, take_all, drop_all,
  ◌>>=◌, append_assoc, append-nil, List, map, All,
}
use libbundle.ByteBuffer.{
  ByteBuffer, size_max, buffer_chunk_size, append, read, to_le, of_le, append_value, read_value,
}
use libbundle.ByteBuffer.Invariant.{IsValid, contents}
use libbundle.ByteBuffer.Queue.{append_lem, read_lem, capacity-append}

pub of_le-to_le : (w v : ℕ) → v < 256 ^ w → of_le (to_le w v) ≡ v
unfolding of_le to_le
of_le-to_le zero v h = omega arith
of_le-to_le (suc w) v h =
    let small : v / 256 < 256 ^ w = omega (arith, pow-suc 256 w) in
    omega (arith, of_le-to_le w (v / 256) small)

pub length-to_le : (w v : ℕ) → length (to_le w v) ≡ w
unfolding to_le
length-to_le zero v = refl
length-to_le (suc w) v = ap suc (length-to_le w (v / 256))

take-to_le : (w v : ℕ) (rest : Bytes) → take w (to_le w v ++ rest) ≡ to_le w v
take-to_le w v rest =
    take-append_le w (to_le w v) rest (omega (arith, length-to_le w v))
    ∙ take_all w (to_le w v) (omega (arith, length-to_le w v))

drop-to_le : (w v : ℕ) (rest : Bytes) → drop w (to_le w v ++ rest) ≡ rest
drop-to_le w v rest =
    drop-append_le w (to_le w v) rest (omega (arith, length-to_le w v))
    ∙ ap (λ s. s ++ rest) (drop_all w (to_le w v) (omega (arith, length-to_le w v)))

read_value-read :
    (w v : ℕ) (b b' : ByteBuffer) (s : Bytes)
    → read b w ≡ some (s, b')
    → of_le s ≡ v
    → read_value w b ≡ some (v, b')
unfolding read_value
read_value-read w v b b' s e h = rw (e, h)

-- One read of a value whose representation stands at the front of the queue.
pub read_value_lem :
    (w v : ℕ) (b : ByteBuffer) (rest : Bytes)
    → IsValid b
    → v < 256 ^ w
    → contents b ≡ to_le w v ++ rest
    → (b' : ByteBuffer) × (read_value w b ≡ some (v, b')) × IsValid b' × (contents b' ≡ rest)
read_value_lem w v b rest ok h e =
    let (b', r, ok', c) =
      read_lem b w ok
        (omega (arith, ap length e, length-append (to_le w v) rest, length-to_le w v)) in
    (
      b',
      read_value-read w v b b' _ r
          (ap (λ s. of_le (take w s)) e ∙ ap of_le (take-to_le w v rest) ∙ of_le-to_le w v h),
      ok',
      c ∙ ap (drop w) e ∙ drop-to_le w v rest,
    )

-- Values with their widths, as in a chain `b << v << …`, and the widths, as in `b >> x >> …`.
pub write_all : ByteBuffer → List (ℕ × ℕ) → Option ByteBuffer
write_all b [] = some b
write_all b ((w, v) ∷ vs) = do b' ← append_value w b v; write_all b' vs

pub read_all : ByteBuffer → List (ℕ × ℕ) → Option (List ℕ × ByteBuffer)
read_all b [] = some ([], b)
read_all b ((w, _) ∷ vs) = do
  (v, b') ← read_value w b
  (rest, last) ← read_all b' vs
  some (v ∷ rest, last)

abbrev pub second : ℕ × ℕ → ℕ
second (w, v) = v

abbrev pub FitsWidth : ℕ × ℕ → Type 0
FitsWidth (w, v) = v < 256 ^ w

-- The bytes of all values.
abbrev pub bytes_of : List (ℕ × ℕ) → Bytes
bytes_of [] = []
bytes_of ((w, v) ∷ vs) = to_le w v ++ bytes_of vs

abbrev pub room_for : List (ℕ × ℕ) → ℕ
room_for [] = 0
room_for ((w, _) ∷ vs) = w + buffer_chunk_size + room_for vs

write_all_step :
    (w v : ℕ) (vs : List (ℕ × ℕ)) (b b' : ByteBuffer)
    → append b (to_le w v) ≡ some b'
    → write_all b ((w, v) ∷ vs) ≡ write_all b' vs
unfolding write_all append_value
write_all_step w v vs b b' e = rw e

read_all_step :
    (w v : ℕ) (vs : List (ℕ × ℕ)) (b b' last : ByteBuffer) (rest : List ℕ)
    → read_value w b ≡ some (v, b')
    → read_all b' vs ≡ some (rest, last)
    → read_all b ((w, v) ∷ vs) ≡ some (v ∷ rest, last)
unfolding read_all
read_all_step w v vs b b' last rest e h = rw (e, h)

-- Writing any values puts their bytes behind the unread ones.
write_all_lem :
    (vs : List (ℕ × ℕ)) (b : ByteBuffer)
    → IsValid b
    → b.capacity + buffer_chunk_size + room_for vs < size_max
    → (b' : ByteBuffer) × (write_all b vs ≡ some b')
      × IsValid b'
      × (contents b' ≡ contents b ++ bytes_of vs)
write_all_lem [] b ok f = (b, unfold write_all in refl, ok, sym (append-nil (contents b)))
write_all_lem ((w, v) ∷ vs) b ok f =
    let (b1, e, ok1, c1) = append_lem b (to_le w v) ok (omega (arith, length-to_le w v)) in
    let (b2, e2, ok2, c2) = write_all_lem vs b1 ok1 (
      omega (
        arith,
        capacity-append b b1 (to_le w v) e (omega (arith, length-to_le w v)),
        length-to_le w v,
      )) in
    (
      b2,
      write_all_step w v vs b b1 e ∙ e2,
      ok2,
      c2 ∙ ap (λ s. s ++ bytes_of vs) c1 ∙ append_assoc (contents b) (to_le w v) (bytes_of vs),
    )

read_all_lem :
    (vs : List (ℕ × ℕ)) (b : ByteBuffer) (rest : Bytes)
    → IsValid b
    → All FitsWidth vs
    → contents b ≡ bytes_of vs ++ rest
    → (b' : ByteBuffer) × (read_all b vs ≡ some (map second vs, b'))
      × IsValid b'
      × (contents b' ≡ rest)
read_all_lem [] b rest ok h e = (b, unfold read_all in refl, ok, e)
read_all_lem ((w, v) ∷ vs) b rest ok (hv, hs) e =
    let (b1, e1, ok1, c1) =
      read_value_lem w v b (bytes_of vs ++ rest) ok hv
        (e ∙ append_assoc (to_le w v) (bytes_of vs) rest) in
    let (b2, e2, ok2, c2) = read_all_lem vs b1 rest ok1 hs c1 in
    (b2, read_all_step w v vs b b1 b2 _ e1 e2, ok2, c2)

-- Integers written by `<<` into a buffer with nothing unread come back by `>>` at the same widths, in
-- the same order and with their values, and leave nothing unread.
pub read_all-write_all :
    (vs : List (ℕ × ℕ)) (b : ByteBuffer)
    → IsValid b
    → contents b ≡ []
    → All FitsWidth vs
    → b.capacity + buffer_chunk_size + room_for vs < size_max
    → (b' : ByteBuffer) × ((do w ← write_all b vs; read_all w vs) ≡ some (map second vs, b'))
      × (contents b' ≡ [])
read_all-write_all vs b ok e h f =
    let (b1, e1, ok1, c1) = write_all_lem vs b ok f in
    let (b2, e2, ok2, c2) =
      read_all_lem vs b1 [] ok1 h
        (c1 ∙ ap (λ s. s ++ bytes_of vs) e ∙ sym (append-nil (bytes_of vs))) in
    (b2, then_read b1 b2 e1 e2, c2)
  where
    then_read :
        (b1 b2 : ByteBuffer)
        → write_all b vs ≡ some b1
        → read_all b1 vs ≡ some (map second vs, b2)
        → (do w ← write_all b vs; read_all w vs) ≡ some (map second vs, b2)
    then_read b1 b2 p q = rw (p, q)
