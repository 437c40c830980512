-- ===== src/Cgi/Params.antt =====
-- The names and values that a web server sends in PARAMS packages, against `readParams` of
-- src/socket/CgiServer.cpp.
use libbundle.Prelude.{
  ℕ, zero, suc, ◌+◌, ◌*◌, ◌/◌, ◌%◌, ◌<◌, ◌≤◌, ◌≡◌, ◌∙◌, refl, ap, subst, Bool, true, false, List,
  [], ◌∷◌, ◌++◌, Bytes, ltb, leb, ◌==◌, if◌then◌else◌, length, arith, All, length-append,
  take-append, drop-append, append_assoc, lt→ltb, le→leb, Bool-cases, inl, inr,
}
use libbundle.Cgi.{
  value, Headers, add_input_header, long_length, read_length, read_string, read_entry, params_loop,
  read_params,
}

-- A length as the specification of FastCGI has it.
abbrev pub length_code : ℕ → Bytes
length_code n =
    if ltb n 128
    then n ∷ []
    else (128 + n / 16777216) ∷ (n / 65536 % 256) ∷ (n / 256 % 256) ∷ (n % 256) ∷ []

abbrev pub encode : Bytes × Bytes → Bytes
encode (k, v) = length_code (length k) ++ (length_code (length v) ++ (k ++ v))

abbrev pub encode_all : List (Bytes × Bytes) → Bytes
encode_all [] = []
encode_all (e ∷ es) = encode e ++ encode_all es

-- An entry that has a length in the format, and a byte at least.
abbrev pub IsEntry : Bytes × Bytes → Type 0
IsEntry (k, v) = (length k < 0x80000000) × (length v < 0x80000000) × (0 < length k + length v)

abbrev pub add_all : List (Bytes × Bytes) → Headers → Headers
add_all [] m = m
add_all ((k, v) ∷ es) m = add_all es (add_input_header k v m)

long_form :
    (test : ℕ → ℕ → Bool) (pad x a b c : ℕ) (r : Bytes)
    → (x / 128 % 2 == 1) ≡ true
    → test pad (length r) ≡ true
    → pad ≤ length r
    → read_length test pad (x ∷ a ∷ b ∷ c ∷ r)
      ≡ value (x % 128 * 16777216 + a * 65536 + b * 256 + c, r)
unfolding read_length long_length
long_form test pad x a b c r marked t p =
    let inside : ltb pad (length (a ∷ b ∷ c ∷ r)) ≡ true = lt→ltb pad _ (omega arith) in
    rw (inside, marked, t) refl

short_form :
    (test : ℕ → ℕ → Bool) (pad n : ℕ) (r : Bytes)
    → n < 128
    → pad < length r
    → read_length test pad (n ∷ r) ≡ value (n, r)
unfolding read_length
short_form test pad n r h inside =
    let plain : (n / 128 % 2 == 1) ≡ false = ground arith in
    rw (lt→ltb pad (length r) inside, plain) refl

read_length-length_code :
    (test : ℕ → ℕ → Bool) (pad n : ℕ) (r : Bytes)
    → n < 0x80000000
    → test pad (length r) ≡ true
    → pad ≤ length r
    → (n < 128 → pad < length r)
    → read_length test pad (length_code n ++ r) ≡ value (n, r)
read_length-length_code test pad n r h t p k = elim (Bool-cases (ltb n 128)) [
  | inl short ↦ rw short (short_form test pad n r (ground arith) (k (ground arith)))
  | inr long ↦ rw long (
      long_form test pad (128 + n / 16777216) (n / 65536 % 256) (n / 256 % 256) (n % 256) r
        (ground arith) t p
      ∙ ap (λ x. value (x, r)) (omega arith))
]

read_string-append : (s r : Bytes) → read_string (length s) (s ++ r) ≡ value (s, r)
unfolding read_string
read_string-append s r =
    rw
      (
        le→leb (length s) (length (s ++ r)) (omega (arith, length-append s r)),
        take-append s r,
        drop-append s r,
      )
      refl

length-length_code : (n : ℕ) → 1 ≤ length (length_code n)
length-length_code n = ground arith

encode-append :
    (k v r : Bytes)
    → encode (k, v) ++ r ≡ length_code (length k) ++ (length_code (length v) ++ (k ++ (v ++ r)))
encode-append k v r =
    append_assoc (length_code (length k)) (length_code (length v) ++ (k ++ v)) r
    ∙ ap (λ s. length_code (length k) ++ s)
        (append_assoc (length_code (length v)) (k ++ v) r
          ∙ ap (λ s. length_code (length v) ++ s) (append_assoc k v r))

read_entry-encode :
    (pad : ℕ) (k v r : Bytes)
    → IsEntry (k, v)
    → pad ≤ length r
    → read_entry pad (encode (k, v) ++ r) ≡ value ((k, v), r)
unfolding read_entry
read_entry-encode pad k v r (hk, hv, some_byte) h =
    let texts = k ++ (v ++ r) in
    let size : length texts ≡ length k + (length v + length r) =
      length-append k (v ++ r) ∙ ap (λ n. length k + n) (length-append v r) in
    let behind : pad < length (length_code (length v) ++ texts) =
      omega (
        arith,
        length-append (length_code (length v)) texts,
        length-length_code (length v),
        size,
      ) in
    rw
      (
        encode-append k v r,
        read_length-length_code ltb pad (length k) (length_code (length v) ++ texts) hk
            (lt→ltb pad _ behind) (omega (arith, behind)) (λ short. behind),
        read_length-length_code leb pad (length v) texts hv (le→leb pad _ (omega (arith, size)))
            (omega (arith, size)) (λ short. omega (arith, size)),
        read_string-append k (v ++ r),
        read_string-append v r,
        le→leb pad (length r) h,
      )
      refl

params_loop_step :
    (fuel pad : ℕ) (q : Bytes) (m : Headers) (k v rest : Bytes)
    → pad < length q
    → read_entry pad q ≡ value ((k, v), rest)
    → params_loop (suc fuel) pad q m ≡ params_loop fuel pad rest (add_input_header k v m)
unfolding params_loop
params_loop_step fuel pad [] m k v rest h e = absurd (omega arith)
params_loop_step fuel pad (x ∷ q) m k v rest h e =
    rw (params_loop, lt→ltb pad (length (x ∷ q)) h, e) refl

params_loop-padding :
    (fuel : ℕ) (tail : Bytes) (m : Headers) → params_loop fuel (length tail) tail m ≡ value m
unfolding params_loop
params_loop-padding fuel [] m = refl
params_loop-padding zero (x ∷ tail) m = ground arith
params_loop-padding (suc fuel) (x ∷ tail) m =
    let ended : ltb (length (x ∷ tail)) (length (x ∷ tail)) ≡ false = ground arith in
    rw (params_loop, ended) refl

length-encode : (k v : Bytes) → 1 ≤ length (encode (k, v))
length-encode k v = omega (
  arith,
  length-append (length_code (length k)) (length_code (length v) ++ (k ++ v)),
  length-length_code (length k),
)

params_loop-encode_all :
    (fuel : ℕ) (es : List (Bytes × Bytes)) (tail : Bytes) (m : Headers)
    → All IsEntry es
    → length (encode_all es ++ tail) ≤ fuel
    → params_loop fuel (length tail) (encode_all es ++ tail) m ≡ value (add_all es m)
params_loop-encode_all fuel [] tail m h enough = params_loop-padding fuel tail m
params_loop-encode_all zero ((k, v) ∷ es) tail m (h, hs) enough = absurd (
    omega (
      arith,
      length-append (encode (k, v)) (encode_all es),
      length-encode k v,
      length-append (encode (k, v) ++ encode_all es) tail,
    ))
params_loop-encode_all (suc fuel) ((k, v) ∷ es) tail m (h, hs) enough =
    let rest = encode_all es ++ tail in
    let whole : (encode (k, v) ++ encode_all es) ++ tail ≡ encode (k, v) ++ rest =
      append_assoc (encode (k, v)) (encode_all es) tail in
    let size = length-append (encode (k, v)) rest in
    let behind = length-append (encode_all es) tail in
    let some_byte = length-encode k v in
    let total : length (encode (k, v) ++ rest) ≤ suc fuel =
      subst (λ s. length s ≤ suc fuel) whole enough in
    ap (λ s. params_loop (suc fuel) (length tail) s m) whole
    ∙ params_loop_step fuel (length tail) (encode (k, v) ++ rest) m k v rest
        (omega (arith, size, behind, some_byte))
        (read_entry-encode (length tail) k v rest h (omega (arith, behind)))
    ∙ params_loop-encode_all fuel es tail (add_input_header k v m) hs
        (omega (arith, size, some_byte, total))

-- Whatever names and values a web server puts into a PARAMS package in the encoding of FastCGI, with any
-- padding behind them: `readParams` takes exactly these, in their order. Every length is below 2^31, and no
-- entry has an empty name and an empty value.
pub read_params-encode_all :
    (es : List (Bytes × Bytes)) (tail : Bytes) (m : Headers)
    → All IsEntry es
    → read_params (length tail) (encode_all es ++ tail) m ≡ value (add_all es m)
unfolding read_params
read_params-encode_all es tail m h =
    let inside : length tail ≤ length (encode_all es ++ tail) =
      omega (arith, length-append (encode_all es) tail) in
    rw (le→leb (length tail) _ inside)
      (params_loop-encode_all (length (encode_all es ++ tail)) es tail m h (omega arith))
