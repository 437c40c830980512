-- ===== src/Tools/Numbers.antt =====
-- `splitString` of src/tools/Tools.cpp into numbers, and `isDigit`.
use libbundle.Prelude.{
  ◌+◌, ℕ, ◌≡◌, ◌≢◌, ◌∙◌, refl, sym, ap, Bool, true, false, ◌&&◌, Option, none, some, List, [], ◌∷◌,
  ◌++◌, Bytes, ◌==◌, if◌then◌else◌, arith, All, append_assoc, append-nil, map, ==_iff,
}
use libbundle.Clib.{
  pos, negsuc, decimal, max_digits, sign_and_digits, ℤ, Width, w32, of_bits, bits_of, InRange,
  signed_text, std_sto, is_digit,
}
use libbundle.Clib.Decimal.{IsDigit, All-decimal, std_sto-signed_text}
use libbundle.Tools.Split.{join, IsFree}

-- `value`, an `int` also where the vector is one of `long` or `long long`.
abbrev pub as_int : ℤ → ℤ
as_int z = of_bits w32 (bits_of w32 z)

-- What is stored of one piece, behind the values so far; an exception ends the call with `false`.
abbrev pub push_number {ℓ} : {A : Type ℓ} → Option ℤ → A → (ℤ → A) → A
push_number none failed more = failed
push_number (some z) failed more = more (as_int z)

-- The loop over the bytes that are left, with the piece so far and the values so far. `w` is the width of
-- `std::stoi`, `std::stol` or `std::stoll`. An empty piece at the end is left out.
unfoldable pub number_loop : Width → ℕ → Bytes → Bytes → List ℤ → Bool × List ℤ
number_loop w sc [] [] v = (true, v)
number_loop w sc [] (c ∷ piece) v =
    push_number (std_sto w (c ∷ piece)) (false, v) (λ z. (true, v ++ z ∷ []))
number_loop w sc (x ∷ xs) piece v =
    let longer = number_loop w sc xs (piece ++ x ∷ []) v in
    let next =
      push_number (std_sto w piece) (false, v) (λ z. number_loop w sc xs [] (v ++ z ∷ [])) in
    if x == sc then next else longer

-- `splitString(cstr, sc, v)`: what it returns, and the vector behind the call.
unfoldable pub split_numbers : Width → ℕ → Bytes → List ℤ → Bool × List ℤ
split_numbers w sc s v = number_loop w sc s [] v

-- `isDigit`.
abbrev pub all_digits : Bytes → Bool
all_digits [] = true
all_digits (c ∷ s) = is_digit c && all_digits s

unfoldable pub is_digit_string : Bytes → Bool
is_digit_string [] = false
is_digit_string (c ∷ s) = all_digits (c ∷ s)

-- The text of a list of numbers.
abbrev pub numbers_text : ℕ → ℤ → List ℤ → Bytes
numbers_text sc z zs = join sc (signed_text z) (map signed_text zs)

number_loop-piece :
    (w : Width) (sc : ℕ) (p rest piece : Bytes) (v : List ℤ)
    → IsFree sc p
    → number_loop w sc (p ++ rest) piece v ≡ number_loop w sc rest (piece ++ p) v
unfolding number_loop
number_loop-piece w sc [] rest piece v h =
    ap (λ q. number_loop w sc rest q v) (sym (append-nil piece))
number_loop-piece w sc (x ∷ p) rest piece v (hx, h) =
    ground
      (arith, number_loop-piece w sc p rest (piece ++ x ∷ []) v h, append_assoc piece (x ∷ []) p)

IsFree-digits : (sc : ℕ) (s : Bytes) → is_digit sc ≡ false → All IsDigit s → IsFree sc s
IsFree-digits sc [] h k = tt
IsFree-digits sc (x ∷ s) h (kx, k) = (ground arith, IsFree-digits sc s h k)

IsFree-signed_text : (sc : ℕ) (z : ℤ) → is_digit sc ≡ false → sc ≢ b'-' → IsFree sc (signed_text z)
unfolding signed_text
IsFree-signed_text sc (pos n) h k =
    IsFree-digits sc (decimal max_digits n) h (All-decimal max_digits n)
IsFree-signed_text sc (negsuc n) h k = (
  λ e. k (sym e),
  IsFree-digits sc (decimal max_digits (n + 1)) h (All-decimal max_digits (n + 1)),
)

number_last :
    (w : Width) (sc : ℕ) (s : Bytes) (z : ℤ) (v : List ℤ)
    → std_sto w s ≡ some z
    → number_loop w sc [] s v ≡ (true, v ++ as_int z ∷ [])
unfolding number_loop std_sto sign_and_digits
number_last w sc [] z v e = ground arith
number_last w sc (c ∷ s) z v e = ap (λ o. push_number o (false, v) (λ y. (true, v ++ y ∷ []))) e

number_next :
    (w : Width) (sc : ℕ) (s rest : Bytes) (z : ℤ) (v : List ℤ)
    → std_sto w s ≡ some z
    → number_loop w sc (sc ∷ rest) s v ≡ number_loop w sc rest [] (v ++ as_int z ∷ [])
unfolding number_loop
number_next w sc s rest z v e =
    rw ((==_iff sc sc).1 refl)
      (ap (λ o. push_number o (false, v) (λ y. number_loop w sc rest [] (v ++ y ∷ []))) e)

-- Numbers of the type, printed with a separator between them that is no digit and no minus, are accepted, and
-- what is stored behind the values that the vector has are these numbers cut to an `int`: for `int` these are
-- the numbers, and for `long` and `long long` only their low 32 bits arrive.
pub split_numbers-numbers_text :
    (w : Width) (sc : ℕ) (z : ℤ) (zs : List ℤ) (v : List ℤ)
    → is_digit sc ≡ false
    → sc ≢ b'-'
    → InRange w z
    → All (InRange w) zs
    → split_numbers w sc (numbers_text sc z zs) v ≡ (true, v ++ map as_int (z ∷ zs))
unfolding split_numbers
split_numbers-numbers_text w sc z [] v h k r rs =
    ap (λ s. number_loop w sc s [] v) (sym (append-nil (signed_text z)))
    ∙ number_loop-piece w sc (signed_text z) [] [] v (IsFree-signed_text sc z h k)
    ∙ number_last w sc (signed_text z) z v (std_sto-signed_text w z r)
split_numbers-numbers_text w sc z (y ∷ zs) v h k r (ry, rs) =
    let rest = numbers_text sc y zs in
    number_loop-piece w sc (signed_text z) (sc ∷ rest) [] v (IsFree-signed_text sc z h k)
    ∙ number_next w sc (signed_text z) rest z v (std_sto-signed_text w z r)
    ∙ split_numbers-numbers_text w sc y zs (v ++ as_int z ∷ []) h k ry rs
    ∙ ap (λ u. (true, u)) (append_assoc v (as_int z ∷ []) (map as_int (y ∷ zs)))
