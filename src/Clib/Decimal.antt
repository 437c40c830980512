-- ===== src/Clib/Decimal.antt =====
-- The numbers of `printf` and the functions that read them.
use libbundle.Prelude.{
  ◌>>=◌, take, take_all, ℕ, zero, suc, ◌+◌, ◌-◌, ◌*◌, ◌/◌, ◌%◌, ◌^◌, ◌≤◌, ◌<◌, ◌≡◌, ◌∙◌, refl, ap,
  Bool, true, false, none, some, [], ◌∷◌, ◌++◌, Bytes, All, All-append, arith, length,
  length-append,
}
use libbundle.Clib.{
  std_sto, in_type, c_str, digits, decimal, unsigned_text, signed_text, sign_and_digits, strtoul,
  strtol, ℤ, pos, negsuc, Width, w8, w16, w32, w64, modulus, half, bits_of, of_bits, InRange,
  to_signed, or_zero, max_digits,
}

abbrev pub IsDigit : ℕ → Type 0
IsDigit c = (48 ≤ c) × (c ≤ 57)

-- One digit more at the end.
digits-append :
    (xs : Bytes) (d n : ℕ)
    → All IsDigit xs
    → d < 10
    → digits (xs ++ (48 + d) ∷ []) (some n) ≡ some (or_zero (digits xs (some n)) * 10 + d)
unfolding digits
digits-append [] d n h k = ground arith
digits-append (x ∷ xs) d n (hx, h) k = ground (arith, digits-append xs d (n * 10 + (x - 48)) h k)

pub All-decimal : (room n : ℕ) → All IsDigit (decimal room n)
unfolding decimal
All-decimal zero n = tt
All-decimal (suc room) n = ground (
  arith,
  All-append IsDigit (decimal room (n / 10)) ((48 + n % 10) ∷ []) (All-decimal room (n / 10))
      ((omega arith, omega arith), tt),
)

-- The printed number, read behind a number that is zero.
digits-decimal : (room n : ℕ) → n < 10 ^ room → digits (decimal room n) (some 0) ≡ some n
unfolding digits decimal
digits-decimal zero n h = ap some (omega arith)
digits-decimal (suc room) n h =
    let bound : n / 10 < 10 ^ room = omega arith in
    ground (
      arith,
      digits-append (decimal room (n / 10)) (n % 10) 0 (All-decimal room (n / 10)) (omega arith),
      digits-decimal room (n / 10) bound,
    )

pub length-decimal : (room n : ℕ) → length (decimal room n) ≤ room
unfolding decimal
length-decimal zero n = omega arith
length-decimal (suc room) n = ground (
  arith,
  length-append (decimal room (n / 10)) ((48 + n % 10) ∷ []),
  length-decimal room (n / 10),
)

pub c_str-digits : (s : Bytes) → All IsDigit s → c_str s ≡ s
unfolding c_str
c_str-digits [] h = refl
c_str-digits (x ∷ s) (hx, h) = ground (arith, c_str-digits s h)

-- A text of digits has no sign.
sign_and_digits-digits :
    (s : Bytes) (n : ℕ)
    → All IsDigit s
    → 0 < length s
    → digits s (some 0) ≡ some n
    → sign_and_digits s ≡ (false, some n)
unfolding sign_and_digits digits
sign_and_digits-digits [] n h k e = absurd (omega arith)
sign_and_digits-digits (x ∷ s) n (hx, h) k e = ground (arith, hx)

pub digits-none :
    (s : Bytes) (n : ℕ)
    → All IsDigit s
    → 0 < length s
    → digits s (some 0) ≡ some n
    → digits s none ≡ some n
unfolding digits
digits-none [] n h k e = absurd (omega arith)
digits-none (x ∷ s) n (hx, h) k e = ground (arith, hx)

pub some_digits : (n : ℕ) → 0 < length (decimal max_digits n)
unfolding decimal
some_digits n = ground (arith, length-append (decimal 19 (n / 10)) ((48 + n % 10) ∷ []))

pub digits_max : (n : ℕ) → n < 0x10000000000000000 → digits (decimal max_digits n) (some 0) ≡ some n
digits_max n h = digits-decimal max_digits n (omega arith)

strtoul_of :
    (s : Bytes) (n : ℕ) → sign_and_digits s ≡ (false, some n) → n < modulus w64 → strtoul s ≡ n
unfolding strtoul
strtoul_of s n e h = ground (arith, e)

strtol_of :
    (s : Bytes) (negative : Bool) (n : ℕ)
    → sign_and_digits s ≡ (negative, some n)
    → strtol s ≡ to_signed negative n
unfolding strtol
strtol_of s negative n e = ap (λ p. to_signed p.0 (or_zero p.1)) e

sign_and_digits-minus :
    (s : Bytes) (n : ℕ) → digits s none ≡ some n → sign_and_digits (b'-' ∷ s) ≡ (true, some n)
unfolding sign_and_digits
sign_and_digits-minus s n e = ap (λ o. (true, o)) e

to_signed_pos : (n : ℕ) → n < half w64 → to_signed false n ≡ pos n
to_signed_pos zero h = refl
to_signed_pos (suc n) h = ground arith

to_signed_neg : (n : ℕ) → n < half w64 → to_signed true (n + 1) ≡ negsuc n
to_signed_neg n h = ground arith

read_pos : (n : ℕ) → n < modulus w64 → sign_and_digits (decimal max_digits n) ≡ (false, some n)
read_pos n h =
    sign_and_digits-digits (decimal max_digits n) n (All-decimal max_digits n) (some_digits n)
      (digits_max n h)

read_neg :
    (n : ℕ)
    → n < half w64
    → sign_and_digits (b'-' ∷ decimal max_digits (n + 1)) ≡ (true, some (n + 1))
read_neg n h =
    let front = decimal max_digits (n + 1) in
    sign_and_digits-minus front (n + 1) (
      digits-none front (n + 1) (All-decimal max_digits (n + 1)) (some_digits (n + 1))
        (digits_max (n + 1) (omega arith)))

std_sto_of :
    (w : Width) (s : Bytes) (negative : Bool) (n : ℕ)
    → sign_and_digits s ≡ (negative, some n)
    → std_sto w s ≡ in_type w negative n
unfolding std_sto
std_sto_of w s negative n e = ap (λ p. p.1 >>= in_type w p.0) e

in_type_pos : (w : Width) (n : ℕ) → n < half w → in_type w false n ≡ some (pos n)
in_type_pos w zero h = refl
in_type_pos w (suc n) h = ground arith

in_type_neg : (w : Width) (n : ℕ) → n < half w → in_type w true (n + 1) ≡ some (negsuc n)
in_type_neg w n h = ground arith

pub half_wide : (w : Width) → half w ≤ half w64
half_wide w8 = omega arith
half_wide w16 = omega arith
half_wide w32 = omega arith
half_wide w64 = omega arith

-- `std::stoi` and its relatives read what `%ld` printed, where it is a number of their type.
pub std_sto-signed_text : (w : Width) (z : ℤ) → InRange w z → std_sto w (signed_text z) ≡ some z
unfolding signed_text
std_sto-signed_text w (pos n) h =
    std_sto_of w (decimal max_digits n) false n (read_pos n (omega (arith, half_wide w)))
    ∙ in_type_pos w n h
std_sto-signed_text w (negsuc n) h =
    std_sto_of w (b'-' ∷ decimal max_digits (n + 1)) true (n + 1)
      (read_neg n (omega (arith, half_wide w)))
    ∙ in_type_neg w n h

-- `strtoul` reads what `%lu` printed.
pub strtoul-unsigned_text : (n : ℕ) → n < modulus w64 → strtoul (unsigned_text n) ≡ n
unfolding unsigned_text
strtoul-unsigned_text n h = strtoul_of (decimal max_digits n) n (read_pos n h) h

-- `strtol` reads what `%ld` printed.
pub strtol-signed_text : (z : ℤ) → InRange w64 z → strtol (signed_text z) ≡ z
unfolding signed_text
strtol-signed_text (pos n) h =
    strtol_of (decimal max_digits n) false n (read_pos n (omega arith)) ∙ to_signed_pos n h
strtol-signed_text (negsuc n) h =
    strtol_of (b'-' ∷ decimal max_digits (n + 1)) true (n + 1) (read_neg n h) ∙ to_signed_neg n h

-- The texts have no zero byte, and fit a buffer of 1023 bytes.
pub c_str-unsigned_text : (n : ℕ) → c_str (take 1023 (unsigned_text n)) ≡ unsigned_text n
unfolding unsigned_text
c_str-unsigned_text n =
    ap c_str (take_all 1023 (decimal max_digits n) (omega (arith, length-decimal max_digits n)))
    ∙ c_str-digits (decimal max_digits n) (All-decimal max_digits n)

c_str-minus : (s : Bytes) → c_str (b'-' ∷ s) ≡ b'-' ∷ c_str s
unfolding c_str
c_str-minus s = refl

pub c_str-signed_text : (z : ℤ) → c_str (take 1023 (signed_text z)) ≡ signed_text z
unfolding signed_text
c_str-signed_text (pos n) =
    ap c_str (take_all 1023 (decimal max_digits n) (omega (arith, length-decimal max_digits n)))
    ∙ c_str-digits (decimal max_digits n) (All-decimal max_digits n)
c_str-signed_text (negsuc n) =
    let front = decimal max_digits (n + 1) in
    ap c_str (take_all 1023 (b'-' ∷ front) (omega (arith, length-decimal max_digits (n + 1))))
    ∙ c_str-minus front
    ∙ ap (◌∷◌ b'-') (c_str-digits front (All-decimal max_digits (n + 1)))

-- A number in the range of its type is the number of its bits.
pub of_bits-bits_of : (w : Width) (z : ℤ) → InRange w z → of_bits w (bits_of w z) ≡ z
of_bits-bits_of w8 (pos n) h = ground arith
of_bits-bits_of w8 (negsuc n) h = ground arith
of_bits-bits_of w16 (pos n) h = ground arith
of_bits-bits_of w16 (negsuc n) h = ground arith
of_bits-bits_of w32 (pos n) h = ground arith
of_bits-bits_of w32 (negsuc n) h = ground arith
of_bits-bits_of w64 (pos n) h = ground arith
of_bits-bits_of w64 (negsuc n) h = ground arith
