-- ===== src/Clib.antt =====
-- What the code uses of the C library's functions on text: strings that end at a zero byte, the decimal
-- numbers of `printf`, and `strtoul`, `strtol` and their 64-bit forms, which read them.
pub mod Decimal
use libbundle.Prelude.{
  ◌>>=◌, ℕ, zero, suc, ◌+◌, ◌-◌, ◌*◌, ◌/◌, ◌%◌, ◌<◌, Bool, true, false, ◌&&◌, ◌||◌, Option, none,
  some, [], ◌∷◌, ◌++◌, Bytes, ltb, leb, ◌==◌, if◌then◌else◌, ◌≡◌, refl,
}

-- The text up to the first zero byte.
unfoldable pub c_str : Bytes → Bytes
c_str [] = []
c_str (x ∷ xs) = let rest = c_str xs in if x == 0 then [] else x ∷ rest

-- `isspace` and `isdigit` of the C locale.
abbrev pub is_space : ℕ → Bool
is_space c = c == b' ' || leb 9 c && leb c 13

abbrev pub is_digit : ℕ → Bool
is_digit c = leb b'0' c && leb c b'9'

-- The digits at the front, behind the number read so far; `none` where there is no digit at all.
unfoldable pub digits : Bytes → Option ℕ → Option ℕ
digits [] acc = acc
digits (c ∷ s) none = let rest = digits s (some (c - b'0')) in if is_digit c then rest else none
digits (c ∷ s) (some n) =
    let rest = digits s (some (n * 10 + (c - b'0'))) in if is_digit c then rest else some n

-- The signed numbers.
pub data ℤ : Type 0 where
  pos negsuc : ℕ → ℤ

-- The widths of the integer types, with 2 ^ w for each of them.
pub data Width : Type 0 where
  w8 w16 w32 w64 : Width

abbrev pub modulus : Width → ℕ
modulus w8 = 0x100
modulus w16 = 0x10000
modulus w32 = 0x100000000
modulus w64 = 0x10000000000000000

abbrev pub half : Width → ℕ
half w8 = 0x80
half w16 = 0x8000
half w32 = 0x80000000
half w64 = 0x8000000000000000

-- The bits of a signed number, and the signed number of some bits.
abbrev pub bits_of : Width → ℤ → ℕ
bits_of w (pos n) = n % modulus w
bits_of w (negsuc n) = modulus w - 1 - n % modulus w

abbrev pub of_bits : Width → ℕ → ℤ
of_bits w b = if ltb b (half w) then pos b else negsuc (modulus w - 1 - b)

-- Whether the type of that width has the number.
abbrev pub InRange : Width → ℤ → Type 0
InRange w (pos n) = n < half w
InRange w (negsuc n) = n < half w

-- `%lu`. Twenty digits are enough for 64 bits.
unfoldable pub decimal : ℕ → ℕ → Bytes
decimal zero n = []
decimal (suc room) n =
    let front = decimal room (n / 10) in
    if ltb n 10 then (b'0' + n) ∷ [] else front ++ (b'0' + n % 10) ∷ []

abbrev pub max_digits : ℕ
max_digits = 20

unfoldable pub unsigned_text : ℕ → Bytes
unfolding decimal
unsigned_text n = decimal max_digits n

-- `%ld`.
unfoldable pub signed_text : ℤ → Bytes
unfolding decimal
signed_text (pos n) = decimal max_digits n
signed_text (negsuc n) = b'-' ∷ decimal max_digits (n + 1)

abbrev pub or_zero : Option ℕ → ℕ
or_zero none = 0
or_zero (some n) = n

-- What `strtoul` makes of the digits behind a sign: too large a number is the largest one.
abbrev pub to_unsigned : Bool → ℕ → ℕ
to_unsigned negative n =
    if ltb n (modulus w64)
    then (if negative then (modulus w64 - n) % modulus w64 else n)
    else modulus w64 - 1

-- And `strtol`.
abbrev pub to_signed : Bool → ℕ → ℤ
to_signed negative zero = pos 0
to_signed negative (suc n) =
    if negative
    then (if ltb n (half w64) then negsuc n else negsuc (half w64 - 1))
    else if ltb (suc n) (half w64)
    then pos (suc n)
    else pos (half w64 - 1)

-- The sign and the digits behind white space: whether there is a minus, and the number, if there is one.
unfoldable pub sign_and_digits : Bytes → Bool × Option ℕ
unfolding digits
sign_and_digits [] = (false, none)
sign_and_digits (c ∷ s) =
    let rest = sign_and_digits s in
    if is_space c
    then rest
    else if c == b'-'
    then (true, digits s none)
    else if c == b'+'
    then (false, digits s none)
    else (false, digits (c ∷ s) none)

unfoldable pub strtoul : Bytes → ℕ
unfolding sign_and_digits
strtoul s = to_unsigned (sign_and_digits s).0 (or_zero (sign_and_digits s).1)

unfoldable pub strtol : Bytes → ℤ
unfolding sign_and_digits
strtol s = to_signed (sign_and_digits s).0 (or_zero (sign_and_digits s).1)

-- `std::stoi`, `std::stol` and `std::stoll`, by the width of the type; `none` is an exception, which is what
-- they do where there is no number and where it is out of range.
abbrev pub in_type : Width → Bool → ℕ → Option ℤ
in_type w negative zero = some (pos 0)
in_type w negative (suc n) =
    if negative
    then (if ltb n (half w) then some (negsuc n) else none)
    else if ltb (suc n) (half w)
    then some (pos (suc n))
    else none

unfoldable pub std_sto : Width → Bytes → Option ℤ
std_sto w s = let read = sign_and_digits s in read.1 >>= in_type w read.0

strtoul_overflow : strtoul (signed_text (negsuc 4)) ≡ 0xfffffffffffffffb
unfolding strtoul signed_text sign_and_digits digits decimal
strtoul_overflow = refl
