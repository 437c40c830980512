-- ===== src/Registry/Values.antt =====
-- The typed values of src/tools/Registry.cpp: what `get` makes of what `set` has stored.
use libbundle.Prelude.{
  zero, suc, ℕ, ◌%◌, ◌<◌, ◌≡◌, ◌∙◌, refl, ap, true, false, none, some, [], ◌∷◌, Bytes, take, arith,
}
use libbundle.Tables.{bytes_key, value_at, contains_key, emplace, same_refl}
use libbundle.Clib.{
  c_str, ℤ, Width, w8, w16, w32, w64, modulus, bits_of, of_bits, InRange, unsigned_text,
  signed_text, strtoul, strtol, pos, negsuc,
}
use libbundle.Clib.Decimal.{
  strtoul-unsigned_text, strtol-signed_text, c_str-unsigned_text, c_str-signed_text,
  of_bits-bits_of,
}
use libbundle.Registry.{
  Registry, set_value, set_formatted, set_unsigned, set_signed, set_text, get_value, get_unsigned,
  get_signed, get_text, or_default, find_key,
}

missing : (k : Bytes) (r : Registry) → find_key k r ≡ false → value_at r k ≡ none
unfolding find_key contains_key
missing k r h = ground arith

-- A text that is stored under a new key is found, cut after 1023 bytes and at a zero byte.
set_formatted_new :
    (k text : Bytes) (r : Registry)
    → find_key k r ≡ false
    → set_formatted k text r ≡ (true, (k, c_str (take 1023 text)) ∷ r)
unfolding set_formatted set_value emplace find_key
set_formatted_new k text r new = rw new refl

get_value-cons : (k text : Bytes) (r : Registry) → get_value k ((k, text) ∷ r) ≡ some text
unfolding get_value value_at
get_value-cons k text r = rw (same_refl k) refl

c_str-take : (s : Bytes) (n : ℕ) → c_str (take n (c_str s)) ≡ take n (c_str s)
unfolding c_str
c_str-take [] zero = refl
c_str-take [] (suc n) = refl
c_str-take (x ∷ s) zero = refl
c_str-take (x ∷ s) (suc n) = ground (arith, c_str-take s n)

wide : (w : Width) (v : ℕ) → v < modulus w → v < modulus w64
wide w8 v h = omega arith
wide w16 v h = omega arith
wide w32 v h = omega arith
wide w64 v h = h

narrow : (w : Width) (v : ℕ) → v < modulus w → v % modulus w ≡ v
narrow w8 v h = omega arith
narrow w16 v h = omega arith
narrow w32 v h = omega arith
narrow w64 v h = omega arith

wide_signed : (w : Width) (z : ℤ) → InRange w z → InRange w64 z
wide_signed w8 (pos n) h = omega arith
wide_signed w8 (negsuc n) h = omega arith
wide_signed w16 (pos n) h = omega arith
wide_signed w16 (negsuc n) h = omega arith
wide_signed w32 (pos n) h = omega arith
wide_signed w32 (negsuc n) h = omega arith
wide_signed w64 (pos n) h = h
wide_signed w64 (negsuc n) h = h

-- A number of an unsigned type that is stored under a new key is accepted, and `get` of that type gives it
-- back, for u8, u16, u32 and u64.
pub get_unsigned-set_unsigned :
    (w : Width) (k : Bytes) (v default : ℕ) (r : Registry)
    → find_key k r ≡ false
    → v < modulus w
    → ((set_unsigned k v r).0 ≡ true) × (get_unsigned w k default (set_unsigned k v r).1 ≡ v)
unfolding set_unsigned get_unsigned
get_unsigned-set_unsigned w k v default r new h =
    let stored =
      set_formatted_new k (unsigned_text v) r new
      ∙ ap (λ s. (true, (k, s) ∷ r)) (c_str-unsigned_text v) in
    (
      ap (λ x. x.0) stored,
      ap (λ x. get_unsigned w k default x.1) stored
          ∙ ap (λ o. or_default o (λ text. strtoul text % modulus w) default)
              (get_value-cons k (unsigned_text v) r)
          ∙ ap (λ n. n % modulus w) (strtoul-unsigned_text v (wide w v h))
          ∙ narrow w v h,
    )

-- A number of a signed type that is stored under a new key is accepted, and `get` of that type gives it
-- back, for s8, s16, s32 and s64.
pub get_signed-set_signed :
    (w : Width) (k : Bytes) (v default : ℤ) (r : Registry)
    → find_key k r ≡ false
    → InRange w v
    → ((set_signed k v r).0 ≡ true) × (get_signed w k default (set_signed k v r).1 ≡ v)
unfolding set_signed get_signed
get_signed-set_signed w k v default r new h =
    let stored =
      set_formatted_new k (signed_text v) r new
      ∙ ap (λ s. (true, (k, s) ∷ r)) (c_str-signed_text v) in
    (
      ap (λ x. x.0) stored,
      ap (λ x. get_signed w k default x.1) stored
          ∙ ap (λ o. or_default o (λ text. of_bits w (bits_of w (strtol text))) default)
              (get_value-cons k (signed_text v) r)
          ∙ ap (λ n. of_bits w (bits_of w n)) (strtol-signed_text v (wide_signed w v h))
          ∙ of_bits-bits_of w v h,
    )

-- A string that is stored under a new key is accepted, and `get` gives back what it has before its first zero
-- byte, but at most 1023 bytes of that: a longer one is cut.
pub get_text-set_text :
    (k text default : Bytes) (r : Registry)
    → find_key k r ≡ false
    → ((set_text k text r).0 ≡ true)
      × (get_text k default (set_text k text r).1 ≡ take 1023 (c_str text))
unfolding set_text get_text
get_text-set_text k text default r new =
    let stored =
      set_formatted_new k (c_str text) r new
      ∙ ap (λ s. (true, (k, s) ∷ r)) (c_str-take text 1023) in
    (
      ap (λ x. x.0) stored,
      ap (λ x. get_text k default x.1) stored
          ∙ ap (λ o. or_default o (λ s. s) default) (get_value-cons k (take 1023 (c_str text)) r),
    )
