-- ===== src/Base64/Tables.antt =====
-- What the masks and the alphabet of src/base64/base64.cpp compute to, at every value of a byte.
use libbundle.Prelude.{
  ℕ, ◌/◌, ◌%◌, ◌^◌, ◌<◌, ◌≡◌, refl, true, bit_and, table_holds, table_entry, eq_below, arith,
}
use libbundle.Base64.{char_at, index_of, accepts}

pub and_fc : (x : ℕ) → x < 256 → bit_and x 0xfc / 2 ^ 2 ≡ x / 4
unfolding table_holds
and_fc x = eq_below 256 (λ y. bit_and y 0xfc / 2 ^ 2) (λ y. y / 4) x refl

pub and_03 : (x : ℕ) → x < 256 → bit_and x 0x03 ≡ x % 4
unfolding table_holds
and_03 x = eq_below 256 (λ y. bit_and y 0x03) (λ y. y % 4) x refl

pub and_f0 : (x : ℕ) → x < 256 → bit_and x 0xf0 / 2 ^ 4 ≡ x / 16
unfolding table_holds
and_f0 x = eq_below 256 (λ y. bit_and y 0xf0 / 2 ^ 4) (λ y. y / 16) x refl

pub and_0f : (x : ℕ) → x < 256 → bit_and x 0x0f ≡ x % 16
unfolding table_holds
and_0f x = eq_below 256 (λ y. bit_and y 0x0f) (λ y. y % 16) x refl

pub and_c0 : (x : ℕ) → x < 256 → bit_and x 0xc0 / 2 ^ 6 ≡ x / 64
unfolding table_holds
and_c0 x = eq_below 256 (λ y. bit_and y 0xc0 / 2 ^ 6) (λ y. y / 64) x refl

pub and_3f : (x : ℕ) → x < 256 → bit_and x 0x3f ≡ x % 64
unfolding table_holds
and_3f x = eq_below 256 (λ y. bit_and y 0x3f) (λ y. y % 64) x refl

pub and_30 : (x : ℕ) → x < 64 → bit_and x 0x30 / 2 ^ 4 ≡ x / 16
unfolding table_holds
and_30 x = eq_below 64 (λ y. bit_and y 0x30 / 2 ^ 4) (λ y. y / 16) x refl

pub and_3c : (x : ℕ) → x < 64 → bit_and x 0x3c / 2 ^ 2 ≡ x / 4
unfolding table_holds
and_3c x = eq_below 64 (λ y. bit_and y 0x3c / 2 ^ 2) (λ y. y / 4) x refl

-- Each index is found at its own character, and each character of the alphabet is accepted.
pub index_of-char_at : (i : ℕ) → i < 64 → index_of (char_at i) ≡ i
unfolding table_holds index_of char_at
index_of-char_at i = eq_below 64 (λ y. index_of (char_at y)) (λ y. y) i refl

pub accepts-char_at : (i : ℕ) → i < 64 → accepts (char_at i) ≡ true
unfolding table_holds char_at accepts
accepts-char_at i h = table_entry (λ y. accepts (char_at y)) 64 i h refl

pub index_of-lt : (c : ℕ) → index_of c < 256
unfolding index_of
index_of-lt c = omega arith
