-- ===== src/Tools/Encoded.antt =====
-- UTF-8 as RFC 3629 has it, against the test of src/tools/Tools.cpp.
use libbundle.Prelude.{
  not, ℕ, suc, ◌+◌, ◌/◌, ◌%◌, ◌<◌, ◌≤◌, ◌⊎◌, ◌≡◌, ◌∙◌, refl, true, false, some, List, [], ◌∷◌, ◌++◌,
  Bytes, ◌==◌, ltb, if◌then◌else◌, arith, All, table_holds, table_entry, bit_and, Bool-cases, inl,
  inr, ==_iff,
}
use libbundle.Tools.Utf8.{is_surrogate, following, is_continued, utf8_loop, is_utf8_string}

-- A Unicode scalar value.
abbrev pub IsScalar : ℕ → Type 0
IsScalar c = (c < 0xd800) ⊎ ((0xe000 ≤ c) × (c < 0x110000))

abbrev tail6 : ℕ → ℕ
tail6 n = 0x80 + n % 64

abbrev pub encode : ℕ → Bytes
encode c =
    if ltb c 0x80
    then c ∷ []
    else if ltb c 0x800
    then (0xc0 + c / 64) ∷ tail6 c ∷ []
    else if ltb c 0x10000
    then (0xe0 + c / 4096) ∷ tail6 (c / 64) ∷ tail6 c ∷ []
    else (0xf0 + c / 262144) ∷ tail6 (c / 4096) ∷ tail6 (c / 64) ∷ tail6 c ∷ []

abbrev pub encode_all : List ℕ → Bytes
encode_all [] = []
encode_all (c ∷ cs) = encode c ++ encode_all cs

-- The tables of the four masks.
is_continued_tail : (n : ℕ) → is_continued (tail6 n) ≡ true
unfolding table_holds
is_continued_tail n = table_entry (λ y. is_continued (0x80 + y)) 64 (n % 64) (omega arith) refl

continued : (n j : ℕ) (s : Bytes) → utf8_loop (suc j) (tail6 n ∷ s) ≡ utf8_loop j s
unfolding utf8_loop
continued n j s = rw (is_continued_tail n) refl

lead1 : (c : ℕ) (s : Bytes) → c < 128 → following c s ≡ some 0
unfolding following
lead1 c s h = ground arith

-- The masks of the bytes that begin an encoding of two, three and four bytes.
mask2 : (d : ℕ) → d < 32 → (bit_and (0xc0 + d) 0xe0 == 0xc0) ≡ true
unfolding table_holds
mask2 d h = table_entry (λ y. bit_and (0xc0 + y) 0xe0 == 0xc0) 32 d h refl

not_mask2 : (d : ℕ) → d < 32 → not (bit_and (0xe0 + d) 0xe0 == 0xc0) ≡ true
unfolding table_holds
not_mask2 d h = table_entry (λ y. not (bit_and (0xe0 + y) 0xe0 == 0xc0)) 32 d h refl

mask3 : (d : ℕ) → d < 16 → (bit_and (0xe0 + d) 0xf0 == 0xe0) ≡ true
unfolding table_holds
mask3 d h = table_entry (λ y. bit_and (0xe0 + y) 0xf0 == 0xe0) 16 d h refl

not_mask3 : (d : ℕ) → d < 8 → not (bit_and (0xf0 + d) 0xf0 == 0xe0) ≡ true
unfolding table_holds
not_mask3 d h = table_entry (λ y. not (bit_and (0xf0 + y) 0xf0 == 0xe0)) 8 d h refl

mask4 : (d : ℕ) → d < 8 → (bit_and (0xf0 + d) 0xf8 == 0xf0) ≡ true
unfolding table_holds
mask4 d h = table_entry (λ y. bit_and (0xf0 + y) 0xf8 == 0xf0) 8 d h refl

not_surrogate : (x : ℕ) → x < 32 → not (bit_and (0x80 + x) 0xa0 == 0xa0) ≡ true
unfolding table_holds
not_surrogate x h = table_entry (λ y. not (bit_and (0x80 + y) 0xa0 == 0xa0)) 32 x h refl

lead2 : (d : ℕ) (s : Bytes) → d < 32 → following (0xc0 + d) s ≡ some 1
unfolding following
lead2 d s h = ground (arith, mask2 d h)

surrogate_free :
    (d x : ℕ) (s : Bytes) → (d ≡ 13 → x < 32) → is_surrogate (0xe0 + d) ((0x80 + x) ∷ s) ≡ false
surrogate_free d x s k = elim (Bool-cases (d == 13)) [
  | inl e ↦ ground (arith, not_surrogate x (k ((==_iff d 13).0 e)))
  | inr e ↦ ground arith
]

lead3 :
    (d x : ℕ) (s : Bytes)
    → d < 16
    → (d ≡ 13 → x < 32)
    → following (0xe0 + d) ((0x80 + x) ∷ s) ≡ some 2
unfolding following
lead3 d x s h k = ground (arith, not_mask2 d (omega arith), surrogate_free d x s k, mask3 d h)

not_0xed : (d : ℕ) (s : Bytes) → is_surrogate (0xf0 + d) s ≡ false
not_0xed d [] = refl
not_0xed d (next ∷ s) = ground arith

not_mask2_high : (d : ℕ) → d < 8 → not (bit_and (0xf0 + d) 0xe0 == 0xc0) ≡ true
unfolding table_holds
not_mask2_high d h = table_entry (λ y. not (bit_and (0xf0 + y) 0xe0 == 0xc0)) 8 d h refl

lead4 : (d : ℕ) (s : Bytes) → d < 8 → following (0xf0 + d) s ≡ some 3
unfolding following
lead4 d s h = ground (arith, not_mask2_high d h, not_0xed d s, not_mask3 d h, mask4 d h)

utf8_loop-lead :
    (c n : ℕ) (s : Bytes) → following c s ≡ some n → utf8_loop 0 (c ∷ s) ≡ utf8_loop n s
unfolding utf8_loop
utf8_loop-lead c n s e = rw (utf8_loop, e) refl

utf8_loop-encode : (c : ℕ) (s : Bytes) → IsScalar c → utf8_loop 0 (encode c ++ s) ≡ utf8_loop 0 s
utf8_loop-encode c s h = elim (Bool-cases (ltb c 0x80)) [
  | inl a ↦ rw a (utf8_loop-lead c 0 s (lead1 c s (ground arith)))
  | inr a ↦ elim (Bool-cases (ltb c 0x800)) [
    | inl b ↦
        rw (a, b)
          (utf8_loop-lead (0xc0 + c / 64) 1 (tail6 c ∷ s)
              (lead2 (c / 64) (tail6 c ∷ s) (ground arith))
            ∙ continued c 0 s)
    | inr b ↦ elim (Bool-cases (ltb c 0x10000)) [
      | inl d ↦
          let rest = tail6 c ∷ s in
          rw (a, b, d)
            (utf8_loop-lead (0xe0 + c / 4096) 2 (tail6 (c / 64) ∷ rest)
                (lead3 (c / 4096) (c / 64 % 64) rest (ground arith) (ground arith))
              ∙ continued (c / 64) 1 rest
              ∙ continued c 0 s)
      | inr d ↦
          let rest = tail6 (c / 64) ∷ tail6 c ∷ s in
          rw (a, b, d)
            (utf8_loop-lead (0xf0 + c / 262144) 3 (tail6 (c / 4096) ∷ rest)
                (lead4 (c / 262144) (tail6 (c / 4096) ∷ rest) (ground arith))
              ∙ continued (c / 4096) 2 rest
              ∙ continued (c / 64) 1 (tail6 c ∷ s)
              ∙ continued c 0 s)
    ]
  ]
]

-- Every UTF-8 encoding of a list of Unicode scalar values is accepted.
pub is_utf8_string-encode_all :
    (cs : List ℕ) → All IsScalar cs → is_utf8_string (encode_all cs) ≡ true
unfolding is_utf8_string utf8_loop
is_utf8_string-encode_all [] h = refl
is_utf8_string-encode_all (c ∷ cs) (hc, h) =
    utf8_loop-encode c (encode_all cs) hc ∙ is_utf8_string-encode_all cs h
