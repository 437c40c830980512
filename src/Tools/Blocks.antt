-- ===== src/Tools/Blocks.antt =====
-- The encryption by blocks of src/tools/Tools.cpp. The cipher on one block of eight bytes, `DES_ecb_encrypt`, is
-- a parameter. A string is shorter than 2 ^ 31 bytes, since its length is converted to an `int`.
use libbundle.Prelude.{
  take_all, take-append_le, drop-append_le, ℕ, zero, suc, ◌-◌, ◌*◌, ◌/◌, ◌%◌, ◌≤◌, ◌≡◌, ◌∙◌, refl,
  sym, ap, true, [], ◌∷◌, ◌++◌, Bytes, ◌==◌, leb, if◌then◌else◌, arith, append_assoc, append-nil,
  length, take, drop, replicate, length-append, length-take, length-drop, take-append-drop,
  take-append, drop-append,
}

-- `DES_ENCRYPT` and `DES_DECRYPT`.
pub data Direction : Type 0 where
  encrypt decrypt : Direction

-- `memset` to zeros and `memcpy` of the bytes.
abbrev pub padded : Bytes → Bytes
padded s = s ++ replicate (8 - length s) 0

-- The key: eight bytes of the string, or all of it and zeros.
abbrev pub key_block : Bytes → Bytes
key_block key = if leb (length key) 8 then padded key else take 8 key

module _ (cipher : Direction → Bytes → Bytes → Bytes) where
  -- The loop over the whole blocks; n of them are left.
  unfoldable pub block_loop : ℕ → Direction → Bytes → Bytes → Bytes
  block_loop zero dir key s = []
  block_loop (suc n) dir key s = cipher dir key (take 8 s) ++ block_loop n dir key (drop 8 s)

  -- The bytes behind the last whole block.
  unfoldable pub last_block : Direction → Bytes → Bytes → Bytes
  last_block dir key s =
      if length s % 8 == 0 then [] else cipher dir key (padded (drop (length s / 8 * 8) s))

  unfoldable pub des_blocks : Direction → Bytes → Bytes → Bytes
  des_blocks dir deskey s =
      block_loop (length s / 8) dir (key_block deskey) s ++ last_block dir (key_block deskey) s

  -- `openssl_des_encrypt` and `openssl_des_decrypt`.
  unfoldable pub openssl_des_encrypt : Bytes → Bytes → Bytes
  openssl_des_encrypt plain deskey = des_blocks encrypt deskey plain

  unfoldable pub openssl_des_decrypt : Bytes → Bytes → Bytes
  openssl_des_decrypt secret deskey = des_blocks decrypt deskey secret

-- What the code relies on: a block becomes a block, and decryption with the same key undoes encryption.
pub record IsCipher (cipher : Direction → Bytes → Bytes → Bytes) : Type 0 where
  pub block : (dir : Direction) (key s : Bytes) → length s ≡ 8 → length (cipher dir key s) ≡ 8
  pub undone : (key s : Bytes) → length s ≡ 8 → cipher decrypt key (cipher encrypt key s) ≡ s

-- The zeros that fill the last block.
abbrev pub filling : Bytes → Bytes
filling s = replicate ((8 - length s % 8) % 8) 0

pub is_empty : (s : Bytes) → length s ≡ 0 → s ≡ []
is_empty [] e = refl
is_empty (x ∷ s) e = absurd (omega arith)

take_block : (a b : Bytes) → length a ≡ 8 → take 8 (a ++ b) ≡ a
take_block a b e = ap (λ n. take n (a ++ b)) (sym e) ∙ take-append a b

drop_block : (a b : Bytes) → length a ≡ 8 → drop 8 (a ++ b) ≡ b
drop_block a b e = ap (λ n. drop n (a ++ b)) (sym e) ∙ drop-append a b

module _ (cipher : Direction → Bytes → Bytes → Bytes) (h : IsCipher cipher) where
  first_block :
      (dir : Direction) (key s : Bytes) → 8 ≤ length s → length (cipher dir key (take 8 s)) ≡ 8
  first_block dir key s l = h.block dir key (take 8 s) (omega (arith, length-take 8 s))

  -- What stands behind the blocks that are counted is left alone.
  pub block_loop_front :
      (n : ℕ) (dir : Direction) (key a b : Bytes)
      → length a ≡ 8 * n
      → block_loop cipher n dir key (a ++ b) ≡ block_loop cipher n dir key a
  unfolding block_loop
  block_loop_front zero dir key a b e = refl
  block_loop_front (suc n) dir key a b e =
      let front = take-append_le 8 a b (omega arith) in
      let back = drop-append_le 8 a b (omega arith) in
      ap (λ s. cipher dir key s ++ block_loop cipher n dir key (drop 8 (a ++ b))) front
      ∙ ap (λ s. cipher dir key (take 8 a) ++ block_loop cipher n dir key s) back
      ∙ ap (λ s. cipher dir key (take 8 a) ++ s)
          (block_loop_front n dir key (drop 8 a) b (omega (arith, length-drop 8 a)))

  -- Whole blocks with one block behind them.
  pub block_loop-append :
      (n : ℕ) (dir : Direction) (key a b : Bytes)
      → length a ≡ 8 * n
      → length b ≡ 8
      → block_loop cipher (suc n) dir key (a ++ b)
        ≡ block_loop cipher n dir key a ++ cipher dir key b
  unfolding block_loop
  block_loop-append zero dir key a b e l =
      let nil = is_empty a (omega arith) in
      append-nil (cipher dir key (take 8 (a ++ b)))
      ∙ ap (λ s. cipher dir key (take 8 (s ++ b))) nil
      ∙ ap (cipher dir key) (take_all 8 b (omega arith))
  block_loop-append (suc n) dir key a b e l =
      let front = take-append_le 8 a b (omega arith) in
      let back = drop-append_le 8 a b (omega arith) in
      ap (λ s. cipher dir key s ++ block_loop cipher (suc n) dir key (drop 8 (a ++ b))) front
      ∙ ap (λ s. cipher dir key (take 8 a) ++ block_loop cipher (suc n) dir key s) back
      ∙ ap (λ s. cipher dir key (take 8 a) ++ s)
          (block_loop-append n dir key (drop 8 a) b (omega (arith, length-drop 8 a)) l)
      ∙ sym (
          append_assoc (cipher dir key (take 8 a)) (block_loop cipher n dir key (drop 8 a))
            (cipher dir key b))

  pub length-block_loop :
      (n : ℕ) (dir : Direction) (key s : Bytes)
      → length s ≡ 8 * n
      → length (block_loop cipher n dir key s) ≡ 8 * n
  unfolding block_loop
  length-block_loop zero dir key s e = omega arith
  length-block_loop (suc n) dir key s e = omega (
    arith,
    length-append (cipher dir key (take 8 s)) (block_loop cipher n dir key (drop 8 s)),
    first_block dir key s (omega arith),
    length-block_loop n dir key (drop 8 s) (omega (arith, length-drop 8 s)),
  )

  pub block_loop_undone :
      (n : ℕ) (key s : Bytes)
      → length s ≡ 8 * n
      → block_loop cipher n decrypt key (block_loop cipher n encrypt key s) ≡ s
  unfolding block_loop
  block_loop_undone zero key s e = sym (is_empty s (omega arith))
  block_loop_undone (suc n) key s e =
      let one = cipher encrypt key (take 8 s) in
      let rest = block_loop cipher n encrypt key (drop 8 s) in
      let size = first_block encrypt key s (omega arith) in
      ap (λ b. cipher decrypt key b ++ block_loop cipher n decrypt key (drop 8 (one ++ rest)))
        (take_block one rest size)
      ∙ ap (λ b. cipher decrypt key one ++ block_loop cipher n decrypt key b)
          (drop_block one rest size)
      ∙ ap (λ b. b ++ block_loop cipher n decrypt key rest)
          (h.undone key (take 8 s) (omega (arith, length-take 8 s)))
      ∙ ap (λ b. take 8 s ++ b)
          (block_loop_undone n key (drop 8 s) (omega (arith, length-drop 8 s)))
      ∙ take-append-drop 8 s

  -- Of whole blocks nothing is left behind the loop.
  pub des_blocks_whole :
      (n : ℕ) (dir : Direction) (key s : Bytes)
      → length s ≡ 8 * n
      → des_blocks cipher dir key s ≡ block_loop cipher n dir (key_block key) s
  unfolding des_blocks last_block
  des_blocks_whole n dir key s e =
      let none_left : (length s % 8 == 0) ≡ true = ground (arith, e) in
      let count : length s / 8 ≡ n = omega arith in
      rw (none_left, count) (append-nil (block_loop cipher n dir (key_block key) s))
