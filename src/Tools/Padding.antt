-- ===== src/Tools/Padding.antt =====
-- The strings that are no whole blocks, in the encryption of src/tools/Tools.cpp.
use libbundle.Prelude.{
  ℕ, suc, ◌-◌, ◌*◌, ◌/◌, ◌%◌, ◌<◌, ◌≡◌, ◌∙◌, sym, ap, true, false, ◌++◌, Bytes, ◌==◌, arith,
  append_assoc, append-nil, length, take, drop, replicate, length-append, length-take, length-drop,
  length-replicate, take-append-drop, Bool-cases, inl, inr, ==_iff,
}
use libbundle.Tools.Blocks.{
  Direction, encrypt, decrypt, padded, key_block, block_loop, last_block, des_blocks,
  openssl_des_encrypt, openssl_des_decrypt, IsCipher, block_loop-append, block_loop_front,
  block_loop_undone, length-block_loop, des_blocks_whole,
}

-- The zeros that fill the last block.
abbrev pub filling : Bytes → Bytes
filling s = replicate ((8 - length s % 8) % 8) 0

-- The string with these zeros is whole blocks.
module _ (cipher : Direction → Bytes → Bytes → Bytes) (h : IsCipher cipher) where
  whole_blocks :
      (s deskey : Bytes)
      → (length s % 8 == 0) ≡ true
      → (n : ℕ) × (length (s ++ filling s) ≡ 8 * n)
        × (des_blocks cipher encrypt deskey s
            ≡ block_loop cipher n encrypt (key_block deskey) (s ++ filling s))
  whole_blocks s deskey e =
      let whole : length s % 8 ≡ 0 = (==_iff (length s % 8) 0).0 e in
      let zeros : (8 - length s % 8) % 8 ≡ 0 = omega arith in
      let full : s ++ filling s ≡ s = ap (λ n. s ++ replicate n 0) zeros ∙ append-nil s in
      let n = length s / 8 in
      let size : length s ≡ 8 * n = omega arith in
      (
        n,
        ap length full ∙ size,
        des_blocks_whole cipher h n encrypt deskey s size
            ∙ ap (block_loop cipher n encrypt (key_block deskey)) (sym full),
      )

  part_blocks :
      (s deskey : Bytes)
      → (length s % 8 == 0) ≡ false
      → (n : ℕ) × (length (s ++ filling s) ≡ 8 * n)
        × (des_blocks cipher encrypt deskey s
            ≡ block_loop cipher n encrypt (key_block deskey) (s ++ filling s))
  unfolding des_blocks last_block
  part_blocks s deskey e =
      let key = key_block deskey in
      let q = length s / 8 in
      let a = take (q * 8) s in
      let b = drop (q * 8) s in
      let some_left : 0 < length s % 8 = ground arith in
      let size_a : length a ≡ 8 * q = omega (arith, length-take (q * 8) s) in
      let size_b : length b ≡ length s % 8 = omega (arith, length-drop (q * 8) s) in
      let zeros : (8 - length s % 8) % 8 ≡ 8 - length b = omega arith in
      let full : s ++ filling s ≡ a ++ padded b =
        ap (λ n. s ++ replicate n 0) zeros
        ∙ ap (λ t. t ++ replicate (8 - length b) 0) (sym (take-append-drop (q * 8) s))
        ∙ append_assoc a b (replicate (8 - length b) 0) in
      let size_p : length (padded b) ≡ 8 = omega (
        arith,
        length-append b (replicate (8 - length b) 0),
        length-replicate {A = ℕ} (8 - length b) 0,
      ) in
      (
        suc q,
        ap length full ∙ omega (arith, length-append a (padded b)),
        rw e (
            ap (λ t. block_loop cipher q encrypt key t ++ cipher encrypt key (padded b))
              (sym (take-append-drop (q * 8) s))
            ∙ ap (λ t. t ++ cipher encrypt key (padded b))
                (block_loop_front cipher h q encrypt key a b size_a)
            ∙ sym (block_loop-append cipher h q encrypt key a (padded b) size_a size_p)
            ∙ ap (block_loop cipher (suc q) encrypt key) (sym full)),
      )

  encrypted_blocks :
      (s deskey : Bytes)
      → (n : ℕ) × (length (s ++ filling s) ≡ 8 * n)
        × (des_blocks cipher encrypt deskey s
            ≡ block_loop cipher n encrypt (key_block deskey) (s ++ filling s))
  encrypted_blocks s deskey = elim (Bool-cases (length s % 8 == 0)) [
    | inl whole ↦ whole_blocks s deskey whole
    | inr part ↦ part_blocks s deskey part
  ]

  -- With a cipher on blocks that keeps their size and that decryption with the same key undoes: decryption of
  -- what was encrypted with the same key gives the string back with zeros up to the next multiple of eight. The string is
  -- shorter than 2 ^ 31 - 8 bytes, so that an int holds the lengths of both strings.
  pub openssl_des_decrypt-openssl_des_encrypt :
      (s deskey : Bytes)
      → length s < 2147483640
      → openssl_des_decrypt cipher (openssl_des_encrypt cipher s deskey) deskey ≡ s ++ filling s
  unfolding openssl_des_decrypt openssl_des_encrypt
  openssl_des_decrypt-openssl_des_encrypt s deskey fits =
      let (n, size, e) = encrypted_blocks s deskey in
      let key = key_block deskey in
      let full = s ++ filling s in
      ap (λ c. des_blocks cipher decrypt deskey c) e
      ∙ des_blocks_whole cipher h n decrypt deskey (block_loop cipher n encrypt key full)
          (length-block_loop cipher h n encrypt key full size)
      ∙ block_loop_undone cipher h n key full size
