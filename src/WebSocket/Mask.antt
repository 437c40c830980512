-- ===== src/WebSocket/Mask.antt =====
-- The masking of the payloads in src/socket/WebSocketServer.cpp.
use libbundle.Prelude.{
  ◌++◌, ℕ, zero, suc, ◌+◌, ◌%◌, ◌<◌, ◌≡◌, refl, ap, bit_xor, Bool, true, [], ◌∷◌, Bytes, ◌==◌,
  length, get_or, table_holds, table_entry, ==_iff, All, IsByte, arith,
}
use libbundle.WebSocket.{unmask}

-- Every byte, masked twice by every byte.
abbrev unmasks : ℕ → ℕ → Bool
unmasks x k = bit_xor (bit_xor x k) k == x

byte_table : table_holds (λ x. table_holds (unmasks x) 256) 256 ≡ true
unfolding table_holds
byte_table = refl

xor_twice : (x k : ℕ) → x < 256 → k < 256 → bit_xor (bit_xor x k) k ≡ x
xor_twice x k hx hk =
    let row = table_entry (λ y. table_holds (unmasks y) 256) 256 x hx byte_table in
    (==_iff _ x).0 (table_entry (unmasks x) 256 k hk row)

get_or-IsByte : (mask : Bytes) (i : ℕ) → All IsByte mask → get_or mask i 0 < 256
get_or-IsByte [] i h = omega arith
get_or-IsByte (x ∷ xs) zero h = h.0
get_or-IsByte (x ∷ xs) (suc i) h = get_or-IsByte xs i h.1

-- Masking twice by the same key gives the bytes back.
pub unmask-unmask :
    (mask : Bytes) (i : ℕ) (xs : Bytes)
    → All IsByte mask
    → All IsByte xs
    → unmask mask i (unmask mask i xs) ≡ xs
unfolding unmask
unmask-unmask mask i [] h k = refl
unmask-unmask mask i (x ∷ xs) h (kx, k) = rw (
  xor_twice x (get_or mask (i % 4) 0) kx (get_or-IsByte mask (i % 4) h),
  unmask-unmask mask (i + 1) xs h k,
)

pub length-unmask : (mask : Bytes) (i : ℕ) (xs : Bytes) → length (unmask mask i xs) ≡ length xs
unfolding unmask
length-unmask mask i [] = refl
length-unmask mask i (x ∷ xs) = ap suc (length-unmask mask (i + 1) xs)

-- The masking of RFC 6455: the bytes of the key in turn.
abbrev pub masked : Bytes → Bytes → Bytes
masked key [] = []
masked [] (x ∷ xs) = x ∷ xs
masked (k ∷ ks) (x ∷ xs) = bit_xor x k ∷ masked (ks ++ k ∷ []) xs

-- The index of the code, modulo four, is how far the key has been turned.
unmask-turned :
    (a b c d i : ℕ) (xs : Bytes)
    → (i % 4 ≡ 0 → unmask (a ∷ b ∷ c ∷ d ∷ []) i xs ≡ masked (a ∷ b ∷ c ∷ d ∷ []) xs)
      × (i % 4 ≡ 1 → unmask (a ∷ b ∷ c ∷ d ∷ []) i xs ≡ masked (b ∷ c ∷ d ∷ a ∷ []) xs)
      × (i % 4 ≡ 2 → unmask (a ∷ b ∷ c ∷ d ∷ []) i xs ≡ masked (c ∷ d ∷ a ∷ b ∷ []) xs)
      × (i % 4 ≡ 3 → unmask (a ∷ b ∷ c ∷ d ∷ []) i xs ≡ masked (d ∷ a ∷ b ∷ c ∷ []) xs)
unfolding unmask
unmask-turned a b c d i [] = (λ h. refl, λ h. refl, λ h. refl, λ h. refl)
unmask-turned a b c d i (x ∷ xs) =
    let (r0, r1, r2, r3) = unmask-turned a b c d (i + 1) xs in
    (
      λ h. rw h (ap (◌∷◌ (bit_xor x a)) (r1 (omega arith))),
      λ h. rw h (ap (◌∷◌ (bit_xor x b)) (r2 (omega arith))),
      λ h. rw h (ap (◌∷◌ (bit_xor x c)) (r3 (omega arith))),
      λ h. rw h (ap (◌∷◌ (bit_xor x d)) (r0 (omega arith))),
    )

pub unmask-masked : (key body : Bytes) → length key ≡ 4 → unmask key 0 body ≡ masked key body
unmask-masked [] body h = absurd (omega arith)
unmask-masked (a ∷ []) body h = absurd (omega arith)
unmask-masked (a ∷ b ∷ []) body h = absurd (omega arith)
unmask-masked (a ∷ b ∷ c ∷ []) body h = absurd (omega arith)
unmask-masked (a ∷ b ∷ c ∷ d ∷ []) body h = (unmask-turned a b c d 0 body).0 refl
unmask-masked (a ∷ b ∷ c ∷ d ∷ e ∷ key) body h = absurd (omega arith)
