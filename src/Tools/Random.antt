-- ===== src/Tools/Random.antt =====
-- `randomString` of src/tools/Tools.cpp. The results of `randomBetween` are an argument, in their order.
use libbundle.Prelude.{
  ℕ, zero, suc, ◌≤◌, ◌≡◌, ◌∙◌, refl, sym, ap, Bool, true, false, ◌&&◌, ◌||◌, Option, none, some,
  List, [], ◌∷◌, ◌++◌, Bytes, codes, get_or, leb, ltb, not, ◌<◌, table_holds, table_entry,
  if◌then◌else◌, arith, All, length, append_assoc, append-nil, Bool-cases, inl, inr,
}
use libbundle.Clib.{is_digit}

-- `_alphabet`.
abbrev pub alphabet : Bytes
alphabet = codes "0123456789abcdefghijklmnopqrstuvwxyzABCDEFGHIJKLMNOPQRSTUVWXYZ"

-- `islower` and `isupper` of the C locale.
abbrev pub is_lower : ℕ → Bool
is_lower c = leb b'a' c && leb c b'z'

abbrev pub is_upper : ℕ → Bool
is_upper c = leb b'A' c && leb c b'Z'

-- The three flags.
pub record Kinds : Type 0 where
  pub has_digit : Bool
  pub has_lowercase : Bool
  pub has_uppercase : Bool

abbrev pub is_wanted : Kinds → ℕ → Bool
is_wanted k c =
    k.has_digit && is_digit c || k.has_lowercase && is_lower c || k.has_uppercase && is_upper c

abbrev pub any_kind : Kinds → Bool
any_kind k = k.has_digit || k.has_lowercase || k.has_uppercase

-- The loop, with one draw for each round; `none` where the draws do not suffice.
unfoldable pub random_loop : List ℕ → Kinds → ℕ → Bytes → Option Bytes
random_loop draws k zero result = some result
random_loop [] k (suc len) result = if any_kind k then none else some result
random_loop (i ∷ draws) k (suc len) result =
    let c = get_or alphabet i 0 in
    let taken = random_loop draws k len (result ++ c ∷ []) in
    let skipped = random_loop draws k (suc len) result in
    if any_kind k then (if is_wanted k c then taken else skipped) else some result

-- The kinds by their places in the alphabet: ten digits, 26 lower case letters and 26 upper case letters.
abbrev pub wants_place : Kinds → ℕ → Bool
wants_place k i =
    k.has_digit && ltb i 10
    || k.has_lowercase && (leb 10 i && ltb i 36)
    || k.has_uppercase && (leb 36 i && ltb i 62)

-- The characters of ASCII of a kind.
abbrev pub wants_character : Kinds → ℕ → Bool
wants_character k c =
    k.has_digit && (leb 0x30 c && leb c 0x39)
    || k.has_lowercase && (leb 0x61 c && leb c 0x7a)
    || k.has_uppercase && (leb 0x41 c && leb c 0x5a)

abbrev same_bool : Bool → Bool → Bool
same_bool true b = b
same_bool false b = not b

same_bool_lem : (a b : Bool) → same_bool a b ≡ true → a ≡ b
same_bool_lem true b h = ground arith
same_bool_lem false b h = ground arith

abbrev kinds : Bool → Bool → Bool → Kinds
kinds a b c = record { has_digit = a; has_lowercase = b; has_uppercase = c }

-- The alphabet has each kind where it should be.
wanted_table :
    (a b c : Bool)
    → table_holds
        (λ i.
          same_bool (is_wanted (kinds a b c) (get_or alphabet i 0)) (wants_place (kinds a b c) i))
        62
      ≡ true
unfolding table_holds
wanted_table true true true = refl
wanted_table true true false = refl
wanted_table true false true = refl
wanted_table true false false = refl
wanted_table false true true = refl
wanted_table false true false = refl
wanted_table false false true = refl
wanted_table false false false = refl

is_wanted-wants_place :
    (k : Kinds) (i : ℕ) → i < 62 → is_wanted k (get_or alphabet i 0) ≡ wants_place k i
is_wanted-wants_place k i h =
    same_bool_lem _ _
      (table_entry _ 62 i h (wanted_table k.has_digit k.has_lowercase k.has_uppercase))

is_wanted-wants_character : (k : Kinds) (c : ℕ) → is_wanted k c ≡ wants_character k c
is_wanted-wants_character k c = ground arith

-- How many of the draws are of a wanted kind.
abbrev pub wanted_draws : Kinds → List ℕ → ℕ
wanted_draws k [] = 0
wanted_draws k (i ∷ draws) =
    let rest = wanted_draws k draws in if wants_place k i then suc rest else rest

random_loop-wanted :
    (draws : List ℕ) (k : Kinds) (len : ℕ) (result : Bytes)
    → All (λ i. i < 62) draws
    → any_kind k ≡ true
    → len ≤ wanted_draws k draws
    → (added : Bytes) × (random_loop draws k len result ≡ some (result ++ added))
      × (length added ≡ len)
      × All (λ c. wants_character k c ≡ true) added
unfolding random_loop
random_loop-wanted draws k zero result ds a h = ([], ap some (sym (append-nil result)), refl, tt)
random_loop-wanted [] k (suc len) result ds a h = absurd (omega arith)
random_loop-wanted (i ∷ draws) k (suc len) result (d, ds) a h =
    let c = get_or alphabet i 0 in
    let place = is_wanted-wants_place k i d in
    elim (Bool-cases (wants_place k i)) [
      | inl hit ↦
          let chosen : is_wanted k c ≡ true = place ∙ hit in
          let (added, e, l, w) =
            random_loop-wanted draws k len (result ++ c ∷ []) ds a (ground arith) in
          (
            c ∷ added,
            rw (random_loop, a, chosen) (e ∙ ap some (append_assoc result (c ∷ []) added)),
            ap suc l,
            (sym (is_wanted-wants_character k c) ∙ chosen, w),
          )
      | inr miss ↦
          let passed : is_wanted k c ≡ false = place ∙ miss in
          let (added, e, l, w) = random_loop-wanted draws k (suc len) result ds a (ground arith) in
          (added, rw (random_loop, a, passed) e, l, w)
    ]

random_loop-none :
    (draws : List ℕ) (k : Kinds) (len : ℕ) (result : Bytes)
    → any_kind k ≡ false
    → random_loop draws k len result ≡ some result
unfolding random_loop
random_loop-none draws k zero result h = refl
random_loop-none [] k (suc len) result h = rw h refl
random_loop-none (i ∷ draws) k (suc len) result h = rw h refl

-- For draws below 62, as `randomBetween` gives them: the loop ends as soon as as many draws are places of wanted kinds
-- as characters are asked for (digits at 0 to 9, lower case letters at 10 to 35, upper case letters at 36 to 61),
-- and what it adds to the string are that many characters of ASCII, each of a wanted kind. Without any kind it ends
-- at once and adds nothing.
pub random_loop_ends :
    (draws : List ℕ) (k : Kinds) (len : ℕ) (result : Bytes)
    → All (λ i. i < 62) draws
    → (any_kind k ≡ true
        → len ≤ wanted_draws k draws
        → (added : Bytes) × (random_loop draws k len result ≡ some (result ++ added))
          × (length added ≡ len)
          × All (λ c. wants_character k c ≡ true) added)
      × (any_kind k ≡ false → random_loop draws k len result ≡ some result)
random_loop_ends draws k len result ds =
    (random_loop-wanted draws k len result ds, random_loop-none draws k len result)
