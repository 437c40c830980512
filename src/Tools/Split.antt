-- ===== src/Tools/Split.antt =====
-- `splitString` of src/tools/Tools.cpp into strings, and the names of files.
use libbundle.Prelude.{
  Bool-cases, inl, inr, sym, ==_iff, All-append, ℕ, ◌≡◌, ◌≢◌, ◌∙◌, refl, ap, Option, none, some,
  List, [], ◌∷◌, ◌++◌, Bytes, ◌==◌, if◌then◌else◌, arith, All, append_assoc, append-nil,
}

-- The loop of `strchr` over the bytes that are left: `piece` is what stands between `s` and `p`. What is left
-- at the end is a piece as well, also where it is empty.
unfoldable pub split_loop : ℕ → Bytes → Bytes → List Bytes
split_loop sc [] piece = piece ∷ []
split_loop sc (x ∷ xs) piece =
    let next = split_loop sc xs [] in
    let longer = split_loop sc xs (piece ++ x ∷ []) in if x == sc then piece ∷ next else longer

-- `splitString(cstr, sc, v)` on an empty `v`, for a separator that is not zero.
unfoldable pub split_string : ℕ → Bytes → List Bytes
unfolding split_loop
split_string sc s = split_loop sc s []

-- `strchr` of a '.': what stands before it, and what stands behind it.
unfoldable pub before_dot : Bytes → Bytes
before_dot [] = []
before_dot (x ∷ xs) = let rest = before_dot xs in if x == b'.' then [] else x ∷ rest

unfoldable pub behind_dot : Bytes → Option Bytes
behind_dot [] = none
behind_dot (x ∷ xs) = let rest = behind_dot xs in if x == b'.' then some xs else rest

-- `getFilenamePrefix` and `getFilenameExtension`, for names shorter than PATH_MAX.
unfoldable pub filename_prefix : Bytes → Bytes
filename_prefix s = before_dot s

unfoldable pub filename_extension : Bytes → Option Bytes
filename_extension s = behind_dot s

-- The pieces with the separator between them.
abbrev pub join : ℕ → Bytes → List Bytes → Bytes
join sc p [] = p
join sc p (q ∷ ps) = p ++ sc ∷ join sc q ps

abbrev pub IsNot : ℕ → ℕ → Type 0
IsNot sc x = x ≢ sc

abbrev pub IsFree : ℕ → Bytes → Type 0
IsFree sc p = All (IsNot sc) p

-- A piece without the separator goes to what was read before.
pub split_loop-piece :
    (sc : ℕ) (p rest piece : Bytes)
    → IsFree sc p
    → split_loop sc (p ++ rest) piece ≡ split_loop sc rest (piece ++ p)
unfolding split_loop
split_loop-piece sc [] rest piece h = ap (split_loop sc rest) (sym (append-nil piece))
split_loop-piece sc (x ∷ p) rest piece (hx, h) =
    ground (arith, split_loop-piece sc p rest (piece ++ x ∷ []) h, append_assoc piece (x ∷ []) p)

split_loop-join :
    (sc : ℕ) (p : Bytes) (ps : List Bytes)
    → IsFree sc p
    → All (IsFree sc) ps
    → split_loop sc (join sc p ps) [] ≡ p ∷ ps
unfolding split_loop
split_loop-join sc p [] h k =
    ap (λ s. split_loop sc s []) (sym (append-nil p)) ∙ split_loop-piece sc p [] [] h
split_loop-join sc p (q ∷ ps) h (hq, k) =
    split_loop-piece sc p (sc ∷ join sc q ps) [] h
    ∙ rw ((==_iff sc sc).1 refl) (ap (◌∷◌ p) (split_loop-join sc q ps hq k))

-- The pieces are free of the separator and joined again they are the string.
split_loop_lem :
    (sc : ℕ) (s piece : Bytes)
    → IsFree sc piece
    → (p : Bytes) × (ps : List Bytes) × (split_loop sc s piece ≡ p ∷ ps)
      × IsFree sc p
      × All (IsFree sc) ps
      × (join sc p ps ≡ piece ++ s)
unfolding split_loop
split_loop_lem sc [] piece h = (piece, [], refl, h, tt, sym (append-nil piece))
split_loop_lem sc (x ∷ xs) piece h = elim (Bool-cases (x == sc)) [
  | inl hit ↦
      let (p, ps, e, f, g, j) = split_loop_lem sc xs [] tt in
      (
        piece,
        p ∷ ps,
        rw (hit, e) refl,
        h,
        (f, g),
        ap (λ s. piece ++ sc ∷ s) j ∙ ap (λ y. piece ++ y ∷ xs) (sym ((==_iff x sc).0 hit)),
      )
  | inr miss ↦
      let free = All-append (IsNot sc) piece (x ∷ []) h (ground arith, tt) in
      let (p, ps, e, f, g, j) = split_loop_lem sc xs (piece ++ x ∷ []) free in
      (p, ps, rw (miss, e) refl, f, g, j ∙ append_assoc piece (x ∷ []) xs)
]

-- For every string and every separator but zero: the pieces of `splitString` are not none, none of them has the separator,
-- and with the separator between them they are the string. And the pieces of every list of strings without
-- the separator, joined with it, are these strings.
pub split_string_lem :
    (sc : ℕ) (s : Bytes)
    → (p : Bytes) × (ps : List Bytes) × (split_string sc s ≡ p ∷ ps)
      × IsFree sc p
      × All (IsFree sc) ps
      × (join sc p ps ≡ s)
      × ((q : Bytes) (qs : List Bytes)
          → IsFree sc q
          → All (IsFree sc) qs
          → split_string sc (join sc q qs) ≡ q ∷ qs)
unfolding split_string
split_string_lem sc s =
    let (p, ps, e, f, g, j) = split_loop_lem sc s [] tt in (p, ps, e, f, g, j, split_loop-join sc)

-- A name with a dot is its prefix, the dot and its extension, and the prefix has no dot: the extension begins
-- behind the first dot of the name. A name without a dot is its prefix and has no extension.
pub filename_parts :
    (s : Bytes)
    → IsFree b'.' (filename_prefix s)
      × ((e : Bytes) → filename_extension s ≡ some e → s ≡ filename_prefix s ++ b'.' ∷ e)
      × (filename_extension s ≡ none → s ≡ filename_prefix s)
unfolding filename_prefix filename_extension before_dot behind_dot
filename_parts [] = (tt, λ e h. ground arith, λ h. refl)
filename_parts (x ∷ xs) =
    let (f, g, k) = filename_parts xs in
    elim (Bool-cases (x == b'.')) [
      | inl hit ↦ rw hit (tt, λ e h. ground arith, λ h. ground arith)
      | inr miss ↦ rw miss ((ground arith, f), λ e h. ap (◌∷◌ x) (g e h), λ h. ap (◌∷◌ x) (k h))
    ]
