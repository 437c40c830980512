-- ===== src/Server/Options.antt =====
-- The options of a server in src/socket/SocketServer.cpp: numbers of eight bytes, of which a call writes or
-- reads the first few.
use libbundle.Prelude.{
  ℕ, zero, suc, ◌+◌, ◌*◌, ◌/◌, ◌%◌, ◌≤◌, ◌<◌, ◌≡◌, ◌∙◌, refl, sym, ap, Bool, true, false, ◌&&◌,
  Option, none, some, List, [], ◌∷◌, ◌++◌, Bytes, ltb, leb, if◌then◌else◌, length, get_or, set,
  take, drop, arith, All, IsByte, lt→ltb, le→leb, length-append, length-drop, take-append,
}
use libbundle.ByteBuffer.{of_le, to_le}
use libbundle.ByteBuffer.Values.{length-to_le}
use libbundle.Worker.{bundle_sol_max}
use libbundle.Worker.Posting.{is_option}
use libbundle.Server.Routing.{length-set, get_or-set_same}

-- `setsockopt`, on the server's own copy: the bytes behind the new ones stay.
unfoldable pub set_option : ℕ → Option Bytes → List ℕ → Bool × List ℕ
unfolding is_option of_le to_le
set_option opt none opts = (false, opts)
set_option opt (some optval) opts =
    if is_option opt (some optval)
    then (true, set opts opt (of_le (optval ++ drop (length optval) (to_le 8 (get_or opts opt 0)))))
    else (false, opts)

-- `getsockopt` into memory of optlen bytes, which is what it writes there; `none` is a refusal.
unfoldable pub get_option : ℕ → ℕ → List ℕ → Option Bytes
unfolding to_le
get_option opt optlen opts =
    if ltb 0 opt && ltb opt bundle_sol_max && leb optlen 8
    then some (take optlen (to_le 8 (get_or opts opt 0)))
    else none

to_le-of_le : (q : Bytes) → All IsByte q → to_le (length q) (of_le q) ≡ q
unfolding to_le of_le
to_le-of_le [] h = refl
to_le-of_le (x ∷ q) (hx, h) =
    let low : (x + 256 * of_le q) % 256 ≡ x = omega arith in
    let high : (x + 256 * of_le q) / 256 ≡ of_le q = omega arith in
    rw (low, high) (ap (◌∷◌ x) (to_le-of_le q h))

IsByte-to_le : (w v : ℕ) → All IsByte (to_le w v)
unfolding to_le
IsByte-to_le zero v = tt
IsByte-to_le (suc w) v = (omega arith, IsByte-to_le w (v / 256))

All-drop : (n : ℕ) (q : Bytes) → All IsByte q → All IsByte (drop n q)
All-drop zero q h = h
All-drop (suc n) [] h = h
All-drop (suc n) (x ∷ q) (hx, h) = All-drop n q h

All-join : (p q : Bytes) → All IsByte p → All IsByte q → All IsByte (p ++ q)
All-join [] q h k = k
All-join (x ∷ p) q (hx, h) k = (hx, All-join p q h k)

-- The eight bytes that an option holds after a write.
written : Bytes → ℕ → Bytes
written optval old = optval ++ drop (length optval) (to_le 8 old)

to_le-written :
    (optval : Bytes) (old : ℕ)
    → All IsByte optval
    → length optval ≤ 8
    → to_le 8 (of_le (written optval old)) ≡ written optval old
unfolding written
to_le-written optval old h k =
    let rest = drop (length optval) (to_le 8 old) in
    let size : length (optval ++ rest) ≡ 8 = omega (
      arith,
      length-append optval rest,
      length-drop (length optval) (to_le 8 old),
      length-to_le 8 old,
    ) in
    ap (λ n. to_le n (of_le (optval ++ rest))) (sym size)
    ∙ to_le-of_le (optval ++ rest)
        (All-join optval rest h (All-drop (length optval) (to_le 8 old) (IsByte-to_le 8 old)))

-- What `setsockopt` has stored, `getsockopt` of the same size gives back, for every option with up to eight
-- bytes.
pub get_option-set_option :
    (opt : ℕ) (optval : Bytes) (opts : List ℕ)
    → 0 < opt
    → opt < bundle_sol_max
    → length opts ≡ bundle_sol_max
    → All IsByte optval
    → length optval ≤ 8
    → (opts' : List ℕ) × (set_option opt (some optval) opts ≡ (true, opts'))
      × (length opts' ≡ bundle_sol_max)
      × (get_option opt (length optval) opts' ≡ some optval)
unfolding set_option get_option is_option written
get_option-set_option opt optval opts h k l b s =
    let value = of_le (written optval (get_or opts opt 0)) in
    let new = set opts opt value in
    (
      new,
      rw (lt→ltb 0 opt h, lt→ltb opt bundle_sol_max k, le→leb (length optval) 8 s) refl,
      length-set opts opt value ∙ l,
      rw (lt→ltb 0 opt h, lt→ltb opt bundle_sol_max k, le→leb (length optval) 8 s)
          (ap some (
            ap (λ v. take (length optval) (to_le 8 v))
              (get_or-set_same opts opt value 0 (omega arith))
            ∙ ap (take (length optval)) (to_le-written optval (get_or opts opt 0) b s)
            ∙ take-append optval (drop (length optval) (to_le 8 (get_or opts opt 0))))),
    )
