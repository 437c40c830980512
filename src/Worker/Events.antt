-- ===== src/Worker/Events.antt =====
-- The messages that a worker of src/socket/WorkerProcess.cpp puts into the receive queue, as the server's
-- client sees them: a client that follows them knows which connections stand.
use libbundle.Prelude.{
  ℕ, ◌+◌, ◌≡◌, refl, Bool, true, false, Option, none, some, List, [], ◌∷◌, ◌++◌, ◌==◌,
  if◌then◌else◌, length, ◌>>=◌, arith,
}
use mathlib.Core.Option.{none-ne-some}
use libbundle.Socketmessage.{Socketmessage, Opcode, establish, close, message}
use libbundle.Socket.{Socket}
use libbundle.Worker.{lookup, replace, erase, remove}

abbrev pub keys : List (ℕ × Socket) → List ℕ
keys [] = []
keys ((k, so) ∷ table) = k ∷ keys table

unfoldable pub has : ℕ → List ℕ → Bool
has s [] = false
has s (k ∷ ks) = let rest = has s ks in if k == s then true else rest

-- An establishment tells of a socket that does not stand, a closing of one that does, and a message
-- comes from one that does.
unfoldable pub change : Opcode → Option ℕ → List ℕ → Option (List ℕ)
change establish (some s) ks = if has s ks then none else some (s ∷ ks)
change close (some s) ks = if has s ks then some (remove s ks) else none
change message (some s) ks = if has s ks then some ks else none
change opcode s ks = some ks

-- Which sockets stand after some messages, if the messages are in a legal order.
unfoldable pub follow : List ℕ → List Socketmessage → Option (List ℕ)
follow ks [] = some ks
follow ks (m ∷ ms) = do ks' ← change m.opcode m.s ks; follow ks' ms

pub follow-append :
    (ks ks' ks'' : List ℕ) (ms : List Socketmessage) (m : Socketmessage)
    → follow ks ms ≡ some ks'
    → change m.opcode m.s ks' ≡ some ks''
    → follow ks (ms ++ m ∷ []) ≡ some ks''
unfolding follow
follow-append ks ks' ks'' [] m e c = ground arith
follow-append ks ks' ks'' (x ∷ ms) m e c =
    by_change (change x.opcode x.s ks) e (λ k h. follow-append k ks' ks'' ms m h c)
  where
    by_change :
        (o : Option (List ℕ))
        → (do k ← o; follow k ms) ≡ some ks'
        → ((k : List ℕ) → follow k ms ≡ some ks' → follow k (ms ++ m ∷ []) ≡ some ks'')
        → (do k ← o; follow k (ms ++ m ∷ [])) ≡ some ks''
    by_change none h later = absurd (none-ne-some _ h)
    by_change (some k) h later = later k h

pub lookup_missing :
    (s : ℕ) (table : List (ℕ × Socket)) → lookup s table ≡ none → has s (keys table) ≡ false
unfolding has lookup
lookup_missing s [] e = refl
lookup_missing s ((k, so) ∷ table) e = ground (arith, lookup_missing s table)

pub lookup_standing :
    (s : ℕ) (table : List (ℕ × Socket)) (so : Socket)
    → lookup s table ≡ some so
    → has s (keys table) ≡ true
unfolding has lookup
lookup_standing s [] so e = ground arith
lookup_standing s ((k, x) ∷ table) so e = ground (arith, lookup_standing s table so)

pub keys-replace :
    (s : ℕ) (so : Socket) (table : List (ℕ × Socket)) → keys (replace s so table) ≡ keys table
unfolding replace
keys-replace s so [] = refl
keys-replace s so ((k, x) ∷ table) = ground (arith, keys-replace s so table)

pub keys-erase : (s : ℕ) (table : List (ℕ × Socket)) → keys (erase s table) ≡ remove s (keys table)
unfolding erase remove
keys-erase s [] = refl
keys-erase s ((k, x) ∷ table) = ground (arith, keys-erase s table)

pub length-remove : (s : ℕ) (ks : List ℕ) → has s ks ≡ true → length (remove s ks) + 1 ≡ length ks
unfolding has remove
length-remove s [] h = ground arith
length-remove s (k ∷ ks) h = ground (arith, length-remove s ks)
