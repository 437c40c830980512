-- ===== src/Worker/Unique.antt =====
-- No socket stands twice in the table of src/socket/WorkerProcess.cpp.
use libbundle.Prelude.{
  ℕ, ◌≡◌, refl, subst, false, Option, none, some, List, [], ◌∷◌, ◌==◌, ◌>>=◌, arith, Bool-cases,
  inl, inr,
}
use libbundle.Socketmessage.{
  Socketmessage, Opcode, message, establish, close, new_socket, new_listening, sol,
}
use libbundle.Socket.{Socket}
use libbundle.Worker.{lookup, erase, remove}
use libbundle.Worker.Events.{keys, has, change, follow}

-- No number comes twice.
abbrev pub Unique : List ℕ → Type 0
Unique [] = Unit
Unique (k ∷ ks) = (has k ks ≡ false) × Unique ks

has-remove : (j s : ℕ) (ks : List ℕ) → has j ks ≡ false → has j (remove s ks) ≡ false
unfolding has remove
has-remove j s [] h = refl
has-remove j s (k ∷ ks) h = ground (arith, has-remove j s ks)

remove-Unique : (s : ℕ) (ks : List ℕ) → Unique ks → Unique (remove s ks)
unfolding remove
remove-Unique s [] u = u
remove-Unique s (k ∷ ks) (new, u) = elim (Bool-cases (k == s)) [
  | inl same ↦ rw same u
  | inr other ↦ rw other (has-remove k s ks new, remove-Unique s ks u)
]

change-Unique :
    (op : Opcode) (s : Option ℕ) (ks ks' : List ℕ)
    → Unique ks
    → change op s ks ≡ some ks'
    → Unique ks'
unfolding change
change-Unique establish none ks ks' u e = subst Unique (cc) u
change-Unique establish (some s) ks ks' u e = elim (Bool-cases (has s ks)) [
  | inl old ↦ absurd (ground arith)
  | inr new ↦ subst Unique {x = s ∷ ks} (ground arith) (new, u)
]
change-Unique close none ks ks' u e = subst Unique (cc) u
change-Unique close (some s) ks ks' u e = elim (Bool-cases (has s ks)) [
  | inl old ↦ subst Unique {x = remove s ks} (ground arith) (remove-Unique s ks u)
  | inr new ↦ absurd (ground arith)
]
change-Unique message none ks ks' u e = subst Unique (cc) u
change-Unique message (some s) ks ks' u e = elim (Bool-cases (has s ks)) [
  | inl old ↦ subst Unique {x = ks} (ground arith) u
  | inr new ↦ absurd (ground arith)
]
change-Unique new_socket s ks ks' u e = subst Unique (cc) u
change-Unique new_listening s ks ks' u e = subst Unique (cc) u
change-Unique sol s ks ks' u e = subst Unique (cc) u

pub follow-Unique :
    (ks ks' : List ℕ) (ms : List Socketmessage) → Unique ks → follow ks ms ≡ some ks' → Unique ks'
unfolding follow
follow-Unique ks ks' [] u e = subst Unique (cc) u
follow-Unique ks ks' (m ∷ ms) u e =
    by_change (change m.opcode m.s ks) refl e (λ k v h. follow-Unique k ks' ms v h)
  where
    by_change :
        (o : Option (List ℕ))
        → change m.opcode m.s ks ≡ o
        → (do k ← o; follow k ms) ≡ some ks'
        → ((k : List ℕ) → Unique k → follow k ms ≡ some ks' → Unique ks')
        → Unique ks'
    by_change none c h later = absurd (ground arith)
    by_change (some k) c h later = later k (change-Unique m.opcode m.s ks k u c) h

lookup-has :
    (s : ℕ) (table : List (ℕ × Socket)) → has s (keys table) ≡ false → lookup s table ≡ none
unfolding has lookup
lookup-has s [] h = refl
lookup-has s ((k, so) ∷ table) h = ground (arith, lookup-has s table)

pub lookup-erase_self :
    (s : ℕ) (table : List (ℕ × Socket)) → Unique (keys table) → lookup s (erase s table) ≡ none
unfolding lookup erase
lookup-erase_self s [] u = refl
lookup-erase_self s ((k, so) ∷ table) (new, u) = elim (Bool-cases (k == s)) [
  | inl same ↦
      rw same (lookup-has s table (subst (λ j. has j (keys table) ≡ false) (ground arith) new))
  | inr other ↦ rw (other, other, lookup) (lookup-erase_self s table u)
]

pub lookup-erase_other :
    (j s : ℕ) (table : List (ℕ × Socket))
    → (j == s) ≡ false
    → lookup j (erase s table) ≡ lookup j table
unfolding lookup erase
lookup-erase_other j s [] h = refl
lookup-erase_other j s ((k, so) ∷ table) h = ground (arith, lookup-erase_other j s table h)
