-- ===== src/Worker/Tracking.antt =====
-- The table, the count, the poll and the messages of src/socket/WorkerProcess.cpp agree at all times.
use libbundle.Prelude.{
  Holds, Holds-assert, All, List, ◌==◌, ==_iff, ℕ, ◌+◌, ◌≤◌, ◌<◌, ◌≡◌, ◌∙◌, refl, sym, ap, Bool,
  true, false, Option, none, some, [], ◌∷◌, ltb, if◌then◌else◌, length, ◌>>◌, assert, arith,
  Bool-cases, inl, inr,
}
use libbundle.ByteBuffer.{size_max}
use libbundle.Socketmessage.{establish, close, allocate}
use libbundle.Socket.{Socket}
use libbundle.Worker.{
  erase, fresh, Worker, max_connection_fd, lookup, replace, remove, socket_at, is_full, established,
  add_socket, closed, remove_socket,
}
use libbundle.Worker.Events.{
  keys, change, follow, follow-append, lookup_missing, lookup_standing, keys-replace, keys-erase,
  length-remove,
}

-- An entry of the table is a socket of that descriptor.
abbrev pub Owned : ℕ × Socket → Type 0
Owned (k, so) = so.fd ≡ k

-- The descriptors that the poll takes.
abbrev pub watched : (ℕ → Bool) → List ℕ → List ℕ
watched takes [] = []
watched takes (k ∷ ks) = let rest = watched takes ks in if takes k then k ∷ rest else rest

-- The client that has followed the messages knows the sockets of the table; the count is theirs, at most
-- n; and the poll watches the same ones, but for those that it did not take.
pub record Tracks (n : ℕ) (w : Worker) : Type 0 where
  pub known : follow [] w.recv_queue ≡ some (keys w.sockets)
  pub counted : w.total_connections ≡ length (keys w.sockets)
  pub polling : w.polled ≡ watched w.watches (keys w.sockets)
  pub few : w.total_connections ≤ n
  pub owned : All Owned w.sockets

erase-Owned : (s : ℕ) (table : List (ℕ × Socket)) → All Owned table → All Owned (erase s table)
unfolding erase
erase-Owned s [] h = h
erase-Owned s ((k, so) ∷ table) (here, h) = elim (Bool-cases (k == s)) [
  | inl same ↦ rw same h
  | inr other ↦ rw other (here, erase-Owned s table h)
]

replace-Owned :
    (s : ℕ) (so : Socket) (table : List (ℕ × Socket))
    → so.fd ≡ s
    → All Owned table
    → All Owned (replace s so table)
unfolding replace
replace-Owned s so [] e h = h
replace-Owned s so ((k, old) ∷ table) e (here, h) = elim (Bool-cases (k == s)) [
  | inl same ↦ rw same (e ∙ sym ((==_iff k s).0 same), h)
  | inr other ↦ rw other (here, replace-Owned s so table e h)
]

pub lookup-Owned :
    (s : ℕ) (table : List (ℕ × Socket)) (so : Socket)
    → All Owned table
    → lookup s table ≡ some so
    → so.fd ≡ s
unfolding lookup
lookup-Owned s [] so h e = ground arith
lookup-Owned s ((k, x) ∷ table) so (here, h) e = elim (Bool-cases (k == s)) [
  | inl same ↦ owner (ground arith) ∙ here ∙ (==_iff k s).0 same
  | inr other ↦ lookup-Owned s table so h (ground arith)
]
  where
    owner : x ≡ so → so.fd ≡ x.fd
    owner q = ap (λ y. y.fd) (sym q)

pub Tracks-weaken : (n m : ℕ) (w : Worker) → n ≤ m → Tracks n w → Tracks m w
Tracks-weaken n m w h t = record {
  known = t.known;
  counted = t.counted;
  polling = t.polling;
  few = omega (arith, t.few);
  owned = t.owned;
}

remove-refused :
    (takes : ℕ → Bool) (s : ℕ) (ks : List ℕ)
    → takes s ≡ false
    → remove s (watched takes ks) ≡ watched takes ks
unfolding remove
remove-refused takes s [] h = refl
remove-refused takes s (k ∷ ks) h = elim (Bool-cases (takes k)) [
  | inl taken ↦
      let other : (k == s) ≡ false = grind (arith, h, taken, ==_iff k s) in
      rw (taken, other) (ap (◌∷◌ k) (remove-refused takes s ks h))
  | inr refused ↦ rw refused (remove-refused takes s ks h)
]

remove-watched :
    (takes : ℕ → Bool) (s : ℕ) (ks : List ℕ)
    → remove s (watched takes ks) ≡ watched takes (remove s ks)
unfolding remove
remove-watched takes s [] = refl
remove-watched takes s (k ∷ ks) = elim (Bool-cases (k == s)) [
  | inl same ↦ elim (Bool-cases (takes k)) [
    | inl taken ↦ rw (same, taken, remove, same) refl
    | inr refused ↦
        rw (same, refused)
          (remove-refused takes s ks (ap takes (sym ((==_iff k s).0 same)) ∙ refused))
  ]
  | inr other ↦ elim (Bool-cases (takes k)) [
    | inl taken ↦ rw (other, taken) (rw (remove, other) (ap (◌∷◌ k) (remove-watched takes s ks)))
    | inr refused ↦ rw (other, refused) (remove-watched takes s ks)
  ]
]

established-Tracks :
    (now : ℕ) (is_listening : Bool) (s n : ℕ) (w : Worker)
    → n + 1 < size_max
    → lookup s w.sockets ≡ none
    → Tracks n w
    → Tracks (n + 1) (established now is_listening s w)
unfolding established change
established-Tracks now is_listening s n w h e t =
    let fresh_key = lookup_missing s w.sockets e in
    record {
      known =
          follow-append [] (keys w.sockets) (s ∷ keys w.sockets) w.recv_queue
            (allocate (some s) establish) t.known (unfold allocate in rw fresh_key refl);
      counted = omega (arith, t.counted, t.few);
      polling = ap (λ l. if w.watches s then s ∷ l else l) t.polling;
      few = omega (arith, t.counted, t.few);
      owned = (unfold fresh in refl, t.owned);
    }

pub closed-Tracks :
    (s n : ℕ) (w : Worker) (so : Socket)
    → lookup s w.sockets ≡ some so
    → Tracks n w
    → Tracks n (closed s w)
unfolding closed change
closed-Tracks s n w so e t =
    let standing = lookup_standing s w.sockets so e in
    record {
      known =
          follow-append [] (keys w.sockets) (remove s (keys w.sockets)) w.recv_queue
            (allocate (some s) close) t.known (unfold allocate in rw standing refl)
          ∙ ap some (sym (keys-erase s w.sockets));
      counted = omega (
        arith,
        t.counted,
        length-remove s (keys w.sockets) standing,
        ap (λ l. length l) (keys-erase s w.sockets),
      );
      polling =
          ap (remove s) t.polling
          ∙ remove-watched w.watches s (keys w.sockets)
          ∙ ap (watched w.watches) (sym (keys-erase s w.sockets));
      few = omega (arith, t.few);
      owned = erase-Owned s w.sockets t.owned;
    }

-- The object behind an entry may change, but for its descriptor.
pub replace-Tracks :
    (s n : ℕ) (so : Socket) (w : Worker)
    → so.fd ≡ s
    → Tracks n w
    → Tracks n (record w { sockets = replace s so w.sockets })
replace-Tracks s n so w own t =
    let e = sym (keys-replace s so w.sockets) in
    record {
      known = t.known ∙ ap some e;
      counted = t.counted ∙ ap (λ l. length l) e;
      polling = t.polling ∙ ap (watched w.watches) e;
      few = t.few;
      owned = replace-Owned s so w.sockets own t.owned;
    }

pub add_socket-Tracks :
    (now : ℕ) (is_listening : Bool) (s n : ℕ) (w : Worker)
    → n + 1 < size_max
    → Tracks n w
    → Holds (Tracks (n + 1)) (add_socket now is_listening s w)
unfolding add_socket socket_at
add_socket-Tracks now is_listening s n w h t = elim (Bool-cases (ltb s max_connection_fd)) [
  | inl inside ↦ rw inside (by_entry (lookup s w.sockets) refl)
  | inr outside ↦ rw outside tt
]
  where
    choose :
        (b : Bool)
        → lookup s w.sockets ≡ none
        → Tracks (n + 1) (if b then w else established now is_listening s w)
    choose true e = Tracks-weaken n (n + 1) w (omega arith) t
    choose false e = established-Tracks now is_listening s n w h e t

    by_entry :
        (o : Option Socket)
        → lookup s w.sockets ≡ o
        → Holds (Tracks (n + 1)) (elim o [
          | some _ ↦ none
          | none ↦ some (if is_full w then w else established now is_listening s w)
        ])
    by_entry none e = choose (is_full w) e
    by_entry (some so) e = tt

pub remove_socket-Tracks :
    (s n : ℕ) (w : Worker) → Tracks n w → Holds (Tracks n) (remove_socket s w)
unfolding remove_socket socket_at
remove_socket-Tracks s n w t = elim (Bool-cases (ltb s max_connection_fd)) [
  | inl inside ↦ rw inside (by_entry (lookup s w.sockets) refl)
  | inr outside ↦ rw outside tt
]
  where
    by_entry :
        (o : Option Socket)
        → lookup s w.sockets ≡ o
        → Holds (Tracks n) (elim o [
          | none ↦ some w
          | some _ ↦ (do assert (ltb 0 w.total_connections); some (closed s w))
        ])
    by_entry none e = t
    by_entry (some so) e =
        Holds-assert (Tracks n) (ltb 0 w.total_connections) (some (closed s w))
          (λ _. closed-Tracks s n w so e t)
