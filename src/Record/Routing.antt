-- ===== src/Record/Routing.antt =====
-- The way of a request through server/recordserver/src/RecordService.cpp, RecordProcessManager.cpp and RecordProcess.cpp to
-- the slot of its object.
use libbundle.Prelude.{
  ℕ, zero, suc, ◌%◌, ◌≡◌, ◌∙◌, ap, refl, sym, true, ◌&&◌, Option, some, List, [], ◌∷◌, Bytes, ◌==◌,
  ==_iff, get_elem?, set, if◌then◌else◌, ◌>>=◌, arith, Bool-cases, inl, inr,
}
use libbundle.Tables.{nat_key, value_at, write_at, value_at-write_at}
use libbundle.Record.{Kind, kind_of, id_of, len_of, shard_of, objectid_of, request_size}
use libbundle.Record.Slot.{Message, Slot, post}
use libbundle.Record.Server.{
  RecordProcess, process_request, manager_request, parse_kind, msg_parser,
}
use libbundle.Record.Wire.{Reads}

get_elem?-set :
    {A : Type 0} (xs : List A) (i j : ℕ) (x y : A)
    → get_elem? xs i ≡ some x
    → get_elem? (set xs i y) j ≡ (if i == j then some y else get_elem? xs j)
get_elem?-set [] i j x y h = absurd (ground arith)
get_elem?-set (z ∷ xs) zero zero x y h = refl
get_elem?-set (z ∷ xs) zero (suc j) x y h = ground arith
get_elem?-set (z ∷ xs) (suc i) zero x y h = ground arith
get_elem?-set (z ∷ xs) (suc i) (suc j) x y h = ground (arith, get_elem?-set xs i j x y h)

module _ {Db Float : Type 0} where
  -- A slot of a shard.
  abbrev pub slot_at : List (ℕ × RecordProcess Db Float) → ℕ → ℕ → Option (Slot Db Float)
  slot_at ps shard j = value_at ps shard >>= λ p. get_elem? p.slots j

  abbrev with_slot : RecordProcess Db Float → ℕ → Slot Db Float → RecordProcess Db Float
  with_slot p i slot = record p { slots = set p.slots i slot }

  request_posted :
      (n shard objectid : ℕ) (msg : Message) (p : RecordProcess Db Float) (slot : Slot Db Float)
      → p.id ≡ shard
      → get_elem? p.slots (objectid % n) ≡ some slot
      → process_request n shard objectid msg p
        ≡ some (true, with_slot p (objectid % n) (post msg slot))
  unfolding process_request
  request_posted n shard objectid msg p slot e g =
      rw (process_request, (==_iff shard p.id).1 (sym e), g) refl

  manager_posted :
      (n shard objectid : ℕ) (msg : Message) (ps : List (ℕ × RecordProcess Db Float))
      (p : RecordProcess Db Float) (slot : Slot Db Float)
      → value_at ps shard ≡ some p
      → p.id ≡ shard
      → get_elem? p.slots (objectid % n) ≡ some slot
      → manager_request n shard objectid msg ps
        ≡ some (true, write_at ps shard p (λ _. with_slot p (objectid % n) (post msg slot)))
  unfolding manager_request
  manager_posted n shard objectid msg ps p slot e own g =
      rw (manager_request, e, request_posted n shard objectid msg p slot own g) refl

  parser_asks :
      (n s : ℕ) (k : Kind) (q : Bytes) (ps : List (ℕ × RecordProcess Db Float))
      → kind_of (id_of q) ≡ some k
      → request_size k q ≡ some (len_of q)
      → msg_parser n (s, q) ps ≡ manager_request n (shard_of q) (objectid_of q) (s, q) ps
  unfolding msg_parser parse_kind
  parser_asks n s k q ps e f =
      rw (msg_parser, e, parse_kind, f, (==_iff (len_of q) (len_of q)).1 refl) refl

  slots_behind :
      (ps : List (ℕ × RecordProcess Db Float)) (p : RecordProcess Db Float) (shard i : ℕ)
      (old new : Slot Db Float) (r j : ℕ)
      → value_at ps shard ≡ some p
      → get_elem? p.slots i ≡ some old
      → slot_at (write_at ps shard p (λ _. with_slot p i new)) r j
        ≡ (if (shard == r) && (i == j) then some new else slot_at ps r j)
  slots_behind ps p shard i old new r j e g =
      ap (λ o. o >>= λ p'. get_elem? p'.slots j)
        (value_at-write_at ps shard r p (λ _. with_slot p i new))
      ∙ elim (Bool-cases (shard == r)) [
        | inl here ↦
            let there : value_at ps r ≡ some p =
              ap (value_at ps) (sym ((==_iff shard r).0 here)) ∙ e in
            rw (here, there) (get_elem?-set p.slots i j old new g)
        | inr other ↦ rw other refl
      ]

  -- A request that was read well, whose shard is configured with a slot for the object: it is put at the end of the queue
  -- of slot objectid % n of that shard, and no other slot of any shard changes.
  pub msg_parser-posted :
      (n shard objectid s : ℕ) (k : Kind) (table q : Bytes) (ps : List (ℕ × RecordProcess Db Float))
      (p : RecordProcess Db Float) (slot : Slot Db Float)
      → Reads k shard table objectid q
      → value_at ps shard ≡ some p
      → p.id ≡ shard
      → get_elem? p.slots (objectid % n) ≡ some slot
      → (ps' : List (ℕ × RecordProcess Db Float)) × (msg_parser n (s, q) ps ≡ some (true, ps'))
        × ((r j : ℕ)
            → slot_at ps' r j ≡ (
                if (shard == r) && (objectid % n == j)
                then some (post (s, q) slot)
                else slot_at ps r j))
  msg_parser-posted n shard objectid s k table q ps p slot h e own g = (
    write_at ps shard p (λ _. with_slot p (objectid % n) (post (s, q) slot)),
    parser_asks n s k q ps h.kind h.size
        ∙ ap (λ v. manager_request n v (objectid_of q) (s, q) ps) h.shard_read
        ∙ ap (λ v. manager_request n shard v (s, q) ps) h.objectid_read
        ∙ manager_posted n shard objectid (s, q) ps p slot e own g,
    λ r j. slots_behind ps p shard (objectid % n) slot (post (s, q) slot) r j e g,
  )
