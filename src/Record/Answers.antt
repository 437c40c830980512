-- ===== src/Record/Answers.antt =====
-- The answers of a slot of server/recordserver/src/RecordProcess.cpp, under every interleaving of the main thread with
-- the thread of the slot.
use libbundle.Prelude.{
  subst, ℕ, ◌≡◌, ◌∙◌, ap, refl, sym, Bool, true, false, Option, none, some, List, [], ◌∷◌, ◌++◌,
  Bytes, ◌>>=◌, ==_iff, Option-cases, inl, inr, append_assoc, append-nil,
}
use libbundle.Tables.{nat_key, value_at}
use libbundle.Entity.{Entity, Values}
use libbundle.Record.{
  Kind, serialize_request, unserialize_request, delete_request, select_request, alter_request,
  kind_of, id_of, shard_of, table_of, objectid_of, plain_response, unserialize_response,
}
use libbundle.Record.Outside.{Outside}
use libbundle.Record.Store.{Store}
use libbundle.Record.Slot.{
  Message, Slot, handle_serialize, finish_serialize, handle_parsed, handle_unserialize,
  handle_delete, handle_alter, handle_kind, find_entity, respond, reply_entity,
}
use libbundle.Record.Total.{Returns, returned, IsAnswering, serialize-Returns, unserialize-Returns}

-- What goes back for a request: its own table and object, to the socket that it came from.
abbrev pub Answers : Option Kind → Message → List Message → Type 0
Answers none msg out = out ≡ []
Answers (some select_request) msg out = out ≡ []
Answers (some unserialize_request) (s, q) out =
    (retval : ℕ) × (js : Bytes) × (out
      ≡ (s, unserialize_response (shard_of q) (table_of q) (objectid_of q) retval js) ∷ [])
Answers (some k) (s, q) out =
    (retval : ℕ) × (out
      ≡ (s, plain_response k (shard_of q) (table_of q) (objectid_of q) retval) ∷ [])

abbrev pub AnswersOf : Message → List Message → Type 0
AnswersOf msg out = Answers (kind_of (id_of msg.1)) msg out

abbrev pub AllAnswers : List Message → List Message → Type 0
AllAnswers [] out = out ≡ []
AllAnswers (msg ∷ msgs) out =
    (first : List Message) × (rest : List Message) × (out ≡ first ++ rest)
    × AnswersOf msg first
    × AllAnswers msgs rest

pub AllAnswers-end :
    (msgs out last : List Message) (msg : Message)
    → AllAnswers msgs out
    → Answers (kind_of (id_of msg.1)) msg last
    → AllAnswers (msgs ++ msg ∷ []) (out ++ last)
AllAnswers-end [] out last msg h a =
    (last, [], ap (λ l. l ++ last) h ∙ sym (append-nil last), a, refl)
AllAnswers-end (m ∷ msgs) out last msg (first, rest, e, b, h) a = (
  first,
  rest ++ last,
  ap (λ l. l ++ last) e ∙ append_assoc first rest last,
  b,
  AllAnswers-end msgs rest last msg h a,
)

module _ {Db Float : Type 0} where
  -- The slot behind a step: its answers are those from before and the new ones.
  pub record Adds (slot after : Slot Db Float) (out : List Message) : Type 0 where
    pub behind : after.rlist ≡ slot.rlist ++ out
    pub queue : after.wlist ≡ slot.wlist
    pub shard : after.shard ≡ slot.shard

  abbrev pub Answered : Option Kind → Message → Slot Db Float → Option (Slot Db Float) → Type 0
  Answered k msg slot o =
      (after : Slot Db Float) × (out : List Message) × (o ≡ some after)
      × Adds slot after out
      × Answers k msg out

  nothing : (slot : Slot Db Float) → Adds slot slot []
  nothing slot = record { behind = sym (append-nil slot.rlist); queue = refl; shard = refl }

  Answered-bind :
      {B : Type 0} (k : Option Kind) (msg : Message) (slot : Slot Db Float) (o : Option B)
      (f : B → Option (Slot Db Float))
      → Returns o
      → ((b : B) → Answered k msg slot (f b))
      → Answered k msg slot (o >>= f)
  Answered-bind k msg slot o f (b, e) h = subst (λ p. Answered k msg slot (p >>= f)) (sym e) (h b)

  -- A slot that differs in its data only, with one answer more.
  abbrev responded :
      (slot : Slot Db Float) (s : ℕ) (q : Bytes) (st : Store Db) (es : List (ℕ × Entity Float))
      → Slot Db Float
  responded slot s q st es = respond s q (record slot { store = st; entities = es })

  responded-Adds :
      (slot : Slot Db Float) (s : ℕ) (q : Bytes) (st : Store Db) (es : List (ℕ × Entity Float))
      → Adds slot (responded slot s q st es) ((s, q) ∷ [])
  responded-Adds slot s q st es = record { behind = refl; queue = refl; shard = refl }

module _ {Db Float : Type 0} (outside : Outside Db Float) (answers : IsAnswering outside) where
  finish_serialize-Answered :
      (msg : Message) (kept released : List (ℕ × Entity Float)) (slot : Slot Db Float)
      (result : Bool × Store Db)
      → Answered
          (some serialize_request)
          msg
          slot
          (some (finish_serialize outside msg kept released slot result))
  unfolding finish_serialize
  finish_serialize-Answered msg kept released slot (true, st) =
      (_, _, refl, responded-Adds slot _ _ st kept, (_, refl))
  finish_serialize-Answered msg kept released slot (false, st) =
      (_, _, refl, responded-Adds slot _ _ st released, (_, refl))

  handle_parsed-Answered :
      (parsed : Bool) (msg : Message) (values : Values Float)
      (kept released : List (ℕ × Entity Float)) (slot : Slot Db Float)
      → Answered
          (some serialize_request)
          msg
          slot
          (handle_parsed outside parsed msg values kept released slot)
  unfolding handle_parsed
  handle_parsed-Answered true msg values kept released slot =
      Answered-bind (some serialize_request) msg slot _ _
        (serialize-Returns outside answers (table_of msg.1) values slot.store)
        (finish_serialize-Answered msg kept released slot)
  handle_parsed-Answered false msg values kept released slot =
      (_, _, refl, responded-Adds slot _ _ slot.store released, (_, refl))

  handle_serialize-Answered :
      (msg : Message) (slot : Slot Db Float)
      → Answered (some serialize_request) msg slot (handle_serialize outside msg slot)
  unfolding handle_serialize
  handle_serialize-Answered msg slot = handle_parsed-Answered _ msg _ _ _ slot

  find_entity-Returns :
      (table : Bytes) (objectid : ℕ) (slot : Slot Db Float)
      → Returns (find_entity outside table objectid slot)
  unfolding find_entity
  find_entity-Returns table objectid slot = elim (Option-cases (value_at slot.entities objectid)) [
    | inl e ↦ rw (e, find_entity) (unserialize-Returns outside answers table objectid slot.store)
    | inr (x, e) ↦ rw (e, find_entity) (returned _)
  ]

  handle_unserialize-Answered :
      (msg : Message) (slot : Slot Db Float)
      → Answered (some unserialize_request) msg slot (handle_unserialize outside msg slot)
  unfolding handle_unserialize
  handle_unserialize-Answered msg slot =
      Answered-bind (some unserialize_request) msg slot _ _
        (find_entity-Returns (table_of msg.1) (objectid_of msg.1) slot) (λ p. by_entity p.0 p.1)
    where
      by_entity :
          (o : Option (Entity Float)) (st : Store Db)
          → Answered
              (some unserialize_request)
              msg
              slot
              (reply_entity outside msg o (record slot { store = st }))
      by_entity none st = (_, _, refl, responded-Adds slot _ _ st slot.entities, (_, _, refl))
      by_entity (some e) st = (_, _, refl, responded-Adds slot _ _ st _, (_, _, refl))

  pub handle_kind-Answered :
      (k : Option Kind) (msg : Message) (slot : Slot Db Float)
      → shard_of msg.1 ≡ slot.shard
      → Answered k msg slot (handle_kind outside k msg slot)
  unfolding handle_kind handle_delete handle_alter
  handle_kind-Answered none msg slot e = (slot, [], refl, nothing slot, refl)
  handle_kind-Answered (some serialize_request) msg slot e =
      rw (handle_kind, (==_iff (shard_of msg.1) slot.shard).1 e)
        (handle_serialize-Answered msg slot)
  handle_kind-Answered (some unserialize_request) msg slot e =
      rw (handle_kind, (==_iff (shard_of msg.1) slot.shard).1 e)
        (handle_unserialize-Answered msg slot)
  handle_kind-Answered (some delete_request) msg slot e =
      rw (handle_kind, (==_iff (shard_of msg.1) slot.shard).1 e)
        (_, _, refl, responded-Adds slot _ _ _ _, (_, refl))
  handle_kind-Answered (some select_request) msg slot e = (slot, [], refl, nothing slot, refl)
  handle_kind-Answered (some alter_request) msg slot e =
      rw (handle_kind, (==_iff (shard_of msg.1) slot.shard).1 e)
        (_, _, refl, responded-Adds slot _ _ _ _, (_, refl))
