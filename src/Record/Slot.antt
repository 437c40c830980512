-- ===== src/Record/Slot.antt =====
-- `RecordProcess` of server/recordserver/src/RecordProcess.cpp: the slots of a shard, each with a database, a cache of
-- entities and two queues. The main thread puts requests into the one and takes answers from the other
-- (`request`, `reply`); the thread of the slot works in between (`synchronous`).
use libbundle.Prelude.{
  ℕ, Bool, true, false, Option, none, some, List, [], ◌∷◌, ◌++◌, Bytes, ◌==◌, if◌then◌else◌, ◌>>=◌,
  ◌>>◌, assert,
}
use libbundle.Tables.{nat_key, value_at, write_at, without, emplace, or_fresh}
use libbundle.Entity.{Entity, Values}
use libbundle.Entity.Json.{parse_from_string, serialize_to_string}
use libbundle.Record.{
  Kind, serialize_request, unserialize_request, delete_request, select_request, alter_request,
  kind_of, id_of, shard_of, table_of, objectid_of, data_of, plain_response, unserialize_response,
  record_ok, record_illegal_json_string, record_not_found_object, record_serialize_error,
  record_delete_error,
}
use libbundle.Record.Outside.{Outside}
use libbundle.Record.Store.{Store}
use libbundle.Record.Saving.{serialize}
use libbundle.Record.Loading.{unserialize}
use libbundle.Record.Altering.{remove_entity, alter_table}

-- `Recordmessage`: a socket and the bytes of a message.
abbrev pub Message : Type 0
Message = ℕ × Bytes

-- `SlotDatabase`.
pub record Slot (Db : Type 0) (Float : Type 0) : Type 0 where
  pub shard : ℕ
  pub id : ℕ
  pub store : Store Db
  pub rlist : List Message
  pub wlist : List Message
  pub entities : List (ℕ × Entity Float)

module _ {Db Float : Type 0} where
  -- An answer, behind the others.
  abbrev pub respond : ℕ → Bytes → Slot Db Float → Slot Db Float
  respond s q slot = record slot { rlist = slot.rlist ++ (s, q) ∷ [] }

  -- The answer to a request, with a result only.
  abbrev pub answer : Kind → Message → ℕ → Slot Db Float → Slot Db Float
  answer k msg retval slot =
      let q = msg.1 in
      respond msg.0 (plain_response k (shard_of q) (table_of q) (objectid_of q) retval) slot

  abbrev pub answer_entity : Message → ℕ → Bytes → Slot Db Float → Slot Db Float
  answer_entity msg retval js slot =
      let q = msg.1 in
      respond msg.0 (unserialize_response (shard_of q) (table_of q) (objectid_of q) retval js) slot

  -- `request` of a slot.
  unfoldable pub post : Message → Slot Db Float → Slot Db Float
  post msg slot = record slot { wlist = slot.wlist ++ msg ∷ [] }

  -- A round of `update` of the main thread, which got the lock: the answer that it takes from the queue, with
  -- whether it is sent. That depends on `stands`, whether a socket has a connection.
  unfoldable pub reply : (ℕ → Bool) → Slot Db Float → List (Message × Bool) × Slot Db Float
  reply stands slot = elim slot.rlist [
    | [] ↦ ([], slot)
    | msg ∷ rest ↦ ((msg, stands msg.0) ∷ [], record slot { rlist = rest })
  ]

module _ {Db Float : Type 0} (outside : Outside Db Float) where
  -- The entity of a request, made where there is none.
  abbrev pub entity_for : ℕ → Slot Db Float → Entity Float
  entity_for objectid slot =
      or_fresh (value_at slot.entities objectid) (record { id = objectid; values = [] })

  -- The answer behind the statements; where they fail, the entity is released.
  unfoldable pub finish_serialize :
      Message
      → List (ℕ × Entity Float)
      → List (ℕ × Entity Float)
      → Slot Db Float
      → Bool × Store Db
      → Slot Db Float
  finish_serialize msg kept released slot (true, st) =
      answer serialize_request msg record_ok (record slot { store = st; entities = kept })
  finish_serialize msg kept released slot (false, st) =
      answer serialize_request msg record_serialize_error
        (record slot { store = st; entities = released })

  -- What follows the parser: the values of the entity, and the entities with and without it.
  unfoldable pub handle_parsed :
      Bool
      → Message
      → Values Float
      → List (ℕ × Entity Float)
      → List (ℕ × Entity Float)
      → Slot Db Float
      → Option (Slot Db Float)
  unfolding serialize finish_serialize
  handle_parsed true msg values kept released slot = do
    result ← serialize outside (table_of msg.1) values slot.store
    some (finish_serialize msg kept released slot result)
  handle_parsed false msg values kept released slot = some (
      answer serialize_request msg record_illegal_json_string (record slot { entities = released }))

  unfoldable pub handle_serialize : Message → Slot Db Float → Option (Slot Db Float)
  unfolding value_at parse_from_string write_at without handle_parsed
  handle_serialize msg slot =
      let objectid = objectid_of msg.1 in
      let e = entity_for objectid slot in
      let (parsed, values) = parse_from_string (outside.parse_json (data_of msg.1)) e.values in
      let entities' = write_at slot.entities objectid e (λ _. record e { values = values }) in
      handle_parsed parsed msg values entities' (without entities' e.id) slot

  -- The entity of an unserialize request: the one that is kept, or else the one of the database.
  unfoldable pub find_entity : Bytes → ℕ → Slot Db Float → Option (Option (Entity Float) × Store Db)
  unfolding value_at unserialize
  find_entity table objectid slot = elim (value_at slot.entities objectid) [
    | some e ↦ some (some e, slot.store)
    | none ↦ unserialize outside table objectid slot.store
  ]

  -- The answer with an entity, which is kept; `SerializeToString` always returns true.
  unfoldable pub reply_entity :
      Message → Option (Entity Float) → Slot Db Float → Option (Slot Db Float)
  unfolding emplace serialize_to_string
  reply_entity msg none slot = some (answer_entity msg record_not_found_object [] slot)
  reply_entity msg (some e) slot = some (
      answer_entity msg record_ok (serialize_to_string outside.json_text true e)
        (record slot { entities = (emplace slot.entities (objectid_of msg.1) e).1 }))

  unfoldable pub handle_unserialize : Message → Slot Db Float → Option (Slot Db Float)
  unfolding find_entity reply_entity
  handle_unserialize msg slot = do
    (found, st) ← find_entity (table_of msg.1) (objectid_of msg.1) slot
    reply_entity msg found (record slot { store = st })

  unfoldable pub handle_delete : Message → Slot Db Float → Slot Db Float
  unfolding without remove_entity
  handle_delete msg slot =
      let (retval, st) = remove_entity outside (table_of msg.1) (objectid_of msg.1) slot.store in
      answer delete_request msg (if retval then record_ok else record_delete_error)
        (record slot { store = st; entities = without slot.entities (objectid_of msg.1) })

  unfoldable pub handle_alter : Message → Slot Db Float → Slot Db Float
  unfolding alter_table
  handle_alter msg slot =
      let (retval, st) =
        alter_table outside (table_of msg.1) (outside.parse_json (data_of msg.1)) slot.store in
      answer alter_request msg (if retval then record_ok else record_delete_error)
        (record slot { store = st })

  -- The switch over the id. A select request is not answered.
  unfoldable pub handle_kind : Option Kind → Message → Slot Db Float → Option (Slot Db Float)
  unfolding handle_serialize handle_unserialize handle_delete handle_alter
  handle_kind none msg slot = some slot
  handle_kind (some serialize_request) msg slot = do
    assert (shard_of msg.1 == slot.shard)
    handle_serialize msg slot
  handle_kind (some unserialize_request) msg slot = do
    assert (shard_of msg.1 == slot.shard)
    handle_unserialize msg slot
  handle_kind (some delete_request) msg slot = do
    assert (shard_of msg.1 == slot.shard)
    some (handle_delete msg slot)
  handle_kind (some select_request) msg slot = some slot
  handle_kind (some alter_request) msg slot = do
    assert (shard_of msg.1 == slot.shard)
    some (handle_alter msg slot)

  -- A round of `synchronous` that got the lock.
  unfoldable pub serve : Message → List Message → Slot Db Float → Option (Slot Db Float)
  unfolding handle_kind kind_of
  serve msg rest slot = handle_kind (kind_of (id_of msg.1)) msg (record slot { wlist = rest })

  -- `synchronous`, with what `try_lock` returns in each round. The requests that arrive meanwhile are those of
  -- `request`.
  unfoldable pub synchronous : List Bool → Slot Db Float → Option (Slot Db Float)
  unfolding serve
  synchronous [] slot = some slot
  synchronous (locked ∷ tries) slot = elim slot.wlist [
    | [] ↦ some slot
    | msg ∷ rest ↦ elim locked [
      | false ↦ some slot
      | true ↦ serve msg rest slot >>= synchronous tries
    ]
  ]
