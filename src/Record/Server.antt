-- ===== src/Record/Server.antt =====
-- server/recordserver/src/RecordService.cpp and RecordProcessManager.cpp, and the part of RecordProcess.cpp that the
-- main thread runs: a message from a connection goes to the slot of its object, and answers go back.
use libbundle.Prelude.{
  ℕ, ◌%◌, Bool, true, false, Option, none, some, List, [], ◌∷◌, ◌++◌, ◌==◌, get_elem?, set,
  if◌then◌else◌, ◌>>=◌, ◌>>◌, assert,
}
use libbundle.Tables.{nat_key, value_at, write_at}
use libbundle.Record.{Kind, kind_of, len_of, id_of, shard_of, objectid_of, request_size}
use libbundle.Record.Slot.{Message, Slot, post, reply}

-- `RecordProcess`: the shard's id and its slots.
pub record RecordProcess (Db : Type 0) (Float : Type 0) : Type 0 where
  pub id : ℕ
  pub slots : List (Slot Db Float)

module _ {Db Float : Type 0} where
  -- `RecordProcess::request`; the number of slots is configured.
  unfoldable pub process_request :
      ℕ → ℕ → ℕ → Message → RecordProcess Db Float → Option (Bool × RecordProcess Db Float)
  unfolding post
  process_request slot_hash_value shard objectid msg p = do
    assert (shard == p.id)
    let hashid = objectid % slot_hash_value
    slot ← get_elem? p.slots hashid
    some (true, record p { slots = set p.slots hashid (post msg slot) })

  -- `RecordProcessManager::request`.
  unfoldable pub manager_request :
      ℕ
      → ℕ
      → ℕ
      → Message
      → List (ℕ × RecordProcess Db Float)
      → Option (Bool × List (ℕ × RecordProcess Db Float))
  unfolding process_request
  manager_request slot_hash_value shard objectid msg ps = elim (value_at ps shard) [
    | none ↦ some (false, ps)
    | some p ↦ do
      (rc, p') ← process_request slot_hash_value shard objectid msg p
      some (rc, write_at ps shard p (λ _. p'))
  ]

  -- The five cases of `msgParser`: the length that the message states has to be the size of the request.
  unfoldable pub parse_kind :
      ℕ
      → Option Kind
      → Message
      → List (ℕ × RecordProcess Db Float)
      → Option (Bool × List (ℕ × RecordProcess Db Float))
  unfolding request_size manager_request
  parse_kind slot_hash_value none msg ps = some (false, ps)
  parse_kind slot_hash_value (some k) msg ps = do
    size ← request_size k msg.1
    if len_of msg.1 == size
        then manager_request slot_hash_value (shard_of msg.1) (objectid_of msg.1) msg ps
        else some (false, ps)

  -- `RecordService::msgParser`; false closes the connection.
  unfoldable pub msg_parser :
      ℕ
      → Message
      → List (ℕ × RecordProcess Db Float)
      → Option (Bool × List (ℕ × RecordProcess Db Float))
  unfolding kind_of parse_kind
  msg_parser slot_hash_value msg ps = parse_kind slot_hash_value (kind_of (id_of msg.1)) msg ps

  -- `update` of a slot, with what `try_lock` returns in each round.
  unfoldable pub update_slot :
      List Bool → (ℕ → Bool) → Slot Db Float → List (Message × Bool) × Slot Db Float
  unfolding reply
  update_slot [] stands slot = ([], slot)
  update_slot (locked ∷ tries) stands slot =
      let (taken, slot') = reply stands slot in
      let (more, last) = update_slot tries stands slot' in
      elim slot.rlist [
        | [] ↦ ([], slot)
        | x ∷ xs ↦ if locked then (taken ++ more, last) else ([], slot)
      ]
