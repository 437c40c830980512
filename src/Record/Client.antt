-- ===== src/Record/Client.antt =====
-- src/recordclient/RecordClient.cpp and src/net/NetworkClient.cpp: the requests of a client, the callbacks that wait for
-- their answers, and what arrives. A callback is a number; what it is called with is the result.
use libbundle.Prelude.{
  ℕ, ◌+◌, Bool, true, false, Option, none, some, List, [], ◌∷◌, ◌++◌, Bytes, codes, ◌==◌, length,
  if◌then◌else◌, ◌>>=◌, ◌>>◌, assert,
}
use libbundle.Socketmessage.{magic_value, Socketmessage, Opcode, bytes}
use libbundle.Record.{
  serialize_request, unserialize_request, alter_request, data_request, plain_request, len_of, id_of,
  shard_of, table_of, objectid_of, retval_of, response_datalen_of, response_data_of, sizeof_object,
}

-- A call of a callback.
pub data Called : Type 0 where
  called : (callback shard : ℕ) (table : Bytes) (objectid retval : ℕ) → Called
  called_with : (callback shard : ℕ) (table : Bytes) (objectid retval : ℕ) (js : Bytes) → Called

-- The three lists of callbacks; an empty function is `none`.
pub record RecordClient : Type 0 where
  pub serialize_callbacks : List (Option ℕ)
  pub unserialize_callbacks : List (Option ℕ)
  pub alter_callbacks : List (Option ℕ)

-- What a request writes, and the client behind it.
unfoldable pub client_serialize :
    ℕ → Bytes → ℕ → Bytes → Option ℕ → RecordClient → Bytes × RecordClient
unfolding data_request
client_serialize shard table objectid js func c = (
  data_request serialize_request shard table objectid js,
  record c { serialize_callbacks = c.serialize_callbacks ++ func ∷ [] },
)

unfoldable pub client_unserialize : ℕ → Bytes → ℕ → Option ℕ → RecordClient → Bytes × RecordClient
unfolding plain_request
client_unserialize shard table objectid func c = (
  plain_request unserialize_request shard table objectid,
  record c { unserialize_callbacks = c.unserialize_callbacks ++ func ∷ [] },
)

-- `{"field_name":"option"}`.
abbrev pub option_text : Bytes → Bytes → Bytes
option_text field_name option =
    codes "{\"" ++ (field_name ++ (codes "\":\"" ++ (option ++ codes "\"}")))

unfoldable pub client_alter :
    Bytes → ℕ → Bytes → ℕ → Bytes → Option ℕ → RecordClient → Bytes × RecordClient
unfolding data_request
client_alter option shard table objectid field_name func c = (
  data_request alter_request shard table objectid (option_text field_name option),
  record c { alter_callbacks = c.alter_callbacks ++ func ∷ [] },
)

abbrev pub client_add_key : ℕ → Bytes → ℕ → Bytes → Option ℕ → RecordClient → Bytes × RecordClient
client_add_key = client_alter (codes "ADD_KEY")

abbrev pub client_remove_key :
    ℕ → Bytes → ℕ → Bytes → Option ℕ → RecordClient → Bytes × RecordClient
client_remove_key = client_alter (codes "DROP_KEY")

-- The call of a function that is set.
abbrev pub call_set : (ℕ → Called) → Option ℕ → List Called
call_set how none = []
call_set how (some f) = how f ∷ []

abbrev pub call_plain : Bytes → ℕ → Called
call_plain q f = called f (shard_of q) (table_of q) (objectid_of q) (retval_of q)

abbrev pub call_data : Bytes → ℕ → Called
call_data q f =
    called_with f (shard_of q) (table_of q) (objectid_of q) (retval_of q) (response_data_of q)

-- One case of `msgParser`: the front of a list of callbacks takes the answer, if its length is `size()`. The rest
-- of the list is in the result.
unfoldable pub take_callback :
    ℕ → (ℕ → Called) → Bytes → List (Option ℕ) → Bool × List Called × List (Option ℕ)
take_callback size how q [] = (true, [], [])
take_callback size how q (func ∷ funcs) =
    if len_of q == size then (true, call_set how func, funcs) else (false, [], func ∷ funcs)

-- `msgParser`.
unfoldable pub client_parse : Bytes → RecordClient → Bool × List Called × RecordClient
unfolding take_callback
client_parse q c =
    if id_of q == 0x102
    then (let (rc, calls, fs) =
          take_callback (sizeof_object + 4) (call_plain q) q c.serialize_callbacks in
        (rc, calls, record c { serialize_callbacks = fs }))
    else if id_of q == 0x104
    then (let (rc, calls, fs) =
          take_callback (sizeof_object + 8 + response_datalen_of q) (call_data q) q
            c.unserialize_callbacks in
        (rc, calls, record c { unserialize_callbacks = fs }))
    else if id_of q == 0x10a
    then (let (rc, calls, fs) =
          take_callback (sizeof_object + 4) (call_plain q) q c.alter_callbacks in
        (rc, calls, record c { alter_callbacks = fs }))
    else (false, [], c)

-- A message of `NetworkClient::update`, with the callbacks that `RecordClient` sets: the client stops where
-- `msgParser` returns false. Whether it has stopped is part of the state.
unfoldable pub client_update_one :
    Socketmessage → Bool × RecordClient → Option (List Called × (Bool × RecordClient))
unfolding client_parse
client_update_one msg (stop, c) = do
  assert (msg.magic == magic_value)
  elim msg.opcode [
    | Opcode.establish ↦ some ([], (stop, c))
    | Opcode.close ↦ some ([], (stop, c))
    | _ ↦ do
      assert (length (bytes msg) == len_of (bytes msg))
      let (rc, calls, c') = client_parse (bytes msg) c
      some (calls, (if rc then stop else true, c'))
  ]

-- The loop of `update`.
unfoldable pub client_update :
    List Socketmessage → Bool × RecordClient → Option (List Called × (Bool × RecordClient))
unfolding client_update_one
client_update [] state = some ([], state)
client_update (msg ∷ msgs) (true, c) = some ([], (true, c))
client_update (msg ∷ msgs) (false, c) = do
  (calls, state) ← client_update_one msg (false, c)
  (more, last) ← client_update msgs state
  some (calls ++ more, last)
