-- ===== src/Record/Tests.antt =====
-- The record server and its client at concrete inputs. A floating point number stands for its text; one database keeps
-- what it is told and has one column, the other has no tables.
use libbundle.Prelude.{
  ℕ, ◌%◌, ◌≡◌, refl, Bool, true, false, not, ◌||◌, ◌&&◌, Option, none, some, List, [], ◌∷◌, ◌++◌,
  Bytes, codes, ltb, ◌==◌, if◌then◌else◌, ◌>>=◌, arith, All,
}
use libbundle.Tables.{nat_key, bytes_key, bytes_eq, value_at}
use libbundle.Clib.{pos, c_str, signed_text}
use libbundle.Entity.{Value, undefined, set_to, to_integer, to_string}
use libbundle.Entity.Json.{members, number_int}
use libbundle.Record.{
  serialize_request, data_request, plain_response, field_at, shard_of, data_of, retval_of,
}
use libbundle.Record.Columns.{long, blob, var_string, m2m, v2m}
use libbundle.Record.Outside.{Field, Outside}
use libbundle.Record.Store.{Store, columns_of}
use libbundle.Record.Saving.{serialize}
use libbundle.Record.Loading.{unserialize}
use libbundle.Record.Slot.{Message, Slot, post}
use libbundle.Record.Server.{RecordProcess, msg_parser}
use libbundle.Record.Client.{RecordClient, called, client_parse, client_serialize}
use libbundle.Record.Total.{IsAnswering}
use libbundle.Record.Answers.{AllAnswers}
use libbundle.Record.Schedule.{
  Action, arrives, works, delivers, arrivals, run, messages, run-AllAnswers,
}
use libbundle.Record.Widening.{same_family, family_of, size_in_family, is_known, m2m_rules}
use libbundle.Record.Wire.{IsName, Reads}
use libbundle.Record.Requests.{data_request-Reads}
use libbundle.Record.Exchange.{serialize_exchange, crossed_callback}
use libbundle.Record.Forgotten.{serialize-unserialize_unknown}
use libbundle.Record.Statement.{Fits}
use libbundle.Record.Routing.{slot_at, msg_parser-posted}

abbrev level : Field
level = record { org_name = codes "level"; type_of = long; flags = 0; length_of = 11 }

abbrev keeping : Outside (List Bytes) Bytes
keeping = record {
  run_command = λ sql db. (true, db ++ sql ∷ []);
  run_query =
      λ sql db. (some (record { fields = level ∷ []; rows = (some (codes "3") ∷ []) ∷ [] }), db);
  parse_json = λ js. members ((codes "level", number_int (pos 4)) ∷ []);
  sql_text = λ x. codes "0";
  json_text = λ x. codes "0.00";
  stof = λ s. some s;
}

abbrev empty_server : Outside (List Bytes) Bytes
empty_server = record {
  run_command = λ sql db. (false, db);
  run_query = λ sql db. (none, db);
  parse_json = λ js. members [];
  sql_text = λ x. codes "0";
  json_text = λ x. codes "0.00";
  stof = λ s. some s;
}

keeping-IsAnswering : IsAnswering keeping
keeping-IsAnswering sql db =
    (record { fields = level ∷ []; rows = (some (codes "3") ∷ []) ∷ [] }, refl, (tt, tt))

abbrev blank_store : Store (List Bytes)
blank_store = record { db = []; tables = [] }

abbrev player : Bytes
player = codes "player"

player-IsName : IsName player
unfolding c_str
player-IsName = record { short = omega arith; whole = refl }

abbrev four : Value Bytes
four = set_to (to_integer (pos 4)) undefined

-- Whether it succeeded, and the commands.
abbrev sent : Option (Bool × Store (List Bytes)) → Option (Bool × List Bytes)
sent none = none
sent (some (rc, st)) = some (rc, st.db)

-- A table that is created, and a column that fits.
serialized :
    sent (serialize keeping player ((codes "level", four) ∷ []) blank_store)
    ≡ some (
      true,
      codes
            "CREATE TABLE `player` (`id` BIGINT UNSIGNED NOT NULL PRIMARY KEY , `level` INT NOT NULL) ENGINE=InnoDB DEFAULT CHARSET=utf8"
          ∷ codes "INSERT INTO `player` (`level`) VALUES (4) ON DUPLICATE KEY UPDATE `level`=4"
          ∷ [],
    )
unfolding serialize signed_text
serialized = refl

m2m_rules_example :
    (is_known var_string && is_known blob ≡ true
      → m2m var_string blob
        ≡ some (
            not (same_family (family_of var_string) (family_of blob))
            || ltb (size_in_family var_string) (size_in_family blob)))
    × (is_known var_string && is_known blob ≡ false → m2m var_string blob ≡ none)
m2m_rules_example = m2m_rules var_string blob

abbrev save_text : Bytes
save_text = codes "{\"level\":4}"

abbrev save : Bytes
save = data_request serialize_request 1 player 9 save_text

data_request-Reads_example :
    Reads serialize_request 1 player 9 (data_request serialize_request 1 player 9 save_text)
    × (data_of (data_request serialize_request 1 player 9 save_text) ≡ save_text)
data_request-Reads_example =
    data_request-Reads serialize_request 1 player 9 save_text refl (omega arith) player-IsName
      (omega arith) (omega arith)

abbrev blank_slot : Slot (List Bytes) Bytes
blank_slot = record {
  shard = 1;
  id = 1;
  store = blank_store;
  rlist = [];
  wlist = [];
  entities = [];
}

abbrev actions : List Action
actions = arrives (5, save) ∷ works ∷ works ∷ delivers (λ s. true) ∷ []

save_shard : shard_of save ≡ 1
unfolding data_request field_at
save_shard = refl

run-AllAnswers_example :
    (handled : List Message) × (out : List (Message × Bool)) × (after : Slot (List Bytes) Bytes)
    × (run keeping actions blank_slot ≡ some (out, after))
    × (arrivals actions ≡ handled ++ after.wlist)
    × AllAnswers handled (messages out ++ after.rlist)
run-AllAnswers_example =
    run-AllAnswers keeping keeping-IsAnswering actions blank_slot (save_shard, tt) refl refl

abbrev idle_client : RecordClient
idle_client = record { serialize_callbacks = []; unserialize_callbacks = []; alter_callbacks = [] }

serialize_exchange_example :
    let (request, asking) = client_serialize 1 player 9 save_text (some 7) idle_client in
    (q : Bytes) × (after : Slot (List Bytes) Bytes) × (run keeping
        (arrives (5, request) ∷ works ∷ delivers (λ s. true) ∷ [])
        blank_slot
      ≡ some (((5, q), true) ∷ [], after))
    × (client_parse q asking ≡ (true, called 7 1 player 9 (retval_of q) ∷ [], idle_client))
serialize_exchange_example =
    serialize_exchange keeping keeping-IsAnswering blank_slot (λ s. true) 5 1 player 9 save_text
      idle_client 7 (omega arith) player-IsName (omega arith) (omega arith) refl refl refl refl

crossed_callback_test :
    client_parse
      (plain_response serialize_request 1 player 10 0)
      (client_serialize 1 player 10 save_text
        (some 8)
        (client_serialize 1 player 9 save_text (some 7) idle_client).1).1
    ≡ (
      true,
      called 7 1 player 10 (retval_of (plain_response serialize_request 1 player 10 0)) ∷ [],
      record idle_client { serialize_callbacks = some 8 ∷ [] },
    )
crossed_callback_test =
    crossed_callback 1 player 9 10 0 save_text save_text 7 8 idle_client (omega arith) player-IsName
      (omega arith) refl

serialize-unserialize_unknown_example :
    (st' : Store (List Bytes)) × (unserialize empty_server player 9 blank_store ≡ some (none, st'))
    × ((serialize empty_server player ((codes "level", four) ∷ []) st' >>= λ p. some p.0)
        ≡ some false)
unfolding value_at
serialize-unserialize_unknown_example =
    serialize-unserialize_unknown empty_server player 9 (codes "level") four [] blank_store [] refl
      refl (λ what. refl)

abbrev values : List (Bytes × Value Bytes)
values = (codes "level", four) ∷ (codes "name", set_to (to_string (codes "ann")) undefined) ∷ []

abbrev known_store : Store (List Bytes)
known_store = record {
  db = [];
  tables =
      (
        player,
        (codes "level", record { type_of = long; flags = 0; length_of = 11 })
            ∷ (codes "name", record { type_of = var_string; flags = 0; length_of = 128 })
            ∷ [],
      )
      ∷ [];
}

-- Both columns of the store fit their values.
values-Fits : All (Fits keeping player known_store) values
unfolding columns_of value_at m2m v2m bytes_eq
values-Fits = ((_, refl, refl), ((_, refl, refl), tt))

abbrev shards : List (ℕ × RecordProcess (List Bytes) Bytes)
shards = (1, record { id = 1; slots = blank_slot ∷ blank_slot ∷ [] }) ∷ []

save-Reads : Reads serialize_request 1 player 9 save
save-Reads =
    (data_request-Reads serialize_request 1 player 9 save_text refl (omega arith) player-IsName
      (omega arith) (omega arith)).0

msg_parser-posted_example :
    (ps' : List (ℕ × RecordProcess (List Bytes) Bytes)) × (msg_parser 2 (5, save) shards
      ≡ some (true, ps'))
    × ((r j : ℕ)
        → slot_at ps' r j ≡ (
            if (1 == r) && (9 % 2 == j)
            then some (post (5, save) blank_slot)
            else slot_at shards r j))
unfolding value_at
msg_parser-posted_example =
    msg_parser-posted 2 1 9 5 serialize_request player save shards
      (record { id = 1; slots = blank_slot ∷ blank_slot ∷ [] }) blank_slot save-Reads refl refl refl
