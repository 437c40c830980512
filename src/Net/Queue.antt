-- ===== src/Net/Queue.antt =====
-- src/net/MessageQueueService.cpp and MessageQueueClient.cpp: messages over zmq. What the calls of zmq return is an
-- argument. The parser is set; what it is called with is the result.
use libbundle.Prelude.{
  ◌||◌, ℕ, Bool, true, false, not, Option, none, some, List, [], ◌∷◌, ◌++◌, Bytes, ltb, ◌==◌,
  if◌then◌else◌, take, length,
}
use libbundle.ByteBuffer.{of_le}
use libbundle.Tables.{nat_key, value_at, contains_key, emplace, without}
use libbundle.Net.{sizeof_netmessage}

-- What `zmq_msg_recv` gives: an error, or a message with the id of its route.
pub data Arrived : Type 0 where
  recv_failed : Arrived
  arrived : ℕ → Bytes → Arrived

-- What the two checks find: an access outside of the message, a refusal, or a message to parse.
pub data Checked : Type 0 where
  outside refused accepted : Checked

-- The length field is read in front of the test for the size of the header.
unfoldable pub check_size : Bytes → Checked
check_size q =
    if ltb (length q) 4
    then outside
    else if not (length q == of_le (take 4 q))
    then refused
    else if ltb (length q) sizeof_netmessage
    then refused
    else accepted

-- `_tasks`: the tasks under the ids of their routes; a task is its id.
abbrev pub Tasks : Type 0
Tasks = List (ℕ × ℕ)

-- `spawnConnection`; `none` is the null pointer.
unfoldable pub spawn_task : ℕ → Tasks → Option ℕ × Tasks
unfolding emplace
spawn_task routeid tasks =
    let added = emplace tasks routeid routeid in
    if added.0 then (some routeid, added.1) else (none, tasks)

-- `closeConnection`.
unfoldable pub close_connection : ℕ → Tasks → Tasks
unfolding without
close_connection routeid tasks = if contains_key tasks routeid then without tasks routeid else tasks

-- The task of a route, which a first message makes; `none` is a failed assertion.
unfoldable pub task_for : ℕ → Tasks → Option (ℕ × Tasks)
task_for routeid tasks = elim (value_at tasks routeid) [
  | some task ↦ some (task, tasks)
  | none ↦
      let made = spawn_task routeid tasks in
      elim made.0 [ none ↦ none | some task ↦ some (task, made.1) ]
]

-- `handleMessage` of the service: the calls of the parser, with the task and the message.
unfoldable pub handle_arrived : Arrived → Tasks → Option (List (ℕ × Bytes) × Tasks)
handle_arrived recv_failed tasks = some ([], tasks)
handle_arrived (arrived routeid q) tasks = elim (check_size q) [
  | outside ↦ none
  | refused ↦ some ([], tasks)
  | accepted ↦ elim (task_for routeid tasks) [
    | none ↦ none
    | some made ↦ some ((made.0, q) ∷ [], made.1)
  ]
]

-- The messages of several calls of `update`.
unfoldable pub handle_all : List Arrived → Tasks → Option (List (ℕ × Bytes) × Tasks)
handle_all [] tasks = some ([], tasks)
handle_all (a ∷ more) tasks = elim (handle_arrived a tasks) [
  | none ↦ none
  | some one ↦ elim (handle_all more one.1) [
    | none ↦ none
    | some rest ↦ some (one.0 ++ rest.0, rest.1)
  ]
]

-- `handleMessage` of the client, which has no routes.
unfoldable pub client_handle : Arrived → Option (List Bytes)
client_handle recv_failed = some []
client_handle (arrived routeid q) = elim (check_size q) [
  | outside ↦ none
  | refused ↦ some []
  | accepted ↦ some (q ∷ [])
]

-- What the calls of zmq in `sendMessage` return; `none` is -1.
pub record Zmq : Type 0 where
  pub init_size : Bool
  pub set_routing_id : Bool
  pub send_more : Option ℕ
  pub send_last : Option ℕ

-- `sendMessage` of a task: how often zmq was called to send, with or without ZMQ_SNDMORE. After the first
-- call the code goes on where that has failed.
unfoldable pub task_send : Zmq → ℕ → Bytes → List Bool
task_send zmq routeid payload =
    if not (ltb 0 (length payload)) || not zmq.init_size
    then []
    else if not (ltb 0 routeid) || not zmq.set_routing_id
    then []
    else elim zmq.send_more [ none ↦ true ∷ false ∷ [] | some n ↦ true ∷ [] ]
