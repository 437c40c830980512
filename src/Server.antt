-- ===== src/Server.antt =====
-- src/socket/SocketServer.cpp: how the server hands messages to its workers, of which it sees the queues
-- of what they are to send. The first of them is the master, which listens.
pub mod Routing
pub mod Options
mod Tests
use libbundle.Prelude.{
  ◌*◌, ◌&&◌, ◌%◌, ◌^◌, ℕ, zero, suc, ◌+◌, ◌-◌, Bool, true, false, Option, none, some, List, [], ◌∷◌,
  ◌++◌, Bytes, ltb, ◌==◌, if◌then◌else◌, length, get_or, set, ◌>>=◌, ◌>>◌, assert,
}
use libbundle.Socketmessage.{
  Socketmessage, Opcode, message, establish, close, new_socket, new_listening, sol, allocate,
  allocate_payload, magic_value,
}
use libbundle.Worker.{Worker, push}

pub record Server : Type 0 where
  pub read_queue : List Socketmessage
  pub processes : List (List Socketmessage)

-- `getWorkerProcess`, for a server with count workers.
unfoldable pub worker_index : ℕ → ℕ → ℕ
worker_index count s = if count == 1 then 0 else s % (count - 1) + 1

-- `getWorkerProcess(s)->pushMessage(s, msg)`, which sets the socket of the message.
unfoldable pub give :
    ℕ → Socketmessage → List (List Socketmessage) → Option (List (List Socketmessage))
unfolding worker_index push
give s msg queues = do
  assert (ltb 0 (length queues))
  let i = worker_index (length queues) s
  some (set queues i (push (record msg { s = some s }) (get_or queues i [])))

-- What the server does with a message of the read queue.
pub data Route : Type 0 where
  deliver hand_on wrong : Route

unfoldable pub route : Opcode → Route
route establish = deliver
route close = deliver
route message = deliver
route new_socket = hand_on
route new_listening = wrong
route sol = wrong

-- The loop of `receiveMessage`: the message, what is left of the read queue, and the workers' queues.
unfoldable pub receive_queue :
    List Socketmessage
    → List (List Socketmessage)
    → Option (Option Socketmessage × List Socketmessage × List (List Socketmessage))
unfolding give route
receive_queue [] queues = some (none, [], queues)
receive_queue (msg ∷ msgs) queues = do
  assert (msg.magic == magic_value)
  s ← msg.s
  elim (route msg.opcode) [
    | deliver ↦ some (some msg, msgs, queues)
    | hand_on ↦ (do queues' ← give s msg queues; receive_queue msgs queues')
    | wrong ↦ none
  ]

pub receive_message : Server → Option (Option Socketmessage × Server)
unfolding receive_queue
receive_message server = do
  (msg, msgs, queues) ← receive_queue server.read_queue server.processes
  some (msg, record { read_queue = msgs; processes = queues })

-- `sendMessage(s, payload, payload_len)`.
pub server_send : ℕ → Bytes → Server → Option Server
unfolding give
server_send s payload server = do
  assert (ltb 0 (length payload))
  queues ← give s (allocate_payload (some s) message payload) server.processes
  some (record server { processes = queues })

-- `sendMessage(s, msg)`.
pub server_forward : ℕ → Socketmessage → Server → Option Server
unfolding give
server_forward s msg server = do
  queues ← give s msg server.processes
  some (record server { processes = queues })

-- `close(s)`.
pub server_close : ℕ → Server → Option Server
unfolding give
server_close s server = do
  queues ← give s (allocate (some s) close) server.processes
  some (record server { processes = queues })

-- `setWorkerNumber`, on a machine with that many processors: the new number, unless it is refused.
pub set_worker_number : ℕ → Bool → ℕ → Option ℕ
set_worker_number cpus is_stopped worker_number =
    if is_stopped && ltb worker_number (cpus * 8 % 2 ^ 32) then some worker_number else none

-- `size`: the connections of all the workers, in 32 bits.
pub size : List Worker → ℕ → ℕ
size [] value = value
size (slot ∷ slots) value = size slots ((value + slot.total_connections) % 2 ^ 32)
