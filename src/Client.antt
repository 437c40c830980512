-- ===== src/Client.antt =====
-- src/socket/SocketClient.cpp: a client's connection, the thread that connects again, and what it hands on. Each
-- attempt to connect comes with what the kernel does. The worker is seen by the sockets that it is given.
pub mod Retry
mod Tests
use libbundle.Prelude.{
  ℕ, Bool, true, false, not, ◌&&◌, ◌||◌, Option, none, some, List, [], ◌∷◌, ◌++◌, Bytes, ltb, ◌==◌,
  if◌then◌else◌, ◌>>=◌, ◌>>◌, assert,
}
use libbundle.Socketmessage.{
  Socketmessage, Opcode, message, establish, close, new_socket, new_listening, sol, magic_value,
}

-- `SocketClientInternal`: its members but the address, and the sockets that `_slotWorker` was given.
pub record Client : Type 0 where
  pub fd : Option ℕ
  pub is_stop : Bool
  pub active : Bool
  pub connect_in_progress : Bool
  pub read_queue : List Socketmessage
  pub added : List ℕ

abbrev pub new_client : Client
new_client = record {
  fd = none;
  is_stop = true;
  active = false;
  connect_in_progress = false;
  read_queue = [];
  added = [];
}

-- What `socket` and `connectSignal` do; no descriptor is a failure.
pub record Attempt : Type 0 where
  pub socket : Option ℕ
  pub connects : Bool

-- `connectServer`.
unfoldable pub connect_server : Attempt → Client → Bool × Client
connect_server a c =
    if c.active then (true, c) else if c.connect_in_progress then (false, c) else (elim a.socket [
      | none ↦ (false, record c { fd = none; connect_in_progress = true })
      | some s ↦ (a.connects, record c { fd = some s; connect_in_progress = false })
    ])

-- `_slotWorker->addSocket(this->fd(), false)`.
abbrev pub give_socket : Client → Client
give_socket c = elim c.fd [ none ↦ c | some s ↦ record c { added = c.added ++ s ∷ [] } ]

-- Whether the loop of `connectAsync` is left, what an attempt makes of the client, and what follows the loop.
abbrev pub is_done : Client → Bool
is_done c = c.is_stop || c.active

abbrev pub proceed : Bool × Client → Client
proceed (true, c) = record c { active = true }
proceed (false, c) = c

abbrev pub finish : Client → Client
finish c = if c.active then give_socket c else c

-- The thread of `connectAsync`, with an attempt for each of its rounds: whether it has ended. In front of an
-- attempt the old descriptor is closed.
unfoldable pub retry_loop : List Attempt → Client → Bool × Client
retry_loop [] c = if is_done c then (true, finish c) else (false, c)
retry_loop (a ∷ more) c =
    let rest = retry_loop more (proceed (connect_server a (record c { fd = none }))) in
    if is_done c then (true, finish c) else rest

-- `connect` with a timeout; without one, `connectAsync` follows the first tests.
unfoldable pub connect : Attempt → Client → Bool × Client
connect a c =
    let tried = connect_server a (record c { is_stop = false; active = false }) in
    let c' = record tried.1 { active = tried.0 } in
    if not c.is_stop
    then (false, c)
    else if c.active
    then (false, record c { is_stop = false })
    else (tried.0, if tried.0 then give_socket c' else c')

-- Whether the message closes the client's own socket.
abbrev pub is_own : Option ℕ → Option ℕ → Bool
is_own (some s) (some t) = s == t
is_own s t = false

-- `receiveMessage`: the message, whether `connectAsync` is called, and the client.
unfoldable pub receive_known : Opcode → Socketmessage → Client → Option (Bool × Client)
receive_known close msg c =
    some (if is_own msg.s c.fd then (true, record c { active = false }) else (false, c))
receive_known establish msg c = some (false, c)
receive_known message msg c = some (false, c)
receive_known op msg c = none

unfoldable pub receive_message : Client → Option (Option Socketmessage × Bool × Client)
receive_message c = elim c.read_queue [
  | [] ↦ some (none, false, c)
  | msg ∷ msgs ↦ (do
    assert (msg.magic == magic_value)
    s ← msg.s
    (again, c') ← receive_known msg.opcode msg (record c { read_queue = msgs })
    some (some msg, again, c'))
]

-- `stop`, where no thread runs.
unfoldable pub stop : Client → Client
stop c =
    if c.is_stop then c else record c { is_stop = true; fd = none; read_queue = []; added = [] }
