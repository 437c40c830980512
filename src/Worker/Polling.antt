-- ===== src/Worker/Polling.antt =====
-- What the poll makes a worker do: src/socket/Poll.cpp, and the reading and writing in
-- src/socket/WorkerProcess.cpp.
use libbundle.Prelude.{
  ℕ, zero, suc, Bool, true, false, Option, none, some, List, [], ◌∷◌, Bytes, ltb, if◌then◌else◌,
  ◌>>=◌, ◌>>◌, assert,
}
use libbundle.Socketmessage.{Socketmessage, new_socket, allocate}
use libbundle.Socket.{SendResult, flush}
use libbundle.Socket.Receive.{Split, RecvResult, receive_loop}
use libbundle.Worker.{Worker, max_connection_fd, lookup, replace, socket_at, remove_socket, push}

-- `writeSocket`, with what the kernel does: whether the socket still stands.
unfoldable pub write_socket : List SendResult → ℕ → Worker → Option (Bool × Worker)
unfolding socket_at remove_socket replace
write_socket rs s w = do
  so ← socket_at w s
  elim so [
    | none ↦ some (false, w)
    | some so ↦ if so.is_listening then some (false, w) else (do
      (ok, so', wire) ← flush rs so
      let w' = record w { sockets = replace s so' w.sockets }
      if ok then some (true, w') else (do w'' ← remove_socket s w'; some (false, w'')))
  ]

-- A message that there may be.
unfoldable pub push_some : Option Socketmessage → List Socketmessage → List Socketmessage
unfolding push
push_some none queue = queue
push_some (some msg) queue = push msg queue

unfoldable pub is_some : Option Socketmessage → Bool
is_some none = false
is_some (some msg) = true

-- `readSocket(so)`, for at most k messages: one call of `receiveMessage` for each, and a last one that
-- has none. The splitter is the server's.
unfoldable pub read_loop :
    (Bytes → Split) → ℕ → ℕ → List RecvResult → ℕ → Worker → Option (Bool × Worker)
unfolding remove_socket replace lookup push_some is_some
read_loop splitter now zero rs s w = none
read_loop splitter now (suc k) rs s w = do
  so ← lookup s w.sockets
  (ok, msg, so', left) ← receive_loop splitter now rs so
  let w' = record w { sockets = replace s so' w.sockets }
  let heard = record w' { recv_queue = push_some msg w'.recv_queue }
  let rest = read_loop splitter now k left s heard
  if ok
      then (if is_some msg then rest else some (true, w'))
      else (do w'' ← remove_socket s w'; some (false, w''))

-- `acceptSocket`, with the descriptors that `accept` returns until it has no more.
unfoldable pub accept_loop : List ℕ → Worker → Option Worker
unfolding push
accept_loop [] w = some w
accept_loop (newfd ∷ fds) w = do
  assert (ltb newfd max_connection_fd)
  accept_loop fds (record w { recv_queue = push (allocate (some newfd) new_socket) w.recv_queue })

-- `readSocket(s)`, where a listening socket accepts connections.
unfoldable pub read_socket :
    (Bytes → Split) → ℕ → ℕ → List RecvResult → List ℕ → ℕ → Worker → Option (Bool × Worker)
unfolding socket_at read_loop accept_loop
read_socket splitter now k rs fds s w = do
  so ← socket_at w s
  elim so [
    | none ↦ some (false, w)
    | some so ↦
        if so.is_listening
        then (do w' ← accept_loop fds w; some (true, w'))
        else read_loop splitter now k rs s w
  ]

-- `errorSocket`.
unfoldable pub error_socket : ℕ → Worker → Option Worker
unfolding socket_at remove_socket
error_socket s w = do so ← socket_at w s; elim so [ none ↦ some w | some _ ↦ remove_socket s w ]

-- An event of the poll in src/socket/Poll.cpp: an error, or a socket with input, with room for output, or
-- with both. The input comes with the second at which it is read, a bound on the messages in it, what the
-- kernel does, and the connections that wait at a listening socket.
pub data Event : Type 0 where
  failing : ℕ → Event
  ready : ℕ → Option (ℕ × ℕ × List RecvResult × List ℕ) → Option (List SendResult) → Event

unfoldable pub read_ready :
    (Bytes → Split)
    → ℕ
    → Option (ℕ × ℕ × List RecvResult × List ℕ)
    → Worker
    → Option (Bool × Worker)
unfolding read_socket
read_ready splitter s none w = some (true, w)
read_ready splitter s (some (now, k, rs, fds)) w = read_socket splitter now k rs fds s w

-- The output is tried unless the input has failed.
unfoldable pub write_ready : Bool → ℕ → Option (List SendResult) → Worker → Option Worker
unfolding write_socket
write_ready false s output w = some w
write_ready true s none w = some w
write_ready true s (some rs) w = do (ok, w') ← write_socket rs s w; some w'

unfoldable pub occur : (Bytes → Split) → Event → Worker → Option Worker
unfolding error_socket read_ready write_ready
occur splitter (failing s) w = error_socket s w
occur splitter (ready s input output) w = do
  (rc, w') ← read_ready splitter s input w
  write_ready rc s output w'

unfoldable pub occur_all : (Bytes → Split) → List Event → Worker → Option Worker
unfolding occur
occur_all splitter [] w = some w
occur_all splitter (e ∷ es) w = do w' ← occur splitter e w; occur_all splitter es w'
