-- ===== src/Worker/Stream.antt =====
-- What `readSocket` of src/socket/WorkerProcess.cpp reads of a stream of messages.
use libbundle.Prelude.{
  ℕ, suc, ◌≡◌, ◌∙◌, sym, ap, refl, subst, Bool, true, Option, none, some, List, [], ◌∷◌, ◌++◌,
  Bytes, take, drop, length, arith, append_assoc, append-nil, map, Holds,
}
use libbundle.ByteBuffer.Invariant.{contents}
use libbundle.Socketmessage.{Socketmessage, message, allocate_payload}
use libbundle.Socket.{Socket}
use libbundle.Socket.Receive.{Split, RecvResult, received, would_block, receive_loop}
use libbundle.Socket.Framing.{CanReceive, joined, receive_loop-Frames}
use libbundle.Socket.Identity.{KeepsReceived, receive_loop-fd}
use libbundle.Socket.Stream.{IsStream, cut, receive_loop-append, receive_loop-IsWaiting}
use libbundle.Worker.{Worker, lookup, replace, push}
use libbundle.Worker.Polling.{read_loop, push_some, is_some}

abbrev pub messages_of : ℕ → List Bytes → List Socketmessage
messages_of fd = map (allocate_payload (some fd) message)

lookup-replace :
    (s : ℕ) (so so' : Socket) (table : List (ℕ × Socket))
    → lookup s table ≡ some so
    → lookup s (replace s so' table) ≡ some so'
unfolding lookup replace
lookup-replace s so so' [] e = ground arith
lookup-replace s so so' ((k, old) ∷ table) e = ground (arith, lookup-replace s so so' table)

-- The worker behind a message of the socket s.
abbrev with_message : ℕ → Socket → Socketmessage → Worker → Worker
with_message s so' msg w = record w {
  sockets = replace s so' w.sockets;
  recv_queue = w.recv_queue ++ msg ∷ [];
}

module _ (splitter : Bytes → Split) (now s : ℕ) where
  read_loop_message :
      (k : ℕ) (rs left : List RecvResult) (w : Worker) (so so' : Socket) (msg : Socketmessage)
      → lookup s w.sockets ≡ some so
      → receive_loop splitter now rs so ≡ some (true, some msg, so', left)
      → read_loop splitter now (suc k) rs s w
        ≡ read_loop splitter now k left s (with_message s so' msg w)
  unfolding read_loop push_some is_some push
  read_loop_message k rs left w so so' msg l e = simp (l, e) refl

  read_loop_wait :
      (k : ℕ) (rs left : List RecvResult) (w : Worker) (so so' : Socket)
      → lookup s w.sockets ≡ some so
      → receive_loop splitter now rs so ≡ some (true, none, so', left)
      → read_loop splitter now (suc k) rs s w
        ≡ some (true, record w { sockets = replace s so' w.sockets })
  unfolding read_loop push_some is_some
  read_loop_wait k rs left w so so' l e = simp (l, e) refl

  same_fd :
      (rs left : List RecvResult) (so so' : Socket) (ok : Bool) (msg : Option Socketmessage)
      → receive_loop splitter now rs so ≡ some (ok, msg, so', left)
      → so'.fd ≡ so.fd
  same_fd rs left so so' ok msg e =
      (subst (Holds (KeepsReceived so.fd)) e (receive_loop-fd splitter now so.fd rs so refl)).0

-- If what a socket has buffered and what arrives for it, in whatever pieces, is a stream of messages with the
-- beginning of one more behind them, then `readSocket` ends once the socket would block, after one round for
-- each message and one more, and the connection stands: it has put exactly the messages, in their order, each
-- with the socket's descriptor, behind what the worker had received.
pub read_loop-IsStream :
    (splitter : Bytes → Split) (now s : ℕ) (ns : List ℕ) (stream : Bytes) (pieces : List Bytes)
    (so : Socket) (w : Worker)
    → lookup s w.sockets ≡ some so
    → CanReceive so pieces
    → contents so.rbuffer ++ joined pieces ≡ stream
    → IsStream splitter stream ns
    → (w' : Worker) × (read_loop splitter now
          (suc (length ns))
          (map received pieces ++ would_block ∷ [])
          s
          w
        ≡ some (true, w'))
      × (w'.recv_queue ≡ w.recv_queue ++ messages_of so.fd (cut stream ns))
read_loop-IsStream splitter now s [] stream pieces so w l c e h =
    let (so', k) = receive_loop-IsWaiting splitter now pieces so stream c e h in
    (
      record w { sockets = replace s so' w.sockets },
      read_loop_wait splitter now s 0 (map received pieces ++ would_block ∷ []) [] w so so' l k,
      sym (append-nil w.recv_queue),
    )
read_loop-IsStream splitter now s (n ∷ ns) stream pieces so w l c e (f, fits, h) =
    let (so', left, k, d, c') = receive_loop-Frames splitter now n stream pieces so f c e fits in
    let msg = allocate_payload (some so.fd) message (take n stream) in
    let later = would_block ∷ [] in
    let k' = receive_loop-append splitter now (map received pieces) later so _ k in
    let w1 = with_message s so' msg w in
    let (w', r, q) =
      read_loop-IsStream splitter now s ns (drop n stream) left so' w1
        (lookup-replace s so so' w.sockets l) c' d h in
    let fd =
      same_fd splitter now s (map received pieces) (map received left) so so' true (some msg) k in
    (
      w',
      read_loop_message splitter now s (suc (length ns)) (map received pieces ++ later)
            (map received left ++ later) w so so' msg l k'
          ∙ r,
      q
          ∙ ap (λ d. w1.recv_queue ++ messages_of d (cut (drop n stream) ns)) fd
          ∙ append_assoc w.recv_queue (msg ∷ []) (messages_of so.fd (cut (drop n stream) ns)),
    )
