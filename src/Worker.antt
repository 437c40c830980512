-- ===== src/Worker.antt =====
-- src/socket/WorkerProcess.h and WorkerProcess.cpp: one worker, with its table of sockets and its queues.
-- An assertion that fails is `none`. What the kernel does at each call of `Socket::sendMessage` is the
-- next entry of an argument, and the clock stands still during one call.
pub mod Events
pub mod Tracking
pub mod Handling
pub mod Posting
pub mod Polling
pub mod Stream
pub mod Reading
pub mod Polled
pub mod Unique
pub mod Expiry
mod Tests
use libbundle.Prelude.{
  Bytes, ℕ, zero, suc, ◌+◌, ◌-◌, ◌%◌, ◌^◌, Bool, true, false, ◌&&◌, ◌||◌, not, Option, none, some,
  List, [], ◌∷◌, ◌++◌, ltb, leb, ◌==◌, if◌then◌else◌, length, get_or, set, replicate, ◌>>=◌, ◌>>◌,
  assert,
}
use libbundle.ByteBuffer.{construct, size_max}
use libbundle.Socketmessage.{
  Socketmessage, Opcode, message, establish, close, new_socket, new_listening, sol, allocate,
  allocate_payload, bytes, magic_value,
}
use libbundle.Socket.{Socket, SendResult, count_message_span, flush, send_message}
use libbundle.Socket.Receive.{Split, RecvResult, recent_message, receive_loop}

abbrev pub max_connection_fd : ℕ
max_connection_fd = 65536

-- The indices of the options, and how many there are.
abbrev pub bundle_sol_maxsize : ℕ
bundle_sol_maxsize = 1

abbrev pub bundle_sol_silence_second : ℕ
bundle_sol_silence_second = 2

abbrev pub bundle_sol_threshold_message : ℕ
bundle_sol_threshold_message = 3

abbrev pub bundle_sol_threshold_interval : ℕ
bundle_sol_threshold_interval = 4

abbrev pub bundle_sol_max : ℕ
bundle_sol_max = 128

-- The table `_sockets` holds the entries that are not null; `fds` is `_maxfd` plus one; `polled` is what the poll
-- watches. `watches` says for which descriptors `Poll::addSocket` succeeds, whose result `newSocket` does not look at.
pub record Worker : Type 0 where
  pub sockets : List (ℕ × Socket)
  pub fds : ℕ
  pub send_queue : List Socketmessage
  pub recv_queue : List Socketmessage
  pub total_connections : ℕ
  pub opts : List ℕ
  pub polled : List ℕ
  pub watches : ℕ → Bool

unfoldable pub lookup : ℕ → List (ℕ × Socket) → Option Socket
lookup s [] = none
lookup s ((k, so) ∷ table) = let rest = lookup s table in if k == s then some so else rest

-- A change of the object that the table points to.
unfoldable pub replace : ℕ → Socket → List (ℕ × Socket) → List (ℕ × Socket)
replace s so [] = []
replace s so ((k, old) ∷ table) =
    let rest = replace s so table in if k == s then (k, so) ∷ table else (k, old) ∷ rest

unfoldable pub erase : ℕ → List (ℕ × Socket) → List (ℕ × Socket)
erase s [] = []
erase s ((k, so) ∷ table) = let rest = erase s table in if k == s then table else (k, so) ∷ rest

unfoldable pub remove : ℕ → List ℕ → List ℕ
remove s [] = []
remove s (k ∷ ks) = let rest = remove s ks in if k == s then ks else k ∷ rest

-- `GET_SOCKET`.
unfoldable pub socket_at : Worker → ℕ → Option (Option Socket)
unfolding lookup
socket_at w s = do assert (ltb s max_connection_fd); some (lookup s w.sockets)

-- `new Socket(newfd, this)` with `set_listening`.
unfoldable pub fresh : ℕ → ℕ → Bool → Socket
unfolding construct
fresh now s is_listening = record {
  fd = s;
  is_listening = is_listening;
  rbuffer = construct 65535;
  wbuffer = construct 65535;
  sendlist = [];
  last_second = now;
  count_message = replicate count_message_span 0;
  total_message = 0;
}

unfoldable pub is_full : Worker → Bool
is_full w =
    let maxsize = get_or w.opts bundle_sol_maxsize 0 in
    not (maxsize == 0) && leb maxsize w.total_connections

-- The table with one more socket, and the message that tells of it.
unfoldable pub established : ℕ → Bool → ℕ → Worker → Worker
unfolding fresh
established now is_listening s w = record w {
  sockets = (s, fresh now s is_listening) ∷ w.sockets;
  polled = if w.watches s then s ∷ w.polled else w.polled;
  fds = if ltb s w.fds then w.fds else s + 1;
  recv_queue = w.recv_queue ++ allocate (some s) establish ∷ [];
  total_connections = (w.total_connections + 1) % size_max;
}

-- `newSocket`: beyond the limit the descriptor is closed, and the worker stays as it is.
unfoldable pub add_socket : ℕ → Bool → ℕ → Worker → Option Worker
unfolding socket_at is_full established
add_socket now is_listening s w = do
  so ← socket_at w s
  elim so [
    | some _ ↦ none
    | none ↦ some (if is_full w then w else established now is_listening s w)
  ]

unfoldable pub closed : ℕ → Worker → Worker
unfolding erase remove
closed s w = record w {
  sockets = erase s w.sockets;
  polled = remove s w.polled;
  recv_queue = w.recv_queue ++ allocate (some s) close ∷ [];
  total_connections = w.total_connections - 1;
}

-- `removeSocket`.
unfoldable pub remove_socket : ℕ → Worker → Option Worker
unfolding socket_at closed
remove_socket s w = do
  so ← socket_at w s
  elim so [ none ↦ some w | some _ ↦ (do assert (ltb 0 w.total_connections); some (closed s w)) ]

-- `sendMessage(s, msg)`, with what the kernel does.
unfoldable pub send_to : List SendResult → ℕ → Socketmessage → Worker → Option Worker
unfolding socket_at remove_socket replace
send_to rs s msg w = do
  so ← socket_at w s
  elim so [
    | none ↦ some w
    | some so ↦ (do
      (ok, so', wire) ← send_message rs so msg
      let w' = record w { sockets = replace s so' w.sockets }
      if ok then some w' else remove_socket s w')
  ]

-- The loop of `multisendMessage`, with k descriptors left, from s on.
unfoldable pub multisend_loop :
    (ℕ → List SendResult) → Socketmessage → ℕ → ℕ → Worker → Option Worker
unfolding send_to
multisend_loop kernel msg zero s w = some w
multisend_loop kernel msg (suc k) s w = do
  w' ← send_to (kernel s) s (allocate_payload (some s) msg.opcode (bytes msg)) w
  multisend_loop kernel msg k (s + 1) w'

unfoldable pub multisend : (ℕ → List SendResult) → Socketmessage → Worker → Option Worker
unfolding multisend_loop
multisend kernel msg w = do assert (ltb 0 msg.payload_len); multisend_loop kernel msg w.fds 0 w

-- One message to the socket s, by its opcode.
unfoldable pub handle_opcode :
    ℕ → (ℕ → List SendResult) → Opcode → ℕ → Socketmessage → Worker → Option Worker
unfolding remove_socket send_to add_socket
handle_opcode now kernel close s msg w = remove_socket s w
handle_opcode now kernel message s msg w = send_to (kernel s) s msg w
handle_opcode now kernel new_socket s msg w = add_socket now false s w
handle_opcode now kernel new_listening s msg w = add_socket now true s w
handle_opcode now kernel sol s msg w = do
  assert (ltb s bundle_sol_max)
  some (record w { opts = set w.opts s msg.payload_len })
handle_opcode now kernel establish s msg w = none

unfoldable pub handle_one :
    ℕ → (ℕ → List SendResult) → Option ℕ → Socketmessage → Worker → Option Worker
unfolding multisend handle_opcode
handle_one now kernel none msg w = multisend kernel msg w
handle_one now kernel (some s) msg w = handle_opcode now kernel msg.opcode s msg w

-- The loop of `handleMessage`, over the messages in the queue; each has its own kernel.
unfoldable pub handle_loop :
    ℕ → List (ℕ → List SendResult) → List Socketmessage → Worker → Option Worker
unfolding handle_one
handle_loop now kernels [] w = some (record w { send_queue = [] })
handle_loop now [] (msg ∷ msgs) w = none
handle_loop now (kernel ∷ kernels) (msg ∷ msgs) w = do
  assert (msg.magic == magic_value)
  w' ← handle_one now kernel msg.s msg (record w { send_queue = msgs })
  handle_loop now kernels msgs w'

pub handle_message : ℕ → List (ℕ → List SendResult) → Worker → Option Worker
unfolding handle_loop
handle_message now kernels w = handle_loop now kernels w.send_queue w

-- Whether `checkSocket` removes a socket: silent for too long, or too many messages.
unfoldable pub is_expired : ℕ → List ℕ → Socket → Bool
unfolding recent_message
is_expired now opts so =
    let silence = get_or opts bundle_sol_silence_second 0 in
    let threshold = get_or opts bundle_sol_threshold_message 0 in
    let interval = get_or opts bundle_sol_threshold_interval 0 in
    if so.is_listening
    then false
    else if ltb 0 silence && leb silence ((now + size_max - so.last_second) % size_max)
    then true
    else if ltb 0 threshold && ltb 0 interval
    then ltb threshold (recent_message now so (interval % 2 ^ 32))
    else false

unfoldable pub check_one : ℕ → ℕ → Worker → Option Worker
unfolding socket_at is_expired remove_socket
check_one now s w = do
  so ← socket_at w s
  elim so [
    | none ↦ some w
    | some so ↦ if is_expired now w.opts so then remove_socket s w else some w
  ]

-- The loop of `checkSocket`, with k descriptors left, from s on.
unfoldable pub check_loop : ℕ → ℕ → ℕ → Worker → Option Worker
unfolding check_one
check_loop now zero s w = some w
check_loop now (suc k) s w = do w' ← check_one now s w; check_loop now k (s + 1) w'

pub check_socket : ℕ → Worker → Option Worker
unfolding check_loop
check_socket now w =
    if ltb 0 (get_or w.opts bundle_sol_silence_second 0)
      || ltb 0 (get_or w.opts bundle_sol_threshold_message 0)
    then check_loop now w.fds 0 w
    else some w

-- `pushMessage(msg)`: the signal that wakes the worker is not modelled.
unfoldable pub push : Socketmessage → List Socketmessage → List Socketmessage
push msg queue = queue ++ msg ∷ []
