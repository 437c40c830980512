-- ===== src/Socket.antt =====
-- src/socket/Socket.h and Socket.cpp: one connection. The kernel is an argument: the results of the
-- calls of `recv` and `send`, in order. `none` is a failed assertion, or a list of results that ends
-- before the loop does.
pub mod Send
pub mod Delivery
pub mod Conserve
pub mod Receive
pub mod Framing
pub mod Stream
pub mod Counters
pub mod Identity
mod Tests
use libbundle.Prelude.{
  ℕ, zero, suc, ◌+◌, ◌-◌, ◌*◌, ◌/◌, ◌%◌, ◌^◌, Bool, true, false, Option, none, some, List, [], ◌∷◌,
  ◌++◌, Bytes, ltb, leb, ◌==◌, if◌then◌else◌, take, drop, length, get_or, set, ◌>>=◌, ◌>>◌, assert,
  ◌&&◌,
}
use Prim.Native.Nat.{min}
use libbundle.ByteBuffer.{ByteBuffer, size, slice, append, fill, rlength}
use libbundle.Socketmessage.{Socketmessage, Opcode, allocate_payload, bytes, magic_value}

abbrev pub count_message_span : ℕ
count_message_span = 60

pub record Socket : Type 0 where
  pub fd : ℕ
  pub is_listening : Bool
  pub rbuffer : ByteBuffer
  pub wbuffer : ByteBuffer
  pub sendlist : List Socketmessage
  pub last_second : ℕ
  pub count_message : List ℕ
  pub total_message : ℕ

-- What a call of `send` does: the kernel has room for some bytes (and takes as many of them as are
-- offered), or the call fails with `EINTR`, `EAGAIN` or another error.
pub data SendResult : Type 0 where
  accepts : ℕ → SendResult
  interrupted would_block failed : SendResult

-- The end of one round of the loop in `sendMessage()`.
pub data Round : Type 0 where
  again : Socket → Bytes → Round
  stop : Bool → Socket → Round

-- The round in which `_wbuffer` holds `buffer`, which is not empty.
unfoldable pub buffer_round : SendResult → Socket → Bytes → Option Round
buffer_round (accepts room) s buffer =
    let sendsize = min room (length buffer) in
    if sendsize == 0 then some (stop false s) else do
      b ← rlength s.wbuffer sendsize
      some (again (record s { wbuffer = b }) (take sendsize buffer))
buffer_round interrupted s buffer = some (again s [])
buffer_round would_block s buffer = some (stop true s)
buffer_round failed s buffer = some (stop false s)

-- The rest of a message that was sent in part goes to `_wbuffer`.
unfoldable pub keep_rest : ByteBuffer → Bytes → ℕ → Option ByteBuffer
keep_rest b buffer sendsize =
    if ltb sendsize (length buffer) then append b (drop sendsize buffer) else some b

-- The round in which `_wbuffer` is empty and `msg` has been taken off the list, in the socket s.
unfoldable pub message_round : SendResult → Socket → Bytes → Option Round
message_round (accepts room) s buffer =
    let sendsize = min room (length buffer) in
    if sendsize == 0 then some (stop false s) else do
      b ← keep_rest s.wbuffer buffer sendsize
      some (again (record s { wbuffer = b }) (take sendsize buffer))
message_round interrupted s buffer = some (again s [])
message_round would_block s buffer = some (stop true s)
message_round failed s buffer = some (stop false s)

unfoldable pub list_round : SendResult → Socket → List Socketmessage → Option Round
list_round r s [] = some (stop true s)
list_round r s (msg ∷ rest) = message_round r (record s { sendlist = rest }) (bytes msg)

unfoldable pub send_round : SendResult → Socket → Option Round
send_round r s = do
  n ← size s.wbuffer
  if ltb 0 n
      then buffer_round r s (slice s.wbuffer.buf s.wbuffer.rindex n)
      else list_round r s s.sendlist

-- No result is asked for once `_wbuffer` and the list are empty.
unfoldable pub idle : Socket → List Socketmessage → Option Bool
idle s [] = do n ← size s.wbuffer; some (n == 0)
idle s (msg ∷ rest) = some false

unfoldable pub send_loop : List SendResult → Socket → Bytes → Option (Bool × Socket × Bytes)
send_loop [] s wire = do done ← idle s s.sendlist; if done then some (true, s, wire) else none
send_loop (r ∷ rs) s wire = do
  round ← send_round r s
  elim round [ again s' sent ↦ send_loop rs s' (wire ++ sent) | stop ok s' ↦ some (ok, s', wire) ]

-- `sendMessage()`: whether the connection stands, the socket, and what the kernel has taken.
unfoldable pub flush : List SendResult → Socket → Option (Bool × Socket × Bytes)
unfolding send_loop idle send_round buffer_round list_round message_round keep_rest slice size
    append rlength
flush rs s = send_loop rs s []

pub is_socket : ℕ → Option ℕ → Bool
is_socket fd none = false
is_socket fd (some s) = s == fd

-- `sendMessage(msg)`.
pub send_message : List SendResult → Socket → Socketmessage → Option (Bool × Socket × Bytes)
unfolding is_socket flush
send_message rs s msg = do
  assert (msg.magic == magic_value)
  assert (is_socket s.fd msg.s)
  assert (ltb 0 msg.payload_len)
  flush rs (record s { sendlist = s.sendlist ++ msg ∷ [] })
