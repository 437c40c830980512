-- ===== src/Socket/Receive.antt =====
-- Receiving in src/socket/Socket.cpp: `splitMessage`, `receiveMessage` and the counters. The splitter is
-- the server's callback, a parameter; the results of `recv` and the clock are arguments.
use libbundle.Prelude.{
  ℕ, zero, suc, ◌+◌, ◌-◌, ◌%◌, ◌^◌, Bool, true, false, Option, none, some, List, [], ◌∷◌, Bytes,
  leb, if◌then◌else◌, take, length, get_or, set, ◌>>=◌,
}
use libbundle.ByteBuffer.{ByteBuffer, size, slice, fill, rlength, size_max}
use libbundle.Socketmessage.{Socketmessage, message, allocate_payload}
use libbundle.Socket.{Socket, count_message_span}

-- What the splitter answers about the unread bytes: 0, a negative number, or the length of the first
-- message.
pub data Split : Type 0 where
  incomplete illegal : Split
  whole : ℕ → Split

pub data RecvResult : Type 0 where
  received : Bytes → RecvResult
  closed interrupted would_block failed : RecvResult

unfoldable pub unread : ByteBuffer → Option Bytes
unread b = do n ← size b; some (slice b.buf b.rindex n)

-- `splitMessage`: whether the stream is legal, and a message if a whole one is there. The length is read
-- from an `int`, so it is not 0 here.
unfoldable pub split_message :
    (Bytes → Split) → Socket → Option (Bool × Option Socketmessage × Socket)
split_message splitter s = do
  q ← unread s.rbuffer
  elim (splitter q) [
    | incomplete ↦ some (true, none, s)
    | illegal ↦ some (false, none, s)
    | whole n ↦
        if leb n (length q)
        then (do
          b ← rlength s.rbuffer n
          some (
            true,
            some (allocate_payload (some s.fd) message (take n q)),
            record s { rbuffer = b },
          ))
        else some (false, none, s)
  ]

-- `receivedMessage`, at the second `now`.
unfoldable pub received_message : ℕ → Socket → Socket
received_message now s =
    let slot = now % count_message_span in
    record s {
      last_second = now;
      count_message = set s.count_message slot ((get_or s.count_message slot 0 + 1) % 2 ^ 32);
      total_message = (s.total_message + 1) % 2 ^ 32;
    }

-- `for (n = 0; n < seconds; ++n) total += _countMessage[(now - n) % 60]`, with k rounds left.
unfoldable pub sum_recent : ℕ → ℕ → List ℕ → ℕ → ℕ → ℕ
sum_recent zero n counts now total = total
sum_recent (suc k) n counts now total =
    sum_recent k (n + 1) counts now
      ((total + get_or counts ((now + size_max - n) % size_max % count_message_span) 0) % 2 ^ 32)

-- `recentMessage`.
unfoldable pub recent_message : ℕ → Socket → ℕ → ℕ
unfolding sum_recent
recent_message now s seconds = sum_recent seconds 0 s.count_message now 0

abbrev pub readlen : ℕ
readlen = 960

-- What one `recv` does to the loop: it goes on with more bytes or again, ends, or loses the connection.
pub data Input : Type 0 where
  more : Socket → Input
  wait lost : Input

unfoldable pub recv_round : RecvResult → Socket → Option Input
recv_round (received chunk) s = do
  b ← fill s.rbuffer readlen chunk
  some (more (record s { rbuffer = b }))
recv_round closed s = some lost
recv_round interrupted s = some (more s)
recv_round would_block s = some wait
recv_round failed s = some lost

-- What follows a call of `splitMessage`: the loop returns, or receives.
pub data Step : Type 0 where
  returns : Bool → Option Socketmessage → Socket → Step
  receives : Socket → Step

unfoldable pub after_split : ℕ → Bool → Option Socketmessage → Socket → Step
after_split now false msg s = returns false msg s
after_split now true (some msg) s = returns true (some msg) (received_message now s)
after_split now true none s = receives s

unfoldable pub split_step : (Bytes → Split) → ℕ → Socket → Option Step
split_step splitter now s = do
  (legal, msg, s') ← split_message splitter s
  some (after_split now legal msg s')

-- `receiveMessage`: whether the connection stands, the message, the socket, and the results of `recv`
-- that are left.
unfoldable pub receive_loop :
    (Bytes → Split)
    → ℕ
    → List RecvResult
    → Socket
    → Option (Bool × Option Socketmessage × Socket × List RecvResult)
receive_loop splitter now [] s = do
  step ← split_step splitter now s
  elim step [ returns ok msg s' ↦ some (ok, msg, s', []) | receives s' ↦ none ]
receive_loop splitter now (r ∷ rs) s = do
  step ← split_step splitter now s
  elim step [
    | returns ok msg s' ↦ some (ok, msg, s', r ∷ rs)
    | receives s' ↦ (do
      input ← recv_round r s'
      elim input [
        | more s'' ↦ receive_loop splitter now rs s''
        | wait ↦ some (true, none, s', rs)
        | lost ↦ some (false, none, s', rs)
      ])
  ]
