-- ===== src/Socket/Identity.antt =====
-- What sending and receiving in src/socket/Socket.cpp leave as it is: the descriptor, which is also the
-- one that stands in the messages received.
use libbundle.Prelude.{
  ℕ, ◌≡◌, ◌∙◌, refl, ap, Bool, true, false, Option, none, some, List, [], ◌∷◌, ◌++◌, Bytes, ltb,
  leb, ◌==◌, if◌then◌else◌, take, length, ◌>>=◌, Holds, Holds-bind, Holds-assert,
}
use Prim.Native.Nat.{min}
use libbundle.ByteBuffer.{size, slice, rlength, fill}
use libbundle.Socketmessage.{Socketmessage, bytes, message, allocate_payload, magic_value}
use libbundle.Socket.{
  Socket, SendResult, accepts, interrupted, would_block, failed, Round, again, stop, buffer_round,
  keep_rest, message_round, list_round, send_round, idle, send_loop, flush, is_socket, send_message,
}
use libbundle.Socket.Receive.{
  Split, incomplete, illegal, whole, RecvResult, unread, split_message, received_message, readlen,
  Input, more, wait, lost, recv_round, Step, returns, receives, after_split, split_step,
  receive_loop,
}

Holds-any {ℓ} : {A : Type ℓ} (o : Option A) → Holds (λ a. Unit) o
Holds-any none = tt
Holds-any (some a) = tt

-- The socket that a round goes on or ends with.
abbrev round_fd : Round → ℕ
round_fd (again s sent) = s.fd
round_fd (stop ok s) = s.fd

abbrev KeepsRound : ℕ → Round → Type 0
KeepsRound fd round = round_fd round ≡ fd

buffer_round-fd :
    (r : SendResult) (s : Socket) (q : Bytes) → Holds (KeepsRound s.fd) (buffer_round r s q)
unfolding buffer_round
buffer_round-fd (accepts room) s q = choose (min room (length q) == 0)
  where
    choose :
        (b : Bool)
        → Holds (KeepsRound s.fd) (
            if b then some (stop false s) else (do
              w ← rlength s.wbuffer (min room (length q))
              some (again (record s { wbuffer = w }) (take (min room (length q)) q))))
    choose true = refl
    choose false =
        Holds-bind (λ w. Unit) (KeepsRound s.fd) (rlength s.wbuffer (min room (length q))) _
          (Holds-any (rlength s.wbuffer (min room (length q)))) (λ w h. refl)
buffer_round-fd interrupted s q = refl
buffer_round-fd would_block s q = refl
buffer_round-fd failed s q = refl

message_round-fd :
    (r : SendResult) (s : Socket) (q : Bytes) → Holds (KeepsRound s.fd) (message_round r s q)
unfolding message_round
message_round-fd (accepts room) s q = choose (min room (length q) == 0)
  where
    choose :
        (b : Bool)
        → Holds (KeepsRound s.fd) (
            if b then some (stop false s) else (do
              w ← keep_rest s.wbuffer q (min room (length q))
              some (again (record s { wbuffer = w }) (take (min room (length q)) q))))
    choose true = refl
    choose false =
        Holds-bind (λ w. Unit) (KeepsRound s.fd) (keep_rest s.wbuffer q (min room (length q))) _
          (Holds-any (keep_rest s.wbuffer q (min room (length q)))) (λ w h. refl)
message_round-fd interrupted s q = refl
message_round-fd would_block s q = refl
message_round-fd failed s q = refl

list_round-fd :
    (r : SendResult) (s : Socket) (l : List Socketmessage)
    → Holds (KeepsRound s.fd) (list_round r s l)
unfolding list_round
list_round-fd r s [] = refl
list_round-fd r s (m ∷ ms) = message_round-fd r (record s { sendlist = ms }) (bytes m)

send_round-fd : (r : SendResult) (s : Socket) → Holds (KeepsRound s.fd) (send_round r s)
unfolding send_round
send_round-fd r s =
    Holds-bind (λ n. Unit) (KeepsRound s.fd) (size s.wbuffer) _ (Holds-any (size s.wbuffer))
      (λ n _. choose n (ltb 0 n))
  where
    choose :
        (n : ℕ) (b : Bool)
        → Holds (KeepsRound s.fd) (
            if b
            then buffer_round r s (slice s.wbuffer.buf s.wbuffer.rindex n)
            else list_round r s s.sendlist)
    choose n true = buffer_round-fd r s (slice s.wbuffer.buf s.wbuffer.rindex n)
    choose n false = list_round-fd r s s.sendlist

abbrev pub KeepsSocket : ℕ → Bool × Socket × Bytes → Type 0
KeepsSocket fd (ok, s, wire) = s.fd ≡ fd

send_loop-fd :
    (rs : List SendResult) (fd : ℕ) (s : Socket) (wire : Bytes)
    → s.fd ≡ fd
    → Holds (KeepsSocket fd) (send_loop rs s wire)
unfolding send_loop
send_loop-fd [] fd s wire h =
    Holds-bind (λ b. Unit) (KeepsSocket fd) (idle s s.sendlist) _ (Holds-any (idle s s.sendlist))
      (λ b _. choose b)
  where
    choose : (b : Bool) → Holds (KeepsSocket fd) (if b then some (true, s, wire) else none)
    choose true = h
    choose false = tt
send_loop-fd (r ∷ rs) fd s wire h =
    Holds-bind (KeepsRound s.fd) (KeepsSocket fd) (send_round r s) _ (send_round-fd r s)
      (λ round k. by_round round k (λ s' sent e. send_loop-fd rs fd s' (wire ++ sent) e))
  where
    by_round :
        (round : Round)
        → KeepsRound s.fd round
        → ((s' : Socket) (sent : Bytes)
            → s'.fd ≡ fd
            → Holds (KeepsSocket fd) (send_loop rs s' (wire ++ sent)))
        → Holds (KeepsSocket fd) (elim round [
          | again s' sent ↦ send_loop rs s' (wire ++ sent)
          | stop ok s' ↦ some (ok, s', wire)
        ])
    by_round (again s' sent) k later = later s' sent (k ∙ h)
    by_round (stop ok s') k later = k ∙ h

pub flush-fd : (rs : List SendResult) (s : Socket) → Holds (KeepsSocket s.fd) (flush rs s)
unfolding flush
flush-fd rs s = send_loop-fd rs s.fd s [] refl

pub send_message-fd :
    (rs : List SendResult) (s : Socket) (m : Socketmessage)
    → Holds (KeepsSocket s.fd) (send_message rs s m)
unfolding send_message
send_message-fd rs s m = Holds-assert (KeepsSocket s.fd) (m.magic == magic_value) _ (λ _.
    Holds-assert (KeepsSocket s.fd) (is_socket s.fd m.s) _ (λ _.
      Holds-assert (KeepsSocket s.fd) (ltb 0 m.payload_len) _
        (λ _. flush-fd rs (record s { sendlist = s.sendlist ++ m ∷ [] }))))

-- A message, if there is one, that the socket fd has received.
abbrev pub From : ℕ → Option Socketmessage → Type 0
From fd none = Unit
From fd (some m) = (m.opcode ≡ message) × (m.s ≡ some fd)

abbrev pub KeepsSplit : ℕ → Bool × Option Socketmessage × Socket → Type 0
KeepsSplit fd (legal, msg, s) = (s.fd ≡ fd) × From fd msg

split_message-fd :
    (splitter : Bytes → Split) (fd : ℕ) (s : Socket)
    → s.fd ≡ fd
    → Holds (KeepsSplit fd) (split_message splitter s)
unfolding split_message allocate_payload
split_message-fd splitter fd s h =
    Holds-bind (λ q. Unit) (KeepsSplit fd) (unread s.rbuffer) _ (Holds-any (unread s.rbuffer))
      (λ q _. by_split q (splitter q))
  where
    cut : (q : Bytes) (n : ℕ) → Bool → Option (Bool × Option Socketmessage × Socket)
    cut q n b =
        if b
        then (do
          w ← rlength s.rbuffer n
          some (
            true,
            some (allocate_payload (some s.fd) message (take n q)),
            record s { rbuffer = w },
          ))
        else some (false, none, s)

    cut-fd : (q : Bytes) (n : ℕ) (b : Bool) → Holds (KeepsSplit fd) (cut q n b)
    cut-fd q n true =
        Holds-bind (λ w. Unit) (KeepsSplit fd) (rlength s.rbuffer n) _
          (Holds-any (rlength s.rbuffer n)) (λ w _. (h, (refl, ap some h)))
    cut-fd q n false = (h, tt)

    by_split :
        (q : Bytes) (answer : Split)
        → Holds (KeepsSplit fd) (elim answer [
          | incomplete ↦ some (true, none, s)
          | illegal ↦ some (false, none, s)
          | whole n ↦ cut q n (leb n (length q))
        ])
    by_split q incomplete = (h, tt)
    by_split q illegal = (h, tt)
    by_split q (whole n) = cut-fd q n (leb n (length q))

abbrev KeepsStep : ℕ → Step → Type 0
KeepsStep fd (returns ok msg s) = (s.fd ≡ fd) × From fd msg
KeepsStep fd (receives s) = s.fd ≡ fd

after_split-fd :
    (now fd : ℕ) (legal : Bool) (msg : Option Socketmessage) (s : Socket)
    → (s.fd ≡ fd) × From fd msg
    → KeepsStep fd (after_split now legal msg s)
unfolding after_split received_message
after_split-fd now fd false msg s h = h
after_split-fd now fd true none s h = h.0
after_split-fd now fd true (some m) s h = h

split_step-fd :
    (splitter : Bytes → Split) (now fd : ℕ) (s : Socket)
    → s.fd ≡ fd
    → Holds (KeepsStep fd) (split_step splitter now s)
unfolding split_step
split_step-fd splitter now fd s h =
    Holds-bind (KeepsSplit fd) (KeepsStep fd) (split_message splitter s) _
      (split_message-fd splitter fd s h)
      (λ (legal, msg, s') k. after_split-fd now fd legal msg s' k)

abbrev KeepsInput : ℕ → Input → Type 0
KeepsInput fd (more s) = s.fd ≡ fd
KeepsInput fd wait = Unit
KeepsInput fd lost = Unit

recv_round-fd :
    (r : RecvResult) (fd : ℕ) (s : Socket) → s.fd ≡ fd → Holds (KeepsInput fd) (recv_round r s)
unfolding recv_round
recv_round-fd (RecvResult.received chunk) fd s h =
    Holds-bind (λ w. Unit) (KeepsInput fd) (fill s.rbuffer readlen chunk) _
      (Holds-any (fill s.rbuffer readlen chunk)) (λ w _. h)
recv_round-fd RecvResult.closed fd s h = tt
recv_round-fd RecvResult.interrupted fd s h = h
recv_round-fd RecvResult.would_block fd s h = tt
recv_round-fd RecvResult.failed fd s h = tt

abbrev pub KeepsReceived : ℕ → Bool × Option Socketmessage × Socket × List RecvResult → Type 0
KeepsReceived fd (ok, msg, s, left) = (s.fd ≡ fd) × From fd msg

-- The socket that `receiveMessage` leaves has the same descriptor, which the message carries.
pub receive_loop-fd :
    (splitter : Bytes → Split) (now fd : ℕ) (rs : List RecvResult) (s : Socket)
    → s.fd ≡ fd
    → Holds (KeepsReceived fd) (receive_loop splitter now rs s)
unfolding receive_loop
receive_loop-fd splitter now fd [] s h =
    Holds-bind (KeepsStep fd) (KeepsReceived fd) (split_step splitter now s) _
      (split_step-fd splitter now fd s h) by_step
  where
    by_step :
        (step : Step)
        → KeepsStep fd step
        → Holds
            (KeepsReceived fd)
            (elim step [ returns ok msg s' ↦ some (ok, msg, s', []) | receives s' ↦ none ])
    by_step (returns ok msg s') k = k
    by_step (receives s') k = tt
receive_loop-fd splitter now fd (r ∷ rs) s h =
    Holds-bind (KeepsStep fd) (KeepsReceived fd) (split_step splitter now s) _
      (split_step-fd splitter now fd s h)
      (λ step k. by_step step k (λ s'' e. receive_loop-fd splitter now fd rs s'' e))
  where
    Later : Type 0
    Later =
        (s'' : Socket) → s''.fd ≡ fd → Holds (KeepsReceived fd) (receive_loop splitter now rs s'')

    by_input :
        (s' : Socket) (input : Input)
        → s'.fd ≡ fd
        → KeepsInput fd input
        → Later
        → Holds (KeepsReceived fd) (elim input [
          | more s'' ↦ receive_loop splitter now rs s''
          | wait ↦ some (true, none, s', rs)
          | lost ↦ some (false, none, s', rs)
        ])
    by_input s' (more s'') k l later = later s'' l
    by_input s' wait k l later = (k, tt)
    by_input s' lost k l later = (k, tt)

    by_step :
        (step : Step)
        → KeepsStep fd step
        → Later
        → Holds (KeepsReceived fd) (elim step [
          | returns ok msg s' ↦ some (ok, msg, s', r ∷ rs)
          | receives s' ↦ (do
            input ← recv_round r s'
            elim input [
              | more s'' ↦ receive_loop splitter now rs s''
              | wait ↦ some (true, none, s', rs)
              | lost ↦ some (false, none, s', rs)
            ])
        ])
    by_step (returns ok msg s') k later = k
    by_step (receives s') k later =
        Holds-bind (KeepsInput fd) (KeepsReceived fd) (recv_round r s') _ (recv_round-fd r fd s' k)
          (λ input l. by_input s' input k l later)
