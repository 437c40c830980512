-- ===== src/Socket/Conserve.antt =====
-- What `sendMessage()` in src/socket/Socket.cpp keeps, whatever the kernel does.
use libbundle.Prelude.{
  zero, suc, ◌≤◌, ◌≡◌, ◌∙◌, ◌≢◌, refl, sym, ap, Bool, true, false, some, List, [], ◌∷◌, ◌++◌, Bytes,
  ltb, ◌==◌, length, arith, All, append_assoc, append-nil, length-append, Bool-cases, inl, inr,
}
use mathlib.Core.Path.{ap₂}
use libbundle.ByteBuffer.Invariant.{contents}
use libbundle.Socketmessage.{Socketmessage, bytes}
use libbundle.Socket.{
  Socket, SendResult, accepts, interrupted, would_block, failed, again, stop, buffer_round,
  message_round, send_round, send_loop, flush,
}
use libbundle.Socket.Send.{
  queued, pending, CanSend, Progress, send_round_lem, send_round-Progress, idle_lem,
  list_round_cons, nil_of_length,
}
use libbundle.Socket.Delivery.{send_round_idle, send_loop_again, send_loop_halts, send_loop_end}

-- What the two buffers and what is dropped add up to.
pub record Kept (s s' : Socket) (sent : Bytes) (dropped : List Socketmessage) : Type 0 where
  pub adds_up : pending s ≡ sent ++ (queued dropped ++ pending s')
  pub at_most_one : length dropped ≤ 1
  pub only_unbuffered : dropped ≢ [] → contents s'.wbuffer ≡ []

data Outcome (s : Socket) (r : SendResult) : Type 0 where
  goes_on :
      (s' : Socket) (sent : Bytes)
      → send_round r s ≡ some (again s' sent)
      → Progress s s' sent
      → Outcome s r
  stops :
      (ok : Bool) (s' : Socket) (dropped : List Socketmessage)
      → send_round r s ≡ some (stop ok s')
      → Kept s s' [] dropped
      → Outcome s r

-- A round that ends the loop with everything in place.
stays : (s : Socket) → Kept s s [] []
stays s = record {
  adds_up = refl;
  at_most_one = omega arith;
  only_unbuffered = λ h. absurd (h refl);
}

-- A round that ends the loop after the head of the list has been taken off.
drops :
    (s : Socket) (m : Socketmessage) (ms : List Socketmessage)
    → contents s.wbuffer ≡ []
    → s.sendlist ≡ m ∷ ms
    → Kept s (record s { sendlist = ms }) [] (m ∷ [])
drops s m ms empty e = record {
  adds_up =
      ap₂ (λ p l. p ++ queued l) empty e
      ∙ ap (λ q. q ++ queued ms) (sym (append-nil (bytes m)))
      ∙ ap (λ q. (bytes m ++ []) ++ (q ++ queued ms)) (sym empty);
  at_most_one = omega arith;
  only_unbuffered = λ h. empty;
}

-- The rounds that do not go on: no room at all, `EAGAIN`, or an error.
abbrev ok_of : SendResult → Bool
ok_of would_block = true
ok_of r = false

data Blocks : SendResult → Type 0 where
  no_room : Blocks (accepts zero)
  full : Blocks would_block
  broken : Blocks failed

buffer_round-Blocks :
    (r : SendResult) (s : Socket) (buffer : Bytes)
    → Blocks r
    → buffer_round r s buffer ≡ some (stop (ok_of r) s)
unfolding buffer_round
buffer_round-Blocks r s buffer no_room = ground arith
buffer_round-Blocks r s buffer full = refl
buffer_round-Blocks r s buffer broken = refl

message_round-Blocks :
    (r : SendResult) (s : Socket) (buffer : Bytes)
    → Blocks r
    → message_round r s buffer ≡ some (stop (ok_of r) s)
unfolding message_round
message_round-Blocks r s buffer no_room = ground arith
message_round-Blocks r s buffer full = refl
message_round-Blocks r s buffer broken = refl

blocked : (r : SendResult) (s : Socket) → CanSend s → Blocks r → Outcome s r
blocked r s c b = elim (Bool-cases (ltb 0 (length (contents s.wbuffer)))) [
  | inl buffered ↦
      stops (ok_of r) s []
        (send_round_lem r s c.buffer ∙ rw buffered (buffer_round-Blocks r s (contents s.wbuffer) b))
        (stays s)
  | inr empty ↦ by_list s.sendlist refl empty
]
  where
    by_list :
        (l : List Socketmessage)
        → s.sendlist ≡ l
        → ltb 0 (length (contents s.wbuffer)) ≡ false
        → Outcome s r
    by_list [] e empty =
        stops true s []
          (send_round_idle r s c (
            omega (
              arith,
              ap (λ q. length q) (nil_of_length (contents s.wbuffer) empty),
              ap (λ l. length (queued l)) e,
              length-append (contents s.wbuffer) (queued s.sendlist),
            )))
          (stays s)
    by_list (m ∷ ms) e empty =
        stops (ok_of r) (record s { sendlist = ms }) (m ∷ [])
          (send_round_lem r s c.buffer
            ∙ rw empty (
                list_round_cons r s m ms e
                ∙ message_round-Blocks r (record s { sendlist = ms }) (bytes m) b))
          (drops s m ms (nil_of_length (contents s.wbuffer) empty) e)

outcome : (r : SendResult) (s : Socket) → CanSend s → r ≢ interrupted → Outcome s r
outcome (accepts zero) s c h = blocked (accepts zero) s c no_room
outcome (accepts (suc room)) s c h = elim (Bool-cases (length (pending s) == 0)) [
  | inl nothing ↦
      stops true s [] (send_round_idle (accepts (suc room)) s c (ground arith)) (stays s)
  | inr more ↦
      (let (s', sent, e, p) = send_round-Progress (suc room) s c (omega arith) (ground arith) in
        goes_on s' sent e p)
]
outcome interrupted s c h = absurd (h refl)
outcome would_block s c h = blocked would_block s c full
outcome failed s c h = blocked failed s c broken

abbrev pub NotInterrupted : SendResult → Type 0
NotInterrupted r = r ≢ interrupted

-- One more round before a loop that keeps everything.
Kept-Progress :
    (s s1 s2 : Socket) (sent sent' : Bytes) (dropped : List Socketmessage)
    → pending s ≡ sent ++ pending s1
    → Kept s1 s2 sent' dropped
    → Kept s s2 (sent ++ sent') dropped
Kept-Progress s s1 s2 sent sent' dropped e k = record {
  adds_up =
      e ∙ ap (◌++◌ sent) k.adds_up ∙ sym (append_assoc sent sent' (queued dropped ++ pending s2));
  at_most_one = k.at_most_one;
  only_unbuffered = k.only_unbuffered;
}

send_loop_conserves :
    (rs : List SendResult) (s : Socket) (wire : Bytes)
    → CanSend s
    → All NotInterrupted rs
    → length (pending s) ≤ length rs
    → (ok : Bool) × (s' : Socket) × (sent : Bytes) × (dropped : List Socketmessage) × (send_loop rs
          s wire
        ≡ some (ok, s', wire ++ sent))
      × Kept s s' sent dropped
send_loop_conserves [] s wire c _ h = (
  true,
  s,
  [],
  [],
  send_loop_end s wire (idle_lem s c (omega arith))
      ∙ ap (λ q. some (true, s, q)) (sym (append-nil wire)),
  stays s,
)
send_loop_conserves (r ∷ rs) s wire c (n, ns) h = elim (outcome r s c n) [
  | goes_on s1 sent e p ↦
      (let (ok, s2, sent', dropped, e2, k) = send_loop_conserves rs s1 (wire ++ sent) p.ready ns (
          omega
            (arith, p.some_sent, ap (λ q. length q) p.moved, length-append sent (pending s1))) in
        (
          ok,
          s2,
          sent ++ sent',
          dropped,
          send_loop_again r rs s s1 wire sent e
              ∙ e2
              ∙ ap (λ q. some (ok, s2, q)) (append_assoc wire sent sent'),
          Kept-Progress s s1 s2 sent sent' dropped p.moved k,
        ))
  | stops ok s1 dropped e k ↦ (
    ok,
    s1,
    [],
    dropped,
    send_loop_halts r rs s s1 wire ok e ∙ ap (λ q. some (ok, s1, q)) (sym (append-nil wire)),
    k,
  )
]

-- Whatever room the kernel has at each call, and whether the loop ends by a full socket, by an error or
-- with nothing left: `sendMessage()` returns after at most as many calls as there are pending bytes, what
-- the kernel has taken is a prefix of what was pending, and what is pending afterwards is the rest in its
-- order, but for at most one whole message between the two, which is lost only where the write buffer is
-- empty. Interrupted calls are left out, as `TEMP_FAILURE_RETRY` repeats them.
pub flush_conserves :
    (rs : List SendResult) (s : Socket)
    → CanSend s
    → All NotInterrupted rs
    → length (pending s) ≤ length rs
    → (ok : Bool) × (s' : Socket) × (wire : Bytes) × (dropped : List Socketmessage) × (flush rs s
        ≡ some (ok, s', wire))
      × Kept s s' wire dropped
unfolding flush
flush_conserves rs s c n h = send_loop_conserves rs s [] c n h
