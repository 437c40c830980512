-- ===== src/Socket/Delivery.antt =====
-- The whole of `sendMessage()` in src/socket/Socket.cpp: what arrives, and what gets lost.
use libbundle.Prelude.{
  ℕ, ◌≤◌, ◌<◌, ◌≡◌, ◌∙◌, refl, sym, ap, subst, Bool, true, some, List, [], ◌∷◌, ◌++◌, Bytes, ◌==◌,
  length, arith, All, append_assoc, append-nil, length-append, Bool-cases, inl, inr, map,
}
use libbundle.ByteBuffer.Invariant.{contents}
use libbundle.Socketmessage.{Socketmessage, bytes}
use libbundle.Socket.{
  Socket, SendResult, accepts, would_block, again, stop, message_round, list_round, send_round,
  idle, send_loop, flush,
}
use libbundle.Socket.Send.{
  queued, pending, CanSend, NonEmpty, send_round_lem, send_round-Progress, idle_lem,
  list_round_cons,
}

nil_of_zero : (q : Bytes) → length q ≡ 0 → q ≡ []
nil_of_zero [] h = refl
nil_of_zero (x ∷ q) h = absurd (omega arith)

-- A round of a socket with nothing to send ends the loop at once, whatever the kernel would do.
pub send_round_idle :
    (r : SendResult) (s : Socket)
    → CanSend s
    → length (pending s) ≡ 0
    → send_round r s ≡ some (stop true s)
send_round_idle r s c h = by_list s.sendlist refl
  where
    by_list : (l : List Socketmessage) → s.sendlist ≡ l → send_round r s ≡ some (stop true s)
    by_list [] e =
        send_round_lem r s c.buffer
        ∙ rw e (
            unfold list_round in
            (ground (arith, length-append (contents s.wbuffer) (queued s.sendlist))))
    by_list (m ∷ ms) e = absurd (
        omega (
          arith,
          (subst (All NonEmpty) e c.messages).0,
          ap (λ l. length (queued l)) e,
          length-append (contents s.wbuffer) (queued s.sendlist),
          length-append (bytes m) (queued ms),
        ))

pub send_loop_again :
    (r : SendResult) (rs : List SendResult) (s s' : Socket) (wire sent : Bytes)
    → send_round r s ≡ some (again s' sent)
    → send_loop (r ∷ rs) s wire ≡ send_loop rs s' (wire ++ sent)
unfolding send_loop
send_loop_again r rs s s' wire sent e = rw e

pub send_loop_halts :
    (r : SendResult) (rs : List SendResult) (s s' : Socket) (wire : Bytes) (ok : Bool)
    → send_round r s ≡ some (stop ok s')
    → send_loop (r ∷ rs) s wire ≡ some (ok, s', wire)
unfolding send_loop
send_loop_halts r rs s s' wire ok e = rw e

pub send_loop_end :
    (s : Socket) (wire : Bytes)
    → idle s s.sendlist ≡ some true
    → send_loop [] s wire ≡ some (true, s, wire)
unfolding send_loop
send_loop_end s wire e = rw e

pub wire_grows : (wire sent q q' : Bytes) → q ≡ sent ++ q' → (wire ++ sent) ++ q' ≡ wire ++ q
wire_grows wire sent q q' e = append_assoc wire sent q' ∙ ap (◌++◌ wire) (sym e)

wire_stays : (wire q : Bytes) → q ≡ [] → wire ≡ wire ++ q
wire_stays wire q e = sym (append-nil wire) ∙ ap (◌++◌ wire) (sym e)

abbrev pub Positive : ℕ → Type 0
Positive n = 0 < n

-- A round before a loop that delivers everything.
delivers_again :
    (r : SendResult) (rs : List SendResult) (s s1 s2 : Socket) (wire sent : Bytes)
    → send_round r s ≡ some (again s1 sent)
    → pending s ≡ sent ++ pending s1
    → send_loop rs s1 (wire ++ sent) ≡ some (true, s2, (wire ++ sent) ++ pending s1)
    → send_loop (r ∷ rs) s wire ≡ some (true, s2, wire ++ pending s)
delivers_again r rs s s1 s2 wire sent e moved h =
    send_loop_again r rs s s1 wire sent e
    ∙ h
    ∙ ap (λ q. some (true, s2, q)) (wire_grows wire sent (pending s) (pending s1) moved)

send_loop_delivers :
    (rooms : List ℕ) (s : Socket) (wire : Bytes)
    → CanSend s
    → All Positive rooms
    → length (pending s) ≤ length rooms
    → (s' : Socket) × (send_loop (map accepts rooms) s wire ≡ some (true, s', wire ++ pending s))
      × (pending s' ≡ [])
send_loop_delivers [] s wire c h k =
    let e = nil_of_zero (pending s) (omega arith) in
    (
      s,
      send_loop_end s wire (idle_lem s c (omega arith))
          ∙ ap (λ q. some (true, s, q)) (wire_stays wire (pending s) e),
      e,
    )
send_loop_delivers (room ∷ rooms) s wire c (h, hs) k = elim (Bool-cases (length (pending s) == 0)) [
  | inl nothing ↦
      (let e = nil_of_zero (pending s) (ground arith) in
        (
          s,
          send_loop_halts (accepts room) (map accepts rooms) s s wire true
                (send_round_idle (accepts room) s c (ground arith))
              ∙ ap (λ q. some (true, s, q)) (wire_stays wire (pending s) e),
          e,
        ))
  | inr more ↦
      (let (s1, sent, e, p) = send_round-Progress room s c h (ground arith) in
        let (s2, e2, done) = send_loop_delivers rooms s1 (wire ++ sent) p.ready hs (
          omega
            (arith, p.some_sent, ap (λ q. length q) p.moved, length-append sent (pending s1))) in
        (
          s2,
          delivers_again (accepts room) (map accepts rooms) s s1 s2 wire sent e p.moved e2,
          done,
        ))
]

-- If the kernel takes at least one byte at each call, for as many calls as there are bytes, then
-- `sendMessage()` returns true, the kernel has got all the pending bytes in their order, and nothing is
-- pending any more.
pub flush_delivers :
    (rooms : List ℕ) (s : Socket)
    → CanSend s
    → All Positive rooms
    → length (pending s) ≤ length rooms
    → (s' : Socket) × (flush (map accepts rooms) s ≡ some (true, s', pending s)) × (pending s' ≡ [])
unfolding flush
flush_delivers rooms s c h k = send_loop_delivers rooms s [] c h k

-- Where the write buffer is empty and the kernel has no room, the message at the head of the list has
-- been taken off, and it is not kept: `sendMessage()` reports success, with nothing sent.
pub flush_drops_blocked :
    (rs : List SendResult) (s : Socket) (m : Socketmessage) (ms : List Socketmessage)
    → CanSend s
    → contents s.wbuffer ≡ []
    → s.sendlist ≡ m ∷ ms
    → flush (would_block ∷ rs) s ≡ some (true, record s { sendlist = ms }, [])
unfolding flush
flush_drops_blocked rs s m ms c empty e =
    send_loop_halts would_block rs s (record s { sendlist = ms }) [] true
      (send_round_lem would_block s c.buffer
        ∙ rw empty (list_round_cons would_block s m ms e ∙ unfold message_round in refl))
