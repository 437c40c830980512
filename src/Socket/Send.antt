-- ===== src/Socket/Send.antt =====
-- Sending in src/socket/Socket.cpp: what the kernel takes is a prefix of what was pending, in order.
use libbundle.Prelude.{
  ℕ, ◌+◌, ◌≤◌, ◌<◌, ◌≡◌, ◌∙◌, refl, sym, ap, subst, true, false, some, List, [], ◌∷◌, ◌++◌, Bytes,
  ltb, if◌then◌else◌, take, drop, length, arith, All, append_assoc, length-append, length-take,
  length-drop, take-append-drop, drop_all, Bool-cases, inl, inr,
}
use Prim.Native.Nat.{min}
use mathlib.Core.Path.{ap₂}
use libbundle.ByteBuffer.{ByteBuffer, size_max, buffer_chunk_size, slice, rlength}
use libbundle.ByteBuffer.Invariant.{IsValid, contents}
use libbundle.ByteBuffer.Queue.{
  append_lem, capacity-append, length-contents, size_lem, rlength_drops,
}
use libbundle.Socketmessage.{Socketmessage, bytes}
use libbundle.Socket.{
  Socket, SendResult, accepts, again, buffer_round, keep_rest, message_round, list_round,
  send_round, idle,
}

abbrev pub queued : List Socketmessage → Bytes
queued [] = []
queued (m ∷ ms) = bytes m ++ queued ms

-- What still has to go to the kernel, in order.
abbrev pub pending : Socket → Bytes
pending s = contents s.wbuffer ++ queued s.sendlist

-- What the buffer may grow by.
abbrev pub room_for : List Socketmessage → ℕ
room_for [] = 0
room_for (m ∷ ms) = length (bytes m) + buffer_chunk_size + room_for ms

abbrev pub NonEmpty : Socketmessage → Type 0
NonEmpty m = 0 < length (bytes m)

pub record CanSend (s : Socket) : Type 0 where
  pub buffer : IsValid s.wbuffer
  pub messages : All NonEmpty s.sendlist
  pub room : s.wbuffer.capacity + buffer_chunk_size + room_for s.sendlist < size_max

-- What one round has done, for a round that goes on.
pub record Progress (s s' : Socket) (sent : Bytes) : Type 0 where
  pub ready : CanSend s'
  pub moved : pending s ≡ sent ++ pending s'
  pub some_sent : 0 < length sent

pub send_round_lem :
    (r : SendResult) (s : Socket)
    → IsValid s.wbuffer
    → send_round r s ≡ (
        if ltb 0 (length (contents s.wbuffer))
        then buffer_round r s (contents s.wbuffer)
        else list_round r s s.sendlist)
unfolding send_round slice
send_round_lem r s v = rw (size_lem s.wbuffer v, length-contents s.wbuffer v)

buffer_round_calls :
    (room n : ℕ) (s : Socket) (buffer : Bytes) (b : ByteBuffer)
    → n ≡ min room (length buffer)
    → 0 < n
    → rlength s.wbuffer n ≡ some b
    → buffer_round (accepts room) s buffer ≡ some (again (record s { wbuffer = b }) (take n buffer))
unfolding buffer_round
buffer_round_calls room n s buffer b e h k = rw (← e) (ground arith)

-- The kernel takes something from the buffer.
pub buffer_round-accepts :
    (room : ℕ) (s : Socket)
    → CanSend s
    → 0 < room
    → 0 < length (contents s.wbuffer)
    → (s' : Socket) × (sent : Bytes) × (buffer_round (accepts room) s (contents s.wbuffer)
        ≡ some (again s' sent))
      × Progress s s' sent
buffer_round-accepts room s c h k =
    let n = min room (length (contents s.wbuffer)) in
    let (b, e, v, d, cap) = rlength_drops s.wbuffer n c.buffer (omega arith) in
    let pieces = take-append-drop n (contents s.wbuffer) in
    (
      record s { wbuffer = b },
      take n (contents s.wbuffer),
      buffer_round_calls room n s (contents s.wbuffer) b refl (omega arith) e,
      record {
        ready = record { buffer = v; messages = c.messages; room = omega (arith, c.room) };
        moved =
            ap (λ q. q ++ queued s.sendlist)
              (sym pieces ∙ ap (◌++◌ (take n (contents s.wbuffer))) (sym d))
            ∙ append_assoc (take n (contents s.wbuffer)) (contents b) (queued s.sendlist);
        some_sent = omega (arith, length-take n (contents s.wbuffer));
      },
    )

message_round_calls :
    (room n : ℕ) (s : Socket) (buffer : Bytes) (b : ByteBuffer)
    → n ≡ min room (length buffer)
    → 0 < n
    → keep_rest s.wbuffer buffer n ≡ some b
    → message_round (accepts room) s buffer
      ≡ some (again (record s { wbuffer = b }) (take n buffer))
unfolding message_round
message_round_calls room n s buffer b e h k = rw (← e) (ground arith)

-- What is left of a message is put into the empty buffer.
keep_rest_lem :
    (b : ByteBuffer) (buffer : Bytes) (n : ℕ)
    → IsValid b
    → contents b ≡ []
    → b.capacity + buffer_chunk_size + length buffer < size_max
    → (b' : ByteBuffer) × (keep_rest b buffer n ≡ some b')
      × IsValid b'
      × (contents b' ≡ drop n buffer)
      × (b'.capacity ≤ b.capacity + length buffer + buffer_chunk_size)
unfolding keep_rest
keep_rest_lem b buffer n v e f = elim (Bool-cases (ltb n (length buffer))) [
  | inl some_left ↦
      let fits : length (drop n buffer) + buffer_chunk_size + b.capacity < size_max =
        omega (arith, length-drop n buffer) in
      let (b', a, v', c) = append_lem b (drop n buffer) v fits in
      (
        b',
        rw some_left a,
        v',
        c ∙ ap (λ q. q ++ drop n buffer) e,
        omega (arith, capacity-append b b' (drop n buffer) a fits, length-drop n buffer),
      )
  | inr all_sent ↦ (b, rw all_sent, v, e ∙ sym (drop_all n buffer (ground arith)), omega arith)
]

pub message_round-accepts :
    (room : ℕ) (s : Socket) (m : Socketmessage) (ms : List Socketmessage)
    → CanSend s
    → 0 < room
    → contents s.wbuffer ≡ []
    → s.sendlist ≡ m ∷ ms
    → (s' : Socket) × (sent : Bytes) × (message_round
          (accepts room)
          (record s { sendlist = ms })
          (bytes m)
        ≡ some (again s' sent))
      × Progress s s' sent
message_round-accepts room s m ms c h empty list =
    let n = min room (length (bytes m)) in
    let left : All NonEmpty (m ∷ ms) = subst (All NonEmpty) list c.messages in
    let bound : s.wbuffer.capacity
          + buffer_chunk_size
          + (length (bytes m) + buffer_chunk_size + room_for ms)
        < size_max =
      subst (λ l. s.wbuffer.capacity + buffer_chunk_size + room_for l < size_max) list c.room in
    let (b, e, v, d, cap) = keep_rest_lem s.wbuffer (bytes m) n c.buffer empty (omega arith) in
    (
      record s { sendlist = ms; wbuffer = b },
      take n (bytes m),
      message_round_calls room n (record s { sendlist = ms }) (bytes m) b refl (omega arith) e,
      record {
        ready = record { buffer = v; messages = left.1; room = omega arith };
        moved =
            ap₂ (λ p l. p ++ queued l) empty list
            ∙ ap (λ q. q ++ queued ms)
                (sym (take-append-drop n (bytes m)) ∙ ap (◌++◌ (take n (bytes m))) (sym d))
            ∙ append_assoc (take n (bytes m)) (contents b) (queued ms);
        some_sent = omega (arith, length-take n (bytes m));
      },
    )

pub list_round_cons :
    (r : SendResult) (s : Socket) (m : Socketmessage) (ms : List Socketmessage)
    → s.sendlist ≡ m ∷ ms
    → list_round r s s.sendlist ≡ message_round r (record s { sendlist = ms }) (bytes m)
unfolding list_round
list_round_cons r s m ms e = rw e

pub nil_of_length : (q : Bytes) → ltb 0 (length q) ≡ false → q ≡ []
nil_of_length [] h = refl
nil_of_length (x ∷ q) h = ground arith

-- A round in which the kernel has room, while something is pending, sends some of it.
pub send_round-Progress :
    (room : ℕ) (s : Socket)
    → CanSend s
    → 0 < room
    → 0 < length (pending s)
    → (s' : Socket) × (sent : Bytes) × (send_round (accepts room) s ≡ some (again s' sent))
      × Progress s s' sent
send_round-Progress room s c h k = elim (Bool-cases (ltb 0 (length (contents s.wbuffer)))) [
  | inl buffered ↦
      (let (s', sent, e, p) = buffer_round-accepts room s c h (ground arith) in
        (s', sent, send_round_lem (accepts room) s c.buffer ∙ rw buffered e, p))
  | inr empty ↦ from_list s.sendlist refl empty
]
  where
    from_list :
        (l : List Socketmessage)
        → s.sendlist ≡ l
        → ltb 0 (length (contents s.wbuffer)) ≡ false
        → (s' : Socket) × (sent : Bytes) × (send_round (accepts room) s ≡ some (again s' sent))
          × Progress s s' sent
    from_list [] e empty = absurd (
        omega (
          arith,
          ap (λ q. length q) (nil_of_length (contents s.wbuffer) empty),
          ap (λ l. length (queued l)) e,
          length-append (contents s.wbuffer) (queued s.sendlist),
        ))
    from_list (m ∷ ms) e empty =
        let (s', sent, calls, p) =
          message_round-accepts room s m ms c h (nil_of_length (contents s.wbuffer) empty) e in
        (
          s',
          sent,
          send_round_lem (accepts room) s c.buffer
              ∙ rw empty (list_round_cons (accepts room) s m ms e ∙ calls),
          p,
        )

-- With nothing pending the loop ends by itself.
pub idle_lem : (s : Socket) → CanSend s → length (pending s) ≡ 0 → idle s s.sendlist ≡ some true
idle_lem s c h = by_list s.sendlist refl
  where
    by_list : (l : List Socketmessage) → s.sendlist ≡ l → idle s l ≡ some true
    by_list [] e =
        unfold idle in
        rw (size_lem s.wbuffer c.buffer)
          (ground (arith, length-append (contents s.wbuffer) (queued s.sendlist)))
    by_list (m ∷ ms) e = absurd (
        omega (
          arith,
          (subst (All NonEmpty) e c.messages).0,
          ap (λ l. length (queued l)) e,
          length-append (contents s.wbuffer) (queued s.sendlist),
          length-append (bytes m) (queued ms),
        ))
