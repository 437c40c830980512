-- ===== src/Socket/Framing.antt =====
-- The stream that src/socket/Socket.cpp receives is cut into the same messages, however the network has
-- cut it into pieces.
use libbundle.Prelude.{
  ℕ, ◌+◌, ◌*◌, ◌≤◌, ◌<◌, ◌≡◌, ◌∙◌, sym, ap, true, Option, some, List, [], ◌∷◌, ◌++◌, Bytes, leb,
  take, drop, length, arith, All, append_assoc, length-append, take-append_le, drop-append_le,
  Bool-cases, le→leb, inl, inr, map,
}
use libbundle.ByteBuffer.{ByteBuffer, size_max, buffer_chunk_size, slice, fill, rlength}
use libbundle.ByteBuffer.Invariant.{IsValid, contents}
use libbundle.ByteBuffer.Queue.{length-contents, size_lem, rlength_drops, fill_lem, capacity-fill}
use libbundle.Socketmessage.{Socketmessage, message, allocate_payload}
use libbundle.Socket.{Socket}
use libbundle.Socket.Receive.{
  Split, incomplete, whole, RecvResult, received, unread, split_message, received_message, readlen,
  recv_round, returns, receives, after_split, split_step, receive_loop,
}

abbrev pub joined : List Bytes → Bytes
joined [] = []
joined (c ∷ cs) = c ++ joined cs

-- The splitter finds a first message of n bytes in the stream: it waits at every shorter beginning, and
-- answers n at every other one.
pub record Frames (splitter : Bytes → Split) (stream : Bytes) (n : ℕ) : Type 0 where
  pub waits : (p q : Bytes) → stream ≡ p ++ q → length p < n → splitter p ≡ incomplete
  pub finds : (p q : Bytes) → stream ≡ p ++ q → n ≤ length p → splitter p ≡ whole n

abbrev pub Piece : Bytes → Type 0
Piece c = length c ≤ readlen

-- The buffer, and what the pieces that are left may add to it, stay below 2 ^ 64.
pub record CanReceive (s : Socket) (pieces : List Bytes) : Type 0 where
  pub buffer : IsValid s.rbuffer
  pub small : All Piece pieces
  pub room : s.rbuffer.capacity + (readlen + buffer_chunk_size) * (length pieces + 1) < size_max

unread_lem : (b : ByteBuffer) → IsValid b → unread b ≡ some (contents b)
unfolding unread slice
unread_lem b v = rw (size_lem b v, length-contents b v)

pub split_step_waits :
    (splitter : Bytes → Split) (now : ℕ) (s : Socket)
    → IsValid s.rbuffer
    → splitter (contents s.rbuffer) ≡ incomplete
    → split_step splitter now s ≡ some (receives s)
unfolding split_step split_message after_split
split_step_waits splitter now s v e = rw (unread_lem s.rbuffer v, e)

split_step_finds :
    (splitter : Bytes → Split) (now n : ℕ) (s : Socket) (b : ByteBuffer)
    → IsValid s.rbuffer
    → splitter (contents s.rbuffer) ≡ whole n
    → n ≤ length (contents s.rbuffer)
    → rlength s.rbuffer n ≡ some b
    → split_step splitter now s
      ≡ some (
          returns true
            (some (allocate_payload (some s.fd) message (take n (contents s.rbuffer))))
            (received_message now (record s { rbuffer = b })))
unfolding split_step split_message after_split
split_step_finds splitter now n s b v e h k =
    rw (unread_lem s.rbuffer v, e, le→leb n (length (contents s.rbuffer)) h, k)

receive_loop_returns :
    (splitter : Bytes → Split) (now : ℕ) (rs : List RecvResult) (s s' : Socket)
    (msg : Option Socketmessage)
    → split_step splitter now s ≡ some (returns true msg s')
    → receive_loop splitter now rs s ≡ some (true, msg, s', rs)
unfolding receive_loop
receive_loop_returns splitter now [] s s' msg e = rw e
receive_loop_returns splitter now (r ∷ rs) s s' msg e = rw e

pub receive_loop_again :
    (splitter : Bytes → Split) (now : ℕ) (rs : List RecvResult) (s : Socket) (c : Bytes)
    (b : ByteBuffer)
    → split_step splitter now s ≡ some (receives s)
    → fill s.rbuffer readlen c ≡ some b
    → receive_loop splitter now (received c ∷ rs) s
      ≡ receive_loop splitter now rs (record s { rbuffer = b })
unfolding receive_loop recv_round
receive_loop_again splitter now rs s c b e f = rw (e, f)

-- The stream, when the buffer holds at least the first message.
front_of :
    (q rest stream : Bytes) (n : ℕ)
    → q ++ rest ≡ stream
    → n ≤ length q
    → (take n q ≡ take n stream) × (drop n q ++ rest ≡ drop n stream)
front_of q rest stream n e h = (
  sym (take-append_le n q rest h) ∙ ap (take n) e,
  sym (drop-append_le n q rest h) ∙ ap (drop n) e,
)

module _ (splitter : Bytes → Split) (now n : ℕ) (stream : Bytes)
    (frames : Frames splitter stream n) where
  Received : Socket → List RecvResult → Type 0
  Received s rs =
      (s' : Socket) × (left : List Bytes) × (receive_loop splitter now rs s
        ≡ some (
          true,
          some (allocate_payload (some s.fd) message (take n stream)),
          s',
          map received left,
        ))
      × (contents s'.rbuffer ++ joined left ≡ drop n stream)
      × CanReceive s' left

  received_at_once :
      (pieces : List Bytes) (s : Socket)
      → CanReceive s pieces
      → contents s.rbuffer ++ joined pieces ≡ stream
      → n ≤ length (contents s.rbuffer)
      → Received s (map received pieces)
  unfolding Received received_message
  received_at_once pieces s c e h =
      let (b, k, v, d, cap) = rlength_drops s.rbuffer n c.buffer h in
      let front = front_of (contents s.rbuffer) (joined pieces) stream n e h in
      (
        received_message now (record s { rbuffer = b }),
        pieces,
        receive_loop_returns splitter now (map received pieces) s _ _ (
              split_step_finds splitter now n s b c.buffer
                (frames.finds (contents s.rbuffer) (joined pieces) (sym e) h) h k)
            ∙ ap
                (λ q. some (
                  true,
                  some (allocate_payload (some s.fd) message q),
                  received_message now (record s { rbuffer = b }),
                  map received pieces,
                ))
                front.0,
        ap (λ q. q ++ joined pieces) d ∙ front.1,
        record { buffer = v; small = c.small; room = omega (arith, c.room) },
      )

  received_later :
      (p : Bytes) (pieces : List Bytes) (s : Socket) (b : ByteBuffer)
      → split_step splitter now s ≡ some (receives s)
      → fill s.rbuffer readlen p ≡ some b
      → Received (record s { rbuffer = b }) (map received pieces)
      → Received s (map received (p ∷ pieces))
  unfolding Received
  received_later p pieces s b e f (s', left, k, d, c) =
      (s', left, receive_loop_again splitter now (map received pieces) s p b e f ∙ k, d, c)

  received_in_pieces :
      (pieces : List Bytes) (s : Socket)
      → CanReceive s pieces
      → contents s.rbuffer ++ joined pieces ≡ stream
      → n ≤ length stream
      → Received s (map received pieces)
  received_in_pieces [] s c e h =
      received_at_once [] s c e
        (omega (arith, ap (λ q. length q) e, length-append (contents s.rbuffer) []))
  received_in_pieces (p ∷ pieces) s c e h =
      elim (Bool-cases (leb n (length (contents s.rbuffer)))) [
        | inl there ↦ received_at_once (p ∷ pieces) s c e (ground arith)
        | inr short ↦
            (let fits : readlen + buffer_chunk_size + s.rbuffer.capacity < size_max =
                omega (arith, c.room) in
              let (b, f, v, d) = fill_lem s.rbuffer readlen p c.buffer fits c.small.0 in
              let c' : CanReceive (record s { rbuffer = b }) pieces = record {
                buffer = v;
                small = c.small.1;
                room = omega (arith, c.room, capacity-fill s.rbuffer b readlen p f fits);
              } in
              let e' : contents b ++ joined pieces ≡ stream =
                ap (λ q. q ++ joined pieces) d
                ∙ append_assoc (contents s.rbuffer) p (joined pieces)
                ∙ e in
              let waiting =
                split_step_waits splitter now s c.buffer (
                  frames.waits (contents s.rbuffer) (joined (p ∷ pieces)) (sym e) (ground arith)) in
              received_later p pieces s b waiting f
                (received_in_pieces pieces (record s { rbuffer = b }) c' e' h))
      ]

-- If the first message of the stream has n bytes, and the bytes that are buffered and those that arrive
-- make up the stream, then `receiveMessage` returns exactly the first n bytes as a message, in whatever
-- pieces they arrive, and what follows them is still in the buffer or on its way, in order.
pub receive_loop-Frames :
    (splitter : Bytes → Split) (now n : ℕ) (stream : Bytes) (pieces : List Bytes) (s : Socket)
    → Frames splitter stream n
    → CanReceive s pieces
    → contents s.rbuffer ++ joined pieces ≡ stream
    → n ≤ length stream
    → (s' : Socket) × (left : List Bytes) × (receive_loop splitter now (map received pieces) s
        ≡ some (
          true,
          some (allocate_payload (some s.fd) message (take n stream)),
          s',
          map received left,
        ))
      × (contents s'.rbuffer ++ joined left ≡ drop n stream)
      × CanReceive s' left
unfolding Received
receive_loop-Frames splitter now n stream pieces s frames c e h =
    received_in_pieces splitter now n stream frames pieces s c e h
