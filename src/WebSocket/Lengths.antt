-- ===== src/WebSocket/Lengths.antt =====
-- The lengths that src/socket/WebSocketServer.cpp writes and reads in the order of the machine, where
-- RFC 6455 has the high byte first.
use libbundle.Prelude.{
  ℕ, ◌+◌, ◌*◌, ◌/◌, ◌%◌, ◌<◌, ◌≤◌, ◌≡◌, ◌∙◌, ap, refl, take, [], ◌∷◌, ◌++◌, Bytes, ltb,
  if◌then◌else◌, length, arith, length-append, take_all, Bool-cases, lt→ltb, inl, inr,
}
use libbundle.ByteBuffer.{to_le, of_le}
use libbundle.Socket.Receive.{incomplete, whole}
use libbundle.Net.{split_of_u32}
use libbundle.WebSocket.{
  write_header, ntohl, extent, fit, sized, extent_of, data_offset, split_package, payload_of,
  unmask, forward, dispatch, parse_package, message_package,
}
use libbundle.WebSocket.Mask.{masked}
use libbundle.WebSocket.Packages.{
  header, extent_of_short, extent_of_long, extent_of-header, fit_enough, split_package_extent,
  parse_package_extent,
}

-- Up to 125 bytes, a message that the server writes is one that its own reader takes whole, and gives
-- the same bytes back.
pub message_package_short :
    (body rest : Bytes)
    → length body < 126
    → (split_package (message_package body ++ rest) ≡ whole (2 + length body))
      × (parse_package (message_package body) ≡ forward body)
unfolding message_package write_header dispatch payload_of data_offset
message_package_short body rest h = elim (Bool-cases (ltb (length body) 126)) [
  | inl short ↦ rw short (
    split_package_extent _ (header 0x1 (length body) 0) 2 (length body)
        (extent_of_short 0x1 (length body) 0 (body ++ rest) (omega arith) h (omega arith)
          ∙ fit_enough _ (header 0x1 (length body) 0) 2 (length body)
              (omega (arith, length-append body rest)))
        (omega arith) (omega arith),
    parse_package_extent _ (header 0x1 (length body) 0) 2 (length body) (
          extent_of_short 0x1 (length body) 0 body (omega arith) h (omega arith)
          ∙ fit_enough _ (header 0x1 (length body) 0) 2 (length body) (omega arith))
        ∙ ap forward (take_all (length body) body (omega arith)),
  )
  | inr long ↦ absurd (ground arith)
]

split_package-fit :
    (q : Bytes) (opcode m len n : ℕ)
    → extent_of q ≡ fit len (header opcode m 0) 4 n
    → n < 65536
    → split_package q ≡ (if ltb len (4 + n) then incomplete else split_of_u32 (4 + n))
unfolding split_package fit data_offset
split_package-fit q opcode m len n e k = rw (e, split_package) (ground arith)

-- A number of 16 bits with its bytes exchanged.
abbrev pub swapped : ℕ → ℕ
swapped n = n % 256 * 256 + n / 256

-- Of a message of 126 to 65024 bytes the two bytes of the length are exchanged for a reader that follows
-- the RFC, such as the server's own: it waits for a payload of another length, or cuts the stream at
-- another place, unless the two bytes are equal.
pub message_package-swapped :
    (body rest : Bytes)
    → 126 ≤ length body
    → length body < 65025
    → split_package (message_package body ++ rest) ≡ (
        if ltb (length (body ++ rest)) (swapped (length body))
        then incomplete
        else split_of_u32 (4 + swapped (length body)))
unfolding message_package write_header to_le
message_package-swapped body rest h k = elim (Bool-cases (ltb (length body) 126)) [
  | inl short ↦ absurd (ground arith)
  | inr long ↦
      rw (long, lt→ltb (length body) 65025 k)
        (split_package-fit _ 0x1 126 (length (body ++ rest) + 4)
            (length body % 256 * 256 + length body / 256)
            (extent_of_long 0x1 0 (length body % 256) (length body / 256 % 256) (body ++ rest)
                (omega arith) (omega arith) (omega arith) (omega arith)
              ∙ ap (fit (length (body ++ rest) + 4) (header 0x1 126 0) 4) (omega arith))
            (omega arith)
          ∙ ground arith)
]

-- The package of a client with a payload of 65536 bytes or more: its length in eight bytes, the high one first, and the
-- masked payload.
abbrev pub long_package : ℕ → Bytes → Bytes → Bytes
long_package opcode key body =
    (128 + opcode)
    ∷ (127 + 128 * 1)
    ∷ 0
    ∷ 0
    ∷ 0
    ∷ 0
    ∷ (length body / 16777216 % 256)
    ∷ (length body / 65536 % 256)
    ∷ (length body / 256 % 256)
    ∷ (length body % 256)
    ∷ (key ++ masked key body)

sized_eight :
    (opcode b3 b2 b1 b0 : ℕ) (tail : Bytes)
    → 4 ≤ length tail
    → sized
        ((128 + opcode) ∷ (127 + 128 * 1) ∷ 0 ∷ 0 ∷ 0 ∷ 0 ∷ b3 ∷ b2 ∷ b1 ∷ b0 ∷ tail)
        (header opcode 127 1)
      ≡ extent (header opcode 127 1) 10 0
unfolding sized ntohl of_le fit
sized_eight opcode b3 b2 b1 b0 tail h = ground arith

extent_of-long_package :
    (opcode : ℕ) (key body rest : Bytes)
    → opcode < 16
    → length key ≡ 4
    → extent_of (long_package opcode key body ++ rest) ≡ extent (header opcode 127 1) 10 0
extent_of-long_package opcode key body rest h k =
    extent_of-header opcode 127 1 _ h (omega arith) (omega arith)
    ∙ sized_eight opcode _ _ _ _ ((key ++ masked key body) ++ rest) (
        omega
          (arith, length-append (key ++ masked key body) rest, length-append key (masked key body)))

payload_of-nothing : (q : Bytes) (opcode : ℕ) → payload_of q (header opcode 127 1) 10 0 ≡ []
unfolding payload_of unmask data_offset
payload_of-nothing q opcode = refl

-- The package that a client sends for a payload of 65536 bytes to 2 ^ 32 - 1 bytes, masked and with its length in eight
-- bytes, is cut behind its key, at 14 bytes, whatever follows: the whole payload stays in the stream and is read as the
-- next packages. And what is passed on of a text, of binary data or of a continuation is an empty payload.
pub eight_byte_length_lost :
    (opcode a b c d : ℕ) (body rest : Bytes)
    → opcode < 16
    → 65536 ≤ length body
    → length body < 0x100000000
    → let package_bytes = long_package opcode (a ∷ b ∷ c ∷ d ∷ []) body in
      (split_package (package_bytes ++ rest) ≡ whole 14)
      × (opcode < 3 → parse_package (take 14 package_bytes) ≡ forward [])
unfolding data_offset dispatch
eight_byte_length_lost opcode a b c d body rest h low high = (
  split_package_extent _ (header opcode 127 1) 10 0
      (extent_of-long_package opcode (a ∷ b ∷ c ∷ d ∷ []) body rest h refl) (omega arith)
      (omega arith),
  λ small.
      parse_package_extent _ (header opcode 127 1) 10 0 (
        extent_of-header opcode 127 1 _ h (omega arith) (omega arith)
        ∙ sized_eight opcode _ _ _ _ (a ∷ b ∷ c ∷ d ∷ []) (omega arith))
      ∙ ap (dispatch opcode) (payload_of-nothing _ opcode)
      ∙ ground arith,
)
