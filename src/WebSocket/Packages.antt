-- ===== src/WebSocket/Packages.antt =====
-- What src/socket/WebSocketServer.cpp makes of the packages that a client sends (RFC 6455, section 5.2),
-- and of those that it sends itself.
use libbundle.Prelude.{
  ℕ, ◌+◌, ◌*◌, ◌/◌, ◌%◌, ◌^◌, ◌<◌, ◌≤◌, ◌≡◌, ◌∙◌, ◌≢◌, subst, sym, ap, [], ◌∷◌, ◌++◌, Bytes, ltb,
  if◌then◌else◌, take, drop, length, All, IsByte, arith, length-append, take_all, drop_all,
  take-append_le, drop-append_le, append-nil, Bool-cases, inl, inr,
}
use libbundle.ByteBuffer.{of_le}
use libbundle.Socket.Receive.{whole}
use libbundle.Net.{split_of_u32}
use libbundle.WebSocket.{
  WsHeader, read_header, ntohs, extent, fit, sized, extent_of, data_offset, split_package, unmask,
  payload_of, dispatch, parse_package, Parsed, forward, pong, ignore, close,
}
use libbundle.WebSocket.Mask.{unmask-unmask, length-unmask, masked, unmask-masked}

-- The header of a single-frame package.
abbrev pub header : ℕ → ℕ → ℕ → WsHeader
header opcode n mask = record {
  opcode = opcode;
  rsv3 = 0;
  rsv2 = 0;
  rsv1 = 0;
  fin = 1;
  payload_len = n;
  mask = mask;
}

read_header_lem :
    (opcode n mask : ℕ)
    → opcode < 16
    → n < 128
    → mask < 2
    → read_header (128 + opcode) (n + 128 * mask) ≡ header opcode n mask
unfolding read_header
read_header_lem opcode n mask h k l = ground arith

pub extent_of-header :
    (opcode n mask : ℕ) (tail : Bytes)
    → opcode < 16
    → n < 128
    → mask < 2
    → extent_of ((128 + opcode) ∷ (n + 128 * mask) ∷ tail)
      ≡ sized ((128 + opcode) ∷ (n + 128 * mask) ∷ tail) (header opcode n mask)
unfolding extent_of
extent_of-header opcode n mask tail h k l = rw (read_header_lem opcode n mask h k l) (ground arith)

-- A length below 126 stands in the header.
pub extent_of_short :
    (opcode n mask : ℕ) (tail : Bytes)
    → opcode < 16
    → n < 126
    → mask < 2
    → extent_of ((128 + opcode) ∷ (n + 128 * mask) ∷ tail)
      ≡ fit (length tail + 2) (header opcode n mask) 2 n
extent_of_short opcode n mask tail h k l =
    extent_of-header opcode n mask tail h (omega arith) l ∙ unfold sized in ground arith

-- The length 126 stands for the next two bytes, the high one first.
pub extent_of_long :
    (opcode mask hi lo : ℕ) (tail : Bytes)
    → opcode < 16
    → mask < 2
    → hi < 256
    → lo < 256
    → extent_of ((128 + opcode) ∷ (126 + 128 * mask) ∷ hi ∷ lo ∷ tail)
      ≡ fit (length tail + 4) (header opcode 126 mask) 4 (hi * 256 + lo)
extent_of_long opcode mask hi lo tail h l b c =
    extent_of-header opcode 126 mask (hi ∷ lo ∷ tail) h (omega arith) l
    ∙ unfold sized ntohs of_le in ground arith

pub fit_enough :
    (len : ℕ) (h : WsHeader) (offset n : ℕ)
    → data_offset h offset + n ≤ len
    → fit len h offset n ≡ extent h offset n
unfolding fit data_offset
fit_enough len h offset n k = ground arith

pub split_package_extent :
    (q : Bytes) (h : WsHeader) (offset n : ℕ)
    → extent_of q ≡ extent h offset n
    → 0 < data_offset h offset + n
    → data_offset h offset + n < 2 ^ 31
    → split_package q ≡ whole (data_offset h offset + n)
unfolding split_package split_of_u32
split_package_extent q h offset n e k l = rw (e, split_package) (ground arith)

pub parse_package_extent :
    (q : Bytes) (h : WsHeader) (offset n : ℕ)
    → extent_of q ≡ extent h offset n
    → parse_package q ≡ dispatch h.opcode (payload_of q h offset n)
unfolding parse_package
parse_package_extent q h offset n e = rw (e, parse_package)

-- The length as RFC 6455 writes it, below 65536: in the header, or in two bytes, high byte first.
abbrev pub length_code : ℕ → ℕ
length_code n = if ltb n 126 then n else 126

abbrev pub length_bytes : ℕ → Bytes
length_bytes n = if ltb n 126 then [] else (n / 256) ∷ (n % 256) ∷ []

length_bytes_le : (n : ℕ) → length (length_bytes n) ≤ 2
length_bytes_le n = ground arith

-- A package of a client, masked with the loop of the code.
own_package : ℕ → Bytes → Bytes → Bytes
own_package opcode key body =
    (128 + opcode)
    ∷ (length_code (length body) + 128 * 1)
    ∷ (length_bytes (length body) ++ (key ++ unmask key 0 body))

-- How many bytes it has.
abbrev pub client_size : Bytes → ℕ
client_size body = 2 + length (length_bytes (length body)) + 4 + length body

extent_of-own_package :
    (opcode : ℕ) (key body rest : Bytes)
    → opcode < 16
    → length key ≡ 4
    → length body < 65536
    → extent_of (own_package opcode key body ++ rest)
      ≡ extent
          (header opcode (length_code (length body)) 1)
          (2 + length (length_bytes (length body)))
          (length body)
unfolding own_package data_offset
extent_of-own_package opcode key body rest h k l = elim (Bool-cases (ltb (length body) 126)) [
  | inl short ↦ rw short (
      extent_of_short opcode (length body) 1 ((key ++ unmask key 0 body) ++ rest) h (ground arith)
        (omega arith)
      ∙ fit_enough _ (header opcode (length body) 1) 2 (length body) (
          omega (
            arith,
            length-append (key ++ unmask key 0 body) rest,
            length-append key (unmask key 0 body),
            length-unmask key 0 body,
          )))
  | inr long ↦ rw long (
      extent_of_long opcode 1 (length body / 256) (length body % 256)
        ((key ++ unmask key 0 body) ++ rest) h (omega arith) (omega arith) (omega arith)
      ∙ ap (fit _ (header opcode 126 1) 4) (omega arith)
      ∙ fit_enough _ (header opcode 126 1) 4 (length body) (
          omega (
            arith,
            length-append (key ++ unmask key 0 body) rest,
            length-append key (unmask key 0 body),
            length-unmask key 0 body,
          )))
]

data_offset-client :
    (opcode : ℕ) (body : Bytes)
    → data_offset
          (header opcode (length_code (length body)) 1)
          (2 + length (length_bytes (length body)))
        + length body
      ≡ client_size body
unfolding data_offset
data_offset-client opcode body = omega arith

unmasked :
    (key body : Bytes)
    → length key ≡ 4
    → All IsByte key
    → All IsByte body
    → unmask
        (take 4 (key ++ unmask key 0 body))
        0
        (take (length body) (drop 4 (key ++ unmask key 0 body)))
      ≡ body
unmasked key body k hk hb =
    rw
      (
        take-append_le 4 key (unmask key 0 body) (omega arith),
        drop-append_le 4 key (unmask key 0 body) (omega arith),
        take_all 4 key (omega arith),
        drop_all 4 key (omega arith),
        take_all (length body) (unmask key 0 body) (omega (arith, length-unmask key 0 body)),
      )
      (unmask-unmask key 0 body hk hb)

-- The payload of a client's package, without the mask.
payload_of-own_package :
    (opcode : ℕ) (key body : Bytes)
    → length key ≡ 4
    → All IsByte key
    → All IsByte body
    → payload_of
        (own_package opcode key body)
        (header opcode (length_code (length body)) 1)
        (2 + length (length_bytes (length body)))
        (length body)
      ≡ body
unfolding payload_of data_offset own_package
payload_of-own_package opcode key body k hk hb = elim (Bool-cases (ltb (length body) 126)) [
  | inl short ↦ rw short (unmasked key body k hk hb)
  | inr long ↦ rw long (unmasked key body k hk hb)
]

-- The package of a client: one frame, with the payload masked as RFC 6455 has it.
abbrev pub client_package : ℕ → Bytes → Bytes → Bytes
client_package opcode key body =
    (128 + opcode)
    ∷ (length_code (length body) + 128 * 1)
    ∷ (length_bytes (length body) ++ (key ++ masked key body))

own-client :
    (opcode : ℕ) (key body : Bytes)
    → length key ≡ 4
    → own_package opcode key body ≡ client_package opcode key body
unfolding own_package
own-client opcode key body k =
    ap
      (λ p.
        (128 + opcode)
        ∷ (length_code (length body) + 128 * 1)
        ∷ (length_bytes (length body) ++ (key ++ p)))
      (unmask-masked key body k)

-- What the opcodes stand for: a continuation, a text or binary data is passed on, a ping is answered by a pong, a
-- pong is ignored, and at a close or at an opcode that is reserved the connection is closed.
abbrev pub IsTaken : ℕ → Bytes → Parsed → Type 0
IsTaken opcode body p =
    (opcode < 3 → p ≡ forward body)
    × (opcode ≡ 9 → p ≡ pong)
    × (opcode ≡ 10 → p ≡ ignore)
    × (3 ≤ opcode → opcode ≢ 9 → opcode ≢ 10 → p ≡ close)

dispatch-IsTaken : (opcode : ℕ) (body : Bytes) → IsTaken opcode body (dispatch opcode body)
unfolding dispatch
dispatch-IsTaken opcode body =
    (λ h. ground arith, λ h. ground arith, λ h. ground arith, λ h k l. ground arith)

own_package_read :
    (opcode : ℕ) (key body rest : Bytes)
    → opcode < 16
    → length key ≡ 4
    → All IsByte key
    → All IsByte body
    → length body < 65536
    → (split_package (own_package opcode key body ++ rest) ≡ whole (client_size body))
      × (parse_package (own_package opcode key body) ≡ dispatch opcode body)
own_package_read opcode key body rest h k hk hb l =
    let e = extent_of-own_package opcode key body rest h k l in
    let e' = extent_of-own_package opcode key body [] h k l in
    (
      split_package_extent (own_package opcode key body ++ rest) _ _ _ e
            (omega (arith, data_offset-client opcode body))
            (omega (arith, data_offset-client opcode body, length_bytes_le (length body)))
          ∙ ap whole (data_offset-client opcode body),
      parse_package_extent (own_package opcode key body) _ _ _
            (ap extent_of (sym (append-nil (own_package opcode key body))) ∙ e')
          ∙ ap (dispatch opcode) (payload_of-own_package opcode key body k hk hb),
    )

-- A client's package of less than 65536 bytes, masked with its key byte by byte in turn, is cut from the stream as a
-- whole, whatever follows it, and its unmasked payload is passed on where the opcode is that of a continuation, a text
-- or binary data; a ping is to be answered, a pong ignored, and at any other opcode the connection is closed.
pub client_package_read :
    (opcode : ℕ) (key body rest : Bytes)
    → opcode < 16
    → length key ≡ 4
    → All IsByte key
    → All IsByte body
    → length body < 65536
    → (split_package (client_package opcode key body ++ rest) ≡ whole (client_size body))
      × IsTaken opcode body (parse_package (client_package opcode key body))
client_package_read opcode key body rest h k hk hb l =
    let same = own-client opcode key body k in
    let (cut, parsed) = own_package_read opcode key body rest h k hk hb l in
    (
      ap (λ p. split_package (p ++ rest)) (sym same) ∙ cut,
      subst (IsTaken opcode body) (sym (ap parse_package (sym same) ∙ parsed))
          (dispatch-IsTaken opcode body),
    )
