-- ===== src/WebSocket.antt =====
-- src/socket/WebSocketServer.cpp: the packages of a web socket, cut from the stream (the splitter
-- `parsePackage(buffer, len)`), taken apart (`parsePackage(s, msg, forward)`) and written
-- (`sendMessage`, `sendPing`, `sendPong`). The machine is little-endian.
pub mod Mask
pub mod Packages
pub mod Lengths
pub mod Handshake
pub mod Request
pub mod Lines
pub mod Upgrade
pub mod Receiving
mod Tests
use libbundle.Prelude.{
  ℕ, zero, suc, ◌+◌, ◌-◌, ◌*◌, ◌/◌, ◌%◌, ◌^◌, bit_xor, Bool, true, false, ◌&&◌, ◌||◌, not, [], ◌∷◌,
  ◌++◌, Bytes, ltb, leb, ◌==◌, if◌then◌else◌, take, drop, length, get_or,
}
use libbundle.ByteBuffer.{to_le, of_le}
use libbundle.Socket.Receive.{Split, incomplete, illegal, whole}
use libbundle.Net.{split_of_u32}

-- `WS_HEADER`: two bytes of bit fields, the low bits first.
pub record WsHeader : Type 0 where
  pub opcode : ℕ
  pub rsv3 : ℕ
  pub rsv2 : ℕ
  pub rsv1 : ℕ
  pub fin : ℕ
  pub payload_len : ℕ
  pub mask : ℕ

abbrev pub sizeof_ws_header : ℕ
sizeof_ws_header = 2

unfoldable pub read_header : ℕ → ℕ → WsHeader
read_header b0 b1 = record {
  opcode = b0 % 16;
  rsv3 = b0 / 16 % 2;
  rsv2 = b0 / 32 % 2;
  rsv1 = b0 / 64 % 2;
  fin = b0 / 128 % 2;
  payload_len = b1 % 128;
  mask = b1 / 128 % 2;
}

unfoldable pub write_header : WsHeader → Bytes
write_header h =
    (h.opcode + 16 * h.rsv3 + 32 * h.rsv2 + 64 * h.rsv1 + 128 * h.fin)
    ∷ (h.payload_len + 128 * h.mask)
    ∷ []

-- `ntohs`, and `ntohl`, whose argument has 32 bits.
unfoldable pub ntohs : ℕ → ℕ
ntohs v = v % 256 * 256 + v / 256 % 256

unfoldable pub ntohl : ℕ → ℕ
ntohl v = v % 256 * 2 ^ 24 + v / 256 % 256 * 2 ^ 16 + v / 2 ^ 16 % 256 * 256 + v / 2 ^ 24 % 256

-- What both functions find out before they use the payload: too few bytes, a header that they refuse,
-- or the header, the offset of the mask (if any), and the length of the payload.
pub data Extent : Type 0 where
  not_enough refused : Extent
  extent : WsHeader → ℕ → ℕ → Extent

-- Room for the mask and for the payload.
unfoldable pub fit : ℕ → WsHeader → ℕ → ℕ → Extent
fit len h offset payload_len =
    let after = if h.mask == 1 then offset + 4 else offset in
    if (h.mask == 1) && ltb len (offset + 4)
    then not_enough
    else if ltb len (after + payload_len)
    then not_enough
    else extent h offset payload_len

-- The length: in the header, in two bytes or in eight.
unfoldable pub sized : Bytes → WsHeader → Extent
sized q h =
    if h.payload_len == 126
    then (if ltb (length q) (sizeof_ws_header + 2)
        then not_enough
        else fit (length q) h (sizeof_ws_header + 2)
            (ntohs (of_le (take 2 (drop sizeof_ws_header q)))))
    else if h.payload_len == 127
    then (if ltb (length q) (sizeof_ws_header + 8)
        then not_enough
        else fit (length q) h (sizeof_ws_header + 8)
            (ntohl (of_le (take 8 (drop sizeof_ws_header q)))))
    else fit (length q) h sizeof_ws_header h.payload_len

unfoldable pub extent_of : Bytes → Extent
extent_of q =
    let h = read_header (get_or q 0 0) (get_or q 1 0) in
    if ltb (length q) sizeof_ws_header
    then not_enough
    else if not (h.rsv1 == 0) || not (h.rsv2 == 0) || not (h.rsv3 == 0) || not (h.fin == 1)
    then refused
    else sized q h

-- Where the payload starts.
unfoldable pub data_offset : WsHeader → ℕ → ℕ
data_offset h offset = if h.mask == 1 then offset + 4 else offset

-- The splitter; its result is an `int`.
unfoldable pub split_package : Bytes → Split
split_package q = elim (extent_of q) [
  | not_enough ↦ incomplete
  | refused ↦ illegal
  | extent h offset n ↦ split_of_u32 ((data_offset h offset + n) % 2 ^ 32)
]

-- `data[i] ^= mask[i % 4]`, from index i on.
unfoldable pub unmask : Bytes → ℕ → Bytes → Bytes
unmask mask i [] = []
unmask mask i (x ∷ xs) = bit_xor x (get_or mask (i % 4) 0) ∷ unmask mask (i + 1) xs

-- The bytes of the payload, unmasked if they are masked.
unfoldable pub payload_of : Bytes → WsHeader → ℕ → ℕ → Bytes
payload_of q h offset n =
    let raw = take n (drop (data_offset h offset) q) in
    if h.mask == 1 then unmask (take 4 (drop offset q)) 0 raw else raw

-- What becomes of a package: the connection is closed, the payload is passed on, or the package is
-- dropped, with or without an answer.
pub data Parsed : Type 0 where
  close : Parsed
  forward : Bytes → Parsed
  pong ignore : Parsed

unfoldable pub dispatch : ℕ → Bytes → Parsed
dispatch opcode payload =
    if opcode == 0x2 || opcode == 0x1 || opcode == 0x0
    then forward payload
    else if opcode == 0x8
    then close
    else if opcode == 0x9
    then pong
    else if opcode == 0xa
    then ignore
    else close

unfoldable pub parse_package : Bytes → Parsed
parse_package q = elim (extent_of q) [
  | not_enough ↦ close
  | refused ↦ close
  | extent h offset n ↦ dispatch h.opcode (payload_of q h offset n)
]

abbrev pub plain_header : ℕ → ℕ → WsHeader
plain_header opcode payload_len = record {
  opcode = opcode;
  rsv3 = 0;
  rsv2 = 0;
  rsv1 = 0;
  fin = 1;
  payload_len = payload_len;
  mask = 0;
}

-- `sendMessage`: the length is stored through a pointer to `u16` or `u64`.
unfoldable pub message_package : Bytes → Bytes
unfolding write_header to_le
message_package body =
    if ltb (length body) 126
    then write_header (plain_header 0x1 (length body)) ++ body
    else if ltb (length body) 65025
    then write_header (plain_header 0x1 126) ++ (to_le 2 (length body) ++ body)
    else write_header (plain_header 0x1 127) ++ (to_le 8 (length body) ++ body)

-- What `sendPing` and `sendPong` send.
unfoldable pub ping_package : Bytes
ping_package = write_header (plain_header 0x9 0)

unfoldable pub pong_package : Bytes
pong_package = write_header (plain_header 0xa 0)
