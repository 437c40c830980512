-- ===== src/WebSocket/Handshake.antt =====
-- The answer to a handshake in src/socket/WebSocketServer.cpp. The digest, of twenty bytes in network
-- order, is a parameter: `SHA1` with `htonl` of its five words.
use libbundle.Prelude.{◌≡◌, ◌<◌, length, refl, [], ◌∷◌, ◌++◌, Bytes, codes, All, IsByte}
use libbundle.Base64.{base64_encode, base64_decode}
use libbundle.Base64.RoundTrip.{base64_decode-base64_encode}

-- `MAGIC_KEY`.
abbrev pub magic_key : Bytes
magic_key = codes "258EAFA5-E914-47DA-95CA-C5AB0DC85B11"

abbrev pub line_end : Bytes
line_end = 13 ∷ 10 ∷ []

-- The lines up to the value of `Sec-WebSocket-Accept`.
abbrev pub accept_head : Bytes
accept_head =
    codes "HTTP/1.1 101 Switching Protocols"
    ++ (line_end ++ (codes "Connection: upgrade" ++ (line_end ++ codes "Sec-WebSocket-Accept: ")))

abbrev pub accept_tail : Bytes
accept_tail = line_end ++ (codes "Upgrade: websocket" ++ (line_end ++ line_end))

-- What `send_handshake_response` sends.
unfoldable pub handshake_response : (Bytes → Bytes) → Bytes → Bytes
handshake_response digest key =
    accept_head ++ (base64_encode (digest (key ++ magic_key)) ++ accept_tail)

-- The answer to a handshake is the fixed lines around a value that decodes to the digest of the client's
-- key and the key of the protocol, for a digest that consists of bytes, of a length that an int
-- can count encoded.
pub handshake_response-base64_decode :
    (digest : Bytes → Bytes) (key : Bytes)
    → All IsByte (digest (key ++ magic_key))
    → length (digest (key ++ magic_key)) < 1610612734
    → (accept : Bytes) × (handshake_response digest key ≡ accept_head ++ (accept ++ accept_tail))
      × (base64_decode accept ≡ digest (key ++ magic_key))
unfolding handshake_response
handshake_response-base64_decode digest key h fits = (
  base64_encode (digest (key ++ magic_key)),
  refl,
  base64_decode-base64_encode (digest (key ++ magic_key)) h fits,
)
