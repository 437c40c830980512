-- ===== src/WebSocket/Tests.antt =====
-- src/socket/WebSocketServer.cpp at concrete inputs.
use libbundle.Prelude.{
  List, All, false, some, codes, ℕ, ◌+◌, ◌≡◌, refl, if◌then◌else◌, ltb, [], ◌∷◌, ◌++◌, Bytes, ◌<◌,
  take, length, arith, replicate, length-replicate,
}
use libbundle.Base64.{base64_decode}
use libbundle.Tables.{bytes_key, bytes_eq, value_at, contains_key, write_at}
use libbundle.Clib.{c_str}
use libbundle.Socketmessage.{allocate_payload, message}
use libbundle.WebSocket.Request.{
  split_request, parse_handshake_request, headers_loop, behind_line, read_line, cut_colon,
  add_header, checked_request,
}
use libbundle.WebSocket.Lines.{IsField, request_text}
use libbundle.WebSocket.Receiving.{
  receive_message, receive_message_upgrade, IsSent, handshake_names, handshake_answer,
}
use libbundle.WebSocket.Handshake.{
  handshake_response, accept_head, accept_tail, magic_key, handshake_response-base64_decode,
}
use libbundle.Socket.Receive.{whole, incomplete}
use libbundle.Net.{split_of_u32}
use libbundle.WebSocket.{split_package, parse_package, message_package, forward}
use libbundle.WebSocket.Packages.{client_package, client_size, client_package_read, IsTaken}
use libbundle.WebSocket.Lengths.{
  swapped, message_package_short, message_package-swapped, eight_byte_length_lost, long_package,
}

abbrev key : Bytes
key = 1 ∷ 2 ∷ 3 ∷ 255 ∷ []

abbrev body : Bytes
body = 104 ∷ 105 ∷ 0 ∷ 33 ∷ 200 ∷ []

client_package_read_example :
    (split_package (client_package 1 key body ++ (129 ∷ [])) ≡ whole (client_size body))
    × IsTaken 1 body (parse_package (client_package 1 key body))
client_package_read_example =
    client_package_read 1 key body (129 ∷ []) (omega arith) refl (omega arith) (omega arith)
      (omega arith)

message_package_short_test :
    (split_package (message_package body ++ (129 ∷ [])) ≡ whole 7)
    × (parse_package (message_package body) ≡ forward body)
message_package_short_test = message_package_short body (129 ∷ []) (omega arith)

abbrev long_body : Bytes
long_body = replicate 200 7

long_body-length : length long_body ≡ 200
long_body-length = length-replicate {A = ℕ} 200 7

message_package-swapped_example : split_package (message_package long_body ++ []) ≡ (
    if ltb (length (long_body ++ [])) (swapped (length long_body))
    then incomplete
    else split_of_u32 (4 + swapped (length long_body)))
message_package-swapped_example =
    message_package-swapped long_body [] (omega (arith, long_body-length))
      (omega (arith, long_body-length))

abbrev huge_body : Bytes
huge_body = replicate 65536 7

huge_body-length : length huge_body ≡ 65536
huge_body-length = length-replicate {A = ℕ} 65536 7

eight_byte_length_lost_example :
    let package_bytes = long_package 2 (1 ∷ 2 ∷ 3 ∷ 4 ∷ []) huge_body in
    (split_package (package_bytes ++ (9 ∷ [])) ≡ whole 14)
    × (2 < 3 → parse_package (take 14 package_bytes) ≡ forward [])
eight_byte_length_lost_example =
    eight_byte_length_lost 2 1 2 3 4 huge_body (9 ∷ []) (omega arith)
      (omega (arith, huge_body-length)) (omega (arith, huge_body-length))

-- A digest of one byte.
abbrev one_byte : Bytes → Bytes
one_byte q = 200 ∷ []

accept_decoded :
    (accept : Bytes) × (handshake_response one_byte (codes "dGhlIHNhbXBsZSBub25jZQ==")
      ≡ accept_head ++ (accept ++ accept_tail))
    × (base64_decode accept ≡ one_byte (codes "dGhlIHNhbXBsZSBub25jZQ==" ++ magic_key))
accept_decoded =
    handshake_response-base64_decode one_byte (codes "dGhlIHNhbXBsZSBub25jZQ==") (omega arith)
      (omega arith)

-- A request as a browser sends it.
abbrev headers : List (Bytes × Bytes)
headers =
    (codes "Host", codes "localhost:9108")
    ∷ (codes "Upgrade", codes "websocket")
    ∷ (codes "Connection", codes "Upgrade")
    ∷ (codes "Sec-WebSocket-Key", codes "dGhlIHNhbXBsZSBub25jZQ==")
    ∷ (codes "Sec-WebSocket-Version", codes "13")
    ∷ []

abbrev get_chat : Bytes
get_chat = codes " /chat HTTP/1.1\r"

headers-IsField : All IsField headers
headers-IsField = ground arith

headers_complete : All (λ k. IsSent k headers) handshake_names
unfolding bytes_eq
headers_complete = (
  (codes "localhost:9108", refl),
  ((codes "websocket", refl), ((codes "Upgrade", refl), ((codes "13", refl), tt))),
)

receive_message_upgrade_example :
    let msg = allocate_payload (some 4) message (request_text (codes "GET" ++ get_chat) headers) in
    receive_message one_byte (0 ∷ []) (some msg)
    ≡ some (record {
      returned = some msg;
      sent = handshake_answer one_byte (codes "dGhlIHNhbXBsZSBub25jZQ==") ∷ [];
      closed = false;
    })
unfolding bytes_eq
receive_message_upgrade_example =
    receive_message_upgrade one_byte (0 ∷ []) get_chat headers (some 4)
      (codes "dGhlIHNhbXBsZSBub25jZQ==") (ground arith) headers-IsField headers_complete refl
      (omega arith)

-- The last lines have not arrived yet, and the request is taken for a whole one.
early_request :
    split_request
      (codes
        "GET / HTTP/1.1\r\nHost: a\r\nUpgrade: b\r\nConnection: c\r\nSec-WebSocket-Key: d\r\nSec-WebSocket-Version: 1\r\nOrig")
      (0 ∷ [])
    ≡ some (whole 104)
unfolding split_request parse_handshake_request headers_loop behind_line c_str read_line cut_colon
    add_header checked_request write_at contains_key value_at bytes_eq split_of_u32
early_request = refl
