-- ===== src/WebSocket/Receiving.antt =====
-- `receiveMessage` of src/socket/WebSocketServer.cpp, over what its SocketServer has received. The digest is a
-- parameter; `beyond` is the memory behind the payload of the message.
use libbundle.Prelude.{
  ℕ, ◌%◌, ◌^◌, ◌<◌, ◌≡◌, ◌∙◌, refl, ap, Bool, true, false, ◌&&◌, Option, none, some, List, [], ◌∷◌,
  ◌++◌, Bytes, codes, ◌==◌, ltb, if◌then◌else◌, length, take, take_all, All, arith, ◌>>=◌, ◌>>◌,
  assert, lt→ltb, ==_iff,
}
use libbundle.Tables.{bytes_key, bytes_eq, value_at, contains_key, write_at, value_at-write_at}
use libbundle.Base64.{base64_encode}
use libbundle.Socketmessage.{
  Socketmessage, Opcode, message, establish, close, allocate_payload, bytes, magic_value,
}
use libbundle.WebSocket.{parse_package, Parsed, forward, pong, ignore, pong_package}
use libbundle.WebSocket.Handshake.{handshake_response}
use libbundle.WebSocket.Request.{
  is_get, Request, lacks_header, request, parse_handshake_request, has_all, required_keys,
  checked_request, or_empty, add_header,
}
use libbundle.WebSocket.Lines.{IsInLine, IsField, request_text, headers_of}
use libbundle.WebSocket.Upgrade.{parse_handshake_request-request_text}

-- What the caller gets, what is sent to the peer, and whether its socket is closed.
pub record Received : Type 0 where
  pub returned : Option Socketmessage
  pub sent : List Bytes
  pub closed : Bool

abbrev pub nothing : Received
nothing = record { returned = none; sent = []; closed = false }

-- Behind `parse_handshake_request`, whose result is an `int`.
unfoldable pub upgraded : (Bytes → Bytes) → Socketmessage → Request → Option Received
upgraded digest msg lacks_header = none
upgraded digest msg (request n key) = do
  assert (ltb 0 n && ltb n (2 ^ 31) && n == msg.payload_len)
  some (record { returned = some msg; sent = handshake_response digest key ∷ []; closed = false })

-- Behind `parsePackage`.
unfoldable pub unpacked : Socketmessage → Parsed → Received
unpacked msg Parsed.close = record { returned = none; sent = []; closed = true }
unpacked msg (forward p) = record {
  returned = some (allocate_payload msg.s message p);
  sent = [];
  closed = false;
}
unpacked msg pong = record { returned = none; sent = pong_package ∷ []; closed = false }
unpacked msg ignore = nothing

unfoldable pub receive_payload : (Bytes → Bytes) → Bytes → Socketmessage → Option Received
receive_payload digest beyond msg =
    if is_get (bytes msg)
    then (do
      r ← parse_handshake_request (bytes msg ++ beyond) msg.payload_len
      upgraded digest msg r)
    else some (unpacked msg (parse_package (bytes msg)))

unfoldable pub receive_opcode : (Bytes → Bytes) → Bytes → Socketmessage → Opcode → Option Received
receive_opcode digest beyond msg establish = some nothing
receive_opcode digest beyond msg close =
    some (record { returned = some msg; sent = []; closed = false })
receive_opcode digest beyond msg op = receive_payload digest beyond msg

unfoldable pub receive_message : (Bytes → Bytes) → Bytes → Option Socketmessage → Option Received
receive_message digest beyond none = some nothing
receive_message digest beyond (some msg) = do
  assert (msg.magic == magic_value)
  receive_opcode digest beyond msg msg.opcode

bytes-allocate_payload :
    (s : Option ℕ) (q : Bytes) → length q < 2 ^ 31 → bytes (allocate_payload s message q) ≡ q
unfolding allocate_payload
bytes-allocate_payload s q h =
    let n : length q % 2 ^ 32 ≡ length q = omega arith in
    ap (λ k. take k q) n ∙ take_all (length q) q (omega arith)

receive_allocated :
    (digest : Bytes → Bytes) (beyond : Bytes) (s : Option ℕ) (q : Bytes)
    → receive_message digest beyond (some (allocate_payload s message q))
      ≡ receive_payload digest beyond (allocate_payload s message q)
unfolding receive_message receive_opcode allocate_payload
receive_allocated digest beyond s q = refl

receive_get :
    (digest : Bytes → Bytes) (beyond : Bytes) (msg : Socketmessage) (r : Request)
    → is_get (bytes msg) ≡ true
    → parse_handshake_request (bytes msg ++ beyond) msg.payload_len ≡ some r
    → receive_payload digest beyond msg ≡ upgraded digest msg r
unfolding receive_payload
receive_get digest beyond msg r g e = rw g (ap (λ o. o >>= upgraded digest msg) e)

upgraded_key :
    (digest : Bytes → Bytes) (msg : Socketmessage) (key : Bytes)
    → 0 < msg.payload_len
    → msg.payload_len < 2 ^ 31
    → upgraded digest msg (request msg.payload_len key)
      ≡ some (record {
        returned = some msg;
        sent = handshake_response digest key ∷ [];
        closed = false;
      })
unfolding upgraded
upgraded_key digest msg key h k =
    simp
      (
        lt→ltb 0 msg.payload_len h,
        lt→ltb msg.payload_len (2 ^ 31) k,
        (==_iff msg.payload_len msg.payload_len).1 refl,
      )
      refl

payload_len-allocate_payload :
    (s : Option ℕ) (q : Bytes)
    → length q < 2 ^ 31
    → (allocate_payload s message q).payload_len ≡ length q
unfolding allocate_payload
payload_len-allocate_payload s q h = omega arith

checked_all :
    (n : ℕ) (headers : List (Bytes × Bytes))
    → has_all headers required_keys ≡ true
    → checked_request n headers
      ≡ request n (or_empty (value_at headers (codes "Sec-WebSocket-Key")))
unfolding checked_request
checked_all n headers e = rw e refl

-- The value of a name among the fields: that of the last one with the name.
abbrev pub last_value : Bytes → List (Bytes × Bytes) → Option Bytes → Option Bytes
last_value k [] last = last
last_value k ((j, v) ∷ fs) last =
    let this = last_value k fs (some v) in
    let rest = last_value k fs last in if bytes_eq j k then this else rest

value_at-headers_of :
    (k : Bytes) (fs hs : List (Bytes × Bytes))
    → value_at (headers_of fs hs) k ≡ last_value k fs (value_at hs k)
unfolding add_header
value_at-headers_of k [] hs = refl
value_at-headers_of k ((j, v) ∷ fs) hs =
    value_at-headers_of k fs (write_at hs j [] (λ old. v))
    ∙ ap (last_value k fs) (value_at-write_at hs j k [] (λ old. v))
    ∙ by_name (bytes_eq j k)
  where
    by_name :
        (b : Bool)
        → last_value k fs (if b then some v else value_at hs k)
          ≡ (if b then last_value k fs (some v) else last_value k fs (value_at hs k))
    by_name true = refl
    by_name false = refl

-- A name that is sent with some value.
abbrev pub IsSent : Bytes → List (Bytes × Bytes) → Type 0
IsSent k fs = (v : Bytes) × (last_value k fs none ≡ some v)

-- The names of RFC 6455 that a request has beside its key.
abbrev pub handshake_names : List Bytes
handshake_names =
    codes "Host" ∷ codes "Upgrade" ∷ codes "Connection" ∷ codes "Sec-WebSocket-Version" ∷ []

contains-headers_of :
    (k v : Bytes) (fs : List (Bytes × Bytes))
    → last_value k fs none ≡ some v
    → contains_key (headers_of fs []) k ≡ true
unfolding contains_key value_at
contains-headers_of k v fs e = rw (contains_key, value_at-headers_of k fs [], e) refl

has_all-IsSent :
    (fs : List (Bytes × Bytes)) (key : Bytes)
    → All (λ k. IsSent k fs) handshake_names
    → last_value (codes "Sec-WebSocket-Key") fs none ≡ some key
    → has_all (headers_of fs []) required_keys ≡ true
has_all-IsSent fs key ((h, eh), ((u, eu), ((c, ec), ((w, ew), _)))) e =
    rw
      (
        contains-headers_of (codes "Host") h fs eh,
        contains-headers_of (codes "Upgrade") u fs eu,
        contains-headers_of (codes "Connection") c fs ec,
        contains-headers_of (codes "Sec-WebSocket-Key") key fs e,
        contains-headers_of (codes "Sec-WebSocket-Version") w fs ew,
      )
      refl

key_of-IsSent :
    (fs : List (Bytes × Bytes)) (key : Bytes)
    → last_value (codes "Sec-WebSocket-Key") fs none ≡ some key
    → or_empty (value_at (headers_of fs []) (codes "Sec-WebSocket-Key")) ≡ key
unfolding value_at
key_of-IsSent fs key e = ap or_empty (value_at-headers_of (codes "Sec-WebSocket-Key") fs [] ∙ e)

-- The answer of RFC 6455 to a key.
abbrev pub handshake_answer : (Bytes → Bytes) → Bytes → Bytes
handshake_answer digest key =
    codes "HTTP/1.1 101 Switching Protocols\r\nConnection: upgrade\r\nSec-WebSocket-Accept: "
    ++ (base64_encode (digest (key ++ codes "258EAFA5-E914-47DA-95CA-C5AB0DC85B11"))
        ++ codes "\r\nUpgrade: websocket\r\n\r\n")

handshake_response-answer :
    (digest : Bytes → Bytes) (key : Bytes)
    → handshake_response digest key ≡ handshake_answer digest key
unfolding handshake_response
handshake_response-answer digest key = refl

receive_message_headers :
    (digest : Bytes → Bytes) (beyond more : Bytes) (fs : List (Bytes × Bytes)) (s : Option ℕ)
    → All IsInLine more
    → All IsField fs
    → has_all (headers_of fs []) required_keys ≡ true
    → length (request_text (b'G' ∷ b'E' ∷ b'T' ∷ more) fs) < 2 ^ 31
    → let msg = allocate_payload s message (request_text (b'G' ∷ b'E' ∷ b'T' ∷ more) fs) in
      receive_message digest beyond (some msg)
      ≡ some (record {
        returned = some msg;
        sent =
            handshake_response digest
              (or_empty (value_at (headers_of fs []) (codes "Sec-WebSocket-Key")))
            ∷ [];
        closed = false;
      })
receive_message_headers digest beyond more fs s h k all size =
    let first = b'G' ∷ b'E' ∷ b'T' ∷ more in
    let q = request_text first fs in
    let msg = allocate_payload s message q in
    let whole = bytes-allocate_payload s q size in
    let in_line : All IsInLine first = (
      (λ e. ground arith, λ e. ground arith),
      ((λ e. ground arith, λ e. ground arith), ((λ e. ground arith, λ e. ground arith), h)),
    ) in
    let len = payload_len-allocate_payload s q size in
    receive_allocated digest beyond s q
    ∙ receive_get digest beyond msg _ (ap is_get whole) (
        ap (λ b. parse_handshake_request (b ++ beyond) msg.payload_len) whole
        ∙ parse_handshake_request-request_text first fs beyond msg.payload_len in_line k
        ∙ ap some (checked_all msg.payload_len (headers_of fs []) all))
    ∙ upgraded_key digest msg _ (omega (arith, len)) (omega (arith, len))

-- A client's request for the web socket, with the five names that are not optional, is passed on to the caller, and what
-- is sent is the answer of RFC 6455, with the digest of the last value of its Sec-WebSocket-Key and of the key of the
-- protocol in base 64; the socket stays open. The request is shorter than 2 ^ 31 bytes, its lines have no zero byte and
-- no line feed, its names no colon.
pub receive_message_upgrade :
    (digest : Bytes → Bytes) (beyond more : Bytes) (fs : List (Bytes × Bytes)) (s : Option ℕ)
    (key : Bytes)
    → All IsInLine more
    → All IsField fs
    → All (λ k. IsSent k fs) handshake_names
    → last_value (codes "Sec-WebSocket-Key") fs none ≡ some key
    → length (request_text (b'G' ∷ b'E' ∷ b'T' ∷ more) fs) < 2 ^ 31
    → let msg = allocate_payload s message (request_text (b'G' ∷ b'E' ∷ b'T' ∷ more) fs) in
      receive_message digest beyond (some msg)
      ≡ some
          (record { returned = some msg; sent = handshake_answer digest key ∷ []; closed = false })
receive_message_upgrade digest beyond more fs s key h k names e size =
    let msg = allocate_payload s message (request_text (b'G' ∷ b'E' ∷ b'T' ∷ more) fs) in
    receive_message_headers digest beyond more fs s h k (has_all-IsSent fs key names e) size
    ∙ ap (λ q. some (record { returned = some msg; sent = q ∷ []; closed = false }))
        (ap (handshake_response digest) (key_of-IsSent fs key e)
          ∙ handshake_response-answer digest key)
