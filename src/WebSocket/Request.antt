-- ===== src/WebSocket/Request.antt =====
-- The request of a handshake in src/socket/WebSocketServer.cpp, `parse_handshake_request`. The stream is read from
-- a pointer, so it ends at the first zero byte of the memory and not after `len` bytes.
use libbundle.Prelude.{
  ℕ, Bool, true, false, ◌&&◌, not, Option, none, some, List, [], ◌∷◌, ◌++◌, Bytes, codes, ◌==◌,
  if◌then◌else◌, length,
}
use libbundle.Tables.{bytes_key, bytes_eq, value_at, contains_key, write_at}
use libbundle.Clib.{c_str}
use libbundle.Socket.Receive.{Split, incomplete}
use libbundle.Net.{split_of_u32}
use libbundle.WebSocket.{split_package}

-- `find(": ")`, with what stands before and behind it.
unfoldable pub cut_colon : Bytes → Option (Bytes × Bytes)
cut_colon [] = none
cut_colon (x ∷ []) = none
cut_colon (x ∷ y ∷ s) =
    let rest = cut_colon (y ∷ s) in
    if x == b':' && y == b' '
    then some ([], s)
    else elim rest [ none ↦ none | some kv ↦ some (x ∷ kv.0, kv.1) ]

-- `headers[key] = value`, where there is a key.
unfoldable pub add_header : Option (Bytes × Bytes) → List (Bytes × Bytes) → List (Bytes × Bytes)
add_header none headers = headers
add_header (some (k, v)) headers = write_at headers k [] (λ old. v)

-- The last character, and the line without it.
abbrev pub last_of : ℕ → Bytes → ℕ
last_of x [] = x
last_of x (y ∷ s) = last_of y s

abbrev pub without_last : ℕ → Bytes → Bytes
without_last x [] = []
without_last x (y ∷ s) = x ∷ without_last y s

-- What becomes of a line: an access outside of an empty one, the end, or the headers with what it adds.
pub data Line : Type 0 where
  outside stop_here : Line
  headers_now : List (Bytes × Bytes) → Line

unfoldable pub read_line : Bytes → List (Bytes × Bytes) → Line
read_line [] headers = outside
read_line (x ∷ s) headers =
    if bytes_eq (x ∷ s) (b'\r' ∷ [])
    then stop_here
    else if not (last_of x s == b'\r')
    then headers_now headers
    else headers_now (add_header (cut_colon (without_last x s)) headers)

-- The loop of `getline`: the bytes of the stream that are left, and the line so far. A line that the stream
-- ends in is read as well, unless it is empty. `none` is the access outside.
unfoldable pub headers_loop : Bytes → Bytes → List (Bytes × Bytes) → Option (List (Bytes × Bytes))
headers_loop [] [] headers = some headers
headers_loop [] (x ∷ line) headers = elim (read_line (x ∷ line) headers) [
  | outside ↦ none
  | stop_here ↦ some headers
  | headers_now hs ↦ some hs
]
headers_loop (x ∷ s) line headers =
    let longer = headers_loop s (line ++ x ∷ []) headers in
    if x == b'\n'
    then (elim (read_line line headers) [
      | outside ↦ none
      | stop_here ↦ some headers
      | headers_now hs ↦ headers_loop s [] hs
    ])
    else longer

-- Behind the first line, which is not looked at.
unfoldable pub behind_line : Bytes → Bytes
behind_line [] = []
behind_line (x ∷ s) = let rest = behind_line s in if x == b'\n' then s else rest

-- The keys that are not optional.
abbrev pub required_keys : List Bytes
required_keys =
    codes "Host"
    ∷ codes "Upgrade"
    ∷ codes "Connection"
    ∷ codes "Sec-WebSocket-Key"
    ∷ codes "Sec-WebSocket-Version"
    ∷ []

abbrev pub has_all : List (Bytes × Bytes) → List Bytes → Bool
has_all headers [] = true
has_all headers (k ∷ ks) = contains_key headers k && has_all headers ks

abbrev pub or_empty : Option Bytes → Bytes
or_empty none = []
or_empty (some v) = v

-- What the function returns, with `Sec_WebSocket_Key`: 0 where a header lacks, or `len`.
pub data Request : Type 0 where
  lacks_header : Request
  request : ℕ → Bytes → Request

unfoldable pub checked_request : ℕ → List (Bytes × Bytes) → Request
checked_request len headers =
    if has_all headers required_keys
    then request len (or_empty (value_at headers (codes "Sec-WebSocket-Key")))
    else lacks_header

-- `parse_handshake_request(buffer, len, key)`: `memory` is what stands at the pointer.
unfoldable pub parse_handshake_request : Bytes → ℕ → Option Request
parse_handshake_request memory len = elim (headers_loop (behind_line (c_str memory)) [] []) [
  | none ↦ none
  | some headers ↦ some (checked_request len headers)
]

-- The splitter of the server: q is what has arrived, and `beyond` is the memory behind it.
abbrev pub is_get : Bytes → Bool
is_get (x ∷ y ∷ z ∷ s) = x == b'G' && y == b'E' && z == b'T'
is_get q = false

unfoldable pub split_request : Bytes → Bytes → Option Split
split_request q beyond =
    if is_get q
    then (elim (parse_handshake_request (q ++ beyond) (length q)) [
      | none ↦ none
      | some lacks_header ↦ some incomplete
      | some (request n key) ↦ some (split_of_u32 n)
    ])
    else some (split_package q)
