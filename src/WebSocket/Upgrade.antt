-- ===== src/WebSocket/Upgrade.antt =====
-- The request of a handshake as a whole, in src/socket/WebSocketServer.cpp.
use libbundle.Prelude.{
  ℕ, ◌≡◌, ◌≢◌, ◌∙◌, refl, sym, ap, none, some, List, [], ◌∷◌, ◌++◌, Bytes, All, All-append, arith,
  append_assoc,
}
use libbundle.Clib.{c_str}
use libbundle.WebSocket.Request.{
  add_header, headers_now, read_line, headers_loop, behind_line, checked_request,
  parse_handshake_request,
}
use libbundle.WebSocket.Lines.{
  IsInLine, IsInKey, IsField, field_line, field_lines, request_text, headers_of, behind_line-append,
  headers_loop-append, read_line-field_line,
}

c_str-append : (p s : Bytes) → All (λ c. c ≢ 0) p → c_str (p ++ s) ≡ p ++ c_str s
unfolding c_str
c_str-append [] s h = refl
c_str-append (x ∷ p) s (n, h) = ground (arith, c_str-append p s h)

line_not_zero : (p : Bytes) → All IsInLine p → All (λ c. c ≢ 0) p
line_not_zero [] h = tt
line_not_zero (x ∷ p) ((z, _), h) = (z, line_not_zero p h)

key-IsInLine : (p : Bytes) → All IsInKey p → All IsInLine p
key-IsInLine [] h = tt
key-IsInLine (x ∷ p) ((z, n, _), h) = ((z, n), key-IsInLine p h)

field-IsInLine : (k v : Bytes) → IsField (k, v) → All IsInLine (field_line k v)
field-IsInLine k v (hk, hv) =
    All-append IsInLine k (b':' ∷ b' ' ∷ v) (key-IsInLine k hk)
      ((λ e. ground arith, λ e. ground arith), ((λ e. ground arith, λ e. ground arith), hv))

return-IsInLine : All IsInLine (b'\r' ∷ [])
return-IsInLine = ((λ e. ground arith, λ e. ground arith), tt)

-- A line that has been read to its end.
headers_loop-newline :
    (s line : Bytes) (hs hs' : List (Bytes × Bytes))
    → read_line line hs ≡ headers_now hs'
    → headers_loop (b'\n' ∷ s) line hs ≡ headers_loop s [] hs'
unfolding headers_loop
headers_loop-newline s line hs hs' e = rw e refl

headers_loop_end :
    (beyond : Bytes) (hs : List (Bytes × Bytes))
    → headers_loop (b'\r' ∷ b'\n' ∷ beyond) [] hs ≡ some hs
unfolding headers_loop read_line libbundle.Tables.bytes_eq
headers_loop_end beyond hs = refl

headers_loop-field_lines :
    (fs : List (Bytes × Bytes)) (beyond : Bytes) (hs : List (Bytes × Bytes))
    → All IsField fs
    → headers_loop (field_lines fs ++ beyond) [] hs ≡ some (headers_of fs hs)
headers_loop-field_lines [] beyond hs h = headers_loop_end beyond hs
headers_loop-field_lines ((k, v) ∷ fs) beyond hs (hf, h) =
    let line = field_line k v ++ b'\r' ∷ [] in
    let rest = field_lines fs ++ beyond in
    let shape : field_lines ((k, v) ∷ fs) ++ beyond ≡ line ++ b'\n' ∷ rest =
      append_assoc (field_line k v) (b'\r' ∷ b'\n' ∷ field_lines fs) beyond
      ∙ sym (append_assoc (field_line k v) (b'\r' ∷ []) (b'\n' ∷ rest)) in
    ap (λ s. headers_loop s [] hs) shape
    ∙ headers_loop-append line (b'\n' ∷ rest) [] hs
        (All-append IsInLine (field_line k v) (b'\r' ∷ []) (field-IsInLine k v hf) return-IsInLine)
    ∙ headers_loop-newline rest line hs (add_header (some (k, v)) hs)
        (read_line-field_line k v hs hf.0)
    ∙ headers_loop-field_lines fs beyond (add_header (some (k, v)) hs) h

field_lines_not_zero :
    (fs : List (Bytes × Bytes)) → All IsField fs → All (λ c. c ≢ 0) (field_lines fs)
field_lines_not_zero [] h = (λ e. ground arith, (λ e. ground arith, tt))
field_lines_not_zero ((k, v) ∷ fs) (hf, h) =
    All-append (λ c. c ≢ 0) (field_line k v) (b'\r' ∷ b'\n' ∷ field_lines fs)
      (line_not_zero (field_line k v) (field-IsInLine k v hf))
      (λ e. ground arith, (λ e. ground arith, field_lines_not_zero fs h))

-- A request of a first line, fields with a key and a value, and an empty line, whatever stands in the memory
-- behind it: the headers are those of the fields, the last value of each key. With the five keys that are not
-- optional the function returns the length that it was given and the value of Sec-WebSocket-Key, and
-- without one of them 0. The lines have no zero byte and no line feed, and the keys no colon.
pub parse_handshake_request-request_text :
    (first : Bytes) (fs : List (Bytes × Bytes)) (beyond : Bytes) (len : ℕ)
    → All IsInLine first
    → All IsField fs
    → parse_handshake_request (request_text first fs ++ beyond) len
      ≡ some (checked_request len (headers_of fs []))
unfolding parse_handshake_request
parse_handshake_request-request_text first fs beyond len h k =
    let text : c_str (request_text first fs ++ beyond)
        ≡ first ++ b'\n' ∷ (field_lines fs ++ c_str beyond) =
      c_str-append (request_text first fs) beyond (
        All-append (λ c. c ≢ 0) first (b'\n' ∷ field_lines fs) (line_not_zero first h)
          (λ e. ground arith, field_lines_not_zero fs k))
      ∙ append_assoc first (b'\n' ∷ field_lines fs) (c_str beyond) in
    let headers =
      ap behind_line text ∙ behind_line-append first (field_lines fs ++ c_str beyond) h in
    ap (λ o. elim o [ none ↦ none | some hs ↦ some (checked_request len hs) ])
      (ap (λ s. headers_loop s [] []) headers ∙ headers_loop-field_lines fs (c_str beyond) [] k)
