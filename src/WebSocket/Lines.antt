-- ===== src/WebSocket/Lines.antt =====
-- The lines of a handshake's request, as `parse_handshake_request` of src/socket/WebSocketServer.cpp reads them.
use libbundle.Prelude.{
  ℕ, ◌≡◌, ◌≢◌, ◌∙◌, refl, sym, ap, false, some, List, [], ◌∷◌, ◌++◌, Bytes, All, arith,
  append_assoc, append-nil,
}
use libbundle.Tables.{bytes_eq}
use libbundle.WebSocket.Request.{
  cut_colon, add_header, last_of, without_last, headers_now, read_line, headers_loop, behind_line,
}

-- Bytes inside of a line, and bytes inside of a key.
abbrev pub IsInLine : ℕ → Type 0
IsInLine c = (c ≢ 0) × (c ≢ b'\n')

abbrev pub IsInKey : ℕ → Type 0
IsInKey c = (c ≢ 0) × (c ≢ b'\n') × (c ≢ b':')

abbrev pub IsField : Bytes × Bytes → Type 0
IsField kv = All IsInKey kv.0 × All IsInLine kv.1

-- The lines of the fields and the empty line behind them, and the whole request.
abbrev pub field_line : Bytes → Bytes → Bytes
field_line k v = k ++ b':' ∷ b' ' ∷ v

abbrev pub field_lines : List (Bytes × Bytes) → Bytes
field_lines [] = b'\r' ∷ b'\n' ∷ []
field_lines ((k, v) ∷ fs) = field_line k v ++ b'\r' ∷ b'\n' ∷ field_lines fs

abbrev pub request_text : Bytes → List (Bytes × Bytes) → Bytes
request_text first fs = first ++ b'\n' ∷ field_lines fs

-- The headers that the fields make; the last value of a key stays.
abbrev pub headers_of : List (Bytes × Bytes) → List (Bytes × Bytes) → List (Bytes × Bytes)
headers_of [] hs = hs
headers_of (kv ∷ fs) hs = headers_of fs (add_header (some kv) hs)

pub behind_line-append : (p s : Bytes) → All IsInLine p → behind_line (p ++ b'\n' ∷ s) ≡ s
unfolding behind_line
behind_line-append [] s h = refl
behind_line-append (x ∷ p) s ((_, n), h) = ground (arith, behind_line-append p s h)

pub headers_loop-append :
    (p s line : Bytes) (hs : List (Bytes × Bytes))
    → All IsInLine p
    → headers_loop (p ++ s) line hs ≡ headers_loop s (line ++ p) hs
unfolding headers_loop
headers_loop-append [] s line hs h = ap (λ l. headers_loop s l hs) (sym (append-nil line))
headers_loop-append (x ∷ p) s line hs ((_, n), h) =
    ground (arith, headers_loop-append p s (line ++ x ∷ []) hs h, append_assoc line (x ∷ []) p)

last_of-append : (x c : ℕ) (s : Bytes) → last_of x (s ++ c ∷ []) ≡ c
last_of-append x c [] = refl
last_of-append x c (y ∷ s) = last_of-append y c s

without_last-append : (x c : ℕ) (s : Bytes) → without_last x (s ++ c ∷ []) ≡ x ∷ s
without_last-append x c [] = refl
without_last-append x c (y ∷ s) = ap (◌∷◌ x) (without_last-append y c s)

not_only : (x c : ℕ) (s : Bytes) → bytes_eq (x ∷ s ++ c ∷ []) (b'\r' ∷ []) ≡ false
unfolding bytes_eq
not_only x c [] = ground arith
not_only x c (y ∷ s) = ground arith

read_line-body :
    (x : ℕ) (s : Bytes) (hs : List (Bytes × Bytes))
    → read_line (x ∷ s ++ b'\r' ∷ []) hs ≡ headers_now (add_header (cut_colon (x ∷ s)) hs)
unfolding read_line
read_line-body x s hs =
    rw (not_only x b'\r' s, last_of-append x b'\r' s, without_last-append x b'\r' s) refl

cut_colon-field_line : (k v : Bytes) → All IsInKey k → cut_colon (field_line k v) ≡ some (k, v)
unfolding cut_colon
cut_colon-field_line [] v h = refl
cut_colon-field_line (x ∷ []) v ((_, _, n), h) = ground arith
cut_colon-field_line (x ∷ y ∷ k) v ((_, _, n), h) = ground (arith, cut_colon-field_line (y ∷ k) v h)

pub read_line-field_line :
    (k v : Bytes) (hs : List (Bytes × Bytes))
    → All IsInKey k
    → read_line (field_line k v ++ b'\r' ∷ []) hs ≡ headers_now (add_header (some (k, v)) hs)
read_line-field_line [] v hs h =
    read_line-body b':' (b' ' ∷ v) hs
    ∙ ap (λ o. headers_now (add_header o hs)) (cut_colon-field_line [] v h)
read_line-field_line (x ∷ k) v hs h =
    read_line-body x (field_line k v) hs
    ∙ ap (λ o. headers_now (add_header o hs)) (cut_colon-field_line (x ∷ k) v h)
