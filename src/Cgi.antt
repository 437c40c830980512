-- ===== src/Cgi.antt =====
-- src/socket/CgiServer.cpp: a server of the FastCGI protocol. The packages as bytes, and the headers of a
-- request that PARAMS packages bring. `char` and `unsigned char` are numbers below 256.
pub mod Requests
pub mod Serving
pub mod Response
pub mod Params
pub mod Packages
pub mod Complete
pub mod Exchange
pub mod Answer
mod Tests
use libbundle.Prelude.{
  ℕ, zero, suc, ◌+◌, ◌-◌, ◌*◌, ◌/◌, ◌%◌, Bool, true, false, List, [], ◌∷◌, ◌++◌, Bytes, ltb, leb,
  ◌==◌, if◌then◌else◌, take, drop, length, get_or,
}
use libbundle.Tables.{write_at, bytes_key}
use libbundle.Clib.{c_str}

-- `fastcgi_header`: its functions on the eight bytes at the front.
abbrev pub sizeof_header : ℕ
sizeof_header = 8

abbrev pub type_of : Bytes → ℕ
type_of q = get_or q 1 0

abbrev pub requestid : Bytes → ℕ
requestid q = get_or q 2 0 * 256 + get_or q 3 0

abbrev pub content_length : Bytes → ℕ
content_length q = get_or q 4 0 * 256 + get_or q 5 0

abbrev pub padding_length : Bytes → ℕ
padding_length q = get_or q 6 0

abbrev pub package_length : Bytes → ℕ
package_length q = sizeof_header + content_length q + padding_length q

-- A header that the server writes: `requestid(value)`, `content_length(len)` and the other fields.
unfoldable pub written_header : ℕ → ℕ → ℕ → Bytes
written_header type id len =
    1
    ∷ type
    ∷ (id / 256 % 256)
    ∷ (id % 256)
    ∷ (len / 256 % 256)
    ∷ (len % 256)
    ∷ (if ltb 0 (len % 8) then 8 - len % 8 else 0)
    ∷ 0
    ∷ []

-- The function that the server gives to its SocketServer: the length of the first package, or zero.
unfoldable pub next_package : Bytes → ℕ
next_package q =
    if ltb (length q) sizeof_header
    then 0
    else if leb (package_length q) (length q)
    then package_length q
    else 0

-- What reading gives: a value, an overflow that the code reports, or an access outside of the message.
pub data Read (A : Type 0) : Type 0 where
  value : A → Read A
  overflow outside : Read A

infixl 5 ◌>>=◌
abbrev pub ◌>>=◌ : {A B : Type 0} → Read A → (A → Read B) → Read B
value a >>= f = f a
overflow >>= f = overflow
outside >>= f = outside

abbrev pub check : Bool → Read (Unit {0})
check true = value tt
check false = overflow

abbrev pub Headers : Type 0
Headers = List (Bytes × Bytes)

-- `addInputHeader(key.c_str(), value.c_str())`.
abbrev pub add_input_header : Bytes → Bytes → Headers → Headers
add_input_header k v m = write_at m (c_str k) [] (λ old. c_str v)

-- The rest of a length of four bytes, whose first is x. `pad` bytes at the end of the buffer are not content:
-- `i < realen` is `ltb pad` of what is left, `i <= realen` is `leb pad`.
unfoldable pub long_length : (ℕ → ℕ → Bool) → ℕ → ℕ → Bytes → Read (ℕ × Bytes)
long_length test pad x (a ∷ b ∷ c ∷ r) =
    check (test pad (length r)) >>= λ _. value (x % 128 * 16777216 + a * 65536 + b * 256 + c, r)
long_length test pad x other = outside

-- A length of one byte or of four.
unfoldable pub read_length : (ℕ → ℕ → Bool) → ℕ → Bytes → Read (ℕ × Bytes)
unfolding long_length
read_length test pad [] = outside
read_length test pad (x ∷ r) = check (ltb pad (length r)) >>= λ _.
    if x / 128 % 2 == 1 then long_length test pad x r else value (x, r)

-- `assign(&data[i], n)` and `i += n`.
unfoldable pub read_string : ℕ → Bytes → Read (Bytes × Bytes)
read_string n q = if leb n (length q) then value (take n q, drop n q) else outside

-- One round of the loop of `readParams`: a name, its value, and the bytes behind them.
unfoldable pub read_entry : ℕ → Bytes → Read ((Bytes × Bytes) × Bytes)
unfolding read_length read_string
read_entry pad q = do
  (key_len, q1) ← read_length ltb pad q
  (value_len, q2) ← read_length leb pad q1
  (k, q3) ← read_string key_len q2
  (v, q4) ← read_string value_len q3
  check (leb pad (length q4)) >>= λ _. value ((k, v), q4)

-- The loop of `readParams`, on fuel.
unfoldable pub params_loop : ℕ → ℕ → Bytes → Headers → Read Headers
unfolding read_entry
params_loop fuel pad [] m = value m
params_loop zero pad (x ∷ q) m = if ltb pad (length (x ∷ q)) then outside else value m
params_loop (suc fuel) pad (x ∷ q) m = elim (ltb pad (length (x ∷ q))) [
  | false ↦ value m
  | true ↦ (do
    ((k, v), rest) ← read_entry pad (x ∷ q)
    params_loop fuel pad rest (add_input_header k v m))
]

-- `readParams` of a package with content: each round takes a byte at least.
unfoldable pub read_params : ℕ → Bytes → Headers → Read Headers
unfolding params_loop
read_params pad q m = check (leb pad (length q)) >>= λ _. params_loop (length q) pad q m
