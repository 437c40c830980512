-- ===== src/Cgi/Requests.antt =====
-- `CgiRequestInternal` of src/socket/CgiServer.cpp: a request, and what the end of its input makes of its headers.
-- `std::unordered_map` is a list of pairs, in the order of its iteration.
use libbundle.Prelude.{
  ℕ, ◌+◌, ◌*◌, ◌/◌, ◌%◌, Bool, true, false, Option, none, some, List, [], ◌∷◌, ◌++◌, Bytes, codes,
  ltb, ◌==◌, if◌then◌else◌, bit_and, bit_xor,
}
use libbundle.Tables.{value_at, emplace, nat_key, bytes_key}
use libbundle.Clib.{c_str}
use libbundle.Tools.Split.{split_string}
use libbundle.Cgi.{Headers, add_input_header}

pub data HttpCommand : Type 0 where
  get_command post_command : HttpCommand

-- The members of a request; `role` is the number that was cast.
pub record CgiRequest : Type 0 where
  pub id : ℕ
  pub fd : ℕ
  pub keepalive : Bool
  pub recv_params_done : Bool
  pub recv_stdin_done : Bool
  pub url : Bytes
  pub cmd : HttpCommand
  pub role : ℕ
  pub input_headers : Headers
  pub input_variables : Headers
  pub cookies : Headers
  pub output_headers : Headers
  pub output_content : Bytes

-- `addHeader`, which keeps a value that is there.
unfoldable pub add_header : Bytes → Bytes → CgiRequest → CgiRequest
unfolding emplace
add_header name text r = record r { output_headers = (emplace r.output_headers name text).1 }

-- `addString(data, len)`, which writes the C string.
unfoldable pub add_string : Bytes → CgiRequest → CgiRequest
add_string s r = record r { output_content = r.output_content ++ c_str s }

-- The constructor, and `fd(s)`.
unfoldable pub new_request : ℕ → ℕ → CgiRequest
unfolding add_header
new_request id s = add_header (codes "Content-type") (codes "text/html") (record {
  id = id;
  fd = s;
  keepalive = false;
  recv_params_done = false;
  recv_stdin_done = false;
  url = [];
  cmd = get_command;
  role = 1;
  input_headers = [];
  input_variables = [];
  cookies = [];
  output_headers = [];
  output_content = [];
})

-- `hashString`, whose `char` is signed: one round, and the loop.
abbrev fold_high : ℕ → ℕ
fold_high h =
    let g = bit_and h 0xf0000000 in if g == 0 then h else bit_xor (bit_xor h (g / 0x1000000)) g

unfoldable pub hash_loop : Bytes → ℕ → ℕ
hash_loop [] h = h
hash_loop (x ∷ s) h =
    hash_loop s (fold_high ((h * 16 + (if ltb x 128 then x else 0xffffff00 + x)) % 0x100000000))

unfoldable pub hash_string : Bytes → ℕ
unfolding hash_loop
hash_string s = hash_loop s 0

-- The two pieces of a field, where there are two.
abbrev pub pair_of : List Bytes → Option (Bytes × Bytes)
pair_of (k ∷ v ∷ []) = some (k, v)
pair_of other = none

-- The pieces of a cookie, whose value may be missing.
abbrev pub cookie_of : List Bytes → Option (Bytes × Bytes)
cookie_of (k ∷ []) = some (k, [])
cookie_of other = pair_of other

-- The loops over the fields of `HTTP_COOKIE` and of `QUERY_STRING`: whether all of them were legal, and the
-- map behind them.
unfoldable pub fields_loop :
    (List Bytes → Option (Bytes × Bytes)) → List Bytes → Headers → Bool × Headers
fields_loop legal [] m = (true, m)
fields_loop legal (s ∷ fields) m = elim (legal (split_string b'=' (c_str s))) [
  | none ↦ (false, m)
  | some (k, v) ↦ fields_loop legal fields (add_input_header k v m)
]

-- A step of `receiveStdinDone`; the next ones are left out behind an early return.
abbrev pub go_on : Bool × CgiRequest → (CgiRequest → Bool × CgiRequest) → Bool × CgiRequest
go_on (true, r) f = f r
go_on (false, r) f = (false, r)

-- `inputHeader(name)`, with an early return where there is none.
abbrev pub with_header : Bytes → CgiRequest → (Bytes → Bool × CgiRequest) → Bool × CgiRequest
with_header name r f = elim (value_at r.input_headers name) [ none ↦ (false, r) | some v ↦ f v ]

unfoldable pub set_cookies : CgiRequest → Bool × CgiRequest
unfolding value_at split_string
set_cookies r = with_header (codes "HTTP_COOKIE") r (λ v.
    let all = fields_loop cookie_of (split_string b';' v) r.cookies in
    (all.0, record r { cookies = all.1 }))

unfoldable pub set_method : CgiRequest → Bool × CgiRequest
unfolding value_at
set_method r = with_header (codes "REQUEST_METHOD") r (λ v. (
  true,
  if hash_string v == hash_string (codes "GET")
      then record r { cmd = get_command }
      else if hash_string v == hash_string (codes "POST")
      then record r { cmd = post_command }
      else r,
))

unfoldable pub set_url : CgiRequest → Bool × CgiRequest
unfolding value_at
set_url r = with_header (codes "SCRIPT_NAME") r (λ v. (true, record r { url = v }))

abbrev pub not_empty : Option Bytes → Option Bytes
not_empty (some (x ∷ s)) = some (x ∷ s)
not_empty other = none

-- `curl_easy_unescape` is a parameter.
module _ (curl_easy_unescape : Bytes → Option Bytes) where
  -- `url_decode`, which fails on an empty result too.
  unfoldable pub url_decode : Bytes → Option Bytes
  url_decode s = not_empty (curl_easy_unescape s)

  unfoldable pub set_variables : CgiRequest → Bool × CgiRequest
  unfolding value_at split_string
  set_variables r = with_header (codes "QUERY_STRING") r (λ v. elim (url_decode v) [
    | none ↦ (false, r)
    | some decoded ↦
        let all = fields_loop pair_of (split_string b'&' (c_str decoded)) r.input_variables in
        (all.0, record r { input_variables = all.1 })
  ])

  -- `receiveStdinDone`.
  unfoldable pub receive_stdin_done : CgiRequest → CgiRequest
  receive_stdin_done r =
      (go_on (go_on (go_on (set_cookies (record r { recv_stdin_done = true })) set_method) set_url)
        set_variables).1
