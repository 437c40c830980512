-- ===== src/Cgi/Tests.antt =====
-- src/socket/CgiServer.cpp at concrete inputs.
use libbundle.Prelude.{
  ℕ, ◌≡◌, refl, true, Option, none, some, List, [], ◌∷◌, ◌++◌, Bytes, codes, arith, replicate,
  length-replicate,
}
use libbundle.Tables.{value_at, write_at, bytes_eq}
use libbundle.Clib.{c_str}
use libbundle.Socket.Framing.{joined}
use libbundle.Cgi.{read_params, overflow, outside}
use libbundle.Cgi.Requests.{
  CgiRequest, add_string, get_command, new_request, post_command, receive_stdin_done, hash_string,
  set_cookies, fields_loop, set_method, set_url, set_variables, url_decode,
}
use libbundle.Cgi.Serving.{CgiServer, get_request, parse_package}
use libbundle.Cgi.Response.{end_body, output_lines, send}
use libbundle.Cgi.Packages.{packed}
use libbundle.Cgi.Exchange.{exchange, received_request, get_request-exchange}
use libbundle.Cgi.Answer.{content_record, read_records, read_records-send}

-- A decoder that is right for texts without escapes.
abbrev plain : Bytes → Option Bytes
plain s = some s

abbrev another : CgiRequest
another = new_request 9 4

abbrev serving : CgiServer
serving = record { requests = (9, another) ∷ []; closes = [] }

abbrev names : List (List (Bytes × Bytes) × Bytes)
names =
    ((codes "REQUEST_METHOD", codes "POST") ∷ (codes "SCRIPT_NAME", codes "/a") ∷ [], 0 ∷ 0 ∷ [])
    ∷ ((codes "HTTP_COOKIE", codes "u=1;v") ∷ [], [])
    ∷ []

abbrev posted : List (Bytes × Bytes)
posted = (codes "x=1&y=2", 0 ∷ []) ∷ []

abbrev accepted : CgiRequest
accepted = receive_stdin_done plain (received_request plain 5 258 1 names posted)

get_request-exchange_example :
    get_request plain (exchange plain 5 258 1 names posted) serving ≡ some (some accepted, serving)
unfolding value_at new_request
get_request-exchange_example =
    get_request-exchange plain 5 258 1 names posted serving refl (refl, tt)
      (
        (
          ((omega arith, omega arith, omega arith), ((omega arith, omega arith, omega arith), tt)),
          omega arith,
        ),
        ((((omega arith, omega arith, omega arith), tt), omega arith), tt),
      )
      (omega arith, tt)

accepted_test :
    (accepted.url ≡ codes "/a")
    × (accepted.cmd ≡ post_command)
    × (accepted.cookies ≡ (codes "u", codes "1") ∷ (codes "v", []) ∷ [])
    × (accepted.input_variables ≡ (codes "x", codes "1") ∷ (codes "y", codes "2") ∷ [])
    × (accepted.keepalive ≡ true)
unfolding new_request receive_stdin_done set_cookies write_at bytes_eq c_str fields_loop set_method
    set_url hash_string set_variables url_decode
accepted_test = (refl, refl, refl, refl, refl)

-- Without a cookie nothing else is read: the request has no path and no variables, and is a GET.
abbrev cookieless : CgiRequest
cookieless = receive_stdin_done plain (record (new_request 1 5) {
  input_headers = (codes "REQUEST_METHOD", codes "POST") ∷ (codes "SCRIPT_NAME", codes "/a") ∷ [];
})

cookieless_test : (cookieless.url ≡ []) × (cookieless.cmd ≡ get_command)
unfolding new_request receive_stdin_done set_cookies bytes_eq
cookieless_test = (refl, refl)

-- An entry that is empty on both sides is refused at the end of a package.
empty_entry_test : read_params 0 (0 ∷ 0 ∷ []) [] ≡ overflow
unfolding read_params
empty_entry_test = refl

-- A name that is longer than the package is read beyond its end before the test for an overflow.
overread_test : read_params 0 (9 ∷ 1 ∷ 65 ∷ []) [] ≡ outside
unfolding read_params
overread_test = refl

-- Two connections that use the same id stop the server.
same_id_test : parse_package plain 6 (packed 5 9 [] []) serving ≡ none
unfolding parse_package new_request
same_id_test = refl

abbrev zeros : ℕ → Bytes
zeros n = replicate n 0

abbrev answered : CgiRequest
answered = add_string (codes "hi") (new_request 258 5)

read_records-send_example :
    read_records 4 (joined (send (λ i. zeros) answered))
    ≡ some (
        (6, 258, output_lines answered.output_headers ++ b'\r' ∷ b'\n' ∷ [])
          ∷ content_record 258 answered.output_content
        ++ (6, 258, []) ∷ (3, 258, end_body (λ i. zeros)) ∷ [])
unfolding add_string new_request output_lines c_str
read_records-send_example =
    read_records-send (λ i. zeros) (λ i n. length-replicate n 0) answered (omega arith)
      (omega arith) (omega arith)

send_test :
    send (λ i. zeros) answered
    ≡ (1 ∷ 6 ∷ 1 ∷ 2 ∷ 0 ∷ 27 ∷ 5 ∷ 0 ∷ [])
      ∷ codes "Content-type: text/html\r\n\r\n"
      ∷ zeros 5
      ∷ (1 ∷ 6 ∷ 1 ∷ 2 ∷ 0 ∷ 2 ∷ 6 ∷ 0 ∷ [])
      ∷ codes "hi"
      ∷ zeros 6
      ∷ (1 ∷ 6 ∷ 1 ∷ 2 ∷ 0 ∷ 0 ∷ 0 ∷ 0 ∷ [])
      ∷ (1 ∷ 3 ∷ 1 ∷ 2 ∷ 0 ∷ 8 ∷ 0 ∷ 0 ∷ [])
      ∷ zeros 8
      ∷ []
unfolding send add_string new_request c_str
send_test = refl
