-- ===== src/Cgi/Serving.antt =====
-- `CgiServerInternal` of src/socket/CgiServer.cpp: the packages of the requests. Of the socket server beneath, the
-- sockets that it is told to close are kept.
use libbundle.Prelude.{
  ◌>>=◌, ◌>>◌, assert, ℕ, ◌+◌, ◌*◌, ◌%◌, Bool, true, false, ◌&&◌, Option, none, some, List, [], ◌∷◌,
  ◌++◌, Bytes, codes, leb, ◌==◌, if◌then◌else◌, take, drop, length, get_or,
}
use libbundle.Tables.{write_at, value_at, emplace, without, or_fresh, nat_key, bytes_key}
use libbundle.Cgi.{
  Headers, add_input_header, sizeof_header, type_of, requestid, content_length, padding_length,
  package_length, read_params, written_header,
}
use libbundle.Cgi
use libbundle.Cgi.Requests.{CgiRequest, new_request, receive_stdin_done}

-- What `getRequest` finds behind the socket server.
pub data Arrival : Type 0 where
  established closed : ℕ → Arrival
  payload : ℕ → Bytes → Arrival

-- The requests that wait, and the sockets of the calls of `SocketServer::close` so far.
pub record CgiServer : Type 0 where
  pub requests : List (ℕ × CgiRequest)
  pub closes : List ℕ

-- `beginRequest`; the body is what stands behind the header.
unfoldable pub begin_request : CgiRequest → Bytes → Option (Bool × CgiRequest)
begin_request r body =
    let role_number = get_or body 0 0 * 256 + get_or body 1 0 in
    let started = record r { role = role_number; keepalive = get_or body 2 0 % 2 == 1 } in
    assert (leb 8 (length body)) >> some (role_number == 1, started)

-- `readParams`. The headers of a refused package go with the request, which is released.
unfoldable pub params_package : CgiRequest → ℕ → Bytes → Option (Bool × CgiRequest)
params_package r pad [] = some (true, record r { recv_params_done = true })
params_package r pad (x ∷ body) = elim (read_params pad (x ∷ body) r.input_headers) [
  | Cgi.value m ↦ some (true, record r { input_headers = m })
  | Cgi.overflow ↦ some (false, r)
  | Cgi.outside ↦ none
]

-- `releaseRequest`: the destructor closes the socket.
unfoldable pub release_request : CgiRequest → CgiServer → CgiServer
unfolding without
release_request r srv = record srv {
  requests = without srv.requests r.id;
  closes = srv.closes ++ r.fd ∷ [];
}

-- What is left of a request behind its package: its object, which the map points to, or nothing.
unfoldable pub keep_request : ℕ → Bool → CgiRequest → CgiServer → CgiServer
unfolding write_at release_request
keep_request id rc r srv =
    let kept = record srv { requests = write_at srv.requests id r (λ old. r) } in
    if rc then kept else release_request r kept

-- The request that is complete first in the order of the map, by its id; 0 where there is none.
unfoldable pub complete_id : List (ℕ × CgiRequest) → ℕ
complete_id [] = 0
complete_id ((i, r) ∷ m) =
    let rest = complete_id m in if r.recv_params_done && r.recv_stdin_done then i else rest

-- `getCompleteRequest`.
unfoldable pub get_complete_request : CgiServer → Option CgiRequest × CgiServer
unfolding value_at without complete_id
get_complete_request srv = elim (value_at srv.requests (complete_id srv.requests)) [
  | none ↦ (none, srv)
  | some r ↦ (some r, record srv { requests = without srv.requests (complete_id srv.requests) })
]

-- `curl_easy_unescape` is a parameter.
module _ (curl_easy_unescape : Bytes → Option Bytes) where
  -- `readStdin`.
  unfoldable pub stdin_package : CgiRequest → ℕ → Bytes → Option (Bool × CgiRequest)
  stdin_package r content [] = some (true, receive_stdin_done curl_easy_unescape r)
  stdin_package r content (x ∷ body) = do
    assert (leb content (length (x ∷ body)))
    some (
      true,
      record r {
        input_headers =
            add_input_header (codes "QUERY_STRING") (take content (x ∷ body)) r.input_headers;
      },
    )

  -- The switch of `parsePackage` on the type.
  unfoldable pub handle_package : CgiRequest → Bytes → Option (Bool × CgiRequest)
  unfolding begin_request params_package stdin_package
  handle_package r q =
      let body = drop sizeof_header q in
      if type_of q == 1
      then begin_request r body
      else if type_of q == 4
      then params_package r (padding_length q) body
      else if type_of q == 5
      then stdin_package r (content_length q) body
      else some (type_of q == 8, r)

  -- `parsePackage`; `none` is a failed assertion or an access outside of the message.
  unfoldable pub parse_package : ℕ → Bytes → CgiServer → Option (Bool × CgiServer)
  unfolding value_at emplace without write_at
  parse_package s q srv =
      let r = or_fresh (value_at srv.requests (requestid q)) (new_request (requestid q) s) in
      assert (leb sizeof_header (length q))
      >> assert (length q == package_length q)
      >> assert (r.fd == s)
      >> (do (rc, after) ← handle_package r q; some (rc, keep_request (requestid q) rc after srv))

  -- `getRequest`, over what `receiveMessage` returns until it returns nothing.
  unfoldable pub get_request : List Arrival → CgiServer → Option (Option CgiRequest × CgiServer)
  get_request [] srv = some (get_complete_request srv)
  get_request (established s ∷ more) srv = get_request more srv
  get_request (closed s ∷ more) srv = get_request more srv
  get_request (payload s q ∷ more) srv = do
    (rc, srv') ← parse_package s q srv
    get_request more srv'
