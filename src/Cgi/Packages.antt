-- ===== src/Cgi/Packages.antt =====
-- The packages of a web server, one by one, against `parsePackage` of src/socket/CgiServer.cpp.
use libbundle.Prelude.{
  ℕ, ◌/◌, ◌%◌, ◌<◌, ◌≤◌, ◌≡◌, ◌∙◌, refl, sym, ap, true, Option, some, List, [], ◌∷◌, ◌++◌, Bytes,
  codes, ◌==◌, length, arith, All, length-append, take-append, le→leb, ==_iff,
}
use libbundle.Tables.{value_at, or_fresh, nat_key, value_at-write_at, same_refl}
use libbundle.Cgi.{value, Headers, add_input_header, requestid, package_length, read_params}
use libbundle.Cgi.Requests.{CgiRequest, new_request, receive_stdin_done}
use libbundle.Cgi.Serving.{
  CgiServer, Arrival, payload, begin_request, params_package, stdin_package, handle_package,
  parse_package, keep_request, get_request,
}
use libbundle.Cgi.Complete.{write_at-write_at}
use libbundle.Cgi.Params.{IsEntry, encode_all, add_all, read_params-encode_all}

-- The request behind a package of input.
abbrev pub query : Bytes → CgiRequest → CgiRequest
query c r = record r { input_headers = add_input_header (codes "QUERY_STRING") c r.input_headers }

-- A package of a web server: the header, the content and the padding. The numbers of the header are bytes
-- where the id and the content's length are below 65536 and the padding is below 256 bytes.
abbrev pub packed : ℕ → ℕ → Bytes → Bytes → Bytes
packed type id content padding =
    1
      ∷ type
      ∷ (id / 256)
      ∷ (id % 256)
      ∷ (length content / 256)
      ∷ (length content % 256)
      ∷ length padding
      ∷ 0
      ∷ content
    ++ padding

pub keep_twice :
    (id : ℕ) (r r' : CgiRequest) (srv : CgiServer)
    → keep_request id true r' (keep_request id true r srv) ≡ keep_request id true r' srv
unfolding keep_request
keep_twice id r r' srv =
    ap (λ m. record srv { requests = m }) (write_at-write_at srv.requests id r r')

-- The request that the server has for an id after it kept one.
pub found :
    (id s : ℕ) (r : CgiRequest) (srv : CgiServer)
    → or_fresh (value_at (keep_request id true r srv).requests id) (new_request id s) ≡ r
unfolding keep_request
found id s r srv = rw (value_at-write_at srv.requests id id r (λ old. r), same_refl id) refl

requestid-packed : (type id : ℕ) (c p : Bytes) → requestid (packed type id c p) ≡ id
requestid-packed type id c p = omega arith

package_length-packed :
    (type id : ℕ) (c p : Bytes) → package_length (packed type id c p) ≡ length (packed type id c p)
package_length-packed type id c p = omega (arith, length-append c p)

params_package_step :
    (x pad : ℕ) (q : Bytes) (r : CgiRequest) (m : Headers)
    → read_params pad (x ∷ q) r.input_headers ≡ value m
    → params_package r pad (x ∷ q) ≡ some (true, record r { input_headers = m })
unfolding params_package
params_package_step x pad q r m e = rw (params_package, e) refl

params_package-content :
    (es : List (Bytes × Bytes)) (c p : Bytes) (r : CgiRequest)
    → All IsEntry es
    → encode_all es ≡ c
    → 0 < length c
    → params_package r (length p) (c ++ p)
      ≡ some (true, record r { input_headers = add_all es r.input_headers })
params_package-content es [] p r h e n = absurd (omega arith)
params_package-content es (x ∷ c) p r h e n =
    params_package_step x (length p) (c ++ p) r (add_all es r.input_headers) (
      ap (λ d. read_params (length p) (d ++ p) r.input_headers) (sym e)
      ∙ read_params-encode_all es p r.input_headers h)

module _ (curl_easy_unescape : Bytes → Option Bytes) where
  parse_package_kept :
      (s id : ℕ) (q : Bytes) (srv : CgiServer) (r r' : CgiRequest)
      → requestid q ≡ id
      → package_length q ≡ length q
      → 8 ≤ length q
      → or_fresh (value_at srv.requests id) (new_request id s) ≡ r
      → r.fd ≡ s
      → handle_package curl_easy_unescape r q ≡ some (true, r')
      → parse_package curl_easy_unescape s q srv ≡ some (true, keep_request id true r' srv)
  unfolding parse_package
  parse_package_kept s id q srv r r' n l b e f h =
      rw
        (
          n,
          le→leb 8 (length q) b,
          (==_iff (length q) (package_length q)).1 (sym l),
          e,
          (==_iff r.fd s).1 f,
          h,
        )
        refl

  pub parse_package-packed :
      (s type id : ℕ) (c p : Bytes) (srv : CgiServer) (r r' : CgiRequest)
      → or_fresh (value_at srv.requests id) (new_request id s) ≡ r
      → r.fd ≡ s
      → handle_package curl_easy_unescape r (packed type id c p) ≡ some (true, r')
      → parse_package curl_easy_unescape s (packed type id c p) srv
        ≡ some (true, keep_request id true r' srv)
  parse_package-packed s type id c p srv r r' e f h =
      parse_package_kept s id (packed type id c p) srv r r' (requestid-packed type id c p)
        (package_length-packed type id c p) (omega arith) e f h

  -- A package on a request that is there, before the rest.
  pub one_more :
      (s type id : ℕ) (c p : Bytes) (srv : CgiServer) (r r' : CgiRequest) (more : List Arrival)
      → r.fd ≡ s
      → handle_package curl_easy_unescape r (packed type id c p) ≡ some (true, r')
      → get_request curl_easy_unescape
          (payload s (packed type id c p) ∷ more)
          (keep_request id true r srv)
        ≡ get_request curl_easy_unescape more (keep_request id true r' srv)
  unfolding get_request
  one_more s type id c p srv r r' more f h =
      rw
        (parse_package-packed s type id c p (keep_request id true r srv) r r' (found id s r srv) f
          h)
        (ap (get_request curl_easy_unescape more) (keep_twice id r r' srv))

  pub handle_params :
      (id : ℕ) (es : List (Bytes × Bytes)) (p : Bytes) (r : CgiRequest)
      → All IsEntry es
      → 0 < length (encode_all es)
      → handle_package curl_easy_unescape r (packed 4 id (encode_all es) p)
        ≡ some (true, record r { input_headers = add_all es r.input_headers })
  unfolding handle_package
  handle_params id es p r h n = params_package-content es (encode_all es) p r h refl n

  pub stdin_package-content :
      (content : ℕ) (c p : Bytes) (r : CgiRequest)
      → content ≡ length c
      → 0 < length c
      → stdin_package curl_easy_unescape r content (c ++ p) ≡ some (true, query c r)
  unfolding stdin_package
  stdin_package-content content [] p r e n = absurd (omega arith)
  stdin_package-content content (x ∷ c) p r e n =
      let inside : length (x ∷ c) ≤ length ((x ∷ c) ++ p) = omega (arith, length-append c p) in
      rw (e, le→leb (length (x ∷ c)) (length ((x ∷ c) ++ p)) inside, take-append (x ∷ c) p) refl

  pub handle_stdin :
      (id : ℕ) (c p : Bytes) (r : CgiRequest)
      → 0 < length c
      → handle_package curl_easy_unescape r (packed 5 id c p) ≡ some (true, query c r)
  unfolding handle_package
  handle_stdin id c p r n = stdin_package-content _ c p r (omega arith) n

  pub handle_begin :
      (id flags : ℕ) (r : CgiRequest)
      → handle_package curl_easy_unescape r
          (packed 1 id (0 ∷ 1 ∷ flags ∷ 0 ∷ 0 ∷ 0 ∷ 0 ∷ 0 ∷ []) [])
        ≡ some (true, record r { role = 1; keepalive = flags % 2 == 1 })
  unfolding handle_package begin_request
  handle_begin id flags r = refl

  pub handle_params_end :
      (id : ℕ) (r : CgiRequest)
      → handle_package curl_easy_unescape r (packed 4 id [] [])
        ≡ some (true, record r { recv_params_done = true })
  unfolding handle_package params_package
  handle_params_end id r = refl

  pub handle_stdin_end :
      (id : ℕ) (r : CgiRequest)
      → handle_package curl_easy_unescape r (packed 5 id [] [])
        ≡ some (true, receive_stdin_done curl_easy_unescape r)
  unfolding handle_package stdin_package
  handle_stdin_end id r = refl
