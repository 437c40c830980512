-- ===== src/Cgi/Exchange.antt =====
-- A whole request of a web server, package by package, against `getRequest` of src/socket/CgiServer.cpp.
use libbundle.Prelude.{
  ℕ, ◌%◌, ◌<◌, ◌≡◌, ◌∙◌, refl, ap, true, Option, none, some, List, [], ◌∷◌, Bytes, ◌==◌, length,
  All,
}
use libbundle.Tables.{value_at, or_fresh, nat_key}
use libbundle.Cgi.{Headers}
use libbundle.Cgi.Requests.{CgiRequest, new_request, receive_stdin_done}
use libbundle.Cgi.Serving.{CgiServer, Arrival, payload, keep_request, get_request}
use libbundle.Cgi.Complete.{IsWaiting, get_complete_request-kept, receive_stdin_done-IsComplete}
use libbundle.Cgi.Params.{IsEntry, encode_all, add_all}
use libbundle.Cgi.Packages.{
  packed, one_more, handle_params, handle_stdin, query, parse_package-packed, handle_begin,
  handle_params_end, handle_stdin_end,
}

module _ (curl_easy_unescape : Bytes → Option Bytes) where
  -- The packages of parameters and those of the standard input, before the rest.
  abbrev params_packages : ℕ → ℕ → List (List (Bytes × Bytes) × Bytes) → List Arrival → List Arrival
  params_packages s id [] more = more
  params_packages s id ((es, p) ∷ chunks) more =
      payload s (packed 4 id (encode_all es) p) ∷ params_packages s id chunks more

  abbrev stdin_packages : ℕ → ℕ → List (Bytes × Bytes) → List Arrival → List Arrival
  stdin_packages s id [] more = more
  stdin_packages s id ((c, p) ∷ chunks) more =
      payload s (packed 5 id c p) ∷ stdin_packages s id chunks more

  abbrev all_params : List (List (Bytes × Bytes) × Bytes) → Headers → Headers
  all_params [] m = m
  all_params ((es, p) ∷ chunks) m = all_params chunks (add_all es m)

  abbrev all_stdin : List (Bytes × Bytes) → CgiRequest → CgiRequest
  all_stdin [] r = r
  all_stdin ((c, p) ∷ chunks) r = all_stdin chunks (query c r)

  abbrev pub IsParams : List (Bytes × Bytes) × Bytes → Type 0
  IsParams (es, p) = All IsEntry es × (0 < length (encode_all es))

  abbrev pub IsInput : Bytes × Bytes → Type 0
  IsInput (c, p) = 0 < length c

  get_request-params :
      (s id : ℕ) (chunks : List (List (Bytes × Bytes) × Bytes)) (more : List Arrival)
      (r : CgiRequest) (srv : CgiServer)
      → r.fd ≡ s
      → All IsParams chunks
      → get_request curl_easy_unescape
          (params_packages s id chunks more)
          (keep_request id true r srv)
        ≡ get_request curl_easy_unescape more (
            keep_request id true
              (record r { input_headers = all_params chunks r.input_headers })
              srv)
  get_request-params s id [] more r srv f h = refl
  get_request-params s id ((es, p) ∷ chunks) more r srv f ((h, n), hs) =
      one_more curl_easy_unescape s 4 id (encode_all es) p srv r _ _ f
        (handle_params curl_easy_unescape id es p r h n)
      ∙ get_request-params s id chunks more
          (record r { input_headers = add_all es r.input_headers }) srv f hs

  get_request-stdin :
      (s id : ℕ) (chunks : List (Bytes × Bytes)) (more : List Arrival) (r : CgiRequest)
      (srv : CgiServer)
      → r.fd ≡ s
      → All IsInput chunks
      → get_request curl_easy_unescape
          (stdin_packages s id chunks more)
          (keep_request id true r srv)
        ≡ get_request curl_easy_unescape more (keep_request id true (all_stdin chunks r) srv)
  get_request-stdin s id [] more r srv f h = refl
  get_request-stdin s id ((c, p) ∷ chunks) more r srv f (n, hs) =
      one_more curl_easy_unescape s 5 id c p srv r _ _ f
        (handle_stdin curl_easy_unescape id c p r n)
      ∙ get_request-stdin s id chunks more (query c r) srv f hs

  all_stdin-fd : (chunks : List (Bytes × Bytes)) (r : CgiRequest) → (all_stdin chunks r).fd ≡ r.fd
  all_stdin-fd [] r = refl
  all_stdin-fd ((c, p) ∷ chunks) r = all_stdin-fd chunks (query c r)

  all_stdin-params_done :
      (chunks : List (Bytes × Bytes)) (r : CgiRequest)
      → (all_stdin chunks r).recv_params_done ≡ r.recv_params_done
  all_stdin-params_done [] r = refl
  all_stdin-params_done ((c, p) ∷ chunks) r = all_stdin-params_done chunks (query c r)

  -- A request as a web server sends it: its begin, parameters and input, each with its end.
  abbrev pub exchange :
      ℕ → ℕ → ℕ → List (List (Bytes × Bytes) × Bytes) → List (Bytes × Bytes) → List Arrival
  exchange s id flags params input =
      payload s (packed 1 id (0 ∷ 1 ∷ flags ∷ 0 ∷ 0 ∷ 0 ∷ 0 ∷ 0 ∷ []) [])
      ∷ params_packages s id params (
          payload s (packed 4 id [] [])
          ∷ stdin_packages s id input (payload s (packed 5 id [] []) ∷ []))

  -- The request behind its packages: the headers of all its parameters, in their order, and `QUERY_STRING` from
  -- each package of input.
  abbrev pub received_request :
      ℕ → ℕ → ℕ → List (List (Bytes × Bytes) × Bytes) → List (Bytes × Bytes) → CgiRequest
  received_request s id flags params input = all_stdin input (record (new_request id s) {
    role = 1;
    keepalive = flags % 2 == 1;
    input_headers = all_params params [];
    recv_params_done = true;
  })

  get_request-end :
      (s id : ℕ) (r : CgiRequest) (srv : CgiServer)
      → r.fd ≡ s
      → r.recv_params_done ≡ true
      → value_at srv.requests id ≡ none
      → All IsWaiting srv.requests
      → get_request curl_easy_unescape
          (payload s (packed 5 id [] []) ∷ [])
          (keep_request id true r srv)
        ≡ some (some (receive_stdin_done curl_easy_unescape r), srv)
  unfolding get_request
  get_request-end s id r srv f p absent waiting =
      one_more curl_easy_unescape s 5 id [] [] srv r _ [] f
        (handle_stdin_end curl_easy_unescape id r)
      ∙ ap some (
          get_complete_request-kept id (receive_stdin_done curl_easy_unescape r) srv absent waiting
            (receive_stdin_done-IsComplete curl_easy_unescape r p))

  -- A whole request of a web server, on any connection and with any id that no waiting request has, while no
  -- other request is complete: `getRequest` accepts every package, hands over the request with the headers of
  -- all the parameters and what `receiveStdinDone` makes of them, and leaves the other requests as they were.
  -- The parameters stand in any number of packages with something in each, in the encoding of FastCGI, with any padding;
  -- the package that begins the request and the two empty ones that end the parameters and the input have none; no length is 2^31 or more, and no entry is empty on both sides. The same holds for the input.
  pub get_request-exchange :
      (s id flags : ℕ) (params : List (List (Bytes × Bytes) × Bytes)) (input : List (Bytes × Bytes))
      (srv : CgiServer)
      → value_at srv.requests id ≡ none
      → All IsWaiting srv.requests
      → All IsParams params
      → All IsInput input
      → get_request curl_easy_unescape (exchange s id flags params input) srv
        ≡ some (
          some (receive_stdin_done curl_easy_unescape (received_request s id flags params input)),
          srv,
        )
  unfolding get_request new_request
  get_request-exchange s id flags params input srv absent waiting ps is =
      let fresh : or_fresh (value_at srv.requests id) (new_request id s) ≡ new_request id s =
        ap (λ o. or_fresh o (new_request id s)) absent in
      let last = payload s (packed 5 id [] []) ∷ [] in
      let rest = stdin_packages s id input last in
      let middle = payload s (packed 4 id [] []) ∷ rest in
      let begun = record (new_request id s) { role = 1; keepalive = flags % 2 == 1 } in
      let given = record begun { input_headers = all_params params [] } in
      let done = record given { recv_params_done = true } in
      rw
        (parse_package-packed curl_easy_unescape s 1 id (0 ∷ 1 ∷ flags ∷ 0 ∷ 0 ∷ 0 ∷ 0 ∷ 0 ∷ []) []
          srv (new_request id s) begun fresh refl
          (handle_begin curl_easy_unescape id flags (new_request id s)))
        (get_request-params s id params middle begun srv refl ps
          ∙ one_more curl_easy_unescape s 4 id [] [] srv given done rest refl
              (handle_params_end curl_easy_unescape id given)
          ∙ get_request-stdin s id input last done srv refl is
          ∙ get_request-end s id (all_stdin input done) srv (all_stdin-fd input done)
              (all_stdin-params_done input done) absent waiting)
