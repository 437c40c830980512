-- ===== src/Cgi/Complete.antt =====
-- When a request of src/socket/CgiServer.cpp is complete, and what `getCompleteRequest` does with it.
use libbundle.Prelude.{
  ℕ, ◌≡◌, ◌∙◌, refl, ap, subst, Bool, true, false, ◌&&◌, Option, none, some, List, [], ◌∷◌, Bytes,
  Option-cases, inl, inr, arith, All,
}
use libbundle.Tables.{
  write_at, value_at, without, nat_key, bytes_key, value_at-write_at, same_refl, Key,
}
use libbundle.Cgi.Requests.{
  CgiRequest, with_header, go_on, set_cookies, set_method, set_url, set_variables, url_decode,
  receive_stdin_done,
}
use libbundle.Cgi.Serving.{CgiServer, complete_id, get_complete_request, keep_request}

-- What is left out of a map, or written into it once more.
module _ {ℓ κ} {K : Type ℓ} {V : Type κ} ⦃key : Key K⦄ where
  without-write_at :
      (m : List (K × V)) (k : K) (v : V) (change : V → V)
      → value_at m k ≡ none
      → without (write_at m k v change) k ≡ m
  unfolding value_at without write_at
  without-write_at [] k v change h = rw (same_refl k) refl
  without-write_at ((j, x) ∷ m) k v change h = grind (arith, h, without-write_at m k v change)

  pub write_at-write_at :
      (m : List (K × V)) (k : K) (v w : V)
      → write_at (write_at m k v (λ old. v)) k w (λ old. w) ≡ write_at m k w (λ old. w)
  unfolding write_at
  write_at-write_at [] k v w = rw (same_refl k) refl
  write_at-write_at ((j, x) ∷ m) k v w = grind (arith, write_at-write_at m k v w)

abbrev pub IsComplete : CgiRequest → Type 0
IsComplete r = (r.recv_params_done ≡ true) × (r.recv_stdin_done ≡ true)

abbrev pub IsWaiting : ℕ × CgiRequest → Type 0
IsWaiting (i, r) = (r.recv_params_done && r.recv_stdin_done) ≡ false

with_header-IsComplete :
    (name : Bytes) (r : CgiRequest) (f : Bytes → Bool × CgiRequest)
    → IsComplete r
    → ((v : Bytes) → IsComplete (f v).1)
    → IsComplete (with_header name r f).1
with_header-IsComplete name r f h k = elim (Option-cases (value_at r.input_headers name)) [
  | inl missing ↦ rw (with_header, missing) h
  | inr (v, e) ↦ rw (with_header, e) (k v)
]

go_on-IsComplete :
    (x : Bool × CgiRequest) (f : CgiRequest → Bool × CgiRequest)
    → IsComplete x.1
    → ((r : CgiRequest) → IsComplete r → IsComplete (f r).1)
    → IsComplete (go_on x f).1
go_on-IsComplete (true, r) f h k = k r h
go_on-IsComplete (false, r) f h k = h

set_cookies-IsComplete : (r : CgiRequest) → IsComplete r → IsComplete (set_cookies r).1
unfolding set_cookies
set_cookies-IsComplete r h = with_header-IsComplete _ r _ h (λ v. h)

set_method-IsComplete : (r : CgiRequest) → IsComplete r → IsComplete (set_method r).1
unfolding set_method
set_method-IsComplete r h = with_header-IsComplete _ r _ h (λ v. ground (arith, h))

set_url-IsComplete : (r : CgiRequest) → IsComplete r → IsComplete (set_url r).1
unfolding set_url
set_url-IsComplete r h = with_header-IsComplete _ r _ h (λ v. h)

complete_id-write_at :
    (m : List (ℕ × CgiRequest)) (id : ℕ) (r : CgiRequest)
    → All IsWaiting m
    → IsComplete r
    → complete_id (write_at m id r (λ old. r)) ≡ id
unfolding complete_id write_at
complete_id-write_at [] id r w (p, s) = rw (p, s) refl
complete_id-write_at ((j, x) ∷ m) id r (h, w) (p, s) =
    grind (arith, h, p, s, complete_id-write_at m id r w (p, s))

get_complete_request_step :
    (id : ℕ) (r : CgiRequest) (srv : CgiServer)
    → complete_id srv.requests ≡ id
    → value_at srv.requests id ≡ some r
    → get_complete_request srv ≡ (some r, record srv { requests = without srv.requests id })
unfolding get_complete_request
get_complete_request_step id r srv e f =
    subst
      (λ j.
        value_at srv.requests j ≡ some r
        → get_complete_request srv ≡ (some r, record srv { requests = without srv.requests j }))
      e (λ g. rw (get_complete_request, g) refl) f

pub get_complete_request-kept :
    (id : ℕ) (r : CgiRequest) (srv : CgiServer)
    → value_at srv.requests id ≡ none
    → All IsWaiting srv.requests
    → IsComplete r
    → get_complete_request (keep_request id true r srv) ≡ (some r, srv)
unfolding keep_request
get_complete_request-kept id r srv h w c =
    let kept = record srv { requests = write_at srv.requests id r (λ old. r) } in
    let there : value_at kept.requests id ≡ some r =
      rw (value_at-write_at srv.requests id id r (λ old. r), same_refl id) refl in
    get_complete_request_step id r kept (complete_id-write_at srv.requests id r w c) there
    ∙ ap (λ m. (some r, record srv { requests = m }))
        (without-write_at srv.requests id r (λ old. r) h)

module _ (curl_easy_unescape : Bytes → Option Bytes) where
  set_variables-IsComplete :
      (r : CgiRequest) → IsComplete r → IsComplete (set_variables curl_easy_unescape r).1
  unfolding set_variables
  set_variables-IsComplete r h = with_header-IsComplete _ r _ h (λ v.
      elim (Option-cases (url_decode curl_easy_unescape v)) [
        | inl failed ↦ rw failed h
        | inr (s, e) ↦ rw e h
      ])

  -- The end of the standard input completes a request that has its parameters, whatever `receiveStdinDone`
  -- does not find or refuses.
  pub receive_stdin_done-IsComplete :
      (r : CgiRequest)
      → r.recv_params_done ≡ true
      → IsComplete (receive_stdin_done curl_easy_unescape r)
  unfolding receive_stdin_done
  receive_stdin_done-IsComplete r h =
      let started = record r { recv_stdin_done = true } in
      let one = set_cookies started in
      let two = go_on one set_method in
      let three = go_on two set_url in
      let h1 = set_cookies-IsComplete started (h, refl) in
      let h2 = go_on-IsComplete one set_method h1 set_method-IsComplete in
      let h3 = go_on-IsComplete two set_url h2 set_url-IsComplete in
      go_on-IsComplete three (set_variables curl_easy_unescape) h3 set_variables-IsComplete
