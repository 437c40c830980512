-- ===== src/HttpParser/RequestLine.antt =====
-- The first loop of `HttpParser::parse`, src/tools/HttpParser.cpp, on a request line.
use libbundle.Prelude.{
  ℕ, ◌+◌, ◌-◌, ◌≡◌, ◌∙◌, ◌≢◌, refl, sym, some, [], ◌∷◌, ◌++◌, Bytes, length, All, arith,
  append_assoc, take-append, drop-append, length-append,
}
use libbundle.ByteBuffer.{slice}
use libbundle.HttpParser.{
  HttpParser, cleared, cr, lf, sp, ParserState, request_method, request_url, request_version,
  request_line_done, LineState, line_loop, line_round, line_switch,
}

abbrev pub Lacks : ℕ → Bytes → Type 0
Lacks b = All (λ c. c ≢ b)

pub slice_at :
    (input pre tok post : Bytes)
    → input ≡ pre ++ (tok ++ post)
    → slice input (length pre) (length tok) ≡ tok
unfolding slice
slice_at input pre tok post e = rw (e, drop-append pre (tok ++ post)) (take-append tok post)

pub slice_from :
    (input pre tok post : Bytes) (start n : ℕ)
    → input ≡ pre ++ (tok ++ post)
    → start ≡ length pre
    → n ≡ length tok
    → slice input start n ≡ tok
slice_from input pre tok post start n e a b = rw (a, b) (slice_at input pre tok post e)

abbrev pub line_at : ParserState → ℕ → ℕ → ℕ → HttpParser → LineState
line_at ps c nread prevread p = record {
  ps = ps;
  c = c;
  nread = nread;
  prevread = prevread;
  parser = p;
}

read_method :
    (input tok rest : Bytes) (c n start : ℕ) (p : HttpParser)
    → Lacks sp tok
    → line_loop input (tok ++ sp ∷ rest) (line_at request_method c n start p)
      ≡ line_loop input rest (
          line_at request_url sp
            (n + length tok + 1)
            (n + length tok + 1)
            (record p { req_method = slice input start (n + length tok - start) }))
unfolding line_loop line_round line_switch
read_method input [] rest c n start p h = ground arith
read_method input (x ∷ tok) rest c n start p (hx, h) =
    ground (arith, read_method input tok rest x (n + 1) start p h)

read_url :
    (input tok rest : Bytes) (c n start : ℕ) (p : HttpParser)
    → Lacks sp tok
    → line_loop input (tok ++ sp ∷ rest) (line_at request_url c n start p)
      ≡ line_loop input rest (
          line_at request_version sp
            (n + length tok + 1)
            (n + length tok + 1)
            (record p { req_url = slice input start (n + length tok - start) }))
unfolding line_loop line_round line_switch
read_url input [] rest c n start p h = ground arith
read_url input (x ∷ tok) rest c n start p (hx, h) =
    ground (arith, read_url input tok rest x (n + 1) start p h)

line_loop_done :
    (input rest : Bytes) (c n start : ℕ) (p : HttpParser)
    → line_loop input rest (line_at request_line_done c n start p)
      ≡ some (line_at request_line_done c n start p)
unfolding line_loop
line_loop_done input [] c n start p = refl
line_loop_done input (x ∷ rest) c n start p = refl

read_version :
    (input tok rest : Bytes) (c n start : ℕ) (p : HttpParser)
    → Lacks lf tok
    → line_loop input (tok ++ cr ∷ lf ∷ rest) (line_at request_version c n start p)
      ≡ some (
          line_at request_line_done lf
            (n + length tok + 2)
            start
            (record p { req_version = slice input start (n + length tok - start) }))
unfolding line_loop line_round line_switch
read_version input [] rest c n start p h = ground (
  arith,
  line_loop_done input rest lf (n + 1 + 1) start
      (record p { req_version = slice input start (n + 1 + 1 - start - 2) }),
)
read_version input (x ∷ tok) rest c n start p (hx, h) =
    ground (arith, read_version input tok rest x (n + 1) start p h)

-- A request line and what follows it.
abbrev pub request_line : Bytes → Bytes → Bytes → Bytes → Bytes
request_line m u v rest = m ++ sp ∷ (u ++ sp ∷ (v ++ cr ∷ lf ∷ rest))

abbrev pub line_size : Bytes → Bytes → Bytes → ℕ
line_size m u v = length m + 1 + length u + 1 + length v + 2

request_line_split :
    (m u v rest : Bytes)
    → request_line m u v rest ≡ (m ++ sp ∷ (u ++ sp ∷ [])) ++ (v ++ cr ∷ lf ∷ rest)
request_line_split m u v rest = simp append_assoc

-- The first loop reads the three parts of a request line, and stops behind it.
pub line_loop-request_line :
    (m u v rest : Bytes)
    → Lacks sp m
    → Lacks sp u
    → Lacks lf v
    → line_loop
        (request_line m u v rest)
        (request_line m u v rest)
        (line_at request_method 0 0 0 cleared)
      ≡ some (
          line_at request_line_done lf
            (line_size m u v)
            (length m + 1 + length u + 1)
            (record { req_method = m; req_url = u; req_version = v; req_headers = [] }))
line_loop-request_line m u v rest hm hu hv =
    let input = request_line m u v rest in
    read_method input m (u ++ sp ∷ (v ++ cr ∷ lf ∷ rest)) 0 0 0 cleared hm
    ∙ read_url input u (v ++ cr ∷ lf ∷ rest) sp (0 + length m + 1) (0 + length m + 1)
        (record cleared { req_method = slice input 0 (0 + length m - 0) }) hu
    ∙ read_version input v rest sp (0 + length m + 1 + length u + 1)
        (0 + length m + 1 + length u + 1)
        (record cleared {
          req_method = slice input 0 (0 + length m - 0);
          req_url =
              slice input (0 + length m + 1) (0 + length m + 1 + length u - (0 + length m + 1));
        })
        hv
    ∙ ground (
      arith,
      slice_from input [] m (sp ∷ (u ++ sp ∷ (v ++ cr ∷ lf ∷ rest))) 0 (0 + length m - 0) refl refl
          (omega arith),
      slice_from input (m ++ sp ∷ []) u (sp ∷ (v ++ cr ∷ lf ∷ rest)) (0 + length m + 1)
          (0 + length m + 1 + length u - (0 + length m + 1)) (sym (append_assoc m (sp ∷ []) _))
          (omega (arith, length-append m (sp ∷ []))) (omega arith),
      slice_from input (m ++ sp ∷ (u ++ sp ∷ [])) v (cr ∷ lf ∷ rest)
          (0 + length m + 1 + length u + 1)
          (0 + length m + 1 + length u + 1 + length v - (0 + length m + 1 + length u + 1))
          (request_line_split m u v rest)
          (omega (arith, length-append m (sp ∷ (u ++ sp ∷ [])), length-append u (sp ∷ [])))
          (omega arith),
    )
