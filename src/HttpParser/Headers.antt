-- ===== src/HttpParser/Headers.antt =====
-- The second loop of `HttpParser::parse`, src/tools/HttpParser.cpp, on the header lines, and the whole of
-- `parse` on a request.
use libbundle.Prelude.{
  ℕ, ◌+◌, ◌-◌, ◌<◌, ◌≡◌, ◌∙◌, refl, ap, true, none, some, List, [], ◌∷◌, ◌++◌, Bytes, codes, drop,
  length, All, arith, append_assoc, append-nil, drop-append, length-append,
}
use mathlib.Core.Path.{ap₂}
use libbundle.ByteBuffer.{slice}
use libbundle.HttpParser.{
  HttpParser, cleared, cr, lf, sp, ParserState, request_method, request_field_name,
  request_field_value, request_header_done, LineState, line_loop, FieldState, field_loop,
  field_round, field_switch, is_header_done, is_line_done, insert, find, header, ltrim, rtrim,
}
use libbundle.HttpParser.Parse.{parse, parse_fields, with_content}
use libbundle.HttpParser.RequestLine.{
  Lacks, slice_from, line_at, request_line, line_size, line_loop-request_line,
}

abbrev pub field_at : ParserState → ℕ → ℕ → ℕ → Bytes → HttpParser → FieldState
field_at ps c nread prevread name p = record {
  ps = ps;
  c = c;
  nread = nread;
  prevread = prevread;
  name = name;
  parser = p;
}

read_name :
    (input tok rest : Bytes) (c n start : ℕ) (name : Bytes) (p : HttpParser)
    → Lacks b':' tok
    → Lacks lf tok
    → field_loop input (tok ++ b':' ∷ rest) (field_at request_field_name c n start name p)
      ≡ field_loop input rest (
          field_at request_field_value b':'
            (n + length tok + 1)
            (n + length tok + 1)
            (slice input start (n + length tok - start))
            p)
unfolding field_loop field_round field_switch
read_name input [] rest c n start name p h k = ground arith
read_name input (x ∷ tok) rest c n start name p (hx, h) (kx, k) =
    ground (arith, read_name input tok rest x (n + 1) start name p h k)

abbrev pub trim : Bytes → Bytes
trim s = rtrim (ltrim s)

read_value :
    (input tok rest : Bytes) (c n start : ℕ) (name : Bytes) (p p' : HttpParser)
    → Lacks lf tok
    → insert p name (trim (slice input start (n + length tok - start))) ≡ some p'
    → field_loop input (tok ++ cr ∷ lf ∷ rest) (field_at request_field_value c n start name p)
      ≡ field_loop input rest
          (field_at request_field_name lf (n + length tok + 2) (n + length tok + 2) name p')
unfolding field_loop field_round field_switch
read_value input [] rest c n start name p p' h e =
    let e' : n + 1 + 1 - start - 2 ≡ n + 0 - start = omega arith in
    rw (e', e)
      (ap₂ (λ j k. field_loop input rest (field_at request_field_name lf j k name p')) (omega arith)
        (omega arith))
read_value input (x ∷ tok) rest c n start name p p' (hx, h) e =
    ground (arith, read_value input tok rest x (n + 1) start name p p' h)

read_end :
    (input rest : Bytes) (c n start : ℕ) (name : Bytes) (p : HttpParser)
    → field_loop input (cr ∷ lf ∷ rest) (field_at request_field_name c n start name p)
      ≡ some (field_at request_header_done lf (n + 2) start name p)
unfolding field_loop field_round field_switch
read_end input [] c n start name p = ground arith
read_end input (x ∷ rest) c n start name p = ground arith

-- Header lines, and what follows them.
abbrev pub header_lines : List (Bytes × Bytes) → Bytes → Bytes
header_lines [] rest = rest
header_lines ((name, value) ∷ hs) rest = name ++ b':' ∷ (value ++ cr ∷ lf ∷ header_lines hs rest)

abbrev pub header_lines_size : List (Bytes × Bytes) → ℕ
header_lines_size [] = 0
header_lines_size ((name, value) ∷ hs) = length name + 1 + length value + 2 + header_lines_size hs

abbrev pub trimmed : List (Bytes × Bytes) → List (Bytes × Bytes)
trimmed [] = []
trimmed ((name, value) ∷ hs) = (name, trim value) ∷ trimmed hs

-- A name has neither a colon nor a line feed, a value has no line feed.
abbrev pub IsHeader : Bytes × Bytes → Type 0
IsHeader (name, value) = Lacks b':' name × Lacks lf name × Lacks lf value

-- No name stands in the headers before it.
abbrev pub NewNames : List (Bytes × Bytes) → List (Bytes × Bytes) → Type 0
NewNames seen [] = Unit
NewNames seen ((name, value) ∷ hs) =
    (find name seen ≡ none) × NewNames (seen ++ (name, trim value) ∷ []) hs

abbrev last_name : Bytes → List (Bytes × Bytes) → Bytes
last_name name [] = name
last_name name ((k, _) ∷ hs) = last_name k hs

insert_new :
    (p : HttpParser) (name value : Bytes)
    → find name p.req_headers ≡ none
    → insert p name value ≡ some (record p { req_headers = p.req_headers ++ (name, value) ∷ [] })
unfolding insert
insert_new p name value e = rw (e, insert)

-- One header line, at the position n of the input.
read_header :
    (input pre name value rest : Bytes) (c n : ℕ) (old : Bytes) (p : HttpParser)
    → IsHeader (name, value)
    → n ≡ length pre
    → input ≡ pre ++ (name ++ b':' ∷ (value ++ cr ∷ lf ∷ rest))
    → find name p.req_headers ≡ none
    → field_loop input
        (name ++ b':' ∷ (value ++ cr ∷ lf ∷ rest))
        (field_at request_field_name c n n old p)
      ≡ field_loop input rest (
          field_at request_field_name lf
            (n + length name + 1 + length value + 2)
            (n + length name + 1 + length value + 2)
            name
            (record p { req_headers = p.req_headers ++ (name, trim value) ∷ [] }))
read_header input pre name value rest c n old p (h, k, l) at e new =
    let named =
      slice_from input pre name (b':' ∷ (value ++ cr ∷ lf ∷ rest)) n (n + length name - n) e at
        (omega arith) in
    let valued =
      slice_from input (pre ++ name ++ b':' ∷ []) value (cr ∷ lf ∷ rest) (n + length name + 1)
        (n + length name + 1 + length value - (n + length name + 1)) (e ∙ simp append_assoc)
        (omega (arith, length-append (pre ++ name) (b':' ∷ []), length-append pre name))
        (omega arith) in
    read_name input name (value ++ cr ∷ lf ∷ rest) c n n old p h k
    ∙ ap
        (λ q.
          field_loop input (value ++ cr ∷ lf ∷ rest)
            (field_at request_field_value b':' (n + length name + 1) (n + length name + 1) q p))
        named
    ∙ read_value input value rest b':' (n + length name + 1) (n + length name + 1) name p _ l
        (ap (λ q. insert p name (trim q)) valued ∙ insert_new p name (trim value) new)

field_loop-header_lines :
    (hs : List (Bytes × Bytes)) (input pre rest : Bytes) (c n : ℕ) (old : Bytes) (p : HttpParser)
    → All IsHeader hs
    → n ≡ length pre
    → input ≡ pre ++ header_lines hs (cr ∷ lf ∷ rest)
    → NewNames p.req_headers hs
    → field_loop input (header_lines hs (cr ∷ lf ∷ rest)) (field_at request_field_name c n n old p)
      ≡ some (
          field_at request_header_done lf
            (n + header_lines_size hs + 2)
            (n + header_lines_size hs)
            (last_name old hs)
            (record p { req_headers = p.req_headers ++ trimmed hs }))
field_loop-header_lines [] input pre rest c n old p h at e new =
    read_end input rest c n n old p ∙ ground (arith, append-nil p.req_headers)
field_loop-header_lines ((name, value) ∷ hs) input pre rest c n old p (h, hs_ok) at e (new, news) =
    read_header input pre name value (header_lines hs (cr ∷ lf ∷ rest)) c n old p h at e new
    ∙ field_loop-header_lines hs input (pre ++ (name ++ b':' ∷ (value ++ cr ∷ lf ∷ []))) rest lf
        (n + length name + 1 + length value + 2) name _ hs_ok
        (omega (
          arith,
          length-append pre (name ++ b':' ∷ (value ++ cr ∷ lf ∷ [])),
          length-append name (b':' ∷ (value ++ cr ∷ lf ∷ [])),
          length-append value (cr ∷ lf ∷ []),
        ))
        (e ∙ simp append_assoc) news
    ∙ ground (arith, append_assoc p.req_headers ((name, trim value) ∷ []) (trimmed hs))

-- A request: its line, its headers, the empty line, and what follows.
abbrev pub request : Bytes → Bytes → Bytes → List (Bytes × Bytes) → Bytes → Bytes
request m u v hs rest = request_line m u v (header_lines hs (cr ∷ lf ∷ rest))

abbrev pub request_size : Bytes → Bytes → Bytes → List (Bytes × Bytes) → ℕ
request_size m u v hs = line_size m u v + header_lines_size hs + 2

parse_line :
    (input : Bytes) (st : LineState)
    → 0 < length input
    → line_loop input input (line_at request_method 0 0 0 cleared) ≡ some st
    → is_line_done st.ps ≡ true
    → parse input ≡ parse_fields input st
unfolding parse
parse_line [] st l e h = absurd (omega arith)
parse_line (x ∷ input) st l e h = rw (e, h, parse)

parse_fields_done :
    (input rest : Bytes) (st : LineState) (st' : FieldState)
    → drop st.nread input ≡ rest
    → field_loop input rest (field_at request_field_name st.c st.nread st.nread [] st.parser)
      ≡ some st'
    → is_header_done st'.ps ≡ true
    → parse_fields input st
      ≡ with_content
          (length input)
          st'.nread
          st'.parser
          (header st'.parser (codes "Content-Length"))
unfolding parse_fields
parse_fields_done input rest st st' e h k = rw (e, h, k, parse_fields)

request_line_front :
    (m u v tail : Bytes)
    → request_line m u v tail ≡ (m ++ sp ∷ (u ++ sp ∷ (v ++ cr ∷ lf ∷ []))) ++ tail
request_line_front m u v tail = simp append_assoc

length-request_front :
    (m u v : Bytes) → line_size m u v ≡ length (m ++ sp ∷ (u ++ sp ∷ (v ++ cr ∷ lf ∷ [])))
length-request_front m u v = omega (
  arith,
  length-append m (sp ∷ (u ++ sp ∷ (v ++ cr ∷ lf ∷ []))),
  length-append u (sp ∷ (v ++ cr ∷ lf ∷ [])),
  length-append v (cr ∷ lf ∷ []),
)

-- What the parser keeps of it.
abbrev pub parsed_request : Bytes → Bytes → Bytes → List (Bytes × Bytes) → HttpParser
parsed_request m u v hs = record {
  req_method = m;
  req_url = u;
  req_version = v;
  req_headers = trimmed hs;
}

pub parse-request_trimmed :
    (m u v : Bytes) (hs : List (Bytes × Bytes)) (rest : Bytes)
    → Lacks sp m
    → Lacks sp u
    → Lacks lf v
    → All IsHeader hs
    → NewNames [] hs
    → parse (request m u v hs rest)
      ≡ with_content
          (length (request m u v hs rest))
          (request_size m u v hs)
          (parsed_request m u v hs)
          (header (parsed_request m u v hs) (codes "Content-Length"))
parse-request_trimmed m u v hs rest hm hu hv hh new =
    let input = request m u v hs rest in
    let tail = header_lines hs (cr ∷ lf ∷ rest) in
    let whole_line = request_line_front m u v tail in
    let size = length-request_front m u v in
    parse_line input _ (omega (arith, length-append m (sp ∷ (u ++ sp ∷ (v ++ cr ∷ lf ∷ tail)))))
      (line_loop-request_line m u v tail hm hu hv) refl
    ∙ parse_fields_done input tail _ _
        (ap₂ drop size whole_line ∙ drop-append (m ++ sp ∷ (u ++ sp ∷ (v ++ cr ∷ lf ∷ []))) tail)
        (field_loop-header_lines hs input (m ++ sp ∷ (u ++ sp ∷ (v ++ cr ∷ lf ∷ []))) rest lf
          (line_size m u v) [] _ hh size whole_line new)
        refl
