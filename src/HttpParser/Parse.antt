-- ===== src/HttpParser/Parse.antt =====
-- `HttpParser::parse` of src/tools/HttpParser.cpp, over the two loops, and `std::stol`.
use libbundle.Prelude.{
  ℕ, ◌+◌, ◌-◌, ◌%◌, ◌^◌, Bool, true, false, Option, none, some, [], ◌∷◌, Bytes, codes, ltb, leb,
  ◌==◌, if◌then◌else◌, drop, length, ◌>>=◌,
}
use libbundle.ByteBuffer.{size_max}
use libbundle.Clib.{c_str, is_space, digits}
use libbundle.HttpParser.{
  HttpParser, header, cleared, request_method, request_field_name, LineState, line_loop,
  is_line_done, field_loop, is_header_done,
}

-- What `parse` returns: -1, 0, or the length of the request, with the members of the parser. The
-- members are not read by the callers in the first two cases.
pub data Parsed : Type 0 where
  bad wait : Parsed
  parsed : ℕ → HttpParser → Parsed

-- A `long` as a `size_t`; `none` is the exception for a value out of range.
unfoldable pub as_size : Bool → ℕ → Option ℕ
as_size negative n =
    if negative
    then (if leb n (2 ^ 63) then some ((size_max - n) % size_max) else none)
    else if ltb n (2 ^ 63)
    then some n
    else none

unfoldable pub signed : Bytes → Option ℕ
unfolding digits as_size
signed [] = none
signed (c ∷ s) =
    if c == b'-'
    then (do n ← digits s none; as_size true n)
    else if c == b'+'
    then (do n ← digits s none; as_size false n)
    else (do n ← digits (c ∷ s) none; as_size false n)

-- `std::stol`, its result as a `size_t`.
unfoldable pub stol : Bytes → Option ℕ
unfolding signed
stol [] = none
stol (c ∷ s) = let rest = stol s in if is_space c then rest else signed (c ∷ s)

-- The end of `parse`: what `Content-Length` adds to what is read.
unfoldable pub with_content : ℕ → ℕ → HttpParser → Option Bytes → Parsed
with_content len nread p none = parsed nread p
with_content len nread p (some value) = elim (stol (c_str value)) [
  | none ↦ bad
  | some n ↦ if ltb len ((nread + n) % size_max) then wait else parsed ((nread + n) % size_max) p
]

unfoldable pub parse_fields : Bytes → LineState → Parsed
parse_fields input line =
    elim (field_loop input (drop line.nread input) (record {
      ps = request_field_name;
      c = line.c;
      nread = line.nread;
      prevread = line.nread;
      name = [];
      parser = line.parser;
    })) [
      | none ↦ bad
      | some st ↦
          if is_header_done st.ps
          then with_content (length input) st.nread st.parser
              (header st.parser (codes "Content-Length"))
          else wait
    ]

-- `parse(data, len)`.
unfoldable pub parse : Bytes → Parsed
parse [] = wait
parse (x ∷ rest) =
    elim (line_loop (x ∷ rest) (x ∷ rest)
      (record { ps = request_method; c = 0; nread = 0; prevread = 0; parser = cleared })) [
        | none ↦ bad
        | some line ↦ if is_line_done line.ps then parse_fields (x ∷ rest) line else wait
      ]
