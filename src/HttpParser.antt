-- ===== src/HttpParser.antt =====
-- src/tools/HttpParser.cpp: the head of an HTTP request. The two loops of `parse` are recursions on the
-- bytes that are left, over a record of their variables; `nread` and `prevread` are positions in `data`.
pub mod Parse
pub mod RequestLine
pub mod Headers
pub mod Blanks
mod Tests
use libbundle.Prelude.{
  ℕ, zero, suc, ◌+◌, ◌-◌, ◌*◌, ◌/◌, ◌%◌, ◌^◌, Bool, true, false, ◌&&◌, ◌||◌, not, Option, none,
  some, List, [], ◌∷◌, ◌++◌, Bytes, codes, ltb, leb, ◌==◌, if◌then◌else◌, take, drop, length, ◌>>=◌,
  ◌>>◌, assert,
}
use libbundle.Tables.{bytes_eq}
use libbundle.ByteBuffer.{slice, size_max}

abbrev pub cr : ℕ
cr = b'\r'

abbrev pub lf : ℕ
lf = b'\n'

abbrev pub sp : ℕ
sp = b' '

-- `PARSER_STATE`.
pub data ParserState : Type 0 where
  request_start request_method request_url request_version request_line_done : ParserState
  request_field_name request_field_value request_header_done : ParserState

-- The parser's members; the map of the headers as a list of pairs with different names.
pub record HttpParser : Type 0 where
  pub req_method : Bytes
  pub req_url : Bytes
  pub req_version : Bytes
  pub req_headers : List (Bytes × Bytes)

unfoldable pub find : Bytes → List (Bytes × Bytes) → Option Bytes
find k [] = none
find k ((j, v) ∷ m) = let rest = find k m in if bytes_eq j k then some v else rest

-- `header(name)`.
unfoldable pub header : HttpParser → Bytes → Option Bytes
unfolding find bytes_eq
header p name = find name p.req_headers

-- `clear()`.
abbrev pub cleared : HttpParser
cleared = record { req_method = []; req_url = []; req_version = []; req_headers = [] }

-- The variables of the first loop.
pub record LineState : Type 0 where
  pub ps : ParserState
  pub c : ℕ
  pub nread : ℕ
  pub prevread : ℕ
  pub parser : HttpParser

abbrev pub is_line_done : ParserState → Bool
is_line_done request_line_done = true
is_line_done s = false

abbrev pub is_header_done : ParserState → Bool
is_header_done request_header_done = true
is_header_done s = false

-- One round of the first loop on the byte x; `none` is the illegal state of the `default` case. `st`
-- holds the variables after `prevc = c, c = data[nread++]`.
unfoldable pub line_switch : Bytes → ℕ → LineState → ParserState → Option LineState
line_switch input prevc st request_method = some (
    if st.c == sp
    then record st {
      ps = request_url;
      prevread = st.nread;
      parser = record st.parser {
        req_method = slice input st.prevread (st.nread - st.prevread - 1);
      };
    }
    else st)
line_switch input prevc st request_url = some (
    if st.c == sp
    then record st {
      ps = request_version;
      prevread = st.nread;
      parser = record st.parser { req_url = slice input st.prevread (st.nread - st.prevread - 1) };
    }
    else st)
line_switch input prevc st request_version = some (
    if st.c == lf && prevc == cr
    then record st {
      ps = request_line_done;
      parser = record st.parser {
        req_version = slice input st.prevread (st.nread - st.prevread - 2);
      };
    }
    else st)
line_switch input prevc st other = none

unfoldable pub line_round : Bytes → ℕ → LineState → Option LineState
line_round input x st = line_switch input st.c (record st { c = x; nread = st.nread + 1 }) st.ps

unfoldable pub line_loop : Bytes → Bytes → LineState → Option LineState
line_loop input [] st = some st
line_loop input (x ∷ rest) st = elim (is_line_done st.ps) [
  | true ↦ some st
  | false ↦ (do st' ← line_round input x st; line_loop input rest st')
]

-- The variables of the second loop; `value` is used within one round only.
pub record FieldState : Type 0 where
  pub ps : ParserState
  pub c : ℕ
  pub nread : ℕ
  pub prevread : ℕ
  pub name : Bytes
  pub parser : HttpParser

-- `value.erase(0, value.find_first_not_of(" "))`.
unfoldable pub ltrim : Bytes → Bytes
ltrim [] = []
ltrim (x ∷ xs) = let rest = ltrim xs in if x == sp then rest else x ∷ xs

unfoldable pub keep_unless_blank : ℕ → Bytes → Bytes
keep_unless_blank x [] = if x == sp then [] else x ∷ []
keep_unless_blank x (y ∷ ys) = x ∷ y ∷ ys

-- `value.erase(value.find_last_not_of(" ") + 1)`.
unfoldable pub rtrim : Bytes → Bytes
unfolding keep_unless_blank
rtrim [] = []
rtrim (x ∷ xs) = keep_unless_blank x (rtrim xs)

-- `_req_headers.insert(…)`, which fails on a name that is there.
unfoldable pub insert : HttpParser → Bytes → Bytes → Option HttpParser
insert p name value = elim (find name p.req_headers) [
  | none ↦ some (record p { req_headers = p.req_headers ++ (name, value) ∷ [] })
  | some _ ↦ none
]

-- One round of the second loop; `none` is a duplicate header or an illegal state.
unfoldable pub field_switch : Bytes → ℕ → FieldState → ParserState → Option FieldState
field_switch input prevc st request_field_name = some (
    if st.c == lf && prevc == cr
    then record st { ps = request_header_done }
    else if st.c == b':'
    then record st {
      ps = request_field_value;
      name = slice input st.prevread (st.nread - st.prevread - 1);
      prevread = st.nread;
    }
    else st)
field_switch input prevc st request_field_value =
    if st.c == lf && prevc == cr
    then (do
      p ←
          insert st.parser st.name
            (rtrim (ltrim (slice input st.prevread (st.nread - st.prevread - 2))))
      some (record st { ps = request_field_name; prevread = st.nread; parser = p }))
    else some st
field_switch input prevc st other = none

unfoldable pub field_round : Bytes → ℕ → FieldState → Option FieldState
field_round input x st = field_switch input st.c (record st { c = x; nread = st.nread + 1 }) st.ps

unfoldable pub field_loop : Bytes → Bytes → FieldState → Option FieldState
field_loop input [] st = some st
field_loop input (x ∷ rest) st = elim (is_header_done st.ps) [
  | true ↦ some st
  | false ↦ (do st' ← field_round input x st; field_loop input rest st')
]
