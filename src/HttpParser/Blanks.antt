-- ===== src/HttpParser/Blanks.antt =====
-- The blanks around the values of the header lines, which src/tools/HttpParser.cpp leaves out, and a whole request.
use libbundle.Prelude.{ℕ, ◌≢◌, List, [], ◌∷◌, ◌++◌, Bytes, replicate}
use libbundle.HttpParser.{HttpParser, lf, sp}
use libbundle.HttpParser.RequestLine.{Lacks}

abbrev pub blanks : ℕ → Bytes
blanks n = replicate n sp

-- The last byte of a text that is not empty.
abbrev pub last_byte : ℕ → Bytes → ℕ
last_byte x [] = x
last_byte x (y ∷ s) = last_byte y s

-- A text that neither begins nor ends with a blank.
abbrev pub IsBare : Bytes → Type 0
IsBare [] = Unit
IsBare (x ∷ s) = (x ≢ sp) × (last_byte x s ≢ sp)

-- A header line: its name, the blanks in front of the value, the value, and the blanks behind it.
abbrev pub FieldLine : Type 0
FieldLine = Bytes × ℕ × Bytes × ℕ

abbrev pub lines : List FieldLine → List (Bytes × Bytes)
lines [] = []
lines ((name, before, value, after) ∷ fs) =
    (name, blanks before ++ (value ++ blanks after)) ∷ lines fs

abbrev pub fields : List FieldLine → List (Bytes × Bytes)
fields [] = []
fields ((name, before, value, after) ∷ fs) = (name, value) ∷ fields fs

abbrev pub IsLine : FieldLine → Type 0
IsLine (name, before, value, after) =
    Lacks b':' name × Lacks lf name × Lacks lf value × IsBare value

-- The parser behind a request.
abbrev pub parser_of : Bytes → Bytes → Bytes → List FieldLine → HttpParser
parser_of m u v fs = record {
  req_method = m;
  req_url = u;
  req_version = v;
  req_headers = fields fs;
}
