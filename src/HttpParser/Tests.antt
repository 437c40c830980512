-- ===== src/HttpParser/Tests.antt =====
-- src/tools/HttpParser.cpp at a concrete input.
use libbundle.Prelude.{List, [], ◌∷◌, codes}
use libbundle.HttpParser.Blanks.{FieldLine}

abbrev headers : List FieldLine
headers = (codes "Content-Length", 1, codes "2", 1) ∷ (codes "A", 0, codes "b", 0) ∷ []
