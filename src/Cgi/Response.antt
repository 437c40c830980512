-- ===== src/Cgi/Response.antt =====
-- `send` of src/socket/CgiServer.cpp.
use libbundle.Prelude.{ℕ, List, [], ◌∷◌, ◌++◌, Bytes, codes, ltb, if◌then◌else◌, take, drop, length}
use libbundle.Tables.{nat_key, bytes_key}
use libbundle.Cgi.{Headers, padding_length, written_header}
use libbundle.Cgi.Requests.{CgiRequest}

-- `o << i.first << ": " << i.second << "\r\n"`.
unfoldable pub output_lines : Headers → Bytes
output_lines [] = []
output_lines ((k, v) ∷ m) = k ++ codes ": " ++ v ++ b'\r' ∷ b'\n' ∷ output_lines m

-- `send()`. `stack i n` is what the n bytes of memory at place i hold that the code does not write: the padding of
-- the headers (0) and of the content (1), and the fields of the last body but `protocolStatus` (2).
module _ (stack : ℕ → ℕ → Bytes) where
  -- A part of the response: the header, the text and the padding.
  unfoldable pub part : ℕ → ℕ → Bytes → List Bytes
  unfolding written_header
  part place id s =
      let h = written_header 6 id (length s) in
      let pad = padding_length h in h ∷ s ∷ (if ltb 0 pad then stack place pad ∷ [] else [])

  unfoldable pub end_body : Bytes
  end_body = take 4 (stack 2 8) ++ 0 ∷ drop 5 (stack 2 8)

  unfoldable pub send : CgiRequest → List Bytes
  unfolding part output_lines end_body written_header
  send r =
      part 0 r.id (output_lines r.output_headers ++ b'\r' ∷ b'\n' ∷ [])
      ++ (if ltb 0 (length r.output_content) then part 1 r.id r.output_content else [])
      ++ written_header 6 r.id 0 ∷ written_header 3 r.id 8 ∷ end_body ∷ []
