-- ===== src/Cgi/Answer.antt =====
-- What a web server reads of a response that `send` of src/socket/CgiServer.cpp writes.
use libbundle.Prelude.{
  ℕ, zero, suc, ◌+◌, ◌-◌, ◌%◌, ◌<◌, ◌≤◌, ◌≡◌, ◌∙◌, refl, sym, ap, false, Option, none, some, List,
  [], ◌∷◌, ◌++◌, Bytes, ltb, ◌==◌, if◌then◌else◌, take, drop, length, arith, length-append,
  length-take, length-drop, take-append, drop-append, append_assoc, le→leb, Bool-cases, inl, inr,
  ◌>>=◌,
}
use libbundle.Cgi.{
  type_of, requestid, content_length, padding_length, package_length, next_package, written_header,
}
use libbundle.Socket.Framing.{joined}
use libbundle.Cgi.Requests.{CgiRequest}
use libbundle.Cgi.Response.{part, end_body, output_lines, send}

abbrev pub Record : Type 0
Record = ℕ × ℕ × Bytes

-- The first package of a stream: its type, id and content, and what stands behind it.
unfoldable pub read_record : Bytes → Option (Record × Bytes)
unfolding next_package
read_record q =
    if next_package q == 0
    then none
    else some
        ((type_of q, requestid q, take (content_length q) (drop 8 q)), drop (next_package q) q)

-- All packages of a stream.
abbrev pub read_records : ℕ → Bytes → Option (List Record)
read_records fuel [] = some []
read_records zero (x ∷ q) = none
read_records (suc fuel) (x ∷ q) = do
  (r, rest) ← read_record (x ∷ q)
  rs ← read_records fuel rest
  some (r ∷ rs)

joined-append : (xs ys : List Bytes) → joined (xs ++ ys) ≡ joined xs ++ joined ys
joined-append [] ys = refl
joined-append (x ∷ xs) ys =
    ap (λ s. x ++ s) (joined-append xs ys) ∙ sym (append_assoc x (joined xs) (joined ys))

drop-append_two :
    (s padding more : Bytes) → drop (length s + length padding) (s ++ (padding ++ more)) ≡ more
drop-append_two s padding more =
    ap (λ n. drop n (s ++ (padding ++ more))) (sym (length-append s padding))
    ∙ ap (λ q. drop (length (s ++ padding)) q) (sym (append_assoc s padding more))
    ∙ drop-append (s ++ padding) more

abbrev filling : ℕ → ℕ
filling n = if ltb 0 (n % 8) then 8 - n % 8 else 0

next_package_whole :
    (q : Bytes) → 8 ≤ length q → package_length q ≤ length q → next_package q ≡ package_length q
unfolding next_package
next_package_whole q h k =
    let enough : ltb (length q) 8 ≡ false = ground arith in
    rw (enough, le→leb (package_length q) (length q) k) refl

read_record_step :
    (q content more : Bytes) (type id n : ℕ)
    → next_package q ≡ n
    → 0 < n
    → drop n q ≡ more
    → type_of q ≡ type
    → requestid q ≡ id
    → take (content_length q) (drop 8 q) ≡ content
    → read_record q ≡ some ((type, id, content), more)
unfolding read_record
read_record_step q content more type id n e b d t i c =
    let there : (n == 0) ≡ false = ground arith in rw (e, d, t, i, c, there) refl

read_record-written_header :
    (type id : ℕ) (s padding more : Bytes)
    → id < 65536
    → length s < 65536
    → length padding ≡ filling (length s)
    → read_record (written_header type id (length s) ++ (s ++ (padding ++ more)))
      ≡ some ((type, id, s), more)
unfolding written_header
read_record-written_header type id s padding more h k f =
    let q = written_header type id (length s) ++ (s ++ (padding ++ more)) in
    let content : content_length q ≡ length s = omega arith in
    let pad : padding_length q ≡ length padding = sym f in
    let whole : package_length q ≡ 8 + (length s + length padding) = omega (arith, content, pad) in
    let total : length q ≡ 8 + (length s + (length padding + length more)) =
      omega (arith, length-append s (padding ++ more), length-append padding more) in
    let rest = length s + length padding in
    let eight : 8 + rest ≡ suc (suc (suc (suc (suc (suc (suc (suc rest))))))) = omega arith in
    read_record_step q s more type id (8 + rest)
      (next_package_whole q (omega arith) (omega (arith, whole, total)) ∙ whole) (omega arith)
      (ap (λ n. drop n q) eight ∙ drop-append_two s padding more) refl (omega arith)
      (ap (λ n. take n (s ++ (padding ++ more))) content ∙ take-append s (padding ++ more))

one_record :
    (fuel type id : ℕ) (s padding more : Bytes)
    → id < 65536
    → length s < 65536
    → length padding ≡ filling (length s)
    → read_records (suc fuel) (written_header type id (length s) ++ (s ++ (padding ++ more)))
      ≡ (do rs ← read_records fuel more; some ((type, id, s) ∷ rs))
unfolding written_header
one_record fuel type id s padding more h k f =
    rw (read_record-written_header type id s padding more h k f) refl

abbrev pub content_record : ℕ → Bytes → List Record
content_record id s = if ltb 0 (length s) then (6, id, s) ∷ [] else []

module _ (stack : ℕ → ℕ → Bytes) (stack_size : (i n : ℕ) → length (stack i n) ≡ n) where
  one_part :
      (fuel place id : ℕ) (s : Bytes) (more : List Bytes)
      → id < 65536
      → length s < 65536
      → read_records (suc fuel) (joined (part stack place id s ++ more))
        ≡ (do rs ← read_records fuel (joined more); some ((6, id, s) ∷ rs))
  unfolding part
  one_part fuel place id s more h k = elim (Bool-cases (ltb 0 (filling (length s)))) [
    | inl filled ↦
        rw (part, written_header, filled)
          (one_record fuel 6 id s (stack place (filling (length s))) (joined more) h k
            (stack_size place (filling (length s))))
    | inr not_filled ↦
        rw (part, written_header, not_filled)
          (one_record fuel 6 id s [] (joined more) h k (ground arith))
  ]

  length-end_body : length (end_body stack) ≡ 8
  unfolding end_body
  length-end_body = omega (
    arith,
    length-append (take 4 (stack 2 8)) (0 ∷ drop 5 (stack 2 8)),
    length-take 4 (stack 2 8),
    length-drop 5 (stack 2 8),
    stack_size 2 8,
  )

  read_last :
      (fuel id : ℕ)
      → id < 65536
      → read_records (suc fuel) (written_header 3 id 8 ++ (end_body stack ++ []))
        ≡ some ((3, id, end_body stack) ∷ [])
  read_last fuel id h =
      ap (λ n. read_records (suc fuel) (written_header 3 id n ++ (end_body stack ++ [])))
        (sym length-end_body)
      ∙ one_record fuel 3 id (end_body stack) [] [] h (omega (arith, length-end_body))
          (ap filling (sym length-end_body))

  read_end :
      (fuel id : ℕ)
      → id < 65536
      → read_records
          (suc (suc fuel))
          (joined (written_header 6 id 0 ∷ written_header 3 id 8 ∷ end_body stack ∷ []))
        ≡ some ((6, id, []) ∷ (3, id, end_body stack) ∷ [])
  read_end fuel id h =
      one_record (suc fuel) 6 id [] [] (written_header 3 id 8 ++ (end_body stack ++ [])) h
        (omega arith) refl
      ∙ ap (λ o. do rs ← o; some ((6, id, []) ∷ rs)) (read_last fuel id h)

  read_content :
      (fuel id : ℕ) (s : Bytes)
      → id < 65536
      → length s < 65536
      → read_records (suc (suc (suc fuel))) (
          joined (
            (if ltb 0 (length s) then part stack 1 id s else [])
            ++ written_header 6 id 0 ∷ written_header 3 id 8 ∷ end_body stack ∷ []))
        ≡ some (content_record id s ++ (6, id, []) ∷ (3, id, end_body stack) ∷ [])
  read_content fuel id s h k = elim (Bool-cases (ltb 0 (length s))) [
    | inl there ↦ rw there (
        one_part (suc (suc fuel)) 1 id s _ h k
        ∙ ap (λ o. do rs ← o; some ((6, id, s) ∷ rs)) (read_end fuel id h))
    | inr missing ↦ rw missing (read_end (suc fuel) id h)
  ]

  -- Whatever memory the code leaves unwritten, the stream that `send` writes is cut by the server's own splitter
  -- into these packages, all with the request's id: the headers with the empty line behind them, the content
  -- where there is one, the empty package that ends it, and the end of the request. The id is below 65536, the lines
  -- of the headers are below 65534 bytes and the content below 65536.
  pub read_records-send :
      (r : CgiRequest)
      → r.id < 65536
      → length (output_lines r.output_headers) < 65534
      → length r.output_content < 65536
      → read_records 4 (joined (send stack r))
        ≡ some (
            (6, r.id, output_lines r.output_headers ++ b'\r' ∷ b'\n' ∷ [])
              ∷ content_record r.id r.output_content
            ++ (6, r.id, []) ∷ (3, r.id, end_body stack) ∷ [])
  unfolding send
  read_records-send r h k c =
      let head = output_lines r.output_headers ++ b'\r' ∷ b'\n' ∷ [] in
      let ends = written_header 6 r.id 0 ∷ written_header 3 r.id 8 ∷ end_body stack ∷ [] in
      let rest =
        (if ltb 0 (length r.output_content) then part stack 1 r.id r.output_content else [])
        ++ ends in
      ap (λ ss. read_records 4 (joined ss)) (append_assoc (part stack 0 r.id head) _ ends)
      ∙ one_part 3 0 r.id head rest h
          (omega (arith, length-append (output_lines r.output_headers) (b'\r' ∷ b'\n' ∷ [])))
      ∙ ap (λ o. do rs ← o; some ((6, r.id, head) ∷ rs)) (read_content 0 r.id r.output_content h c)
