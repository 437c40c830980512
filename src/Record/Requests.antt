-- ===== src/Record/Requests.antt =====
-- src/protocol/recordserver.h: what the server reads of a request that a client wrote.
use libbundle.Prelude.{
  ℕ, ◌+◌, ◌%◌, ◌^◌, ◌<◌, ◌≡◌, ◌∙◌, ap, sym, true, false, some, [], ◌++◌, Bytes, if◌then◌else◌, take,
  drop, length, arith, take_all,
}
use libbundle.ByteBuffer.{to_le, of_le}
use libbundle.Record.{
  Kind, id_of_kind, kind_of, has_data, sizeof_object, sizeof_request, data_request, plain_request,
  field_at, len_of, datalen_of, data_of, request_size,
}
use libbundle.Record.Wire.{
  IsName, Reads, behind_header, header_id, header_len, header_objectid, header_rest, header_shard,
  header_table, length-object_header, q, small_le, id_of_kind_small, kind_of-id_of_kind,
}

data_sized : (k : Kind) → has_data k ≡ true → sizeof_request k ≡ sizeof_object + 4
data_sized k d = ap (λ b. if b then sizeof_object + 4 else sizeof_object) d

request_size_data :
    (k : Kind) (q : Bytes) (n : ℕ)
    → has_data k ≡ true
    → sizeof_object + 4 + n ≡ length q
    → datalen_of q ≡ n
    → request_size k q ≡ some (length q)
unfolding request_size
request_size_data k q n d l e = ground (arith, data_sized k d)

module _ (k : Kind) (shard : ℕ) (table : Bytes) (objectid : ℕ) (js : Bytes) (d : has_data k ≡ true)
    (small : sizeof_request k + length js < 2 ^ 32) where
  abbrev len : ℕ
  len = sizeof_request k + length js % 2 ^ 32

  abbrev tail : Bytes
  tail = to_le 4 (length js % 2 ^ 32) ++ js

  abbrev request : Bytes
  request = data_request k shard table objectid js

  request_datalen : datalen_of request ≡ length js
  unfolding data_request field_at
  request_datalen =
      ap (λ l. of_le (take 4 l)) (header_rest len (id_of_kind k) shard table objectid tail)
      ∙ small_le 4 (length js % 2 ^ 32) js (omega arith)
      ∙ omega arith

  request_data : data_of request ≡ js
  unfolding data_request to_le
  request_data =
      ap (λ n. take n (drop 44 request)) request_datalen
      ∙ ap (take (length js)) (behind_header len (id_of_kind k) shard table objectid tail 4)
      ∙ take_all (length js) js (omega arith)

  length-request : length request ≡ sizeof_object + 4 + length js
  unfolding data_request to_le
  length-request = omega (arith, length-object_header len (id_of_kind k) shard table objectid tail)

  request_len : len_of request ≡ length request
  unfolding data_request
  request_len =
      header_len len (id_of_kind k) shard table objectid tail
      ∙ omega (arith, data_sized k d, length-request)

-- A request with data is read as it was written: its kind, size, shard, table, object and data, if the name of the
-- table has at most 15 bytes and no zero byte, the numbers fit their fields, and the message has less than 2 ^ 32
-- bytes.
pub data_request-Reads :
    (k : Kind) (shard : ℕ) (table : Bytes) (objectid : ℕ) (js : Bytes)
    → has_data k ≡ true
    → shard < 2 ^ 32
    → IsName table
    → objectid < 2 ^ 64
    → sizeof_request k + length js < 2 ^ 32
    → Reads k shard table objectid (data_request k shard table objectid js)
      × (data_of (data_request k shard table objectid js) ≡ js)
unfolding data_request
data_request-Reads k shard table objectid js d s n o small =
    let len = sizeof_request k + length js % 2 ^ 32 in
    let rest = to_le 4 (length js % 2 ^ 32) ++ js in
    let id = id_of_kind k in
    let stated = request_len k shard table objectid js d small in
    (
      record {
        kind =
            ap kind_of (header_id len id shard table objectid rest (id_of_kind_small k))
            ∙ kind_of-id_of_kind k;
        size =
            request_size_data k (data_request k shard table objectid js) (length js) d
              (sym (length-request k shard table objectid js d small))
              (request_datalen k shard table objectid js d small)
            ∙ ap some (sym stated);
        length_stated = stated;
        shard_read = header_shard len id shard table objectid rest s;
        table_read = header_table len id shard table objectid rest n;
        objectid_read = header_objectid len id shard table objectid rest o;
      },
      request_data k shard table objectid js d small,
    )

request_size_plain :
    (k : Kind) (q : Bytes) → has_data k ≡ false → request_size k q ≡ some sizeof_object
unfolding request_size
request_size_plain k q d = ground arith

-- The same for a request without data.
pub plain_request-Reads :
    (k : Kind) (shard : ℕ) (table : Bytes) (objectid : ℕ)
    → has_data k ≡ false
    → shard < 2 ^ 32
    → IsName table
    → objectid < 2 ^ 64
    → Reads k shard table objectid (plain_request k shard table objectid)
unfolding plain_request
plain_request-Reads k shard table objectid d s n o =
    let len = sizeof_request k in
    let id = id_of_kind k in
    let fixed : len ≡ sizeof_object = ap (λ b. if b then sizeof_object + 4 else sizeof_object) d in
    let stated : len_of (plain_request k shard table objectid) ≡ sizeof_object =
      header_len len id shard table objectid [] ∙ ap (λ n. n % 2 ^ 32) fixed in
    record {
      kind =
          ap kind_of (header_id len id shard table objectid [] (id_of_kind_small k))
          ∙ kind_of-id_of_kind k;
      size = request_size_plain k (plain_request k shard table objectid) d ∙ ap some (sym stated);
      length_stated = stated ∙ sym (length-object_header len id shard table objectid []);
      shard_read = header_shard len id shard table objectid [] s;
      table_read = header_table len id shard table objectid [] n;
      objectid_read = header_objectid len id shard table objectid [] o;
    }
