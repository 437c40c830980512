-- ===== src/Record.antt =====
-- src/protocol/recordserver.h: the messages between the record server and its clients, byte for byte, as the
-- constructors of the two sides fill them and as the other side reads them.
pub mod Columns
pub mod Outside
pub mod Store
pub mod Saving
pub mod Loading
pub mod Altering
pub mod Slot
pub mod Total
pub mod Answers
pub mod Schedule
pub mod Server
pub mod Client
pub mod Widening
pub mod Wire
pub mod Requests
pub mod Exchange
pub mod Forgotten
pub mod Statement
pub mod Routing
mod Tests
use libbundle.Prelude.{
  ℕ, ◌+◌, ◌%◌, ◌^◌, Bool, Option, none, some, [], ◌∷◌, ◌++◌, Bytes, leb, ◌==◌, if◌then◌else◌, take,
  drop, length, replicate, ◌>>=◌, ◌>>◌, assert,
}
use libbundle.ByteBuffer.{to_le, of_le}
use libbundle.Clib.{c_str}

-- `RECORD_ERRCODE`.
abbrev pub record_ok : ℕ
record_ok = 0

abbrev pub record_illegal_json_string : ℕ
record_illegal_json_string = 100

abbrev pub record_not_found_object : ℕ
record_not_found_object = 101

abbrev pub record_serialize_error : ℕ
record_serialize_error = 103

abbrev pub record_delete_error : ℕ
record_delete_error = 104

-- The requests.
pub data Kind : Type 0 where
  serialize_request unserialize_request delete_request select_request alter_request : Kind

abbrev pub id_of_kind : Kind → ℕ
id_of_kind serialize_request = 0x101
id_of_kind unserialize_request = 0x103
id_of_kind delete_request = 0x105
id_of_kind select_request = 0x107
id_of_kind alter_request = 0x109

-- The id of the answer.
abbrev pub response_id : Kind → ℕ
response_id serialize_request = 0x102
response_id unserialize_request = 0x104
response_id delete_request = 0x106
response_id select_request = 0x108
response_id alter_request = 0x10a

-- The labels of the switches over the id.
unfoldable pub kind_of : ℕ → Option Kind
kind_of id =
    if id == 0x101
    then some serialize_request
    else if id == 0x103
    then some unserialize_request
    else if id == 0x105
    then some delete_request
    else if id == 0x107
    then some select_request
    else if id == 0x109
    then some alter_request
    else none

-- Whether the request ends with `datalen` and data.
abbrev pub has_data : Kind → Bool
has_data serialize_request = Bool.true
has_data unserialize_request = Bool.false
has_data delete_request = Bool.false
has_data select_request = Bool.true
has_data alter_request = Bool.true

-- `sizeof` of a message with a header, shard, table and objectid; and of a request.
abbrev pub sizeof_object : ℕ
sizeof_object = 12 + 4 + 16 + 8

abbrev pub sizeof_request : Kind → ℕ
sizeof_request k = if has_data k then sizeof_object + 4 else sizeof_object

-- `strncpy` into a field of n bytes: the text up to its zero byte, cut off or filled with zeros.
unfoldable pub strncpy : ℕ → Bytes → Bytes
unfolding c_str
strncpy n s = take n (c_str s ++ replicate n 0)

-- What all messages begin with.
unfoldable pub object_header : ℕ → ℕ → ℕ → Bytes → ℕ → Bytes → Bytes
unfolding to_le strncpy
object_header len id shard table objectid rest =
    to_le 4 (len % 2 ^ 32)
    ++ (to_le 2 id
        ++ (to_le 2 0
            ++ (to_le 4 0 ++ (to_le 4 shard ++ (strncpy 16 table ++ (to_le 8 objectid ++ rest))))))

-- A request with data, whose `size()` is the value of `len`, and one without.
unfoldable pub data_request : Kind → ℕ → Bytes → ℕ → Bytes → Bytes
unfolding object_header to_le
data_request k shard table objectid js =
    object_header (sizeof_request k + length js % 2 ^ 32) (id_of_kind k) shard table objectid
      (to_le 4 (length js % 2 ^ 32) ++ js)

unfoldable pub plain_request : Kind → ℕ → Bytes → ℕ → Bytes
unfolding object_header
plain_request k shard table objectid =
    object_header (sizeof_request k) (id_of_kind k) shard table objectid []

-- An answer with a result only; and the one to an unserialize request, with data.
unfoldable pub plain_response : Kind → ℕ → Bytes → ℕ → ℕ → Bytes
unfolding object_header to_le
plain_response k shard table objectid retval =
    object_header (sizeof_object + 4) (response_id k) shard table objectid (to_le 4 retval)

unfoldable pub unserialize_response : ℕ → Bytes → ℕ → ℕ → Bytes → Bytes
unfolding object_header to_le
unserialize_response shard table objectid retval js =
    object_header (sizeof_object + 8 + length js % 2 ^ 32) (response_id unserialize_request) shard
      table objectid (to_le 4 retval ++ (to_le 4 (length js % 2 ^ 32) ++ js))

-- A field of n bytes at an offset.
unfoldable pub field_at : ℕ → ℕ → Bytes → ℕ
unfolding of_le
field_at off n q = of_le (take n (drop off q))

abbrev pub len_of : Bytes → ℕ
len_of q = field_at 0 4 q

abbrev pub id_of : Bytes → ℕ
id_of q = field_at 4 2 q

abbrev pub shard_of : Bytes → ℕ
shard_of q = field_at 12 4 q

-- `msg->table` where it is used as a string: up to the first zero byte, which may stand behind the field.
abbrev pub table_of : Bytes → Bytes
table_of q = c_str (drop 16 q)

abbrev pub objectid_of : Bytes → ℕ
objectid_of q = field_at 32 8 q

-- `datalen` and the data of a request.
abbrev pub datalen_of : Bytes → ℕ
datalen_of q = field_at 40 4 q

abbrev pub data_of : Bytes → Bytes
data_of q = take (datalen_of q) (drop 44 q)

-- `retval` of an answer, and the data of the answer to an unserialize request.
abbrev pub retval_of : Bytes → ℕ
retval_of q = field_at 40 4 q

abbrev pub response_datalen_of : Bytes → ℕ
response_datalen_of q = field_at 44 4 q

abbrev pub response_data_of : Bytes → Bytes
response_data_of q = take (response_datalen_of q) (drop 48 q)

-- `request->size()`; `none` is a read of `datalen` behind the end of the message.
unfoldable pub request_size : Kind → Bytes → Option ℕ
unfolding field_at
request_size k q =
    if has_data k
    then (do assert (leb (sizeof_request k) (length q)); some (sizeof_request k + datalen_of q))
    else some (sizeof_request k)
