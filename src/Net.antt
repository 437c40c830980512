-- ===== src/Net.antt =====
-- src/net/NetworkService.cpp and deps/bundle-0.01/include/net/Netmessage.h: the wire format of the
-- messages of the network service, and the splitter that it gives to its socket server.
pub mod Wire
pub mod Stream
pub mod Service
pub mod Queue
pub mod Routes
mod Tests
use libbundle.Prelude.{
  ℕ, ◌+◌, ◌-◌, ◌%◌, ◌^◌, Bool, true, false, [], ◌∷◌, ◌++◌, Bytes, ltb, leb, ◌==◌, if◌then◌else◌,
  take, length,
}
use libbundle.ByteBuffer.{to_le, of_le}
use libbundle.Socket.Receive.{Split, incomplete, illegal, whole}

-- `sizeof(Netmessage)`: the packed fields `len`, `id`, `flags`, `timestamp`.
abbrev pub sizeof_netmessage : ℕ
sizeof_netmessage = 4 + 2 + 2 + 4

-- What `NetworkTask::sendMessage(msgid, msg)` hands to the server: the header and the serialised message.
unfoldable pub netmessage : ℕ → Bytes → Bytes
unfolding to_le
netmessage id payload =
    to_le 4 ((sizeof_netmessage + length payload) % 2 ^ 32)
    ++ (to_le 2 (id % 2 ^ 16) ++ (to_le 2 0 ++ (to_le 4 0 ++ payload)))

-- An `int` that is given a `u32`.
unfoldable pub split_of_u32 : ℕ → Split
split_of_u32 rc = if rc == 0 then incomplete else if leb (2 ^ 31) rc then illegal else whole rc

-- The splitter, with the field `len` at the front of the buffer.
unfoldable pub split_netmessage : Bytes → Split
unfolding of_le split_of_u32
split_netmessage q =
    if ltb (length q) sizeof_netmessage
    then incomplete
    else if ltb (length q) (of_le (take 4 q))
    then incomplete
    else split_of_u32 (of_le (take 4 q))
