-- ===== src/Socketmessage.antt =====
-- src/socket/Helper.h and Helper.cpp: the messages that the sockets, the workers and the servers
-- pass to one another. The descriptor -1 is `none`. The payload is the memory behind the header, whose
-- size is a `size_t`, while the field `payload_len` has 32 bits.
use libbundle.Prelude.{
  none, Bool, true, false, ℕ, ◌%◌, ◌^◌, Option, some, [], Bytes, ◌==◌, take, length, ◌>>◌, assert,
  replicate,
}

abbrev pub magic_value : ℕ
magic_value = 0x12345678

-- The opcodes, and a value that is none of them.
pub data Opcode : Type 0 where
  message establish close new_socket new_listening sol : Opcode

pub record Socketmessage : Type 0 where
  pub magic : ℕ
  pub s : Option ℕ
  pub opcode : Opcode
  pub payload_len : ℕ
  pub payload : Bytes

-- `allocateMessage(s, opcode)`.
unfoldable pub allocate : Option ℕ → Opcode → Socketmessage
allocate s opcode = record {
  magic = magic_value;
  s = s;
  opcode = opcode;
  payload_len = 0;
  payload = [];
}

-- `allocateMessage(s, opcode, payload, payload_len)`.
unfoldable pub allocate_payload : Option ℕ → Opcode → Bytes → Socketmessage
allocate_payload s opcode payload = record {
  magic = magic_value;
  s = s;
  opcode = opcode;
  payload_len = length payload % 2 ^ 32;
  payload = payload;
}

-- `allocateMessage(s, opcode, payload_len)`: the payload is uninitialised, zeros stand for it.
unfoldable pub allocate_blank : Option ℕ → Opcode → ℕ → Socketmessage
allocate_blank s opcode n = record {
  magic = magic_value;
  s = s;
  opcode = opcode;
  payload_len = n % 2 ^ 32;
  payload = replicate n 0;
}

-- The bytes that a reader of the message sees.
abbrev pub bytes : Socketmessage → Bytes
bytes m = take m.payload_len m.payload

-- `GET_MESSAGE_PAYLOAD` with `GET_MESSAGE_PAYLOAD_LENGTH`, and `GET_MESSAGE_SOCKET`.
unfoldable pub get_payload : Socketmessage → Option Bytes
get_payload m = do assert (m.magic == magic_value); some (bytes m)

unfoldable pub get_socket : Socketmessage → Option (Option ℕ)
get_socket m = do assert (m.magic == magic_value); some m.s

-- `allocateMessage(payload_len, payload)`.
unfoldable pub allocate_free : Bytes → Socketmessage
unfolding allocate_payload
allocate_free payload = allocate_payload none message payload

is_opcode : Opcode → Opcode → Bool
is_opcode establish establish = true
is_opcode close close = true
is_opcode op op' = false

-- `IS_ESTABLISH_MESSAGE` and `IS_CLOSE_MESSAGE`.
pub is_establish_message : Socketmessage → Option Bool
unfolding is_opcode
is_establish_message m = do assert (m.magic == magic_value); some (is_opcode m.opcode establish)

pub is_close_message : Socketmessage → Option Bool
unfolding is_opcode
is_close_message m = do assert (m.magic == magic_value); some (is_opcode m.opcode close)
