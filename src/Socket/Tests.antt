-- ===== src/Socket/Tests.antt =====
-- src/socket/Socket.cpp at concrete inputs.
use libbundle.Prelude.{
  ◌+◌, ◌*◌, ◌%◌, ◌^◌, ◌≡◌, refl, Bool, true, false, some, List, [], ◌∷◌, ◌++◌, Bytes, length, arith,
  map, leb, if◌then◌else◌, get_or, replicate,
}
use libbundle.ByteBuffer.{ByteBuffer}
use libbundle.ByteBuffer.Invariant.{contents}
use libbundle.Socketmessage.{Socketmessage, message, magic_value, allocate_payload}
use libbundle.Socket.{Socket, accepts, would_block, failed, flush, count_message_span}
use libbundle.Socket.Send.{CanSend, pending}
use libbundle.Socket.Delivery.{flush_delivers, flush_drops_blocked}
use libbundle.Socket.Conserve.{flush_conserves, Kept}
use libbundle.Socket.Receive.{
  Split, incomplete, whole, received, receive_loop, received_message, recent_message,
}
use libbundle.Socket.Framing.{Frames, CanReceive, joined, receive_loop-Frames}
use libbundle.Socket.Counters.{recent_message_stale}

-- Two bytes of which the second is still to be sent, or to be read.
abbrev half : ByteBuffer
half = record { buf = 7 ∷ 8 ∷ []; capacity = 2; rindex = 1; windex = 2 }

abbrev drained : ByteBuffer
drained = record { buf = 7 ∷ 8 ∷ []; capacity = 2; rindex = 0; windex = 0 }

abbrev two_bytes : Socketmessage
two_bytes = record {
  magic = magic_value;
  s = some 5;
  opcode = message;
  payload_len = 2;
  payload = 1 ∷ 2 ∷ [];
}

abbrev connection : ByteBuffer → List Socketmessage → Socket
connection b list = record {
  fd = 5;
  is_listening = false;
  rbuffer = half;
  wbuffer = b;
  sendlist = list;
  last_second = 0;
  count_message = replicate count_message_span 0;
  total_message = 0;
}

half-CanSend : CanSend (connection half (two_bytes ∷ []))
half-CanSend = record { buffer = omega arith; messages = (omega arith, tt); room = omega arith }

drained-CanSend : CanSend (connection drained (two_bytes ∷ []))
drained-CanSend = record { buffer = omega arith; messages = (omega arith, tt); room = omega arith }

-- The kernel takes one byte, then one of the message, then the rest.
flush_runs :
    (s' : Socket) × (flush
        (accepts 1 ∷ accepts 1 ∷ accepts 9 ∷ [])
        (connection half (two_bytes ∷ []))
      ≡ some (true, s', 8 ∷ 1 ∷ 2 ∷ []))
unfolding flush
flush_runs = (_, refl)

flush_delivers_example :
    (s' : Socket) × (flush
        (accepts 1 ∷ accepts 1 ∷ accepts 9 ∷ [])
        (connection half (two_bytes ∷ []))
      ≡ some (true, s', 8 ∷ 1 ∷ 2 ∷ []))
    × (pending s' ≡ [])
flush_delivers_example =
    flush_delivers (1 ∷ 1 ∷ 9 ∷ []) (connection half (two_bytes ∷ [])) half-CanSend (omega arith)
      (omega arith)

flush_drops_blocked_test :
    flush (would_block ∷ []) (connection drained (two_bytes ∷ []))
    ≡ some (true, connection drained [], [])
flush_drops_blocked_test =
    flush_drops_blocked [] (connection drained (two_bytes ∷ [])) two_bytes [] drained-CanSend refl
      refl

flush_conserves_example :
    (ok : Bool) × (s' : Socket) × (wire : Bytes) × (dropped : List Socketmessage) × (flush
        (accepts 1 ∷ would_block ∷ failed ∷ [])
        (connection half (two_bytes ∷ []))
      ≡ some (ok, s', wire))
    × Kept (connection half (two_bytes ∷ [])) s' wire dropped
flush_conserves_example =
    flush_conserves (accepts 1 ∷ would_block ∷ failed ∷ []) (connection half (two_bytes ∷ []))
      half-CanSend (λ e. cc, (λ e. cc, (λ e. cc, tt))) (omega arith)

-- A splitter for messages of three bytes.
abbrev by_three : Bytes → Split
by_three q = if leb 3 (length q) then whole 3 else incomplete

by_three-Frames : Frames by_three (8 ∷ 1 ∷ 2 ∷ 3 ∷ []) 3
by_three-Frames = record { waits = λ p q e h. ground arith; finds = λ p q e h. ground arith }

half-CanReceive : CanReceive (connection half []) ((1 ∷ []) ∷ (2 ∷ 3 ∷ []) ∷ [])
half-CanReceive = record { buffer = omega arith; small = omega arith; room = omega arith }

receive_loop-Frames_example :
    (s' : Socket) × (left : List Bytes) × (receive_loop by_three 100
        (received (1 ∷ []) ∷ received (2 ∷ 3 ∷ []) ∷ [])
        (connection half [])
      ≡ some
          (true, some (allocate_payload (some 5) message (8 ∷ 1 ∷ 2 ∷ [])), s', map received left))
    × (contents s'.rbuffer ++ joined left ≡ 3 ∷ [])
    × CanReceive s' left
receive_loop-Frames_example =
    receive_loop-Frames by_three 100 3 (8 ∷ 1 ∷ 2 ∷ 3 ∷ []) ((1 ∷ []) ∷ (2 ∷ 3 ∷ []) ∷ [])
      (connection half []) by_three-Frames half-CanReceive refl (omega arith)

recent_message_stale_test :
    recent_message (100 + count_message_span * 3) (received_message 100 (connection half [])) 1
    ≡ (get_or (connection half []).count_message (100 % count_message_span) 0 + 1) % 2 ^ 32
recent_message_stale_test = recent_message_stale (connection half []) 100 3 refl (omega arith)
