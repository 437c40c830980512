-- ===== src/Worker/Posting.antt =====
-- What other threads ask of a worker, src/socket/WorkerProcess.cpp: each call puts a message into its queue.
use libbundle.Prelude.{
  ℕ, Bool, true, false, ◌&&◌, Option, none, some, Bytes, ltb, leb, if◌then◌else◌, length, ◌>>◌,
  assert,
}
use libbundle.ByteBuffer.{of_le}
use libbundle.Socketmessage.{
  Socketmessage, message, close, new_socket, new_listening, sol, allocate, allocate_payload,
  allocate_blank,
}
use libbundle.Worker.{Worker, bundle_sol_max, push}

unfoldable pub push_message : Socketmessage → Worker → Worker
unfolding push
push_message msg w = record w { send_queue = push msg w.send_queue }

unfoldable pub post_socket : ℕ → Bool → Worker → Worker
unfolding push_message
post_socket s is_listening w =
    push_message (allocate (some s) (if is_listening then new_listening else new_socket)) w

unfoldable pub post_close : ℕ → Worker → Worker
unfolding push_message
post_close s w = push_message (allocate (some s) close) w

-- `pushMessage(s, msg)`.
unfoldable pub post_message : ℕ → Socketmessage → Worker → Worker
unfolding push_message
post_message s msg w = push_message (record msg { s = some s }) w

-- `pushMessage(s, payload, payload_len)`.
unfoldable pub post_payload : ℕ → Bytes → Worker → Option Worker
unfolding push_message
post_payload s payload w = do
  assert (ltb 0 (length payload))
  some (push_message (allocate_payload (some s) message payload) w)

-- The tests that the functions for the options start with; `none` is a null pointer.
unfoldable pub is_option : ℕ → Option Bytes → Bool
is_option opt none = false
is_option opt (some optval) = ltb 0 opt && ltb opt bundle_sol_max && leb (length optval) 8

-- `setsockopt`: the value goes into the length of a message without a payload of its own.
unfoldable pub post_option : ℕ → Option Bytes → Worker → Bool × Worker
unfolding is_option push_message of_le
post_option opt none w = (false, w)
post_option opt (some optval) w =
    if is_option opt (some optval)
    then (true, push_message (allocate_blank (some opt) sol (of_le optval)) w)
    else (false, w)
