-- ===== src/Worker/Expiry.antt =====
-- `checkSocket` of src/socket/WorkerProcess.cpp removes the sockets that have expired, and no other one.
use libbundle.Prelude.{
  ℕ, ◌+◌, ◌≤◌, ◌<◌, ◌≡◌, Bool, false, ◌||◌, ◌&&◌, ◌%◌, ◌^◌, ◌-◌, leb, Option, none, some, List, ltb,
  ◌==◌, if◌then◌else◌, get_or,
}
use libbundle.ByteBuffer.{size_max}
use libbundle.Socket.{Socket}
use libbundle.Socket.Receive.{recent_message}
use libbundle.Worker.{
  Worker, bundle_sol_silence_second, bundle_sol_threshold_message, bundle_sol_threshold_interval,
  lookup,
}
use libbundle.Worker.Tracking.{Tracks}

-- Silent for too long: a limit is set, and so many seconds have gone since the last byte, in 64 bits.
abbrev pub is_silent : ℕ → List ℕ → Socket → Bool
is_silent now opts so =
    ltb 0 (get_or opts bundle_sol_silence_second 0)
    && leb (get_or opts bundle_sol_silence_second 0) ((now + size_max - so.last_second) % size_max)

-- Too many messages: a limit and an interval are set, and more messages than that have come in the interval.
abbrev pub is_busy : ℕ → List ℕ → Socket → Bool
is_busy now opts so =
    ltb 0 (get_or opts bundle_sol_threshold_message 0)
    && ltb 0 (get_or opts bundle_sol_threshold_interval 0)
    && ltb (get_or opts bundle_sol_threshold_message 0)
        (recent_message now so (get_or opts bundle_sol_threshold_interval 0 % 2 ^ 32))

-- What should become of an entry of the table.
abbrev pub survivor : ℕ → List ℕ → Option Socket → Option Socket
survivor now opts none = none
survivor now opts (some so) =
    if so.is_listening
    then some so
    else if is_silent now opts so || is_busy now opts so
    then none
    else some so

-- A round of the loop decides about the socket s, and leaves the other ones alone.
record Checked (now s n : ℕ) (w w' : Worker) : Type 0 where
  tracks : Tracks n w'
  same_opts : w'.opts ≡ w.opts
  decided : lookup s w'.sockets ≡ survivor now w.opts (lookup s w.sockets)
  others : (j : ℕ) → (j == s) ≡ false → lookup j w'.sockets ≡ lookup j w.sockets

-- What a scan from the descriptor s up to the descriptor e has done.
record Scanned (now s e n : ℕ) (w w' : Worker) : Type 0 where
  tracks : Tracks n w'
  scanned : (j : ℕ) → s ≤ j → j < e → lookup j w'.sockets ≡ survivor now w.opts (lookup j w.sockets)
  before : (j : ℕ) → j < s → lookup j w'.sockets ≡ lookup j w.sockets
  behind : (j : ℕ) → e ≤ j → lookup j w'.sockets ≡ lookup j w.sockets
