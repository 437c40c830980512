-- ===== src/Worker/Tests.antt =====
-- src/socket/WorkerProcess.cpp at concrete inputs.
use libbundle.Prelude.{
  ◌++◌, Bytes, ℕ, ◌+◌, ◌≡◌, refl, true, false, none, some, List, [], ◌∷◌, arith,
}
use libbundle.ByteBuffer.{ByteBuffer, size, slice, fill, rlength}
use libbundle.Socket.Receive.{
  Split, incomplete, whole, received, would_block, receive_loop, split_step, split_message, unread,
  after_split, recv_round, received_message,
}
use libbundle.Worker.Polling.{Event, ready, failing, occur_all}
use libbundle.Worker.Polled.{occur_all-Tracks}
use libbundle.Socketmessage.{
  message, allocate_payload, new_listening, new_socket, close, allocate, establish,
}
use libbundle.Socket.{SendResult, flush}
use libbundle.Worker.{Worker, handle_message, fresh, remove, is_expired}
use libbundle.Worker.Events.{follow, change, has}
use libbundle.Worker.Tracking.{Tracks}
use libbundle.Worker.Handling.{handle_message-Tracks}
use libbundle.Worker.Expiry.{survivor}

-- A worker that has just been started, with two sockets on their way to it, and one of them to be closed.
abbrev started : Worker
started = record {
  sockets = [];
  fds = 0;
  send_queue =
      allocate (some 3) new_listening ∷ allocate (some 7) new_socket ∷ allocate (some 3) close ∷ [];
  recv_queue = [];
  total_connections = 0;
  opts = 0 ∷ 0 ∷ 60 ∷ 0 ∷ 0 ∷ [];
  polled = [];
  watches = λ s. true;
}

started-Tracks : Tracks 0 started
unfolding follow
started-Tracks = record {
  known = refl;
  counted = refl;
  polling = refl;
  few = omega arith;
  owned = tt;
}

quiet : ℕ → List SendResult
quiet s = []

-- What has become of it at the second 100.
abbrev serving : Worker
serving = record started {
  sockets = (7, fresh 100 7 false) ∷ [];
  fds = 8;
  send_queue = [];
  recv_queue =
      allocate (some 3) establish ∷ allocate (some 7) establish ∷ allocate (some 3) close ∷ [];
  total_connections = 1;
  polled = 7 ∷ [];
}

started-serving : handle_message 100 (quiet ∷ quiet ∷ quiet ∷ []) started ≡ some serving
unfolding handle_message allocate
started-serving = refl

handle_message-Tracks_example : Tracks (0 + 3) serving
handle_message-Tracks_example =
    handle_message-Tracks 100 (quiet ∷ quiet ∷ quiet ∷ []) 0 started serving
      (unfold allocate in omega arith) started-Tracks started-serving

-- The silent socket leaves the table.
survivor_silent : survivor 160 serving.opts (some (fresh 100 7 false)) ≡ none
unfolding fresh is_expired
survivor_silent = refl

-- A worker whose only socket has memory for eight bytes.
abbrev eight : ByteBuffer
eight = record { buf = 0 ∷ 0 ∷ 0 ∷ 0 ∷ 0 ∷ 0 ∷ 0 ∷ 0 ∷ []; capacity = 8; rindex = 0; windex = 0 }

abbrev connected : Worker
connected = record serving {
  sockets =
      (
        7,
        record {
          fd = 7;
          is_listening = false;
          rbuffer = eight;
          wbuffer = eight;
          sendlist = [];
          last_second = 100;
          count_message = [];
          total_message = 0;
        },
      )
      ∷ [];
}

connected-Tracks : Tracks 1 connected
unfolding follow change has remove allocate
connected-Tracks = record {
  known = refl;
  counted = refl;
  polling = refl;
  few = omega arith;
  owned = (refl, tt);
}

-- Each byte is a message.
abbrev by_one : Bytes → Split
by_one [] = incomplete
by_one (x ∷ q) = whole 1

-- Two bytes arrive, and then the connection breaks.
abbrev events : List Event
events =
    ready 7 (some (101, 3, received (1 ∷ 2 ∷ []) ∷ would_block ∷ [], []))
      (some (SendResult.accepts 5 ∷ []))
    ∷ failing 7
    ∷ []

abbrev parted : Worker
parted = record connected {
  sockets = [];
  polled = [];
  total_connections = 0;
  recv_queue =
      connected.recv_queue
      ++ allocate_payload (some 7) message (1 ∷ [])
        ∷ allocate_payload (some 7) message (2 ∷ [])
        ∷ allocate (some 7) close
        ∷ [];
}

connected-parted : occur_all by_one events connected ≡ some parted
unfolding occur_all receive_loop split_step split_message unread size slice after_split recv_round
    fill rlength received_message flush
connected-parted = refl

occur_all-Tracks_example : Tracks 1 parted
occur_all-Tracks_example =
    occur_all-Tracks by_one events 1 connected parted connected-Tracks connected-parted
