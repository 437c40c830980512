-- ===== src/Net/Tests.antt =====
-- src/net/NetworkService.cpp at concrete inputs.
use libbundle.Prelude.{
  ◌||◌, ℕ, All, ◌≡◌, refl, true, false, some, List, [], ◌∷◌, ◌++◌, Bytes, arith, map,
}
use libbundle.Worker.{remove, Worker, lookup}
use libbundle.Worker.Polling.{read_loop}
use libbundle.Worker.Stream.{messages_of, read_loop-IsStream}
use libbundle.Socket.Stream.{cut}
use libbundle.Net.Stream.{texts, sent, sizes, sent-IsStream, read_loop-sent}
use libbundle.Worker.Events.{follow, change, has}
use libbundle.Net.Service.{
  Report, stands, gone, says, IsCut, message_of, call_of, update_loop, update_loop-follow,
}
use libbundle.ByteBuffer.{to_le, of_le}
use libbundle.ByteBuffer.Invariant.{contents}
use libbundle.Socketmessage.{message, allocate, allocate_payload}
use libbundle.Socket.{Socket}
use libbundle.Socket.Receive.{whole, received, would_block, receive_loop}
use libbundle.Socket.Framing.{CanReceive, joined}
use libbundle.Net.{netmessage, split_netmessage, split_of_u32}
use libbundle.Tables.{nat_key, contains_key}
use libbundle.Net.Queue.{Arrived, recv_failed, arrived, Tasks, handle_all, check_size}
use libbundle.Net.Routes.{valid_messages, has_route, IsOwn, handle_all_lem}
use libbundle.Net.Wire.{receive-netmessage, split_netmessage_undersized}

abbrev connection : Socket
connection = record {
  fd = 5;
  is_listening = false;
  rbuffer = record { buf = []; capacity = 0; rindex = 0; windex = 0 };
  wbuffer = record { buf = []; capacity = 0; rindex = 0; windex = 0 };
  sendlist = [];
  last_second = 0;
  count_message = [];
  total_message = 0;
}

-- The message 3 with the payload 7, 8, followed by the first byte of the next one, in two pieces.
abbrev pieces : List Bytes
pieces = (14 ∷ 0 ∷ 0 ∷ 0 ∷ 3 ∷ []) ∷ (0 ∷ 0 ∷ 0 ∷ 0 ∷ 0 ∷ 0 ∷ 0 ∷ 7 ∷ 8 ∷ 9 ∷ []) ∷ []

connection-CanReceive : CanReceive connection pieces
connection-CanReceive = record { buffer = omega arith; small = omega arith; room = omega arith }

pieces_lem : contents connection.rbuffer ++ joined pieces ≡ netmessage 3 (7 ∷ 8 ∷ []) ++ (9 ∷ [])
unfolding netmessage to_le
pieces_lem = refl

receive-netmessage_test :
    (s' : Socket) × (left : List Bytes) × (receive_loop split_netmessage 100
        (map received pieces)
        connection
      ≡ some (
        true,
        some (allocate_payload (some 5) message (netmessage 3 (7 ∷ 8 ∷ []))),
        s',
        map received left,
      ))
    × (contents s'.rbuffer ++ joined left ≡ 9 ∷ [])
receive-netmessage_test =
    receive-netmessage 100 3 (7 ∷ 8 ∷ []) (9 ∷ []) pieces connection (omega arith)
      connection-CanReceive pieces_lem

split_netmessage_undersized_test :
    split_netmessage (5 ∷ 0 ∷ 0 ∷ 0 ∷ 0 ∷ 0 ∷ 0 ∷ 0 ∷ 0 ∷ 0 ∷ 0 ∷ 0 ∷ []) ≡ whole 5
split_netmessage_undersized_test =
    split_netmessage_undersized (5 ∷ 0 ∷ 0 ∷ 0 ∷ 0 ∷ 0 ∷ 0 ∷ 0 ∷ 0 ∷ 0 ∷ 0 ∷ 0 ∷ []) 5
      (unfold of_le in refl) (omega arith) (omega arith) (omega arith)

-- A connection is established, says something, and is closed, while another one stands.
abbrev reports : List Report
reports = stands 3 ∷ says 3 (6 ∷ 0 ∷ 0 ∷ 0 ∷ 1 ∷ 2 ∷ []) ∷ gone 3 ∷ []

-- The six bytes stand in front of others in the stream.
reports-IsCut : All IsCut reports
unfolding split_netmessage split_of_u32 of_le
reports-IsCut =
    (tt, ((6 ∷ 0 ∷ 0 ∷ 0 ∷ 1 ∷ 2 ∷ 12 ∷ 0 ∷ 0 ∷ 0 ∷ 3 ∷ 4 ∷ [], refl, refl, omega arith), (tt, tt)))

reports-legal : follow (9 ∷ []) (map message_of reports) ≡ some (9 ∷ [])
unfolding follow change has remove allocate allocate_payload
reports-legal = refl

update_loop-follow_example :
    update_loop (map message_of reports) (9 ∷ []) ≡ some (map call_of reports, 9 ∷ [])
update_loop-follow_example =
    update_loop-follow reports (9 ∷ []) (9 ∷ []) reports-IsCut reports-legal

-- A worker with this connection, which has read nothing yet.
abbrev worker : Worker
worker = record {
  sockets = (5, connection) ∷ [];
  fds = 6;
  send_queue = [];
  recv_queue = [];
  total_connections = 1;
  opts = [];
  polled = 5 ∷ [];
  watches = λ s. true;
}

abbrev two : List (ℕ × Bytes)
two = (3, 7 ∷ 8 ∷ []) ∷ (4, []) ∷ []

-- The two messages in three pieces.
abbrev three_pieces : List Bytes
three_pieces =
    (14 ∷ 0 ∷ 0 ∷ 0 ∷ 3 ∷ [])
    ∷ (0 ∷ 0 ∷ 0 ∷ 0 ∷ 0 ∷ 0 ∷ 0 ∷ 7 ∷ 8 ∷ 12 ∷ [])
    ∷ (0 ∷ 0 ∷ 0 ∷ 4 ∷ 0 ∷ 0 ∷ 0 ∷ 0 ∷ 0 ∷ 0 ∷ 0 ∷ [])
    ∷ []

three_pieces-CanReceive : CanReceive connection three_pieces
three_pieces-CanReceive = record { buffer = omega arith; small = omega arith; room = omega arith }

three_pieces_lem : contents connection.rbuffer ++ joined three_pieces ≡ sent two
unfolding netmessage to_le
three_pieces_lem = refl

connection_there : lookup 5 worker.sockets ≡ some connection
unfolding lookup
connection_there = refl

read_loop-sent_example :
    (w' : Worker) × (read_loop split_netmessage 100 3
        (map received three_pieces ++ would_block ∷ [])
        5
        worker
      ≡ some (true, w'))
    × (w'.recv_queue ≡ [] ++ messages_of 5 (texts two))
read_loop-sent_example =
    read_loop-sent 100 5 two three_pieces connection worker connection_there three_pieces-CanReceive
      three_pieces_lem (omega arith)

read_loop-IsStream_example :
    (w' : Worker) × (read_loop split_netmessage 100 3
        (map received three_pieces ++ would_block ∷ [])
        5
        worker
      ≡ some (true, w'))
    × (w'.recv_queue ≡ [] ++ messages_of 5 (cut (sent two) (sizes two)))
read_loop-IsStream_example =
    read_loop-IsStream split_netmessage 100 5 (sizes two) (sent two) three_pieces connection worker
      connection_there three_pieces-CanReceive three_pieces_lem (sent-IsStream two (omega arith))

-- A new route sends a message, then one that says that it is longer than it is.
abbrev arrivals : List Arrived
arrivals =
    arrived 6 (12 ∷ 0 ∷ 0 ∷ 0 ∷ 3 ∷ 0 ∷ 0 ∷ 0 ∷ 0 ∷ 0 ∷ 0 ∷ 0 ∷ [])
    ∷ recv_failed
    ∷ arrived 7 (13 ∷ 0 ∷ 0 ∷ 0 ∷ 3 ∷ 0 ∷ 0 ∷ 0 ∷ 0 ∷ 0 ∷ 0 ∷ 0 ∷ [])
    ∷ []

handle_all_lem_example :
    (tasks' : Tasks) × (handle_all arrivals ((2, 2) ∷ []) ≡ some (valid_messages arrivals, tasks'))
    × IsOwn tasks'
    × ((k : ℕ)
        → contains_key tasks' k
          ≡ (contains_key {V = ℕ} ((2, 2) ∷ []) k || has_route k (valid_messages arrivals)))
handle_all_lem_example = handle_all_lem arrivals ((2, 2) ∷ []) (omega arith) (refl, tt)

one_call : valid_messages arrivals ≡ (6, 12 ∷ 0 ∷ 0 ∷ 0 ∷ 3 ∷ 0 ∷ 0 ∷ 0 ∷ 0 ∷ 0 ∷ 0 ∷ 0 ∷ []) ∷ []
unfolding check_size of_le
one_call = refl
