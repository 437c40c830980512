-- ===== src/Server/Tests.antt =====
-- src/socket/SocketServer.cpp at concrete inputs.
use libbundle.Prelude.{
  true, replicate, length-replicate, ℕ, ◌≡◌, refl, some, List, [], ◌∷◌, ◌++◌, length, get_or, arith,
}
use libbundle.Socketmessage.{Socketmessage, establish, allocate, new_socket}
use libbundle.Server.{receive_message, worker_index}
use libbundle.Server.Options.{set_option, get_option, get_option-set_option}
use libbundle.Server.Routing.{given, arrivals, receive_message-routed, IsReport}

-- A master and two workers, one of which has something to do.
abbrev queues : List (List Socketmessage)
queues = [] ∷ (allocate (some 4) new_socket ∷ []) ∷ [] ∷ []

establish-magic : (allocate (some 4) establish).magic ≡ 0x12345678
unfolding allocate
establish-magic = refl

establish-s : (allocate (some 4) establish).s ≡ some 4
unfolding allocate
establish-s = refl

establish-IsReport : IsReport (allocate (some 4) establish).opcode
unfolding allocate
establish-IsReport = tt

-- Three connections wait before the message.
receive_message-routed_example :
    (queues' : List (List Socketmessage)) × (receive_message (record {
      read_queue = arrivals (5 ∷ 6 ∷ 7 ∷ []) (allocate (some 4) establish ∷ []);
      processes = queues;
    })
      ≡ some (some (allocate (some 4) establish), record { read_queue = []; processes = queues' }))
    × (length queues' ≡ length queues)
    × ((i : ℕ)
        → get_or queues' i [] ≡ get_or queues i [] ++ given (length queues) i (5 ∷ 6 ∷ 7 ∷ []))
receive_message-routed_example =
    receive_message-routed (5 ∷ 6 ∷ 7 ∷ []) 4 (allocate (some 4) establish) [] queues (omega arith)
      establish-magic establish-s establish-IsReport

-- The second worker gets 5 and 7.
given_second :
    given 3 2 (5 ∷ 6 ∷ 7 ∷ []) ≡ allocate (some 5) new_socket ∷ allocate (some 7) new_socket ∷ []
unfolding worker_index
given_second = refl

-- Four bytes are stored for the option 3.
get_option-set_option_test :
    (opts' : List ℕ) × (set_option 3 (some (60 ∷ 0 ∷ 0 ∷ 1 ∷ [])) (replicate 128 7) ≡ (true, opts'))
    × (length opts' ≡ 128)
    × (get_option 3 4 opts' ≡ some (60 ∷ 0 ∷ 0 ∷ 1 ∷ []))
get_option-set_option_test =
    get_option-set_option 3 (60 ∷ 0 ∷ 0 ∷ 1 ∷ []) (replicate 128 7) (omega arith) (omega arith)
      (length-replicate {A = ℕ} 128 7) (omega arith) (omega arith)
