-- ===== src/Server/Routing.antt =====
-- Where the messages of src/socket/SocketServer.cpp go.
use libbundle.Prelude.{
  ltb, ◌+◌, ◌-◌, ◌%◌, ℕ, zero, suc, ◌<◌, ◌≡◌, ◌∙◌, refl, sym, ap, false, some, List, [], ◌∷◌, ◌++◌,
  ◌==◌, if◌then◌else◌, length, get_or, set, arith, lt→ltb, append_assoc, append-nil, Bool-cases,
  inl, inr,
}
use mathlib.Core.Path.{ap₂}
use libbundle.Socketmessage.{
  Socketmessage, Opcode, establish, close, message, new_socket, new_listening, sol, allocate,
  magic_value,
}
use libbundle.Worker.{push}
use libbundle.Server.{Server, worker_index, give, deliver, route, receive_queue, receive_message}

-- A worker's number is in range, and the master has no connection unless it is alone.
pub worker_index_bound :
    (count s : ℕ)
    → 0 < count
    → (worker_index count s < count) × (1 < count → 0 < worker_index count s)
unfolding worker_index
worker_index_bound count s h = (ground arith, λ k. ground arith)

-- The worker of a descriptor: the only one, or one of those behind the master by the remainder.
abbrev pub worker_of : ℕ → ℕ → ℕ
worker_of count s = if ltb 1 count then 1 + s % (count - 1) else 0

-- Of some connections that the master has accepted, those that are for the worker i.
abbrev pub given : ℕ → ℕ → List ℕ → List Socketmessage
given count i [] = []
given count i (s ∷ ss) =
    let rest = given count i ss in
    if worker_of count s == i then allocate (some s) new_socket ∷ rest else rest

-- Those that the code gives to it.
abbrev given_by : ℕ → ℕ → List ℕ → List Socketmessage
given_by count i [] = []
given_by count i (s ∷ ss) =
    let rest = given_by count i ss in
    if worker_index count s == i then allocate (some s) new_socket ∷ rest else rest

abbrev pub arrivals : List ℕ → List Socketmessage → List Socketmessage
arrivals [] rest = rest
arrivals (s ∷ ss) rest = allocate (some s) new_socket ∷ arrivals ss rest

module _ {ℓ} {A : Type ℓ} where
  pub length-set : (xs : List A) (i : ℕ) (v : A) → length (set xs i v) ≡ length xs
  length-set [] i v = refl
  length-set (x ∷ xs) zero v = refl
  length-set (x ∷ xs) (suc i) v = ap suc (length-set xs i v)

  pub get_or-set_same :
      (xs : List A) (i : ℕ) (v d : A) → i < length xs → get_or (set xs i v) i d ≡ v
  get_or-set_same [] i v d h = absurd (omega arith)
  get_or-set_same (x ∷ xs) zero v d h = refl
  get_or-set_same (x ∷ xs) (suc i) v d h = get_or-set_same xs i v d (omega arith)

  get_or-set_other :
      (xs : List A) (i j : ℕ) (v d : A) → (i == j) ≡ false → get_or (set xs i v) j d ≡ get_or xs j d
  get_or-set_other [] i j v d h = refl
  get_or-set_other (x ∷ xs) zero zero v d h = absurd (ground arith)
  get_or-set_other (x ∷ xs) zero (suc j) v d h = refl
  get_or-set_other (x ∷ xs) (suc i) zero v d h = refl
  get_or-set_other (x ∷ xs) (suc i) (suc j) v d h = get_or-set_other xs i j v d (ground arith)

-- The queues after one connection has been handed on.
abbrev handed : ℕ → List (List Socketmessage) → List (List Socketmessage)
handed s queues =
    let i = worker_index (length queues) s in
    set queues i (get_or queues i [] ++ allocate (some s) new_socket ∷ [])

receive_queue_hand :
    (s : ℕ) (msgs : List Socketmessage) (queues : List (List Socketmessage))
    → 0 < length queues
    → receive_queue (allocate (some s) new_socket ∷ msgs) queues
      ≡ receive_queue msgs (handed s queues)
unfolding receive_queue give push allocate route
receive_queue_hand s msgs queues h = rw (lt→ltb 0 (length queues) h) refl

handed-get_or :
    (s i : ℕ) (queues : List (List Socketmessage)) (ss : List ℕ)
    → 0 < length queues
    → get_or (handed s queues) i [] ++ given_by (length queues) i ss
      ≡ get_or queues i [] ++ given_by (length queues) i (s ∷ ss)
handed-get_or s i queues ss h = elim (Bool-cases (worker_index (length queues) s == i)) [
  | inl here ↦
      (let at : worker_index (length queues) s ≡ i = ground arith in
        rw (here, at)
          (ap (λ q. q ++ given_by (length queues) i ss)
              (get_or-set_same queues i (get_or queues i [] ++ allocate (some s) new_socket ∷ []) []
                (omega (arith, (worker_index_bound (length queues) s h).0)))
            ∙ append_assoc (get_or queues i []) (allocate (some s) new_socket ∷ [])
                (given_by (length queues) i ss)))
  | inr there ↦ rw there (
      ap (λ q. q ++ given_by (length queues) i ss)
        (get_or-set_other queues (worker_index (length queues) s) i _ [] there))
]

-- What the loop has done to the queues by the time it returns r.
record Routed (ss : List ℕ) (rest : List Socketmessage) (queues queues' : List (List Socketmessage))
    : Type 0 where
  runs : receive_queue (arrivals ss rest) queues ≡ receive_queue rest queues'
  same_length : length queues' ≡ length queues
  appended : (i : ℕ) → get_or queues' i [] ≡ get_or queues i [] ++ given_by (length queues) i ss

receive_queue_arrivals :
    (ss : List ℕ) (rest : List Socketmessage) (queues : List (List Socketmessage))
    → 0 < length queues
    → (queues' : List (List Socketmessage)) × Routed ss rest queues queues'
receive_queue_arrivals [] rest queues h = (
  queues,
  record { runs = refl; same_length = refl; appended = λ i. sym (append-nil (get_or queues i [])) },
)
receive_queue_arrivals (s ∷ ss) rest queues h =
    let i = worker_index (length queues) s in
    let size = length-set queues i (get_or queues i [] ++ allocate (some s) new_socket ∷ []) in
    let (queues', r) = receive_queue_arrivals ss rest (handed s queues) (omega (arith, size)) in
    (
      queues',
      record {
        runs = receive_queue_hand s (arrivals ss rest) queues h ∙ r.runs;
        same_length = r.same_length ∙ size;
        appended = λ j.
            r.appended j
            ∙ ap (λ n. get_or (handed s queues) j [] ++ given_by n j ss) size
            ∙ handed-get_or s j queues ss h;
      },
    )

receive_message_deliver :
    (server : Server) (queues : List (List Socketmessage)) (s : ℕ) (m : Socketmessage)
    (ms : List Socketmessage)
    → receive_queue server.read_queue server.processes ≡ receive_queue (m ∷ ms) queues
    → m.magic ≡ magic_value
    → m.s ≡ some s
    → route m.opcode ≡ deliver
    → receive_message server ≡ some (some m, record { read_queue = ms; processes = queues })
unfolding receive_message receive_queue
receive_message_deliver server queues s m ms e hm hs hr = rw e (simp (hm, hs, hr))

worker_index-worker_of : (count s : ℕ) → 0 < count → worker_index count s ≡ worker_of count s
unfolding worker_index
worker_index-worker_of count s h = ground arith

given_by-given : (count i : ℕ) (ss : List ℕ) → 0 < count → given_by count i ss ≡ given count i ss
given_by-given count i [] h = refl
given_by-given count i (s ∷ ss) h =
    ap₂ (λ w rest. if w == i then allocate (some s) new_socket ∷ rest else rest)
      (worker_index-worker_of count s h) (given_by-given count i ss h)

-- What a worker reports to the caller: an establishment, a closing or a message.
abbrev pub IsReport : Opcode → Type 0
IsReport establish = Unit
IsReport close = Unit
IsReport message = Unit
IsReport new_socket = ⊥
IsReport new_listening = ⊥
IsReport sol = ⊥

route-IsReport : (op : Opcode) → IsReport op → route op ≡ deliver
unfolding route
route-IsReport establish h = refl
route-IsReport close h = refl
route-IsReport message h = refl
route-IsReport new_socket h = elim h [ ]
route-IsReport new_listening h = elim h [ ]
route-IsReport sol h = elim h [ ]

-- `receiveMessage` returns the first establishment, closing or message, and leaves the ones behind it;
-- each new connection that stands before it is handed to the worker that its descriptor decides on, and
-- every worker gets its connections in their order, behind what was in its queue.
pub receive_message-routed :
    (ss : List ℕ) (s : ℕ) (m : Socketmessage) (ms : List Socketmessage)
    (queues : List (List Socketmessage))
    → 0 < length queues
    → m.magic ≡ magic_value
    → m.s ≡ some s
    → IsReport m.opcode
    → (queues' : List (List Socketmessage)) × (receive_message
          (record { read_queue = arrivals ss (m ∷ ms); processes = queues })
        ≡ some (some m, record { read_queue = ms; processes = queues' }))
      × (length queues' ≡ length queues)
      × ((i : ℕ) → get_or queues' i [] ≡ get_or queues i [] ++ given (length queues) i ss)
receive_message-routed ss s m ms queues h hm hs hr =
    let (queues', r) = receive_queue_arrivals ss (m ∷ ms) queues h in
    (
      queues',
      receive_message_deliver (record { read_queue = arrivals ss (m ∷ ms); processes = queues })
          queues' s m ms r.runs hm hs (route-IsReport m.opcode hr),
      r.same_length,
      λ i. r.appended i ∙ ap (λ l. get_or queues i [] ++ l) (given_by-given (length queues) i ss h),
    )
