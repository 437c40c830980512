-- ===== src/Net/Service.antt =====
-- `NetworkService::update` of src/net/NetworkService.cpp, with its table of tasks, one for each connection.
-- The three callbacks are set; what they are called with is the result.
use libbundle.Prelude.{
  ℕ, ◌%◌, ◌^◌, ◌≡◌, ◌∙◌, refl, ap, Option, none, some, List, [], ◌∷◌, ◌++◌, Bytes, ◌==◌,
  if◌then◌else◌, take, length, ◌>>=◌, ◌>>◌, assert, arith, map, All, Bool-cases, inl, inr, ==_iff,
  take_all, take-take, ◌≤◌, ◌<◌,
}
use mathlib.Core.Option.{none-ne-some}
use libbundle.ByteBuffer.{of_le}
use libbundle.Socketmessage.{
  Socketmessage, Opcode, message, establish, close, allocate, allocate_payload, bytes, magic_value,
}
use libbundle.Socket.Receive.{whole}
use libbundle.Net.{split_netmessage, split_of_u32}
use libbundle.Worker.{remove}
use libbundle.Worker.Events.{has, change, follow}

-- A call of a callback; a null task is `none`.
pub data Call : Type 0 where
  establish_connection : Option ℕ → Call
  lost_connection : ℕ → Call
  parse_message : ℕ → Bytes → Call

-- `spawnConnection`.
unfoldable pub spawn_connection : ℕ → List ℕ → Option ℕ × List ℕ
unfolding has
spawn_connection s tasks = if has s tasks then (none, tasks) else (some s, s ∷ tasks)

-- A message that is neither an establishment nor a closing, for the task of s.
unfoldable pub parse_for : ℕ → Socketmessage → List ℕ → Option (List Call × List ℕ)
unfolding has of_le
parse_for s msg tasks =
    if has s tasks
    then (do
      assert (msg.payload_len == of_le (take 4 (bytes msg)))
      some (parse_message s (bytes msg) ∷ [], tasks))
    else some ([], tasks)

unfoldable pub update_opcode : Opcode → ℕ → Socketmessage → List ℕ → Option (List Call × List ℕ)
unfolding spawn_connection parse_for remove
update_opcode establish s msg tasks =
    let (task, tasks') = spawn_connection s tasks in some (establish_connection task ∷ [], tasks')
update_opcode close s msg tasks =
    some (if has s tasks then (lost_connection s ∷ [], remove s tasks) else ([], tasks))
update_opcode op s msg tasks = parse_for s msg tasks

-- The loop of `update`, over what the server has received.
unfoldable pub update_loop : List Socketmessage → List ℕ → Option (List Call × List ℕ)
unfolding update_opcode
update_loop [] tasks = some ([], tasks)
update_loop (msg ∷ msgs) tasks = do
  assert (msg.magic == magic_value)
  s ← msg.s
  (calls, tasks') ← update_opcode msg.opcode s msg tasks
  (more, last) ← update_loop msgs tasks'
  some (calls ++ more, last)

-- What a server may report.
pub data Report : Type 0 where
  stands gone : ℕ → Report
  says : ℕ → Bytes → Report

abbrev pub message_of : Report → Socketmessage
message_of (stands s) = allocate (some s) establish
message_of (gone s) = allocate (some s) close
message_of (says s q) = allocate_payload (some s) message q

abbrev pub call_of : Report → Call
call_of (stands s) = establish_connection (some s)
call_of (gone s) = lost_connection s
call_of (says s q) = parse_message s q

-- A message starts with its length.
abbrev pub Framed : Report → Type 0
Framed (stands s) = Unit
Framed (gone s) = Unit
Framed (says s q) = (length q % 2 ^ 32 ≡ length q) × (of_le (take 4 q) ≡ length q)

update_one :
    (r : Report) (ms : List Socketmessage) (ks ks' : List ℕ)
    → Framed r
    → change (message_of r).opcode (message_of r).s ks ≡ some ks'
    → update_loop (message_of r ∷ ms) ks
      ≡ (do (more, last) ← update_loop ms ks'; some (call_of r ∷ more, last))
unfolding update_loop update_opcode spawn_connection parse_for change allocate allocate_payload
update_one (stands s) ms ks ks' f e = elim (Bool-cases (has s ks)) [
  | inl old ↦ absurd (ground arith)
  | inr new ↦
      (let q : s ∷ ks ≡ ks' = ground arith in
        rw new (
          ap
            (λ k. do
              (more, last) ← update_loop ms k
              some (establish_connection (some s) ∷ more, last))
            q))
]
update_one (gone s) ms ks ks' f e = elim (Bool-cases (has s ks)) [
  | inl old ↦
      (let q : remove s ks ≡ ks' = ground arith in
        rw old
          (ap (λ k. do (more, last) ← update_loop ms k; some (lost_connection s ∷ more, last)) q))
  | inr new ↦ absurd (ground arith)
]
update_one (says s p) ms ks ks' (small, framed) e = elim (Bool-cases (has s ks)) [
  | inl old ↦
      (let q : ks ≡ ks' = ground arith in
        let all : take (length p) p ≡ p = take_all (length p) p (omega arith) in
        rw (old, small, all, framed, (==_iff (length p) (length p)).1 refl)
          (ap (λ k. do (more, last) ← update_loop ms k; some (parse_message s p ∷ more, last)) q))
  | inr new ↦ absurd (ground arith)
]

follow-change :
    (m : Socketmessage) (ms : List Socketmessage) (ks ks' : List ℕ)
    → follow ks (m ∷ ms) ≡ some ks'
    → (k : List ℕ) × (change m.opcode m.s ks ≡ some k) × (follow k ms ≡ some ks')
unfolding follow
follow-change m ms ks ks' = by_change (change m.opcode m.s ks)
  where
    by_change :
        (o : Option (List ℕ))
        → (do k ← o; follow k ms) ≡ some ks'
        → (k : List ℕ) × (o ≡ some k) × (follow k ms ≡ some ks')
    by_change none h = absurd (none-ne-some _ h)
    by_change (some k) h = (k, refl, h)

follow_end : (ks ks' : List ℕ) → follow ks [] ≡ some ks' → ks ≡ ks'
unfolding follow
follow_end ks ks' e = cc

update_loop-Framed :
    (rs : List Report) (ks ks' : List ℕ)
    → All Framed rs
    → follow ks (map message_of rs) ≡ some ks'
    → update_loop (map message_of rs) ks ≡ some (map call_of rs, ks')
update_loop-Framed [] ks ks' f e =
    unfold update_loop in ap (λ k. some ([], k)) (follow_end ks ks' e)
update_loop-Framed (r ∷ rs) ks ks' (fr, f) e =
    let (k, c, e') = follow-change (message_of r) (map message_of rs) ks ks' e in
    update_one r (map message_of rs) ks k fr c
    ∙ ap (λ o. do (more, last) ← o; some (call_of r ∷ more, last))
        (update_loop-Framed rs k ks' f e')

-- What a message of the server is: the bytes that its splitter cut off the front of a stream. Those are four at least.
abbrev pub IsCut : Report → Type 0
IsCut (stands s) = Unit
IsCut (gone s) = Unit
IsCut (says s q) =
    (stream : Bytes) × (split_netmessage stream ≡ whole (length q))
    × (q ≡ take (length q) stream)
    × (4 ≤ length q)

-- Where the splitter cuts.
split_netmessage-whole :
    (stream : Bytes) (n : ℕ)
    → split_netmessage stream ≡ whole n
    → (of_le (take 4 stream) ≡ n) × (n < 2 ^ 31)
unfolding split_netmessage split_of_u32
split_netmessage-whole stream n e = (ground arith, ground arith)

IsCut-Framed : (r : Report) → IsCut r → Framed r
IsCut-Framed (stands s) c = tt
IsCut-Framed (gone s) c = tt
IsCut-Framed (says s q) (stream, e, f, h) =
    let (len, small) = split_netmessage-whole stream (length q) e in
    (omega arith, ap (λ p. of_le (take 4 p)) f ∙ ap of_le (take-take 4 (length q) stream h) ∙ len)

All-IsCut-Framed : (rs : List Report) → All IsCut rs → All Framed rs
All-IsCut-Framed [] c = tt
All-IsCut-Framed (r ∷ rs) (c, cs) = (IsCut-Framed r c, All-IsCut-Framed rs cs)

-- For every history of a server in which establishments, messages and closings are in a legal order, and each message
-- is at least four bytes that the splitter of the service has cut off a stream: `update` calls back once for
-- each report, in order, with a task that stands; no assertion fails; and afterwards the tasks are exactly the
-- connections that stand.
pub update_loop-follow :
    (rs : List Report) (ks ks' : List ℕ)
    → All IsCut rs
    → follow ks (map message_of rs) ≡ some ks'
    → update_loop (map message_of rs) ks ≡ some (map call_of rs, ks')
update_loop-follow rs ks ks' c e = update_loop-Framed rs ks ks' (All-IsCut-Framed rs c) e
