-- ===== src/Socket/Counters.antt =====
-- The counters of src/socket/Socket.cpp: one for each second of a minute.
use libbundle.Prelude.{
  ℕ, zero, suc, ◌+◌, ◌*◌, ◌-◌, ◌%◌, ◌^◌, ◌<◌, ◌≡◌, refl, List, [], ◌∷◌, arith, get_or, set, length,
}
use libbundle.ByteBuffer.{size_max}
use libbundle.Socket.{Socket, count_message_span}
use libbundle.Socket.Receive.{received_message, recent_message}

get_or-set_self : (xs : List ℕ) (i v : ℕ) → i < length xs → get_or (set xs i v) i 0 ≡ v
get_or-set_self [] i v h = absurd (omega arith)
get_or-set_self (x ∷ xs) zero v h = refl
get_or-set_self (x ∷ xs) (suc i) v h = get_or-set_self xs i v (omega arith)

-- A message is counted in the second in which it is received, and in the same second of every later
-- minute too: `recentMessage(1)`, asked k minutes later, still counts it, whatever k is.
pub recent_message_stale :
    (s : Socket) (now k : ℕ)
    → length s.count_message ≡ count_message_span
    → now + count_message_span * k < size_max
    → recent_message (now + count_message_span * k) (received_message now s) 1
      ≡ (get_or s.count_message (now % count_message_span) 0 + 1) % 2 ^ 32
unfolding recent_message received_message
recent_message_stale s now k len fits =
    let slot : (now + count_message_span * k + size_max - 0) % size_max % count_message_span
        ≡ now % count_message_span =
      omega arith in
    rw
      (
        slot,
        get_or-set_self s.count_message (now % count_message_span)
            ((get_or s.count_message (now % count_message_span) 0 + 1) % 2 ^ 32) (omega arith),
      )
      (omega arith)
