-- ===== src/ByteBuffer/Refine.antt =====
-- Any sequence of `append` and `read` on src/tools/ByteBuffer.cpp does what a plain queue of bytes
-- does, and integers come back in the order in which they were written.
use libbundle.Prelude.{
  ℕ, ◌+◌, ◌<◌, ◌≡◌, ◌∙◌, refl, ap, [], ◌∷◌, ◌++◌, Bytes, arith, true, some, none, Option, leb,
  if◌then◌else◌, take, drop, length, ◌>>=◌, Bool-cases, inl, inr, List,
}
use libbundle.ByteBuffer.{ByteBuffer, size_max, buffer_chunk_size, append, read}
use libbundle.ByteBuffer.Invariant.{IsValid, contents}
use libbundle.ByteBuffer.Queue.{append_lem, capacity-append, read_lem, read_underflow}

pub data Op : Type 0 where
  put : Bytes → Op
  get : ℕ → Op

-- The operations in turn, with what the reads return.
pub run : ByteBuffer → List Op → Option (List Bytes × ByteBuffer)
run b [] = some ([], b)
run b (put s ∷ ops) = do b' ← append b s; run b' ops
run b (get n ∷ ops) = do (s, b') ← read b n; (outs, last) ← run b' ops; some (s ∷ outs, last)

-- The same on a queue of bytes, where only a read past the end fails.
pub run_queue : Bytes → List Op → Option (List Bytes × Bytes)
run_queue q [] = some ([], q)
run_queue q (put s ∷ ops) = run_queue (q ++ s) ops
run_queue q (get n ∷ ops) =
    let rest = run_queue (drop n q) ops in
    if leb n (length q) then (do (outs, last) ← rest; some (take n q ∷ outs, last)) else none

-- What the operations may add to the capacity, and what they read.
unfoldable pub cost : List Op → ℕ
cost [] = 0
cost (put s ∷ ops) = length s + buffer_chunk_size + cost ops
cost (get n ∷ ops) = n + cost ops

-- The result of a run, with the buffer seen as its unread bytes.
abbrev pub seen : Option (List Bytes × ByteBuffer) → Option (List Bytes × Bytes)
seen none = none
seen (some (outs, b)) = some (outs, contents b)

capacity-read :
    (b b' : ByteBuffer) (n : ℕ) (s : Bytes) → read b n ≡ some (s, b') → b'.capacity ≡ b.capacity
unfolding read
capacity-read b b' n s e = ground arith

seen-bind :
    (s : Bytes) (o : Option (List Bytes × ByteBuffer))
    → seen (do (outs, last) ← o; some (s ∷ outs, last))
      ≡ (do (outs, last) ← seen o; some (s ∷ outs, last))
seen-bind s none = refl
seen-bind s (some (outs, b)) = refl

-- One read of a sequence, where the buffer and the queue agree on what follows.
run-run_queue_get :
    (n : ℕ) (ops : List Op) (b b' : ByteBuffer) (q : Bytes)
    → read b n ≡ some (take n q, b')
    → leb n (length q) ≡ true
    → seen (run b' ops) ≡ run_queue (drop n q) ops
    → seen (run b (get n ∷ ops)) ≡ run_queue q (get n ∷ ops)
unfolding run run_queue
run-run_queue_get n ops b b' q e enough ih =
    rw (e, enough, ← ih) (seen-bind (take n q) (run b' ops))

-- The buffer refines the queue: it returns the same bytes, keeps the same bytes unread, and stops at
-- the same reads, for every sequence of operations whose sizes stay below 2 ^ 64 together.
pub run-run_queue :
    (ops : List Op) (b : ByteBuffer)
    → IsValid b
    → b.capacity + buffer_chunk_size + cost ops < size_max
    → seen (run b ops) ≡ run_queue (contents b) ops
unfolding run run_queue cost
run-run_queue [] b v f = refl
run-run_queue (put s ∷ ops) b v f =
    let (b', e, v', c) = append_lem b s v (omega arith) in
    rw (e, ← c) (run-run_queue ops b' v' (omega (arith, capacity-append b b' s e (omega arith))))
run-run_queue (get n ∷ ops) b v f = elim (Bool-cases (leb n (length (contents b)))) [
  | inl enough ↦
      (let (b', e, v', c) = read_lem b n v (ground arith) in
        run-run_queue_get n ops b b' (contents b) e enough (
          run-run_queue ops b' v' (omega (arith, capacity-read b b' n _ e))
          ∙ ap (λ q. run_queue q ops) c))
  | inr short ↦ rw (short, read_underflow b n v (ground arith) (omega (arith, v.ordered, v.within)))
]
