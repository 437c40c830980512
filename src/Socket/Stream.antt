-- ===== src/Socket/Stream.antt =====
-- A stream of messages, and what src/socket/Socket.cpp does where more results of `recv` follow.
use libbundle.Prelude.{
  ◌<◌, ℕ, ◌+◌, ◌≤◌, ◌≡◌, ◌∙◌, ◌⊎◌, inl, inr, sym, ap, refl, Bool, true, false, Option, none, some,
  List, [], ◌∷◌, ◌++◌, Bytes, take, drop, length, arith, append_assoc, map, ◌>>=◌,
}
use mathlib.Core.Option.{none-ne-some}
use libbundle.ByteBuffer.{size_max, buffer_chunk_size}
use libbundle.ByteBuffer.Invariant.{contents}
use libbundle.ByteBuffer.Queue.{fill_lem, capacity-fill}
use libbundle.Socketmessage.{Socketmessage}
use libbundle.Socket.{Socket}
use libbundle.Socket.Receive.{
  Split, incomplete, RecvResult, received, would_block, readlen, Input, more, wait, lost,
  recv_round, Step, returns, receives, split_step, receive_loop,
}
use libbundle.Socket.Framing.{Frames, CanReceive, joined, split_step_waits, receive_loop_again}

-- No message in the stream yet: the splitter waits at each of its beginnings.
abbrev pub IsWaiting : (Bytes → Split) → Bytes → Type 0
IsWaiting splitter stream = (p q : Bytes) → stream ≡ p ++ q → splitter p ≡ incomplete

-- The stream is messages of these sizes, and behind them the beginning of one.
abbrev pub IsStream : (Bytes → Split) → Bytes → List ℕ → Type 0
IsStream splitter stream [] = IsWaiting splitter stream
IsStream splitter stream (n ∷ ns) =
    Frames splitter stream n × (n ≤ length stream) × IsStream splitter (drop n stream) ns

abbrev pub cut : Bytes → List ℕ → List Bytes
cut stream [] = []
cut stream (n ∷ ns) = take n stream ∷ cut (drop n stream) ns

abbrev Outcome : Type 0
Outcome = Bool × Option Socketmessage × Socket × List RecvResult

-- The outcome with more results of `recv` left.
abbrev extended : List RecvResult → Option Outcome → Option Outcome
extended later none = none
extended later (some (ok, msg, s, left)) = some (ok, msg, s, left ++ later)

abbrev StepCases : Option Step → Type 0
StepCases o =
    (o ≡ none)
    ⊎ (((ok : Bool) × (msg : Option Socketmessage) × (s : Socket) × (o ≡ some (returns ok msg s)))
        ⊎ ((s : Socket) × (o ≡ some (receives s))))

step_cases : (o : Option Step) → StepCases o
step_cases none = inl refl
step_cases (some (returns ok msg s)) = inr (inl (ok, msg, s, refl))
step_cases (some (receives s)) = inr (inr (s, refl))

module _ (splitter : Bytes → Split) (now : ℕ) where
  returned :
      (rs : List RecvResult) (s s' : Socket) (ok : Bool) (msg : Option Socketmessage)
      → split_step splitter now s ≡ some (returns ok msg s')
      → receive_loop splitter now rs s ≡ some (ok, msg, s', rs)
  unfolding receive_loop
  returned [] s s' ok msg e = rw e refl
  returned (r ∷ rs) s s' ok msg e = rw e refl

  stopped :
      (rs : List RecvResult) (s : Socket)
      → split_step splitter now s ≡ none
      → receive_loop splitter now rs s ≡ none
  unfolding receive_loop
  stopped [] s e = rw e refl
  stopped (r ∷ rs) s e = rw e refl

  out_of_results :
      (s s' : Socket)
      → split_step splitter now s ≡ some (receives s')
      → receive_loop splitter now [] s ≡ none
  unfolding receive_loop
  out_of_results s s' e = rw e refl

  after_input : List RecvResult → Socket → Input → Option Outcome
  after_input rs s' (more s'') = receive_loop splitter now rs s''
  after_input rs s' wait = some (true, none, s', rs)
  after_input rs s' lost = some (false, none, s', rs)

  another_round :
      (r : RecvResult) (rs : List RecvResult) (s s' : Socket)
      → split_step splitter now s ≡ some (receives s')
      → receive_loop splitter now (r ∷ rs) s ≡ (do input ← recv_round r s'; after_input rs s' input)
  unfolding receive_loop after_input
  another_round r rs s s' e = rw e (same (recv_round r s'))
    where
      same :
          (o : Option Input)
          → (do
            input ← o
            elim input [
              | more s'' ↦ receive_loop splitter now rs s''
              | wait ↦ some (true, none, s', rs)
              | lost ↦ some (false, none, s', rs)
            ])
            ≡ (do input ← o; after_input rs s' input)
      same none = refl
      same (some (more s'')) = refl
      same (some wait) = refl
      same (some lost) = refl

  -- Results of `recv` that a call of `receiveMessage` does not take are left for the next one.
  pub receive_loop-append :
      (rs later : List RecvResult) (s : Socket) (x : Outcome)
      → receive_loop splitter now rs s ≡ some x
      → receive_loop splitter now (rs ++ later) s ≡ extended later (some x)
  unfolding after_input
  receive_loop-append [] later s x e = elim (step_cases (split_step splitter now s)) [
    | inl q ↦ absurd (none-ne-some x (sym (stopped [] s q) ∙ e))
    | inr (inl (ok, msg, s', q)) ↦
        returned later s s' ok msg q ∙ ap (extended later) (sym (returned [] s s' ok msg q) ∙ e)
    | inr (inr (s', q)) ↦ absurd (none-ne-some x (sym (out_of_results s s' q) ∙ e))
  ]
  receive_loop-append (r ∷ rs) later s x e = elim (step_cases (split_step splitter now s)) [
    | inl q ↦ absurd (none-ne-some x (sym (stopped (r ∷ rs) s q) ∙ e))
    | inr (inl (ok, msg, s', q)) ↦
        returned (r ∷ rs ++ later) s s' ok msg q
        ∙ ap (extended later) (sym (returned (r ∷ rs) s s' ok msg q) ∙ e)
    | inr (inr (s', q)) ↦
        another_round r (rs ++ later) s s' q
        ∙ by_input (recv_round r s') s' (λ s''. receive_loop-append rs later s'' x)
            (sym (another_round r rs s s' q) ∙ e)
  ]
    where
      by_input :
          (o : Option Input) (s' : Socket)
          → ((s'' : Socket)
              → receive_loop splitter now rs s'' ≡ some x
              → receive_loop splitter now (rs ++ later) s'' ≡ extended later (some x))
          → (do input ← o; after_input rs s' input) ≡ some x
          → (do input ← o; after_input (rs ++ later) s' input) ≡ extended later (some x)
      by_input none s' again h = absurd (none-ne-some x h)
      by_input (some (more s'')) s' again h = again s'' h
      by_input (some wait) s' again h = ap (extended later) h
      by_input (some lost) s' again h = ap (extended later) h

  waited :
      (s : Socket)
      → (do input ← recv_round would_block s; after_input [] s input) ≡ some (true, none, s, [])
  unfolding recv_round after_input
  waited s = refl

  -- `receiveMessage` of a stream without a whole message waits for more.
  pub receive_loop-IsWaiting :
      (pieces : List Bytes) (s : Socket) (stream : Bytes)
      → CanReceive s pieces
      → contents s.rbuffer ++ joined pieces ≡ stream
      → IsWaiting splitter stream
      → (s' : Socket) × (receive_loop splitter now (map received pieces ++ would_block ∷ []) s
          ≡ some (true, none, s', []))
  receive_loop-IsWaiting [] s stream c e h =
      let steps = split_step_waits splitter now s c.buffer (h (contents s.rbuffer) [] (sym e)) in
      (s, another_round would_block [] s s steps ∙ waited s)
  receive_loop-IsWaiting (p ∷ pieces) s stream c e h =
      let fits : readlen + buffer_chunk_size + s.rbuffer.capacity < size_max =
        omega (arith, c.room) in
      let (b, f, v, d) = fill_lem s.rbuffer readlen p c.buffer fits c.small.0 in
      let c' : CanReceive (record s { rbuffer = b }) pieces = record {
        buffer = v;
        small = c.small.1;
        room = omega (arith, c.room, capacity-fill s.rbuffer b readlen p f fits);
      } in
      let e' : contents b ++ joined pieces ≡ stream =
        ap (λ q. q ++ joined pieces) d ∙ append_assoc (contents s.rbuffer) p (joined pieces) ∙ e in
      let steps =
        split_step_waits splitter now s c.buffer
          (h (contents s.rbuffer) (joined (p ∷ pieces)) (sym e)) in
      let (s', k) = receive_loop-IsWaiting pieces (record s { rbuffer = b }) stream c' e' h in
      (
        s',
        receive_loop_again splitter now (map received pieces ++ would_block ∷ []) s p b steps f ∙ k,
      )
