-- ===== src/Record/Schedule.antt =====
-- The two threads at a slot of server/recordserver/src/RecordProcess.cpp: the main thread's `request` and `update`, and the
-- slot's `synchronous`, in every order.
use libbundle.Prelude.{
  subst, ℕ, ◌≡◌, ◌∙◌, ◌⊎◌, ap, refl, sym, Bool, true, Option, some, List, [], ◌∷◌, ◌++◌, ◌>>=◌, inl,
  inr, All, append_assoc, append-nil, map, All-append,
}
use libbundle.Record.{kind_of, id_of, shard_of}
use libbundle.Record.Outside.{Outside}
use libbundle.Record.Slot.{Message, Slot, post, reply, serve, synchronous}
use libbundle.Record.Total.{IsAnswering}
use libbundle.Record.Answers.{Answers, AllAnswers, AllAnswers-end, Adds, handle_kind-Answered}

-- What happens at a slot: the main thread puts a request into the queue, the thread of the slot takes one and
-- works on it, if there is one, and the main thread takes an answer, while `stands` says which sockets have a
-- connection.
pub data Action : Type 0 where
  arrives : Message → Action
  works : Action
  delivers : (ℕ → Bool) → Action

-- The requests that arrive.
abbrev pub arrivals : List Action → List Message
arrivals [] = []
arrivals (arrives msg ∷ actions) = msg ∷ arrivals actions
arrivals (works ∷ actions) = arrivals actions
arrivals (delivers stands ∷ actions) = arrivals actions

module _ {Db Float : Type 0} (outside : Outside Db Float) where
  unfoldable pub act : Action → Slot Db Float → Option (List (Message × Bool) × Slot Db Float)
  unfolding post synchronous reply
  act (arrives msg) slot = some ([], post msg slot)
  act works slot = do slot' ← synchronous outside (true ∷ []) slot; some ([], slot')
  act (delivers stands) slot = some (reply stands slot)

  -- The answers that are taken, in order, and the slot at the end.
  unfoldable pub run : List Action → Slot Db Float → Option (List (Message × Bool) × Slot Db Float)
  unfolding act
  run [] slot = some ([], slot)
  run (a ∷ actions) slot = do
    (taken, slot') ← act a slot
    (more, last) ← run actions slot'
    some (taken ++ more, last)

abbrev pub messages : List (Message × Bool) → List Message
messages = map (λ p. p.0)

arrivals_cons :
    (a : Action) (actions : List Action)
    → arrivals (a ∷ actions) ≡ arrivals (a ∷ []) ++ arrivals actions
arrivals_cons (arrives msg) actions = refl
arrivals_cons works actions = refl
arrivals_cons (delivers stands) actions = refl

messages-append : (l k : List (Message × Bool)) → messages (l ++ k) ≡ messages l ++ messages k
messages-append [] k = refl
messages-append (p ∷ l) k = ap (◌∷◌ p.0) (messages-append l k)

queue_cases : (l : List Message) → (l ≡ []) ⊎ ((x : Message) × (xs : List Message) × (l ≡ x ∷ xs))
queue_cases [] = inl refl
queue_cases (x ∷ xs) = inr (x, xs, refl)

-- The requests of a shard.
abbrev pub IsLocal : ℕ → List Message → Type 0
IsLocal k = All (λ msg. shard_of msg.1 ≡ k)

module _ {Db Float : Type 0} where
  -- The state between actions: of the requests that came so far, some are handled and the others wait; the answers
  -- to the handled ones are those that were taken and those that wait.
  record Between (k : ℕ) (came : List Message) (taken : List Message) (slot : Slot Db Float)
      : Type 0 where
    handled : List Message
    waiting : came ≡ handled ++ slot.wlist
    replied : AllAnswers handled (taken ++ slot.rlist)
    shard : slot.shard ≡ k
    local : IsLocal k slot.wlist

  post-Between :
      (k : ℕ) (came taken : List Message) (slot : Slot Db Float) (msg : Message)
      → shard_of msg.1 ≡ k
      → Between k came taken slot
      → Between k (came ++ msg ∷ []) taken (post msg slot)
  unfolding post
  post-Between k came taken slot msg e b = record {
    handled = b.handled;
    waiting = ap (λ l. l ++ msg ∷ []) b.waiting ∙ append_assoc b.handled slot.wlist (msg ∷ []);
    replied = b.replied;
    shard = b.shard;
    local = All-append _ slot.wlist (msg ∷ []) b.local (e, tt);
  }

  reply-Between :
      (k : ℕ) (came taken : List Message) (slot : Slot Db Float) (stands : ℕ → Bool)
      → Between k came taken slot
      → Between k came (taken ++ messages (reply stands slot).0) (reply stands slot).1
  unfolding reply
  reply-Between k came taken slot stands b = elim (queue_cases slot.rlist) [
    | inl e ↦ rw (e, reply) (subst (λ l. Between k came l slot) (sym (append-nil taken)) b)
    | inr (msg, rest, e) ↦
        rw (e, reply)
          (record {
            handled = b.handled;
            waiting = b.waiting;
            replied =
                subst (AllAnswers b.handled)
                  (ap (λ l. taken ++ l) e ∙ sym (append_assoc taken (msg ∷ []) rest)) b.replied;
            shard = b.shard;
            local = b.local;
          })
  ]

  -- The next request, with the answers that its handling adds.
  serve-Between :
      (k : ℕ) (came taken : List Message) (slot after : Slot Db Float) (msg : Message)
      (rest out : List Message)
      → slot.wlist ≡ msg ∷ rest
      → Adds (record slot { wlist = rest }) after out
      → Answers (kind_of (id_of msg.1)) msg out
      → Between k came taken slot
      → Between k came taken after
  serve-Between k came taken slot after msg rest out e adds a b = record {
    handled = b.handled ++ msg ∷ [];
    waiting =
        b.waiting
        ∙ ap (λ l. b.handled ++ l) e
        ∙ sym (append_assoc b.handled (msg ∷ []) rest)
        ∙ ap (λ l. (b.handled ++ msg ∷ []) ++ l) (sym adds.queue);
    replied =
        subst (AllAnswers (b.handled ++ msg ∷ []))
          (append_assoc taken slot.rlist out ∙ ap (λ l. taken ++ l) (sym adds.behind))
          (AllAnswers-end b.handled (taken ++ slot.rlist) out msg b.replied a);
    shard = adds.shard ∙ b.shard;
    local = subst (IsLocal k) (sym adds.queue) (subst (IsLocal k) e b.local).1;
  }

module _ {Db Float : Type 0} (outside : Outside Db Float) (answers : IsAnswering outside) where
  works-Between :
      (k : ℕ) (came taken : List Message) (slot : Slot Db Float)
      → Between k came taken slot
      → (after : Slot Db Float) × (synchronous outside (true ∷ []) slot ≡ some after)
        × Between k came taken after
  unfolding synchronous serve
  works-Between k came taken slot b = elim (queue_cases slot.wlist) [
    | inl e ↦ rw (e, synchronous) (slot, refl, b)
    | inr (msg, rest, e) ↦
        let (after, out, f, adds, a) =
          handle_kind-Answered outside answers (kind_of (id_of msg.1)) msg
            (record slot { wlist = rest }) ((subst (IsLocal k) e b.local).0 ∙ sym b.shard) in
        rw (e, synchronous, serve, f)
          (after, refl, serve-Between k came taken slot after msg rest out e adds a b)
  ]

  Ends : ℕ → List Message → List Message → List Action → Slot Db Float → Type 0
  Ends k came taken actions slot =
      (out : List (Message × Bool)) × (after : Slot Db Float) × (run outside actions slot
        ≡ some (out, after))
      × Between k (came ++ arrivals actions) (taken ++ messages out) after

  step-Ends :
      (k : ℕ) (a : Action) (actions : List Action) (came taken : List Message)
      (slot slot' : Slot Db Float) (t : List (Message × Bool))
      → act outside a slot ≡ some (t, slot')
      → Ends k (came ++ arrivals (a ∷ [])) (taken ++ messages t) actions slot'
      → Ends k came taken (a ∷ actions) slot
  unfolding Ends run
  step-Ends k a actions came taken slot slot' t e (out, after, f, b) = (
    t ++ out,
    after,
    rw (run, e, f) refl,
    subst (λ l. Between k l (taken ++ messages (t ++ out)) after)
        (append_assoc came (arrivals (a ∷ [])) (arrivals actions)
          ∙ ap (λ l. came ++ l) (sym (arrivals_cons a actions)))
        (subst (λ l. Between k ((came ++ arrivals (a ∷ [])) ++ arrivals actions) l after)
          (append_assoc taken (messages t) (messages out)
            ∙ ap (λ l. taken ++ l) (sym (messages-append t out)))
          b),
  )

  run-Between :
      (k : ℕ) (actions : List Action) (came taken : List Message) (slot : Slot Db Float)
      → IsLocal k (arrivals actions)
      → Between k came taken slot
      → Ends k came taken actions slot
  unfolding Ends run act
  run-Between k [] came taken slot h b = ([], slot, refl, rw (append-nil came, append-nil taken) b)
  run-Between k (arrives msg ∷ actions) came taken slot (e, h) b =
      step-Ends k (arrives msg) actions came taken slot (post msg slot) [] refl (
        run-Between k actions (came ++ msg ∷ []) (taken ++ []) (post msg slot) h
          (rw (append-nil taken) (post-Between k came taken slot msg e b)))
  run-Between k (works ∷ actions) came taken slot h b =
      let (after, e, b') = works-Between k came taken slot b in
      step-Ends k works actions came taken slot after [] (rw (act, e) refl) (
        run-Between k actions (came ++ []) (taken ++ []) after h
          (rw (append-nil came, append-nil taken) b'))
  run-Between k (delivers stands ∷ actions) came taken slot h b =
      step-Ends k (delivers stands) actions came taken slot (reply stands slot).1
        (reply stands slot).0 refl
        (run-Between k actions (came ++ []) (taken ++ messages (reply stands slot).0)
          (reply stands slot).1 h (rw (append-nil came) (reply-Between k came taken slot stands b)))

  -- Whatever the order in which the two threads act, while the database answers every query without NULL values
  -- and all requests that arrive are of the slot's shard: no assertion fails, the requests that arrived are those
  -- that were handled, in order, and those that wait, and the answers that were taken and those that wait are
  -- those to the handled requests, in their order: one for each request, with its table and object and to its
  -- socket, but none for a select request or an unknown one.
  pub run-AllAnswers :
      (actions : List Action) (slot : Slot Db Float)
      → IsLocal slot.shard (arrivals actions)
      → slot.wlist ≡ []
      → slot.rlist ≡ []
      → (handled : List Message) × (out : List (Message × Bool)) × (after : Slot Db Float) × (run
            outside actions slot
          ≡ some (out, after))
        × (arrivals actions ≡ handled ++ after.wlist)
        × AllAnswers handled (messages out ++ after.rlist)
  unfolding Ends
  run-AllAnswers actions slot h e f =
      let (out, after, g, b) = run-Between slot.shard actions [] [] slot h (record {
        handled = [];
        waiting = sym e;
        replied = f;
        shard = refl;
        local = subst (IsLocal slot.shard) (sym e) tt;
      }) in
      (b.handled, out, after, g, b.waiting, b.replied)
