-- ===== src/Worker/Reading.antt =====
-- What a worker of src/socket/WorkerProcess.cpp passes on from its sockets: a message comes after the
-- establishment of its socket and before its closing.
use libbundle.Prelude.{
  ◌∙◌, Holds, Holds-bind, ℕ, zero, suc, ◌≡◌, refl, ap, Bool, true, false, Option, none, some, List,
  [], Bytes, if◌then◌else◌, ◌>>=◌,
}
use libbundle.Socketmessage.{Socketmessage, message}
use libbundle.Socket.{Socket}
use libbundle.Socket.Receive.{Split, RecvResult, receive_loop}
use libbundle.Socket.Identity.{From, KeepsReceived, receive_loop-fd}
use libbundle.Worker.{Worker, lookup, replace, remove_socket, push}
use libbundle.Worker.Polling.{push_some, is_some, read_loop}
use libbundle.Worker.Events.{keys, has, change, follow-append, lookup_standing, keys-replace}
use libbundle.Worker.Tracking.{Tracks, lookup-Owned, replace-Tracks, remove_socket-Tracks}

-- A message of a socket of the table.
heard-Tracks :
    (s n : ℕ) (w : Worker) (msg : Option Socketmessage)
    → has s (keys w.sockets) ≡ true
    → From s msg
    → Tracks n w
    → Tracks n (record w { recv_queue = push_some msg w.recv_queue })
unfolding push_some push change
heard-Tracks s n w none standing from t = record {
  known = t.known;
  counted = t.counted;
  polling = t.polling;
  few = t.few;
  owned = t.owned;
}
heard-Tracks s n w (some m) standing (op, at) t = record {
  known = follow-append [] (keys w.sockets) (keys w.sockets) w.recv_queue m t.known (
      ap (λ o. change o m.s (keys w.sockets)) op
      ∙ ap (λ o. change message o (keys w.sockets)) at
      ∙ rw standing refl);
  counted = t.counted;
  polling = t.polling;
  few = t.few;
  owned = t.owned;
}

abbrev pub Reached : ℕ → Bool × Worker → Type 0
Reached n (ok, w) = Tracks n w

pub remove-Reached :
    (s n : ℕ) (w : Worker)
    → Tracks n w
    → Holds (Reached n) (do w' ← remove_socket s w; some (false, w'))
remove-Reached s n w t =
    Holds-bind (Tracks n) (Reached n) (remove_socket s w) _ (remove_socket-Tracks s n w t)
      (λ w' t'. t')

-- One call of `receiveMessage` for the socket s, and what follows it.
heard : Worker → ℕ → Socket → Option Socketmessage → Worker
heard w s so' msg = record w {
  sockets = replace s so' w.sockets;
  recv_queue = push_some msg w.recv_queue;
}

module _ (splitter : Bytes → Split) (now s n : ℕ) where
  read_round-Tracks :
      (k : ℕ) (left : List RecvResult) (w : Worker) (ok : Bool) (msg : Option Socketmessage)
      (so' : Socket)
      → so'.fd ≡ s
      → has s (keys (replace s so' w.sockets)) ≡ true
      → From s msg
      → Tracks n w
      → ((w' : Worker) → Tracks n w' → Holds (Reached n) (read_loop splitter now k left s w'))
      → Holds (Reached n) (
          if ok
          then (if is_some msg
              then read_loop splitter now k left s (heard w s so' msg)
              else some (true, record w { sockets = replace s so' w.sockets }))
          else (do
            w'' ← remove_socket s (record w { sockets = replace s so' w.sockets })
            some (false, w'')))
  unfolding is_some heard
  read_round-Tracks k left w false msg so' own standing from t later =
      remove-Reached s n _ (replace-Tracks s n so' w own t)
  read_round-Tracks k left w true none so' own standing from t later =
      replace-Tracks s n so' w own t
  read_round-Tracks k left w true (some m) so' own standing from t later =
      later (heard w s so' (some m)) (
        heard-Tracks s n (record w { sockets = replace s so' w.sockets }) (some m) standing from
          (replace-Tracks s n so' w own t))

  pub read_loop-Tracks :
      (k : ℕ) (rs : List RecvResult) (w : Worker)
      → Tracks n w
      → Holds (Reached n) (read_loop splitter now k rs s w)
  unfolding read_loop heard
  read_loop-Tracks zero rs w t = tt
  read_loop-Tracks (suc k) rs w t =
      by_entry (lookup s w.sockets) refl (λ left w' t'. read_loop-Tracks k left w' t')
    where
      Later : Type 0
      Later =
          (left : List RecvResult) (w' : Worker)
          → Tracks n w'
          → Holds (Reached n) (read_loop splitter now k left s w')

      by_entry :
          (o : Option Socket)
          → lookup s w.sockets ≡ o
          → Later
          → Holds (Reached n) (do
            so ← o
            (ok, msg, so', left) ← receive_loop splitter now rs so
            if ok
                then (if is_some msg
                    then read_loop splitter now k left s (heard w s so' msg)
                    else some (true, record w { sockets = replace s so' w.sockets }))
                else (do
                  w'' ← remove_socket s (record w { sockets = replace s so' w.sockets })
                  some (false, w'')))
      by_entry none e later = tt
      by_entry (some so) e later =
          Holds-bind (KeepsReceived s) (Reached n) (receive_loop splitter now rs so) _
            (receive_loop-fd splitter now s rs so (lookup-Owned s w.sockets so t.owned e))
            (λ (ok, msg, so', left) (own, from).
              read_round-Tracks k left w ok msg so' own
                (ap (has s) (keys-replace s so' w.sockets) ∙ lookup_standing s w.sockets so e) from
                t (later left))
