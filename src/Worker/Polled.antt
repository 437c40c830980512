-- ===== src/Worker/Polled.antt =====
-- What the poll of src/socket/WorkerProcess.cpp makes a worker do: reading, writing, errors.
use libbundle.Prelude.{
  ◌∙◌, Holds, Holds-bind, Holds-assert, ℕ, ◌≡◌, refl, subst, Bool, true, false, Option, none, some,
  List, [], ◌∷◌, Bytes, ltb, if◌then◌else◌, ◌>>=◌,
}
use libbundle.Socket.{Socket, SendResult, flush}
use libbundle.Socket.Receive.{Split, RecvResult}
use libbundle.Socket.Identity.{KeepsSocket, flush-fd}
use libbundle.Socketmessage.{new_socket, allocate}
use libbundle.Worker.Events.{keys, change, follow-append}
use libbundle.Worker.{push, Worker, max_connection_fd, lookup, replace, socket_at, remove_socket}
use libbundle.Worker.Polling.{
  accept_loop, read_loop, read_socket, write_socket, error_socket, Event, failing, ready,
  read_ready, write_ready, occur, occur_all,
}
use libbundle.Worker.Tracking.{Tracks, lookup-Owned, replace-Tracks, remove_socket-Tracks}
use libbundle.Worker.Reading.{Reached, remove-Reached, read_loop-Tracks}

socket_at-Holds :
    (P : Option Socket → Type 0) (s : ℕ) (w : Worker)
    → P (lookup s w.sockets)
    → Holds P (socket_at w s)
unfolding socket_at
socket_at-Holds P s w h =
    Holds-assert P (ltb s max_connection_fd) (some (lookup s w.sockets)) (λ _. h)

-- A connection that waits for its worker does not stand yet.
arrived-Tracks :
    (fd n : ℕ) (w : Worker)
    → Tracks n w
    → Tracks n (record w { recv_queue = push (allocate (some fd) new_socket) w.recv_queue })
unfolding push change
arrived-Tracks fd n w t = record {
  known =
      follow-append [] (keys w.sockets) (keys w.sockets) w.recv_queue
        (allocate (some fd) new_socket) t.known (unfold allocate in refl);
  counted = t.counted;
  polling = t.polling;
  few = t.few;
  owned = t.owned;
}

accept_loop-Tracks :
    (fds : List ℕ) (n : ℕ) (w : Worker) → Tracks n w → Holds (Tracks n) (accept_loop fds w)
unfolding accept_loop
accept_loop-Tracks [] n w t = t
accept_loop-Tracks (fd ∷ fds) n w t =
    Holds-assert (Tracks n) (ltb fd max_connection_fd) _
      (λ _. accept_loop-Tracks fds n _ (arrived-Tracks fd n w t))

read_socket-Tracks :
    (splitter : Bytes → Split) (now k n : ℕ) (rs : List RecvResult) (fds : List ℕ) (s : ℕ)
    (w : Worker)
    → Tracks n w
    → Holds (Reached n) (read_socket splitter now k rs fds s w)
unfolding read_socket
read_socket-Tracks splitter now k n rs fds s w t =
    Holds-bind (λ o. Unit) (Reached n) (socket_at w s) _ (socket_at-Holds (λ o. Unit) s w tt)
      (λ o _. by_entry o)
  where
    choose :
        (b : Bool)
        → Holds (Reached n) (
            if b
            then (do w' ← accept_loop fds w; some (true, w'))
            else read_loop splitter now k rs s w)
    choose true =
        Holds-bind (Tracks n) (Reached n) (accept_loop fds w) _ (accept_loop-Tracks fds n w t)
          (λ w' t'. t')
    choose false = read_loop-Tracks splitter now s n k rs w t

    by_entry :
        (o : Option Socket)
        → Holds (Reached n) (elim o [
          | none ↦ some (false, w)
          | some so ↦
              if so.is_listening
              then (do w' ← accept_loop fds w; some (true, w'))
              else read_loop splitter now k rs s w
        ])
    by_entry none = t
    by_entry (some so) = choose so.is_listening

write_socket-Tracks :
    (rs : List SendResult) (s n : ℕ) (w : Worker)
    → Tracks n w
    → Holds (Reached n) (write_socket rs s w)
unfolding write_socket
write_socket-Tracks rs s n w t =
    Holds-bind (λ o. lookup s w.sockets ≡ o) (Reached n) (socket_at w s) _
      (socket_at-Holds (λ o. lookup s w.sockets ≡ o) s w refl) by_entry
  where
    kept : Bool → Socket → Option (Bool × Worker)
    kept ok so' =
        let w' = record w { sockets = replace s so' w.sockets } in
        if ok then some (true, w') else (do w'' ← remove_socket s w'; some (false, w''))

    kept-Tracks : (ok : Bool) (so' : Socket) → so'.fd ≡ s → Holds (Reached n) (kept ok so')
    kept-Tracks true so' own = replace-Tracks s n so' w own t
    kept-Tracks false so' own = remove-Reached s n _ (replace-Tracks s n so' w own t)

    choose :
        (so : Socket) (b : Bool)
        → so.fd ≡ s
        → Holds
            (Reached n)
            (if b then some (false, w) else (do (ok, so', wire) ← flush rs so; kept ok so'))
    choose so true own = t
    choose so false own =
        Holds-bind (KeepsSocket so.fd) (Reached n) (flush rs so) _ (flush-fd rs so)
          (λ (ok, so', wire) e. kept-Tracks ok so' (e ∙ own))

    by_entry :
        (o : Option Socket)
        → lookup s w.sockets ≡ o
        → Holds (Reached n) (elim o [
          | none ↦ some (false, w)
          | some so ↦
              if so.is_listening
              then some (false, w)
              else (do (ok, so', wire) ← flush rs so; kept ok so')
        ])
    by_entry none e = t
    by_entry (some so) e = choose so so.is_listening (lookup-Owned s w.sockets so t.owned e)

error_socket-Tracks : (s n : ℕ) (w : Worker) → Tracks n w → Holds (Tracks n) (error_socket s w)
unfolding error_socket
error_socket-Tracks s n w t =
    Holds-bind (λ o. Unit) (Tracks n) (socket_at w s) _ (socket_at-Holds (λ o. Unit) s w tt)
      (λ o _. by_entry o)
  where
    by_entry :
        (o : Option Socket)
        → Holds (Tracks n) (elim o [ none ↦ some w | some so ↦ remove_socket s w ])
    by_entry none = t
    by_entry (some so) = remove_socket-Tracks s n w t

read_ready-Tracks :
    (splitter : Bytes → Split) (s n : ℕ) (input : Option (ℕ × ℕ × List RecvResult × List ℕ))
    (w : Worker)
    → Tracks n w
    → Holds (Reached n) (read_ready splitter s input w)
unfolding read_ready
read_ready-Tracks splitter s n none w t = t
read_ready-Tracks splitter s n (some (now, k, rs, fds)) w t =
    read_socket-Tracks splitter now k n rs fds s w t

write_ready-Tracks :
    (rc : Bool) (s n : ℕ) (output : Option (List SendResult)) (w : Worker)
    → Tracks n w
    → Holds (Tracks n) (write_ready rc s output w)
unfolding write_ready
write_ready-Tracks false s n output w t = t
write_ready-Tracks true s n none w t = t
write_ready-Tracks true s n (some rs) w t =
    Holds-bind (Reached n) (Tracks n) (write_socket rs s w) _ (write_socket-Tracks rs s n w t)
      (λ (ok, w') t'. t')

occur-Tracks :
    (splitter : Bytes → Split) (e : Event) (n : ℕ) (w : Worker)
    → Tracks n w
    → Holds (Tracks n) (occur splitter e w)
unfolding occur
occur-Tracks splitter (failing s) n w t = error_socket-Tracks s n w t
occur-Tracks splitter (ready s input output) n w t =
    Holds-bind (Reached n) (Tracks n) (read_ready splitter s input w) _
      (read_ready-Tracks splitter s n input w t)
      (λ (rc, w') t'. write_ready-Tracks rc s n output w' t')

occur_all-Holds :
    (splitter : Bytes → Split) (es : List Event) (n : ℕ) (w : Worker)
    → Tracks n w
    → Holds (Tracks n) (occur_all splitter es w)
unfolding occur_all
occur_all-Holds splitter [] n w t = t
occur_all-Holds splitter (e ∷ es) n w t =
    Holds-bind (Tracks n) (Tracks n) (occur splitter e w) (occur_all splitter es)
      (occur-Tracks splitter e n w t) (λ w' t'. occur_all-Holds splitter es n w' t')

-- After any sequence of events of the poll in which no assertion fails, whatever the sockets receive and the kernel takes: every
-- message that the worker has passed on came from a socket that stood, between its establishment and
-- its closing, and the table, the count and the poll agree with what the worker has reported.
pub occur_all-Tracks :
    (splitter : Bytes → Split) (es : List Event) (n : ℕ) (w w' : Worker)
    → Tracks n w
    → occur_all splitter es w ≡ some w'
    → Tracks n w'
occur_all-Tracks splitter es n w w' t e =
    subst (Holds (Tracks n)) e (occur_all-Holds splitter es n w t)
