-- ===== src/Worker/Handling.antt =====
-- Whatever messages a worker of src/socket/WorkerProcess.cpp handles, and whatever the kernel does
-- meanwhile, its table, its count, its poll and what it has told the client agree.
use libbundle.Prelude.{
  ◌∙◌, refl, Holds, Holds-bind, Holds-assert, ℕ, zero, suc, ◌+◌, ◌≤◌, ◌<◌, ◌≡◌, subst, Bool, true,
  false, Option, none, some, List, [], ◌∷◌, ltb, ◌==◌, if◌then◌else◌, length, ◌>>=◌, arith,
  Bool-cases, inl, inr,
}
use libbundle.ByteBuffer.{size_max}
use libbundle.Socketmessage.{
  Socketmessage, Opcode, message, establish, close, new_socket, new_listening, sol,
  allocate_payload, bytes, magic_value,
}
use libbundle.Socket.{Socket, SendResult, send_message}
use libbundle.Worker.{
  Worker, max_connection_fd, bundle_sol_max, lookup, replace, socket_at, remove_socket, send_to,
  multisend_loop, multisend, handle_opcode, handle_one, handle_loop, handle_message, is_expired,
  check_one, check_loop,
}
use libbundle.Socket.Identity.{KeepsSocket, send_message-fd}
use libbundle.Worker.Tracking.{
  lookup-Owned, Tracks, Tracks-weaken, replace-Tracks, remove_socket-Tracks, add_socket-Tracks,
}

send_to-Tracks :
    (rs : List SendResult) (s n : ℕ) (msg : Socketmessage) (w : Worker)
    → Tracks n w
    → Holds (Tracks n) (send_to rs s msg w)
unfolding send_to socket_at
send_to-Tracks rs s n msg w t = elim (Bool-cases (ltb s max_connection_fd)) [
  | inl inside ↦ rw inside (by_entry (lookup s w.sockets) refl)
  | inr outside ↦ rw outside tt
]
  where
    keeps : Bool → Socket → Option Worker
    keeps ok so' =
        let w' = record w { sockets = replace s so' w.sockets } in
        if ok then some w' else remove_socket s w'

    keeps-Tracks : (ok : Bool) (so' : Socket) → so'.fd ≡ s → Holds (Tracks n) (keeps ok so')
    keeps-Tracks true so' own = replace-Tracks s n so' w own t
    keeps-Tracks false so' own = remove_socket-Tracks s n _ (replace-Tracks s n so' w own t)

    by_entry :
        (o : Option Socket)
        → lookup s w.sockets ≡ o
        → Holds (Tracks n) (elim o [
          | none ↦ some w
          | some so ↦ (do (ok, so', wire) ← send_message rs so msg; keeps ok so')
        ])
    by_entry none e = t
    by_entry (some so) e =
        Holds-bind (KeepsSocket so.fd) (Tracks n) (send_message rs so msg) _
          (send_message-fd rs so msg)
          (λ (ok, so', wire) own. keeps-Tracks ok so' (own ∙ lookup-Owned s w.sockets so t.owned e))

multisend_loop-Tracks :
    (kernel : ℕ → List SendResult) (msg : Socketmessage) (k s n : ℕ) (w : Worker)
    → Tracks n w
    → Holds (Tracks n) (multisend_loop kernel msg k s w)
unfolding multisend_loop
multisend_loop-Tracks kernel msg zero s n w t = t
multisend_loop-Tracks kernel msg (suc k) s n w t =
    Holds-bind (Tracks n) (Tracks n)
      (send_to (kernel s) s (allocate_payload (some s) msg.opcode (bytes msg)) w)
      (multisend_loop kernel msg k (s + 1)) (send_to-Tracks (kernel s) s n _ w t)
      (λ w' t'. multisend_loop-Tracks kernel msg k (s + 1) n w' t')

Holds-weaken : (n m : ℕ) (o : Option Worker) → n ≤ m → Holds (Tracks n) o → Holds (Tracks m) o
Holds-weaken n m none h t = tt
Holds-weaken n m (some w) h t = Tracks-weaken n m w h t

handle_opcode-Tracks :
    (now : ℕ) (kernel : ℕ → List SendResult) (op : Opcode) (s n : ℕ) (msg : Socketmessage)
    (w : Worker)
    → n + 1 < size_max
    → Tracks n w
    → Holds (Tracks (n + 1)) (handle_opcode now kernel op s msg w)
unfolding handle_opcode
handle_opcode-Tracks now kernel message s n msg w h t =
    Holds-weaken n (n + 1) _ (omega arith) (send_to-Tracks (kernel s) s n msg w t)
handle_opcode-Tracks now kernel establish s n msg w h t = tt
handle_opcode-Tracks now kernel close s n msg w h t =
    Holds-weaken n (n + 1) _ (omega arith) (remove_socket-Tracks s n w t)
handle_opcode-Tracks now kernel new_socket s n msg w h t = add_socket-Tracks now false s n w h t
handle_opcode-Tracks now kernel new_listening s n msg w h t = add_socket-Tracks now true s n w h t
handle_opcode-Tracks now kernel sol s n msg w h t =
    Holds-assert (Tracks (n + 1)) (ltb s bundle_sol_max) _ (λ _. record {
      known = t.known;
      counted = t.counted;
      polling = t.polling;
      few = omega (arith, t.few);
      owned = t.owned;
    })

handle_one-Tracks :
    (now : ℕ) (kernel : ℕ → List SendResult) (o : Option ℕ) (n : ℕ) (msg : Socketmessage)
    (w : Worker)
    → n + 1 < size_max
    → Tracks n w
    → Holds (Tracks (n + 1)) (handle_one now kernel o msg w)
unfolding handle_one multisend
handle_one-Tracks now kernel none n msg w h t =
    Holds-assert (Tracks (n + 1)) (ltb 0 msg.payload_len) _
      (λ _. Holds-weaken n (n + 1) _ (omega arith) (multisend_loop-Tracks kernel msg w.fds 0 n w t))
handle_one-Tracks now kernel (some s) n msg w h t =
    handle_opcode-Tracks now kernel msg.opcode s n msg w h t

-- Which messages are left to send is not tracked.
with_queue-Tracks :
    (n : ℕ) (msgs : List Socketmessage) (w : Worker)
    → Tracks n w
    → Tracks n (record w { send_queue = msgs })
with_queue-Tracks n msgs w t = record {
  known = t.known;
  counted = t.counted;
  polling = t.polling;
  few = t.few;
  owned = t.owned;
}

handle_loop-Tracks :
    (now : ℕ) (kernels : List (ℕ → List SendResult)) (msgs : List Socketmessage) (n : ℕ)
    (w : Worker)
    → n + length msgs < size_max
    → Tracks n w
    → Holds (Tracks (n + length msgs)) (handle_loop now kernels msgs w)
unfolding handle_loop
handle_loop-Tracks now kernels [] n w h t =
    Tracks-weaken n (n + 0) _ (omega arith) (with_queue-Tracks n [] w t)
handle_loop-Tracks now [] (msg ∷ msgs) n w h t = tt
handle_loop-Tracks now (kernel ∷ kernels) (msg ∷ msgs) n w h t =
    Holds-assert (Tracks (n + length (msg ∷ msgs))) (msg.magic == magic_value) _ (λ _.
      Holds-bind (Tracks (n + 1)) (Tracks (n + length (msg ∷ msgs)))
        (handle_one now kernel msg.s msg (record w { send_queue = msgs }))
        (handle_loop now kernels msgs)
        (handle_one-Tracks now kernel msg.s n msg _ (omega arith) (with_queue-Tracks n msgs w t))
        (λ w' t'.
          Holds-weaken (n + 1 + length msgs) (n + length (msg ∷ msgs))
            (handle_loop now kernels msgs w') (omega arith)
            (handle_loop-Tracks now kernels msgs (n + 1) w' (omega arith) t')))

Holds-some : (P : Worker → Type 0) (o : Option Worker) (w : Worker) → Holds P o → o ≡ some w → P w
Holds-some P o w h e = subst (Holds P) e h

-- After a `handleMessage` in which no assertion fails, whatever messages were in the queue, whatever `send` did, and
-- whichever descriptors the poll did not take: the establishments and closings that the worker has reported are in a
-- legal order and leave exactly the sockets of the table, which are those that are counted; and the poll watches
-- exactly those of them that it took.
pub handle_message-Tracks :
    (now : ℕ) (kernels : List (ℕ → List SendResult)) (n : ℕ) (w w' : Worker)
    → n + length w.send_queue < size_max
    → Tracks n w
    → handle_message now kernels w ≡ some w'
    → Tracks (n + length w.send_queue) w'
unfolding handle_message
handle_message-Tracks now kernels n w w' h t e =
    Holds-some (Tracks (n + length w.send_queue)) (handle_loop now kernels w.send_queue w) w'
      (handle_loop-Tracks now kernels w.send_queue n w h t) e

check_one-Tracks : (now s n : ℕ) (w : Worker) → Tracks n w → Holds (Tracks n) (check_one now s w)
unfolding check_one socket_at
check_one-Tracks now s n w t = elim (Bool-cases (ltb s max_connection_fd)) [
  | inl inside ↦ rw inside (by_entry (lookup s w.sockets))
  | inr outside ↦ rw outside tt
]
  where
    choose : (b : Bool) → Holds (Tracks n) (if b then remove_socket s w else some w)
    choose true = remove_socket-Tracks s n w t
    choose false = t

    by_entry :
        (o : Option Socket)
        → Holds (Tracks n) (elim o [
          | none ↦ some w
          | some so ↦ if is_expired now w.opts so then remove_socket s w else some w
        ])
    by_entry none = t
    by_entry (some so) = choose (is_expired now w.opts so)

check_loop-Tracks :
    (now k s n : ℕ) (w : Worker) → Tracks n w → Holds (Tracks n) (check_loop now k s w)
unfolding check_loop
check_loop-Tracks now zero s n w t = t
check_loop-Tracks now (suc k) s n w t =
    Holds-bind (Tracks n) (Tracks n) (check_one now s w) (check_loop now k (s + 1))
      (check_one-Tracks now s n w t) (λ w' t'. check_loop-Tracks now k (s + 1) n w' t')
