-- ===== src/Net/Stream.antt =====
-- The messages that one side of src/net/NetworkService.cpp sends, and the worker that reads them at the other.
use libbundle.Prelude.{
  ℕ, suc, ◌+◌, ◌^◌, ◌<◌, ◌≡◌, ◌∙◌, sym, ap, refl, subst, true, some, List, [], ◌∷◌, ◌++◌, Bytes,
  drop, length, arith, All, map, length-append,
}
use libbundle.ByteBuffer.Invariant.{contents}
use libbundle.Socket.{Socket}
use libbundle.Socket.Receive.{received, would_block}
use libbundle.Socket.Framing.{CanReceive, joined}
use libbundle.Socket.Stream.{IsStream, cut}
use libbundle.Worker.{Worker, lookup}
use libbundle.Worker.Polling.{read_loop}
use libbundle.Worker.Stream.{messages_of, read_loop-IsStream}
use libbundle.Net.{sizeof_netmessage, netmessage, split_netmessage}
use libbundle.Net.Wire.{
  length-netmessage, split_netmessage_short, netmessage-Frames, front_at, back_at,
}

-- Messages by their ids and payloads, and the bytes that they are sent as.
abbrev pub texts : List (ℕ × Bytes) → List Bytes
texts = map (λ m. netmessage m.0 m.1)

abbrev pub sent : List (ℕ × Bytes) → Bytes
sent [] = []
sent ((id, payload) ∷ ms) = netmessage id payload ++ sent ms

abbrev pub sizes : List (ℕ × Bytes) → List ℕ
sizes [] = []
sizes ((id, payload) ∷ ms) = (sizeof_netmessage + length payload) ∷ sizes ms

abbrev pub IsSmall : ℕ × Bytes → Type 0
IsSmall m = sizeof_netmessage + length m.1 < 2 ^ 31

length-sizes : (ms : List (ℕ × Bytes)) → length (sizes ms) ≡ length ms
length-sizes [] = refl
length-sizes (m ∷ ms) = ap suc (length-sizes ms)

pub sent-IsStream :
    (ms : List (ℕ × Bytes)) → All IsSmall ms → IsStream split_netmessage (sent ms) (sizes ms)
sent-IsStream [] h =
    λ p q e. split_netmessage_short p (omega (arith, ap (λ s. length s) e, length-append p q))
sent-IsStream ((id, payload) ∷ ms) (hm, h) = (
  netmessage-Frames id payload (sent ms) hm,
  omega (arith, length-append (netmessage id payload) (sent ms), length-netmessage id payload),
  subst (λ s. IsStream split_netmessage s (sizes ms)) (sym (back_at id payload (sent ms)))
      (sent-IsStream ms h),
)

cut-sent : (ms : List (ℕ × Bytes)) → cut (sent ms) (sizes ms) ≡ texts ms
cut-sent [] = refl
cut-sent ((id, payload) ∷ ms) =
    ap
      (λ q.
        q
        ∷ cut (drop (sizeof_netmessage + length payload) (netmessage id payload ++ sent ms))
            (sizes ms))
      (front_at id payload (sent ms))
    ∙ ap (λ s. netmessage id payload ∷ cut s (sizes ms)) (back_at id payload (sent ms))
    ∙ ap (λ qs. netmessage id payload ∷ qs) (cut-sent ms)

-- Messages that one side sends, one behind the other, are read by the worker of the other side when they have
-- all arrived, in whatever pieces: `readSocket` ends with the connection standing, and behind what the worker had
-- received are exactly these messages, as they were sent, in their order, with the socket's descriptor. Each
-- message is shorter than 2 ^ 31 bytes.
pub read_loop-sent :
    (now s : ℕ) (ms : List (ℕ × Bytes)) (pieces : List Bytes) (so : Socket) (w : Worker)
    → lookup s w.sockets ≡ some so
    → CanReceive so pieces
    → contents so.rbuffer ++ joined pieces ≡ sent ms
    → All IsSmall ms
    → (w' : Worker) × (read_loop split_netmessage now
          (suc (length ms))
          (map received pieces ++ would_block ∷ [])
          s
          w
        ≡ some (true, w'))
      × (w'.recv_queue ≡ w.recv_queue ++ messages_of so.fd (texts ms))
read_loop-sent now s ms pieces so w l c e h =
    let (w', r, q) =
      read_loop-IsStream split_netmessage now s (sizes ms) (sent ms) pieces so w l c e
        (sent-IsStream ms h) in
    (
      w',
      ap (λ n. read_loop split_netmessage now (suc n) (map received pieces ++ would_block ∷ []) s w)
            (sym (length-sizes ms))
          ∙ r,
      q ∙ ap (λ qs. w.recv_queue ++ messages_of so.fd qs) (cut-sent ms),
    )
