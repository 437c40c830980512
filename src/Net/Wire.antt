-- ===== src/Net/Wire.antt =====
-- What one side of src/net/NetworkService.cpp writes, the splitter of the other side cuts out again.
use libbundle.Prelude.{
  ℕ, ◌+◌, ◌^◌, ◌≤◌, ◌<◌, ◌≡◌, ◌∙◌, sym, ap, List, ◌++◌, arith, length, Bytes, take, drop, ltb,
  if◌then◌else◌, take-append_le, length-append, Bool-cases, inl, inr, true, some, drop-append,
  take-append, map,
}
use libbundle.ByteBuffer.{to_le, of_le}
use libbundle.ByteBuffer.Invariant.{contents}
use libbundle.Socket.{Socket}
use libbundle.Socket.Receive.{incomplete, whole, received, receive_loop}
use libbundle.Socket.Framing.{Frames, CanReceive, joined, receive_loop-Frames}
use libbundle.Socketmessage.{message, allocate_payload}
use libbundle.Net.{sizeof_netmessage, netmessage, split_netmessage}

pub length-netmessage :
    (id : ℕ) (payload : Bytes) → length (netmessage id payload) ≡ sizeof_netmessage + length payload
unfolding netmessage
length-netmessage id payload = omega arith

-- The splitter on a text that starts with a header whose length field is n.
split_netmessage_lem :
    (p : Bytes) (n : ℕ)
    → of_le (take 4 p) ≡ n
    → sizeof_netmessage ≤ length p
    → n < 2 ^ 31
    → 0 < n
    → split_netmessage p ≡ (if ltb (length p) n then incomplete else whole n)
unfolding split_netmessage
split_netmessage_lem p n e h k l = rw e (ground arith)

pub split_netmessage_short :
    (p : Bytes) → length p < sizeof_netmessage → split_netmessage p ≡ incomplete
unfolding split_netmessage
split_netmessage_short p h = ground arith

header_of :
    (id : ℕ) (payload rest p q : Bytes)
    → sizeof_netmessage + length payload < 2 ^ 31
    → netmessage id payload ++ rest ≡ p ++ q
    → sizeof_netmessage ≤ length p
    → of_le (take 4 p) ≡ sizeof_netmessage + length payload
header_of id payload rest p q small e h =
    ap of_le (sym (take-append_le 4 p q (omega arith)) ∙ ap (take 4) (sym e))
    ∙ unfold netmessage of_le to_le in omega arith

-- Every message that is written stands first in a stream for the splitter of the other side, whatever
-- comes behind it.
pub netmessage-Frames :
    (id : ℕ) (payload rest : Bytes)
    → sizeof_netmessage + length payload < 2 ^ 31
    → Frames split_netmessage (netmessage id payload ++ rest) (sizeof_netmessage + length payload)
netmessage-Frames id payload rest small = record {
  waits = λ p q e short. elim (Bool-cases (ltb (length p) sizeof_netmessage)) [
    | inl headless ↦ split_netmessage_short p (ground arith)
    | inr headed ↦
        split_netmessage_lem p _ (header_of id payload rest p q small e (ground arith))
          (ground arith) small (omega arith)
        ∙ ground arith
  ];
  finds = λ p q e enough.
      split_netmessage_lem p _ (header_of id payload rest p q small e (omega arith)) (omega arith)
        small (omega arith)
      ∙ ground arith;
}

pub front_at :
    (id : ℕ) (payload rest : Bytes)
    → take (sizeof_netmessage + length payload) (netmessage id payload ++ rest)
      ≡ netmessage id payload
front_at id payload rest =
    ap (λ k. take k (netmessage id payload ++ rest)) (sym (length-netmessage id payload))
    ∙ take-append (netmessage id payload) rest

pub back_at :
    (id : ℕ) (payload rest : Bytes)
    → drop (sizeof_netmessage + length payload) (netmessage id payload ++ rest) ≡ rest
back_at id payload rest =
    ap (λ k. drop k (netmessage id payload ++ rest)) (sym (length-netmessage id payload))
    ∙ drop-append (netmessage id payload) rest

-- A message that one side sends is received by the other side as sent, in whatever pieces the network
-- delivers the stream, and the bytes behind it are left for the next message.
pub receive-netmessage :
    (now id : ℕ) (payload rest : Bytes) (pieces : List Bytes) (s : Socket)
    → sizeof_netmessage + length payload < 2 ^ 31
    → CanReceive s pieces
    → contents s.rbuffer ++ joined pieces ≡ netmessage id payload ++ rest
    → (s' : Socket) × (left : List Bytes) × (receive_loop split_netmessage now
          (map received pieces)
          s
        ≡ some (
          true,
          some (allocate_payload (some s.fd) message (netmessage id payload)),
          s',
          map received left,
        ))
      × (contents s'.rbuffer ++ joined left ≡ rest)
receive-netmessage now id payload rest pieces s small c e =
    let (s', left, r, d, _) =
      receive_loop-Frames split_netmessage now (sizeof_netmessage + length payload)
        (netmessage id payload ++ rest) pieces s (netmessage-Frames id payload rest small) c e
        (omega (arith, length-append (netmessage id payload) rest, length-netmessage id payload)) in
    (
      s',
      left,
      r
          ∙ ap
              (λ q.
                some (true, some (allocate_payload (some s.fd) message q), s', map received left))
              (front_at id payload rest),
      d ∙ back_at id payload rest,
    )

-- A header whose length is below the header's own size, but not 0, is taken for a whole message of that
-- length: the rest of the header is left in the stream, as the start of the next message.
pub split_netmessage_undersized :
    (q : Bytes) (n : ℕ)
    → of_le (take 4 q) ≡ n
    → 0 < n
    → n < sizeof_netmessage
    → sizeof_netmessage ≤ length q
    → split_netmessage q ≡ whole n
split_netmessage_undersized q n e h k l =
    split_netmessage_lem q n e l (omega arith) h ∙ ground arith
