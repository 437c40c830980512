-- ===== src/Client/Tests.antt =====
-- src/socket/SocketClient.cpp at concrete inputs.
use libbundle.Prelude.{◌≡◌, refl, true, false, some, [], ◌∷◌, ◌++◌, map}
use libbundle.Socketmessage.{allocate, close}
use libbundle.Client.{
  Client, new_client, connect, connect_server, retry_loop, receive_message, receive_known,
}
use libbundle.Client.Retry.{refusal, success, socketless, retry_loop_lem}

-- A client behind a call of `connect` without a timeout.
abbrev waiting : Client
waiting = record new_client { is_stop = false }

retry_loop_lem_example :
    ((retry_loop (map refusal (7 ∷ 8 ∷ []) ++ success 9 ∷ []) waiting).0 ≡ true)
    × ((retry_loop (map refusal (7 ∷ 8 ∷ []) ++ success 9 ∷ []) waiting).1.added ≡ [] ++ 9 ∷ [])
    × ((retry_loop (map refusal (7 ∷ 8 ∷ []) ++ socketless ∷ success 10 ∷ []) waiting).0 ≡ false)
    × ((retry_loop (map refusal (7 ∷ 8 ∷ []) ++ socketless ∷ success 10 ∷ []) waiting).1.added ≡ [])
retry_loop_lem_example = retry_loop_lem (7 ∷ 8 ∷ []) waiting 9 (success 10 ∷ []) (refl, refl, refl)

connected : (connect (success 9) new_client).1.added ≡ 9 ∷ []
unfolding connect connect_server
connected = refl

-- A client that lost its connection hands the message on and connects again.
lost_connection :
    receive_message
      (record waiting { fd = some 9; active = true; read_queue = allocate (some 9) close ∷ [] })
    ≡ some (some (allocate (some 9) close), true, record waiting { fd = some 9 })
unfolding receive_message receive_known allocate
lost_connection = refl
