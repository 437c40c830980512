-- ===== src/Record/Exchange.antt =====
-- src/recordclient/RecordClient.cpp and the record server together: the answer to a request reaches the callback that
-- was given with it.
use libbundle.Prelude.{
  subst, sym, Bool, ℕ, ◌+◌, ◌^◌, ◌<◌, ◌≡◌, ◌∙◌, ap, refl, true, Option, some, List, [], ◌∷◌, ◌++◌,
  Bytes, ==_iff, length, arith,
}
use libbundle.ByteBuffer.{to_le}
use libbundle.Record.{
  Kind, serialize_request, unserialize_request, delete_request, select_request, alter_request,
  sizeof_object, data_request, plain_response, len_of, id_of, kind_of, table_of, objectid_of,
  retval_of, response_id,
}
use libbundle.Record.Outside.{Outside}
use libbundle.Record.Total.{IsAnswering}
use libbundle.Record.Slot.{Message, Slot, handle_kind, post, synchronous, serve, reply}
use libbundle.Record.Schedule.{arrives, works, delivers, act, run}
use libbundle.Record.Answers.{Answers, AnswersOf, handle_kind-Answered}
use libbundle.Record.Wire.{
  IsName, header_len, header_id, header_shard, header_table, header_objectid,
}
use libbundle.Record.Requests.{data_request-Reads}
use libbundle.Record.Client.{
  RecordClient, Called, called, call_plain, client_parse, take_callback, client_serialize,
}

response_id_small : (k : Kind) → response_id k < 2 ^ 16
response_id_small serialize_request = omega arith
response_id_small unserialize_request = omega arith
response_id_small delete_request = omega arith
response_id_small select_request = omega arith
response_id_small alter_request = omega arith

module _ (k : Kind) (shard : ℕ) (table : Bytes) (objectid retval : ℕ) (s : shard < 2 ^ 32)
    (n : IsName table) (o : objectid < 2 ^ 64) where
  abbrev tail : Bytes
  tail = to_le 4 retval

  abbrev answer : Bytes
  answer = plain_response k shard table objectid retval

  answer_id : id_of answer ≡ response_id k
  unfolding plain_response
  answer_id =
      header_id (sizeof_object + 4) (response_id k) shard table objectid tail (response_id_small k)

  answer_len : len_of answer ≡ sizeof_object + 4
  unfolding plain_response
  answer_len = header_len (sizeof_object + 4) (response_id k) shard table objectid tail

  answer_call : (f : ℕ) → call_plain answer f ≡ called f shard table objectid (retval_of answer)
  unfolding plain_response
  answer_call f =
      let len = sizeof_object + 4 in
      let id = response_id k in
      ap (λ v. called f v (table_of answer) (objectid_of answer) (retval_of answer))
        (header_shard len id shard table objectid tail s)
      ∙ ap (λ v. called f shard v (objectid_of answer) (retval_of answer))
          (header_table len id shard table objectid tail n)
      ∙ ap (λ v. called f shard table v (retval_of answer))
          (header_objectid len id shard table objectid tail o)

-- The front of a list of callbacks, for an answer of the right length.
take_front :
    (size : ℕ) (how : ℕ → Called) (q : Bytes) (f : ℕ) (fs : List (Option ℕ))
    → len_of q ≡ size
    → take_callback size how q (some f ∷ fs) ≡ (true, how f ∷ [], fs)
unfolding take_callback
take_front size how q f fs e = rw (take_callback, (==_iff (len_of q) size).1 e) refl

serialize_called :
    (q : Bytes) (c : RecordClient) (f : ℕ) (fs : List (Option ℕ))
    → id_of q ≡ 0x102
    → len_of q ≡ sizeof_object + 4
    → c.serialize_callbacks ≡ some f ∷ fs
    → client_parse q c ≡ (true, call_plain q f ∷ [], record c { serialize_callbacks = fs })
unfolding client_parse
serialize_called q c f fs i l e =
    rw (client_parse, i, e, take_front (sizeof_object + 4) (call_plain q) q f fs l) refl

answer_parsed :
    (s shard : ℕ) (table : Bytes) (objectid : ℕ) (js : Bytes) (out : List Message)
    (c : RecordClient) (f : ℕ) (fs : List (Option ℕ))
    → shard < 2 ^ 32
    → IsName table
    → objectid < 2 ^ 64
    → sizeof_object + 4 + length js < 2 ^ 32
    → AnswersOf (s, data_request serialize_request shard table objectid js) out
    → c.serialize_callbacks ≡ some f ∷ fs
    → (q : Bytes) × (out ≡ (s, q) ∷ [])
      × (client_parse q c ≡ (
        true,
        called f shard table objectid (retval_of q) ∷ [],
        record c { serialize_callbacks = fs },
      ))
answer_parsed s shard table objectid js out c f fs bs n bo small a e =
    let request = data_request serialize_request shard table objectid js in
    let (r, d) = data_request-Reads serialize_request shard table objectid js refl bs n bo small in
    let (retval, g) = subst (λ k. Answers k (s, request) out) r.kind a in
    let q = plain_response serialize_request shard table objectid retval in
    (
      q,
      g
          ∙ ap
              (λ v.
                (
                  s,
                  plain_response serialize_request v (table_of request) (objectid_of request)
                      retval,
                )
                ∷ [])
              r.shard_read
          ∙ ap
              (λ v. (s, plain_response serialize_request shard v (objectid_of request) retval) ∷ [])
              r.table_read
          ∙ ap (λ v. (s, plain_response serialize_request shard table v retval) ∷ [])
              r.objectid_read,
      serialize_called q c f fs (answer_id serialize_request shard table objectid retval bs n bo)
            (answer_len serialize_request shard table objectid retval bs n bo) e
          ∙ ap (λ call. (true, call ∷ [], record c { serialize_callbacks = fs }))
              (answer_call serialize_request shard table objectid retval bs n bo f),
    )

-- A request arrives at a slot whose queues are empty, the slot works, and the main thread takes the answer.
module _ {Db Float : Type 0} (outside : Outside Db Float) where
  run_three :
      (msg first : Message) (stands : ℕ → Bool) (slot after : Slot Db Float)
      → slot.wlist ≡ []
      → handle_kind outside (kind_of (id_of msg.1)) msg (record slot { wlist = [] }) ≡ some after
      → after.rlist ≡ first ∷ []
      → run outside (arrives msg ∷ works ∷ delivers stands ∷ []) slot
        ≡ some ((first, stands first.0) ∷ [], record after { rlist = [] })
  unfolding run act post synchronous serve reply
  run_three msg first stands slot after e h r = rw (e, h) (rw (reply, r) refl)

-- A client without waiting callbacks asks for a serialize, in a shard and with an object whose numbers fit their fields, a
-- name of a table of at most 15 bytes without a zero byte, and a message of less than 2 ^ 32 bytes. The request
-- that it sends arrives at a slot of that shard with empty queues, the thread of the slot works on it while the database
-- answers every query without NULL values, and the main thread takes the answer. Then there is exactly one answer, to
-- the socket that the request came from, and it is sent where that has a connection; and the client that parses it calls
-- the callback of the request with the shard, the table and the object of the request and the result of the answer, and
-- waits for no callback any more.
pub serialize_exchange :
    {Db Float : Type 0} (outside : Outside Db Float)
    → IsAnswering outside
    → (slot : Slot Db Float) (stands : ℕ → Bool) (s shard : ℕ) (table : Bytes) (objectid : ℕ)
      (js : Bytes) (c : RecordClient) (f : ℕ)
    → shard < 2 ^ 32
    → IsName table
    → objectid < 2 ^ 64
    → sizeof_object + 4 + length js < 2 ^ 32
    → slot.shard ≡ shard
    → slot.wlist ≡ []
    → slot.rlist ≡ []
    → c.serialize_callbacks ≡ []
    → let (request, asking) = client_serialize shard table objectid js (some f) c in
      (q : Bytes) × (after : Slot Db Float) × (run outside
          (arrives (s, request) ∷ works ∷ delivers stands ∷ [])
          slot
        ≡ some (((s, q), stands s) ∷ [], after))
      × (client_parse q asking ≡ (true, called f shard table objectid (retval_of q) ∷ [], c))
unfolding client_serialize
serialize_exchange outside answers slot stands s shard table objectid js c f bs n bo small own e r
      w =
    let request = data_request serialize_request shard table objectid js in
    let (read, d) =
      data_request-Reads serialize_request shard table objectid js refl bs n bo small in
    let (after, out, h, adds, a) =
      handle_kind-Answered outside answers (kind_of (id_of request)) (s, request)
        (record slot { wlist = [] }) (read.shard_read ∙ sym own) in
    let asking = record c { serialize_callbacks = c.serialize_callbacks ++ some f ∷ [] } in
    let (q, o, parsed) =
      answer_parsed s shard table objectid js out asking f [] bs n bo small a
        (ap (λ l. l ++ some f ∷ []) w) in
    (
      q,
      record after { rlist = [] },
      run_three outside (s, request) (s, q) stands slot after e h
          (adds.behind ∙ ap (λ l. l ++ out) r ∙ o),
      parsed
          ∙ ap
              (λ l. (
                true,
                called f shard table objectid (retval_of q) ∷ [],
                record c { serialize_callbacks = l },
              ))
              (sym w),
    )

-- Two serialize requests for the same table, made while no other waits for its answer: where the answer to the second comes
-- first, as it may from another slot, the callback of the first request is called with the object of the second.
pub crossed_callback :
    (shard : ℕ) (table : Bytes) (first_id second_id retval : ℕ) (js js' : Bytes) (f g : ℕ)
    (c : RecordClient)
    → shard < 2 ^ 32
    → IsName table
    → second_id < 2 ^ 64
    → c.serialize_callbacks ≡ []
    → (let c1 = (client_serialize shard table first_id js (some f) c).1 in
        let c2 = (client_serialize shard table second_id js' (some g) c1).1 in
        let q = plain_response serialize_request shard table second_id retval in
        client_parse q c2 ≡ (
          true,
          called f shard table second_id (retval_of q) ∷ [],
          record c { serialize_callbacks = some g ∷ [] },
        ))
unfolding client_serialize
crossed_callback shard table first_id second_id retval js js' f g c bs n bo e =
    let q = plain_response serialize_request shard table second_id retval in
    let waiting = (c.serialize_callbacks ++ some f ∷ []) ++ some g ∷ [] in
    serialize_called q (record c { serialize_callbacks = waiting }) f (some g ∷ [])
      (answer_id serialize_request shard table second_id retval bs n bo)
      (answer_len serialize_request shard table second_id retval bs n bo)
      (ap (λ l. (l ++ some f ∷ []) ++ some g ∷ []) e)
    ∙ ap (λ call. (true, call ∷ [], record c { serialize_callbacks = some g ∷ [] }))
        (answer_call serialize_request shard table second_id retval bs n bo f)
