-- ===== src/Blockwise/Handle.antt =====
-- net/blockwise/blockwise.go: a message through the engine (Handle), and the two ways to send one (Do
-- and WriteMessage). Messages with Q-Block options, which the engine of Q-Block takes first, are not
-- among those handled here.
use go_coap.Message.Fault.{
  Fault, Result, ok, err, stuck, ◌>>=◌, cache_full, already_exists, no_sending_message,
  token_in_use, invalid_szx, cannot_read,
}
use go_coap.Pkg.Cache.{Cache, load_or_store_live}
use go_coap.Blockwise.BlockOption.{Block, encode_block_option, decode_block_option}
use go_coap.Blockwise.Exchange.{
  block1, block2, size1, size2, code_content, code_created, code_continue, code_incomplete,
  code_too_large, code_unavailable, code_fetch, is_body_method, is_get_or_delete, is_signal,
  is_request_code, block_size, fit_szx, is_observe_response, wants_to_be_received,
}
use go_coap.Blockwise.Engine.{
  SendingMessage, BlockWise, Env, Handled, failed, replied, deliver, forget_sending, sending_at,
  sending_element,
}
use go_coap.Blockwise.Sending.{block_type_of, create_sending_message, prepare_sending_request}
use go_coap.Blockwise.Receiving.{process_received_message}
use go_coap.Blockwise.Keys.{
  exchange_key, matching_key_of, message_exchange_key, resolve_block1_exchange_key,
  resolve_block2_exchange_key, SendingMatch, get_sending_match,
}
use go_coap.Pool.{
  PoolMessage, acquire, body_size, get_option_uint32, has_option, set_option_uint32, remove,
}
use go_coap.Prelude.{ltb, leb, ◌==◌, if◌then◌else◌}
use go_coap.Prelude.{pos}
use go_coap.Prelude.{ℕ, ◌+◌}
use go_coap.Prelude.{Bool, true, false, not, ◌&&◌, ◌||◌}
use go_coap.Prelude.{Option, none, some, List, [], ◌∷◌}

-- sendEntityIncomplete and SendServiceUnavailable
unfoldable pub reply_with : ℕ → PoolMessage → List ℕ → PoolMessage
reply_with code resp token = record (acquire resp.deadline) {
  code = code;
  token = token;
  kind = pos 1;
}

abbrev until_of : Env → BlockWise → Option ℕ → Option ℕ
until_of env b none = some (env.now + b.expiration)
until_of env b (some t) = some t

-- the part of startSendingMessage once the first block has been cut
unfoldable pub keep_sending :
    Env → BlockWise → PoolMessage → PoolMessage → ℕ → SendingMatch → Handled
keep_sending env b original first key match =
    if is_observe_response first && not (match.code == code_fetch)
    then replied b first
    else (let element =
          sending_element (until_of env b first.deadline) (some original) match.key match.code
            match.endpoint in
        let r = load_or_store_live env.now key element b.sending in
        if r.2 then failed b first already_exists else replied (record b { sending = r.0 }) first)

-- startSendingMessage, on the response `resp`
unfoldable pub start_sending_message :
    Env → BlockWise → PoolMessage → ℕ → ℕ → ℕ → ℕ → SendingMatch → Handled
start_sending_message env b resp max_szx max_message_size block key match =
    if ltb (body_size resp) (block_size max_szx)
    then replied b resp
    else elim (create_sending_message resp max_szx max_message_size block) [
      | err e ↦ failed b resp e
      | stuck ↦ failed b resp cannot_read
      | ok (first, more) ↦ keep_sending env b resp first key match
    ]

abbrev is_final : Block × Option Fault → Bool
is_final (b, none) = not b.more
is_final (b, some e) = false

abbrev final_block1 : Result ℕ → Option ℕ
final_block1 (ok value) = if is_final (decode_block_option value) then some value else none
final_block1 (err e) = none
final_block1 stuck = none

abbrev hides_block1 : ℕ → Bool
hides_block1 code =
    (code == 0) || (code == code_continue) || (code == code_incomplete) || (code == code_too_large)

unfoldable pub echo_final_block1 : PoolMessage → PoolMessage → ℕ → PoolMessage
echo_final_block1 resp r received_code =
    if not (is_body_method received_code) || hides_block1 resp.code || has_option block1 resp
    then resp
    else elim (final_block1 (get_option_uint32 block1 r)) [
      | none ↦ resp
      | some value ↦ set_option_uint32 block1 value resp
    ]

-- What follows the call of `next` in handleReceivedMessage; `h` is what that left.
unfoldable pub send_response : Env → Handled → PoolMessage → ℕ → ℕ → ℕ → ℕ → ℕ → Handled
send_response env h r received_code max_szx max_message_size block key = elim h.failure [
  | some e ↦ h
  | none ↦
      let match = get_sending_match env r h.response received_code in
      let s =
        start_sending_message env h.state h.response max_szx max_message_size block key match in
      elim s.failure [
        | some e ↦ record s { delivered = h.delivered }
        | none ↦ record s {
          response = echo_final_block1 s.response r received_code;
          delivered = h.delivered;
        }
      ]
]

-- the Block2 option of a GET is taken over when the handler answers with content
unfoldable pub start_block : Result ℕ → PoolMessage → ℕ → ℕ
start_block (ok block) resp start = if resp.code == code_content then block else start
start_block (err e) resp start = start
start_block stuck resp start = start

abbrev acknowledged : PoolMessage → PoolMessage
acknowledged r = if leb code_created r.code then remove block1 r else r

-- handleReceivedMessage, with the block that a response starts with
unfoldable pub handle_received_from :
    Env → BlockWise → PoolMessage → PoolMessage → ℕ → ℕ → ℕ → ℕ → Handled
handle_received_from env b resp r max_szx max_message_size key start =
    if is_signal r.code
    then deliver env b resp r
    else if is_get_or_delete r.code
    then (let h = deliver env b resp r in
        send_response env h r r.code (fit_szx r block2 max_szx) max_message_size
          (start_block (get_option_uint32 block2 r) h.response start) key)
    else if is_body_method r.code
    then (let szx = fit_szx r block1 max_szx in
        send_response env
          (process_received_message env b resp r szx (key, matching_key_of env r) block1 size1) r
          r.code szx max_message_size start key)
    else (let r' = acknowledged r in
        let szx = fit_szx r' block2 max_szx in
        send_response env (process_received_message env b resp r' szx (key, 0) block2 size2) r'
          r.code szx max_message_size start key)

unfoldable pub handle_received_message :
    Env → BlockWise → PoolMessage → PoolMessage → ℕ → ℕ → ℕ → Handled
handle_received_message env b resp r max_szx max_message_size key =
    elim (encode_block_option max_szx (pos 0) true) [
      | err e ↦ failed b resp e
      | stuck ↦ failed b resp cannot_read
      | ok start ↦ handle_received_from env b resp r max_szx max_message_size key start
    ]

-- The next block of the message that is being sent; to a request it has that request's token.
abbrev pub continued : PoolMessage → ℕ → ℕ → ℕ → Option PoolMessage → Result (PoolMessage × Bool)
continued r max_szx max_message_size block none = err no_sending_message
continued r max_szx max_message_size block (some m) = do
  sent ← create_sending_message m max_szx max_message_size block
  ok (if is_request_code r.code then record sent.0 { token = r.token } else sent.0, sent.1)

-- continueSendingMessage: the next block, and whether more follow
unfoldable pub continue_sending_message :
    Env → BlockWise → PoolMessage → ℕ → ℕ → ℕ → ℕ → Result (PoolMessage × Bool)
continue_sending_message env b r max_szx max_message_size code key = do
  block ← get_option_uint32 (block_type_of code) r
  continued r max_szx max_message_size block (sending_at env b key)

-- b.errors is called with what `failure` holds; the response is the one that the peer gets.
unfoldable pub answer_failure : Handled → PoolMessage → PoolMessage → Handled
answer_failure h resp r = elim h.failure [
  | none ↦ h
  | some cache_full ↦ record h { response = reply_with code_unavailable resp r.token }
  | some e ↦ record h { response = reply_with code_incomplete resp r.token }
]

unfoldable pub continue_or_receive :
    Env → BlockWise → PoolMessage → PoolMessage → ℕ → ℕ → ℕ → Option PoolMessage → Handled
continue_or_receive env b resp r max_szx max_message_size key none =
    answer_failure (handle_received_message env b resp r max_szx max_message_size key) resp r
continue_or_receive env b resp r max_szx max_message_size key (some m) =
    if wants_to_be_received r
    then answer_failure (handle_received_message env b resp r max_szx max_message_size key) resp r
    else elim (continue_sending_message env b r max_szx max_message_size m.code key) [
      | err e ↦ failed (forget_sending key b) resp e
      | stuck ↦ failed (forget_sending key b) resp cannot_read
      | ok (next, more) ↦
          replied (if not more && not (is_request_code m.code) then forget_sending key b else b)
            next
    ]

abbrev with_key : BlockWise → PoolMessage → PoolMessage → Result ℕ → (ℕ → Handled) → Handled
with_key b resp r (ok key) go = go key
with_key b resp r (err e) go = failed b (reply_with code_incomplete resp r.token) e
with_key b resp r stuck go = failed b resp cannot_read

-- Handle, for an exponent up to 7: with more it panics.
unfoldable pub handle : Env → BlockWise → PoolMessage → PoolMessage → ℕ → ℕ → Handled
handle env b resp r max_szx max_message_size = elim (message_exchange_key env r) [
  | err e ↦ failed b resp e
  | stuck ↦ failed b resp cannot_read
  | ok key0 ↦ with_key b resp r (resolve_block1_exchange_key env b r key0) (λ key1.
      with_key b resp r (resolve_block2_exchange_key env b r key1) (λ key.
        continue_or_receive env b resp r max_szx max_message_size key (sending_at env b key)))
]

-- Do up to the call of `do`: the state with the request kept under its key, the request to send, and
-- the key, which is deleted when `do` returns.
unfoldable pub start_do :
    Env → BlockWise → PoolMessage → ℕ → ℕ → Result (BlockWise × PoolMessage × ℕ)
start_do env b r max_szx max_message_size = if ltb 7 max_szx then err invalid_szx else do
  key ← exchange_key env r.token
  let element = sending_element (until_of env b r.deadline) (some r) 0 0 []
  let stored = load_or_store_live env.now key element b.sending
  if stored.2 then err token_in_use else do
    request ← prepare_sending_request r max_szx max_message_size
    ok (record b { sending = stored.0 }, request, key)

-- invalidateObservationTransfers: the transfers of GET and FETCH responses to the endpoint lose their
-- match, and those kept under it are dropped.
abbrev is_affected : List ℕ → (List ℕ → List ℕ → Bool) → SendingMessage → Bool
is_affected endpoint same_endpoint s =
    ((s.request_code == 1) || (s.request_code == code_fetch))
    && same_endpoint s.endpoint endpoint
    && not (s.matching_key == 0)

unfoldable pub invalidate_observation_transfers :
    (List ℕ → List ℕ → Bool) → List ℕ → Cache SendingMessage → Cache SendingMessage
invalidate_observation_transfers same_endpoint endpoint [] = []
invalidate_observation_transfers same_endpoint endpoint ((k, e) ∷ m) =
    let rest = invalidate_observation_transfers same_endpoint endpoint m in
    if is_affected endpoint same_endpoint e.content
    then (if k == e.content.matching_key
        then rest
        else (k, record e { content = record e.content { matching_key = 0 } }) ∷ rest)
    else (k, e) ∷ rest
