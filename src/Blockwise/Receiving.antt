-- ===== src/Blockwise/Receiving.antt =====
-- net/blockwise/blockwise.go: putting the blocks of a request or a response together.
pub mod Safety
pub mod Steps
use go_coap.Blockwise.Limits.{
  ReceivedBlock, bytes_eq, cached_payload, is_too_large, entity_too_large, is_full_block,
}
use go_coap.Message.Fault.{
  Fault, Result, ok, err, stuck, request_entity_incomplete, cache_full, no_paired_request,
  cannot_read,
}
use go_coap.Pkg.SyncMap.{store}
use go_coap.Pkg.Cache.{Element, Cache, Limited, load_live, load_or_store_with_limit}
use go_coap.Blockwise.BlockOption.{Block, encode_block_option, decode_block_option}
use go_coap.Blockwise.Exchange.{
  block1, block2, size1, code_continue, block_size, get_szx, is_observe_response,
}
use go_coap.Blockwise.Engine.{
  Guard, BlockWise, Env, Handled, failed, replied, deliver, forget_receiving, forget_sending,
  get_sent_request, get_valid_until, handle_observe_response,
}
use go_coap.Message.Defs.{observe_id}
use go_coap.Pool.{PoolMessage, acquire, bytes_of, get_option_uint32, set_option_uint32, remove}
use go_coap.Prelude.{ltb, ◌==◌, if◌then◌else◌}
use go_coap.Prelude.{length}
use go_coap.Prelude.{pos}
use go_coap.Prelude.{ℕ, ◌+◌, ◌*◌, ◌/◌}
use go_coap.Prelude.{Bool, true, false, not, ◌&&◌, ◌||◌}
use go_coap.Prelude.{Option, none, some, List, [], ◌∷◌, ◌++◌}

-- What is asked for next: the start of the message that sendReceivedBlockContinue sends.
abbrev pub continue_base : PoolMessage → ReceivedBlock → PoolMessage → PoolMessage
continue_base r block sent =
    if block.block_type == block2
    then remove size1 (
        remove block1 (
          remove observe_id (record (acquire r.deadline) {
            code = sent.code;
            token = block.token;
            options = sent.options;
          })))
    else record (acquire r.deadline) { code = code_continue; token = block.token }

-- SetMessage of the message with its block, if that was encoded.
abbrev pub with_encoded : BlockWise → PoolMessage → ℕ → PoolMessage → Result ℕ → Handled
with_encoded b resp block_type base (ok value) = replied b (set_option_uint32 block_type value base)
with_encoded b resp block_type base (err e) = failed b resp e
with_encoded b resp block_type base stuck = failed b resp cannot_read

-- sendReceivedBlockContinue; `sent` is read for Block2 only
unfoldable pub send_continue :
    BlockWise → PoolMessage → PoolMessage → ReceivedBlock → PoolMessage → ℕ → Handled
send_continue b resp r block sent payload_size =
    let szx = get_szx block.szx block.max_szx in
    let num = if block.block_type == block2 then payload_size / block_size szx else block.num in
    with_encoded b resp block.block_type (continue_base r block sent)
      (encode_block_option szx (pos num) block.more)

-- refreshReceiveExpiration
unfoldable pub refreshed : Env → BlockWise → ReceivedBlock → Bool → Option ℕ → Option ℕ
refreshed env b block new_data until =
    if block.more && (block.block_type == block1) && b.rolling_expiration && new_data
    then some (env.now + b.expiration)
    else until

abbrev pub keep_guard :
    ReceivedBlock → Element Guard → Option ℕ → PoolMessage → ℕ → BlockWise → BlockWise
keep_guard block e until m received b = record b {
  receiving =
      store block.exchange_key
        (record {
          valid_until = until;
          content = record {
            message = m;
            matching_key = e.content.matching_key;
            received = received;
          };
        })
        b.receiving;
}

-- The whole body has arrived.
unfoldable pub finish_transfer :
    Env → BlockWise → PoolMessage → PoolMessage → ReceivedBlock → PoolMessage → List ℕ → Handled
finish_transfer env b resp r block m bytes =
    let b1 = forget_receiving block.exchange_key b in
    let b2 = if bytes_eq m.token block.token then b1 else forget_sending block.exchange_key b1 in
    let whole = record (remove block.size_type (remove block.block_type m)) {
      kind = r.kind;
      body = some bytes;
    } in
    deliver env b2 resp whole

-- appendReceivedBlock, with the cached message `m`, whose body is `payload`
unfoldable pub append_received_block :
    Env
    → BlockWise
    → PoolMessage
    → PoolMessage
    → Element Guard
    → ReceivedBlock
    → PoolMessage
    → PoolMessage
    → List ℕ
    → ℕ
    → Handled
append_received_block env b resp r e block sent m payload off =
    let b0 = keep_guard block e e.valid_until m e.content.received b in
    let bytes = payload ++ bytes_of r.body in
    let until = refreshed env b block (ltb off (length bytes)) e.valid_until in
    let grown = keep_guard block e until (record m { body = some bytes }) (length bytes) b in
    if not (off == length payload)
    then send_continue b0 resp r block sent (length payload)
    else if block.more
    then send_continue grown resp r block sent (length bytes)
    else finish_transfer env grown resp r block m bytes

-- The tests of processCachedReceivedBlock on a request.
unfoldable pub is_incomplete : PoolMessage → ReceivedBlock → ℕ → ℕ → Bool
is_incomplete r block payload_size off =
    (block.block_type == block1)
    && ((block.more && not (is_full_block r block.req_szx))
        || ltb payload_size off
        || (ltb off payload_size && not block.more))

-- `if err != nil { b.receivingMessagesCache.Delete(...) }`
abbrev forget_on_error : ℕ → Handled → Handled
forget_on_error key h = elim h.failure [
  | none ↦ h
  | some e ↦ record h { state = forget_receiving key h.state }
]

unfoldable pub process_cached_block :
    Env
    → BlockWise
    → PoolMessage
    → PoolMessage
    → Element Guard
    → ReceivedBlock
    → PoolMessage
    → Handled
process_cached_block env b resp r e block sent =
    let m = cached_payload r e.content.message in
    let payload = bytes_of m.body in
    let off = block.num * block_size block.szx in
    if is_incomplete r block (length payload) off
    then forget_on_error block.exchange_key (failed b resp request_entity_incomplete)
    else if is_too_large b r block.block_type off
    then replied (forget_receiving block.exchange_key b) (entity_too_large b resp block.token)
    else forget_on_error block.exchange_key
        (append_received_block env b resp r e block sent m payload off)

-- The guard that getOrCreateReceivedMessageGuard makes.
unfoldable pub new_guard : ReceivedBlock → PoolMessage → ℕ → Element Guard
new_guard block r until = record {
  valid_until = some until;
  content = record {
    message = record (acquire r.deadline) {
      code = r.code;
      token = r.token;
      options = r.options;
      body = some [];
    };
    matching_key = block.matching_key;
    received = 0;
  };
}

-- onExpire of the entries that were removed
unfoldable pub expire_sending : Cache Guard → BlockWise → BlockWise
expire_sending [] b = b
expire_sending ((k, e) ∷ gone) b = expire_sending gone (forget_sending k b)

abbrev pub with_limited :
    Env
    → BlockWise
    → PoolMessage
    → PoolMessage
    → ReceivedBlock
    → PoolMessage
    → Limited Guard
    → Handled
with_limited env b resp r block sent (m, none, gone) =
    failed (expire_sending gone (record b { receiving = m })) resp cache_full
with_limited env b resp r block sent (m, some (e, loaded), gone) =
    process_cached_block env (expire_sending gone (record b { receiving = m })) resp r e block sent

-- The first block of a transfer that has no state yet.
unfoldable pub process_first_block :
    Env → BlockWise → PoolMessage → PoolMessage → ReceivedBlock → PoolMessage → ℕ → Handled
process_first_block env b resp r block sent until =
    if (block.block_type == block1) && not (block.num == 0)
    then failed b resp request_entity_incomplete
    else if not block.more
    then (if is_too_large b r block.block_type 0
        then replied b (entity_too_large b resp block.token)
        else deliver env b resp r)
    else (let fitted = record block { szx = get_szx block.szx block.max_szx } in
        with_limited env b resp r fitted sent (
          load_or_store_with_limit env.now block.exchange_key (new_guard fitted r until)
            b.max_entries b.receiving))

abbrev pub with_guard :
    Env
    → BlockWise
    → PoolMessage
    → PoolMessage
    → ReceivedBlock
    → PoolMessage
    → ℕ
    → Option (Element Guard)
    → Handled
with_guard env b resp r block sent until none = process_first_block env b resp r block sent until
with_guard env b resp r block sent until (some e) = process_cached_block env b resp r e block sent

unfoldable pub process_block :
    Env → BlockWise → PoolMessage → PoolMessage → ReceivedBlock → PoolMessage → ℕ → Handled
process_block env b resp r block sent until =
    with_guard env b resp r block sent until (load_live env.now block.exchange_key b.receiving)

abbrev pub sent_or_empty : Option PoolMessage → PoolMessage
sent_or_empty none = acquire none
sent_or_empty (some m) = m

abbrev pub is_none : Option PoolMessage → Bool
is_none none = true
is_none (some m) = false

-- What follows handleObserveResponse.
abbrev pub with_observed :
    Env
    → BlockWise
    → PoolMessage
    → PoolMessage
    → ReceivedBlock
    → PoolMessage
    → Result BlockWise
    → Handled
with_observed env b resp r block sent (err e) = failed b resp e
with_observed env b resp r block sent stuck = failed b resp cannot_read
with_observed env b resp r block sent (ok b') =
    process_block env b' resp r
      (record block { token = env.new_token; exchange_key = env.token_hash env.new_token }) sent
      (env.now + b.expiration)

-- processReceivedBlock
unfoldable pub process_received_block :
    Env → BlockWise → PoolMessage → PoolMessage → ReceivedBlock → Handled
process_received_block env b resp r block =
    let sent = get_sent_request env b block.exchange_key block.token in
    let until = get_valid_until env b sent in
    if (block.block_type == block2) && is_none sent
    then failed b resp no_paired_request
    else if is_observe_response r
    then with_observed env b resp r block (sent_or_empty sent) (handle_observe_response env b sent)
    else process_block env b resp r block (sent_or_empty sent) until

-- The block that a decoded option describes, in a message `r`.
abbrev pub received_block : PoolMessage → ℕ → ℕ × ℕ → ℕ → ℕ → Block → ReceivedBlock
received_block r max_szx (exchange, matching) block_type size_type decoded = record {
  exchange_key = exchange;
  matching_key = matching;
  token = r.token;
  block_type = block_type;
  size_type = size_type;
  szx = decoded.szx;
  req_szx = decoded.szx;
  max_szx = max_szx;
  num = decoded.num;
  more = decoded.more;
}

abbrev pub with_block :
    Env → BlockWise → PoolMessage → PoolMessage → ℕ → ℕ × ℕ → ℕ → ℕ → Block × Option Fault → Handled
with_block env b resp r max_szx keys block_type size_type (decoded, some e) = failed b resp e
with_block env b resp r max_szx keys block_type size_type (decoded, none) =
    process_received_block env b resp r (received_block r max_szx keys block_type size_type decoded)

abbrev pub with_value :
    Env → BlockWise → PoolMessage → PoolMessage → ℕ → ℕ × ℕ → ℕ → ℕ → Result ℕ → Handled
with_value env b resp r max_szx keys block_type size_type (err e) = deliver env b resp r
with_value env b resp r max_szx keys block_type size_type stuck = deliver env b resp r
with_value env b resp r max_szx keys block_type size_type (ok value) =
    with_block env b resp r max_szx keys block_type size_type (decode_block_option value)

-- processReceivedMessage, for the codes that its callers have
unfoldable pub process_received_message :
    Env → BlockWise → PoolMessage → PoolMessage → ℕ → ℕ × ℕ → ℕ → ℕ → Handled
process_received_message env b resp r max_szx keys block_type size_type =
    with_value env b resp r max_szx keys block_type size_type (get_option_uint32 block_type r)
