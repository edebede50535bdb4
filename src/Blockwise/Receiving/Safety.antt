-- ===== src/Blockwise/Receiving/Safety.antt =====
-- net/blockwise/blockwise.go: the limit on the size of a received body.
use go_coap.Message.Fault.{request_entity_incomplete, no_paired_request, Result, ok, err, stuck}
use go_coap.Pkg.Cache.{Element, Cache, Limited, load_live, load_or_store_with_limit}
use go_coap.Blockwise.Exchange.{block1, block2, block_size, get_szx, is_observe_response}
use go_coap.Blockwise.Engine.{
  Guard, BlockWise, Env, Handled, failed, forget_sending, get_sent_request, get_valid_until,
  handle_observe_response,
}
use go_coap.Blockwise.Limits.{ReceivedBlock, cached_payload, receive_body_size, is_too_large}
use go_coap.Blockwise.Receiving.{
  send_continue, is_incomplete, forget_on_error, append_received_block, finish_transfer, with_guard,
  with_limited, with_observed, sent_or_empty, is_none, process_cached_block, new_guard,
  expire_sending, process_first_block, process_block, process_received_block,
}
use go_coap.Pool.{PoolMessage, body_size, bytes_of}
use go_coap.Prelude.{◌==◌, if◌then◌else◌, ==→eq}
use go_coap.Prelude.{length, All, length-append}
use go_coap.Prelude.{ℕ, ◌+◌, ◌*◌, ◌≤◌, ◌<◌}
use go_coap.Prelude.{◌≡◌, refl, ◌∙◌, Bool, true, false, not, ◌&&◌}
use go_coap.Prelude.{Option, none, some, List, [], ◌∷◌, ◌++◌, arith}

-- Every message that the handler was called with has a body within a limit.
unfoldable pub IsWithin : ℕ → Handled → Type 0
IsWithin limit h = All (λ m. body_size m ≤ limit) h.delivered

receive_body_size-covers : (r : PoolMessage) (off : ℕ) → off + body_size r ≤ receive_body_size r off
unfolding receive_body_size
receive_body_size-covers r off = ground arith

send_continue-delivered :
    (b : BlockWise) (resp r : PoolMessage) (block : ReceivedBlock) (sent : PoolMessage) (n : ℕ)
    → (send_continue b resp r block sent n).delivered ≡ []
unfolding send_continue
send_continue-delivered b resp r block sent n = ground arith

forget_on_error-delivered :
    (key : ℕ) (h : Handled) → (forget_on_error key h).delivered ≡ h.delivered
forget_on_error-delivered key h = ground arith

-- a block whose bytes end within the limit
appended-small :
    (limit : ℕ) (b : BlockWise) (r : PoolMessage) (payload : List ℕ) (block_type off : ℕ)
    → b.max_receive_body_size ≡ limit
    → 0 < limit
    → block_type ≡ block1
    → is_too_large b r block_type off ≡ false
    → off ≡ length payload
    → length (payload ++ bytes_of r.body) ≤ limit
unfolding is_too_large body_size
appended-small limit b r payload block_type off hm h ht e ho =
    ground (arith, receive_body_size-covers r off, length-append payload (bytes_of r.body))

silent-IsWithin : (limit : ℕ) (h : Handled) → h.delivered ≡ [] → IsWithin limit h
unfolding IsWithin
silent-IsWithin limit h e = rw e tt

delivered-IsWithin :
    (limit : ℕ) (h : Handled) (m : PoolMessage)
    → h.delivered ≡ m ∷ []
    → body_size m ≤ limit
    → IsWithin limit h
unfolding IsWithin
delivered-IsWithin limit h m e small = rw e (small, tt)

forget_on_error-IsWithin :
    (limit key : ℕ) (h : Handled) → IsWithin limit h → IsWithin limit (forget_on_error key h)
unfolding IsWithin
forget_on_error-IsWithin limit key h small = rw (forget_on_error-delivered key h) small

if-IsWithin :
    (limit : ℕ) (c : Bool) (h k : Handled)
    → (c ≡ true → IsWithin limit h)
    → (c ≡ false → IsWithin limit k)
    → IsWithin limit (if c then h else k)
if-IsWithin limit true h k f g = f refl
if-IsWithin limit false h k f g = g refl

not-false : (c : Bool) → not c ≡ false → c ≡ true
not-false c e = ground arith

expire_sending-max :
    (gone : Cache Guard) (b : BlockWise)
    → (expire_sending gone b).max_receive_body_size ≡ b.max_receive_body_size
unfolding expire_sending
expire_sending-max [] b = refl
expire_sending-max ((k, e) ∷ gone) b = expire_sending-max gone (forget_sending k b)

handle_observe_response-max :
    (env : Env) (b b' : BlockWise) (sent : Option PoolMessage)
    → handle_observe_response env b sent ≡ ok b'
    → b'.max_receive_body_size ≡ b.max_receive_body_size
unfolding handle_observe_response
handle_observe_response-max env b b' none e = ground arith
handle_observe_response-max env b b' (some request) e = ground arith

module _ (limit : ℕ) (h : 0 < limit) (env : Env) (resp r : PoolMessage) where
  append_received_block-IsWithin :
      (b : BlockWise) (e : Element Guard) (block : ReceivedBlock) (sent m : PoolMessage)
      (payload : List ℕ) (off : ℕ)
      → b.max_receive_body_size ≡ limit
      → block.block_type ≡ block1
      → is_too_large b r block.block_type off ≡ false
      → IsWithin limit (append_received_block env b resp r e block sent m payload off)
  unfolding append_received_block finish_transfer body_size
  append_received_block-IsWithin b e block sent m payload off hm ht small =
      if-IsWithin limit (not (off == length payload)) _ _
        (λ c.
          silent-IsWithin limit _ (send_continue-delivered _ resp r block sent (length payload)))
        (λ c.
          if-IsWithin limit block.more _ _
            (λ d.
              silent-IsWithin limit _
                (send_continue-delivered _ resp r block sent (length (payload ++ bytes_of r.body))))
            (λ d. delivered-IsWithin limit _ _ refl (
              appended-small limit b r payload block.block_type off hm h ht small
                (==→eq off (length payload) (not-false (off == length payload) c)))))

  process_cached_block-IsWithin :
      (b : BlockWise) (e : Element Guard) (block : ReceivedBlock) (sent : PoolMessage)
      → b.max_receive_body_size ≡ limit
      → block.block_type ≡ block1
      → IsWithin limit (process_cached_block env b resp r e block sent)
  unfolding process_cached_block
  process_cached_block-IsWithin b e block sent hm ht =
      let m = cached_payload r e.content.message in
      let payload = bytes_of m.body in
      let off = block.num * block_size block.szx in
      if-IsWithin limit (is_incomplete r block (length payload) off) _ _
        (λ c. silent-IsWithin limit _ refl)
        (λ c.
          if-IsWithin limit (is_too_large b r block.block_type off) _ _
            (λ d. silent-IsWithin limit _ refl)
            (λ d.
              forget_on_error-IsWithin limit block.exchange_key _
                (append_received_block-IsWithin b e block sent m payload off hm ht d)))

  with_limited-IsWithin :
      (b : BlockWise) (block : ReceivedBlock) (sent : PoolMessage) (limited : Limited Guard)
      → b.max_receive_body_size ≡ limit
      → block.block_type ≡ block1
      → IsWithin limit (with_limited env b resp r block sent limited)
  with_limited-IsWithin b block sent (m, none, gone) hm ht = silent-IsWithin limit _ refl
  with_limited-IsWithin b block sent (m, some (e, loaded), gone) hm ht =
      process_cached_block-IsWithin (expire_sending gone (record b { receiving = m })) e block sent
        (expire_sending-max gone (record b { receiving = m }) ∙ hm) ht

  process_first_block-IsWithin :
      (b : BlockWise) (block : ReceivedBlock) (sent : PoolMessage) (until : ℕ)
      → b.max_receive_body_size ≡ limit
      → block.block_type ≡ block1
      → IsWithin limit (process_first_block env b resp r block sent until)
  unfolding process_first_block body_size
  process_first_block-IsWithin b block sent until hm ht =
      let fitted = record block { szx = get_szx block.szx block.max_szx } in
      if-IsWithin limit ((block.block_type == block1) && not (block.num == 0))
        (failed b resp request_entity_incomplete) _ (λ c. silent-IsWithin limit _ refl)
        (λ c.
          if-IsWithin limit (not block.more) _ _
            (λ d.
              if-IsWithin limit (is_too_large b r block.block_type 0) _ _
                (λ f. silent-IsWithin limit _ refl)
                (λ f.
                  delivered-IsWithin limit _ r refl
                    (appended-small limit b r [] block.block_type 0 hm h ht f refl)))
            (λ d.
              with_limited-IsWithin b fitted sent
                (load_or_store_with_limit env.now block.exchange_key (new_guard fitted r until)
                  b.max_entries b.receiving)
                hm ht))

  with_guard-IsWithin :
      (b : BlockWise) (block : ReceivedBlock) (sent : PoolMessage) (until : ℕ)
      (e : Option (Element Guard))
      → b.max_receive_body_size ≡ limit
      → block.block_type ≡ block1
      → IsWithin limit (with_guard env b resp r block sent until e)
  with_guard-IsWithin b block sent until none hm ht =
      process_first_block-IsWithin b block sent until hm ht
  with_guard-IsWithin b block sent until (some e) hm ht =
      process_cached_block-IsWithin b e block sent hm ht

  process_block-IsWithin :
      (b : BlockWise) (block : ReceivedBlock) (sent : PoolMessage) (until : ℕ)
      → b.max_receive_body_size ≡ limit
      → block.block_type ≡ block1
      → IsWithin limit (process_block env b resp r block sent until)
  unfolding process_block
  process_block-IsWithin b block sent until hm ht =
      with_guard-IsWithin b block sent until (load_live env.now block.exchange_key b.receiving) hm
        ht

  with_observed-IsWithin :
      (b : BlockWise) (block : ReceivedBlock) (sent : PoolMessage) (observed : Result BlockWise)
      → ((b' : BlockWise) → observed ≡ ok b' → b'.max_receive_body_size ≡ limit)
      → block.block_type ≡ block1
      → IsWithin limit (with_observed env b resp r block sent observed)
  with_observed-IsWithin b block sent (err e) hm ht = silent-IsWithin limit _ refl
  with_observed-IsWithin b block sent stuck hm ht = silent-IsWithin limit _ refl
  with_observed-IsWithin b block sent (ok b') hm ht =
      process_block-IsWithin b' _ sent _ (hm b' refl) ht

-- A Block1 block, with a limit on received bodies: whatever the engine holds and the block says, the
-- handler is called with no message whose body is above the limit.
pub process_received_block-IsWithin :
    (env : Env) (b : BlockWise) (resp r : PoolMessage) (block : ReceivedBlock)
    → block.block_type ≡ block1
    → 0 < b.max_receive_body_size
    → IsWithin b.max_receive_body_size (process_received_block env b resp r block)
unfolding process_received_block
process_received_block-IsWithin env b resp r block ht h =
    let limit = b.max_receive_body_size in
    let sent = get_sent_request env b block.exchange_key block.token in
    if-IsWithin limit ((block.block_type == block2) && is_none sent)
      (failed b resp no_paired_request) _
      (λ c. silent-IsWithin limit (failed b resp no_paired_request) refl)
      (λ c.
        if-IsWithin limit (is_observe_response r) _ _
          (λ d.
            with_observed-IsWithin limit h env resp r b block (sent_or_empty sent)
              (handle_observe_response env b sent)
              (λ b' e. handle_observe_response-max env b b' sent e) ht)
          (λ d.
            process_block-IsWithin limit h env resp r b block (sent_or_empty sent)
              (get_valid_until env b sent) refl ht))
