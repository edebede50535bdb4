-- ===== src/Blockwise/Receiving/Steps.antt =====
-- net/blockwise/blockwise.go: what processCachedReceivedBlock does with the next block of a request.
use go_coap.Message.Fault.{err, option_not_found}
use go_coap.Pkg.Cache.{Element}
use go_coap.Blockwise.BlockOption.{max_block_number}
use go_coap.Blockwise.Exchange.{block1, size1, code_continue, is_body_method, block_size, get_szx}
use go_coap.Blockwise.Engine.{Guard, BlockWise, Env, replied, get_sent_request, get_valid_until}
use go_coap.Blockwise.Limits.{
  ReceivedBlock, refresh_etag, cached_payload, receive_body_size, is_too_large, is_full_block,
}
use go_coap.Blockwise.Receiving.{
  send_continue, is_incomplete, forget_on_error, append_received_block, finish_transfer, keep_guard,
  refreshed, process_cached_block, process_block, process_received_block, process_received_message,
  sent_or_empty,
}
use go_coap.Blockwise.Sending.Slices.{
  is_more, block_value, cut_block, block_size_pos, encode-block_value, decode-block_value,
}
use go_coap.Blockwise.Sending.Reading.{
  cut_block-token, cut_block-body, cut_block-size, cut_block-block1, cut_block-size1,
  cut_block-etag, cut_block-not_observe,
}
use go_coap.Pool.{PoolMessage, acquire, get_option_bytes, set_option_uint32, remove}
use go_coap.Prelude.{ltb, ◌==◌, ltb→lt, lt→ltb}
use go_coap.Prelude.{length, take, drop, length-take}
use go_coap.Prelude.{ℤ}
use go_coap.Prelude.{ℕ, zero, suc, ◌+◌, ◌*◌, ◌^◌, ◌≤◌, ◌<◌}
use go_coap.Prelude.{◌≡◌, refl, sym, ap, ◌∙◌, Bool, true, false, ◌&&◌}
use go_coap.Prelude.{some, List, [], ◌∷◌, ◌++◌, arith}

-- the acknowledgement of a block
abbrev pub ack : PoolMessage → ℕ → ℕ → PoolMessage → PoolMessage
ack r szx k m =
    set_option_uint32 block1 (block_value szx k true)
      (record (acquire r.deadline) { code = code_continue; token = m.token })

take_nil {ℓ} : {A : Type ℓ} (n : ℕ) → take {A = A} n [] ≡ []
take_nil zero = refl
take_nil (suc n) = refl

take_all {ℓ} : {A : Type ℓ} (n : ℕ) (xs : List A) → length xs ≤ n → take n xs ≡ xs
take_all n [] h = take_nil n
take_all zero (x ∷ xs) h = absurd (omega arith)
take_all (suc n) (x ∷ xs) h = ap (λ ys. x ∷ ys) (take_all n xs (omega arith))

take-drop {ℓ} :
    {A : Type ℓ} (m n : ℕ) (xs : List A) → take m xs ++ take n (drop m xs) ≡ take (m + n) xs
take-drop zero n xs = ap (λ j. take j xs) (omega arith)
take-drop (suc m) n [] = take_nil n ∙ sym (take_nil (suc m + n))
take-drop (suc m) n (x ∷ xs) =
    let count : suc (m + n) ≡ suc m + n = omega arith in
    ap (λ ys. x ∷ ys) (take-drop m n xs) ∙ ap (λ j. take j (x ∷ xs)) count

pub same_number : (n : ℕ) → (n == n) ≡ true
same_number n = ground arith

pub get_szx-same : (szx : ℕ) → get_szx szx szx ≡ szx
unfolding get_szx
get_szx-same szx = ground arith

-- the message that the handler is called with in the end
abbrev pub whole : PoolMessage → ℤ → List ℕ → PoolMessage
whole cached kind bytes = record (remove size1 (remove block1 cached)) {
  kind = kind;
  body = some bytes;
}

module _ (m : PoolMessage) (szx : ℕ) (bytes : List ℕ) (key matching : ℕ) where
  -- Block `k` of the request as the engine reads it.
  abbrev pub block_with : ℕ → Bool → ReceivedBlock
  block_with k more = record {
    exchange_key = key;
    matching_key = matching;
    token = m.token;
    block_type = block1;
    size_type = size1;
    szx = szx;
    req_szx = szx;
    max_szx = szx;
    num = k;
    more = more;
  }

  abbrev pub block_at : ℕ → ReceivedBlock
  block_at k = block_with k (is_more szx k bytes)

  -- the bytes before block `k`
  abbrev pub before : ℕ → List ℕ
  before k = take (k * block_size szx) bytes

  module _ (hc : is_body_method m.code ≡ true) (hs : szx < 7) (hl : length bytes < 2 ^ 32)
      (he : get_option_bytes 4 m ≡ err option_not_found) where
    -- the whole call, for a block of the request
    pub process_received_message-block :
        (env : Env) (b : BlockWise) (resp : PoolMessage) (k : ℕ)
        → k ≤ max_block_number
        → process_received_message env b resp
            (cut_block m szx k bytes)
            szx
            (key, matching)
            block1
            size1
          ≡ process_block env b resp
              (cut_block m szx k bytes)
              (block_at k)
              (sent_or_empty (get_sent_request env b key m.token))
              (get_valid_until env b (get_sent_request env b key m.token))
    unfolding process_received_message process_received_block
    process_received_message-block env b resp k hk =
        rw
          (
            cut_block-block1 m szx k bytes hc hs hk,
            decode-block_value szx k (is_more szx k bytes) hs hk,
            cut_block-not_observe m szx k bytes hc,
            cut_block-token m szx k bytes,
          )
          refl

    cached_payload-same : (k : ℕ) (c : PoolMessage) → cached_payload (cut_block m szx k bytes) c ≡ c
    unfolding cached_payload refresh_etag
    cached_payload-same k c = rw (cut_block-etag m szx k bytes hc, he) refl

    length-before :
        (k : ℕ) → k * block_size szx ≤ length bytes → length (before k) ≡ k * block_size szx
    length-before k h = length-take (k * block_size szx) bytes h

    not-is_incomplete :
        (k : ℕ)
        → k * block_size szx ≤ length bytes
        → is_incomplete
            (cut_block m szx k bytes)
            (block_at k)
            (length (before k))
            (k * block_size szx)
          ≡ false
    unfolding is_incomplete is_full_block
    not-is_incomplete k h = ground (arith, length-before k h, cut_block-size m szx k bytes)

    not-is_too_large :
        (b : BlockWise) (k : ℕ)
        → ltb 0 b.max_receive_body_size && ltb b.max_receive_body_size (length bytes) ≡ false
        → k * block_size szx ≤ length bytes
        → is_too_large b (cut_block m szx k bytes) block1 (k * block_size szx) ≡ false
    unfolding is_too_large receive_body_size
    not-is_too_large b k small h =
        rw (cut_block-size1 m szx k bytes hc hl, cut_block-size m szx k bytes) (ground arith)

    before-next :
        (k : ℕ)
        → before k ++ take (block_size szx) (drop (k * block_size szx) bytes) ≡ before (suc k)
    before-next k =
        take-drop (k * block_size szx) (block_size szx) bytes ∙ ap (λ n. take n bytes) (omega arith)

    send_continue-ack :
        (b : BlockWise) (resp r : PoolMessage) (sent : PoolMessage) (k n : ℕ)
        → k ≤ max_block_number
        → send_continue b resp r (block_with k true) sent n ≡ replied b (ack r szx k m)
    unfolding send_continue
    send_continue-ack b resp r sent k n hk =
        rw (get_szx-same szx, encode-block_value szx k true hs hk) refl

    -- a block with more behind it
    pub process_cached_block-more :
        (env : Env) (b : BlockWise) (resp : PoolMessage) (e : Element Guard) (sent : PoolMessage)
        (k : ℕ)
        → e.content.message.body ≡ some (before k)
        → is_more szx k bytes ≡ true
        → k ≤ max_block_number
        → ltb 0 b.max_receive_body_size && ltb b.max_receive_body_size (length bytes) ≡ false
        → process_cached_block env b resp (cut_block m szx k bytes) e (block_at k) sent
          ≡ replied
              (keep_guard
                (block_at k)
                e
                (refreshed env b (block_at k) true e.valid_until)
                (record (e.content.message) { body = some (before (suc k)) })
                (suc k * block_size szx)
                b)
              (ack (cut_block m szx k bytes) szx k m)
    unfolding process_cached_block append_received_block
    process_cached_block-more env b resp e sent k hb more hk small =
        rw
          (
            cached_payload-same k e.content.message,
            hb,
            not-is_incomplete k (ground (arith, more)),
            not-is_too_large b k small (ground (arith, more)),
            length-before k (ground (arith, more)),
            cut_block-body m szx k bytes,
          )
          (rw (same_number (k * block_size szx), before-next k)
            (rw
              (
                more,
                length-before (suc k) (
                    omega
                      (arith, ltb→lt (k * block_size szx + block_size szx) (length bytes) more)),
                lt→ltb (k * block_size szx) (suc k * block_size szx)
                    (omega (arith, block_size_pos szx)),
              )
              (ap (forget_on_error key)
                (send_continue-ack _ resp _ sent k (suc k * block_size szx) hk))))

    -- the last block
    pub process_cached_block-last :
        (env : Env) (b : BlockWise) (resp : PoolMessage) (e : Element Guard) (sent : PoolMessage)
        (k : ℕ)
        → e.content.message.body ≡ some (before k)
        → is_more szx k bytes ≡ false
        → k * block_size szx ≤ length bytes
        → ltb 0 b.max_receive_body_size && ltb b.max_receive_body_size (length bytes) ≡ false
        → let h = process_cached_block env b resp (cut_block m szx k bytes) e (block_at k) sent in
          let w = whole e.content.message (cut_block m szx k bytes).kind bytes in
          (h.delivered ≡ w ∷ []) × (h.response ≡ env.next resp w)
    unfolding process_cached_block append_received_block finish_transfer
    process_cached_block-last env b resp e sent k hb last inside small =
        rw
          (
            cached_payload-same k e.content.message,
            hb,
            not-is_incomplete k inside,
            not-is_too_large b k small inside,
            length-before k inside,
            cut_block-body m szx k bytes,
          )
          (rw (same_number (k * block_size szx), before-next k)
            (rw (last, take_all (suc k * block_size szx) bytes (ground (arith, last)))
              (refl, refl)))
