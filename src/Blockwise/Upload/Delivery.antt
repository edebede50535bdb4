-- ===== src/Blockwise/Upload/Delivery.antt =====
-- net/blockwise/blockwise.go: the body that an upload delivers.
use go_coap.Blockwise.Upload.Holding.{
  Holds, block_size-le, if-le, next_request-done, refreshed-some, store-fresh, the_zero, view-whole,
}
use native.Mathlib.Nat.{lt_of_mul-lt-mul_right}
use go_coap.Message.Fault.{ok, err, option_not_found}
use go_coap.Pkg.SyncMap.{load, store, is_full}
use go_coap.Pkg.SyncMap.Laws.{load-store}
use go_coap.Pkg.Cache.{Element, is_expired, load_live}
use go_coap.Blockwise.BlockOption.{max_block_number}
use go_coap.Blockwise.Exchange.{block1, size1, code_continue, is_body_method, block_size}
use go_coap.Blockwise.Engine.{Guard, BlockWise, sending_at, get_sent_request, get_valid_until}
use go_coap.Blockwise.Receiving.{
  refreshed, keep_guard, new_guard, process_cached_block, process_first_block, process_block,
  process_received_message, sent_or_empty, expire_sending,
}
use go_coap.Blockwise.Receiving.Steps.{
  get_szx-same, same_number, block_with, block_at, before, whole, process_received_message-block,
  process_cached_block-more, process_cached_block-last,
}
use go_coap.Blockwise.Sending.Slices.{is_more, cut_block, prepare_sending_request-cut}
use go_coap.Blockwise.Sending.Reading.{cut_block-code, cut_block-token}
use go_coap.Blockwise.Upload.{Client, Server, view, transfer, upload, next_request-ack}
use go_coap.Pool.{PoolMessage, get_option_bytes}
use go_coap.Prelude.{ltb, if◌then◌else◌, ltb→lt, lt→ltb, le→not_ltb, Bool-cases}
use go_coap.Prelude.{length, take}
use go_coap.Prelude.{ℕ, zero, suc, ◌+◌, ◌*◌, ◌^◌, ◌≤◌, ◌<◌}
use go_coap.Prelude.{◌≡◌, refl, sym, ap, ◌∙◌, ◌≢◌, inl, inr, true, false, ◌&&◌}
use go_coap.Prelude.{none, some, List, [], ◌∷◌, map, arith}

module _ (c : Client) (s : Server) (m : PoolMessage) (szx : ℕ) (bytes : List ℕ)
    (limit expiration : ℕ) (hsend : sending_at c.env c.engine c.key ≡ some m)
    (hb : m.body ≡ some bytes) (hc : is_body_method m.code ≡ true) (hs : szx < 7)
    (hl : length bytes < 2 ^ 32) (hmax : length bytes ≤ suc max_block_number * block_size szx)
    (he : get_option_bytes 4 m ≡ err option_not_found)
    (small : ltb 0 limit && ltb limit (length bytes) ≡ false)
    (within : (i j : ℕ) → (s.env i).now ≤ (s.env j).now + expiration)
    (handler : (k : ℕ) (r w : PoolMessage) → ((s.env k).next r w).code ≢ code_continue) where
  abbrev so_far : ℕ → List ℕ
  so_far k = before m szx bytes s.key s.matching k

  block-number : (k : ℕ) → k * block_size szx < length bytes → k ≤ max_block_number
  block-number k h = omega (
    arith,
    lt_of_mul-lt-mul_right (block_size szx) {m = k} {n = suc max_block_number}
        (omega (arith, h, hmax)),
  )

  -- the element is found, whatever the time
  live-element :
      (b : BlockWise) (k j : ℕ) (h : Holds s m bytes limit expiration (so_far k) b)
      → load_live (s.env j).now s.key b.receiving ≡ some h.element
  unfolding load_live is_expired
  live-element b k j h =
      let alive = le→not_ltb h.until (s.env j).now (h.in_time j) in
      rw (h.loaded, h.valid, alive) refl

  -- a call with block `k`, when the element is there
  call-block :
      (b : BlockWise) (k : ℕ) (h : Holds s m bytes limit expiration (so_far k) b)
      → k * block_size szx < length bytes
      → process_received_message
          (s.env k)
          b
          s.response
          (cut_block m szx k bytes)
          szx
          (s.key, s.matching)
          block1
          size1
        ≡ process_cached_block
            (s.env k)
            b
            s.response
            (cut_block m szx k bytes)
            h.element
            (block_at m szx bytes s.key s.matching k)
            (sent_or_empty (get_sent_request (s.env k) b s.key m.token))
  unfolding process_block
  call-block b k h inside =
      process_received_message-block m szx bytes s.key s.matching hc hs hl he (s.env k) b s.response
        k (block-number k inside)
      ∙ rw (live-element b k k h) refl

  abbrev kept : (b : BlockWise) (k : ℕ) → Holds s m bytes limit expiration (so_far k) b → BlockWise
  kept b k h =
      let block = block_at m szx bytes s.key s.matching k in
      keep_guard block h.element (refreshed (s.env k) b block true h.element.valid_until)
        (record (h.element.content.message) { body = some (so_far (suc k)) })
        (suc k * block_size szx) b

  -- the state that a block with more behind it leaves
  kept-Holds :
      (b : BlockWise) (k : ℕ) (h : Holds s m bytes limit expiration (so_far k) b)
      → Holds s m bytes limit expiration (so_far (suc k)) (kept b k h)
  kept-Holds b k h =
      let block = block_at m szx bytes s.key s.matching k in
      let renewed = block.more && b.rolling_expiration in
      let until = if renewed then (s.env k).now + b.expiration else h.until in
      record {
        element = record {
          valid_until = refreshed (s.env k) b block true h.element.valid_until;
          content = record {
            message = record (h.element.content.message) { body = some (so_far (suc k)) };
            matching_key = h.element.content.matching_key;
            received = suc k * block_size szx;
          };
        };
        until = until;
        loaded = rw (load-store s.key s.key, same_number s.key) refl;
        valid = rw (h.valid) (refreshed-some (s.env k) b block h.until refl);
        in_time = λ j.
            if-le renewed (s.env j).now _ h.until (rw (h.expiration_is) (within j k)) (h.in_time j);
        body = refl;
        code = h.code;
        token = h.token;
        limit_is = h.limit_is;
        expiration_is = h.expiration_is;
      }

  upload-rest :
      (fuel k : ℕ) (b : BlockWise)
      → Holds s m bytes limit expiration (so_far k) b
      → k * block_size szx < length bytes
      → length bytes ≤ (k + fuel) * block_size szx
      → map view (upload c s szx m.code fuel k (cut_block m szx k bytes) b)
        ≡ (m.code, m.token, some bytes) ∷ []
  unfolding upload
  upload-rest zero k b h inside enough = absurd (omega arith)
  upload-rest (suc fuel) k b h inside enough =
      let sent = sent_or_empty (get_sent_request (s.env k) b s.key m.token) in
      let limit_of = h.limit_is in
      let fits : ltb 0 b.max_receive_body_size && ltb b.max_receive_body_size (length bytes)
          ≡ false =
        rw limit_of small in
      elim (Bool-cases (is_more szx k bytes)) [
        | inl more ↦
            let next_inside : suc k * block_size szx < length bytes =
              omega (arith, ltb→lt (k * block_size szx + block_size szx) (length bytes) more) in
            rw
              (
                call-block b k h inside,
                process_cached_block-more m szx bytes s.key s.matching hc hs hl he (s.env k) b
                    s.response h.element sent k h.body more (block-number k inside) fits,
                next_request-ack c szx k m (cut_block m szx k bytes) bytes hsend hb hc hs
                    (block-number (suc k) next_inside) more hl,
              )
              (upload-rest fuel (suc k) (kept b k h) (kept-Holds b k h) next_inside (omega arith))
        | inr last ↦
            let w = whole h.element.content.message (cut_block m szx k bytes).kind bytes in
            let p =
              process_cached_block-last m szx bytes s.key s.matching hc hs hl he (s.env k) b
                s.response h.element sent k h.body last (omega arith) fits in
            rw
              (
                call-block b k h inside,
                p.0,
                p.1,
                next_request-done c szx m.code ((s.env k).next s.response w)
                    (handler k s.response w),
                view-whole h.element.content.message (cut_block m szx k bytes).kind bytes,
                h.code,
                h.token,
              )
              refl
      ]

  module _ (b : BlockWise) (fresh : load s.key b.receiving ≡ none)
      (room : is_full b.max_entries b.receiving ≡ false)
      (unpaired : get_sent_request (s.env 0) b s.key m.token ≡ none)
      (limit_is : b.max_receive_body_size ≡ limit) (expiration_is : b.expiration ≡ expiration)
      (longer : block_size szx < length bytes) where
    abbrev first : Element Guard
    first =
        new_guard (block_with m szx bytes s.key s.matching 0 true) (cut_block m szx 0 bytes)
          ((s.env 0).now + b.expiration)

    abbrev started : BlockWise
    started = record b { receiving = store s.key first b.receiving }

    so_far-zero : so_far 0 ≡ []
    so_far-zero = ap (λ n. take n bytes) (the_zero (block_size szx))

    started-Holds : Holds s m bytes limit expiration (so_far 0) started
    unfolding new_guard
    started-Holds = record {
      element = first;
      until = (s.env 0).now + b.expiration;
      loaded = rw (load-store s.key s.key, same_number s.key) refl;
      valid = refl;
      in_time = λ j. rw expiration_is (within j 0);
      body = rw so_far-zero refl;
      code = cut_block-code m szx 0 bytes;
      token = cut_block-token m szx 0 bytes;
      limit_is = limit_is;
      expiration_is = expiration_is;
    }

    is_more_first : is_more szx 0 bytes ≡ true
    is_more_first = lt→ltb (0 * block_size szx + block_size szx) (length bytes) (omega arith)

    started-unpaired : get_sent_request (s.env 0) started s.key m.token ≡ none
    unfolding get_sent_request sending_at
    started-unpaired = unpaired

    call-first :
        process_received_message
          (s.env 0)
          b
          s.response
          (cut_block m szx 0 bytes)
          szx
          (s.key, s.matching)
          block1
          size1
        ≡ process_received_message
            (s.env 0)
            started
            s.response
            (cut_block m szx 0 bytes)
            szx
            (s.key, s.matching)
            block1
            size1
    unfolding process_block process_first_block load_live get_valid_until expire_sending
        started-Holds
    call-first =
        process_received_message-block m szx bytes s.key s.matching hc hs hl he (s.env 0) b
          s.response 0 (omega arith)
        ∙ rw (fresh, unpaired, get_szx-same szx, is_more_first)
            (rw (store-fresh (s.env 0).now s.key first b.max_entries b.receiving room fresh)
              (rw started-unpaired refl))
        ∙ sym (call-block started 0 started-Holds (omega arith))

    first-delivered :
        (fuel : ℕ)
        → length bytes ≤ fuel * block_size szx
        → map view (upload c s szx m.code fuel 0 (cut_block m szx 0 bytes) b)
          ≡ (m.code, m.token, some bytes) ∷ []
    unfolding upload
    first-delivered zero enough = absurd (omega arith)
    first-delivered (suc fuel) enough =
        rw call-first (upload-rest (suc fuel) 0 started started-Holds (omega arith) (omega arith))

-- A request with a body and without an ETag, of a method with a body, whose body is longer than a block
-- of its exponent up to 6 and has no more blocks than Block1 can number. The client keeps the request
-- under its key. The server has no transfer under its key, room for one, no request of its own under
-- that token, and a limit on bodies that this one keeps; its calls all come within an expiration of one
-- another, and its handler answers no Continue. Then, with as many calls as the body has blocks, the
-- first block is sent, and the server's handler is called once, with the request's code, token and
-- whole body.
pub transfer-delivers :
    (c : Client) (s : Server) (b : BlockWise) (m : PoolMessage) (szx : ℕ) (bytes : List ℕ)
    (fuel : ℕ)
    → sending_at c.env c.engine c.key ≡ some m
    → m.body ≡ some bytes
    → is_body_method m.code ≡ true
    → szx < 7
    → block_size szx < length bytes
    → length bytes ≤ suc max_block_number * block_size szx
    → get_option_bytes 4 m ≡ err option_not_found
    → load s.key b.receiving ≡ none
    → is_full b.max_entries b.receiving ≡ false
    → get_sent_request (s.env 0) b s.key m.token ≡ none
    → ltb 0 b.max_receive_body_size && ltb b.max_receive_body_size (length bytes) ≡ false
    → ((i j : ℕ) → (s.env i).now ≤ (s.env j).now + b.expiration)
    → ((k : ℕ) (r w : PoolMessage) → ((s.env k).next r w).code ≢ code_continue)
    → length bytes ≤ fuel * block_size szx
    → transfer c s szx m fuel b ≡ ok ((m.code, m.token, some bytes) ∷ [])
unfolding transfer
transfer-delivers c s b m szx bytes fuel hsend hb hc hs longer hmax he fresh room unpaired small
      within handler enough =
    let hl : length bytes < 2 ^ 32 = omega (arith, block_size-le szx hs) in
    let delivered =
      first-delivered c s m szx bytes b.max_receive_body_size b.expiration hsend hb hc hs hl hmax he
        small within handler b fresh room unpaired refl refl longer fuel enough in
    rw (prepare_sending_request-cut m bytes szx c.max_message_size hb hc hs longer hl)
      (ap ok delivered)
