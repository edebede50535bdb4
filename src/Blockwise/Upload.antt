-- ===== src/Blockwise/Upload.antt =====
-- net/blockwise/blockwise.go: a request whose body is sent in blocks. The client answers each Continue
-- with continueSendingMessage, the server hands each block to processReceivedMessage.
pub mod Holding
pub mod Delivery
use go_coap.Message.Fault.{Result, ok, err, stuck, ◌>>=◌}
use go_coap.Blockwise.BlockOption.{max_block_number}
use go_coap.Blockwise.Exchange.{
  block1, size1, code_continue, is_body_method, is_request_code, block_size,
}
use go_coap.Blockwise.Engine.{BlockWise, Env, sending_at}
use go_coap.Blockwise.Receiving.{process_received_message}
use go_coap.Blockwise.Receiving.Steps.{ack, get_szx-same}
use go_coap.Blockwise.Sending.{create_sending_message, prepare_sending_request}
use go_coap.Blockwise.Sending.Slices.{
  is_more, block_value, block_value-small, cut_block, decode-block_value,
  create_sending_message-cut,
}
use go_coap.Blockwise.Handle.{continue_sending_message}
use go_coap.Pool.{PoolMessage, acquire, set_option_uint32}
use go_coap.Pool.Laws.{get-set_option_uint32}
use go_coap.Prelude.{◌==◌, if◌then◌else◌, ltb→lt}
use go_coap.Prelude.{length}
use go_coap.Prelude.{ℕ, zero, suc, ◌+◌, ◌*◌, ◌^◌, ◌≤◌, ◌<◌}
use go_coap.Prelude.{◌≡◌, refl, ◌∙◌, Bool, true}
use go_coap.Prelude.{Option, none, some, List, [], ◌++◌, map, arith}

-- what the client sends after a response, if anything
abbrev block_of_answer : Result (PoolMessage × Bool) → Option PoolMessage
block_of_answer (ok (r, more)) = some r
block_of_answer (err e) = none
block_of_answer stuck = none

abbrev and_then : Option PoolMessage → (PoolMessage → List PoolMessage) → List PoolMessage
and_then none go = []
and_then (some r) go = go r

-- The client with the state in which it keeps the request under its key.
pub record Client : Type 0 where
  pub env : Env
  pub engine : BlockWise
  pub key : ℕ
  pub max_message_size : ℕ

-- The server: the environment of each of its calls, the message it answers in, and its two keys.
pub record Server : Type 0 where
  pub env : ℕ → Env
  pub response : PoolMessage
  pub key : ℕ
  pub matching : ℕ

unfoldable pub next_request : Client → ℕ → ℕ → PoolMessage → Option PoolMessage
next_request c szx code a =
    if a.code == code_continue
    then block_of_answer
        (continue_sending_message c.env c.engine a szx c.max_message_size code c.key)
    else none

-- The messages that the server's handler is called with, from call `k` on.
unfoldable pub upload : Client → Server → ℕ → ℕ → ℕ → ℕ → PoolMessage → BlockWise → List PoolMessage
upload c s szx code zero k r b = []
upload c s szx code (suc fuel) k r b =
    let h =
      process_received_message (s.env k) b s.response r szx (s.key, s.matching) block1 size1 in
    h.delivered
    ++ and_then (next_request c szx code h.response)
        (λ next. upload c s szx code fuel (suc k) next h.state)

-- what the handler reads of a message
abbrev pub view : PoolMessage → ℕ × List ℕ × Option (List ℕ)
view w = (w.code, w.token, w.body)

-- The request from its first block on.
unfoldable pub transfer :
    Client → Server → ℕ → PoolMessage → ℕ → BlockWise → Result (List (ℕ × List ℕ × Option (List ℕ)))
transfer c s szx m fuel b = do
  first ← prepare_sending_request m szx c.max_message_size
  ok (map view (upload c s szx m.code fuel 0 first b))

next_block :
    (m : PoolMessage) (bytes : List ℕ) (szx max_message_size k : ℕ)
    → m.body ≡ some bytes
    → is_body_method m.code ≡ true
    → szx < 7
    → suc k ≤ max_block_number
    → is_more szx k bytes ≡ true
    → length bytes < 2 ^ 32
    → create_sending_message m szx max_message_size (block_value szx k true)
      ≡ ok (cut_block m szx (suc k) bytes, is_more szx (suc k) bytes)
next_block m bytes szx max_message_size k hb hc hs hk more hl =
    let inside : suc k * block_size szx ≤ length bytes =
      omega (arith, ltb→lt (k * block_size szx + block_size szx) (length bytes) more) in
    create_sending_message-cut m bytes szx max_message_size (block_value szx k true) szx k true hb
      (decode-block_value szx k true hs (omega arith)) (rw (get_szx-same szx) hs) (rw hc hk)
      (rw (hc, get_szx-same szx) inside) hl
    ∙ rw (hc, get_szx-same szx) refl

ack-code : (r m : PoolMessage) (szx k : ℕ) → (ack r szx k m).code ≡ code_continue
unfolding set_option_uint32
ack-code r m szx k = refl

-- The client answers the acknowledgement of a block with the next one.
pub next_request-ack :
    (c : Client) (szx k : ℕ) (m r : PoolMessage) (bytes : List ℕ)
    → sending_at c.env c.engine c.key ≡ some m
    → m.body ≡ some bytes
    → is_body_method m.code ≡ true
    → szx < 7
    → suc k ≤ max_block_number
    → is_more szx k bytes ≡ true
    → length bytes < 2 ^ 32
    → next_request c szx m.code (ack r szx k m) ≡ some (cut_block m szx (suc k) bytes)
unfolding next_request continue_sending_message is_request_code
next_request-ack c szx k m r bytes hsend hb hc hs hk more hl =
    let value = block_value szx k true in
    let small : value < 2 ^ 32 = block_value-small szx k true hs (omega arith) in
    rw
      (
        hc,
        get-set_option_uint32 block1 value
            (record (acquire r.deadline) { code = code_continue; token = m.token }) small,
        hsend,
        ack-code r m szx k,
        next_block m bytes szx c.max_message_size k hb hc hs hk more hl,
      )
      refl
