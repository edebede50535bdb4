-- ===== src/Blockwise/Sending/Reading.antt =====
-- net/blockwise/blockwise.go: what the receiver reads in the block of a request with a body.
use go_coap.Message.Fault.{ok}
use go_coap.Blockwise.BlockOption.{max_block_number}
use go_coap.Blockwise.Exchange.{
  block1, size1, is_body_method, block_size, clone_message, is_observe_response,
}
use go_coap.Blockwise.Sending.Slices.{
  is_more, block_value, block_value-small, cut_block, length-chunk,
}
use go_coap.Pool.{PoolMessage, get_option_uint32, get_option_bytes, set_option_uint32, body_size}
use go_coap.Pool.Laws.{
  get-set_option_uint32, get-set_option_uint32_other, get_bytes-set_option_uint32,
}
use go_coap.Prelude.{length, take, drop}
use go_coap.Prelude.{ℕ, ◌-◌, ◌*◌, ◌^◌, ◌≤◌, ◌<◌, min}
use go_coap.Prelude.{◌≡◌, refl, true, false}
use go_coap.Prelude.{some, List, arith}

module _ (m : PoolMessage) (szx k : ℕ) (bytes : List ℕ) where
  pub cut_block-code : (cut_block m szx k bytes).code ≡ m.code
  unfolding cut_block set_option_uint32 clone_message
  cut_block-code = refl

  pub cut_block-token : (cut_block m szx k bytes).token ≡ m.token
  unfolding cut_block set_option_uint32 clone_message
  cut_block-token = refl

  pub cut_block-body :
      (cut_block m szx k bytes).body
      ≡ some (take (block_size szx) (drop (k * block_size szx) bytes))
  unfolding cut_block set_option_uint32
  cut_block-body = refl

  pub cut_block-size :
      body_size (cut_block m szx k bytes) ≡ min (block_size szx) (length bytes - k * block_size szx)
  unfolding body_size
  cut_block-size = rw cut_block-body (length-chunk (block_size szx) (k * block_size szx) bytes)

  module _ (hc : is_body_method m.code ≡ true) where
    pub cut_block-block1 :
        szx < 7
        → k ≤ max_block_number
        → get_option_uint32 block1 (cut_block m szx k bytes)
          ≡ ok (block_value szx k (is_more szx k bytes))
    unfolding cut_block
    cut_block-block1 hs hk = rw hc (
        get-set_option_uint32 block1 (block_value szx k (is_more szx k bytes)) _
          (block_value-small szx k (is_more szx k bytes) hs hk))

    pub cut_block-size1 :
        length bytes < 2 ^ 32
        → get_option_uint32 size1 (cut_block m szx k bytes) ≡ ok (length bytes)
    unfolding cut_block
    cut_block-size1 hl =
        rw
          (
            hc,
            get-set_option_uint32_other size1 block1 (block_value szx k (is_more szx k bytes)) _
                (ground arith),
          )
          (get-set_option_uint32 size1 (length bytes) _ hl)

    pub cut_block-etag : get_option_bytes 4 (cut_block m szx k bytes) ≡ get_option_bytes 4 m
    unfolding cut_block clone_message get_option_bytes
    cut_block-etag =
        rw
          (
            hc,
            get_bytes-set_option_uint32 4 block1 (block_value szx k (is_more szx k bytes)) _
                (ground arith),
            get_bytes-set_option_uint32 4 size1 (length bytes) _ (ground arith),
          )
          refl

    pub cut_block-not_observe : is_observe_response (cut_block m szx k bytes) ≡ false
    unfolding is_observe_response is_body_method
    cut_block-not_observe = rw cut_block-code (ground (arith, hc))
