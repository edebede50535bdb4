-- ===== src/Blockwise/Limits.antt =====
-- net/blockwise/blockwise.go: a received block, its ETag and its size.
use go_coap.Message.Fault.{Result, ok, err, stuck}
use go_coap.Blockwise.Exchange.{block1, size1, code_too_large, block_size}
use go_coap.Blockwise.Engine.{BlockWise}
use go_coap.Pool.{
  PoolMessage, acquire, body_size, get_option_uint32, get_option_bytes, set_option_uint32,
  set_option_bytes,
}
use go_coap.Prelude.{ltb, ◌==◌, if◌then◌else◌}
use go_coap.Prelude.{pos}
use go_coap.Prelude.{ℕ, ◌+◌, ◌-◌, ◌%◌, ◌^◌, min, max}
use go_coap.Prelude.{Bool, true, false, ◌&&◌, ◌||◌}
use go_coap.Prelude.{some, List, [], ◌∷◌}

pub record ReceivedBlock : Type 0 where
  pub exchange_key : ℕ
  pub matching_key : ℕ
  pub token : List ℕ
  pub block_type : ℕ
  pub size_type : ℕ
  pub szx : ℕ
  pub req_szx : ℕ
  pub max_szx : ℕ
  pub num : ℕ
  pub more : Bool

abbrev etag_id : ℕ
etag_id = 4

unfoldable pub bytes_eq : List ℕ → List ℕ → Bool
bytes_eq [] [] = true
bytes_eq [] (b ∷ bs) = false
bytes_eq (a ∷ as') [] = false
bytes_eq (a ∷ as') (b ∷ bs) = (a == b) && bytes_eq as' bs

-- The switch on the two ETags. Its first two cases test the length of the ETag that is missing, which
-- is 0, so that they never fail; in the last one both are there or both are missing.
unfoldable pub refresh_etag : Result (List ℕ) → Result (List ℕ) → PoolMessage → PoolMessage
refresh_etag (ok etag) (ok cached) m =
    if bytes_eq etag cached then m else record (set_option_bytes etag_id etag m) { body = some [] }
refresh_etag (ok etag) cached m = m
refresh_etag r cached m = m

-- getPayloadFromCachedReceivedMessage: the cached message, whose body is always in memory
unfoldable pub cached_payload : PoolMessage → PoolMessage → PoolMessage
cached_payload r m = refresh_etag (get_option_bytes etag_id r) (get_option_bytes etag_id m) m

abbrev larger : ℕ → Result ℕ → ℕ
larger n (ok size) = max n size
larger n (err e) = n
larger n stuck = n

unfoldable pub receive_body_size : PoolMessage → ℕ → ℕ
receive_body_size r off = larger (off + body_size r) (get_option_uint32 size1 r)

-- the test of rejectTooLarge
unfoldable pub is_too_large : BlockWise → PoolMessage → ℕ → ℕ → Bool
is_too_large b r block_type off =
    (block_type == block1)
    && ltb 0 b.max_receive_body_size
    && ltb b.max_receive_body_size (receive_body_size r off)

-- SendEntityTooLarge
unfoldable pub entity_too_large : BlockWise → PoolMessage → List ℕ → PoolMessage
entity_too_large b resp token =
    set_option_uint32 size1 (min b.max_receive_body_size (2 ^ 32 - 1))
      (record (acquire resp.deadline) { code = code_too_large; token = token; kind = pos 1 })

unfoldable pub is_full_block : PoolMessage → ℕ → Bool
is_full_block r szx =
    (body_size r == block_size szx)
    || ((szx == 7) && ltb 0 (body_size r) && (body_size r % block_size szx == 0))
