-- ===== src/Blockwise/Keys/Identity.antt =====
-- net/blockwise/blockwise.go: the keys of the blocks of one request.
use go_coap.Message.Fault.{ok}
use go_coap.Message.Defs.{CoapOption}
use go_coap.Message.Uint32.{uint_bytes}
use go_coap.Message.Edit.Split.{select, below, above}
use go_coap.Blockwise.Exchange.{block1, is_body_method}
use go_coap.Blockwise.Engine.{Env}
use go_coap.Blockwise.Keys.{
  is_left_out, request_identity, request_key, matching_at, matching_key_of, key_of_request,
  message_key_at, message_exchange_key,
}
use go_coap.Blockwise.Sending.Slices.{cut_block}
use go_coap.Blockwise.Sending.Reading.{cut_block-code, cut_block-token}
use go_coap.Pool.{PoolMessage, put, set_option_uint32}
use go_coap.Pool.Laws.{select-put}
use go_coap.Prelude.{ℕ}
use go_coap.Prelude.{◌≡◌, refl, ap, Bool, true, not}
use go_coap.Prelude.{Option, none, some, List, [], ◌∷◌, ◌++◌, arith}

-- the options that are hashed, after Block1 has been set
hashed-block1 :
    (include_observe : Bool) (value : ℕ) (os : List CoapOption)
    → select
        (λ id. not (is_left_out include_observe id))
        (put (record { id = block1; value = uint_bytes value }) os)
      ≡ select (λ id. not (is_left_out include_observe id)) (below block1 os)
        ++ select (λ id. not (is_left_out include_observe id)) (above block1 os)
unfolding is_left_out
hashed-block1 include_observe value os =
    select-put _ (record { id = block1; value = uint_bytes value }) os (ground arith)

module _ (m : PoolMessage) (szx : ℕ) (bytes : List ℕ) (hc : is_body_method m.code ≡ true) where
  cut-identity :
      (j k : ℕ) (remote : List ℕ) (include_observe : Bool)
      → request_identity (cut_block m szx j bytes) remote include_observe
        ≡ request_identity (cut_block m szx k bytes) remote include_observe
  unfolding request_identity cut_block set_option_uint32
  cut-identity j k remote include_observe =
      rw (hc, hashed-block1 include_observe, hashed-block1 include_observe) refl

  cut-request_key :
      (env : Env) (j k : ℕ) (remote : List ℕ)
      → request_key env (cut_block m szx j bytes) remote
        ≡ request_key env (cut_block m szx k bytes) remote
  unfolding request_key
  cut-request_key env j k remote = ap env.fnv (cut-identity j k remote true)

  cut-key_of_request :
      (env : Env) (j k : ℕ) (remote token : List ℕ)
      → key_of_request env (cut_block m szx j bytes) remote token
        ≡ key_of_request env (cut_block m szx k bytes) remote token
  cut-key_of_request env j k remote [] = ap ok (cut-request_key env j k remote)
  cut-key_of_request env j k remote (t ∷ ts) =
      rw (cut-request_key env j k remote)
        (simp (cut_block-code m szx j bytes, cut_block-code m szx k bytes) refl)

  cut-message_key_at :
      (env : Env) (j k : ℕ) (remote : Option (List ℕ))
      → message_key_at env (cut_block m szx j bytes) remote
        ≡ message_key_at env (cut_block m szx k bytes) remote
  cut-message_key_at env j k none =
      rw (cut_block-token m szx j bytes, cut_block-token m szx k bytes) refl
  cut-message_key_at env j k (some remote) =
      rw (cut-key_of_request env j k remote (cut_block m szx j bytes).token) (
        simp
          (
            cut_block-code m szx j bytes,
            cut_block-code m szx k bytes,
            cut_block-token m szx j bytes,
            cut_block-token m szx k bytes,
          )
          refl)

  cut-matching_at :
      (env : Env) (j k : ℕ) (remote : Option (List ℕ))
      → matching_at env (cut_block m szx j bytes) remote
        ≡ matching_at env (cut_block m szx k bytes) remote
  cut-matching_at env j k none = refl
  cut-matching_at env j k (some remote) = cut-request_key env j k remote

-- Any two blocks of a request of a method with a body have the same key and the same matching key,
-- whatever its options, token and peer are.
pub cut_block-keys :
    (env : Env) (m : PoolMessage) (szx j k : ℕ) (bytes : List ℕ)
    → is_body_method m.code ≡ true
    → (message_exchange_key env (cut_block m szx j bytes)
        ≡ message_exchange_key env (cut_block m szx k bytes))
      × (matching_key_of env (cut_block m szx j bytes)
          ≡ matching_key_of env (cut_block m szx k bytes))
unfolding message_exchange_key matching_key_of
cut_block-keys env m szx j k bytes hc = (
  cut-message_key_at m szx bytes hc env j k env.remote,
  cut-matching_at m szx bytes hc env j k env.remote,
)
