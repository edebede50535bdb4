-- ===== src/Blockwise/Keys.antt =====
-- net/blockwise/blockwise.go: the keys that transfers are found by. What is hashed is written out; the
-- hashes themselves are the standard library's.
pub mod Identity
use go_coap.Message.Fault.{Fault, Result, ok, err, stuck, no_remote_address, many_transfers_match}
use go_coap.Message.Defs.{CoapOption, observe_id, q_block1, q_block2}
use go_coap.Message.Edit.Split.{select}
use go_coap.Pkg.Cache.{Element, Cache, is_expired, load_live}
use go_coap.Blockwise.BlockOption.{Block, decode_block_option}
use go_coap.Blockwise.Exchange.{
  block1, block2, code_fetch, is_body_method, is_request_code, is_observe_response,
  may_resume_block2, block_size,
}
use go_coap.Blockwise.Engine.{Guard, SendingMessage, BlockWise, Env}
use go_coap.Pool.{PoolMessage, get_option_uint32, has_option}
use go_coap.Prelude.{◌==◌, if◌then◌else◌}
use go_coap.Prelude.{length}
use go_coap.Prelude.{put_uint16, put_uint32}
use go_coap.Prelude.{ℕ, ◌*◌, ◌/◌, ◌%◌, ◌^◌}
use go_coap.Prelude.{Bool, true, false, not, ◌&&◌, ◌||◌}
use go_coap.Prelude.{Option, none, some, List, [], ◌∷◌, ◌++◌}

abbrev put_uint64 : ℕ → List ℕ
put_uint64 n = put_uint32 (n / 2 ^ 32) ++ put_uint32 (n % 2 ^ 32)

-- WriteExchangeKeyPart
abbrev key_part : List ℕ → List ℕ
key_part bytes = put_uint64 (length bytes) ++ bytes

-- The options that are not hashed: those of blocks, Observe on request, and elective NoCacheKey ones.
unfoldable pub is_left_out : Bool → ℕ → Bool
is_left_out include_observe id =
    (not include_observe && (id == observe_id))
    || (id == block1)
    || (id == block2)
    || (id == q_block1)
    || (id == q_block2)
    || (id % 32 == 28)

unfoldable pub option_parts : List CoapOption → List ℕ
option_parts [] = []
option_parts (o ∷ os) = (put_uint16 o.id ++ key_part o.value) ++ option_parts os

unfoldable pub request_identity : PoolMessage → List ℕ → Bool → List ℕ
request_identity r remote include_observe =
    key_part remote
    ++ (put_uint16 r.code
        ++ option_parts (select (λ id. not (is_left_out include_observe id)) r.options))

-- getRequestMatchingKey
unfoldable pub request_key : Env → PoolMessage → List ℕ → ℕ
request_key env r remote = env.fnv (request_identity r remote true)

abbrev pub matching_at : Env → PoolMessage → Option (List ℕ) → ℕ
matching_at env r none = 0
matching_at env r (some remote) = request_key env r remote

-- requestMatchingKey
unfoldable pub matching_key_of : Env → PoolMessage → ℕ
matching_key_of env r = matching_at env r env.remote

unfoldable pub exchange_key : Env → List ℕ → Result ℕ
exchange_key env (t ∷ ts) = ok (env.token_hash (t ∷ ts))
exchange_key env [] = elim env.remote [
  | none ↦ err no_remote_address
  | some remote ↦ ok (env.fnv remote)
]

-- getMessageExchangeKey
abbrev pub key_of_request : Env → PoolMessage → List ℕ → List ℕ → Result ℕ
key_of_request env r remote [] = ok (request_key env r remote)
key_of_request env r remote (t ∷ ts) =
    if is_body_method r.code
    then ok (env.fnv (put_uint64 (request_key env r remote) ++ (t ∷ ts)))
    else exchange_key env (t ∷ ts)

abbrev pub message_key_at : Env → PoolMessage → Option (List ℕ) → Result ℕ
message_key_at env r none = exchange_key env r.token
message_key_at env r (some remote) =
    if is_request_code r.code then key_of_request env r remote r.token else exchange_key env r.token

unfoldable pub message_exchange_key : Env → PoolMessage → Result ℕ
message_exchange_key env r = message_key_at env r env.remote

-- The keys of the entries that a test accepts and that have not expired, with the test on the content.
unfoldable pub matching_keys {ℓ} : {D : Type ℓ} → ℕ → (D → Bool) → Cache D → List ℕ
matching_keys now test [] = []
matching_keys now test ((k, e) ∷ m) =
    if not (is_expired now e) && test e.content
    then k ∷ matching_keys now test m
    else matching_keys now test m

-- One match is followed; more than one is an error or, where the state is optional, none.
abbrev follow : ℕ → Result ℕ → List ℕ → Result ℕ
follow own many [] = ok own
follow own many (k ∷ []) = ok k
follow own many (k ∷ l ∷ ks) = many

abbrev is_live {ℓ} : {D : Type ℓ} → Option (Element D) → Bool
is_live none = false
is_live (some e) = true

abbrev resolve_block : Env → BlockWise → PoolMessage → List ℕ → ℕ → Block × Option Fault → Result ℕ
resolve_block env b r remote key (block, some e) = err e
resolve_block env b r remote key (block, none) =
    if block.num == 0
    then ok key
    else follow key (err many_transfers_match) (
        matching_keys env.now
          (λ (g : Guard).
            (g.matching_key == request_key env r remote)
            && (g.received == block.num * block_size block.szx))
          b.receiving)

abbrev resolve_value : Env → BlockWise → PoolMessage → List ℕ → ℕ → Result ℕ → Result ℕ
resolve_value env b r remote key (ok value) =
    resolve_block env b r remote key (decode_block_option value)
resolve_value env b r remote key (err e) = err e
resolve_value env b r remote key stuck = stuck

abbrev is_empty : List ℕ → Bool
is_empty [] = true
is_empty (x ∷ xs) = false

unfoldable pub resolve_block1_exchange_key : Env → BlockWise → PoolMessage → ℕ → Result ℕ
resolve_block1_exchange_key env b r key =
    if not (is_body_method r.code) || not (has_option block1 r)
    then ok key
    else if is_live (load_live env.now key b.receiving) || is_empty r.token
    then ok key
    else elim env.remote [
      | none ↦ ok key
      | some remote ↦ resolve_value env b r remote key (get_option_uint32 block1 r)
    ]

abbrev matches_sending : ℕ → SendingMessage → Bool
matches_sending key s = elim s.message [ none ↦ false | some m ↦ s.matching_key == key ]

unfoldable pub resolve_block2_exchange_key : Env → BlockWise → PoolMessage → ℕ → Result ℕ
resolve_block2_exchange_key env b r key =
    if not (may_resume_block2 r) || is_live (load_live env.now key b.sending)
    then ok key
    else elim env.remote [
      | none ↦ ok key
      | some remote ↦
          follow key
            (if (r.code == 1) || (r.code == code_fetch) then ok key else err many_transfers_match)
            (matching_keys env.now (matches_sending (request_key env r remote)) b.sending)
    ]

pub record SendingMatch : Type 0 where
  pub key : ℕ
  pub code : ℕ
  pub endpoint : List ℕ

-- getSendingMatch
unfoldable pub get_sending_match : Env → PoolMessage → PoolMessage → ℕ → SendingMatch
get_sending_match env r resp request_code = elim env.remote [
  | none ↦ record { key = 0; code = 0; endpoint = [] }
  | some remote ↦
      if not (request_code == 1) && not (is_body_method request_code)
      then record { key = 0; code = 0; endpoint = [] }
      else record {
        key = env.fnv (
            request_identity r remote
              (not ((request_code == code_fetch) && is_observe_response resp)));
        code = request_code;
        endpoint = remote;
      }
]
