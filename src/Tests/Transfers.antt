-- ===== src/Tests/Transfers.antt =====
-- Runs of the engine of block-wise transfers on concrete messages.
use go_coap.Message.Fault.{ok, err, option_not_found}
use go_coap.Pkg.SyncMap.{load, is_full}
use go_coap.Pkg.Cache.{Element, Cache, is_expired, load_live, load_or_store_with_limit}
use go_coap.Pkg.Cache.Laws.{load_or_store_with_limit-keeps}
use go_coap.Pool.{PoolMessage, acquire, put, get_option_bytes}
use go_coap.Pool.Growth.{set_with_growth, set_with_growth-put}
use go_coap.Message.Defs.{CoapOption}
use go_coap.Message.Edit.Split.{select}
use go_coap.Message.Uint32.{uint_bytes}
use go_coap.Blockwise.BlockOption.{Block, decode_block_option}
use go_coap.Blockwise.Exchange.{block1, size1, block_size, is_body_method, get_szx}
use go_coap.Blockwise.Engine.{BlockWise, Env, sending_at, sending_element, get_sent_request}
use go_coap.Blockwise.Limits.{ReceivedBlock}
use go_coap.Blockwise.Receiving.{process_received_block}
use go_coap.Blockwise.Receiving.Safety.{IsWithin, process_received_block-IsWithin}
use go_coap.Blockwise.Sending.{create_sending_message}
use go_coap.Blockwise.Sending.Slices.{is_more, block_asked, cut_block, create_sending_message-cut}
use go_coap.Blockwise.Upload.{Client, Server, transfer}
use go_coap.Blockwise.Upload.Delivery.{transfer-delivers}
use go_coap.Blockwise.Keys.{message_exchange_key, matching_key_of}
use go_coap.Blockwise.Keys.Identity.{cut_block-keys}
use go_coap.Prelude.{length, replicate}
use go_coap.Prelude.{pos}
use go_coap.Prelude.{ℕ, ◌≤◌}
use go_coap.Prelude.{◌≡◌, refl, true, false}
use go_coap.Prelude.{none, some, List, [], ◌∷◌, arith}

abbrev created : PoolMessage
created = record (acquire none) { code = 65 }

abbrev env : Env
env = record {
  now = 5;
  remote = some (1 ∷ []);
  token_hash = λ token. 7;
  fnv = λ bytes. 9;
  new_token = 8 ∷ [];
  sent_outside = λ token. none;
  next = λ resp r. created;
}

abbrev body : List ℕ
body = replicate 40 11

abbrev post : PoolMessage
post = record (acquire none) { code = 2; token = 1 ∷ 2 ∷ []; body = some body; kind = pos 0 }

abbrev engine : BlockWise
engine = record {
  receiving = [];
  sending = [];
  max_entries = 2;
  expiration = 10;
  rolling_expiration = true;
  max_receive_body_size = 100;
}

abbrev client : Client
client = record {
  env = env;
  engine = record engine { sending = (7, sending_element (some 15) (some post) 0 0 []) ∷ [] };
  key = 7;
  max_message_size = 1152;
}

abbrev server : Server
server = record { env = λ k. env; response = acquire none; key = 3; matching = 4 }

is_kept : sending_at client.env client.engine client.key ≡ some post
unfolding sending_at load_live load is_expired
is_kept = refl

has_body : is_body_method post.code ≡ true
unfolding is_body_method
has_body = refl

no_etag : get_option_bytes 4 post ≡ err option_not_found
unfolding get_option_bytes select
no_etag = refl

no_transfer : load server.key engine.receiving ≡ none
unfolding load
no_transfer = refl

has_room : is_full engine.max_entries engine.receiving ≡ false
has_room = refl

no_request : get_sent_request (server.env 0) engine server.key post.token ≡ none
unfolding get_sent_request sending_at load_live load
no_request = refl

sixteen : block_size 0 ≡ 16
unfolding block_size
sixteen = refl

-- 40 bytes in blocks of 16
transfer-delivers_example :
    transfer client server 0 post 3 engine ≡ ok ((2, 1 ∷ 2 ∷ [], some body) ∷ [])
transfer-delivers_example =
    transfer-delivers client server engine post 0 body 3 is_kept refl has_body (omega arith)
      (rw sixteen (omega arith)) (rw sixteen (omega arith)) no_etag no_transfer has_room no_request
      refl (λ i j. omega arith) (λ k r w. ground arith) (rw sixteen (omega arith))

abbrev asked : Block
asked = record { szx = 0; num = 0; more = true }

asked_8 : decode_block_option 8 ≡ (asked, none)
unfolding decode_block_option
asked_8 = refl

same_exponent : get_szx 0 6 ≡ 0
unfolding get_szx
same_exponent = refl

next_is : block_asked post.code 0 ≡ 1
unfolding is_body_method
next_is = refl

create_sending_message-cut_example :
    create_sending_message post 6 1152 8
    ≡ ok (
      cut_block post (get_szx 0 6) (block_asked post.code 0) body,
      is_more (get_szx 0 6) (block_asked post.code 0) body,
    )
create_sending_message-cut_example =
    create_sending_message-cut post body 6 1152 8 0 0 true refl asked_8
      (rw same_exponent (omega arith)) (rw next_is (omega arith))
      (rw (next_is, same_exponent, sixteen) (omega arith)) (omega arith)

abbrev far_block : ReceivedBlock
far_block = record {
  exchange_key = 3;
  matching_key = 4;
  token = post.token;
  block_type = block1;
  size_type = size1;
  szx = 0;
  req_szx = 0;
  max_szx = 0;
  num = 2;
  more = false;
}

process_received_block-IsWithin_example :
    IsWithin 100 (process_received_block env engine (acquire none) post far_block)
process_received_block-IsWithin_example =
    process_received_block-IsWithin env engine (acquire none) post far_block refl (omega arith)

abbrev stored : Cache ℕ
stored =
    (1, record { valid_until = some 3; content = 10 })
    ∷ (2, record { valid_until = none; content = 20 })
    ∷ []

-- The element of key 1 has expired at 5 and makes room for key 4.
load_or_store_with_limit-keeps_example :
    (length (load_or_store_with_limit 5 4 (record { valid_until = none; content = 40 }) 2 stored).0
      ≤ 2)
    × ((j : ℕ) (x : Element ℕ)
        → load_live 5 j stored ≡ some x
        → load_live 5 j
            (load_or_store_with_limit 5 4 (record { valid_until = none; content = 40 }) 2 stored).0
          ≡ some x)
unfolding load
load_or_store_with_limit-keeps_example =
    load_or_store_with_limit-keeps 5 4 (record { valid_until = none; content = 40 }) 2 stored
      (refl, (refl, tt)) (omega arith) (omega arith)

cut_block-keys_example :
    (message_exchange_key env (cut_block post 0 0 body)
      ≡ message_exchange_key env (cut_block post 0 2 body))
    × (matching_key_of env (cut_block post 0 0 body)
        ≡ matching_key_of env (cut_block post 0 2 body))
cut_block-keys_example = cut_block-keys env post 0 0 2 body has_body

abbrev accept : CoapOption
accept = record { id = 17; value = 50 ∷ [] }

-- no room for the two bytes of 300
set_with_growth-put_example :
    set_with_growth accept 1 60 300 (accept ∷ [])
    ≡ some (
      put (record { id = 60; value = uint_bytes 300 }) (accept ∷ []),
      pos (length (uint_bytes 300)),
      none,
    )
set_with_growth-put_example =
    set_with_growth-put accept 1 60 300 (accept ∷ []) (omega arith) (omega arith, tt)
