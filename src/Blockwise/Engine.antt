-- ===== src/Blockwise/Engine.antt =====
-- net/blockwise/blockwise.go: the state of the engine, what it is given from outside, and the requests
-- that it has sent. A call of Handle takes its locks and ends before the next one begins.
use go_coap.Message.Fault.{Fault, Result, ok, err, no_observation, token_in_use}
use go_coap.Pkg.SyncMap.{delete}
use go_coap.Pkg.Cache.{Element, Cache, load_live, load_or_store_live}
use go_coap.Blockwise.Exchange.{clone_message}
use go_coap.Pool.{PoolMessage}
use go_coap.Prelude.{if◌then◌else◌}
use go_coap.Prelude.{ℕ, ◌+◌}
use go_coap.Prelude.{Bool}
use go_coap.Prelude.{Option, none, some, List, [], ◌∷◌}

-- messageGuard
pub record Guard : Type 0 where
  pub message : PoolMessage
  pub matching_key : ℕ
  pub received : ℕ

-- sendingMessage: its message is none once Do has returned. The zero key stands for no match.
pub record SendingMessage : Type 0 where
  pub message : Option PoolMessage
  pub matching_key : ℕ
  pub request_code : ℕ
  pub endpoint : List ℕ

-- A limit of 0 is no limit.
pub record BlockWise : Type 0 where
  pub receiving : Cache Guard
  pub sending : Cache SendingMessage
  pub max_entries : ℕ
  pub expiration : ℕ
  pub rolling_expiration : Bool
  pub max_receive_body_size : ℕ

-- The time of the call, the peer's address as text, hashes (crc64 of a token, fnv of bytes), a token
-- that GetToken draws, the requests that the connection has sent, and the handler, which turns the
-- response at hand into another.
pub record Env : Type 0 where
  pub now : ℕ
  pub remote : Option (List ℕ)
  pub token_hash : List ℕ → ℕ
  pub fnv : List ℕ → ℕ
  pub new_token : List ℕ
  pub sent_outside : List ℕ → Option PoolMessage
  pub next : PoolMessage → PoolMessage → PoolMessage

-- What a call leaves: the state, the response in the writer, the messages that the handler was called
-- with, and the error it returns.
pub record Handled : Type 0 where
  pub state : BlockWise
  pub response : PoolMessage
  pub delivered : List PoolMessage
  pub failure : Option Fault

abbrev pub failed : BlockWise → PoolMessage → Fault → Handled
failed b resp e = record { state = b; response = resp; delivered = []; failure = some e }

abbrev pub replied : BlockWise → PoolMessage → Handled
replied b resp = record { state = b; response = resp; delivered = []; failure = none }

-- `next(w, r)`
abbrev pub deliver : Env → BlockWise → PoolMessage → PoolMessage → Handled
deliver env b resp r = record {
  state = b;
  response = env.next resp r;
  delivered = r ∷ [];
  failure = none;
}

abbrev pub forget_receiving : ℕ → BlockWise → BlockWise
forget_receiving key b = record b { receiving = delete key b.receiving }

abbrev pub forget_sending : ℕ → BlockWise → BlockWise
forget_sending key b = record b { sending = delete key b.sending }

abbrev stored_message : Option (Element SendingMessage) → Option PoolMessage
stored_message none = none
stored_message (some e) = e.content.message

abbrev from_outside : Env → List ℕ → Option PoolMessage
from_outside env [] = none
from_outside env (t ∷ ts) = env.sent_outside (t ∷ ts)

-- getSendingMessageCode and the like: the message that is being sent under a key
unfoldable pub sending_at : Env → BlockWise → ℕ → Option PoolMessage
sending_at env b key = stored_message (load_live env.now key b.sending)

abbrev or_outside : Env → List ℕ → Option PoolMessage → Option PoolMessage
or_outside env token (some m) = some (clone_message m)
or_outside env token none = from_outside env token

-- getSentRequest
unfoldable pub get_sent_request : Env → BlockWise → ℕ → List ℕ → Option PoolMessage
get_sent_request env b key token = or_outside env token (sending_at env b key)

abbrev deadline_of : Option PoolMessage → Option ℕ
deadline_of none = none
deadline_of (some m) = m.deadline

abbrev or_expiration : Env → BlockWise → Option ℕ → ℕ
or_expiration env b none = env.now + b.expiration
or_expiration env b (some t) = t

-- getValidUntil
unfoldable pub get_valid_until : Env → BlockWise → Option PoolMessage → ℕ
get_valid_until env b sent = or_expiration env b (deadline_of sent)

-- cache.NewElement(newSendingMessage(...), validUntil, nil)
abbrev pub sending_element : Option ℕ → Option PoolMessage → ℕ → ℕ → List ℕ → Element SendingMessage
sending_element until m key code endpoint = record {
  valid_until = until;
  content = record { message = m; matching_key = key; request_code = code; endpoint = endpoint };
}

-- handleObserveResponse: the state with the request under a new token
unfoldable pub handle_observe_response : Env → BlockWise → Option PoolMessage → Result BlockWise
handle_observe_response env b none = err no_observation
handle_observe_response env b (some request) =
    let renamed = record (clone_message request) { token = env.new_token } in
    let element = sending_element (some (env.now + b.expiration)) (some renamed) 0 0 [] in
    let r = load_or_store_live env.now (env.token_hash env.new_token) element b.sending in
    if r.2 then err token_in_use else ok (record b { sending = r.0 })
