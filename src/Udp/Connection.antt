-- ===== src/Udp/Connection.antt =====
-- udp/client/conn.go: the message layer of a connection over datagrams: message ids, duplicates in
-- flight, the cache of responses and how a request is answered. Times are nanoseconds. What handles a
-- request is the argument `handle` over a state of its own; a message that it sends by itself is not
-- part of it. A message's body is its payload.
pub mod Repeats
pub mod Pending
pub mod Receiving
pub mod Sending
use go_coap.Message.Fault.{Fault, Result, ok, err, stuck}
use go_coap.Message.Defs.{CoapOption, q_block1, q_block2}
use go_coap.Message.Record.{Message, get_mid}
use go_coap.Pkg.Cache.{Cache, Element, load_live, load_or_store_live}
use go_coap.Pkg.SyncMap.{SyncMap}
use go_coap.Pool.Decoding
use go_coap.Pool.Encoding.{marshal_datagram}
use go_coap.Udp.Coder
use go_coap.Udp.Retransmission.{MidElement}
use go_coap.Prelude.{ltb, leb, ◌==◌, if◌then◌else◌}
use go_coap.Prelude.{length}
use go_coap.Prelude.{ℤ, pos, pos_part, eq_ℤ}
use go_coap.Prelude.{ℕ, ◌+◌, ◌-◌, ◌*◌, ◌/◌, ◌%◌, ◌^◌}
use go_coap.Prelude.{Bool, true, false, not, ◌&&◌, ◌||◌}
use go_coap.Prelude.{Option, none, some, List, [], ◌∷◌}

abbrev pub confirmable : ℤ
confirmable = pos 0

abbrev pub non_confirmable : ℤ
non_confirmable = pos 1

abbrev pub acknowledgement : ℤ
acknowledgement = pos 2

abbrev pub reset : ℤ
reset = pos 3

-- 247 seconds
abbrev pub exchange_lifetime : ℕ
exchange_lifetime = 247 * 1000000000

-- A message that is to be sent, as far as isModified tells whether it is.
pub record Response : Type 0 where
  pub message : Message
  pub is_modified : Bool

abbrev pub set_type : ℤ → Response → Response
set_type typ r = record { message = record r.message { kind = typ }; is_modified = true }

abbrev pub set_message_id : ℤ → Response → Response
set_message_id mid r = record {
  message = record r.message { message_id = mid };
  is_modified = true;
}

abbrev pub set_code : ℕ → Response → Response
set_code code r = record { message = record r.message { code = code }; is_modified = true }

-- SetToken does not mark the message as modified.
abbrev pub set_token : List ℕ → Response → Response
set_token token r = record r { message = record r.message { token = token } }

pub record PendingMessage : Type 0 where
  pub sequence : ℕ
  pub expires : ℕ

-- The parts of Conn that the message layer changes. `msg_id` is the connection's counter of ids and
-- `process_msg_id` that of the process; `sequence` counts received messages; `waiting` holds the
-- confirmable messages without acknowledgement, and `outstanding` counts the interactions that
-- numOutstandingInteraction has granted; `state` is what the handler works on.
pub record Conn {ℓ} (S : Type ℓ) : Type ℓ where
  pub msg_id : ℕ
  pub process_msg_id : ℕ
  pub sequence : ℕ
  pub responses : Cache (List ℕ)
  pub pending : SyncMap PendingMessage
  pub waiting : SyncMap MidElement
  pub outstanding : ℕ
  pub state : S

-- The ids of received messages are not negative.
abbrev pub key_of : ℤ → ℕ
key_of mid = pos_part mid

-- Whether a type is that of a request that may be repeated.
abbrev pub is_con_or_non : ℤ → Bool
is_con_or_non typ = eq_ℤ typ confirmable || eq_ℤ typ non_confirmable

-- isPongOrResetResponse
unfoldable pub is_pong_or_reset_response : Response → Bool
is_pong_or_reset_response r = r.is_modified && (eq_ℤ r.message.kind reset || (r.message.code == 0))

-- sendJustAcknowledgeMessage
unfoldable pub send_just_acknowledge_message : ℤ → Response → Bool
send_just_acknowledge_message typ r = eq_ℤ typ confirmable && not r.is_modified

-- HasOption, by the number
abbrev pub has : ℕ → List CoapOption → Bool
has id [] = false
has id (o ∷ os) = (o.id == id) || has id os

-- isQNonResponse
unfoldable pub is_q_non_response : ℤ → Bool → Response → Bool
is_q_non_response typ q_response r =
    eq_ℤ typ non_confirmable
    && r.is_modified
    && (q_response || (has q_block1 r.message.options || has q_block2 r.message.options))

-- checkMyMessageID: its loop ends after one round if no other thread changes the counter. The
-- subtractions are those of uint16 and the addition that of uint32.
unfoldable pub check_my_message_id : Message → ℕ → ℕ
check_my_message_id req msg_id =
    if eq_ℤ req.kind confirmable
    then if leb (0xffff / 4) (((pos_part req.message_id % 65536 + 65536) - msg_id % 65536) % 65536)
      then msg_id
      else (msg_id + 0xffff / 2) % 2 ^ 32
    else msg_id

-- What a lookup in the cache of responses comes to.
pub data Lookup : Type 0 where
  hit : Message → Lookup
  miss : Lookup
  broken : Fault → Lookup

abbrev pub unmarshalled : Message × Result ℕ → Lookup
unmarshalled (m, ok n) = hit m
unmarshalled (m, err e) = broken e
unmarshalled (m, stuck) = miss

abbrev pub from_element : ℕ → Message → Option (Element (List ℕ)) → Lookup
from_element capacity m none = miss
from_element capacity m (some e) =
    if ltb 0 (length e.content)
    then unmarshalled (Decoding.decode Coder.decode capacity e.content m)
    else miss

-- checkResponseCache, for a response that is found
abbrev pub answer_again : Message → Message → Response
answer_again req m = record {
  message = record m {
    message_id = req.message_id;
    kind = (if eq_ℤ req.kind confirmable then acknowledgement else non_confirmable);
  };
  is_modified = true;
}

-- How the handling of a request ends: with what may be sent, or with an error that closes the
-- connection.
abbrev pub Handled {ℓ} : Type ℓ → Type ℓ
Handled S = Conn S × Response × Result (Unit {0})

-- `capacity` is that of the options of a message from the pool and `room` the length of its buffer.
module _ {ℓ} {S : Type ℓ} (capacity room : ℕ) where
  -- GetMessageID
  unfoldable pub get_message_id : Conn S → Conn S × ℤ
  get_message_id c =
      let next = (c.msg_id + 1) % 2 ^ 32 in
      (
        record c { msg_id = next; process_msg_id = (get_mid c.process_msg_id).0 },
        pos (next % 65536),
      )

  -- getResponseFromCache, with messageCache.Load
  unfoldable pub get_response_from_cache : ℕ → ℤ → Message → Conn S → Lookup
  get_response_from_cache now mid m c =
      from_element capacity m (load_live now (key_of mid) c.responses)

  abbrev stored : ℕ → ℤ → Conn S → Result (List ℕ) → Conn S × Result (Unit {0})
  stored now mid c (ok bytes) = (
    record c {
      responses =
          (load_or_store_live now (key_of mid)
            (record { valid_until = some (now + exchange_lifetime); content = bytes })
            c.responses).0;
    },
    ok tt,
  )
  stored now mid c (err e) = (c, err e)
  stored now mid c stuck = (c, stuck)

  -- addResponseToCache, with messageCache.Store
  unfoldable pub add_response_to_cache : ℕ → ℤ → Message → Conn S → Conn S × Result (Unit {0})
  add_response_to_cache now mid m c = stored now mid c (marshal_datagram room m)

  unfoldable pub check_response_cache : ℕ → Message → Response → Conn S → Lookup
  check_response_cache now req r c =
      if is_con_or_non req.kind
      then get_response_from_cache now req.message_id r.message c
      else miss

  abbrev with_fresh_id : Response → Conn S × ℤ → Conn S × Response
  with_fresh_id r (c, mid) = (c, set_message_id mid r)

  abbrev cached : Response → Conn S × Result (Unit {0}) → Handled S
  cached r (c, e) = (c, r, e)

  abbrev then_cached : ℕ → ℤ → Conn S × Response → Handled S
  then_cached now mid (c, r) = cached r (add_response_to_cache now mid r.message c)

  abbrev uncached : Conn S × Response → Handled S
  uncached (c, r) = (c, r, ok tt)

  -- The part of processResponse that sends a response with the acknowledgement if it can.
  unfoldable pub piggyback : ℕ → ℤ → ℤ → Response → Conn S → Handled S
  piggyback now typ mid r c =
      let (c', fresh) = get_message_id c in
      let sent =
        (if eq_ℤ typ confirmable
          then set_message_id mid (set_type acknowledgement r)
          else set_message_id fresh (set_type confirmable r)) in
      if is_con_or_non typ then then_cached now mid (c', sent) else (c', sent, ok tt)

  unfoldable pub process_response : ℕ → ℤ → ℤ → Bool → Response → Conn S → Handled S
  process_response now typ mid q_response r c =
      if is_pong_or_reset_response r
      then if eq_ℤ typ confirmable
        then (c, set_message_id mid (set_type acknowledgement r), ok tt)
        else uncached (
            with_fresh_id (if eq_ℤ r.message.kind reset then r else set_type non_confirmable r)
              (get_message_id c))
      else if send_just_acknowledge_message typ r
      then then_cached now mid
          (c, set_token [] (set_message_id mid (set_type acknowledgement (set_code 0 r))))
      else if is_q_non_response typ q_response r
      then then_cached now mid (with_fresh_id (set_type non_confirmable r) (get_message_id c))
      else if not r.is_modified
      then (c, r, ok tt)
      else piggyback now typ mid r c

  module _ (handle : Message → Response → S → S × Response) where
    abbrev handled_by : ℕ → Message → Conn S → S × Response → Handled S
    handled_by now req c (s, r) =
        process_response now req.kind req.message_id
          (has q_block1 req.options || has q_block2 req.options) r (record c { state = s })

    abbrev behind_cache : ℕ → Message → Response → Conn S → Lookup → Handled S
    behind_cache now req r c (hit m) = (c, answer_again req m, ok tt)
    behind_cache now req r c (broken e) = (c, r, err e)
    behind_cache now req r c miss =
        handled_by now req c (handle req (record r { is_modified = false }) c.state)

    -- handleReq, under the lock of the message id; an error closes the connection.
    unfoldable pub handle_req : ℕ → Message → Response → Conn S → Handled S
    handle_req now req r c = behind_cache now req r c (check_response_cache now req r c)
