-- ===== src/Udp/Connection/Receiving.antt =====
-- udp/client/conn.go: what a connection does with a datagram, up to the queue of received messages. The
-- bookkeeping of Q-Block (progress, notifications, probes) is left out.
pub mod Outcomes
use go_coap.Message.Fault.{Fault, Result, ok, err, stuck}
use go_coap.Message.Defs.{q_block1, q_block2}
use go_coap.Message.Record.{Message}
use go_coap.Net.CriticalOptions.{get_unknown_critical_options, format_diagnostic}
use go_coap.Pkg.SyncMap.{SyncMap, load_and_delete}
use go_coap.Pool.Decoding
use go_coap.Udp.Coder
use go_coap.Udp.Connection.{
  confirmable, acknowledgement, reset, Response, set_type, set_message_id, set_code, PendingMessage,
  Conn, key_of, is_con_or_non, has, check_my_message_id,
}
use go_coap.Udp.Connection.Pending.{add_pending_message, delete_pending_message}
use go_coap.Udp.Retransmission.{MidElement}
use go_coap.Prelude.{ltb, leb, ◌==◌, if◌then◌else◌}
use go_coap.Prelude.{length}
use go_coap.Prelude.{ℤ, pos, negsuc, eq_ℤ}
use go_coap.Prelude.{ℕ, ◌+◌, ◌/◌, ◌%◌, ◌^◌}
use go_coap.Prelude.{Bool, true, false, not, ◌&&◌, ◌||◌}
use go_coap.Prelude.{Option, none, some, List, [], ◌∷◌}

-- A message from the pool, with nothing in it.
abbrev pub acquired : Message
acquired = record {
  token = [];
  options = [];
  code = 0;
  payload = [];
  message_id = negsuc 0;
  kind = negsuc 0;
}

-- What is reported of a datagram that is no message; `kind` and `message_id` are 0 without a header.
pub record MalformedMessageError : Type 0 where
  pub cause : Fault
  pub invalid_version : Bool
  pub has_header : Bool
  pub kind : ℤ
  pub message_id : ℤ

abbrev no_header : Fault → MalformedMessageError
no_header e = record {
  cause = e;
  invalid_version = false;
  has_header = false;
  kind = pos 0;
  message_id = pos 0;
}

abbrev with_header : Fault → Message → MalformedMessageError
with_header e req = record {
  cause = e;
  invalid_version = false;
  has_header = true;
  kind = req.kind;
  message_id = req.message_id;
}

unfoldable pub new_malformed_message_error : Fault → List ℕ → Message → MalformedMessageError
new_malformed_message_error e [] req = no_header e
new_malformed_message_error e (b ∷ bytes) req =
    if not (b / 64 == 1)
    then record (no_header e) { invalid_version = true }
    else if leb 4 (length (b ∷ bytes))
    then with_header e req
    else no_header e

-- Message.IsPing on a connection over datagrams
unfoldable pub is_ping : Message → Bool
is_ping m =
    (m.code == 0)
    && eq_ℤ m.kind confirmable
    && (length m.token == 0)
    && (length m.options == 0)
    && (length m.payload == 0)

-- IsSeparateMessage, of a message that was unmarshalled: a token of length 0 is nil then.
unfoldable pub is_separate_message : Message → Bool
is_separate_message m =
    (m.code == 0)
    && (length m.token == 0)
    && eq_ℤ m.kind acknowledgement
    && (length m.options == 0)
    && (length m.payload == 0)

-- isQMulticastRequest; `multicast` says that there is a control message with such a destination.
unfoldable pub is_q_multicast_request : Bool → Message → Bool
is_q_multicast_request multicast m =
    leb 1 m.code && ltb m.code 32 && has q_block2 m.options && multicast

-- `qAllowed`: Q-Block options are known to a peer that uses them, in requests that may carry them.
unfoldable pub q_allowed : Bool → Message → Bool
q_allowed enabled m =
    if has 6 m.options && (not (m.code == 1) || has q_block1 m.options)
    then false
    else enabled
      && not (has 35 m.options)
      && not (has 39 m.options)
      && not (has 27 m.options)
      && not (has 23 m.options)

-- respondUnknownCriticalOptions: 4.02 with a text, as the acknowledgement.
unfoldable pub bad_option_response : Message → List ℕ → Message
bad_option_response req ids = record {
  token = req.token;
  options = (record { id = 12; value = [] }) ∷ [];
  code = 130;
  payload = format_diagnostic ids;
  message_id = req.message_id;
  kind = acknowledgement;
}

-- What is done with a request for its unknown critical options: nothing, or it is dropped, with a reply
-- if it is confirmable.
pub data Rejection : Type 0 where
  accepted : Rejection
  rejected : Option Message → Rejection

abbrev reject : Message → List ℕ → Rejection
reject req [] = accepted
reject req (id ∷ ids) =
    rejected (if eq_ℤ req.kind confirmable then some (bad_option_response req (id ∷ ids)) else none)

unfoldable pub process_unknown_critical_options : Bool → Message → Rejection
process_unknown_critical_options enabled req =
    if not (is_con_or_non req.kind) || (ltb req.code 1 || leb 32 req.code)
    then accepted
    else reject req (get_unknown_critical_options req.options (q_allowed enabled req))

-- sendPong into the response of a message `r`, for the code of an empty message
unfoldable pub pong : Message → Response
pong r = set_message_id r.message_id (
    set_type reset
      (set_code 0 (record { message = record acquired { token = r.token }; is_modified = false })))

-- How far a datagram gets.
pub data Outcome : Type 0 where
  too_large ignored monitor_failed dropped separate duplicate over_limit closed hung : Outcome
  malformed : MalformedMessageError → Outcome
  bad_option : Option Message → Outcome
  ponged : Response → Outcome
  queued : Message → Outcome

-- The connection behind it, the confirmable message whose handler was called, and the outcome.
abbrev pub Received {ℓ} : Type ℓ → Type ℓ
Received S = Conn S × Option MidElement × Outcome

-- The calls on monitors, and what they and the session are set to. `is_closed` says that the
-- connection's context is done when the message is to be queued.
pub record Peer {ℓ} (S : Type ℓ) : Type ℓ where
  pub max_message_size : ℕ
  pub max_pending : ℕ
  pub q_block_enabled : Bool
  pub monitor : Message → S → S × Result Bool
  pub notify : S → S
  pub is_closed : S → Bool

module _ {ℓ} {S : Type ℓ} (capacity : ℕ) (peer : Peer S) where
  abbrev into_queue : Message → ℕ → Conn S → Option MidElement → Received S
  into_queue req sequence c element =
      if peer.is_closed c.state
      then (
        record c { pending = delete_pending_message (key_of req.message_id) sequence c.pending },
        element,
        closed,
      )
      else (c, element, queued req)

  abbrev pending_checked :
      Message → ℕ → Conn S → Option MidElement → SyncMap PendingMessage × Result Bool → Received S
  pending_checked req sequence c element (m, ok true) =
      (record c { pending = m }, element, duplicate)
  pending_checked req sequence c element (m, ok false) =
      into_queue req sequence (record c { pending = m }) element
  pending_checked req sequence c element (m, err e) =
      (record c { pending = m }, element, over_limit)
  pending_checked req sequence c element (m, stuck) = (record c { pending = m }, element, hung)

  -- The part of Process behind handleSpecialMessages.
  unfoldable pub enqueue : ℕ → ℕ → Message → Conn S → Option MidElement → Received S
  enqueue now sequence req c element =
      if is_con_or_non req.kind
      then pending_checked req sequence c element
          (add_pending_message peer.max_pending (key_of req.message_id) sequence now c.pending)
      else into_queue req sequence c element

  abbrev acknowledged :
      ℕ → ℕ → Message → Conn S → SyncMap MidElement × Option MidElement → Received S
  acknowledged now sequence req c (m, some element) =
      enqueue now sequence req (record c { waiting = m }) (some element)
  acknowledged now sequence req c (m, none) =
      if is_separate_message req
      then (record c { waiting = m }, none, separate)
      else enqueue now sequence req (record c { waiting = m }) none

  -- handleSpecialMessages, and what follows it.
  unfoldable pub special : ℕ → ℕ → Message → Conn S → Received S
  special now sequence req c =
      if is_ping req
      then (c, none, ponged (pong req))
      else acknowledged now sequence req c (load_and_delete (key_of req.message_id) c.waiting)

  abbrev monitored : ℕ → ℕ → Message → Conn S → S × Result Bool → Received S
  monitored now sequence req c (s, ok true) = (record c { state = s }, none, dropped)
  monitored now sequence req c (s, ok false) =
      special now sequence req (record c { state = peer.notify s })
  monitored now sequence req c (s, err e) = (record c { state = s }, none, monitor_failed)
  monitored now sequence req c (s, stuck) = (record c { state = s }, none, hung)

  abbrev unless_rejected : ℕ → ℕ → Message → Conn S → Rejection → Received S
  unless_rejected now sequence req c (rejected reply) = (c, none, bad_option reply)
  unless_rejected now sequence req c accepted =
      monitored now sequence req (record c { msg_id = check_my_message_id req c.msg_id })
        (peer.monitor req c.state)

  -- Process behind the decoder.
  abbrev unmarshalled : ℕ → Bool → List ℕ → Conn S → Message × Result ℕ → Received S
  unmarshalled now multicast datagram c (req, err e) =
      (c, none, malformed (new_malformed_message_error e datagram req))
  unmarshalled now multicast datagram c (req, stuck) = (c, none, hung)
  unmarshalled now multicast datagram c (req, ok n) =
      let sequence = (c.sequence + 1) % 2 ^ 64 in
      let c' = record c { sequence = sequence } in
      if is_q_multicast_request multicast req
      then (c', none, ignored)
      else unless_rejected now sequence req c'
          (process_unknown_critical_options peer.q_block_enabled req)

  -- Process, at `now`; `multicast` is what isQMulticastRequest reads of the control message.
  unfoldable pub process : ℕ → Bool → List ℕ → Conn S → Received S
  process now multicast datagram c =
      if ltb peer.max_message_size (length datagram % 2 ^ 32)
      then (c, none, too_large)
      else unmarshalled now multicast datagram c
          (Decoding.decode Coder.decode capacity datagram acquired)
