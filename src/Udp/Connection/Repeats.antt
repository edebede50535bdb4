-- ===== src/Udp/Connection/Repeats.antt =====
-- udp/client/conn.go: a request that comes again is answered from the cache.
use go_coap.Message.Fault.{Result, ok}
use go_coap.Message.Defs.{CoapOption}
use go_coap.Message.Record.{Message, get_mid}
use go_coap.Message.RoundTrip.{length-le-wire}
use go_coap.Message.Wire.{options_wire}
use go_coap.Pkg.Cache.{load_live, load_or_store_live, is_expired}
use go_coap.Pkg.SyncMap.{store}
use go_coap.Pkg.SyncMap.Laws.{load-store}
use go_coap.Pool.Decoding.Datagram.{decode-grown}
use go_coap.Pool.Encoding.{marshal_datagram-wire}
use go_coap.Udp.Coder
use go_coap.Udp.Coder.{payload_wire}
use go_coap.Udp.Coder.RoundTrip as datagrams
use go_coap.Udp.Connection.{
  confirmable, acknowledgement, reset, exchange_lifetime, Response, Conn, is_pong_or_reset_response,
  send_just_acknowledge_message, is_q_non_response, hit, from_element, get_message_id,
  get_response_from_cache, add_response_to_cache, check_response_cache, piggyback, process_response,
  handle_req,
}
use go_coap.Prelude.{◌==◌, lt→ltb, le→not_ltb, ne→not==}
use go_coap.Prelude.{length, All, length-append}
use go_coap.Prelude.{ℤ, pos, eq_ℤ}
use go_coap.Prelude.{ℕ, suc, ◌+◌, ◌%◌, ◌^◌, ◌≤◌, ◌<◌}
use go_coap.Prelude.{◌≡◌, refl, ◌≢◌, true, false}
use go_coap.Prelude.{Option, none, some, List, [], ◌∷◌, ◌++◌, map, arith}

-- An answer that the coder carries, as the acknowledgement of the request with id `mid`.
module _ (token : List ℕ) (os : List CoapOption) (code : ℕ) (body : List ℕ) (mid : ℕ)
    (v : datagrams.IsDatagram token os code body mid 2) (capacity : ℕ) (room : 0 < capacity) where
  abbrev wire : List ℕ
  wire = datagrams.datagram token os code body mid 2

  few_options : length os ≤ suc (length wire)
  unfolding Coder.header
  few_options = omega (
    arith,
    length-le-wire 0 os,
    length-append token (options_wire 0 os ++ payload_wire body),
    length-append (options_wire 0 os) (payload_wire body),
  )

  from_cache :
      (m : Message) (until : Option ℕ)
      → from_element capacity m (some (record { valid_until = until; content = wire }))
        ≡ hit (datagrams.message token os code body mid 2)
  unfolding Coder.header
  from_cache m until =
      rw
        (
          decode-grown capacity wire m room,
          datagrams.decode-datagram token os code body mid 2 v (suc (length wire)) m few_options,
          lt→ltb 0 (length wire) (omega arith),
        )
        refl

same_key : (k : ℕ) → (k == k) ≡ true
same_key k = ground arith

-- A message but for its type and its id.
pub record Parts : Type 0 where
  pub token : List ℕ
  pub options : List CoapOption
  pub code : ℕ
  pub body : List ℕ

abbrev pub message_of : Parts → ℤ → ℤ → Message
message_of p mid typ = record {
  token = p.token;
  options = p.options;
  code = p.code;
  payload = p.body;
  message_id = mid;
  kind = typ;
}

-- A confirmable request.
abbrev pub con_request : Parts → ℕ → Message
con_request p mid = message_of p (pos mid) confirmable

-- What a response looks like that goes with the acknowledgement of the request `mid`.
abbrev pub acknowledged : Parts → ℕ → Response
acknowledged p mid = record { message = message_of p (pos mid) acknowledgement; is_modified = true }

module _ {ℓ} {S : Type ℓ} (capacity room : ℕ) (handle : Message → Response → S → S × Response) where
  -- The handler answers the request `p` with `q`, a message that the coder carries and that is neither
  -- empty nor a reset; it may have set an id and a type.
  pub record Answers (p q : Parts) (mid : ℕ) (r : Response) (before after : S) : Type ℓ where
    pub own_id : ℤ
    pub own_type : ℤ
    pub answers :
        handle (con_request p mid) (record r { is_modified = false }) before
        ≡ (after, record { message = message_of q own_id own_type; is_modified = true })
    pub no_reset : eq_ℤ own_type reset ≡ false
    pub not_empty : q.code ≢ 0
    pub is_carried : datagrams.IsDatagram q.token q.options q.code q.body mid 2

  -- The connection behind the first answer.
  unfoldable pub kept : ℕ → Parts → ℕ → Conn S → S → Conn S
  kept now q mid c after = record {
    msg_id = (c.msg_id + 1) % 2 ^ 32;
    process_msg_id = (get_mid c.process_msg_id).0;
    sequence = c.sequence;
    responses =
        store mid
          (record {
            valid_until = some (now + exchange_lifetime);
            content = datagrams.datagram q.token q.options q.code q.body mid 2;
          })
          c.responses;
    pending = c.pending;
    waiting = c.waiting;
    outstanding = c.outstanding;
    state = after;
  }

  first_time :
      (now mid : ℕ) (p q : Parts) (r : Response) (c : Conn S) (after : S)
      → Answers p q mid r c.state after
      → load_live now mid c.responses ≡ none
      → handle_req capacity room handle now (con_request p mid) r c
        ≡ (kept now q mid c after, acknowledged q mid, ok tt)
  unfolding handle_req check_response_cache get_response_from_cache process_response piggyback
      is_pong_or_reset_response send_just_acknowledge_message is_q_non_response
      add_response_to_cache get_message_id kept load_or_store_live
  first_time now mid p q r c after a is_new =
      rw
        (
          is_new,
          a.answers,
          a.no_reset,
          ne→not== q.code 0 a.not_empty,
          marshal_datagram-wire q.token q.options q.code q.body mid 2 a.is_carried room,
          load_or_store_live,
          is_new,
        )
        refl

  again :
      (now later mid : ℕ) (p dup q : Parts) (r : Response) (c : Conn S) (after : S)
      → 0 < capacity
      → datagrams.IsDatagram q.token q.options q.code q.body mid 2
      → later ≤ now + exchange_lifetime
      → handle_req capacity room handle later (con_request dup mid) r (kept now q mid c after)
        ≡ (kept now q mid c after, acknowledged q mid, ok tt)
  unfolding handle_req check_response_cache get_response_from_cache kept load_live is_expired
  again now later mid p dup q r c after some_place v h =
      rw
        (
          load-store mid mid
              (record {
                valid_until = some (now + exchange_lifetime);
                content = datagrams.datagram q.token q.options q.code q.body mid 2;
              })
              c.responses,
          same_key mid,
          le→not_ltb (now + exchange_lifetime) later h,
          from_cache q.token q.options q.code q.body mid v capacity some_place r.message
              (some (now + exchange_lifetime)),
        )
        refl

  -- Confirmable requests with the id `mid`, each with the time that it comes at, one after the other:
  -- the connection behind them, and what is sent for each.
  unfoldable pub handle_each :
      ℕ → Response → List (ℕ × Parts) → Conn S → Conn S × List (Response × Result (Unit {0}))
  handle_each mid r [] c = (c, [])
  handle_each mid r ((now, p) ∷ requests) c =
      let (c', out, e) = handle_req capacity room handle now (con_request p mid) r c in
      let (c'', outs) = handle_each mid r requests c' in (c'', (out, e) ∷ outs)

  again_each :
      (now mid : ℕ) (q : Parts) (r : Response) (c : Conn S) (after : S)
      (requests : List (ℕ × Parts))
      → 0 < capacity
      → datagrams.IsDatagram q.token q.options q.code q.body mid 2
      → All (λ d. d.0 ≤ now + exchange_lifetime) requests
      → handle_each mid r requests (kept now q mid c after)
        ≡ (kept now q mid c after, map (λ d. (acknowledged q mid, ok tt)) requests)
  unfolding handle_each
  again_each now mid q r c after [] some_place v h = refl
  again_each now mid q r c after ((later, p) ∷ requests) some_place v (h, hs) =
      rw
        (
          again now later mid p p q r c after some_place v h,
          again_each now mid q r c after requests some_place v hs,
        )
        refl

  -- When the handler answers a new confirmable request with a message that the coder carries, neither
  -- empty nor a reset, then all requests with the same id that come within the lifetime of an exchange
  -- get the same acknowledgement with the same response, and the handler runs once: its state and the
  -- connection stay as the first request left them.
  pub handle_each-once :
      (now mid : ℕ) (p q : Parts) (r : Response) (c : Conn S) (after : S)
      (requests : List (ℕ × Parts))
      → 0 < capacity
      → Answers p q mid r c.state after
      → load_live now mid c.responses ≡ none
      → All (λ d. d.0 ≤ now + exchange_lifetime) requests
      → handle_each mid r ((now, p) ∷ requests) c
        ≡ (kept now q mid c after, map (λ d. (acknowledged q mid, ok tt)) ((now, p) ∷ requests))
  unfolding handle_each
  handle_each-once now mid p q r c after requests some_place a is_new h =
      rw
        (
          first_time now mid p q r c after a is_new,
          again_each now mid q r c after requests some_place a.is_carried h,
        )
        refl
