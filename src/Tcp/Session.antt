-- ===== src/Tcp/Session.antt =====
-- tcp/client/session.go: a session reads messages from a stream. What the session calls on its
-- connection is the argument `peer` over a state of its own; a session's buffer is what it has read
-- and not yet decoded. The capacity of the buffer and of the read buffer does not matter here.
pub mod Framing
pub mod Taking
pub mod Chunks
pub mod Delivery
use go_coap.Message.Fault.{Fault, Result, ok, err, stuck, short_read, max_message_size_exceeded}
use go_coap.Message.Record.{Message}
use go_coap.Net.CriticalOptions.{get_unknown_critical_options_legacy, format_diagnostic}
use go_coap.Pool.Decoding
use go_coap.Pool.Encoding.{marshal_frame}
use go_coap.Tcp.Coder.{MessageHeader, decode_header}
use go_coap.Tcp.Coder
use go_coap.Prelude.{ltb, leb, ◌==◌, if◌then◌else◌}
use go_coap.Prelude.{length, take, drop}
use go_coap.Prelude.{negsuc}
use go_coap.Prelude.{ℕ, zero, suc, ◌+◌, ◌-◌, ◌%◌, ◌^◌, min}
use go_coap.Prelude.{Bool, true, false, ◌||◌}
use go_coap.Prelude.{List, [], ◌∷◌, ◌++◌}

-- The calls on the connection and its monitors; `push` takes the message's sequence number.
pub record Peer {ℓ} (S : Type ℓ) : Type ℓ where
  pub monitor : Message → S → S × Result Bool
  pub notify : S → S
  pub push : ℕ → Message → S → S
  pub write : List ℕ → S → S × Result (Unit {0})

-- A message from the pool, with nothing in it.
abbrev pub acquired : Message
acquired = record {
  token = [];
  options = [];
  code = 0;
  payload = [];
  message_id = negsuc 0;
  kind = negsuc 0;
}

-- The loop of seekBufferToNextMessage: Read takes up to 4096 bytes from the front.
unfoldable pub seek_loop : ℕ → ℕ → List ℕ → Result (List ℕ)
seek_loop zero to_read buffer = stuck
seek_loop (suc fuel) to_read buffer =
    let n = min (min 4096 to_read) (length buffer) in
    let rest = seek_loop fuel (to_read - n) (drop n buffer) in
    if to_read == 0 then ok buffer else rest

-- seekBufferToNextMessage: a round that has bytes to read takes one at least.
unfoldable pub seek_buffer : ℕ → List ℕ → Result (List ℕ)
seek_buffer msg_size buffer =
    if msg_size == length buffer then ok [] else seek_loop (suc msg_size) msg_size buffer

-- decodeMessageFromBuffer: not ready, an error, or a message with the buffer behind it. `hung` is a
-- loop that does not end.
pub data Decoded : Type 0 where
  waiting hung : Decoded
  failed : Fault → Decoded
  ready : Message → List ℕ → Decoded

abbrev pub after_seek : Message → Result (List ℕ) → Decoded
after_seek m (ok rest) = ready m rest
after_seek m (err e) = failed e
after_seek m stuck = hung

abbrev pub after_unmarshal : List ℕ → Message × Result ℕ → Decoded
after_unmarshal buffer (m, ok n) = after_seek m (seek_buffer n buffer)
after_unmarshal buffer (m, err e) = failed e
after_unmarshal buffer (m, stuck) = hung

-- `capacity` is that of the options of a message from the pool.
unfoldable pub decode_sized : ℕ → ℕ → List ℕ → MessageHeader → Decoded
decode_sized max_size capacity buffer h =
    if ltb max_size h.message_length
    then failed max_message_size_exceeded
    else if ltb (length buffer % 2 ^ 32) h.message_length
    then waiting
    else after_unmarshal buffer
        (Decoding.decode Coder.decode capacity (take h.message_length buffer) acquired)

-- errors.Is(err, message.ErrShortRead)
abbrev pub is_short_read : Fault → Bool
is_short_read short_read = true
is_short_read _ = false

abbrev pub header_failed : Fault → Decoded
header_failed e = if is_short_read e then waiting else failed e

abbrev pub after_header : ℕ → ℕ → List ℕ → Result MessageHeader → Decoded
after_header max_size capacity buffer (ok h) = decode_sized max_size capacity buffer h
after_header max_size capacity buffer (err e) = header_failed e
after_header max_size capacity buffer stuck = hung

unfoldable pub decode_message_from_buffer : ℕ → ℕ → List ℕ → Decoded
decode_message_from_buffer max_size capacity buffer =
    after_header max_size capacity buffer (decode_header buffer)

-- The response to a request with unknown critical options: 4.02 with a text.
unfoldable pub bad_option_response : Message → List ℕ → Message
bad_option_response req ids = record acquired {
  code = 130;
  token = req.token;
  options = (record { id = 12; value = [] }) ∷ [];
  payload = format_diagnostic ids;
}

-- How far a session has come: it waits for bytes with what it could not decode yet, it has closed
-- after the other side did, it has returned an error, or it is in a loop that does not end.
pub data Progress {ℓ} (S : Type ℓ) : Type ℓ where
  waits : S → ℕ → List ℕ → Progress S
  closed hangs : S → ℕ → Progress S
  stops : S → ℕ → Fault → Progress S

-- How reading from the connection ends: not yet, by the other side, or with another error.
pub data Ending : Type 0 where
  open_yet broken : Ending
  read_error : Fault → Ending

module _ {ℓ} {S : Type ℓ} (peer : Peer S) (max_size capacity : ℕ) where
  -- WriteMessage, with a message's new buffer of 256 bytes
  abbrev write_result : S → Result (List ℕ) → S × Result (Unit {0})
  write_result s (ok bytes) = peer.write bytes s
  write_result s (err e) = (s, err e)
  write_result s stuck = (s, stuck)

  unfoldable pub write_message : Message → S → S × Result (Unit {0})
  write_message m s = write_result s (marshal_frame 256 m)

  -- sendCSM with the token that GetToken made
  unfoldable pub send_csm : List ℕ → S → S × Result (Unit {0})
  send_csm token s = write_message (record acquired { code = 225; token = token }) s

  abbrev dropped : S × Result (Unit {0}) → S × Result Bool
  dropped (s, ok u) = (s, ok true)
  dropped (s, err e) = (s, err e)
  dropped (s, stuck) = (s, stuck)

  -- shouldDropRequest, once the unknown critical options are known
  abbrev drop_unknown : Message → S → List ℕ → S × Result Bool
  drop_unknown req s [] = (s, ok false)
  drop_unknown req s (id ∷ ids) = dropped (write_message (bad_option_response req (id ∷ ids)) s)

  unfoldable pub should_drop_request : Message → S → S × Result Bool
  should_drop_request req s =
      if ltb req.code 1 || leb 32 req.code
      then (s, ok false)
      else drop_unknown req s (get_unknown_critical_options_legacy req.options)

  abbrev monitored : ℕ → Message → S × Result Bool → S × Result Bool
  monitored seq req (s, ok true) = (s, ok true)
  monitored seq req (s, ok false) = (peer.push seq req (peer.notify s), ok false)
  monitored seq req (s, err e) = (s, err e)
  monitored seq req (s, stuck) = (s, stuck)

  abbrev checked : ℕ → Message → S × Result Bool → S × Result Bool
  checked seq req (s, ok true) = (s, ok true)
  checked seq req (s, ok false) = monitored seq req (peer.monitor req s)
  checked seq req (s, err e) = (s, err e)
  checked seq req (s, stuck) = (s, stuck)

  unfoldable pub handle_received_request : ℕ → Message → S → S × Result Bool
  handle_received_request seq req s = checked seq req (should_drop_request req s)

  abbrev pub proceed : ℕ → (S → Progress S) → S × Result Bool → Progress S
  proceed seq go_on (s, ok drop) = go_on s
  proceed seq go_on (s, err e) = stops s seq e
  proceed seq go_on (s, stuck) = hangs s seq

  -- processBuffer on fuel; `seq` is the session's counter before the next message.
  unfoldable pub process_loop : ℕ → S → ℕ → List ℕ → Progress S
  process_loop fuel s seq [] = waits s seq []
  process_loop zero s seq (b ∷ bytes) = hangs s seq
  process_loop (suc fuel) s seq (b ∷ bytes) =
      elim (decode_message_from_buffer max_size capacity (b ∷ bytes)) [
        | waiting ↦ waits s seq (b ∷ bytes)
        | hung ↦ hangs s seq
        | failed e ↦ stops s seq e
        | ready req rest ↦
            let next = (seq + 1) % 2 ^ 64 in
            proceed next (λ s'. process_loop fuel s' next rest) (handle_received_request next req s)
      ]

  -- processBuffer: a message takes a byte at least.
  unfoldable pub process_buffer : S → ℕ → List ℕ → Progress S
  process_buffer s seq buffer = process_loop (length buffer) s seq buffer

  abbrev pub finish : Ending → Progress S → Progress S
  finish open_yet p = p
  finish broken (waits s seq buffer) = closed s seq
  finish (read_error e) (waits s seq buffer) = stops s seq e
  finish _ (closed s seq) = closed s seq
  finish _ (hangs s seq) = hangs s seq
  finish _ (stops s seq e) = stops s seq e

  -- The loop of Run, with what the calls of ReadWithContext return.
  unfoldable pub run : S → ℕ → List ℕ → List (List ℕ) → Ending → Progress S
  run s seq buffer [] ending = finish ending (process_buffer s seq buffer)
  run s seq buffer (chunk ∷ chunks) ending = elim (process_buffer s seq buffer) [
    | waits s' seq' buffer' ↦ run s' seq' (buffer' ++ chunk) chunks ending
    | closed s' seq' ↦ closed s' seq'
    | hangs s' seq' ↦ hangs s' seq'
    | stops s' seq' e ↦ stops s' seq' e
  ]
