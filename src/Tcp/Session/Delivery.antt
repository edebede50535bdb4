-- ===== src/Tcp/Session/Delivery.antt =====
-- tcp/client/session.go: what one side marshals, the session of the other side hands over.
use go_coap.Message.Fault.{Result, ok, ◌>>=◌}
use go_coap.Message.Defs.{CoapOption}
use go_coap.Message.Record.{Message}
use go_coap.Message.RoundTrip.{length-le-wire}
use go_coap.Message.Wire.{options_wire}
use go_coap.Udp.Coder.{payload_wire}
use go_coap.Pool.Decoding
use go_coap.Pool.Decoding.Stream.{decode-stream}
use go_coap.Pool.Encoding.{marshal_frame, marshal_frame-wire}
use go_coap.Tcp.Coder.{MessageHeader, decode_header, header_bytes}
use go_coap.Tcp.Coder
use go_coap.Tcp.Coder.Frame.{decode_header-header}
use go_coap.Tcp.Coder.RoundTrip as frames
use go_coap.Tcp.Session.{
  Peer, acquired, ready, decode_sized, decode_message_from_buffer, handle_received_request, proceed,
  Progress, waits, Ending, finish, process_loop, process_buffer, run,
}
use go_coap.Tcp.Session.Framing.{seek_buffer-drop}
use go_coap.Tcp.Session.Chunks.{concat, proceed_ext, run-concat}
use go_coap.Prelude.{le→not_ltb}
use go_coap.Prelude.{length, take, All, length-append, take-append, drop-append}
use go_coap.Prelude.{negsuc}
use go_coap.Prelude.{ℕ, zero, suc, ◌+◌, ◌%◌, ◌^◌, ◌≤◌, ◌<◌}
use go_coap.Prelude.{◌≡◌, refl, sym, ap, ◌∙◌}
use go_coap.Prelude.{List, [], ◌∷◌, ◌++◌, append-nil, append_assoc, arith}

-- A message to be sent on a stream.
pub record Outgoing : Type 0 where
  pub token : List ℕ
  pub options : List CoapOption
  pub code : ℕ
  pub body : List ℕ

abbrev pub message_of : Outgoing → Message
message_of o = frames.message o.token o.options o.code o.body (negsuc 0) (negsuc 0)

abbrev pub wire_of : Outgoing → List ℕ
wire_of o = frames.frame o.token o.options o.code o.body (negsuc 0) (negsuc 0)

-- A message that the coder carries, in a frame of at most `max_size` bytes.
pub record IsSendable (max_size : ℕ) (o : Outgoing) : Type 0 where
  pub framed : frames.IsFrame o.token o.options o.code o.body (negsuc 0) (negsuc 0)
  pub size_le : length (wire_of o) ≤ max_size

-- The bytes that a side writes for its messages, one after the other.
abbrev pub written_by : ℕ → List Outgoing → Result (List ℕ)
written_by room [] = ok []
written_by room (o ∷ os) = do
  bytes ← marshal_frame room (message_of o)
  more ← written_by room os
  ok (bytes ++ more)

abbrev wires : List Outgoing → List ℕ
wires [] = []
wires (o ∷ os) = wire_of o ++ wires os

written_by-wires :
    (max_size room : ℕ) (os : List Outgoing)
    → All (IsSendable max_size) os
    → written_by room os ≡ ok (wires os)
written_by-wires max_size room [] v = refl
written_by-wires max_size room (o ∷ os) (v, vs) =
    rw
      (
        marshal_frame-wire o.token o.options o.code o.body (negsuc 0) (negsuc 0) v.framed room,
        written_by-wires max_size room os vs,
      )
      refl

frame-nonempty : (o : Outgoing) → 0 < length (wire_of o)
unfolding header_bytes
frame-nonempty o = omega arith

module _ (max_size capacity : ℕ) (room : 0 < capacity) (o : Outgoing) (v : IsSendable max_size o)
    (more : List ℕ) (fits : length (wire_of o ++ more) < 2 ^ 32) where
  abbrev wire : List ℕ
  wire = wire_of o

  abbrev body : List ℕ
  body = frames.body_wire o.token o.options o.code o.body (negsuc 0) (negsuc 0)

  abbrev n : ℕ
  n = length body

  abbrev header : List ℕ
  header = header_bytes (message_of o) n

  abbrev the_header : MessageHeader
  the_header = record {
    token = o.token;
    header_length = length header;
    message_length = length header + n;
    code = o.code;
  }

  wire-length : length wire ≡ length header + n
  wire-length = length-append header _

  header_read : decode_header (wire ++ more) ≡ ok the_header
  header_read =
      let v = v.framed in
      rw (append_assoc header (body) more)
        (decode_header-header (message_of o) n (body ++ more) v.token_le v.code_lt v.body_lt)

  front : take (length header + n) (wire ++ more) ≡ wire
  front = ap (λ k. take k (wire ++ more)) (sym wire-length) ∙ take-append wire more

  few_options : length o.options ≤ suc (length wire)
  few_options = omega (
    arith,
    length-le-wire 0 o.options,
    length-append (options_wire 0 o.options) (payload_wire o.body),
    wire-length,
  )

  front_read :
      Decoding.decode Coder.decode capacity wire acquired ≡ (message_of o, ok (length wire))
  front_read =
      decode-stream capacity wire acquired refl room
      ∙ ap (λ w. Coder.decode (suc (length wire)) w acquired) (sym (append-nil wire))
      ∙ frames.decode-frame o.token o.options o.code o.body (negsuc 0) (negsuc 0) v.framed
          (suc (length wire)) [] few_options
          (omega (arith, fits, length-append wire more, length-append wire []))

  pub decode-wire :
      decode_message_from_buffer max_size capacity (wire ++ more) ≡ ready (message_of o) more
  unfolding decode_message_from_buffer decode_sized
  decode-wire =
      let sizes = length-append wire more in
      rw
        (
          header_read,
          le→not_ltb max_size (length header + n) (omega (arith, wire-length, v.size_le)),
          le→not_ltb (length (wire ++ more) % 2 ^ 32) (length header + n)
              (omega (arith, wire-length, sizes, fits)),
          front,
          front_read,
          seek_buffer-drop (length wire) (wire ++ more) (omega (arith, sizes)),
          drop-append wire more,
        )
        refl

module _ {ℓ} {S : Type ℓ} (peer : Peer S) (max_size capacity : ℕ) where
  -- The messages handed over one by one; the session goes on behind the last.
  unfoldable pub hand_over : S → ℕ → List Outgoing → Progress S
  hand_over s seq [] = waits s seq []
  hand_over s seq (o ∷ os) =
      let next = (seq + 1) % 2 ^ 64 in
      proceed peer max_size capacity next (λ s'. hand_over s' next os)
        (handle_received_request peer max_size capacity next (message_of o) s)

  loop-hand_over :
      (room : 0 < capacity) (os : List Outgoing) (fuel : ℕ) (s : S) (seq : ℕ)
      → All (IsSendable max_size) os
      → length (wires os) < 2 ^ 32
      → length (wires os) ≤ fuel
      → process_loop peer max_size capacity fuel s seq (wires os) ≡ hand_over s seq os
  unfolding process_loop hand_over header_bytes handle_received_request
  loop-hand_over room [] fuel s seq v fits h = refl
  loop-hand_over room (o ∷ os) zero s seq (v, vs) fits h =
      absurd (omega (arith, frame-nonempty o, length-append (wire_of o) (wires os)))
  loop-hand_over room (o ∷ os) (suc fuel) s seq (v, vs) fits h =
      let sizes = length-append (wire_of o) (wires os) in
      let some_byte = frame-nonempty o in
      rw (decode-wire max_size capacity room o v (wires os) fits, process_loop)
        (proceed_ext peer max_size capacity room ((seq + 1) % 2 ^ 64) _ _ _ (λ s'.
          loop-hand_over room os fuel s' ((seq + 1) % 2 ^ 64) vs (omega (arith, sizes, fits))
            (omega (arith, sizes, h, some_byte))))

  -- Messages that the coder carries in frames of at most `max_size` bytes, marshalled one after the
  -- other and less than 2^32 bytes in all, reach the other side's session as they were sent: however
  -- the stream cuts the bytes into reads, the session checks, monitors and queues each message once,
  -- in order, and no other.
  pub run-hand_over :
      (room : 0 < capacity) (os : List Outgoing) (buffer_room : ℕ) (s : S) (seq : ℕ)
      (chunks : List (List ℕ)) (ending : Ending)
      → All (IsSendable max_size) os
      → written_by buffer_room os ≡ ok (concat chunks)
      → length (concat chunks) < 2 ^ 32
      → run peer max_size capacity s seq [] chunks ending
        ≡ finish peer max_size capacity ending (hand_over s seq os)
  unfolding run process_buffer
  run-hand_over room os buffer_room s seq chunks ending v wrote fits =
      let stream : wires os ≡ concat chunks =
        cc (written_by-wires max_size buffer_room os v, wrote) in
      run-concat peer max_size capacity room s seq [] chunks ending fits
      ∙ ap (finish peer max_size capacity ending) (
          ap (λ b. process_loop peer max_size capacity (length b) s seq b) (sym stream)
          ∙ loop-hand_over room os (length (wires os)) s seq v (rw stream fits) (omega arith))
