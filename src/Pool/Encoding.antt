-- ===== src/Pool/Encoding.antt =====
-- message/pool/message.go: MarshalWithEncoder. `room` is the length of the message's buffer.
use go_coap.Message.Fault.{Result, ok, err, stuck, too_small_buffer}
use go_coap.Message.Defs.{CoapOption}
use go_coap.Message.Record.{Message}
use go_coap.Message.Writer.{Buffer, nil, of_len}
use go_coap.Tcp.Coder as tcp
use go_coap.Tcp.Coder.RoundTrip as frames
use go_coap.Udp.Coder as udp
use go_coap.Udp.Coder.RoundTrip as datagrams
use go_coap.Prelude.{le→leb, lt→not_leb}
use go_coap.Prelude.{length, take}
use go_coap.Prelude.{ℤ, pos, pos_part}
use go_coap.Prelude.{ℕ, ◌<◌, max}
use go_coap.Prelude.{◌≡◌, refl, ap}
use go_coap.Prelude.{List, [], ◌∷◌, arith}

-- `if len(r.bufferMarshal) < size { grow }`: a negative size grows nothing.
abbrev pub grown : ℕ → ℤ → Buffer
grown room n = of_len (max room (pos_part n))

-- `r.bufferMarshal[:n]`; a negative n panics
abbrev pub frame_written : tcp.Encoded → Result (List ℕ)
frame_written (tcp.written n bytes) = ok (take n bytes)
frame_written (tcp.buffer_too_small n) = err too_small_buffer
frame_written tcp.no_size = stuck
frame_written (tcp.failed e) = err e

unfoldable pub marshal_frame : ℕ → Message → Result (List ℕ)
marshal_frame room m = elim (tcp.size m) [
  | ok n ↦ frame_written (tcp.encode (grown room n) m)
  | err e ↦ err e
  | stuck ↦ stuck
]

abbrev pub datagram_written : udp.Encoded → Result (List ℕ)
datagram_written (udp.written n bytes) = ok (take (pos_part n) bytes)
datagram_written (udp.buffer_too_small n) = err too_small_buffer
datagram_written (udp.failed e) = err e
datagram_written udp.no_end = stuck

unfoldable pub marshal_datagram : ℕ → Message → Result (List ℕ)
marshal_datagram room m = elim (udp.size m) [
  | ok n ↦ datagram_written (udp.encode (grown room n) m)
  | err e ↦ err e
  | stuck ↦ stuck
]

take-all {ℓ} : {A : Type ℓ} (xs : List A) → take (length xs) xs ≡ xs
take-all [] = refl
take-all (x ∷ xs) = ap (λ t. x ∷ t) (take-all xs)

module _ (token : List ℕ) (os : List CoapOption) (code : ℕ) (body : List ℕ) (mid typ : ℤ)
    (v : frames.IsFrame token os code body mid typ) where
  abbrev frame_message : Message
  frame_message = frames.message token os code body mid typ

  abbrev frame_wire : List ℕ
  frame_wire = frames.frame token os code body mid typ

  frame-nonempty : 0 < length frame_wire
  unfolding tcp.header_bytes
  frame-nonempty = omega arith

  size-frame : tcp.size frame_message ≡ ok (pos (length frame_wire))
  unfolding tcp.size
  size-frame =
      rw
        (
          tcp.size,
          frames.encode-frame token os code body mid typ v nil,
          lt→not_leb (length frame_wire) 0 frame-nonempty,
        )
        refl

  -- A message that the encoder of the stream accepts by IsFrame is marshalled to the bytes of its
  -- frame, whatever the length of the buffer that the message has from earlier use.
  pub marshal_frame-wire : (room : ℕ) → marshal_frame room frame_message ≡ ok frame_wire
  unfolding marshal_frame
  marshal_frame-wire room =
      rw
        (
          size-frame,
          marshal_frame,
          frames.encode-frame token os code body mid typ v (grown room (pos (length frame_wire))),
          le→leb (length frame_wire) (max room (length frame_wire)) (omega arith),
        )
        (ap ok (take-all frame_wire))

module _ (token : List ℕ) (os : List CoapOption) (code : ℕ) (body : List ℕ) (mid typ : ℕ)
    (v : datagrams.IsDatagram token os code body mid typ) where
  abbrev message : Message
  message = datagrams.message token os code body mid typ

  abbrev wire : List ℕ
  wire = datagrams.datagram token os code body mid typ

  -- A message that the encoder of datagrams accepts by IsDatagram is marshalled to its bytes, whatever
  -- the length of the buffer that the message has from earlier use.
  pub marshal_datagram-wire : (room : ℕ) → marshal_datagram room message ≡ ok wire
  unfolding marshal_datagram
  marshal_datagram-wire room =
      rw
        (
          marshal_datagram,
          datagrams.size-wire token os code body mid typ v,
          datagrams.encode-datagram token os code body mid typ v (grown room (pos (length wire))),
          le→leb (length wire) (max room (length wire)) (omega arith),
        )
        (ap ok (take-all wire))
