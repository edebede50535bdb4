-- ===== src/Tcp/Coder/RoundTrip.antt =====
-- What Encode of tcp/coder/coder.go writes, Decode reads from the front of a stream.
use go_coap.Message.Fault.{Result, ok}
use go_coap.Message.Writer.{Buffer, nil, of_len, buffer_len, outcome-nil, outcome-fits}
use go_coap.Message.Defs.{CoapOption}
use go_coap.Message.Record.{Message}
use go_coap.Message.Unmarshal.{unmarshal_options}
use go_coap.Message.Wire.{options_wire, IsSortedFrom, marshal_options-wire}
use go_coap.Message.RoundTrip.{IsLegal, marker_len, unmarshal_options-wire}
use go_coap.Udp.Coder.{payload_wire}
use go_coap.Udp.Coder.RoundTrip.{All-IsEncodable, payload_ending, drop_to_payload}
use go_coap.Tcp.Coder.{
  message_max_len, header_bytes, written, buffer_too_small, encode_into, encode, MessageHeader,
  decode_header, option_defs_for, store_body, decode_with_header, decode_frame, decode, set_payload,
}
use go_coap.Tcp.Coder.Frame.{decode_header-header}
use go_coap.Prelude.{ltb, leb, if◌then◌else◌, lt→ltb, leb→le, le→not_ltb, Bool-cases}
use go_coap.Prelude.{length, All, length-append, take-append, drop-append}
use go_coap.Prelude.{ℤ}
use go_coap.Prelude.{ℕ, ◌+◌, ◌-◌, ◌%◌, ◌^◌, ◌≤◌, ◌<◌}
use go_coap.Prelude.{◌≡◌, refl, ap, ap₂, ◌∙◌, inl, inr, false}
use go_coap.Prelude.{List, [], ◌∷◌, ◌++◌, append_assoc, arith}

-- A message that a frame can carry, by its fields. `mid` and `typ` do not travel.
module _ (token : List ℕ) (os : List CoapOption) (code : ℕ) (body : List ℕ) (mid typ : ℤ) where
  abbrev pub message : Message
  message = record {
    token = token;
    options = os;
    code = code;
    payload = body;
    message_id = mid;
    kind = typ;
  }

  abbrev pub body_wire : List ℕ
  body_wire = options_wire 0 os ++ payload_wire body

  -- Codes of a byte, tokens of up to eight bytes, options in order that the receiver of such a code
  -- keeps, and a body below the limit of the code.
  pub record IsFrame : Type 0 where
    pub code_lt : code < 256
    pub token_le : length token ≤ 8
    pub sorted : IsSortedFrom 0 os
    pub legal : All (IsLegal (option_defs_for code)) os
    pub body_lt : length body_wire < message_max_len

  abbrev pub frame : List ℕ
  frame = header_bytes message (length body_wire) ++ body_wire

decode-header_ok :
    (capacity : ℕ) (bytes : List ℕ) (m : Message) (h : MessageHeader)
    → decode_header bytes ≡ ok h
    → decode capacity bytes m ≡ decode_frame capacity bytes m h
unfolding decode
decode-header_ok capacity bytes m h e = rw (e, decode)

set_payload-fresh :
    (body : List ℕ) (os : List CoapOption) (mid typ : ℤ)
    → set_payload body
        (record { token = []; options = os; code = 0; payload = []; message_id = mid; kind = typ })
      ≡ record { token = []; options = os; code = 0; payload = body; message_id = mid; kind = typ }
set_payload-fresh [] os mid typ = refl
set_payload-fresh (b ∷ bs) os mid typ = refl

module _ (token : List ℕ) (os : List CoapOption) (code : ℕ) (body : List ℕ) (mid typ : ℤ)
    (v : IsFrame token os code body mid typ) where
  abbrev m : Message
  m = message token os code body mid typ

  abbrev n : ℕ
  n = length (body_wire token os code body mid typ)

  abbrev wire : List ℕ
  wire = frame token os code body mid typ

  n-parts : length (payload_wire body) + length (options_wire 0 os) ≡ n
  n-parts = omega (arith, length-append (options_wire 0 os) (payload_wire body))

  length-wire : n + length (header_bytes m n) ≡ length wire
  length-wire =
      omega (arith, length-append (header_bytes m n) (body_wire token os code body mid typ))

  encode_into-wire :
      (k : ℕ) → length wire ≤ k → encode_into k (length wire) n m ≡ written (length wire) wire
  unfolding encode_into
  encode_into-wire k h = rw (
    encode_into,
    marshal_options-wire (of_len (k - length (header_bytes m n))) os v.sorted
        (All-IsEncodable _ os v.legal),
    outcome-fits (k - length (header_bytes m n)) (options_wire 0 os)
        (omega (arith, length-wire, n-parts)),
  )

  -- For a message that is a frame by IsFrame, Encode writes `frame` if the buffer has room for it, and
  -- else reports the room needed. Layout has its bytes.
  pub encode-frame :
      (buf : Buffer)
      → encode buf m ≡ (
          if leb (length wire) (buffer_len buf)
          then written (length wire) wire
          else buffer_too_small (length wire))
  unfolding encode
  encode-frame buf =
      rw
        (
          le→not_ltb 8 (length token) v.token_le,
          marshal_options-wire nil os v.sorted (All-IsEncodable _ os v.legal),
          outcome-nil,
          n-parts,
          length-wire,
        )
        (elim (Bool-cases (leb (length wire) (buffer_len buf))) [
          | inl e ↦
              rw (e, le→not_ltb (buffer_len buf) (length wire) (leb→le _ _ e))
                (encode_into-wire (buffer_len buf) (leb→le _ _ e))
          | inr e ↦ rw (e, lt→ltb (buffer_len buf) (length wire) (ground arith))
        ])

  -- A message with nothing in it, as the caller hands to Decode.
  abbrev fresh : Message
  fresh = record { token = []; options = []; code = 0; payload = []; message_id = mid; kind = typ }

  abbrev stored : ℕ → List ℕ → Message × Result ℕ
  stored proc rest = (
    record (set_payload rest (record fresh { options = os })) { code = code; token = token },
    ok ((length (header_bytes m n) + proc + length rest) % 2 ^ 32),
  )

  body-stored :
      (capacity : ℕ)
      → length os ≤ capacity
      → length wire < 2 ^ 32
      → decode_with_header capacity
          (body_wire token os code body mid typ)
          (record {
            token = token;
            header_length = length (header_bytes m n);
            message_length = length (header_bytes m n) + n;
            code = code;
          })
          fresh
        ≡ (m, ok (length wire))
  unfolding decode_with_header store_body
  body-stored capacity h fits =
      let (e, is_ending, len) = payload_ending body in
      let bytes = body_wire token os code body mid typ in
      let hdr : MessageHeader = record {
        token = token;
        header_length = length (header_bytes m n);
        message_length = length (header_bytes m n) + n;
        code = code;
      } in
      let read : unmarshal_options (option_defs_for code) capacity [] bytes
          ≡ (os, ok (length (options_wire 0 os) + marker_len e)) =
        rw is_ending
          (unmarshal_options-wire (option_defs_for code) capacity os e v.sorted v.legal h) in
      let dropped = drop_to_payload (options_wire 0 os) body e is_ending in
      let count : (length (header_bytes m n)
              + (length (options_wire 0 os) + marker_len e)
              + length body)
            % 2 ^ 32
          ≡ length wire =
        omega (arith, len, n-parts, length-wire, fits) in
      ap (store_body bytes hdr fresh) read
      ∙ ap (λ p. stored (length (options_wire 0 os) + marker_len e) p) dropped
      ∙ ap₂ {C = Message × Result ℕ}
          (λ (filled : Message) (k : ℕ). (record filled { code = code; token = token }, ok k))
          (set_payload-fresh body os mid typ) count

  -- From a stream of less than 2^32 bytes with the frame of such a message in front, Decode into an
  -- empty message with room for the options returns the message and the length of the frame,
  -- whatever follows it.
  pub decode-frame :
      (capacity : ℕ) (more : List ℕ)
      → length os ≤ capacity
      → length (wire ++ more) < 2 ^ 32
      → decode capacity (wire ++ more) fresh ≡ (m, ok (length wire))
  unfolding decode_frame
  decode-frame capacity more h fits =
      let hdr = header_bytes m n in
      let bytes = body_wire token os code body mid typ in
      let shape : wire ++ more ≡ hdr ++ (bytes ++ more) = append_assoc hdr bytes more in
      let total : length (wire ++ more) ≡ length wire + length more = length-append wire more in
      let enough : ltb (length (hdr ++ (bytes ++ more)) % 2 ^ 32) (length hdr + n) ≡ false =
        le→not_ltb _ _ (
          omega (
            arith,
            length-append hdr (bytes ++ more),
            length-append bytes more,
            length-wire,
            fits,
            total,
          )) in
      let span : length hdr + n - length hdr ≡ n = omega arith in
      let header_read : decode_header (wire ++ more)
          ≡ ok (record {
            token = token;
            header_length = length hdr;
            message_length = length hdr + n;
            code = code;
          }) =
        rw shape (decode_header-header m n (bytes ++ more) v.token_le v.code_lt v.body_lt) in
      decode-header_ok capacity (wire ++ more) fresh _ header_read
      ∙ rw (shape, enough, span, drop-append hdr (bytes ++ more), take-append bytes more)
          (body-stored capacity h (omega (arith, fits, total)))
