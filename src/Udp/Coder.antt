-- ===== src/Udp/Coder.antt =====
-- udp/coder/coder.go: Size, Encode and Decode of a datagram.
pub mod RoundTrip
pub mod Layout
use go_coap.Message.Fault.{
  Fault, Result, ok, err, stuck, invalid_token_len, invalid_message_id, invalid_type,
  message_truncated, message_invalid_version,
}
use go_coap.Message.Writer.{Buffer, nil, of_len, buffer_len, done, too_small}
use go_coap.Message.Defs.{CoapOption, coap_option_defs}
use go_coap.Message.Record.{Message, max_token_size, validate_mid, validate_type}
use go_coap.Message.Marshal.{marshal_options}
use go_coap.Message.Unmarshal.{unmarshal_options}
use go_coap.Prelude.{ltb, ◌==◌, if◌then◌else◌}
use go_coap.Prelude.{length, take, drop}
use go_coap.Prelude.{put_uint16, uint16, ℤ, pos, negsuc, pos_part, ltb_ℤ}
use go_coap.Prelude.{ℕ, ◌+◌, ◌-◌, ◌*◌, ◌/◌, ◌%◌, bit_and, bit_or}
use go_coap.Prelude.{not}
use go_coap.Prelude.{List, [], ◌∷◌, ◌++◌}

-- The marker and the payload, if there is one.
abbrev pub payload_wire : List ℕ → List ℕ
payload_wire [] = []
payload_wire (b ∷ bs) = 0xff ∷ b ∷ bs

-- Size: Options.Marshal(nil) is to fail with ErrTooSmall; should it succeed, the code returns -1 and
-- that nil error.
unfoldable pub size : Message → Result ℤ
size m =
    if ltb max_token_size (length m.token)
    then err invalid_token_len
    else elim (marshal_options nil m.options) [
      | too_small n ↦ ok (pos (4 + length m.token + (length (payload_wire m.payload) + n)))
      | done n bytes ↦ ok (negsuc 0)
    ]

pub data Encoded : Type 0 where
  written : ℤ → List ℕ → Encoded
  buffer_too_small : ℤ → Encoded
  failed : Fault → Encoded
  no_end : Encoded

-- buf[0], for a type in the range of a byte
unfoldable pub first_byte : ℕ → ℕ → ℕ
first_byte typ token_len = bit_or (bit_or 64 ((typ * 16) % 256)) (bit_and 0xf token_len)

unfoldable pub header : Message → List ℕ
header m =
    first_byte (pos_part m.kind) (length m.token)
    ∷ (m.code % 256)
    ∷ put_uint16 (pos_part m.message_id)

-- The part of Encode that writes.
unfoldable pub encode_into : ℕ → ℤ → Message → Encoded
encode_into room n m =
    if ltb max_token_size (length m.token)
    then failed invalid_token_len
    else elim (marshal_options (of_len (room - 4 - length m.token)) m.options) [
      | too_small k ↦ buffer_too_small n
      | done k bytes ↦ written n (header m ++ (m.token ++ (bytes ++ payload_wire m.payload)))
    ]

unfoldable pub encode : Buffer → Message → Encoded
encode buf m =
    if not (validate_mid m.message_id)
    then failed invalid_message_id
    else if not (validate_type m.kind)
    then failed invalid_type
    else elim (size m) [
      | err e ↦ failed e
      | stuck ↦ no_end
      | ok n ↦
          if ltb_ℤ (pos (buffer_len buf)) n
          then buffer_too_small n
          else encode_into (buffer_len buf) n m
    ]

-- What Decode stores once Options.Unmarshal has read `bytes`.
unfoldable pub store_body :
    ℕ → List ℕ → List ℕ → Message → List CoapOption × Result ℕ → Message × Result ℕ
store_body n token bytes m (options, err e) = (record m { options = options }, err e)
store_body n token bytes m (options, stuck) = (record m { options = options }, stuck)
store_body n token bytes m (options, ok proc) =
    (record m { options = options; payload = drop proc bytes; token = token }, ok n)

-- The part of Decode behind the token. `capacity` is that of m.Options.
unfoldable pub decode_body : ℕ → ℕ → List ℕ → List ℕ → Message → Message × Result ℕ
decode_body capacity n token bytes m =
    store_body n token bytes m (unmarshal_options coap_option_defs capacity [] bytes)

unfoldable pub decode_token : ℕ → ℕ → ℕ → List ℕ → Message → Message × Result ℕ
decode_token capacity n token_len bytes m =
    if ltb 8 token_len
    then (m, err invalid_token_len)
    else if ltb (length bytes) token_len
    then (m, err message_truncated)
    else decode_body capacity n (take token_len bytes) (drop token_len bytes) m

-- Decode: the message comes back beside an error too, with what was written to it by then.
unfoldable pub decode : ℕ → List ℕ → Message → Message × Result ℕ
decode capacity (b0 ∷ b1 ∷ b2 ∷ b3 ∷ bytes) m =
    if not (b0 / 64 == 1)
    then (m, err message_invalid_version)
    else decode_token capacity (length (b0 ∷ b1 ∷ b2 ∷ b3 ∷ bytes)) (b0 % 16) bytes (record {
      token = [];
      options = [];
      code = b1;
      payload = [];
      message_id = pos (uint16 b2 b3);
      kind = pos (b0 / 16 % 4);
    })
decode capacity [] m = (m, err message_truncated)
decode capacity (b0 ∷ []) m = (m, err message_truncated)
decode capacity (b0 ∷ b1 ∷ []) m = (m, err message_truncated)
decode capacity (b0 ∷ b1 ∷ b2 ∷ []) m = (m, err message_truncated)
