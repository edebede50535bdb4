-- ===== src/Tcp/Coder.antt =====
-- tcp/coder/coder.go: Size, Encode and Decode of a frame on a stream.
pub mod Frame
pub mod RoundTrip
pub mod Layout
use go_coap.Message.Fault.{
  Fault, Result, ok, err, stuck, ◌>>=◌, invalid_token_len, short_read, message_too_long,
}
use go_coap.Message.Writer.{Buffer, nil, of_len, buffer_len, done, too_small}
use go_coap.Message.Defs.{
  CoapOption, OptionDefs, coap_option_defs, tcp_signal_csm_option_defs,
  tcp_signal_ping_pong_option_defs, tcp_signal_release_option_defs, tcp_signal_abort_option_defs,
}
use go_coap.Message.Record.{Message, max_token_size}
use go_coap.Message.Marshal.{marshal_options}
use go_coap.Message.Unmarshal.{unmarshal_options}
use go_coap.Udp.Coder.{payload_wire}
use go_coap.Prelude.{ltb, ◌==◌, if◌then◌else◌}
use go_coap.Prelude.{length, take, drop}
use go_coap.Prelude.{put_uint16, put_uint32, uint16, uint32, ℤ, pos, negsuc}
use go_coap.Prelude.{ℕ, ◌+◌, ◌-◌, ◌*◌, ◌/◌, ◌%◌, ◌^◌, bit_or}
use go_coap.Prelude.{◌||◌}
use go_coap.Prelude.{List, [], ◌∷◌, ◌++◌}

abbrev pub message_max_len : ℕ
message_max_len = 0x7fff0000

-- getHeader: the length nibble and the extended length.
unfoldable pub get_header : ℕ → ℕ × List ℕ
get_header n =
    if ltb n 13
    then (n % 256, [])
    else if ltb n 269
    then (13, ((n - 13) % 256) ∷ [])
    else if ltb n 65805
    then (14, put_uint16 ((n - 269) % 65536))
    else if ltb n message_max_len
    then (15, put_uint32 ((n - 65805) % 2 ^ 32))
    else (0, [])

-- The first byte: the token length and the length nibble.
unfoldable pub first_byte : ℕ → ℕ → ℕ
first_byte token_len nib = bit_or (token_len % 256) ((nib * 16) % 256)

-- hdr[:hdrLen], for options and payload of `n` bytes
unfoldable pub header_bytes : Message → ℕ → List ℕ
header_bytes m n =
    first_byte (length m.token) (get_header n).0 ∷ ((get_header n).1 ++ ((m.code % 256) ∷ m.token))

pub data Encoded : Type 0 where
  written : ℕ → List ℕ → Encoded
  buffer_too_small : ℕ → Encoded
  -- (-1, nil): Options.Marshal(nil) did not fail
  no_size : Encoded
  failed : Fault → Encoded

-- The part of Encode behind the check of the buffer's length.
unfoldable pub encode_into : ℕ → ℕ → ℕ → Message → Encoded
encode_into room total n m =
    elim (marshal_options (of_len (room - length (header_bytes m n))) m.options) [
      | too_small k ↦ buffer_too_small total
      | done k bytes ↦ written total (header_bytes m n ++ (bytes ++ payload_wire m.payload))
    ]

unfoldable pub encode : Buffer → Message → Encoded
encode buf m =
    if ltb max_token_size (length m.token)
    then failed invalid_token_len
    else elim (marshal_options nil m.options) [
      | done k bytes ↦ no_size
      | too_small k ↦
          let n = length (payload_wire m.payload) + k in
          let total = n + length (header_bytes m n) in
          if ltb (buffer_len buf) total
          then buffer_too_small total
          else encode_into (buffer_len buf) total n m
    ]

-- Size is Encode into a nil buffer, with ErrTooSmall taken for success.
unfoldable pub size : Message → Result ℤ
size m = elim (encode nil m) [
  | written n bytes ↦ ok (pos n)
  | buffer_too_small n ↦ ok (pos n)
  | no_size ↦ ok (negsuc 0)
  | failed e ↦ err e
]

-- MessageHeader: `length` is the header's own length.
pub record MessageHeader : Type 0 where
  pub token : List ℕ
  pub header_length : ℕ
  pub message_length : ℕ
  pub code : ℕ

-- The extended length: its value with the addend, its bytes, and what follows.
abbrev pub ExtLength : Type 0
ExtLength = ℕ × ℕ × List ℕ

abbrev ext_byte : List ℕ → Result ExtLength
ext_byte (a ∷ rest) = ok (13 + a, 1, rest)
ext_byte [] = err short_read

abbrev ext_word : List ℕ → Result ExtLength
ext_word (a ∷ b ∷ rest) = ok (269 + uint16 a b, 2, rest)
ext_word _ = err short_read

abbrev ext_long : List ℕ → Result ExtLength
ext_long (a ∷ b ∷ c ∷ d ∷ rest) = ok (65805 + uint32 a b c d, 4, rest)
ext_long _ = err short_read

unfoldable pub read_ext_length : ℕ → List ℕ → Result ExtLength
read_ext_length nib bytes =
    if ltb nib 13
    then ok (nib, 0, bytes)
    else if nib == 13
    then ext_byte bytes
    else if nib == 14
    then ext_word bytes
    else ext_long bytes

abbrev pub code_and_token : ℕ → ℕ → ℕ → List ℕ → Result MessageHeader
code_and_token tkl ext total [] = err short_read
code_and_token tkl ext total (code ∷ rest) =
    if ltb (length rest) tkl
    then err short_read
    else ok (record {
      token = take tkl rest;
      header_length = (1 + ext) + 1 + tkl;
      message_length = total;
      code = code;
    })

-- The part of DecodeHeader behind the extended length.
unfoldable pub finish_header : ℕ → ExtLength → Result MessageHeader
finish_header tkl (op_len, ext, bytes) =
    let total = (1 + ext) + 1 + tkl + op_len in
    if ltb (2 ^ 32 - 1) total then err message_too_long else code_and_token tkl ext total bytes

-- DecodeHeader: what a failed call leaves in `h` is not modelled.
unfoldable pub decode_header : List ℕ → Result MessageHeader
decode_header [] = err short_read
decode_header (b0 ∷ bytes) =
    if ltb max_token_size (b0 % 16)
    then err invalid_token_len
    else do ext ← read_ext_length (b0 / 16) bytes; finish_header (b0 % 16) ext

-- The switch on the code: CSM, Ping and Pong, Release, Abort.
unfoldable pub option_defs_for : ℕ → OptionDefs
option_defs_for code =
    if code == 225
    then tcp_signal_csm_option_defs
    else if (code == 226) || (code == 227)
    then tcp_signal_ping_pong_option_defs
    else if code == 228
    then tcp_signal_release_option_defs
    else if code == 229
    then tcp_signal_abort_option_defs
    else coap_option_defs

-- `if len(data) > 0 { m.Payload = data }`
abbrev pub set_payload : List ℕ → Message → Message
set_payload [] m = m
set_payload (b ∷ bs) m = record m { payload = b ∷ bs }

unfoldable pub store_body :
    List ℕ → MessageHeader → Message → List CoapOption × Result ℕ → Message × Result ℕ
store_body bytes h m (options, err e) = (record m { options = options }, err e)
store_body bytes h m (options, stuck) = (record m { options = options }, stuck)
store_body bytes h m (options, ok proc) =
    let rest = drop proc bytes in
    (
      record (set_payload rest (record m { options = options })) { code = h.code; token = h.token },
      ok ((h.header_length + proc + length rest) % 2 ^ 32),
    )

-- DecodeWithHeader: options are appended to those that `m` has. `capacity` is that of m.Options.
unfoldable pub decode_with_header : ℕ → List ℕ → MessageHeader → Message → Message × Result ℕ
decode_with_header capacity bytes h m =
    store_body bytes h m (unmarshal_options (option_defs_for h.code) capacity m.options bytes)

-- Decode, once the header has been read
unfoldable pub decode_frame : ℕ → List ℕ → Message → MessageHeader → Message × Result ℕ
decode_frame capacity bytes m h =
    if ltb (length bytes % 2 ^ 32) h.message_length
    then (m, err short_read)
    else decode_with_header capacity
        (take (h.message_length - h.header_length) (drop h.header_length bytes)) h m

unfoldable pub decode : ℕ → List ℕ → Message → Message × Result ℕ
decode capacity bytes m = elim (decode_header bytes) [
  | err e ↦ (m, err e)
  | stuck ↦ (m, stuck)
  | ok h ↦ decode_frame capacity bytes m h
]
