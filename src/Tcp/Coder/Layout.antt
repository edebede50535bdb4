-- ===== src/Tcp/Coder/Layout.antt =====
-- The frame of RFC 8323, section 3.2, byte by byte, and that Encode of tcp/coder/coder.go writes it.
use mathlib.Core.Path.{subst}
use go_coap.Message.Writer.{Buffer, buffer_len}
use go_coap.Message.Defs.{CoapOption}
use go_coap.Message.Wire.{options_wire}
use go_coap.Udp.Coder.Layout.{payload_layout, payload_wire-layout}
use go_coap.Tcp.Coder.{message_max_len, get_header, written, buffer_too_small, header_bytes, encode}
use go_coap.Tcp.Coder.Frame.{first_byte_lem}
use go_coap.Tcp.Coder.RoundTrip.{message, IsFrame, body_wire, frame, encode-frame}
use go_coap.Prelude.{ltb, leb, if◌then◌else◌}
use go_coap.Prelude.{length}
use go_coap.Prelude.{ℤ}
use go_coap.Prelude.{ℕ, ◌+◌, ◌-◌, ◌*◌, ◌/◌, ◌%◌, ◌<◌}
use go_coap.Prelude.{◌≡◌, ap, ◌∙◌}
use go_coap.Prelude.{List, [], ◌∷◌, ◌++◌, append_assoc, arith}

-- Lengths up to 12 stand in the first byte; 13, 14 and 15 announce one, two or four bytes with what
-- the length has above the ones before.
abbrev pub length_nibble : ℕ → ℕ
length_nibble n = if ltb n 13 then n else if ltb n 269 then 13 else if ltb n 65805 then 14 else 15

abbrev pub big_endian2 : ℕ → List ℕ
big_endian2 k = (k / 256) ∷ (k % 256) ∷ []

abbrev pub big_endian4 : ℕ → List ℕ
big_endian4 k = (k / 16777216) ∷ (k / 65536 % 256) ∷ (k / 256 % 256) ∷ (k % 256) ∷ []

abbrev pub length_extension : ℕ → List ℕ
length_extension n =
    if ltb n 13
    then []
    else if ltb n 269
    then (n - 13) ∷ []
    else if ltb n 65805
    then big_endian2 (n - 269)
    else big_endian4 (n - 65805)

get_header-layout :
    (n : ℕ) → n < message_max_len → get_header n ≡ (length_nibble n, length_extension n)
unfolding get_header
get_header-layout n h = ground arith

module _ (token : List ℕ) (os : List CoapOption) (code : ℕ) (body : List ℕ) (mid typ : ℤ) where
  abbrev pub body_layout : List ℕ
  body_layout = options_wire 0 os ++ payload_layout body

  -- The length of the options and the payload with that of the token, the extended length, the code,
  -- the token, the options and the payload.
  abbrev pub frame_layout : List ℕ
  frame_layout =
      (length_nibble (length body_layout) * 16 + length token)
      ∷ (length_extension (length body_layout) ++ (code ∷ (token ++ body_layout)))

  module _ (v : IsFrame token os code body mid typ) where
    frame-layout : frame token os code body mid typ ≡ frame_layout
    unfolding header_bytes
    frame-layout =
        let same_body : body_wire token os code body mid typ ≡ body_layout =
          ap (λ t. options_wire 0 os ++ t) (payload_wire-layout body) in
        let n = length body_layout in
        let below : n < message_max_len =
          subst (λ b. length b < message_max_len) same_body v.body_lt in
        let nib_lt : length_nibble n < 16 = ground arith in
        let code_byte : code % 256 ≡ code = omega (arith, v.code_lt) in
        rw
          (
            same_body,
            get_header-layout n below,
            first_byte_lem (length token) (length_nibble n) v.token_le nib_lt,
            code_byte,
          )
          (ap (λ t. (length_nibble n * 16 + length token) ∷ t)
            (append_assoc (length_extension n) (code ∷ token) body_layout))

    -- For a message with a code of a byte, a token of up to eight bytes, options in order that the
    -- receiver keeps and a body below the limit of the code, Encode writes the frame of RFC 8323: the
    -- byte with the length of the options and the payload and that of the token, the extended length,
    -- the code, the token, the options in their wire format, and the marker with the payload if there
    -- is one. A buffer without room for all of it is refused with the room needed.
    pub encode-frame_layout :
        (buf : Buffer)
        → encode buf (message token os code body mid typ) ≡ (
            if leb (length frame_layout) (buffer_len buf)
            then written (length frame_layout) frame_layout
            else buffer_too_small (length frame_layout))
    encode-frame_layout buf =
        encode-frame token os code body mid typ v buf
        ∙ ap
            (λ (w : List ℕ).
              if leb (length w) (buffer_len buf)
              then written (length w) w
              else buffer_too_small (length w))
            frame-layout
