-- ===== src/Udp/Coder/Layout.antt =====
-- The datagram of RFC 7252, section 3, byte by byte, and that Encode of udp/coder/coder.go writes it.
use go_coap.Message.Writer.{Buffer, buffer_len}
use go_coap.Message.Defs.{CoapOption}
use go_coap.Message.Wire.{options_wire}
use go_coap.Udp.Coder.{payload_wire, written, buffer_too_small, header, encode}
use go_coap.Udp.Coder.RoundTrip.{message, IsDatagram, datagram, first_byte_lem, encode-datagram}
use go_coap.Prelude.{leb, if◌then◌else◌}
use go_coap.Prelude.{length}
use go_coap.Prelude.{pos}
use go_coap.Prelude.{ℕ, ◌+◌, ◌*◌, ◌/◌, ◌%◌}
use go_coap.Prelude.{◌≡◌, refl, ap, ◌∙◌}
use go_coap.Prelude.{List, [], ◌∷◌, ◌++◌, arith}

-- A payload stands behind a marker, an empty one is left out with it.
abbrev pub payload_layout : List ℕ → List ℕ
payload_layout [] = []
payload_layout (b ∷ bs) = 0xff ∷ b ∷ bs

pub payload_wire-layout : (body : List ℕ) → payload_wire body ≡ payload_layout body
payload_wire-layout [] = refl
payload_wire-layout (b ∷ bs) = refl

module _ (token : List ℕ) (os : List CoapOption) (code : ℕ) (body : List ℕ) (mid typ : ℕ) where
  -- Version 1 with the type and the length of the token, the code, the id with its high byte first,
  -- the token, the options and the payload.
  abbrev pub datagram_layout : List ℕ
  datagram_layout =
      (64 + typ * 16 + length token)
      ∷ code
      ∷ (mid / 256)
      ∷ (mid % 256)
      ∷ (token ++ (options_wire 0 os ++ payload_layout body))

  module _ (v : IsDatagram token os code body mid typ) where
    datagram-layout : datagram token os code body mid typ ≡ datagram_layout
    unfolding header
    datagram-layout =
        let code_byte : code % 256 ≡ code = omega (arith, v.code_lt) in
        let high : mid / 256 % 256 ≡ mid / 256 = omega (arith, v.mid_lt) in
        rw
          (
            first_byte_lem typ (length token) v.typ_lt v.token_le,
            code_byte,
            high,
            payload_wire-layout body,
          )
          refl

    -- For a message with a type of two bits, a code of a byte, an id of 16 bits, a token of up to eight
    -- bytes and options in order that the receiver keeps, Encode writes the datagram of RFC 7252: the
    -- byte with version 1, the type and the length of the token, the code, the id with its high byte
    -- first, the token, the options in their wire format, and the marker with the payload if there is
    -- one. A buffer without room for all of it is refused with the room needed.
    pub encode-datagram_layout :
        (buf : Buffer)
        → encode buf (message token os code body mid typ) ≡ (
            if leb (length datagram_layout) (buffer_len buf)
            then written (pos (length datagram_layout)) datagram_layout
            else buffer_too_small (pos (length datagram_layout)))
    encode-datagram_layout buf =
        encode-datagram token os code body mid typ v buf
        ∙ ap
            (λ (w : List ℕ).
              if leb (length w) (buffer_len buf)
              then written (pos (length w)) w
              else buffer_too_small (pos (length w)))
            datagram-layout
