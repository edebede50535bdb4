-- ===== src/Udp/Coder/RoundTrip.antt =====
-- What Encode of udp/coder/coder.go writes, Decode reads.
use go_coap.Message.Fault.{ok}
use go_coap.Message.Writer.{Buffer, nil, of_len, buffer_len, outcome-nil, outcome-fits}
use go_coap.Message.Defs.{CoapOption, OptionDefs, coap_option_defs}
use go_coap.Message.Record.{Message, validate_mid, validate_type}
use go_coap.Message.Unmarshal.{unmarshal_options}
use go_coap.Message.Wire.{options_wire, IsSortedFrom, IsEncodable, marshal_options-wire}
use go_coap.Message.RoundTrip.{
  IsLegal, Ending, no_payload, payload, ending_wire, marker_len, unmarshal_options-wire,
}
use go_coap.Udp.Coder.{
  payload_wire, size, written, buffer_too_small, first_byte, header, encode_into, encode,
  store_body, decode_body, decode_token, decode,
}
use go_coap.Prelude.{
  leb, ◌==◌, if◌then◌else◌, leb→le, le→not_ltb, ==→eq, Bool-cases, all_below, all_below_sound,
}
use go_coap.Prelude.{length, drop, All, length-append, take-append, drop-append}
use go_coap.Prelude.{uint16, pos, ltb_ℤ}
use go_coap.Prelude.{ℕ, ◌+◌, ◌-◌, ◌*◌, ◌/◌, ◌%◌, ◌≤◌, ◌<◌}
use go_coap.Prelude.{◌≡◌, refl, sym, ap, ◌∙◌, inl, inr, true, not}
use go_coap.Prelude.{List, [], ◌∷◌, ◌++◌, append-nil, append_assoc, arith}

pub All-IsEncodable :
    (defs : OptionDefs) (os : List CoapOption) → All (IsLegal defs) os → All IsEncodable os
All-IsEncodable defs [] h = tt
All-IsEncodable defs (o ∷ os) (h, hs) = (h.encodable, All-IsEncodable defs os hs)

-- A message that a datagram can carry, by its fields.
module _ (token : List ℕ) (os : List CoapOption) (code : ℕ) (body : List ℕ) (mid typ : ℕ) where
  abbrev pub message : Message
  message = record {
    token = token;
    options = os;
    code = code;
    payload = body;
    message_id = pos mid;
    kind = pos typ;
  }

  -- Types of two bits, codes of a byte, ids of 16 bits, tokens of up to eight bytes, and options in
  -- order that the receiver keeps.
  pub record IsDatagram : Type 0 where
    pub typ_lt : typ < 4
    pub code_lt : code < 256
    pub mid_lt : mid < 65536
    pub token_le : length token ≤ 8
    pub sorted : IsSortedFrom 0 os
    pub legal : All (IsLegal coap_option_defs) os

  abbrev pub body_wire : List ℕ
  body_wire = options_wire 0 os ++ payload_wire body

  abbrev pub datagram : List ℕ
  datagram = header message ++ (token ++ body_wire)

  length-wire :
      length datagram ≡ 4 + length token + length (options_wire 0 os) + length (payload_wire body)
  unfolding header
  length-wire =
      omega (
        arith,
        length-append token body_wire,
        length-append (options_wire 0 os) (payload_wire body),
      )

mid-valid : (mid : ℕ) → mid < 65536 → validate_mid (pos mid) ≡ true
unfolding validate_mid
mid-valid mid h = ground arith

type-valid : (typ : ℕ) → typ < 4 → validate_type (pos typ) ≡ true
unfolding validate_type
type-valid typ h = ground arith

ltb_ℤ-pos : (a b : ℕ) → ltb_ℤ (pos a) (pos b) ≡ not (leb b a)
ltb_ℤ-pos a b = ground arith

first_byte_table : all_below 4 (λ t. all_below 9 (λ k. first_byte t k == 64 + t * 16 + k)) ≡ true
unfolding all_below first_byte
first_byte_table = refl

pub first_byte_lem : (t k : ℕ) → t < 4 → k ≤ 8 → first_byte t k ≡ 64 + t * 16 + k
first_byte_lem t k ht hk = ==→eq _ _ (
    all_below_sound 9 (λ k. first_byte t k == 64 + t * 16 + k) k
      (all_below_sound 4 (λ t. all_below 9 (λ k. first_byte t k == 64 + t * 16 + k)) t
        first_byte_table ht)
      (omega arith))

pub payload_ending :
    (body : List ℕ)
    → (e : Ending) × (payload_wire body ≡ ending_wire e)
      × (length (payload_wire body) ≡ marker_len e + length body)
payload_ending [] = (no_payload, refl, omega arith)
payload_ending (b ∷ bs) = (payload b bs, refl, omega arith)

drop_all : (w : List ℕ) → drop (length w) w ≡ []
drop_all [] = refl
drop_all (x ∷ w) = drop_all w

pub drop_to_payload :
    (w body : List ℕ) (e : Ending)
    → payload_wire body ≡ ending_wire e
    → drop (length w + marker_len e) (w ++ payload_wire body) ≡ body
drop_to_payload w [] no_payload h =
    rw (append-nil w) (ap (λ (n : ℕ). drop n w) (omega arith) ∙ drop_all w)
drop_to_payload w (b ∷ bs) (payload c cs) h =
    let at : length w + 1 ≡ length (w ++ 0xff ∷ []) = sym (length-append w (0xff ∷ [])) in
    rw (at, ← append_assoc w (0xff ∷ []) (b ∷ bs)) (drop-append (w ++ 0xff ∷ []) (b ∷ bs))
drop_to_payload w [] (payload c cs) h = cc
drop_to_payload w (b ∷ bs) no_payload h = cc

module _ (token : List ℕ) (os : List CoapOption) (code : ℕ) (body : List ℕ) (mid typ : ℕ)
    (v : IsDatagram token os code body mid typ) where
  abbrev m : Message
  m = message token os code body mid typ

  abbrev wire : List ℕ
  wire = datagram token os code body mid typ

  pub size-wire : size m ≡ ok (pos (length wire))
  unfolding size
  size-wire =
      rw
        (
          le→not_ltb 8 (length token) v.token_le,
          marshal_options-wire nil os v.sorted (All-IsEncodable _ os v.legal),
          outcome-nil,
        )
        (ap (λ (n : ℕ). ok (pos n)) (omega (arith, length-wire token os code body mid typ)))

  encode_into-wire :
      (k : ℕ)
      → length wire ≤ k
      → encode_into k (pos (length wire)) m ≡ written (pos (length wire)) wire
  unfolding encode_into
  encode_into-wire k h = rw (
    le→not_ltb 8 (length token) v.token_le,
    marshal_options-wire (of_len (k - 4 - length token)) os v.sorted (All-IsEncodable _ os v.legal),
    outcome-fits (k - 4 - length token) (options_wire 0 os)
        (omega (arith, length-wire token os code body mid typ)),
  )

  -- For a message that is a datagram by IsDatagram, Encode writes `datagram` if the buffer has room for
  -- it, and else reports the room needed. Layout has its bytes.
  pub encode-datagram :
      (buf : Buffer)
      → encode buf m ≡ (
          if leb (length wire) (buffer_len buf)
          then written (pos (length wire)) wire
          else buffer_too_small (pos (length wire)))
  unfolding encode
  encode-datagram buf =
      rw
        (
          mid-valid mid v.mid_lt,
          type-valid typ v.typ_lt,
          size-wire,
          ltb_ℤ-pos (buffer_len buf) (length wire),
        )
        (elim (Bool-cases (leb (length wire) (buffer_len buf))) [
          | inl e ↦ rw e (encode_into-wire (buffer_len buf) (leb→le _ _ e))
          | inr e ↦ rw e
        ])

  decode_body-wire :
      (capacity n : ℕ) (m0 : Message)
      → length os ≤ capacity
      → decode_body capacity n token (options_wire 0 os ++ payload_wire body) m0
        ≡ (record m0 { options = os; payload = body; token = token }, ok n)
  unfolding decode_body store_body
  decode_body-wire capacity n m0 h =
      let body_bytes = options_wire 0 os ++ payload_wire body in
      let (e, is_ending, len) = payload_ending body in
      let read : unmarshal_options coap_option_defs capacity []
            (options_wire 0 os ++ payload_wire body)
          ≡ (os, ok (length (options_wire 0 os) + marker_len e)) =
        rw is_ending (unmarshal_options-wire coap_option_defs capacity os e v.sorted v.legal h) in
      ap (store_body n token body_bytes m0) read
      ∙ ap (λ (p : List ℕ). (record m0 { options = os; payload = p; token = token }, ok n))
          (drop_to_payload (options_wire 0 os) body e is_ending)

  decode_token-wire :
      (capacity n : ℕ) (m0 : Message)
      → length os ≤ capacity
      → decode_token capacity n
          (length token)
          (token ++ (options_wire 0 os ++ payload_wire body))
          m0
        ≡ (record m0 { options = os; payload = body; token = token }, ok n)
  unfolding decode_token
  decode_token-wire capacity n m0 h =
      let rest = options_wire 0 os ++ payload_wire body in
      rw
        (
          le→not_ltb 8 (length token) v.token_le,
          le→not_ltb (length (token ++ rest)) (length token)
              (omega (arith, length-append token rest)),
          take-append token rest,
          drop-append token rest,
        )
        (decode_body-wire capacity n m0 h)

  -- From the bytes of a message that is a datagram by IsDatagram, Decode returns the message and the
  -- number of the bytes, whatever message it is given, if the slice of options has room for these.
  pub decode-datagram :
      (capacity : ℕ) (m0 : Message)
      → length os ≤ capacity
      → decode capacity wire m0 ≡ (m, ok (length wire))
  unfolding decode header
  decode-datagram capacity m0 h =
      let byte = first_byte_lem typ (length token) v.typ_lt v.token_le in
      let version : (first_byte typ (length token) / 64 == 1) ≡ true = ground (arith, byte) in
      let kind : first_byte typ (length token) / 16 % 4 ≡ typ =
        omega (arith, byte, v.typ_lt, v.token_le) in
      let token_len : first_byte typ (length token) % 16 ≡ length token =
        omega (arith, byte, v.token_le) in
      let code_byte : code % 256 ≡ code = omega (arith, v.code_lt) in
      let id : uint16 (mid / 256 % 256) (mid % 256) ≡ mid = omega (arith, v.mid_lt) in
      rw (version, kind, token_len, code_byte, id) (decode_token-wire capacity _ _ h)
