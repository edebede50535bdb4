-- ===== src/Message/Wire.antt =====
-- The wire format of options (RFC 7252, section 3.1), in plain arithmetic, and that Options.Marshal
-- of message/options.go writes it.
use go_coap.Prelude.{ltb, ◌==◌, if◌then◌else◌, ==→eq, all_below, all_below_sound}
use go_coap.Prelude.{length, All}
use go_coap.Prelude.{put_uint16, pos, sub_ℕ}
use go_coap.Prelude.{ℕ, ◌+◌, ◌-◌, ◌*◌, ◌%◌, ◌≤◌, ◌<◌, bit_or}
use go_coap.Prelude.{◌≡◌, refl, sym, ap, ◌∙◌, true}
use go_coap.Prelude.{List, [], ◌∷◌, ◌++◌, append-nil, append_assoc, arith}
use go_coap.Message.Writer.{
  Buffer, nil, of_len, finish, fit, cursor, cursor-start, cursor-advance, outcome, advance-outcome,
  start-fit, start-outcome,
}
use go_coap.Message.Defs.{CoapOption}
use go_coap.Message.Marshal.{
  extend_opt, marshal_option_header_ext, marshal_first_byte, marshal_option_header, marshal_value,
  marshal_option, check_room, marshal_loop, marshal_options,
}

unfoldable pub nibble : ℕ → ℕ
nibble n = if ltb n 13 then n else if ltb n 269 then 13 else 14

unfoldable pub extension : ℕ → List ℕ
extension n = if ltb n 13 then [] else if ltb n 269 then (n - 13) ∷ [] else put_uint16 (n - 269)

unfoldable pub first_byte_wire : ℕ → ℕ → ℕ
unfolding nibble
first_byte_wire delta len = nibble delta * 16 + nibble len

unfoldable pub option_wire : ℕ → CoapOption → List ℕ
option_wire prev o =
    first_byte_wire (o.id - prev) (length o.value)
    ∷ (extension (o.id - prev) ++ (extension (length o.value) ++ o.value))

unfoldable pub options_wire : ℕ → List CoapOption → List ℕ
options_wire prev [] = []
options_wire prev (o ∷ os) = option_wire prev o ++ options_wire o.id os

-- Options that stand in the order of their numbers, from `prev` on.
abbrev pub IsSortedFrom : ℕ → List CoapOption → Type 0
IsSortedFrom prev [] = Unit {0}
IsSortedFrom prev (o ∷ os) = (prev ≤ o.id) × IsSortedFrom o.id os

-- What the wire format can carry: numbers of 16 bits, values of up to 65804 bytes.
abbrev pub IsEncodable : CoapOption → Type 0
IsEncodable o = (o.id < 65536) × (length o.value < 65805)

or_table :
    all_below 15 (λ d. all_below 15 (λ l. bit_or ((d * 16) % 256) (l % 256) == d * 16 + l)) ≡ true
unfolding all_below
or_table = refl

or_nibbles : (d l : ℕ) → d < 15 → l < 15 → bit_or ((d * 16) % 256) (l % 256) ≡ d * 16 + l
or_nibbles d l hd hl = ==→eq _ _ (
    all_below_sound 15 (λ l. bit_or ((d * 16) % 256) (l % 256) == d * 16 + l) l
      (all_below_sound 15 (λ d. all_below 15 (λ l. bit_or ((d * 16) % 256) (l % 256) == d * 16 + l))
        d or_table hd)
      hl)

pub nibble_lt : (n : ℕ) → nibble n < 15
unfolding nibble
nibble_lt n = ground arith

first-extend_opt : (n : ℕ) → (extend_opt (pos n)).0 ≡ pos (nibble n)
unfolding extend_opt nibble
first-extend_opt n = ground arith

ext-fit :
    (b : Buffer) (n : ℕ)
    → n < 65805
    → marshal_option_header_ext b (pos (nibble n)) (extend_opt (pos n)).1 ≡ fit b (extension n)
unfolding extend_opt marshal_option_header_ext nibble extension
ext-fit b n h = ground arith

first_byte-fit :
    (b : Buffer) (delta len : ℕ)
    → marshal_first_byte b (pos (nibble delta)) (pos (nibble len))
      ≡ fit b (first_byte_wire delta len ∷ [])
unfolding marshal_first_byte first_byte_wire
first_byte-fit b delta len =
    rw (or_nibbles (nibble delta) (nibble len) (nibble_lt delta) (nibble_lt len)) (ground arith)

-- The header, and then the value.
header-outcome :
    (b : Buffer) (delta len : ℕ)
    → delta < 65805
    → len < 65805
    → marshal_option_header b (pos delta) len
      ≡ outcome b (first_byte_wire delta len ∷ [] ++ extension delta ++ extension len)
unfolding marshal_option_header
header-outcome b delta len hd hl = rw (
  first-extend_opt delta,
  first-extend_opt len,
  first_byte-fit b delta len,
  start-fit b (first_byte_wire delta len ∷ []),
  ext-fit _ delta hd,
  cursor-advance b,
  ext-fit _ len hl,
  cursor-advance b,
)

value-fit : (o : CoapOption) (b : Buffer) → marshal_value o b ≡ fit b o.value
unfolding marshal_value
value-fit o b = ground arith

option_wire_shape :
    (prev : ℕ) (o : CoapOption)
    → (first_byte_wire (o.id - prev) (length o.value) ∷ []
        ++ extension (o.id - prev)
        ++ extension (length o.value)
        ++ o.value)
      ≡ option_wire prev o
unfolding option_wire
option_wire_shape prev o = simp append_assoc

delta_eq : (id prev : ℕ) → prev ≤ id → sub_ℕ id prev ≡ pos (id - prev)
delta_eq id prev h = ground arith

option-outcome :
    (b : Buffer) (o : CoapOption) (prev : ℕ)
    → prev ≤ o.id
    → IsEncodable o
    → marshal_option o b prev ≡ outcome b (option_wire prev o)
unfolding marshal_option
option-outcome b o prev h (hid, hlen) = rw (
  delta_eq o.id prev h,
  header-outcome b (o.id - prev) (length o.value) (omega arith) hlen,
  start-outcome b,
  value-fit o,
  cursor-advance b,
  option_wire_shape prev o,
)

check_room-cursor : (b : Buffer) (w : List ℕ) → check_room (cursor b w) ≡ cursor b w
unfolding cursor
check_room-cursor nil w = refl
check_room-cursor (of_len k) w = ground arith

loop-cursor :
    (b : Buffer) (w : List ℕ) (prev : ℕ) (os : List CoapOption)
    → IsSortedFrom prev os
    → All IsEncodable os
    → marshal_loop (cursor b w) prev os ≡ cursor b (w ++ options_wire prev os)
unfolding marshal_loop options_wire
loop-cursor b w prev [] s e = ap (cursor b) (sym (append-nil w))
loop-cursor b w prev (o ∷ os) (h, s) (e, es) =
    rw
      (check_room-cursor b w, option-outcome _ o prev h e, advance-outcome b w (option_wire prev o))
      (loop-cursor b (w ++ option_wire prev o) o.id os s es
        ∙ ap (cursor b) (append_assoc w (option_wire prev o) (options_wire o.id os)))

-- For options in order that the format can carry, Options.Marshal writes their wire form when the
-- buffer is not nil and has room for it. Otherwise it reports ErrTooSmall with the length of the
-- wire form, whatever the buffer.
pub marshal_options-wire :
    (b : Buffer) (os : List CoapOption)
    → IsSortedFrom 0 os
    → All IsEncodable os
    → marshal_options b os ≡ outcome b (options_wire 0 os)
unfolding marshal_options
marshal_options-wire b os s e = rw (cursor-start b) (ap finish (loop-cursor b [] 0 os s e))
