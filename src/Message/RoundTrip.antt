-- ===== src/Message/RoundTrip.antt =====
-- What Options.Marshal writes, Options.Unmarshal reads back (message/options.go).
use go_coap.Message.Fault.{Result, ok}
use go_coap.Message.Defs.{CoapOption, OptionDef, OptionDefs, value_unknown, lookup_def}
use go_coap.Message.Unmarshal.{
  parse_ext_opt, fails_def, is_skipped, unmarshal_option, cast_option_id, read_value, read_option,
  append_known, unmarshal_loop, unmarshal_options,
}
use go_coap.Message.Wire.{
  nibble, extension, first_byte_wire, option_wire, options_wire, IsSortedFrom, IsEncodable,
  nibble_lt,
}
use go_coap.Prelude.{ltb, ◌==◌, lt→not_leb, le→not_ltb, ne→not==, Option-cases}
use go_coap.Prelude.{length, All, length-append, take-append, drop-append}
use go_coap.Prelude.{ℕ, zero, suc, ◌+◌, ◌-◌, ◌/◌, ◌%◌, ◌≤◌, ◌<◌}
use go_coap.Prelude.{◌≡◌, refl, sym, ap, ap₂, ◌∙◌, ◌≢◌, ◌⊎◌, inl, inr, false}
use go_coap.Prelude.{some, List, [], ◌∷◌, ◌++◌, append-nil, append_assoc, arith}

-- The bounds that a known option with an even number has to meet.
abbrev pub MeetsDef : ℕ → ℕ → OptionDef → Type 0
MeetsDef id len d =
    (d.value_format ≢ value_unknown) × ((id % 2 ≡ 1) ⊎ ((d.min_len ≤ len) × (len ≤ d.max_len)))

-- An option that a receiver with these definitions keeps: not number 0, of a known format, and
-- either critical or within its length bounds.
pub record IsLegal (defs : OptionDefs) (o : CoapOption) : Type 0 where
  pub encodable : IsEncodable o
  pub nonzero : 0 < o.id
  pub meets : (d : OptionDef) → lookup_def o.id defs ≡ some d → MeetsDef o.id (length o.value) d

meets-passes : (id len : ℕ) (d : OptionDef) → MeetsDef id len d → fails_def id len d ≡ false
unfolding fails_def
meets-passes id len d m = ground arith

legal-kept :
    (defs : OptionDefs) (o : CoapOption) → IsLegal defs o → is_skipped defs o.id o.value ≡ false
unfolding is_skipped
legal-kept defs o l = elim (Option-cases (lookup_def o.id defs)) [
  | inl e ↦ rw (e, is_skipped)
  | inr (d, e) ↦ rw (e, is_skipped) (meets-passes o.id (length o.value) d (l.meets d e))
]

parse-extension :
    (n : ℕ) (rest : List ℕ)
    → n < 65805
    → parse_ext_opt (extension n ++ rest) (nibble n) ≡ ok (length (extension n), n)
unfolding parse_ext_opt extension nibble
parse-extension n rest h = ground arith

value_read :
    (defs : OptionDefs) (o : CoapOption) (prev : ℕ) (tail : List ℕ)
    → IsLegal defs o
    → prev ≤ o.id
    → read_value defs prev (o.id - prev) (length o.value) (o.value ++ tail)
      ≡ ok (record { id = o.id; option = o; count = length o.value; rest = tail })
unfolding read_value cast_option_id unmarshal_option
value_read defs o prev tail l h =
    let fits : ltb (length (o.value ++ tail)) (length o.value) ≡ false =
      le→not_ltb _ _ (omega (arith, length-append o.value tail)) in
    let whole : prev + (o.id - prev) ≡ o.id = omega arith in
    let small : ltb 65535 o.id ≡ false = le→not_ltb _ _ (omega (arith, l.encodable.0)) in
    rw (fits, whole, small, take-append o.value tail, legal-kept defs o l, drop-append o.value tail)

-- The bytes of one option behind its first byte.
abbrev after_first : ℕ → CoapOption → List ℕ → List ℕ
after_first prev o tail =
    extension (o.id - prev) ++ (extension (length o.value) ++ (o.value ++ tail))

first_byte-high : (d n : ℕ) → first_byte_wire d n / 16 ≡ nibble d
unfolding first_byte_wire
first_byte-high d n = omega (arith, nibble_lt n)

first_byte-low : (d n : ℕ) → first_byte_wire d n % 16 ≡ nibble n
unfolding first_byte_wire
first_byte-low d n = omega (arith, nibble_lt n)

length-option_wire :
    (prev : ℕ) (o : CoapOption)
    → 1 + length (extension (o.id - prev)) + length (extension (length o.value)) + length o.value
      ≡ length (option_wire prev o)
unfolding option_wire
length-option_wire prev o =
    rw (length-append (extension (o.id - prev)), length-append (extension (length o.value)))
      (omega arith)

option_read :
    (defs : OptionDefs) (o : CoapOption) (prev : ℕ) (tail : List ℕ)
    → IsLegal defs o
    → prev ≤ o.id
    → read_option defs prev
        (first_byte_wire (o.id - prev) (length o.value))
        (after_first prev o tail)
      ≡ ok (record { id = o.id; option = o; count = length (option_wire prev o); rest = tail })
unfolding read_option
option_read defs o prev tail l h =
    let d = o.id - prev in
    let n = length o.value in
    let tail2 = o.value ++ tail in
    let hd : d < 65805 = omega (arith, l.encodable.0) in
    let not_high : (nibble d == 15) ≡ false = ne→not== _ _ (omega (arith, nibble_lt d)) in
    let not_low : (nibble n == 15) ≡ false = ne→not== _ _ (omega (arith, nibble_lt n)) in
    rw (
      first_byte-high d n,
      first_byte-low d n,
      not_high,
      not_low,
      parse-extension d (extension n ++ tail2) hd,
      drop-append (extension d) (extension n ++ tail2),
      parse-extension n tail2 l.encodable.1,
      drop-append (extension n) tail2,
      value_read defs o prev tail l h,
      length-option_wire prev o,
    )

first_byte-ne_marker : (d n : ℕ) → (first_byte_wire d n == 0xff) ≡ false
unfolding first_byte_wire
first_byte-ne_marker d n = ne→not== _ _ (omega (arith, nibble_lt d, nibble_lt n))

wire_before_tail :
    (prev : ℕ) (o : CoapOption) (tail : List ℕ)
    → option_wire prev o ++ tail
      ≡ first_byte_wire (o.id - prev) (length o.value) ∷ after_first prev o tail
unfolding option_wire
wire_before_tail prev o tail = simp append_assoc

append_nonzero :
    (options : List CoapOption) (o : CoapOption)
    → 0 < o.id
    → append_known options o ≡ options ++ o ∷ []
append_nonzero options o h = rw (ne→not== o.id 0 (omega arith))

-- One round of the loop on one option's wire form.
round :
    (fuel : ℕ) (defs : OptionDefs) (capacity : ℕ) (options : List CoapOption) (prev processed : ℕ)
    (o : CoapOption) (tail : List ℕ)
    → IsLegal defs o
    → prev ≤ o.id
    → length options < capacity
    → unmarshal_loop (suc fuel) defs capacity options prev processed (option_wire prev o ++ tail)
      ≡ unmarshal_loop fuel defs capacity
          (options ++ o ∷ [])
          o.id
          (processed + length (option_wire prev o))
          tail
unfolding unmarshal_loop
round fuel defs capacity options prev processed o tail l h room =
    rw
      (
        wire_before_tail prev o tail,
        unmarshal_loop,
        first_byte-ne_marker (o.id - prev) (length o.value),
        option_read defs o prev tail l h,
        lt→not_leb capacity (length options) room,
      )
      (ap
        (λ (os : List CoapOption).
          unmarshal_loop fuel defs capacity os o.id (processed + length (option_wire prev o)) tail)
        (append_nonzero options o l.nonzero))

-- What may stand behind the options: nothing, or the payload marker and a payload.
pub data Ending : Type 0 where
  no_payload : Ending
  payload : ℕ → List ℕ → Ending

abbrev pub ending_wire : Ending → List ℕ
ending_wire no_payload = []
ending_wire (payload b bs) = 0xff ∷ b ∷ bs

-- the marker counts as read, the payload does not
abbrev pub marker_len : Ending → ℕ
marker_len no_payload = 0
marker_len (payload b bs) = 1

loop_end :
    (fuel : ℕ) (defs : OptionDefs) (capacity : ℕ) (options : List CoapOption) (prev processed : ℕ)
    (e : Ending)
    → marker_len e ≤ fuel
    → unmarshal_loop fuel defs capacity options prev processed (ending_wire e)
      ≡ (options, ok (processed + marker_len e))
unfolding unmarshal_loop
loop_end zero defs capacity options prev processed no_payload h =
    ap (λ (k : ℕ). (options, ok k)) (omega arith)
loop_end (suc fuel) defs capacity options prev processed no_payload h =
    ap (λ (k : ℕ). (options, ok k)) (omega arith)
loop_end zero defs capacity options prev processed (payload b bs) h = absurd (omega arith)
loop_end (suc fuel) defs capacity options prev processed (payload b bs) h = refl

wire-cons :
    (prev : ℕ) (o : CoapOption) (os : List CoapOption) (tail : List ℕ)
    → options_wire prev (o ∷ os) ++ tail ≡ option_wire prev o ++ (options_wire o.id os ++ tail)
unfolding options_wire
wire-cons prev o os tail = append_assoc (option_wire prev o) (options_wire o.id os) tail

length-wire-cons :
    (prev : ℕ) (o : CoapOption) (os : List CoapOption)
    → length (options_wire prev (o ∷ os))
      ≡ length (option_wire prev o) + length (options_wire o.id os)
unfolding options_wire
length-wire-cons prev o os = length-append (option_wire prev o) (options_wire o.id os)

loop-wire :
    (fuel : ℕ) (defs : OptionDefs) (capacity : ℕ) (options : List CoapOption) (prev processed : ℕ)
    (os : List CoapOption) (e : Ending)
    → IsSortedFrom prev os
    → All (IsLegal defs) os
    → length options + length os ≤ capacity
    → length os + marker_len e ≤ fuel
    → unmarshal_loop fuel defs capacity options prev processed
        (options_wire prev os ++ ending_wire e)
      ≡ (options ++ os, ok (processed + length (options_wire prev os) + marker_len e))
loop-wire fuel defs capacity options prev processed [] e s l room h =
    unfold options_wire in
    loop_end fuel defs capacity options prev processed e (omega arith)
    ∙ ap₂ {C = List CoapOption × Result ℕ} (λ os k. (os, ok k)) (sym (append-nil options))
        (omega arith)
loop-wire zero defs capacity options prev processed (o ∷ os) e s l room h = absurd (omega arith)
loop-wire (suc fuel) defs capacity options prev processed (o ∷ os) e (hs, s) (l, ls) room h =
    let n = length (option_wire prev o) in
    rw
      (
        wire-cons prev o os (ending_wire e),
        round fuel defs capacity options prev processed o (options_wire o.id os ++ ending_wire e) l
            hs (omega arith),
      )
      (loop-wire fuel defs capacity (options ++ o ∷ []) o.id (processed + n) os e s ls
          (omega (arith, length-append options (o ∷ []))) (omega arith)
        ∙ ap₂ {C = List CoapOption × Result ℕ} (λ os k. (os, ok k))
            (append_assoc options (o ∷ []) os) (omega (arith, length-wire-cons prev o os)))

option_wire-nonempty : (prev : ℕ) (o : CoapOption) → 1 ≤ length (option_wire prev o)
unfolding option_wire
option_wire-nonempty prev o = omega arith

pub length-le-wire : (prev : ℕ) (os : List CoapOption) → length os ≤ length (options_wire prev os)
length-le-wire prev [] = omega arith
length-le-wire prev (o ∷ os) =
    omega (arith, length-wire-cons prev o os, option_wire-nonempty prev o, length-le-wire o.id os)

marker_len-le : (e : Ending) → marker_len e ≤ length (ending_wire e)
marker_len-le no_payload = omega arith
marker_len-le (payload b bs) = omega arith

-- On the wire form of options in order that the receiver keeps, followed by nothing or by a payload
-- marker and a payload of at least a byte, Options.Unmarshal into an empty slice with room for them
-- returns these options and has read all but the payload.
pub unmarshal_options-wire :
    (defs : OptionDefs) (capacity : ℕ) (os : List CoapOption) (e : Ending)
    → IsSortedFrom 0 os
    → All (IsLegal defs) os
    → length os ≤ capacity
    → unmarshal_options defs capacity [] (options_wire 0 os ++ ending_wire e)
      ≡ (os, ok (length (options_wire 0 os) + marker_len e))
unfolding unmarshal_options
unmarshal_options-wire defs capacity os e s l room =
    let enough : length os + marker_len e ≤ length (options_wire 0 os ++ ending_wire e) = omega (
      arith,
      length-append (options_wire 0 os) (ending_wire e),
      length-le-wire 0 os,
      marker_len-le e,
    ) in
    loop-wire _ defs capacity [] 0 0 os e s l (omega arith) enough
    ∙ ap (λ (k : ℕ). (os, ok k)) (omega arith)
