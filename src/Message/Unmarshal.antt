-- ===== src/Message/Unmarshal.antt =====
-- message/option.go, message/options.go: reading options.
use go_coap.Message.Fault.{
  Result, ok, err, stuck, ◌>>=◌, option_truncated, option_not_found, options_too_small,
  option_unexpected_extend_marker, payload_marker_without_payload,
}
use go_coap.Message.Defs.{CoapOption, OptionDef, OptionDefs, ValueFormat, value_unknown, lookup_def}
use go_coap.Prelude.{ltb, leb, ◌==◌, if◌then◌else◌}
use go_coap.Prelude.{length, take, drop}
use go_coap.Prelude.{uint16}
use go_coap.Prelude.{ℕ, zero, suc, ◌+◌, ◌/◌, ◌%◌}
use go_coap.Prelude.{Bool, true, false, ◌&&◌, ◌||◌}
use go_coap.Prelude.{none, some, List, [], ◌∷◌, ◌++◌}

abbrev pub ext_byte : List ℕ → Result (ℕ × ℕ)
ext_byte [] = err option_truncated
ext_byte (a ∷ rest) = ok (1, a + 13)

abbrev pub ext_word : List ℕ → Result (ℕ × ℕ)
ext_word [] = err option_truncated
ext_word (a ∷ []) = err option_truncated
ext_word (a ∷ b ∷ rest) = ok (2, uint16 a b + 269)

-- parseExtOpt: the bytes read, and the value
unfoldable pub parse_ext_opt : List ℕ → ℕ → Result (ℕ × ℕ)
parse_ext_opt bytes opt =
    if opt == 13 then ext_byte bytes else if opt == 14 then ext_word bytes else ok (0, opt)

is_unknown : ValueFormat → Bool
is_unknown value_unknown = true
is_unknown _ = false

-- The two tests of Option.Unmarshal under which the option is skipped.
unfoldable pub fails_def : ℕ → ℕ → OptionDef → Bool
unfolding is_unknown
fails_def id len d =
    is_unknown d.value_format || ((ltb len d.min_len || ltb d.max_len len) && (id % 2 == 0))

unfoldable pub is_skipped : OptionDefs → ℕ → List ℕ → Bool
is_skipped defs id bytes = elim (lookup_def id defs) [
  | none ↦ false
  | some d ↦ fails_def id (length bytes) d
]

-- Option.Unmarshal on a zero Option: a skipped one keeps the number 0. All bytes count as read.
unfoldable pub unmarshal_option : OptionDefs → ℕ → List ℕ → CoapOption × ℕ
unmarshal_option defs id bytes =
    if is_skipped defs id bytes
    then (record { id = 0; value = [] }, length bytes)
    else (record { id = id; value = bytes }, length bytes)

-- math.SafeCastTo[OptionID]; a failure is wrapped in ErrOptionNotFound
unfoldable pub cast_option_id : ℕ → Result ℕ
cast_option_id n = if ltb 65535 n then err option_not_found else ok n

-- One round of Options.Unmarshal behind its first byte: the number, the option, the bytes read
-- after the first byte, and the bytes that follow.
pub record Read : Type 0 where
  pub id : ℕ
  pub option : CoapOption
  pub count : ℕ
  pub rest : List ℕ

unfoldable pub read_value : OptionDefs → ℕ → ℕ → ℕ → List ℕ → Result Read
read_value defs prev delta len bytes = if ltb (length bytes) len then err option_truncated else do
  id ← cast_option_id (prev + delta)
  let option = unmarshal_option defs id (take len bytes)
  ok (record { id = id; option = option.0; count = option.1; rest = drop option.1 bytes })

unfoldable pub read_option : OptionDefs → ℕ → ℕ → List ℕ → Result Read
read_option defs prev b bytes =
    if (b / 16 == 15) || (b % 16 == 15) then err option_unexpected_extend_marker else do
      (p1, delta) ← parse_ext_opt bytes (b / 16)
      let bytes1 = drop p1 bytes
      (p2, len) ← parse_ext_opt bytes1 (b % 16)
      r ← read_value defs prev delta len (drop p2 bytes1)
      ok (record r { count = 1 + p1 + p2 + r.count })

-- `*options = append(*options, option)` unless its number is 0
abbrev pub append_known : List CoapOption → CoapOption → List CoapOption
append_known options o = if o.id == 0 then options else options ++ o ∷ []

-- The payload marker: an error if nothing follows it.
abbrev pub payload_marker : ℕ → List ℕ → Result ℕ
payload_marker processed [] = err payload_marker_without_payload
payload_marker processed (b ∷ bs) = ok (processed + 1)

-- The loop of Options.Unmarshal. `capacity` is the capacity of the caller's slice. The options read so
-- far come back beside an error too.
unfoldable pub unmarshal_loop :
    ℕ → OptionDefs → ℕ → List CoapOption → ℕ → ℕ → List ℕ → List CoapOption × Result ℕ
unmarshal_loop fuel defs capacity options prev processed [] = (options, ok processed)
unmarshal_loop zero defs capacity options prev processed (b ∷ bytes) = (options, stuck)
unmarshal_loop (suc fuel) defs capacity options prev processed (b ∷ bytes) = elim (b == 0xff) [
  | true ↦ (options, payload_marker processed bytes)
  | false ↦ elim (read_option defs prev b bytes) [
    | err e ↦ (options, err e)
    | stuck ↦ (options, stuck)
    | ok r ↦ elim (leb capacity (length options)) [
      | true ↦ (options, err options_too_small)
      | false ↦
          unmarshal_loop fuel defs capacity (append_known options r.option) r.id
            (processed + r.count) r.rest
    ]
  ]
]

-- Options.Unmarshal. Each round takes a byte at least, so `length bytes` rounds are enough.
unfoldable pub unmarshal_options :
    OptionDefs → ℕ → List CoapOption → List ℕ → List CoapOption × Result ℕ
unmarshal_options defs capacity options bytes =
    unmarshal_loop (length bytes) defs capacity options 0 0 bytes
