-- ===== src/Tests/Options.antt =====
-- Runs of the option coder and of the operations on options, on concrete options.
use go_coap.Message.Defs.{CoapOption, OptionDef, OptionDefs, lookup_def, coap_option_defs}
use go_coap.Message.Writer.{of_len, outcome}
use go_coap.Message.Wire.{options_wire, IsSortedFrom, IsEncodable, marshal_options-wire}
use go_coap.Message.Fault.{Fault, ok, err}
use go_coap.Message.Reading.{unmarshal_options-ends}
use go_coap.Message.Marshal.{marshal_options}
use go_coap.Message.Unmarshal.{unmarshal_options}
use go_coap.Message.RoundTrip.{IsLegal, MeetsDef, payload, ending_wire, unmarshal_options-wire}
use go_coap.Message.Edit.{set_option, add_option}
use go_coap.Message.Edit.Split.{below, same, above}
use go_coap.Message.Edit.Results.{set_option-sorted, add_option-sorted}
use mathlib.Core.Path.{subst}
use go_coap.Prelude.{length, All}
use go_coap.Prelude.{ℕ, ◌+◌, ◌≤◌, ◌<◌}
use go_coap.Prelude.{◌≡◌, refl, inl, inr, ◌⊎◌}
use go_coap.Prelude.{Option, none, some, List, [], ◌∷◌, ◌++◌, arith}

abbrev option : ℕ → List ℕ → CoapOption
option id value = record { id = id; value = value }

abbrev path_a : CoapOption
path_a = option 11 (97 ∷ [])

abbrev path_b : CoapOption
path_b = option 11 (98 ∷ 99 ∷ [])

abbrev format : CoapOption
format = option 12 (50 ∷ [])

abbrev no_response : CoapOption
no_response = option 258 (2 ∷ [])

-- two paths, a format, and an option whose delta needs an extension
abbrev pub options : List CoapOption
options = path_a ∷ path_b ∷ format ∷ no_response ∷ []

pub sorted : IsSortedFrom 0 options
sorted = (omega arith, (omega arith, (omega arith, (omega arith, tt))))

encodable : All IsEncodable options
encodable = (
  (omega arith, omega arith),
  ((omega arith, omega arith), ((omega arith, omega arith), ((omega arith, omega arith), tt))),
)

abbrev MeetsIn : ℕ → ℕ → Option OptionDef → Type 0
MeetsIn id len none = Unit {0}
MeetsIn id len (some d) = MeetsDef id len d

pub IsLegal-of :
    (defs : OptionDefs) (o : CoapOption)
    → IsEncodable o
    → 0 < o.id
    → MeetsIn o.id (length o.value) (lookup_def o.id defs)
    → IsLegal defs o
IsLegal-of defs o e p m = record {
  encodable = e;
  nonzero = p;
  meets = λ d h. subst (MeetsIn o.id (length o.value)) h m;
}

pub legal : All (IsLegal coap_option_defs) options
unfolding lookup_def
legal =
    let path_IsLegal : (value : List ℕ)
        → length value < 300
        → IsLegal coap_option_defs (option 11 value) =
      λ value h.
        IsLegal-of coap_option_defs (option 11 value) (omega arith, omega arith) (omega arith)
          ((λ e. cc e), inl refl) in
    (
      path_IsLegal (97 ∷ []) (omega arith),
      (
        path_IsLegal (98 ∷ 99 ∷ []) (omega arith),
        (
          IsLegal-of coap_option_defs format (omega arith, omega arith) (omega arith)
              ((λ e. cc e), inr (omega arith, omega arith)),
          (
            IsLegal-of coap_option_defs no_response (omega arith, omega arith) (omega arith)
                ((λ e. cc e), inr (omega arith, omega arith)),
            tt,
          ),
        ),
      ),
    )

marshal_options-wire_example :
    marshal_options (of_len 20) options ≡ outcome (of_len 20) (options_wire 0 options)
marshal_options-wire_example = marshal_options-wire (of_len 20) options sorted encodable

unmarshal_options-wire_example :
    unmarshal_options coap_option_defs 16 [] (options_wire 0 options ++ ending_wire (payload 1 []))
    ≡ (options, ok (length (options_wire 0 options) + 1))
unmarshal_options-wire_example =
    unmarshal_options-wire coap_option_defs 16 options (payload 1 []) sorted legal (omega arith)

set_option-sorted_example :
    set_option no_response (option 11 (120 ∷ [])) options
    ≡ some (below 11 options ++ (option 11 (120 ∷ []) ∷ above 11 options))
set_option-sorted_example = set_option-sorted no_response (option 11 (120 ∷ [])) options sorted

add_option-sorted_example :
    add_option no_response (option 11 (120 ∷ [])) options
    ≡ some (below 11 options ++ (same 11 options ++ (option 11 (120 ∷ []) ∷ above 11 options)))
add_option-sorted_example = add_option-sorted no_response (option 11 (120 ∷ [])) options sorted

-- an option cut short
unmarshal_options-ends_example :
    ((e : Fault) × ((unmarshal_options coap_option_defs 16 [] (209 ∷ [])).1 ≡ err e))
    ⊎ ((n : ℕ) × ((unmarshal_options coap_option_defs 16 [] (209 ∷ [])).1 ≡ ok n) × (n ≤ 1))
unmarshal_options-ends_example = unmarshal_options-ends coap_option_defs 16 [] (209 ∷ [])
