-- ===== src/Message/Defs.antt =====
-- message/option.go and message/tcpOptions.go: options, their numbers, and the tables of the known ones.
use go_coap.Prelude.{ltb, leb, ◌==◌, if◌then◌else◌}
use go_coap.Prelude.{ℕ}
use go_coap.Prelude.{Bool, not, ◌||◌}
use go_coap.Prelude.{Option, none, some, List, [], ◌∷◌}

pub record CoapOption : Type 0 where
  pub id : ℕ
  pub value : List ℕ

pub data ValueFormat : Type 0 where
  value_unknown value_empty value_opaque value_uint value_string : ValueFormat

pub record OptionDef : Type 0 where
  pub min_len : ℕ
  pub max_len : ℕ
  pub value_format : ValueFormat

-- map[OptionID]OptionDef
abbrev pub OptionDefs : Type 0
OptionDefs = List (ℕ × OptionDef)

unfoldable pub lookup_def : ℕ → OptionDefs → Option OptionDef
lookup_def id [] = none
lookup_def id ((k, d) ∷ defs) = if k == id then some d else lookup_def id defs

abbrev pub observe_id : ℕ
observe_id = 6

abbrev pub uri_path : ℕ
uri_path = 11

abbrev pub content_format_id : ℕ
content_format_id = 12

abbrev pub q_block1 : ℕ
q_block1 = 19

abbrev pub q_block2 : ℕ
q_block2 = 31

abbrev def : ValueFormat → ℕ → ℕ → OptionDef
def format lo hi = record { min_len = lo; max_len = hi; value_format = format }

-- CoapOptionDefs, in the order of the source
abbrev pub coap_option_defs : OptionDefs
coap_option_defs =
    (1, def value_opaque 0 8)
    ∷ (3, def value_string 1 255)
    ∷ (4, def value_opaque 1 8)
    ∷ (5, def value_empty 0 0)
    ∷ (6, def value_uint 0 3)
    ∷ (7, def value_uint 0 2)
    ∷ (8, def value_string 0 255)
    ∷ (11, def value_string 0 255)
    ∷ (12, def value_uint 0 2)
    ∷ (14, def value_uint 0 4)
    ∷ (15, def value_string 0 255)
    ∷ (17, def value_uint 0 2)
    ∷ (19, def value_uint 0 3)
    ∷ (20, def value_string 0 255)
    ∷ (23, def value_uint 0 3)
    ∷ (27, def value_uint 0 3)
    ∷ (28, def value_uint 0 4)
    ∷ (31, def value_uint 0 3)
    ∷ (35, def value_string 1 1034)
    ∷ (39, def value_string 1 255)
    ∷ (60, def value_uint 0 4)
    ∷ (252, def value_opaque 1 40)
    ∷ (258, def value_uint 0 1)
    ∷ (292, def value_opaque 0 8)
    ∷ []

abbrev pub tcp_signal_csm_option_defs : OptionDefs
tcp_signal_csm_option_defs = (2, def value_uint 0 4) ∷ (4, def value_empty 0 0) ∷ []

abbrev pub tcp_signal_ping_pong_option_defs : OptionDefs
tcp_signal_ping_pong_option_defs = (2, def value_empty 0 0) ∷ []

abbrev pub tcp_signal_release_option_defs : OptionDefs
tcp_signal_release_option_defs = (2, def value_string 1 255) ∷ (4, def value_uint 0 3) ∷ []

abbrev pub tcp_signal_abort_option_defs : OptionDefs
tcp_signal_abort_option_defs = (2, def value_uint 0 2) ∷ []

-- A missing key gives Go's zero value, whose bounds are both 0.
unfoldable pub verify_opt_len : ℕ → ℕ → Bool
unfolding lookup_def
verify_opt_len id value_len = elim (lookup_def id coap_option_defs) [
  | none ↦ leb value_len 0
  | some d ↦ not (ltb value_len d.min_len || ltb d.max_len value_len)
]
