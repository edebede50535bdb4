-- ===== src/Net/CriticalOptions.antt =====
-- net/client/criticalOptions.go: critical options that the receiver does not know.
use go_coap.Message.Defs.{
  CoapOption, OptionDef, coap_option_defs, lookup_def, verify_opt_len, q_block1, q_block2,
}
use go_coap.Prelude.{ltb, ◌==◌, if◌then◌else◌, ==→eq, Bool-cases, Option-cases}
use go_coap.Prelude.{length}
use go_coap.Prelude.{ℕ, zero, suc, ◌+◌, ◌/◌, ◌%◌, ◌<◌}
use go_coap.Prelude.{◌≡◌, ap, ◌↔◌, ◌⊎◌, inl, inr, Bool, true, false, not, ◌&&◌, ◌||◌}
use go_coap.Prelude.{Option, none, some, List, [], ◌∷◌, ◌++◌, map, arith}

abbrev is_some : Option OptionDef → Bool
is_some none = false
is_some (some d) = true

-- The two `continue`s before the check for a repetition: whether the option is reported.
unfoldable pub is_unknown_critical : Bool → CoapOption → Bool
is_unknown_critical enabled o =
    let is_disabled_q = not enabled && ((o.id == q_block1) || (o.id == q_block2)) in
    not (o.id % 2 == 0)
    && not (
        is_some (lookup_def o.id coap_option_defs)
        && (not is_disabled_q && verify_opt_len o.id (length o.value)))

-- `last` is lastUnknownCriticalOpt once an option has been reported.
abbrev is_last : Option ℕ → ℕ → Bool
is_last none id = false
is_last (some last) id = id == last

unfoldable pub unknown_loop : Bool → Option ℕ → List CoapOption → List ℕ
unknown_loop enabled last [] = []
unknown_loop enabled last (o ∷ os) =
    let skip = unknown_loop enabled last os in
    let report = o.id ∷ unknown_loop enabled (some o.id) os in
    if is_unknown_critical enabled o && not (is_last last o.id) then report else skip

-- GetUnknownCriticalOptionsWithQBlock
unfoldable pub get_unknown_critical_options : List CoapOption → Bool → List ℕ
get_unknown_critical_options os enabled = unknown_loop enabled none os

-- GetUnknownCriticalOptions
unfoldable pub get_unknown_critical_options_legacy : List CoapOption → List ℕ
get_unknown_critical_options_legacy os = get_unknown_critical_options os false

-- strconv.FormatUint(n, 10), the digits before `after`; numbers of options have at most five.
abbrev digits : ℕ → ℕ → List ℕ → List ℕ
digits zero n after = after
digits (suc fuel) n after =
    let more = digits fuel (n / 10) ((48 + n % 10) ∷ after) in
    if ltb n 10 then (48 + n) ∷ after else more

-- strings.Join(parts, ",")
abbrev join : List (List ℕ) → List ℕ
join [] = []
join (part ∷ []) = part
join (part ∷ next ∷ parts) = part ++ (44 ∷ join (next ∷ parts))

-- FormatUnknownCriticalOptionsDiagnostic, as bytes
unfoldable pub format_diagnostic : List ℕ → List ℕ
format_diagnostic ids = diagnostic_prefix ++ join (map (λ id. digits 5 id []) ids)
  where
    diagnostic_prefix : List ℕ
    diagnostic_prefix =
        117 ∷ 110 ∷ 107 ∷ 110 ∷ 111 ∷ 119 ∷ 110 ∷ 32 ∷ 99 ∷ 114 ∷ 105 ∷ 116 ∷ 105 ∷ 99 ∷ 97 ∷ 108
        ∷ 32 ∷ 111 ∷ 112 ∷ 116 ∷ 105 ∷ 111 ∷ 110 ∷ 40 ∷ 115 ∷ 41 ∷ 58 ∷ 32 ∷ []

abbrev pub Contains : ℕ → List ℕ → Type 0
Contains id [] = ⊥
Contains id (x ∷ xs) = (id ≡ x) ⊎ Contains id xs

-- Why a critical option is not processed: its number is not in the table, it is a Q-Block option while
-- these are disabled, or its value is shorter or longer than the table allows.
abbrev pub IsUnprocessed : Bool → CoapOption → Type 0
IsUnprocessed enabled o =
    (lookup_def o.id coap_option_defs ≡ none)
    ⊎ (((enabled ≡ false) × ((o.id ≡ 19) ⊎ (o.id ≡ 31)))
        ⊎ ((d : OptionDef) × (lookup_def o.id coap_option_defs ≡ some d)
            × ((length o.value < d.min_len) ⊎ (d.max_len < length o.value))))

-- An option of an odd number that is not processed.
abbrev pub IsRejected : Bool → CoapOption → Type 0
IsRejected enabled o = (o.id % 2 ≡ 1) × IsUnprocessed enabled o

-- The message has such an option with this number.
abbrev pub Reported : Bool → ℕ → List CoapOption → Type 0
Reported enabled id [] = ⊥
Reported enabled id (o ∷ os) = ((id ≡ o.id) × IsRejected enabled o) ⊎ Reported enabled id os

verify-known :
    (id value_len : ℕ) (d : OptionDef)
    → lookup_def id coap_option_defs ≡ some d
    → verify_opt_len id value_len ≡ not (ltb value_len d.min_len || ltb d.max_len value_len)
unfolding verify_opt_len
verify-known id value_len d e = rw (verify_opt_len, e)

unknown_critical_sound :
    (enabled : Bool) (o : CoapOption) → is_unknown_critical enabled o ≡ true → IsRejected enabled o
unfolding is_unknown_critical
unknown_critical_sound enabled o h = elim (Option-cases (lookup_def o.id coap_option_defs)) [
  | inl e ↦ (ground arith, inl e)
  | inr (d, e) ↦
      let v = verify-known o.id (length o.value) d e in
      elim (Bool-cases (verify_opt_len o.id (length o.value))) [
        | inl fits ↦ (ground arith, inr (inl (ground arith)))
        | inr fails ↦ (ground arith, inr (inr (d, e, ground (arith, v, fails))))
      ]
]

unknown_critical_complete :
    (enabled : Bool) (o : CoapOption) → IsRejected enabled o → is_unknown_critical enabled o ≡ true
unfolding is_unknown_critical
unknown_critical_complete enabled o (odd, inl e) = rw e (ground arith)
unknown_critical_complete enabled o (odd, inr (inl (off, inl q))) = ground arith
unknown_critical_complete enabled o (odd, inr (inl (off, inr q))) = ground arith
unknown_critical_complete enabled o (odd, inr (inr (d, e, outside))) =
    let v = verify-known o.id (length o.value) d e in
    let fails : verify_opt_len o.id (length o.value) ≡ false = ground (arith, v, outside) in
    rw (e, fails) (ground arith)

loop_sound :
    (enabled : Bool) (last : Option ℕ) (os : List CoapOption) (id : ℕ)
    → Contains id (unknown_loop enabled last os)
    → Reported enabled id os
unfolding unknown_loop
loop_sound enabled last [] id h = h
loop_sound enabled last (o ∷ os) id h =
    elim (Bool-cases (is_unknown_critical enabled o && not (is_last last o.id))) [
      | inl e ↦ elim (rw e at h) [
        | inl same ↦ inl (same, unknown_critical_sound enabled o (ground arith))
        | inr later ↦ inr (loop_sound enabled (some o.id) os id later)
      ]
      | inr e ↦ inr (loop_sound enabled last os id (rw e at h))
    ]

loop_complete :
    (enabled : Bool) (last : Option ℕ) (os : List CoapOption) (id : ℕ)
    → Reported enabled id os
    → (last ≡ some id) ⊎ Contains id (unknown_loop enabled last os)
unfolding unknown_loop
loop_complete enabled last [] id h = absurd h
loop_complete enabled last (o ∷ os) id (inl (same, u)) = elim (Bool-cases (is_last last o.id)) [
  | inl e ↦ inl (repeated last o.id id same e)
  | inr e ↦ inr (rw (unknown_critical_complete enabled o u, e) (inl same))
]
  where
    repeated : (last : Option ℕ) (a id : ℕ) → id ≡ a → is_last last a ≡ true → last ≡ some id
    repeated none a id s e = cc
    repeated (some l) a id s e = ap some (omega (arith, ==→eq a l e))
loop_complete enabled last (o ∷ os) id (inr r) =
    elim (Bool-cases (is_unknown_critical enabled o && not (is_last last o.id))) [
      | inl e ↦ rw e (inr (later (loop_complete enabled (some o.id) os id r)))
      | inr e ↦ rw e (loop_complete enabled last os id r)
    ]
  where
    later :
        ((some o.id ≡ some id) ⊎ Contains id (unknown_loop enabled (some o.id) os))
        → (id ≡ o.id) ⊎ Contains id (unknown_loop enabled (some o.id) os)
    later (inl e) = inl (ground arith)
    later (inr c) = inr c

-- The numbers returned are exactly those of the options of the message with an odd number that are
-- not in the table of known options, whose value is shorter or longer than the table allows, or that
-- are Q-Block options (19 and 31) while these are disabled.
pub unknown_critical-exact :
    (os : List CoapOption) (enabled : Bool) (id : ℕ)
    → Contains id (get_unknown_critical_options os enabled) ↔ Reported enabled id os
unfolding get_unknown_critical_options
unknown_critical-exact os enabled id = (loop_sound enabled none os id, complete)
  where
    complete : Reported enabled id os → Contains id (unknown_loop enabled none os)
    complete r = elim (loop_complete enabled none os id r) [ inl e ↦ cc | inr c ↦ c ]
