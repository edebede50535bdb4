-- ===== src/Message/Capacity.antt =====
-- message/options.go: Options.Unmarshal and the capacity of the slice that it fills.
use mathlib.Core.Path.{subst}
use go_coap.Message.Fault.{Result, ok, err, stuck, ◌>>=◌, is_too_small}
use go_coap.Message.Defs.{CoapOption, OptionDefs}
use go_coap.Message.Reading.{Result-cases, Round, read_option-Round}
use go_coap.Message.Unmarshal.{
  ext_byte, ext_word, parse_ext_opt, cast_option_id, Read, read_value, read_option, append_known,
  payload_marker, unmarshal_loop, unmarshal_options,
}
use go_coap.Prelude.{ltb, leb, ◌==◌, leb→le, Bool-cases}
use go_coap.Prelude.{length, drop, length-append}
use go_coap.Prelude.{ℕ, zero, suc, ◌+◌, ◌/◌, ◌%◌, ◌≤◌}
use go_coap.Prelude.{◌≡◌, refl, inl, inr, true, false, ◌||◌}
use go_coap.Prelude.{List, [], ◌∷◌, arith}

pub bind-not_small {ℓ κ} :
    {A : Type ℓ} {B : Type κ} (r : Result A) (f : A → Result B)
    → is_too_small r ≡ false
    → ((a : A) → is_too_small (f a) ≡ false)
    → is_too_small (r >>= f) ≡ false
bind-not_small (ok a) f h g = g a
bind-not_small (err e) f h g = h
bind-not_small stuck f h g = refl

byte-not_small : (bytes : List ℕ) → is_too_small (ext_byte bytes) ≡ false
byte-not_small [] = refl
byte-not_small (a ∷ bytes) = refl

word-not_small : (bytes : List ℕ) → is_too_small (ext_word bytes) ≡ false
word-not_small [] = refl
word-not_small (a ∷ []) = refl
word-not_small (a ∷ b ∷ bytes) = refl

parse_ext-not_small : (bytes : List ℕ) (opt : ℕ) → is_too_small (parse_ext_opt bytes opt) ≡ false
unfolding parse_ext_opt
parse_ext-not_small bytes opt = elim (Bool-cases (opt == 13)) [
  | inl e ↦ rw e (byte-not_small bytes)
  | inr e ↦ elim (Bool-cases (opt == 14)) [
    | inl e2 ↦ rw (e, e2) (word-not_small bytes)
    | inr e2 ↦ rw (e, e2) refl
  ]
]

read_value-not_small :
    (defs : OptionDefs) (prev delta len : ℕ) (bytes : List ℕ)
    → is_too_small (read_value defs prev delta len bytes) ≡ false
unfolding read_value cast_option_id
read_value-not_small defs prev delta len bytes = elim (Bool-cases (ltb (length bytes) len)) [
  | inl e ↦ rw e refl
  | inr e ↦ elim (Bool-cases (ltb 65535 (prev + delta))) [
    | inl e2 ↦ rw (e, e2) refl
    | inr e2 ↦ rw (e, e2) refl
  ]
]

read_option-not_small :
    (defs : OptionDefs) (prev b : ℕ) (bytes : List ℕ)
    → is_too_small (read_option defs prev b bytes) ≡ false
unfolding read_option
read_option-not_small defs prev b bytes = elim (Bool-cases ((b / 16 == 15) || (b % 16 == 15))) [
  | inl e ↦ rw e refl
  | inr e ↦ rw e (
      bind-not_small (parse_ext_opt bytes (b / 16)) _ (parse_ext-not_small bytes (b / 16)) (λ p.
        bind-not_small (parse_ext_opt (drop p.0 bytes) (b % 16)) _
          (parse_ext-not_small (drop p.0 bytes) (b % 16))
          (λ q.
            bind-not_small (read_value defs prev p.1 q.1 (drop q.0 (drop p.0 bytes))) _
              (read_value-not_small defs prev p.1 q.1 (drop q.0 (drop p.0 bytes))) (λ r. refl))))
]

marker-not_small : (n : ℕ) (bytes : List ℕ) → is_too_small (payload_marker n bytes) ≡ false
marker-not_small n [] = refl
marker-not_small n (b ∷ bytes) = refl

length-append_known :
    (options : List CoapOption) (o : CoapOption)
    → length (append_known options o) ≤ suc (length options)
length-append_known options o = elim (Bool-cases (o.id == 0)) [
  | inl e ↦ rw e (omega arith)
  | inr e ↦ rw e (omega (arith, length-append options (o ∷ [])))
]

-- What a run that is out of places leaves behind: as many options as there are places at least, and
-- no more than the bytes can hold.
abbrev Full : ℕ → ℕ → List CoapOption × Result ℕ → Type 0
Full capacity n r = is_too_small r.1 ≡ true → (capacity ≤ length r.0) × (length r.0 ≤ n)

-- What follows an option is no longer than what it was read from.
abbrev Shorter : ℕ → Result Read → Type 0
Shorter n (ok r) = length r.rest ≤ n
Shorter n (err e) = Unit {0}
Shorter n stuck = Unit {0}

Round-Shorter : (n : ℕ) (r : Result Read) → Round (suc n) r → Shorter n r
Round-Shorter n (ok r) w = omega (arith, w.0, w.1)
Round-Shorter n (err e) w = tt
Round-Shorter n stuck w = tt

loop-Full :
    (fuel : ℕ) (defs : OptionDefs) (capacity : ℕ) (options : List CoapOption) (prev processed n : ℕ)
    (bytes : List ℕ)
    → length options + length bytes ≤ n
    → Full capacity n (unmarshal_loop fuel defs capacity options prev processed bytes)
unfolding unmarshal_loop
loop-Full fuel defs capacity options prev processed n [] h = λ t. cc
loop-Full zero defs capacity options prev processed n (b ∷ bytes) h = λ t. cc
loop-Full (suc fuel) defs capacity options prev processed n (b ∷ bytes) h =
    elim (Bool-cases (b == 0xff)) [
      | inl e ↦ rw (e, unmarshal_loop) (λ t. cc (t, marker-not_small processed bytes))
      | inr e ↦
          rw (e, unmarshal_loop)
            (elim (Result-cases (read_option defs prev b bytes)) [
              | inl (r, e2) ↦ rw e2 (elim (Bool-cases (leb capacity (length options))) [
                | inl e3 ↦ rw e3 (λ t. (leb→le _ _ e3, omega arith))
                | inr e3 ↦ rw e3 (
                    let w =
                      subst (Shorter (length bytes)) e2
                        (Round-Shorter (length bytes) _ (read_option-Round defs prev b bytes)) in
                    loop-Full fuel defs capacity (append_known options r.option) r.id
                      (processed + r.count) n r.rest
                      (omega (arith, h, w, length-append_known options r.option)))
              ])
              | inr (inl (f, e2)) ↦ rw e2 (λ t. cc (
                t,
                subst (λ x. is_too_small x ≡ false) e2 (read_option-not_small defs prev b bytes),
              ))
              | inr (inr e2) ↦ rw e2 (λ t. cc t)
            ])
    ]

loop-agrees :
    (fuel : ℕ) (defs : OptionDefs) (capacity k : ℕ) (options : List CoapOption) (prev processed : ℕ)
    (bytes : List ℕ)
    → is_too_small (unmarshal_loop fuel defs capacity options prev processed bytes).1 ≡ false
    → is_too_small (unmarshal_loop fuel defs k options prev processed bytes).1 ≡ false
    → unmarshal_loop fuel defs capacity options prev processed bytes
      ≡ unmarshal_loop fuel defs k options prev processed bytes
unfolding unmarshal_loop
loop-agrees fuel defs capacity k options prev processed [] = λ h h2. refl
loop-agrees zero defs capacity k options prev processed (b ∷ bytes) = λ h h2. refl
loop-agrees (suc fuel) defs capacity k options prev processed (b ∷ bytes) =
    elim (Bool-cases (b == 0xff)) [
      | inl e ↦ rw (e, unmarshal_loop) (λ h h2. refl)
      | inr e ↦
          rw (e, unmarshal_loop)
            (elim (Result-cases (read_option defs prev b bytes)) [
              | inl (r, e2) ↦ rw e2 (elim (Bool-cases (leb capacity (length options))) [
                | inl e3 ↦ rw e3 (λ h h2. cc h)
                | inr e3 ↦ elim (Bool-cases (leb k (length options))) [
                  | inl e4 ↦ rw (e3, e4) (λ h h2. cc h2)
                  | inr e4 ↦
                      rw (e3, e4)
                        (loop-agrees fuel defs capacity k (append_known options r.option) r.id
                          (processed + r.count) r.rest)
                ]
              ])
              | inr (inl (f, e2)) ↦ rw e2 (λ h h2. refl)
              | inr (inr e2) ↦ rw e2 (λ h h2. refl)
            ])
    ]

pub unmarshal_options-Full :
    (defs : OptionDefs) (capacity : ℕ) (bytes : List ℕ)
    → is_too_small (unmarshal_options defs capacity [] bytes).1 ≡ true
    → (capacity ≤ length (unmarshal_options defs capacity [] bytes).0)
      × (length (unmarshal_options defs capacity [] bytes).0 ≤ length bytes)
unfolding unmarshal_options
unmarshal_options-Full defs capacity bytes =
    loop-Full (length bytes) defs capacity [] 0 0 (length bytes) bytes (omega arith)

pub unmarshal_options-agrees :
    (defs : OptionDefs) (capacity k : ℕ) (bytes : List ℕ)
    → is_too_small (unmarshal_options defs capacity [] bytes).1 ≡ false
    → is_too_small (unmarshal_options defs k [] bytes).1 ≡ false
    → unmarshal_options defs capacity [] bytes ≡ unmarshal_options defs k [] bytes
unfolding unmarshal_options
unmarshal_options-agrees defs capacity k bytes =
    loop-agrees (length bytes) defs capacity k [] 0 0 bytes
