-- ===== src/Message/Reading.antt =====
-- Options.Unmarshal of message/options.go on any input, well formed or not.
use go_coap.Message.Fault.{Fault, Result, ok, err, stuck, ◌>>=◌}
use go_coap.Message.Defs.{OptionDefs, CoapOption}
use go_coap.Message.Unmarshal.{
  ext_byte, ext_word, parse_ext_opt, unmarshal_option, cast_option_id, Read, read_value,
  read_option, payload_marker, unmarshal_loop, unmarshal_options,
}
use mathlib.Core.Path.{subst}
use go_coap.Prelude.{ltb, leb, ◌==◌, Bool-cases}
use go_coap.Prelude.{length, take, drop, length-drop, length-take}
use go_coap.Prelude.{ℕ, zero, suc, ◌+◌, ◌/◌, ◌%◌, ◌≤◌, ◌<◌}
use go_coap.Prelude.{◌≡◌, refl, ◌⊎◌, inl, inr, ◌||◌}
use go_coap.Prelude.{List, [], ◌∷◌, arith}

pub Result-cases {ℓ} :
    {A : Type ℓ} (r : Result A)
    → ((a : A) × (r ≡ ok a)) ⊎ (((e : Fault) × (r ≡ err e)) ⊎ (r ≡ stuck))
Result-cases (ok a) = inl (a, refl)
Result-cases (err e) = inr (inl (e, refl))
Result-cases stuck = inr (inr refl)

-- What a round may come back with: an error, or a result that stays inside its input.
abbrev Outcome : (n : ℕ) → Result (ℕ × ℕ) → Type 0
Outcome n (ok (p, v)) = p ≤ n
Outcome n (err e) = Unit {0}
Outcome n stuck = ⊥

byte-Outcome : (bytes : List ℕ) → Outcome (length bytes) (ext_byte bytes)
byte-Outcome [] = tt
byte-Outcome (a ∷ bytes) = omega arith

word-Outcome : (bytes : List ℕ) → Outcome (length bytes) (ext_word bytes)
word-Outcome [] = tt
word-Outcome (a ∷ []) = tt
word-Outcome (a ∷ b ∷ bytes) = omega arith

parse_ext-Outcome : (bytes : List ℕ) (opt : ℕ) → Outcome (length bytes) (parse_ext_opt bytes opt)
unfolding parse_ext_opt
parse_ext-Outcome bytes opt = elim (Bool-cases (opt == 13)) [
  | inl e ↦ rw e (byte-Outcome bytes)
  | inr e ↦ elim (Bool-cases (opt == 14)) [
    | inl e2 ↦ rw (e, e2) (word-Outcome bytes)
    | inr e2 ↦ rw (e, e2) (omega arith)
  ]
]

-- The bytes counted and those that follow are all of the input.
abbrev Within : ℕ → Result Read → Type 0
Within n (ok r) = r.count + length r.rest ≡ n
Within n (err e) = Unit {0}
Within n stuck = ⊥

count-unmarshal_option :
    (defs : OptionDefs) (id : ℕ) (bytes : List ℕ)
    → (unmarshal_option defs id bytes).1 ≡ length bytes
unfolding unmarshal_option
count-unmarshal_option defs id bytes = ground arith

span :
    (len : ℕ) (bytes : List ℕ)
    → len ≤ length bytes
    → length (take len bytes) + length (drop (length (take len bytes)) bytes) ≡ length bytes
span len bytes h =
    omega (arith, length-take len bytes h, length-drop (length (take len bytes)) bytes)

read_value-Within :
    (defs : OptionDefs) (prev delta len : ℕ) (bytes : List ℕ)
    → Within (length bytes) (read_value defs prev delta len bytes)
unfolding read_value cast_option_id
read_value-Within defs prev delta len bytes = elim (Bool-cases (ltb (length bytes) len)) [
  | inl e ↦ rw e tt
  | inr e ↦ elim (Bool-cases (ltb 65535 (prev + delta))) [
    | inl e2 ↦ rw (e, e2) tt
    | inr e2 ↦
        rw (e, e2)
          (rw (count-unmarshal_option defs (prev + delta) (take len bytes))
            (span len bytes (ground arith)))
  ]
]

-- A round takes a byte at least.
abbrev pub Round : ℕ → Result Read → Type 0
Round n (ok r) = (0 < r.count) × (r.count + length r.rest ≡ n)
Round n (err e) = Unit {0}
Round n stuck = ⊥

counted :
    (p1 p2 n m : ℕ) (r : Result Read)
    → Within n r
    → 1 + p1 + p2 + n ≡ m
    → Round m (r >>= λ x. ok (record x { count = 1 + p1 + p2 + x.count }))
counted p1 p2 n m (err e) w h = tt
counted p1 p2 n m (ok x) w h = (omega arith, omega (arith, w, h))
counted p1 p2 n m stuck w h = elim w [ ]

-- The bytes of a round behind its first byte, that byte counted.
pub read_option-Round :
    (defs : OptionDefs) (prev b : ℕ) (bytes : List ℕ)
    → Round (suc (length bytes)) (read_option defs prev b bytes)
unfolding read_option
read_option-Round defs prev b bytes = elim (Bool-cases ((b / 16 == 15) || (b % 16 == 15))) [
  | inl e ↦ rw e tt
  | inr e ↦ rw e (delta_part (parse_ext_opt bytes (b / 16)) (parse_ext-Outcome bytes (b / 16)))
]
  where
    length_part :
        (p1 delta : ℕ) (rest : List ℕ)
        → p1 + length rest ≡ length bytes
        → (r2 : Result (ℕ × ℕ)) → Outcome (length rest) r2
        → Round (suc (length bytes)) (do
          (p2, len) ← r2
          r ← read_value defs prev delta len (drop p2 rest)
          ok (record r { count = 1 + p1 + p2 + r.count }))
    length_part p1 delta rest h (err e) o = tt
    length_part p1 delta rest h stuck o = elim o [ ]
    length_part p1 delta rest h (ok (p2, len)) o =
        counted p1 p2 (length (drop p2 rest)) (suc (length bytes)) _
          (read_value-Within defs prev delta len (drop p2 rest))
          (omega (arith, length-drop p2 rest, o, h))

    delta_part :
        (r1 : Result (ℕ × ℕ))
        → Outcome (length bytes) r1
        → Round (suc (length bytes)) (do
          (p1, delta) ← r1
          let bytes1 = drop p1 bytes
          (p2, len) ← parse_ext_opt bytes1 (b % 16)
          r ← read_value defs prev delta len (drop p2 bytes1)
          ok (record r { count = 1 + p1 + p2 + r.count }))
    delta_part (err e) o = tt
    delta_part stuck o = elim o [ ]
    delta_part (ok (p1, delta)) o =
        length_part p1 delta (drop p1 bytes) (omega (arith, length-drop p1 bytes, o)) _
          (parse_ext-Outcome (drop p1 bytes) (b % 16))

-- What the loop may come back with when it started behind `processed` of `total` bytes.
abbrev Ended : ℕ → ℕ → Result ℕ → Type 0
Ended processed total (ok n) = (processed ≤ n) × (n ≤ total)
Ended processed total (err e) = Unit {0}
Ended processed total stuck = ⊥

marker-Ended :
    (processed : ℕ) (bytes : List ℕ)
    → Ended processed (processed + suc (length bytes)) (payload_marker processed bytes)
marker-Ended processed [] = tt
marker-Ended processed (b ∷ bytes) = (omega arith, omega arith)

loop-Ended :
    (fuel : ℕ) (defs : OptionDefs) (capacity : ℕ) (options : List CoapOption)
    (prev processed total : ℕ) (bytes : List ℕ)
    → length bytes ≤ fuel
    → processed + length bytes ≡ total
    → Ended processed total (unmarshal_loop fuel defs capacity options prev processed bytes).1
unfolding unmarshal_loop
loop-Ended fuel defs capacity options prev processed total [] h t = (omega arith, omega arith)
loop-Ended zero defs capacity options prev processed total (b ∷ bytes) h t = absurd (omega arith)
loop-Ended (suc fuel) defs capacity options prev processed total (b ∷ bytes) h t =
    elim (Bool-cases (b == 0xff)) [
      | inl e ↦
          rw (e, unmarshal_loop)
            (subst (λ n. Ended processed n (payload_marker processed bytes)) t
              (marker-Ended processed bytes))
      | inr e ↦
          rw (e, unmarshal_loop)
            (elim (Result-cases (read_option defs prev b bytes)) [
              | inl (r, e2) ↦ rw e2 (elim (Bool-cases (leb capacity (length options))) [
                | inl e3 ↦ rw e3 tt
                | inr e3 ↦ rw e3 (
                    let w =
                      subst (Round (suc (length bytes))) e2 (read_option-Round defs prev b bytes) in
                    later r _ (
                      loop-Ended fuel defs capacity _ r.id (processed + r.count) total r.rest
                        (omega (arith, h, w.0, w.1)) (omega (arith, t, w.1))))
              ])
              | inr (inl (f, e2)) ↦ rw e2 tt
              | inr (inr e2) ↦
                  absurd
                    (subst (Round (suc (length bytes))) e2 (read_option-Round defs prev b bytes))
            ])
    ]
  where
    later :
        (r : Read) (res : Result ℕ)
        → Ended (processed + r.count) total res
        → Ended processed total res
    later r (ok n) (lo, hi) = (omega arith, hi)
    later r (err f) w = tt
    later r stuck w = elim w [ ]

Ended-result :
    (total : ℕ) (r : Result ℕ)
    → Ended 0 total r
    → ((e : Fault) × (r ≡ err e)) ⊎ ((n : ℕ) × (r ≡ ok n) × (n ≤ total))
Ended-result total (err e) w = inl (e, refl)
Ended-result total (ok n) (lo, hi) = inr (n, refl, hi)
Ended-result total stuck w = elim w [ ]

-- On any bytes, any definitions and any slice, Options.Unmarshal ends: it fails with an error, or it
-- has read no more bytes than there are.
pub unmarshal_options-ends :
    (defs : OptionDefs) (capacity : ℕ) (options : List CoapOption) (bytes : List ℕ)
    → ((e : Fault) × ((unmarshal_options defs capacity options bytes).1 ≡ err e))
      ⊎ ((n : ℕ) × ((unmarshal_options defs capacity options bytes).1 ≡ ok n) × (n ≤ length bytes))
unfolding unmarshal_options
unmarshal_options-ends defs capacity options bytes = Ended-result (length bytes) _ (
    loop-Ended (length bytes) defs capacity options 0 0 (length bytes) bytes (omega arith)
      (omega arith))
