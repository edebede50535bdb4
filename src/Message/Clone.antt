-- ===== src/Message/Clone.antt =====
-- message/options.go: ResetOptionsTo and Clone. What the slice holds after ErrTooSmall is left out: the
-- callers start again.
use go_coap.Message.Fault.{Result, ok, err, too_small_buffer}
use go_coap.Message.Defs.{CoapOption}
use go_coap.Message.Wire.{IsSortedFrom}
use go_coap.Message.Edit.{◌>>=◌, add_option}
use go_coap.Message.Edit.Split.{select, below, same, above, split_lem}
use go_coap.Message.Edit.Results.{add_option-sorted}
use go_coap.Prelude.{ltb, if◌then◌else◌, ltb→lt, le→not_ltb, Bool-cases}
use go_coap.Prelude.{length}
use go_coap.Prelude.{ℕ, ◌+◌, ◌-◌, ◌≤◌, ◌<◌}
use go_coap.Prelude.{◌≡◌, refl, sym, ap, ◌∙◌, inl, inr}
use go_coap.Prelude.{Option, none, some, List, [], ◌∷◌, ◌++◌, append-nil, append_assoc, arith}

abbrev values_size : List CoapOption → ℕ
values_size [] = 0
values_size (o ∷ os) = length o.value + values_size os

-- The loop of ResetOptionsTo: the number of bytes used, or needed, and the options.
unfoldable pub reset_loop :
    CoapOption → ℕ → List CoapOption → List CoapOption → ℕ → Option (ℕ × Result (List CoapOption))
reset_loop stale room [] opts used = some (used, ok opts)
reset_loop stale room (o ∷ os) opts used =
    if ltb room (length o.value)
    then some (used + values_size (o ∷ os), err too_small_buffer)
    else do
      opts' ← add_option stale o opts
      reset_loop stale (room - length o.value) os opts' (used + length o.value)

-- ResetOptionsTo(buf, in) with a buffer of `room` bytes
unfoldable pub reset_options_to :
    CoapOption → ℕ → List CoapOption → Option (ℕ × Result (List CoapOption))
reset_options_to stale room os = reset_loop stale room os [] 0

abbrev regrown :
    CoapOption
    → List CoapOption
    → Option (ℕ × Result (List CoapOption))
    → Option (Result (List CoapOption))
regrown stale os none = none
regrown stale os (some (used, err too_small_buffer)) = do
  (n, r) ← reset_options_to stale (64 + (used - 64)) os
  some r
regrown stale os (some (used, r)) = some r

-- Clone
unfoldable pub clone_options : CoapOption → List CoapOption → Option (Result (List CoapOption))
clone_options stale os = regrown stale os (reset_options_to stale 64 os)

front-IsSortedFrom :
    (p : ℕ) (ps qs : List CoapOption) → IsSortedFrom p (ps ++ qs) → IsSortedFrom p ps
front-IsSortedFrom p [] qs s = tt
front-IsSortedFrom p (o ∷ ps) qs (s, ss) = (s, front-IsSortedFrom o.id ps qs ss)

sorted-le :
    (p : ℕ) (ps : List CoapOption) (o : CoapOption) (qs : List CoapOption)
    → IsSortedFrom p (ps ++ (o ∷ qs))
    → p ≤ o.id
sorted-le p [] o qs (s, ss) = s
sorted-le p (q ∷ ps) o qs (s, ss) = omega (arith, s, sorted-le q.id ps o qs ss)

above-front :
    (p : ℕ) (ps : List CoapOption) (o : CoapOption) (qs : List CoapOption)
    → IsSortedFrom p (ps ++ (o ∷ qs))
    → above o.id ps ≡ []
unfolding select
above-front p [] o qs s = refl
above-front p (q ∷ ps) o qs (s, ss) =
    rw (le→not_ltb o.id q.id (sorted-le q.id ps o qs ss)) (above-front q.id ps o qs ss)

add_option-last :
    (stale : CoapOption) (ps : List CoapOption) (o : CoapOption) (qs : List CoapOption)
    → IsSortedFrom 0 (ps ++ (o ∷ qs))
    → add_option stale o ps ≡ some (ps ++ (o ∷ []))
add_option-last stale ps o qs s =
    let front = front-IsSortedFrom 0 ps (o ∷ qs) s in
    let none_above = above-front 0 ps o qs s in
    let parts : ps ≡ below o.id ps ++ same o.id ps =
      split_lem o.id 0 ps front ∙ rw (none_above, append-nil (same o.id ps)) refl in
    add_option-sorted stale o ps front
    ∙ rw none_above (
        ap some (
          sym (append_assoc (below o.id ps) (same o.id ps) (o ∷ []))
          ∙ ap (λ os. os ++ (o ∷ [])) (sym parts)))

-- With room for all values the options are those of the argument.
reset_loop-all :
    (stale : CoapOption) (room : ℕ) (qs ps : List CoapOption) (used : ℕ)
    → IsSortedFrom 0 (ps ++ qs)
    → values_size qs ≤ room
    → reset_loop stale room qs ps used ≡ some (used + values_size qs, ok (ps ++ qs))
unfolding reset_loop
reset_loop-all stale room [] ps used s h =
    let count : used ≡ used + 0 = omega arith in
    rw (append-nil ps) (ap (λ n. some (n, ok ps)) count)
reset_loop-all stale room (o ∷ qs) ps used s h =
    let s' : IsSortedFrom 0 ((ps ++ (o ∷ [])) ++ qs) = rw (append_assoc ps (o ∷ []) qs) s in
    let count : used + length o.value + values_size qs ≡ used + (length o.value + values_size qs) =
      omega arith in
    rw (le→not_ltb room (length o.value) (omega arith), add_option-last stale ps o qs s)
      (reset_loop-all stale (room - length o.value) qs (ps ++ (o ∷ [])) (used + length o.value) s'
          (omega arith)
        ∙ rw (append_assoc ps (o ∷ []) qs) (ap (λ n. some (n, ok (ps ++ (o ∷ qs)))) count))

-- Without room the loop says how many bytes all values need.
reset_loop-small :
    (stale : CoapOption) (room : ℕ) (qs ps : List CoapOption) (used : ℕ)
    → IsSortedFrom 0 (ps ++ qs)
    → room < values_size qs
    → reset_loop stale room qs ps used ≡ some (used + values_size qs, err too_small_buffer)
unfolding reset_loop
reset_loop-small stale room [] ps used s h = absurd (omega arith)
reset_loop-small stale room (o ∷ qs) ps used s h =
    let s' : IsSortedFrom 0 ((ps ++ (o ∷ [])) ++ qs) = rw (append_assoc ps (o ∷ []) qs) s in
    let count : used + length o.value + values_size qs ≡ used + (length o.value + values_size qs) =
      omega arith in
    elim (Bool-cases (ltb room (length o.value))) [
      | inl e ↦ rw e refl
      | inr e ↦
          rw (e, add_option-last stale ps o qs s)
            (reset_loop-small stale (room - length o.value) qs (ps ++ (o ∷ []))
                (used + length o.value) s' (ground (arith, e))
              ∙ ap (λ n. some (n, err too_small_buffer)) count)
    ]

-- Clone of sorted options, whatever their size, ends with no error and no panic, with the same options.
pub clone_options-same :
    (stale : CoapOption) (os : List CoapOption)
    → IsSortedFrom 0 os
    → clone_options stale os ≡ some (ok os)
unfolding clone_options reset_options_to
clone_options-same stale os s = elim (Bool-cases (ltb 64 (values_size os))) [
  | inl e ↦ rw (reset_loop-small stale 64 os [] 0 s (ltb→lt 64 (values_size os) e)) (
      rw
        (reset_loop-all stale (64 + (0 + values_size os - 64)) os [] 0 s
          (omega (arith, ltb→lt 64 (values_size os) e)))
        refl)
  | inr e ↦ rw (reset_loop-all stale 64 os [] 0 s (ground (arith, e))) refl
]
