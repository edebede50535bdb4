-- ===== src/Message/Path/Segments.antt =====
-- message/options.go: adding options with one number, one after the other.
use go_coap.Message.Defs.{CoapOption}
use go_coap.Message.Wire.{IsSortedFrom}
use go_coap.Message.Edit.{add_option}
use go_coap.Message.Edit.Split.{select, below, same, above, below-nil}
use go_coap.Message.Edit.Results.{add_option-sorted}
use go_coap.Pool.Laws.{select-append, select-none, select-same}
use go_coap.Prelude.{ltb, ◌==◌, ltb→lt, le→not_ltb, Bool-cases}
use go_coap.Prelude.{ℕ, ◌≤◌, max}
use go_coap.Prelude.{◌≡◌, refl, sym, ap, ◌∙◌, inl, inr, Bool, true, false}
use go_coap.Prelude.{some, List, [], ◌∷◌, ◌++◌, map, append-nil, arith}

module _ (id : ℕ) where
  abbrev pub options_of : List (List ℕ) → List CoapOption
  options_of values = map (λ v. record { id = id; value = v }) values

  -- Options with other numbers than `id`, and the values of those with `id`.
  abbrev pub with_values : List CoapOption → List (List ℕ) → List CoapOption
  with_values os values = below id os ++ (options_of values ++ above id os)

  select-options_of-true :
      (test : ℕ → Bool) (values : List (List ℕ))
      → test id ≡ true
      → select test (options_of values) ≡ options_of values
  unfolding select
  select-options_of-true test [] h = refl
  select-options_of-true test (v ∷ values) h =
      rw h (ap (λ os. record { id = id; value = v } ∷ os) (select-options_of-true test values h))

  select-options_of-false :
      (test : ℕ → Bool) (values : List (List ℕ))
      → test id ≡ false
      → select test (options_of values) ≡ []
  unfolding select
  select-options_of-false test [] h = refl
  select-options_of-false test (v ∷ values) h = rw h (select-options_of-false test values h)

  select-with_values :
      (test : ℕ → Bool) (os : List CoapOption) (values : List (List ℕ))
      → select test (with_values os values)
        ≡ select test (below id os)
          ++ (select test (options_of values) ++ select test (above id os))
  select-with_values test os values =
      select-append test (below id os) (options_of values ++ above id os)
      ∙ ap (λ rest. select test (below id os) ++ rest)
          (select-append test (options_of values) (above id os))

  pub below-with_values :
      (os : List CoapOption) (values : List (List ℕ))
      → below id (with_values os values) ≡ below id os
  below-with_values os values =
      select-with_values (λ n. ltb n id) os values
      ∙ rw
          (
            select-same (λ n. ltb n id) (λ n. ltb n id) os (λ n e. e),
            select-options_of-false (λ n. ltb n id) values (ground arith),
            select-none (λ n. ltb n id) (λ n. ltb id n) os (λ n e. ground arith),
          )
          (append-nil (below id os))

  pub same-with_values :
      (os : List CoapOption) (values : List (List ℕ))
      → same id (with_values os values) ≡ options_of values
  same-with_values os values =
      select-with_values (λ n. n == id) os values
      ∙ rw
          (
            select-none (λ n. n == id) (λ n. ltb n id) os (λ n e. ground arith),
            select-options_of-true (λ n. n == id) values (ground arith),
            select-none (λ n. n == id) (λ n. ltb id n) os (λ n e. ground arith),
          )
          (append-nil (options_of values))

  above-with_values :
      (os : List CoapOption) (values : List (List ℕ))
      → above id (with_values os values) ≡ above id os
  above-with_values os values =
      select-with_values (λ n. ltb id n) os values
      ∙ rw
          (
            select-none (λ n. ltb id n) (λ n. ltb n id) os (λ n e. ground arith),
            select-options_of-false (λ n. ltb id n) values (ground arith),
            select-same (λ n. ltb id n) (λ n. ltb id n) os (λ n e. e),
          )
          refl

  above-IsSortedFrom :
      (p q : ℕ) (os : List CoapOption)
      → IsSortedFrom p os
      → q ≤ max id p
      → IsSortedFrom q (above id os)
  unfolding select
  above-IsSortedFrom p q [] s h = tt
  above-IsSortedFrom p q (o ∷ os) (s, ss) h = elim (Bool-cases (ltb id o.id)) [
    | inl e ↦
        rw e (omega (arith, ltb→lt id o.id e), above-IsSortedFrom o.id o.id os ss (omega arith))
    | inr e ↦ rw e (above-IsSortedFrom o.id q os ss (omega arith))
  ]

  behind-IsSortedFrom :
      (p q : ℕ) (values : List (List ℕ)) (os : List CoapOption)
      → IsSortedFrom p os
      → q ≤ id
      → IsSortedFrom q (options_of values ++ above id os)
  behind-IsSortedFrom p q [] os s h = above-IsSortedFrom p q os s (omega arith)
  behind-IsSortedFrom p q (v ∷ values) os s h =
      (h, behind-IsSortedFrom p id values os s (omega arith))

  pub with_values-IsSortedFrom :
      (p : ℕ) (os : List CoapOption) (values : List (List ℕ))
      → IsSortedFrom p os
      → p ≤ id
      → IsSortedFrom p (with_values os values)
  unfolding select
  with_values-IsSortedFrom p [] values s h = behind-IsSortedFrom p p values [] s h
  with_values-IsSortedFrom p (o ∷ os) values (s, ss) h = elim (Bool-cases (ltb o.id id)) [
    | inl e ↦
        rw (e, le→not_ltb id o.id (omega (arith, ltb→lt o.id id e)))
          (s, with_values-IsSortedFrom o.id os values ss (omega (arith, ltb→lt o.id id e)))
    | inr e ↦
        let bigger : id ≤ o.id = ground (arith, e) in
        rw (e, below-nil id o.id os ss bigger) (behind-IsSortedFrom p p values (o ∷ os) (s, ss) h)
  ]

  options_of-snoc :
      (values : List (List ℕ)) (v : List ℕ) (rest : List CoapOption)
      → options_of (values ++ v ∷ []) ++ rest
        ≡ options_of values ++ (record { id = id; value = v } ∷ rest)
  options_of-snoc [] v rest = refl
  options_of-snoc (w ∷ values) v rest =
      ap (λ os. record { id = id; value = w } ∷ os) (options_of-snoc values v rest)

  -- Add of one value more
  pub add_option-with_values :
      (stale : CoapOption) (os : List CoapOption) (values : List (List ℕ)) (v : List ℕ)
      → IsSortedFrom 0 os
      → add_option stale (record { id = id; value = v }) (with_values os values)
        ≡ some (with_values os (values ++ v ∷ []))
  add_option-with_values stale os values v s =
      add_option-sorted stale (record { id = id; value = v }) (with_values os values)
        (with_values-IsSortedFrom 0 os values s (omega arith))
      ∙ rw (below-with_values os values, same-with_values os values, above-with_values os values)
          (ap (λ rest. some (below id os ++ rest)) (sym (options_of-snoc values v (above id os))))
