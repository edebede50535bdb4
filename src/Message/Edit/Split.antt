-- ===== src/Message/Edit/Split.antt =====
-- A sorted slice of options, cut at a number into the smaller ones, the equal ones and the larger ones.
use go_coap.Message.Defs.{CoapOption}
use go_coap.Message.Search.{id_at}
use go_coap.Message.Search.Position.{Cut}
use go_coap.Message.Wire.{IsSortedFrom}
use go_coap.Prelude.{
  ltb, ◌==◌, if◌then◌else◌, ltb→lt, lt→ltb, le→not_ltb, ==→eq, ne→not==, Bool-cases,
}
use go_coap.Prelude.{length, All, length-append}
use go_coap.Prelude.{ℕ, zero, suc, ◌+◌, ◌-◌, ◌≤◌, ◌<◌}
use go_coap.Prelude.{◌≡◌, refl, ap, ◌∙◌, inl, inr, Bool, true}
use go_coap.Prelude.{List, [], ◌∷◌, ◌++◌, arith}

unfoldable pub select : (ℕ → Bool) → List CoapOption → List CoapOption
select test [] = []
select test (o ∷ os) = if test o.id then o ∷ select test os else select test os

abbrev pub below : ℕ → List CoapOption → List CoapOption
below id = select (λ n. ltb n id)

abbrev pub same : ℕ → List CoapOption → List CoapOption
same id = select (λ n. n == id)

abbrev pub above : ℕ → List CoapOption → List CoapOption
above id = select (λ n. ltb id n)

pub below-nil :
    (id prev : ℕ) (os : List CoapOption) → IsSortedFrom prev os → id ≤ prev → below id os ≡ []
unfolding select
below-nil id prev [] s h = refl
below-nil id prev (o ∷ os) (s, ss) h =
    rw (le→not_ltb o.id id (omega arith)) (below-nil id o.id os ss (omega arith))

same-nil : (id prev : ℕ) (os : List CoapOption) → IsSortedFrom prev os → id < prev → same id os ≡ []
unfolding select
same-nil id prev [] s h = refl
same-nil id prev (o ∷ os) (s, ss) h =
    rw (ne→not== o.id id (omega arith)) (same-nil id o.id os ss (omega arith))

-- A sorted slice is its three parts, one after the other.
pub split_lem :
    (id prev : ℕ) (os : List CoapOption)
    → IsSortedFrom prev os
    → os ≡ below id os ++ (same id os ++ above id os)
unfolding select
split_lem id prev [] s = refl
split_lem id prev (o ∷ os) (s, ss) =
    let ih = split_lem id o.id os ss in
    elim (Bool-cases (ltb o.id id)) [
      | inl less ↦
          rw (less, ne→not== o.id id (ground arith), le→not_ltb id o.id (ground arith))
            (ap (λ t. o ∷ t) ih)
      | inr not_less ↦ elim (Bool-cases (o.id == id)) [
        | inl equal ↦
            rw
              (
                not_less,
                equal,
                le→not_ltb id o.id (ground arith),
                below-nil id o.id os ss (ground arith),
              )
              (ap (λ t. o ∷ t) (ih ∙ rw (below-nil id o.id os ss (ground arith))))
        | inr differs ↦
            rw
              (
                not_less,
                differs,
                lt→ltb id o.id (ground arith),
                below-nil id o.id os ss (ground arith),
                same-nil id o.id os ss (ground arith),
              )
              (ap (λ t. o ∷ t)
                (ih
                  ∙ rw (
                    below-nil id o.id os ss (ground arith),
                    same-nil id o.id os ss (ground arith),
                  )))
      ]
    ]

select-All : (test : ℕ → Bool) (os : List CoapOption) → All (λ o. test o.id ≡ true) (select test os)
unfolding select
select-All test [] = tt
select-All test (o ∷ os) = elim (Bool-cases (test o.id)) [
  | inl e ↦ rw e (e, select-All test os)
  | inr e ↦ rw e (select-All test os)
]

-- The three parts as facts about indices.
id_at-left : (xs ys : List CoapOption) (i : ℕ) → i < length xs → id_at (xs ++ ys) i ≡ id_at xs i
id_at-left [] ys i h = absurd (omega arith)
id_at-left (x ∷ xs) ys zero h = refl
id_at-left (x ∷ xs) ys (suc i) h = id_at-left xs ys i (omega arith)

id_at-right :
    (xs ys : List CoapOption) (i : ℕ)
    → length xs ≤ i
    → id_at (xs ++ ys) i ≡ id_at ys (i - length xs)
id_at-right [] ys i h = ap (id_at ys) (omega arith)
id_at-right (x ∷ xs) ys zero h = absurd (omega arith)
id_at-right (x ∷ xs) ys (suc i) h = id_at-right xs ys i (omega arith) ∙ ap (id_at ys) (omega arith)

id_at-All :
    (test : ℕ → Bool) (xs : List CoapOption) (i : ℕ)
    → All (λ o. test o.id ≡ true) xs
    → i < length xs
    → test (id_at xs i) ≡ true
id_at-All test [] i a h = absurd (omega arith)
id_at-All test (x ∷ xs) zero (a, rest) h = a
id_at-All test (x ∷ xs) (suc i) (a, rest) h = id_at-All test xs i rest (omega arith)

module _ (id : ℕ) (os : List CoapOption) where
  abbrev lows : List CoapOption
  lows = below id os

  abbrev mids : List CoapOption
  mids = same id os

  abbrev highs : List CoapOption
  highs = above id os

  at_low : (i : ℕ) → i < length lows → id_at (lows ++ (mids ++ highs)) i < id
  at_low i h =
      rw (id_at-left lows (mids ++ highs) i h)
        (ltb→lt _ _ (id_at-All (λ n. ltb n id) lows i (select-All _ os) h))

  at_mid :
      (i : ℕ)
      → length lows ≤ i
      → i < length lows + length mids
      → id_at (lows ++ (mids ++ highs)) i ≡ id
  at_mid i h k =
      rw
        (
          id_at-right lows (mids ++ highs) i h,
          id_at-left mids highs (i - length lows) (omega arith),
        )
        (==→eq _ _
          (id_at-All (λ n. n == id) mids (i - length lows) (select-All _ os) (omega arith)))

  at_high :
      (i : ℕ)
      → length lows + length mids ≤ i
      → i < length lows + length mids + length highs
      → id < id_at (lows ++ (mids ++ highs)) i
  at_high i h k =
      rw
        (
          id_at-right lows (mids ++ highs) i (omega arith),
          id_at-right mids highs (i - length lows) (omega arith),
        )
        (ltb→lt _ _ (
          id_at-All (λ n. ltb id n) highs (i - length lows - length mids) (select-All _ os)
            (omega arith)))

  length-parts : length (lows ++ (mids ++ highs)) ≡ length lows + length mids + length highs
  length-parts = rw (length-append lows, length-append mids) (omega arith)

  pub parts-Cut : Cut id (lows ++ (mids ++ highs)) (length lows) (length lows + length mids)
  parts-Cut = record {
    lo_le_hi = omega arith;
    hi_le_len = omega (arith, length-parts);
    smaller = λ i h. at_low i h;
    not_smaller = λ i h k. elim (Bool-cases (ltb i (length lows + length mids))) [
      | inl m ↦ omega (arith, at_mid i h (ltb→lt _ _ m))
      | inr m ↦ omega (arith, at_high i (ground arith) (omega (arith, length-parts)))
    ];
    not_larger = λ i h. elim (Bool-cases (ltb i (length lows))) [
      | inl m ↦ omega (arith, at_low i (ltb→lt _ _ m))
      | inr m ↦ omega (arith, at_mid i (ground arith) h)
    ];
    larger = λ i h k. at_high i h (omega (arith, length-parts));
  }
