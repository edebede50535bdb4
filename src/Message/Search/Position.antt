-- ===== src/Message/Search/Position.antt =====
-- The binary search of Options.findPosition (message/options.go) on a sorted slice.
use go_coap.Message.Defs.{CoapOption}
use go_coap.Message.Search.{id_at, scan_up, scan_down, end_mark, find_loop, find_position}
use go_coap.Prelude.{ltb, ◌==◌, ltb→lt, lt→not_leb, ==→eq, Bool-cases}
use go_coap.Prelude.{length, drop}
use go_coap.Prelude.{ℤ, sub_ℕ}
use go_coap.Prelude.{ℕ, zero, suc, ◌+◌, ◌-◌, ◌/◌, ◌≤◌, ◌<◌}
use go_coap.Prelude.{◌≡◌, refl, ap₂, inl, inr, false}
use go_coap.Prelude.{Option, some, List, [], ◌∷◌, arith}

-- The options before `lo` have smaller numbers, those from `lo` to `hi` the number `id`, and
-- those from `hi` on larger ones.
pub record Cut (id : ℕ) (os : List CoapOption) (lo hi : ℕ) : Type 0 where
  pub lo_le_hi : lo ≤ hi
  pub hi_le_len : hi ≤ length os
  pub smaller : (i : ℕ) → i < lo → id_at os i < id
  pub not_smaller : (i : ℕ) → lo ≤ i → i < length os → id ≤ id_at os i
  pub not_larger : (i : ℕ) → i < hi → id_at os i ≤ id
  pub larger : (i : ℕ) → hi ≤ i → i < length os → id < id_at os i

-- What findPosition is to return.
abbrev pub position_of : List CoapOption → ℕ → ℕ → Option (ℤ × ℤ)
position_of os lo hi = some (sub_ℕ lo 1, end_mark os hi)

abbrev stop_at : ℕ → List CoapOption → ℕ → Option (ℤ × ℤ)
stop_at id os pivot = some (scan_down id os pivot, end_mark os (scan_up id pivot (drop pivot os)))

drop_step :
    (os : List CoapOption) (p : ℕ)
    → p < length os
    → (o : CoapOption) × (drop p os ≡ o ∷ drop (suc p) os) × (o.id ≡ id_at os p)
drop_step [] p h = absurd (omega arith)
drop_step (o ∷ os) zero h = (o, refl, refl)
drop_step (o ∷ os) (suc p) h = drop_step os p (omega arith)

drop_all : (os : List CoapOption) (p : ℕ) → length os ≤ p → drop p os ≡ []
drop_all [] zero h = refl
drop_all [] (suc p) h = refl
drop_all (o ∷ os) zero h = absurd (omega arith)
drop_all (o ∷ os) (suc p) h = drop_all os p (omega arith)

module _ {id : ℕ} {os : List CoapOption} {lo hi : ℕ} (c : Cut id os lo hi) where
  scan_up-cut : (k p : ℕ) → p ≤ hi → length os ≤ p + k → scan_up id p (drop p os) ≡ hi
  unfolding scan_up
  scan_up-cut zero p h e = rw (drop_all os p (omega arith)) (omega (arith, c.hi_le_len))
  scan_up-cut (suc k) p h e = elim (Bool-cases (ltb p (length os))) [
    | inr out ↦ rw (drop_all os p (ground arith)) (ground (arith, c.hi_le_len))
    | inl inside ↦
        let (o, split, at) = drop_step os p (ltb→lt _ _ inside) in
        rw (split, at) (ground (arith, c.not_larger p, c.larger p, scan_up-cut k (suc p)))
  ]

  scan_down-cut : (p : ℕ) → lo ≤ p + 1 → p < length os → scan_down id os p ≡ sub_ℕ lo 1
  unfolding scan_down
  scan_down-cut zero h e = ground (arith, c.smaller 0, c.not_smaller 0)
  scan_down-cut (suc p) h e =
      ground (arith, c.smaller (suc p), c.not_smaller (suc p), scan_down-cut p)

  -- The loop stops at `pivot` with the right answer if nothing is left between the bounds.
  stop-cut :
      (pivot : ℕ)
      → pivot ≤ hi
      → lo ≤ pivot + 1
      → pivot < length os
      → stop_at id os pivot ≡ position_of os lo hi
  stop-cut pivot h1 h2 h3 =
      ap₂ {C = Option (ℤ × ℤ)} (λ a b. some (a, end_mark os b)) (scan_down-cut pivot h2 h3)
        (scan_up-cut (length os) pivot h1 (omega arith))

  found-cut : (pivot : ℕ) → pivot < length os → id ≡ id_at os pivot → (lo ≤ pivot) × (pivot < hi)
  found-cut pivot h e = (ground (arith, c.smaller pivot), ground (arith, c.larger pivot))

  right-cut : (pivot : ℕ) → id < id_at os pivot → hi ≤ pivot
  right-cut pivot e = ground (arith, c.not_larger pivot)

  left-cut :
      (pivot : ℕ)
      → pivot < length os
      → (id == id_at os pivot) ≡ false
      → ltb id (id_at os pivot) ≡ false
      → pivot < lo
  left-cut pivot h e1 e2 = ground (arith, c.not_smaller pivot)

  -- The invariant behind the first round: `left` is before the options with the number `id`.
  loop-cut :
      (fuel left right pivot : ℕ)
      → left < lo
      → hi ≤ right
      → right ≤ length os
      → left ≤ pivot
      → pivot ≤ right
      → pivot < length os
      → (2 ≤ right - left → (left < pivot) × (pivot < right))
      → right - left < fuel
      → find_loop fuel id os left right pivot ≡ position_of os lo hi
  unfolding find_loop
  loop-cut zero left right pivot h1 h2 h3 h4 h5 h6 h7 h8 = absurd (omega arith)
  loop-cut (suc fuel) left right pivot h1 h2 h3 h4 h5 h6 h7 h8 =
      rw (lt→not_leb (length os) pivot h6) (elim (Bool-cases (id == id_at os pivot)) [
        | inl e ↦
            let (at_least, at_most) = found-cut pivot h6 (==→eq _ _ e) in
            rw e (stop-cut pivot (omega arith) (omega arith) h6)
        | inr e ↦ elim (Bool-cases ((right - left) / 2 == 0)) [
          | inl near ↦
              let gap : (right - left) / 2 ≡ 0 = ==→eq _ _ near in
              rw (e, near)
                (stop-cut pivot (omega (arith, c.lo_le_hi)) (omega (arith, c.lo_le_hi)) h6)
          | inr far ↦
              let wide : 2 ≤ right - left = ground arith in
              let (after_left, before_right) = h7 wide in
              elim (Bool-cases (ltb id (id_at os pivot))) [
                | inl less ↦
                    rw (e, far, less)
                      (loop-cut fuel left pivot (pivot - (pivot - left) / 2) h1
                        (right-cut pivot (ltb→lt _ _ less)) (omega arith) (omega arith)
                        (omega arith) (omega arith) (λ w. (omega arith, omega arith)) (omega arith))
                | inr more ↦
                    rw (e, far, more)
                      (loop-cut fuel pivot right (pivot + (right - pivot) / 2)
                        (left-cut pivot h6 e more) h2 h3 (omega arith) (omega arith) (omega arith)
                        (λ w. (omega arith, omega arith)) (omega arith))
              ]
        ]
      ])

  -- The first round, at pivot 0.
  first_round-cut :
      (fuel right : ℕ)
      → hi ≤ right
      → right ≤ length os
      → 0 < length os
      → 1 + right < fuel
      → find_loop fuel id os 0 right 0 ≡ position_of os lo hi
  unfolding find_loop
  first_round-cut zero right h2 h3 h6 h8 = absurd (omega arith)
  first_round-cut (suc fuel) right h2 h3 h6 h8 =
      rw (lt→not_leb (length os) 0 h6) (elim (Bool-cases (id == id_at os 0)) [
        | inl e ↦
            let (at_least, at_most) = found-cut 0 h6 (==→eq _ _ e) in
            rw e (stop-cut 0 (omega arith) (omega arith) h6)
        | inr e ↦ elim (Bool-cases ((right - 0) / 2 == 0)) [
          | inl near ↦
              let gap : (right - 0) / 2 ≡ 0 = ==→eq _ _ near in
              rw (e, near) (stop-cut 0 (omega arith) (omega (arith, c.lo_le_hi)) h6)
          | inr far ↦
              let wide : 2 ≤ right - 0 = ground arith in
              elim (Bool-cases (ltb id (id_at os 0))) [
                | inl less ↦
                    rw (e, far, less)
                      (first_round-cut fuel 0 (right-cut 0 (ltb→lt _ _ less)) (omega arith) h6
                        (omega arith))
                | inr more ↦
                    rw (e, far, more)
                      (loop-cut fuel 0 right (0 + (right - 0) / 2) (left-cut 0 h6 e more) h2 h3
                        (omega arith) (omega arith) (omega arith) (λ w. (omega arith, omega arith))
                        (omega arith))
              ]
        ]
      ])

-- findPosition on a slice, not empty, that `lo` and `hi` cut at `id`.
pub find_position-Cut :
    (id : ℕ) (os : List CoapOption) {lo hi : ℕ}
    → 0 < length os
    → Cut id os lo hi
    → find_position id os ≡ position_of os lo hi
unfolding find_position
find_position-Cut id [] h c = absurd (omega arith)
find_position-Cut id (o ∷ os) h c =
    first_round-cut c _ _ c.hi_le_len (omega arith) (omega arith) (omega arith)
