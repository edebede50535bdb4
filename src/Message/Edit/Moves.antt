-- ===== src/Message/Edit/Moves.antt =====
-- What the loops of Message/Edit do to a slice.
use go_coap.Message.Defs.{CoapOption}
use go_coap.Message.Edit.{◌>>=◌, put, copy_cell, move_up, move_down}
use go_coap.Prelude.{lt→ltb, le→not_ltb}
use go_coap.Prelude.{length, get_elem?, set, length-append}
use go_coap.Prelude.{ℕ, zero, suc, ◌+◌, ◌≤◌, ◌<◌}
use go_coap.Prelude.{◌≡◌, refl, sym, ap, ◌∙◌}
use go_coap.Prelude.{some, List, [], ◌∷◌, ◌++◌, append_assoc, arith}

get-middle :
    (xs : List CoapOption) (o : CoapOption) (ys : List CoapOption)
    → get_elem? (xs ++ (o ∷ ys)) (length xs) ≡ some o
get-middle [] o ys = refl
get-middle (x ∷ xs) o ys = get-middle xs o ys

set-middle :
    (xs : List CoapOption) (o v : CoapOption) (ys : List CoapOption)
    → set (xs ++ (o ∷ ys)) (length xs) v ≡ xs ++ (v ∷ ys)
set-middle [] o v ys = refl
set-middle (x ∷ xs) o v ys = ap (λ t. x ∷ t) (set-middle xs o v ys)

pub put-middle :
    (xs : List CoapOption) (o v : CoapOption) (ys : List CoapOption)
    → put (xs ++ (o ∷ ys)) (length xs) v ≡ some (xs ++ (v ∷ ys))
unfolding put
put-middle xs o v ys = rw (
  lt→ltb (length xs) (length (xs ++ (o ∷ ys))) (omega (arith, length-append xs (o ∷ ys))),
  set-middle xs o v ys,
)

-- A slice with the cells of `r`, last first, in front.
abbrev pub rev_onto : List CoapOption → List CoapOption → List CoapOption
rev_onto [] ys = ys
rev_onto (m ∷ r) ys = rev_onto r (m ∷ ys)

rev_onto-append : (r ys : List CoapOption) → rev_onto r ys ≡ rev_onto r [] ++ ys
rev_onto-append [] ys = refl
rev_onto-append (m ∷ r) ys =
    rev_onto-append r (m ∷ ys)
    ∙ sym (append_assoc (rev_onto r []) (m ∷ []) ys)
    ∙ ap (λ t. t ++ ys) (sym (rev_onto-append r (m ∷ [])))

length-rev_onto : (r ys : List CoapOption) → length (rev_onto r ys) ≡ length r + length ys
length-rev_onto [] ys = omega arith
length-rev_onto (m ∷ r) ys = omega (arith, length-rev_onto r (m ∷ ys))

-- Copying a cell over the one behind it.
copy-next :
    (p : List CoapOption) (m z : CoapOption) (ys : List CoapOption) (i : ℕ)
    → i ≡ length p
    → copy_cell (p ++ (m ∷ z ∷ ys)) (suc i) i ≡ some (p ++ (m ∷ m ∷ ys))
unfolding copy_cell
copy-next p m z ys i e =
    let at : suc i ≡ length (p ++ m ∷ []) = omega (arith, length-append p (m ∷ [])) in
    rw (e, get-middle p m (z ∷ ys), ← e, at, ← append_assoc p (m ∷ []) (z ∷ ys), put-middle)
      (ap some (append_assoc p (m ∷ []) (m ∷ ys)))

-- Copying a cell over an earlier one.
copy-down :
    (a : List CoapOption) (y : CoapOption) (b : List CoapOption) (x : CoapOption)
    (ys : List CoapOption) (from : ℕ)
    → from ≡ length a + suc (length b)
    → copy_cell (a ++ (y ∷ (b ++ (x ∷ ys)))) (length a) from ≡ some (a ++ (x ∷ (b ++ (x ∷ ys))))
unfolding copy_cell
copy-down a y b x ys from e =
    let at : from ≡ length (a ++ (y ∷ b)) = omega (arith, length-append a (y ∷ b)) in
    let found : get_elem? (a ++ (y ∷ (b ++ (x ∷ ys)))) from ≡ some x =
      rw (at, ← append_assoc a (y ∷ b) (x ∷ ys)) (get-middle (a ++ (y ∷ b)) x ys) in
    rw found (put-middle a y x (b ++ (x ∷ ys)))

copy_self :
    (a : List CoapOption) (x : CoapOption) (ys : List CoapOption)
    → copy_cell (a ++ (x ∷ ys)) (length a) (length a) ≡ some (a ++ (x ∷ ys))
unfolding copy_cell
copy_self a x ys = rw (get-middle a x ys) (put-middle a x x ys)

move_up-stop : (last i : ℕ) (os : List CoapOption) → i ≤ last → move_up last i os ≡ some os
unfolding move_up
move_up-stop last zero os h = refl
move_up-stop last (suc i) os h = rw (le→not_ltb last (suc i) h)

move_up-step :
    (last i : ℕ) (os os' : List CoapOption)
    → last < suc i
    → copy_cell os (suc i) i ≡ some os'
    → move_up last (suc i) os ≡ move_up last i os'
unfolding move_up
move_up-step last i os os' h e = rw (lt→ltb last (suc i) h, e)

-- Moving the cells of `r` up by one, over the cell `z`, and writing `v` into the gap.
pub move_up-put :
    (xs r : List CoapOption) (z v : CoapOption) (ys : List CoapOption) (i : ℕ)
    → i ≡ length xs + length r
    → (move_up (length xs) i (xs ++ rev_onto r (z ∷ ys)) >>= λ os. put os (length xs) v)
      ≡ some (xs ++ (v ∷ rev_onto r ys))
move_up-put xs [] z v ys i e =
    rw (move_up-stop (length xs) i (xs ++ (z ∷ ys)) (omega arith)) (put-middle xs z v ys)
move_up-put xs (m ∷ r) z v ys zero e = absurd (omega arith)
move_up-put xs (m ∷ r) z v ys (suc i) e =
    let p = xs ++ rev_onto r [] in
    let split = λ (w : List CoapOption).
      sym (append_assoc xs (rev_onto r []) w ∙ ap (λ t. xs ++ t) (sym (rev_onto-append r w))) in
    let len : i ≡ length p =
      omega (arith, length-append xs (rev_onto r []), length-rev_onto r []) in
    let copied : copy_cell (xs ++ rev_onto r (m ∷ z ∷ ys)) (suc i) i
        ≡ some (xs ++ rev_onto r (m ∷ m ∷ ys)) =
      rw (split (m ∷ z ∷ ys)) (copy-next p m z ys i len ∙ ap some (sym (split (m ∷ m ∷ ys)))) in
    rw (move_up-step (length xs) i _ _ (omega arith) copied)
      (move_up-put xs r m v (m ∷ ys) i (omega arith))

move_down-step :
    (count from to : ℕ) (os os' : List CoapOption)
    → copy_cell os to from ≡ some os'
    → move_down (suc count) from to os ≡ move_down count (suc from) (suc to) os'
unfolding move_down
move_down-step count from to os os' e = rw e

-- Moving the cells of `c` down over those of `b`.
pub move_down-over :
    (a b c tail : List CoapOption) (from to : ℕ)
    → from ≡ length a + length b
    → to ≡ length a
    → (junk : List CoapOption) × (move_down (length c) from to (a ++ (b ++ (c ++ tail)))
        ≡ some (a ++ (c ++ junk)))
move_down-over a b [] tail from to ef et = (b ++ tail, unfold move_down in refl)
move_down-over a [] (x ∷ c) tail from to ef et =
    let a' = a ++ x ∷ [] in
    let (junk, moved) =
      move_down-over a' [] c tail (suc from) (suc to) (omega (arith, length-append a (x ∷ [])))
        (omega (arith, length-append a (x ∷ []))) in
    let same : from ≡ length a = omega arith in
    let copied : copy_cell (a ++ (x ∷ (c ++ tail))) to from ≡ some (a' ++ (c ++ tail)) =
      rw (et, same)
        (copy_self a x (c ++ tail) ∙ ap some (sym (append_assoc a (x ∷ []) (c ++ tail)))) in
    (
      junk,
      move_down-step (length c) from to _ _ copied
          ∙ moved
          ∙ ap some (append_assoc a (x ∷ []) (c ++ junk)),
    )
move_down-over a (y ∷ b) (x ∷ c) tail from to ef et =
    let a' = a ++ x ∷ [] in
    let b' = b ++ x ∷ [] in
    let (junk, moved) =
      move_down-over a' b' c tail (suc from) (suc to)
        (omega (arith, length-append a (x ∷ []), length-append b (x ∷ [])))
        (omega (arith, length-append a (x ∷ []))) in
    let shape : a ++ (x ∷ (b ++ (x ∷ (c ++ tail)))) ≡ a' ++ (b' ++ (c ++ tail)) =
      simp append_assoc in
    let copied : copy_cell (a ++ (y ∷ (b ++ (x ∷ (c ++ tail))))) to from
        ≡ some (a' ++ (b' ++ (c ++ tail))) =
      rw et (copy-down a y b x (c ++ tail) from ef ∙ ap some shape) in
    (
      junk,
      move_down-step (length c) from to _ _ copied
          ∙ moved
          ∙ ap some (append_assoc a (x ∷ []) (c ++ junk)),
    )
