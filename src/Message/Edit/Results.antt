-- ===== src/Message/Edit/Results.antt =====
-- What Set, Add, Remove and Find of message/options.go do to a sorted slice.
use go_coap.Message.Defs.{CoapOption}
use go_coap.Message.Search.{find_position, find_range, find, end_mark}
use go_coap.Message.Search.Position.{Cut, find_position-Cut}
use go_coap.Message.Wire.{IsSortedFrom}
use go_coap.Message.Edit.{
  ◌>>=◌, put, move_up, replace_all, replace, move, plan_set, run_plan, set_option, add_option,
  remove_range, remove_option,
}
use go_coap.Message.Edit.Moves.{put-middle, rev_onto, move_up-put, move_down-over}
use native.Mathlib.Nat.{add-zero}
use go_coap.Message.Edit.Split.{select, below, same, above, split_lem, parts-Cut}
use go_coap.Prelude.{◌==◌, if◌then◌else◌, lt→ltb, le→not_ltb, ne→not==}
use go_coap.Prelude.{length, take, length-append, take-append}
use go_coap.Prelude.{ℤ, negsuc, pos_part, sub_ℕ, eq_ℤ}
use go_coap.Prelude.{ℕ, suc, ◌+◌, ◌-◌, ◌<◌}
use go_coap.Prelude.{◌≡◌, refl, sym, ap, ◌∙◌, ◌≢◌, ◌⊎◌}
use go_coap.Prelude.{Option, none, some, List, [], ◌∷◌, ◌++◌, append-nil, append_assoc, arith}

-- The lists of a slice in three parts.
module _ (lows mids highs : List CoapOption) where
  abbrev parts : List CoapOption
  parts = lows ++ (mids ++ highs)

  -- The positions found in a slice that is not empty.
  abbrev pre_of : ℤ
  pre_of = sub_ℕ (length lows) 1

  abbrev post_of : ℤ
  post_of = end_mark parts (length lows + length mids)

  length-parts : length parts ≡ length lows + length mids + length highs
  length-parts = rw (length-append lows, length-append mids) (omega arith)

  plan-move :
      0 < length lows + length highs
      → (length mids ≢ 1) ⊎ (length lows ≡ 0)
      → plan_set pre_of post_of (length parts)
        ≡ move (length lows) (length lows + 1) (length lows + length mids)
  unfolding plan_set
  plan-move h k = ground (arith, length-parts)

  plan-replace :
      0 < length lows
      → length mids ≡ 1
      → plan_set pre_of post_of (length parts) ≡ replace (length lows)
  unfolding plan_set
  plan-replace h k = ground (arith, length-parts)

  plan-all :
      length lows ≡ 0
      → length highs ≡ 0
      → 0 < length mids
      → plan_set pre_of post_of (length parts) ≡ replace_all
  unfolding plan_set
  plan-all h k l = ground (arith, length-parts)

rev-rev_onto :
    (xs acc ys : List CoapOption) → rev_onto (rev_onto xs acc) ys ≡ rev_onto acc (xs ++ ys)
rev-rev_onto [] acc ys = refl
rev-rev_onto (x ∷ xs) acc ys = rev-rev_onto xs (x ∷ acc) ys

length-rev : (xs acc : List CoapOption) → length (rev_onto xs acc) ≡ length xs + length acc
length-rev [] acc = omega arith
length-rev (x ∷ xs) acc = omega (arith, length-rev xs (x ∷ acc))

take_all : (n : ℕ) (xs : List CoapOption) → length xs ≡ n → take n xs ≡ xs
take_all n xs h =
    rw (← h, ← append-nil xs)
      (rw append-nil (ap (λ t. take (length xs) t) (sym (append-nil xs)) ∙ take-append xs []))

bind-two :
    (m : Option (List CoapOption)) (i : ℕ) (v : CoapOption)
    (f : List CoapOption → Option (List CoapOption)) (r : List CoapOption)
    → (m >>= λ os. put os i v) ≡ some r
    → (m >>= λ os. put os i v >>= f) ≡ f r
bind-two none i v f r h = cc
bind-two (some os) i v f r h = rw h

-- Making room for one option and writing it there.
pub insert_at :
    (lows highs : List CoapOption) (stale opt : CoapOption) (n : ℕ)
    → n ≡ length lows + length highs
    → (move_up (length lows) n ((lows ++ highs) ++ stale ∷ []) >>= λ os. put os (length lows) opt)
      ≡ some (lows ++ (opt ∷ highs))
insert_at lows highs stale opt n e =
    let r = rev_onto highs [] in
    let shape : (lows ++ highs) ++ stale ∷ [] ≡ lows ++ rev_onto r (stale ∷ []) =
      append_assoc lows highs (stale ∷ [])
      ∙ ap (λ t. lows ++ t) (sym (rev-rev_onto highs [] (stale ∷ []))) in
    let tail : rev_onto r [] ≡ highs = rev-rev_onto highs [] [] ∙ append-nil highs in
    rw shape (
      move_up-put lows r stale opt [] n (omega (arith, length-rev highs []))
      ∙ ap (λ t. some (lows ++ (opt ∷ t))) tail)

run-insert :
    (lows highs : List CoapOption) (stale opt : CoapOption)
    → run_plan stale opt (lows ++ highs) (move (length lows) (length lows + 1) (length lows + 0))
      ≡ some (lows ++ (opt ∷ highs))
unfolding run_plan
run-insert lows highs stale opt =
    let n = length (lows ++ highs) in
    let len : n ≡ length lows + length highs = length-append lows highs in
    let whole : length (lows ++ (opt ∷ highs)) ≡ length lows + 1 + (n - (length lows + 0)) =
      omega (arith, len, length-append lows (opt ∷ highs)) in
    let moved : (move_up (length lows + 0) n ((lows ++ highs) ++ stale ∷ []) >>= λ os.
    put os (length lows) opt)
        ≡ some (lows ++ (opt ∷ highs)) =
      rw add-zero (insert_at lows highs stale opt n len) in
    rw (lt→ltb (length lows + 0) (length lows + 1) (omega arith)) (
      bind-two _ (length lows) opt _ _ moved
      ∙ ap some (take_all (length lows + 1 + (n - (length lows + 0))) _ whole))

run-shrink :
    (lows : List CoapOption) (m : CoapOption) (mids highs : List CoapOption)
    (stale opt : CoapOption)
    → run_plan stale opt
        (lows ++ (m ∷ (mids ++ highs)))
        (move (length lows) (length lows + 1) (length lows + suc (length mids)))
      ≡ some (lows ++ (opt ∷ highs))
unfolding run_plan
run-shrink lows m mids highs stale opt =
    let from = length lows + suc (length mids) in
    let to = length lows + 1 in
    let n = length (lows ++ (m ∷ (mids ++ highs))) in
    let a = lows ++ m ∷ [] in
    let len : n ≡ from + length highs =
      omega (arith, length-append lows (m ∷ (mids ++ highs)), length-append mids highs) in
    let count : n - from ≡ length highs = omega arith in
    let (junk, moved) =
      move_down-over a mids highs (stale ∷ []) from to (omega (arith, length-append lows (m ∷ [])))
        (omega (arith, length-append lows (m ∷ []))) in
    let shape : (lows ++ (m ∷ (mids ++ highs))) ++ stale ∷ []
        ≡ a ++ (mids ++ (highs ++ stale ∷ [])) =
      simp append_assoc in
    let written : put (a ++ (highs ++ junk)) (length lows) opt
        ≡ some ((lows ++ (opt ∷ highs)) ++ junk) =
      rw (append_assoc lows (m ∷ []) (highs ++ junk)) (
        put-middle lows m opt (highs ++ junk)
        ∙ ap some (sym (append_assoc lows (opt ∷ highs) junk))) in
    let size : to + length highs ≡ length (lows ++ (opt ∷ highs)) =
      omega (arith, length-append lows (opt ∷ highs)) in
    rw (
      le→not_ltb from to (omega arith),
      shape,
      count,
      moved,
      written,
      size,
      take-append (lows ++ (opt ∷ highs)) junk,
    )

run-replace :
    (lows : List CoapOption) (m : CoapOption) (highs : List CoapOption) (stale opt : CoapOption)
    → run_plan stale opt (lows ++ (m ∷ highs)) (replace (length lows))
      ≡ some (lows ++ (opt ∷ highs))
unfolding run_plan
run-replace lows m highs stale opt = put-middle lows m opt highs

set-parts :
    (lows mids highs : List CoapOption) (stale opt : CoapOption)
    → Cut opt.id (parts lows mids highs) (length lows) (length lows + length mids)
    → set_option stale opt (parts lows mids highs) ≡ some (lows ++ (opt ∷ highs))
unfolding set_option
set-parts [] [] [] stale opt c = unfold find_position plan_set run_plan move_up put in refl
set-parts [] [] (h ∷ highs) stale opt c =
    rw
      (
        find_position-Cut opt.id (h ∷ highs) (omega arith) c,
        plan-move [] [] (h ∷ highs) (omega arith) (omega arith),
      )
      (run-insert [] (h ∷ highs) stale opt)
set-parts [] (m ∷ mids) [] stale opt c =
    rw
      (
        find_position-Cut opt.id (m ∷ (mids ++ [])) (omega arith) c,
        plan-all [] (m ∷ mids) [] refl refl (omega arith),
      )
      (unfold run_plan in refl)
set-parts [] (m ∷ mids) (h ∷ highs) stale opt c =
    rw
      (
        find_position-Cut opt.id (m ∷ (mids ++ (h ∷ highs))) (omega arith) c,
        plan-move [] (m ∷ mids) (h ∷ highs) (omega arith) (omega arith),
      )
      (run-shrink [] m mids (h ∷ highs) stale opt)
set-parts (l ∷ lows) [] highs stale opt c =
    rw
      (
        find_position-Cut opt.id (l ∷ (lows ++ highs)) (omega arith) c,
        plan-move (l ∷ lows) [] highs (omega arith) (omega arith),
      )
      (run-insert (l ∷ lows) highs stale opt)
set-parts (l ∷ lows) (m ∷ []) highs stale opt c =
    rw
      (
        find_position-Cut opt.id (l ∷ (lows ++ (m ∷ highs))) (omega arith) c,
        plan-replace (l ∷ lows) (m ∷ []) highs (omega arith) refl,
      )
      (run-replace (l ∷ lows) m highs stale opt)
set-parts (l ∷ lows) (m ∷ m2 ∷ mids) highs stale opt c =
    rw
      (
        find_position-Cut opt.id (l ∷ (lows ++ (m ∷ m2 ∷ (mids ++ highs)))) (omega arith) c,
        plan-move (l ∷ lows) (m ∷ m2 ∷ mids) highs (omega arith) (omega arith),
      )
      (run-shrink (l ∷ lows) m (m2 ∷ mids) highs stale opt)

-- Set on a sorted slice never panics. It leaves the options with smaller numbers, then the new
-- option, then those with larger numbers, whatever stands in the array behind the slice.
pub set_option-sorted :
    (stale opt : CoapOption) (os : List CoapOption)
    → IsSortedFrom 0 os
    → set_option stale opt os ≡ some (below opt.id os ++ (opt ∷ above opt.id os))
set_option-sorted stale opt os s =
    ap (set_option stale opt) (split_lem opt.id 0 os s)
    ∙ set-parts (below opt.id os) (same opt.id os) (above opt.id os) stale opt (parts-Cut opt.id os)

add_index_lem :
    (lows mids highs : List CoapOption)
    → (if eq_ℤ (post_of lows mids highs) (negsuc 0)
        then length (parts lows mids highs)
        else pos_part (post_of lows mids highs))
      ≡ length lows + length mids
add_index_lem lows mids highs = ground (arith, length-parts lows mids highs)

add-insert :
    (lows mids highs : List CoapOption) (stale opt : CoapOption)
    → (move_up
          (length lows + length mids)
          (length (parts lows mids highs))
          (parts lows mids highs ++ stale ∷ [])
        >>= λ os. put os (length lows + length mids) opt)
      ≡ some (lows ++ (mids ++ (opt ∷ highs)))
add-insert lows mids highs stale opt =
    rw (← length-append lows mids, ← append_assoc lows mids highs)
      (insert_at (lows ++ mids) highs stale opt _ (length-append (lows ++ mids) highs)
        ∙ ap some (append_assoc lows mids (opt ∷ highs)))

add-parts :
    (lows mids highs : List CoapOption) (stale opt : CoapOption)
    → 0 < length (parts lows mids highs)
    → Cut opt.id (parts lows mids highs) (length lows) (length lows + length mids)
    → add_option stale opt (parts lows mids highs) ≡ some (lows ++ (mids ++ (opt ∷ highs)))
unfolding add_option
add-parts lows mids highs stale opt h c =
    rw (find_position-Cut opt.id (parts lows mids highs) h c, add_index_lem lows mids highs)
      (add-insert lows mids highs stale opt)

-- Add on a sorted slice never panics, and inserts the option behind all those with a number that is
-- smaller or the same.
pub add_option-sorted :
    (stale opt : CoapOption) (os : List CoapOption)
    → IsSortedFrom 0 os
    → add_option stale opt os
      ≡ some (below opt.id os ++ (same opt.id os ++ (opt ∷ above opt.id os)))
add_option-sorted stale opt [] s = unfold add_option find_position move_up put select in refl
add_option-sorted stale opt (o ∷ os) s =
    let whole = split_lem opt.id 0 (o ∷ os) s in
    ap (add_option stale opt) whole
    ∙ add-parts (below opt.id (o ∷ os)) (same opt.id (o ∷ os)) (above opt.id (o ∷ os)) stale opt
        (omega (arith, ap length whole)) (parts-Cut opt.id (o ∷ os))

range-parts :
    (lows mids highs : List CoapOption)
    → find_range (pre_of lows mids highs) (post_of lows mids highs) (length (parts lows mids highs))
      ≡ (if length mids == 0 then none else some (length lows, length lows + length mids))
unfolding find_range
range-parts lows mids highs = ground (arith, length-parts lows mids highs)

find-parts :
    (id : ℕ) (lows mids highs : List CoapOption)
    → Cut id (parts lows mids highs) (length lows) (length lows + length mids)
    → find id (parts lows mids highs)
      ≡ some (if length mids == 0 then none else some (length lows, length lows + length mids))
unfolding find
find-parts id [] [] [] c = unfold find_position find_range in refl
find-parts id [] [] (h ∷ highs) c =
    rw (find_position-Cut id (h ∷ highs) (omega arith) c, find)
      (ap some (range-parts [] [] (h ∷ highs)))
find-parts id [] (m ∷ mids) highs c =
    rw (find_position-Cut id (m ∷ (mids ++ highs)) (omega arith) c, find)
      (ap some (range-parts [] (m ∷ mids) highs))
find-parts id (l ∷ lows) mids highs c =
    rw (find_position-Cut id (l ∷ (lows ++ (mids ++ highs))) (omega arith) c, find)
      (ap some (range-parts (l ∷ lows) mids highs))

remove-parts :
    (id : ℕ) (lows mids highs : List CoapOption)
    → Cut id (parts lows mids highs) (length lows) (length lows + length mids)
    → remove_option id (parts lows mids highs) ≡ some (lows ++ highs)
unfolding remove_option remove_range
remove-parts id lows [] highs c = rw (find-parts id lows [] highs c)
remove-parts id lows (m ∷ mids) highs c =
    let n = length (parts lows (m ∷ mids) highs) in
    let hi = length lows + suc (length mids) in
    let len : n ≡ hi + length highs = omega (arith, length-parts lows (m ∷ mids) highs) in
    let count : n - hi ≡ length highs = omega arith in
    let (junk, moved) = move_down-over lows (m ∷ mids) highs [] hi (length lows) refl refl in
    let kept : n - (hi - length lows) ≡ length (lows ++ highs) =
      omega (arith, length-append lows highs) in
    let shape : lows ++ (m ∷ (mids ++ (highs ++ []))) ≡ lows ++ (m ∷ (mids ++ highs)) =
      rw append-nil in
    rw (
      find-parts id lows (m ∷ mids) highs c,
      ne→not== (suc (length mids)) 0 (omega arith),
      count,
      kept,
      ← shape,
      moved,
      ← append_assoc lows highs junk,
      take-append (lows ++ highs) junk,
    )

-- Find on a sorted slice never panics. It reports that no option has the number, or the range of
-- indices from the first option that has it to the first larger one.
pub find-sorted :
    (id : ℕ) (os : List CoapOption)
    → IsSortedFrom 0 os
    → find id os
      ≡ some (
          if length (same id os) == 0
          then none
          else some (length (below id os), length (below id os) + length (same id os)))
find-sorted id os s =
    ap (find id) (split_lem id 0 os s)
    ∙ find-parts id (below id os) (same id os) (above id os) (parts-Cut id os)

-- Remove on a sorted slice never panics, and leaves all options but those with the number.
pub remove_option-sorted :
    (id : ℕ) (os : List CoapOption)
    → IsSortedFrom 0 os
    → remove_option id os ≡ some (below id os ++ above id os)
remove_option-sorted id os s =
    ap (remove_option id) (split_lem id 0 os s)
    ∙ remove-parts id (below id os) (same id os) (above id os) (parts-Cut id os)
