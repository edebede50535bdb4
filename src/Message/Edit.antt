-- ===== src/Message/Edit.antt =====
-- message/options.go: Set, Add and Remove, which move options inside the slice.
pub mod Moves
pub mod Split
pub mod Results
use go_coap.Message.Defs.{CoapOption}
use go_coap.Message.Search.{find_position, find}
use go_coap.Prelude.{ltb, ◌==◌, if◌then◌else◌}
use go_coap.Prelude.{length, get_elem?, set, take}
use go_coap.Prelude.{ℤ, pos, negsuc, pos_part, eq_ℤ, ltb_ℤ}
use go_coap.Prelude.{ℕ, zero, suc, ◌+◌, ◌-◌}
use go_coap.Prelude.{not, ◌&&◌}
use go_coap.Prelude.{Option, none, some, List, [], ◌∷◌, ◌++◌}

-- `none` is a panic: an index outside the slice.
infixl 5 ◌>>=◌
abbrev pub ◌>>=◌ {ℓ κ} : {A : Type ℓ} {B : Type κ} → Option A → (A → Option B) → Option B
none >>= f = none
some a >>= f = f a

-- `options[i] = o`
unfoldable pub put : List CoapOption → ℕ → CoapOption → Option (List CoapOption)
put os i o = if ltb i (length os) then some (set os i o) else none

-- `options[to] = options[from]`
unfoldable pub copy_cell : List CoapOption → ℕ → ℕ → Option (List CoapOption)
copy_cell os to from = do o ← get_elem? os from; put os to o

-- `for i := i; i > last; i-- { options[i] = options[i-1] }`
unfoldable pub move_up : ℕ → ℕ → List CoapOption → Option (List CoapOption)
move_up last zero os = some os
move_up last (suc i) os =
    if ltb last (suc i) then (do os' ← copy_cell os (suc i) i; move_up last i os') else some os

-- `count` rounds of `options[to] = options[from]; to++; from++`
unfoldable pub move_down : ℕ → ℕ → ℕ → List CoapOption → Option (List CoapOption)
move_down zero from to os = some os
move_down (suc count) from to os = do
  os' ← copy_cell os to from
  move_down count (suc from) (suc to) os'

-- One more element behind the slice: `append(options, Option{})`, or a longer slice of the same
-- array, which shows whatever stood there. `stale` is that element.
abbrev grow : CoapOption → List CoapOption → List CoapOption
grow stale os = os ++ stale ∷ []

-- What Set has decided before it moves anything.
pub data Plan : Type 0 where
  replace_all : Plan
  replace : ℕ → Plan
  move : ℕ → ℕ → ℕ → Plan

-- `replace insertPosition`, `move insertPosition updateTo updateFrom`
unfoldable pub plan_set : ℤ → ℤ → ℕ → Plan
plan_set pre post n =
    let p = pos_part pre in
    let from = if ltb_ℤ post (pos 0) then n else pos_part post in
    if eq_ℤ pre (negsuc 0) && eq_ℤ post (negsuc 0)
    then replace_all
    else if eq_ℤ pre (negsuc 0) && not (ltb_ℤ post (pos 0))
    then move 0 1 (pos_part post)
    else if eq_ℤ pre post
    then move p (p + 1) p
    else if p + 2 == from
    then replace (p + 1)
    else move (p + 1) (p + 2) from

-- updateIdx ends at updateTo plus the number of moves.
unfoldable pub run_plan :
    CoapOption → CoapOption → List CoapOption → Plan → Option (List CoapOption)
run_plan stale opt os replace_all = some (opt ∷ [])
run_plan stale opt os (replace insert) = put os insert opt
run_plan stale opt os (move insert to from) = do
  moved ←
      if ltb from to
      then move_up from (length os) (grow stale os)
      else move_down (length os - from) from to (grow stale os)
  os' ← put moved insert opt
  some (take (to + (length os - from)) os')

-- Options.Set
unfoldable pub set_option : CoapOption → CoapOption → List CoapOption → Option (List CoapOption)
set_option stale opt os = do
  (pre, post) ← find_position opt.id os
  run_plan stale opt os (plan_set pre post (length os))

-- Options.Add
unfoldable pub add_option : CoapOption → CoapOption → List CoapOption → Option (List CoapOption)
add_option stale opt os = do
  (pre, post) ← find_position opt.id os
  let idx = if eq_ℤ post (negsuc 0) then length os else pos_part post
  os' ← move_up idx (length os) (grow stale os)
  put os' idx opt

-- Options.Remove, with the range that Find returned
unfoldable pub remove_range : List CoapOption → Option (ℕ × ℕ) → Option (List CoapOption)
remove_range os none = some os
remove_range os (some (pre, post)) = do
  os' ← move_down (length os - post) post pre os
  some (take (length os - (post - pre)) os')

unfoldable pub remove_option : ℕ → List CoapOption → Option (List CoapOption)
remove_option id os = do range ← find id os; remove_range os range
