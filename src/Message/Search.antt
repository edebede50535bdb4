-- ===== src/Message/Search.antt =====
-- message/options.go: the search, and the edits of a sorted slice of options.
pub mod Position
use go_coap.Message.Defs.{CoapOption}
use go_coap.Prelude.{ltb, leb, ◌==◌, if◌then◌else◌}
use go_coap.Prelude.{length, drop}
use go_coap.Prelude.{ℤ, pos, negsuc, pos_part, sub_ℕ, ◌-ℤ◌, eq_ℤ, ltb_ℤ}
use go_coap.Prelude.{ℕ, zero, suc, ◌+◌, ◌-◌, ◌/◌}
use go_coap.Prelude.{◌&&◌, ◌||◌}
use go_coap.Prelude.{Option, none, some, List, [], ◌∷◌}

-- `options[i].ID`; the callers of `id_at` stay inside the slice (see Message/Search).
abbrev pub id_at : List CoapOption → ℕ → ℕ
id_at [] i = 0
id_at (o ∷ os) zero = o.id
id_at (o ∷ os) (suc i) = id_at os i

-- `for maxIdx = pivot; maxIdx < len(options) && options[maxIdx].ID <= id; maxIdx++`, over the
-- options from `i` on
unfoldable pub scan_up : ℕ → ℕ → List CoapOption → ℕ
scan_up id i [] = i
scan_up id i (o ∷ os) = if leb o.id id then scan_up id (suc i) os else i

-- `for minIdx = pivot; minIdx >= 0 && options[minIdx].ID >= id; minIdx--`
unfoldable pub scan_down : ℕ → List CoapOption → ℕ → ℤ
scan_down id options zero = if leb id (id_at options 0) then negsuc 0 else pos 0
scan_down id options (suc i) =
    if leb id (id_at options (suc i)) then scan_down id options i else pos (suc i)

-- `if maxIdx == len(options) { maxIdx = -1 }`
abbrev pub end_mark : List CoapOption → ℕ → ℤ
end_mark options i = if i == length options then negsuc 0 else pos i

-- The `for` loop of findPosition over minIdx, maxIdx and pivot. `none`: the fuel ran out, or an
-- index left the slice, which is a panic in Go.
unfoldable pub find_loop : ℕ → ℕ → List CoapOption → ℕ → ℕ → ℕ → Option (ℤ × ℤ)
find_loop zero id options lo hi pivot = none
find_loop (suc fuel) id options lo hi pivot =
    let below = find_loop fuel id options lo pivot (pivot - (pivot - lo) / 2) in
    let above = find_loop fuel id options pivot hi (pivot + (hi - pivot) / 2) in
    if leb (length options) pivot
    then none
    else if (id == id_at options pivot) || ((hi - lo) / 2 == 0)
    then some (scan_down id options pivot, end_mark options (scan_up id pivot (drop pivot options)))
    else if ltb id (id_at options pivot)
    then below
    else above

-- findPosition
unfoldable pub find_position : ℕ → List CoapOption → Option (ℤ × ℤ)
find_position id [] = some (negsuc 0, pos 0)
find_position id (o ∷ os) = find_loop (2 + length (o ∷ os)) id (o ∷ os) 0 (length (o ∷ os)) 0

-- Find, from the two results of findPosition and the number of options: `none` is
-- ErrOptionNotFound.
unfoldable pub find_range : ℤ → ℤ → ℕ → Option (ℕ × ℕ)
find_range pre post n =
    if eq_ℤ pre (negsuc 0) && eq_ℤ post (pos 0)
    then none
    else if eq_ℤ pre (sub_ℕ n 1) && eq_ℤ post (negsuc 0)
    then none
    else if ltb_ℤ pre post && eq_ℤ (post -ℤ pre) (pos 1)
    then none
    else some (pos_part (pre -ℤ negsuc 0), if ltb_ℤ post (pos 0) then n else pos_part post)

-- Find. The outer `none` is a panic, the inner one ErrOptionNotFound.
unfoldable pub find : ℕ → List CoapOption → Option (Option (ℕ × ℕ))
find id options = elim (find_position id options) [
  | none ↦ none
  | some (pre, post) ↦ some (find_range pre post (length options))
]
