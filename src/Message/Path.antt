-- ===== src/Message/Path.antt =====
-- message/options.go: setting and reading a path. A string is its bytes.
pub mod Segments
pub mod Setting
pub mod Reading
use go_coap.Message.Fault.{
  Result, ok, err, stuck, option_not_found, invalid_encoding, too_small_buffer,
  invalid_value_length,
}
use go_coap.Message.Defs.{CoapOption, uri_path}
use go_coap.Message.Writer.{of_len}
use go_coap.Message.Edit.{◌>>=◌, remove_option}
use go_coap.Message.Search.{find}
use go_coap.Message.Access.{Edited, max_path_value, add_string, read_values}
use go_coap.Prelude.{ltb, ◌==◌, if◌then◌else◌}
use go_coap.Prelude.{length, drop}
use go_coap.Prelude.{ℤ, pos, negsuc, pos_part}
use go_coap.Prelude.{ℕ, zero, suc, ◌+◌, ◌-◌}
use go_coap.Prelude.{Bool, false, ◌||◌}
use go_coap.Prelude.{Option, none, some, List, [], ◌∷◌, ◌++◌}

abbrev pub slash : ℕ
slash = 47

-- subPath[:strings.Index(subPath, "/")], or all of it, and what follows the slash
unfoldable pub cut_segment : List ℕ → List ℕ × List ℕ
cut_segment [] = ([], [])
cut_segment (c ∷ cs) =
    let rest = cut_segment cs in if c == slash then ([], cs) else (c ∷ rest.0, rest.1)

-- The loop of GetPathBufferSize; an empty segment adds nothing.
unfoldable pub size_loop : ℕ → List ℕ → ℕ → Result ℕ
size_loop zero path size = stuck
size_loop (suc fuel) [] size = ok size
size_loop (suc fuel) (c ∷ cs) size =
    let segment = cut_segment (c ∷ cs) in
    if ltb max_path_value (length segment.0)
    then err invalid_value_length
    else size_loop fuel segment.1 (size + length segment.0)

unfoldable pub get_path_buffer_size : List ℕ → Result ℕ
get_path_buffer_size path = size_loop (suc (length path)) path 0

abbrev pub if_added : Edited → (List CoapOption → Edited) → Edited
if_added none go = none
if_added (some (os, n, some e)) go = some (os, negsuc 0, some e)
if_added (some (os, n, none)) go = go os

-- The loop of setPath; an empty segment is passed over.
unfoldable pub add_segments : ℕ → CoapOption → ℕ → ℕ → List ℕ → ℕ → List CoapOption → Edited
add_segments zero stale room id path encoded os = none
add_segments (suc fuel) stale room id [] encoded os = some (os, pos encoded, none)
add_segments (suc fuel) stale room id (c ∷ cs) encoded os =
    let segment = cut_segment (c ∷ cs) in
    if_added
      (if length segment.0 == 0
        then some (os, pos 0, none)
        else add_string stale (of_len (room - encoded)) id segment.0 os)
      (λ os'. add_segments fuel stale room id segment.1 (encoded + length segment.0) os')

abbrev without_slash : List ℕ → List ℕ
without_slash [] = []
without_slash (c ∷ cs) = if c == slash then cs else c ∷ cs

-- What stands in the slice that is returned with an error: its cells, in which Remove has moved those
-- behind the range, with its length from before.
abbrev pub moved_cells : List CoapOption → List CoapOption → List CoapOption
moved_cells removed os = removed ++ drop (length removed) os

abbrev pub with_size :
    CoapOption → ℕ → ℕ → List ℕ → List CoapOption → List CoapOption → Result ℕ → Edited
with_size stale room id path os removed (err e) = some (moved_cells removed os, negsuc 0, some e)
with_size stale room id path os removed stuck = none
with_size stale room id path os removed (ok size) =
    if ltb room size
    then some (moved_cells removed os, negsuc 0, some too_small_buffer)
    else add_segments (suc (length path)) stale room id path 0 removed

-- setPath
unfoldable pub set_path_option : CoapOption → ℕ → ℕ → List ℕ → List CoapOption → Edited
set_path_option stale room id [] os = some (os, pos 0, none)
set_path_option stale room id (c ∷ cs) os = do
  removed ← remove_option id os
  let path = without_slash (c ∷ cs)
  with_size stale room id path os removed (get_path_buffer_size path)

-- SetPath
unfoldable pub set_path : CoapOption → ℕ → List ℕ → List CoapOption → Edited
set_path stale room path os = set_path_option stale room uri_path path os

abbrev location_path : ℕ
location_path = 8

-- SetLocationPath
unfoldable pub set_location_path : CoapOption → ℕ → List ℕ → List CoapOption → Edited
set_location_path stale room path os = set_path_option stale room location_path path os

-- Segments, each behind a slash.
abbrev pub path_of : List (List ℕ) → List ℕ
path_of [] = []
path_of (s ∷ ss) = slash ∷ (s ++ path_of ss)

abbrev pub has_slash : List ℕ → Bool
has_slash [] = false
has_slash (c ∷ cs) = (c == slash) || has_slash cs

abbrev pub some_slash : List (List ℕ) → Bool
some_slash [] = false
some_slash (s ∷ ss) = has_slash s || some_slash ss

-- The number that `path` returns, and what it leaves in the buffer or its error.
abbrev pub join_values : ℕ → List (List ℕ) → ℤ × Result (List ℕ)
join_values room values =
    if some_slash values
    then (negsuc 0, err invalid_encoding)
    else if ltb room (length (path_of values))
    then (pos (length (path_of values)), err too_small_buffer)
    else (pos (length (path_of values)), ok (path_of values))

abbrev pub join_range : ℕ → List CoapOption → Option (ℕ × ℕ) → Option (ℤ × Result (List ℕ))
join_range room os none = some (negsuc 0, err option_not_found)
join_range room os (some (first, last)) = do
  values ← read_values (last - first) first os
  some (join_values room values)

unfoldable pub path_into : ℕ → ℕ → List CoapOption → Option (ℤ × Result (List ℕ))
path_into room id os = do range ← find id os; join_range room os range

abbrev pub grown_path :
    ℕ → List CoapOption → Option (ℤ × Result (List ℕ)) → Option (Result (List ℕ))
grown_path id os none = none
grown_path id os (some (n, err too_small_buffer)) = do
  (m, r) ← path_into (32 + pos_part n) id os
  some r
grown_path id os (some (n, r)) = some r

-- LocationPath
unfoldable pub read_path : ℕ → List CoapOption → Option (Result (List ℕ))
read_path id os = grown_path id os (path_into 32 id os)

abbrev pub if_valid : (List ℕ → Bool) → Option (Result (List ℕ)) → Option (Result (List ℕ))
if_valid valid (some (ok bytes)) = some (if valid bytes then ok bytes else err invalid_encoding)
if_valid valid r = r

-- Path, where `valid` is utf8.Valid
unfoldable pub read_uri_path : (List ℕ → Bool) → List CoapOption → Option (Result (List ℕ))
read_uri_path valid os = if_valid valid (read_path uri_path os)
