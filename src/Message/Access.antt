-- ===== src/Message/Access.antt =====
-- message/options.go: reading and writing option values by type. `none` is a panic, which Find and the
-- moves of Set and Add may raise on a slice that is not sorted.
use go_coap.Message.Fault.{
  Fault, Result, ok, err, stuck, too_small_buffer, option_not_found, invalid_value_length,
}
use go_coap.Message.Defs.{CoapOption, uri_path, content_format_id, observe_id}
use go_coap.Message.Writer.{Buffer, Marshaled, done, too_small, buffer_len}
use go_coap.Message.Uint32.{encode_uint32, decode_uint32, uint_bytes, encode_uint32-shortest}
use go_coap.Message.Wire.{IsSortedFrom}
use go_coap.Message.Search.{find}
use go_coap.Message.Edit.{◌>>=◌, set_option, add_option}
use go_coap.Message.Edit.Split.{below, same, above, split_lem}
use go_coap.Message.Edit.Results.{set_option-sorted, find-sorted}
use mathlib.Core.Path.{subst}
use go_coap.Prelude.{
  ltb, leb, ◌==◌, if◌then◌else◌, lt→ltb, leb→le, le→not_ltb, ne→not==, Bool-cases,
}
use go_coap.Prelude.{length, get_elem?, get_elem?-append}
use go_coap.Prelude.{ℤ, pos, negsuc}
use go_coap.Prelude.{ℕ, zero, suc, ◌+◌, ◌-◌, ◌%◌, ◌^◌, ◌<◌}
use go_coap.Prelude.{◌≡◌, refl, sym, ap, ◌∙◌, inl, inr, Bool, true, false, ◌&&◌}
use go_coap.Prelude.{Option, none, some, List, [], ◌∷◌, ◌++◌, map, arith}

-- maxPathValue
abbrev pub max_path_value : ℕ
max_path_value = 255

abbrev accept_id : ℕ
accept_id = 17

-- The options, the number that is returned (-1 for an invalid value), and the error.
abbrev pub Edited : Type 0
Edited = Option (List CoapOption × ℤ × Option Fault)

unfoldable pub has_option : ℕ → List CoapOption → Option Bool
has_option id os = do range ← find id os; elim range [ none ↦ some false | some r ↦ some true ]

-- options[firstIdx].Value
abbrev value_at : List CoapOption → Option (ℕ × ℕ) → Option (Result (List ℕ))
value_at os none = some (err option_not_found)
value_at os (some (first, last)) = do o ← get_elem? os first; some (ok o.value)

unfoldable pub get_bytes : ℕ → List CoapOption → Option (Result (List ℕ))
get_bytes id os = do range ← find id os; value_at os range

unfoldable pub get_uint32 : ℕ → List CoapOption → Option (Result ℕ)
get_uint32 id os = do
  range ← find id os
  elim range [
    | none ↦ some (err option_not_found)
    | some r ↦ do o ← get_elem? os r.0; some (ok (decode_uint32 o.value).0)
  ]

-- Strings as their bytes.
unfoldable pub get_string : ℕ → List CoapOption → Option (Result (List ℕ))
get_string id os = get_bytes id os

-- `for i := i; ...; i++ { r[idx] = options[i].Value; idx++ }`, `count` rounds
abbrev pub read_values : ℕ → ℕ → List CoapOption → Option (List (List ℕ))
read_values zero i os = some []
read_values (suc count) i os = do
  o ← get_elem? os i
  rest ← read_values count (suc i) os
  some (o.value ∷ rest)

-- What is written to `r`, of `room` elements, with the number that is returned and the error.
abbrev pub Values : Type 0 → Type 0
Values A = Option (List A × ℕ × Option Fault)

abbrev all_values : ℕ → List CoapOption → Option (ℕ × ℕ) → Values (List ℕ)
all_values room os none = some ([], 0, some option_not_found)
all_values room os (some (first, last)) =
    if ltb room (last - first)
    then some ([], last - first, some too_small_buffer)
    else do values ← read_values (last - first) first os; some (values, last - first, none)

unfoldable pub get_bytess : ℕ → ℕ → List CoapOption → Values (List ℕ)
get_bytess id room os = do range ← find id os; all_values room os range

unfoldable pub get_strings : ℕ → ℕ → List CoapOption → Values (List ℕ)
get_strings id room os = get_bytess id room os

unfoldable pub get_uint32s : ℕ → ℕ → List CoapOption → Values ℕ
get_uint32s id room os = do
  (values, n, e) ← get_bytess id room os
  some (map (λ v. (decode_uint32 v).0) values, n, e)

-- ContentFormat and Accept cast to a MediaType, of 16 bits.
abbrev to_media_type : Option (Result ℕ) → Option (Result ℕ)
to_media_type none = none
to_media_type (some (ok v)) = some (ok (v % 65536))
to_media_type (some (err e)) = some (err e)
to_media_type (some stuck) = some stuck

unfoldable pub content_format : List CoapOption → Option (Result ℕ)
content_format os = to_media_type (get_uint32 content_format_id os)

unfoldable pub accept : List CoapOption → Option (Result ℕ)
accept os = to_media_type (get_uint32 accept_id os)

unfoldable pub observe : List CoapOption → Option (Result ℕ)
observe os = get_uint32 observe_id os

unfoldable pub set_bytes : CoapOption → Buffer → ℕ → List ℕ → List CoapOption → Edited
set_bytes stale buf id bytes os =
    if ltb (buffer_len buf) (length bytes)
    then some (os, pos (length bytes), some too_small_buffer)
    else if (id == uri_path) && ltb max_path_value (length bytes)
    then some (os, negsuc 0, some invalid_value_length)
    else do
      os' ← set_option stale (record { id = id; value = bytes }) os
      some (os', pos (length bytes), none)

unfoldable pub add_bytes : CoapOption → Buffer → ℕ → List ℕ → List CoapOption → Edited
add_bytes stale buf id bytes os =
    if ltb (buffer_len buf) (length bytes)
    then some (os, pos (length bytes), some too_small_buffer)
    else if (id == uri_path) && ltb max_path_value (length bytes)
    then some (os, negsuc 0, some invalid_value_length)
    else do
      os' ← add_option stale (record { id = id; value = bytes }) os
      some (os', pos (length bytes), none)

abbrev set_encoded : CoapOption → ℕ → List CoapOption → Marshaled → Edited
set_encoded stale id os (too_small n) = some (os, pos n, some too_small_buffer)
set_encoded stale id os (done n bytes) = do
  os' ← set_option stale (record { id = id; value = bytes }) os
  some (os', pos n, none)

unfoldable pub set_uint32 : CoapOption → Buffer → ℕ → ℕ → List CoapOption → Edited
set_uint32 stale buf id value os = set_encoded stale id os (encode_uint32 buf value)

abbrev add_encoded : CoapOption → ℕ → List CoapOption → Marshaled → Edited
add_encoded stale id os (too_small n) = some (os, pos n, some too_small_buffer)
add_encoded stale id os (done n bytes) = do
  os' ← add_option stale (record { id = id; value = bytes }) os
  some (os', pos n, none)

unfoldable pub add_uint32 : CoapOption → Buffer → ℕ → ℕ → List CoapOption → Edited
add_uint32 stale buf id value os = add_encoded stale id os (encode_uint32 buf value)

unfoldable pub set_string : CoapOption → Buffer → ℕ → List ℕ → List CoapOption → Edited
set_string stale buf id str os = set_bytes stale buf id str os

unfoldable pub add_string : CoapOption → Buffer → ℕ → List ℕ → List CoapOption → Edited
add_string stale buf id str os = add_bytes stale buf id str os

unfoldable pub set_content_format : CoapOption → Buffer → ℕ → List CoapOption → Edited
set_content_format stale buf format os = set_uint32 stale buf content_format_id format os

unfoldable pub set_observe : CoapOption → Buffer → ℕ → List CoapOption → Edited
set_observe stale buf seq os = set_uint32 stale buf observe_id seq os

unfoldable pub set_accept : CoapOption → Buffer → ℕ → List CoapOption → Edited
set_accept stale buf format os = set_uint32 stale buf accept_id format os

-- The first of the options with a number.
abbrev pub first_value : List CoapOption → Result (List ℕ)
first_value [] = err option_not_found
first_value (o ∷ os) = ok o.value

at_split :
    (id : ℕ) (os : List CoapOption) (o : CoapOption) (rest : List CoapOption)
    → IsSortedFrom 0 os
    → same id os ≡ o ∷ rest
    → get_elem? os (length (below id os)) ≡ some o
at_split id os o rest s e =
    let lower = below id os in
    let upper = above id os in
    let shape : os ≡ lower ++ ((o ∷ rest) ++ upper) =
      subst (λ t. os ≡ lower ++ (t ++ upper)) e (split_lem id 0 os s) in
    let place : get_elem? (lower ++ ((o ∷ rest) ++ upper)) (length lower) ≡ some o =
      subst (λ k. get_elem? (lower ++ ((o ∷ rest) ++ upper)) k ≡ some o) (omega arith)
        (get_elem?-append lower ((o ∷ rest) ++ upper) 0) in
    subst (λ t. get_elem? t (length lower) ≡ some o) (sym shape) place

-- On a sorted slice GetBytes never panics. It returns the value of the first option with the number,
-- or reports that there is none.
pub get_bytes-first :
    (id : ℕ) (os : List CoapOption)
    → IsSortedFrom 0 os
    → get_bytes id os ≡ some (first_value (same id os))
unfolding get_bytes
get_bytes-first id os s = rw (find-sorted id os s) (cases (same id os) refl)
  where
    cases :
        (mid : List CoapOption)
        → same id os ≡ mid
        → value_at os (
            if length mid == 0
            then none
            else some (length (below id os), length (below id os) + length mid))
          ≡ some (first_value mid)
    cases [] e = refl
    cases (o ∷ rest) e =
        rw (ne→not== (length (o ∷ rest)) 0 (λ h. absurd (omega (arith, h))))
          (rw (at_split id os o rest s e) refl)

-- What SetUint32 of a number of 32 bits does to a sorted slice: it never panics. If the buffer is too
-- short for the shortest form of the number it changes nothing and reports the length needed;
-- otherwise one option with that form takes the place of all with its number.
pub set_uint32-sorted :
    (stale : CoapOption) (buf : Buffer) (id value : ℕ) (os : List CoapOption)
    → value < 2 ^ 32
    → IsSortedFrom 0 os
    → set_uint32 stale buf id value os ≡ (
        if ltb (buffer_len buf) (length (uint_bytes value))
        then some (os, pos (length (uint_bytes value)), some too_small_buffer)
        else some (
          below id os ++ (record { id = id; value = uint_bytes value } ∷ above id os),
          pos (length (uint_bytes value)),
          none,
        ))
unfolding set_uint32
set_uint32-sorted stale buf id value os h s =
    ap (set_encoded stale id os) (encode_uint32-shortest buf value h)
    ∙ elim (Bool-cases (leb (length (uint_bytes value)) (buffer_len buf))) [
      | inl e ↦
          rw
            (
              e,
              le→not_ltb _ _ (leb→le _ _ e),
              set_option-sorted stale (record { id = id; value = uint_bytes value }) os s,
            )
            refl
      | inr e ↦ rw (e, lt→ltb (buffer_len buf) (length (uint_bytes value)) (ground arith)) refl
    ]
