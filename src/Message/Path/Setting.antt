-- ===== src/Message/Path/Setting.antt =====
-- message/options.go: the options that SetPath leaves.
use go_coap.Message.Fault.{ok}
use go_coap.Message.Defs.{CoapOption, uri_path}
use go_coap.Message.Wire.{IsSortedFrom}
use go_coap.Message.Writer.{of_len}
use go_coap.Message.Edit.Results.{remove_option-sorted}
use go_coap.Message.Access.{max_path_value, add_bytes, add_string}
use go_coap.Message.Path.{
  path_of, slash, cut_segment, size_loop, get_path_buffer_size, add_segments, set_path_option,
  set_path,
}
use go_coap.Message.Path.Segments.{with_values, add_option-with_values}
use go_coap.Prelude.{◌==◌, le→not_ltb, ne→not==}
use go_coap.Prelude.{length, All, length-append}
use go_coap.Prelude.{pos}
use go_coap.Prelude.{ℕ, zero, suc, ◌+◌, ◌-◌, ◌≤◌, ◌<◌}
use go_coap.Prelude.{◌≡◌, refl, ap, ◌∙◌, Bool, true, false, ◌&&◌}
use go_coap.Prelude.{none, some, List, [], ◌∷◌, ◌++◌, append-nil, append_assoc, arith}

-- A path without the first slash.
abbrev pub body_of : List (List ℕ) → List ℕ
body_of [] = []
body_of (s ∷ ss) = s ++ path_of ss

abbrev pub total : List (List ℕ) → ℕ
total [] = 0
total (s ∷ ss) = length s + total ss

-- What a Uri-Path option can carry: 1 to 255 bytes without a slash.
abbrev pub IsSegment : List ℕ → Type 0
IsSegment s = (0 < length s) × (length s ≤ max_path_value) × All (λ c. (c == slash) ≡ false) s

cut-body :
    (s : List ℕ) (ss : List (List ℕ))
    → All (λ c. (c == slash) ≡ false) s
    → cut_segment (s ++ path_of ss) ≡ (s, body_of ss)
unfolding cut_segment
cut-body [] [] a = refl
cut-body [] (t ∷ ss) a = refl
cut-body (c ∷ s) ss (h, a) = rw (h, cut-body s ss a) refl

length-body : (ss : List (List ℕ)) → length (body_of ss) ≤ length (path_of ss)
length-body [] = omega arith
length-body (s ∷ ss) = omega arith

size-body :
    (fuel : ℕ) (ss : List (List ℕ)) (n : ℕ)
    → All IsSegment ss
    → length (body_of ss) < fuel
    → size_loop fuel (body_of ss) n ≡ ok (n + total ss)
unfolding size_loop
size-body zero ss n a h = absurd (omega arith)
size-body (suc fuel) [] n a h = ap ok (omega arith)
size-body (suc fuel) ([] ∷ ss) n ((h1, h2, h3), a) h = absurd (omega arith)
size-body (suc fuel) ((c ∷ s) ∷ ss) n ((h1, h2, h3), a) h =
    let room : length (body_of ss) < fuel =
      omega (arith, length-body ss, length-append s (path_of ss), h) in
    rw (cut-body (c ∷ s) ss h3, le→not_ltb max_path_value (suc (length s)) h2)
      (size-body fuel ss (n + suc (length s)) a room ∙ ap ok (omega arith))

and_false : (b : Bool) → (b && false) ≡ false
and_false true = refl
and_false false = refl

-- one value, when there is room
add_string-with_values :
    (stale : CoapOption) (room id : ℕ) (s : List ℕ) (os : List CoapOption) (values : List (List ℕ))
    → IsSortedFrom 0 os
    → length s ≤ room
    → length s ≤ max_path_value
    → add_string stale (of_len room) id s (with_values id os values)
      ≡ some (with_values id os (values ++ s ∷ []), pos (length s), none)
unfolding add_string add_bytes
add_string-with_values stale room id s os values sorted h1 h2 =
    rw
      (
        le→not_ltb room (length s) h1,
        le→not_ltb max_path_value (length s) h2,
        add_option-with_values id stale os values s sorted,
      )
      (rw (and_false (id == uri_path)) refl)

the_sum : (n : ℕ) → n ≡ n + 0
the_sum n = omega arith

add-body :
    (fuel : ℕ) (stale : CoapOption) (room id : ℕ) (ss : List (List ℕ)) (encoded : ℕ)
    (os : List CoapOption) (values : List (List ℕ))
    → IsSortedFrom 0 os
    → All IsSegment ss
    → length (body_of ss) < fuel
    → encoded + total ss ≤ room
    → add_segments fuel stale room id (body_of ss) encoded (with_values id os values)
      ≡ some (with_values id os (values ++ ss), pos (encoded + total ss), none)
unfolding add_segments
add-body zero stale room id ss encoded os values sorted a h fits = absurd (omega arith)
add-body (suc fuel) stale room id [] encoded os values sorted a h fits =
    rw (append-nil values)
      (ap (λ n. some (with_values id os values, pos n, none)) (the_sum encoded))
add-body (suc fuel) stale room id ([] ∷ ss) encoded os values sorted ((h1, h2, h3), a) h fits =
    absurd (omega arith)
add-body (suc fuel) stale room id ((c ∷ s) ∷ ss) encoded os values sorted ((h1, h2, h3), a) h fits =
    let room_left : length (body_of ss) < fuel =
      omega (arith, length-body ss, length-append s (path_of ss), h) in
    rw
      (
        cut-body (c ∷ s) ss h3,
        ne→not== (suc (length s)) 0 (omega arith),
        add_string-with_values stale (room - encoded) id (c ∷ s) os values sorted (omega arith) h2,
      )
      (add-body fuel stale room id ss (encoded + suc (length s)) os (values ++ (c ∷ s) ∷ []) sorted
          a room_left (omega arith)
        ∙ rw (append_assoc values ((c ∷ s) ∷ []) ss) (
            ap (λ n. some (with_values id os (values ++ (c ∷ s) ∷ ss), pos n, none)) (omega arith)))

-- SetPath of a path with at least one segment, on sorted options, when each segment has 1 to 255 bytes
-- and no slash in it and the buffer has room for all of them: it ends with no error and no panic, all
-- Uri-Path options from before are gone, and the segments stand in their place, one option for each,
-- in their order.
pub set_path-segments :
    (stale : CoapOption) (room : ℕ) (s : List ℕ) (ss : List (List ℕ)) (os : List CoapOption)
    → IsSortedFrom 0 os
    → All IsSegment (s ∷ ss)
    → total (s ∷ ss) ≤ room
    → set_path stale room (path_of (s ∷ ss)) os
      ≡ some (with_values uri_path os (s ∷ ss), pos (total (s ∷ ss)), none)
unfolding set_path set_path_option get_path_buffer_size
set_path-segments stale room s ss os sorted a fits =
    let fuel = suc (length (body_of (s ∷ ss))) in
    let from_zero : 0 + total (s ∷ ss) ≡ total (s ∷ ss) = omega arith in
    let size : size_loop fuel (body_of (s ∷ ss)) 0 ≡ ok (total (s ∷ ss)) =
      size-body fuel (s ∷ ss) 0 a (omega arith) ∙ ap ok from_zero in
    rw (remove_option-sorted uri_path os sorted, size, le→not_ltb room (total (s ∷ ss)) fits)
      (add-body fuel stale room uri_path (s ∷ ss) 0 os [] sorted a (omega arith)
          (omega (arith, fits))
        ∙ ap (λ n. some (with_values uri_path os (s ∷ ss), pos n, none)) from_zero)
