-- ===== src/Message/Path/Reading.antt =====
-- message/options.go: a path that was set is read again.
use go_coap.Message.Fault.{ok}
use go_coap.Message.Defs.{CoapOption, uri_path}
use go_coap.Message.Wire.{IsSortedFrom}
use go_coap.Message.Edit.{◌>>=◌}
use go_coap.Message.Edit.Split.{below, above}
use go_coap.Message.Edit.Results.{find-sorted}
use go_coap.Message.Access.{read_values}
use go_coap.Message.Path.{
  path_of, slash, some_slash, has_slash, join_values, path_into, read_path, read_uri_path, set_path,
}
use go_coap.Message.Path.Segments.{
  options_of, with_values, below-with_values, same-with_values, with_values-IsSortedFrom,
}
use go_coap.Message.Path.Setting.{IsSegment, total, set_path-segments}
use go_coap.Prelude.{ltb, ◌==◌, le→not_ltb, ne→not==, Bool-cases}
use go_coap.Prelude.{length, All}
use go_coap.Prelude.{ℕ, zero, suc, ◌+◌, ◌-◌, ◌≤◌}
use go_coap.Prelude.{◌≡◌, refl, ap, ◌∙◌, inl, inr, Bool, true, false}
use go_coap.Prelude.{some, List, [], ◌∷◌, ◌++◌, arith}

read_values-behind :
    (count i : ℕ) (o : CoapOption) (os : List CoapOption)
    → read_values count (suc i) (o ∷ os) ≡ read_values count i os
read_values-behind zero i o os = refl
read_values-behind (suc count) i o os = rw (read_values-behind count (suc i) o os) refl

read_values-front :
    (id : ℕ) (values : List (List ℕ)) (rest : List CoapOption)
    → read_values (length values) 0 (options_of id values ++ rest) ≡ some values
read_values-front id [] rest = refl
read_values-front id (v ∷ values) rest =
    rw
      (read_values-behind (length values) 0 (record { id = id; value = v })
        (options_of id values ++ rest))
      (rw (read_values-front id values rest) refl)

read_values-inside :
    (id : ℕ) (lows : List CoapOption) (values : List (List ℕ)) (rest : List CoapOption)
    → read_values (length values) (length lows) (lows ++ (options_of id values ++ rest))
      ≡ some values
read_values-inside id [] values rest = read_values-front id values rest
read_values-inside id (o ∷ lows) values rest =
    read_values-behind (length values) (length lows) o (lows ++ (options_of id values ++ rest))
    ∙ read_values-inside id lows values rest

length-options_of :
    (id : ℕ) (values : List (List ℕ)) → length (options_of id values) ≡ length values
length-options_of id [] = refl
length-options_of id (v ∷ values) = ap suc (length-options_of id values)

no_slash : (s : List ℕ) → All (λ c. (c == slash) ≡ false) s → has_slash s ≡ false
no_slash [] a = refl
no_slash (c ∷ cs) (h, a) = rw (h, no_slash cs a) refl

no_slashes : (ss : List (List ℕ)) → All IsSegment ss → some_slash ss ≡ false
no_slashes [] a = refl
no_slashes (s ∷ ss) ((h1, h2, h3), a) = rw (no_slash s h3, no_slashes ss a) refl

path_into-values :
    (room id : ℕ) (os : List CoapOption) (s : List ℕ) (ss : List (List ℕ))
    → IsSortedFrom 0 os
    → path_into room id (with_values id os (s ∷ ss)) ≡ some (join_values room (s ∷ ss))
unfolding path_into
path_into-values room id os s ss sorted =
    let there : (suc (length ss) == 0) ≡ false = ne→not== (suc (length ss)) 0 (omega arith) in
    let count : length (below id os) + suc (length ss) - length (below id os) ≡ suc (length ss) =
      omega arith in
    rw
      (
        find-sorted id (with_values id os (s ∷ ss))
            (with_values-IsSortedFrom id 0 os (s ∷ ss) sorted (omega arith)),
        below-with_values id os (s ∷ ss),
        same-with_values id os (s ∷ ss),
        length-options_of id ss,
        there,
      )
      (rw (count, read_values-inside id (below id os) (s ∷ ss) (above id os)) refl)

grown-joined :
    (id : ℕ) (os : List CoapOption) (s : List ℕ) (ss : List (List ℕ))
    → IsSortedFrom 0 os
    → All IsSegment (s ∷ ss)
    → read_path id (with_values id os (s ∷ ss)) ≡ some (ok (path_of (s ∷ ss)))
unfolding read_path
grown-joined id os s ss sorted a =
    let values = s ∷ ss in
    let n = length (path_of values) in
    elim (Bool-cases (ltb 32 n)) [
      | inl e ↦
          rw (path_into-values 32 id os s ss sorted, no_slashes values a, e)
            (rw
              (
                path_into-values (32 + n) id os s ss sorted,
                no_slashes values a,
                le→not_ltb (32 + n) n (omega arith),
              )
              refl)
      | inr e ↦ rw (path_into-values 32 id os s ss sorted, no_slashes values a, e) refl
    ]

-- SetPath of a path with at least one segment, on sorted options, when each segment has 1 to 255 bytes
-- and no slash in it, the buffer has room for all of them, and the path is valid UTF-8: Path of the
-- options that it leaves is the same path, with no error and no panic, however long it is.
pub path-set_path :
    (valid : List ℕ → Bool) (stale : CoapOption) (room : ℕ) (s : List ℕ) (ss : List (List ℕ))
    (os : List CoapOption)
    → IsSortedFrom 0 os
    → All IsSegment (s ∷ ss)
    → total (s ∷ ss) ≤ room
    → valid (path_of (s ∷ ss)) ≡ true
    → (set_path stale room (path_of (s ∷ ss)) os >>= λ edited. read_uri_path valid edited.0)
      ≡ some (ok (path_of (s ∷ ss)))
unfolding read_uri_path
path-set_path valid stale room s ss os sorted a fits v =
    rw (set_path-segments stale room s ss os sorted a fits)
      (rw (grown-joined uri_path os s ss sorted a) (rw v refl))
