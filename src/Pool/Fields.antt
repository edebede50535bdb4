-- ===== src/Pool/Fields.antt =====
-- message/pool/message.go: the fields of a message that users set and read, on options in the order of
-- their numbers. The buffer of values does not matter for them (Pool/Growth).
use go_coap.Message.Fault.{Result, ok, err, stuck, invalid_value_length}
use go_coap.Message.Defs.{CoapOption, verify_opt_len}
use go_coap.Message.Uint32.{uint_bytes}
use go_coap.Message.Edit.Split.{select, below, same, above}
use go_coap.Pool.{
  PoolMessage, get_option_bytes, get_option_uint32, set_option_bytes, set_option_uint32,
}
use go_coap.Pool.Laws.{
  select-append, select-none, select-same, not-same-below, not-same-above, same-outside,
}
use go_coap.Prelude.{◌==◌, if◌then◌else◌}
use go_coap.Prelude.{length}
use go_coap.Prelude.{ℕ, ◌%◌}
use go_coap.Prelude.{◌≡◌, refl, sym, ap, ◌∙◌, ◌≢◌, true, false}
use go_coap.Prelude.{List, [], ◌∷◌, ◌++◌, append_assoc, arith}

abbrev pub etag_id : ℕ
etag_id = 4

abbrev pub echo_id : ℕ
echo_id = 252

abbrev pub request_tag_id : ℕ
request_tag_id = 292

-- Options.Add: behind the options with the same number
unfoldable pub insert : CoapOption → List CoapOption → List CoapOption
insert o os = below o.id os ++ (same o.id os ++ (o ∷ above o.id os))

-- AddOptionBytes, AddOptionString, AddOptionUint32 and AddQuery; a string is its bytes.
unfoldable pub add_option_bytes : ℕ → List ℕ → PoolMessage → PoolMessage
add_option_bytes id value m = record m {
  options = insert (record { id = id; value = value }) m.options;
}

unfoldable pub add_option_string : ℕ → List ℕ → PoolMessage → PoolMessage
add_option_string id value m = add_option_bytes id value m

unfoldable pub add_option_uint32 : ℕ → ℕ → PoolMessage → PoolMessage
add_option_uint32 id value m = add_option_bytes id (uint_bytes value) m

unfoldable pub set_option_string : ℕ → List ℕ → PoolMessage → PoolMessage
set_option_string id value m = set_option_bytes id value m

unfoldable pub add_query : List ℕ → PoolMessage → PoolMessage
add_query query m = add_option_string 15 query m

-- GetOptionAllBytes into an array with room enough: the values in their order
abbrev pub values_of : List CoapOption → List (List ℕ)
values_of [] = []
values_of (o ∷ os) = o.value ∷ values_of os

unfoldable pub get_option_all_bytes : ℕ → PoolMessage → List (List ℕ)
get_option_all_bytes id m = values_of (same id m.options)

-- A value of a length that the option does not allow is refused.
abbrev checked : ℕ → List ℕ → PoolMessage → PoolMessage → PoolMessage × Result (Unit {0})
checked id value m changed =
    if verify_opt_len id (length value) then (changed, ok tt) else (m, err invalid_value_length)

unfoldable pub add_etag : List ℕ → PoolMessage → PoolMessage × Result (Unit {0})
add_etag value m = checked etag_id value m (add_option_bytes etag_id value m)

unfoldable pub set_etag : List ℕ → PoolMessage → PoolMessage × Result (Unit {0})
set_etag value m = checked etag_id value m (set_option_bytes etag_id value m)

unfoldable pub set_echo : List ℕ → PoolMessage → PoolMessage × Result (Unit {0})
set_echo value m = checked echo_id value m (set_option_bytes echo_id value m)

unfoldable pub add_request_tag : List ℕ → PoolMessage → PoolMessage × Result (Unit {0})
add_request_tag value m = checked request_tag_id value m (add_option_bytes request_tag_id value m)

unfoldable pub set_request_tag : List ℕ → PoolMessage → PoolMessage × Result (Unit {0})
set_request_tag value m = checked request_tag_id value m (set_option_bytes request_tag_id value m)

unfoldable pub etag : PoolMessage → Result (List ℕ)
etag m = get_option_bytes etag_id m

unfoldable pub etags : PoolMessage → List (List ℕ)
etags m = get_option_all_bytes etag_id m

unfoldable pub echo : PoolMessage → Result (List ℕ)
echo m = get_option_bytes echo_id m

unfoldable pub request_tag : PoolMessage → Result (List ℕ)
request_tag m = get_option_bytes request_tag_id m

unfoldable pub request_tags : PoolMessage → List (List ℕ)
request_tags m = get_option_all_bytes request_tag_id m

-- math.CastTo[MediaType], of 16 bits
abbrev media_type : Result ℕ → Result ℕ
media_type (ok n) = ok (n % 65536)
media_type (err e) = err e
media_type stuck = stuck

unfoldable pub content_format : PoolMessage → Result ℕ
content_format m = media_type (get_option_uint32 12 m)

unfoldable pub set_content_format : ℕ → PoolMessage → PoolMessage
set_content_format format m = set_option_uint32 12 format m

unfoldable pub set_observe : ℕ → PoolMessage → PoolMessage
set_observe value m = set_option_uint32 6 value m

unfoldable pub observe : PoolMessage → Result ℕ
observe m = get_option_uint32 6 m

unfoldable pub set_accept : ℕ → PoolMessage → PoolMessage
set_accept format m = set_option_uint32 17 format m

unfoldable pub accept : PoolMessage → Result ℕ
accept m = media_type (get_option_uint32 17 m)

-- ResetOptionsTo: the options of `os`, added one by one
abbrev pub insert_all : List CoapOption → List CoapOption → List CoapOption
insert_all [] options = options
insert_all (o ∷ os) options = insert_all os (insert o options)

unfoldable pub reset_options_to : List CoapOption → PoolMessage → PoolMessage
reset_options_to os m = record m { options = insert_all os [] }

values-append : (os ps : List CoapOption) → values_of (os ++ ps) ≡ values_of os ++ values_of ps
values-append [] ps = refl
values-append (o ∷ os) ps = ap (λ t. o.value ∷ t) (values-append os ps)

same-insert :
    (o : CoapOption) (os : List CoapOption) → same o.id (insert o os) ≡ same o.id os ++ o ∷ []
unfolding insert select
same-insert o os =
    let own : (o.id == o.id) ≡ true = ground arith in
    rw
      (
        select-append (λ n. n == o.id) (below o.id os) (same o.id os ++ (o ∷ above o.id os)),
        select-append (λ n. n == o.id) (same o.id os) (o ∷ above o.id os),
        not-same-below o.id o.id os (omega arith),
        select-same (λ n. n == o.id) (λ n. n == o.id) os (λ n e. e),
        own,
        not-same-above o.id o.id os (omega arith),
      )
      refl

same-insert_other :
    (id : ℕ) (o : CoapOption) (os : List CoapOption)
    → id ≢ o.id
    → same id (insert o os) ≡ same id os
unfolding insert select
same-insert_other id o os h =
    let apart : (n : ℕ) → (n == o.id) ≡ true → (n == id) ≡ false = λ n e. ground (arith, h) in
    let other : (o.id == id) ≡ false = ground (arith, h) in
    let none_here : same id (same o.id os ++ o ∷ []) ≡ [] =
      rw
        (
          select-append (λ n. n == id) (same o.id os) (o ∷ []),
          select-none (λ n. n == id) (λ n. n == o.id) os apart,
          other,
        )
        refl in
    ap (λ t. same id (below o.id os ++ t))
      (sym (append_assoc (same o.id os) (o ∷ []) (above o.id os)))
    ∙ same-outside id o.id (same o.id os ++ o ∷ []) os h none_here

-- AddOptionBytes puts its value behind the values with the same number, and leaves those with other
-- numbers as they are.
pub add_option_bytes-lists :
    (id other : ℕ) (value : List ℕ) (m : PoolMessage)
    → (get_option_all_bytes id (add_option_bytes id value m)
        ≡ get_option_all_bytes id m ++ value ∷ [])
      × (other ≢ id
          → get_option_all_bytes other (add_option_bytes id value m) ≡ get_option_all_bytes other m)
unfolding get_option_all_bytes add_option_bytes
add_option_bytes-lists id other value m =
    let o : CoapOption = record { id = id; value = value } in
    (
      ap values_of (same-insert o m.options) ∙ values-append (same id m.options) (o ∷ []),
      λ h. ap values_of (same-insert_other other o m.options h),
    )
