-- ===== src/Pool/Laws.antt =====
-- What setting an option does to the options with its number and with another one.
use go_coap.Message.Fault.{ok}
use go_coap.Message.Defs.{CoapOption}
use go_coap.Message.Uint32.{decode_uint32, uint_bytes}
use go_coap.Message.Edit.Split.{select, below, same, above}
use go_coap.Pool.{
  PoolMessage, put, without, first_bytes, first_uint32, get_option_uint32, get_option_bytes,
  set_option_uint32,
}
use go_coap.Prelude.{ltb, ◌==◌, ltb→lt, Bool-cases}
use go_coap.Prelude.{ℕ, ◌^◌, ◌≤◌, ◌<◌}
use go_coap.Prelude.{◌≡◌, refl, ap, ◌∙◌, ◌≢◌, inl, inr, Bool, true, false}
use go_coap.Prelude.{List, [], ◌∷◌, ◌++◌, append-nil, arith}

pub select-append :
    (test : ℕ → Bool) (os ps : List CoapOption)
    → select test (os ++ ps) ≡ select test os ++ select test ps
unfolding select
select-append test [] ps = refl
select-append test (o ∷ os) ps = ground (arith, select-append test os ps)

select-out :
    (test : ℕ → Bool) (o : CoapOption) (os : List CoapOption)
    → test o.id ≡ false
    → select test (o ∷ os) ≡ select test os
unfolding select
select-out test o os h = rw h refl

-- tests that exclude one another
pub select-none :
    (test other : ℕ → Bool) (os : List CoapOption)
    → ((n : ℕ) → other n ≡ true → test n ≡ false)
    → select test (select other os) ≡ []
unfolding select
select-none test other [] h = refl
select-none test other (o ∷ os) h = ground (arith, select-none test other os h, h o.id)

-- a test that implies the other
pub select-same :
    (test other : ℕ → Bool) (os : List CoapOption)
    → ((n : ℕ) → test n ≡ true → other n ≡ true)
    → select test (select other os) ≡ select test os
unfolding select
select-same test other [] h = refl
select-same test other (o ∷ os) h = ground (arith, select-same test other os h, h o.id)

same-below : (id i : ℕ) (os : List CoapOption) → id < i → same id (below i os) ≡ same id os
same-below id i os h = select-same _ _ os (λ n e. ground arith)

pub not-same-below : (id i : ℕ) (os : List CoapOption) → i ≤ id → same id (below i os) ≡ []
not-same-below id i os h = select-none _ _ os (λ n e. ground arith)

same-above : (id i : ℕ) (os : List CoapOption) → i < id → same id (above i os) ≡ same id os
same-above id i os h = select-same _ _ os (λ n e. ground arith)

pub not-same-above : (id i : ℕ) (os : List CoapOption) → id ≤ i → same id (above i os) ≡ []
not-same-above id i os h = select-none _ _ os (λ n e. ground arith)

-- what stays when the options with number `i` are taken out, or something is put in their place
pub same-outside :
    (id i : ℕ) (mid os : List CoapOption)
    → id ≢ i
    → same id mid ≡ []
    → same id (below i os ++ (mid ++ above i os)) ≡ same id os
same-outside id i mid os h m =
    rw
      (
        select-append (λ n. n == id) (below i os) (mid ++ above i os),
        select-append (λ n. n == id) mid (above i os),
        m,
      )
      (elim (Bool-cases (ltb id i)) [
        | inl e ↦
            rw (same-below id i os (ltb→lt id i e), not-same-above id i os (ground arith))
              (append-nil (same id os))
        | inr e ↦ rw (not-same-below id i os (ground arith), same-above id i os (ground arith)) refl
      ])

pub same-put : (o : CoapOption) (os : List CoapOption) → same o.id (put o os) ≡ o ∷ []
unfolding put select
same-put o os =
    rw
      (
        select-append (λ n. n == o.id) (below o.id os) (o ∷ above o.id os),
        not-same-below o.id o.id os (omega arith),
      )
      (ground (arith, not-same-above o.id o.id os))

pub same-put_other :
    (id : ℕ) (o : CoapOption) (os : List CoapOption) → id ≢ o.id → same id (put o os) ≡ same id os
unfolding put select
same-put_other id o os h = same-outside id o.id (o ∷ []) os h (ground arith)

pub same-without : (id : ℕ) (os : List CoapOption) → same id (without id os) ≡ []
unfolding without
same-without id os =
    rw
      (
        select-append (λ n. n == id) (below id os) (above id os),
        not-same-below id id os (omega arith),
      )
      (not-same-above id id os (omega arith))

pub same-without_other :
    (id other : ℕ) (os : List CoapOption) → id ≢ other → same id (without other os) ≡ same id os
unfolding without select
same-without_other id other os h = same-outside id other [] os h refl

-- the number that was set is read
pub decode-uint_bytes : (value : ℕ) → value < 2 ^ 32 → (decode_uint32 (uint_bytes value)).0 ≡ value
unfolding decode_uint32 uint_bytes
decode-uint_bytes value h = ground arith

pub get-set_option_uint32 :
    (id value : ℕ) (m : PoolMessage)
    → value < 2 ^ 32
    → get_option_uint32 id (set_option_uint32 id value m) ≡ ok value
unfolding get_option_uint32 set_option_uint32
get-set_option_uint32 id value m h =
    rw (same-put (record { id = id; value = uint_bytes value }) m.options)
      (ap ok (decode-uint_bytes value h))

pub get-set_option_uint32_other :
    (id other value : ℕ) (m : PoolMessage)
    → id ≢ other
    → get_option_uint32 id (set_option_uint32 other value m) ≡ get_option_uint32 id m
unfolding get_option_uint32 set_option_uint32
get-set_option_uint32_other id other value m h =
    ap first_uint32
      (same-put_other id (record { id = other; value = uint_bytes value }) m.options h)

pub get_bytes-set_option_uint32 :
    (id other value : ℕ) (m : PoolMessage)
    → id ≢ other
    → get_option_bytes id (set_option_uint32 other value m) ≡ get_option_bytes id m
unfolding get_option_bytes set_option_uint32
get_bytes-set_option_uint32 id other value m h =
    ap first_bytes (same-put_other id (record { id = other; value = uint_bytes value }) m.options h)

-- A test that leaves the number out does not see the value that is set.
pub select-put :
    (test : ℕ → Bool) (o : CoapOption) (os : List CoapOption)
    → test o.id ≡ false
    → select test (put o os) ≡ select test (below o.id os) ++ select test (above o.id os)
unfolding put
select-put test o os h =
    select-append test (below o.id os) (o ∷ above o.id os)
    ∙ ap (λ rest. select test (below o.id os) ++ rest) (select-out test o (above o.id os) h)
