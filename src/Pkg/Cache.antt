-- ===== src/Pkg/Cache.antt =====
-- pkg/cache/cache.go: a map of elements that expire. `now` is the time that the call reads; times are
-- nanoseconds, and `valid_until` is none for the zero time. Elements are compared by their place in the
-- map, since LoadOrStore is given a new one.
pub mod Laws
use go_coap.Pkg.SyncMap.{SyncMap, load, store, is_full}
use go_coap.Prelude.{ltb, if◌then◌else◌}
use go_coap.Prelude.{ℕ}
use go_coap.Prelude.{Bool, true, false}
use go_coap.Prelude.{Option, none, some, [], ◌∷◌, ◌++◌}

pub record Element {ℓ} (D : Type ℓ) : Type ℓ where
  pub valid_until : Option ℕ
  pub content : D

abbrev pub Cache {ℓ} : Type ℓ → Type ℓ
Cache D = SyncMap (Element D)

abbrev pub is_past : ℕ → Option ℕ → Bool
is_past now none = false
is_past now (some t) = ltb t now

-- The map, the element with whether it was loaded (none if the cache is full), and the entries that
-- onExpire is called for.
abbrev pub Limited {ℓ} : Type ℓ → Type ℓ
Limited D = Cache D × Option (Element D × Bool) × Cache D

module _ {ℓ} {D : Type ℓ} where
  unfoldable pub is_expired : ℕ → Element D → Bool
  is_expired now e = is_past now e.valid_until

  -- An element that is there and has not expired.
  abbrev pub live : ℕ → Option (Element D) → Option (Element D)
  live now none = none
  live now (some e) = if is_expired now e then none else some e

  -- Load
  unfoldable pub load_live : ℕ → ℕ → Cache D → Option (Element D)
  load_live now k m = live now (load k m)

  unfoldable pub load_or_store_live : ℕ → ℕ → Element D → Cache D → Cache D × Element D × Bool
  load_or_store_live now k e m = elim (load_live now k m) [
    | some old ↦ (m, old, true)
    | none ↦ (store k e m, e, false)
  ]

  -- CheckExpirations: the entries that stay, and those that onExpire is called for.
  unfoldable pub check_expirations : ℕ → Cache D → Cache D
  check_expirations now [] = []
  check_expirations now ((k, e) ∷ m) =
      if is_expired now e then check_expirations now m else (k, e) ∷ check_expirations now m

  unfoldable pub expired_entries : ℕ → Cache D → Cache D
  expired_entries now [] = []
  expired_entries now ((k, e) ∷ m) =
      if is_expired now e then (k, e) ∷ expired_entries now m else expired_entries now m

  -- the part of LoadOrStoreWithLimit behind the first clean-up
  unfoldable pub store_with_limit : ℕ → ℕ → Element D → ℕ → Cache D → Cache D → Limited D
  store_with_limit now k e max_entries removed m = elim (load k m) [
    | some old ↦
        if is_expired now old
        then (store k e m, some (e, false), removed ++ (k, old) ∷ [])
        else (store k old m, some (old, true), removed)
    | none ↦
        if is_full max_entries m
        then (m, none, removed)
        else (store k e m, some (e, false), removed)
  ]

  unfoldable pub load_or_store_with_limit : ℕ → ℕ → Element D → ℕ → Cache D → Limited D
  load_or_store_with_limit now k e max_entries m =
      if is_full max_entries m
      then store_with_limit now k e max_entries (expired_entries now m) (check_expirations now m)
      else store_with_limit now k e max_entries [] m
