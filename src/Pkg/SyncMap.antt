-- ===== src/Pkg/SyncMap.antt =====
-- pkg/sync/map.go: a map behind a lock, with keys of 64 bits. Each operation runs under the lock, so
-- it is one step. A Go map has no order; the order of the list is not read by any operation but Range,
-- whose callers do not depend on it.
pub mod Laws
use go_coap.Prelude.{ltb, leb, ◌==◌, if◌then◌else◌}
use go_coap.Prelude.{length}
use go_coap.Prelude.{ℕ}
use go_coap.Prelude.{Bool, true, false, ◌&&◌}
use go_coap.Prelude.{Option, none, some, List, [], ◌∷◌}

abbrev pub SyncMap {ℓ} : Type ℓ → Type ℓ
SyncMap V = List (ℕ × V)

module _ {ℓ} {V : Type ℓ} where
  unfoldable pub load : ℕ → SyncMap V → Option V
  load k [] = none
  load k ((j, v) ∷ m) = if j == k then some v else load k m

  -- m.data[key] = value
  unfoldable pub store : ℕ → V → SyncMap V → SyncMap V
  store k v [] = (k, v) ∷ []
  store k v ((j, w) ∷ m) = if j == k then (k, v) ∷ m else (j, w) ∷ store k v m

  unfoldable pub delete : ℕ → SyncMap V → SyncMap V
  delete k [] = []
  delete k ((j, w) ∷ m) = if j == k then delete k m else (j, w) ∷ delete k m

  -- The value, and whether it was there before.
  unfoldable pub load_or_store : ℕ → V → SyncMap V → SyncMap V × V × Bool
  load_or_store k v m = elim (load k m) [
    | some old ↦ (m, old, true)
    | none ↦ (store k v m, v, false)
  ]

  unfoldable pub replace : ℕ → V → SyncMap V → SyncMap V × Option V
  replace k v m = (store k v m, load k m)

  unfoldable pub load_and_delete : ℕ → SyncMap V → SyncMap V × Option V
  load_and_delete k m = (delete k m, load k m)

  unfoldable pub load_and_delete_all : SyncMap V → SyncMap V × SyncMap V
  load_and_delete_all m = ([], m)

  -- The callback sees the old value if there is one, and answers with a new value or none to delete.
  unfoldable pub replace_with_func : ℕ → (Option V → Option V) → SyncMap V → SyncMap V × Option V
  replace_with_func k on_replace m = elim (on_replace (load k m)) [
    | some v ↦ (store k v m, load k m)
    | none ↦ (delete k m, load k m)
  ]

  -- What the callback answers is returned, and not stored.
  unfoldable pub load_or_store_with_func : ℕ → (V → V) → V → SyncMap V → SyncMap V × V × Bool
  load_or_store_with_func k on_load created m = elim (load k m) [
    | some old ↦ (m, on_load old, true)
    | none ↦ (store k created m, created, false)
  ]

  abbrev pub is_full : ℕ → SyncMap V → Bool
  is_full max_entries m = ltb 0 max_entries && leb max_entries (length m)

  -- The value and whether it was loaded, or none if the map is full.
  unfoldable pub load_or_store_with_func_and_limit :
      ℕ → ℕ → (V → V) → V → SyncMap V → SyncMap V × Option (V × Bool)
  load_or_store_with_func_and_limit k max_entries on_load created m = elim (load k m) [
    | some old ↦ (store k (on_load old) m, some (on_load old, true))
    | none ↦ if is_full max_entries m then (m, none) else (store k created m, some (created, false))
  ]

  -- onDelete is called on the value that the second part holds.
  unfoldable pub load_and_delete_with_func : ℕ → (V → V) → SyncMap V → SyncMap V × Option V
  load_and_delete_with_func k on_load m = elim (load k m) [
    | some old ↦ (delete k m, some (on_load old))
    | none ↦ (delete k m, none)
  ]

  -- StoreWithFunc of the value that the callback creates
  unfoldable pub store_with_func : ℕ → V → SyncMap V → SyncMap V
  store_with_func k created m = store k created m

  -- What the callback answers is returned, and not stored.
  unfoldable pub load_with_func : ℕ → (V → V) → SyncMap V → Option V
  load_with_func k on_load m = elim (load k m) [ some v ↦ some (on_load v) | none ↦ none ]

  -- onDelete is called on the value that the second part holds.
  unfoldable pub delete_with_func : ℕ → SyncMap V → SyncMap V × Option V
  delete_with_func k m = load_and_delete_with_func k (λ v. v) m

  unfoldable pub copy_data : SyncMap V → SyncMap V
  copy_data m = m
