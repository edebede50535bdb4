-- ===== src/Pkg/SyncMap/Laws.antt =====
-- What an operation on a map does to the value of each key, and to the number of entries.
use go_coap.Pkg.SyncMap.{SyncMap, load, store, delete, load_or_store_with_func_and_limit}
use mathlib.Core.Path.{subst}
use go_coap.Prelude.{◌==◌, if◌then◌else◌, ==→eq, ne→not==, Bool-cases, Option-cases}
use go_coap.Prelude.{length}
use go_coap.Prelude.{ℕ, suc, ◌≤◌, ◌<◌}
use go_coap.Prelude.{◌≡◌, refl, ◌∙◌, inl, inr}
use go_coap.Prelude.{none, some, [], ◌∷◌, arith}

module _ {ℓ} {V : Type ℓ} where
  pub load-store :
      (k j : ℕ) (v : V) (m : SyncMap V)
      → load j (store k v m) ≡ (if k == j then some v else load j m)
  unfolding load store
  load-store k j v [] = refl
  load-store k j v ((i, w) ∷ m) = ground (arith, load-store k j v m)

  pub load-delete :
      (k j : ℕ) (m : SyncMap V) → load j (delete k m) ≡ (if k == j then none else load j m)
  unfolding load delete
  load-delete k j [] = ground arith
  load-delete k j ((i, w) ∷ m) = ground (arith, load-delete k j m)

  pub length-store :
      (k : ℕ) (v : V) (m : SyncMap V)
      → length (store k v m) ≡ (elim (load k m) [ some w ↦ length m | none ↦ suc (length m) ])
  unfolding load store
  length-store k v [] = refl
  length-store k v ((i, w) ∷ m) = ground (arith, length-store k v m)

  pub length-delete : (k : ℕ) (m : SyncMap V) → length (delete k m) ≤ length m
  unfolding delete
  length-delete k [] = omega arith
  length-delete k ((i, w) ∷ m) = ground (arith, length-delete k m)

  -- No key has two entries.
  abbrev pub IsMap : SyncMap V → Type ℓ
  IsMap [] = Unit {ℓ}
  IsMap ((k, v) ∷ m) = (load k m ≡ none) × IsMap m

  pub store-IsMap : (k : ℕ) (v : V) (m : SyncMap V) → IsMap m → IsMap (store k v m)
  unfolding store load
  store-IsMap k v [] h = (refl, tt)
  store-IsMap k v ((j, w) ∷ m) (h, hs) = elim (Bool-cases (j == k)) [
    | inl e ↦ rw e (subst (λ i. load i m ≡ none) (==→eq j k e) h, hs)
    | inr e ↦ rw e (load-store k j v m ∙ rw (ne→not== k j (ground arith)) h, store-IsMap k v m hs)
  ]

  -- A map within its limit stays within it.
  pub limit-le :
      (k max_entries : ℕ) (on_load : V → V) (created : V) (m : SyncMap V)
      → 0 < max_entries
      → length m ≤ max_entries
      → length (load_or_store_with_func_and_limit k max_entries on_load created m).0 ≤ max_entries
  unfolding load_or_store_with_func_and_limit
  limit-le k max_entries on_load created m p h = elim (Option-cases (load k m)) [
    | inl e ↦ rw (e, load_or_store_with_func_and_limit) (ground (arith, length-store k created m))
    | inr (old, e) ↦
        rw (e, load_or_store_with_func_and_limit) (ground (arith, length-store k (on_load old) m))
  ]
