-- ===== src/Pkg/Cache/Laws.antt =====
-- The cache keeps every element that has not expired, and stays within its limit.
use go_coap.Pkg.SyncMap.{load, store, is_full}
use go_coap.Pkg.SyncMap.Laws.{load-store, length-store, IsMap}
use go_coap.Pkg.Cache.{
  Element, Cache, is_expired, live, load_live, check_expirations, store_with_limit,
  load_or_store_with_limit,
}
use go_coap.Prelude.{==→eq, Bool-cases, Option-cases}
use go_coap.Prelude.{length}
use go_coap.Prelude.{ℕ, ◌≤◌, ◌<◌}
use go_coap.Prelude.{◌≡◌, refl, ap, ◌∙◌, inl, inr}
use go_coap.Prelude.{none, some, [], ◌∷◌, arith}

module _ {ℓ} {D : Type ℓ} where
  gone-check_expirations :
      (now k : ℕ) (m : Cache D) → load k m ≡ none → load k (check_expirations now m) ≡ none
  unfolding load check_expirations
  gone-check_expirations now k [] h = h
  gone-check_expirations now k ((j, e) ∷ m) h = ground (arith, gone-check_expirations now k m)

  check_expirations-IsMap : (now : ℕ) (m : Cache D) → IsMap m → IsMap (check_expirations now m)
  unfolding check_expirations
  check_expirations-IsMap now [] h = h
  check_expirations-IsMap now ((j, e) ∷ m) (h, hs) = elim (Bool-cases (is_expired now e)) [
    | inl x ↦ rw x (check_expirations-IsMap now m hs)
    | inr x ↦ rw x (gone-check_expirations now j m h, check_expirations-IsMap now m hs)
  ]

  pub load_live-check_expirations :
      (now k : ℕ) (m : Cache D)
      → IsMap m
      → load_live now k (check_expirations now m) ≡ load_live now k m
  unfolding load_live load check_expirations
  load_live-check_expirations now k [] h = refl
  load_live-check_expirations now k ((j, e) ∷ m) (h, hs) =
      ground (
        arith,
        load_live-check_expirations now k m hs,
        gone-check_expirations now k m,
        ==→eq j k,
        h,
      )

  pub length-check_expirations :
      (now : ℕ) (m : Cache D) → length (check_expirations now m) ≤ length m
  unfolding check_expirations
  length-check_expirations now [] = omega arith
  length-check_expirations now ((j, e) ∷ m) = ground (arith, length-check_expirations now m)

  -- The element `e` at `k`, where nothing stands that has not expired, hides no other.
  store-keeps :
      (now k : ℕ) (e : Element D) (m : Cache D)
      → load_live now k m ≡ none
      → (j : ℕ) (x : Element D) → load_live now j m ≡ some x
      → load_live now j (store k e m) ≡ some x
  unfolding load_live
  store-keeps now k e m gone j x h = ground (arith, load-store k j e m, ==→eq k j)

  store_with_limit-keeps :
      (now k : ℕ) (e : Element D) (max_entries : ℕ) (removed m : Cache D) (j : ℕ) (x : Element D)
      → load_live now j m ≡ some x
      → load_live now j (store_with_limit now k e max_entries removed m).0 ≡ some x
  unfolding store_with_limit load_live
  store_with_limit-keeps now k e max_entries removed m j x h = elim (Option-cases (load k m)) [
    | inl y ↦
        rw (y, store_with_limit) (ground (arith, h, load-store k j e m, ==→eq k j, ap (live now) y))
    | inr (old, y) ↦
        rw (y, store_with_limit)
          (ground (arith, h, load-store k j e m, load-store k j old m, ==→eq k j, y))
  ]

  store_with_limit-le :
      (now k : ℕ) (e : Element D) (max_entries : ℕ) (removed m : Cache D)
      → 0 < max_entries
      → length m ≤ max_entries
      → length (store_with_limit now k e max_entries removed m).0 ≤ max_entries
  unfolding store_with_limit
  store_with_limit-le now k e max_entries removed m p h = elim (Option-cases (load k m)) [
    | inl x ↦ rw (x, store_with_limit) (ground (arith, length-store k e m))
    | inr (old, x) ↦
        rw (x, store_with_limit) (ground (arith, length-store k e m, length-store k old m))
  ]

  -- LoadOrStoreWithLimit on a map with one element for a key that is within its limit of 1 or more: it
  -- is within the limit afterwards, and every element that has not expired is still there, under any
  -- key.
  pub load_or_store_with_limit-keeps :
      (now k : ℕ) (e : Element D) (max_entries : ℕ) (m : Cache D)
      → IsMap m
      → 0 < max_entries
      → length m ≤ max_entries
      → (length (load_or_store_with_limit now k e max_entries m).0 ≤ max_entries)
        × ((j : ℕ) (x : Element D)
            → load_live now j m ≡ some x
            → load_live now j (load_or_store_with_limit now k e max_entries m).0 ≡ some x)
  unfolding load_or_store_with_limit
  load_or_store_with_limit-keeps now k e max_entries m u p h =
      elim (Bool-cases (is_full max_entries m)) [
        | inl full ↦ rw full (
          store_with_limit-le now k e max_entries _ _ p
              (omega (arith, length-check_expirations now m)),
          λ j x y.
              store_with_limit-keeps now k e max_entries _ _ j x
                (load_live-check_expirations now j m u ∙ y),
        )
        | inr room ↦ rw room (
          store_with_limit-le now k e max_entries _ _ p h,
          λ j x y. store_with_limit-keeps now k e max_entries _ _ j x y,
        )
      ]
