-- ===== src/Mux/Router/Matching.antt =====
-- mux/router.go: Match finds the longest pattern that matches, whatever the order of the routes.
use mathlib.Core.Path.{subst}
use mathlib.Core.List.{Memᴰ}
use go_coap.Mux.Router.{Route, Router, filter_path, match_loop, match}
use go_coap.Prelude.{ltb, ltb→lt, Bool-cases}
use go_coap.Prelude.{length}
use go_coap.Prelude.{ℕ, ◌≤◌, ◌<◌}
use go_coap.Prelude.{◌≡◌, refl, sym, ap, ◌⊎◌, inl, inr, Bool, true, false}
use go_coap.Prelude.{Option, none, some, List, [], ◌∷◌, arith}

module _ {ℓ κ} {R : Type κ} (S : Type ℓ) (matches : R → List ℕ → Bool) where
  abbrev fits : List ℕ → Route S R → Bool
  fits path r = matches r.regex_matcher path

  -- No route is found only if none matches; a route that is found is there, matches, and has a pattern
  -- at least as long as that of every route that matches.
  abbrev pub IsLongest : List ℕ → List (Route S R) → Option (Route S R) → Type (ℓ ⊔ κ)
  IsLongest path routes none = (r : Route S R) → Memᴰ r routes → fits path r ≡ false
  IsLongest path routes (some b) =
      Memᴰ b routes
      × (fits path b ≡ true)
      × ((r : Route S R) → Memᴰ r routes → fits path r ≡ true → length r.pattern ≤ length b.pattern)

  -- The same of the loop, with the best route of those before.
  abbrev Continues :
      List ℕ → Option (Route S R) → List (Route S R) → Option (Route S R) → Type (ℓ ⊔ κ)
  Continues path none routes out = IsLongest path routes out
  Continues path (some best) routes out =
      (b : Route S R) × (out ≡ some b)
      × ((b ≡ best) ⊎ (Memᴰ b routes × (fits path b ≡ true)))
      × (length best.pattern ≤ length b.pattern)
      × ((r : Route S R) → Memᴰ r routes → fits path r ≡ true → length r.pattern ≤ length b.pattern)

  extend :
      (path : List ℕ) (r : Route S R) (routes : List (Route S R)) (out : Option (Route S R))
      → fits path r ≡ false
      → IsLongest path routes out
      → IsLongest path (r ∷ routes) out
  extend path r routes none e h = none_of
    where
      none_of : (q : Route S R) → Memᴰ q (r ∷ routes) → fits path q ≡ false
      none_of q (Memᴰ.head same) = subst (λ x. fits path x ≡ false) (sym same) e
      none_of q (Memᴰ.tail m) = h q m
  extend path r routes (some b) e (m, fit, longest) = (Memᴰ.tail m, fit, all)
    where
      all :
          (q : Route S R)
          → Memᴰ q (r ∷ routes)
          → fits path q ≡ true
          → length q.pattern ≤ length b.pattern
      all q (Memᴰ.head same) f = cc (subst (λ x. fits path x ≡ true) same f, e)
      all q (Memᴰ.tail m) f = longest q m f

  -- A route that is looked at and is not longer than the best so far does not matter.
  and_also :
      (path : List ℕ) (r b : Route S R) (routes : List (Route S R))
      → (fits path r ≡ true → length r.pattern ≤ length b.pattern)
      → ((q : Route S R) → Memᴰ q routes → fits path q ≡ true → length q.pattern ≤ length b.pattern)
      → (q : Route S R) → Memᴰ q (r ∷ routes)
      → fits path q ≡ true
      → length q.pattern ≤ length b.pattern
  and_also path r b routes h all q (Memᴰ.head same) f =
      subst (λ x. length x.pattern ≤ length b.pattern) (sym same)
        (h (subst (λ x. fits path x ≡ true) same f))
  and_also path r b routes h all q (Memᴰ.tail m) f = all q m f

  loop : List ℕ → Option (Route S R) → List (Route S R) → Option (Route S R)
  loop = match_loop matches

  first_match :
      (path : List ℕ) (r : Route S R) (routes : List (Route S R)) (out : Option (Route S R))
      → fits path r ≡ true
      → Continues path (some r) routes out
      → IsLongest path (r ∷ routes) out
  first_match path r routes out f (b, e, source, le, all) =
      subst (IsLongest path (r ∷ routes)) (sym e)
        (from source, fit source, and_also path r b routes (λ x. le) all)
    where
      from : (b ≡ r) ⊎ (Memᴰ b routes × (fits path b ≡ true)) → Memᴰ b (r ∷ routes)
      from (inl same) = Memᴰ.head same
      from (inr (m, x)) = Memᴰ.tail m

      fit : (b ≡ r) ⊎ (Memᴰ b routes × (fits path b ≡ true)) → fits path b ≡ true
      fit (inl same) = subst (λ x. fits path x ≡ true) (sym same) f
      fit (inr (m, x)) = x

  better_match :
      (path : List ℕ) (best r : Route S R) (routes : List (Route S R)) (out : Option (Route S R))
      → fits path r ≡ true
      → length best.pattern < length r.pattern
      → Continues path (some r) routes out
      → Continues path (some best) (r ∷ routes) out
  better_match path best r routes out f less (b, e, source, le, all) =
      (b, e, from source, omega (arith, less, le), and_also path r b routes (λ x. le) all)
    where
      from :
          (b ≡ r) ⊎ (Memᴰ b routes × (fits path b ≡ true))
          → (b ≡ best) ⊎ (Memᴰ b (r ∷ routes) × (fits path b ≡ true))
      from (inl same) = inr (Memᴰ.head same, subst (λ x. fits path x ≡ true) (sym same) f)
      from (inr (m, x)) = inr (Memᴰ.tail m, x)

  no_better :
      (path : List ℕ) (best r : Route S R) (routes : List (Route S R)) (out : Option (Route S R))
      → (fits path r ≡ true → length r.pattern ≤ length best.pattern)
      → Continues path (some best) routes out
      → Continues path (some best) (r ∷ routes) out
  no_better path best r routes out h (b, e, source, le, all) =
      (b, e, from source, le, and_also path r b routes (λ f. short (h f)) all)
    where
      from :
          (b ≡ best) ⊎ (Memᴰ b routes × (fits path b ≡ true))
          → (b ≡ best) ⊎ (Memᴰ b (r ∷ routes) × (fits path b ≡ true))
      from (inl same) = inl same
      from (inr (m, x)) = inr (Memᴰ.tail m, x)

      short : length r.pattern ≤ length best.pattern → length r.pattern ≤ length b.pattern
      short x = omega (arith, x, le)

  loop-Continues :
      (path : List ℕ) (best : Option (Route S R)) (routes : List (Route S R))
      → Continues path best routes (loop path best routes)
  unfolding loop match_loop
  loop-Continues path none [] = λ r h. elim h [ ]
  loop-Continues path (some best) [] = (best, refl, inl refl, omega arith, λ r h f. elim h [ ])
  loop-Continues path none (r ∷ rs) = elim (Bool-cases (fits path r)) [
    | inl e ↦ rw e (first_match path r rs _ e (loop-Continues path (some r) rs))
    | inr e ↦ rw e (extend path r rs _ e (loop-Continues path none rs))
  ]
  loop-Continues path (some best) (r ∷ rs) = elim (Bool-cases (fits path r)) [
    | inr e ↦
        rw e (no_better path best r rs _ (λ f. cc (f, e)) (loop-Continues path (some best) rs))
    | inl e ↦ elim (Bool-cases (ltb (length best.pattern) (length r.pattern))) [
      | inl e2 ↦
          rw (e, e2)
            (better_match path best r rs _ e (ltb→lt _ _ e2) (loop-Continues path (some r) rs))
      | inr e2 ↦
          rw (e, e2)
            (no_better path best r rs _ (λ f. ground arith) (loop-Continues path (some best) rs))
    ]
  ]

  -- Match finds no route only if no pattern matches the path, an empty path read as a slash, and else a
  -- route that matches it with the longest pattern, in whatever order the map yields the routes.
  pub match-IsLongest :
      (path : List ℕ) (r : Router S R)
      → IsLongest (filter_path path) r.routes (match matches path r)
  unfolding match loop
  match-IsLongest path r = loop-Continues (filter_path path) none r.routes

  same_longest :
      (path : List ℕ) (routes others : List (Route S R)) (a b : Option (Route S R))
      → ((q : Route S R) → Memᴰ q routes → Memᴰ q others)
      → ((q : Route S R) → Memᴰ q others → Memᴰ q routes)
      → ((p q : Route S R)
          → Memᴰ p routes
          → Memᴰ q routes
          → fits path p ≡ true
          → fits path q ≡ true
          → length p.pattern ≡ length q.pattern
          → p ≡ q)
      → IsLongest path routes a
      → IsLongest path others b
      → a ≡ b
  same_longest path routes others none none there back one h h2 = refl
  same_longest path routes others none (some b) there back one h (m, f, all) =
      let no : fits path b ≡ false = h b (back b m) in cc (no, f)
  same_longest path routes others (some a) none there back one (m, f, all) h2 =
      let no : fits path a ≡ false = h2 a (there a m) in cc (no, f)
  same_longest path routes others (some a) (some b) there back one (m, f, all) (m2, f2, all2) =
      let le = all b (back b m2) f2 in
      let ge = all2 a (there a m) f in ap some (one a b m (back b m2) f f2 (omega (arith, le, ge)))

  -- The order of the routes does not matter if no two of them match the path with patterns of the same
  -- length: two routers with the same routes, in any order, choose the same route.
  pub match-order :
      (path : List ℕ) (r s : Router S R)
      → ((q : Route S R) → Memᴰ q r.routes → Memᴰ q s.routes)
      → ((q : Route S R) → Memᴰ q s.routes → Memᴰ q r.routes)
      → ((p q : Route S R)
          → Memᴰ p r.routes
          → Memᴰ q r.routes
          → fits (filter_path path) p ≡ true
          → fits (filter_path path) q ≡ true
          → length p.pattern ≡ length q.pattern
          → p ≡ q)
      → match matches path r ≡ match matches path s
  match-order path r s there back one =
      same_longest (filter_path path) r.routes s.routes (match matches path r)
        (match matches path s) there back one (match-IsLongest path r) (match-IsLongest path s)
