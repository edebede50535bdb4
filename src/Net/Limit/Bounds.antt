-- ===== src/Net/Limit/Bounds.antt =====
-- How many requests of one endpoint are in progress (limitParallelRequests.go).
use go_coap.Net.Limit.{
  EndpointQueue, Endpoint, init, Event, arrive, finish, cancel, has_gone, step, run,
}
use go_coap.Prelude.{ℕ, ◌≤◌, ◌<◌}
use go_coap.Prelude.{◌≡◌, refl, ◌∙◌, ◌≢◌, ◌⊎◌, inl, inr}
use go_coap.Prelude.{Option, none, some, List, [], ◌∷◌, arith}

abbrev pub processed_of : Option EndpointQueue → ℕ
processed_of none = 0
processed_of (some q) = q.processed_counter

abbrev pub waiting_of : Option EndpointQueue → List ℕ
waiting_of none = []
waiting_of (some q) = q.ordered_request

abbrev IsKept : Option EndpointQueue → Type 0
IsKept none = Unit {0}
IsKept (some q) = 1 ≤ q.processed_counter

-- While nobody gives up: the counter is the number of requests let through, at most the limit, it
-- is at the limit while requests wait, and an entry is kept only while it counts one.
pub record IsBalanced (limit : ℕ) (s : Endpoint) : Type 0 where
  pub counted : s.granted ≡ processed_of s.queue
  pub bounded : processed_of s.queue ≤ limit
  pub full : (waiting_of s.queue ≡ []) ⊎ (processed_of s.queue ≡ limit)
  pub kept : IsKept s.queue
  pub nobody_gone : s.gone ≡ []

-- The events that can happen while nobody gives up; a request that ends has been let through.
abbrev pub IsOrderly : Endpoint → Event → Type 0
IsOrderly s (arrive req) = Unit {0}
IsOrderly s finish = 0 < s.granted
IsOrderly s (cancel req) = ⊥

abbrev pub OrderlyRun : ℕ → List Event → Endpoint → Type 0
OrderlyRun limit [] s = Unit {0}
OrderlyRun limit (e ∷ es) s = IsOrderly s e × OrderlyRun limit es (step limit e s)

arrive-IsBalanced :
    (limit req : ℕ) (q : Option EndpointQueue) (g : ℕ)
    → 0 < limit
    → IsBalanced limit (record { queue = q; granted = g; gone = [] })
    → IsBalanced limit (step limit (arrive req) (record { queue = q; granted = g; gone = [] }))
unfolding step
arrive-IsBalanced limit req none g h b = ground arith
arrive-IsBalanced limit req (some q) g h b = ground arith

finish-IsBalanced :
    (limit p : ℕ) (waiting : List ℕ) (g : ℕ)
    → 0 < g
    → IsBalanced limit (record {
      queue = some (record { processed_counter = p; ordered_request = waiting });
      granted = g;
      gone = [];
    })
    → IsBalanced limit (
        step limit finish (record {
          queue = some (record { processed_counter = p; ordered_request = waiting });
          granted = g;
          gone = [];
        }))
unfolding step has_gone
finish-IsBalanced limit p [] g h b = ground arith
finish-IsBalanced limit p (r ∷ rs) g h b = record {
  counted = omega (arith, b.counted);
  bounded = b.bounded;
  full = inr (elim b.full [ inl e ↦ cc | inr e ↦ e ]);
  kept = b.kept;
  nobody_gone = refl;
}

orderly-IsBalanced :
    (limit : ℕ) (e : Event) (q : Option EndpointQueue) (g : ℕ) (gone : List ℕ)
    → 0 < limit
    → IsOrderly (record { queue = q; granted = g; gone = gone }) e
    → IsBalanced limit (record { queue = q; granted = g; gone = gone })
    → IsBalanced limit (step limit e (record { queue = q; granted = g; gone = gone }))
orderly-IsBalanced limit e q g (x ∷ gone) h o b = cc b.nobody_gone
orderly-IsBalanced limit (arrive req) q g [] h o b = arrive-IsBalanced limit req q g h b
orderly-IsBalanced limit finish none g [] h o b = absurd (omega (arith, b.counted))
orderly-IsBalanced limit finish (some q) g [] h o b =
    finish-IsBalanced limit q.processed_counter q.ordered_request g o b
orderly-IsBalanced limit (cancel req) q g [] h o b = absurd o

run-IsBalanced :
    (limit : ℕ) (es : List Event) (s : Endpoint)
    → 0 < limit
    → OrderlyRun limit es s
    → IsBalanced limit s
    → IsBalanced limit (run limit es s)
unfolding run
run-IsBalanced limit [] s h o b = b
run-IsBalanced limit (e ∷ es) s h (o, os) b =
    run-IsBalanced limit es (step limit e s) h os
      (orderly-IsBalanced limit e s.queue s.granted s.gone h o b)

-- From an endpoint with no request, whatever requests start and end while none gives up waiting, at
-- most `limit` requests are in progress, and exactly `limit` whenever one waits.
pub run-le-limit :
    (limit : ℕ) (es : List Event)
    → 0 < limit
    → OrderlyRun limit es init
    → ((run limit es init).granted ≤ limit)
      × ((waiting_of (run limit es init).queue ≢ []) → (run limit es init).granted ≡ limit)
run-le-limit limit es h o =
    let b = run-IsBalanced limit es init h o (record {
      counted = refl;
      bounded = omega arith;
      full = inl refl;
      kept = tt;
      nobody_gone = refl;
    }) in
    (
      omega (arith, b.counted, b.bounded),
      λ waits. elim b.full [ inl e ↦ absurd (waits e) | inr e ↦ b.counted ∙ e ],
    )
