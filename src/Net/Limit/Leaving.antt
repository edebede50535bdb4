-- ===== src/Net/Limit/Leaving.antt =====
-- Requests that give up waiting for their endpoint (limitParallelRequests.go).
use mathlib.Core.Path.{subst}
use go_coap.Net.Limit.{
  EndpointQueue, Endpoint, init, Event, arrive, finish, cancel, has_gone, acquire_queue,
  release_endpoint, wake, step, run,
}
use go_coap.Net.Limit.Bounds.{processed_of, waiting_of}
use go_coap.Prelude.{ltb, ◌==◌, if◌then◌else◌, ==→eq, ltb→lt, Bool-cases}
use go_coap.Prelude.{ℕ, ◌+◌, ◌-◌, ◌≤◌, ◌<◌}
use go_coap.Prelude.{◌≡◌, refl, sym, ◌≢◌, ◌⊎◌, inl, inr, true, false, ◌||◌}
use go_coap.Prelude.{Option, none, some, List, [], ◌∷◌, ◌++◌, arith}

-- The channels in a queue on which nobody waits any more.
abbrev pub count_gone : List ℕ → List ℕ → ℕ
count_gone gone [] = 0
count_gone gone (r ∷ rs) = (if has_gone r gone then 1 else 0) + count_gone gone rs

-- What can happen: a request that starts has a channel of its own, one that ends has been let through,
-- and one that gives up waits and has not given up before.
abbrev pub IsPossible : Endpoint → Event → Type 0
IsPossible s (arrive req) =
    (has_gone req s.gone ≡ false) × (has_gone req (waiting_of s.queue) ≡ false)
IsPossible s finish = 0 < s.granted
IsPossible s (cancel req) =
    (has_gone req s.gone ≡ false) × (has_gone req (waiting_of s.queue) ≡ true)

abbrev pub PossibleRun : ℕ → List Event → Endpoint → Type 0
PossibleRun limit [] s = Unit {0}
PossibleRun limit (e ∷ es) s = IsPossible s e × PossibleRun limit es (step limit e s)

-- No channel is in the queue twice.
abbrev AllDistinct : List ℕ → Type 0
AllDistinct [] = Unit {0}
AllDistinct (r ∷ rs) = (has_gone r rs ≡ false) × AllDistinct rs

-- The requests let through are those that the counter counts and as many as there are channels on
-- which nobody waits; the counter keeps the limit, and is at it while the queue has a channel.
record IsAccounted (limit : ℕ) (s : Endpoint) : Type 0 where
  counted : s.granted ≡ processed_of s.queue + count_gone s.gone (waiting_of s.queue)
  bounded : processed_of s.queue ≤ limit
  full : (waiting_of s.queue ≡ []) ⊎ (processed_of s.queue ≡ limit)
  distinct : AllDistinct (waiting_of s.queue)

has_gone-append :
    (r req : ℕ) (rs : List ℕ) → has_gone r (rs ++ req ∷ []) ≡ (has_gone r rs || (r == req))
unfolding has_gone
has_gone-append r req [] = ground arith
has_gone-append r req (x ∷ rs) = ground (arith, has_gone-append r req rs)

append-AllDistinct :
    (req : ℕ) (rs : List ℕ)
    → AllDistinct rs
    → has_gone req rs ≡ false
    → AllDistinct (rs ++ req ∷ [])
unfolding has_gone
append-AllDistinct req [] d h = (refl, tt)
append-AllDistinct req (r ∷ rs) (d, ds) h = (
  ground (arith, has_gone-append r req rs, d, h),
  append-AllDistinct req rs ds (ground (arith, h)),
)

count_gone-append :
    (gone : List ℕ) (req : ℕ) (rs : List ℕ)
    → has_gone req gone ≡ false
    → count_gone gone (rs ++ req ∷ []) ≡ count_gone gone rs
count_gone-append gone req [] h = rw h refl
count_gone-append gone req (r ∷ rs) h = rw (count_gone-append gone req rs h) refl

-- A request that does not wait changes nothing by giving up.
count_gone-other :
    (gone : List ℕ) (req : ℕ) (rs : List ℕ)
    → has_gone req rs ≡ false
    → count_gone (req ∷ gone) rs ≡ count_gone gone rs
unfolding has_gone
count_gone-other gone req [] h = refl
count_gone-other gone req (r ∷ rs) h =
    ground (arith, h, count_gone-other gone req rs (ground (arith, h)))

count_gone-new :
    (gone : List ℕ) (req : ℕ) (rs : List ℕ)
    → AllDistinct rs
    → has_gone req gone ≡ false
    → has_gone req rs ≡ true
    → count_gone (req ∷ gone) rs ≡ count_gone gone rs + 1
unfolding has_gone
count_gone-new gone req [] d h w = cc
count_gone-new gone req (r ∷ rs) (d, ds) h w = elim (Bool-cases (req == r)) [
  | inl e ↦
      let same = ==→eq req r e in
      let quiet : has_gone r gone ≡ false = subst (λ k. has_gone k gone ≡ false) same h in
      let once : has_gone req rs ≡ false = subst (λ k. has_gone k rs ≡ false) (sym same) d in
      ground (arith, quiet, count_gone-other gone req rs once)
  | inr e ↦ ground (arith, e, count_gone-new gone req rs ds h (ground (arith, w, e)))
]

module _ (limit : ℕ) (some_place : 0 < limit) where
  arrive-IsAccounted :
      (req : ℕ) (q : Option EndpointQueue) (g : ℕ) (gone : List ℕ)
      → has_gone req gone ≡ false
      → has_gone req (waiting_of q) ≡ false
      → IsAccounted limit (record { queue = q; granted = g; gone = gone })
      → IsAccounted limit (step limit (arrive req) (record { queue = q; granted = g; gone = gone }))
  unfolding step acquire_queue
  arrive-IsAccounted req none g gone h w a = record {
    counted = omega (arith, a.counted);
    bounded = omega arith;
    full = inl refl;
    distinct = tt;
  }
  arrive-IsAccounted req (some q) g gone h w a = elim (Bool-cases (ltb q.processed_counter limit)) [
    | inl e ↦ rw e (record {
      counted = omega (arith, a.counted);
      bounded = ground (arith, e);
      full = elim a.full [
        | inl empty ↦ inl empty
        | inr at ↦ absurd (omega (arith, at, ltb→lt _ _ e))
      ];
      distinct = a.distinct;
    })
    | inr e ↦ rw e (record {
      counted = rw (count_gone-append gone req q.ordered_request h) a.counted;
      bounded = a.bounded;
      full = inr (ground (arith, e, a.bounded));
      distinct = append-AllDistinct req q.ordered_request a.distinct w;
    })
  ]

  -- What a release does to the queue and the requests let through, `g` of them without the one that
  -- releases.
  abbrev released : Option EndpointQueue → ℕ → List ℕ → Endpoint
  released q g gone =
      let r = release_endpoint q in record { queue = r.0; granted = wake r.1 gone g; gone = gone }

  release-IsAccounted :
      (p : ℕ) (waiting : List ℕ) (g : ℕ) (gone : List ℕ)
      → g + 1 ≡ p + count_gone gone waiting
      → p ≤ limit
      → (waiting ≡ []) ⊎ (p ≡ limit)
      → AllDistinct waiting
      → IsAccounted limit
          (released (some (record { processed_counter = p; ordered_request = waiting })) g gone)
  unfolding release_endpoint
  release-IsAccounted p [] g gone e b f d = elim (Bool-cases (p - 1 == 0)) [
    | inl e2 ↦ rw e2 (record {
      counted = ground (arith, e, e2);
      bounded = omega arith;
      full = inl refl;
      distinct = tt;
    })
    | inr e2 ↦ rw e2 (record {
      counted = ground (arith, e, e2);
      bounded = omega (arith, b);
      full = inl refl;
      distinct = tt;
    })
  ]
  release-IsAccounted p (r ∷ rs) g gone e b f (d, ds) = record {
    counted = ground (arith, e);
    bounded = b;
    full = inr (elim f [ inl empty ↦ cc | inr at ↦ at ]);
    distinct = ds;
  }

  Event-IsAccounted :
      (e : Event) (q : Option EndpointQueue) (g : ℕ) (gone : List ℕ)
      → IsPossible (record { queue = q; granted = g; gone = gone }) e
      → IsAccounted limit (record { queue = q; granted = g; gone = gone })
      → IsAccounted limit (step limit e (record { queue = q; granted = g; gone = gone }))
  unfolding step has_gone
  Event-IsAccounted (arrive req) q g gone (h, w) a = arrive-IsAccounted req q g gone h w a
  Event-IsAccounted finish none g gone h a = absurd (omega (arith, h, a.counted))
  Event-IsAccounted finish (some q) g gone h a =
      release-IsAccounted q.processed_counter q.ordered_request (g - 1) gone
        (omega (arith, h, a.counted)) a.bounded a.full a.distinct
  Event-IsAccounted (cancel req) none g gone (h, w) a = cc
  Event-IsAccounted (cancel req) (some q) g gone (h, w) a =
      release-IsAccounted q.processed_counter q.ordered_request g (req ∷ gone)
        (omega (arith, a.counted, count_gone-new gone req q.ordered_request a.distinct h w))
        a.bounded a.full a.distinct

  run-IsAccounted :
      (es : List Event) (s : Endpoint)
      → PossibleRun limit es s
      → IsAccounted limit s
      → IsAccounted limit (run limit es s)
  unfolding run
  run-IsAccounted [] s h a = a
  run-IsAccounted (e ∷ es) s (h, hs) a =
      run-IsAccounted es (step limit e s) hs (Event-IsAccounted e s.queue s.granted s.gone h a)

  -- From an endpoint with no request, whatever requests start, end and give up waiting, each with a
  -- channel of its own: the requests in progress are those that the counter counts, which keeps the
  -- limit, and one more for each channel in the queue whose request gave up; and while the queue has
  -- a channel, they are `limit` and these. So the limit is exceeded by as many.
  pub run-counted :
      (es : List Event)
      → PossibleRun limit es init
      → ((run limit es init).granted
          ≡ processed_of (run limit es init).queue
            + count_gone (run limit es init).gone (waiting_of (run limit es init).queue))
        × (processed_of (run limit es init).queue ≤ limit)
        × ((waiting_of (run limit es init).queue ≢ [])
            → (run limit es init).granted
              ≡ limit + count_gone (run limit es init).gone (waiting_of (run limit es init).queue))
  run-counted es h =
      let a =
        run-IsAccounted es init h
          (record { counted = refl; bounded = omega arith; full = inl refl; distinct = tt }) in
      (
        a.counted,
        a.bounded,
        λ waits. elim a.full [ inl e ↦ absurd (waits e) | inr e ↦ omega (arith, a.counted, e) ],
      )
