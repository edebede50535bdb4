-- ===== src/Net/Limit.antt =====
-- net/client/limitParallelRequests/limitParallelRequests.go: the queue of requests of one endpoint.
-- The map endpointQueues has one entry for each hash of a path; an operation touches one entry only,
-- under the map's lock, and the entry is `none` where the key is missing. A channel stands as the
-- number of its request. The weighted semaphore for all endpoints is a library's.
pub mod Bounds
pub mod Leaving
use go_coap.Prelude.{ltb, ◌==◌, if◌then◌else◌}
use go_coap.Prelude.{ℕ, ◌+◌, ◌-◌}
use go_coap.Prelude.{Bool, true, false, ◌||◌}
use go_coap.Prelude.{Option, none, some, List, [], ◌∷◌, ◌++◌}

pub record EndpointQueue : Type 0 where
  pub processed_counter : ℕ
  pub ordered_request : List ℕ

-- The callbacks of LoadOrStoreWithFunc in acquireEndpoint, and whether the request's channel is
-- closed at once.
unfoldable pub acquire_queue : ℕ → ℕ → Option EndpointQueue → EndpointQueue × Bool
acquire_queue limit req none = (record { processed_counter = 1; ordered_request = [] }, true)
acquire_queue limit req (some q) =
    if ltb q.processed_counter limit
    then (record q { processed_counter = q.processed_counter + 1 }, true)
    else (record q { ordered_request = q.ordered_request ++ req ∷ [] }, false)

-- releaseEndpoint on a queue: the new entry, and the request whose channel is closed.
abbrev release_waiting : ℕ → List ℕ → Option EndpointQueue × Option ℕ
release_waiting processed (req ∷ reqs) =
    (some (record { processed_counter = processed; ordered_request = reqs }), some req)
release_waiting processed [] =
    if processed - 1 == 0
    then (none, none)
    else (some (record { processed_counter = processed - 1; ordered_request = [] }), none)

unfoldable pub release_endpoint : Option EndpointQueue → Option EndpointQueue × Option ℕ
release_endpoint none = (none, none)
release_endpoint (some q) = release_waiting q.processed_counter q.ordered_request

-- An endpoint with its requests: `granted` counts those that acquireEndpoint has let through and
-- that have not yet released, `gone` are those that gave up while they waited.
pub record Endpoint : Type 0 where
  pub queue : Option EndpointQueue
  pub granted : ℕ
  pub gone : List ℕ

abbrev pub init : Endpoint
init = record { queue = none; granted = 0; gone = [] }

-- A request starts, ends with its deferred release, or gives up waiting because its context is done.
pub data Event : Type 0 where
  arrive : ℕ → Event
  finish : Event
  cancel : ℕ → Event

unfoldable pub has_gone : ℕ → List ℕ → Bool
has_gone req [] = false
has_gone req (r ∷ rs) = (req == r) || has_gone req rs

-- Closing a channel lets its request through, unless nobody waits on it any more.
abbrev pub wake : Option ℕ → List ℕ → ℕ → ℕ
wake none gone granted = granted
wake (some req) gone granted = if has_gone req gone then granted else granted + 1

unfoldable pub step : ℕ → Event → Endpoint → Endpoint
unfolding acquire_queue release_endpoint
step limit (arrive req) s =
    let r = acquire_queue limit req s.queue in
    record s { queue = some r.0; granted = if r.1 then s.granted + 1 else s.granted }
step limit finish s =
    let r = release_endpoint s.queue in
    record s { queue = r.0; granted = wake r.1 s.gone (s.granted - 1) }
step limit (cancel req) s =
    let r = release_endpoint s.queue in
    let gone' = req ∷ s.gone in
    record { queue = r.0; granted = wake r.1 gone' s.granted; gone = gone' }

unfoldable pub run : ℕ → List Event → Endpoint → Endpoint
run limit [] s = s
run limit (e ∷ es) s = run limit es (step limit e s)
