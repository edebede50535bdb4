-- ===== src/Net/Observation/Order.antt =====
-- net/observation/handler.go: the order of notifications, and tokens in use.
use go_coap.Message.Fault.{Fault, ok, already_exists}
use go_coap.Message.Defs.{observe_id}
use go_coap.Net.Sequence.{
  observation_sequence_timeout, valid_sequence_number, valid_sequence-circle,
}
use go_coap.Net.Observation.{
  Observation, Observations, accept_number, want_be_notified, new_one, handle_notification,
  clean_up, is_empty_token, new_observation,
}
use go_coap.Pkg.SyncMap.{load, delete, load_or_store, load_and_delete}
use go_coap.Pkg.SyncMap.Laws.{load-delete}
use go_coap.Pool.{PoolMessage, get_option_uint32}
use go_coap.Prelude.{ltb, ◌==◌, Option-cases}
use go_coap.Prelude.{ℕ, ◌+◌, ◌%◌, ◌^◌, ◌≤◌, ◌<◌}
use go_coap.Prelude.{◌≡◌, refl, sym, ap, ◌∙◌, inl, inr, true, false, ◌&&◌}
use go_coap.Prelude.{Option, none, some, List, arith}

accept_number-valid :
    (now v : ℕ) (o : Observation) (r : PoolMessage)
    → (accept_number now o r (ok v)).1 ≡ valid_sequence_number o.obs_sequence v o.last_event now
accept_number-valid now v o r = ground arith

-- After a notification with a 24-bit number has been accepted, one with a number that is `d` further on
-- the circle of 24-bit numbers, within the timeout, is delivered exactly when `d` is at least 1 and
-- below half of the circle.
pub want_be_notified-next :
    (now later v d : ℕ) (o : Observation) (r next : PoolMessage)
    → v < 2 ^ 24
    → d < 2 ^ 24
    → later ≤ now + observation_sequence_timeout
    → get_option_uint32 observe_id r ≡ ok v
    → get_option_uint32 observe_id next ≡ ok ((v + d) % 2 ^ 24)
    → (want_be_notified now o r).1 ≡ true
    → (want_be_notified later (want_be_notified now o r).0 next).1 ≡ (ltb 0 d && ltb d (2 ^ 23))
unfolding want_be_notified
want_be_notified-next now later v d o r next hv hd ht hr hn w =
    let valid : valid_sequence_number o.obs_sequence v o.last_event now ≡ true =
      sym (accept_number-valid now v o r) ∙ (ap (λ n. (accept_number now o r n).1) (sym hr) ∙ w) in
    rw (hr, hn, valid)
      (accept_number-valid later ((v + d) % 2 ^ 24) _ next
        ∙ valid_sequence-circle v d now later hv hd ht)

same_key : (n : ℕ) → (n == n) ≡ true
same_key n = ground arith

load_or_store-found :
    (key : ℕ) (o old : Observation) (os : Observations)
    → load key os ≡ some old
    → load_or_store key o os ≡ (os, old, true)
unfolding load_or_store
load_or_store-found key o old os h = rw (h, load_or_store) refl

clean_up-delete : (key : ℕ) (os : Observations) → (clean_up key os).0 ≡ delete key os
unfolding clean_up load_and_delete
clean_up-delete key os = elim (Option-cases (load key os)) [
  | inl e ↦ rw (e, clean_up) refl
  | inr (o, e) ↦ rw (e, clean_up) refl
]

handle_notification-none :
    (hash : List ℕ → ℕ) (now : ℕ) (r : PoolMessage) (os : Observations)
    → load (hash r.token) os ≡ none
    → handle_notification hash now r os ≡ none
unfolding handle_notification
handle_notification-none hash now r os h = rw (h, handle_notification) refl

load-deleted : (key : ℕ) (os : Observations) → load key (delete key os) ≡ none
load-deleted key os = rw (load-delete key key os, same_key key) refl

-- NewObservation with a token under whose hash there is an observation already: it is refused, and that
-- observation is taken away, so that its notifications are not handled any more.
pub new_observation-in_use :
    (hash : List ℕ → ℕ) (written : Option Fault) (req : PoolMessage) (os : Observations)
    (old : Observation) (now : ℕ) (r : PoolMessage)
    → get_option_uint32 observe_id req ≡ ok 0
    → is_empty_token req.token ≡ false
    → load (hash req.token) os ≡ some old
    → hash r.token ≡ hash req.token
    → ((new_observation hash written req os).1 ≡ some already_exists)
      × (handle_notification hash now r (new_observation hash written req os).0 ≡ none)
unfolding new_observation
new_observation-in_use hash written req os old now r ho ht hl hr =
    let gone : load (hash r.token) (clean_up (hash req.token) os).0 ≡ none =
      rw (hr, clean_up-delete (hash req.token) os) (load-deleted (hash req.token) os) in
    rw (ho, ht, load_or_store-found (hash req.token) (new_one req) old os hl)
      (refl, handle_notification-none hash now r (clean_up (hash req.token) os).0 gone)
