-- ===== src/Tests/Observations.antt =====
-- Runs of the observations on concrete notifications.
use go_coap.Message.Fault.{ok, already_exists}
use go_coap.Message.Defs.{observe_id}
use go_coap.Message.Edit.Split.{select}
use go_coap.Net.Sequence.{valid_sequence_number}
use go_coap.Net.Observation.{Observation, want_be_notified, handle_notification, new_observation}
use go_coap.Net.Observation.Order.{want_be_notified-next, new_observation-in_use}
use go_coap.Pkg.SyncMap.{load}
use go_coap.Message.Uint32.{decode_uint32}
use go_coap.Pool.{PoolMessage, acquire, get_option_uint32}
use go_coap.Prelude.{◌≡◌, refl, true}
use go_coap.Prelude.{none, some, [], ◌∷◌, arith}

abbrev get : PoolMessage
get = record (acquire none) {
  code = 1;
  token = 1 ∷ [];
  options = record { id = 6; value = [] } ∷ [];
}

abbrev notification : PoolMessage
notification = record (acquire none) {
  code = 69;
  token = 1 ∷ [];
  options = record { id = 6; value = 7 ∷ [] } ∷ [];
}

abbrev newer : PoolMessage
newer = record (acquire none) {
  code = 69;
  token = 1 ∷ [];
  options = record { id = 6; value = 9 ∷ [] } ∷ [];
}

abbrev observation : Observation
observation = record {
  request = get;
  wait_for_response = true;
  obs_sequence = 0;
  last_event = 0;
  etag = [];
}

observe_0 : get_option_uint32 observe_id get ≡ ok 0
unfolding get_option_uint32 select decode_uint32
observe_0 = refl

observe_7 : get_option_uint32 observe_id notification ≡ ok 7
unfolding get_option_uint32 select decode_uint32
observe_7 = refl

observe_9 : get_option_uint32 observe_id newer ≡ ok 9
unfolding get_option_uint32 select decode_uint32
observe_9 = refl

accepted_7 : (want_be_notified 200 observation notification).1 ≡ true
unfolding want_be_notified get_option_uint32 select decode_uint32 valid_sequence_number
accepted_7 = refl

want_be_notified-next_example :
    (want_be_notified 300 (want_be_notified 200 observation notification).0 newer).1 ≡ true
want_be_notified-next_example =
    want_be_notified-next 200 300 7 2 observation notification newer (omega arith) (omega arith)
      (omega arith) observe_7 observe_9 accepted_7

is_there : load 5 ((5, observation) ∷ []) ≡ some observation
unfolding load
is_there = refl

new_observation-in_use_example :
    ((new_observation (λ token. 5) none get ((5, observation) ∷ [])).1 ≡ some already_exists)
    × (handle_notification
          (λ token. 5)
          300
          newer
          (new_observation (λ token. 5) none get ((5, observation) ∷ [])).0
        ≡ none)
new_observation-in_use_example =
    new_observation-in_use (λ token. 5) none get ((5, observation) ∷ []) observation 300 newer
      observe_0 refl is_there refl
