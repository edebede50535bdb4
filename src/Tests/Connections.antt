-- ===== src/Tests/Connections.antt =====
-- Runs of the connections' parts on concrete values.
use go_coap.Message.Defs.{CoapOption}
use go_coap.Net.Sequence.{valid_sequence_number, valid_sequence-circle}
use go_coap.Net.CriticalOptions.{
  get_unknown_critical_options, Contains, Reported, unknown_critical-exact,
}
use go_coap.Net.KeepAlive.{KeepAlive, survives, survives-retries}
use go_coap.Net.Limit.{
  Event, arrive, finish, cancel, init, run, step, has_gone, acquire_queue, release_endpoint,
}
use go_coap.Net.Limit.Bounds.{OrderlyRun, processed_of, waiting_of, run-le-limit}
use go_coap.Net.Limit.Leaving.{PossibleRun, count_gone, run-counted}
use go_coap.Udp.Retransmission.{MidElement, retransmission_delay, is_due, try_retransmit}
use go_coap.Prelude.{ltb}
use go_coap.Prelude.{length}
use go_coap.Prelude.{◌+◌, ◌-◌, ◌%◌, ◌^◌, ◌≤◌, min}
use go_coap.Prelude.{◌≡◌, refl, ◌≢◌, ◌↔◌, true, false, ◌&&◌}
use go_coap.Prelude.{none, List, [], ◌∷◌, arith}

valid_sequence-circle_example :
    valid_sequence_number 16777215 ((16777215 + 2) % 2 ^ 24) 5 6 ≡ (ltb 0 2 && ltb 2 (2 ^ 23))
valid_sequence-circle_example =
    valid_sequence-circle 16777215 2 5 6 (omega arith) (omega arith) (omega arith)

newer_test : valid_sequence_number 16777215 1 5 6 ≡ true
unfolding valid_sequence_number
newer_test = refl

-- a known option, an unknown elective one, and an unknown critical one twice
abbrev options : List CoapOption
options =
    record { id = 11; value = 97 ∷ [] }
    ∷ record { id = 2000; value = [] }
    ∷ record { id = 2001; value = [] }
    ∷ record { id = 2001; value = [] }
    ∷ []

unknown_critical-exact_example :
    Contains 2001 (get_unknown_critical_options options false) ↔ Reported false 2001 options
unknown_critical-exact_example = unknown_critical-exact options false 2001

abbrev alive : KeepAlive
alive = record { pong_token = 4; cancel_ping = none; num_fails = 1 }

survives-retries_example :
    survives 3 (true ∷ false ∷ true ∷ []) alive
    ≡ min (length (true ∷ false ∷ true ∷ [])) (3 - alive.num_fails)
survives-retries_example =
    survives-retries 3 (true ∷ false ∷ true ∷ []) alive (omega arith) (omega arith)

abbrev traffic : List Event
traffic = arrive 1 ∷ arrive 2 ∷ finish ∷ []

traffic_orderly : OrderlyRun 1 traffic init
unfolding step acquire_queue release_endpoint
traffic_orderly = (tt, (tt, (omega arith, tt)))

run-le-limit_example :
    ((run 1 traffic init).granted ≤ 1)
    × ((waiting_of (run 1 traffic init).queue ≢ []) → (run 1 traffic init).granted ≡ 1)
run-le-limit_example = run-le-limit 1 traffic (omega arith) traffic_orderly

-- the third request gives up behind the second
abbrev given_up : List Event
given_up = arrive 1 ∷ arrive 2 ∷ arrive 3 ∷ cancel 3 ∷ []

given_up-IsPossible : PossibleRun 1 given_up init
unfolding step acquire_queue release_endpoint has_gone
given_up-IsPossible = ((refl, refl), ((refl, refl), ((refl, refl), ((refl, refl), tt))))

-- The second is let through beside the first.
over_limit_test : (run 1 given_up init).granted ≡ 2
unfolding run step acquire_queue release_endpoint has_gone
over_limit_test = refl

run-counted_example :
    ((run 1 given_up init).granted
      ≡ processed_of (run 1 given_up init).queue
        + count_gone (run 1 given_up init).gone (waiting_of (run 1 given_up init).queue))
    × (processed_of (run 1 given_up init).queue ≤ 1)
    × ((waiting_of (run 1 given_up init).queue ≢ [])
        → (run 1 given_up init).granted
          ≡ 1 + count_gone (run 1 given_up init).gone (waiting_of (run 1 given_up init).queue))
run-counted_example = run-counted 1 (omega arith) given_up given_up-IsPossible

abbrev element : MidElement
element = record {
  start = 0;
  deadline = none;
  acknowledge_timeout = 2;
  retransmit = 0;
  retransmitting = false;
  retransmit_failures = 0;
}

granted_test : (try_retransmit element 3).1 ≡ true
unfolding try_retransmit is_due retransmission_delay
granted_test = refl
