-- ===== src/Net/Observation.antt =====
-- net/observation/handler.go: the observations of a connection, by the hash of their token. A call ends
-- before the next begins; what a caller waits for is an event of its own (finish_observation).
pub mod Order
use go_coap.Message.Fault.{
  Fault, Result, ok, err, stuck, already_exists, invalid_observe, empty_token, unexpected_code,
}
use go_coap.Message.Defs.{observe_id}
use go_coap.Net.Sequence.{valid_sequence_number}
use go_coap.Pkg.SyncMap.{SyncMap, load, store, delete, load_or_store, load_and_delete}
use go_coap.Pool.{PoolMessage, acquire, get_option_uint32, get_option_bytes, has_option}
use go_coap.Prelude.{◌==◌, if◌then◌else◌}
use go_coap.Prelude.{ℕ}
use go_coap.Prelude.{Bool, true, false, not, ◌&&◌}
use go_coap.Prelude.{Option, none, some, List, [], ◌∷◌}

-- Observation, with its private members; the time 0 stands for the zero time.
pub record Observation : Type 0 where
  pub request : PoolMessage
  pub wait_for_response : Bool
  pub obs_sequence : ℕ
  pub last_event : ℕ
  pub etag : List ℕ

abbrev pub Observations : Type 0
Observations = SyncMap Observation

abbrev etag_id : ℕ
etag_id = 4

abbrev new_etag : Result (List ℕ) → List ℕ → List ℕ
new_etag (ok etag) old = etag
new_etag (err e) old = old
new_etag stuck old = old

abbrev pub accept_number : ℕ → Observation → PoolMessage → Result ℕ → Observation × Bool
accept_number now o r (ok sequence) =
    if valid_sequence_number o.obs_sequence sequence o.last_event now
    then (
      record o {
        obs_sequence = sequence;
        last_event = now;
        etag = new_etag (get_option_bytes etag_id r) o.etag;
      },
      true,
    )
    else (o, false)
accept_number now o r (err e) = (o, true)
accept_number now o r stuck = (o, true)

-- wantBeNotified
unfoldable pub want_be_notified : ℕ → Observation → PoolMessage → Observation × Bool
want_be_notified now o r = accept_number now o r (get_option_uint32 observe_id r)

-- What a notification does: the observations, the messages that the callback gets, and the code with
-- whether there was no Observe option, which is sent to the call that waits.
pub record Notified : Type 0 where
  pub observations : Observations
  pub delivered : List PoolMessage
  pub response : Option (ℕ × Bool)

-- Observation.handle, for the observation `o` under `key`
unfoldable pub handle_one : ℕ → ℕ → Observation → PoolMessage → Observations → Notified
handle_one now key o r os =
    let wanted = want_be_notified now (record o { wait_for_response = false }) r in
    record {
      observations = if has_option observe_id r then store key wanted.0 os else delete key os;
      delivered = if wanted.1 then r ∷ [] else [];
      response = if o.wait_for_response then some (r.code, not (has_option observe_id r)) else none;
    }

-- HandleNotification: none if nobody observes with this token
unfoldable pub handle_notification : (List ℕ → ℕ) → ℕ → PoolMessage → Observations → Option Notified
handle_notification hash now r os = elim (load (hash r.token) os) [
  | none ↦ none
  | some o ↦ some (handle_one now (hash r.token) o r os)
]

abbrev pub new_one : PoolMessage → Observation
new_one req = record {
  request = req;
  wait_for_response = true;
  obs_sequence = 0;
  last_event = 0;
  etag = [];
}

-- cleanUp: the observations, and whether there was one under the key
unfoldable pub clean_up : ℕ → Observations → Observations × Bool
clean_up key os =
    let r = load_and_delete key os in elim r.1 [ none ↦ (r.0, false) | some o ↦ (r.0, true) ]

abbrev pub is_empty_token : List ℕ → Bool
is_empty_token [] = true
is_empty_token (t ∷ ts) = false

-- NewObservation once the observation is made; its deferred function cleans up after every error.
-- `written` is what WriteMessage returns.
abbrev pub registered :
    ℕ → Option Fault → Observations × Observation × Bool → Observations × Option Fault
registered key written (os, o, true) = ((clean_up key os).0, some already_exists)
registered key (some e) (os, o, false) = ((clean_up key os).0, some e)
registered key none (os, o, false) = (os, none)

abbrev pub register :
    (List ℕ → ℕ)
    → Option Fault
    → PoolMessage
    → Observations
    → Result ℕ
    → Observations × Option Fault
register hash written req os (err e) = (os, some e)
register hash written req os stuck = (os, some invalid_observe)
register hash written req os (ok observe) =
    if not (observe == 0)
    then (os, some invalid_observe)
    else if is_empty_token req.token
    then (os, some empty_token)
    else registered (hash req.token) written (load_or_store (hash req.token) (new_one req) os)

-- NewObservation up to the wait for the response
unfoldable pub new_observation :
    (List ℕ → ℕ) → Option Fault → PoolMessage → Observations → Observations × Option Fault
new_observation hash written req os =
    register hash written req os (get_option_uint32 observe_id req)

-- The rest of NewObservation: what was sent by handle, or the end of one of the contexts.
unfoldable pub finish_observation :
    ℕ → Result (ℕ × Bool) → Observations → Observations × Option Fault
finish_observation key (err e) os = ((clean_up key os).0, some e)
finish_observation key stuck os = ((clean_up key os).0, some unexpected_code)
finish_observation key (ok (code, not_supported)) os =
    if not (code == 69) && not (code == 67)
    then ((clean_up key os).0, some unexpected_code)
    else if not_supported
    then ((clean_up key os).0, none)
    else (os, none)

-- GetObservationRequest
unfoldable pub get_observation_request : (List ℕ → ℕ) → List ℕ → Observations → Option PoolMessage
get_observation_request hash token os = elim (load (hash token) os) [
  | none ↦ none
  | some o ↦ some (record (acquire none) {
    options = o.request.options;
    code = o.request.code;
    token = o.request.token;
  })
]
