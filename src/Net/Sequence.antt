-- ===== src/Net/Sequence.antt =====
-- net/observation/observation.go: the order of notifications (RFC 7641, section 3.4). Times are
-- nanoseconds.
use go_coap.Prelude.{ltb, if◌then◌else◌}
use go_coap.Prelude.{ℕ, ◌+◌, ◌-◌, ◌*◌, ◌%◌, ◌^◌, ◌≤◌, ◌<◌}
use go_coap.Prelude.{◌≡◌, Bool, true, false, ◌&&◌}
use go_coap.Prelude.{arith}

abbrev pub observation_sequence_timeout : ℕ
observation_sequence_timeout = 128 * 10 ^ 9

-- `now.Sub(last) > timeout`, where `now` may be the earlier one
unfoldable pub valid_sequence_number : ℕ → ℕ → ℕ → ℕ → Bool
valid_sequence_number old_value new_value last_event now =
    if ltb old_value new_value && ltb (new_value - old_value) (2 ^ 23)
    then true
    else if ltb new_value old_value && ltb (2 ^ 23) (old_value - new_value)
    then true
    else ltb observation_sequence_timeout (now - last_event)

-- Within the timeout the notification that comes `d` numbers later on the circle of 24-bit numbers
-- is newer exactly when `d` is at least 1 and below half of the circle.
pub valid_sequence-circle :
    (old_value d last_event now : ℕ)
    → old_value < 2 ^ 24
    → d < 2 ^ 24
    → now ≤ last_event + observation_sequence_timeout
    → valid_sequence_number old_value ((old_value + d) % 2 ^ 24) last_event now
      ≡ (ltb 0 d && ltb d (2 ^ 23))
unfolding valid_sequence_number
valid_sequence-circle old_value d last_event now h1 h2 h3 = ground arith

-- Within the timeout no two 24-bit numbers are each newer than the other.
pub valid_sequence-asymmetric :
    (a b last_event now : ℕ)
    → a < 2 ^ 24
    → b < 2 ^ 24
    → now ≤ last_event + observation_sequence_timeout
    → valid_sequence_number a b last_event now ≡ true
    → valid_sequence_number b a last_event now ≡ false
unfolding valid_sequence_number
valid_sequence-asymmetric a b last_event now h1 h2 h3 h4 = ground arith

-- Behind the timeout every notification is accepted.
pub valid_sequence-late :
    (a b last_event now : ℕ)
    → last_event + observation_sequence_timeout < now
    → valid_sequence_number a b last_event now ≡ true
unfolding valid_sequence_number
valid_sequence-late a b last_event now h = ground arith
