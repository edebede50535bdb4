-- ===== src/Udp/Retransmission.antt =====
-- udp/client/conn.go: the element of a confirmable message that waits for its acknowledgement.
-- Times and durations are nanoseconds.
pub mod Checks
use go_coap.Prelude.{ltb, leb, ◌==◌, if◌then◌else◌, le→not_ltb}
use go_coap.Prelude.{ℤ, pos, negsuc, pos_part}
use go_coap.Prelude.{ℕ, ◌+◌, ◌-◌, ◌*◌, ◌/◌, ◌%◌, ◌^◌, ◌≤◌, ◌<◌}
use go_coap.Prelude.{◌≡◌, sym, Bool, true, false, not, ◌&&◌, ◌||◌}
use mathlib.Core.Path.{subst}
use go_coap.Prelude.{Option, none, some, arith}

abbrev pub max_int64 : ℕ
max_int64 = 2 ^ 63 - 1

unfoldable pub retransmission_delay : ℤ → ℕ → ℤ
retransmission_delay (negsuc n) retransmit = negsuc n
retransmission_delay (pos n) retransmit =
    if n == 0
    then pos 0
    else if leb 63 retransmit
    then pos max_int64
    else if ltb (max_int64 / 2 ^ retransmit) n
    then pos max_int64
    else pos (n * 2 ^ retransmit)

-- `deadline` is none for the zero time.
pub record MidElement : Type 0 where
  pub start : ℕ
  pub deadline : Option ℕ
  pub acknowledge_timeout : ℕ
  pub retransmit : ℕ
  pub retransmitting : Bool
  pub retransmit_failures : ℕ

-- `now.After(m.start.Add(retransmissionDelay(...)))`, for a timeout that is not negative
unfoldable pub is_due : MidElement → ℕ → Bool
unfolding retransmission_delay
is_due m now =
    ltb (m.start + pos_part (retransmission_delay (pos m.acknowledge_timeout) m.retransmit)) now

abbrev deadline_passed : Option ℕ → ℕ → Bool
deadline_passed none now = false
deadline_passed (some d) now = ltb d now

unfoldable pub is_expired : MidElement → ℕ → ℕ → Bool
is_expired m now max_retransmit =
    if deadline_passed m.deadline now
    then true
    else if ltb max_retransmit m.retransmit
    then true
    else (m.retransmit == max_retransmit) && is_due m now

unfoldable pub try_retransmit : MidElement → ℕ → MidElement × Bool
try_retransmit m now =
    if m.retransmitting || not (is_due m now)
    then (m, false)
    else (record m { retransmitting = true }, true)

unfoldable pub mark_retransmitted : MidElement → ℕ → MidElement
mark_retransmitted m now = record m {
  start = now;
  retransmit = (m.retransmit + 1) % 2 ^ 32;
  retransmitting = false;
}

unfoldable pub mark_retransmission_failed : MidElement → ℕ → MidElement × Bool
mark_retransmission_failed m max_retransmit =
    let failures = (m.retransmit_failures + 1) % 2 ^ 32 in
    (
      record m { retransmit_failures = failures; retransmitting = false },
      leb max_retransmit failures,
    )

-- Once Retransmit has granted a retransmission it grants no other until the first is marked as sent
-- or failed.
pub try_retransmit-exclusive :
    (m : MidElement) (now later : ℕ)
    → (try_retransmit m now).1 ≡ true
    → (try_retransmit (try_retransmit m now).0 later).1 ≡ false
unfolding try_retransmit
try_retransmit-exclusive m now later h = ground arith

-- no overflow before the count has reached the limit
retransmit-mod : (r limit : ℕ) → r < limit → limit < 2 ^ 32 → (r + 1) % 2 ^ 32 ≡ r + 1
retransmit-mod r limit h1 h2 = omega arith

not_due :
    (m : MidElement) (sent now max_retransmit : ℕ)
    → m.retransmit < max_retransmit
    → max_retransmit < 2 ^ 32
    → now ≤ sent + pos_part (retransmission_delay (pos m.acknowledge_timeout) (m.retransmit + 1))
    → is_due (mark_retransmitted m sent) now ≡ false
unfolding is_due mark_retransmitted
not_due m sent now max_retransmit h1 h2 h = le→not_ltb _ now (
    subst (λ r. now ≤ sent + pos_part (retransmission_delay (pos m.acknowledge_timeout) r))
      (sym (retransmit-mod m.retransmit max_retransmit h1 h2)) h)

-- After a retransmission at `sent` neither the next one nor the end for want of an acknowledgement
-- comes before the next delay has passed, when the message has no deadline.
pub mark_retransmitted-waits :
    (m : MidElement) (sent now max_retransmit : ℕ)
    → m.retransmit < max_retransmit
    → max_retransmit < 2 ^ 32
    → m.deadline ≡ none
    → now ≤ sent + pos_part (retransmission_delay (pos m.acknowledge_timeout) (m.retransmit + 1))
    → ((try_retransmit (mark_retransmitted m sent) now).1 ≡ false)
      × (is_expired (mark_retransmitted m sent) now max_retransmit ≡ false)
unfolding try_retransmit mark_retransmitted is_expired
mark_retransmitted-waits m sent now max_retransmit h1 h2 h3 h4 =
    let quiet : is_due (mark_retransmitted m sent) now ≡ false =
      not_due m sent now max_retransmit h1 h2 h4 in
    let count : (m.retransmit + 1) % 2 ^ 32 ≡ m.retransmit + 1 =
      retransmit-mod m.retransmit max_retransmit h1 h2 in
    (ground arith, ground arith)
