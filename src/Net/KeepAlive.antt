-- ===== src/Net/KeepAlive.antt =====
-- net/monitor/inactivity/keepalive.go: pings to an inactive peer, and when it is given up.
use go_coap.Prelude.{ltb, ◌==◌, if◌then◌else◌, ==→eq, Bool-cases}
use go_coap.Prelude.{length}
use go_coap.Prelude.{ℕ, suc, ◌+◌, ◌-◌, ◌%◌, ◌^◌, ◌≤◌, ◌<◌, min}
use go_coap.Prelude.{◌≡◌, inl, inr, Bool, true, false}
use go_coap.Prelude.{Option, none, some, List, [], ◌∷◌, arith}

-- `cancel_ping` is the number of the ping that can still be cancelled.
pub record KeepAlive : Type 0 where
  pub pong_token : ℕ
  pub cancel_ping : Option ℕ
  pub num_fails : ℕ

-- OnInactive: `sent` is whether sendPing succeeds; the answer is whether onInactive is called.
-- checkCancelPing swaps the pointer for nil and cancels the ping that stood there.
unfoldable pub on_inactive : ℕ → Bool → KeepAlive → KeepAlive × Bool
on_inactive max_retries sent k =
    let v = (k.num_fails + 1) % 2 ^ 32 in
    let token = (k.pong_token + 1) % 2 ^ 64 in
    if ltb max_retries v
    then (record k { num_fails = v; cancel_ping = none }, true)
    else if sent
    then (record { pong_token = token; cancel_ping = some token; num_fails = v }, false)
    else (record { pong_token = token; cancel_ping = none; num_fails = v }, false)

-- The callback that receives the pong for the ping with this token.
unfoldable pub receive_pong : ℕ → KeepAlive → KeepAlive
receive_pong token k = if k.pong_token == token then record k { num_fails = 0 } else k

-- OnInactive again and again, with no pong in between; `sent` gives each sendPing's success. The
-- answer is how many calls do not give the peer up before the first that does.
unfoldable pub survives : ℕ → List Bool → KeepAlive → ℕ
unfolding on_inactive
survives max_retries [] k = 0
survives max_retries (sent ∷ rest) k =
    let more = survives max_retries rest (on_inactive max_retries sent k).0 in
    if (on_inactive max_retries sent k).1 then 0 else suc more

on_inactive-count :
    (max_retries : ℕ) (sent : Bool) (k : KeepAlive)
    → max_retries < 2 ^ 32 - 1
    → k.num_fails ≤ max_retries
    → ((on_inactive max_retries sent k).1 ≡ (k.num_fails == max_retries))
      × ((on_inactive max_retries sent k).0.num_fails ≡ k.num_fails + 1)
unfolding on_inactive
on_inactive-count max_retries true k h1 h2 = ground arith
on_inactive-count max_retries false k h1 h2 = ground arith

-- With no pong the peer survives the inactive periods that are left until `max_retries` have failed,
-- and is given up at the next one, whether or not the pings can be sent.
pub survives-retries :
    (max_retries : ℕ) (sent : List Bool) (k : KeepAlive)
    → max_retries < 2 ^ 32 - 1
    → k.num_fails ≤ max_retries
    → survives max_retries sent k ≡ min (length sent) (max_retries - k.num_fails)
unfolding survives
survives-retries max_retries [] k h1 h2 = omega arith
survives-retries max_retries (s ∷ sent) k h1 h2 =
    let (given_up, failed) = on_inactive-count max_retries s k h1 h2 in
    elim (Bool-cases (k.num_fails == max_retries)) [
      | inl last ↦ rw (given_up, last) (omega (arith, ==→eq k.num_fails max_retries last))
      | inr more ↦
          let left : k.num_fails < max_retries = ground arith in
          rw (given_up, more)
            (omega (
              arith,
              failed,
              survives-retries max_retries sent (on_inactive max_retries s k).0 h1
                  (omega (arith, failed)),
            ))
    ]

-- The pong for the last ping clears the failures; one for an earlier ping changes nothing.
pub receive_pong-last :
    (max_retries : ℕ) (k : KeepAlive) (token : ℕ)
    → k.num_fails < max_retries
    → max_retries < 2 ^ 32 - 1
    → (receive_pong token (on_inactive max_retries true k).0).num_fails
      ≡ (if token == (k.pong_token + 1) % 2 ^ 64 then 0 else k.num_fails + 1)
unfolding on_inactive receive_pong
receive_pong-last max_retries k token h1 h2 = ground arith
