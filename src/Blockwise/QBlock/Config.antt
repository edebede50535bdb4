-- ===== src/Blockwise/QBlock/Config.antt =====
-- net/blockwise/qblock/config.go: the parameters of congestion control and recovery. Durations are
-- nanoseconds.
use go_coap.Message.Fault.{Fault, Result, ok, err, invalid_config}
use native.Mathlib.Nat.{mul-le-mul}
use mathlib.Core.Path.{subst}
use go_coap.Prelude.{leb, if◌then◌else◌, leb→le, Bool-cases, all_below, all_below_sound}
use go_coap.Prelude.{ℤ, pos, negsuc, pos_part, ◌-ℤ◌, eq_ℤ, ltb_ℤ}
use go_coap.Prelude.{ℕ, ◌+◌, ◌-◌, ◌*◌, ◌/◌, ◌^◌, ◌≤◌, ◌<◌, min}
use go_coap.Prelude.{◌≡◌, refl, inl, inr, Bool, true, false, ◌&&◌, ◌||◌}
use go_coap.Prelude.{arith}

pub record Config : Type 0 where
  pub max_payloads : ℤ
  pub non_timeout : ℤ
  pub non_receive_timeout : ℤ
  pub non_max_retransmit : ℤ
  pub max_latency : ℤ

abbrev second : ℕ
second = 1000000000

abbrev hour : ℕ
hour = 3600 * second

abbrev pub max_duration : ℕ
max_duration = 2 ^ 63 - 1

unfoldable pub default_config : Config
default_config = record {
  max_payloads = pos 10;
  non_timeout = pos (2 * second);
  non_receive_timeout = pos (4 * second);
  non_max_retransmit = pos 4;
  max_latency = pos (100 * second);
}

-- `x < lo || x > hi`
abbrev is_outside : ℕ → ℕ → ℤ → Bool
is_outside lo hi x = ltb_ℤ x (pos lo) || ltb_ℤ (pos hi) x

unfoldable pub is_zero : Config → Bool
is_zero c =
    eq_ℤ c.max_payloads (pos 0)
    && eq_ℤ c.non_timeout (pos 0)
    && eq_ℤ c.non_receive_timeout (pos 0)
    && eq_ℤ c.non_max_retransmit (pos 0)
    && eq_ℤ c.max_latency (pos 0)

-- NonReceiveTimeout leaves no second beyond 1.5*NonTimeout, or overflows with the retries' backoff.
-- Behind the first tests NonTimeout and NonMaxRetransmit are not negative.
abbrev is_short : Config → Bool
is_short c =
    ltb_ℤ c.non_receive_timeout (pos (pos_part c.non_timeout + pos_part c.non_timeout / 2 + second))

abbrev is_long : Config → Bool
is_long c =
    ltb_ℤ (pos (max_duration / 2 ^ pos_part c.non_max_retransmit) -ℤ pos second)
      c.non_receive_timeout

unfoldable pub check_config : Config → Result Config
check_config c =
    if is_outside 1 256 c.max_payloads
    then err invalid_config
    else if is_outside 1 hour c.non_timeout
    then err invalid_config
    else if is_outside 0 20 c.non_max_retransmit
    then err invalid_config
    else if is_outside 1 (24 * hour) c.max_latency
    then err invalid_config
    else if is_short c
    then err invalid_config
    else if is_long c
    then err invalid_config
    else ok c

unfoldable pub resolve : Config → Result Config
resolve c = if is_zero c then check_config default_config else check_config c

-- The value without wrap-around, for a configuration whose fields are not negative.
unfoldable pub non_partial_timeout : Config → ℕ
non_partial_timeout c =
    let span = pos_part c.non_timeout * (2 ^ pos_part c.non_max_retransmit - 1) in
    span + span / 2 + 2 * pos_part c.max_latency + pos_part c.non_timeout

-- (num/MaxPayloads+1)*MaxPayloads, at most blockCount, less 1
unfoldable pub set_last : ℕ → ℕ → ℕ → ℤ
set_last max_payloads num block_count =
    pos (min ((num / max_payloads + 1) * max_payloads) block_count) -ℤ pos 1

-- What Resolve grants.
pub record IsResolved (c : Config) : Type 0 where
  pub payloads_ge : 1 ≤ pos_part c.max_payloads
  pub payloads_le : pos_part c.max_payloads ≤ 256
  pub timeout_ge : 1 ≤ pos_part c.non_timeout
  pub timeout_le : pos_part c.non_timeout ≤ 3600000000000
  pub retransmit_le : pos_part c.non_max_retransmit ≤ 20
  pub latency_le : pos_part c.max_latency ≤ 86400000000000

passes :
    (failed : Bool) (f : Fault) (k : Result Config) (r : Config)
    → (if failed then err f else k) ≡ ok r
    → (failed ≡ false) × (k ≡ ok r)
passes true f k r h = cc
passes false f k r h = (refl, h)

inside : (lo hi : ℕ) (x : ℤ) → is_outside lo hi x ≡ false → (lo ≤ pos_part x) × (pos_part x ≤ hi)
inside lo hi (pos n) h = (ground arith, ground arith)
inside lo hi (negsuc n) h = (ground arith, ground arith)

check-IsResolved : (c r : Config) → check_config c ≡ ok r → IsResolved r
unfolding check_config
check-IsResolved c r h =
    let (p, h1) = passes (is_outside 1 256 c.max_payloads) _ _ r h in
    let (t, h2) = passes (is_outside 1 hour c.non_timeout) _ _ r h1 in
    let (m, h3) = passes (is_outside 0 20 c.non_max_retransmit) _ _ r h2 in
    let (l, h4) = passes (is_outside 1 (24 * hour) c.max_latency) _ _ r h3 in
    let (w, h5) = passes (is_short c) invalid_config _ r h4 in
    let (o, h6) = passes (is_long c) invalid_config (ok c) r h5 in
    let same : c ≡ r = cc h6 in
    subst IsResolved same (record {
      payloads_ge = (inside 1 256 c.max_payloads p).0;
      payloads_le = (inside 1 256 c.max_payloads p).1;
      timeout_ge = (inside 1 hour c.non_timeout t).0;
      timeout_le = (inside 1 hour c.non_timeout t).1;
      retransmit_le = (inside 0 20 c.non_max_retransmit m).1;
      latency_le = (inside 1 (24 * hour) c.max_latency l).1;
    })

power_table : all_below 21 (λ n. leb (2 ^ n) 1048576) ≡ true
unfolding all_below
power_table = refl

power_le : (n : ℕ) → n ≤ 20 → 2 ^ n ≤ 1048576
power_le n h =
    leb→le _ _ (all_below_sound 21 (λ n. leb (2 ^ n) 1048576) n power_table (omega arith))

-- A resolved configuration is within the documented bounds, and NonPartialTimeout is computed from it
-- without overflow of a duration.
pub resolve-partial_timeout :
    (c r : Config) → resolve c ≡ ok r → IsResolved r × (non_partial_timeout r < 2 ^ 63)
unfolding resolve non_partial_timeout
resolve-partial_timeout c r h = (fine, room)
  where
    fine : IsResolved r
    fine = elim (Bool-cases (is_zero c)) [
      | inl e ↦ check-IsResolved default_config r (rw e at h)
      | inr e ↦ check-IsResolved c r (rw e at h)
    ]

    room : non_partial_timeout r < 2 ^ 63
    room =
        let power = power_le (pos_part r.non_max_retransmit) fine.retransmit_le in
        let span : pos_part r.non_timeout * (2 ^ pos_part r.non_max_retransmit - 1)
            ≤ 3600000000000 * 1048575 =
          mul-le-mul {m₂ = 1048575} fine.timeout_le (omega (arith, power)) in
        omega (arith, span, fine.latency_le, fine.timeout_le)
