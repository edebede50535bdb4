-- ===== src/Udp/Retransmission/Checks.antt =====
-- udp/client/conn.go: the check of a confirmable message that waits for its acknowledgement.
use go_coap.Message.Record.{Message}
use go_coap.Udp.Retransmission.{
  MidElement, is_expired, try_retransmit, mark_retransmitted, mark_retransmission_failed,
}
use go_coap.Prelude.{leb, if◌then◌else◌, Bool-cases}
use go_coap.Prelude.{length, length-append}
use go_coap.Prelude.{ℕ, ◌+◌, ◌-◌, ◌%◌, ◌^◌, ◌≤◌, ◌<◌}
use go_coap.Prelude.{◌≡◌, inl, inr, Bool, true, false}
use go_coap.Prelude.{Option, none, some, List, [], ◌∷◌, ◌++◌, arith}

-- An entry of midHandlerContainer: the element with its message, which an acknowledgement releases.
pub record Waiting : Type 0 where
  pub element : MidElement
  pub message : Option Message

-- One check: when it is made, when the message is marked as sent, and whether it can be written.
pub record Check : Type 0 where
  pub now : ℕ
  pub marked_at : ℕ
  pub is_written : Bool

-- What a check leaves, none if it removes the entry, and the messages that it tries to write.
abbrev pub Checked : Type 0
Checked = Option Waiting × List Message

abbrev unless_exhausted : Waiting → Message → MidElement × Bool → Checked
unless_exhausted w m (element, true) = (none, m ∷ [])
unless_exhausted w m (element, false) = (some (record w { element = element }), m ∷ [])

-- The part of checkMidHandlerContainer behind Retransmit: GetMessage, which clones the message, and the
-- call of WriteMessage. A body that cannot be read is left out.
abbrev resend : Check → ℕ → Waiting → Option Message → Checked
resend c max_retransmit w none =
    (some (record w { element = mark_retransmitted w.element c.marked_at }), [])
resend c max_retransmit w (some m) =
    if c.is_written
    then (some (record w { element = mark_retransmitted w.element c.marked_at }), m ∷ [])
    else unless_exhausted w m (mark_retransmission_failed w.element max_retransmit)

abbrev if_granted : Check → ℕ → Waiting → MidElement × Bool → Checked
if_granted c max_retransmit w (element, false) = (some w, [])
if_granted c max_retransmit w (element, true) =
    resend c max_retransmit (record w { element = element }) w.message

-- checkMidHandlerContainer
unfoldable pub check_mid_handler_container : Check → ℕ → Waiting → Checked
check_mid_handler_container c max_retransmit w =
    if is_expired w.element c.now max_retransmit
    then (none, [])
    else if_granted c max_retransmit w (try_retransmit w.element c.now)

abbrev check_again : Check → ℕ → Option Waiting → Checked
check_again c max_retransmit none = (none, [])
check_again c max_retransmit (some w) = check_mid_handler_container c max_retransmit w

-- The checks of CheckExpirations, one after the other.
unfoldable pub check_all : ℕ → List Check → Option Waiting → Checked
check_all max_retransmit [] w = (w, [])
check_all max_retransmit (c ∷ checks) w =
    let (w', tried) = check_again c max_retransmit w in
    let (last, later) = check_all max_retransmit checks w' in (last, tried ++ later)

-- How often the message of an entry may still be written.
abbrev Budget : ℕ → Option Waiting → ℕ → Type 0
Budget max_retransmit none n = Unit {0}
Budget max_retransmit (some w) n =
    (w.element.retransmit_failures ≤ max_retransmit - 1)
    × ((max_retransmit - w.element.retransmit) + (max_retransmit - w.element.retransmit_failures)
        ≤ n)

below_limit :
    (m : MidElement) (now max_retransmit : ℕ)
    → is_expired m now max_retransmit ≡ false
    → (try_retransmit m now).1 ≡ true
    → m.retransmit < max_retransmit
unfolding is_expired try_retransmit
below_limit m now max_retransmit e e2 = ground arith

granted :
    (m : MidElement) (now : ℕ)
    → (try_retransmit m now).1 ≡ true
    → try_retransmit m now ≡ (record m { retransmitting = true }, true)
unfolding try_retransmit
granted m now e = ground arith

refused :
    (m : MidElement) (now : ℕ)
    → (try_retransmit m now).1 ≡ false
    → try_retransmit m now ≡ (m, false)
unfolding try_retransmit
refused m now e = ground arith

-- Within a budget of `n`: what is tried is paid for, and the rest is left.
abbrev Paid : ℕ → ℕ → Checked → Type 0
Paid max_retransmit n (w, tried) = (k : ℕ) × Budget max_retransmit w k × (length tried + k ≤ n)

resend-Paid :
    (max_retransmit n : ℕ) (c : Check) (w : Waiting) (m : Option Message)
    → max_retransmit < 2 ^ 32
    → w.element.retransmit < max_retransmit
    → Budget max_retransmit (some w) n
    → Paid max_retransmit n (resend c max_retransmit w m)
unfolding mark_retransmitted mark_retransmission_failed
resend-Paid max_retransmit n c w none small below (h, h2) =
    let count : (w.element.retransmit + 1) % 2 ^ 32 ≡ w.element.retransmit + 1 = omega arith in
    (n, (h, rw count (omega arith)), omega arith)
resend-Paid max_retransmit n c w (some m) small below (h, h2) = elim (Bool-cases c.is_written) [
  | inl e ↦
      let count : (w.element.retransmit + 1) % 2 ^ 32 ≡ w.element.retransmit + 1 = omega arith in
      rw e (n - 1, (h, rw count (omega arith)), omega arith)
  | inr e ↦
      let count : (w.element.retransmit_failures + 1) % 2 ^ 32 ≡ w.element.retransmit_failures + 1 =
        omega arith in
      rw (e, count)
        (elim (Bool-cases (leb max_retransmit (w.element.retransmit_failures + 1))) [
          | inl e2 ↦ rw e2 (0, tt, omega arith)
          | inr e2 ↦ rw e2 (n - 1, (ground arith, omega arith), omega arith)
        ])
]

check-Paid :
    (max_retransmit n : ℕ) (c : Check) (w : Waiting)
    → max_retransmit < 2 ^ 32
    → Budget max_retransmit (some w) n
    → Paid max_retransmit n (check_mid_handler_container c max_retransmit w)
unfolding check_mid_handler_container
check-Paid max_retransmit n c w small b =
    elim (Bool-cases (is_expired w.element c.now max_retransmit)) [
      | inl e ↦ rw e (0, tt, omega arith)
      | inr e ↦ elim (Bool-cases (try_retransmit w.element c.now).1) [
        | inr e2 ↦ rw (e, refused w.element c.now e2) (n, b, omega arith)
        | inl e2 ↦
            rw (e, granted w.element c.now e2)
              (resend-Paid max_retransmit n c
                (record w { element = record w.element { retransmitting = true } }) w.message small
                (below_limit w.element c.now max_retransmit e e2) b)
      ]
    ]

check_all-Paid :
    (max_retransmit n : ℕ) (checks : List Check) (w : Option Waiting)
    → max_retransmit < 2 ^ 32
    → Budget max_retransmit w n
    → Paid max_retransmit n (check_all max_retransmit checks w)
unfolding check_all
check_all-Paid max_retransmit n [] w small b = (n, b, omega arith)
check_all-Paid max_retransmit n (c ∷ checks) none small b =
    let (k, b', h) = check_all-Paid max_retransmit n checks none small b in (k, b', h)
check_all-Paid max_retransmit n (c ∷ checks) (some w) small b =
    let r = check_mid_handler_container c max_retransmit w in
    let (k, b', h) = check-Paid max_retransmit n c w small b in
    let (j, b'', h2) = check_all-Paid max_retransmit k checks r.0 small b' in
    (j, b'', omega (arith, h, h2, length-append r.1 (check_all max_retransmit checks r.0).1))

-- However often and whenever a new entry is checked, and whichever writes fail, its message is tried
-- at most twice the limit of retransmissions: once for each that succeeds and each that fails.
pub check_all-bound :
    (max_retransmit : ℕ) (checks : List Check) (w : Waiting)
    → max_retransmit < 2 ^ 32
    → w.element.retransmit ≡ 0
    → w.element.retransmit_failures ≡ 0
    → length (check_all max_retransmit checks (some w)).1 ≤ max_retransmit + max_retransmit
check_all-bound max_retransmit checks w small h h2 =
    let (k, b, paid) =
      check_all-Paid max_retransmit (max_retransmit + max_retransmit) checks (some w) small
        (omega (arith, h2), omega (arith, h, h2)) in
    omega (arith, paid)
