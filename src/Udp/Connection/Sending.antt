-- ===== src/Udp/Connection/Sending.antt =====
-- udp/client/conn.go: a message is written without waiting for its acknowledgement. The bookkeeping of
-- Q-Block notifications is left out, and so is a body that cannot be read.
use mathlib.Core.Path.{subst}
use go_coap.Message.Fault.{Result, ok, err, stuck, already_exists, write_failed, not_granted}
use go_coap.Message.Defs.{q_block1, q_block2}
use go_coap.Message.Record.{Message, validate_mid, validate_type}
use go_coap.Pkg.SyncMap.{SyncMap, load, store, delete, load_or_store, load_and_delete}
use go_coap.Pkg.SyncMap.Laws.{load-store, load-delete}
use go_coap.Udp.Connection.{confirmable, Conn, key_of, has, get_message_id}
use go_coap.Udp.Retransmission.{MidElement}
use go_coap.Prelude.{ltb, leb, ◌==◌, if◌then◌else◌, ==→eq, Bool-cases, Option-cases}
use go_coap.Prelude.{ℤ, eq_ℤ}
use go_coap.Prelude.{ℕ, ◌+◌, ◌-◌}
use go_coap.Prelude.{◌≡◌, refl, sym, inl, inr, Bool, true, false, not, ◌&&◌, ◌||◌}
use go_coap.Prelude.{Option, none, arith}

-- UpsertType and UpsertMessageID
unfoldable pub upsert_type : ℤ → Message → Message
upsert_type typ m = if validate_type m.kind then m else record m { kind = typ }

unfoldable pub upsert_message_id : ℤ → Message → Message
upsert_message_id mid m = if validate_mid m.message_id then m else record m { message_id = mid }

-- What the world decides on: the time, the deadline of the message's context, the timeout that
-- nextAcknowledgeTimeout draws, whether the semaphore of outstanding interactions grants one before
-- the context ends, and whether the message can be written.
pub record Attempt : Type 0 where
  pub now : ℕ
  pub deadline : Option ℕ
  pub timeout : ℕ
  pub is_granted : Bool
  pub is_written : Bool

abbrev new_element : Attempt → MidElement
new_element a = record {
  start = a.now;
  deadline = a.deadline;
  acknowledge_timeout = a.timeout;
  retransmit = 0;
  retransmitting = false;
  retransmit_failures = 0;
}

-- Whether a confirmable message counts as an outstanding interaction.
unfoldable pub is_interaction : Message → Bool
is_interaction m =
    (leb 1 m.code && ltb m.code 32) || (has q_block1 m.options || has q_block2 m.options)

store-delete :
    (k j : ℕ) (x : MidElement) (m : SyncMap MidElement)
    → load k m ≡ none
    → load j (delete k (store k x m)) ≡ load j m
store-delete k j x m gone = elim (Bool-cases (k == j)) [
  | inl e ↦
      rw (load-delete k j (store k x m), e) (sym (subst (λ i. load i m ≡ none) (==→eq k j e) gone))
  | inr e ↦ rw (load-delete k j (store k x m), e, load-store k j x m, e) refl
]

module _ {ℓ} {S : Type ℓ} (capacity room : ℕ) where
  abbrev acquired_slot : Bool → Conn S → Conn S
  acquired_slot true c = record c { outstanding = c.outstanding + 1 }
  acquired_slot false c = c

  -- releaseOutstandingInteraction
  abbrev released_slot : Bool → Conn S → Conn S
  released_slot true c = record c { outstanding = c.outstanding - 1 }
  released_slot false c = c

  -- LoadOrStore of the element, and what is undone if the id is taken.
  abbrev inserted : Bool → Conn S → SyncMap MidElement × MidElement × Bool → Conn S × Result Bool
  inserted slot c (m, element, true) = (released_slot slot c, err already_exists)
  inserted slot c (m, element, false) = (record c { waiting = m }, ok slot)

  abbrev insert : Attempt → Message → Bool → Conn S → Conn S × Result Bool
  insert a req slot c =
      inserted slot c (load_or_store (key_of req.message_id) (new_element a) c.waiting)

  -- prepareWriteMessage: the answer is whether the function that closes it releases an interaction; it
  -- removes the element too if the message is confirmable.
  unfoldable pub prepare_write_message : Attempt → Message → Conn S → Conn S × Result Bool
  prepare_write_message a req c =
      if eq_ℤ req.kind confirmable
      then if is_interaction req && not a.is_granted
        then (c, err not_granted)
        else insert a req (is_interaction req) (acquired_slot (is_interaction req) c)
      else (c, ok false)

  -- closeFn: the last registered function runs first
  unfoldable pub close : Message → Bool → Conn S → Conn S
  close req slot c =
      if eq_ℤ req.kind confirmable
      then released_slot slot
          (record c { waiting = (load_and_delete (key_of req.message_id) c.waiting).0 })
      else c

  abbrev written : Attempt → Message → Conn S × Result Bool → Conn S × Result (Unit {0})
  written a req (c, ok slot) =
      (close req slot c, (if a.is_written then ok tt else err write_failed))
  written a req (c, err e) = (c, err e)
  written a req (c, stuck) = (c, stuck)

  abbrev upserted : Message → Conn S × ℤ → Conn S × Message
  upserted req (c, mid) = (c, upsert_message_id mid (upsert_type confirmable req))

  abbrev prepared : Attempt → Conn S × Message → Conn S × Result (Unit {0})
  prepared a (c, req) = written a req (prepare_write_message a req c)

  -- writeMessageAsync: the id is drawn from the counter even if the message has one.
  unfoldable pub write_message_async : Attempt → Message → Conn S → Conn S × Result (Unit {0})
  write_message_async a req c = prepared a (upserted req (get_message_id capacity room c))

  -- What a write leaves of the connection: all elements that wait, and the count of interactions.
  pub record Restored (c d : Conn S) : Type ℓ where
    pub same_waiting : (mid : ℕ) → load mid d.waiting ≡ load mid c.waiting
    pub same_count : d.outstanding ≡ c.outstanding

  insert-Restored :
      (a : Attempt) (req : Message) (slot : Bool) (c : Conn S)
      → eq_ℤ req.kind confirmable ≡ true
      → Restored c (written a req (insert a req slot (acquired_slot slot c))).0
  unfolding close load_or_store load_and_delete
  insert-Restored a req true c con = elim (Option-cases (load (key_of req.message_id) c.waiting)) [
    | inr (x, e) ↦
        rw (e, load_or_store) (record { same_waiting = λ mid. refl; same_count = omega arith })
    | inl e ↦
        rw (e, load_or_store, con)
          (record {
            same_waiting =
                λ mid. store-delete (key_of req.message_id) mid (new_element a) c.waiting e;
            same_count = omega arith;
          })
  ]
  insert-Restored a req false c con = elim (Option-cases (load (key_of req.message_id) c.waiting)) [
    | inr (x, e) ↦ rw (e, load_or_store) (record { same_waiting = λ mid. refl; same_count = refl })
    | inl e ↦
        rw (e, load_or_store, con)
          (record {
            same_waiting =
                λ mid. store-delete (key_of req.message_id) mid (new_element a) c.waiting e;
            same_count = refl;
          })
  ]

  prepare-Restored :
      (a : Attempt) (req : Message) (c : Conn S)
      → Restored c (written a req (prepare_write_message a req c)).0
  unfolding prepare_write_message close
  prepare-Restored a req c = elim (Bool-cases (eq_ℤ req.kind confirmable)) [
    | inr e ↦ rw (e, e) (record { same_waiting = λ mid. refl; same_count = refl })
    | inl e ↦ elim (Bool-cases (is_interaction req && not a.is_granted)) [
      | inl e2 ↦ rw (e, e2) (record { same_waiting = λ mid. refl; same_count = refl })
      | inr e2 ↦ rw (e, e2) (insert-Restored a req (is_interaction req) c e)
    ]
  ]

  -- Whether it succeeds or fails, and on any message, writeMessageAsync leaves no element behind that
  -- waits for an acknowledgement, removes none of another message, and gives back the interaction that
  -- it took.
  pub write_message_async-Restored :
      (a : Attempt) (req : Message) (c : Conn S) → Restored c (write_message_async a req c).0
  unfolding write_message_async get_message_id
  write_message_async-Restored a req c =
      let r =
        prepare-Restored a
          (upsert_message_id (get_message_id capacity room c).1 (upsert_type confirmable req))
          (get_message_id capacity room c).0 in
      record { same_waiting = r.same_waiting; same_count = r.same_count }
