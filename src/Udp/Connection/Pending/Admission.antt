-- ===== src/Udp/Connection/Pending/Admission.antt =====
-- udp/client/conn.go: what addPendingMessage and deletePendingMessage keep of the messages in flight.
use mathlib.Core.Path.{subst}
use go_coap.Message.Fault.{Result, ok, err, pending_limit_exceeded}
use go_coap.Pkg.SyncMap.{SyncMap, load, store, delete}
use go_coap.Pkg.SyncMap.Laws.{
  IsMap, store-IsMap, load-store, load-delete, length-store, length-delete,
}
use go_coap.Udp.Connection.{PendingMessage, exchange_lifetime}
use go_coap.Prelude.{
  ltb, leb, ◌==◌, if◌then◌else◌, ltb→lt, lt→ltb, leb→le, ==→eq, ne→not==, Bool-cases, Option-cases,
}
use go_coap.Prelude.{length, All}
use go_coap.Prelude.{ℕ, ◌+◌, ◌≤◌, ◌<◌}
use go_coap.Prelude.{◌≡◌, refl, sym, ◌∙◌, ◌≢◌, ◌⊎◌, inl, inr, Bool, true, false}
use go_coap.Prelude.{Option, none, some, [], ◌∷◌, arith}
use go_coap.Udp.Connection.Pending.{
  expire_pending_messages, entry, admit, add_pending_message, delete_pending_message,
}

-- The entry of a message that is still being handled at a time.
abbrev unexpired : ℕ → Option PendingMessage → Option PendingMessage
unexpired now none = none
unexpired now (some p) = if ltb now p.expires then some p else none

unfoldable pub in_flight : ℕ → ℕ → SyncMap PendingMessage → Option PendingMessage
in_flight now mid m = unexpired now (load mid m)

load-expire_none :
    (now j : ℕ) (m : SyncMap PendingMessage)
    → load j m ≡ none
    → load j (expire_pending_messages now m) ≡ none
unfolding load expire_pending_messages
load-expire_none now j [] h = refl
load-expire_none now j ((mid, p) ∷ m) h = ground (arith, h, load-expire_none now j m)

expire-IsMap :
    (now : ℕ) (m : SyncMap PendingMessage) → IsMap m → IsMap (expire_pending_messages now m)
unfolding expire_pending_messages
expire-IsMap now [] h = h
expire-IsMap now ((mid, p) ∷ m) (h, hs) = elim (Bool-cases (ltb now p.expires)) [
  | inl e ↦ rw e (load-expire_none now mid m h, expire-IsMap now m hs)
  | inr e ↦ rw e (expire-IsMap now m hs)
]

in_flight-expire :
    (now j : ℕ) (m : SyncMap PendingMessage)
    → IsMap m
    → in_flight now j (expire_pending_messages now m) ≡ in_flight now j m
unfolding in_flight load expire_pending_messages
in_flight-expire now j [] h = refl
in_flight-expire now j ((mid, p) ∷ m) (h, hs) =
    let later = in_flight-expire now j m hs in
    let gone : (mid == j) ≡ true → load j (expire_pending_messages now m) ≡ none =
      λ e. load-expire_none now j m (subst (λ i. load i m ≡ none) (==→eq mid j e) h) in
    elim (Bool-cases (mid == j)) [
      | inl e ↦ elim (Bool-cases (ltb now p.expires)) [
        | inl e2 ↦ rw (e2, e) refl
        | inr e2 ↦ rw (e2, e, gone e, e2) refl
      ]
      | inr e ↦ elim (Bool-cases (ltb now p.expires)) [
        | inl e2 ↦ rw (e2, e) later
        | inr e2 ↦ rw (e2, e) later
      ]
    ]

-- Entries that have all not expired.
abbrev pub AllUnexpired : ℕ → SyncMap PendingMessage → Type 0
AllUnexpired now m = All (λ e. now < e.1.expires) m

expire-AllUnexpired :
    (now : ℕ) (m : SyncMap PendingMessage) → AllUnexpired now (expire_pending_messages now m)
unfolding expire_pending_messages
expire-AllUnexpired now [] = tt
expire-AllUnexpired now ((mid, p) ∷ m) = elim (Bool-cases (ltb now p.expires)) [
  | inl e ↦ rw e (ltb→lt now p.expires e, expire-AllUnexpired now m)
  | inr e ↦ rw e (expire-AllUnexpired now m)
]

length-expire :
    (now : ℕ) (m : SyncMap PendingMessage) → length (expire_pending_messages now m) ≤ length m
unfolding expire_pending_messages
length-expire now [] = omega arith
length-expire now ((mid, p) ∷ m) = ground (arith, length-expire now m)

delete-IsMap : (k : ℕ) (m : SyncMap PendingMessage) → IsMap m → IsMap (delete k m)
unfolding delete
delete-IsMap k [] h = h
delete-IsMap k ((j, p) ∷ m) (h, hs) = elim (Bool-cases (j == k)) [
  | inl e ↦ rw e (delete-IsMap k m hs)
  | inr e ↦ rw e (load-delete k j m ∙ rw (ne→not== k j (ground arith)) h, delete-IsMap k m hs)
]

-- What a call for the message `mid` at `now` on `m` comes to. It keeps within the limit and keeps the
-- other messages in flight. Either the message is in flight, and nothing changes; or it is not, and it
-- is now; or it is not, and there is no room: as many messages as the limit allows are in flight.
pub record Added (max_pending mid sequence now : ℕ) (m : SyncMap PendingMessage)
    (r : SyncMap PendingMessage × Result Bool) : Type 0 where
  pub within : length r.0 ≤ max_pending
  pub is_map : IsMap r.0
  pub others : (j : ℕ) → j ≢ mid → in_flight now j r.0 ≡ in_flight now j m
  pub outcome :
      ((p : PendingMessage) × (in_flight now mid m ≡ some p) × (r ≡ (m, ok true)))
      ⊎ (((in_flight now mid m ≡ none)
            × (r.1 ≡ ok false)
            × (in_flight now mid r.0 ≡ some (entry sequence now)))
          ⊎ ((in_flight now mid m ≡ none)
              × (r.1 ≡ err pending_limit_exceeded)
              × AllUnexpired now r.0
              × (max_pending ≤ length r.0)))

module _ (max_pending mid sequence now : ℕ) (some_room : 0 < max_pending) where
  in_flight-store :
      (m : SyncMap PendingMessage) (j : ℕ)
      → j ≢ mid
      → in_flight now j (store mid (entry sequence now) m) ≡ in_flight now j m
  unfolding in_flight
  in_flight-store m j h =
      rw (load-store mid j (entry sequence now) m, ne→not== mid j (λ e. h (sym e))) refl

  in_flight-new :
      (m : SyncMap PendingMessage)
      → in_flight now mid (store mid (entry sequence now) m) ≡ some (entry sequence now)
  unfolding in_flight
  in_flight-new m =
      let same : (mid == mid) ≡ true = ground arith in
      rw
        (
          load-store mid mid (entry sequence now) m,
          same,
          lt→ltb now (now + exchange_lifetime) (omega arith),
        )
        refl

  length-new :
      (m : SyncMap PendingMessage)
      → load mid m ≡ none
      → length m < max_pending
      → length (store mid (entry sequence now) m) ≤ max_pending
  length-new m gone h = rw (length-store mid (entry sequence now) m, gone) h

  admit-Added :
      (m n : SyncMap PendingMessage)
      → IsMap m
      → length m ≤ max_pending
      → load mid m ≡ none
      → in_flight now mid n ≡ none
      → ((j : ℕ) → j ≢ mid → in_flight now j m ≡ in_flight now j n)
      → Added max_pending mid sequence now n (admit max_pending mid sequence now m)
  unfolding admit
  admit-Added m n v h gone quiet same =
      let m' = expire_pending_messages now m in
      let v' = expire-IsMap now m v in
      elim (Bool-cases (leb max_pending (length m))) [
        | inr e ↦ rw e (record {
          within = length-new m gone (ground arith);
          is_map = store-IsMap mid (entry sequence now) m v;
          others = λ j ne. in_flight-store m j ne ∙ same j ne;
          outcome = inr (inl (quiet, refl, in_flight-new m));
        })
        | inl e ↦ elim (Bool-cases (leb max_pending (length m'))) [
          | inr e2 ↦
              rw (e, e2)
                (record {
                  within = length-new m' (load-expire_none now mid m gone) (ground arith);
                  is_map = store-IsMap mid (entry sequence now) m' v';
                  others = λ j ne. in_flight-store m' j ne ∙ in_flight-expire now j m v ∙ same j ne;
                  outcome = inr (inl (quiet, refl, in_flight-new m'));
                })
          | inl e2 ↦
              rw (e, e2)
                (record {
                  within = omega (arith, length-expire now m, h);
                  is_map = v';
                  others = λ j ne. in_flight-expire now j m v ∙ same j ne;
                  outcome = inr (inr (quiet, refl, expire-AllUnexpired now m, leb→le _ _ e2));
                })
        ]
      ]

  -- With a limit above zero, and a map of at most so many messages in which no id has two entries, a
  -- message is called a duplicate just when it is in flight, and nothing changes then. It is refused
  -- only when as many other messages as the limit allows are in flight, and else it is in flight from
  -- then on. The other messages in flight stay, and the limit holds.
  pub add_pending_message-Added :
      (m : SyncMap PendingMessage)
      → IsMap m
      → length m ≤ max_pending
      → Added max_pending mid sequence now m (add_pending_message max_pending mid sequence now m)
  unfolding add_pending_message in_flight
  add_pending_message-Added m v h =
      let some_limit : (max_pending == 0) ≡ false = ne→not== max_pending 0 (omega arith) in
      elim (Option-cases (load mid m)) [
        | inl gone ↦
            rw (some_limit, gone)
              (admit-Added m m v h gone (rw (gone, in_flight) refl) (λ j ne. refl))
        | inr (p, e) ↦ elim (Bool-cases (ltb now p.expires)) [
          | inl e2 ↦
              rw (some_limit, e, e2)
                (record {
                  within = h;
                  is_map = v;
                  others = λ j ne. refl;
                  outcome = inl (p, rw (e, in_flight, e2) refl, refl);
                })
          | inr e2 ↦
              let other : (j : ℕ) → j ≢ mid → in_flight now j (delete mid m) ≡ in_flight now j m =
                λ j ne.
                  rw (in_flight, load-delete mid j m, ne→not== mid j (λ s. ne (sym s))) refl in
              let same : (mid == mid) ≡ true = ground arith in
              rw (some_limit, e, e2)
                (admit-Added (delete mid m) m (delete-IsMap mid m v)
                  (omega (arith, length-delete mid m, h)) (rw (load-delete mid mid m, same) refl)
                  (rw (in_flight, e, e2) refl) other)
        ]
      ]

-- The entry of a message that was handled is removed; that of a later message with the same id, which
-- has another sequence number, stays.
pub delete_pending_message-own :
    (mid sequence : ℕ) (m : SyncMap PendingMessage) (p : PendingMessage)
    → load mid m ≡ some p
    → load mid (delete_pending_message mid sequence m)
      ≡ (if p.sequence == sequence then none else some p)
unfolding delete_pending_message
delete_pending_message-own mid sequence m p e =
    let same : (mid == mid) ≡ true = ground arith in
    elim (Bool-cases (p.sequence == sequence)) [
      | inl e2 ↦ rw (e, e2) (rw (load-delete mid mid m, same) refl)
      | inr e2 ↦ rw (e, e2) e
    ]
