-- ===== src/Udp/Connection/Pending.antt =====
-- udp/client/conn.go: the received messages that are still being handled, by their ids.
pub mod Admission
use go_coap.Message.Fault.{Result, ok, err, pending_limit_exceeded}
use go_coap.Pkg.SyncMap.{SyncMap, load, store, delete}
use go_coap.Udp.Connection.{PendingMessage, exchange_lifetime}
use go_coap.Prelude.{ltb, leb, ◌==◌, if◌then◌else◌}
use go_coap.Prelude.{length}
use go_coap.Prelude.{ℕ, ◌+◌}
use go_coap.Prelude.{Bool, true, false}
use go_coap.Prelude.{Option, none, some, [], ◌∷◌}

-- expirePendingMessages: Go may drop entries of a map while it ranges over it.
unfoldable pub expire_pending_messages : ℕ → SyncMap PendingMessage → SyncMap PendingMessage
expire_pending_messages now [] = []
expire_pending_messages now ((mid, p) ∷ m) =
    let rest = expire_pending_messages now m in if ltb now p.expires then (mid, p) ∷ rest else rest

abbrev pub entry : ℕ → ℕ → PendingMessage
entry sequence now = record { sequence = sequence; expires = now + exchange_lifetime }

-- addPendingMessage behind its first test: whether there is room, with what has expired removed if
-- there is none.
unfoldable pub admit : ℕ → ℕ → ℕ → ℕ → SyncMap PendingMessage → SyncMap PendingMessage × Result Bool
admit max_pending mid sequence now m =
    if leb max_pending (length m)
    then (let m' = expire_pending_messages now m in
        if leb max_pending (length m')
        then (m', err pending_limit_exceeded)
        else (store mid (entry sequence now) m', ok false))
    else (store mid (entry sequence now) m, ok false)

abbrev admit_unless :
    ℕ
    → ℕ
    → ℕ
    → ℕ
    → SyncMap PendingMessage
    → Option PendingMessage
    → SyncMap PendingMessage × Result Bool
admit_unless max_pending mid sequence now m none = admit max_pending mid sequence now m
admit_unless max_pending mid sequence now m (some p) =
    if ltb now p.expires then (m, ok true) else admit max_pending mid sequence now (delete mid m)

-- addPendingMessage: whether the message is a duplicate, or an error.
unfoldable pub add_pending_message :
    ℕ → ℕ → ℕ → ℕ → SyncMap PendingMessage → SyncMap PendingMessage × Result Bool
add_pending_message max_pending mid sequence now m =
    if max_pending == 0
    then (m, ok false)
    else admit_unless max_pending mid sequence now m (load mid m)

abbrev delete_if : ℕ → ℕ → SyncMap PendingMessage → Option PendingMessage → SyncMap PendingMessage
delete_if mid sequence m none = m
delete_if mid sequence m (some p) = if p.sequence == sequence then delete mid m else m

unfoldable pub delete_pending_message : ℕ → ℕ → SyncMap PendingMessage → SyncMap PendingMessage
delete_pending_message mid sequence m = delete_if mid sequence m (load mid m)
