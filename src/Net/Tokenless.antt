-- ===== src/Net/Tokenless.antt =====
-- net/client/tokenlessHandler.go and net/client/requestHandler.go: who gets a response. A response
-- without a token goes to the one pending request without a token; one with a token by the token's
-- hash. A registration is a number, in the place of the pointer to its handler; each call is one step,
-- under the lock.
use go_coap.Message.Fault.{Result, ok, err, already_exists, requests_blocked}
use go_coap.Pkg.SyncMap.{SyncMap, load_or_store, load_and_delete}
use go_coap.Prelude.{◌==◌, if◌then◌else◌, Bool-cases, Option-cases}
use go_coap.Prelude.{All}
use go_coap.Prelude.{ℕ, suc, ◌<◌}
use go_coap.Prelude.{◌≡◌, refl, inl, inr, Bool, true, false, not}
use go_coap.Prelude.{Option, none, some, List, [], ◌∷◌, arith}

-- TokenlessHandler: `next` is the number of the next registration.
pub record TokenlessHandler : Type 0 where
  pub handler : Option ℕ
  pub consumed : Bool
  pub blocked : Bool
  pub next : ℕ

abbrev pub unused : TokenlessHandler
unused = record { handler = none; consumed = false; blocked = false; next = 0 }

abbrev registered_if_free : TokenlessHandler → Option ℕ → TokenlessHandler × Result ℕ
registered_if_free h (some id) = (h, err already_exists)
registered_if_free h none =
    (record h { handler = some h.next; consumed = false; next = suc h.next }, ok h.next)

-- Register
unfoldable pub register : TokenlessHandler → TokenlessHandler × Result ℕ
register h = if h.blocked then (h, err requests_blocked) else registered_if_free h h.handler

abbrev cleaned_if_same : ℕ → Bool → TokenlessHandler → Option ℕ → TokenlessHandler
cleaned_if_same id completed h none = h
cleaned_if_same id completed h (some current) =
    if current == id then record h { handler = none; blocked = not completed } else h

-- The cleanup function that Register returns.
unfoldable pub clean_up : ℕ → Bool → TokenlessHandler → TokenlessHandler
clean_up id completed h = cleaned_if_same id completed h h.handler

abbrev loaded_if_fresh : Bool → TokenlessHandler → Option ℕ → TokenlessHandler × Option ℕ
loaded_if_fresh remove h none = (h, none)
loaded_if_fresh remove h (some id) =
    if h.consumed
    then (h, none)
    else if remove
    then (record h { consumed = true }, some id)
    else (h, some id)

-- Load
unfoldable pub load_handler : Bool → TokenlessHandler → TokenlessHandler × Option ℕ
load_handler remove h = loaded_if_fresh remove h h.handler

-- How a request ends: well, before it was sent, or in another way, as by the end of its context.
pub data RequestError : Type 0 where
  no_error not_sent failed_later : RequestError

-- `block`
abbrev pub blocks : RequestError → Bool
blocks failed_later = true
blocks _ = false

-- What RegisterRequestHandler registers with, for a token of this length and hash: `handlers` are those
-- of requests with a token.
pub record Handlers : Type 0 where
  pub tokenless : TokenlessHandler
  pub handlers : SyncMap ℕ

abbrev with_tokenless : Handlers → TokenlessHandler × Result ℕ → Handlers × Result ℕ
with_tokenless h (t, r) = (record h { tokenless = t }, r)

abbrev with_handlers : Handlers → ℕ → SyncMap ℕ × ℕ × Bool → Handlers × Result ℕ
with_handlers h id (m, old, true) = (record h { handlers = m }, err already_exists)
with_handlers h id (m, old, false) = (record h { handlers = m }, ok id)

unfoldable pub register_request_handler : ℕ → ℕ → ℕ → Handlers → Handlers × Result ℕ
register_request_handler token_len hash id h =
    if token_len == 0
    then with_tokenless h (register h.tokenless)
    else with_handlers h id (load_or_store hash id h.handlers)

-- The function that RegisterRequestHandler returns, and whether its error says that requests without a
-- token are blocked.
unfoldable pub remove_request_handler : ℕ → ℕ → ℕ → RequestError → Handlers → Handlers × Bool
remove_request_handler token_len hash id e h =
    if token_len == 0
    then (record h { tokenless = clean_up id (not (blocks e)) h.tokenless }, blocks e)
    else (record h { handlers = (load_and_delete hash h.handlers).0 }, false)

-- The calls on a TokenlessHandler, and what they answer.
pub data Call : Type 0 where
  registers : Call
  cleans : ℕ → Bool → Call
  loads : Bool → Call

pub data Answer : Type 0 where
  registered : Result ℕ → Answer
  cleaned : Answer
  loaded : Bool → Option ℕ → Answer

abbrev answer_register : TokenlessHandler × Result ℕ → TokenlessHandler × Answer
answer_register (h, r) = (h, registered r)

abbrev answer_load : Bool → TokenlessHandler × Option ℕ → TokenlessHandler × Answer
answer_load remove (h, r) = (h, loaded remove r)

unfoldable pub call : Call → TokenlessHandler → TokenlessHandler × Answer
call registers h = answer_register (register h)
call (cleans id completed) h = (clean_up id completed h, cleaned)
call (loads remove) h = answer_load remove (load_handler remove h)

unfoldable pub call_all : List Call → TokenlessHandler → TokenlessHandler × List Answer
call_all [] h = (h, [])
call_all (c ∷ calls) h =
    let (h', a) = call c h in let (h'', answers) = call_all calls h' in (h'', a ∷ answers)

-- Nothing is registered, and nothing is handed out.
abbrev pub IsRefusal : Answer → Type 0
IsRefusal (registered r) = r ≡ err requests_blocked
IsRefusal cleaned = Unit {0}
IsRefusal (loaded remove r) = r ≡ none

abbrev IsDead : TokenlessHandler → Type 0
IsDead h = (h.blocked ≡ true) × (h.handler ≡ none)

call-IsDead :
    (c : Call) (h : TokenlessHandler) → IsDead h → IsDead (call c h).0 × IsRefusal (call c h).1
unfolding call register clean_up load_handler
call-IsDead registers h (b, n) = rw (b, n) ((refl, refl), refl)
call-IsDead (cleans id completed) h (b, n) = rw n ((b, refl), tt)
call-IsDead (loads remove) h (b, n) = rw n ((b, refl), refl)

call_all-IsDead :
    (calls : List Call) (h : TokenlessHandler) → IsDead h → All IsRefusal (call_all calls h).1
unfolding call_all
call_all-IsDead [] h d = tt
call_all-IsDead (c ∷ calls) h d =
    let (d', a) = call-IsDead c h d in (a, call_all-IsDead calls (call c h).0 d')

-- Once the pending request without a token has ended without success, no call ever registers another,
-- and no response is handed to anyone any more: a late response reaches no other request.
pub clean_up-blocks :
    (id : ℕ) (calls : List Call) (h : TokenlessHandler)
    → h.handler ≡ some id
    → All IsRefusal (call_all calls (clean_up id false h)).1
unfolding clean_up
clean_up-blocks id calls h e =
    let same : (id == id) ≡ true = ground arith in
    call_all-IsDead calls (clean_up id false h) (rw (e, clean_up, same) (refl, refl))

-- Whether a call hands a response to a registration, and whether it consumes the registration by it.
abbrev pub hands : ℕ → Answer → Bool
hands id (loaded remove (some j)) = j == id
hands id (loaded remove none) = false
hands id cleaned = false
hands id (registered r) = false

abbrev pub consumes : ℕ → Answer → Bool
consumes id (loaded true r) = hands id (loaded true r)
consumes id (loaded false r) = false
consumes id cleaned = false
consumes id (registered r) = false

-- Behind the call that consumes a registration, no call hands a response to it.
abbrev pub IsFinal : ℕ → List Answer → Type 0
IsFinal id [] = Unit {0}
IsFinal id (a ∷ answers) =
    (consumes id a ≡ true → All (λ b. hands id b ≡ false) answers) × IsFinal id answers

-- The pending registration is an earlier one.
abbrev pub IsNumbered : TokenlessHandler → Type 0
IsNumbered h = (j : ℕ) → h.handler ≡ some j → j < h.next

-- A registration that is over, or has got its response.
abbrev IsSpent : ℕ → TokenlessHandler → Type 0
IsSpent id h = (id < h.next) × (h.handler ≡ some id → h.consumed ≡ true)

call-IsNumbered : (c : Call) (h : TokenlessHandler) → IsNumbered h → IsNumbered (call c h).0
unfolding call register clean_up load_handler
call-IsNumbered registers h n = λ j e. ground (arith, n j)
call-IsNumbered (cleans id completed) h n = λ j e. ground (arith, n j)
call-IsNumbered (loads remove) h n = λ j e. ground (arith, n j)

call-IsSpent :
    (id : ℕ) (c : Call) (h : TokenlessHandler)
    → IsSpent id h
    → IsSpent id (call c h).0 × (hands id (call c h).1 ≡ false)
unfolding call register clean_up load_handler
call-IsSpent id registers h (less, spent) = ground (arith, less, spent)
call-IsSpent id (cleans k completed) h (less, spent) = ground (arith, less, spent)
call-IsSpent id (loads remove) h (less, spent) = ground (arith, less, spent)

call-consumes :
    (id : ℕ) (c : Call) (h : TokenlessHandler)
    → IsNumbered h
    → consumes id (call c h).1 ≡ true
    → IsSpent id (call c h).0
unfolding call register clean_up load_handler
call-consumes id registers h n e = cc
call-consumes id (cleans k completed) h n e = cc
call-consumes id (loads false) h n e = ground (arith, e)
call-consumes id (loads true) h n e = elim (Option-cases h.handler) [
  | inl e2 ↦ cc (rw e2 at e)
  | inr (j, e2) ↦ elim (Bool-cases h.consumed) [
    | inl e3 ↦ ground (arith, e, e2, e3)
    | inr e3 ↦ ground (arith, e, e2, e3, n j e2)
  ]
]

spent-hands :
    (id : ℕ) (calls : List Call) (h : TokenlessHandler)
    → IsSpent id h
    → All (λ b. hands id b ≡ false) (call_all calls h).1
unfolding call_all
spent-hands id [] h s = tt
spent-hands id (c ∷ calls) h s =
    let (s', none_now) = call-IsSpent id c h s in (none_now, spent-hands id calls (call c h).0 s')

-- Whatever calls are made, from a state whose pending registration has a number that was given out:
-- once a Load that removes has handed a response to a registration, no later Load, removing or not,
-- hands another one to it.
pub call_all-IsFinal :
    (id : ℕ) (calls : List Call) (h : TokenlessHandler)
    → IsNumbered h
    → IsFinal id (call_all calls h).1
unfolding call_all
call_all-IsFinal id [] h n = tt
call_all-IsFinal id (c ∷ calls) h n = (
  λ e. spent-hands id calls (call c h).0 (call-consumes id c h n e),
  call_all-IsFinal id calls (call c h).0 (call-IsNumbered c h n),
)
