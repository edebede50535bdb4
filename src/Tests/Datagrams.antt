-- ===== src/Tests/Datagrams.antt =====
-- Runs of connections over datagrams on concrete input.
use go_coap.Message.Fault.{ok, err, invalid_token_len}
use go_coap.Message.Record.{Message}
use go_coap.Pkg.Cache.{load_live}
use go_coap.Pkg.SyncMap.{SyncMap, load}
use go_coap.Pkg.SyncMap.Laws.{IsMap}
use go_coap.Udp.Coder as udp
use go_coap.Udp.Coder.RoundTrip as datagrams
use go_coap.Udp.Retransmission.Checks.{Waiting, Check, check_all, check_all-bound}
use go_coap.Udp.Connection.{PendingMessage, Response, Conn}
use go_coap.Udp.Connection.Pending.{add_pending_message}
use go_coap.Udp.Connection.Pending.Admission.{Added, add_pending_message-Added}
use go_coap.Udp.Connection.Receiving as receiving
use go_coap.Udp.Connection.Receiving.Outcomes.{process-malformed}
use go_coap.Udp.Connection.Repeats as repeats
use go_coap.Udp.Connection.Repeats.{
  Parts, acknowledged, kept, Answers, handle_each, handle_each-once,
}
use go_coap.Udp.Connection.Sending.{
  Attempt, Restored, write_message_async, write_message_async-Restored,
}
use go_coap.Tests.Options.{options, sorted, legal}
use go_coap.Prelude.{length}
use go_coap.Prelude.{uint16, pos, negsuc}
use go_coap.Prelude.{ℕ, suc, ◌+◌, ◌/◌, ◌%◌, ◌≤◌}
use go_coap.Prelude.{◌≡◌, refl, true, false}
use go_coap.Prelude.{none, some, List, [], ◌∷◌, map, arith}

-- A handler that counts its calls and answers all requests alike.
abbrev answer : Parts
answer = record { token = 1 ∷ 2 ∷ []; options = options; code = 69; body = 7 ∷ 8 ∷ [] }

abbrev count_calls : Message → Response → ℕ → ℕ × Response
count_calls req r n = (
  suc n,
  record { message = repeats.message_of answer (negsuc 0) (negsuc 0); is_modified = true },
)

abbrev connection : Conn ℕ
connection = record {
  msg_id = 0;
  process_msg_id = 0;
  sequence = 0;
  responses = [];
  pending = [];
  waiting = [];
  outstanding = 0;
  state = 0;
}

abbrev request : Parts
request = record { token = 1 ∷ 2 ∷ []; options = []; code = 1; body = [] }

abbrev no_response : Response
no_response = record { message = receiving.acquired; is_modified = false }

answer_valid : datagrams.IsDatagram (1 ∷ 2 ∷ []) options 69 (7 ∷ 8 ∷ []) 4660 2
answer_valid = record {
  typ_lt = omega arith;
  code_lt = omega arith;
  mid_lt = omega arith;
  token_le = omega arith;
  sorted = sorted;
  legal = legal;
}

request_answered : Answers 16 256 count_calls request answer 4660 no_response 0 1
request_answered = record {
  own_id = negsuc 0;
  own_type = negsuc 0;
  answers = refl;
  no_reset = refl;
  not_empty = λ e. absurd (omega (arith, e));
  is_carried = answer_valid;
}

nothing_cached : load_live {D = List ℕ} 10 4660 [] ≡ none
unfolding load_live load
nothing_cached = refl

handle_each-once_example :
    handle_each 16 256 count_calls 4660 no_response
      ((10, request) ∷ (20, request) ∷ (30, request) ∷ [])
      connection
    ≡ (
      kept 16 256 count_calls 10 answer 4660 connection 1,
      map {A = ℕ × Parts}
          (λ d. (acknowledged answer 4660, ok tt))
          ((10, request) ∷ (20, request) ∷ (30, request) ∷ []),
    )
handle_each-once_example =
    handle_each-once 16 256 count_calls 10 4660 request answer no_response connection 1
      ((20, request) ∷ (30, request) ∷ []) (omega arith) request_answered nothing_cached
      (omega arith, (omega arith, tt))

abbrev one_pending : SyncMap PendingMessage
one_pending = (7, record { sequence = 1; expires = 100 }) ∷ []

one_pending-IsMap : IsMap one_pending
unfolding load
one_pending-IsMap = (refl, tt)

add_pending_message-Added_example :
    Added 1 8 2 100 one_pending (add_pending_message 1 8 2 100 one_pending)
add_pending_message-Added_example =
    add_pending_message-Added 1 8 2 100 (omega arith) one_pending one_pending-IsMap (omega arith)

abbrev quiet_peer : receiving.Peer ℕ
quiet_peer = record {
  max_message_size = 100;
  max_pending = 4;
  q_block_enabled = false;
  monitor = λ m s. (s, ok false);
  notify = λ s. s;
  is_closed = λ s. false;
}

long_token : (udp.decode 5 (73 ∷ 1 ∷ 18 ∷ 52 ∷ []) receiving.acquired).1 ≡ err invalid_token_len
unfolding udp.decode udp.decode_token
long_token = refl

process-malformed_example :
    receiving.process 16 quiet_peer 5 false (73 ∷ 1 ∷ 18 ∷ 52 ∷ []) connection ≡ (
      connection,
      none,
      receiving.malformed (record {
        cause = invalid_token_len;
        invalid_version = false;
        has_header = true;
        kind = pos (73 / 16 % 4);
        message_id = pos (uint16 18 52);
      }),
    )
process-malformed_example =
    process-malformed 16 quiet_peer 5 false 73 1 18 52 [] connection invalid_token_len (omega arith)
      refl (omega arith) long_token

abbrev attempt : Attempt
attempt = record { now = 5; deadline = none; timeout = 2; is_granted = true; is_written = false }

write_message_async-Restored_example :
    Restored 16 256 connection
      (write_message_async 16 256 attempt (repeats.con_request request 9) connection).0
write_message_async-Restored_example =
    write_message_async-Restored 16 256 attempt (repeats.con_request request 9) connection

abbrev unanswered : Waiting
unanswered = record {
  element = record {
    start = 0;
    deadline = none;
    acknowledge_timeout = 2;
    retransmit = 0;
    retransmitting = false;
    retransmit_failures = 0;
  };
  message = some (repeats.con_request request 9);
}

abbrev checks : List Check
checks =
    record { now = 3; marked_at = 4; is_written = true }
    ∷ record { now = 10; marked_at = 11; is_written = false }
    ∷ []

check_all-bound_example : length (check_all 4 checks (some unanswered)).1 ≤ 4 + 4
check_all-bound_example = check_all-bound 4 checks unanswered (omega arith) refl refl
