-- ===== src/Tests/Sessions.antt =====
-- Runs of sessions over a stream, and of the decoding of messages, on concrete input.
use go_coap.Message.Fault.{ok, err, stuck, options_too_small}
use go_coap.Message.Record.{Message}
use go_coap.Message.Wire.{options_wire, option_wire, extension}
use go_coap.Message.Unmarshal.{
  unmarshal_options, unmarshal_loop, read_option, parse_ext_opt, read_value, cast_option_id,
  unmarshal_option, is_skipped,
}
use go_coap.Pool.Decoding
use go_coap.Pool.Decoding.Datagram.{decode-grown}
use go_coap.Pool.Encoding.{marshal_frame-wire}
use go_coap.Tcp.Coder as tcp
use go_coap.Tcp.Coder.RoundTrip as frames
use go_coap.Tcp.Session as stream
use go_coap.Tcp.Session.{run, finish, open_yet, broken}
use go_coap.Tcp.Session.Chunks.{concat, run-concat}
use go_coap.Tcp.Session.Delivery.{
  Outgoing, wire_of, IsSendable, written_by, hand_over, run-hand_over,
}
use go_coap.Udp.Coder as udp
use go_coap.Udp.Connection.Receiving as receiving
use go_coap.Tests.Options.{options, sorted, legal}
use go_coap.Prelude.{length, take, drop, length-append, take-append-drop}
use go_coap.Prelude.{negsuc}
use go_coap.Prelude.{ℕ, zero, suc, ◌^◌, ◌<◌}
use go_coap.Prelude.{◌≡◌, refl, sym, ap, ◌∙◌, false}
use go_coap.Prelude.{List, [], ◌∷◌, ◌++◌, append-nil, arith}

-- A peer that keeps what is queued.
abbrev Log : Type 0
Log = List (ℕ × Message)

abbrev log_peer : stream.Peer Log
log_peer = record {
  monitor = λ m s. (s, ok false);
  notify = λ s. s;
  push = λ seq m s. s ++ (seq, m) ∷ [];
  write = λ bytes s. (s, ok tt);
}

abbrev sent : Outgoing
sent = record { token = 5 ∷ []; options = options; code = 69; body = 7 ∷ 8 ∷ [] }

options_length : length (options_wire 0 options) ≡ 10
unfolding options_wire option_wire extension
options_length = refl

wire_length : length (wire_of sent) ≡ 17
unfolding tcp.header_bytes tcp.get_header options_wire option_wire extension
wire_length = refl

sent_framed : frames.IsFrame (5 ∷ []) options 69 (7 ∷ 8 ∷ []) (negsuc 0) (negsuc 0)
unfolding tcp.option_defs_for
sent_framed = record {
  code_lt = omega arith;
  token_le = omega arith;
  sorted = sorted;
  legal = legal;
  body_lt =
      omega (arith, length-append (options_wire 0 options) (255 ∷ 7 ∷ 8 ∷ []), options_length);
}

sent-IsSendable : IsSendable 100 sent
sent-IsSendable = record { framed = sent_framed; size_le = omega (arith, wire_length) }

-- The frame in two parts
abbrev cut_frame : List (List ℕ)
cut_frame = take 3 (wire_of sent) ∷ (drop 3 (wire_of sent) ++ []) ∷ []

cut_whole : concat cut_frame ≡ wire_of sent ++ []
cut_whole =
    ap (λ t. take 3 (wire_of sent) ++ t) (append-nil (drop 3 (wire_of sent) ++ []))
    ∙ ap (λ t. take 3 (wire_of sent) ++ t) (append-nil (drop 3 (wire_of sent)))
    ∙ take-append-drop 3 (wire_of sent)
    ∙ sym (append-nil (wire_of sent))

sent_written : written_by 256 (sent ∷ []) ≡ ok (concat cut_frame)
sent_written =
    rw (marshal_frame-wire (5 ∷ []) options 69 (7 ∷ 8 ∷ []) (negsuc 0) (negsuc 0) sent_framed 256)
      (ap ok (sym cut_whole))

cut_short : length (concat cut_frame) < 2 ^ 32
cut_short = omega (arith, ap length cut_whole, length-append (wire_of sent) [], wire_length)

run-hand_over_example :
    run log_peer 100 16 [] 0 [] cut_frame broken
    ≡ finish log_peer 100 16 broken (hand_over log_peer 100 16 [] 0 (sent ∷ []))
run-hand_over_example =
    run-hand_over log_peer 100 16 (omega arith) (sent ∷ []) 256 [] 0 cut_frame broken
      (sent-IsSendable, tt) sent_written cut_short

run-concat_example :
    run log_peer 100 16 [] 0 (0 ∷ []) ((69 ∷ []) ∷ (0 ∷ []) ∷ []) open_yet
    ≡ run log_peer 100 16 [] 0 (0 ∷ 69 ∷ 0 ∷ []) [] open_yet
run-concat_example =
    run-concat log_peer 100 16 (omega arith) [] 0 (0 ∷ []) ((69 ∷ []) ∷ (0 ∷ []) ∷ []) open_yet
      (omega arith)

decode-grown_example :
    Decoding.decode udp.decode 1 (64 ∷ 1 ∷ 0 ∷ 9 ∷ 17 ∷ 97 ∷ []) receiving.acquired
    ≡ udp.decode 7 (64 ∷ 1 ∷ 0 ∷ 9 ∷ 17 ∷ 97 ∷ []) receiving.acquired
decode-grown_example =
    decode-grown 1 (64 ∷ 1 ∷ 0 ∷ 9 ∷ 17 ∷ 97 ∷ []) receiving.acquired (omega arith)

abbrev one_option : List ℕ
one_option = 64 ∷ 1 ∷ 0 ∷ 9 ∷ 17 ∷ 97 ∷ []

-- Without a place for an option, an attempt fails, and leaves no place for the next.
no_place_left :
    (m : Message)
    → ((udp.decode 0 one_option m).1 ≡ err options_too_small)
      × ((udp.decode 0 one_option m).0.options ≡ [])
unfolding udp.decode udp.decode_token udp.decode_body udp.store_body unmarshal_options
    unmarshal_loop read_option parse_ext_opt read_value cast_option_id unmarshal_option is_skipped
no_place_left m = (refl, refl)

-- So the loop of decode never ends.
decode_without_place :
    (fuel : ℕ) (m : Message) → (Decoding.decode_loop fuel udp.decode 0 one_option m).1 ≡ stuck
unfolding Decoding.decode_loop
decode_without_place zero m = refl
decode_without_place (suc fuel) m =
    let (e, e2) = no_place_left m in
    rw (Decoding.decode_loop, e, e2)
      (decode_without_place fuel (Decoding.cleared (udp.decode 0 one_option m).0))
