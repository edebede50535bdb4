-- ===== src/Tests/Messages.antt =====
-- Runs of the datagram and the frame coder on concrete messages.
use go_coap.Message.Fault.{ok}
use go_coap.Message.Writer.{nil, of_len, buffer_len}
use go_coap.Message.Record.{Message}
use go_coap.Message.Wire.{options_wire, option_wire, extension}
use go_coap.Udp.Coder as udp
use go_coap.Udp.Coder.RoundTrip as datagrams
use go_coap.Tcp.Coder as tcp
use go_coap.Tcp.Coder.RoundTrip as frames
use go_coap.Udp.Coder.Layout.{datagram_layout, encode-datagram_layout}
use go_coap.Tcp.Coder.Layout.{frame_layout, encode-frame_layout}
use go_coap.Tests.Options.{options, sorted, legal}
use go_coap.Prelude.{leb, if◌then◌else◌}
use go_coap.Prelude.{length, take, length-append}
use go_coap.Prelude.{pos}
use go_coap.Prelude.{ℕ, ◌^◌, ◌<◌}
use go_coap.Prelude.{◌≡◌, refl}
use go_coap.Prelude.{List, [], ◌∷◌, ◌++◌, arith}

datagram_valid : datagrams.IsDatagram (1 ∷ 2 ∷ []) options 69 (7 ∷ 8 ∷ []) 4660 2
datagram_valid = record {
  typ_lt = omega arith;
  code_lt = omega arith;
  mid_lt = omega arith;
  token_le = omega arith;
  sorted = sorted;
  legal = legal;
}

abbrev datagram_message : Message
datagram_message = datagrams.message (1 ∷ 2 ∷ []) options 69 (7 ∷ 8 ∷ []) 4660 2

abbrev datagram_bytes : List ℕ
datagram_bytes = datagrams.datagram (1 ∷ 2 ∷ []) options 69 (7 ∷ 8 ∷ []) 4660 2

abbrev datagram_wire : List ℕ
datagram_wire = datagram_layout (1 ∷ 2 ∷ []) options 69 (7 ∷ 8 ∷ []) 4660 2

-- an acknowledgement with a token of two bytes, code 2.05 and id 0x1234
datagram_front : take 6 datagram_wire ≡ 98 ∷ 69 ∷ 18 ∷ 52 ∷ 1 ∷ 2 ∷ []
datagram_front = refl

encode-datagram_layout_example : udp.encode (of_len 64) datagram_message ≡ (
    if leb (length datagram_wire) (buffer_len (of_len 64))
    then udp.written (pos (length datagram_wire)) datagram_wire
    else udp.buffer_too_small (pos (length datagram_wire)))
encode-datagram_layout_example =
    encode-datagram_layout (1 ∷ 2 ∷ []) options 69 (7 ∷ 8 ∷ []) 4660 2 datagram_valid (of_len 64)

decode-datagram_example :
    udp.decode 16 datagram_bytes datagram_message ≡ (datagram_message, ok (length datagram_bytes))
decode-datagram_example =
    datagrams.decode-datagram (1 ∷ 2 ∷ []) options 69 (7 ∷ 8 ∷ []) 4660 2 datagram_valid 16
      datagram_message (omega arith)

options_length : length (options_wire 0 options) ≡ 10
unfolding options_wire option_wire extension
options_length = refl

frame_valid : frames.IsFrame (5 ∷ []) options 69 (7 ∷ 8 ∷ []) (pos 0) (pos 0)
unfolding tcp.option_defs_for
frame_valid = record {
  code_lt = omega arith;
  token_le = omega arith;
  sorted = sorted;
  legal = legal;
  body_lt =
      omega (arith, length-append (options_wire 0 options) (255 ∷ 7 ∷ 8 ∷ []), options_length);
}

abbrev frame_message : Message
frame_message = frames.message (5 ∷ []) options 69 (7 ∷ 8 ∷ []) (pos 0) (pos 0)

abbrev frame_bytes : List ℕ
frame_bytes = frames.frame (5 ∷ []) options 69 (7 ∷ 8 ∷ []) (pos 0) (pos 0)

abbrev frame_wire : List ℕ
frame_wire = frame_layout (5 ∷ []) options 69 (7 ∷ 8 ∷ []) (pos 0) (pos 0)

-- 13 bytes behind the token, whose length is 1, and code 2.05
frame_front : take 4 frame_wire ≡ 209 ∷ 0 ∷ 69 ∷ 5 ∷ []
unfolding options_wire option_wire extension
frame_front = refl

encode-frame_layout_example : tcp.encode nil frame_message ≡ (
    if leb (length frame_wire) (buffer_len nil)
    then tcp.written (length frame_wire) frame_wire
    else tcp.buffer_too_small (length frame_wire))
encode-frame_layout_example =
    encode-frame_layout (5 ∷ []) options 69 (7 ∷ 8 ∷ []) (pos 0) (pos 0) frame_valid nil

frame_room : length (frame_bytes ++ 1 ∷ []) < 2 ^ 32
unfolding tcp.header_bytes tcp.get_header options_wire option_wire extension
frame_room = omega arith

abbrev empty_message : Message
empty_message = record {
  token = [];
  options = [];
  code = 0;
  payload = [];
  message_id = pos 0;
  kind = pos 0;
}

decode-frame_example :
    tcp.decode 16 (frame_bytes ++ 1 ∷ []) empty_message ≡ (frame_message, ok (length frame_bytes))
decode-frame_example =
    frames.decode-frame (5 ∷ []) options 69 (7 ∷ 8 ∷ []) (pos 0) (pos 0) frame_valid 16 (1 ∷ [])
      (omega arith) frame_room
