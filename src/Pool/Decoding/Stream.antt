-- ===== src/Pool/Decoding/Stream.antt =====
-- tcp/coder/coder.go under the loop of message/pool/message.go.
use mathlib.Core.Path.{subst}
use go_coap.Message.Fault.{Result, ok, err, stuck, is_too_small}
use go_coap.Message.Defs.{CoapOption}
use go_coap.Message.Record.{Message}
use go_coap.Message.Reading.{Result-cases}
use go_coap.Message.Unmarshal.{unmarshal_options}
use go_coap.Message.Capacity.{unmarshal_options-Full, unmarshal_options-agrees, bind-not_small}
use go_coap.Pool.Decoding.{Attempts, IsRetryable, cleared, decode-enough}
use go_coap.Pool.Decoding
use go_coap.Pool.Decoding.Retry.{
  refused-IsRetryable, length-take_le, cleared-eq, same-IsRetryable, wider-IsRetryable,
}
use go_coap.Tcp.Coder.{
  MessageHeader, ExtLength, read_ext_length, finish_header, decode_header, decode_frame,
  decode_with_header, store_body, option_defs_for, code_and_token,
}
use go_coap.Tcp.Coder
use go_coap.Prelude.{ltb, ◌==◌, Bool-cases}
use go_coap.Prelude.{length, take, drop, length-drop}
use go_coap.Prelude.{ℕ, suc, ◌+◌, ◌-◌, ◌/◌, ◌%◌, ◌^◌, ◌<◌}
use go_coap.Prelude.{◌≡◌, refl, sym, ap, ◌∙◌, inl, inr, Bool, true, false}
use go_coap.Prelude.{List, [], ◌∷◌, arith}

-- The options of a message on the stream: store_body keeps the outcome of Options.Unmarshal.
module _ (bytes : List ℕ) (h : MessageHeader) (m : Message) (none_yet : m.options ≡ []) where
  stored-small :
      (r : List CoapOption × Result ℕ) → is_too_small (store_body bytes h m r).1 ≡ is_too_small r.1
  unfolding store_body
  stored-small (os, ok n) = refl
  stored-small (os, err e) = refl
  stored-small (os, stuck) = refl

  stored-options :
      (r : List CoapOption × Result ℕ)
      → is_too_small r.1 ≡ true
      → (store_body bytes h m r).0 ≡ record m { options = r.0 }
  unfolding store_body
  stored-options (os, ok n) e = cc e
  stored-options (os, err f) e = refl
  stored-options (os, stuck) e = cc e

  attempt : Attempts
  attempt k x = store_body bytes h x (unmarshal_options (option_defs_for h.code) k x.options bytes)

  read : ℕ → List CoapOption × Result ℕ
  read k = unmarshal_options (option_defs_for h.code) k [] bytes

  attempt-read : (k : ℕ) → attempt k m ≡ store_body bytes h m (read k)
  unfolding attempt read
  attempt-read k =
      ap (λ os. store_body bytes h m (unmarshal_options (option_defs_for h.code) k os bytes))
        none_yet

  small-read : (k : ℕ) (b : Bool) → is_too_small (attempt k m).1 ≡ b → is_too_small (read k).1 ≡ b
  small-read k b e =
      sym (stored-small (read k)) ∙ ap (λ r. is_too_small r.1) (sym (attempt-read k)) ∙ e

  options-read :
      (k : ℕ)
      → is_too_small (attempt k m).1 ≡ true
      → (attempt k m).0 ≡ record m { options = (read k).0 }
  options-read k e = ap (λ r. r.0) (attempt-read k) ∙ stored-options (read k) (small-read k true e)

  stored-IsRetryable : IsRetryable attempt (length bytes) m
  unfolding read
  stored-IsRetryable = record {
    places_taken = λ c e.
        rw (options-read c e)
          (unmarshal_options-Full (option_defs_for h.code) c bytes (small-read c true e)).0;
    options_le = λ c e.
        rw (options-read c e)
          (unmarshal_options-Full (option_defs_for h.code) c bytes (small-read c true e)).1;
    reads_again =
        λ c k e. ap (λ x. attempt k x) (ap cleared (options-read c e) ∙ cleared-eq m none_yet);
    agrees = λ c k e e2.
        attempt-read c
        ∙ ap (store_body bytes h m) (
            unmarshal_options-agrees (option_defs_for h.code) c k bytes (small-read c false e)
              (small-read k false e2))
        ∙ sym (attempt-read k);
  }

ext-not_small : (nib : ℕ) (bytes : List ℕ) → is_too_small (read_ext_length nib bytes) ≡ false
unfolding read_ext_length
ext-not_small nib bytes = elim (Bool-cases (ltb nib 13)) [
  | inl e ↦ rw e refl
  | inr e ↦ elim (Bool-cases (nib == 13)) [
    | inl e2 ↦ rw (e, e2) (one bytes)
    | inr e2 ↦ elim (Bool-cases (nib == 14)) [
      | inl e3 ↦ rw (e, e2, e3) (two bytes)
      | inr e3 ↦ rw (e, e2, e3) (four bytes)
    ]
  ]
]
  where
    one : (bytes : List ℕ) → is_too_small (read_ext_length 13 bytes) ≡ false
    one [] = refl
    one (a ∷ bytes) = refl

    two : (bytes : List ℕ) → is_too_small (read_ext_length 14 bytes) ≡ false
    two [] = refl
    two (a ∷ []) = refl
    two (a ∷ b ∷ bytes) = refl

    four : (bytes : List ℕ) → is_too_small (read_ext_length 15 bytes) ≡ false
    four [] = refl
    four (a ∷ []) = refl
    four (a ∷ b ∷ []) = refl
    four (a ∷ b ∷ c ∷ []) = refl
    four (a ∷ b ∷ c ∷ d ∷ bytes) = refl

code-not_small :
    (tkl ext total : ℕ) (bytes : List ℕ) → is_too_small (code_and_token tkl ext total bytes) ≡ false
code-not_small tkl ext total [] = refl
code-not_small tkl ext total (code ∷ rest) = elim (Bool-cases (ltb (length rest) tkl)) [
  | inl e ↦ rw e refl
  | inr e ↦ rw e refl
]

finish-not_small : (tkl : ℕ) (e : ExtLength) → is_too_small (finish_header tkl e) ≡ false
unfolding finish_header
finish-not_small tkl (op_len, ext, bytes) =
    elim (Bool-cases (ltb (2 ^ 32 - 1) ((1 + ext) + 1 + tkl + op_len))) [
      | inl e ↦ rw e refl
      | inr e ↦ rw e (code-not_small tkl ext ((1 + ext) + 1 + tkl + op_len) bytes)
    ]

header-not_small : (bytes : List ℕ) → is_too_small (decode_header bytes) ≡ false
unfolding decode_header
header-not_small [] = refl
header-not_small (b0 ∷ bytes) = elim (Bool-cases (ltb 8 (b0 % 16))) [
  | inl e ↦ rw e refl
  | inr e ↦ rw e (
      bind-not_small (read_ext_length (b0 / 16) bytes) (finish_header (b0 % 16))
        (ext-not_small (b0 / 16) bytes) (finish-not_small (b0 % 16)))
]

frame-IsRetryable :
    (bytes : List ℕ) (h : MessageHeader) (m : Message)
    → m.options ≡ []
    → IsRetryable (λ k x. decode_frame k bytes x h) (length bytes) m
unfolding decode_frame decode_with_header attempt
frame-IsRetryable bytes h m none_yet =
    let body = take (h.message_length - h.header_length) (drop h.header_length bytes) in
    elim (Bool-cases (ltb (length bytes % 2 ^ 32) h.message_length)) [
      | inl e ↦ rw e (refused-IsRetryable _ (length bytes) m refl)
      | inr e ↦ rw e (
          wider-IsRetryable (attempt body h m none_yet) (length body) (length bytes) m
            (omega (
              arith,
              length-take_le (h.message_length - h.header_length) (drop h.header_length bytes),
              length-drop h.header_length bytes,
            ))
            (stored-IsRetryable body h m none_yet))
    ]

-- The decoder of the stream can be run again on a message without options.
pub decode-IsRetryable :
    (bytes : List ℕ) (m : Message)
    → m.options ≡ []
    → IsRetryable (λ k x. Coder.decode k bytes x) (length bytes) m
unfolding Coder.decode
decode-IsRetryable bytes m none_yet = elim (Result-cases (decode_header bytes)) [
  | inl (h, e) ↦
      same-IsRetryable _ (λ k x. decode_frame k bytes x h) (length bytes) m
        (λ k x. rw (e, Coder.decode) refl) (frame-IsRetryable bytes h m none_yet)
  | inr (inl (f, e)) ↦
      same-IsRetryable _ (λ k x. (x, err f)) (length bytes) m (λ k x. rw (e, Coder.decode) refl)
        (refused-IsRetryable (err f) (length bytes) m
          (subst (λ r. is_too_small r ≡ false) e (header-not_small bytes)))
  | inr (inr e) ↦
      same-IsRetryable _ (λ k x. (x, stuck)) (length bytes) m (λ k x. rw (e, Coder.decode) refl)
        (refused-IsRetryable stuck (length bytes) m refl)
]

-- With one place for an option at least in the empty message, the loop of decode reads from the stream
-- what the decoder reads into a message with a place for every byte.
pub decode-stream :
    (capacity : ℕ) (bytes : List ℕ) (m : Message)
    → m.options ≡ []
    → 0 < capacity
    → Decoding.decode Coder.decode capacity bytes m ≡ Coder.decode (suc (length bytes)) bytes m
decode-stream capacity bytes m none_yet h =
    decode-enough Coder.decode capacity bytes m (decode-IsRetryable bytes m none_yet) h
