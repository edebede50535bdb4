-- ===== src/Pool/Decoding/Datagram.antt =====
-- udp/coder/coder.go under the loop of message/pool/message.go.
use go_coap.Message.Fault.{Result, ok, err, stuck, is_too_small}
use go_coap.Message.Defs.{CoapOption, coap_option_defs}
use go_coap.Message.Record.{Message}
use go_coap.Message.Unmarshal.{unmarshal_options}
use go_coap.Message.Capacity.{unmarshal_options-Full, unmarshal_options-agrees}
use go_coap.Pool.Decoding.{IsRetryable, decode-enough}
use go_coap.Pool.Decoding
use go_coap.Pool.Decoding.Retry.{refused-IsRetryable, wider-IsRetryable}
use go_coap.Udp.Coder.{decode_token, decode_body, store_body}
use go_coap.Udp.Coder
use go_coap.Prelude.{ltb, ◌==◌, Bool-cases}
use go_coap.Prelude.{length, take, drop, length-drop}
use go_coap.Prelude.{ℕ, suc, ◌/◌, ◌%◌, ◌<◌}
use go_coap.Prelude.{◌≡◌, refl, sym, ap, ◌∙◌, inl, inr, Bool, true, false}
use go_coap.Prelude.{List, [], ◌∷◌, arith}

module _ (n : ℕ) (token bytes : List ℕ) (m : Message) where
  stored-small :
      (r : List CoapOption × Result ℕ)
      → is_too_small (store_body n token bytes m r).1 ≡ is_too_small r.1
  unfolding store_body
  stored-small (os, ok k) = refl
  stored-small (os, err e) = refl
  stored-small (os, stuck) = refl

  stored-options :
      (r : List CoapOption × Result ℕ)
      → is_too_small r.1 ≡ true
      → (store_body n token bytes m r).0.options ≡ r.0
  unfolding store_body
  stored-options (os, ok k) e = cc e
  stored-options (os, err f) e = refl
  stored-options (os, stuck) e = cc e

  -- The decoder writes the header's fields before it reads the options: an attempt starts from `m`.
  body-IsRetryable :
      (x : Message) → IsRetryable (λ k y. decode_body k n token bytes m) (length bytes) x
  unfolding decode_body
  body-IsRetryable x = record {
    places_taken = λ c e.
        rw (stored-options (unmarshal_options coap_option_defs c [] bytes) (small c true e))
          (unmarshal_options-Full coap_option_defs c bytes (small c true e)).0;
    options_le = λ c e.
        rw (stored-options (unmarshal_options coap_option_defs c [] bytes) (small c true e))
          (unmarshal_options-Full coap_option_defs c bytes (small c true e)).1;
    reads_again = λ c k e. refl;
    agrees = λ c k e e2.
        ap (store_body n token bytes m) (
          unmarshal_options-agrees coap_option_defs c k bytes (small c false e) (small k false e2));
  }
    where
      small :
          (k : ℕ) (b : Bool)
          → is_too_small
              (store_body n token bytes m (unmarshal_options coap_option_defs k [] bytes)).1
            ≡ b
          → is_too_small (unmarshal_options coap_option_defs k [] bytes).1 ≡ b
      small k b e = sym (stored-small (unmarshal_options coap_option_defs k [] bytes)) ∙ e

-- An attempt that does not look at the message.
fixed-IsRetryable :
    (r : Message × Result ℕ) (n : ℕ) (m : Message)
    → is_too_small r.1 ≡ false
    → IsRetryable (λ k x. r) n m
fixed-IsRetryable r n m h = record {
  places_taken = λ c e. cc (e, h);
  options_le = λ c e. cc (e, h);
  reads_again = λ c k e. cc (e, h);
  agrees = λ c k e e2. refl;
}

token-IsRetryable :
    (n token_len : ℕ) (bytes : List ℕ) (m x : Message)
    → IsRetryable (λ k y. decode_token k n token_len bytes m) (length bytes) x
unfolding decode_token
token-IsRetryable n token_len bytes m x = elim (Bool-cases (ltb 8 token_len)) [
  | inl e ↦ rw e (fixed-IsRetryable _ (length bytes) x refl)
  | inr e ↦ elim (Bool-cases (ltb (length bytes) token_len)) [
    | inl e2 ↦ rw (e, e2) (fixed-IsRetryable _ (length bytes) x refl)
    | inr e2 ↦
        rw (e, e2)
          (wider-IsRetryable _ (length (drop token_len bytes)) (length bytes) x
            (omega (arith, length-drop token_len bytes))
            (body-IsRetryable n (take token_len bytes) (drop token_len bytes) m x))
  ]
]

-- The decoder of datagrams can be run again, on any message.
pub decode-IsRetryable :
    (bytes : List ℕ) (m : Message) → IsRetryable (λ k x. Coder.decode k bytes x) (length bytes) m
unfolding Coder.decode
decode-IsRetryable [] m = refused-IsRetryable _ _ m refl
decode-IsRetryable (b0 ∷ []) m = refused-IsRetryable _ _ m refl
decode-IsRetryable (b0 ∷ b1 ∷ []) m = refused-IsRetryable _ _ m refl
decode-IsRetryable (b0 ∷ b1 ∷ b2 ∷ []) m = refused-IsRetryable _ _ m refl
decode-IsRetryable (b0 ∷ b1 ∷ b2 ∷ b3 ∷ bytes) m = elim (Bool-cases (b0 / 64 == 1)) [
  | inl e ↦ rw e (
      wider-IsRetryable _ (length bytes) (length (b0 ∷ b1 ∷ b2 ∷ b3 ∷ bytes)) m (omega arith)
        (token-IsRetryable (length (b0 ∷ b1 ∷ b2 ∷ b3 ∷ bytes)) (b0 % 16) bytes _ m))
  | inr e ↦ rw e (refused-IsRetryable _ _ m refl)
]

-- With one place for an option at least in the message, the loop of decode reads from a datagram what
-- the decoder reads into a message with a place for every byte.
pub decode-grown :
    (capacity : ℕ) (bytes : List ℕ) (m : Message)
    → 0 < capacity
    → Decoding.decode Coder.decode capacity bytes m ≡ Coder.decode (suc (length bytes)) bytes m
decode-grown capacity bytes m h =
    decode-enough Coder.decode capacity bytes m (decode-IsRetryable bytes m) h
