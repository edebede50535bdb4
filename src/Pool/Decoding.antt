-- ===== src/Pool/Decoding.antt =====
-- message/pool/message.go: decode and UnmarshalWithDecoder. The options of a pooled message have some
-- capacity; when the decoder runs out of it, decode starts again with twice as many places.
pub mod Retry
pub mod Stream
pub mod Datagram
use go_coap.Message.Fault.{Result, stuck, is_too_small}
use go_coap.Message.Record.{Message}
use go_coap.Prelude.{if◌then◌else◌, Bool-cases}
use go_coap.Prelude.{length}
use go_coap.Prelude.{ℕ, zero, suc, ◌+◌, ◌*◌, ◌≤◌, ◌<◌}
use go_coap.Prelude.{◌≡◌, refl, inl, inr, true, false}
use go_coap.Prelude.{List, [], arith}

-- Decoder.Decode: the capacity of m.Options, the bytes and the message
abbrev pub Decoder : Type 0
Decoder = ℕ → List ℕ → Message → Message × Result ℕ

abbrev pub cleared : Message → Message
cleared m = record m { options = [] }

-- The loop of decode, on fuel.
unfoldable pub decode_loop : ℕ → Decoder → ℕ → List ℕ → Message → Message × Result ℕ
decode_loop zero decoder capacity bytes m = (m, stuck)
decode_loop (suc fuel) decoder capacity bytes m =
    let r = decoder capacity bytes m in
    let again = decode_loop fuel decoder (length r.0.options * 2) bytes (cleared r.0) in
    if is_too_small r.1 then again else r

-- decode: each round but the last stores an option more, so `length bytes + 1` rounds are enough.
unfoldable pub decode : Decoder → ℕ → List ℕ → Message → Message × Result ℕ
decode decoder capacity bytes m = decode_loop (suc (length bytes)) decoder capacity bytes m

-- A decoder at given bytes, by the capacity and the message.
abbrev pub Attempts : Type 0
Attempts = ℕ → Message → Message × Result ℕ

-- What decode relies on at `n` bytes: an attempt runs out of places only when all are taken, by no
-- more than `n` options, and reads the same from a message it has failed on; two attempts that had
-- enough places agree.
pub record IsRetryable (attempt : Attempts) (n : ℕ) (m : Message) : Type 0 where
  pub places_taken :
      (capacity : ℕ)
      → is_too_small (attempt capacity m).1 ≡ true
      → capacity ≤ length (attempt capacity m).0.options
  pub options_le :
      (capacity : ℕ)
      → is_too_small (attempt capacity m).1 ≡ true
      → length (attempt capacity m).0.options ≤ n
  pub reads_again :
      (capacity k : ℕ)
      → is_too_small (attempt capacity m).1 ≡ true
      → attempt k (cleared (attempt capacity m).0) ≡ attempt k m
  pub agrees :
      (capacity k : ℕ)
      → is_too_small (attempt capacity m).1 ≡ false
      → is_too_small (attempt k m).1 ≡ false
      → attempt capacity m ≡ attempt k m

module _ (decoder : Decoder) (bytes : List ℕ) (m : Message)
    (law : IsRetryable (λ k x. decoder k bytes x) (length bytes) m) where
  places_enough : is_too_small (decoder (suc (length bytes)) bytes m).1 ≡ false
  places_enough = elim (Bool-cases (is_too_small (decoder (suc (length bytes)) bytes m).1)) [
    | inl e ↦ absurd (omega (arith, law.places_taken _ e, law.options_le _ e))
    | inr e ↦ e
  ]

  -- A round that had places enough is the last one.
  last_round :
      (fuel capacity : ℕ) (n : Message)
      → decoder capacity bytes n ≡ decoder capacity bytes m
      → is_too_small (decoder capacity bytes m).1 ≡ false
      → decode_loop (suc fuel) decoder capacity bytes n ≡ decoder (suc (length bytes)) bytes m
  unfolding decode_loop
  last_round fuel capacity n same e =
      rw (decode_loop, same, e) (law.agrees capacity (suc (length bytes)) e places_enough)

  -- The loop may go on from any message that the decoder takes for `m`.
  loop-eq :
      (fuel capacity : ℕ) (n : Message)
      → ((k : ℕ) → decoder k bytes n ≡ decoder k bytes m)
      → 0 < capacity
      → length bytes < fuel + capacity
      → decode_loop (suc fuel) decoder capacity bytes n ≡ decoder (suc (length bytes)) bytes m
  unfolding decode_loop
  loop-eq zero capacity n same h room =
      elim (Bool-cases (is_too_small (decoder capacity bytes m).1)) [
        | inr e ↦ last_round zero capacity n (same capacity) e
        | inl e ↦ absurd (omega (arith, law.places_taken _ e, law.options_le _ e))
      ]
  loop-eq (suc fuel) capacity n same h room =
      elim (Bool-cases (is_too_small (decoder capacity bytes m).1)) [
        | inr e ↦ last_round (suc fuel) capacity n (same capacity) e
        | inl e ↦
            rw (decode_loop, same capacity, e)
              (loop-eq fuel (length (decoder capacity bytes m).0.options * 2)
                (cleared (decoder capacity bytes m).0) (λ k. law.reads_again capacity k e)
                (omega (arith, law.places_taken _ e)) (omega (arith, law.places_taken _ e)))
      ]

-- With a decoder that can start again by IsRetryable, and a message whose options have one place at
-- least, decode returns what the decoder returns on a message with a place for every byte.
pub decode-enough :
    (decoder : Decoder) (capacity : ℕ) (bytes : List ℕ) (m : Message)
    → IsRetryable (λ k x. decoder k bytes x) (length bytes) m
    → 0 < capacity
    → decode decoder capacity bytes m ≡ decoder (suc (length bytes)) bytes m
unfolding decode
decode-enough decoder capacity bytes m law h =
    loop-eq decoder bytes m law (length bytes) capacity m (λ k. refl) h (omega arith)
