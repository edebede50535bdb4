-- ===== src/Pool/Decoding/Retry.antt =====
-- message/pool/message.go: which decoders decode can run again.
use mathlib.Core.Path.{subst}
use go_coap.Message.Fault.{Result, is_too_small}
use go_coap.Message.Record.{Message}
use go_coap.Pool.Decoding.{Attempts, IsRetryable, cleared}
use go_coap.Prelude.{length, take, drop, length-append, take-append-drop}
use go_coap.Prelude.{ℕ, ◌≤◌}
use go_coap.Prelude.{◌≡◌, refl, sym, ap, false}
use go_coap.Prelude.{List, [], arith}

-- An attempt that fails for another reason is the only one.
pub refused-IsRetryable :
    (r : Result ℕ) (n : ℕ) (m : Message) → is_too_small r ≡ false → IsRetryable (λ k x. (x, r)) n m
refused-IsRetryable r n m h = record {
  places_taken = λ c e. cc (e, h);
  options_le = λ c e. cc (e, h);
  reads_again = λ c k e. cc (e, h);
  agrees = λ c k e e2. refl;
}

pub length-take_le : (n : ℕ) (bytes : List ℕ) → length (take n bytes) ≤ length bytes
length-take_le n bytes =
    omega (arith, ap length (take-append-drop n bytes), length-append (take n bytes) (drop n bytes))

pub cleared-eq : (m : Message) → m.options ≡ [] → cleared m ≡ m
cleared-eq m h = ap (λ os. record m { options = os }) (sym h)

-- Two decoders that do the same can both be run again.
pub same-IsRetryable :
    (f g : Attempts) (n : ℕ) (m : Message)
    → ((k : ℕ) (x : Message) → f k x ≡ g k x)
    → IsRetryable g n m
    → IsRetryable f n m
same-IsRetryable f g n m same = subst (λ a. IsRetryable a n m) (λ i k x. sym (same k x) i)

pub wider-IsRetryable :
    (f : Attempts) (n k : ℕ) (m : Message) → n ≤ k → IsRetryable f n m → IsRetryable f k m
wider-IsRetryable f n k m h law = record {
  places_taken = law.places_taken;
  options_le = λ c e. omega (arith, law.options_le c e);
  reads_again = law.reads_again;
  agrees = law.agrees;
}
