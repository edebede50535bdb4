-- ===== src/Tcp/Coder/Frame.antt =====
-- The header of a frame of tcp/coder/coder.go, written and read.
use go_coap.Message.Fault.{Result, ok}
use go_coap.Message.Record.{Message}
use go_coap.Tcp.Coder.{
  message_max_len, get_header, first_byte, header_bytes, MessageHeader, read_ext_length,
  finish_header, decode_header,
}
use go_coap.Prelude.{ltb, ◌==◌, le→not_ltb, ==→eq, all_below, all_below_sound}
use go_coap.Prelude.{length, length-append, take-append}
use go_coap.Prelude.{ℕ, ◌+◌, ◌-◌, ◌*◌, ◌/◌, ◌%◌, ◌^◌, ◌≤◌, ◌<◌}
use go_coap.Prelude.{◌≡◌, refl, ap, ap₂, true, false}
use go_coap.Prelude.{List, ◌∷◌, ◌++◌, append_assoc, arith}

get_header-nibble : (n : ℕ) → (get_header n).0 < 16
unfolding get_header
get_header-nibble n = ground arith

ext_length-read :
    (n : ℕ) (rest : List ℕ)
    → n < message_max_len
    → read_ext_length (get_header n).0 ((get_header n).1 ++ rest)
      ≡ ok (n, length (get_header n).1, rest)
unfolding get_header read_ext_length
ext_length-read n rest h = ground arith

first_byte_table : all_below 9 (λ k. all_below 16 (λ n. first_byte k n == n * 16 + k)) ≡ true
unfolding all_below first_byte
first_byte_table = refl

pub first_byte_lem : (k n : ℕ) → k ≤ 8 → n < 16 → first_byte k n ≡ n * 16 + k
first_byte_lem k n hk hn = ==→eq _ _ (
    all_below_sound 16 (λ n. first_byte k n == n * 16 + k) n
      (all_below_sound 9 (λ k. all_below 16 (λ n. first_byte k n == n * 16 + k)) k first_byte_table
        (omega arith))
      hn)

pub length-header :
    (m : Message) (n : ℕ) → length (header_bytes m n) ≡ 2 + length (get_header n).1 + length m.token
unfolding header_bytes
length-header m n = omega (arith, length-append (get_header n).1 ((m.code % 256) ∷ m.token))

header-finish :
    (m : Message) (n e : ℕ) (rest : List ℕ)
    → length m.token ≤ 8
    → m.code < 256
    → 2 + e + length m.token + n < 2 ^ 32
    → finish_header (length m.token) (n, e, (m.code % 256) ∷ (m.token ++ rest))
      ≡ ok (record {
        token = m.token;
        header_length = 2 + e + length m.token;
        message_length = 2 + e + length m.token + n;
        code = m.code;
      })
unfolding finish_header
header-finish m n e rest ht hc fits =
    let small : ltb (2 ^ 32 - 1) ((1 + e) + 1 + length m.token + n) ≡ false =
      le→not_ltb _ _ (omega arith) in
    let whole : ltb (length (m.token ++ rest)) (length m.token) ≡ false =
      le→not_ltb _ _ (omega (arith, length-append m.token rest)) in
    let code : m.code % 256 ≡ m.code = omega arith in
    rw (small, whole, code, take-append m.token rest)
      (ap₂ {C = Result MessageHeader}
        (λ a b.
          ok (record { token = m.token; header_length = a; message_length = b; code = m.code }))
        (omega arith) (omega arith))

header-shape :
    (m : Message) (n : ℕ) (rest : List ℕ)
    → header_bytes m n ++ rest
      ≡ first_byte (length m.token) (get_header n).0
        ∷ ((get_header n).1 ++ ((m.code % 256) ∷ (m.token ++ rest)))
unfolding header_bytes
header-shape m n rest =
    ap (λ t. first_byte (length m.token) (get_header n).0 ∷ t)
      (append_assoc (get_header n).1 ((m.code % 256) ∷ m.token) rest)

length-extension : (n : ℕ) → length (get_header n).1 ≤ 4
unfolding get_header
length-extension n = ground arith

-- DecodeHeader reads back the header that Encode writes for a message whose options and payload take
-- `n` bytes, whatever follows it.
pub decode_header-header :
    (m : Message) (n : ℕ) (rest : List ℕ)
    → length m.token ≤ 8
    → m.code < 256
    → n < message_max_len
    → decode_header (header_bytes m n ++ rest)
      ≡ ok (record {
        token = m.token;
        header_length = length (header_bytes m n);
        message_length = length (header_bytes m n) + n;
        code = m.code;
      })
unfolding decode_header
decode_header-header m n rest ht hc hn =
    let nib = (get_header n).0 in
    let e = length (get_header n).1 in
    let byte = first_byte_lem (length m.token) nib ht (get_header-nibble n) in
    let low : first_byte (length m.token) nib % 16 ≡ length m.token =
      omega (arith, byte, ht, get_header-nibble n) in
    let high : first_byte (length m.token) nib / 16 ≡ nib = omega (arith, byte, ht) in
    let fits : 2 + e + length m.token + n < 2 ^ 32 = omega (arith, length-extension n) in
    rw (
      header-shape m n rest,
      decode_header,
      low,
      high,
      le→not_ltb 8 (length m.token) ht,
      ext_length-read n ((m.code % 256) ∷ (m.token ++ rest)) hn,
      header-finish m n e rest ht hc fits,
      length-header m n,
    )
