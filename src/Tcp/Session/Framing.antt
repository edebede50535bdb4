-- ===== src/Tcp/Session/Framing.antt =====
-- tcp/client/session.go: decodeMessageFromBuffer on a buffer that grows.
use mathlib.Core.Path.{subst}
use go_coap.Message.Fault.{Result, ok, err, stuck, short_read, ◌>>=◌}
use go_coap.Tcp.Coder.{
  MessageHeader, ExtLength, decode_header, read_ext_length, finish_header, code_and_token,
}
use go_coap.Tcp.Session.{seek_loop, seek_buffer}
use go_coap.Prelude.{ltb, ◌==◌, le→not_ltb, ==→eq, Bool-cases}
use go_coap.Prelude.{length, take, drop, length-append, length-drop}
use go_coap.Prelude.{ℕ, zero, suc, ◌+◌, ◌-◌, ◌/◌, ◌%◌, ◌^◌, ◌≤◌, ◌<◌, min}
use go_coap.Prelude.{◌≡◌, refl, sym, ap, ◌∙◌, ◌≢◌, ◌⊎◌, inl, inr, false}
use go_coap.Prelude.{List, [], ◌∷◌, ◌++◌, arith}

pub take-append_le {ℓ} :
    {A : Type ℓ} (n : ℕ) (xs ys : List A) → n ≤ length xs → take n (xs ++ ys) ≡ take n xs
take-append_le zero xs ys h = refl
take-append_le (suc n) [] ys h = absurd (omega arith)
take-append_le (suc n) (x ∷ xs) ys h = ap (λ t. x ∷ t) (take-append_le n xs ys (omega arith))

pub drop-append_le {ℓ} :
    {A : Type ℓ} (n : ℕ) (xs ys : List A) → n ≤ length xs → drop n (xs ++ ys) ≡ drop n xs ++ ys
drop-append_le zero xs ys h = refl
drop-append_le (suc n) [] ys h = absurd (omega arith)
drop-append_le (suc n) (x ∷ xs) ys h = drop-append_le n xs ys (omega arith)

drop-nil {ℓ} : {A : Type ℓ} (k : ℕ) → drop {A = A} k [] ≡ []
drop-nil zero = refl
drop-nil (suc k) = refl

drop-drop {ℓ} : {A : Type ℓ} (n k : ℕ) (xs : List A) → drop k (drop n xs) ≡ drop (n + k) xs
drop-drop zero k xs = ap (λ j. drop j xs) (omega arith)
drop-drop (suc n) k [] = drop-nil k ∙ sym (drop-nil (suc n + k))
drop-drop (suc n) k (x ∷ xs) =
    let same : suc n + k ≡ suc (n + k) = omega arith in
    drop-drop n k xs ∙ sym (ap (λ j. drop j (x ∷ xs)) same)

pub ltb-false-le : (a b : ℕ) → ltb a b ≡ false → b ≤ a
ltb-false-le a b e = ground arith

-- The loop of seekBufferToNextMessage ends when the buffer holds what is to be skipped.
seek_loop-drop :
    (fuel n : ℕ) (buffer : List ℕ)
    → n < fuel
    → n ≤ length buffer
    → seek_loop fuel n buffer ≡ ok (drop n buffer)
unfolding seek_loop
seek_loop-drop zero n buffer h fits = absurd (omega arith)
seek_loop-drop (suc fuel) n buffer h fits = elim (Bool-cases (n == 0)) [
  | inl e ↦ rw (seek_loop, ==→eq _ _ e) refl
  | inr e ↦
      let k = min (min 4096 n) (length buffer) in
      let small : k ≤ n = omega arith in
      rw (seek_loop, e)
        (seek_loop-drop fuel (n - k) (drop k buffer) (ground arith)
            (omega (arith, length-drop k buffer))
          ∙ ap ok (drop-drop k (n - k) buffer ∙ ap (λ j. drop j buffer) (omega arith)))
]

drop-all {ℓ} : {A : Type ℓ} (xs : List A) → drop (length xs) xs ≡ []
drop-all [] = refl
drop-all (x ∷ xs) = drop-all xs

pub seek_buffer-drop :
    (n : ℕ) (buffer : List ℕ) → n ≤ length buffer → seek_buffer n buffer ≡ ok (drop n buffer)
unfolding seek_buffer
seek_buffer-drop n buffer h = elim (Bool-cases (n == length buffer)) [
  | inl e ↦ rw (e, ==→eq _ _ e, drop-all buffer) refl
  | inr e ↦ rw e (seek_loop-drop (suc n) n buffer (omega arith) h)
]

-- What reads from the front of a buffer: it is short of bytes, or more bytes change nothing.
abbrev Settled {ℓ} : {A : Type ℓ} → Result A → Result A → Type ℓ
Settled r r' = (r ≡ err short_read) ⊎ (r' ≡ r)

code-Settled :
    (tkl ext total : ℕ) (bytes more : List ℕ)
    → Settled (code_and_token tkl ext total bytes) (code_and_token tkl ext total (bytes ++ more))
code-Settled tkl ext total [] more = inl refl
code-Settled tkl ext total (code ∷ rest) more = elim (Bool-cases (ltb (length rest) tkl)) [
  | inl e ↦ inl (rw e refl)
  | inr e ↦ inr (
      rw
        (
          e,
          le→not_ltb (length (rest ++ more)) tkl
              (omega (arith, length-append rest more, ltb-false-le (length rest) tkl e)),
          take-append_le tkl rest more (ltb-false-le (length rest) tkl e),
        )
        refl)
]

finish-Settled :
    (tkl v k : ℕ) (rest more : List ℕ)
    → Settled (finish_header tkl (v, k, rest)) (finish_header tkl (v, k, rest ++ more))
unfolding finish_header
finish-Settled tkl v k rest more = elim (Bool-cases (ltb (2 ^ 32 - 1) ((1 + k) + 1 + tkl + v))) [
  | inl e ↦ inr (rw e refl)
  | inr e ↦ rw e (code-Settled tkl k ((1 + k) + 1 + tkl + v) rest more)
]

-- The extended length is short of bytes, or it leaves more when there are more.
abbrev Extended : Result ExtLength → Result ExtLength → List ℕ → Type 0
Extended r r' more =
    (r ≡ err short_read)
    ⊎ ((v : ℕ) × (k : ℕ) × (rest : List ℕ) × (r ≡ ok (v, k, rest)) × (r' ≡ ok (v, k, rest ++ more)))

ext-Extended :
    (nib : ℕ) (bytes more : List ℕ)
    → Extended (read_ext_length nib bytes) (read_ext_length nib (bytes ++ more)) more
unfolding read_ext_length
ext-Extended nib bytes more = elim (Bool-cases (ltb nib 13)) [
  | inl e ↦ rw e (inr (nib, 0, bytes, refl, refl))
  | inr e ↦ elim (Bool-cases (nib == 13)) [
    | inl e2 ↦ rw (e, e2) (one bytes)
    | inr e2 ↦ elim (Bool-cases (nib == 14)) [
      | inl e3 ↦ rw (e, e2, e3) (two bytes)
      | inr e3 ↦ rw (e, e2, e3) (four bytes)
    ]
  ]
]
  where
    one :
        (bytes : List ℕ)
        → Extended (read_ext_length 13 bytes) (read_ext_length 13 (bytes ++ more)) more
    one [] = inl refl
    one (a ∷ bytes) = inr (_, _, _, refl, refl)

    two :
        (bytes : List ℕ)
        → Extended (read_ext_length 14 bytes) (read_ext_length 14 (bytes ++ more)) more
    two [] = inl refl
    two (a ∷ []) = inl refl
    two (a ∷ b ∷ bytes) = inr (_, _, _, refl, refl)

    four :
        (bytes : List ℕ)
        → Extended (read_ext_length 15 bytes) (read_ext_length 15 (bytes ++ more)) more
    four [] = inl refl
    four (a ∷ []) = inl refl
    four (a ∷ b ∷ []) = inl refl
    four (a ∷ b ∷ c ∷ []) = inl refl
    four (a ∷ b ∷ c ∷ d ∷ bytes) = inr (_, _, _, refl, refl)

pub header-Settled :
    (bytes more : List ℕ) → Settled (decode_header bytes) (decode_header (bytes ++ more))
unfolding decode_header
header-Settled [] more = inl refl
header-Settled (b0 ∷ bytes) more = elim (Bool-cases (ltb 8 (b0 % 16))) [
  | inl e ↦ inr (rw e refl)
  | inr e ↦ rw e (elim (ext-Extended (b0 / 16) bytes more) [
    | inl e2 ↦ inl (rw e2 refl)
    | inr (v, k, rest, e2, e3) ↦ rw (e2, e3) (finish-Settled (b0 % 16) v k rest more)
  ])
]

-- The lengths that a header gives: its own, of two bytes at least, and that of the message.
pub record HasLengths (h : MessageHeader) : Type 0 where
  pub two_le : 2 ≤ h.header_length
  pub header_le : h.header_length ≤ h.message_length
  pub message_lt : h.message_length < 2 ^ 32

abbrev Lengths : Result MessageHeader → Type 0
Lengths (ok h) = HasLengths h
Lengths (err e) = Unit {0}
Lengths stuck = ⊥

code-Lengths :
    (tkl ext n : ℕ) (bytes : List ℕ)
    → (1 + ext) + 1 + tkl + n < 2 ^ 32
    → Lengths (code_and_token tkl ext ((1 + ext) + 1 + tkl + n) bytes)
code-Lengths tkl ext n [] h = tt
code-Lengths tkl ext n (code ∷ rest) h = elim (Bool-cases (ltb (length rest) tkl)) [
  | inl e ↦ rw e tt
  | inr e ↦ rw e (record { two_le = omega arith; header_le = omega arith; message_lt = h })
]

finish-Lengths : (tkl : ℕ) (e : ExtLength) → Lengths (finish_header tkl e)
unfolding finish_header
finish-Lengths tkl (n, ext, bytes) =
    elim (Bool-cases (ltb (2 ^ 32 - 1) ((1 + ext) + 1 + tkl + n))) [
      | inl e ↦ rw e tt
      | inr e ↦ rw e (
          code-Lengths tkl ext n bytes
            (omega (arith, ltb-false-le (2 ^ 32 - 1) ((1 + ext) + 1 + tkl + n) e)))
    ]

header-Lengths : (bytes : List ℕ) → Lengths (decode_header bytes)
unfolding decode_header
header-Lengths [] = tt
header-Lengths (b0 ∷ bytes) = elim (Bool-cases (ltb 8 (b0 % 16))) [
  | inl e ↦ rw e tt
  | inr e ↦ rw e (bound (read_ext_length (b0 / 16) bytes) (ext-Extended (b0 / 16) bytes []))
]
  where
    bound :
        (r : Result ExtLength) {r' : Result ExtLength}
        → Extended r r' []
        → Lengths (r >>= finish_header (b0 % 16))
    bound (ok e) x = finish-Lengths (b0 % 16) e
    bound (err e) x = tt
    bound stuck (inl e) = cc e
    bound stuck (inr (v, k, rest, e, e2)) = cc e

pub header-HasLengths :
    (bytes : List ℕ) (h : MessageHeader) → decode_header bytes ≡ ok h → HasLengths h
header-HasLengths bytes h e = subst Lengths e (header-Lengths bytes)

pub header-not_stuck : (bytes : List ℕ) → decode_header bytes ≢ stuck
header-not_stuck bytes e = subst Lengths e (header-Lengths bytes)
