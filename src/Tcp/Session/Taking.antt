-- ===== src/Tcp/Session/Taking.antt =====
-- tcp/client/session.go: what decodeMessageFromBuffer takes from the front of its buffer.
use go_coap.Message.Fault.{Fault, Result, ok, err, stuck, short_read}
use go_coap.Message.Record.{Message}
use go_coap.Message.Defs.{CoapOption}
use go_coap.Message.Reading.{Result-cases, unmarshal_options-ends}
use go_coap.Message.Unmarshal.{unmarshal_options}
use go_coap.Pool.Decoding
use go_coap.Pool.Decoding.Stream.{decode-stream}
use go_coap.Tcp.Coder.{
  MessageHeader, decode_header, decode_frame, decode_with_header, store_body, option_defs_for,
}
use go_coap.Tcp.Coder
use go_coap.Tcp.Session.{
  acquired, Decoded, waiting, hung, failed, ready, after_unmarshal, decode_sized, header_failed,
  is_short_read, decode_message_from_buffer,
}
use go_coap.Tcp.Session.Framing.{
  take-append_le, drop-append_le, ltb-false-le, seek_buffer-drop, header-Settled, header-HasLengths,
  header-not_stuck,
}
use go_coap.Prelude.{ltb, le→not_ltb, Bool-cases}
use go_coap.Prelude.{length, take, drop, length-append, length-drop, length-take, take-append-drop}
use go_coap.Prelude.{ℕ, suc, ◌+◌, ◌-◌, ◌%◌, ◌^◌, ◌≤◌, ◌<◌}
use go_coap.Prelude.{◌≡◌, refl, sym, ap, ◌∙◌, ◌≢◌, ◌⊎◌, inl, inr, false}
use go_coap.Prelude.{List, ◌++◌, arith}

-- A decoder that accepts a message has read its options, its marker and its payload: all of `bytes`.
count-store_body :
    (bytes : List ℕ) (h : MessageHeader) (m : Message) (r : List CoapOption × Result ℕ) (n : ℕ)
    → ((proc : ℕ) → r.1 ≡ ok proc → proc ≤ length bytes)
    → (store_body bytes h m r).1 ≡ ok n
    → n ≡ (h.header_length + length bytes) % 2 ^ 32
unfolding store_body
count-store_body bytes h m (os, err e) n within is = cc is
count-store_body bytes h m (os, stuck) n within is = cc is
count-store_body bytes h m (os, ok proc) n within is =
    let le = within proc refl in
    let total : h.header_length + proc + length (drop proc bytes) ≡ h.header_length + length bytes =
      omega (arith, length-drop proc bytes) in
    let same : n ≡ (h.header_length + proc + length (drop proc bytes)) % 2 ^ 32 = cc is in
    same ∙ ap (λ k. k % 2 ^ 32) total

unmarshal-le :
    (code capacity : ℕ) (os : List CoapOption) (bytes : List ℕ) (proc : ℕ)
    → (unmarshal_options (option_defs_for code) capacity os bytes).1 ≡ ok proc
    → proc ≤ length bytes
unmarshal-le code capacity os bytes proc e =
    elim (unmarshal_options-ends (option_defs_for code) capacity os bytes) [
      | inl (f, e2) ↦ cc (e, e2)
      | inr (n, e2, h) ↦ let same : n ≡ proc = cc (e, e2) in omega (arith, same, h)
    ]

-- From as many bytes as the header says, the decoder reads all.
count-decode :
    (capacity : ℕ) (bytes : List ℕ) (m : Message) (h : MessageHeader) (n : ℕ)
    → decode_header bytes ≡ ok h
    → length bytes ≡ h.message_length
    → (Coder.decode capacity bytes m).1 ≡ ok n
    → n ≡ length bytes
unfolding Coder.decode decode_frame decode_with_header
count-decode capacity bytes m h n e whole is =
    let v = header-HasLengths bytes h e in
    let body = take (h.message_length - h.header_length) (drop h.header_length bytes) in
    let enough : ltb (length bytes % 2 ^ 32) h.message_length ≡ false =
      le→not_ltb _ _ (omega (arith, whole, v.message_lt)) in
    let span : length body ≡ h.message_length - h.header_length =
      length-take (h.message_length - h.header_length) (drop h.header_length bytes)
        (omega (arith, whole, length-drop h.header_length bytes)) in
    let read : (decode_with_header capacity body h m).1 ≡ ok n =
      rw (e, Coder.decode, enough) at is in
    count-store_body body h m (unmarshal_options (option_defs_for h.code) capacity m.options body) n
      (unmarshal-le h.code capacity m.options body) read
    ∙ omega (arith, span, whole, v.header_le, v.message_lt)

short_header-not_ok :
    (capacity : ℕ) (bytes : List ℕ) (m : Message) (n : ℕ)
    → decode_header bytes ≡ err short_read
    → (Coder.decode capacity bytes m).1 ≢ ok n
unfolding Coder.decode
short_header-not_ok capacity bytes m n e is =
    let no : err short_read ≡ ok n = rw (e, Coder.decode) at is in cc no

-- The outcome of a buffer when more bytes follow it.
abbrev pub grow : List ℕ → Decoded → Decoded
grow more (ready m rest) = ready m (rest ++ more)
grow more waiting = waiting
grow more hung = hung
grow more (failed e) = failed e

-- An outcome whose message, if there is one, leaves fewer bytes than `n`.
abbrev pub Shrinks : ℕ → Decoded → Type 0
Shrinks n (ready m rest) = length rest < n
Shrinks n waiting = Unit {0}
Shrinks n hung = Unit {0}
Shrinks n (failed e) = Unit {0}

taken :
    (buffer more : List ℕ) (k : ℕ) (r : Message × Result ℕ)
    → 0 < k
    → k ≤ length buffer
    → ((n : ℕ) → r.1 ≡ ok n → n ≡ k)
    → (after_unmarshal (buffer ++ more) r ≡ grow more (after_unmarshal buffer r))
      × Shrinks (length buffer) (after_unmarshal buffer r)
taken buffer more k (m, err e) some_byte h is = (refl, tt)
taken buffer more k (m, stuck) some_byte h is = (refl, tt)
taken buffer more k (m, ok n) some_byte h is =
    let same = is n refl in
    let le : n ≤ length buffer = omega (arith, same, h) in
    rw
      (
        seek_buffer-drop n buffer le,
        seek_buffer-drop n (buffer ++ more) (omega (arith, le, length-append buffer more)),
        drop-append_le n buffer more le,
      )
      (refl, omega (arith, length-drop n buffer, same, some_byte, le))

module _ (max_size capacity : ℕ) (room : 0 < capacity) where
  decoded-all :
      (buffer : List ℕ) (h : MessageHeader)
      → decode_header buffer ≡ ok h
      → h.message_length ≤ length buffer
      → (n : ℕ)
      → (Decoding.decode Coder.decode capacity (take h.message_length buffer) acquired).1 ≡ ok n
      → n ≡ h.message_length
  decoded-all buffer h e le n is =
      let front = take h.message_length buffer in
      let len : length front ≡ h.message_length = length-take h.message_length buffer le in
      let read : (Coder.decode (suc (length front)) front acquired).1 ≡ ok n =
        rw (decode-stream capacity front acquired refl room) at is in
      elim (header-Settled front (drop h.message_length buffer)) [
        | inl short ↦ absurd (short_header-not_ok (suc (length front)) front acquired n short read)
        | inr same ↦
            let header : decode_header front ≡ ok h =
              sym same ∙ ap decode_header (take-append-drop h.message_length buffer) ∙ e in
            count-decode (suc (length front)) front acquired h n header len read ∙ len
      ]

  sized-grows :
      (buffer more : List ℕ) (h : MessageHeader)
      → decode_header buffer ≡ ok h
      → length (buffer ++ more) < 2 ^ 32
      → ((decode_sized max_size capacity buffer h ≡ waiting)
          ⊎ (decode_sized max_size capacity (buffer ++ more) h
              ≡ grow more (decode_sized max_size capacity buffer h)))
        × Shrinks (length buffer) (decode_sized max_size capacity buffer h)
  unfolding decode_sized
  sized-grows buffer more h e fits = elim (Bool-cases (ltb max_size h.message_length)) [
    | inl e2 ↦ rw e2 (inr refl, tt)
    | inr e2 ↦ elim (Bool-cases (ltb (length buffer % 2 ^ 32) h.message_length)) [
      | inl e3 ↦ rw (e2, e3) (inl refl, tt)
      | inr e3 ↦
          let v = header-HasLengths buffer h e in
          let whole = length-append buffer more in
          let le : h.message_length ≤ length buffer =
            omega (arith, ltb-false-le (length buffer % 2 ^ 32) h.message_length e3, fits, whole) in
          let enough : ltb (length (buffer ++ more) % 2 ^ 32) h.message_length ≡ false =
            le→not_ltb _ _ (omega (arith, fits, whole, le)) in
          let r = Decoding.decode Coder.decode capacity (take h.message_length buffer) acquired in
          let (grows, shrinks) =
            taken buffer more h.message_length r (omega (arith, v.two_le, v.header_le)) le
              (decoded-all buffer h e le) in
          rw (e2, e3, enough, take-append_le h.message_length buffer more le) (inr grows, shrinks)
    ]
  ]

  failed-Settled :
      (f : Fault) (n : ℕ) (more : List ℕ)
      → ((header_failed f ≡ waiting) ⊎ (header_failed f ≡ grow more (header_failed f)))
        × Shrinks n (header_failed f)
  failed-Settled f n more = elim (Bool-cases (is_short_read f)) [
    | inl e ↦ rw e (inl refl, tt)
    | inr e ↦ rw e (inr refl, tt)
  ]

  -- A buffer waits for more bytes, or they do not change what it starts with.
  pub decode-grows :
      (buffer more : List ℕ)
      → length (buffer ++ more) < 2 ^ 32
      → ((decode_message_from_buffer max_size capacity buffer ≡ waiting)
          ⊎ (decode_message_from_buffer max_size capacity (buffer ++ more)
              ≡ grow more (decode_message_from_buffer max_size capacity buffer)))
        × Shrinks (length buffer) (decode_message_from_buffer max_size capacity buffer)
  unfolding decode_message_from_buffer
  decode-grows buffer more fits = elim (header-Settled buffer more) [
    | inl short ↦ rw short (inl refl, tt)
    | inr same ↦ elim (Result-cases (decode_header buffer)) [
      | inl (h, e) ↦ rw (same, e) (sized-grows buffer more h e fits)
      | inr (inl (f, e)) ↦ rw (same, e) (failed-Settled f (length buffer) more)
      | inr (inr e) ↦ absurd (header-not_stuck buffer e)
    ]
  ]
