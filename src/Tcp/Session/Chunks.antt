-- ===== src/Tcp/Session/Chunks.antt =====
-- tcp/client/session.go: how the stream is cut into reads does not matter.
use mathlib.Core.Path.{subst}
use go_coap.Message.Fault.{Fault, Result, ok, err, stuck}
use go_coap.Message.Record.{Message}
use go_coap.Tcp.Session.{
  Peer, Decoded, waiting, hung, failed, ready, decode_message_from_buffer, handle_received_request,
  proceed, Progress, waits, closed, hangs, stops, Ending, open_yet, broken, read_error, finish,
  process_loop, process_buffer, run,
}
use go_coap.Tcp.Session.Taking.{Shrinks, decode-grows}
use go_coap.Prelude.{length, drop, length-append}
use go_coap.Prelude.{ℕ, zero, suc, ◌+◌, ◌%◌, ◌^◌, ◌≤◌, ◌<◌}
use go_coap.Prelude.{◌≡◌, refl, sym, ap, ◌∙◌, ◌⊎◌, inl, inr, Bool}
use go_coap.Prelude.{List, [], ◌∷◌, ◌++◌, append-nil, append_assoc, arith}

abbrev pub concat : List (List ℕ) → List ℕ
concat [] = []
concat (chunk ∷ chunks) = chunk ++ concat chunks

pub Decoded-cases :
    (d : Decoded)
    → ((d ≡ waiting) ⊎ (d ≡ hung))
      ⊎ (((e : Fault) × (d ≡ failed e)) ⊎ ((m : Message) × (rest : List ℕ) × (d ≡ ready m rest)))
Decoded-cases waiting = inl (inl refl)
Decoded-cases hung = inl (inr refl)
Decoded-cases (failed e) = inr (inl (e, refl))
Decoded-cases (ready m rest) = inr (inr (m, rest, refl))

module _ {ℓ} {S : Type ℓ} (peer : Peer S) (max_size capacity : ℕ) (room : 0 < capacity) where
  abbrev loop : ℕ → S → ℕ → List ℕ → Progress S
  loop = process_loop peer max_size capacity

  abbrev decoded : List ℕ → Decoded
  decoded = decode_message_from_buffer max_size capacity

  abbrev handle : ℕ → Message → S → S × Result Bool
  handle = handle_received_request peer max_size capacity

  abbrev next : ℕ → ℕ
  next seq = (seq + 1) % 2 ^ 64

  -- What follows a message depends on what is done next from each state only.
  pub proceed_ext :
      (seq : ℕ) (f g : S → Progress S) (r : S × Result Bool)
      → ((s : S) → f s ≡ g s)
      → proceed peer max_size capacity seq f r ≡ proceed peer max_size capacity seq g r
  proceed_ext seq f g (s, ok drop) same = same s
  proceed_ext seq f g (s, err e) same = refl
  proceed_ext seq f g (s, stuck) same = refl

  shrinks :
      (b : ℕ) (bytes : List ℕ) (m : Message) (rest : List ℕ)
      → length (b ∷ bytes) < 2 ^ 32
      → decoded (b ∷ bytes) ≡ ready m rest
      → length rest ≤ length bytes
  shrinks b bytes m rest fits e =
      let less : Shrinks (length (b ∷ bytes)) (ready m rest) =
        subst (Shrinks (length (b ∷ bytes))) e
          (decode-grows max_size capacity room (b ∷ bytes) []
            (omega (arith, length-append (b ∷ bytes) [], fits))).1 in
      omega (arith, less)

  -- As much fuel as there are bytes is enough.
  loop_fuel :
      (n k : ℕ) (s : S) (seq : ℕ) (bytes : List ℕ)
      → length bytes < 2 ^ 32
      → length bytes ≤ n
      → length bytes ≤ k
      → loop n s seq bytes ≡ loop k s seq bytes
  unfolding process_loop
  loop_fuel n k s seq [] fits h h2 = refl
  loop_fuel zero k s seq (b ∷ bytes) fits h h2 = absurd (omega arith)
  loop_fuel (suc n) zero s seq (b ∷ bytes) fits h h2 = absurd (omega arith)
  loop_fuel (suc n) (suc k) s seq (b ∷ bytes) fits h h2 =
      elim (Decoded-cases (decoded (b ∷ bytes))) [
        | inl (inl e) ↦ rw (e, process_loop) refl
        | inl (inr e) ↦ rw (e, process_loop) refl
        | inr (inl (f, e)) ↦ rw (e, process_loop) refl
        | inr (inr (m, rest, e)) ↦
            let le = shrinks b bytes m rest fits e in
            rw (e, process_loop)
              (proceed_ext (next seq) _ _ (handle (next seq) m s) (λ s'.
                loop_fuel n k s' (next seq) rest (omega (arith, le, fits)) (omega (arith, le, h))
                  (omega (arith, le, h2))))
      ]

  abbrev process : S → ℕ → List ℕ → Progress S
  process = process_buffer peer max_size capacity

  -- Where the session is once `more` has been read and processed too.
  abbrev resume : List ℕ → Progress S → Progress S
  resume more (waits s seq buffer) = process s seq (buffer ++ more)
  resume more (closed s seq) = closed s seq
  resume more (hangs s seq) = hangs s seq
  resume more (stops s seq e) = stops s seq e

  resume-proceed :
      (more : List ℕ) (seq : ℕ) (f : S → Progress S) (r : S × Result Bool)
      → resume more (proceed peer max_size capacity seq f r)
        ≡ proceed peer max_size capacity seq (λ s. resume more (f s)) r
  resume-proceed more seq f (s, ok drop) = refl
  resume-proceed more seq f (s, err e) = refl
  resume-proceed more seq f (s, stuck) = refl

  append-waiting :
      (n k : ℕ) (s : S) (seq b : ℕ) (bytes more : List ℕ)
      → length (b ∷ (bytes ++ more)) < 2 ^ 32
      → length (b ∷ (bytes ++ more)) ≤ suc k
      → decoded (b ∷ bytes) ≡ waiting
      → loop (suc k) s seq (b ∷ (bytes ++ more)) ≡ resume more (loop (suc n) s seq (b ∷ bytes))
  unfolding process_loop process_buffer
  append-waiting n k s seq b bytes more fits h e =
      let paused : loop (suc n) s seq (b ∷ bytes) ≡ waits s seq (b ∷ bytes) =
        rw (e, process_loop) refl in
      rw paused (
        loop_fuel (suc k) (length (b ∷ (bytes ++ more))) s seq (b ∷ (bytes ++ more)) fits h
          (omega arith))

  loop-append :
      (n k : ℕ) (s : S) (seq : ℕ) (bytes more : List ℕ)
      → length (bytes ++ more) < 2 ^ 32
      → length bytes ≤ n
      → length (bytes ++ more) ≤ k
      → loop k s seq (bytes ++ more) ≡ resume more (loop n s seq bytes)
  unfolding process_loop process_buffer
  loop-append n k s seq [] more fits h h2 =
      loop_fuel k (length more) s seq more fits h2 (omega arith)
  loop-append zero k s seq (b ∷ bytes) more fits h h2 = absurd (omega arith)
  loop-append (suc n) zero s seq (b ∷ bytes) more fits h h2 = absurd (omega arith)
  loop-append (suc n) (suc k) s seq (b ∷ bytes) more fits h h2 =
      let (grows, less) = decode-grows max_size capacity room (b ∷ bytes) more fits in
      elim grows [
        | inl e ↦ append-waiting n k s seq b bytes more fits h2 e
        | inr grown ↦ elim (Decoded-cases (decoded (b ∷ bytes))) [
          | inl (inl e) ↦ append-waiting n k s seq b bytes more fits h2 e
          | inl (inr e) ↦ rw (grown, e, process_loop) refl
          | inr (inl (f, e)) ↦ rw (grown, e, process_loop) refl
          | inr (inr (m, rest, e)) ↦
              let le = shrinks b bytes m rest (omega (arith, fits, length-append bytes more)) e in
              let sizes = length-append bytes more in
              let sizes2 = length-append rest more in
              rw (grown, e, process_loop)
                (proceed_ext (next seq) _ _ (handle (next seq) m s) (λ s'.
                    loop-append n k s' (next seq) rest more (omega (arith, le, fits, sizes, sizes2))
                      (omega (arith, le, h)) (omega (arith, le, h2, sizes, sizes2)))
                  ∙ sym (
                      resume-proceed more (next seq) (λ x. loop n x (next seq) rest)
                        (handle (next seq) m s)))
        ]
      ]

  process-append :
      (s : S) (seq : ℕ) (bytes more : List ℕ)
      → length (bytes ++ more) < 2 ^ 32
      → process s seq (bytes ++ more) ≡ resume more (process s seq bytes)
  unfolding process_buffer
  process-append s seq bytes more fits =
      loop-append (length bytes) (length (bytes ++ more)) s seq bytes more fits (omega arith)
        (omega arith)

  -- What a session waits with is no more than it had.
  abbrev Keeps : ℕ → Progress S → Type 0
  Keeps n (waits s seq buffer) = length buffer ≤ n
  Keeps n (closed s seq) = Unit {0}
  Keeps n (hangs s seq) = Unit {0}
  Keeps n (stops s seq e) = Unit {0}

  proceed-Keeps :
      (n seq : ℕ) (f : S → Progress S) (r : S × Result Bool)
      → ((s : S) → Keeps n (f s))
      → Keeps n (proceed peer max_size capacity seq f r)
  proceed-Keeps n seq f (s, ok drop) h = h s
  proceed-Keeps n seq f (s, err e) h = tt
  proceed-Keeps n seq f (s, stuck) h = tt

  loop-Keeps :
      (n k : ℕ) (s : S) (seq : ℕ) (bytes : List ℕ)
      → length bytes < 2 ^ 32
      → length bytes ≤ k
      → Keeps k (loop n s seq bytes)
  unfolding process_loop
  loop-Keeps n k s seq [] fits h = omega arith
  loop-Keeps zero k s seq (b ∷ bytes) fits h = tt
  loop-Keeps (suc n) k s seq (b ∷ bytes) fits h = elim (Decoded-cases (decoded (b ∷ bytes))) [
    | inl (inl e) ↦ rw (e, process_loop) h
    | inl (inr e) ↦ rw (e, process_loop) tt
    | inr (inl (f, e)) ↦ rw (e, process_loop) tt
    | inr (inr (m, rest, e)) ↦
        let le = shrinks b bytes m rest fits e in
        rw (e, process_loop)
          (proceed-Keeps k (next seq) _ (handle (next seq) m s) (λ s'.
            loop-Keeps n k s' (next seq) rest (omega (arith, le, fits)) (omega (arith, le, h))))
  ]

  abbrev end_of : Ending → Progress S → Progress S
  end_of = finish peer max_size capacity

  abbrev run_all : S → ℕ → List ℕ → List (List ℕ) → Ending → Progress S
  run_all = run peer max_size capacity

  -- Run behind the first processBuffer.
  abbrev go_on : List ℕ → List (List ℕ) → Ending → Progress S → Progress S
  go_on chunk chunks ending (waits s seq buffer) = run_all s seq (buffer ++ chunk) chunks ending
  go_on chunk chunks ending (closed s seq) = closed s seq
  go_on chunk chunks ending (hangs s seq) = hangs s seq
  go_on chunk chunks ending (stops s seq e) = stops s seq e

  go_on-resume :
      (n : ℕ) (chunk : List ℕ) (chunks : List (List ℕ)) (ending : Ending) (p : Progress S)
      → Keeps n p
      → ((s : S) (seq : ℕ) (buffer : List ℕ)
          → length buffer ≤ n
          → run_all s seq (buffer ++ chunk) chunks ending
            ≡ end_of ending (process s seq ((buffer ++ chunk) ++ concat chunks)))
      → go_on chunk chunks ending p ≡ end_of ending (resume (chunk ++ concat chunks) p)
  go_on-resume n chunk chunks ending (waits s seq buffer) le same =
      same s seq buffer le
      ∙ ap (λ b. end_of ending (process s seq b)) (append_assoc buffer chunk (concat chunks))
  go_on-resume n chunk chunks open_yet (closed s seq) le same = refl
  go_on-resume n chunk chunks broken (closed s seq) le same = refl
  go_on-resume n chunk chunks (read_error e) (closed s seq) le same = refl
  go_on-resume n chunk chunks open_yet (hangs s seq) le same = refl
  go_on-resume n chunk chunks broken (hangs s seq) le same = refl
  go_on-resume n chunk chunks (read_error e) (hangs s seq) le same = refl
  go_on-resume n chunk chunks open_yet (stops s seq f) le same = refl
  go_on-resume n chunk chunks broken (stops s seq f) le same = refl
  go_on-resume n chunk chunks (read_error e) (stops s seq f) le same = refl

  -- A session that has a message's options of one place at least and reads less than 2^32 bytes comes
  -- to the same state, the same calls on its connection and the same end, however the bytes are cut
  -- into reads: as when it finds all of them in its buffer, well formed or not.
  pub run-concat :
      (s : S) (seq : ℕ) (buffer : List ℕ) (chunks : List (List ℕ)) (ending : Ending)
      → length (buffer ++ concat chunks) < 2 ^ 32
      → run peer max_size capacity s seq buffer chunks ending
        ≡ run peer max_size capacity s seq (buffer ++ concat chunks) [] ending
  unfolding run process_buffer
  run-concat s seq buffer [] ending fits =
      ap (λ b. end_of ending (process s seq b)) (sym (append-nil buffer))
  run-concat s seq buffer (chunk ∷ chunks) ending fits =
      let whole = process-append s seq buffer (chunk ++ concat chunks) fits in
      let sizes = length-append buffer (chunk ++ concat chunks) in
      go_on-resume (length buffer) chunk chunks ending (process s seq buffer)
        (loop-Keeps (length buffer) (length buffer) s seq buffer (omega (arith, sizes, fits))
          (omega arith))
        (λ s' seq' b' le. run-concat s' seq' (b' ++ chunk) chunks ending (
          omega (
            arith,
            sizes,
            le,
            fits,
            length-append b' chunk,
            length-append (b' ++ chunk) (concat chunks),
            length-append chunk (concat chunks),
          )))
      ∙ ap (end_of ending) (sym whole)
