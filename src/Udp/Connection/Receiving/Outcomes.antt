-- ===== src/Udp/Connection/Receiving/Outcomes.antt =====
-- udp/client/conn.go: what comes of malformed datagrams and pings, and how far apart ids are kept.
use go_coap.Message.Fault.{Fault, Result, ok, err, stuck}
use go_coap.Message.Defs.{CoapOption, coap_option_defs}
use go_coap.Message.Record.{Message}
use go_coap.Message.Unmarshal.{unmarshal_options}
use go_coap.Pool.Decoding.Datagram.{decode-grown}
use go_coap.Udp.Coder
use go_coap.Udp.Coder.{decode_token, decode_body, store_body}
use go_coap.Udp.Connection.{confirmable, Conn, check_my_message_id}
use go_coap.Udp.Connection.Receiving.{
  acquired, new_malformed_message_error, malformed, Peer, process,
}
use go_coap.Prelude.{ltb, leb, ◌==◌, leb→le, le→leb, le→not_ltb, Bool-cases}
use go_coap.Prelude.{length, take, drop}
use go_coap.Prelude.{uint16, ℤ, pos}
use go_coap.Prelude.{ℕ, suc, ◌+◌, ◌-◌, ◌/◌, ◌%◌, ◌^◌, ◌≤◌, ◌<◌}
use go_coap.Prelude.{◌≡◌, refl, ap, inl, inr, Bool, true, false}
use go_coap.Prelude.{none, List, [], ◌∷◌, arith}

-- For a confirmable message, the connection's next ids are then at least a quarter of the circle of
-- 16-bit numbers behind the message's id, and the counter stays in its range.
pub check_my_message_id-apart :
    (req : Message) (mid msg_id : ℕ)
    → req.kind ≡ confirmable
    → req.message_id ≡ pos mid
    → msg_id < 2 ^ 32
    → (0xffff / 4 ≤ (mid % 65536 + 65536 - check_my_message_id req msg_id % 65536) % 65536)
      × (check_my_message_id req msg_id < 2 ^ 32)
unfolding check_my_message_id
check_my_message_id-apart req mid msg_id con id h =
    rw (con, id)
      (elim (Bool-cases (leb (0xffff / 4) ((mid % 65536 + 65536 - msg_id % 65536) % 65536))) [
        | inl e ↦ rw e (leb→le _ _ e, h)
        | inr e ↦ rw e (ground arith, omega arith)
      ])

-- The decoder writes a header's fields before anything else, and leaves them.
abbrev HasHeader : ℤ → ℤ → Message → Type 0
HasHeader typ mid m = (m.kind ≡ typ) × (m.message_id ≡ mid)

stored-HasHeader :
    (n : ℕ) (token bytes : List ℕ) (m : Message) (r : List CoapOption × Result ℕ)
    → HasHeader m.kind m.message_id (store_body n token bytes m r).0
unfolding store_body
stored-HasHeader n token bytes m (os, ok k) = (refl, refl)
stored-HasHeader n token bytes m (os, err e) = (refl, refl)
stored-HasHeader n token bytes m (os, stuck) = (refl, refl)

token-HasHeader :
    (capacity n token_len : ℕ) (bytes : List ℕ) (m : Message)
    → HasHeader m.kind m.message_id (decode_token capacity n token_len bytes m).0
unfolding decode_token decode_body
token-HasHeader capacity n token_len bytes m = elim (Bool-cases (ltb 8 token_len)) [
  | inl e ↦ rw e (refl, refl)
  | inr e ↦ elim (Bool-cases (ltb (length bytes) token_len)) [
    | inl e2 ↦ rw (e, e2) (refl, refl)
    | inr e2 ↦
        rw (e, e2)
          (stored-HasHeader n (take token_len bytes) (drop token_len bytes) m
            (unmarshal_options coap_option_defs capacity [] (drop token_len bytes)))
  ]
]

decode-HasHeader :
    (capacity b0 b1 b2 b3 : ℕ) (bytes : List ℕ) (m : Message)
    → (b0 / 64 == 1) ≡ true
    → HasHeader
        (pos (b0 / 16 % 4))
        (pos (uint16 b2 b3))
        (Coder.decode capacity (b0 ∷ b1 ∷ b2 ∷ b3 ∷ bytes) m).0
unfolding Coder.decode
decode-HasHeader capacity b0 b1 b2 b3 bytes m e =
    rw e (token-HasHeader capacity (length (b0 ∷ b1 ∷ b2 ∷ b3 ∷ bytes)) (b0 % 16) bytes _)

refused :
    (e : Fault) (b0 b1 b2 b3 : ℕ) (bytes : List ℕ) (typ mid : ℤ) (m : Message)
    → (b0 / 64 == 1) ≡ true
    → HasHeader typ mid m
    → new_malformed_message_error e (b0 ∷ b1 ∷ b2 ∷ b3 ∷ bytes) m ≡ record {
      cause = e;
      invalid_version = false;
      has_header = true;
      kind = typ;
      message_id = mid;
    }
unfolding new_malformed_message_error
refused e b0 b1 b2 b3 bytes typ mid m version (h, h2) =
    let long : leb 4 (length (b0 ∷ b1 ∷ b2 ∷ b3 ∷ bytes)) ≡ true = le→leb _ _ (omega arith) in
    rw (version, long, h, h2) refl

module _ {ℓ} {S : Type ℓ} (capacity : ℕ) (peer : Peer S) where
  -- A datagram of the right version, with a header and within the limit of its size, that the decoder
  -- refuses changes nothing in the connection; the error that is reported says why, and has the type
  -- and the id that stand in the header, so that the other side can be answered.
  pub process-malformed :
      (now : ℕ) (multicast : Bool) (b0 b1 b2 b3 : ℕ) (bytes : List ℕ) (c : Conn S) (e : Fault)
      → 0 < capacity
      → b0 / 64 ≡ 1
      → length (b0 ∷ b1 ∷ b2 ∷ b3 ∷ bytes) ≤ peer.max_message_size
      → (Coder.decode
          (suc (length (b0 ∷ b1 ∷ b2 ∷ b3 ∷ bytes)))
          (b0 ∷ b1 ∷ b2 ∷ b3 ∷ bytes)
          acquired).1
        ≡ err e
      → process capacity peer now multicast (b0 ∷ b1 ∷ b2 ∷ b3 ∷ bytes) c ≡ (
        c,
        none,
        malformed (record {
          cause = e;
          invalid_version = false;
          has_header = true;
          kind = pos (b0 / 16 % 4);
          message_id = pos (uint16 b2 b3);
        }),
      )
  unfolding process
  process-malformed now multicast b0 b1 b2 b3 bytes c e some_place version small is =
      let datagram : List ℕ = b0 ∷ b1 ∷ b2 ∷ b3 ∷ bytes in
      let fits : ltb peer.max_message_size (length datagram % 2 ^ 32) ≡ false =
        le→not_ltb _ _ (omega arith) in
      let v : (b0 / 64 == 1) ≡ true = ground arith in
      let full = suc (length datagram) in
      rw (fits, decode-grown capacity datagram acquired some_place, is)
        (ap (λ x. (c, none, malformed x))
          (refused e b0 b1 b2 b3 bytes _ _ (Coder.decode full datagram acquired).0 v
            (decode-HasHeader full b0 b1 b2 b3 bytes acquired v)))
