-- ===== src/Blockwise/Sending/Slices.antt =====
-- The blocks that createSendingMessage and prepareSendingRequest cut off a body, for exponents up to 6.
use go_coap.Message.Fault.{ok}
use go_coap.Blockwise.BlockOption.{
  bit_of, max_block_number, encode_block_option, decode_block_option, decode-encode_block,
}
use go_coap.Blockwise.Exchange.{is_body_method, block_size, buffer_size, get_szx, clone_message}
use go_coap.Blockwise.Sending.{
  block_type_of, size_type_of, offset_of, read_block, block_message, create_sending_message,
  prepare_sending_request,
}
use native.Mathlib.Nat.{one-le-pow, mul-div_cancel}
use go_coap.Pool.{PoolMessage, set_option_uint32, body_size}
use go_coap.Prelude.{ltb, ◌==◌, if◌then◌else◌, lt→ltb, lt→not_leb, Bool-cases}
use go_coap.Prelude.{length, take, drop, length-drop}
use go_coap.Prelude.{pos}
use go_coap.Prelude.{ℕ, zero, suc, ◌+◌, ◌-◌, ◌*◌, ◌^◌, ◌≤◌, ◌<◌, min}
use go_coap.Prelude.{◌≡◌, refl, inl, inr, Bool, true, not}
use go_coap.Prelude.{none, some, List, [], ◌∷◌, arith}

-- Whether bytes are left behind block `k`.
abbrev pub is_more : ℕ → ℕ → List ℕ → Bool
is_more szx k bytes = ltb (k * block_size szx + block_size szx) (length bytes)

abbrev pub block_value : ℕ → ℕ → Bool → ℕ
block_value szx k more = k * 16 + bit_of more * 8 + szx

pub block_value-small :
    (szx k : ℕ) (more : Bool) → szx < 7 → k ≤ max_block_number → block_value szx k more < 2 ^ 32
block_value-small szx k more hs hk = ground arith

-- Block `k` of a message's body, as a message.
unfoldable pub cut_block : PoolMessage → ℕ → ℕ → List ℕ → PoolMessage
cut_block m szx k bytes =
    set_option_uint32 (block_type_of m.code) (block_value szx k (is_more szx k bytes)) (
      set_option_uint32 (size_type_of m.code) (length bytes) (record (clone_message m) {
        body = some (take (block_size szx) (drop (k * block_size szx) bytes));
      }))

pub block_size_pos : (szx : ℕ) → 0 < block_size szx
unfolding block_size
block_size_pos szx = omega (arith, one-le-pow (min szx 6) 2 (omega arith))

length-take-min {ℓ} : {A : Type ℓ} (n : ℕ) (xs : List A) → length (take n xs) ≡ min n (length xs)
length-take-min zero xs = omega arith
length-take-min (suc n) [] = omega arith
length-take-min (suc n) (x ∷ xs) = omega (arith, length-take-min n xs)

pub length-chunk :
    (n off : ℕ) (bytes : List ℕ) → length (take n (drop off bytes)) ≡ min n (length bytes - off)
length-chunk n off bytes = omega (arith, length-take-min n (drop off bytes), length-drop off bytes)

pub encode-block_value :
    (szx k : ℕ) (more : Bool)
    → szx < 7
    → k ≤ max_block_number
    → encode_block_option szx (pos k) more ≡ ok (block_value szx k more)
unfolding encode_block_option
encode-block_value szx k more h1 h2 = ground arith

read_block-chunk :
    (n off : ℕ) (bytes : List ℕ)
    → off ≤ length bytes
    → read_block off n bytes ≡ ok (take n (drop off bytes))
unfolding read_block
read_block-chunk n off bytes h = ground (arith, length-chunk n off bytes)

chunk-is_more :
    (szx k : ℕ) (bytes : List ℕ)
    → k * block_size szx ≤ length bytes
    → not (
        k * block_size szx + length (take (block_size szx) (drop (k * block_size szx) bytes))
        == length bytes)
      ≡ is_more szx k bytes
chunk-is_more szx k bytes h =
    ground (arith, length-chunk (block_size szx) (k * block_size szx) bytes, block_size_pos szx)

block_message-cut :
    (m : PoolMessage) (szx k : ℕ) (bytes : List ℕ)
    → szx < 7
    → k ≤ max_block_number
    → k * block_size szx ≤ length bytes
    → length bytes < 2 ^ 32
    → block_message m szx (k * block_size szx) (block_size szx) bytes
      ≡ ok (cut_block m szx k bytes, is_more szx k bytes)
unfolding block_message cut_block
block_message-cut m szx k bytes h1 h2 h3 h4 =
    rw
      (
        read_block-chunk (block_size szx) (k * block_size szx) bytes h3,
        lt→ltb (length bytes) (2 ^ 32) h4,
        chunk-is_more szx k bytes h3,
        mul-div_cancel k (block_size_pos szx),
        encode-block_value szx k (is_more szx k bytes) h1 h2,
      )
      refl

pub decode-block_value :
    (szx k : ℕ) (more : Bool)
    → szx < 7
    → k ≤ max_block_number
    → decode_block_option (block_value szx k more)
      ≡ (record { szx = szx; num = k; more = more }, none)
decode-block_value szx k more h1 h2 =
    (decode-encode_block szx k more (block_value szx k more)
      (encode-block_value szx k more h1 h2)).0

-- The number of the block that createSendingMessage cuts when it is asked with block `num`: a Block1
-- option in a response acknowledges a block, and a Block2 option in a request asks for one.
abbrev pub block_asked : ℕ → ℕ → ℕ
block_asked code num = if is_body_method code then suc num else num

buffer_size-small :
    (szx max_message_size : ℕ) → szx < 7 → buffer_size szx max_message_size ≡ block_size szx
unfolding buffer_size
buffer_size-small szx max_message_size h = ground arith

offset-asked :
    (code szx num : ℕ)
    → offset_of (block_type_of code) szx num (block_size szx)
      ≡ block_asked code num * block_size szx
unfolding offset_of
offset-asked code szx num = elim (Bool-cases (is_body_method code)) [
  | inl e ↦ rw e (omega arith)
  | inr e ↦ rw e refl
]

-- createSendingMessage, asked with a block of an exponent up to 6 that is not above the peer's or its
-- own, for a message whose body is shorter than 2^32 bytes and reaches up to the start of the block to
-- send, with a number that the option can hold: it sends this block's bytes with the body's size, and
-- says that more follow exactly when they do.
pub create_sending_message-cut :
    (m : PoolMessage) (bytes : List ℕ) (max_szx max_message_size value szx num : ℕ) (more : Bool)
    → m.body ≡ some bytes
    → decode_block_option value ≡ (record { szx = szx; num = num; more = more }, none)
    → get_szx szx max_szx < 7
    → block_asked m.code num ≤ max_block_number
    → block_asked m.code num * block_size (get_szx szx max_szx) ≤ length bytes
    → length bytes < 2 ^ 32
    → create_sending_message m max_szx max_message_size value
      ≡ ok (
        cut_block m (get_szx szx max_szx) (block_asked m.code num) bytes,
        is_more (get_szx szx max_szx) (block_asked m.code num) bytes,
      )
unfolding create_sending_message block_message cut_block clone_message
create_sending_message-cut m bytes max_szx max_message_size value szx num more hb hd hs hn ho hl =
    let s = get_szx szx max_szx in
    let buf : buffer_size s max_message_size ≡ block_size s =
      buffer_size-small s max_message_size hs in
    rw (hd, hb, buf, offset-asked m.code s num)
      (block_message-cut m s (block_asked m.code num) bytes hs hn ho hl)

read_block-first :
    (szx : ℕ) (bytes : List ℕ)
    → read_block 0 (block_size szx) bytes ≡ ok (take (block_size szx) bytes)
read_block-first szx bytes = read_block-chunk (block_size szx) 0 bytes (omega arith)

-- prepareSendingRequest, for a request of a method with a body that is longer than a block and shorter
-- than 2^32 bytes, and an exponent up to 6: it sends the first block of the body.
pub prepare_sending_request-cut :
    (r : PoolMessage) (bytes : List ℕ) (szx max_message_size : ℕ)
    → r.body ≡ some bytes
    → is_body_method r.code ≡ true
    → szx < 7
    → block_size szx < length bytes
    → length bytes < 2 ^ 32
    → prepare_sending_request r szx max_message_size ≡ ok (cut_block r szx 0 bytes)
unfolding prepare_sending_request cut_block body_size clone_message set_option_uint32
prepare_sending_request-cut r bytes szx max_message_size hb hc hs h hl =
    let start : 0 * block_size szx ≡ 0 = omega arith in
    let first_more : is_more szx 0 bytes ≡ true =
      lt→ltb (0 * block_size szx + block_size szx) (length bytes) (omega arith) in
    rw
      (
        hb,
        lt→not_leb (length bytes) (block_size szx) h,
        hc,
        lt→ltb (length bytes) (2 ^ 32) hl,
        buffer_size-small szx max_message_size hs,
        read_block-first szx bytes,
        first_more,
        start,
        encode-block_value szx 0 true hs (omega arith),
      )
      refl
