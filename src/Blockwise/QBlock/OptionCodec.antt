-- ===== src/Blockwise/QBlock/OptionCodec.antt =====
-- net/blockwise/qblock/codec.go: the value of a Q-Block option (RFC 9177, section 4.2).
-- `num << 4 | more << 3 | szx` is a sum, since the bits are disjoint.
use go_coap.Message.Fault.{
  Result, ok, err, invalid_szx, block_number_exceed_limit, block_invalid_size,
}
use go_coap.Blockwise.BlockOption.{Block, bit_of, max_block_value}
use go_coap.Prelude.{ltb, ◌==◌, if◌then◌else◌}
use go_coap.Prelude.{ℤ, pos, negsuc}
use go_coap.Prelude.{ℕ, ◌+◌, ◌-◌, ◌*◌, ◌/◌, ◌%◌, ◌^◌, ◌≤◌, ◌<◌}
use go_coap.Prelude.{◌≡◌, Bool, true, false}
use go_coap.Prelude.{arith}

abbrev pub max_q_block_number : ℕ
max_q_block_number = 2 ^ 20 - 1

unfoldable pub encode_q_block_option : ℕ → ℤ → Bool → Result ℕ
encode_q_block_option szx (negsuc n) more =
    if ltb 6 szx then err invalid_szx else err block_number_exceed_limit
encode_q_block_option szx (pos num) more =
    if ltb 6 szx
    then err invalid_szx
    else if ltb max_q_block_number num
    then err block_number_exceed_limit
    else ok ((num * 16) % 2 ^ 32 + szx + bit_of more * 8)

unfoldable pub decode_q_block_option : ℕ → Result Block
decode_q_block_option value =
    if ltb max_block_value value
    then err block_invalid_size
    else if ltb 6 (value % 8)
    then err invalid_szx
    else ok (record { szx = value % 8; num = value / 16; more = value / 8 % 2 == 1 })

q_block_read :
    (szx num : ℕ) (more : Bool)
    → szx ≤ 6
    → num < 2 ^ 20
    → decode_q_block_option (num * 16 + szx + bit_of more * 8)
      ≡ ok (record { szx = szx; num = num; more = more })
unfolding decode_q_block_option
q_block_read szx num true h1 h2 = ground arith
q_block_read szx num false h1 h2 = ground arith

-- Every block of exponent up to 6 and a number of 20 bits has a value, and DecodeQBlockOption reads
-- the block from it.
pub decode-encode_q_block :
    (szx num : ℕ) (more : Bool)
    → szx ≤ 6
    → num < 2 ^ 20
    → (value : ℕ) × (encode_q_block_option szx (pos num) more ≡ ok value)
      × (decode_q_block_option value ≡ ok (record { szx = szx; num = num; more = more }))
unfolding encode_q_block_option decode_q_block_option
decode-encode_q_block szx num more h1 h2 =
    (num * 16 + szx + bit_of more * 8, ground arith, q_block_read szx num more h1 h2)

-- A value that DecodeQBlockOption accepts is encoded back to itself.
pub encode-decode_q_block :
    (value : ℕ) (b : Block)
    → decode_q_block_option value ≡ ok b
    → encode_q_block_option b.szx (pos b.num) b.more ≡ ok value
unfolding encode_q_block_option decode_q_block_option
encode-decode_q_block value b h = ground arith
