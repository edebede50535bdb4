-- ===== src/Blockwise/BlockOption.antt =====
-- net/blockwise/blockwise.go: the value of a Block1 or Block2 option, and net/blockwise/internal/blocks:
-- the block size. `num << 4 | more << 3 | szx` is a sum, since the bits are disjoint.
use go_coap.Message.Fault.{
  Fault, Result, ok, err, invalid_szx, block_number_exceed_limit, block_invalid_size,
}
use go_coap.Prelude.{ltb, ◌==◌, if◌then◌else◌}
use go_coap.Prelude.{ℤ, pos, negsuc}
use go_coap.Prelude.{ℕ, ◌+◌, ◌*◌, ◌/◌, ◌%◌, ◌^◌, ◌≤◌, min}
use go_coap.Prelude.{◌≡◌, Bool, true, false}
use go_coap.Prelude.{Option, none, some, arith}

abbrev pub max_block_number : ℕ
max_block_number = 0xffff7

abbrev pub max_block_value : ℕ
max_block_value = 0xffffff

pub record Block : Type 0 where
  pub szx : ℕ
  pub num : ℕ
  pub more : Bool

abbrev pub bit_of : Bool → ℕ
bit_of true = 1
bit_of false = 0

-- SZX.Size, for any uint8; -1 for an invalid exponent
unfoldable pub size_of_szx : ℕ → ℤ
size_of_szx szx = if ltb 7 szx then negsuc 0 else pos (16 * 2 ^ min szx 6)

unfoldable pub encode_block_option : ℕ → ℤ → Bool → Result ℕ
encode_block_option szx (negsuc n) more =
    if ltb 7 szx then err invalid_szx else err block_number_exceed_limit
encode_block_option szx (pos num) more =
    if ltb 7 szx
    then err invalid_szx
    else if ltb max_block_number num
    then err block_number_exceed_limit
    else ok ((num * 16) % 2 ^ 32 + bit_of more * 8 + szx)

-- The values come back beside the error.
unfoldable pub decode_block_option : ℕ → Block × Option Fault
decode_block_option value =
    if ltb max_block_value value
    then (record { szx = 0; num = 0; more = false }, some block_invalid_size)
    else (
      record { szx = value % 8; num = value / 16; more = value / 8 % 2 == 1 },
      if ltb max_block_number (value / 16) then some block_number_exceed_limit else none,
    )

-- Every block that EncodeBlockOption accepts has an exponent up to 7 and a number up to 0xffff7,
-- becomes a value of three bytes, and is what DecodeBlockOption reads from that value, with no error.
pub decode-encode_block :
    (szx num : ℕ) (more : Bool) (value : ℕ)
    → encode_block_option szx (pos num) more ≡ ok value
    → (decode_block_option value ≡ (record { szx = szx; num = num; more = more }, none))
      × (value ≤ max_block_value)
      × (szx ≤ 7)
      × (num ≤ max_block_number)
unfolding encode_block_option decode_block_option
decode-encode_block szx num true value h = ground arith
decode-encode_block szx num false value h = ground arith

-- A value that DecodeBlockOption reads with no error is encoded back to itself.
pub encode-decode_block :
    (value : ℕ) (b : Block)
    → decode_block_option value ≡ (b, none)
    → encode_block_option b.szx (pos b.num) b.more ≡ ok value
unfolding encode_block_option decode_block_option
encode-decode_block value b h = ground arith

-- The option has three bytes, so that numbers up to 0xfffff fit in with an exponent up to 7. Those
-- below 0xffff8 are written in it and read from it as they are; the eight from there on are refused in
-- both directions, although the option has room for them.
pub last_blocks_refused :
    (szx num : ℕ) (more : Bool)
    → szx ≤ 7
    → num ≤ 0xfffff
    → (num * 16 + bit_of more * 8 + szx ≤ 0xffffff)
      × (encode_block_option szx (pos num) more ≡ (
          if ltb num 0xffff8
          then ok (num * 16 + bit_of more * 8 + szx)
          else err block_number_exceed_limit))
      × (decode_block_option (num * 16 + bit_of more * 8 + szx) ≡ (
        record { szx = szx; num = num; more = more },
        if ltb num 0xffff8 then none else some block_number_exceed_limit,
      ))
unfolding encode_block_option decode_block_option
last_blocks_refused szx num true h1 h2 = ground arith
last_blocks_refused szx num false h1 h2 = ground arith
