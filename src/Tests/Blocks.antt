-- ===== src/Tests/Blocks.antt =====
-- Runs of the block options' codecs on concrete blocks.
use go_coap.Message.Fault.{Fault, ok, err, block_number_exceed_limit}
use go_coap.Blockwise.BlockOption.{
  Block, max_block_value, max_block_number, bit_of, encode_block_option, decode_block_option,
  decode-encode_block, last_blocks_refused,
}
use go_coap.Blockwise.QBlock.OptionCodec.{decode_q_block_option}
use go_coap.Blockwise.QBlock.Config.{default_config, resolve, check_config, is_zero}
use go_coap.Blockwise.QBlock.MissingBlocks.{encode_missing_blocks, decode_missing_blocks}
use go_coap.Blockwise.QBlock.MissingBlocks.RoundTrip.{IsIncreasing, decode-encode_missing}
use go_coap.Blockwise.QBlock.MissingBlocks.Reading.{decode_missing-IsIncreasing}
use go_coap.Prelude.{ltb, if◌then◌else◌}
use go_coap.Prelude.{pos}
use go_coap.Prelude.{ℕ, ◌+◌, ◌*◌, ◌≤◌}
use go_coap.Prelude.{◌≡◌, refl, ◌⊎◌, true, false}
use go_coap.Prelude.{none, some, List, [], ◌∷◌, ◌++◌, arith}

abbrev block : Block
block = record { szx = 6; num = 5; more = true }

encode_block_test : encode_block_option 6 (pos 5) true ≡ ok 94
unfolding encode_block_option
encode_block_test = refl

decode_block_test : decode_block_option 94 ≡ (block, none)
unfolding decode_block_option
decode_block_test = refl

decode-encode_block_example :
    (decode_block_option 94 ≡ (block, none))
    × (94 ≤ max_block_value)
    × (6 ≤ 7)
    × (5 ≤ max_block_number)
decode-encode_block_example = decode-encode_block 6 5 true 94 encode_block_test

last_blocks_refused_example :
    (1048570 * 16 + bit_of false * 8 + 2 ≤ 0xffffff)
    × (encode_block_option 2 (pos 1048570) false ≡ (
        if ltb 1048570 0xffff8
        then ok (1048570 * 16 + bit_of false * 8 + 2)
        else err block_number_exceed_limit))
    × (decode_block_option (1048570 * 16 + bit_of false * 8 + 2) ≡ (
      record { szx = 2; num = 1048570; more = false },
      if ltb 1048570 0xffff8 then none else some block_number_exceed_limit,
    ))
last_blocks_refused_example = last_blocks_refused 2 1048570 false (omega arith) (omega arith)

decode_q_block_test : decode_q_block_option 94 ≡ ok block
unfolding decode_q_block_option
decode_q_block_test = refl

-- one number a CBOR integer holds in its head, one that takes two bytes more, one that takes four
abbrev missing : List ℕ
missing = 300 ∷ 70000 ∷ []

increasing : IsIncreasing 0 (7 ∷ missing)
increasing = (omega arith, omega arith, (omega arith, omega arith, (omega arith, omega arith, tt)))

decode-encode_missing_example :
    (wire : List ℕ) × (encode_missing_blocks (1 ∷ []) (7 ∷ missing) ≡ ((1 ∷ []) ++ wire, none))
    × (decode_missing_blocks (2 ∷ []) wire ≡ ok ((2 ∷ []) ++ 7 ∷ missing))
decode-encode_missing_example = decode-encode_missing (1 ∷ []) (2 ∷ []) 7 missing increasing

decode_missing-IsIncreasing_example :
    ((e : Fault) × (decode_missing_blocks [] (7 ∷ 24 ∷ []) ≡ err e))
    ⊎ ((blocks : List ℕ) × (decode_missing_blocks [] (7 ∷ 24 ∷ []) ≡ ok ([] ++ blocks))
        × IsIncreasing 0 blocks)
decode_missing-IsIncreasing_example = decode_missing-IsIncreasing [] (7 ∷ 24 ∷ [])

default_test : resolve default_config ≡ ok default_config
unfolding resolve check_config is_zero default_config
default_test = refl
