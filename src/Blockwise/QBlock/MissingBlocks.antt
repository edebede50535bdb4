-- ===== src/Blockwise/QBlock/MissingBlocks.antt =====
-- net/blockwise/qblock/codec.go: lists of missing blocks as a CBOR sequence (RFC 9177, section 5).
pub mod RoundTrip
pub mod Reading
use go_coap.Message.Fault.{Fault, Result, ok, err, stuck, ◌>>=◌, invalid_missing_blocks}
use go_coap.Blockwise.QBlock.OptionCodec.{max_q_block_number}
use go_coap.Prelude.{ltb, leb, ◌==◌, if◌then◌else◌}
use go_coap.Prelude.{length}
use go_coap.Prelude.{put_uint16, put_uint32, uint16, uint32}
use go_coap.Prelude.{ℕ, zero, suc, ◌+◌, ◌*◌, ◌/◌, ◌%◌, ◌^◌}
use go_coap.Prelude.{Bool, true, false, not, ◌||◌}
use go_coap.Prelude.{Option, none, some, List, [], ◌∷◌, ◌++◌}

-- The first loop of EncodeMissingBlocks: `previous` is none before the first block.
abbrev is_after : Option ℕ → ℕ → Bool
is_after none block = true
is_after (some previous) block = ltb previous block

unfoldable pub check_blocks : Option ℕ → List ℕ → Bool
check_blocks previous [] = true
check_blocks previous (block ∷ blocks) =
    if ltb max_q_block_number block || not (is_after previous block)
    then false
    else check_blocks (some block) blocks

unfoldable pub encode_block : ℕ → List ℕ
encode_block block =
    if ltb block 24
    then (block % 256) ∷ []
    else if leb block 0xff
    then 0x18 ∷ (block % 256) ∷ []
    else if leb block 0xffff
    then 0x19 ∷ put_uint16 block
    else 0x1a ∷ put_uint32 block

unfoldable pub encode_blocks : List ℕ → List ℕ → List ℕ
encode_blocks dst [] = dst
encode_blocks dst (block ∷ blocks) = encode_blocks (dst ++ encode_block block) blocks

-- EncodeMissingBlocks: dst comes back unchanged beside an error.
unfoldable pub encode_missing_blocks : List ℕ → List ℕ → List ℕ × Option Fault
encode_missing_blocks dst [] = (dst, some invalid_missing_blocks)
encode_missing_blocks dst (block ∷ blocks) =
    if check_blocks none (block ∷ blocks)
    then (encode_blocks dst (block ∷ blocks), none)
    else (dst, some invalid_missing_blocks)

-- A big-endian number of one, two, four or eight bytes, by `info` of the first byte.
abbrev pub read_one : List ℕ → Result (ℕ × List ℕ)
read_one [] = err invalid_missing_blocks
read_one (a ∷ rest) = ok (a, rest)

abbrev pub read_two : List ℕ → Result (ℕ × List ℕ)
read_two (a ∷ b ∷ rest) = ok (uint16 a b, rest)
read_two _ = err invalid_missing_blocks

abbrev pub read_four : List ℕ → Result (ℕ × List ℕ)
read_four (a ∷ b ∷ c ∷ d ∷ rest) = ok (uint32 a b c d, rest)
read_four _ = err invalid_missing_blocks

abbrev pub read_eight : List ℕ → Result (ℕ × List ℕ)
read_eight (a ∷ b ∷ c ∷ d ∷ e ∷ f ∷ g ∷ h ∷ rest) =
    ok (uint32 a b c d * 2 ^ 32 + uint32 e f g h, rest)
read_eight _ = err invalid_missing_blocks

-- decodeMissingBlockInteger, behind the first byte
unfoldable pub decode_integer : ℕ → List ℕ → Result (ℕ × List ℕ)
decode_integer header bytes =
    let info = header % 32 in
    if not (header / 32 == 0)
    then err invalid_missing_blocks
    else if ltb info 24
    then ok (info, bytes)
    else if ltb 27 info
    then err invalid_missing_blocks
    else if info == 24
    then read_one bytes
    else if info == 25
    then read_two bytes
    else if info == 26
    then read_four bytes
    else read_eight bytes

abbrev pub is_before : Option ℕ → ℕ → Bool
is_before none block = false
is_before (some previous) block = ltb block previous

abbrev pub is_repeat : Option ℕ → ℕ → Bool
is_repeat none block = false
is_repeat (some previous) block = block == previous

-- walkMissingBlocks: the blocks that it emits. `previous` is none while `first` holds.
unfoldable pub walk_missing_blocks : ℕ → Option ℕ → List ℕ → Result (List ℕ)
walk_missing_blocks fuel previous [] = ok []
walk_missing_blocks zero previous (header ∷ bytes) = stuck
walk_missing_blocks (suc fuel) previous (header ∷ bytes) = elim (decode_integer header bytes) [
  | err e ↦ err e
  | stuck ↦ stuck
  | ok p ↦ elim (ltb max_q_block_number p.0 || is_before previous p.0) [
    | true ↦ err invalid_missing_blocks
    | false ↦ elim (walk_missing_blocks fuel (some p.0) p.1) [
      | err e ↦ err e
      | stuck ↦ stuck
      | ok blocks ↦ ok (if is_repeat previous p.0 then blocks else p.0 ∷ blocks)
    ]
  ]
]

-- DecodeMissingBlocks walks twice, the first time without emitting: both walks meet the same error or
-- none. Every round takes a byte at least, so `length bytes` rounds are enough.
unfoldable pub decode_missing_blocks : List ℕ → List ℕ → Result (List ℕ)
decode_missing_blocks dst [] = err invalid_missing_blocks
decode_missing_blocks dst (b ∷ bytes) = do
  blocks ← walk_missing_blocks (length (b ∷ bytes)) none (b ∷ bytes)
  ok (dst ++ blocks)
