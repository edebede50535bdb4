-- ===== src/Blockwise/QBlock/MissingBlocks/RoundTrip.antt =====
-- What EncodeMissingBlocks writes, DecodeMissingBlocks reads (net/blockwise/qblock/codec.go).
use go_coap.Message.Fault.{ok, ◌>>=◌}
use go_coap.Blockwise.QBlock.OptionCodec.{max_q_block_number}
use go_coap.Blockwise.QBlock.MissingBlocks.{
  check_blocks, encode_block, encode_blocks, encode_missing_blocks, decode_integer,
  walk_missing_blocks, decode_missing_blocks,
}
use go_coap.Prelude.{ltb, leb, if◌then◌else◌, lt→ltb, le→not_ltb, ne→not==}
use go_coap.Prelude.{length, length-append}
use go_coap.Prelude.{put_uint16, put_uint32}
use go_coap.Prelude.{ℕ, zero, suc, ◌≤◌, ◌<◌}
use go_coap.Prelude.{◌≡◌, refl, sym, ap, ◌∙◌, true}
use go_coap.Prelude.{Option, none, some, List, [], ◌∷◌, ◌++◌, append-nil, append_assoc, arith}

-- Block numbers of 20 bits in strictly increasing order, the first one at least `lo`.
abbrev pub IsIncreasing : ℕ → List ℕ → Type 0
IsIncreasing lo [] = Unit {0}
IsIncreasing lo (b ∷ bs) = (lo ≤ b) × (b ≤ max_q_block_number) × IsIncreasing (suc b) bs

-- The first byte of one block, and the others.
block_head : ℕ → ℕ
block_head b =
    if ltb b 24 then b else if leb b 0xff then 0x18 else if leb b 0xffff then 0x19 else 0x1a

block_tail : ℕ → List ℕ
block_tail b =
    if ltb b 24
    then []
    else if leb b 0xff
    then b ∷ []
    else if leb b 0xffff
    then put_uint16 b
    else put_uint32 b

encode_block-shape : (b : ℕ) → encode_block b ≡ block_head b ∷ block_tail b
unfolding encode_block block_head block_tail
encode_block-shape b = ground arith

integer_read :
    (b : ℕ) (rest : List ℕ)
    → b ≤ max_q_block_number
    → decode_integer (block_head b) (block_tail b ++ rest) ≡ ok (b, rest)
unfolding decode_integer block_head block_tail
integer_read b rest h = ground arith

abbrev blocks_wire : List ℕ → List ℕ
blocks_wire [] = []
blocks_wire (b ∷ bs) = encode_block b ++ blocks_wire bs

encode_blocks-wire : (dst bs : List ℕ) → encode_blocks dst bs ≡ dst ++ blocks_wire bs
unfolding encode_blocks
encode_blocks-wire dst [] = sym (append-nil dst)
encode_blocks-wire dst (b ∷ bs) =
    encode_blocks-wire (dst ++ encode_block b) bs
    ∙ append_assoc dst (encode_block b) (blocks_wire bs)

abbrev pub floor_of : Option ℕ → ℕ
floor_of none = 0
floor_of (some p) = suc p

check-increasing :
    (previous : Option ℕ) (bs : List ℕ)
    → IsIncreasing (floor_of previous) bs
    → check_blocks previous bs ≡ true
unfolding check_blocks
check-increasing previous [] h = refl
check-increasing none (b ∷ bs) (h1, h2, h3) =
    rw (le→not_ltb max_q_block_number b h2) (check-increasing (some b) bs h3)
check-increasing (some p) (b ∷ bs) (h1, h2, h3) =
    rw (le→not_ltb max_q_block_number b h2, lt→ltb p b h1) (check-increasing (some b) bs h3)

walk-step :
    (fuel : ℕ) (previous : Option ℕ) (b : ℕ) (rest blocks : List ℕ)
    → floor_of previous ≤ b
    → b ≤ max_q_block_number
    → walk_missing_blocks fuel (some b) rest ≡ ok blocks
    → walk_missing_blocks (suc fuel) previous (encode_block b ++ rest) ≡ ok (b ∷ blocks)
unfolding walk_missing_blocks
walk-step fuel none b rest blocks h1 h2 e = rw (
  encode_block-shape b,
  walk_missing_blocks,
  integer_read b rest h2,
  le→not_ltb max_q_block_number b h2,
  e,
)
walk-step fuel (some p) b rest blocks h1 h2 e = rw (
  encode_block-shape b,
  walk_missing_blocks,
  integer_read b rest h2,
  le→not_ltb max_q_block_number b h2,
  le→not_ltb b p (omega arith),
  e,
  ne→not== b p (omega arith),
)

walk-wire :
    (fuel : ℕ) (previous : Option ℕ) (bs : List ℕ)
    → IsIncreasing (floor_of previous) bs
    → length bs ≤ fuel
    → walk_missing_blocks fuel previous (blocks_wire bs) ≡ ok bs
walk-wire fuel previous [] h k = unfold walk_missing_blocks in refl
walk-wire zero previous (b ∷ bs) h k = absurd (omega arith)
walk-wire (suc fuel) previous (b ∷ bs) (h1, h2, h3) k =
    walk-step fuel previous b (blocks_wire bs) bs h1 h2
      (walk-wire fuel (some b) bs h3 (omega arith))

length-le-wire : (bs : List ℕ) → length bs ≤ length (blocks_wire bs)
length-le-wire [] = omega arith
length-le-wire (b ∷ bs) = omega (
  arith,
  length-append (encode_block b) (blocks_wire bs),
  ap length (encode_block-shape b),
  length-le-wire bs,
)

decode-shape :
    (dst wire : List ℕ)
    → 0 < length wire
    → decode_missing_blocks dst wire
      ≡ (walk_missing_blocks (length wire) none wire >>= λ blocks. ok (dst ++ blocks))
unfolding decode_missing_blocks
decode-shape dst [] h = absurd (omega arith)
decode-shape dst (x ∷ wire) h = refl

decode-wire :
    (dst : List ℕ) (b : ℕ) (bs : List ℕ)
    → IsIncreasing 0 (b ∷ bs)
    → decode_missing_blocks dst (blocks_wire (b ∷ bs)) ≡ ok (dst ++ b ∷ bs)
decode-wire dst b bs h =
    let enough = length-le-wire (b ∷ bs) in
    rw (decode-shape dst (blocks_wire (b ∷ bs)) (omega arith), walk-wire _ none (b ∷ bs) h enough)

-- For block numbers of 20 bits in strictly increasing order, at least one, EncodeMissingBlocks
-- reports no error, keeps `dst` in front, and DecodeMissingBlocks reads the same numbers from what it
-- appended.
pub decode-encode_missing :
    (dst out : List ℕ) (b : ℕ) (bs : List ℕ)
    → IsIncreasing 0 (b ∷ bs)
    → (wire : List ℕ) × (encode_missing_blocks dst (b ∷ bs) ≡ (dst ++ wire, none))
      × (decode_missing_blocks out wire ≡ ok (out ++ b ∷ bs))
unfolding encode_missing_blocks
decode-encode_missing dst out b bs h = (
  blocks_wire (b ∷ bs),
  rw (check-increasing none (b ∷ bs) h, encode_blocks-wire dst (b ∷ bs)),
  decode-wire out b bs h,
)
