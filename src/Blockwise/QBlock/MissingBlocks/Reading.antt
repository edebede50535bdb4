-- ===== src/Blockwise/QBlock/MissingBlocks/Reading.antt =====
-- DecodeMissingBlocks on any input (net/blockwise/qblock/codec.go).
use go_coap.Message.Fault.{Fault, Result, ok, err, stuck, invalid_missing_blocks}
use go_coap.Message.Reading.{Result-cases}
use go_coap.Blockwise.QBlock.OptionCodec.{max_q_block_number}
use go_coap.Blockwise.QBlock.MissingBlocks.{
  decode_integer, is_before, is_repeat, read_one, read_two, read_four, read_eight,
  walk_missing_blocks, decode_missing_blocks,
}
use go_coap.Blockwise.QBlock.MissingBlocks.RoundTrip.{IsIncreasing, floor_of}
use go_coap.Prelude.{ltb, ◌==◌, if◌then◌else◌, Bool-cases}
use go_coap.Prelude.{length}
use go_coap.Prelude.{ℕ, zero, suc, ◌/◌, ◌%◌, ◌≤◌}
use go_coap.Prelude.{◌≡◌, refl, ◌⊎◌, inl, inr, false, not, ◌||◌}
use go_coap.Prelude.{Option, none, some, List, [], ◌∷◌, ◌++◌, arith}

-- A reader that fails with an error or takes its bytes from the input.
abbrev Takes : Result (ℕ × List ℕ) → List ℕ → Type 0
Takes (ok (n, rest)) bytes = length rest ≤ length bytes
Takes (err e) bytes = Unit {0}
Takes stuck bytes = ⊥

one-Takes : (bytes : List ℕ) → Takes (read_one bytes) bytes
one-Takes [] = tt
one-Takes (a ∷ rest) = omega arith

two-Takes : (bytes : List ℕ) → Takes (read_two bytes) bytes
two-Takes [] = tt
two-Takes (a ∷ []) = tt
two-Takes (a ∷ b ∷ rest) = omega arith

four-Takes : (bytes : List ℕ) → Takes (read_four bytes) bytes
four-Takes [] = tt
four-Takes (a ∷ []) = tt
four-Takes (a ∷ b ∷ []) = tt
four-Takes (a ∷ b ∷ c ∷ []) = tt
four-Takes (a ∷ b ∷ c ∷ d ∷ rest) = omega arith

eight-Takes : (bytes : List ℕ) → Takes (read_eight bytes) bytes
eight-Takes (a ∷ b ∷ c ∷ d ∷ e ∷ f ∷ g ∷ h ∷ rest) = omega arith
eight-Takes [] = tt
eight-Takes (a ∷ []) = tt
eight-Takes (a ∷ b ∷ []) = tt
eight-Takes (a ∷ b ∷ c ∷ []) = tt
eight-Takes (a ∷ b ∷ c ∷ d ∷ []) = tt
eight-Takes (a ∷ b ∷ c ∷ d ∷ e ∷ []) = tt
eight-Takes (a ∷ b ∷ c ∷ d ∷ e ∷ f ∷ []) = tt
eight-Takes (a ∷ b ∷ c ∷ d ∷ e ∷ f ∷ g ∷ []) = tt

integer-Takes : (header : ℕ) (bytes : List ℕ) → Takes (decode_integer header bytes) bytes
unfolding decode_integer
integer-Takes header bytes = elim (Bool-cases (not (header / 32 == 0))) [
  | inl e1 ↦ rw e1 tt
  | inr e1 ↦ elim (Bool-cases (ltb (header % 32) 24)) [
    | inl e2 ↦ rw (e1, e2) (omega arith)
    | inr e2 ↦ elim (Bool-cases (ltb 27 (header % 32))) [
      | inl e3 ↦ rw (e1, e2, e3) tt
      | inr e3 ↦ elim (Bool-cases (header % 32 == 24)) [
        | inl e4 ↦ rw (e1, e2, e3, e4) (one-Takes bytes)
        | inr e4 ↦ elim (Bool-cases (header % 32 == 25)) [
          | inl e5 ↦ rw (e1, e2, e3, e4, e5) (two-Takes bytes)
          | inr e5 ↦ elim (Bool-cases (header % 32 == 26)) [
            | inl e6 ↦ rw (e1, e2, e3, e4, e5, e6) (four-Takes bytes)
            | inr e6 ↦ rw (e1, e2, e3, e4, e5, e6) (eight-Takes bytes)
          ]
        ]
      ]
    ]
  ]
]

-- What a walk is to return on any input: an error, or increasing numbers from `lo` on.
abbrev Walked : ℕ → Result (List ℕ) → Type 0
Walked lo (ok blocks) = IsIncreasing lo blocks
Walked lo (err e) = Unit {0}
Walked lo stuck = ⊥

IsIncreasing-weaken :
    (lo lo' : ℕ) (bs : List ℕ) → lo' ≤ lo → IsIncreasing lo bs → IsIncreasing lo' bs
IsIncreasing-weaken lo lo' [] h i = tt
IsIncreasing-weaken lo lo' (b ∷ bs) h (h1, h2, h3) = (omega arith, h2, h3)

-- One block before a walked rest.
abbrev join : Option ℕ → ℕ → Result (List ℕ) → Result (List ℕ)
join previous b r = elim r [
  | err e ↦ err e
  | stuck ↦ stuck
  | ok blocks ↦ ok (if is_repeat previous b then blocks else b ∷ blocks)
]

join-Walked :
    (previous : Option ℕ) (b : ℕ) (r : Result (List ℕ))
    → (ltb max_q_block_number b || is_before previous b) ≡ false
    → Walked (suc b) r
    → Walked (floor_of previous) (join previous b r)
join-Walked previous b (err e) h w = tt
join-Walked previous b stuck h w = w
join-Walked none b (ok blocks) h w = (omega arith, ground arith, w)
join-Walked (some p) b (ok blocks) h w = elim (Bool-cases (b == p)) [
  | inl e ↦ rw e (IsIncreasing-weaken (suc b) (suc p) blocks (ground arith) w)
  | inr e ↦ rw e (ground arith, ground arith, w)
]

walk-Walked :
    (fuel : ℕ) (previous : Option ℕ) (bytes : List ℕ)
    → length bytes ≤ fuel
    → Walked (floor_of previous) (walk_missing_blocks fuel previous bytes)
unfolding walk_missing_blocks
walk-Walked fuel previous [] h = tt
walk-Walked zero previous (x ∷ bytes) h = absurd (omega arith)
walk-Walked (suc fuel) previous (x ∷ bytes) h = elim (Result-cases (decode_integer x bytes)) [
  | inl ((b, rest), e) ↦
      let shorter = rw e at (integer-Takes x bytes) in
      elim (Bool-cases (ltb max_q_block_number b || is_before previous b)) [
        | inl t ↦ rw (e, walk_missing_blocks, t) tt
        | inr t ↦
            rw (e, walk_missing_blocks, t)
              (join-Walked previous b (walk_missing_blocks fuel (some b) rest) t
                (walk-Walked fuel (some b) rest (omega arith)))
      ]
  | inr (inl (f, e)) ↦ rw (e, walk_missing_blocks) tt
  | inr (inr e) ↦ absurd (rw e at (integer-Takes x bytes))
]

-- On any bytes DecodeMissingBlocks ends. It fails with an error, or appends block numbers of 20
-- bits in strictly increasing order to `dst`.
pub decode_missing-IsIncreasing :
    (dst bytes : List ℕ)
    → ((e : Fault) × (decode_missing_blocks dst bytes ≡ err e))
      ⊎ ((blocks : List ℕ) × (decode_missing_blocks dst bytes ≡ ok (dst ++ blocks))
          × IsIncreasing 0 blocks)
unfolding decode_missing_blocks
decode_missing-IsIncreasing dst [] = inl (invalid_missing_blocks, refl)
decode_missing-IsIncreasing dst (b ∷ bytes) =
    let w = walk-Walked (length (b ∷ bytes)) none (b ∷ bytes) (omega arith) in
    elim (Result-cases (walk_missing_blocks (length (b ∷ bytes)) none (b ∷ bytes))) [
      | inl (blocks, e) ↦ inr (blocks, rw e, rw e at w)
      | inr (inl (f, e)) ↦ inl (f, rw e)
      | inr (inr e) ↦ absurd (rw e at w)
    ]
