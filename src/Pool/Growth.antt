-- ===== src/Pool/Growth.antt =====
-- SetOptionUint32 of message/pool/message.go over its value buffer, which grows when it is too small.
use go_coap.Message.Fault.{Fault, too_small_buffer}
use go_coap.Message.Defs.{CoapOption}
use go_coap.Message.Writer.{of_len}
use go_coap.Message.Uint32.{uint_bytes}
use go_coap.Message.Wire.{IsSortedFrom}
use go_coap.Message.Access.{Edited, set_uint32, set_uint32-sorted}
use go_coap.Pool.{put}
use go_coap.Prelude.{ltb, if◌then◌else◌, le→not_ltb, Bool-cases}
use go_coap.Prelude.{length}
use go_coap.Prelude.{pos, pos_part}
use go_coap.Prelude.{ℕ, ◌+◌, ◌^◌, ◌<◌}
use go_coap.Prelude.{◌≡◌, refl, inl, inr, Bool, true, false}
use go_coap.Prelude.{Option, none, some, List, arith}

abbrev is_too_small : Option Fault → Bool
is_too_small (some too_small_buffer) = true
is_too_small _ = false

-- the second call, with `used` more bytes in the buffer
abbrev retry : CoapOption → ℕ → ℕ → ℕ → List CoapOption → Edited → Edited
retry stale room id value os none = none
retry stale room id value os (some (os', used, e)) =
    if is_too_small e
    then set_uint32 stale (of_len (room + pos_part used)) id value os
    else some (os', used, e)

unfoldable pub set_with_growth : CoapOption → ℕ → ℕ → ℕ → List CoapOption → Edited
set_with_growth stale room id value os =
    retry stale room id value os (set_uint32 stale (of_len room) id value os)

-- Whatever room is left in the buffer, SetOptionUint32 of a 32-bit number on sorted options ends with
-- no error and no panic, and leaves one option with the number's shortest form in place of all with
-- the same number.
pub set_with_growth-put :
    (stale : CoapOption) (room id value : ℕ) (os : List CoapOption)
    → value < 2 ^ 32
    → IsSortedFrom 0 os
    → set_with_growth stale room id value os
      ≡ some (
        put (record { id = id; value = uint_bytes value }) os,
        pos (length (uint_bytes value)),
        none,
      )
unfolding set_with_growth put
set_with_growth-put stale room id value os h s =
    let first = set_uint32-sorted stale (of_len room) id value os h s in
    let second =
      set_uint32-sorted stale (of_len (room + length (uint_bytes value))) id value os h s in
    elim (Bool-cases (ltb room (length (uint_bytes value)))) [
      | inl e ↦
          rw
            (
              first,
              e,
              second,
              le→not_ltb (room + length (uint_bytes value)) (length (uint_bytes value))
                  (omega arith),
            )
            refl
      | inr e ↦ rw (first, e) refl
    ]
