-- ===== src/Message/Uint32.antt =====
-- message/encodeDecodeUint32.go: numbers in option values, big-endian without leading zeros.
use go_coap.Message.Writer.{Buffer, of_len, buffer_len, Marshaled, done, too_small, fit}
use go_coap.Prelude.{ltb, leb, ◌==◌, if◌then◌else◌}
use go_coap.Prelude.{length, drop}
use go_coap.Prelude.{put_uint16, put_uint32, uint32}
use go_coap.Prelude.{ℕ, ◌/◌, ◌%◌, ◌^◌, ◌≤◌, ◌<◌}
use go_coap.Prelude.{◌≡◌}
use go_coap.Prelude.{List, [], ◌∷◌, arith}

unfoldable pub encode_uint32 : Buffer → ℕ → Marshaled
encode_uint32 buf value =
    if value == 0
    then done 0 []
    else if leb value 0xff
    then (if ltb (buffer_len buf) 1 then too_small 1 else done 1 ((value % 256) ∷ []))
    else if leb value 0xffff
    then (if ltb (buffer_len buf) 2 then too_small 2 else done 2 (put_uint16 value))
    else if leb value 0xffffff
    then (if ltb (buffer_len buf) 3 then too_small 3 else done 3 (drop 1 (put_uint32 value)))
    else (if ltb (buffer_len buf) 4 then too_small 4 else done 4 (put_uint32 value))

-- DecodeUint32: the value and the bytes read, at most four.
abbrev big_endian : List ℕ → ℕ × ℕ
big_endian [] = (0, 0)
big_endian (a ∷ []) = (uint32 0 0 0 a, 1)
big_endian (a ∷ b ∷ []) = (uint32 0 0 a b, 2)
big_endian (a ∷ b ∷ c ∷ []) = (uint32 0 a b c, 3)
big_endian (a ∷ b ∷ c ∷ d ∷ rest) = (uint32 a b c d, 4)

unfoldable pub decode_uint32 : List ℕ → ℕ × ℕ
decode_uint32 buf = big_endian buf

-- The shortest big-endian form.
unfoldable pub uint_bytes : ℕ → List ℕ
uint_bytes value =
    if ltb value 1
    then []
    else if ltb value 256
    then value ∷ []
    else if ltb value 65536
    then (value / 256) ∷ (value % 256) ∷ []
    else if ltb value 16777216
    then (value / 65536) ∷ (value / 256 % 256) ∷ (value % 256) ∷ []
    else (value / 16777216) ∷ (value / 65536 % 256) ∷ (value / 256 % 256) ∷ (value % 256) ∷ []

-- EncodeUint32 writes the shortest big-endian form of a uint32 if the buffer has room for it, and
-- otherwise reports the room needed.
pub encode_uint32-shortest :
    (buf : Buffer) (value : ℕ)
    → value < 2 ^ 32
    → encode_uint32 buf value ≡ fit buf (uint_bytes value)
unfolding encode_uint32 uint_bytes
encode_uint32-shortest buf value h = ground arith

-- DecodeUint32 reads back what EncodeUint32 wrote into a buffer of four bytes or more.
pub decode-encode_uint32 :
    (k value : ℕ)
    → 4 ≤ k
    → value < 2 ^ 32
    → (bytes : List ℕ) × (encode_uint32 (of_len k) value ≡ done (length bytes) bytes)
      × (decode_uint32 bytes ≡ (value, length bytes))
      × (length bytes ≤ 4)
unfolding encode_uint32 uint_bytes decode_uint32
decode-encode_uint32 k value h1 h2 = (uint_bytes value, ground arith, ground arith, ground arith)
