-- ===== src/Message/Marshal.antt =====
-- message/option.go, message/options.go: writing options.
use go_coap.Message.Writer.{
  Buffer, buffer_len, Marshaled, done, too_small, Cursor, live, dead, start, rest_of, advance,
  finish,
}
use go_coap.Message.Defs.{CoapOption}
use go_coap.Prelude.{ltb, leb, ◌==◌, if◌then◌else◌}
use go_coap.Prelude.{length}
use go_coap.Prelude.{put_uint16, ℤ, pos, negsuc, sub_ℕ}
use go_coap.Prelude.{ℕ, ◌+◌, ◌-◌, ◌*◌, ◌%◌, bit_or}
use go_coap.Prelude.{List, [], ◌∷◌}

unfoldable pub extend_opt : ℤ → ℤ × ℕ
extend_opt (pos n) =
    if leb 13 n then (if leb 269 n then (pos 14, n - 269) else (pos 13, n - 13)) else (pos n, 0)
extend_opt (negsuc n) = (negsuc n, 0)

-- byte(d), by two's complement
abbrev pub to_byte : ℤ → ℕ
to_byte (pos n) = n % 256
to_byte (negsuc n) = 255 - n % 256

-- d << 4
abbrev pub shl4 : ℤ → ℤ
shl4 (pos n) = pos (n * 16)
shl4 (negsuc n) = negsuc (n * 16 + 15)

abbrev ext_two : Buffer → ℕ → Marshaled
ext_two buf ext = if ltb 1 (buffer_len buf) then done 2 (put_uint16 (ext % 65536)) else too_small 2

abbrev ext_one : Buffer → ℕ → Marshaled
ext_one buf ext = if ltb 0 (buffer_len buf) then done 1 ((ext % 256) ∷ []) else too_small 1

unfoldable pub marshal_option_header_ext : Buffer → ℤ → ℕ → Marshaled
marshal_option_header_ext buf (pos opt) ext =
    if opt == 13 then ext_one buf ext else if opt == 14 then ext_two buf ext else done 0 []
marshal_option_header_ext buf (negsuc n) ext = done 0 []

-- `buf[0] = byte(d<<4) | byte(l)` if there is room
unfoldable pub marshal_first_byte : Buffer → ℤ → ℤ → Marshaled
marshal_first_byte buf d l =
    if ltb 0 (buffer_len buf)
    then done 1 (bit_or (to_byte (shl4 d)) (to_byte l) ∷ [])
    else too_small 1

unfoldable pub marshal_option_header : Buffer → ℤ → ℕ → Marshaled
marshal_option_header buf delta len =
    let (d, dx) = extend_opt delta in
    let (l, lx) = extend_opt (pos len) in
    let c1 = advance (start buf) (marshal_first_byte buf d l) in
    let c2 = advance c1 (marshal_option_header_ext (rest_of c1) d dx) in
    finish (advance c2 (marshal_option_header_ext (rest_of c2) l lx))

-- Option.MarshalValue
unfoldable pub marshal_value : CoapOption → Buffer → Marshaled
marshal_value o buf =
    if ltb (buffer_len buf) (length o.value)
    then too_small (length o.value)
    else done (length o.value) o.value

-- Option.Marshal; the first call of MarshalValue, on nil, gives the length of the value.
unfoldable pub marshal_option : CoapOption → Buffer → ℕ → Marshaled
marshal_option o buf previous_id =
    let delta = sub_ℕ o.id previous_id in
    let c1 = advance (start buf) (marshal_option_header buf delta (length o.value)) in
    finish (advance c1 (marshal_value o (rest_of c1)))

-- `if length > len(buf) { buf = nil }`
abbrev pub check_room : Cursor → Cursor
check_room (live k size bytes) = if ltb k size then dead size else live k size bytes
check_room (dead size) = dead size

unfoldable pub marshal_loop : Cursor → ℕ → List CoapOption → Cursor
marshal_loop c previous_id [] = c
marshal_loop c previous_id (o ∷ options) =
    let c1 = check_room c in
    marshal_loop (advance c1 (marshal_option o (rest_of c1) previous_id)) o.id options

-- Options.Marshal
unfoldable pub marshal_options : Buffer → List CoapOption → Marshaled
marshal_options buf options = finish (marshal_loop (start buf) 0 options)
