-- ===== src/Blockwise/Exchange.antt =====
-- net/blockwise/blockwise.go and net/blockwise/internal/blocks: what the engine asks of a message, and
-- the sizes of blocks. Exponents are up to 7, as BlockOption decodes them and as Do and Handle check.
use go_coap.Message.Fault.{Fault, Result, ok, err, stuck}
use go_coap.Message.Defs.{observe_id}
use go_coap.Blockwise.BlockOption.{Block, decode_block_option}
use go_coap.Pool.{PoolMessage, acquire, get_option_uint32, has_option}
use go_coap.Prelude.{ltb, leb, ◌==◌, if◌then◌else◌}
use go_coap.Prelude.{ℕ, ◌*◌, ◌/◌, ◌^◌, min}
use go_coap.Prelude.{Bool, true, false, not, ◌&&◌, ◌||◌}
use go_coap.Prelude.{Option, none, some}

abbrev pub block1 : ℕ
block1 = 27

abbrev pub block2 : ℕ
block2 = 23

abbrev pub size1 : ℕ
size1 = 60

abbrev pub size2 : ℕ
size2 = 28

-- A family of codes by name (message/codes/codes.go).
abbrev pub code_continue : ℕ
code_continue = 95

abbrev pub code_created : ℕ
code_created = 65

abbrev pub code_content : ℕ
code_content = 69

abbrev pub code_incomplete : ℕ
code_incomplete = 136

abbrev pub code_too_large : ℕ
code_too_large = 141

abbrev pub code_unavailable : ℕ
code_unavailable = 163

abbrev pub code_fetch : ℕ
code_fetch = 5

-- POST, PUT, FETCH, PATCH and IPATCH
unfoldable pub is_body_method : ℕ → Bool
is_body_method code = (code == 2) || (code == 3) || (leb 5 code && leb code 7)

-- GET and DELETE
unfoldable pub is_get_or_delete : ℕ → Bool
is_get_or_delete code = (code == 1) || (code == 4)

-- Empty and the signals of TCP
unfoldable pub is_signal : ℕ → Bool
is_signal code = (code == 0) || (leb 225 code && leb code 229)

unfoldable pub is_request_code : ℕ → Bool
is_request_code code = leb 1 code && ltb code 32

-- SZX.Size of an exponent up to 7
unfoldable pub block_size : ℕ → ℕ
block_size szx = 16 * 2 ^ min szx 6

unfoldable pub buffer_size : ℕ → ℕ → ℕ
buffer_size szx max_message_size =
    if ltb szx 7 then block_size szx else max_message_size / block_size szx * block_size szx

unfoldable pub get_szx : ℕ → ℕ → ℕ
get_szx szx max_szx = if ltb max_szx szx then max_szx else szx

-- CloneMessage
unfoldable pub clone_message : PoolMessage → PoolMessage
clone_message r = record (acquire r.deadline) {
  code = r.code;
  token = r.token;
  options = r.options;
  kind = r.kind;
}

-- An option's block, if the option is there and can be decoded.
abbrev usable : Block × Option Fault → Option Block
usable (b, none) = some b
usable (b, some e) = none

abbrev of_value : Result ℕ → Option Block
of_value (ok value) = usable (decode_block_option value)
of_value (err e) = none
of_value stuck = none

unfoldable pub block_of : ℕ → PoolMessage → Option Block
block_of id r = of_value (get_option_uint32 id r)

abbrev fit : ℕ → Option Block → ℕ
fit max_szx none = max_szx
fit max_szx (some b) = if ltb b.szx max_szx then b.szx else max_szx

unfoldable pub fit_szx : PoolMessage → ℕ → ℕ → ℕ
fit_szx r block_type max_szx = fit max_szx (block_of block_type r)

unfoldable pub is_observe_response : PoolMessage → Bool
is_observe_response m = has_option observe_id m && leb code_created m.code

abbrev is_later : Option Block → Bool
is_later none = false
is_later (some b) = ltb 0 b.num

unfoldable pub is_block2_continuation : PoolMessage → Bool
is_block2_continuation r = is_later (block_of block2 r)

unfoldable pub may_resume_block2 : PoolMessage → Bool
may_resume_block2 r =
    if (r.code == 2) || (r.code == 3) || (r.code == 6) || (r.code == 7)
    then is_block2_continuation r
    else if (r.code == 1) || (r.code == 5)
    then not (has_option observe_id r) && is_block2_continuation r
    else false

unfoldable pub wants_to_be_received : PoolMessage → Bool
wants_to_be_received r =
    if has_option block1 r && is_body_method r.code
    then true
    else if has_option block2 r && is_request_code r.code
    then false
    else not (r.code == code_continue)
