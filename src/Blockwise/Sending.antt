-- ===== src/Blockwise/Sending.antt =====
-- net/blockwise/blockwise.go: cutting the body of a message into blocks. A body is read by Seek and
-- io.ReadFull from a reader over its bytes: Seek beyond the end is no error, and ReadFull reads what is
-- left, with an error unless that fills the buffer.
pub mod Slices
pub mod Reading
use go_coap.Message.Fault.{
  Fault, Result, ok, err, ◌>>=◌, cannot_read, nil_body, payload_too_large, unsupported_command,
}
use go_coap.Blockwise.BlockOption.{Block, encode_block_option, decode_block_option}
use go_coap.Blockwise.Exchange.{
  block1, block2, size1, size2, is_body_method, block_size, buffer_size, get_szx, clone_message,
}
use go_coap.Pool.{PoolMessage, body_size, bytes_of, set_option_uint32}
use go_coap.Prelude.{ltb, leb, ◌==◌, if◌then◌else◌}
use go_coap.Prelude.{length, take, drop}
use go_coap.Prelude.{pos}
use go_coap.Prelude.{ℕ, ◌+◌, ◌*◌, ◌/◌, ◌^◌}
use go_coap.Prelude.{Bool, true, not, ◌||◌}
use go_coap.Prelude.{Option, none, some, List}

-- The option of the block and of the size that a message with a code uses.
abbrev pub block_type_of : ℕ → ℕ
block_type_of code = if is_body_method code then block1 else block2

abbrev pub size_type_of : ℕ → ℕ
size_type_of code = if is_body_method code then size1 else size2

-- `off`: a Block1 option acknowledges a block, and the next one is sent.
unfoldable pub offset_of : ℕ → ℕ → ℕ → ℕ → ℕ
offset_of block_type szx num buf_len =
    if block_type == block1 then num * block_size szx + buf_len else num * block_size szx

-- Seek and ReadFull of `count` bytes, with EOF accepted at the end of the body
unfoldable pub read_block : ℕ → ℕ → List ℕ → Result (List ℕ)
read_block off count bytes =
    let chunk = take count (drop off bytes) in
    if (length chunk == count) || (off + length chunk == length bytes)
    then ok chunk
    else err cannot_read

abbrev pub as_uint32 : ℕ → Result ℕ
as_uint32 n = if ltb n (2 ^ 32) then ok n else err payload_too_large

-- The block of `bytes` at `off`, in a copy of `m`, and whether more follow.
unfoldable pub block_message : PoolMessage → ℕ → ℕ → ℕ → List ℕ → Result (PoolMessage × Bool)
block_message m szx off buf_len bytes = do
  chunk ← read_block off buf_len bytes
  total ← as_uint32 (length bytes)
  let more = not (off + length chunk == length bytes)
  block ← encode_block_option szx (pos (off / block_size szx)) more
  let sized =
      set_option_uint32 (size_type_of m.code) total (record (clone_message m) { body = some chunk })
  ok (set_option_uint32 (block_type_of m.code) block sized, more)

abbrev decoded : Block × Option Fault → Result Block
decoded (b, none) = ok b
decoded (b, some e) = err e

abbrev pub body_of : Option (List ℕ) → Result (List ℕ)
body_of none = err nil_body
body_of (some bytes) = ok bytes

-- createSendingMessage
unfoldable pub create_sending_message : PoolMessage → ℕ → ℕ → ℕ → Result (PoolMessage × Bool)
create_sending_message m max_szx max_message_size block = do
  b ← decoded (decode_block_option block)
  bytes ← body_of m.body
  let szx = get_szx b.szx max_szx
  let buf_len = buffer_size szx max_message_size
  block_message m szx (offset_of (block_type_of m.code) szx b.num buf_len) buf_len bytes

-- prepareSendingRequest: the request itself, or its first block
unfoldable pub prepare_sending_request : PoolMessage → ℕ → ℕ → Result PoolMessage
prepare_sending_request r max_szx max_message_size =
    if leb (body_size r) (block_size max_szx)
    then ok r
    else if not (is_body_method r.code)
    then err unsupported_command
    else do
      total ← as_uint32 (body_size r)
      let sized = set_option_uint32 size1 total (clone_message r)
      block ← encode_block_option max_szx (pos 0) true
      chunk ← read_block 0 (buffer_size max_szx max_message_size) (bytes_of r.body)
      ok (record (set_option_uint32 block1 block sized) { body = some chunk })
