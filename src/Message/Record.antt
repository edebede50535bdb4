-- ===== src/Message/Record.antt =====
-- message/message.go, message/type.go, message/getmid.go: messages.
use go_coap.Message.Defs.{CoapOption}
use go_coap.Prelude.{ℤ, pos, pos_part, ltb_ℤ}
use go_coap.Prelude.{ℕ, ◌+◌, ◌%◌, ◌^◌}
use go_coap.Prelude.{◌≡◌, ap, Bool, true, not, ◌&&◌}
use go_coap.Prelude.{List, arith}

abbrev pub max_token_size : ℕ
max_token_size = 8

-- `kind` is the field Type; it and `message_id` may be -1, for unset.
pub record Message : Type 0 where
  pub token : List ℕ
  pub options : List CoapOption
  pub code : ℕ
  pub payload : List ℕ
  pub message_id : ℤ
  pub kind : ℤ

-- ValidateMID
unfoldable pub validate_mid : ℤ → Bool
validate_mid mid = not (ltb_ℤ mid (pos 0)) && not (ltb_ℤ (pos 65535) mid)

-- ValidateType
unfoldable pub validate_type : ℤ → Bool
validate_type typ = not (ltb_ℤ typ (pos 0)) && not (ltb_ℤ (pos 255) typ)

-- GetMID: the process-wide counter after `atomic.AddUint32(&msgID, 1)`, and the id made from it.
unfoldable pub get_mid : ℕ → ℕ × ℤ
get_mid msg_id = let next = (msg_id + 1) % 2 ^ 32 in (next, pos (next % 65536))

-- Every id that GetMID returns is valid, and two calls in a row return ids that follow one another
-- modulo 2^16.
pub get_mid-follows :
    (msg_id : ℕ)
    → (validate_mid (get_mid msg_id).1 ≡ true)
      × ((get_mid (get_mid msg_id).0).1 ≡ pos ((pos_part (get_mid msg_id).1 + 1) % 65536))
unfolding get_mid validate_mid
get_mid-follows msg_id = (ground arith, ap pos (omega arith))
