-- ===== src/Pool.antt =====
-- message/pool/message.go: a message with the reader of its body. Options are kept in the order of
-- their numbers; on such options Set, Find and Remove do what is written here (Pool/Growth and
-- Message/Edit). A body is the bytes of its reader, none for a nil reader: those who read one seek
-- first. `deadline` is that of the message's context.
pub mod Laws
pub mod Growth
pub mod SetPath
pub mod Decoding
pub mod Encoding
pub mod Fields
pub mod Requests
use go_coap.Message.Fault.{Result, ok, err, option_not_found}
use go_coap.Message.Defs.{CoapOption}
use go_coap.Message.Uint32.{decode_uint32, uint_bytes}
use go_coap.Message.Edit.Split.{below, same, above}
use go_coap.Prelude.{ltb}
use go_coap.Prelude.{length}
use go_coap.Prelude.{ℤ, negsuc}
use go_coap.Prelude.{ℕ}
use go_coap.Prelude.{Bool}
use go_coap.Prelude.{Option, none, some, List, [], ◌∷◌, ◌++◌}

pub record PoolMessage : Type 0 where
  pub code : ℕ
  pub token : List ℕ
  pub options : List CoapOption
  pub body : Option (List ℕ)
  pub kind : ℤ
  pub deadline : Option ℕ

-- AcquireMessage(ctx): a message from the pool
abbrev pub acquire : Option ℕ → PoolMessage
acquire deadline = record {
  code = 0;
  token = [];
  options = [];
  body = none;
  kind = negsuc 0;
  deadline = deadline;
}

-- Options.Set and Options.Remove
unfoldable pub put : CoapOption → List CoapOption → List CoapOption
put o os = below o.id os ++ (o ∷ above o.id os)

unfoldable pub without : ℕ → List CoapOption → List CoapOption
without id os = below id os ++ above id os

-- GetBytes and GetUint32 of the options with one number
abbrev pub first_bytes : List CoapOption → Result (List ℕ)
first_bytes [] = err option_not_found
first_bytes (o ∷ os) = ok o.value

abbrev pub first_uint32 : List CoapOption → Result ℕ
first_uint32 [] = err option_not_found
first_uint32 (o ∷ os) = ok (decode_uint32 o.value).0

unfoldable pub get_option_bytes : ℕ → PoolMessage → Result (List ℕ)
get_option_bytes id m = first_bytes (same id m.options)

unfoldable pub get_option_uint32 : ℕ → PoolMessage → Result ℕ
get_option_uint32 id m = first_uint32 (same id m.options)

unfoldable pub has_option : ℕ → PoolMessage → Bool
has_option id m = ltb 0 (length (same id m.options))

unfoldable pub set_option_uint32 : ℕ → ℕ → PoolMessage → PoolMessage
set_option_uint32 id value m = record m {
  options = put (record { id = id; value = uint_bytes value }) m.options;
}

unfoldable pub set_option_bytes : ℕ → List ℕ → PoolMessage → PoolMessage
set_option_bytes id value m = record m {
  options = put (record { id = id; value = value }) m.options;
}

unfoldable pub remove : ℕ → PoolMessage → PoolMessage
remove id m = record m { options = without id m.options }

-- BodySize, Body and SetBody
abbrev pub bytes_of : Option (List ℕ) → List ℕ
bytes_of none = []
bytes_of (some bytes) = bytes

unfoldable pub body_size : PoolMessage → ℕ
body_size m = length (bytes_of m.body)

abbrev pub set_body : List ℕ → PoolMessage → PoolMessage
set_body bytes m = record m { body = some bytes }
