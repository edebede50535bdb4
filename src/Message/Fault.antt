-- ===== src/Message/Fault.antt =====
-- message/error.go, net/blockwise/blockwise.go, net/blockwise/internal/blocks/types.go,
-- net/blockwise/qblock/codec.go, net/blockwise/qblock/config.go, net/observation/handler.go and
-- udp/coder/error.go, tcp/client/session.go: the errors, and Go's (value, error) pair.
use go_coap.Prelude.{Bool, true, false}

pub data Fault : Type 0 where
  too_small_buffer invalid_token_len invalid_value_length short_read option_truncated : Fault
  option_unexpected_extend_marker options_too_small invalid_encoding option_not_found : Fault
  payload_marker_without_payload : Fault
  invalid_szx block_number_exceed_limit block_invalid_size invalid_missing_blocks invalid_config :
      Fault
  request_entity_incomplete cache_full no_paired_request : Fault
  no_sending_message already_exists no_observation unsupported_command : Fault
  cannot_read nil_body payload_too_large no_remote_address many_transfers_match token_in_use : Fault
  invalid_observe empty_token unexpected_code : Fault
  message_truncated message_invalid_version message_too_long invalid_message_id invalid_type : Fault
  max_message_size_exceeded monitor_failed write_failed read_failed : Fault
  pending_limit_exceeded not_granted requests_blocked nil_handler not_registered : Fault

-- `nil_body` is the panic of a call on a nil reader.
-- `stuck` is no Go value: a loop of the model ran out of fuel.
pub data Result {ℓ} (A : Type ℓ) : Type ℓ where
  ok : A → Result A
  err : Fault → Result A
  stuck : Result A

infixl 5 ◌>>=◌
abbrev pub ◌>>=◌ {ℓ ℓ'} : {X : Type ℓ} {Y : Type ℓ'} → Result X → (X → Result Y) → Result Y
stuck >>= next = stuck
err fault >>= next = err fault
ok x >>= next = next x

-- errors.Is(err, ErrOptionsTooSmall)
abbrev is_fault_too_small : Fault → Bool
is_fault_too_small options_too_small = true
is_fault_too_small _ = false

abbrev pub is_too_small {ℓ} : {A : Type ℓ} → Result A → Bool
is_too_small (err e) = is_fault_too_small e
is_too_small _ = false
