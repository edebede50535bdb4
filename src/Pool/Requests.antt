-- ===== src/Pool/Requests.antt =====
-- message/pool/message.go: a message is set up as a request of a kind, with its path and body.
use go_coap.Message.Fault.{Fault}
use go_coap.Message.Defs.{CoapOption}
use go_coap.Message.Access.{Edited}
use go_coap.Pool.{PoolMessage, set_body}
use go_coap.Pool.SetPath.{set_message_path}
use go_coap.Prelude.{ℕ}
use go_coap.Prelude.{Option, none, some, List}
use go_coap.Pool.Fields.{reset_options_to, set_content_format}

-- The message and its error behind SetPath; none is a panic.
abbrev with_path : PoolMessage → Edited → Option (PoolMessage × Option Fault)
with_path m none = none
with_path m (some (os, used, e)) = some (record m { options = os }, e)

-- setupCommon; `stale` and `room` are as in Pool/SetPath.
unfoldable pub setup_common :
    CoapOption
    → ℕ
    → ℕ
    → List ℕ
    → List ℕ
    → List CoapOption
    → PoolMessage
    → Option (PoolMessage × Option Fault)
setup_common stale room code path token os m =
    let m' = reset_options_to os (record m { code = code; token = token }) in
    with_path m' (set_message_path stale room path m'.options)

abbrev with_payload :
    ℕ → Option (List ℕ) → Option (PoolMessage × Option Fault) → Option (PoolMessage × Option Fault)
with_payload format none r = r
with_payload format (some body) none = none
with_payload format (some body) (some (m, some e)) = some (m, some e)
with_payload format (some body) (some (m, none)) =
    some (set_body body (set_content_format format m), none)

-- SetupGet and SetupDelete; SetupPost, SetupPut, SetupFetch, SetupPatch and SetupIPatch
unfoldable pub setup_get :
    CoapOption
    → ℕ
    → List ℕ
    → List ℕ
    → List CoapOption
    → PoolMessage
    → Option (PoolMessage × Option Fault)
setup_get stale room path token os m = setup_common stale room 1 path token os m

unfoldable pub setup_delete :
    CoapOption
    → ℕ
    → List ℕ
    → List ℕ
    → List CoapOption
    → PoolMessage
    → Option (PoolMessage × Option Fault)
setup_delete stale room path token os m = setup_common stale room 4 path token os m

abbrev setup_with :
    ℕ
    → CoapOption
    → ℕ
    → List ℕ
    → List ℕ
    → ℕ
    → Option (List ℕ)
    → List CoapOption
    → PoolMessage
    → Option (PoolMessage × Option Fault)
setup_with code stale room path token format payload os m =
    with_payload format payload (setup_common stale room code path token os m)

unfoldable pub setup_post :
    CoapOption
    → ℕ
    → List ℕ
    → List ℕ
    → ℕ
    → Option (List ℕ)
    → List CoapOption
    → PoolMessage
    → Option (PoolMessage × Option Fault)
setup_post = setup_with 2

unfoldable pub setup_put :
    CoapOption
    → ℕ
    → List ℕ
    → List ℕ
    → ℕ
    → Option (List ℕ)
    → List CoapOption
    → PoolMessage
    → Option (PoolMessage × Option Fault)
setup_put = setup_with 3

unfoldable pub setup_fetch :
    CoapOption
    → ℕ
    → List ℕ
    → List ℕ
    → ℕ
    → Option (List ℕ)
    → List CoapOption
    → PoolMessage
    → Option (PoolMessage × Option Fault)
setup_fetch = setup_with 5

unfoldable pub setup_patch :
    CoapOption
    → ℕ
    → List ℕ
    → List ℕ
    → ℕ
    → Option (List ℕ)
    → List CoapOption
    → PoolMessage
    → Option (PoolMessage × Option Fault)
setup_patch = setup_with 6

unfoldable pub setup_ipatch :
    CoapOption
    → ℕ
    → List ℕ
    → List ℕ
    → ℕ
    → Option (List ℕ)
    → List CoapOption
    → PoolMessage
    → Option (PoolMessage × Option Fault)
setup_ipatch = setup_with 7
