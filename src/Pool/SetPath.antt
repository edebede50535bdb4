-- ===== src/Pool/SetPath.antt =====
-- message/pool/message.go: SetPath, which grows the buffer of values when it is too small. The message
-- keeps its slice of options, whose cells the first try may have moved.
use go_coap.Message.Fault.{Result, ok, err, stuck, too_small_buffer}
use go_coap.Message.Defs.{CoapOption}
use go_coap.Message.Access.{Edited}
use go_coap.Message.Path.{get_path_buffer_size, set_path}
use go_coap.Prelude.{negsuc}
use go_coap.Prelude.{ℕ, ◌+◌}
use go_coap.Prelude.{none, some, List}

abbrev expanded : CoapOption → ℕ → List ℕ → List CoapOption → Result ℕ → Edited
expanded stale room path os (ok size) = set_path stale (room + size) path os
expanded stale room path os (err e) = some (os, negsuc 0, some e)
expanded stale room path os stuck = none

abbrev again : CoapOption → ℕ → List ℕ → Edited → Edited
again stale room path (some (os, n, some too_small_buffer)) =
    expanded stale room path os (get_path_buffer_size path)
again stale room path edited = edited

unfoldable pub set_message_path : CoapOption → ℕ → List ℕ → List CoapOption → Edited
set_message_path stale room path os = again stale room path (set_path stale room path os)
