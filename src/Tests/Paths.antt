-- ===== src/Tests/Paths.antt =====
-- Runs of SetPath on concrete options.
use go_coap.Message.Fault.{ok}
use go_coap.Message.Defs.{CoapOption}
use go_coap.Message.Access.{add_string, add_bytes}
use go_coap.Message.Path.{
  set_path, set_path_option, get_path_buffer_size, size_loop, cut_segment, add_segments,
}
use go_coap.Message.Search.{find, find_position, find_loop, find_range, scan_down, scan_up}
use go_coap.Message.Edit.{
  remove_option, remove_range, move_down, move_up, copy_cell, put, add_option,
}
use go_coap.Message.Path.{path_of, read_uri_path}
use go_coap.Message.Path.Reading.{path-set_path}
use go_coap.Message.Edit.{◌>>=◌}
use go_coap.Pool.SetPath.{set_message_path}
use go_coap.Tests.Options.{options, sorted}
use go_coap.Prelude.{pos}
use go_coap.Prelude.{◌≡◌, refl, true}
use go_coap.Prelude.{none, some, [], ◌∷◌, arith}

path-set_path_example :
    (set_path (record { id = 0; value = [] }) 8 (path_of ((97 ∷ 98 ∷ []) ∷ (99 ∷ []) ∷ [])) options
      >>= λ edited. read_uri_path (λ bytes. true) edited.0)
    ≡ some (ok (path_of ((97 ∷ 98 ∷ []) ∷ (99 ∷ []) ∷ [])))
path-set_path_example =
    path-set_path (λ bytes. true) (record { id = 0; value = [] }) 8 (97 ∷ 98 ∷ []) ((99 ∷ []) ∷ [])
      options sorted
      ((omega arith, omega arith, (refl, (refl, tt))), ((omega arith, omega arith, (refl, tt)), tt))
      (omega arith) refl

abbrev host : CoapOption
host = record { id = 3; value = 104 ∷ [] }

abbrev old_path : CoapOption
old_path = record { id = 11; value = 97 ∷ [] }

abbrev format : CoapOption
format = record { id = 12; value = 50 ∷ [] }

-- A buffer without room: Content-Format is there twice.
set_message_path_test :
    set_message_path host 0 (47 ∷ 98 ∷ []) (host ∷ old_path ∷ format ∷ [])
    ≡ some (host ∷ record { id = 11; value = 98 ∷ [] } ∷ format ∷ format ∷ [], pos 1, none)
unfolding set_message_path set_path set_path_option remove_option find find_position find_loop
    remove_range find_range scan_down scan_up move_down copy_cell put get_path_buffer_size size_loop
    cut_segment add_segments add_string add_bytes add_option move_up
set_message_path_test = refl
