-- ===== src/Mux/Router.antt =====
-- mux/router.go and mux/middleware.go: which handler gets a request. `compile` and `matches` are the
-- regular expressions of mux/regexp.go over the Go library. A Go map has no order: the routes are a
-- list, in the order that a `range` happens to take.
pub mod Matching
use go_coap.Message.Fault.{
  Fault, Result, ok, err, stuck, option_not_found, nil_handler, not_registered,
}
use go_coap.Message.Record.{Message}
use go_coap.Message.Path.{read_uri_path}
use go_coap.Prelude.{ltb, ◌==◌, if◌then◌else◌}
use go_coap.Prelude.{length}
use go_coap.Prelude.{ℕ}
use go_coap.Prelude.{Bool, true, false, ◌&&◌}
use go_coap.Prelude.{Option, none, some, List, [], ◌∷◌, ◌++◌}

-- Equality of strings
abbrev pub same_string : List ℕ → List ℕ → Bool
same_string [] [] = true
same_string [] (b ∷ t) = false
same_string (a ∷ s) [] = false
same_string (a ∷ s) (b ∷ t) = (a == b) && same_string s t

-- FilterPath
unfoldable pub filter_path : List ℕ → List ℕ
filter_path [] = 47 ∷ []
filter_path (b ∷ bs) = b ∷ bs

-- A handler works on a state; a nil one does nothing.
abbrev pub Handler {ℓ} : Type ℓ → Type ℓ
Handler S = Message → S → S

abbrev pub serve_if {ℓ} : {S : Type ℓ} → Option (Handler S) → Handler S
serve_if none req s = s
serve_if (some h) req s = h req s

-- The loop over the middlewares, from the last to the first.
unfoldable pub wrap {ℓ} : {S : Type ℓ} → List (Handler S → Handler S) → Handler S → Handler S
wrap [] h = h
wrap (m ∷ ms) h = m (wrap ms h)

pub record Route {ℓ κ} (S : Type ℓ) (R : Type κ) : Type (ℓ ⊔ κ) where
  pub handler : Handler S
  pub pattern : List ℕ
  pub regex_matcher : R

pub record Router {ℓ κ} (S : Type ℓ) (R : Type κ) : Type (ℓ ⊔ κ) where
  pub middlewares : List (Handler S → Handler S)
  pub default_handler : Option (Handler S)
  pub routes : List (Route S R)

abbrev is_not_found : Fault → Bool
is_not_found option_not_found = true
is_not_found _ = false

module _ {ℓ κ} {S : Type ℓ} {R : Type κ} where
  -- r.z[pattern] = route
  unfoldable pub put_route : Route S R → List (Route S R) → List (Route S R)
  put_route r [] = r ∷ []
  put_route r (q ∷ qs) = if same_string q.pattern r.pattern then r ∷ qs else q ∷ put_route r qs

  unfoldable pub find_route : List ℕ → List (Route S R) → Option (Route S R)
  find_route pattern [] = none
  find_route pattern (q ∷ qs) =
      if same_string q.pattern pattern then some q else find_route pattern qs

  unfoldable pub delete_route : List ℕ → List (Route S R) → List (Route S R)
  delete_route pattern [] = []
  delete_route pattern (q ∷ qs) =
      let rest = delete_route pattern qs in if same_string q.pattern pattern then rest else q ∷ rest

  -- DefaultHandle, GetRoute and Use
  unfoldable pub default_handle : Option (Handler S) → Router S R → Router S R
  default_handle h r = record r { default_handler = h }

  unfoldable pub get_route : List ℕ → Router S R → Option (Route S R)
  get_route pattern r = find_route (filter_path pattern) r.routes

  unfoldable pub use_middlewares : List (Handler S → Handler S) → Router S R → Router S R
  use_middlewares more r = record r { middlewares = r.middlewares ++ more }

  abbrev removed : List ℕ → Router S R → Option (Route S R) → Router S R × Result (Unit {0})
  removed pattern r none = (r, err not_registered)
  removed pattern r (some q) = (record r { routes = delete_route pattern r.routes }, ok tt)

  -- HandleRemove
  unfoldable pub handle_remove : List ℕ → Router S R → Router S R × Result (Unit {0})
  handle_remove pattern r =
      removed (filter_path pattern) r (find_route (filter_path pattern) r.routes)

  abbrev chosen : Router S R → Option (Route S R) → Option (Handler S)
  chosen r none = r.default_handler
  chosen r (some q) = some q.handler

  abbrev served : Router S R → Option (Handler S) → Handler S
  served r none req s = s
  served r (some h) req s = wrap r.middlewares h req s

  -- `matchedRoute == nil || len(pattern) > n`
  abbrev pub is_better : Option (Route S R) → Route S R → Bool
  is_better none r = true
  is_better (some best) r = ltb (length best.pattern) (length r.pattern)

module _ {ℓ κ} {S : Type ℓ} {R : Type κ} (compile : List ℕ → Result R) where
  abbrev handled_as : List ℕ → Handler S → Router S R → Result R → Router S R × Result (Unit {0})
  handled_as pattern h r (ok regex) = (
    record r {
      routes =
          put_route (record { handler = h; pattern = pattern; regex_matcher = regex }) r.routes;
    },
    ok tt,
  )
  handled_as pattern h r (err e) = (r, err e)
  handled_as pattern h r stuck = (r, stuck)

  -- Handle
  unfoldable pub handle : List ℕ → Option (Handler S) → Router S R → Router S R × Result (Unit {0})
  handle pattern none r = (r, err nil_handler)
  handle pattern (some h) r = handled_as (filter_path pattern) h r (compile (filter_path pattern))

module _ {ℓ κ} {S : Type ℓ} {R : Type κ} (matches : R → List ℕ → Bool) where
  -- The loop of Match over the routes that are left.
  unfoldable pub match_loop : List ℕ → Option (Route S R) → List (Route S R) → Option (Route S R)
  match_loop path best [] = best
  match_loop path best (r ∷ rs) =
      let skipped = match_loop path best rs in
      let taken = match_loop path (some r) rs in
      if matches r.regex_matcher path && is_better best r then taken else skipped

  -- Match, but for the parameters of the route
  unfoldable pub match : List ℕ → Router S R → Option (Route S R)
  match path r = match_loop (filter_path path) none r.routes

  abbrev serve_path : Router S R → Message → S → Option (Result (List ℕ)) → S
  serve_path r req s (some (ok path)) = served r (chosen r (match path r)) req s
  serve_path r req s (some (err e)) =
      if is_not_found e
      then served r (chosen r (match [] r)) req s
      else serve_if r.default_handler req s
  serve_path r req s (some stuck) = s
  serve_path r req s none = s

  -- ServeCOAP, where `valid` is utf8.Valid; middlewares do not see a request whose path is broken.
  unfoldable pub serve_coap : (List ℕ → Bool) → Router S R → Handler S
  serve_coap valid r req s = serve_path r req s (read_uri_path valid req.options)
