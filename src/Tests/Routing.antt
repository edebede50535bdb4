-- ===== src/Tests/Routing.antt =====
-- Runs of the router, of requests without a token and of the quotas on concrete input.
use mathlib.Core.List.{Memᴰ}
use go_coap.Blockwise.QBlock.Budget.{q_reserve}
use go_coap.Blockwise.QBlock.Budget.Interleaving.{
  Engine, reserves_engine, Reachable, here, next, IsSound, quotas-IsSound,
}
use go_coap.Mux.Router.{Handler, Route, Router, filter_path, match_loop, match, same_string}
use go_coap.Mux.Router.Matching.{IsLongest, match-IsLongest, match-order}
use go_coap.Net.Tokenless.{
  TokenlessHandler, unused, Call, registers, loads, call_all, clean_up, IsRefusal, clean_up-blocks,
  call, register, load_handler, hands, IsFinal, call_all-IsFinal,
}
use go_coap.Prelude.{map}
use go_coap.Prelude.{length, All}
use go_coap.Prelude.{ℕ, suc}
use go_coap.Prelude.{◌≡◌, refl, sym, ap, ◌∙◌, Bool, true, false}
use go_coap.Prelude.{none, some, List, [], ◌∷◌, arith}

abbrev pending : TokenlessHandler
pending = record { handler = some 0; consumed = false; blocked = false; next = 1 }

abbrev calls : List Call
calls = loads true ∷ registers ∷ loads true ∷ []

clean_up-blocks_example : All IsRefusal (call_all calls (clean_up 0 false pending)).1
clean_up-blocks_example = clean_up-blocks 0 calls pending refl

-- A registration is seen, consumed, and asked for in both ways again.
abbrev responses : List Call
responses = registers ∷ loads false ∷ loads true ∷ loads false ∷ loads true ∷ []

-- It is handed out twice, the second time for good.
responses_test :
    map (λ a. hands 0 a) (call_all responses unused).1 ≡ false ∷ true ∷ true ∷ false ∷ false ∷ []
unfolding call_all call register load_handler
responses_test = refl

call_all-IsFinal_example : IsFinal 0 (call_all responses unused).1
call_all-IsFinal_example = call_all-IsFinal 0 responses unused (λ j e. cc e)

-- Patterns match paths that are the same.
abbrev same_path : List ℕ → List ℕ → Bool
same_path = same_string

abbrev count : Handler ℕ
count req n = suc n

abbrev slash_route : Route ℕ (List ℕ)
slash_route = record { handler = count; pattern = 47 ∷ []; regex_matcher = 47 ∷ [] }

abbrev a_route : Route ℕ (List ℕ)
a_route = record { handler = count; pattern = 47 ∷ 97 ∷ []; regex_matcher = 47 ∷ 97 ∷ [] }

abbrev router : Router ℕ (List ℕ)
router = record { middlewares = []; default_handler = none; routes = slash_route ∷ a_route ∷ [] }

abbrev turned : Router ℕ (List ℕ)
turned = record { middlewares = []; default_handler = none; routes = a_route ∷ slash_route ∷ [] }

finds_a : match same_path (47 ∷ 97 ∷ []) router ≡ some a_route
unfolding match match_loop filter_path
finds_a = refl

match-IsLongest_example :
    IsLongest ℕ same_path
      (filter_path (47 ∷ 97 ∷ []))
      router.routes
      (match same_path (47 ∷ 97 ∷ []) router)
match-IsLongest_example = match-IsLongest ℕ same_path (47 ∷ 97 ∷ []) router

there : (q : Route ℕ (List ℕ)) → Memᴰ q router.routes → Memᴰ q turned.routes
there q (Memᴰ.head e) = Memᴰ.tail (Memᴰ.head e)
there q (Memᴰ.tail (Memᴰ.head e)) = Memᴰ.head e
there q (Memᴰ.tail (Memᴰ.tail m)) = elim m [ ]

back : (q : Route ℕ (List ℕ)) → Memᴰ q turned.routes → Memᴰ q router.routes
back q (Memᴰ.head e) = Memᴰ.tail (Memᴰ.head e)
back q (Memᴰ.tail (Memᴰ.head e)) = Memᴰ.head e
back q (Memᴰ.tail (Memᴰ.tail m)) = elim m [ ]

one_of_a_length :
    (p q : Route ℕ (List ℕ))
    → Memᴰ p router.routes
    → Memᴰ q router.routes
    → same_path p.regex_matcher (filter_path (47 ∷ 97 ∷ [])) ≡ true
    → same_path q.regex_matcher (filter_path (47 ∷ 97 ∷ [])) ≡ true
    → length p.pattern ≡ length q.pattern
    → p ≡ q
one_of_a_length p q (Memᴰ.head e) (Memᴰ.head e2) f g h = e ∙ sym e2
one_of_a_length p q (Memᴰ.tail (Memᴰ.head e)) (Memᴰ.tail (Memᴰ.head e2)) f g h = e ∙ sym e2
one_of_a_length p q (Memᴰ.head e) (Memᴰ.tail (Memᴰ.head e2)) f g h =
    absurd (omega (arith, ap (λ r. length r.pattern) e, ap (λ r. length r.pattern) e2, h))
one_of_a_length p q (Memᴰ.tail (Memᴰ.head e)) (Memᴰ.head e2) f g h =
    absurd (omega (arith, ap (λ r. length r.pattern) e, ap (λ r. length r.pattern) e2, h))
one_of_a_length p q (Memᴰ.head e) (Memᴰ.tail (Memᴰ.tail m)) f g h = elim m [ ]
one_of_a_length p q (Memᴰ.tail (Memᴰ.head e)) (Memᴰ.tail (Memᴰ.tail m)) f g h = elim m [ ]
one_of_a_length p q (Memᴰ.tail (Memᴰ.tail m)) _ f g h = elim m [ ]

match-order_example : match same_path (47 ∷ 97 ∷ []) router ≡ match same_path (47 ∷ 97 ∷ []) turned
match-order_example =
    match-order ℕ same_path (47 ∷ 97 ∷ []) router turned there back one_of_a_length

abbrev idle : Engine
idle = record { counter = 0; held = 0; half = 0; leaving = 0 }

abbrev reserved : Engine
reserved = record { counter = 5; held = 0; half = 5; leaving = 0 }

reserving :
    Reachable 8 9
      (record { engines = idle ∷ idle ∷ []; process = 0 })
      (record { engines = idle ∷ reserved ∷ []; process = 0 })
unfolding q_reserve
reserving = next (reserves_engine (idle ∷ []) [] idle 0 5 refl) here

quotas-IsSound_example : IsSound 8 9 (record { engines = idle ∷ reserved ∷ []; process = 0 })
quotas-IsSound_example =
    quotas-IsSound 8 9 (idle ∷ idle ∷ []) (record { engines = idle ∷ reserved ∷ []; process = 0 })
      ((refl, refl, refl, refl), ((refl, refl, refl, refl), tt)) reserving
