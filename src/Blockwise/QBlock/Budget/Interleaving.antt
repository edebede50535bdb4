-- ===== src/Blockwise/QBlock/Budget/Interleaving.antt =====
-- net/blockwise/qblock/budget.go: reservations and releases of many engines, each an atomic step on one
-- counter, in any interleaving.
use go_coap.Blockwise.QBlock.Budget.{q_reserve}
use go_coap.Prelude.{All}
use go_coap.Prelude.{ℕ, ◌+◌, ◌-◌, ◌≤◌}
use go_coap.Prelude.{◌≡◌, refl, sym, true}
use go_coap.Prelude.{List, [], ◌∷◌, ◌++◌, arith}

-- An engine's counter, and what its threads are about: amounts that are reserved, reserved in the
-- engine but not yet in the process, and released in the engine but not yet in the process.
pub record Engine : Type 0 where
  pub counter : ℕ
  pub held : ℕ
  pub half : ℕ
  pub leaving : ℕ

pub record World : Type 0 where
  pub engines : List Engine
  pub process : ℕ

-- The atomic steps of qReserveBytes, qReserveTransfer and their releases, with the limits of an engine
-- and of the process; `xs` and `ys` are the other engines.
pub data Step (engine_limit process_limit : ℕ) : World → World → Type 0 where
  reserves_engine :
      (xs ys : List Engine) (e : Engine) (p n : ℕ)
      → (q_reserve e.counter n engine_limit).1 ≡ true
      → Step engine_limit process_limit
          (record { engines = xs ++ e ∷ ys; process = p })
          (record {
            engines =
                xs
                ++ record e { counter = (q_reserve e.counter n engine_limit).0; half = e.half + n }
                  ∷ ys;
            process = p;
          })
  reserves_process :
      (xs ys : List Engine) (e : Engine) (p n : ℕ)
      → n ≤ e.half
      → (q_reserve p n process_limit).1 ≡ true
      → Step engine_limit process_limit
          (record { engines = xs ++ e ∷ ys; process = p })
          (record {
            engines = xs ++ record e { half = e.half - n; held = e.held + n } ∷ ys;
            process = (q_reserve p n process_limit).0;
          })
  gives_back :
      (xs ys : List Engine) (e : Engine) (p n : ℕ)
      → n ≤ e.half
      → Step engine_limit process_limit
          (record { engines = xs ++ e ∷ ys; process = p })
          (record {
            engines = xs ++ record e { counter = e.counter - n; half = e.half - n } ∷ ys;
            process = p;
          })
  releases_engine :
      (xs ys : List Engine) (e : Engine) (p n : ℕ)
      → n ≤ e.held
      → Step engine_limit process_limit
          (record { engines = xs ++ e ∷ ys; process = p })
          (record {
            engines =
                xs
                ++ record e { counter = e.counter - n; held = e.held - n; leaving = e.leaving + n }
                  ∷ ys;
            process = p;
          })
  releases_process :
      (xs ys : List Engine) (e : Engine) (p n : ℕ)
      → n ≤ e.leaving
      → Step engine_limit process_limit
          (record { engines = xs ++ e ∷ ys; process = p })
          (record { engines = xs ++ record e { leaving = e.leaving - n } ∷ ys; process = p - n })

pub data Reachable (engine_limit process_limit : ℕ) : World → World → Type 0 where
  here : {w : World} → Reachable engine_limit process_limit w w
  next :
      {u v w : World}
      → Step engine_limit process_limit u v
      → Reachable engine_limit process_limit v w
      → Reachable engine_limit process_limit u w

abbrev pub total : List Engine → ℕ
total [] = 0
total (e ∷ es) = (e.held + e.leaving) + total es

-- An engine's counter is what it holds and what is on the way, within the limit.
pub record IsBalanced (engine_limit : ℕ) (e : Engine) : Type 0 where
  pub counts : e.counter ≡ e.held + e.half
  pub within : e.counter ≤ engine_limit

-- The counter of the process is what all engines hold and have not yet released, within the limit.
pub record IsSound (engine_limit process_limit : ℕ) (w : World) : Type 0 where
  pub all_balanced : All (IsBalanced engine_limit) w.engines
  pub counts : w.process ≡ total w.engines
  pub within : w.process ≤ process_limit

total-append :
    (xs : List Engine) (e : Engine) (ys : List Engine)
    → total (xs ++ e ∷ ys) ≡ total xs + ((e.held + e.leaving) + total ys)
total-append [] e ys = omega arith
total-append (x ∷ xs) e ys = omega (arith, total-append xs e ys)

All-at {κ} :
    (P : Engine → Type κ) (xs : List Engine) (e : Engine) (ys : List Engine)
    → All P (xs ++ e ∷ ys)
    → P e
All-at P [] e ys h = h.0
All-at P (x ∷ xs) e ys h = All-at P xs e ys h.1

All-replace {κ} :
    (P : Engine → Type κ) (xs : List Engine) (e d : Engine) (ys : List Engine)
    → All P (xs ++ e ∷ ys)
    → P d
    → All P (xs ++ d ∷ ys)
All-replace P [] e d ys h p = (p, h.1)
All-replace P (x ∷ xs) e d ys h p = (h.0, All-replace P xs e d ys h.1 p)

module _ (engine_limit process_limit : ℕ) where
  replaced :
      (xs ys : List Engine) (e d : Engine) (p q : ℕ)
      → IsSound engine_limit process_limit (record { engines = xs ++ e ∷ ys; process = p })
      → (IsBalanced engine_limit e → IsBalanced engine_limit d)
      → q + (e.held + e.leaving) ≡ p + (d.held + d.leaving)
      → q ≤ process_limit
      → IsSound engine_limit process_limit (record { engines = xs ++ d ∷ ys; process = q })
  replaced xs ys e d p q s f moved fits = record {
    all_balanced =
        All-replace (IsBalanced engine_limit) xs e d ys s.all_balanced
          (f (All-at (IsBalanced engine_limit) xs e ys s.all_balanced));
    counts = omega (arith, s.counts, moved, total-append xs e ys, total-append xs d ys);
    within = fits;
  }

  Step-IsSound :
      {u v : World}
      → Step engine_limit process_limit u v
      → IsSound engine_limit process_limit u
      → IsSound engine_limit process_limit v
  unfolding q_reserve
  Step-IsSound (reserves_engine xs ys e p n granted) s =
      replaced xs ys e _ p p s (λ b. ground arith) refl s.within
  Step-IsSound (reserves_process xs ys e p n h granted) s =
      replaced xs ys e _ p _ s (λ b. ground arith) (ground arith) (ground arith)
  Step-IsSound (gives_back xs ys e p n h) s =
      replaced xs ys e _ p p s (λ b. ground arith) refl s.within
  Step-IsSound (releases_engine xs ys e p n h) s =
      replaced xs ys e _ p p s (λ b. ground arith) (omega arith) s.within
  Step-IsSound (releases_process xs ys e p n h) s =
      replaced xs ys e _ p (p - n) s (λ b. ground arith)
        (omega (arith, h, s.counts, total-append xs e ys)) (omega (arith, s.within))

  start-IsSound :
      (engines : List Engine)
      → All (λ e. (e.counter ≡ 0) × (e.held ≡ 0) × (e.half ≡ 0) × (e.leaving ≡ 0)) engines
      → All (IsBalanced engine_limit) engines × (total engines ≡ 0)
  start-IsSound [] h = (tt, refl)
  start-IsSound (e ∷ es) ((c, d, f, l), hs) =
      let (b, t) = start-IsSound es hs in
      (
        (record { counts = omega (arith, c, d, f); within = omega (arith, c) }, b),
        omega (arith, d, l, t),
      )

  reachable-IsSound :
      {u v : World}
      → Reachable engine_limit process_limit u v
      → IsSound engine_limit process_limit u
      → IsSound engine_limit process_limit v
  reachable-IsSound here s = s
  reachable-IsSound (next step rest) s = reachable-IsSound rest (Step-IsSound step s)

  -- From engines that have reserved nothing, in every interleaving of the atomic steps of any number of
  -- reservations and releases, every engine's counter and that of the process stay within their limits,
  -- an engine's counter is what it holds and is about to, and the process counts what all engines hold
  -- or are about to release.
  pub quotas-IsSound :
      (engines : List Engine) (w : World)
      → All (λ e. (e.counter ≡ 0) × (e.held ≡ 0) × (e.half ≡ 0) × (e.leaving ≡ 0)) engines
      → Reachable engine_limit process_limit (record { engines = engines; process = 0 }) w
      → IsSound engine_limit process_limit w
  quotas-IsSound engines w h run =
      let (b, t) = start-IsSound engines h in
      reachable-IsSound run (record { all_balanced = b; counts = sym t; within = omega arith })
