-- ===== src/Blockwise/Upload/Holding.antt =====
-- net/blockwise/blockwise.go: what the server of an upload holds between two blocks.
use native.Mathlib.Nat.{pow-le-pow_right, min-le_right}
use go_coap.Pkg.SyncMap.{load, store, is_full}
use go_coap.Pkg.Cache.{Element, Cache, store_with_limit, load_or_store_with_limit}
use go_coap.Blockwise.Exchange.{block1, code_continue, block_size}
use go_coap.Blockwise.Engine.{Guard, BlockWise, Env}
use go_coap.Blockwise.Limits.{ReceivedBlock}
use go_coap.Blockwise.Receiving.{refreshed}
use go_coap.Blockwise.Receiving.Steps.{whole}
use go_coap.Blockwise.Upload.{Client, Server, view, next_request}
use go_coap.Pool.{PoolMessage, remove}
use go_coap.Prelude.{if◌then◌else◌}
use go_coap.Prelude.{ℤ}
use go_coap.Prelude.{ℕ, ◌+◌, ◌*◌, ◌≤◌, ◌<◌}
use go_coap.Prelude.{◌≡◌, refl, ◌≢◌, Bool, true, false, ◌&&◌}
use go_coap.Prelude.{none, some, List, [], arith}

-- The server's state before block `k`: under its key stands an element with the bytes so far, which
-- does not expire in any of the server's calls.
pub record Holds (s : Server) (m : PoolMessage) (bytes : List ℕ) (limit expiration : ℕ)
    (so_far : List ℕ) (b : BlockWise) : Type 0 where
  pub element : Element Guard
  pub until : ℕ
  pub loaded : load s.key b.receiving ≡ some element
  pub valid : element.valid_until ≡ some until
  pub in_time : (j : ℕ) → (s.env j).now ≤ until
  pub body : element.content.message.body ≡ some so_far
  pub code : element.content.message.code ≡ m.code
  pub token : element.content.message.token ≡ m.token
  pub limit_is : b.max_receive_body_size ≡ limit
  pub expiration_is : b.expiration ≡ expiration

pub store-fresh :
    (now k : ℕ) (e : Element Guard) (max_entries : ℕ) (m : Cache Guard)
    → is_full max_entries m ≡ false
    → load k m ≡ none
    → load_or_store_with_limit now k e max_entries m ≡ (store k e m, some (e, false), [])
unfolding load_or_store_with_limit store_with_limit
store-fresh now k e max_entries m room fresh = rw room (rw (fresh, store_with_limit) (rw room refl))

pub view-whole :
    (cached : PoolMessage) (kind : ℤ) (bytes : List ℕ)
    → view (whole cached kind bytes) ≡ (cached.code, cached.token, some bytes)
unfolding remove
view-whole cached kind bytes = refl

pub next_request-done :
    (c : Client) (szx code : ℕ) (a : PoolMessage)
    → a.code ≢ code_continue
    → next_request c szx code a ≡ none
unfolding next_request
next_request-done c szx code a h = ground (arith, h)

pub the_zero : (n : ℕ) → 0 * n ≡ 0
the_zero n = omega arith

pub refreshed-some :
    (env : Env) (b : BlockWise) (block : ReceivedBlock) (until : ℕ)
    → block.block_type ≡ block1
    → refreshed env b block true (some until)
      ≡ some (if block.more && b.rolling_expiration then env.now + b.expiration else until)
unfolding refreshed
refreshed-some env b block until h = ground (arith, h)

pub if-le : (test : Bool) (n a b : ℕ) → n ≤ a → n ≤ b → n ≤ (if test then a else b)
if-le true n a b h1 h2 = h1
if-le false n a b h1 h2 = h2

pub block_size-le : (szx : ℕ) → szx < 7 → block_size szx ≤ 1024
unfolding block_size
block_size-le szx h = omega (arith, pow-le-pow_right {n = 2} (omega arith) (min-le_right szx 6))
