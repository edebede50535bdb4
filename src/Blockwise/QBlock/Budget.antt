-- ===== src/Blockwise/QBlock/Budget.antt =====
-- net/blockwise/qblock/budget.go: the quotas of bytes and transfers. The amounts are those of the code,
-- which are below 2^62: nothing overflows.
pub mod Interleaving
use go_coap.Prelude.{leb, if◌then◌else◌}
use go_coap.Prelude.{ℕ, ◌+◌, ◌-◌, ◌*◌, ◌^◌}
use go_coap.Prelude.{◌≡◌, Bool, true, false, ◌&&◌}
use go_coap.Prelude.{arith}

abbrev pub process_max_bytes : ℕ
process_max_bytes = 256 * 2 ^ 20

abbrev pub process_max_transfers : ℕ
process_max_transfers = 8192

abbrev pub engine_max_bytes : ℕ
engine_max_bytes = 32 * 2 ^ 20

abbrev pub engine_max_transfers : ℕ
engine_max_transfers = 128

-- qReserve of an amount that is not negative: the counter, and whether it was changed. Its loop ends in
-- the round in which no other thread changes the counter.
unfoldable pub q_reserve : ℕ → ℕ → ℕ → ℕ × Bool
q_reserve counter amount limit =
    if leb (counter + amount) limit then (counter + amount, true) else (counter, false)

-- The engine's counters and those of the process.
pub record Quotas : Type 0 where
  pub engine_bytes : ℕ
  pub engine_transfers : ℕ
  pub process_bytes : ℕ
  pub process_transfers : ℕ

-- The second half of a reservation: what the first took is given back if it fails.
abbrev finish_reserve : ℕ → ℕ × Bool → ℕ × Bool → (ℕ × ℕ) × Bool
finish_reserve amount (engine, true) (process, true) = ((engine, process), true)
finish_reserve amount (engine, true) (process, false) = ((engine - amount, process), false)
finish_reserve amount (engine, false) r = ((engine, r.0), false)

-- The engine's counter first, and then that of the process.
unfoldable pub reserve_both : ℕ → ℕ → ℕ → ℕ → ℕ → (ℕ × ℕ) × Bool
reserve_both engine process amount engine_limit process_limit =
    finish_reserve amount (q_reserve engine amount engine_limit) (
      if (q_reserve engine amount engine_limit).1
      then q_reserve process amount process_limit
      else (process, false))

-- qReserveBytes
unfoldable pub q_reserve_bytes : ℕ → Quotas → Quotas × Bool
q_reserve_bytes n q =
    let ((engine, process), r) =
      reserve_both q.engine_bytes q.process_bytes n engine_max_bytes process_max_bytes in
    (record q { engine_bytes = engine; process_bytes = process }, r)

-- qReserveTransfer
unfoldable pub q_reserve_transfer : Quotas → Quotas × Bool
q_reserve_transfer q =
    let ((engine, process), r) =
      reserve_both q.engine_transfers q.process_transfers 1 engine_max_transfers
        process_max_transfers in
    (record q { engine_transfers = engine; process_transfers = process }, r)

-- qReleaseBytes and qReleaseTransfer, of what has been reserved
unfoldable pub q_release_bytes : ℕ → Quotas → Quotas
q_release_bytes n q = record q {
  engine_bytes = q.engine_bytes - n;
  process_bytes = q.process_bytes - n;
}

unfoldable pub q_release_transfer : Quotas → Quotas
q_release_transfer q = record q {
  engine_transfers = q.engine_transfers - 1;
  process_transfers = q.process_transfers - 1;
}

-- A reservation of bytes is granted just when both limits leave room; it is undone by its release, and
-- one that is refused changes nothing.
pub q_reserve_bytes-exact :
    (n : ℕ) (q : Quotas)
    → ((q_reserve_bytes n q).1 ≡ (
        leb (q.engine_bytes + n) engine_max_bytes && leb (q.process_bytes + n) process_max_bytes))
      × ((q_reserve_bytes n q).1 ≡ true → q_release_bytes n (q_reserve_bytes n q).0 ≡ q)
      × ((q_reserve_bytes n q).1 ≡ false → (q_reserve_bytes n q).0 ≡ q)
unfolding q_reserve_bytes reserve_both q_reserve q_release_bytes
q_reserve_bytes-exact n q = ground arith
