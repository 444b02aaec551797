-- ===== src/Worker/Tests.antt =====
-- `Worker` on concrete inputs.
use flashsale_system_imitati.Prelude.{
  ℕ, zero, suc, ap, ◌≤◌, ◌+◌, ◌%◌, ◌^◌, ◌<◌, ◌≡◌, refl, true, false, none, some, List, [], ◌∷◌,
  ◌++◌, map, length, arith,
}
use flashsale_system_imitati.Prelude.Int.{ℤ, pos, negsuc, eqb_ℤ_iff, to_i32, ◌-ℤ◌}
use flashsale_system_imitati.Prelude.Dict.{find, insert, contains}
use flashsale_system_imitati.Fifo.{option_list}
use flashsale_system_imitati.Messages.{
  WorkerRequest, zero_worker_request, zero_result, worker_request_default,
}
use flashsale_system_imitati.Wal.{WalLogger, recover}
use flashsale_system_imitati.Worker.{
  Shared, Env, Worker, process, process_batch, process_order, deduct, sell, write_to_wal, set_flag,
  refuse, prepare_result, run_check, benchmark_limit, max_seen, is_duplicate,
}
use flashsale_system_imitati.Worker.Stock.{IsStocked, StockKept}
use flashsale_system_imitati.Worker.Batch.{
  AllOrders, items, process_batch-stock, process_batch-sold_total,
}
use flashsale_system_imitati.Worker.Seen.{results_for, process_batch-once, process-forgets}
use flashsale_system_imitati.Worker.Flags.Exact.{FlagsExact, process_batch-FlagsExact}
use flashsale_system_imitati.Worker.Log.{
  IsLogged, AllLogged, sale_of_record, sales_of, process_batch-recover,
}
use flashsale_system_imitati.Worker.Gaps.{Sold, process-negative}

abbrev log : WalLogger
log = record { fd = pos 3; buffer = []; buffer_pos = 0 }

-- Five items of SKU 888, of which the flag is cell 0.
abbrev worker : Worker
worker = record {
  id = pos 0;
  running = true;
  is_processing = false;
  queue = record { head = 0; tail = 0; buffer = [] };
  wal = some log;
  wal_file = [];
  inventory = (pos 888, pos 5) ∷ [];
  seen_requests = [];
  processed_count = 0;
  sold_out_flags = (pos 888, 0) ∷ [];
  has_barrier = true;
  check = none;
}

abbrev shared : Shared
shared = record { sold_total = 0; barrier_count = 0; flags = false ∷ [] }

abbrev env : Env
env = record { timestamp_ns = 1000; written = pos 40; pad = 7; uninit = zero_result }

abbrev order : ℕ → ℤ → WorkerRequest
order id qty = record zero_worker_request {
  sku_id = pos 888;
  qty = qty;
  guest_id = 42;
  request_id = id;
}

-- Three items, the same request again, four items that are not there, and the last two.
abbrev batch : List (Env × WorkerRequest)
batch =
    (env, order 1 (pos 3))
    ∷ (env, order 1 (pos 3))
    ∷ (env, order 2 (pos 4))
    ∷ (env, order 3 (pos 2))
    ∷ []

statuses :
    map (λ res. res.status) (process_batch batch worker shared).2 ≡ pos 1 ∷ pos 2 ∷ pos 1 ∷ []
unfolding process_batch process process_order is_duplicate contains deduct find sell insert
    write_to_wal set_flag refuse prepare_result run_check ◌-ℤ◌ to_i32
statuses = refl

worker-IsStocked : IsStocked worker.inventory
unfolding find
worker-IsStocked k z h = ground arith

batch-AllOrders : AllOrders batch
batch-AllOrders = (omega arith, (omega arith, (omega arith, (omega arith, tt))))

order-IsLogged : (id n : ℕ) → id ≤ benchmark_limit → n < 2 ^ 31 → IsLogged env (order id (pos n))
order-IsLogged id n h k = record {
  order = omega arith;
  whole = refl;
  time_fits = omega arith;
  sku_fits = omega arith;
  guest_fits = omega arith;
}

batch-AllLogged : AllLogged batch
batch-AllLogged = (
  order-IsLogged 1 3 (omega arith) (omega arith),
  (
    order-IsLogged 1 3 (omega arith) (omega arith),
    (
      order-IsLogged 2 4 (omega arith) (omega arith),
      (order-IsLogged 3 2 (omega arith) (omega arith), tt),
    ),
  ),
)

worker-FlagsExact : FlagsExact worker shared
unfolding find
worker-FlagsExact = record {
  cells_apart = record {
    inside = λ k at e. ground arith;
    apart = λ j k at e f. ground (arith, eqb_ℤ_iff (pos 888) j, eqb_ℤ_iff (pos 888) k);
  };
  set_iff = λ k at e. ground (arith, eqb_ℤ_iff (pos 888) k);
}

process_batch-stock_example :
    StockKept worker.inventory
      (process_batch batch worker shared).0.inventory
      (process_batch batch worker shared).2
process_batch-stock_example =
    process_batch-stock batch worker shared batch-AllOrders worker-IsStocked

process_batch-sold_total_example :
    (process_batch batch worker shared).1.sold_total
    ≡ (0 + items (process_batch batch worker shared).2) % 2 ^ 64
process_batch-sold_total_example =
    process_batch-sold_total batch worker shared batch-AllOrders (omega arith)

process_batch-once_example : results_for 1 (process_batch batch worker shared).2 ≡ 1
unfolding contains
process_batch-once_example =
    process_batch-once batch worker shared 1 (omega arith) (omega arith) (omega arith)

process_batch-FlagsExact_example :
    FlagsExact (process_batch batch worker shared).0 (process_batch batch worker shared).1
process_batch-FlagsExact_example =
    process_batch-FlagsExact batch worker shared batch-AllOrders worker-IsStocked worker-FlagsExact

process_batch-recover_example :
    map sale_of_record
      (recover (some ((process_batch batch worker shared).0.wal_file ++ 1 ∷ 2 ∷ [])))
    ≡ sales_of (process_batch batch worker shared).2
process_batch-recover_example =
    process_batch-recover batch worker shared log (1 ∷ 2 ∷ []) batch-AllLogged refl refl
      (omega arith)

process-negative_example : Sold (pos 888) (5 + 2) (process env worker shared (order 9 (negsuc 1)))
unfolding find is_duplicate contains
process-negative_example =
    process-negative env worker shared (order 9 (negsuc 1)) 5 1 refl refl (omega arith)
      (omega arith) (omega arith) refl

-- `n` requests that were seen, all with the id 1.
ones : ℕ → List ℕ
ones zero = []
ones (suc n) = 1 ∷ ones n

length-ones : (n : ℕ) → length (ones n) ≡ n
unfolding ones
length-ones zero = refl
length-ones (suc n) = ap suc (length-ones n)

two-not-in-ones : (n : ℕ) → contains 2 (ones n) ≡ false
unfolding ones contains
two-not-in-ones zero = refl
two-not-in-ones (suc n) = two-not-in-ones n

one-in-ones : (n : ℕ) → 0 < n → contains 1 (ones n) ≡ true
unfolding ones contains
one-in-ones zero h = absurd (omega arith)
one-in-ones (suc n) h = refl

abbrev full : Worker
full = record worker { seen_requests = ones max_seen }

process-forgets_example :
    (process env full shared (order 1 (pos 1)) ≡ (full, shared, none))
    × (results_for 1 (
          option_list
            (process env (process env full shared (order 2 (pos 1))).0 shared (order 1 (pos 1))).2)
        ≡ 1)
process-forgets_example =
    process-forgets env env full shared shared (order 2 (pos 1)) (order 1 (pos 1))
      (length-ones max_seen) (two-not-in-ones max_seen) (omega arith) (omega arith)
      (one-in-ones max_seen (omega arith)) (omega arith) (omega arith)
