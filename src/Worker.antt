-- ===== src/Worker.antt =====
-- `Worker` of backend/handler/worker.hpp: the state of one worker thread, and `Process`.
--
-- The atomics that all threads share are in `Shared`; the worker's map of flags holds addresses of
-- cells there, as the bridge's does. `Process` ends by handing its result to the spin loop in which it
-- tries to enqueue it: here it returns that result, and the loop is a part of the worker's thread in
-- the model of the engine. Clock readings, the answer of `write` and uninitialised memory are an
-- argument, `Env`.
pub mod Cases
pub mod Stock
pub mod Batch
pub mod Seen
pub mod Flags
pub mod Log
pub mod Gaps
pub mod Queue
mod Tests
use flashsale_system_imitati.Prelude.{
  ℕ, zero, suc, ◌+◌, ◌-◌, ◌%◌, ◌^◌, Bool, true, false, ◌&&◌, ◌++◌, Option, none, some, List, [],
  ◌∷◌, ltb, ◌==◌, if◌then◌else◌, length, set,
}
use flashsale_system_imitati.Prelude.Int.{ℤ, pos, ltb_ℤ, leb_ℤ, eqb_ℤ, ◌-ℤ◌, to_i32, to_u64, to_i64}
use flashsale_system_imitati.Prelude.Dict.{Dict, find, insert, contains}
use flashsale_system_imitati.Messages.{
  WorkerRequest, CSeckillResult, zero_result, uint64_max, worker_request_default,
}
use flashsale_system_imitati.Fifo.{option_list}
use flashsale_system_imitati.Spsc
use flashsale_system_imitati.Spsc.{SpscQueue}
use flashsale_system_imitati.Wal.{WalLogger, WalRecord, Bytes, encode, append}

-- `std::atomic`s that the workers and the bridge reach: `flags` holds the cells of the sold-out flags.
pub record Shared : Type 0 where
  pub sold_total : ℕ
  pub barrier_count : ℕ
  pub flags : List Bool

-- What one call of `Process` meets outside of it.
pub record Env : Type 0 where
  pub timestamp_ns : ℕ
  pub written : ℤ
  pub pad : ℕ
  pub uninit : CSeckillResult

-- The counters of the correctness check that `last_seq_`, `gap_` and `dup_` point to, and the flag that
-- `check_correctness_` points to.
pub record Check : Type 0 where
  pub enabled : Bool
  pub last_seq : ℕ
  pub gap : ℕ
  pub dup : ℕ

-- `check` is `none` while the four pointers are null. `wal_file` is the file at `wal_path_`.
pub record Worker : Type 0 where
  pub id : ℤ
  pub running : Bool
  pub is_processing : Bool
  pub queue : SpscQueue WorkerRequest
  pub wal : Option WalLogger
  pub wal_file : Bytes
  pub inventory : Dict ℤ
  pub seen_requests : List ℕ
  pub processed_count : ℕ
  pub sold_out_flags : Dict ℕ
  pub has_barrier : Bool
  pub check : Option Check

-- A request above this id is a benchmark of the queues alone.
abbrev pub benchmark_limit : ℕ
benchmark_limit = 18_000_000_000_000_000_000

abbrev pub max_seen : ℕ
max_seen = 100_000

-- `barrier_count_->fetch_add(1)`
unfoldable pub count_barrier : Worker → Shared → Shared
count_barrier w sh =
    if w.has_barrier then record sh { barrier_count = (sh.barrier_count + 1) % 2 ^ 64 } else sh

-- The latencies are differences of `int64_t`.
unfoldable pub benchmark_result : Env → WorkerRequest → CSeckillResult
benchmark_result env req =
    let res : CSeckillResult = record env.uninit { request_id = req.request_id; status = pos 1 } in
    if ltb_ℤ (pos 0) req.ts_ingress
    then record res {
      mpmc_latency_ns = to_i64 (req.ts_pop_mpmc -ℤ req.ts_ingress);
      spsc_latency_ns = to_i64 (req.ts_pop_spsc -ℤ req.ts_push_spsc);
    }
    else res

-- `IsDuplicate`: the ids seen after it beside the answer. An id past `max_seen` empties the set.
unfoldable pub is_duplicate : List ℕ → ℕ → Bool × List ℕ
is_duplicate seen req_id =
    if contains req_id seen
    then (true, seen)
    else (false, if ltb max_seen (length (req_id ∷ seen)) then [] else req_id ∷ seen)

-- The counters of the correctness check after the request `seq`.
unfoldable pub check_seq : ℕ → Check → Check
check_seq seq c =
    if c.last_seq == 0 && seq == 1
    then record c { last_seq = 1 }
    else if ltb c.last_seq seq
    then record c {
      gap = if seq == c.last_seq + 1 then c.gap else (c.gap + (seq - c.last_seq - 1)) % 2 ^ 64;
      last_seq = seq;
    }
    else record c { dup = (c.dup + 1) % 2 ^ 64 }

-- It runs where the pointers are set and the check is enabled.
unfoldable pub run_check : ℕ → Option Check → Option Check
run_check seq none = none
run_check seq (some c) = some (if c.enabled then check_seq seq c else c)

-- The result of an order before the stock is looked at: a failure.
unfoldable pub prepare_result : WorkerRequest → CSeckillResult
prepare_result req =
    let res : CSeckillResult = record zero_result {
      request_id = req.request_id;
      sku_id = req.sku_id;
      qty = req.qty;
      guest_id = req.guest_id;
    } in
    if ltb_ℤ (pos 0) req.ts_ingress
    then record res {
      mpmc_latency_ns = to_i64 (req.ts_pop_mpmc -ℤ req.ts_ingress);
      spsc_latency_ns = to_i64 (req.ts_pop_spsc -ℤ req.ts_push_spsc);
      ts_ingress = req.ts_ingress;
      ts_pop_mpmc = req.ts_pop_mpmc;
    }
    else res

-- `flag_it->second->store(true)`, where the worker's map has the SKU.
unfoldable pub set_flag : Worker → ℤ → Shared → Shared
set_flag w sku_id sh = elim (find sku_id w.sold_out_flags) [
  | none ↦ sh
  | some at ↦ record sh { flags = set sh.flags at true }
]

unfoldable pub wal_record : Env → WorkerRequest → WalRecord
wal_record env req = record {
  timestamp_ns = env.timestamp_ns;
  sku_id = req.sku_id;
  qty = req.qty;
  request_id = req.request_id;
  guest_id = req.guest_id;
}

-- `WriteToWal`: what `Append` returns is not looked at.
unfoldable pub write_to_wal : Env → Worker → WorkerRequest → Worker
unfolding wal_record
write_to_wal env w req = elim w.wal [
  | none ↦ w
  | some log ↦ record w {
    wal_file = (append env.written w.wal_file (encode env.pad (wal_record env req))).1;
  }
]

-- The stock of `req.sku_id` is `stock`, enough for the order.
unfoldable pub sell : Env → Worker → Shared → WorkerRequest → ℤ → Worker × Shared
sell env w sh req stock =
    let left = to_i32 (stock -ℤ req.qty) in
    let sold = record sh { sold_total = (sh.sold_total + to_u64 req.qty) % 2 ^ 64 } in
    (
      write_to_wal env (record w { inventory = insert req.sku_id left w.inventory }) req,
      if eqb_ℤ left (pos 0) then set_flag w req.sku_id sold else sold,
    )

-- The stock is too small. Only a stock of zero sets the flag.
unfoldable pub refuse : Worker → Shared → WorkerRequest → ℤ → Shared
refuse w sh req stock = if eqb_ℤ stock (pos 0) then set_flag w req.sku_id sh else sh

-- Inventory check and deduction, with the status that the result gets.
unfoldable pub deduct : Env → Worker → Shared → WorkerRequest → Worker × Shared × ℤ
deduct env w sh req = elim (find req.sku_id w.inventory) [
  | none ↦ (w, sh, pos 0)
  | some stock ↦
      if leb_ℤ req.qty stock
      then (let (w', sh') = sell env w sh req stock in (w', sh', pos 1))
      else (w, refuse w sh req stock, pos 2)
]

-- What `Process` does to an order, with the result that it enqueues.
unfoldable pub process_order :
    Env → Worker → Shared → WorkerRequest → Worker × Shared × Option CSeckillResult
process_order env w sh req =
    let w' : Worker = record w { check = run_check req.request_id w.check } in
    let (w'', sh', status) = deduct env w' sh req in
    (w'', sh', some (record (prepare_result req) { status = status }))

-- `Process` up to its spin loop, with the result to enqueue, if any.
unfoldable pub process :
    Env → Worker → Shared → WorkerRequest → Worker × Shared × Option CSeckillResult
process env w sh req =
    let (duplicate, seen) = is_duplicate w.seen_requests req.request_id in
    if req.request_id == 0
    then (w, sh, none)
    else if req.request_id == uint64_max
    then (w, count_barrier w sh, none)
    else if ltb benchmark_limit req.request_id
    then (w, sh, some (benchmark_result env req))
    else if duplicate
    then (w, sh, none)
    else process_order env (record w { seen_requests = seen }) sh req

-- The `for` loop over a batch, each request with what its call meets: the results in order.
unfoldable pub process_batch :
    List (Env × WorkerRequest) → Worker → Shared → Worker × Shared × List CSeckillResult
process_batch [] w sh = (w, sh, [])
process_batch ((env, req) ∷ reqs) w sh =
    let (w', sh', out) = process env w sh req in
    let (w'', sh'', outs) = process_batch reqs w' sh' in (w'', sh'', option_list out ++ outs)

-- The loop from SKU `sku_id` on, for `n` rounds.
unfoldable pub insert_skus : ℕ → ℕ → Dict ℤ → Dict ℤ
insert_skus zero sku_id m = m
insert_skus (suc n) sku_id m = insert_skus n (sku_id + 1) (insert (pos sku_id) (pos 5000) m)

-- The constructor's stock.
unfoldable pub initial_inventory : Dict ℤ
unfolding insert insert_skus
initial_inventory = insert_skus 8 1001 (
    insert (pos 777) (pos 50000) (
      insert (pos 888) (pos 5) (
        insert (pos 999) (pos 100) (
          insert (pos 666) (pos 100)
            (insert (pos 456) (pos 100) (insert (pos 123) (pos 10_000_000) []))))))

-- `Worker(id, …)`: its log is open, and nothing else has begun. `file` is what the log's file holds.
unfoldable pub new_worker : ℤ → Dict ℕ → WalLogger → Bytes → Worker
unfolding initial_inventory
new_worker id flags log file = record {
  id = id;
  running = false;
  is_processing = false;
  queue = Spsc.init 16384;
  wal = some log;
  wal_file = file;
  inventory = initial_inventory;
  seen_requests = [];
  processed_count = 0;
  sold_out_flags = flags;
  has_barrier = true;
  check = none;
}
