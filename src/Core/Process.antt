-- ===== src/Core/Process.antt =====
-- `Process` of engine/src/worker.hpp, up to the loop that enqueues its result, with its helpers.
use flashsale_system_imitati.Prelude.{
  ℕ, ◌+◌, ◌%◌, ◌^◌, Bool, true, false, Option, none, some, List, [], ◌∷◌, ltb, ◌==◌, if◌then◌else◌,
  length, set,
}
use flashsale_system_imitati.Prelude.Int.{ℤ, pos, leb_ℤ, eqb_ℤ, ◌-ℤ◌, to_i32, to_u64}
use flashsale_system_imitati.Prelude.Dict.{find, insert, contains}
use flashsale_system_imitati.Messages.{WorkerRequest, uint64_max}
use flashsale_system_imitati.Wal.{encode, append}
use flashsale_system_imitati.Worker.{Shared, Env, Worker}
use flashsale_system_imitati.Core.{CSeckillResult}

-- `barrier_count_->fetch_add(1)`, where the pointer is set.
unfoldable pub count_barrier : Worker → Shared → Shared
count_barrier w sh =
    if w.has_barrier then record sh { barrier_count = (sh.barrier_count + 1) % 2 ^ 64 } else sh

-- `IsDuplicate`: the ids seen after it beside the answer. More than 100000 of them are cleared.
unfoldable pub is_duplicate : List ℕ → ℕ → Bool × List ℕ
is_duplicate seen req_id =
    let inserted = req_id ∷ seen in
    if contains req_id seen
    then (true, seen)
    else if ltb 100_000 (length inserted)
    then (false, [])
    else (false, inserted)

-- The result before the stock is looked at: a failure.
unfoldable pub prepare_result : WorkerRequest → CSeckillResult
prepare_result req = record {
  request_id = req.request_id;
  sku_id = req.sku_id;
  qty = req.qty;
  guest_id = req.guest_id;
  status = pos 0;
}

-- `WriteToWal`. `wal_` is set by the constructor and is not looked at; nor is what `Append` returns.
unfoldable pub write_to_wal : Env → Worker → WorkerRequest → Worker
write_to_wal env w req = record w {
  wal_file =
      (append env.written w.wal_file (
        encode env.pad (record {
          timestamp_ns = env.timestamp_ns;
          sku_id = req.sku_id;
          qty = req.qty;
          request_id = req.request_id;
          guest_id = req.guest_id;
        }))).1;
}

-- `flag_it->second->store(true)`, where the worker's map has the SKU.
unfoldable pub set_flag : Worker → ℤ → Shared → Shared
set_flag w sku_id sh = elim (find sku_id w.sold_out_flags) [
  | none ↦ sh
  | some at ↦ record sh { flags = set sh.flags at true }
]

-- The deduction from the stock `stock`, which is enough.
unfoldable pub deduct : Env → Worker → Shared → WorkerRequest → ℤ → Worker × Shared
deduct env w sh req stock =
    let left = to_i32 (stock -ℤ req.qty) in
    let w' : Worker = record w { inventory = insert req.sku_id left w.inventory } in
    let counted : Shared = record sh { sold_total = (sh.sold_total + to_u64 req.qty) % 2 ^ 64 } in
    (
      write_to_wal env w' req,
      if eqb_ℤ left (pos 0) then set_flag w' req.sku_id counted else counted,
    )

-- `Inventory Check & Deduct`, with the status of the result.
unfoldable pub check_inventory : Env → Worker → Shared → WorkerRequest → Worker × Shared × ℤ
check_inventory env w sh req = elim (find req.sku_id w.inventory) [
  | none ↦ (w, sh, pos 0)
  | some stock ↦
      if leb_ℤ req.qty stock
      then (let (w', sh') = deduct env w sh req stock in (w', sh', pos 1))
      else (w, if eqb_ℤ stock (pos 0) then set_flag w req.sku_id sh else sh, pos 2)
]

unfoldable pub process :
    Env → Worker → Shared → WorkerRequest → Worker × Shared × Option CSeckillResult
process env w sh req =
    let (duplicate, seen) = is_duplicate w.seen_requests req.request_id in
    let ordered : Worker × Shared × Option CSeckillResult =
      let (w', sh', status) = check_inventory env (record w { seen_requests = seen }) sh req in
      (w', sh', some (record (prepare_result req) { status = status })) in
    if req.request_id == uint64_max
    then (w, count_barrier w sh, none)
    else if duplicate
    then (w, sh, none)
    else ordered
