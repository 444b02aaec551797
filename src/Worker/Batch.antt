-- ===== src/Worker/Batch.antt =====
-- Batches of orders on one worker: conservation of the stock, and the count of sold items.
use flashsale_system_imitati.Prelude.{
  ℕ, ◌+◌, ◌%◌, ◌^◌, ◌<◌, ◌≡◌, List, [], ◌∷◌, ◌++◌, if◌then◌else◌, arith,
}
use flashsale_system_imitati.Prelude.Int.{ℤ, pos, pos_part, ◌≤ℤ◌, eqb_ℤ, to_u64}
use flashsale_system_imitati.Fifo.{option_list}
use flashsale_system_imitati.Messages.{WorkerRequest, CSeckillResult}
use flashsale_system_imitati.Worker.{
  Shared, Env, Worker, process, process_batch, count_barrier, sell, set_flag, refuse, deduct,
  process_order, run_check,
}
use flashsale_system_imitati.Worker.Cases.{deduct_cases, process_cases, remember}
use flashsale_system_imitati.Worker.Stock.{
  IsOrder, IsStocked, StockKept, StockKept-trans, process-stock, prepare_result-fields,
}

abbrev pub AllOrders : List (Env × WorkerRequest) → Type 0
AllOrders [] = Unit
AllOrders ((env, req) ∷ reqs) = IsOrder req × AllOrders reqs

-- After a batch of orders, on a worker whose counts are in range, the counts are still in range, and
-- for every SKU the items left and the items that the results report as sold make up the stock from
-- before the batch. So no more is ever sold than there was.
pub process_batch-stock :
    (reqs : List (Env × WorkerRequest)) (w : Worker) (sh : Shared)
    → AllOrders reqs
    → IsStocked w.inventory
    → StockKept w.inventory (process_batch reqs w sh).0.inventory (process_batch reqs w sh).2
unfolding process_batch
process_batch-stock [] w sh o s = (s, λ k. omega arith)
process_batch-stock ((env, req) ∷ reqs) w sh o s =
    let one = process-stock env w sh req o.0 s in
    StockKept-trans w.inventory (process env w sh req).0.inventory _
      (option_list (process env w sh req).2)
      (process_batch reqs (process env w sh req).0 (process env w sh req).1).2 one
      (process_batch-stock reqs (process env w sh req).0 (process env w sh req).1 o.1 one.0)

-- The items of all SKUs that a result, or results, report as sold.
abbrev pub items_by : CSeckillResult → ℕ
items_by res = if eqb_ℤ res.status (pos 1) then pos_part res.qty else 0

abbrev pub items : List CSeckillResult → ℕ
items [] = 0
items (res ∷ rs) = items_by res + items rs

items-append : (xs ys : List CSeckillResult) → items (xs ++ ys) ≡ items xs + items ys
items-append [] ys = omega arith
items-append (x ∷ xs) ys = omega (arith, items-append xs ys)

sold_total-set_flag :
    (w : Worker) (k : ℤ) (sh : Shared) → (set_flag w k sh).sold_total ≡ sh.sold_total
unfolding set_flag
sold_total-set_flag w k sh = ground arith

-- What a call has added to the count of sold items, which is a `uint64_t`.
abbrev Counted : Shared → Shared → ℕ → Type 0
Counted sh sh' n = sh'.sold_total ≡ (sh.sold_total + n) % 2 ^ 64

to_u64_nonneg : (z : ℤ) → pos 0 ≤ℤ z → to_u64 z ≡ pos_part z % 2 ^ 64
unfolding to_u64
to_u64_nonneg z h = ground arith

module _ (env : Env) (w : Worker) (sh : Shared) (req : WorkerRequest) where
  deduct-Counted :
      IsOrder req
      → sh.sold_total < 2 ^ 64
      → Counted sh
          (deduct env w sh req).1
          (if eqb_ℤ (deduct env w sh req).2 (pos 1) then pos_part req.qty else 0)
  unfolding sell refuse
  deduct-Counted o h =
      deduct_cases env w sh req
        (λ out. Counted sh out.1 (if eqb_ℤ out.2 (pos 1) then pos_part req.qty else 0))
        (λ _. omega arith)
        (λ stock _ _. ground (
          arith,
          sold_total-set_flag w req.sku_id
              (record sh { sold_total = (sh.sold_total + to_u64 req.qty) % 2 ^ 64 }),
          to_u64_nonneg req.qty o.qty_nonneg,
        ))
        (λ stock _ _. ground (arith, sold_total-set_flag w req.sku_id sh))

module _ (env : Env) (w : Worker) (sh : Shared) (req : WorkerRequest) where
  process_order-Counted :
      IsOrder req
      → sh.sold_total < 2 ^ 64
      → Counted sh
          (process_order env w sh req).1
          (items (option_list (process_order env w sh req).2))
  unfolding process_order
  process_order-Counted o h = ground (
    arith,
    prepare_result-fields req,
    deduct-Counted env (record w { check = run_check req.request_id w.check }) sh req o h,
  )

module _ (env : Env) (w : Worker) (sh : Shared) (req : WorkerRequest) where
  process-Counted :
      IsOrder req
      → sh.sold_total < 2 ^ 64
      → Counted sh (process env w sh req).1 (items (option_list (process env w sh req).2))
  unfolding count_barrier
  process-Counted o h =
      process_cases env w sh req (λ out. Counted sh out.1 (items (option_list out.2)))
        (λ _. omega arith) (λ _. ground arith) (λ b. absurd (omega (arith, o.id_regular)))
        (λ _ _ _. omega arith)
        (λ _ _ _. process_order-Counted env (remember w req.request_id) sh req o h)

-- After a batch of orders `GetSoldTotal` has grown by the items that the results report as sold, of all
-- SKUs together, modulo 2^64.
pub process_batch-sold_total :
    (reqs : List (Env × WorkerRequest)) (w : Worker) (sh : Shared)
    → AllOrders reqs
    → sh.sold_total < 2 ^ 64
    → (process_batch reqs w sh).1.sold_total
      ≡ (sh.sold_total + items (process_batch reqs w sh).2) % 2 ^ 64
unfolding process_batch
process_batch-sold_total [] w sh o h = omega arith
process_batch-sold_total ((env, req) ∷ reqs) w sh o h =
    let (w', sh', out) = process env w sh req in
    omega (
      arith,
      process-Counted env w sh req o.0 h,
      process_batch-sold_total reqs w' sh' o.1 (omega (arith, process-Counted env w sh req o.0 h)),
      items-append (option_list out) (process_batch reqs w' sh').2,
    )
