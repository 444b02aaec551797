-- ===== src/Worker/Gaps.antt =====
-- What `Process` does with requests that are no orders, but that nothing before it turns away.
use flashsale_system_imitati.Prelude.{
  ℕ, suc, ◌+◌, ◌^◌, ◌≤◌, ◌<◌, ◌≡◌, ◌≢◌, refl, ap, ap₂, ◌∙◌, false, none, some, arith,
}
use flashsale_system_imitati.Prelude.Int.{ℤ, pos, negsuc, ◌-ℤ◌, to_i32, to_i32_id}
use flashsale_system_imitati.Prelude.Dict.{find, find-insert_self}
use flashsale_system_imitati.Messages.{WorkerRequest}
use flashsale_system_imitati.Worker.{
  Shared, Env, Worker, benchmark_limit, is_duplicate, sell, deduct, process_order, process,
  run_check,
}
use flashsale_system_imitati.Worker.Cases.{deduct_cases, process_cases, remember, Outcome}
use flashsale_system_imitati.Worker.Stock.{inventory-write_to_wal}

-- A call that reports a sale and leaves `n` items of the SKU.
abbrev pub Sold : ℤ → ℕ → Outcome → Type 0
Sold k n (w', sh', none) = ⊥
Sold k n (w', sh', some res) = (res.status ≡ pos 1) × (find k w'.inventory ≡ some (pos n))

sum-eq : (n m : ℕ) → n + suc m < 2 ^ 31 → to_i32 (pos n -ℤ negsuc m) ≡ pos (n + suc m)
unfolding ◌-ℤ◌
sum-eq n m h = ap to_i32 (ground arith) ∙ to_i32_id (pos (n + suc m)) (omega arith)

deduct-negative :
    (env : Env) (w : Worker) (sh : Shared) (req : WorkerRequest) (n m : ℕ)
    → req.qty ≡ negsuc m
    → find req.sku_id w.inventory ≡ some (pos n)
    → n + suc m < 2 ^ 31
    → ((deduct env w sh req).2 ≡ pos 1)
      × (find req.sku_id (deduct env w sh req).0.inventory ≡ some (pos (n + suc m)))
unfolding sell
deduct-negative env w sh req n m q e h =
    deduct_cases env w sh req
      (λ out. (out.2 ≡ pos 1) × (find req.sku_id out.0.inventory ≡ some (pos (n + suc m))))
      (λ none_left. cc)
      (λ stock e' _. (
        refl,
        ap (find req.sku_id) (inventory-write_to_wal env _ req)
            ∙ find-insert_self req.sku_id (to_i32 (stock -ℤ req.qty)) w.inventory
            ∙ ap some (ap₂ (λ s q. to_i32 (s -ℤ q)) (same stock e') q ∙ sum-eq n m h),
      ))
      (λ stock e' no_sale. absurd (no_sale (ground (arith, same stock e'))))
  where
    same : (stock : ℤ) → find req.sku_id w.inventory ≡ some stock → stock ≡ pos n
    same stock e' = cc

-- A request for a negative quantity -(m + 1), of a SKU with `n` items left, with the id of an order that
-- is no duplicate, is reported as a success and adds m + 1 items to the stock, if an `int` holds the sum.
pub process-negative :
    (env : Env) (w : Worker) (sh : Shared) (req : WorkerRequest) (n m : ℕ)
    → req.qty ≡ negsuc m
    → find req.sku_id w.inventory ≡ some (pos n)
    → n + suc m < 2 ^ 31
    → req.request_id ≢ 0
    → req.request_id ≤ benchmark_limit
    → (is_duplicate w.seen_requests req.request_id).0 ≡ false
    → Sold req.sku_id (n + suc m) (process env w sh req)
unfolding process_order
process-negative env w sh req n m q e h h0 h1 new =
    process_cases env w sh req (Sold req.sku_id (n + suc m)) (λ a. absurd (h0 a))
      (λ a. absurd (omega arith)) (λ a. absurd (omega arith)) (λ _ _ a. cc)
      (λ _ _ _.
        deduct-negative env
          (record (remember w req.request_id) { check = run_check req.request_id w.check }) sh req n
          m q e h)
