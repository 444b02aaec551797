-- ===== src/Worker/Cases.antt =====
-- The branches of `Process`, one premise for each: what holds on every branch holds of the call.
use flashsale_system_imitati.Prelude.{
  ℕ, ◌≤◌, ◌<◌, ◌≡◌, ◌≢◌, true, false, Option, none, some, inl, inr, ltb, ◌==◌, Bool-cases,
  Option-cases, arith,
}
use flashsale_system_imitati.Prelude.Int.{ℤ, pos, ◌≤ℤ◌, leb_ℤ}
use flashsale_system_imitati.Prelude.Dict.{find}
use flashsale_system_imitati.Messages.{WorkerRequest, CSeckillResult, uint64_max}
use flashsale_system_imitati.Worker.{
  Shared, Env, Worker, benchmark_limit, sell, refuse, deduct, process_order, process, count_barrier,
  benchmark_result, is_duplicate,
}

abbrev pub Outcome : Type 0
Outcome = Worker × Shared × Option CSeckillResult

-- The ids seen after a request that is no duplicate.
abbrev pub remember : Worker → ℕ → Worker
remember w req_id = record w { seen_requests = (is_duplicate w.seen_requests req_id).1 }

module _ (env : Env) (w : Worker) (sh : Shared) (req : WorkerRequest) where
  pub deduct_cases :
      (P : Worker × Shared × ℤ → Type 0)
      → (find req.sku_id w.inventory ≡ none → P (w, sh, pos 0))
      → ((stock : ℤ)
          → find req.sku_id w.inventory ≡ some stock
          → req.qty ≤ℤ stock
          → P ((sell env w sh req stock).0, (sell env w sh req stock).1, pos 1))
      → ((stock : ℤ)
          → find req.sku_id w.inventory ≡ some stock
          → ¬ (req.qty ≤ℤ stock)
          → P (w, refuse w sh req stock, pos 2))
      → P (deduct env w sh req)
  unfolding deduct
  deduct_cases P absent sold refused = elim (Option-cases (find req.sku_id w.inventory)) [
    | inl e ↦ rw (e, deduct) (absent e)
    | inr (stock, e) ↦ elim (Bool-cases (leb_ℤ req.qty stock)) [
      | inl t ↦ rw (e, t, deduct) (sold stock e (ground arith))
      | inr f ↦ rw (e, f, deduct) (refused stock e (ground arith))
    ]
  ]

  pub process_cases :
      (P : Outcome → Type 0)
      → (req.request_id ≡ 0 → P (w, sh, none))
      → (req.request_id ≡ uint64_max → P (w, count_barrier w sh, none))
      → (benchmark_limit < req.request_id → P (w, sh, some (benchmark_result env req)))
      → (req.request_id ≢ 0
          → req.request_id ≤ benchmark_limit
          → (is_duplicate w.seen_requests req.request_id).0 ≡ true
          → P (w, sh, none))
      → (req.request_id ≢ 0
          → req.request_id ≤ benchmark_limit
          → (is_duplicate w.seen_requests req.request_id).0 ≡ false
          → P (process_order env (remember w req.request_id) sh req))
      → P (process env w sh req)
  unfolding process
  process_cases P warm barrier benchmark duplicate order = elim (Bool-cases (req.request_id == 0)) [
    | inl a ↦ rw a (warm (ground arith))
    | inr a ↦ elim (Bool-cases (req.request_id == uint64_max)) [
      | inl b ↦ rw (a, b) (barrier (ground arith))
      | inr b ↦ elim (Bool-cases (ltb benchmark_limit req.request_id)) [
        | inl c ↦ rw (a, b, c) (benchmark (ground arith))
        | inr c ↦ elim (Bool-cases (is_duplicate w.seen_requests req.request_id).0) [
          | inl e ↦ rw (a, b, c, e) (duplicate (ground arith) (ground arith) e)
          | inr e ↦ rw (a, b, c, e) (order (ground arith) (ground arith) e)
        ]
      ]
    ]
  ]
