-- ===== src/Core/Same.antt =====
-- `Process` of engine/src/worker.hpp beside `Process` of backend/handler/worker.hpp.
use flashsale_system_imitati.Prelude.{
  ℕ, ◌≡◌, ◌≢◌, ◌≤◌, ◌⊎◌, refl, ap, ◌∙◌, sym, false, Option, none, some, List, inl, inr, Bool-cases,
  Option-cases, arith, ◌==◌, ltb, length, ◌∷◌,
}
use flashsale_system_imitati.Prelude.Int.{ℤ, pos, leb_ℤ}
use flashsale_system_imitati.Prelude.Dict.{find, contains}
use flashsale_system_imitati.Messages
use flashsale_system_imitati.Messages.{WorkerRequest, uint64_max}
use flashsale_system_imitati.Wal.{WalLogger}
use flashsale_system_imitati.Worker
use flashsale_system_imitati.Worker.{Shared, Env, Check, Worker, benchmark_limit, process_order}
use flashsale_system_imitati.Worker.Cases.{Outcome}
use flashsale_system_imitati.Core.{CSeckillResult}
use flashsale_system_imitati.Core.Process
use flashsale_system_imitati.Core.Process.{check_inventory}

-- A result of the backend without its times.
abbrev pub answer : Messages.CSeckillResult → CSeckillResult
answer r = record {
  request_id = r.request_id;
  sku_id = r.sku_id;
  qty = r.qty;
  guest_id = r.guest_id;
  status = r.status;
}

abbrev pub answered : Outcome → Worker × Shared × Option CSeckillResult
answered (w, sh, none) = (w, sh, none)
answered (w, sh, some res) = (w, sh, some (answer res))

is_duplicate-same :
    (seen : List ℕ) (id : ℕ) → Process.is_duplicate seen id ≡ Worker.is_duplicate seen id
unfolding Process.is_duplicate Worker.is_duplicate
is_duplicate-same seen id = elim (Bool-cases (contains id seen)) [
  | inl e ↦ rw e refl
  | inr e ↦ elim (Bool-cases (ltb 100_000 (length (id ∷ seen)))) [
    | inl f ↦ rw (e, f) refl
    | inr f ↦ rw (e, f) refl
  ]
]

write_to_wal-same :
    (env : Env) (w : Worker) (req : WorkerRequest) (log : WalLogger)
    → w.wal ≡ some log
    → Process.write_to_wal env w req ≡ Worker.write_to_wal env w req
unfolding Process.write_to_wal Worker.write_to_wal Worker.wal_record
write_to_wal-same env w req log e =
    ap (λ o. elim o [ none ↦ w | some log ↦ Process.write_to_wal env w req ]) (sym e)

check_inventory-same :
    (env : Env) (w : Worker) (sh : Shared) (req : WorkerRequest) (log : WalLogger)
    → w.wal ≡ some log
    → check_inventory env w sh req ≡ Worker.deduct env w sh req
unfolding check_inventory Process.deduct Worker.deduct Worker.sell Worker.refuse Process.set_flag
    Worker.set_flag
check_inventory-same env w sh req log h = elim (Option-cases (find req.sku_id w.inventory)) [
  | inl e ↦ rw (e, check_inventory, Worker.deduct) refl
  | inr (stock, e) ↦ elim (Bool-cases (leb_ℤ req.qty stock)) [
    | inl t ↦
        rw (e, check_inventory, Worker.deduct)
          (rw t (
            ap (λ w'. (w', (Process.deduct env w sh req stock).1, pos 1))
              (write_to_wal-same env _ req log h)))
    | inr f ↦ rw (e, check_inventory, Worker.deduct) (rw f refl)
  ]
]

prepare_result-same :
    (req : WorkerRequest) (status : ℤ)
    → record (Process.prepare_result req) { status = status }
      ≡ answer (record (Worker.prepare_result req) { status = status })
unfolding Process.prepare_result Worker.prepare_result
prepare_result-same req status = ground arith

-- On a worker that has its log and whose correctness check is not set up, the two do the same to every
-- request whose id is neither 0 nor one of the benchmark, that is, above 18·10^18 and below
-- `UINT64_MAX`: they leave the same worker and the same shared state, and give no result both or results
-- that agree in everything but the times, which only the backend's have.
pub process-same :
    (env : Env) (w : Worker) (sh : Shared) (req : WorkerRequest) (log : WalLogger)
    → w.wal ≡ some log
    → w.check ≡ none
    → req.request_id ≢ 0
    → (req.request_id ≤ benchmark_limit) ⊎ (req.request_id ≡ uint64_max)
    → Process.process env w sh req ≡ answered (Worker.process env w sh req)
unfolding Process.process Worker.process process_order Process.count_barrier Worker.count_barrier
    Worker.run_check
process-same env w sh req log logged off some_id plain =
    elim (Bool-cases (req.request_id == uint64_max)) [
      | inl t ↦ rw (f0, t) refl
      | inr f ↦ elim (Bool-cases (Worker.is_duplicate w.seen_requests req.request_id).0) [
        | inl e ↦ rw (is_duplicate-same w.seen_requests req.request_id, f0, f, limit f, e) refl
        | inr e ↦
            rw (is_duplicate-same w.seen_requests req.request_id, f0, f, limit f, e)
              (ap with_status (
                  check_inventory-same env new sh req log logged
                  ∙ ap (λ c. Worker.deduct env (record new { check = c }) sh req)
                      (off ∙ sym (ap (Worker.run_check req.request_id) off)))
                ∙ finish (
                    Worker.deduct env
                      (record new { check = Worker.run_check req.request_id w.check }) sh req))
      ]
    ]
  where
    f0 : (req.request_id == 0) ≡ false
    f0 = ground arith

    new : Worker
    new = record w { seen_requests = (Worker.is_duplicate w.seen_requests req.request_id).1 }

    with_status : Worker × Shared × ℤ → Worker × Shared × Option CSeckillResult
    with_status o = (o.0, o.1, some (record (Process.prepare_result req) { status = o.2 }))

    finish :
        (o : Worker × Shared × ℤ)
        → with_status o
          ≡ answered (o.0, o.1, some (record (Worker.prepare_result req) { status = o.2 }))
    finish o = ap (λ r. (o.0, o.1, some r)) (prepare_result-same req o.2)

    limit : (req.request_id == uint64_max) ≡ false → ltb benchmark_limit req.request_id ≡ false
    limit f = ground arith
