-- ===== src/Core/Dressed.antt =====
-- What `Process` does, it does whatever the worker's queue, flags and counter of batches are.
use flashsale_system_imitati.Prelude.{
  ℕ, suc, ◌≡◌, refl, ap, ◌∙◌, Bool, Option, some, List, [], ◌∷◌, ◌++◌, ◌+◌, length, arith, ◌==◌,
  inl, inr, Bool-cases, Option-cases,
}
use flashsale_system_imitati.Prelude.Int.{leb_ℤ}
use flashsale_system_imitati.Prelude.Dict.{find}
use flashsale_system_imitati.Messages.{WorkerRequest, uint64_max}
use flashsale_system_imitati.Spsc.{SpscQueue}
use flashsale_system_imitati.Worker.{Shared, Env, Worker}
use flashsale_system_imitati.Core.{CSeckillResult}
use flashsale_system_imitati.Core.Process.{
  process, check_inventory, deduct, write_to_wal, set_flag, is_duplicate, count_barrier,
  prepare_result,
}
use flashsale_system_imitati.Core.Loop.{Met}

-- What the thread's loop has of its own in a worker.
pub record Dress : Type 0 where
  pub running : Bool
  pub is_processing : Bool
  pub queue : SpscQueue WorkerRequest
  pub processed_count : ℕ

abbrev pub dress : Dress → Worker → Worker
dress d w = record w {
  running = d.running;
  is_processing = d.is_processing;
  queue = d.queue;
  processed_count = d.processed_count;
}

check_inventory-dress :
    (d : Dress) (env : Env) (w : Worker) (sh : Shared) (req : WorkerRequest)
    → check_inventory env (dress d w) sh req
      ≡ (let (w', sh', status) = check_inventory env w sh req in (dress d w', sh', status))
unfolding check_inventory deduct write_to_wal set_flag
check_inventory-dress d env w sh req = elim (Option-cases (find req.sku_id w.inventory)) [
  | inl e ↦ rw (e, check_inventory) refl
  | inr (stock, e) ↦ elim (Bool-cases (leb_ℤ req.qty stock)) [
    | inl t ↦ rw (e, check_inventory) (rw t refl)
    | inr f ↦ rw (e, check_inventory) (rw f refl)
  ]
]

process-dress :
    (d : Dress) (env : Env) (w : Worker) (sh : Shared) (req : WorkerRequest)
    → process env (dress d w) sh req
      ≡ (let (w', sh', out) = process env w sh req in (dress d w', sh', out))
unfolding process count_barrier
process-dress d env w sh req = elim (Bool-cases (req.request_id == uint64_max)) [
  | inl t ↦ rw t refl
  | inr f ↦ elim (Bool-cases (is_duplicate w.seen_requests req.request_id).0) [
    | inl seen ↦ rw (f, seen) refl
    | inr new ↦
        rw (f, new)
          (ap (λ o. (o.0, o.1, some (record (prepare_result req) { status = o.2 })))
            (check_inventory-dress d env
              (record w { seen_requests = (is_duplicate w.seen_requests req.request_id).1 }) sh
              req))
  ]
]

-- What `Process` does to the requests one after the other, before the loops that enqueue the results.
abbrev pub process_each :
    (ℕ → Met) → ℕ → List WorkerRequest → Worker → Worker × List (Shared × Option CSeckillResult)
process_each mets n [] w = (w, [])
process_each mets n (req ∷ reqs) w =
    let (w', sh', out) = process (mets n).env w (mets n).shared req in
    let (w'', outs) = process_each mets (suc n) reqs w' in (w'', (sh', out) ∷ outs)

module _ (mets : ℕ → Met) where
  pub process_each-dress :
      (d : Dress) (n : ℕ) (reqs : List WorkerRequest) (w : Worker)
      → process_each mets n reqs (dress d w)
        ≡ (let (w', outs) = process_each mets n reqs w in (dress d w', outs))
  process_each-dress d n [] w = refl
  process_each-dress d n (req ∷ reqs) w =
      ap
        (λ o. (
          (process_each mets (suc n) reqs o.0).0,
          (o.1, o.2) ∷ (process_each mets (suc n) reqs o.0).1,
        ))
        (process-dress d (mets n).env w (mets n).shared req)
      ∙ ap
          (λ o. (
            o.0,
            (
              (process (mets n).env w (mets n).shared req).1,
              (process (mets n).env w (mets n).shared req).2,
            )
                ∷ o.1,
          ))
          (process_each-dress d (suc n) reqs (process (mets n).env w (mets n).shared req).0)

  pub process_each-append :
      (n m : ℕ) (xs ys : List WorkerRequest) (w : Worker)
      → m ≡ n + length xs
      → process_each mets n (xs ++ ys) w ≡ (
          let (w', outs) = process_each mets n xs w in
          let (w'', outs') = process_each mets m ys w' in (w'', outs ++ outs'))
  process_each-append n m [] ys w h = ap (λ m. process_each mets m ys w) (omega arith)
  process_each-append n m (x ∷ xs) ys w h =
      ap
        (λ o. (
          o.0,
          (
            (process (mets n).env w (mets n).shared x).1,
            (process (mets n).env w (mets n).shared x).2,
          )
              ∷ o.1,
        ))
        (process_each-append (suc n) m xs ys (process (mets n).env w (mets n).shared x).0
          (omega arith))

  pub length-process_each :
      (n : ℕ) (reqs : List WorkerRequest) (w : Worker)
      → length (process_each mets n reqs w).1 ≡ length reqs
  length-process_each n [] w = refl
  length-process_each n (req ∷ reqs) w =
      ap suc (length-process_each (suc n) reqs (process (mets n).env w (mets n).shared req).0)
