-- ===== src/Core/Fetch.antt =====
-- What the workers take out of their queues.
use flashsale_system_imitati.Prelude.{
  ℕ, zero, suc, ◌≡◌, refl, sym, ap, ◌∙◌, ◌++◌, false, List, [], ◌∷◌, length, ◌==◌, if◌then◌else◌,
  arith, append_assoc, inl, inr, Bool-cases,
}
use flashsale_system_imitati.Prelude.Lists.{take-append-drop}
use flashsale_system_imitati.Fifo
use flashsale_system_imitati.Messages.{WorkerRequest, worker_request_default}
use flashsale_system_imitati.Spsc
use flashsale_system_imitati.Worker.{Worker}
use flashsale_system_imitati.Core.{request_default}
use flashsale_system_imitati.Core.Moves.{worker_batch_size, fetch_worker}
use flashsale_system_imitati.Core.Pending.{queued, AllWorkers}

-- The requests that the moves of a trace give to worker `i`.
abbrev pub taken_by : ℕ → List (ℕ × List WorkerRequest) → List WorkerRequest
taken_by i [] = []
taken_by i ((j, reqs) ∷ ts) = if j == i then reqs ++ taken_by i ts else taken_by i ts

pub taken_by-append :
    (i : ℕ) (xs ys : List (ℕ × List WorkerRequest))
    → taken_by i (xs ++ ys) ≡ taken_by i xs ++ taken_by i ys
taken_by-append i [] ys = refl
taken_by-append i ((j, reqs) ∷ ts) ys = elim (Bool-cases (j == i)) [
  | inl t ↦ rw t (
      ap (λ l. reqs ++ l) (taken_by-append i ts ys)
      ∙ sym (append_assoc reqs (taken_by i ts) (taken_by i ys)))
  | inr f ↦ rw f (taken_by-append i ts ys)
]

-- A worker's batch is the oldest of its queue; no other queue changes.
pub fetch_worker-eq :
    (j : ℕ) (ws : List Worker)
    → AllWorkers ws
    → let (reqs, ws') = fetch_worker j ws in
      (reqs ++ queued j ws' ≡ queued j ws)
      × ((i : ℕ) → (j == i) ≡ false → queued i ws' ≡ queued i ws)
      × AllWorkers ws'
      × (length ws' ≡ length ws)
unfolding fetch_worker Fifo.pop_batch
fetch_worker-eq j [] v = (refl, λ i _. refl, tt, refl)
fetch_worker-eq zero (w ∷ ws) v = (
  ap (λ o. o.0 ++ o.1) (Spsc.Refine.try_dequeue_batch_refines worker_batch_size v.0)
      ∙ take-append-drop worker_batch_size (Spsc.Refine.contents w.queue),
  first (record w { queue = (Spsc.try_dequeue_batch w.queue worker_batch_size).1 }),
  (Spsc.Inv.try_dequeue_batch-IsValid worker_batch_size v.0, v.1),
  refl,
)
  where
    first : (w' : Worker) (i : ℕ) → (0 == i) ≡ false → queued i (w' ∷ ws) ≡ queued i (w ∷ ws)
    first w' zero ne = absurd (ground arith)
    first w' (suc i) ne = refl
fetch_worker-eq (suc j) (w ∷ ws) v =
    let (own, others, v', n) = fetch_worker-eq j ws v.1 in
    (own, rest (fetch_worker j ws).1 others, (v.0, v'), ap suc n)
  where
    rest :
        (ws' : List Worker)
        → ((i : ℕ) → (j == i) ≡ false → queued i ws' ≡ queued i ws)
        → (i : ℕ) → (suc j == i) ≡ false
        → queued i (w ∷ ws') ≡ queued i (w ∷ ws)
    rest ws' others zero ne = refl
    rest ws' others (suc i) ne = others i (ground arith)
