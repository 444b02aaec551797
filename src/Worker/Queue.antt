-- ===== src/Worker/Queue.antt =====
-- `Process` leaves the worker's queue alone.
use flashsale_system_imitati.Prelude.{◌≡◌, refl, inl, inr, Option-cases}
use flashsale_system_imitati.Messages.{WorkerRequest}
use flashsale_system_imitati.Worker.{
  Shared, Env, Worker, write_to_wal, sell, deduct, process_order, process,
}
use flashsale_system_imitati.Worker.Cases.{deduct_cases, process_cases}

queue-write_to_wal :
    (env : Env) (w : Worker) (req : WorkerRequest) → (write_to_wal env w req).queue ≡ w.queue
unfolding write_to_wal
queue-write_to_wal env w req = elim (Option-cases w.wal) [
  | inl e ↦ rw (e, write_to_wal) refl
  | inr (log, e) ↦ rw (e, write_to_wal) refl
]

queue-deduct :
    (env : Env) (w : Worker) (sh : Shared) (req : WorkerRequest)
    → (deduct env w sh req).0.queue ≡ w.queue
unfolding sell
queue-deduct env w sh req =
    deduct_cases env w sh req (λ out. out.0.queue ≡ w.queue) (λ _. refl)
      (λ stock _ _. queue-write_to_wal env _ req) (λ stock _ _. refl)

pub queue-process :
    (env : Env) (w : Worker) (sh : Shared) (req : WorkerRequest)
    → (process env w sh req).0.queue ≡ w.queue
unfolding process_order
queue-process env w sh req =
    process_cases env w sh req (λ out. out.0.queue ≡ w.queue) (λ _. refl) (λ _. refl) (λ _. refl)
      (λ _ _ _. refl) (λ _ _ _. queue-deduct env _ sh req)
