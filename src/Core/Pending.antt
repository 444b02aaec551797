-- ===== src/Core/Pending.antt =====
-- What is on its way to a worker: in its queue, in the dispatcher's hand, in the batch, in the queue of
-- all requests.
use flashsale_system_imitati.Prelude.{
  ℕ, zero, suc, ◌<◌, ◌≡◌, refl, ap, ◌++◌, Bool, false, ◌||◌, List, [], ◌∷◌, length, ◌==◌,
  if◌then◌else◌, inl, inr, Bool-cases,
}
use flashsale_system_imitati.Prelude.Dict.{contains}
use flashsale_system_imitati.Messages.{WorkerRequest, worker_request_default, uint64_max}
use flashsale_system_imitati.Spsc
use flashsale_system_imitati.Mpmc
use flashsale_system_imitati.Worker.{Worker}
use flashsale_system_imitati.Core.{
  Request, request_default, to_worker_request, worker_index, worker_count, Engine,
}

-- A barrier goes to every worker, another request to the worker of its SKU.
abbrev pub goes_to : ℕ → Request → Bool
goes_to i req = req.request_id == uint64_max || worker_index req == i

abbrev pub for_worker : ℕ → List Request → List WorkerRequest
for_worker i [] = []
for_worker i (req ∷ reqs) =
    if goes_to i req then to_worker_request req ∷ for_worker i reqs else for_worker i reqs

pub for_worker-append :
    (i : ℕ) (xs ys : List Request) → for_worker i (xs ++ ys) ≡ for_worker i xs ++ for_worker i ys
for_worker-append i [] ys = refl
for_worker-append i (x ∷ xs) ys = elim (Bool-cases (goes_to i x)) [
  | inl t ↦ rw t (ap (λ l. to_worker_request x ∷ l) (for_worker-append i xs ys))
  | inr f ↦ rw f (for_worker-append i xs ys)
]

-- The queue of worker `i`.
abbrev pub queued : ℕ → List Worker → List WorkerRequest
queued i [] = []
queued zero (w ∷ ws) = Spsc.Refine.contents w.queue
queued (suc i) (w ∷ ws) = queued i ws

abbrev pub held_for : ℕ → WorkerRequest → List ℕ → List WorkerRequest
held_for i held targets = if contains i targets then held ∷ [] else []

-- Oldest first.
abbrev pub pending : ℕ → ℕ → Engine → List WorkerRequest
pending k i e =
    queued i e.workers
    ++ (held_for i e.dispatcher.held e.dispatcher.targets
        ++ (for_worker i e.dispatcher.batch ++ for_worker i (Mpmc.Inv.contents k e.queue)))

abbrev pub AllWorkers : List Worker → Type 0
AllWorkers [] = Unit
AllWorkers (w ∷ ws) = Spsc.Inv.IsValid w.queue × AllWorkers ws

-- Each target is a worker, and stands there once.
abbrev pub AllTargets : List ℕ → Type 0
AllTargets [] = Unit
AllTargets (i ∷ is) = (i < worker_count) × (contains i is ≡ false) × AllTargets is

pub record IsEngine (k : ℕ) (e : Engine) : Type 0 where
  pub queue_valid : Mpmc.Inv.IsValid k e.queue
  pub workers_valid : AllWorkers e.workers
  pub four : length e.workers ≡ worker_count
  pub targets_valid : AllTargets e.dispatcher.targets

-- What a move of the dispatcher keeps.
pub record Keeps (k : ℕ) (e e' : Engine) : Type 0 where
  pub in_order : (i : ℕ) → i < worker_count → pending k i e' ≡ pending k i e
  pub valid : IsEngine k e'
