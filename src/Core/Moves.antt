-- ===== src/Core/Moves.antt =====
-- The engine's threads, one move at a time: a call of `EnqueueRequest`, a move of the dispatcher, a worker
-- that takes a batch out of its queue.
use flashsale_system_imitati.Prelude.{
  ℕ, zero, suc, Bool, Option, none, some, List, [], ◌∷◌, ◌++◌, if◌then◌else◌,
}
use flashsale_system_imitati.Prelude.Int.{pos, eqb_ℤ}
use flashsale_system_imitati.Messages.{WorkerRequest, worker_request_default}
use flashsale_system_imitati.Spsc.{try_dequeue_batch}
use flashsale_system_imitati.Worker.{Worker}
use flashsale_system_imitati.Core.{CSeckillRequest, Request, to_request, Engine, dispatcher_move}
use flashsale_system_imitati.Core.Api.{enqueue_request}

-- `kBatchSize` of the workers.
abbrev pub worker_batch_size : ℕ
worker_batch_size = 64

-- `try_dequeue_batch` of worker `i`; out of range there is no worker.
unfoldable pub fetch_worker : ℕ → List Worker → List WorkerRequest × List Worker
fetch_worker i [] = ([], [])
fetch_worker zero (w ∷ ws) =
    let (reqs, q) = try_dequeue_batch w.queue worker_batch_size in
    (reqs, record w { queue = q } ∷ ws)
fetch_worker (suc i) (w ∷ ws) = let (reqs, ws') = fetch_worker i ws in (reqs, w ∷ ws')

pub data Move : Type 0 where
  enqueues : List Bool → CSeckillRequest → Move
  dispatches : List Bool → Move
  fetches : ℕ → Move

-- The requests that go in, and those that each worker takes out.
pub record Trace : Type 0 where
  pub accepted : List Request
  pub taken : List (ℕ × List WorkerRequest)

abbrev pub silent : Trace
silent = record { accepted = []; taken = [] }

unfoldable pub step : Move → Engine → Option (Engine × Trace)
step (enqueues rounds creq) e = elim (enqueue_request rounds creq e) [
  | none ↦ none
  | some (answer, e') ↦
      some
        (e', record silent { accepted = if eqb_ℤ answer (pos 1) then to_request creq ∷ [] else [] })
]
step (dispatches rounds) e = elim (dispatcher_move rounds e) [
  | none ↦ none
  | some e' ↦ some (e', silent)
]
step (fetches i) e =
    let (reqs, ws) = fetch_worker i e.workers in
    some (record e { workers = ws }, record silent { taken = (i, reqs) ∷ [] })

abbrev pub join : Trace → Trace → Trace
join a b = record { accepted = a.accepted ++ b.accepted; taken = a.taken ++ b.taken }

unfoldable pub run : List Move → Engine → Option (Engine × Trace)
run [] e = some (e, silent)
run (move ∷ moves) e = elim (step move e) [
  | none ↦ none
  | some (e', tr) ↦ elim (run moves e') [ none ↦ none | some (e'', trs) ↦ some (e'', join tr trs) ]
]
