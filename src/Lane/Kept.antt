-- ===== src/Lane/Kept.antt =====
-- What every move of a lane keeps: the order of the requests that are on their way to `Process`.
use flashsale_system_imitati.Prelude.{ℕ, ◌+◌, ◌≤◌, ◌≡◌, ◌++◌, some, List, map, append-nil, arith}
use flashsale_system_imitati.Prelude.Int.{pos}
use flashsale_system_imitati.Fifo.{option_list}
use flashsale_system_imitati.Messages.{
  Request, WorkerRequest, request_default, worker_request_default, to_worker_request,
}
use flashsale_system_imitati.Spsc
use flashsale_system_imitati.Spsc.{SpscQueue, try_dequeue_batch}
use flashsale_system_imitati.Mpmc
use flashsale_system_imitati.Mpmc.Inv.{HasRoom, Succeeds}
use flashsale_system_imitati.Mpmc.{MpmcQueue}
use flashsale_system_imitati.Lane.{Lane, Trace, silent, Move, step}

-- A request without the times that the threads write into it.
abbrev pub core : WorkerRequest → WorkerRequest
core r = record r { ts_pop_mpmc = pos 0; ts_push_spsc = pos 0; ts_pop_spsc = pos 0 }

abbrev pub cores : List WorkerRequest → List WorkerRequest
cores = map core

abbrev pub waiting : List Request → List WorkerRequest
waiting = map (λ r. core (to_worker_request r))

-- What is between the entry of a lane and `Process`, oldest first.
abbrev pub in_flight : ℕ → Lane → List WorkerRequest
in_flight k l =
    cores l.batch
    ++ (cores (Spsc.Refine.contents l.worker.queue)
        ++ (cores (option_list l.held) ++ waiting (Mpmc.Inv.contents k l.queue)))

pub record IsLane (k : ℕ) (l : Lane) : Type 0 where
  pub queue_valid : Mpmc.Inv.IsValid k l.queue
  pub worker_queue_valid : Spsc.Inv.IsValid l.worker.queue

-- A move from `l` to `l'` with the trace `tr` keeps the order.
pub record Kept (k : ℕ) (l l' : Lane) (tr : Trace) : Type 0 where
  pub in_order : in_flight k l ++ cores tr.accepted ≡ cores tr.handled ++ in_flight k l'
  pub still : IsLane k l'
  pub moved : l'.queue.dequeue_pos ≤ l.queue.dequeue_pos + 1

-- A move that does not change a lane.
pub Kept-same : (k : ℕ) (l : Lane) → IsLane k l → Kept k l l silent
Kept-same k l v = record { in_order = append-nil _; still = v; moved = omega arith }

module _ (k : ℕ) (l : Lane) (v : IsLane k l) where
  -- What is to be shown of a move.
  abbrev pub Goes : Move → Type 0
  Goes move = (l' : Lane) × (tr : Trace) × (step move l ≡ some (l', tr)) × Kept k l l' tr
