-- ===== src/Lane.antt =====
-- One shard of the engine of backend/handler/bridge.cpp: `queues[i]`, the thread of `Dispatcher(i)`
-- and the thread of `workers[i]`, `Worker::Loop` of backend/handler/worker.hpp, as the moves that the
-- threads make one at a time, in any order. A move that its thread is not at changes nothing.
pub mod Kept
pub mod Dispatcher
pub mod Consumer
pub mod Order
pub mod Stock
pub mod Samples
mod Tests
use flashsale_system_imitati.Prelude.{
  ℕ, ◌+◌, ◌%◌, ◌^◌, ◌==◌, ◌++◌, Bool, true, false, Option, none, some, List, [], ◌∷◌, length, map,
  if◌then◌else◌,
}
use flashsale_system_imitati.Prelude.Int.{ℤ}
use flashsale_system_imitati.Fifo.{option_list}
use flashsale_system_imitati.Messages.{
  Request, WorkerRequest, CSeckillResult, request_default, worker_request_default, result_default,
  to_worker_request,
}
use flashsale_system_imitati.Spsc
use flashsale_system_imitati.Spsc.{try_dequeue_batch}
use flashsale_system_imitati.Mpmc
use flashsale_system_imitati.Mpmc.{MpmcQueue}
use flashsale_system_imitati.Worker.{Shared, Env, Worker, process}

-- `held` is the dispatcher's `wreq` while it waits for room in the worker's queue; `batch` is what the
-- worker still has to process of its batch of `count` requests, and `outbox` is the result that
-- `Process` waits to enqueue.
pub record Lane : Type 0 where
  pub queue : MpmcQueue Request
  pub held : Option WorkerRequest
  pub worker : Worker
  pub batch : List WorkerRequest
  pub count : ℕ
  pub outbox : Option CSeckillResult

-- What a move does that others see: a request that goes in, a request that `Process` is called with,
-- and the result that the call makes.
pub record Trace : Type 0 where
  pub accepted : List WorkerRequest
  pub handled : List WorkerRequest
  pub results : List CSeckillResult

abbrev pub silent : Trace
silent = record { accepted = []; handled = []; results = [] }

-- `kBatchSize`
abbrev pub batch_size : ℕ
batch_size = 64

-- `queues[shard_idx]->try_enqueue(req)`, with its answer.
unfoldable pub accept : List Bool → Request → Lane → Option (Bool × Lane)
accept rounds req l = elim (Mpmc.try_enqueue rounds l.queue req) [
  | none ↦ none
  | some (done, q) ↦ some (done, record l { queue = q })
]

-- The dispatcher takes a request out of the queue, stamps it and copies it, with what it took beside the
-- lane. `now` and `now_push` are the readings of the clock.
unfoldable pub dispatch : List Bool → ℤ → ℤ → Lane → Option (Lane × Option Request)
dispatch rounds now now_push l = elim l.held [
  | some wreq ↦ some (l, none)
  | none ↦ elim (Mpmc.try_dequeue rounds l.queue) [
    | none ↦ none
    | some (none, q) ↦ some (record l { queue = q }, none)
    | some (some req, q) ↦ some (
      record l {
        queue = q;
        held = some (record (to_worker_request (record req { ts_pop_mpmc = now })) {
          ts_push_spsc = now_push;
        });
      },
      some (record req { ts_pop_mpmc = now }),
    )
  ]
]

-- One round of the dispatcher's loop on `Enqueue`.
unfoldable pub push : Lane → Lane
push l = elim l.held [
  | none ↦ l
  | some wreq ↦
      let (done, q) = Spsc.try_enqueue l.worker.queue wreq in
      if done then record l { held = none; worker = record l.worker { queue = q } } else l
]

-- The worker takes a batch, of which each request gets the time `now`.
unfoldable pub fetch : ℤ → Lane → Lane
fetch now l = elim l.batch [
  | _ ∷ _ ↦ l
  | [] ↦
      let (reqs, q) = try_dequeue_batch l.worker.queue batch_size in
      if l.worker.is_processing then l else record l {
        worker = record l.worker { queue = q };
        batch = map (λ (r : WorkerRequest). record r { ts_pop_spsc = now }) reqs;
        count = length reqs;
      }
]

-- `is_processing_.store(true)`, where there is a batch.
unfoldable pub begin_batch : Lane → Lane
begin_batch l = elim l.batch [
  | [] ↦ l
  | _ ∷ _ ↦ record l { worker = record l.worker { is_processing = true } }
]

-- `Process` on the next request, up to the loop that enqueues its result.
unfoldable pub handle : Env → Shared → Lane → Lane × Shared × Trace
handle env sh l = elim l.batch [
  | [] ↦ (l, sh, silent)
  | req ∷ reqs ↦ elim l.outbox [
    | some res ↦ (l, sh, silent)
    | none ↦
        let (w, sh', out) = process env l.worker sh req in
        if l.worker.is_processing
        then (
          record l { worker = w; batch = reqs; outbox = out },
          sh',
          record { accepted = []; handled = req ∷ []; results = option_list out },
        )
        else (l, sh, silent)
  ]
]

-- One round of the loop that enqueues the result, on the result queue, with its answer.
unfoldable pub deliver :
    List Bool → MpmcQueue CSeckillResult → Lane → Option (MpmcQueue CSeckillResult × Lane)
deliver rounds results l = elim l.outbox [
  | none ↦ some (results, l)
  | some res ↦ elim (Mpmc.try_enqueue rounds results res) [
    | none ↦ none
    | some (done, results') ↦ some (results', if done then record l { outbox = none } else l)
  ]
]

-- The end of a batch: `is_processing_` and `processed_count_`.
unfoldable pub finish : Lane → Lane
finish l = elim l.batch [
  | _ ∷ _ ↦ l
  | [] ↦ elim l.outbox [
    | some res ↦ l
    | none ↦
        if l.worker.is_processing
        then record l {
          worker = record l.worker {
            is_processing = false;
            processed_count = (l.worker.processed_count + l.count) % 2 ^ 64;
          };
        }
        else l
  ]
]

-- The moves of a lane's threads. Other threads change the shared state and the result queue, so that
-- `handle` and `deliver` say what they find there.
pub data Move : Type 0 where
  accepts : List Bool → Request → Move
  dispatches : List Bool → ℤ → ℤ → Move
  pushes : Move
  fetches : ℤ → Move
  begins : Move
  handles : Env → Shared → Move
  delivers : List Bool → MpmcQueue CSeckillResult → Move
  finishes : Move

-- A dispatcher's move does nothing that a trace holds.
abbrev quietly : Option (Lane × Option Request) → Option (Lane × Trace)
quietly none = none
quietly (some (l, req)) = some (l, silent)

unfoldable pub step : Move → Lane → Option (Lane × Trace)
step (accepts rounds req) l = elim (accept rounds req l) [
  | none ↦ none
  | some (done, l') ↦
      some (l', record silent { accepted = if done then to_worker_request req ∷ [] else [] })
]
step (dispatches rounds now now_push) l = quietly (dispatch rounds now now_push l)
step pushes l = some (push l, silent)
step (fetches now) l = some (fetch now l, silent)
step begins l = some (begin_batch l, silent)
step (handles env sh) l = let (l', sh', tr) = handle env sh l in some (l', tr)
step (delivers rounds results) l = elim (deliver rounds results l) [
  | none ↦ none
  | some (results', l') ↦ some (l', silent)
]
step finishes l = some (finish l, silent)

abbrev pub join : Trace → Trace → Trace
join a b = record {
  accepted = a.accepted ++ b.accepted;
  handled = a.handled ++ b.handled;
  results = a.results ++ b.results;
}

-- A sequence of moves. `none`: the rounds given to a queue's loop did not end it.
unfoldable pub run : List Move → Lane → Option (Lane × Trace)
run [] l = some (l, silent)
run (move ∷ moves) l = elim (step move l) [
  | none ↦ none
  | some (l', tr) ↦ elim (run moves l') [ none ↦ none | some (l'', trs) ↦ some (l'', join tr trs) ]
]
