-- ===== src/Core/Api.antt =====
-- The C interface of engine/src/bridge.cpp, one call at a time. The result of a loop of compare-exchanges
-- that does not end in its rounds is `none`.
use flashsale_system_imitati.Prelude.{
  ℕ, suc, ◌+◌, ◌%◌, ◌^◌, Bool, true, false, not, Option, none, some, List, [], ◌∷◌, ltb,
  if◌then◌else◌, get_or,
}
use flashsale_system_imitati.Prelude.Int.{ℤ, pos}
use flashsale_system_imitati.Prelude.Dict.{find}
use flashsale_system_imitati.Messages.{worker_request_default, uint64_max}
use flashsale_system_imitati.Core.{CSeckillResult, result_default}
use flashsale_system_imitati.Spsc
use flashsale_system_imitati.Mpmc
use flashsale_system_imitati.Mpmc.{MpmcQueue}
use flashsale_system_imitati.Worker.{Worker}
use flashsale_system_imitati.Core.{
  CSeckillRequest, Request, zero_request, request_default, to_request, worker_count, reset_check,
  Engine,
}

-- Is the flag of the SKU set?
unfoldable pub sold_out : ℤ → Engine → Bool
sold_out sku_id e = elim (find sku_id e.sold_out_store) [
  | none ↦ false
  | some at ↦ get_or e.shared.flags at false
]

-- `EnqueueRequest`: 1 is accepted, 2 is sold out, 0 is a full queue or an engine that does not run.
unfoldable pub enqueue_request : List Bool → CSeckillRequest → Engine → Option (ℤ × Engine)
enqueue_request rounds creq e =
    let accepted : Option (ℤ × Engine) = elim (Mpmc.try_enqueue rounds e.queue (to_request creq)) [
      | none ↦ none
      | some (done, q) ↦ some (if done then pos 1 else pos 0, record e { queue = q })
    ] in
    if not e.running
    then some (pos 0, e)
    else if sold_out creq.sku_id e
    then some (pos 2, e)
    else accepted

-- The loop of `EnqueueBatch`, which stops at the first request that does not go in.
unfoldable pub enqueue_all :
    List (List Bool × CSeckillRequest) → MpmcQueue Request → Option (ℕ × MpmcQueue Request)
enqueue_all [] q = some (0, q)
enqueue_all ((rounds, creq) ∷ reqs) q = elim (Mpmc.try_enqueue rounds q (to_request creq)) [
  | none ↦ none
  | some (false, q') ↦ some (0, q')
  | some (true, q') ↦ elim (enqueue_all reqs q') [
    | none ↦ none
    | some (enqueued, q'') ↦ some (suc enqueued, q'')
  ]
]

-- `EnqueueBatch`
unfoldable pub enqueue_batch : List (List Bool × CSeckillRequest) → Engine → Option (ℕ × Engine)
enqueue_batch reqs e =
    let out : Option (ℕ × Engine) = elim (enqueue_all reqs e.queue) [
      | none ↦ none
      | some (enqueued, q) ↦ some (enqueued, record e { queue = q })
    ] in
    if not e.running then some (0, e) else out

-- `PollResult`: `none` inside is the answer 0.
unfoldable pub poll_result : List Bool → Engine → Option (Option CSeckillResult × Engine)
poll_result rounds e = elim (Mpmc.try_dequeue rounds e.result_queue) [
  | none ↦ none
  | some (out, q) ↦ some (out, record e { result_queue = q })
]

-- `EnableCorrectnessCheck`
unfoldable pub enable_correctness_check : Bool → Engine → Engine
enable_correctness_check enabled e =
    if enabled
    then record e { check = reset_check true }
    else record e { check = record e.check { enabled = false } }

-- `GetConsumerStats`: last_seq, gap and dup.
unfoldable pub consumer_stats : Engine → ℕ × ℕ × ℕ
consumer_stats e = (e.check.last_seq_seen, e.check.gap_count, e.check.dup_count)

unfoldable pub worker_queue_size : List Worker → ℕ
worker_queue_size [] = 0
worker_queue_size (w ∷ ws) = (Spsc.size w.queue + worker_queue_size ws) % 2 ^ 64

unfoldable pub active_workers : List Worker → ℕ
active_workers [] = 0
active_workers (w ∷ ws) =
    if w.is_processing then (1 + active_workers ws) % 2 ^ 64 else active_workers ws

-- `GetPendingCount`
unfoldable pub pending_count : Engine → ℕ
pending_count e = (Mpmc.size e.queue + worker_queue_size e.workers) % 2 ^ 64

-- `GetEngineStatus`: pending_input, active_workers, pending_output.
unfoldable pub engine_status : Engine → ℕ × ℕ × ℕ
engine_status e = (
  (Mpmc.size e.queue + worker_queue_size e.workers) % 2 ^ 64,
  active_workers e.workers,
  Mpmc.size e.result_queue,
)

unfoldable pub workers_idle : List Worker → Bool
workers_idle [] = true
workers_idle (w ∷ ws) =
    if ltb 0 (Spsc.size w.queue) then false else if w.is_processing then false else workers_idle ws

-- `IsEngineIdle`
unfoldable pub is_engine_idle : Engine → Bool
is_engine_idle e =
    if ltb 0 (Mpmc.size e.queue)
    then false
    else if not (workers_idle e.workers)
    then false
    else if ltb 0 (Mpmc.size e.result_queue)
    then false
    else true

-- `WaitEngineDrained`, as moves of its own between which the other threads run: the counter is reset, a
-- barrier goes in by one of the calls of the loop, and the wait ends.
unfoldable pub reset_barrier : Engine → Engine
reset_barrier e = record e { shared = record e.shared { barrier_count = 0 } }

abbrev pub barrier_request : Request
barrier_request = record zero_request { request_id = uint64_max }

-- One call of the loop, with its answer: true ends the loop.
unfoldable pub enqueue_barrier : List Bool → Engine → Option (Bool × Engine)
enqueue_barrier rounds e = elim (Mpmc.try_enqueue rounds e.queue barrier_request) [
  | none ↦ none
  | some (done, q) ↦ some (done, record e { queue = q })
]

-- The wait ends when this holds.
unfoldable pub is_drained : Engine → Bool
is_drained e = if ltb e.shared.barrier_count worker_count then not e.running else true

-- The store of `RequestStop`, which then waits for the dispatcher's thread.
unfoldable pub request_stop : Engine → Engine
request_stop e = record e { running = false }
