-- ===== src/Engine.antt =====
-- The C interface of backend/handler/bridge.cpp: the global state and the calls on it, one at a time.
-- The lanes are the shards: `queues[i]` and `workers[i]` with what their threads hold. Clock readings and
-- the rounds of compare-exchanges are arguments; `none` means that a loop did not end in its rounds.
pub mod Enqueue
pub mod Idle
pub mod Init
mod Tests
use Prim.Native.Nat.{ℕ}
use flashsale_system_imitati.Prelude.{
  zero, suc, ◌+◌, ◌-◌, ◌%◌, ◌^◌, ◌==◌, Bool, true, false, Option, none, some, List, [], ◌∷◌, ◌&&◌,
  ltb, get_or, map, if◌then◌else◌, length, set, not, replicate,
}
use flashsale_system_imitati.Prelude.Int.{ℤ, pos, abs, eqb_ℤ, ◌-ℤ◌, to_u64}
use flashsale_system_imitati.Prelude.Dict.{Dict, find, insert}
use flashsale_system_imitati.Messages.{
  CSeckillRequest, Request, WorkerRequest, CSeckillResult, request_default, worker_request_default,
  result_default, to_request, zero_request, uint64_max,
}
use flashsale_system_imitati.Spsc
use flashsale_system_imitati.Mpmc
use flashsale_system_imitati.Mpmc.{MpmcQueue}
use flashsale_system_imitati.Worker.{Shared, Worker}
use flashsale_system_imitati.Lane.{Lane, accept, dispatch}

-- `kWorkerCount`
abbrev pub worker_count : ℕ
worker_count = 2

pub record SkuMetric : Type 0 where
  pub dequeue_count : ℕ
  pub total_wait_time_ns : ℕ

-- `sold_out_store` maps a SKU to the cell of its flag in `shared`.
pub record Engine : Type 0 where
  pub running : Bool
  pub lanes : List Lane
  pub result_queue : Option (MpmcQueue CSeckillResult)
  pub shared : Shared
  pub sold_out_store : Dict ℕ
  pub enqueue_count : ℕ
  pub dequeue_count : ℕ
  pub metrics_sku_123 : SkuMetric
  pub metrics_sku_456 : SkuMetric

-- `std::abs((long)sku_id) % kWorkerCount`
unfoldable pub shard_index : ℤ → ℕ
shard_index sku_id = abs sku_id % worker_count

-- `queues[i]->try_enqueue(req)`, for each lane in turn up to lane `i`; out of range there is no queue.
unfoldable pub enqueue_at : ℕ → List Bool → Request → List Lane → Option (Bool × List Lane)
enqueue_at i rounds req [] = none
enqueue_at zero rounds req (l ∷ ls) = elim (accept rounds req l) [
  | none ↦ none
  | some (done, l') ↦ some (done, l' ∷ ls)
]
enqueue_at (suc i) rounds req (l ∷ ls) = elim (enqueue_at i rounds req ls) [
  | none ↦ none
  | some (done, ls') ↦ some (done, l ∷ ls')
]

-- A request that goes in is counted.
unfoldable pub enqueue : List Bool → Request → Engine → Option (Bool × Engine)
enqueue rounds req e = elim (enqueue_at (shard_index req.sku_id) rounds req e.lanes) [
  | none ↦ none
  | some (true, ls) ↦
      some (true, record e { lanes = ls; enqueue_count = (e.enqueue_count + 1) % 2 ^ 64 })
  | some (false, ls) ↦ some (false, record e { lanes = ls })
]

-- Is the flag of the SKU set?
unfoldable pub sold_out : ℤ → Engine → Bool
sold_out sku_id e = elim (find sku_id e.sold_out_store) [
  | none ↦ false
  | some at ↦ get_or e.shared.flags at false
]

-- The `Request` that `EnqueueRequest` makes; the times that it does not set are `uninit`'s.
unfoldable pub ingress_request : Request → ℤ → CSeckillRequest → Request
ingress_request uninit now creq = record uninit {
  sku_id = creq.sku_id;
  qty = creq.qty;
  guest_id = creq.guest_id;
  request_id = creq.request_id;
  ts_ingress = now;
}

-- `EnqueueRequest`: 1 is accepted, 2 is sold out, 0 is a full queue or an engine that does not run.
unfoldable pub enqueue_request :
    List Bool → Request → ℤ → CSeckillRequest → Engine → Option (ℤ × Engine)
enqueue_request rounds uninit now creq e =
    let accepted : Option (ℤ × Engine) = elim (enqueue rounds (ingress_request uninit now creq) e) [
      | none ↦ none
      | some (true, e') ↦ some (pos 1, e')
      | some (false, e') ↦ some (pos 0, e')
    ] in
    if not e.running
    then some (pos 0, e)
    else if sold_out creq.sku_id e
    then some (pos 2, e)
    else accepted

-- The loop of `EnqueueBatch`: each request with its rounds and its time.
unfoldable pub enqueue_all :
    List (List Bool × ℤ × CSeckillRequest) → Engine → ℕ → Option (ℕ × Engine)
enqueue_all [] e enqueued = some (enqueued, e)
enqueue_all ((rounds, now, creq) ∷ reqs) e enqueued =
    elim (enqueue rounds (record (to_request creq) { ts_ingress = now }) e) [
      | none ↦ none
      | some (true, e') ↦ enqueue_all reqs e' (enqueued + 1)
      | some (false, e') ↦ enqueue_all reqs e' enqueued
    ]

unfoldable pub enqueue_batch : List (List Bool × ℤ × CSeckillRequest) → Engine → Option (ℕ × Engine)
enqueue_batch reqs e = let out = enqueue_all reqs e 0 in if not e.running then some (0, e) else out

-- `PollResult`: `none` inside is the answer 0.
unfoldable pub poll_result : List Bool → Engine → Option (Option CSeckillResult × Engine)
poll_result rounds e = elim e.result_queue [
  | none ↦ some (none, e)
  | some q ↦ elim (Mpmc.try_dequeue rounds q) [
    | none ↦ none
    | some (out, q') ↦ some (out, record e { result_queue = some q' })
  ]
]

-- `GetQueueSize`
unfoldable pub queue_size : List Lane → ℕ
queue_size [] = 0
queue_size (l ∷ ls) = (Mpmc.size l.queue + queue_size ls) % 2 ^ 64

unfoldable pub worker_queue_size : List Lane → ℕ
worker_queue_size [] = 0
worker_queue_size (l ∷ ls) = (Spsc.size l.worker.queue + worker_queue_size ls) % 2 ^ 64

unfoldable pub active_workers : List Lane → ℕ
active_workers [] = 0
active_workers (l ∷ ls) =
    if l.worker.is_processing then (1 + active_workers ls) % 2 ^ 64 else active_workers ls

unfoldable pub result_size : Option (MpmcQueue CSeckillResult) → ℕ
result_size none = 0
result_size (some q) = Mpmc.size q

-- `GetPendingCount`
unfoldable pub pending_count : Engine → ℕ
pending_count e = (queue_size e.lanes + worker_queue_size e.lanes) % 2 ^ 64

-- `GetEngineStatus`: pending_input, active_workers, pending_output.
unfoldable pub engine_status : Engine → ℕ × ℕ × ℕ
engine_status e = (
  (queue_size e.lanes + worker_queue_size e.lanes) % 2 ^ 64,
  active_workers e.lanes,
  result_size e.result_queue,
)

-- The three tests of `IsEngineIdle`.
unfoldable pub queues_empty : List Lane → Bool
queues_empty [] = true
queues_empty (l ∷ ls) = if ltb 0 (Mpmc.size l.queue) then false else queues_empty ls

unfoldable pub workers_idle : List Lane → Bool
workers_idle [] = true
workers_idle (l ∷ ls) =
    if ltb 0 (Spsc.size l.worker.queue)
    then false
    else if l.worker.is_processing
    then false
    else workers_idle ls

unfoldable pub is_engine_idle : Engine → Bool
is_engine_idle e =
    if not (queues_empty e.lanes)
    then false
    else if not (workers_idle e.lanes)
    then false
    else if ltb 0 (result_size e.result_queue)
    then false
    else true

-- What the dispatcher counts of a request that it has taken out at the time `now`.
unfoldable pub add_wait : ℤ → Request → SkuMetric → SkuMetric
add_wait now req m = record {
  dequeue_count = (m.dequeue_count + 1) % 2 ^ 64;
  total_wait_time_ns = (m.total_wait_time_ns + to_u64 (now -ℤ req.ts_ingress)) % 2 ^ 64;
}

unfoldable pub count_dequeue : ℤ → Request → Engine → Engine
count_dequeue now req e =
    let counted : Engine = record e { dequeue_count = (e.dequeue_count + 1) % 2 ^ 64 } in
    if eqb_ℤ req.sku_id (pos 123)
    then record counted { metrics_sku_123 = add_wait now req e.metrics_sku_123 }
    else if eqb_ℤ req.sku_id (pos 456)
    then record counted { metrics_sku_456 = add_wait now req e.metrics_sku_456 }
    else counted

unfoldable pub dispatch_at : ℕ → List Bool → ℤ → ℤ → List Lane → Option (List Lane × Option Request)
dispatch_at i rounds now now_push [] = none
dispatch_at zero rounds now now_push (l ∷ ls) = elim (dispatch rounds now now_push l) [
  | none ↦ none
  | some (l', req) ↦ some (l' ∷ ls, req)
]
dispatch_at (suc i) rounds now now_push (l ∷ ls) = elim (dispatch_at i rounds now now_push ls) [
  | none ↦ none
  | some (ls', req) ↦ some (l ∷ ls', req)
]

-- One round of the loop of `Dispatcher(shard_idx)` up to its loop on `Enqueue`, which is `Lane.push`.
unfoldable pub dispatcher : ℕ → List Bool → ℤ → ℤ → Engine → Option Engine
dispatcher shard_idx rounds now now_push e =
    let out : Option Engine = elim (dispatch_at shard_idx rounds now now_push e.lanes) [
      | none ↦ none
      | some (ls, none) ↦ some (record e { lanes = ls })
      | some (ls, some req) ↦ some (count_dequeue now req (record e { lanes = ls }))
    ] in
    if not e.running then some e else out

-- `WaitEngineDrained`, as moves of its own between which the other threads run: the counter is reset, a
-- barrier goes into each shard's queue by one of the calls of a loop, and the wait ends.
unfoldable pub reset_barrier : Engine → Engine
reset_barrier e = record e { shared = record e.shared { barrier_count = 0 } }

abbrev pub barrier_request : Request
barrier_request = record zero_request { request_id = uint64_max }

-- One call of the loop of shard `i`, with its answer: true ends the loop.
unfoldable pub enqueue_barrier : ℕ → List Bool → Engine → Option (Bool × Engine)
enqueue_barrier i rounds e = elim (enqueue_at i rounds barrier_request e.lanes) [
  | none ↦ none
  | some (done, ls) ↦ some (done, record e { lanes = ls })
]

-- The wait ends when this holds, or the engine stops.
unfoldable pub is_drained : Engine → Bool
is_drained e = if ltb e.shared.barrier_count worker_count then not e.running else true

-- `RequestStop`, after which the dispatchers have left their loops.
unfoldable pub request_stop : Engine → Engine
request_stop e = record e { running = false }
