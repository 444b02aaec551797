-- ===== src/Core/Loop.antt =====
-- `Worker::Loop` of engine/src/worker.hpp on what is in its queue, `Worker::Stop`, and `JoinEngine` of
-- engine/src/bridge.cpp.
--
-- The other threads run all the while. What a thread meets of them is an argument: a `Met` for each
-- request that it processes, numbered from the first, and the values that it reads from `running_`. What
-- it does to what is shared is its list of `Effect`s, one for each request.
use flashsale_system_imitati.Prelude.{
  ℕ, zero, suc, ◌+◌, ◌%◌, ◌^◌, Bool, true, false, Option, none, some, List, [], ◌∷◌, ◌++◌, length,
  ltb, ◌==◌, if◌then◌else◌,
}
use flashsale_system_imitati.Prelude.Int.{ℤ}
use flashsale_system_imitati.Messages.{WorkerRequest, worker_request_default}
use flashsale_system_imitati.Spsc.{try_dequeue_batch}
use flashsale_system_imitati.Mpmc
use flashsale_system_imitati.Mpmc.{MpmcQueue}
use flashsale_system_imitati.Wal.{close}
use flashsale_system_imitati.Worker.{Shared, Env, Worker}
use flashsale_system_imitati.Core.{CSeckillResult, result_default}
use flashsale_system_imitati.Core.Process.{process}
use flashsale_system_imitati.Core.Moves.{worker_batch_size}

-- What the processing of one request meets: `Env`, the shared atomics as other threads have left them,
-- and for each try to enqueue the result the queue of results at that time, with the rounds of the call.
pub record Met : Type 0 where
  pub env : Env
  pub shared : Shared
  pub tries : List (List Bool × MpmcQueue CSeckillResult)

-- The shared atomics afterwards, the result if there is one, and the queue of results with it.
pub record Effect : Type 0 where
  pub shared : Shared
  pub result : Option CSeckillResult
  pub result_queue : Option (MpmcQueue CSeckillResult)

-- `while (!result_queue_->try_enqueue(res))`, for the tries that it is given.
unfoldable pub put_result :
    List (List Bool × MpmcQueue CSeckillResult) → CSeckillResult → Option (MpmcQueue CSeckillResult)
put_result [] res = none
put_result ((rounds, q) ∷ tries) res = elim (Mpmc.try_enqueue rounds q res) [
  | none ↦ none
  | some (true, q') ↦ some q'
  | some (false, q') ↦ put_result tries res
]

-- `Notify Result`, if there is one.
unfoldable pub notify_result :
    List (List Bool × MpmcQueue CSeckillResult)
    → Worker
    → Shared
    → Option CSeckillResult
    → Option (Worker × Effect)
notify_result tries w sh none = some (w, record { shared = sh; result = none; result_queue = none })
notify_result tries w sh (some res) = elim (put_result tries res) [
  | none ↦ none
  | some q ↦ some (w, record { shared = sh; result = some res; result_queue = some q })
]

-- `Process` to its end.
unfoldable pub process_request : Met → WorkerRequest → Worker → Option (Worker × Effect)
process_request met req w =
    let (w', sh, out) = process met.env w met.shared req in notify_result met.tries w' sh out

-- The `for` loop over a batch, whose first request has the number `n`.
unfoldable pub process_all :
    (ℕ → Met) → ℕ → List WorkerRequest → Worker → Option (Worker × List Effect)
process_all mets n [] w = some (w, [])
process_all mets n (req ∷ reqs) w = elim (process_request (mets n) req w) [
  | none ↦ none
  | some (w', effect) ↦ elim (process_all mets (suc n) reqs w') [
    | none ↦ none
    | some (w'', effects) ↦ some (w'', effect ∷ effects)
  ]
]

-- What the loop does to a batch that is not empty.
unfoldable pub process_reqs :
    (ℕ → Met) → ℕ → List WorkerRequest → Worker → Option (Worker × List Effect)
process_reqs mets n reqs w = elim (process_all mets n reqs (record w { is_processing = true })) [
  | none ↦ none
  | some (w', effects) ↦ some (
    record w' {
      is_processing = false;
      processed_count = (w'.processed_count + length reqs) % 2 ^ 64;
    },
    effects,
  )
]

-- The effects of a batch come before those of the rounds that follow.
abbrev pub after : List Effect → Option (Worker × List Effect) → Option (Worker × List Effect)
after effects none = none
after effects (some (w, effects')) = some (w, effects ++ effects')

-- `for (;;)`, for at most `fuel` rounds; `reads` are the values that it reads from `running_`.
unfoldable pub loop : ℕ → List Bool → (ℕ → Met) → ℕ → Worker → Option (Worker × List Effect)
loop zero reads mets n w = none
loop (suc fuel) reads mets n w =
    let (reqs, q) = try_dequeue_batch w.queue worker_batch_size in
    let (reqs', q') = try_dequeue_batch q worker_batch_size in
    let next : Option (Worker × List Effect) =
      elim (process_reqs mets n reqs (record w { queue = q })) [
        | none ↦ none
        | some (w1, effects) ↦ after effects (loop fuel reads mets (n + length reqs) w1)
      ] in
    let idle : Option (Worker × List Effect) = elim reads [
      | [] ↦ none
      | true ∷ reads' ↦ loop fuel reads' mets n (record w { queue = q })
      | false ∷ reads' ↦
          let next' : Option (Worker × List Effect) =
            elim (process_reqs mets n reqs' (record w { queue = q' })) [
              | none ↦ none
              | some (w2, effects) ↦ after effects (loop fuel reads' mets (n + length reqs') w2)
            ] in
          if length reqs' == 0 then some (record w { queue = q' }, []) else next'
    ] in
    if ltb 0 (length reqs) then next else idle

-- `wal_->Close()`
unfoldable pub close_wal : ℤ → Worker → Worker
close_wal written w = elim w.wal [
  | none ↦ w
  | some log ↦
      let (log', file) = close written log w.wal_file in
      record w { wal = some log'; wal_file = file }
]

-- What a worker's thread meets until its end. `written` is the answer of the last write to its log.
pub record Meets : Type 0 where
  pub reads : List Bool
  pub mets : ℕ → Met
  pub written : ℤ

-- `Stop` with the thread's way to the end of its loop, at most `fuel` rounds; then the log is closed.
unfoldable pub stop : ℕ → Meets → Worker → Option (Worker × List Effect)
stop fuel meets w = elim (loop fuel meets.reads meets.mets 0 (record w { running = false })) [
  | none ↦ none
  | some (w', effects) ↦ some (close_wal meets.written w', effects)
]

-- The loop of `JoinEngine`, which sums up `total_processed`, from worker `i` on, and the effects of each
-- worker's thread. The threads run at the same time: each meets the others in its `Meets`, so that the
-- lists say nothing on the order of the effects of different workers.
unfoldable pub stop_all : ℕ → (ℕ → Meets) → ℕ → List Worker → Option (ℕ × List (List Effect))
stop_all fuel meets i [] = some (0, [])
stop_all fuel meets i (w ∷ ws) = elim (stop fuel (meets i) w) [
  | none ↦ none
  | some (w', effects) ↦ elim (stop_all fuel meets (suc i) ws) [
    | none ↦ none
    | some (total, rest) ↦ some ((w'.processed_count + total) % 2 ^ 64, effects ∷ rest)
  ]
]

-- `JoinEngine`: `total_processed`, the workers after it, and the effects of each.
unfoldable pub join_engine :
    ℕ → (ℕ → Meets) → List Worker → Option (ℕ × List Worker × List (List Effect))
join_engine fuel meets workers = elim (stop_all fuel meets 0 workers) [
  | none ↦ none
  | some (total, effects) ↦ some (total, [], effects)
]
