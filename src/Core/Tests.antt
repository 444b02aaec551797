-- ===== src/Core/Tests.antt =====
-- The theorems on the engine with four workers, at concrete engines.
use flashsale_system_imitati.Prelude.{
  Option, none, inl, ℕ, ◌+◌, ◌<◌, ◌≡◌, ◌↔◌, refl, Bool, true, false, ◌==◌, some, List, [], ◌∷◌,
  ◌++◌, arith, inr,
}
use flashsale_system_imitati.Prelude.Int.{pos}
use flashsale_system_imitati.Messages.{WorkerRequest, worker_request_default}
use flashsale_system_imitati.Spsc
use flashsale_system_imitati.Mpmc
use flashsale_system_imitati.Mpmc.{MpmcQueue, cell_default}
use flashsale_system_imitati.Worker.{Worker}
use flashsale_system_imitati.Lane.Samples.{lane, lane-IsLane, shared, env}
use flashsale_system_imitati.Core.{
  CSeckillRequest, Request, request_default, zero_request, to_request, to_worker_request,
  worker_count, reset_check, Engine, enqueue_worker, dispatcher_move, CSeckillResult,
  result_default,
}
use flashsale_system_imitati.Core.Samples.{
  empty_queue, empty_queue-IsValid, empty_results, empty_results-IsValid, full_results,
  full_results-IsValid, engine, engine-IsEngine, order, full_worker, full, full-IsEngine,
}
use flashsale_system_imitati.Core.Api.{request_stop, enqueue_batch}
use flashsale_system_imitati.Core.Check.{check_all, CountFrom, check_all-stats}
use flashsale_system_imitati.Core.Moves.{Move, enqueues, dispatches, fetches, Trace, run}
use flashsale_system_imitati.Core.Pending.{for_worker, queued, pending, IsEngine}
use flashsale_system_imitati.Core.Order.{run-in_order_each}
use flashsale_system_imitati.Core.Fetch.{taken_by}
use flashsale_system_imitati.Core.Batches.{enqueue_batch-takes}
use flashsale_system_imitati.Core.Loop.{Effect, Meets, close_wal, stop, join_engine}
use flashsale_system_imitati.Core.Place.{FindsPlace, AreEffects}
use flashsale_system_imitati.Core.Dressed.{process_each}
use flashsale_system_imitati.Core.Process
use flashsale_system_imitati.Core.Stop.{stop-drains}
use flashsale_system_imitati.Core.Join.{AllEffects, join_engine-total}
use flashsale_system_imitati.Core.Same.{answered, process-same}
use flashsale_system_imitati.Core.Init.{init_core, init_core-IsEngine}
use flashsale_system_imitati.Core
use flashsale_system_imitati.Prelude
use flashsale_system_imitati.Worker
use flashsale_system_imitati.Spsc.{SpscQueue}
use flashsale_system_imitati.Wal.{WalLogger, Bytes}
use flashsale_system_imitati.Core.Loss.{hand-drops}

-- One request on its way from the call to worker 3.
abbrev day : List Move
day =
    enqueues (true ∷ []) order
    ∷ dispatches (true ∷ [])
    ∷ dispatches (true ∷ [])
    ∷ dispatches (true ∷ [])
    ∷ dispatches (true ∷ [])
    ∷ fetches 3
    ∷ []

run-in_order_each_example :
    (e' : Engine) × (tr : Trace) × (run day engine ≡ some (e', tr))
    × ((i : ℕ)
        → i < worker_count
        → pending 1 i engine ++ for_worker i tr.accepted ≡ taken_by i tr.taken ++ pending 1 i e')
    × IsEngine 1 e'
run-in_order_each_example =
    run-in_order_each 1 day engine engine-IsEngine refl (omega arith)
      (tt, (tt, (tt, (tt, (tt, (tt, tt))))))

-- The second id is missing, and the third comes twice.
abbrev ids : List ℕ
ids = 1 ∷ 3 ∷ 3 ∷ []

check_all-stats_example :
    let c = check_all ids (reset_check true) in
    (((c.gap_count ≡ 0) × (c.dup_count ≡ 0)) ↔ CountFrom 1 ids)
    × (c.expected_seq + c.dup_count ≡ 1 + 3 + c.gap_count)
check_all-stats_example =
    check_all-stats ids (omega arith, (omega arith, (omega arith, tt))) (omega arith)

hand-drops_example :
    (e' : Engine) × (dispatcher_move (true ∷ []) (request_stop full) ≡ some e')
    × (pending 1 3 full
        ≡ queued 3 full.workers
          ++ (to_worker_request (to_request order) ∷ for_worker 3 []
              ++ for_worker 3 (Mpmc.Inv.contents 1 full.queue)))
    × (pending 1 3 e'
        ≡ queued 3 full.workers
          ++ (for_worker 3 [] ++ for_worker 3 (Mpmc.Inv.contents 1 full.queue)))
    × ((i : ℕ) → (3 == i) ≡ false → pending 1 i e' ≡ pending 1 i full)
unfolding enqueue_worker Spsc.try_enqueue
hand-drops_example = hand-drops 1 3 [] (true ∷ []) full full-IsEngine refl refl

abbrev batch : List (List Bool × CSeckillRequest)
batch = (true ∷ [], order) ∷ (true ∷ [], order) ∷ (true ∷ [], order) ∷ []

-- Three requests for two free places.
enqueue_batch-takes_example :
    (q : MpmcQueue Request) × (enqueue_batch batch engine ≡ some (2, record engine { queue = q }))
    × (Mpmc.Inv.contents 1 q
        ≡ Mpmc.Inv.contents 1 empty_queue ++ (to_request order ∷ to_request order ∷ []))
    × Mpmc.Inv.IsValid 1 q
enqueue_batch-takes_example =
    enqueue_batch-takes 1 batch engine empty_queue-IsValid refl (omega arith) (tt, (tt, (tt, tt)))

abbrev waiting_worker : Worker
waiting_worker = record full_worker {
  queue = record full_worker.queue {
    buffer = to_worker_request (to_request order) ∷ worker_request_default.dflt ∷ [];
  };
}

-- The thread reads `running_` once before the store. The first try to enqueue a result meets a full queue
-- of results, and the second an empty one.
abbrev meets : Meets
meets = record {
  reads = true ∷ false ∷ [];
  mets = λ n. record {
    env = env;
    shared = shared;
    tries = (true ∷ [], full_results) ∷ (true ∷ [], empty_results) ∷ [];
  };
  written = pos 0;
}

meets-FindsPlace : (n : ℕ) → FindsPlace 1 (meets.mets n).tries
meets-FindsPlace n = (
  full_results-IsValid,
  omega arith,
  tt,
  inr (empty_results-IsValid, omega arith, tt, inl (omega arith)),
)

waiting_worker-IsValid : Spsc.Inv.IsValid waiting_worker.queue
waiting_worker-IsValid = record {
  room = omega arith;
  small = omega arith;
  head_in = omega arith;
  tail_in = omega arith;
}

stop-drains_example :
    let (w', outs) =
      process_each meets.mets 0 (Spsc.Refine.contents waiting_worker.queue) waiting_worker in
    (q : SpscQueue WorkerRequest) × (effects : List Effect) × (stop 3 meets waiting_worker
      ≡ some (
        close_wal
            (pos 0)
            (record w' { running = false; is_processing = false; queue = q; processed_count = 1 }),
        effects,
      ))
    × AreEffects 1 meets.mets 0 outs effects
    × (Spsc.Refine.contents q ≡ [])
unfolding Spsc.size
stop-drains_example =
    stop-drains 1 3 meets waiting_worker waiting_worker-IsValid tt meets-FindsPlace refl
      (omega arith) (omega arith)

-- Two workers with a request each, and one that has processed five.
abbrev ending : List Worker
ending = waiting_worker ∷ record lane.worker { processed_count = 5 } ∷ waiting_worker ∷ []

join_engine-total_example :
    (effects : List (List Effect)) × (join_engine 3 (λ i. meets) ending ≡ some (7, [], effects))
    × AllEffects 1 (λ i. meets) 0 ending effects
unfolding Spsc.size
join_engine-total_example =
    join_engine-total 1 3 (λ i. meets) ending
      (
        (waiting_worker-IsValid, tt, meets-FindsPlace, refl, omega arith, omega arith),
        (
          (lane-IsLane.worker_queue_valid, tt, meets-FindsPlace, refl, omega arith, omega arith),
          ((waiting_worker-IsValid, tt, meets-FindsPlace, refl, omega arith, omega arith), tt),
        ),
      )

abbrev log : WalLogger × Bytes
log = (record { fd = pos 3; buffer = []; buffer_pos = 0 }, [])

-- A worker that has its log.
abbrev logging : Worker
logging = record lane.worker { wal = some log.0 }

process-same_example :
    Process.process env logging shared (to_worker_request (to_request order))
    ≡ answered (Worker.process env logging shared (to_worker_request (to_request order)))
process-same_example =
    process-same env logging shared (to_worker_request (to_request order)) log.0 refl refl
      (omega arith) (inl (omega arith))

init_core-IsEngine_example :
    (e' : Engine) × (init_core (log, log, log, log) (request_stop engine) ≡ some e')
    × IsEngine 10 e'
    × (e'.running ≡ true)
    × ((i : ℕ) → i < worker_count → pending 10 i e' ≡ [])
    × (e'.queue.dequeue_pos ≡ 0)
    × Mpmc.Inv.IsValid 10 e'.result_queue
    × (Mpmc.Inv.contents 10 e'.result_queue ≡ [])
    × (e'.result_queue.dequeue_pos ≡ 0)
unfolding request_stop
init_core-IsEngine_example = init_core-IsEngine (log, log, log, log) (request_stop engine) refl

abbrev taken_in : Option (Engine × Trace) → List (ℕ × List WorkerRequest)
taken_in none = []
taken_in (some (e, tr)) = tr.taken

taken_in-day : taken_in (run day engine) ≡ (3, to_worker_request (to_request order) ∷ []) ∷ []
unfolding run Core.Moves.step Core.Api.enqueue_request Core.Api.sold_out Prelude.Dict.find
    dispatcher_move Core.gather Core.route Core.hand enqueue_worker Core.Moves.fetch_worker
    Core.worker_index Core.check_request Mpmc.try_enqueue Mpmc.try_dequeue Mpmc.enqueue_loop
    Mpmc.dequeue_loop Mpmc.look_enqueue Mpmc.look_dequeue Mpmc.claim_enqueue Mpmc.claim_dequeue
    Mpmc.publish Mpmc.release Mpmc.compare_sequence Spsc.try_enqueue Spsc.try_dequeue_batch
    Spsc.available Spsc.copy_out_ring Spsc.copy_out Prelude.Int.◌-ℤ◌ Prelude.Int.from_bits64
taken_in-day = refl
