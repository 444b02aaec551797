-- ===== src/Engine/Idle.antt =====
-- `IsEngineIdle` and `GetEngineStatus`: they agree, and neither sees a request that a dispatcher holds.
use flashsale_system_imitati.Prelude.{
  ℕ, ◌+◌, ◌*◌, ◌^◌, ◌≤◌, ◌<◌, ◌≡◌, refl, sym, ap, ◌∙◌, ◌↔◌, ap₂, ◌++◌, Bool, true, false, none,
  some, List, [], ◌∷◌, length, arith,
}
use flashsale_system_imitati.Prelude.Int.{ℤ}
use flashsale_system_imitati.Messages.{
  Request, request_default, worker_request_default, result_default, to_worker_request,
}
use flashsale_system_imitati.Spsc
use flashsale_system_imitati.Mpmc
use flashsale_system_imitati.Mpmc.{MpmcQueue}
use flashsale_system_imitati.Mpmc.Inv.{HasRoom, Succeeds}
use flashsale_system_imitati.Mpmc.Start.{size-eq-length}
use flashsale_system_imitati.Mpmc.Dequeue.{try_dequeue_refines}
use flashsale_system_imitati.Fifo
use flashsale_system_imitati.Lane.{Lane, dispatch}
use flashsale_system_imitati.Lane.Kept.{IsLane, in_flight, core, cores, waiting}
use flashsale_system_imitati.Engine.{
  Engine, queue_size, worker_queue_size, active_workers, engine_status, queues_empty, workers_idle,
  is_engine_idle,
}

-- The sizes, and the number of lanes, are far from 2^64.
abbrev pub AllSmall : List Lane → Type 0
AllSmall [] = Unit
AllSmall (l ∷ ls) = (Mpmc.size l.queue < 2 ^ 32) × (Spsc.size l.worker.queue < 2 ^ 32) × AllSmall ls

queue_size-queues_empty :
    (ls : List Lane)
    → AllSmall ls
    → length ls < 2 ^ 16
    → (queue_size ls ≤ length ls * 2 ^ 32) × ((queue_size ls ≡ 0) ↔ (queues_empty ls ≡ true))
unfolding queue_size queues_empty
queue_size-queues_empty [] s n = ground arith
queue_size-queues_empty (l ∷ ls) s n = ground (arith, queue_size-queues_empty ls s.2 (omega arith))

workers_idle-sizes :
    (ls : List Lane)
    → AllSmall ls
    → length ls < 2 ^ 16
    → (worker_queue_size ls ≤ length ls * 2 ^ 32)
      × (active_workers ls ≤ length ls)
      × ((worker_queue_size ls + active_workers ls ≡ 0) ↔ (workers_idle ls ≡ true))
unfolding worker_queue_size active_workers workers_idle
workers_idle-sizes [] s n = ground arith
workers_idle-sizes (l ∷ ls) s n = ground (arith, workers_idle-sizes ls s.2 (omega arith))

-- Where every queue holds fewer than 2^32 requests, and there are fewer than 2^16 shards, `IsEngineIdle`
-- answers 1 exactly when the three numbers of `GetEngineStatus` are 0.
pub is_engine_idle-engine_status :
    (e : Engine)
    → AllSmall e.lanes
    → length e.lanes < 2 ^ 16
    → (is_engine_idle e ≡ true)
      ↔ (((engine_status e).0 ≡ 0) × ((engine_status e).1 ≡ 0) × ((engine_status e).2 ≡ 0))
unfolding is_engine_idle engine_status
is_engine_idle-engine_status e s n =
    ground (arith, queue_size-queues_empty e.lanes s n, workers_idle-sizes e.lanes s n)

pop-one : (xs : List Request) (x : Request) → xs ≡ x ∷ [] → Fifo.pop xs ≡ (some x, [])
unfolding Fifo.pop
pop-one xs x e = ap Fifo.pop e

-- The lane after its dispatcher has taken `req` out, with the queue `q`.
abbrev taken : Lane → MpmcQueue Request → ℤ → ℤ → Request → Lane
taken l q now now_push req = record l {
  queue = q;
  held =
      some
        (record (to_worker_request (record req { ts_pop_mpmc = now })) { ts_push_spsc = now_push });
}

-- In a shard whose queues are valid, with positions below the sign bit of `intptr_t`, one request waits
-- in the queue, the dispatcher and the worker have nothing, and the other shards and the result queue are
-- idle. `IsEngineIdle` answers 0; after the dispatcher's `try_dequeue`, the loop of which ends, it answers
-- 1, while the request is still on its way to the worker.
pub idle-misses_held :
    (k : ℕ) (e : Engine) (l : Lane) (rest : List Lane) (req : Request) (rounds : List Bool)
    (now now_push : ℤ)
    → IsLane k l
    → HasRoom k l.queue 1
    → Succeeds rounds
    → Mpmc.Inv.contents k l.queue ≡ req ∷ []
    → l.held ≡ none
    → l.batch ≡ []
    → Spsc.Refine.contents l.worker.queue ≡ []
    → l.worker.is_processing ≡ false
    → is_engine_idle (record e { lanes = rest }) ≡ true
    → (is_engine_idle (record e { lanes = l ∷ rest }) ≡ false)
      × ((l' : Lane) × (dispatch rounds now now_push l
            ≡ some (l', some (record req { ts_pop_mpmc = now })))
          × (is_engine_idle (record e { lanes = l' ∷ rest }) ≡ true)
          × (in_flight k l' ≡ core (to_worker_request req) ∷ []))
unfolding is_engine_idle queues_empty workers_idle dispatch
idle-misses_held k e l rest req rounds now now_push v r s one no_held no_batch empty still idle =
    let (q', eq, c, d, v') = try_dequeue_refines k l.queue v.queue_valid rounds r s in
    let gone : Mpmc.Inv.contents k q' ≡ [] = c ∙ ap (λ o. o.1) (pop-one _ req one) in
    let sizes : (Mpmc.size l.queue ≡ 1) × (Mpmc.size q' ≡ 0) × (Spsc.size l.worker.queue ≡ 0) = (
      size-eq-length k l.queue v.queue_valid (omega arith) ∙ ap length one,
      size-eq-length k q' v' (omega arith) ∙ ap length gone,
      sym (Spsc.Refine.length-contents l.worker.queue) ∙ ap length empty,
    ) in
    (
      ground (arith, sizes),
      (
        taken l q' now now_push req,
        rw (no_held, eq, pop-one _ req one, dispatch) refl,
        ground (arith, sizes),
        ap
              (λ xs.
                cores xs
                ++ (cores (Spsc.Refine.contents l.worker.queue)
                    ++ (core (to_worker_request req) ∷ waiting (Mpmc.Inv.contents k q'))))
              no_batch
            ∙ ap₂ (λ xs ys. cores xs ++ (core (to_worker_request req) ∷ waiting ys)) empty gone,
      ),
    )
