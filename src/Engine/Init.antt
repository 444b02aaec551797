-- ===== src/Engine/Init.antt =====
-- `InitEngine` of backend/handler/bridge.cpp. The logs that the workers open, with the bytes that stand
-- in their files, are an argument; the threads that it starts are the moves of the lanes.
use flashsale_system_imitati.Prelude.{
  ℕ, zero, suc, ◌+◌, ◌≡◌, refl, true, false, Option, none, some, List, [], ◌∷◌, length,
  if◌then◌else◌, arith,
}
use flashsale_system_imitati.Prelude.Int.{pos}
use flashsale_system_imitati.Prelude.Dict.{Dict, insert}
use flashsale_system_imitati.Messages.{
  Request, CSeckillResult, request_default, worker_request_default, result_default,
}
use flashsale_system_imitati.Spsc
use flashsale_system_imitati.Mpmc
use flashsale_system_imitati.Mpmc.{MpmcQueue}
use flashsale_system_imitati.Mpmc.Inv.{HasRoom}
use flashsale_system_imitati.Mpmc.Start.{init_lem}
use flashsale_system_imitati.Wal.{WalLogger, Bytes}
use flashsale_system_imitati.Worker.{new_worker}
use flashsale_system_imitati.Lane.{Lane}
use flashsale_system_imitati.Lane.Kept.{IsLane}
use flashsale_system_imitati.Engine.{Engine, worker_count}
use flashsale_system_imitati.Engine.Enqueue.{AllLanes, IsEngine, waiting_at}

-- The flags of four SKUs, each with its cell.
abbrev pub new_flags : Dict ℕ
new_flags = insert (pos 888) 3 (insert (pos 999) 2 (insert (pos 456) 1 (insert (pos 123) 0 [])))

-- A shard around its new queue, with its worker started.
abbrev new_lane : ℕ → WalLogger × Bytes → MpmcQueue Request → Lane
new_lane i (log, file) q = record {
  queue = q;
  held = none;
  worker = record (new_worker (pos i) new_flags log file) { running = true };
  batch = [];
  count = 0;
  outbox = none;
}

-- The shards from number `i` on.
unfoldable pub new_lanes : ℕ → List (WalLogger × Bytes) → Option (List Lane)
new_lanes i [] = some []
new_lanes i (log ∷ logs) = elim (Mpmc.init {A = Request} 4096) [
  | none ↦ none
  | some q ↦ elim (new_lanes (i + 1) logs) [ none ↦ none | some ls ↦ some (new_lane i log q ∷ ls) ]
]

unfoldable pub init_engine : (WalLogger × Bytes) × (WalLogger × Bytes) → Engine → Option Engine
init_engine (log, log') e =
    let started : Option Engine = elim (new_lanes 0 (log ∷ log' ∷ [])) [
      | none ↦ none
      | some ls ↦ elim (Mpmc.init {A = CSeckillResult} 16384) [
        | none ↦ none
        | some results ↦ some (record e {
          running = true;
          lanes = ls;
          result_queue = some results;
          shared = record e.shared { flags = false ∷ false ∷ false ∷ false ∷ [] };
          sold_out_store = new_flags;
        })
      ]
    ] in
    if e.running then some e else started

new_lane-IsLane :
    (i : ℕ) (log : WalLogger × Bytes) (q : MpmcQueue Request)
    → Mpmc.Inv.IsValid 12 q
    → IsLane 12 (new_lane i log q)
unfolding new_worker
new_lane-IsLane i log q v = record {
  queue_valid = v;
  worker_queue_valid = Spsc.Inv.init-IsValid 16384 (omega arith);
}

-- Behind its queue the lane is empty.
pub record IsIdle (l : Lane) : Type 0 where
  pub nothing_held : l.held ≡ none
  pub nothing_queued : Spsc.Refine.contents l.worker.queue ≡ []
  pub no_batch : l.batch ≡ []
  pub nothing_out : l.outbox ≡ none

abbrev pub AllIdle : List Lane → Type 0
AllIdle [] = Unit
AllIdle (l ∷ ls) = IsIdle l × AllIdle ls

new_lane-IsIdle :
    (i : ℕ) (log : WalLogger × Bytes) (q : MpmcQueue Request) → IsIdle (new_lane i log q)
unfolding new_worker Spsc.init Spsc.size
new_lane-IsIdle i log q = record {
  nothing_held = refl;
  nothing_queued = refl;
  no_batch = refl;
  nothing_out = refl;
}

new_lanes-two :
    (log log' : WalLogger × Bytes)
    → (ls : List Lane) × (new_lanes 0 (log ∷ log' ∷ []) ≡ some ls)
      × AllLanes 12 ls
      × (length ls ≡ worker_count)
      × ((j : ℕ) → waiting_at 12 j ls ≡ [])
      × AllIdle ls
unfolding new_lanes
new_lanes-two log log' =
    let (q, e, v, empty, start) = init_lem {A = Request} 12 (omega arith) (omega arith) in
    (
      new_lane 0 log q ∷ new_lane 1 log' q ∷ [],
      rw (e, new_lanes) (rw e refl),
      (
        new_lane-IsLane 0 log q v,
        omega (arith, start),
        (new_lane-IsLane 1 log' q v, omega (arith, start), tt),
      ),
      refl,
      none_wait q empty,
      (new_lane-IsIdle 0 log q, (new_lane-IsIdle 1 log' q, tt)),
    )
  where
    none_wait :
        (q : MpmcQueue Request)
        → Mpmc.Inv.contents 12 q ≡ []
        → (j : ℕ) → waiting_at 12 j (new_lane 0 log q ∷ new_lane 1 log' q ∷ []) ≡ []
    none_wait q empty zero = empty
    none_wait q empty (suc zero) = empty
    none_wait q empty (suc (suc j)) = refl

-- `InitEngine` on an engine that does not run, whose workers' logs can be opened, leaves a valid engine
-- of two shards with 4096 places each, that runs and is empty: no request waits for a dispatcher, is
-- held by one, waits for a worker or is in its batch, and no worker has a result to hand over. The queue
-- of results is valid, has 16384 places and is empty.
pub init_engine-IsEngine :
    (logs : (WalLogger × Bytes) × (WalLogger × Bytes)) (e : Engine)
    → e.running ≡ false
    → (e' : Engine) × (init_engine logs e ≡ some e')
      × IsEngine 12 e'
      × (e'.running ≡ true)
      × ((j : ℕ) → waiting_at 12 j e'.lanes ≡ [])
      × AllIdle e'.lanes
      × ((results : MpmcQueue CSeckillResult) × (e'.result_queue ≡ some results)
          × Mpmc.Inv.IsValid 14 results
          × (Mpmc.Inv.contents 14 results ≡ []))
unfolding init_engine
init_engine-IsEngine (log, log') e off =
    let (ls, el, v, n, empty, idle) = new_lanes-two log log' in
    let (results, er, vr, er', start) =
      init_lem {A = CSeckillResult} 14 (omega arith) (omega arith) in
    (
      started ls results,
      simp (off, el, er, init_engine),
      record { lanes_valid = v; lane_count = n },
      refl,
      empty,
      idle,
      (results, refl, vr, er'),
    )
  where
    started : List Lane → MpmcQueue CSeckillResult → Engine
    started ls results = record e {
      running = true;
      lanes = ls;
      result_queue = some results;
      shared = record e.shared { flags = false ∷ false ∷ false ∷ false ∷ [] };
      sold_out_store = new_flags;
    }
