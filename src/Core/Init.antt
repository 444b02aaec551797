-- ===== src/Core/Init.antt =====
-- `InitEngine` of engine/src/bridge.cpp. The logs that the workers open, with the bytes that stand in
-- their files, are an argument.
use flashsale_system_imitati.Prelude.{
  ℕ, zero, suc, ◌≡◌, ◌<◌, refl, ap, ◌∙◌, ◌++◌, true, false, Option, none, some, List, [], ◌∷◌,
  if◌then◌else◌, arith,
}
use flashsale_system_imitati.Prelude.Int.{ℤ, pos}
use flashsale_system_imitati.Prelude.Dict.{Dict, insert, contains}
use flashsale_system_imitati.Messages.{worker_request_default}
use flashsale_system_imitati.Core.{CSeckillResult, result_default}
use flashsale_system_imitati.Spsc
use flashsale_system_imitati.Mpmc
use flashsale_system_imitati.Mpmc.{MpmcQueue}
use flashsale_system_imitati.Mpmc.Start.{init_lem}
use flashsale_system_imitati.Wal.{WalLogger, Bytes}
use flashsale_system_imitati.Worker.{Worker}
use flashsale_system_imitati.Core.{Request, request_default, worker_count, reset_check, Engine}
use flashsale_system_imitati.Core.Pending.{pending, queued, held_for, for_worker, IsEngine}

-- `Worker(id, …)` of engine/src/worker.hpp. Its inventory has four SKUs.
unfoldable pub init_worker : ℤ → Dict ℕ → WalLogger × Bytes → Worker
init_worker id flags (log, file) = record {
  id = id;
  running = false;
  is_processing = false;
  queue = Spsc.init 16384;
  wal = some log;
  wal_file = file;
  inventory = insert (pos 888) (pos 5) (
      insert (pos 999) (pos 100)
        (insert (pos 456) (pos 100) (insert (pos 123) (pos 10_000_000) [])));
  seen_requests = [];
  processed_count = 0;
  sold_out_flags = flags;
  has_barrier = true;
  check = none;
}

-- The flags of four SKUs, each with its cell.
abbrev pub new_store : Dict ℕ
new_store = insert (pos 888) 3 (insert (pos 999) 2 (insert (pos 456) 1 (insert (pos 123) 0 [])))

-- A worker that has been started.
abbrev start_worker : ℕ → WalLogger × Bytes → Worker
start_worker i log = record (init_worker (pos i) new_store log) { running = true }

-- `InitEngine`. The dispatcher starts before its first batch.
unfoldable pub init_core :
    (WalLogger × Bytes) × (WalLogger × Bytes) × (WalLogger × Bytes) × (WalLogger × Bytes)
    → Engine
    → Option Engine
init_core (log0, log1, log2, log3) e =
    let started : Option Engine = elim (Mpmc.init {A = Request} 1024) [
      | none ↦ none
      | some q ↦ elim (Mpmc.init {A = CSeckillResult} 1024) [
        | none ↦ none
        | some results ↦ some (record e {
          running = true;
          queue = q;
          result_queue = results;
          workers =
              start_worker 0 log0
              ∷ start_worker 1 log1
              ∷ start_worker 2 log2
              ∷ start_worker 3 log3
              ∷ [];
          dispatcher = record e.dispatcher { batch = []; gathering = false; targets = [] };
          shared = record e.shared { sold_total = 0; flags = false ∷ false ∷ false ∷ false ∷ [] };
          sold_out_store = new_store;
          check = record (reset_check false) { enabled = e.check.enabled };
        })
      ]
    ] in
    if e.running then some e else started

start_worker-IsValid :
    (i : ℕ) (log : WalLogger × Bytes) → Spsc.Inv.IsValid (start_worker i log).queue
unfolding init_worker
start_worker-IsValid i log = Spsc.Inv.init-IsValid 16384 (omega arith)

queued-start_worker :
    (i : ℕ) (log : WalLogger × Bytes) → Spsc.Refine.contents (start_worker i log).queue ≡ []
unfolding init_worker Spsc.init Spsc.size
queued-start_worker i log = ground arith

-- `InitEngine` on an engine that does not run, whose workers' logs can be opened, leaves a valid engine of
-- four workers that runs, and nothing is on its way to any of them. The queue of results is valid, has
-- 1024 places and is empty, and both queues start at position 0.
pub init_core-IsEngine :
    (logs : (WalLogger × Bytes) × (WalLogger × Bytes) × (WalLogger × Bytes) × (WalLogger × Bytes))
    (e : Engine)
    → e.running ≡ false
    → (e' : Engine) × (init_core logs e ≡ some e')
      × IsEngine 10 e'
      × (e'.running ≡ true)
      × ((i : ℕ) → i < worker_count → pending 10 i e' ≡ [])
      × (e'.queue.dequeue_pos ≡ 0)
      × Mpmc.Inv.IsValid 10 e'.result_queue
      × (Mpmc.Inv.contents 10 e'.result_queue ≡ [])
      × (e'.result_queue.dequeue_pos ≡ 0)
unfolding init_core init_worker contains
init_core-IsEngine (log0, log1, log2, log3) e off =
    let (q, eq, v, empty, start) = init_lem {A = Request} 10 (omega arith) (omega arith) in
    let (results, er, vr, er', start') =
      init_lem {A = CSeckillResult} 10 (omega arith) (omega arith) in
    (
      started q results,
      simp (off, eq, er, init_core),
      record {
        queue_valid = v;
        workers_valid = (
          start_worker-IsValid 0 log0,
          (
            start_worker-IsValid 1 log1,
            (start_worker-IsValid 2 log2, (start_worker-IsValid 3 log3, tt)),
          ),
        );
        four = refl;
        targets_valid = tt;
      },
      refl,
      λ i h.
          ap (λ xs. queued i workers ++ (held_for i e.dispatcher.held [] ++ for_worker i xs)) empty
          ∙ ap (λ xs. xs ++ (held_for i e.dispatcher.held [] ++ [])) (none_queued i),
      start,
      vr,
      er',
      start',
    )
  where
    workers : List Worker
    workers =
        start_worker 0 log0 ∷ start_worker 1 log1 ∷ start_worker 2 log2 ∷ start_worker 3 log3 ∷ []

    none_queued : (i : ℕ) → queued i workers ≡ []
    none_queued zero = queued-start_worker 0 log0
    none_queued (suc zero) = queued-start_worker 1 log1
    none_queued (suc (suc zero)) = queued-start_worker 2 log2
    none_queued (suc (suc (suc zero))) = queued-start_worker 3 log3
    none_queued (suc (suc (suc (suc i)))) = refl

    started : MpmcQueue Request → MpmcQueue CSeckillResult → Engine
    started q results = record e {
      running = true;
      queue = q;
      result_queue = results;
      workers = workers;
      dispatcher = record e.dispatcher { batch = []; gathering = false; targets = [] };
      shared = record e.shared { sold_total = 0; flags = false ∷ false ∷ false ∷ false ∷ [] };
      sold_out_store = new_store;
      check = record (reset_check false) { enabled = e.check.enabled };
    }
