-- ===== src/OrderWorker.antt =====
-- engine/src/order_worker.cpp: producers put order intents into a bounded queue or reject them; workers
-- take them out, drop those whose request id has been seen, and write the others.
--
-- The queue, `VyukovMPMCQueue`, is not part of the repository: it is a parameter, with the operations of
-- `QueueOps`. Each atomic action of a thread is a move of its own.
pub mod Queue
pub mod Sums
pub mod Inv
pub mod Polls
pub mod Marks
pub mod Workers
pub mod Producers
pub mod Results
pub mod Rank
pub mod Ends
pub mod Ids
mod Tests
use flashsale_system_imitati.Prelude.{
  ℕ, zero, suc, ◌+◌, ◌-◌, ◌*◌, ◌%◌, ◌^◌, Bool, true, false, not, ◌&&◌, Option, none, some, List, [],
  ◌∷◌, ◌++◌, ltb, ◌==◌, if◌then◌else◌, set, get_elem?, replicate,
}
use flashsale_system_imitati.Prelude.Dict.{contains}
use Prim.Native.Nat.{bit_and, bit_or, bit_xor}

pub record OrderIntent : Type 0 where
  pub request_id : ℕ
  pub user_id : ℕ
  pub sku_id : ℕ
  pub qty : ℕ
  pub enqueue_ts_ns : ℕ

-- `IdempotencyTable`: its set, and `try_mark`.
abbrev pub IdempotencyTable : Type 0
IdempotencyTable = List ℕ

unfoldable pub try_mark : ℕ → IdempotencyTable → Bool × IdempotencyTable
try_mark request_id seen =
    if contains request_id seen then (false, seen) else (true, request_id ∷ seen)

-- `(uint64_t(uint32_t(producer_id)) << 32) | (seq & 0xFFFFFFFF)`
unfoldable pub make_request_id : ℕ → ℕ → ℕ
make_request_id producer_id seq = bit_or (producer_id % 2 ^ 32 * 2 ^ 32) (bit_and seq (2 ^ 32 - 1))

-- `PER_PRODUCER`, `P` and `C`
abbrev pub per_producer : ℕ
per_producer = 200_000

abbrev pub producer_count : ℕ
producer_count = 8

abbrev pub order_worker_count : ℕ
order_worker_count = 4

-- What a producer draws in a round: whether it repeats an id, a SKU, and the clock.
pub record Draw : Type 0 where
  pub repeats : Bool
  pub sku_pick : ℕ
  pub now : ℕ

-- The intent of round `i` of producer `pid`.
unfoldable pub make_intent : ℕ → ℕ → Draw → OrderIntent
make_intent pid i draw = record {
  request_id = make_request_id pid (if ltb 100 i && draw.repeats then i - 100 else i);
  user_id = bit_xor (pid * 2 ^ 20 % 2 ^ 64) i;
  sku_id = draw.sku_pick;
  qty = 1;
  enqueue_ts_ns = draw.now;
}

-- A producer in round `i`: before it, with its intent, with the intent accepted or rejected but not
-- counted.
pub data Producer : Type 0 where
  begins : ℕ → Producer
  offers : ℕ → OrderIntent → Producer
  accepted : ℕ → Producer
  rejected : ℕ → Producer

-- A worker: before `try_dequeue`, after it has failed, after `producers_done` was seen, with an intent
-- that is not counted, with one that is, after `try_mark` has answered true or false, at its end.
pub data Consumer : Type 0 where
  polls : Consumer
  looks : Consumer
  retries : Consumer
  holds : OrderIntent → Consumer
  counted : OrderIntent → Consumer
  writes : OrderIntent → Consumer
  drops : OrderIntent → Consumer
  ended : Consumer

-- What has happened: the ids that the queue took, the ids dropped as duplicates, and the ids that
-- `simulate_mysql_write` was called with.
pub record Journal : Type 0 where
  pub taken : List ℕ
  pub dropped : List ℕ
  pub written : List ℕ

-- The operations of the queue.
pub record QueueOps (Q : Type 0) : Type 0 where
  pub try_enqueue : OrderIntent → Q → Bool × Q
  pub try_dequeue : Q → Option OrderIntent × Q

-- The variables of `main` that the threads share, and the threads.
pub record System (Q : Type 0) : Type 0 where
  pub queue : Q
  pub idem : IdempotencyTable
  pub produced_total : ℕ
  pub accepted_total : ℕ
  pub rejected_full : ℕ
  pub consumed_total : ℕ
  pub idempotent_dups : ℕ
  pub producers_done : Bool
  pub producers : List Producer
  pub workers : List Consumer
  pub journal : Journal

-- `fetch_add(1)`
abbrev pub fetch_add : ℕ → ℕ
fetch_add n = (n + 1) % 2 ^ 64

module _ {Q : Type 0} (ops : QueueOps Q) where
  -- Producer `pid`'s next action; `none` at its end.
  unfoldable pub produce : ℕ → Draw → Producer → System Q → Option (System Q)
  produce pid draw (begins i) s =
      if ltb i per_producer
      then some (record s {
        produced_total = fetch_add s.produced_total;
        producers = set s.producers pid (offers i (make_intent pid i draw));
      })
      else none
  produce pid draw (offers i intent) s =
      let (done, q) = ops.try_enqueue intent s.queue in
      some (record s {
        queue = q;
        producers = set s.producers pid (if done then accepted i else rejected i);
        journal = record s.journal {
          taken = if done then intent.request_id ∷ s.journal.taken else s.journal.taken;
        };
      })
  produce pid draw (accepted i) s = some (record s {
    accepted_total = fetch_add s.accepted_total;
    producers = set s.producers pid (begins (i + 1));
  })
  produce pid draw (rejected i) s = some (record s {
    rejected_full = fetch_add s.rejected_full;
    producers = set s.producers pid (begins (i + 1));
  })

  -- A worker's `try_dequeue`, with where it goes on an empty queue.
  unfoldable pub dequeue : ℕ → Consumer → System Q → System Q
  dequeue wid empty s =
      let (out, q) = ops.try_dequeue s.queue in
      elim out [
        | none ↦ record s { queue = q; workers = set s.workers wid empty }
        | some intent ↦ record s { queue = q; workers = set s.workers wid (holds intent) }
      ]

  -- Worker `wid`'s next action; `none` at its end.
  unfoldable pub consume : ℕ → Consumer → System Q → Option (System Q)
  consume wid polls s = some (dequeue wid looks s)
  consume wid looks s =
      some (record s { workers = set s.workers wid (if s.producers_done then retries else polls) })
  consume wid retries s = some (dequeue wid ended s)
  consume wid (holds intent) s = some (record s {
    consumed_total = fetch_add s.consumed_total;
    workers = set s.workers wid (counted intent);
  })
  consume wid (counted intent) s =
      let (inserted, seen) = try_mark intent.request_id s.idem in
      some (record s {
        idem = seen;
        workers = set s.workers wid (if inserted then writes intent else drops intent);
      })
  consume wid (writes intent) s = some (record s {
    workers = set s.workers wid polls;
    journal = record s.journal { written = intent.request_id ∷ s.journal.written };
  })
  consume wid (drops intent) s = some (record s {
    idempotent_dups = fetch_add s.idempotent_dups;
    workers = set s.workers wid polls;
    journal = record s.journal { dropped = intent.request_id ∷ s.journal.dropped };
  })
  consume wid ended s = none

-- Has every producer made its rounds?
unfoldable pub all_done : List Producer → Bool
all_done [] = true
all_done (begins i ∷ ps) = if ltb i per_producer then false else all_done ps
all_done (_ ∷ ps) = false

-- Has every worker left its loop?
unfoldable pub all_ended : List Consumer → Bool
all_ended [] = true
all_ended (ended ∷ ws) = all_ended ws
all_ended (_ ∷ ws) = false

pub data Move : Type 0 where
  produces : ℕ → Draw → Move
  consumes : ℕ → Move
  joins : Move

module _ {Q : Type 0} (ops : QueueOps Q) where
  -- A move of a thread that exists and has not ended; `joins` is the main thread after it has joined the
  -- producers.
  unfoldable pub step : Move → System Q → Option (System Q)
  step (produces pid draw) s = elim (get_elem? s.producers pid) [
    | none ↦ none
    | some p ↦ produce ops pid draw p s
  ]
  step (consumes wid) s = elim (get_elem? s.workers wid) [
    | none ↦ none
    | some w ↦ consume ops wid w s
  ]
  step joins s =
      if s.producers_done
      then none
      else if all_done s.producers
      then some (record s { producers_done = true })
      else none

  unfoldable pub run : List Move → System Q → Option (System Q)
  run [] s = some s
  run (move ∷ moves) s = elim (step move s) [ none ↦ none | some s' ↦ run moves s' ]

-- The start, on a new queue.
abbrev pub start : {Q : Type 0} → Q → System Q
start q = record {
  queue = q;
  idem = [];
  produced_total = 0;
  accepted_total = 0;
  rejected_full = 0;
  consumed_total = 0;
  idempotent_dups = 0;
  producers_done = false;
  producers = replicate producer_count (begins 0);
  workers = replicate order_worker_count polls;
  journal = record { taken = []; dropped = []; written = [] };
}
