-- ===== src/Core.antt =====
-- The engine of engine/src/bridge.cpp and engine/src/worker.hpp: one queue for all requests, a
-- dispatcher that deals them out to four workers by SKU, and barriers that reach every worker.
--
-- The structs here are those of engine/src/bridge.h and engine/src/bridge.cpp, which carry no times. The
-- state of a worker of this engine is a `Worker` without the counters of the check, and its requests are
-- `WorkerRequest`s whose times are 0. What its thread does is in Process and Loop.
pub mod Api
pub mod Process
pub mod Check
pub mod Moves
pub mod Pending
pub mod Route
pub mod Hand
pub mod Dispatching
pub mod Fetch
pub mod Order
pub mod Loss
pub mod Loop
pub mod Dressed
pub mod Place
pub mod Rounds
pub mod Drain
pub mod Stop
pub mod Join
pub mod Init
pub mod Same
pub mod Batches
pub mod Samples
mod Tests
use flashsale_system_imitati.Prelude.{
  ℕ, zero, suc, ◌+◌, ◌-◌, ◌%◌, ◌^◌, Bool, true, false, not, Option, none, some, List, [], ◌∷◌, ◌++◌,
  ltb, ◌==◌, if◌then◌else◌, get_or, Default, length,
}
use flashsale_system_imitati.Prelude.Int.{ℤ, pos, abs}
use flashsale_system_imitati.Prelude.Dict.{Dict, find, insert}
use flashsale_system_imitati.Messages.{
  WorkerRequest, zero_worker_request, worker_request_default, uint64_max,
}
use flashsale_system_imitati.Spsc
use flashsale_system_imitati.Spsc.{SpscQueue}
use flashsale_system_imitati.Mpmc
use flashsale_system_imitati.Mpmc.{MpmcQueue}
use flashsale_system_imitati.Worker.{Shared, Worker}

pub record CSeckillRequest : Type 0 where
  pub sku_id : ℤ
  pub qty : ℤ
  pub guest_id : ℕ
  pub request_id : ℕ

pub record CSeckillResult : Type 0 where
  pub request_id : ℕ
  pub sku_id : ℤ
  pub qty : ℤ
  pub guest_id : ℕ
  pub status : ℤ

instance abbrev pub result_default : Default CSeckillResult
result_default = record {
  dflt = record { request_id = 0; sku_id = pos 0; qty = pos 0; guest_id = 0; status = pos 0 };
}

pub record Request : Type 0 where
  pub sku_id : ℤ
  pub qty : ℤ
  pub guest_id : ℕ
  pub request_id : ℕ

abbrev pub zero_request : Request
zero_request = record { sku_id = pos 0; qty = pos 0; guest_id = 0; request_id = 0 }

instance abbrev pub request_default : Default Request
request_default = record { dflt = zero_request }

-- The copies of `EnqueueRequest` and of `reinterpret_cast<const Request*>`.
abbrev pub to_request : CSeckillRequest → Request
to_request r = record {
  sku_id = r.sku_id;
  qty = r.qty;
  guest_id = r.guest_id;
  request_id = r.request_id;
}

-- `memcpy(&wreq, &req, sizeof(WorkerRequest))`
abbrev pub to_worker_request : Request → WorkerRequest
to_worker_request r = record zero_worker_request {
  sku_id = r.sku_id;
  qty = r.qty;
  guest_id = r.guest_id;
  request_id = r.request_id;
}

-- `kWorkerCount`
abbrev pub worker_count : ℕ
worker_count = 4

-- The correctness check of the dispatcher: `check_correctness`, `expected_seq`, `gap_count`, `dup_count`
-- and `last_seq_seen`.
pub record SeqCheck : Type 0 where
  pub enabled : Bool
  pub expected_seq : ℕ
  pub gap_count : ℕ
  pub dup_count : ℕ
  pub last_seq_seen : ℕ

-- The counters at the start.
unfoldable pub reset_check : Bool → SeqCheck
reset_check enabled = record {
  enabled = enabled;
  expected_seq = 1;
  gap_count = 0;
  dup_count = 0;
  last_seq_seen = 0;
}

-- The counters after the request `id`, while the check is enabled.
unfoldable pub count_seq : ℕ → SeqCheck → SeqCheck
count_seq id c =
    let counted : SeqCheck =
      if id == c.expected_seq
      then record c { expected_seq = (c.expected_seq + 1) % 2 ^ 64 }
      else if ltb id c.expected_seq
      then record c { dup_count = (c.dup_count + 1) % 2 ^ 64 }
      else record c {
        gap_count = (c.gap_count + (id - c.expected_seq)) % 2 ^ 64;
        expected_seq = (id + 1) % 2 ^ 64;
      } in
    record counted { last_seq_seen = id }

unfoldable pub check_request : ℕ → SeqCheck → SeqCheck
check_request id c = if c.enabled then count_seq id c else c

-- `std::abs((long)req.sku_id) % kWorkerCount`
unfoldable pub worker_index : Request → ℕ
worker_index req = abs req.sku_id % worker_count

-- The dispatcher's thread: `batch` is its batch, which grows while it is `gathering`, and then is what is
-- left of it; `held` is the request that it is handing to the workers `targets`.
pub record Dispatcher : Type 0 where
  pub batch : List Request
  pub gathering : Bool
  pub held : WorkerRequest
  pub targets : List ℕ

pub record Engine : Type 0 where
  pub running : Bool
  pub queue : MpmcQueue Request
  pub result_queue : MpmcQueue CSeckillResult
  pub workers : List Worker
  pub dispatcher : Dispatcher
  pub shared : Shared
  pub sold_out_store : Dict ℕ
  pub check : SeqCheck
  pub target_barrier_seq : ℕ

-- `kBatchSize` of the dispatcher.
abbrev pub batch_size : ℕ
batch_size = 128

-- One round of the loop that fills the batch. It ends with an empty queue or a full batch.
unfoldable pub gather : List Bool → Engine → Option Engine
gather rounds e =
    let d = e.dispatcher in
    elim (Mpmc.try_dequeue rounds e.queue) [
      | none ↦ none
      | some (none, q) ↦ some (record e { queue = q; dispatcher = record d { gathering = false } })
      | some (some req, q) ↦ some (record e {
        queue = q;
        dispatcher = record d {
          batch = d.batch ++ (req ∷ []);
          gathering = ltb (length d.batch + 1) batch_size;
        };
      })
    ]

-- The body of the loop over the batch for the request `req`, up to the loops on `Enqueue`.
unfoldable pub route : Request → List Request → Engine → Engine
route req rest e =
    let d : Dispatcher = record e.dispatcher { batch = rest; held = to_worker_request req } in
    if req.request_id == uint64_max
    then record e {
      target_barrier_seq = req.guest_id;
      shared = record e.shared { barrier_count = 0 };
      dispatcher = record d { targets = 0 ∷ 1 ∷ 2 ∷ 3 ∷ [] };
    }
    else record e {
      check = check_request req.request_id e.check;
      dispatcher = record d { targets = worker_index req ∷ [] };
    }

-- `workers[i]->Enqueue(wreq)`; out of range there is no worker.
unfoldable pub enqueue_worker : ℕ → WorkerRequest → List Worker → Bool × List Worker
enqueue_worker i wreq [] = (false, [])
enqueue_worker zero wreq (w ∷ ws) =
    let (done, q) = Spsc.try_enqueue w.queue wreq in (done, record w { queue = q } ∷ ws)
enqueue_worker (suc i) wreq (w ∷ ws) = let (done, ws') = enqueue_worker i wreq ws in (done, w ∷ ws')

-- One round of the loop on `Enqueue` for the worker `i`: it is left when the request is in, and also when
-- it is not but the engine has stopped.
unfoldable pub hand : ℕ → List ℕ → Engine → Engine
hand i rest e =
    let (done, ws) = enqueue_worker i e.dispatcher.held e.workers in
    let passed : Engine = record e {
      workers = ws;
      dispatcher = record e.dispatcher { targets = rest };
    } in
    if done then passed else if e.running then e else passed

-- One move of the dispatcher's thread: hand on what it holds, else fill the batch, else take the next
-- request of the batch, else begin a new batch if the loop goes on.
unfoldable pub dispatcher_move : List Bool → Engine → Option Engine
dispatcher_move rounds e =
    let gathered = gather rounds e in
    let begun : Engine = record e { dispatcher = record e.dispatcher { gathering = true } } in
    elim e.dispatcher.targets [
      | i ∷ rest ↦ some (hand i rest e)
      | [] ↦ if e.dispatcher.gathering then gathered else elim e.dispatcher.batch [
        | req ∷ rest ↦ some (route req rest e)
        | [] ↦
            if e.running
            then some begun
            else if ltb 0 (Mpmc.size e.queue)
            then some begun
            else some e
      ]
    ]
