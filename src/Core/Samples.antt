-- ===== src/Core/Samples.antt =====
-- Engines with four workers that the tests run.
use flashsale_system_imitati.Prelude.{
  ℕ, ◌+◌, ◌%◌, ◌≡◌, refl, true, false, [], ◌∷◌, get_or, arith, dec_lt,
}
use flashsale_system_imitati.Prelude.Int.{pos}
use flashsale_system_imitati.Prelude.Dict.{contains}
use flashsale_system_imitati.Messages.{worker_request_default}
use flashsale_system_imitati.Mpmc
use flashsale_system_imitati.Mpmc.{MpmcQueue, cell_default}
use flashsale_system_imitati.Worker.{Worker}
use flashsale_system_imitati.Lane.Samples.{lane, lane-IsLane, shared}
use flashsale_system_imitati.Core.{
  CSeckillRequest, Request, request_default, zero_request, to_request, to_worker_request,
  reset_check, Engine, CSeckillResult, result_default,
}
use flashsale_system_imitati.Core.Pending.{IsEngine}

abbrev pub empty_queue : MpmcQueue Request
empty_queue = record {
  buffer =
      record { sequence = 0; item = zero_request }
      ∷ record { sequence = 1; item = zero_request }
      ∷ [];
  mask = 1;
  enqueue_pos = 0;
  dequeue_pos = 0;
}

at_zero : (at : ℕ) → at ≡ 0 → (get_or empty_queue.buffer (at % 2) cell_default.dflt).sequence ≡ at
at_zero at e = rw e refl

at_one : (at : ℕ) → at ≡ 1 → (get_or empty_queue.buffer (at % 2) cell_default.dflt).sequence ≡ at
at_one at e = rw e refl

pub empty_queue-IsValid : Mpmc.Inv.IsValid 1 empty_queue
empty_queue-IsValid = record {
  two_cells = omega arith;
  cells = refl;
  masked = refl;
  ordered = omega arith;
  bounded = omega arith;
  filled = λ at lo hi. absurd (omega arith);
  waiting = λ at lo hi. elim (dec_lt at 1) [
    | yes low ↦ at_zero at (omega arith)
    | no high ↦ at_one at (omega arith)
  ];
}

abbrev pub empty_results : MpmcQueue CSeckillResult
empty_results = record {
  buffer =
      record { sequence = 0; item = result_default.dflt }
      ∷ record { sequence = 1; item = result_default.dflt }
      ∷ [];
  mask = 1;
  enqueue_pos = 0;
  dequeue_pos = 0;
}

result_zero :
    (at : ℕ) → at ≡ 0 → (get_or empty_results.buffer (at % 2) cell_default.dflt).sequence ≡ at
result_zero at e = rw e refl

result_one :
    (at : ℕ) → at ≡ 1 → (get_or empty_results.buffer (at % 2) cell_default.dflt).sequence ≡ at
result_one at e = rw e refl

pub empty_results-IsValid : Mpmc.Inv.IsValid 1 empty_results
empty_results-IsValid = record {
  two_cells = omega arith;
  cells = refl;
  masked = refl;
  ordered = omega arith;
  bounded = omega arith;
  filled = λ at lo hi. absurd (omega arith);
  waiting = λ at lo hi. elim (dec_lt at 1) [
    | yes low ↦ result_zero at (omega arith)
    | no high ↦ result_one at (omega arith)
  ];
}

-- Two results wait, and there is no place for a third.
abbrev pub full_results : MpmcQueue CSeckillResult
full_results = record {
  buffer =
      record { sequence = 1; item = result_default.dflt }
      ∷ record { sequence = 2; item = result_default.dflt }
      ∷ [];
  mask = 1;
  enqueue_pos = 2;
  dequeue_pos = 0;
}

full_zero :
    (at : ℕ) → at ≡ 0 → (get_or full_results.buffer (at % 2) cell_default.dflt).sequence ≡ at + 1
full_zero at e = rw e refl

full_one :
    (at : ℕ) → at ≡ 1 → (get_or full_results.buffer (at % 2) cell_default.dflt).sequence ≡ at + 1
full_one at e = rw e refl

pub full_results-IsValid : Mpmc.Inv.IsValid 1 full_results
full_results-IsValid = record {
  two_cells = omega arith;
  cells = refl;
  masked = refl;
  ordered = omega arith;
  bounded = omega arith;
  filled = λ at lo hi. elim (dec_lt at 1) [
    | yes low ↦ full_zero at (omega arith)
    | no high ↦ full_one at (omega arith)
  ];
  waiting = λ at lo hi. absurd (omega arith);
}

abbrev pub engine : Engine
engine = record {
  running = true;
  queue = empty_queue;
  result_queue = empty_results;
  workers = lane.worker ∷ lane.worker ∷ lane.worker ∷ lane.worker ∷ [];
  dispatcher = record {
    batch = [];
    gathering = true;
    held = worker_request_default.dflt;
    targets = [];
  };
  shared = shared;
  sold_out_store = [];
  check = reset_check false;
  target_barrier_seq = 0;
}

pub engine-IsEngine : IsEngine 1 engine
engine-IsEngine = record {
  queue_valid = empty_queue-IsValid;
  workers_valid = (
    lane-IsLane.worker_queue_valid,
    (
      lane-IsLane.worker_queue_valid,
      (lane-IsLane.worker_queue_valid, (lane-IsLane.worker_queue_valid, tt)),
    ),
  );
  four = refl;
  targets_valid = tt;
}

abbrev pub order : CSeckillRequest
order = record { sku_id = pos 7; qty = pos 2; guest_id = 3; request_id = 1 }

-- Worker 3's queue is full, and the dispatcher holds a request for it.
abbrev pub full_worker : Worker
full_worker = record lane.worker { queue = record lane.worker.queue { tail = 1 } }

abbrev pub full : Engine
full = record engine {
  workers = lane.worker ∷ lane.worker ∷ lane.worker ∷ full_worker ∷ [];
  dispatcher = record engine.dispatcher {
    held = to_worker_request (to_request order);
    targets = 3 ∷ [];
  };
}

pub full-IsEngine : IsEngine 1 full
unfolding contains
full-IsEngine = record {
  queue_valid = empty_queue-IsValid;
  workers_valid = (
    lane-IsLane.worker_queue_valid,
    (
      lane-IsLane.worker_queue_valid,
      (
        lane-IsLane.worker_queue_valid,
        (
          record {
            room = omega arith;
            small = omega arith;
            head_in = omega arith;
            tail_in = omega arith;
          },
          tt,
        ),
      ),
    ),
  );
  four = refl;
  targets_valid = (omega arith, refl, tt);
}
