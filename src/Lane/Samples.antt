-- ===== src/Lane/Samples.antt =====
-- Lanes that the tests run.
use flashsale_system_imitati.Prelude.{
  ℕ, ◌+◌, ◌%◌, ◌≡◌, refl, true, false, none, [], ◌∷◌, get_or, arith, dec_lt,
}
use flashsale_system_imitati.Prelude.Int.{pos}
use flashsale_system_imitati.Messages.{
  Request, request_default, worker_request_default, result_default, zero_request, zero_result,
}
use flashsale_system_imitati.Mpmc
use flashsale_system_imitati.Mpmc.{MpmcQueue, cell_default}
use flashsale_system_imitati.Worker.{Shared, Env}
use flashsale_system_imitati.Lane.{Lane}
use flashsale_system_imitati.Lane.Kept.{IsLane}

-- A queue of two cells with nothing in it.
abbrev pub empty_queue : MpmcQueue Request
empty_queue = record {
  buffer =
      record { sequence = 0; item = zero_request }
      ∷ record { sequence = 1; item = zero_request }
      ∷ [];
  mask = 1;
  enqueue_pos = 0;
  dequeue_pos = 0;
}

at_zero : (at : ℕ) → at ≡ 0 → (get_or empty_queue.buffer (at % 2) cell_default.dflt).sequence ≡ at
at_zero at e = rw e refl

at_one : (at : ℕ) → at ≡ 1 → (get_or empty_queue.buffer (at % 2) cell_default.dflt).sequence ≡ at
at_one at e = rw e refl

empty_queue-IsValid : Mpmc.Inv.IsValid 1 empty_queue
empty_queue-IsValid = record {
  two_cells = omega arith;
  cells = refl;
  masked = refl;
  ordered = omega arith;
  bounded = omega arith;
  filled = λ at lo hi. absurd (omega arith);
  waiting = λ at lo hi. elim (dec_lt at 1) [
    | yes low ↦ at_zero at (omega arith)
    | no high ↦ at_one at (omega arith)
  ];
}

abbrev pub request : Request
request = record zero_request { sku_id = pos 7; qty = pos 2; request_id = 1 }

-- The same with a request waiting in it.
abbrev pub one_request : MpmcQueue Request
one_request = record {
  buffer =
      record { sequence = 1; item = request } ∷ record { sequence = 1; item = zero_request } ∷ [];
  mask = 1;
  enqueue_pos = 1;
  dequeue_pos = 0;
}

filled_zero :
    (at : ℕ) → at ≡ 0 → (get_or one_request.buffer (at % 2) cell_default.dflt).sequence ≡ at + 1
filled_zero at e = rw e refl

waiting_one :
    (at : ℕ) → at ≡ 1 → (get_or one_request.buffer (at % 2) cell_default.dflt).sequence ≡ at
waiting_one at e = rw e refl

one_request-IsValid : Mpmc.Inv.IsValid 1 one_request
one_request-IsValid = record {
  two_cells = omega arith;
  cells = refl;
  masked = refl;
  ordered = omega arith;
  bounded = omega arith;
  filled = λ at lo hi. filled_zero at (omega arith);
  waiting = λ at lo hi. waiting_one at (omega arith);
}

abbrev pub lane : Lane
lane = record {
  queue = empty_queue;
  held = none;
  worker = record {
    id = pos 0;
    running = true;
    is_processing = false;
    queue = record {
      head = 0;
      tail = 0;
      buffer = worker_request_default.dflt ∷ worker_request_default.dflt ∷ [];
    };
    wal = none;
    wal_file = [];
    inventory = (pos 7, pos 5) ∷ [];
    seen_requests = [];
    processed_count = 0;
    sold_out_flags = [];
    has_barrier = false;
    check = none;
  };
  batch = [];
  count = 0;
  outbox = none;
}

pub lane-IsLane : IsLane 1 lane
lane-IsLane = record {
  queue_valid = empty_queue-IsValid;
  worker_queue_valid = record {
    room = omega arith;
    small = omega arith;
    head_in = omega arith;
    tail_in = omega arith;
  };
}

abbrev pub env : Env
env = record { timestamp_ns = 0; written = pos 40; pad = 0; uninit = zero_result }

abbrev pub shared : Shared
shared = record { sold_total = 0; barrier_count = 0; flags = [] }

-- The lane with a request that waits for the dispatcher.
abbrev pub busy_lane : Lane
busy_lane = record lane { queue = one_request }

pub busy_lane-IsLane : IsLane 1 busy_lane
busy_lane-IsLane = record {
  queue_valid = one_request-IsValid;
  worker_queue_valid = lane-IsLane.worker_queue_valid;
}
