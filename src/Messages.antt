-- ===== src/Messages.antt =====
-- The structs that cross the C interface and the queues: backend/handler/bridge.h, and the `Request`
-- of backend/handler/bridge.cpp and `WorkerRequest` of backend/handler/worker.hpp, which have one
-- layout. `_pad1` and `_pad2` are left out.
use flashsale_system_imitati.Prelude.{ℕ, ◌^◌, ◌-◌, Default}
use flashsale_system_imitati.Prelude.Int.{ℤ, pos}

pub record CSeckillRequest : Type 0 where
  pub sku_id : ℤ
  pub qty : ℤ
  pub guest_id : ℕ
  pub request_id : ℕ
  pub ts_ingress : ℤ
  pub ts_pop_mpmc : ℤ
  pub ts_push_spsc : ℤ
  pub ts_pop_spsc : ℤ

pub record Request : Type 0 where
  pub sku_id : ℤ
  pub qty : ℤ
  pub guest_id : ℕ
  pub request_id : ℕ
  pub ts_ingress : ℤ
  pub ts_pop_mpmc : ℤ
  pub ts_push_spsc : ℤ
  pub ts_pop_spsc : ℤ

pub record WorkerRequest : Type 0 where
  pub sku_id : ℤ
  pub qty : ℤ
  pub guest_id : ℕ
  pub request_id : ℕ
  pub ts_ingress : ℤ
  pub ts_pop_mpmc : ℤ
  pub ts_push_spsc : ℤ
  pub ts_pop_spsc : ℤ

-- `status` is 1 for success, 2 for sold out, 0 for failure.
pub record CSeckillResult : Type 0 where
  pub sku_id : ℤ
  pub qty : ℤ
  pub guest_id : ℕ
  pub request_id : ℕ
  pub status : ℤ
  pub mpmc_latency_ns : ℤ
  pub spsc_latency_ns : ℤ
  pub ts_ingress : ℤ
  pub ts_pop_mpmc : ℤ

-- `UINT64_MAX`, the request id of a barrier.
abbrev pub uint64_max : ℕ
uint64_max = 2 ^ 64 - 1

-- All bytes zero, as `memset` and value initialisation leave a struct.
abbrev pub zero_request : Request
zero_request = record {
  sku_id = pos 0;
  qty = pos 0;
  guest_id = 0;
  request_id = 0;
  ts_ingress = pos 0;
  ts_pop_mpmc = pos 0;
  ts_push_spsc = pos 0;
  ts_pop_spsc = pos 0;
}

abbrev pub zero_worker_request : WorkerRequest
zero_worker_request = record {
  sku_id = pos 0;
  qty = pos 0;
  guest_id = 0;
  request_id = 0;
  ts_ingress = pos 0;
  ts_pop_mpmc = pos 0;
  ts_push_spsc = pos 0;
  ts_pop_spsc = pos 0;
}

abbrev pub zero_result : CSeckillResult
zero_result = record {
  sku_id = pos 0;
  qty = pos 0;
  guest_id = 0;
  request_id = 0;
  status = pos 0;
  mpmc_latency_ns = pos 0;
  spsc_latency_ns = pos 0;
  ts_ingress = pos 0;
  ts_pop_mpmc = pos 0;
}

instance abbrev pub request_default : Default Request
request_default = record { dflt = zero_request }

instance abbrev pub worker_request_default : Default WorkerRequest
worker_request_default = record { dflt = zero_worker_request }

instance abbrev pub result_default : Default CSeckillResult
result_default = record { dflt = zero_result }

-- `memcpy(&wreq, &req, sizeof(WorkerRequest))`
abbrev pub to_worker_request : Request → WorkerRequest
to_worker_request r = record {
  sku_id = r.sku_id;
  qty = r.qty;
  guest_id = r.guest_id;
  request_id = r.request_id;
  ts_ingress = r.ts_ingress;
  ts_pop_mpmc = r.ts_pop_mpmc;
  ts_push_spsc = r.ts_push_spsc;
  ts_pop_spsc = r.ts_pop_spsc;
}

-- `reinterpret_cast<const Request*>`
abbrev pub to_request : CSeckillRequest → Request
to_request r = record {
  sku_id = r.sku_id;
  qty = r.qty;
  guest_id = r.guest_id;
  request_id = r.request_id;
  ts_ingress = r.ts_ingress;
  ts_pop_mpmc = r.ts_pop_mpmc;
  ts_push_spsc = r.ts_push_spsc;
  ts_pop_spsc = r.ts_pop_spsc;
}
