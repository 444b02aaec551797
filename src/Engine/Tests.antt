-- ===== src/Engine/Tests.antt =====
-- The engine on concrete inputs.
use flashsale_system_imitati.Prelude.{ℕ, ◌≡◌, ◌↔◌, refl, true, false, none, some, [], ◌∷◌, arith}
use flashsale_system_imitati.Prelude.Int.{pos, negsuc}
use flashsale_system_imitati.Prelude.Dict.{find}
use flashsale_system_imitati.Messages.{
  CSeckillRequest, zero_request, to_worker_request, request_default, worker_request_default,
}
use flashsale_system_imitati.Spsc
use flashsale_system_imitati.Mpmc
use flashsale_system_imitati.Mpmc.{MpmcQueue}
use flashsale_system_imitati.Messages.{CSeckillResult, result_default}
use flashsale_system_imitati.Lane.{Lane, dispatch}
use flashsale_system_imitati.Lane.Kept.{core, in_flight}
use flashsale_system_imitati.Lane.Samples.{
  request, lane, lane-IsLane, busy_lane, busy_lane-IsLane, shared,
}
use flashsale_system_imitati.Engine.{
  Engine, shard_index, sold_out, ingress_request, enqueue_request, is_engine_idle, engine_status,
  queues_empty, workers_idle, result_size,
}
use flashsale_system_imitati.Engine.Enqueue.{IsEngine, Admitted, answer, enqueue_request-Admitted}
use flashsale_system_imitati.Wal.{WalLogger, Bytes}
use flashsale_system_imitati.Engine.Init.{AllIdle, init_engine, init_engine-IsEngine}
use flashsale_system_imitati.Engine.Enqueue.{waiting_at}
use flashsale_system_imitati.Engine.Idle.{is_engine_idle-engine_status, idle-misses_held}

abbrev engine : Engine
engine = record {
  running = true;
  lanes = lane ∷ busy_lane ∷ [];
  result_queue = none;
  shared = shared;
  sold_out_store = [];
  enqueue_count = 0;
  dequeue_count = 0;
  metrics_sku_123 = record { dequeue_count = 0; total_wait_time_ns = 0 };
  metrics_sku_456 = record { dequeue_count = 0; total_wait_time_ns = 0 };
}

engine-IsEngine : IsEngine 1 engine
engine-IsEngine = record {
  lanes_valid = (lane-IsLane, omega arith, (busy_lane-IsLane, omega arith, tt));
  lane_count = refl;
}

abbrev order : CSeckillRequest
order = record {
  sku_id = pos 7;
  qty = pos 1;
  guest_id = 0;
  request_id = 2;
  ts_ingress = pos 0;
  ts_pop_mpmc = pos 0;
  ts_push_spsc = pos 0;
  ts_pop_spsc = pos 0;
}

shard_seven : shard_index (negsuc 6) ≡ 1
unfolding shard_index
shard_seven = refl

enqueue_request-Admitted_example :
    (e' : Engine) × (enqueue_request (true ∷ []) zero_request (pos 9) order engine
      ≡ some (answer 1 order engine, e'))
    × Admitted 1 (ingress_request zero_request (pos 9) order) engine e' (answer 1 order engine)
enqueue_request-Admitted_example =
    enqueue_request-Admitted 1 (true ∷ []) zero_request (pos 9) order engine engine-IsEngine tt

accepted : answer 1 order engine ≡ pos 1
unfolding sold_out shard_index find
accepted = refl

is_engine_idle-engine_status_example : (is_engine_idle engine ≡ true) ↔ (
    ((engine_status engine).0 ≡ 0)
    × ((engine_status engine).1 ≡ 0)
    × ((engine_status engine).2 ≡ 0))
unfolding Mpmc.size Spsc.size
is_engine_idle-engine_status_example =
    is_engine_idle-engine_status engine (omega arith, omega arith, (omega arith, omega arith, tt))
      (omega arith)

idle-misses_held_example :
    (is_engine_idle (record engine { lanes = busy_lane ∷ lane ∷ [] }) ≡ false)
    × ((l' : Lane) × (dispatch (true ∷ []) (pos 3) (pos 4) busy_lane
          ≡ some (l', some (record request { ts_pop_mpmc = pos 3 })))
        × (is_engine_idle (record engine { lanes = l' ∷ lane ∷ [] }) ≡ true)
        × (in_flight 1 l' ≡ core (to_worker_request request) ∷ []))
unfolding is_engine_idle queues_empty workers_idle result_size Mpmc.size Spsc.size
idle-misses_held_example =
    idle-misses_held 1 engine busy_lane (lane ∷ []) request (true ∷ []) (pos 3) (pos 4)
      busy_lane-IsLane (omega arith) tt refl refl refl refl refl refl

abbrev log : WalLogger × Bytes
log = (record { fd = pos 3; buffer = []; buffer_pos = 0 }, [])

init_engine-IsEngine_example :
    (e' : Engine) × (init_engine (log, log) (record engine { running = false }) ≡ some e')
    × IsEngine 12 e'
    × (e'.running ≡ true)
    × ((j : ℕ) → waiting_at 12 j e'.lanes ≡ [])
    × AllIdle e'.lanes
    × ((results : MpmcQueue CSeckillResult) × (e'.result_queue ≡ some results)
        × Mpmc.Inv.IsValid 14 results
        × (Mpmc.Inv.contents 14 results ≡ []))
init_engine-IsEngine_example =
    init_engine-IsEngine (log, log) (record engine { running = false }) refl
