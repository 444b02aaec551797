-- ===== src/Lane/Tests.antt =====
-- A lane on concrete inputs.
use flashsale_system_imitati.Prelude.{ℕ, ◌<◌, ◌≡◌, true, false, some, List, [], ◌∷◌, ◌++◌, arith}
use flashsale_system_imitati.Prelude.Int.{pos}
use flashsale_system_imitati.Prelude.Dict.{find}
use flashsale_system_imitati.Messages.{
  request_default, worker_request_default, result_default, to_worker_request,
}
use flashsale_system_imitati.Spsc
use flashsale_system_imitati.Mpmc.{cell_default}
use flashsale_system_imitati.Worker.Stock.{IsOrder, IsStocked, StockKept}
use flashsale_system_imitati.Lane.{
  Lane, Trace, Move, accepts, dispatches, pushes, fetches, begins, handles, run,
}
use flashsale_system_imitati.Lane.Samples.{request, lane, lane-IsLane, env, shared}
use flashsale_system_imitati.Lane.Kept.{cores, in_flight, IsLane}
use flashsale_system_imitati.Lane.Order.{AllRun, run-in_order}
use flashsale_system_imitati.Lane.Stock.{AllOffer, run-stock}

-- One request goes through, another stays in the worker's queue.
abbrev moves : List Move
moves =
    accepts (false ∷ true ∷ []) request
    ∷ dispatches (true ∷ []) (pos 3) (pos 4)
    ∷ pushes
    ∷ accepts (true ∷ []) (record request { request_id = 2 })
    ∷ fetches (pos 5)
    ∷ begins
    ∷ handles env shared
    ∷ dispatches (true ∷ []) (pos 6) (pos 7)
    ∷ pushes
    ∷ []

moves-AllRun : AllRun moves
moves-AllRun = (tt, (tt, (tt, (tt, (tt, (tt, (tt, (tt, (tt, tt)))))))))

order-IsOrder :
    (id : ℕ) → id < 10 → IsOrder (to_worker_request (record request { request_id = id }))
order-IsOrder id h = record {
  id_regular = omega arith;
  qty_nonneg = omega arith;
  qty_fits = omega arith;
}

moves-AllOffer : AllOffer moves
moves-AllOffer = (
  order-IsOrder 1 (omega arith),
  (tt, (tt, (order-IsOrder 2 (omega arith), (tt, (tt, (tt, (tt, (tt, tt)))))))),
)

lane-IsStocked : IsStocked lane.worker.inventory
unfolding find
lane-IsStocked k z h = ground arith

run-in_order_example :
    (l' : Lane) × (tr : Trace) × (run moves lane ≡ some (l', tr))
    × (in_flight 1 lane ++ cores tr.accepted ≡ cores tr.handled ++ in_flight 1 l')
    × IsLane 1 l'
run-in_order_example = run-in_order 1 moves lane lane-IsLane (omega arith) moves-AllRun

run-stock_example :
    (l' : Lane) × (tr : Trace) × (run moves lane ≡ some (l', tr))
    × StockKept lane.worker.inventory l'.worker.inventory tr.results
unfolding Spsc.size
run-stock_example =
    run-stock 1 moves lane lane-IsLane (omega arith) moves-AllRun moves-AllOffer tt lane-IsStocked
