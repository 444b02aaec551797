-- ===== src/OrderWorker/Tests.antt =====
-- The theorems on the order worker, on a queue that is a list of at most two intents.
use flashsale_system_imitati.Prelude.{
  ℕ, ◌+◌, ◌*◌, ◌^◌, ◌≤◌, ◌<◌, ◌≡◌, ◌↔◌, refl, subst, Bool, true, false, Option, none, some, List,
  [], ◌∷◌, ◌++◌, length, ltb, if◌then◌else◌, arith,
}
use flashsale_system_imitati.Prelude.Dict.{contains}
use flashsale_system_imitati.Fifo.{pop}
use flashsale_system_imitati.OrderWorker.{
  Draw, produces, consumes, produce, consume, dequeue, try_mark, make_intent, OrderIntent, QueueOps,
  System, Move, step, run, start, all_ended, make_request_id,
}
use flashsale_system_imitati.OrderWorker.Queue.{QueueLaws}
use flashsale_system_imitati.OrderWorker.Sums.{count}
use flashsale_system_imitati.OrderWorker.Results.{
  run-counts, run-Survives, start-IsSystem, all_ended-total,
}
use flashsale_system_imitati.OrderWorker.Workers.{Survives}
use flashsale_system_imitati.OrderWorker.Ends.{run-all_ended, run-ends}
use flashsale_system_imitati.OrderWorker.Ids.{make_request_id-injective}

abbrev put_if : Bool → OrderIntent → List OrderIntent → Bool × List OrderIntent
put_if true x q = (true, q ++ (x ∷ []))
put_if false x q = (false, q)

abbrev ops : QueueOps (List OrderIntent)
ops = record { try_enqueue = λ x q. put_if (ltb (length q) 2) x q; try_dequeue = pop }

contents-put_if :
    (b : Bool) (x : OrderIntent) (q : List OrderIntent)
    → (put_if b x q).1 ≡ (if (put_if b x q).0 then q ++ (x ∷ []) else q)
contents-put_if true x q = refl
contents-put_if false x q = refl

abbrev laws : QueueLaws ops
laws = record {
  contents = λ q. q;
  contents-try_enqueue = λ x q. contents-put_if (ltb (length q) 2) x q;
  try_dequeue-pop = λ q. refl;
}

-- A run of all producers and workers to their end.
abbrev last : System (List OrderIntent)
last = (run-all_ended ops laws (start [])).1

last-run : run ops (run-all_ended ops laws (start [])).0 (start []) ≡ some last
last-run = (run-all_ended ops laws (start [])).2

last-all_ended : all_ended last.workers ≡ true
last-all_ended = (run-all_ended ops laws (start [])).3

run-all_ended_example :
    (moves : List Move) × (s' : System (List OrderIntent)) × (run ops moves (start []) ≡ some s')
    × (all_ended s'.workers ≡ true)
run-all_ended_example = run-all_ended ops laws (start [])

run-counts_example :
    (last.produced_total ≡ 1_600_000)
    × (last.produced_total ≡ last.accepted_total + last.rejected_full)
    × (last.consumed_total ≡ last.accepted_total)
    × (last.consumed_total ≡ last.idempotent_dups + length last.journal.written)
    × ((x : ℕ)
        → (count x last.journal.written ≤ 1)
          × ((0 < count x last.journal.taken) ↔ (count x last.journal.written ≡ 1)))
run-counts_example =
    run-counts ops laws [] (run-all_ended ops laws (start [])).0 last refl last-run last-all_ended

last-producers_done : last.producers_done ≡ true
last-producers_done =
    let v : Survives laws (some last) = subst (Survives laws) last-run (
      run-Survives ops laws (run-all_ended ops laws (start [])).0 (start [])
        (start-IsSystem ops laws [] refl)) in
    let (ho, bu, en, ids) = all_ended-total last.workers last-all_ended in
    (v.drained (omega (arith, en, v.four))).1

run-ends_example :
    ((more : List Move) (s' : System (List OrderIntent))
      → run ops more last ≡ some s'
      → length more ≤ 7 * length last.queue + 24)
    × (all_ended last.workers ≡ false
        → (move : Move) × (s' : System (List OrderIntent)) × (step ops move last ≡ some s'))
run-ends_example =
    run-ends ops laws [] (run-all_ended ops laws (start [])).0 last refl last-run
      last-producers_done

make_request_id-injective_example :
    ◌≡◌ {A = ℕ} 7 7 × ◌≡◌ {A = ℕ} 199_999 199_999 × (make_request_id 7 199_999 < 2 ^ 64)
make_request_id-injective_example =
    make_request_id-injective 7 199_999 7 199_999 (omega arith) (omega arith) (omega arith)
      (omega arith) refl

abbrev draw : Draw
draw = record { repeats = false; sku_pick = 3; now = 0 }

-- What a test looks at: produced, accepted, consumed, dropped, and the ids written.
abbrev counts : Option (System (List OrderIntent)) → Option (ℕ × ℕ × ℕ × ℕ × List ℕ)
counts none = none
counts (some s) =
    some
      (s.produced_total, s.accepted_total, s.consumed_total, s.idempotent_dups, s.journal.written)

-- Producer 1's first intent, on its way to worker 2.
abbrev one_order : List Move
one_order =
    produces 1 draw
    ∷ produces 1 draw
    ∷ consumes 2
    ∷ produces 1 draw
    ∷ consumes 2
    ∷ consumes 2
    ∷ consumes 2
    ∷ consumes 0
    ∷ []

counts-one_order : counts (run ops one_order (start [])) ≡ some (1, 1, 1, 0, 2 ^ 32 ∷ [])
unfolding run step produce consume dequeue try_mark make_intent pop contains make_request_id
counts-one_order = refl
