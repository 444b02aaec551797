-- ===== src/Spsc/RaceTests.antt =====
-- Two threads on a concrete `SpscQueue`.
use flashsale_system_imitati.Prelude.{
  ℕ, ◌≡◌, refl, some, List, [], ◌∷◌, Default, arith, false, true,
}
use flashsale_system_imitati.Spsc.{SpscQueue}
use flashsale_system_imitati.Spsc.Inv.{IsValid}
use flashsale_system_imitati.Spsc.Refine.{contents}
use flashsale_system_imitati.Spsc.Threads.{
  System, Event, put, got, Move, calls_enqueue, produces, calls_dequeue, consumes, produce, consume,
  call_enqueue, call_dequeue, step, run,
}
use flashsale_system_imitati.Spsc.Interleave.{begin, run-fifo}
use flashsale_system_imitati.Spsc.Race.{Follows}

instance abbrev nat_default : Default ℕ
nat_default = record { dflt = 0 }

-- 7 and 8 in a buffer of four cells.
abbrev two : SpscQueue ℕ
two = record { head = 3; tail = 1; buffer = 8 ∷ 0 ∷ 0 ∷ 7 ∷ [] }

two-IsValid : IsValid two
two-IsValid = omega arith

-- The consumer takes the 7 while the producer is putting in a 9; then 10 goes in, and 11 is refused.
abbrev overlap : List (Move ℕ)
overlap =
    calls_enqueue 9
    ∷ calls_dequeue
    ∷ produces
    ∷ consumes
    ∷ consumes
    ∷ produces
    ∷ consumes
    ∷ produces
    ∷ calls_enqueue 10
    ∷ produces
    ∷ produces
    ∷ produces
    ∷ calls_enqueue 11
    ∷ produces
    ∷ []

abbrev after_overlap : System ℕ
after_overlap = begin (record { head = 0; tail = 3; buffer = 8 ∷ 9 ∷ 10 ∷ 7 ∷ [] })

abbrev answers : List (Event ℕ)
answers = got (some 7) ∷ put 9 true ∷ put 10 true ∷ put 11 false ∷ []

run-overlap : run overlap (begin two) ≡ some (after_overlap, answers)
unfolding run step produce consume call_enqueue call_dequeue
run-overlap = refl

run-fifo_example :
    Follows 3 (contents two) answers (contents after_overlap.queue) × IsValid after_overlap.queue
run-fifo_example = run-fifo two overlap after_overlap answers two-IsValid run-overlap
