-- ===== src/Core/Join.antt =====
-- `JoinEngine`: the workers' threads end, and the count that it reports.
use flashsale_system_imitati.Prelude.{
  ℕ, suc, ◌≡◌, ◌<◌, ◌+◌, ◌%◌, ◌^◌, refl, ap, ◌∙◌, false, some, List, [], ◌∷◌, length, arith, inl,
  inr, Option-cases,
}
use flashsale_system_imitati.Prelude.Int.{ℤ}
use flashsale_system_imitati.Messages.{worker_request_default}
use flashsale_system_imitati.Spsc
use flashsale_system_imitati.Worker.{Worker}
use flashsale_system_imitati.Core.Loop.{Effect, Meets, close_wal, stop, stop_all, join_engine}
use flashsale_system_imitati.Core.Rounds.{ReadsFalse}
use flashsale_system_imitati.Core.Dressed.{process_each}
use flashsale_system_imitati.Core.Place.{FindsPlace, AreEffects}
use flashsale_system_imitati.Core.Stop.{stop-drains}

module _ (k fuel : ℕ) (meets : ℕ → Meets) where
  -- From worker `i` on: each is between two batches, its thread comes to read false, its results find a
  -- place, and `fuel` is as large as the number of its requests and reads.
  abbrev pub AllBetween : ℕ → List Worker → Type 0
  AllBetween i [] = Unit
  AllBetween i (w ∷ ws) =
      (Spsc.Inv.IsValid w.queue
        × ReadsFalse (meets i).reads
        × ((n : ℕ) → FindsPlace k ((meets i).mets n).tries)
        × (w.is_processing ≡ false)
        × (w.processed_count < 2 ^ 64)
        × (length (Spsc.Refine.contents w.queue) + length (meets i).reads < suc fuel))
      × AllBetween (suc i) ws

module _ (k : ℕ) (meets : ℕ → Meets) where
  -- The effects of each worker are those of processing the requests of its queue in order.
  abbrev pub AllEffects : ℕ → List Worker → List (List Effect) → Type 0
  AllEffects i [] [] = Unit
  AllEffects i [] (es ∷ rest) = ⊥
  AllEffects i (w ∷ ws) [] = ⊥
  AllEffects i (w ∷ ws) (es ∷ rest) =
      AreEffects k (meets i).mets 0
        (process_each (meets i).mets 0 (Spsc.Refine.contents w.queue) w).1 es
      × AllEffects (suc i) ws rest

-- What the workers have processed and what still waits in their queues.
abbrev pub all_requests : List Worker → ℕ
all_requests [] = 0
all_requests (w ∷ ws) = w.processed_count + length (Spsc.Refine.contents w.queue) + all_requests ws

processed_count-close_wal :
    (written : ℤ) (w : Worker) → (close_wal written w).processed_count ≡ w.processed_count
unfolding close_wal
processed_count-close_wal written w = elim (Option-cases w.wal) [
  | inl e ↦ rw (e, close_wal) refl
  | inr (log, e) ↦ rw (e, close_wal) refl
]

stop_all-cons :
    (fuel : ℕ) (meets : ℕ → Meets) (i : ℕ) (w w' : Worker) (ws : List Worker)
    (effects : List Effect) (rest : List (List Effect)) (total : ℕ)
    → stop fuel (meets i) w ≡ some (w', effects)
    → stop_all fuel meets (suc i) ws ≡ some (total, rest)
    → stop_all fuel meets i (w ∷ ws) ≡ some ((w'.processed_count + total) % 2 ^ 64, effects ∷ rest)
unfolding stop_all
stop_all-cons fuel meets i w w' ws effects rest total h h' = rw (h, stop_all) (rw h' refl)

stop_all-total :
    (k fuel : ℕ) (meets : ℕ → Meets) (i : ℕ) (ws : List Worker)
    → AllBetween k fuel meets i ws
    → (effects : List (List Effect)) × (stop_all fuel meets i ws
        ≡ some (all_requests ws % 2 ^ 64, effects))
      × AllEffects k meets i ws effects
unfolding stop_all
stop_all-total k fuel meets i [] b = ([], refl, tt)
stop_all-total k fuel meets i (w ∷ ws) b =
    let (q, effects, stopped, done, empty) =
      stop-drains k fuel (meets i) w b.0.0 b.0.1 b.0.2 b.0.3 b.0.4 b.0.5 in
    let (rest, e, all_done) = stop_all-total k fuel meets (suc i) ws b.1 in
    (
      effects ∷ rest,
      stop_all-cons fuel meets i w _ ws effects rest (all_requests ws % 2 ^ 64) stopped e
          ∙ ap (λ c. some (c, effects ∷ rest))
              (ap (λ c. (c + all_requests ws % 2 ^ 64) % 2 ^ 64)
                  (processed_count-close_wal (meets i).written _)
                ∙ omega arith),
      (done, all_done),
    )

-- `JoinEngine` ends, whatever the threads do to each other on the way, if each worker is between two
-- batches, nobody adds to the queues, each thread comes to read that it is to stop, of the tries to
-- enqueue a result one meets a queue of results that is not full (somebody polls), and each loop has as
-- many rounds as there are requests and reads. Each worker has then processed all requests of its
-- queue in their order and has enqueued their results, no worker is left, and the total that it prints
-- counts what the workers had processed before together with all of these (modulo 2^64).
pub join_engine-total :
    (k fuel : ℕ) (meets : ℕ → Meets) (workers : List Worker)
    → AllBetween k fuel meets 0 workers
    → (effects : List (List Effect)) × (join_engine fuel meets workers
        ≡ some (all_requests workers % 2 ^ 64, [], effects))
      × AllEffects k meets 0 workers effects
unfolding join_engine
join_engine-total k fuel meets workers b =
    let (effects, e, done) = stop_all-total k fuel meets 0 workers b in
    (effects, rw (e, join_engine) refl, done)
