-- ===== src/Core/Loss.antt =====
-- What happens to the request that the dispatcher holds when the engine stops.
use flashsale_system_imitati.Prelude.{
  ℕ, ◌≡◌, refl, sym, ap, ◌∙◌, ◌++◌, Bool, false, some, List, [], ◌∷◌, if◌then◌else◌, ◌==◌, arith,
  subst,
}
use flashsale_system_imitati.Messages.{WorkerRequest, worker_request_default}
use flashsale_system_imitati.Mpmc
use flashsale_system_imitati.Core.{request_default, Engine, enqueue_worker, hand, dispatcher_move}
use flashsale_system_imitati.Core.Api.{request_stop}
use flashsale_system_imitati.Core.Hand.{enqueue_worker-eq, contains-cons, passed}
use flashsale_system_imitati.Core.Pending.{
  queued, held_for, for_worker, pending, AllTargets, IsEngine,
}

-- When the engine has stopped while the dispatcher holds a request for a worker whose queue is full, the
-- dispatcher's next move gives the request up for that worker, although it was accepted: it ends the loop
-- on `Enqueue`, and leaves the worker's queue as it was. What is on its way to the worker loses exactly
-- the held request, and what is on its way to any other worker stays.
pub hand-drops :
    (k j : ℕ) (rest : List ℕ) (rounds : List Bool) (e : Engine)
    → IsEngine k e
    → e.dispatcher.targets ≡ j ∷ rest
    → (enqueue_worker j e.dispatcher.held e.workers).0 ≡ false
    → (e' : Engine) × (dispatcher_move rounds (request_stop e) ≡ some e')
      × (pending k j e
          ≡ queued j e.workers
            ++ (e.dispatcher.held ∷ for_worker j e.dispatcher.batch
                ++ for_worker j (Mpmc.Inv.contents k e.queue)))
      × (pending k j e'
          ≡ queued j e.workers
            ++ (for_worker j e.dispatcher.batch ++ for_worker j (Mpmc.Inv.contents k e.queue)))
      × ((i : ℕ) → (j == i) ≡ false → pending k i e' ≡ pending k i e)
unfolding dispatcher_move request_stop hand
hand-drops k j rest rounds e v t full =
    let targets : AllTargets (j ∷ rest) = subst AllTargets t v.targets_valid in
    let (own, others, v', n) =
      enqueue_worker-eq j e.dispatcher.held e.workers v.workers_valid
        (omega (arith, v.four, targets.0)) in
    (
      passed k j rest (request_stop e),
      moved,
      ap (λ ts. queued j e.workers ++ (held_for j e.dispatcher.held ts ++ later j)) t
          ∙ ap (λ b. queued j e.workers ++ ((if b then e.dispatcher.held ∷ [] else []) ++ later j))
              ((contains-cons j j rest).0 (ground arith)),
      ap (λ q. q ++ (held_for j e.dispatcher.held rest ++ later j)) (own ∙ rw full refl)
          ∙ ap (λ b. queued j e.workers ++ ((if b then e.dispatcher.held ∷ [] else []) ++ later j))
              targets.1,
      λ i other.
          ap (λ q. q ++ (held_for i e.dispatcher.held rest ++ later i)) (others i other)
          ∙ ap (λ b. queued i e.workers ++ ((if b then e.dispatcher.held ∷ [] else []) ++ later i))
              (sym ((contains-cons i j rest).1 other))
          ∙ ap (λ ts. queued i e.workers ++ (held_for i e.dispatcher.held ts ++ later i)) (sym t),
    )
  where
    later : ℕ → List WorkerRequest
    later i = for_worker i e.dispatcher.batch ++ for_worker i (Mpmc.Inv.contents k e.queue)

    moved : dispatcher_move rounds (request_stop e) ≡ some (passed k j rest (request_stop e))
    moved = rw t (simp (full, hand))
