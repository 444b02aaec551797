-- ===== src/Core/Route.antt =====
-- The dispatcher takes the next request of its batch.
use native.Mathlib.Nat.{mod-lt}
use flashsale_system_imitati.Prelude.{
  ℕ, ◌<◌, ◌≡◌, refl, sym, ap, ◌∙◌, ◌++◌, true, false, List, [], ◌∷◌, ◌==◌, arith, inl, inr,
  Bool-cases,
}
use flashsale_system_imitati.Prelude.Int.{abs}
use flashsale_system_imitati.Prelude.Dict.{contains}
use flashsale_system_imitati.Messages.{WorkerRequest, worker_request_default, uint64_max}
use flashsale_system_imitati.Mpmc
use flashsale_system_imitati.Core.{
  Request, request_default, to_worker_request, worker_index, worker_count, Engine, route,
}
use flashsale_system_imitati.Core.Pending.{
  goes_to, for_worker, queued, held_for, pending, AllTargets, IsEngine, Keeps,
}

worker_index-lt : (req : Request) → worker_index req < worker_count
unfolding worker_index
worker_index-lt req = mod-lt (abs req.sku_id) (omega arith)

contains_all : (i : ℕ) → i < 4 → contains i (0 ∷ 1 ∷ 2 ∷ 3 ∷ []) ≡ true
unfolding contains
contains_all i h = ground arith

contains_one : (i j : ℕ) → contains i (j ∷ []) ≡ (j == i)
unfolding contains
contains_one i j = ground arith

-- Taking `req` out of the batch and into the hand, for the targets that it goes to.
for_worker-held :
    (i : ℕ) (req : Request) (rest : List Request) (targets : List ℕ) (later : List WorkerRequest)
    → contains i targets ≡ goes_to i req
    → held_for i (to_worker_request req) targets ++ (for_worker i rest ++ later)
      ≡ for_worker i (req ∷ rest) ++ later
for_worker-held i req rest targets later e = elim (Bool-cases (goes_to i req)) [
  | inl t ↦ rw (e, t) refl
  | inr f ↦ rw (e, f) refl
]

pending-batch :
    (k i : ℕ) (req : Request) (rest : List Request) (e : Engine)
    → e.dispatcher.targets ≡ []
    → e.dispatcher.batch ≡ req ∷ rest
    → pending k i e
      ≡ queued i e.workers
        ++ (for_worker i (req ∷ rest) ++ for_worker i (Mpmc.Inv.contents k e.queue))
unfolding contains
pending-batch k i req rest e none_held b =
    ap
      (λ ts.
        queued i e.workers
        ++ (held_for i e.dispatcher.held ts
            ++ (for_worker i e.dispatcher.batch ++ for_worker i (Mpmc.Inv.contents k e.queue))))
      none_held
    ∙ ap
        (λ reqs.
          queued i e.workers ++ (for_worker i reqs ++ for_worker i (Mpmc.Inv.contents k e.queue)))
        b

pub route-Keeps :
    (k : ℕ) (req : Request) (rest : List Request) (e : Engine)
    → IsEngine k e
    → e.dispatcher.targets ≡ []
    → e.dispatcher.batch ≡ req ∷ rest
    → Keeps k e (route req rest e)
unfolding route contains
route-Keeps k req rest e v none_held b = elim (Bool-cases (req.request_id == uint64_max)) [
  | inl t ↦ rw t (record {
    in_order = λ i h.
        ap (λ xs. queued i e.workers ++ xs)
          (for_worker-held i req rest (0 ∷ 1 ∷ 2 ∷ 3 ∷ []) (later i)
            (contains_all i h ∙ sym (to_all i t)))
        ∙ sym (pending-batch k i req rest e none_held b);
    valid = record {
      queue_valid = v.queue_valid;
      workers_valid = v.workers_valid;
      four = v.four;
      targets_valid = all_targets;
    };
  })
  | inr f ↦ rw f (record {
    in_order = λ i h.
        ap (λ xs. queued i e.workers ++ xs)
          (for_worker-held i req rest (worker_index req ∷ []) (later i)
            (contains_one i (worker_index req) ∙ sym (to_one i f)))
        ∙ sym (pending-batch k i req rest e none_held b);
    valid = record {
      queue_valid = v.queue_valid;
      workers_valid = v.workers_valid;
      four = v.four;
      targets_valid = (worker_index-lt req, refl, tt);
    };
  })
]
  where
    later : ℕ → List WorkerRequest
    later i = for_worker i (Mpmc.Inv.contents k e.queue)

    to_all : (i : ℕ) → (req.request_id == uint64_max) ≡ true → goes_to i req ≡ true
    to_all i t = rw t refl

    to_one :
        (i : ℕ) → (req.request_id == uint64_max) ≡ false → goes_to i req ≡ (worker_index req == i)
    to_one i f = rw f refl

    all_targets : AllTargets (0 ∷ 1 ∷ 2 ∷ 3 ∷ [])
    all_targets =
        (omega arith, refl, (omega arith, refl, (omega arith, refl, (omega arith, refl, tt))))

pub route-same :
    (req : Request) (rest : List Request) (e : Engine)
    → ((route req rest e).queue ≡ e.queue) × ((route req rest e).running ≡ e.running)
unfolding route
route-same req rest e = elim (Bool-cases (req.request_id == uint64_max)) [
  | inl t ↦ rw (t, route) (refl, refl)
  | inr f ↦ rw (f, route) (refl, refl)
]
