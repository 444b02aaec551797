-- ===== src/Core/Hand.antt =====
-- The dispatcher hands a request to a worker.
use flashsale_system_imitati.Prelude.{
  ℕ, zero, suc, ◌<◌, ◌≡◌, refl, sym, ap, subst, ◌∙◌, ◌++◌, true, false, List, [], ◌∷◌, length, ◌==◌,
  if◌then◌else◌, arith, append_assoc, inl, inr, Bool-cases,
}
use flashsale_system_imitati.Prelude.Dict.{contains}
use flashsale_system_imitati.Fifo
use flashsale_system_imitati.Messages.{WorkerRequest, worker_request_default}
use flashsale_system_imitati.Spsc
use flashsale_system_imitati.Mpmc
use flashsale_system_imitati.Worker.{Worker}
use flashsale_system_imitati.Core.{request_default, Engine, hand, enqueue_worker}
use flashsale_system_imitati.Core.Pending.{
  for_worker, queued, held_for, pending, AllWorkers, AllTargets, IsEngine, Keeps,
}

push-if :
    (n : ℕ) (xs : List WorkerRequest) (x : WorkerRequest)
    → (Fifo.push n xs x).1 ≡ (if (Fifo.push n xs x).0 then xs ++ (x ∷ []) else xs)
unfolding Fifo.push
push-if n xs x = ground arith

-- A worker's queue after `Enqueue`: the request is its last if it went in; no other queue changes.
pub enqueue_worker-eq :
    (j : ℕ) (wreq : WorkerRequest) (ws : List Worker)
    → AllWorkers ws
    → j < length ws
    → let (done, ws') = enqueue_worker j wreq ws in
      (queued j ws' ≡ (if done then queued j ws ++ (wreq ∷ []) else queued j ws))
      × ((i : ℕ) → (j == i) ≡ false → queued i ws' ≡ queued i ws)
      × AllWorkers ws'
      × (length ws' ≡ length ws)
unfolding enqueue_worker
enqueue_worker-eq j wreq [] v h = absurd (omega arith)
enqueue_worker-eq zero wreq (w ∷ ws) v h = (
  own,
  first (record w { queue = (Spsc.try_enqueue w.queue wreq).1 }),
  (Spsc.Inv.try_enqueue-IsValid wreq v.0, v.1),
  refl,
)
  where
    own : Spsc.Refine.contents (Spsc.try_enqueue w.queue wreq).1 ≡ (
        if (Spsc.try_enqueue w.queue wreq).0
        then Spsc.Refine.contents w.queue ++ (wreq ∷ [])
        else Spsc.Refine.contents w.queue)
    own =
        ap (λ o. o.1) (Spsc.Refine.try_enqueue_refines wreq v.0)
        ∙ push-if (Spsc.Refine.capacity w.queue) (Spsc.Refine.contents w.queue) wreq
        ∙ ap
            (λ o.
              if o.0
              then Spsc.Refine.contents w.queue ++ (wreq ∷ [])
              else Spsc.Refine.contents w.queue)
            (sym (Spsc.Refine.try_enqueue_refines wreq v.0))

    first : (w' : Worker) (i : ℕ) → (0 == i) ≡ false → queued i (w' ∷ ws) ≡ queued i (w ∷ ws)
    first w' zero ne = absurd (ground arith)
    first w' (suc i) ne = refl
enqueue_worker-eq (suc j) wreq (w ∷ ws) v h =
    let (own, others, v', n) = enqueue_worker-eq j wreq ws v.1 (omega arith) in
    (own, rest (enqueue_worker j wreq ws).1 others, (v.0, v'), ap suc n)
  where
    rest :
        (ws' : List Worker)
        → ((i : ℕ) → (j == i) ≡ false → queued i ws' ≡ queued i ws)
        → (i : ℕ) → (suc j == i) ≡ false
        → queued i (w ∷ ws') ≡ queued i (w ∷ ws)
    rest ws' others zero ne = refl
    rest ws' others (suc i) ne = others i (ground arith)

pub contains-cons :
    (i j : ℕ) (rest : List ℕ)
    → ((j == i) ≡ true → contains i (j ∷ rest) ≡ true)
      × ((j == i) ≡ false → contains i (j ∷ rest) ≡ contains i rest)
unfolding contains
contains-cons i j rest = (λ t. ground arith, λ f. ground arith)

module _ (k j : ℕ) (rest : List ℕ) (e : Engine) where
  -- The engine after the held request has gone to worker `j`, or has been given up.
  abbrev pub passed : Engine
  passed = record e {
    workers = (enqueue_worker j e.dispatcher.held e.workers).1;
    dispatcher = record e.dispatcher { targets = rest };
  }

  pub passed-IsEngine : IsEngine k e → e.dispatcher.targets ≡ j ∷ rest → IsEngine k passed
  passed-IsEngine v t =
      let targets : AllTargets (j ∷ rest) = subst AllTargets t v.targets_valid in
      let (own, others, v', n) =
        enqueue_worker-eq j e.dispatcher.held e.workers v.workers_valid
          (omega (arith, v.four, targets.0)) in
      record {
        queue_valid = v.queue_valid;
        workers_valid = v';
        four = n ∙ v.four;
        targets_valid = targets.2;
      }

  pending-passed :
      IsEngine k e
      → e.dispatcher.targets ≡ j ∷ rest
      → (enqueue_worker j e.dispatcher.held e.workers).0 ≡ true
      → (i : ℕ) → pending k i passed ≡ pending k i e
  pending-passed v t done i =
      let targets : AllTargets (j ∷ rest) = subst AllTargets t v.targets_valid in
      let (own, others, v', n) =
        enqueue_worker-eq j e.dispatcher.held e.workers v.workers_valid
          (omega (arith, v.four, targets.0)) in
      let given : queued j passed.workers ≡ queued j e.workers ++ (held ∷ []) =
        own ∙ rw done refl in
      elim (Bool-cases (j == i)) [
        | inl same ↦
            let at : j ≡ i = ground arith in
            ap (λ q. q ++ (held_for i held rest ++ later i))
              (subst (λ x. queued x passed.workers ≡ queued x e.workers ++ (held ∷ [])) at given)
            ∙ ap
                (λ b.
                  (queued i e.workers ++ (held ∷ [])) ++ ((if b then held ∷ [] else []) ++ later i))
                (subst (λ x. contains x rest ≡ false) at targets.1)
            ∙ append_assoc (queued i e.workers) (held ∷ []) (later i)
            ∙ ap (λ b. queued i e.workers ++ ((if b then held ∷ [] else []) ++ later i))
                (sym ((contains-cons i j rest).0 same))
        | inr other ↦
            ap (λ q. q ++ (held_for i held rest ++ later i)) (others i other)
            ∙ ap (λ b. queued i e.workers ++ ((if b then held ∷ [] else []) ++ later i))
                (sym ((contains-cons i j rest).1 other))
      ]
      ∙ ap (λ ts. queued i e.workers ++ (held_for i held ts ++ later i)) (sym t)
    where
      held : WorkerRequest
      held = e.dispatcher.held

      later : ℕ → List WorkerRequest
      later i = for_worker i e.dispatcher.batch ++ for_worker i (Mpmc.Inv.contents k e.queue)

  -- While the engine runs, the loop on `Enqueue` is not left before the request is in.
  pub hand-Keeps :
      IsEngine k e → e.running ≡ true → e.dispatcher.targets ≡ j ∷ rest → Keeps k e (hand j rest e)
  unfolding hand
  hand-Keeps v on t = elim (Bool-cases (enqueue_worker j e.dispatcher.held e.workers).0) [
    | inl done ↦
        subst (Keeps k e) (sym (hand-done done))
          (record { in_order = λ i h. pending-passed v t done i; valid = passed-IsEngine v t })
    | inr full ↦
        subst (Keeps k e) (sym (hand-full full)) (record { in_order = λ i h. refl; valid = v })
  ]
    where
      hand-done : (enqueue_worker j e.dispatcher.held e.workers).0 ≡ true → hand j rest e ≡ passed
      hand-done done = rw (done, hand) refl

      hand-full : (enqueue_worker j e.dispatcher.held e.workers).0 ≡ false → hand j rest e ≡ e
      hand-full full = simp (full, on, hand)

  pub hand-same : ((hand j rest e).queue ≡ e.queue) × ((hand j rest e).running ≡ e.running)
  unfolding hand
  hand-same = elim (Bool-cases (enqueue_worker j e.dispatcher.held e.workers).0) [
    | inl done ↦ rw (done, hand) (refl, refl)
    | inr full ↦ elim (Bool-cases e.running) [
      | inl on ↦ (simp (full, on, hand), simp (full, on, hand))
      | inr off ↦ (simp (full, off, hand), simp (full, off, hand))
    ]
  ]
