-- ===== src/OrderWorker/Polls.antt =====
-- A worker's `try_dequeue` and its look at `producers_done` keep the invariant.
use flashsale_system_imitati.Prelude.{
  ℕ, ◌+◌, ◌≡◌, ◌⊎◌, ap, true, List, [], ◌∷◌, length, arith, inl, inr, some, get_elem?, set,
}
use flashsale_system_imitati.OrderWorker.{
  OrderIntent, Consumer, polls, looks, retries, holds, ended, QueueOps, System,
}
use flashsale_system_imitati.OrderWorker.Queue.{QueueLaws}
use flashsale_system_imitati.OrderWorker.Sums.{total, total-set, total_ge, one_if}
use flashsale_system_imitati.OrderWorker.Inv.{
  holding, busy, writing, dropping, having, ending, at_end, IsSystem,
}

module _ {Q : Type 0} {ops : QueueOps Q} (laws : QueueLaws ops) (s : System Q) (v : IsSystem laws s)
    (wid : ℕ) where
  abbrev pub ids : ℕ → List OrderIntent → ℕ
  ids x = total (λ intent. one_if x intent.request_id)

  module _ (w w' : Consumer) (at : get_elem? s.workers wid ≡ some w) where
    pub moved : (f : Consumer → ℕ) → total f (set s.workers wid w') + f w ≡ total f s.workers + f w'
    moved f = total-set f s.workers wid w w' at

  -- `try_dequeue` on an empty queue, before and after `producers_done` was seen.
  pub polls-empty :
      (q : Q)
      → get_elem? s.workers wid ≡ some polls
      → laws.contents s.queue ≡ []
      → laws.contents q ≡ []
      → IsSystem laws (record s { queue = q; workers = set s.workers wid looks })
  polls-empty q at e e' =
      let m = moved polls looks at in
      record {
        budget = v.budget;
        settled = v.settled;
        finished = v.finished;
        queued = omega (arith, v.queued, m holding, ap length e, ap length e');
        worked = omega (arith, v.worked, m busy);
        marked = λ x. omega (arith, v.marked x, m (writing x));
        once = v.once;
        four = omega (arith, v.four, m (λ w. 1));
        known = λ x. omega (arith, v.known x, m (having x), ap (ids x) e, ap (ids x) e');
        repeated = λ x h. v.repeated x (omega (arith, m (dropping x)));
        told = λ h. v.told (omega (arith, m ending));
        drained = λ h. (ap length e', (v.drained (omega (arith, m at_end))).1);
      }

  pub retries-empty :
      (q : Q)
      → get_elem? s.workers wid ≡ some retries
      → laws.contents s.queue ≡ []
      → laws.contents q ≡ []
      → IsSystem laws (record s { queue = q; workers = set s.workers wid ended })
  retries-empty q at e e' =
      let m = moved retries ended at in
      record {
        budget = v.budget;
        settled = v.settled;
        finished = v.finished;
        queued = omega (arith, v.queued, m holding, ap length e, ap length e');
        worked = omega (arith, v.worked, m busy);
        marked = λ x. omega (arith, v.marked x, m (writing x));
        once = v.once;
        four = omega (arith, v.four, m (λ w. 1));
        known = λ x. omega (arith, v.known x, m (having x), ap (ids x) e, ap (ids x) e');
        repeated = λ x h. v.repeated x (omega (arith, m (dropping x)));
        told = λ h. v.told (omega (arith, m ending));
        drained =
            λ h. (ap length e', v.told (omega (arith, total_ge ending s.workers wid retries at)));
      }

  -- `try_dequeue` that gives an intent, to a worker whose weights are all 0.
  pub dequeue-some :
      (q : Q) (intent : OrderIntent) (w : Consumer)
      → get_elem? s.workers wid ≡ some w
      → (holding w ≡ 0)
        × (busy w ≡ 0)
        × (at_end w ≡ 0)
        × ((x : ℕ) → (writing x w ≡ 0) × (having x w ≡ 0) × (dropping x w ≡ 0))
      → laws.contents s.queue ≡ intent ∷ laws.contents q
      → IsSystem laws (record s { queue = q; workers = set s.workers wid (holds intent) })
  dequeue-some q intent w at (z, z', z'', zs) e =
      let m = moved w (holds intent) at in
      record {
        budget = v.budget;
        settled = v.settled;
        finished = v.finished;
        queued = omega (arith, v.queued, m holding, ap length e, z);
        worked = omega (arith, v.worked, m busy, z');
        marked = λ x. omega (arith, v.marked x, m (writing x), (zs x).0);
        once = v.once;
        four = omega (arith, v.four, m (λ w. 1));
        known = λ x. omega (arith, v.known x, m (having x), ap (ids x) e, (zs x).1);
        repeated = λ x h. v.repeated x (omega (arith, m (dropping x), (zs x).2));
        told = λ h. v.told (omega (arith, m ending));
        drained =
            λ h. absurd (omega (arith, (v.drained (omega (arith, m at_end, z''))).0, ap length e));
      }

  pub looks-Is :
      (w : Consumer)
      → get_elem? s.workers wid ≡ some looks
      → ((w ≡ polls) ⊎ ((w ≡ retries) × (s.producers_done ≡ true)))
      → IsSystem laws (record s { workers = set s.workers wid w })
  looks-Is w at kind =
      let m : (f : Consumer → ℕ)
          → total f (set s.workers wid w) + f looks ≡ total f s.workers + f w =
        moved looks w at in
      let (z, z', z'', zs) = light in
      record {
        budget = v.budget;
        settled = v.settled;
        finished = v.finished;
        queued = omega (arith, v.queued, m holding, z);
        worked = omega (arith, v.worked, m busy, z');
        marked = λ x. omega (arith, v.marked x, m (writing x), (zs x).0);
        once = v.once;
        four = omega (arith, v.four, m (λ w. 1));
        known = λ x. omega (arith, v.known x, m (having x), (zs x).1);
        repeated = λ x h. v.repeated x (omega (arith, m (dropping x), (zs x).2));
        told = λ h. elim kind [
          | inl p ↦ v.told (omega (arith, m ending, ap ending p))
          | inr (p, t) ↦ t
        ];
        drained = λ h. v.drained (omega (arith, m at_end, z''));
      }
    where
      light :
          (holding w ≡ 0)
          × (busy w ≡ 0)
          × (at_end w ≡ 0)
          × ((x : ℕ) → (writing x w ≡ 0) × (having x w ≡ 0) × (dropping x w ≡ 0))
      light = elim kind [
        | inl p ↦ (
          ap holding p,
          ap busy p,
          ap at_end p,
          λ x. (ap (writing x) p, ap (having x) p, ap (dropping x) p),
        )
        | inr (p, t) ↦ (
          ap holding p,
          ap busy p,
          ap at_end p,
          λ x. (ap (writing x) p, ap (having x) p, ap (dropping x) p),
        )
      ]
