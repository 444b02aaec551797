-- ===== src/OrderWorker/Results.antt =====
-- What the order worker has done when its threads have ended.
use flashsale_system_imitati.Prelude.{
  ℕ, ◌+◌, ◌≤◌, ◌<◌, ◌≡◌, ◌↔◌, refl, ap, sym, subst, true, List, [], ◌∷◌, length, if◌then◌else◌,
  arith, dec_lt, inl, inr, Bool-cases, Option, Option-cases, some, none, get_elem?,
}
use flashsale_system_imitati.OrderWorker.{
  Consumer, polls, looks, retries, holds, counted, writes, drops, ended, QueueOps, System, all_done,
  all_ended, joins, Move, step, run, produces, consumes, start,
}
use flashsale_system_imitati.OrderWorker.Queue.{QueueLaws}
use flashsale_system_imitati.OrderWorker.Sums.{total, total-nil, count, one_if}
use flashsale_system_imitati.OrderWorker.Inv.{
  holding, busy, writing, dropping, having, at_end, IsSystem,
}
use flashsale_system_imitati.OrderWorker.Workers.{Survives, consume-Survives}
use flashsale_system_imitati.OrderWorker.Producers.{all_done-total, produce-Survives}

-- Workers that have ended have nothing in hand.
pub all_ended-total :
    (ws : List Consumer)
    → all_ended ws ≡ true
    → (total holding ws ≡ 0)
      × (total busy ws ≡ 0)
      × (total at_end ws ≡ total (λ w. 1) ws)
      × ((x : ℕ)
          → (total (writing x) ws ≡ 0) × (total (having x) ws ≡ 0) × (total (dropping x) ws ≡ 0))
unfolding all_ended
all_ended-total [] h = (refl, refl, refl, λ x. (refl, refl, refl))
all_ended-total (ended ∷ ws) h =
    let (a, b, c, d) = all_ended-total ws h in
    (
      omega (arith, a),
      omega (arith, b),
      omega (arith, c),
      λ x. (omega (arith, (d x).0), omega (arith, (d x).1), omega (arith, (d x).2)),
    )
all_ended-total (polls ∷ ws) h = absurd (ground arith)
all_ended-total (looks ∷ ws) h = absurd (ground arith)
all_ended-total (retries ∷ ws) h = absurd (ground arith)
all_ended-total (holds intent ∷ ws) h = absurd (ground arith)
all_ended-total (counted intent ∷ ws) h = absurd (ground arith)
all_ended-total (writes intent ∷ ws) h = absurd (ground arith)
all_ended-total (drops intent ∷ ws) h = absurd (ground arith)

module _ {Q : Type 0} (ops : QueueOps Q) (laws : QueueLaws ops) where
  pub step-Survives :
      (move : Move) (s : System Q) → IsSystem laws s → Survives laws (step ops move s)
  unfolding step
  step-Survives (produces pid draw) s v = elim (Option-cases (get_elem? s.producers pid)) [
    | inl e ↦ rw (e, Survives) tt
    | inr (p, e) ↦ rw (e, Survives) (produce-Survives ops laws s v pid draw p e)
  ]
  step-Survives (consumes wid) s v = elim (Option-cases (get_elem? s.workers wid)) [
    | inl e ↦ rw (e, Survives) tt
    | inr (w, e) ↦ rw (e, Survives) (consume-Survives ops laws s v wid w e)
  ]
  step-Survives joins s v = elim (Bool-cases s.producers_done) [
    | inl t ↦ subst (λ b. Survives laws (if b then none else rest)) (sym t) tt
    | inr f ↦
        subst (λ b. Survives laws (if b then none else rest)) (sym f)
          (elim (Bool-cases (all_done s.producers)) [
            | inl t ↦
                subst (λ b. Survives laws (if b then some after else none)) (sym t)
                  (record {
                    budget = v.budget;
                    settled = v.settled;
                    finished = λ d. t;
                    queued = v.queued;
                    worked = v.worked;
                    marked = v.marked;
                    once = v.once;
                    four = v.four;
                    known = v.known;
                    repeated = v.repeated;
                    told = λ h. refl;
                    drained = λ h. ((v.drained h).0, refl);
                  })
            | inr f' ↦ subst (λ b. Survives laws (if b then some after else none)) (sym f') tt
          ])
  ]
    where
      after : System Q
      after = record s { producers_done = true }

      rest : Option (System Q)
      rest = if all_done s.producers then some after else none

  pub run-Survives :
      (moves : List Move) (s : System Q) → IsSystem laws s → Survives laws (run ops moves s)
  unfolding run
  run-Survives [] s v = v
  run-Survives (move ∷ moves) s v = elim (Option-cases (step ops move s)) [
    | inl e ↦ rw (e, Survives) tt
    | inr (s', e) ↦
        let v' : Survives laws (some s') = subst (Survives laws) e (step-Survives move s v) in
        rw (e, Survives) (run-Survives moves s' v')
  ]

  pub start-IsSystem : (q : Q) → laws.contents q ≡ [] → IsSystem laws (start q)
  start-IsSystem q e = record {
    budget = refl;
    settled = refl;
    finished = λ d. absurd (ground arith);
    queued = omega (arith, ap length e);
    worked = refl;
    marked = λ x. refl;
    once = λ x. omega arith;
    four = refl;
    known = λ x. omega (arith, ap (total (λ intent. one_if x intent.request_id)) e);
    repeated = λ x h. absurd (omega arith);
    told = λ h. absurd (omega arith);
    drained = λ h. absurd (omega arith);
  }

-- When all threads have ended, after a run from the start on an empty queue: every one of the 1,600,000
-- intents is counted once, as accepted or as rejected, and every accepted intent is counted as consumed,
-- so that both assertions of `main` hold; every intent consumed has been written or dropped as a
-- duplicate; no request id has been written twice, and those written are exactly those accepted.
pub run-counts :
    {Q : Type 0} (ops : QueueOps Q) (laws : QueueLaws ops) (q : Q) (moves : List Move)
    (s : System Q)
    → laws.contents q ≡ []
    → run ops moves (start q) ≡ some s
    → all_ended s.workers ≡ true
    → (s.produced_total ≡ 1_600_000)
      × (s.produced_total ≡ s.accepted_total + s.rejected_full)
      × (s.consumed_total ≡ s.accepted_total)
      × (s.consumed_total ≡ s.idempotent_dups + length s.journal.written)
      × ((x : ℕ)
          → (count x s.journal.written ≤ 1)
            × ((0 < count x s.journal.taken) ↔ (count x s.journal.written ≡ 1)))
run-counts ops laws q moves s e h all =
    let v : Survives laws (some s) =
      subst (Survives laws) h
        (run-Survives ops laws moves (start q) (start-IsSystem ops laws q e)) in
    let (ho, bu, en, ids) = all_ended-total s.workers all in
    let (empty, done) = v.drained (omega (arith, en, v.four)) in
    let (u, n, r) = all_done-total s.producers (v.finished done) in
    (
      omega (arith, v.budget, r),
      omega (arith, v.settled, u),
      omega (arith, v.queued, n, ho, empty),
      omega (arith, v.worked, bu),
      λ x. (
        omega (arith, v.marked x, v.once x, (ids x).0),
        (
          λ taken. elim (dec_lt 0 (count x s.journal.dropped)) [
            | yes lt ↦ omega (arith, v.marked x, (ids x).0, v.repeated x (omega arith))
            | no none_dropped ↦
                omega
                  (arith, v.marked x, v.once x, v.known x, (ids x).0, (ids x).1, none_waits x empty)
          ],
          λ written. omega (arith, v.marked x, v.known x, (ids x).0),
        ),
      ),
    )
  where
    none_waits :
        (x : ℕ)
        → length (laws.contents s.queue) ≡ 0
        → total (λ intent. one_if x intent.request_id) (laws.contents s.queue) ≡ 0
    none_waits x h = total-nil (λ intent. one_if x intent.request_id) (laws.contents s.queue) h
