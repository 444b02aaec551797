-- ===== src/OrderWorker/Producers.antt =====
-- A producer's action, and the main thread's, keep the invariant.
use flashsale_system_imitati.Prelude.{
  ℕ, ◌+◌, ◌<◌, ◌≡◌, refl, ap, ◌∙◌, true, false, List, [], ◌∷◌, ◌++◌, length, ltb, arith, inl, inr,
  Bool-cases, some, get_elem?, set, length-append,
}
use flashsale_system_imitati.OrderWorker.{
  OrderIntent, Producer, begins, offers, accepted, rejected, QueueOps, System, Draw, make_intent,
  produce, fetch_add, all_done, per_producer,
}
use flashsale_system_imitati.OrderWorker.Queue.{QueueLaws}
use flashsale_system_imitati.OrderWorker.Sums.{total, total-set, total_ge, total-append, one_if}
use flashsale_system_imitati.OrderWorker.Inv.{remaining, unsettled, uncounted, IsSystem}
use flashsale_system_imitati.OrderWorker.Workers.{Survives}

-- Once all producers are done, nothing of theirs is open.
pub all_done-total :
    (ps : List Producer)
    → all_done ps ≡ true
    → (total unsettled ps ≡ 0) × (total uncounted ps ≡ 0) × (total remaining ps ≡ 0)
unfolding all_done
all_done-total [] d = (refl, refl, refl)
all_done-total (begins i ∷ ps) d = elim (Bool-cases (ltb i per_producer)) [
  | inl t ↦ absurd (ground arith)
  | inr f ↦
      let (u, n, r) = all_done-total ps (ground arith) in
      (omega (arith, u), omega (arith, n), sums f r)
]
  where
    sums : ltb i per_producer ≡ false → total remaining ps ≡ 0 → total remaining (begins i ∷ ps) ≡ 0
    sums f r = ground (arith, r)
all_done-total (offers i intent ∷ ps) d = absurd (ground arith)
all_done-total (accepted i ∷ ps) d = absurd (ground arith)
all_done-total (rejected i ∷ ps) d = absurd (ground arith)

module _ {Q : Type 0} (ops : QueueOps Q) (laws : QueueLaws ops) (s : System Q) (v : IsSystem laws s)
    (pid : ℕ) where
  module _ (p p' : Producer) (at : get_elem? s.producers pid ≡ some p) where
    moved : (f : Producer → ℕ) → total f (set s.producers pid p') + f p ≡ total f s.producers + f p'
    moved f = total-set f s.producers pid p p' at

    -- A producer that has something to do shows that not all are done.
    not_done : 0 < unsettled p + remaining p → s.producers_done ≡ true → ⊥
    not_done h d =
        let (u, n, r) = all_done-total s.producers (v.finished d) in
        omega (
          arith,
          u,
          r,
          total_ge unsettled s.producers pid p at,
          total_ge remaining s.producers pid p at,
        )

  begins-Is :
      (i : ℕ) (intent : OrderIntent)
      → get_elem? s.producers pid ≡ some (begins i)
      → i < per_producer
      → IsSystem laws (record s {
        produced_total = fetch_add s.produced_total;
        producers = set s.producers pid (offers i intent);
      })
  begins-Is i intent at h =
      let m = moved (begins i) (offers i intent) at in
      record {
        budget =
            omega (arith, v.budget, m remaining, total_ge remaining s.producers pid (begins i) at);
        settled = omega (arith, v.budget, v.settled, m unsettled);
        finished = λ d. absurd (not_done (begins i) (offers i intent) at (omega arith) d);
        queued = omega (arith, v.queued, m uncounted);
        worked = v.worked;
        marked = v.marked;
        once = v.once;
        four = v.four;
        known = v.known;
        repeated = v.repeated;
        told = v.told;
        drained = v.drained;
      }

  offers-in :
      (q : Q) (i : ℕ) (intent : OrderIntent)
      → get_elem? s.producers pid ≡ some (offers i intent)
      → laws.contents q ≡ laws.contents s.queue ++ (intent ∷ [])
      → IsSystem laws (record s {
        queue = q;
        producers = set s.producers pid (accepted i);
        journal = record s.journal { taken = intent.request_id ∷ s.journal.taken };
      })
  offers-in q i intent at e =
      let m = moved (offers i intent) (accepted i) at in
      record {
        budget = omega (arith, v.budget, m remaining);
        settled = omega (arith, v.settled, m unsettled);
        finished = λ d. absurd (not_done (offers i intent) (accepted i) at (omega arith) d);
        queued = omega (
          arith,
          v.queued,
          m uncounted,
          ap length e,
          length-append (laws.contents s.queue) (intent ∷ []),
        );
        worked = v.worked;
        marked = v.marked;
        once = v.once;
        four = v.four;
        known = λ x. omega (
          arith,
          v.known x,
          ap (total (λ intent. one_if x intent.request_id)) e,
          total-append (λ intent. one_if x intent.request_id) (laws.contents s.queue) (intent ∷ []),
        );
        repeated = v.repeated;
        told = v.told;
        drained =
            λ h. absurd (not_done (offers i intent) (accepted i) at (omega arith) (v.drained h).1);
      }

  offers-full :
      (q : Q) (i : ℕ) (intent : OrderIntent)
      → get_elem? s.producers pid ≡ some (offers i intent)
      → laws.contents q ≡ laws.contents s.queue
      → IsSystem laws (record s { queue = q; producers = set s.producers pid (rejected i) })
  offers-full q i intent at e =
      let m = moved (offers i intent) (rejected i) at in
      record {
        budget = omega (arith, v.budget, m remaining);
        settled = omega (arith, v.settled, m unsettled);
        finished = λ d. absurd (not_done (offers i intent) (rejected i) at (omega arith) d);
        queued = omega (arith, v.queued, m uncounted, ap length e);
        worked = v.worked;
        marked = v.marked;
        once = v.once;
        four = v.four;
        known = λ x. omega (arith, v.known x, ap (total (λ intent. one_if x intent.request_id)) e);
        repeated = v.repeated;
        told = v.told;
        drained =
            λ h. absurd (not_done (offers i intent) (rejected i) at (omega arith) (v.drained h).1);
      }

  accepted-Is :
      (i : ℕ)
      → get_elem? s.producers pid ≡ some (accepted i)
      → IsSystem laws (record s {
        accepted_total = fetch_add s.accepted_total;
        producers = set s.producers pid (begins (i + 1));
      })
  accepted-Is i at =
      let m = moved (accepted i) (begins (i + 1)) at in
      let one_open = total_ge unsettled s.producers pid (accepted i) at in
      record {
        budget = omega (arith, v.budget, m remaining);
        settled = omega (arith, v.budget, v.settled, m unsettled, one_open);
        finished = λ d. absurd (not_done (accepted i) (begins (i + 1)) at (omega arith) d);
        queued = omega (arith, v.budget, v.settled, v.queued, m uncounted, one_open);
        worked = v.worked;
        marked = v.marked;
        once = v.once;
        four = v.four;
        known = v.known;
        repeated = v.repeated;
        told = v.told;
        drained = v.drained;
      }

  rejected-Is :
      (i : ℕ)
      → get_elem? s.producers pid ≡ some (rejected i)
      → IsSystem laws (record s {
        rejected_full = fetch_add s.rejected_full;
        producers = set s.producers pid (begins (i + 1));
      })
  rejected-Is i at =
      let m = moved (rejected i) (begins (i + 1)) at in
      let one_open = total_ge unsettled s.producers pid (rejected i) at in
      record {
        budget = omega (arith, v.budget, m remaining);
        settled = omega (arith, v.budget, v.settled, m unsettled, one_open);
        finished = λ d. absurd (not_done (rejected i) (begins (i + 1)) at (omega arith) d);
        queued = omega (arith, v.queued, m uncounted);
        worked = v.worked;
        marked = v.marked;
        once = v.once;
        four = v.four;
        known = v.known;
        repeated = v.repeated;
        told = v.told;
        drained = v.drained;
      }

  pub produce-Survives :
      (draw : Draw) (p : Producer)
      → get_elem? s.producers pid ≡ some p
      → Survives laws (produce ops pid draw p s)
  unfolding produce
  produce-Survives draw (begins i) at = elim (Bool-cases (ltb i per_producer)) [
    | inl t ↦ rw t (begins-Is i (make_intent pid i draw) at (ground arith))
    | inr f ↦ rw f tt
  ]
  produce-Survives draw (offers i intent) at =
      let law = laws.contents-try_enqueue intent s.queue in
      elim (Bool-cases (ops.try_enqueue intent s.queue).0) [
        | inl t ↦ rw t (offers-in (ops.try_enqueue intent s.queue).1 i intent at (law ∙ rw t refl))
        | inr f ↦
            rw f (offers-full (ops.try_enqueue intent s.queue).1 i intent at (law ∙ rw f refl))
      ]
  produce-Survives draw (accepted i) at = accepted-Is i at
  produce-Survives draw (rejected i) at = rejected-Is i at
