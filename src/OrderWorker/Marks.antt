-- ===== src/OrderWorker/Marks.antt =====
-- What a worker does with an intent keeps the invariant.
use flashsale_system_imitati.Prelude.{
  ℕ, ◌+◌, ◌≤◌, ◌<◌, ◌≡◌, ◌==◌, subst, true, false, ◌∷◌, arith, inl, inr, Bool-cases, some,
  get_elem?, set,
}
use flashsale_system_imitati.Prelude.Dict.{contains}
use flashsale_system_imitati.OrderWorker.{
  OrderIntent, polls, holds, counted, writes, drops, QueueOps, System, fetch_add,
}
use flashsale_system_imitati.OrderWorker.Queue.{QueueLaws}
use flashsale_system_imitati.OrderWorker.Sums.{total, total_ge, count, one_if, contains-count}
use flashsale_system_imitati.OrderWorker.Inv.{
  holding, busy, writing, dropping, having, ending, at_end, IsSystem, uncounted_le,
}
use flashsale_system_imitati.OrderWorker.Polls.{moved}

module _ {Q : Type 0} {ops : QueueOps Q} (laws : QueueLaws ops) (s : System Q) (v : IsSystem laws s)
    (wid : ℕ) where
  -- Nothing wraps.
  consumed_fits : s.consumed_total + total holding s.workers ≤ 1_600_000
  consumed_fits = omega (arith, v.budget, v.settled, v.queued, uncounted_le s.producers)

  pub counted-new :
      (intent : OrderIntent)
      → get_elem? s.workers wid ≡ some (counted intent)
      → contains intent.request_id s.idem ≡ false
      → IsSystem laws (record s {
        idem = intent.request_id ∷ s.idem;
        workers = set s.workers wid (writes intent);
      })
  counted-new intent at new =
      let m = moved laws s v wid (counted intent) (writes intent) at in
      let none_in = (contains-count intent.request_id s.idem).1 new in
      record {
        budget = v.budget;
        settled = v.settled;
        finished = v.finished;
        queued = omega (arith, v.queued, m holding);
        worked = omega (arith, v.worked, m busy);
        marked = λ x. omega (arith, v.marked x, m (writing x));
        once = λ x. once_more x none_in;
        four = omega (arith, v.four, m (λ w. 1));
        known = λ x. omega (arith, v.known x, m (having x));
        repeated = λ x h. still x none_in (v.repeated x (omega (arith, m (dropping x))));
        told = λ h. v.told (omega (arith, m ending));
        drained = λ h. v.drained (omega (arith, m at_end));
      }
    where
      once_more :
          (x : ℕ) → count intent.request_id s.idem ≡ 0 → count x (intent.request_id ∷ s.idem) ≤ 1
      once_more x h = elim (Bool-cases (intent.request_id == x)) [
        | inl t ↦
            let same : intent.request_id ≡ x = ground arith in
            rw t (omega (arith, subst (λ y. count y s.idem ≡ 0) same h))
        | inr f ↦ rw f (omega (arith, v.once x))
      ]

      still :
          (x : ℕ)
          → count intent.request_id s.idem ≡ 0
          → count x s.idem ≡ 1
          → count x (intent.request_id ∷ s.idem) ≡ 1
      still x h one = elim (Bool-cases (intent.request_id == x)) [
        | inl t ↦
            let same : intent.request_id ≡ x = ground arith in
            absurd (omega (arith, subst (λ y. count y s.idem ≡ 0) same h, one))
        | inr f ↦ rw f (omega (arith, one))
      ]

  pub counted-seen :
      (intent : OrderIntent)
      → get_elem? s.workers wid ≡ some (counted intent)
      → contains intent.request_id s.idem ≡ true
      → IsSystem laws (record s { workers = set s.workers wid (drops intent) })
  counted-seen intent at seen =
      let m = moved laws s v wid (counted intent) (drops intent) at in
      let some_in = (contains-count intent.request_id s.idem).0 seen in
      record {
        budget = v.budget;
        settled = v.settled;
        finished = v.finished;
        queued = omega (arith, v.queued, m holding);
        worked = omega (arith, v.worked, m busy);
        marked = λ x. omega (arith, v.marked x, m (writing x));
        once = v.once;
        four = omega (arith, v.four, m (λ w. 1));
        known = λ x. omega (arith, v.known x, m (having x));
        repeated = λ x h. elim (Bool-cases (intent.request_id == x)) [
          | inl t ↦
              let same : intent.request_id ≡ x = ground arith in
              omega (arith, v.once x, subst (λ y. 0 < count y s.idem) same some_in)
          | inr f ↦ v.repeated x (subst (λ n. 0 < n) (other x f (m (dropping x))) h)
        ];
        told = λ h. v.told (omega (arith, m ending));
        drained = λ h. v.drained (omega (arith, m at_end));
      }
    where
      other :
          (x : ℕ)
          → (intent.request_id == x) ≡ false
          → total (dropping x) (set s.workers wid (drops intent)) + 0
            ≡ total (dropping x) s.workers + one_if x intent.request_id
          → count x s.journal.dropped + total (dropping x) (set s.workers wid (drops intent))
            ≡ count x s.journal.dropped + total (dropping x) s.workers
      other x f e = ground (arith, e)

  pub holds-Is :
      (intent : OrderIntent)
      → get_elem? s.workers wid ≡ some (holds intent)
      → IsSystem laws (record s {
        consumed_total = fetch_add s.consumed_total;
        workers = set s.workers wid (counted intent);
      })
  holds-Is intent at =
      let m = moved laws s v wid (holds intent) (counted intent) at in
      record {
        budget = v.budget;
        settled = v.settled;
        finished = v.finished;
        queued = omega (
          arith,
          v.queued,
          m holding,
          consumed_fits,
          total_ge holding s.workers wid (holds intent) at,
        );
        worked = omega (
          arith,
          v.worked,
          m busy,
          consumed_fits,
          total_ge holding s.workers wid (holds intent) at,
        );
        marked = λ x. omega (arith, v.marked x, m (writing x));
        once = v.once;
        four = omega (arith, v.four, m (λ w. 1));
        known = λ x. omega (arith, v.known x, m (having x));
        repeated = λ x h. v.repeated x (omega (arith, m (dropping x)));
        told = λ h. v.told (omega (arith, m ending));
        drained = λ h. v.drained (omega (arith, m at_end));
      }

  pub writes-Is :
      (intent : OrderIntent)
      → get_elem? s.workers wid ≡ some (writes intent)
      → IsSystem laws (record s {
        workers = set s.workers wid polls;
        journal = record s.journal { written = intent.request_id ∷ s.journal.written };
      })
  writes-Is intent at =
      let m = moved laws s v wid (writes intent) polls at in
      record {
        budget = v.budget;
        settled = v.settled;
        finished = v.finished;
        queued = omega (arith, v.queued, m holding);
        worked = omega (arith, v.worked, m busy);
        marked = λ x. omega (arith, v.marked x, m (writing x));
        once = v.once;
        four = omega (arith, v.four, m (λ w. 1));
        known = λ x. omega (arith, v.known x, m (having x));
        repeated = λ x h. v.repeated x (omega (arith, m (dropping x)));
        told = λ h. v.told (omega (arith, m ending));
        drained = λ h. v.drained (omega (arith, m at_end));
      }

  pub drops-Is :
      (intent : OrderIntent)
      → get_elem? s.workers wid ≡ some (drops intent)
      → IsSystem laws (record s {
        idempotent_dups = fetch_add s.idempotent_dups;
        workers = set s.workers wid polls;
        journal = record s.journal { dropped = intent.request_id ∷ s.journal.dropped };
      })
  drops-Is intent at =
      let m = moved laws s v wid (drops intent) polls at in
      record {
        budget = v.budget;
        settled = v.settled;
        finished = v.finished;
        queued = omega (arith, v.queued, m holding);
        worked = omega (arith, v.worked, m busy, consumed_fits);
        marked = λ x. omega (arith, v.marked x, m (writing x));
        once = v.once;
        four = omega (arith, v.four, m (λ w. 1));
        known = λ x. omega (arith, v.known x, m (having x));
        repeated = λ x h. v.repeated x (omega (arith, m (dropping x)));
        told = λ h. v.told (omega (arith, m ending));
        drained = λ h. v.drained (omega (arith, m at_end));
      }
