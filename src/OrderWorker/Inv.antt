-- ===== src/OrderWorker/Inv.antt =====
-- The invariant of the order worker: where each intent is counted.
use flashsale_system_imitati.Prelude.{
  ℕ, ◌+◌, ◌-◌, ◌≤◌, ◌<◌, ◌≡◌, true, List, [], ◌∷◌, length, arith,
}
use flashsale_system_imitati.OrderWorker.{
  Producer, begins, offers, accepted, rejected, Consumer, polls, looks, retries, holds, counted,
  writes, drops, ended, QueueOps, System, per_producer, all_done,
}
use flashsale_system_imitati.OrderWorker.Queue.{QueueLaws}
use flashsale_system_imitati.OrderWorker.Sums.{total, count, one_if}

-- The rounds that a producer has not counted in `produced_total`.
abbrev pub remaining : Producer → ℕ
remaining (begins i) = per_producer - i
remaining (offers i intent) = per_producer - (i + 1)
remaining (accepted i) = per_producer - (i + 1)
remaining (rejected i) = per_producer - (i + 1)

-- Is its intent neither counted as accepted nor as rejected?
abbrev pub unsettled : Producer → ℕ
unsettled (begins i) = 0
unsettled (offers i intent) = 1
unsettled (accepted i) = 1
unsettled (rejected i) = 1

-- Is its intent in the queue but not counted?
abbrev pub uncounted : Producer → ℕ
uncounted (begins i) = 0
uncounted (offers i intent) = 0
uncounted (accepted i) = 1
uncounted (rejected i) = 0

pub uncounted_le : (ps : List Producer) → total uncounted ps ≤ total unsettled ps
uncounted_le [] = omega arith
uncounted_le (begins i ∷ ps) = omega (arith, uncounted_le ps)
uncounted_le (offers i intent ∷ ps) = omega (arith, uncounted_le ps)
uncounted_le (accepted i ∷ ps) = omega (arith, uncounted_le ps)
uncounted_le (rejected i ∷ ps) = omega (arith, uncounted_le ps)

-- Has the worker an intent that it has not counted?
abbrev pub holding : Consumer → ℕ
holding (holds intent) = 1
holding polls = 0
holding looks = 0
holding retries = 0
holding (counted intent) = 0
holding (writes intent) = 0
holding (drops intent) = 0
holding ended = 0

-- Has it one that is counted, but neither written nor dropped?
abbrev pub busy : Consumer → ℕ
busy (counted intent) = 1
busy (writes intent) = 1
busy (drops intent) = 1
busy polls = 0
busy looks = 0
busy retries = 0
busy (holds intent) = 0
busy ended = 0

-- Is it about to write the id `x`?
abbrev pub writing : ℕ → Consumer → ℕ
writing x (writes intent) = one_if x intent.request_id
writing x polls = 0
writing x looks = 0
writing x retries = 0
writing x (holds intent) = 0
writing x (counted intent) = 0
writing x (drops intent) = 0
writing x ended = 0

-- Is it about to drop the id `x`?
abbrev pub dropping : ℕ → Consumer → ℕ
dropping x (drops intent) = one_if x intent.request_id
dropping x polls = 0
dropping x looks = 0
dropping x retries = 0
dropping x (holds intent) = 0
dropping x (counted intent) = 0
dropping x (writes intent) = 0
dropping x ended = 0

-- Has it the id `x`, not marked as seen by this worker?
abbrev pub having : ℕ → Consumer → ℕ
having x (holds intent) = one_if x intent.request_id
having x (counted intent) = one_if x intent.request_id
having x (drops intent) = one_if x intent.request_id
having x (writes intent) = 0
having x polls = 0
having x looks = 0
having x retries = 0
having x ended = 0

-- Has it seen `producers_done`?
abbrev pub ending : Consumer → ℕ
ending retries = 1
ending ended = 1
ending polls = 0
ending looks = 0
ending (holds intent) = 0
ending (counted intent) = 0
ending (writes intent) = 0
ending (drops intent) = 0

abbrev pub at_end : Consumer → ℕ
at_end ended = 1
at_end polls = 0
at_end looks = 0
at_end retries = 0
at_end (holds intent) = 0
at_end (counted intent) = 0
at_end (writes intent) = 0
at_end (drops intent) = 0

module _ {Q : Type 0} {ops : QueueOps Q} (laws : QueueLaws ops) where
  abbrev pub waiting : System Q → ℕ
  waiting s = length (laws.contents s.queue)

  -- How often the id `x` waits.
  abbrev pub waiting_id : ℕ → System Q → ℕ
  waiting_id x s = total (λ intent. one_if x intent.request_id) (laws.contents s.queue)

  pub record IsSystem (s : System Q) : Type 0 where
    pub budget : s.produced_total + total remaining s.producers ≡ 1_600_000
    pub settled :
        s.produced_total ≡ s.accepted_total + s.rejected_full + total unsettled s.producers
    pub finished : s.producers_done ≡ true → all_done s.producers ≡ true
    pub queued :
        s.accepted_total + total uncounted s.producers
        ≡ s.consumed_total + waiting s + total holding s.workers
    pub worked :
        s.consumed_total ≡ s.idempotent_dups + length s.journal.written + total busy s.workers
    pub marked : (x : ℕ) → count x s.idem ≡ count x s.journal.written + total (writing x) s.workers
    pub four : total (λ w. 1) s.workers ≡ 4
    pub once : (x : ℕ) → count x s.idem ≤ 1
    pub known :
        (x : ℕ)
        → count x s.journal.taken
          ≡ waiting_id x s + total (having x) s.workers + count x s.idem + count x s.journal.dropped
    pub repeated :
        (x : ℕ) → 0 < count x s.journal.dropped + total (dropping x) s.workers → count x s.idem ≡ 1
    pub told : 0 < total ending s.workers → s.producers_done ≡ true
    pub drained : 0 < total at_end s.workers → (waiting s ≡ 0) × (s.producers_done ≡ true)
