-- ===== src/OrderWorker/Rank.antt =====
-- What each thread of the order worker has still to do, as a number.
use flashsale_system_imitati.Prelude.{
  ℕ, ◌+◌, ◌-◌, ◌*◌, ◌<◌, ◌≡◌, refl, ap, ◌∙◌, Bool, true, false, [], ◌∷◌, ◌++◌, length, arith, ltb,
  inl, inr, Bool-cases, Option, some, none, get_elem?, set, if◌then◌else◌, length-append,
}
use flashsale_system_imitati.Fifo
use flashsale_system_imitati.OrderWorker.{
  Producer, begins, offers, accepted, rejected, Consumer, polls, looks, retries, holds, counted,
  writes, drops, ended, QueueOps, System, Draw, make_intent, per_producer, produce, consume,
  dequeue, try_mark,
}
use flashsale_system_imitati.OrderWorker.Queue.{QueueLaws}
use flashsale_system_imitati.OrderWorker.Sums.{total, total-set}
use flashsale_system_imitati.OrderWorker.Inv.{waiting}

abbrev pub producer_rank : Producer → ℕ
producer_rank (begins i) = 11 * (per_producer - i)
producer_rank (offers i intent) = 11 * (per_producer - (i + 1)) + 10
producer_rank (accepted i) = 11 * (per_producer - (i + 1)) + 1
producer_rank (rejected i) = 11 * (per_producer - (i + 1)) + 1

abbrev pub worker_rank : Consumer → ℕ
worker_rank polls = 3
worker_rank looks = 2
worker_rank retries = 1
worker_rank (holds intent) = 6
worker_rank (counted intent) = 5
worker_rank (writes intent) = 4
worker_rank (drops intent) = 4
worker_rank ended = 0

module _ {Q : Type 0} (ops : QueueOps Q) (laws : QueueLaws ops) where
  abbrev pub rank : System Q → ℕ
  rank s =
      7 * waiting laws s
      + total producer_rank s.producers
      + total worker_rank s.workers
      + (if s.producers_done then 0 else 1)

  -- A move that can be made lowers the rank, from below `n`, and leaves `producers_done`.
  abbrev pub Lowers : ℕ → Bool → Option (System Q) → Type 0
  Lowers n done none = Unit
  Lowers n done (some s) = (rank s < n) × (s.producers_done ≡ done)

  module _ (s : System Q) (wid : ℕ) where
    moved :
        (w w' : Consumer)
        → get_elem? s.workers wid ≡ some w
        → total worker_rank (set s.workers wid w') + worker_rank w
          ≡ total worker_rank s.workers + worker_rank w'
    moved w w' at = total-set worker_rank s.workers wid w w' at

    dequeue-Lowers :
        (w w' : Consumer)
        → get_elem? s.workers wid ≡ some w
        → worker_rank w' < worker_rank w
        → Lowers (rank s) s.producers_done (some (dequeue ops wid w' s))
    unfolding dequeue
    dequeue-Lowers w w' at h = elim (Fifo.pop_cases (laws.contents s.queue)) [
      | inl (e, p) ↦
          let law = laws.try_dequeue-pop s.queue ∙ p in
          rw (ap (λ o. o.0) law, dequeue)
            (omega (arith, moved w w' at, ap length e, ap (λ o. length o.1) law, h), refl)
      | inr (intent, rest, e, p) ↦
          let law = laws.try_dequeue-pop s.queue ∙ p in
          rw (ap (λ o. o.0) law, dequeue)
            (
              omega (arith, moved w (holds intent) at, ap length e, ap (λ o. length o.1) law, h),
              refl,
            )
    ]

    pub consume-Lowers :
        (w : Consumer)
        → get_elem? s.workers wid ≡ some w
        → s.producers_done ≡ true
        → Lowers (rank s) s.producers_done (consume ops wid w s)
    unfolding consume
    consume-Lowers polls at d = dequeue-Lowers polls looks at (omega arith)
    consume-Lowers retries at d = dequeue-Lowers retries ended at (omega arith)
    consume-Lowers looks at d = (
      omega (
        arith,
        moved looks (if s.producers_done then retries else polls) at,
        ap (λ b. worker_rank (if b then retries else polls)) d,
      ),
      refl,
    )
    consume-Lowers (holds intent) at d =
        (omega (arith, moved (holds intent) (counted intent) at), refl)
    consume-Lowers (counted intent) at d =
        let b = (try_mark intent.request_id s.idem).0 in
        (
          omega (
            arith,
            moved (counted intent) (if b then writes intent else drops intent) at,
            marked b,
          ),
          refl,
        )
      where
        marked : (b : Bool) → worker_rank (if b then writes intent else drops intent) ≡ 4
        marked true = refl
        marked false = refl
    consume-Lowers (writes intent) at d = (omega (arith, moved (writes intent) polls at), refl)
    consume-Lowers (drops intent) at d = (omega (arith, moved (drops intent) polls at), refl)
    consume-Lowers ended at d = tt

  module _ (s : System Q) (pid : ℕ) (draw : Draw) where
    changed :
        (p p' : Producer)
        → get_elem? s.producers pid ≡ some p
        → total producer_rank (set s.producers pid p') + producer_rank p
          ≡ total producer_rank s.producers + producer_rank p'
    changed p p' at = total-set producer_rank s.producers pid p p' at

    pub produce-Lowers :
        (p : Producer)
        → get_elem? s.producers pid ≡ some p
        → Lowers (rank s) s.producers_done (produce ops pid draw p s)
    unfolding produce
    produce-Lowers (begins i) at = elim (Bool-cases (ltb i per_producer)) [
      | inl t ↦
          rw t (ground (arith, changed (begins i) (offers i (make_intent pid i draw)) at), refl)
      | inr f ↦ rw f tt
    ]
    produce-Lowers (offers i intent) at =
        let law = laws.contents-try_enqueue intent s.queue in
        let q = (ops.try_enqueue intent s.queue).1 in
        elim (Bool-cases (ops.try_enqueue intent s.queue).0) [
          | inl t ↦
              let grown : laws.contents q ≡ laws.contents s.queue ++ (intent ∷ []) =
                law ∙ rw t refl in
              rw t (
                omega (
                  arith,
                  changed (offers i intent) (accepted i) at,
                  ap length grown,
                  length-append (laws.contents s.queue) (intent ∷ []),
                ),
                refl,
              )
          | inr f ↦
              let same : laws.contents q ≡ laws.contents s.queue = law ∙ rw f refl in
              rw f (omega (arith, changed (offers i intent) (rejected i) at, ap length same), refl)
        ]
    produce-Lowers (accepted i) at = (omega (arith, changed (accepted i) (begins (i + 1)) at), refl)
    produce-Lowers (rejected i) at = (omega (arith, changed (rejected i) (begins (i + 1)) at), refl)
