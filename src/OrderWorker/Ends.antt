-- ===== src/OrderWorker/Ends.antt =====
-- The threads of the order worker come to their end.
use flashsale_system_imitati.Prelude.{
  ℕ, zero, suc, ◌+◌, ◌*◌, ◌≤◌, ◌<◌, ◌≡◌, refl, ap, sym, ◌∙◌, subst, Bool, true, false, List, [],
  ◌∷◌, length, arith, ltb, inl, inr, Bool-cases, Option, Option-cases, some, none, get_elem?, set,
  if◌then◌else◌,
}
use flashsale_system_imitati.OrderWorker.{
  Producer, begins, offers, accepted, rejected, Consumer, polls, looks, retries, holds, counted,
  writes, drops, ended, QueueOps, System, Draw, per_producer, produce, consume, all_done, all_ended,
  Move, produces, consumes, joins, step, run, start, fetch_add, make_intent,
}
use flashsale_system_imitati.OrderWorker.Queue.{QueueLaws}
use flashsale_system_imitati.OrderWorker.Sums.{total}
use flashsale_system_imitati.OrderWorker.Inv.{remaining, unsettled}
use flashsale_system_imitati.OrderWorker.Workers.{Survives}
use flashsale_system_imitati.OrderWorker.Producers.{all_done-total}
use flashsale_system_imitati.OrderWorker.Results.{run-Survives, start-IsSystem}
use flashsale_system_imitati.OrderWorker.Rank.{
  producer_rank, worker_rank, rank, Lowers, consume-Lowers, produce-Lowers,
}

worker_rank_le : (ws : List Consumer) → total worker_rank ws ≤ 6 * total (λ w. 1) ws
worker_rank_le [] = omega arith
worker_rank_le (polls ∷ ws) = omega (arith, worker_rank_le ws)
worker_rank_le (looks ∷ ws) = omega (arith, worker_rank_le ws)
worker_rank_le (retries ∷ ws) = omega (arith, worker_rank_le ws)
worker_rank_le (holds intent ∷ ws) = omega (arith, worker_rank_le ws)
worker_rank_le (counted intent ∷ ws) = omega (arith, worker_rank_le ws)
worker_rank_le (writes intent ∷ ws) = omega (arith, worker_rank_le ws)
worker_rank_le (drops intent ∷ ws) = omega (arith, worker_rank_le ws)
worker_rank_le (ended ∷ ws) = omega (arith, worker_rank_le ws)

producer_rank_le :
    (ps : List Producer)
    → total producer_rank ps ≤ 11 * total remaining ps + 10 * total unsettled ps
producer_rank_le [] = omega arith
producer_rank_le (begins i ∷ ps) = omega (arith, producer_rank_le ps)
producer_rank_le (offers i intent ∷ ps) = omega (arith, producer_rank_le ps)
producer_rank_le (accepted i ∷ ps) = omega (arith, producer_rank_le ps)
producer_rank_le (rejected i ∷ ps) = omega (arith, producer_rank_le ps)

-- A worker that has not ended, if there is one.
abbrev Open : Consumer → Type 0
Open ended = ⊥
Open polls = Unit
Open looks = Unit
Open retries = Unit
Open (holds intent) = Unit
Open (counted intent) = Unit
Open (writes intent) = Unit
Open (drops intent) = Unit

abbrev OpenWorker : List Consumer → Type 0
OpenWorker ws = (wid : ℕ) × (w : Consumer) × (get_elem? ws wid ≡ some w) × Open w

later_worker : (w : Consumer) (ws : List Consumer) → OpenWorker ws → OpenWorker (w ∷ ws)
later_worker w ws (wid, w', at, o) = (suc wid, w', at, o)

find_worker : (ws : List Consumer) → all_ended ws ≡ false → OpenWorker ws
unfolding all_ended
find_worker [] h = absurd (ground arith)
find_worker (ended ∷ ws) h = later_worker ended ws (find_worker ws h)
find_worker (polls ∷ ws) h = (0, polls, refl, tt)
find_worker (looks ∷ ws) h = (0, looks, refl, tt)
find_worker (retries ∷ ws) h = (0, retries, refl, tt)
find_worker (holds intent ∷ ws) h = (0, holds intent, refl, tt)
find_worker (counted intent ∷ ws) h = (0, counted intent, refl, tt)
find_worker (writes intent ∷ ws) h = (0, writes intent, refl, tt)
find_worker (drops intent ∷ ws) h = (0, drops intent, refl, tt)

-- A producer that is not done, if there is one.
abbrev Busy : Producer → Type 0
Busy (begins i) = i < per_producer
Busy (offers i intent) = Unit
Busy (accepted i) = Unit
Busy (rejected i) = Unit

abbrev BusyProducer : List Producer → Type 0
BusyProducer ps = (pid : ℕ) × (p : Producer) × (get_elem? ps pid ≡ some p) × Busy p

later_producer : (p : Producer) (ps : List Producer) → BusyProducer ps → BusyProducer (p ∷ ps)
later_producer p ps (pid, p', at, b) = (suc pid, p', at, b)

find_producer : (ps : List Producer) → all_done ps ≡ false → BusyProducer ps
unfolding all_done
find_producer [] h = absurd (ground arith)
find_producer (begins i ∷ ps) h = elim (Bool-cases (ltb i per_producer)) [
  | inl t ↦ (0, begins i, refl, ground arith)
  | inr f ↦ later_producer (begins i) ps (find_producer ps (ground arith))
]
find_producer (offers i intent ∷ ps) h = (0, offers i intent, refl, tt)
find_producer (accepted i ∷ ps) h = (0, accepted i, refl, tt)
find_producer (rejected i ∷ ps) h = (0, rejected i, refl, tt)

module _ {Q : Type 0} (ops : QueueOps Q) (laws : QueueLaws ops) where
  step-Lowers :
      (move : Move) (s : System Q)
      → s.producers_done ≡ true
      → Lowers ops laws (rank ops laws s) s.producers_done (step ops move s)
  unfolding step
  step-Lowers (produces pid draw) s d = elim (Option-cases (get_elem? s.producers pid)) [
    | inl e ↦ rw (e, Lowers) tt
    | inr (p, e) ↦ rw (e, Lowers) (produce-Lowers ops laws s pid draw p e)
  ]
  step-Lowers (consumes wid) s d = elim (Option-cases (get_elem? s.workers wid)) [
    | inl e ↦ rw (e, Lowers) tt
    | inr (w, e) ↦ rw (e, Lowers) (consume-Lowers ops laws s wid w e d)
  ]
  step-Lowers joins s d =
      subst (λ b. Lowers ops laws (rank ops laws s) s.producers_done (if b then none else rest))
        (sym d) tt
    where
      rest : Option (System Q)
      rest = if all_done s.producers then some (record s { producers_done = true }) else none

  -- A run of `m` moves takes a rank of `n` down by at least `m`.
  abbrev Within : ℕ → ℕ → Option (System Q) → Type 0
  Within m n none = Unit
  Within m n (some s) = m + rank ops laws s ≤ n

  Within-suc : (m n n' : ℕ) (o : Option (System Q)) → Within m n o → n < n' → Within (suc m) n' o
  Within-suc m n n' none h lt = tt
  Within-suc m n n' (some s) h lt = omega (arith, h, lt)

  run-Within :
      (moves : List Move) (s : System Q)
      → s.producers_done ≡ true
      → Within (length moves) (rank ops laws s) (run ops moves s)
  unfolding run
  run-Within [] s d = omega arith
  run-Within (move ∷ moves) s d = elim (Option-cases (step ops move s)) [
    | inl e ↦ rw (e, Within) tt
    | inr (s', e) ↦
        let low : Lowers ops laws (rank ops laws s) s.producers_done (some s') =
          subst (Lowers ops laws (rank ops laws s) s.producers_done) e (step-Lowers move s d) in
        rw (e, Within)
          (Within-suc (length moves) (rank ops laws s') (rank ops laws s) (run ops moves s')
            (run-Within moves s' (low.1 ∙ d)) low.0)
  ]

  -- The next move of a system that has not come to its end.
  abbrev Advance : System Q → Type 0
  Advance s =
      (move : Move) × (s' : System Q) × (step ops move s ≡ some s')
      × (rank ops laws s' < rank ops laws s)

  draw : Draw
  draw = record { repeats = false; sku_pick = 1; now = 0 }

  -- A move that can be made and lowers the rank.
  lowering_move :
      (move : Move) (s : System Q) (done : Bool)
      → ((s' : System Q) × (step ops move s ≡ some s'))
      → Lowers ops laws (rank ops laws s) done (step ops move s)
      → Advance s
  lowering_move move s done (s', e) low =
      let low' : Lowers ops laws (rank ops laws s) done (some s') =
        subst (Lowers ops laws (rank ops laws s) done) e low in
      (move, s', e, low'.0)

  produce-some :
      (s : System Q) (pid : ℕ) (p : Producer)
      → Busy p
      → (s' : System Q) × (produce ops pid draw p s ≡ some s')
  unfolding produce
  produce-some s pid (begins i) b = (
    record s {
      produced_total = fetch_add s.produced_total;
      producers = set s.producers pid (offers i (make_intent pid i draw));
    },
    rw (below b) refl,
  )
    where
      below : i < per_producer → ltb i per_producer ≡ true
      below h = ground arith
  produce-some s pid (offers i intent) b = (_, refl)
  produce-some s pid (accepted i) b = (_, refl)
  produce-some s pid (rejected i) b = (_, refl)

  consume-some :
      (s : System Q) (wid : ℕ) (w : Consumer)
      → Open w
      → (s' : System Q) × (consume ops wid w s ≡ some s')
  unfolding consume
  consume-some s wid polls o = (_, refl)
  consume-some s wid looks o = (_, refl)
  consume-some s wid retries o = (_, refl)
  consume-some s wid (holds intent) o = (_, refl)
  consume-some s wid (counted intent) o = (_, refl)
  consume-some s wid (writes intent) o = (_, refl)
  consume-some s wid (drops intent) o = (_, refl)
  consume-some s wid ended o = absurd o

  advance : (s : System Q) → all_ended s.workers ≡ false → Advance s
  unfolding step
  advance s h = elim (Bool-cases s.producers_done) [
    | inl t ↦
        let (wid, w, at, o) = find_worker s.workers h in
        let (s', e) = consume-some s wid w o in
        lowering_move (consumes wid) s s.producers_done (s', rw (at, step) e)
          (step-Lowers (consumes wid) s t)
    | inr f ↦ elim (Bool-cases (all_done s.producers)) [
      | inl t ↦
          let flag : ◌≡◌ {A = ℕ} (if s.producers_done then 0 else 1) 1 =
            ap (λ b. if b then 0 else 1) f in
          (joins, record s { producers_done = true }, simp (f, t, step), omega (arith, flag))
      | inr f' ↦
          let (pid, p, at, b) = find_producer s.producers f' in
          let (s', e) = produce-some s pid p b in
          lowering_move (produces pid draw) s s.producers_done (s', rw (at, step) e)
            (rw (at, step, Lowers) (produce-Lowers ops laws s pid draw p at))
    ]
  ]

  -- Enough moves to come to the end, for a rank below `fuel`.
  completes :
      (fuel : ℕ) (s : System Q)
      → rank ops laws s < fuel
      → (moves : List Move) × (s' : System Q) × (run ops moves s ≡ some s')
        × (all_ended s'.workers ≡ true)
  unfolding run
  completes zero s h = absurd (omega arith)
  completes (suc fuel) s h = elim (Bool-cases (all_ended s.workers)) [
    | inl t ↦ ([], s, refl, t)
    | inr f ↦
        let (move, s1, e, low) = advance s f in
        let (moves, s', e', all) = completes fuel s1 (omega (arith, low)) in
        (move ∷ moves, s', rw (e, run) e', all)
  ]

-- From any state of the counters and threads, the start among them, the threads can go on until every
-- worker has left its loop: there is no deadlock.
pub run-all_ended :
    {Q : Type 0} (ops : QueueOps Q) (laws : QueueLaws ops) (s : System Q)
    → (moves : List Move) × (s' : System Q) × (run ops moves s ≡ some s')
      × (all_ended s'.workers ≡ true)
run-all_ended ops laws s = completes ops laws (rank ops laws s + 1) s (omega arith)

-- Once the producers are done, after a run from the start on an empty queue, the threads stop by
-- themselves: whatever the order of their moves, there are at most 7 for each intent that waits and 24
-- more, so that no worker loops for ever; and while a worker has not left its loop, some thread can move.
pub run-ends :
    {Q : Type 0} (ops : QueueOps Q) (laws : QueueLaws ops) (q : Q) (moves : List Move)
    (s : System Q)
    → laws.contents q ≡ []
    → run ops moves (start q) ≡ some s
    → s.producers_done ≡ true
    → ((more : List Move) (s' : System Q)
        → run ops more s ≡ some s'
        → length more ≤ 7 * length (laws.contents s.queue) + 24)
      × (all_ended s.workers ≡ false
          → (move : Move) × (s' : System Q) × (step ops move s ≡ some s'))
run-ends ops laws q moves s e h d =
    let v : Survives laws (some s) =
      subst (Survives laws) h
        (run-Survives ops laws moves (start q) (start-IsSystem ops laws q e)) in
    let (u, n, r) = all_done-total s.producers (v.finished d) in
    let flag : ◌≡◌ {A = ℕ} (if s.producers_done then 0 else 1) 0 = ap (λ b. if b then 0 else 1) d in
    (
      λ more s' h'.
          let within : Within ops laws (length more) (rank ops laws s) (some s') =
            subst (Within ops laws (length more) (rank ops laws s)) h'
              (run-Within ops laws more s d) in
          omega (
            arith,
            within,
            u,
            r,
            flag,
            v.four,
            worker_rank_le s.workers,
            producer_rank_le s.producers,
          ),
      λ running. let (move, s', e', low) = advance ops laws s running in (move, s', e'),
    )
