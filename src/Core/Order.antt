-- ===== src/Core/Order.antt =====
-- Each worker gets the requests of its SKUs, and every barrier, once and in the order of acceptance.
use flashsale_system_imitati.Prelude.{
  ℕ, ◌+◌, ◌^◌, ◌≤◌, ◌<◌, ◌≡◌, refl, sym, ap, subst, ◌∙◌, ◌++◌, Bool, true, false, List, [], ◌∷◌,
  length, ◌==◌, arith, append-nil, append_assoc, inl, inr, Bool-cases, ltb, some,
}
use flashsale_system_imitati.Prelude.Lists.{append_assoc_4, append_middle}
use flashsale_system_imitati.Fifo
use flashsale_system_imitati.Messages.{WorkerRequest, worker_request_default}
use flashsale_system_imitati.Mpmc
use flashsale_system_imitati.Mpmc.{MpmcQueue}
use flashsale_system_imitati.Mpmc.Inv.{HasRoom, Succeeds}
use flashsale_system_imitati.Mpmc.Enqueue.{try_enqueue_refines}
use flashsale_system_imitati.Core.{
  CSeckillRequest, Request, request_default, to_request, worker_count, Engine,
}
use flashsale_system_imitati.Core.Api.{enqueue_request, sold_out}
use flashsale_system_imitati.Core.Moves.{
  fetch_worker, Move, enqueues, dispatches, fetches, Trace, silent, step, run, join,
}
use flashsale_system_imitati.Core.Pending.{
  for_worker, for_worker-append, queued, held_for, pending, IsEngine,
}
use flashsale_system_imitati.Core.Dispatching.{dispatcher_move-Goes}
use flashsale_system_imitati.Core.Fetch.{taken_by, taken_by-append, fetch_worker-eq}

-- What a move from `e` to `e'` with the trace `tr` keeps.
record Kept (k : ℕ) (e e' : Engine) (tr : Trace) : Type 0 where
  in_order :
      (i : ℕ)
      → i < worker_count
      → pending k i e ++ for_worker i tr.accepted ≡ taken_by i tr.taken ++ pending k i e'
  valid : IsEngine k e'
  moved : e'.queue.dequeue_pos ≤ e.queue.dequeue_pos + 1
  same_running : e'.running ≡ e.running

module _ (k : ℕ) (e : Engine) (v : IsEngine k e) where
  abbrev Steps : Move → Type 0
  Steps move = (e' : Engine) × (tr : Trace) × (step move e ≡ some (e', tr)) × Kept k e e' tr

  dispatches-Kept :
      (rounds : List Bool)
      → e.running ≡ true
      → HasRoom k e.queue 1
      → Succeeds rounds
      → Steps (dispatches rounds)
  unfolding step
  dispatches-Kept rounds on r s =
      let (e', eq, keeps, d, same) = dispatcher_move-Goes k e v rounds on r s in
      (
        e',
        silent,
        rw (eq, step) refl,
        record {
          in_order = λ i h. append-nil _ ∙ sym (keeps.in_order i h);
          valid = keeps.valid;
          moved = d;
          same_running = same;
        },
      )

  fetches-Kept : (j : ℕ) → Steps (fetches j)
  unfolding step
  fetches-Kept j =
      let (own, others, v', n) = fetch_worker-eq j e.workers v.workers_valid in
      (
        record e { workers = (fetch_worker j e.workers).1 },
        record silent { taken = (j, (fetch_worker j e.workers).0) ∷ [] },
        refl,
        record {
          in_order = λ i h. append-nil _ ∙ elim (Bool-cases (j == i)) [
            | inl t ↦
                let at : j ≡ i = ground arith in
                rw t (
                  sym (
                    ap (λ xs. xs ++ (queued i (fetch_worker j e.workers).1 ++ later i))
                      (append-nil (fetch_worker j e.workers).0)
                    ∙ sym (
                        append_assoc (fetch_worker j e.workers).0
                          (queued i (fetch_worker j e.workers).1) (later i))
                    ∙ ap (λ q. q ++ later i)
                        (subst
                          (λ x.
                            (fetch_worker j e.workers).0 ++ queued x (fetch_worker j e.workers).1
                            ≡ queued x e.workers)
                          at own)))
            | inr f ↦ rw f (ap (λ q. q ++ later i) (sym (others i f)))
          ];
          valid = record {
            queue_valid = v.queue_valid;
            workers_valid = v';
            four = n ∙ v.four;
            targets_valid = v.targets_valid;
          };
          moved = omega arith;
          same_running = refl;
        },
      )
    where
      later : ℕ → List WorkerRequest
      later i =
          held_for i e.dispatcher.held e.dispatcher.targets
          ++ (for_worker i e.dispatcher.batch ++ for_worker i (Mpmc.Inv.contents k e.queue))

  enqueues-Kept :
      (rounds : List Bool) (creq : CSeckillRequest)
      → e.running ≡ true
      → HasRoom k e.queue 0
      → Succeeds rounds
      → Steps (enqueues rounds creq)
  unfolding step enqueue_request Fifo.push
  enqueues-Kept rounds creq on r s =
      let (q', eq, c, d, v') =
        try_enqueue_refines k e.queue v.queue_valid rounds (to_request creq) r s in
      elim (Bool-cases (sold_out creq.sku_id e)) [
        | inl gone ↦ (e, silent, simp (on, gone, step, enqueue_request), same e v)
        | inr some_left ↦ elim (Bool-cases (ltb (length (Mpmc.Inv.contents k e.queue)) (2 ^ k))) [
          | inl t ↦ (
            record e { queue = q' },
            record silent { accepted = to_request creq ∷ [] },
            simp (on, some_left, eq, t, step, enqueue_request),
            record {
              in_order = λ i h.
                  longer i (for_worker i (to_request creq ∷ []))
                  ∙ ap (before i) (sym (grown q' i (c ∙ rw t refl)));
              valid = record {
                queue_valid = v';
                workers_valid = v.workers_valid;
                four = v.four;
                targets_valid = v.targets_valid;
              };
              moved = omega arith;
              same_running = refl;
            },
          )
          | inr f ↦ (
            record e { queue = q' },
            silent,
            simp (on, some_left, eq, f, step, enqueue_request),
            record {
              in_order =
                  λ i h. append-nil _ ∙ ap (λ xs. before i (for_worker i xs)) (sym (unchanged f c));
              valid = record {
                queue_valid = v';
                workers_valid = v.workers_valid;
                four = v.four;
                targets_valid = v.targets_valid;
              };
              moved = omega arith;
              same_running = refl;
            },
          )
        ]
      ]
    where
      before : ℕ → List WorkerRequest → List WorkerRequest
      before i xs =
          queued i e.workers
          ++ (held_for i e.dispatcher.held e.dispatcher.targets
              ++ (for_worker i e.dispatcher.batch ++ xs))

      same : (e : Engine) → IsEngine k e → Kept k e e silent
      same e v = record {
        in_order = λ i h. append-nil _;
        valid = v;
        moved = omega arith;
        same_running = refl;
      }

      unchanged :
          {xs : List Request}
          → ltb (length (Mpmc.Inv.contents k e.queue)) (2 ^ k) ≡ false
          → xs ≡ (Fifo.push (2 ^ k) (Mpmc.Inv.contents k e.queue) (to_request creq)).1
          → xs ≡ Mpmc.Inv.contents k e.queue
      unchanged f h = h ∙ rw f refl

      grown :
          (q : MpmcQueue Request) (i : ℕ)
          → Mpmc.Inv.contents k q ≡ Mpmc.Inv.contents k e.queue ++ (to_request creq ∷ [])
          → for_worker i (Mpmc.Inv.contents k q)
            ≡ for_worker i (Mpmc.Inv.contents k e.queue) ++ for_worker i (to_request creq ∷ [])
      grown q i h =
          ap (for_worker i) h
          ∙ for_worker-append i (Mpmc.Inv.contents k e.queue) (to_request creq ∷ [])

      longer :
          (i : ℕ) (new : List WorkerRequest)
          → pending k i e ++ new ≡ before i (for_worker i (Mpmc.Inv.contents k e.queue) ++ new)
      longer i new =
          append_assoc_4 (queued i e.workers) (held_for i e.dispatcher.held e.dispatcher.targets)
            (for_worker i e.dispatcher.batch) (for_worker i (Mpmc.Inv.contents k e.queue)) new

-- A move whose calls on the queue end: in some round of their loops a compare-exchange would succeed.
abbrev pub Runs : Move → Type 0
Runs (enqueues rounds creq) = Succeeds rounds
Runs (dispatches rounds) = Succeeds rounds
Runs (fetches j) = Unit

abbrev pub AllRun : List Move → Type 0
AllRun [] = Unit
AllRun (move ∷ moves) = Runs move × AllRun moves

step-Kept :
    (k : ℕ) (move : Move) (e : Engine) (v : IsEngine k e)
    → e.running ≡ true
    → HasRoom k e.queue 1
    → Runs move
    → Steps k e v move
step-Kept k (enqueues rounds creq) e v on r s = enqueues-Kept k e v rounds creq on (omega arith) s
step-Kept k (dispatches rounds) e v on r s = dispatches-Kept k e v rounds on r s
step-Kept k (fetches j) e v on r s = fetches-Kept k e v j

run-join :
    (move : Move) (moves : List Move) (e e' e'' : Engine) (tr trs : Trace)
    → step move e ≡ some (e', tr)
    → run moves e' ≡ some (e'', trs)
    → run (move ∷ moves) e ≡ some (e'', join tr trs)
unfolding run
run-join move moves e e' e'' tr trs h hs = rw (h, run) (rw hs refl)

-- On a valid engine that runs, any sequence of calls of `EnqueueRequest`, moves of the dispatcher and
-- batches that workers take goes through, if the calls on the queue end and its positions stay below the
-- sign bit of `intptr_t`. For each of the four workers, the requests of its SKUs and the barriers that
-- were on their way, followed by those accepted, are those that it has taken, followed by those that are
-- still on their way: none is lost, repeated, overtaken or given to another worker.
pub run-in_order_each :
    (k : ℕ) (moves : List Move) (e : Engine)
    → IsEngine k e
    → e.running ≡ true
    → HasRoom k e.queue (length moves)
    → AllRun moves
    → (e' : Engine) × (tr : Trace) × (run moves e ≡ some (e', tr))
      × ((i : ℕ)
          → i < worker_count
          → pending k i e ++ for_worker i tr.accepted ≡ taken_by i tr.taken ++ pending k i e')
      × IsEngine k e'
unfolding run
run-in_order_each k [] e v on r s = (e, silent, refl, λ i h. append-nil _, v)
run-in_order_each k (move ∷ moves) e v on r s =
    let (e', tr, h, kept) = step-Kept k move e v on (omega arith) s.0 in
    let (e'', trs, hs, order, v'') =
      run-in_order_each k moves e' kept.valid (kept.same_running ∙ on) (omega (arith, kept.moved))
        s.1 in
    (
      e'',
      join tr trs,
      run-join move moves e e' e'' tr trs h hs,
      λ i lt.
          ap (λ xs. pending k i e ++ xs) (for_worker-append i tr.accepted trs.accepted)
          ∙ append_middle (pending k i e) (for_worker i tr.accepted) (taken_by i tr.taken)
              (pending k i e') (for_worker i trs.accepted) (taken_by i trs.taken ++ pending k i e'')
              (kept.in_order i lt) (order i lt)
          ∙ sym (append_assoc (taken_by i tr.taken) (taken_by i trs.taken) (pending k i e''))
          ∙ ap (λ xs. xs ++ pending k i e'') (sym (taken_by-append i tr.taken trs.taken)),
      v'',
    )
