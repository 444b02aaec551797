-- ===== src/Lane/Consumer.antt =====
-- The moves of a lane's worker.
use flashsale_system_imitati.Prelude.{
  ℕ, ◌+◌, ◌^◌, ◌≡◌, refl, sym, ap, ◌∙◌, ◌++◌, Bool, true, false, none, List, [], ◌∷◌, length, map,
  map-append, map-map, append-nil, append_assoc, inl, inr, Bool-cases, Option-cases, List-cases,
  arith, subst, ◌%◌, take-append-drop,
}
use flashsale_system_imitati.Prelude.Int.{ℤ}
use flashsale_system_imitati.Fifo
use flashsale_system_imitati.Fifo.{option_list}
use flashsale_system_imitati.Messages.{
  WorkerRequest, CSeckillResult, request_default, worker_request_default, result_default,
}
use flashsale_system_imitati.Spsc
use flashsale_system_imitati.Spsc.{SpscQueue, try_dequeue_batch}
use flashsale_system_imitati.Mpmc
use flashsale_system_imitati.Mpmc.Inv.{HasRoom, Succeeds}
use flashsale_system_imitati.Mpmc.{MpmcQueue}
use flashsale_system_imitati.Mpmc.Enqueue.{try_enqueue_refines}
use flashsale_system_imitati.Worker.{Shared, Env, Worker, process}
use flashsale_system_imitati.Worker.Queue.{queue-process}
use flashsale_system_imitati.Lane.{
  Lane, silent, fetches, begins, handles, delivers, finishes, batch_size, fetch, begin_batch,
  handle, deliver, finish, step,
}
use flashsale_system_imitati.Lane.Kept.{core, cores, waiting, IsLane, Kept-same, Goes}

module _ (k : ℕ) (l : Lane) (v : IsLane k l) where
  pub fetch-Kept : (now : ℤ) → Goes k l v (fetches now)
  unfolding step fetch Fifo.pop_batch
  fetch-Kept now = elim (List-cases l.batch) [
    | inr (x, rest, b) ↦ (l, silent, simp (b, fetch, step), Kept-same k l v)
    | inl b ↦ elim (Bool-cases l.worker.is_processing) [
      | inl t ↦ (l, silent, simp (b, t, fetch, step), Kept-same k l v)
      | inr f ↦ (
        fetched,
        silent,
        rw (b, fetch, step) (rw f refl),
        record {
          in_order =
              append-nil _
              ∙ ap (λ xs. cores xs ++ (cores (Spsc.Refine.contents l.worker.queue) ++ rest)) b
              ∙ ap (λ xs. xs ++ rest) split
              ∙ append_assoc _ _ rest;
          still = record {
            queue_valid = v.queue_valid;
            worker_queue_valid = Spsc.Inv.try_dequeue_batch-IsValid batch_size v.worker_queue_valid;
          };
          moved = omega arith;
        },
      )
    ]
  ]
    where
      rest : List WorkerRequest
      rest = cores (option_list l.held) ++ waiting (Mpmc.Inv.contents k l.queue)

      stamp : WorkerRequest → WorkerRequest
      stamp r = record r { ts_pop_spsc = now }

      out : List WorkerRequest × SpscQueue WorkerRequest
      out = try_dequeue_batch l.worker.queue batch_size

      fetched : Lane
      fetched = record l {
        worker = record l.worker { queue = out.1 };
        batch = map stamp out.0;
        count = length out.0;
      }

      refines :
          (out.0, Spsc.Refine.contents out.1)
          ≡ Fifo.pop_batch (Spsc.Refine.contents l.worker.queue) batch_size
      refines = Spsc.Refine.try_dequeue_batch_refines batch_size v.worker_queue_valid

      split :
          cores (Spsc.Refine.contents l.worker.queue)
          ≡ cores (map stamp out.0) ++ cores (Spsc.Refine.contents out.1)
      split =
          ap cores (sym (take-append-drop batch_size (Spsc.Refine.contents l.worker.queue)))
          ∙ ap (λ o. cores (o.0 ++ o.1)) (sym refines)
          ∙ map-append core out.0 _
          ∙ ap (λ xs. xs ++ cores (Spsc.Refine.contents out.1)) (sym (map-map core stamp out.0))

  pub begin-Kept : Goes k l v begins
  unfolding step begin_batch
  begin-Kept = elim (List-cases l.batch) [
    | inl b ↦ (l, silent, simp (b, begin_batch, step), Kept-same k l v)
    | inr (x, rest, b) ↦ (
      record l { worker = record l.worker { is_processing = true } },
      silent,
      simp (b, begin_batch, step),
      record {
        in_order = append-nil _;
        still = record { queue_valid = v.queue_valid; worker_queue_valid = v.worker_queue_valid };
        moved = omega arith;
      },
    )
  ]

  pub handle-Kept : (env : Env) (sh : Shared) → Goes k l v (handles env sh)
  unfolding step handle
  handle-Kept env sh = elim (List-cases l.batch) [
    | inl b ↦ (l, silent, simp (b, handle, step), Kept-same k l v)
    | inr (req, rest, b) ↦ elim (Option-cases l.outbox) [
      | inr (res, o) ↦ (l, silent, simp (b, o, handle, step), Kept-same k l v)
      | inl o ↦ elim (Bool-cases l.worker.is_processing) [
        | inr f ↦ (l, silent, simp (b, o, f, handle, step), Kept-same k l v)
        | inl t ↦ (
          handled req rest,
          record {
            accepted = [];
            handled = req ∷ [];
            results = option_list (process env l.worker sh req).2;
          },
          rw (b, o, handle, step) (rw t refl),
          record {
            in_order =
                append-nil _
                ∙ ap (λ xs. cores xs ++ later l.worker) b
                ∙ ap
                    (λ q.
                      core req ∷ cores rest
                      ++ (cores (Spsc.Refine.contents q)
                          ++ (cores (option_list l.held) ++ waiting (Mpmc.Inv.contents k l.queue))))
                    (sym (queue-process env l.worker sh req));
            still = record {
              queue_valid = v.queue_valid;
              worker_queue_valid =
                  subst Spsc.Inv.IsValid (sym (queue-process env l.worker sh req))
                    v.worker_queue_valid;
            };
            moved = omega arith;
          },
        )
      ]
    ]
  ]
    where
      handled : WorkerRequest → List WorkerRequest → Lane
      handled req rest = record l {
        worker = (process env l.worker sh req).0;
        batch = rest;
        outbox = (process env l.worker sh req).2;
      }

      later : Worker → List WorkerRequest
      later w =
          cores (Spsc.Refine.contents w.queue)
          ++ (cores (option_list l.held) ++ waiting (Mpmc.Inv.contents k l.queue))

  pub finish-Kept : Goes k l v finishes
  unfolding step finish
  finish-Kept = elim (List-cases l.batch) [
    | inr (req, rest, b) ↦ (l, silent, simp (b, finish, step), Kept-same k l v)
    | inl b ↦ elim (Option-cases l.outbox) [
      | inr (res, o) ↦ (l, silent, simp (b, o, finish, step), Kept-same k l v)
      | inl o ↦ elim (Bool-cases l.worker.is_processing) [
        | inr f ↦ (l, silent, simp (b, o, f, finish, step), Kept-same k l v)
        | inl t ↦ (
          record l {
            worker = record l.worker {
              is_processing = false;
              processed_count = (l.worker.processed_count + l.count) % 2 ^ 64;
            };
          },
          silent,
          simp (b, o, t, finish, step),
          record {
            in_order = append-nil _;
            still = record {
              queue_valid = v.queue_valid;
              worker_queue_valid = v.worker_queue_valid;
            };
            moved = omega arith;
          },
        )
      ]
    ]
  ]

  pub deliver-Kept :
      (rounds : List Bool) (results : MpmcQueue CSeckillResult) (kr : ℕ)
      → Mpmc.Inv.IsValid kr results
      → HasRoom kr results 0
      → Succeeds rounds
      → Goes k l v (delivers rounds results)
  unfolding step deliver
  deliver-Kept rounds results kr vr r s = elim (Option-cases l.outbox) [
    | inl o ↦ (l, silent, simp (o, deliver, step), Kept-same k l v)
    | inr (res, o) ↦
        let (q', e, c, d, vq) = try_enqueue_refines kr results vr rounds res r s in
        elim (Bool-cases (Fifo.push (2 ^ kr) (Mpmc.Inv.contents kr results) res).0) [
          | inl t ↦ (
            record l { outbox = none },
            silent,
            rw (o, e, deliver, step) (rw t refl),
            record {
              in_order = append-nil _;
              still = record {
                queue_valid = v.queue_valid;
                worker_queue_valid = v.worker_queue_valid;
              };
              moved = omega arith;
            },
          )
          | inr f ↦ (l, silent, simp (o, e, f, deliver, step), Kept-same k l v)
        ]
  ]
