-- ===== src/Lane/Dispatcher.antt =====
-- The moves that put a request into a lane, and those of its dispatcher.
use flashsale_system_imitati.Prelude.{
  ℕ, ◌^◌, ◌≡◌, refl, sym, ap, ◌∙◌, ◌++◌, Bool, true, none, some, List, [], ◌∷◌, length, ltb,
  map-append, append-nil, append_assoc, if◌then◌else◌, inl, inr, Bool-cases, Option-cases, arith,
}
use flashsale_system_imitati.Prelude.Int.{ℤ}
use flashsale_system_imitati.Prelude.Lists.{append_assoc_4}
use flashsale_system_imitati.Fifo
use flashsale_system_imitati.Fifo.{option_list}
use flashsale_system_imitati.Messages.{
  Request, WorkerRequest, request_default, worker_request_default, to_worker_request,
}
use flashsale_system_imitati.Spsc
use flashsale_system_imitati.Spsc.{SpscQueue, try_dequeue_batch}
use flashsale_system_imitati.Mpmc
use flashsale_system_imitati.Mpmc.Inv.{HasRoom, Succeeds}
use flashsale_system_imitati.Mpmc.{MpmcQueue}
use flashsale_system_imitati.Mpmc.Enqueue.{try_enqueue_refines}
use flashsale_system_imitati.Mpmc.Dequeue.{try_dequeue_refines}
use flashsale_system_imitati.Lane.{
  Lane, silent, accepts, dispatches, pushes, accept, dispatch, push, step,
}
use flashsale_system_imitati.Lane.Kept.{core, cores, waiting, IsLane, Kept-same, Goes}

waiting-push :
    (n : ℕ) (xs : List Request) (x : Request)
    → waiting xs ++ cores (if (Fifo.push n xs x).0 then to_worker_request x ∷ [] else [])
      ≡ waiting (Fifo.push n xs x).1
unfolding Fifo.push
waiting-push n xs x = elim (Bool-cases (ltb (length xs) n)) [
  | inl t ↦ rw t (sym (map-append _ xs (x ∷ [])))
  | inr f ↦ rw f (append-nil _)
]

push-true :
    (n : ℕ) (xs : List WorkerRequest) (x : WorkerRequest)
    → (Fifo.push n xs x).0 ≡ true
    → (Fifo.push n xs x).1 ≡ xs ++ (x ∷ [])
unfolding Fifo.push
push-true n xs x h = ground arith

module _ (k : ℕ) (l : Lane) (v : IsLane k l) where
  pub accepts-Kept :
      (rounds : List Bool) (req : Request)
      → HasRoom k l.queue 0
      → Succeeds rounds
      → Goes k l v (accepts rounds req)
  unfolding step accept
  accepts-Kept rounds req r s =
      let (q', e, c, d, v') = try_enqueue_refines k l.queue v.queue_valid rounds req r s in
      (
        record l { queue = q' },
        record silent {
          accepted =
              if (Fifo.push (2 ^ k) (Mpmc.Inv.contents k l.queue) req).0
              then to_worker_request req ∷ []
              else [];
        },
        rw (e, accept, step) refl,
        record {
          in_order =
              append_assoc_4 (cores l.batch) (cores (Spsc.Refine.contents l.worker.queue))
                (cores (option_list l.held)) _ _
              ∙ ap
                  (λ m.
                    cores l.batch
                    ++ (cores (Spsc.Refine.contents l.worker.queue)
                        ++ (cores (option_list l.held) ++ m)))
                  (waiting-push (2 ^ k) (Mpmc.Inv.contents k l.queue) req ∙ ap waiting (sym c));
          still = record { queue_valid = v'; worker_queue_valid = v.worker_queue_valid };
          moved = omega arith;
        },
      )

  pub dispatches-Kept :
      (rounds : List Bool) (now now_push : ℤ)
      → HasRoom k l.queue 1
      → Succeeds rounds
      → Goes k l v (dispatches rounds now now_push)
  unfolding step dispatch
  dispatches-Kept rounds now now_push r s =
      let (q', e, c, d, v') = try_dequeue_refines k l.queue v.queue_valid rounds r s in
      elim (Option-cases l.held) [
        | inr (wreq, h) ↦ (l, silent, simp (h, dispatch, step), Kept-same k l v)
        | inl h ↦ elim (Fifo.pop_cases (Mpmc.Inv.contents k l.queue)) [
          | inl (empty, p) ↦ (
            record l { queue = q' },
            silent,
            rw (h, e, p, dispatch, step)
                (ap (λ o. some (record l { queue = q'; held = o }, silent)) h),
            record {
              in_order =
                  append-nil _
                  ∙ ap (λ m. before (cores (option_list l.held) ++ m))
                      (ap waiting (empty ∙ sym (c ∙ ap (λ o. o.1) p)));
              still = record { queue_valid = v'; worker_queue_valid = v.worker_queue_valid };
              moved = d;
            },
          )
          | inr (x, rest, first, p) ↦ (
            taken x q',
            silent,
            rw (h, e, p, dispatch, step) refl,
            record {
              in_order =
                  append-nil _
                  ∙ ap (λ m. before (cores (option_list l.held) ++ m)) (ap waiting first)
                  ∙ ap (λ o. before (cores (option_list o) ++ waiting (x ∷ rest))) h
                  ∙ ap (λ m. before (core (to_worker_request x) ∷ waiting m))
                      (sym (c ∙ ap (λ o. o.1) p));
              still = record { queue_valid = v'; worker_queue_valid = v.worker_queue_valid };
              moved = d;
            },
          )
        ]
      ]
    where
      before : List WorkerRequest → List WorkerRequest
      before m = cores l.batch ++ (cores (Spsc.Refine.contents l.worker.queue) ++ m)

      taken : Request → MpmcQueue Request → Lane
      taken x q' = record l {
        queue = q';
        held = some (record (to_worker_request (record x { ts_pop_mpmc = now })) {
          ts_push_spsc = now_push;
        });
      }

  pub push-Kept : Goes k l v pushes
  unfolding step push
  push-Kept = elim (Option-cases l.held) [
    | inl h ↦ (l, silent, simp (h, push, step), Kept-same k l v)
    | inr (wreq, h) ↦ elim (Bool-cases (Spsc.try_enqueue l.worker.queue wreq).0) [
      | inl t ↦ (
        given wreq,
        silent,
        rw (h, push, step) (rw t refl),
        record {
          in_order =
              append-nil _
              ∙ ap (λ o. cores l.batch ++ (S ++ (cores (option_list o) ++ M))) h
              ∙ ap (λ m. cores l.batch ++ m) (sym (append_assoc S (core wreq ∷ []) M))
              ∙ ap (λ m. cores l.batch ++ (m ++ M))
                  (sym (map-append core (Spsc.Refine.contents l.worker.queue) (wreq ∷ []))
                    ∙ ap cores (
                        sym (
                          ap (λ o. o.1) (refines wreq)
                          ∙ push-true _ _ wreq (sym (ap (λ o. o.0) (refines wreq)) ∙ t))));
          still = record {
            queue_valid = v.queue_valid;
            worker_queue_valid = Spsc.Inv.try_enqueue-IsValid wreq v.worker_queue_valid;
          };
          moved = omega arith;
        },
      )
      | inr f ↦ (l, silent, simp (h, f, push, step), Kept-same k l v)
    ]
  ]
    where
      S : List WorkerRequest
      S = cores (Spsc.Refine.contents l.worker.queue)

      M : List WorkerRequest
      M = waiting (Mpmc.Inv.contents k l.queue)

      given : WorkerRequest → Lane
      given wreq = record l {
        held = none;
        worker = record l.worker { queue = (Spsc.try_enqueue l.worker.queue wreq).1 };
      }

      refines :
          (wreq : WorkerRequest)
          → (
            (Spsc.try_enqueue l.worker.queue wreq).0,
            Spsc.Refine.contents (Spsc.try_enqueue l.worker.queue wreq).1,
          )
            ≡ Fifo.push
                (Spsc.Refine.capacity l.worker.queue)
                (Spsc.Refine.contents l.worker.queue)
                wreq
      refines wreq = Spsc.Refine.try_enqueue_refines wreq v.worker_queue_valid
