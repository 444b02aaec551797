-- ===== src/Core/Dispatching.antt =====
-- Every move of the dispatcher keeps what is on its way to each worker.
use flashsale_system_imitati.Prelude.{
  ℕ, ◌+◌, ◌≤◌, ◌≡◌, refl, sym, ap, subst, ◌∙◌, ◌++◌, Bool, true, false, List, [], ◌∷◌, length,
  arith, append_assoc, inl, inr, Bool-cases, ltb, Option, some, List-cases,
}
use flashsale_system_imitati.Fifo
use flashsale_system_imitati.Messages.{WorkerRequest, worker_request_default}
use flashsale_system_imitati.Mpmc
use flashsale_system_imitati.Mpmc.{MpmcQueue}
use flashsale_system_imitati.Mpmc.Inv.{HasRoom, Succeeds}
use flashsale_system_imitati.Mpmc.Dequeue.{try_dequeue_refines}
use flashsale_system_imitati.Core.{
  Request, request_default, batch_size, Dispatcher, Engine, gather, route, hand, dispatcher_move,
}
use flashsale_system_imitati.Core.Pending.{
  for_worker, for_worker-append, queued, held_for, IsEngine, Keeps,
}
use flashsale_system_imitati.Core.Route.{route-Keeps, route-same}
use flashsale_system_imitati.Core.Hand.{hand-Keeps, hand-same}

module _ (k : ℕ) (e : Engine) (v : IsEngine k e) where
  -- What is to be shown of a move of the dispatcher.
  abbrev pub Goes : Option Engine → Type 0
  Goes out =
      (e' : Engine) × (out ≡ some e')
      × Keeps k e e'
      × (e'.queue.dequeue_pos ≤ e.queue.dequeue_pos + 1)
      × (e'.running ≡ e.running)

  gather-Goes :
      (rounds : List Bool) → HasRoom k e.queue 1 → Succeeds rounds → Goes (gather rounds e)
  unfolding gather
  gather-Goes rounds r s =
      let (q', eq, c, d, v') = try_dequeue_refines k e.queue v.queue_valid rounds r s in
      elim (Fifo.pop_cases (Mpmc.Inv.contents k e.queue)) [
        | inl (empty, p) ↦ (
          record e { queue = q'; dispatcher = record e.dispatcher { gathering = false } },
          rw (eq, p, gather) refl,
          record {
            in_order = λ i _.
                ap (λ xs. before i (for_worker i e.dispatcher.batch ++ for_worker i xs))
                  (c ∙ ap (λ o. o.1) p ∙ sym empty);
            valid = still (record e.dispatcher { gathering = false }) v';
          },
          d,
          refl,
        )
        | inr (x, rest, first, p) ↦ (
          record e {
            queue = q';
            dispatcher = record e.dispatcher {
              batch = e.dispatcher.batch ++ (x ∷ []);
              gathering = ltb (length e.dispatcher.batch + 1) batch_size;
            };
          },
          rw (eq, p, gather) refl,
          record {
            in_order = λ i _. ap (before i) (
                ap (λ xs. for_worker i (e.dispatcher.batch ++ (x ∷ [])) ++ for_worker i xs)
                  (c ∙ ap (λ o. o.1) p)
                ∙ moved i x rest
                ∙ ap (λ xs. for_worker i e.dispatcher.batch ++ for_worker i xs) (sym first));
            valid =
                still
                  (record e.dispatcher {
                    batch = e.dispatcher.batch ++ (x ∷ []);
                    gathering = ltb (length e.dispatcher.batch + 1) batch_size;
                  })
                  v';
          },
          d,
          refl,
        )
      ]
    where
      before : ℕ → List WorkerRequest → List WorkerRequest
      before i xs = queued i e.workers ++ (held_for i e.dispatcher.held e.dispatcher.targets ++ xs)

      still :
          {q' : MpmcQueue Request} (d : Dispatcher)
          → Mpmc.Inv.IsValid k q'
          → IsEngine k
              (record e { queue = q'; dispatcher = record d { targets = e.dispatcher.targets } })
      still d v' = record {
        queue_valid = v';
        workers_valid = v.workers_valid;
        four = v.four;
        targets_valid = v.targets_valid;
      }

      moved :
          (i : ℕ) (x : Request) (rest : List Request)
          → for_worker i (e.dispatcher.batch ++ (x ∷ [])) ++ for_worker i rest
            ≡ for_worker i e.dispatcher.batch ++ for_worker i (x ∷ rest)
      moved i x rest =
          ap (λ xs. xs ++ for_worker i rest) (for_worker-append i e.dispatcher.batch (x ∷ []))
          ∙ append_assoc (for_worker i e.dispatcher.batch) (for_worker i (x ∷ []))
              (for_worker i rest)
          ∙ ap (λ xs. for_worker i e.dispatcher.batch ++ xs)
              (sym (for_worker-append i (x ∷ []) rest))

  pub dispatcher_move-Goes :
      (rounds : List Bool)
      → e.running ≡ true
      → HasRoom k e.queue 1
      → Succeeds rounds
      → Goes (dispatcher_move rounds e)
  unfolding dispatcher_move
  dispatcher_move-Goes rounds on r s = elim (List-cases e.dispatcher.targets) [
    | inr (j, rest, t) ↦ (
      hand j rest e,
      simp (t, dispatcher_move),
      hand-Keeps k j rest e v on t,
      omega (arith, ap (λ q. q.dequeue_pos) (hand-same k j rest e).0),
      (hand-same k j rest e).1,
    )
    | inl t ↦ elim (Bool-cases e.dispatcher.gathering) [
      | inl g ↦ subst Goes (gathers t g) (gather-Goes rounds r s)
      | inr g ↦ elim (List-cases e.dispatcher.batch) [
        | inr (req, rest, b) ↦ (
          route req rest e,
          routes req rest t g b,
          route-Keeps k req rest e v t b,
          omega (arith, ap (λ q. q.dequeue_pos) (route-same req rest e).0),
          (route-same req rest e).1,
        )
        | inl b ↦ (
          record e { dispatcher = record e.dispatcher { gathering = true } },
          begins t g b,
          record {
            in_order = λ i _. refl;
            valid = record {
              queue_valid = v.queue_valid;
              workers_valid = v.workers_valid;
              four = v.four;
              targets_valid = v.targets_valid;
            };
          },
          omega arith,
          refl,
        )
      ]
    ]
  ]
    where
      gathers :
          e.dispatcher.targets ≡ []
          → e.dispatcher.gathering ≡ true
          → gather rounds e ≡ dispatcher_move rounds e
      gathers t g = simp (t, g, dispatcher_move)

      routes :
          (req : Request) (rest : List Request)
          → e.dispatcher.targets ≡ []
          → e.dispatcher.gathering ≡ false
          → e.dispatcher.batch ≡ req ∷ rest
          → dispatcher_move rounds e ≡ some (route req rest e)
      routes req rest t g b = simp (t, g, b, dispatcher_move)

      begins :
          e.dispatcher.targets ≡ []
          → e.dispatcher.gathering ≡ false
          → e.dispatcher.batch ≡ []
          → dispatcher_move rounds e
            ≡ some (record e { dispatcher = record e.dispatcher { gathering = true } })
      begins t g b = simp (t, g, b, on, dispatcher_move)
