-- ===== src/Core/Drain.antt =====
-- The end of a worker's thread after `Stop`.
use flashsale_system_imitati.Prelude.{
  ℕ, zero, suc, ◌≡◌, ◌<◌, ◌+◌, ◌%◌, ◌^◌, refl, sym, ap, ◌∙◌, subst, Bool, true, false, some, List,
  [], ◌∷◌, ◌++◌, length, arith, Option, ltb, inl, inr, Bool-cases, take, drop,
}
use flashsale_system_imitati.Prelude.Lists.{take-append-drop, length-append}
use flashsale_system_imitati.Fifo
use flashsale_system_imitati.Messages.{WorkerRequest, worker_request_default}
use flashsale_system_imitati.Spsc
use flashsale_system_imitati.Spsc.{SpscQueue, try_dequeue_batch}
use flashsale_system_imitati.Worker.{Shared, Worker}
use flashsale_system_imitati.Core.{CSeckillResult}
use flashsale_system_imitati.Core.Moves.{worker_batch_size}
use flashsale_system_imitati.Core.Loop.{Met}
use flashsale_system_imitati.Core.Dressed.{
  Dress, dress, process_each, process_each-dress, process_each-append, length-process_each,
}
use flashsale_system_imitati.Core.Place.{FindsPlace, AreEffects, AreEffects-append}
use flashsale_system_imitati.Core.Rounds.{
  after_batch, take_empty, ReadsFalse, process_reqs-AreEffects, Ends, loop-batch, loop-idle,
  loop-ends,
}

module _ (k : ℕ) (mets : ℕ → Met) where
  module _ (finds : (n : ℕ) → FindsPlace k (mets n).tries) (fuel n : ℕ) (w : Worker)
      (v : Spsc.Inv.IsValid w.queue) where
    abbrev out : List WorkerRequest × SpscQueue WorkerRequest
    out = try_dequeue_batch w.queue worker_batch_size

    refines :
        ◌≡◌ {A = List WorkerRequest × List WorkerRequest}
          (out.0, Spsc.Refine.contents out.1)
          (take 64 (Spsc.Refine.contents w.queue), drop 64 (Spsc.Refine.contents w.queue))
    unfolding Fifo.pop_batch
    refines = Spsc.Refine.try_dequeue_batch_refines worker_batch_size v

    pub split : Spsc.Refine.contents w.queue ≡ out.0 ++ Spsc.Refine.contents out.1
    split =
        sym (take-append-drop 64 (Spsc.Refine.contents w.queue))
        ∙ ap (λ o. o.0 ++ o.1) (sym refines)

    none_left : ltb 0 (length out.0) ≡ false → Spsc.Refine.contents w.queue ≡ []
    none_left f =
        take_empty 63 (Spsc.Refine.contents w.queue)
          (sym (ap (λ o. ltb 0 (length o.0)) refines) ∙ f)

    none_after : ltb 0 (length out.0) ≡ false → Spsc.Refine.contents out.1 ≡ []
    none_after f = ap (λ o. o.1) refines ∙ ap (λ c. drop 64 c) (none_left f)

    fuel_left :
        ltb 0 (length out.0) ≡ true
        → (m : ℕ) → length (Spsc.Refine.contents w.queue) + m < suc (suc fuel)
        → length (Spsc.Refine.contents out.1) + m < suc fuel
    fuel_left t m h =
        ground (arith, ap length split, length-append out.0 (Spsc.Refine.contents out.1))

    Ends-idle :
        (reads : List Bool)
        → ltb 0 (length out.0) ≡ false
        → Ends k mets fuel reads n (Spsc.Refine.contents out.1) (record w { queue = out.1 })
        → Ends k mets (suc fuel) (true ∷ reads) n (Spsc.Refine.contents w.queue) w
    Ends-idle reads f ended =
        let (q, effects, e, done, empty) =
          subst (λ c. Ends k mets fuel reads n c (record w { queue = out.1 })) (none_after f)
            ended in
        subst (λ c. Ends k mets (suc fuel) (true ∷ reads) n c w) (sym (none_left f))
          (q, effects, loop-idle k mets fuel reads n w f ∙ e, done, empty)

    Ends-empty :
        (reads : List Bool)
        → ltb 0 (length out.0) ≡ false
        → w.is_processing ≡ false
        → w.processed_count < 2 ^ 64
        → Ends k mets (suc fuel) (false ∷ reads) n (Spsc.Refine.contents w.queue) w
    unfolding Fifo.pop_batch
    Ends-empty reads f idle fits =
        let second =
          Spsc.Refine.try_dequeue_batch_refines worker_batch_size
            (Spsc.Inv.try_dequeue_batch-IsValid worker_batch_size v) in
        let counted : w.processed_count ≡ (w.processed_count + 0) % 2 ^ 64 = omega arith in
        subst (λ c. Ends k mets (suc fuel) (false ∷ reads) n c w) (sym (none_left f))
          (
            (try_dequeue_batch out.1 worker_batch_size).1,
            [],
            loop-ends k mets fuel reads n w f
                  (ap (λ o. length o.0) second ∙ ap (λ c. length (take 64 c)) (none_after f))
                ∙ (λ i. some (
                  record w {
                    queue = (try_dequeue_batch out.1 worker_batch_size).1;
                    is_processing = idle i;
                    processed_count = counted i;
                  },
                  [],
                )),
            tt,
            ap (λ o. o.1) second ∙ ap (λ c. drop 64 c) (none_after f),
          )

    -- The worker after the first batch.
    abbrev pub next : Worker
    next = dress (after_batch out.1 (length out.0) w) (process_each mets n out.0 w).0

    -- A batch and what follows are one batch.
    together :
        (q : SpscQueue WorkerRequest) (reqs rest : List WorkerRequest)
        → let (w', outs) = process_each mets n reqs w in
          let w1 = dress (after_batch out.1 (length reqs) w) w' in
          let (w2, outs') = process_each mets (n + length reqs) rest w1 in
          ◌≡◌ {A = Worker × List (Shared × Option CSeckillResult)}
            (dress (after_batch q (length rest) w1) w2, outs ++ outs')
            (
              dress
                  (after_batch q (length (reqs ++ rest)) w)
                  (process_each mets n (reqs ++ rest) w).0,
              (process_each mets n (reqs ++ rest) w).1,
            )
    together q reqs rest =
        let (w', outs) = process_each mets n reqs w in
        let last : ℕ → Dress = λ c. record {
          running = w.running;
          is_processing = false;
          queue = q;
          processed_count = c;
        } in
        let counted : ((w.processed_count + length reqs) % 2 ^ 64 + length rest) % 2 ^ 64
            ≡ (w.processed_count + length (reqs ++ rest)) % 2 ^ 64 =
          omega (arith, length-append reqs rest) in
        ap
          (λ o. (
            dress (last (((w.processed_count + length reqs) % 2 ^ 64 + length rest) % 2 ^ 64)) o.0,
            outs ++ o.1,
          ))
          (process_each-dress mets (after_batch out.1 (length reqs) w) (n + length reqs) rest w')
        ∙ ap
            (λ c.
              let o = process_each mets (n + length reqs) rest w' in
              (dress (last c) o.0, outs ++ o.1))
            counted
        ∙ ap (λ o. (dress (last ((w.processed_count + length (reqs ++ rest)) % 2 ^ 64)) o.0, o.1))
            (sym (process_each-append mets n (n + length reqs) reqs rest w refl))

    Ends-batch :
        (reads : List Bool)
        → ltb 0 (length out.0) ≡ true
        → Ends k mets fuel reads (n + length out.0) (Spsc.Refine.contents out.1) next
        → Ends k mets (suc fuel) reads n (Spsc.Refine.contents w.queue) w
    Ends-batch reads t (q, effects', e', done', empty) =
        let (effects, e, done) = process_reqs-AreEffects k mets n out.0 out.1 w finds in
        let whole = together q out.0 (Spsc.Refine.contents out.1) in
        subst (λ c. Ends k mets (suc fuel) reads n c w) (sym split)
          (
            q,
            effects ++ effects',
            loop-batch k mets fuel reads n w next _ effects effects' t e e'
                ∙ ap (λ o. some (o.0, effects ++ effects')) whole,
            subst (λ o. AreEffects k mets n o.1 (effects ++ effects')) whole
                (AreEffects-append k mets n (n + length out.0) (process_each mets n out.0 w).1
                  (process_each mets (n + length out.0) (Spsc.Refine.contents out.1) next).1 effects
                  effects' (ap (λ m. n + m) (sym (length-process_each mets n out.0 w))) done done'),
            empty,
          )

  pub loop-Ends :
      ((n : ℕ) → FindsPlace k (mets n).tries)
      → (fuel : ℕ) (reads : List Bool) (n : ℕ) (w : Worker) → Spsc.Inv.IsValid w.queue
      → ReadsFalse reads
      → w.is_processing ≡ false
      → w.processed_count < 2 ^ 64
      → length (Spsc.Refine.contents w.queue) + length reads < suc fuel
      → Ends k mets fuel reads n (Spsc.Refine.contents w.queue) w
  loop-Ends finds fuel [] n w v off idle fits h = absurd off
  loop-Ends finds zero (b ∷ reads) n w v off idle fits h = absurd (omega arith)
  loop-Ends finds (suc fuel) (true ∷ reads) n w v off idle fits h =
      elim (Bool-cases (ltb 0 (length (out finds fuel n w v).0))) [
        | inl t ↦ Ends-batch finds fuel n w v (true ∷ reads) t (
            loop-Ends finds fuel (true ∷ reads) (n + length (out finds fuel n w v).0)
              (next finds fuel n w v) (Spsc.Inv.try_dequeue_batch-IsValid worker_batch_size v) off
              refl (omega arith) (fuel_left finds fuel n w v t (length (true ∷ reads)) h))
        | inr f ↦ Ends-idle finds fuel n w v reads f (
            loop-Ends finds fuel reads n (record w { queue = (out finds fuel n w v).1 })
              (Spsc.Inv.try_dequeue_batch-IsValid worker_batch_size v) off idle fits
              (omega (arith, h, ap length (none_after finds fuel n w v f))))
      ]
  loop-Ends finds (suc fuel) (false ∷ reads) n w v off idle fits h =
      elim (Bool-cases (ltb 0 (length (out finds fuel n w v).0))) [
        | inl t ↦ Ends-batch finds fuel n w v (false ∷ reads) t (
            loop-Ends finds fuel (false ∷ reads) (n + length (out finds fuel n w v).0)
              (next finds fuel n w v) (Spsc.Inv.try_dequeue_batch-IsValid worker_batch_size v) off
              refl (omega arith) (fuel_left finds fuel n w v t (length (false ∷ reads)) h))
        | inr f ↦ Ends-empty finds fuel n w v reads f idle fits
      ]
