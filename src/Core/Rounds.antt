-- ===== src/Core/Rounds.antt =====
-- The rounds of a worker's loop on each of their branches.
use flashsale_system_imitati.Prelude.{
  ℕ, suc, ◌≡◌, ◌+◌, ◌%◌, ◌^◌, refl, ap, subst, Bool, true, false, some, List, [], ◌∷◌, ◌++◌, length,
  arith, ltb, take,
}
use flashsale_system_imitati.Messages.{WorkerRequest, worker_request_default}
use flashsale_system_imitati.Spsc
use flashsale_system_imitati.Spsc.{SpscQueue, try_dequeue_batch}
use flashsale_system_imitati.Worker.{Worker}
use flashsale_system_imitati.Core.Moves.{worker_batch_size}
use flashsale_system_imitati.Core.Loop.{Met, Effect, process_reqs, after, loop}
use flashsale_system_imitati.Core.Dressed.{Dress, dress, process_each, process_each-dress}
use flashsale_system_imitati.Core.Place.{FindsPlace, AreEffects, process_all-AreEffects}

-- A worker's parts after a batch of `m` requests, with the queue `q` left.
abbrev pub after_batch : SpscQueue WorkerRequest → ℕ → Worker → Dress
after_batch q m w = record {
  running = w.running;
  is_processing = false;
  queue = q;
  processed_count = (w.processed_count + m) % 2 ^ 64;
}

pub take_empty {ℓ} :
    {A : Type ℓ} (n : ℕ) (xs : List A) → ltb 0 (length (take (suc n) xs)) ≡ false → xs ≡ []
take_empty n [] h = refl
take_empty n (x ∷ xs) h = absurd (ground arith)

-- In one of its reads the thread finds `running_` cleared.
abbrev pub ReadsFalse : List Bool → Type 0
ReadsFalse [] = ⊥
ReadsFalse (true ∷ reads) = ReadsFalse reads
ReadsFalse (false ∷ reads) = Unit

module _ (k : ℕ) (mets : ℕ → Met) where
  pub process_reqs-AreEffects :
      (n : ℕ) (reqs : List WorkerRequest) (q : SpscQueue WorkerRequest) (w : Worker)
      → ((n : ℕ) → FindsPlace k (mets n).tries)
      → let (w', outs) = process_each mets n reqs w in
        (effects : List Effect) × (process_reqs mets n reqs (record w { queue = q })
          ≡ some (dress (after_batch q (length reqs) w) w', effects))
        × AreEffects k mets n outs effects
  unfolding process_reqs
  process_reqs-AreEffects n reqs q w f =
      let busy : Dress = record {
        running = w.running;
        is_processing = true;
        queue = q;
        processed_count = w.processed_count;
      } in
      let (effects, e, done) = process_all-AreEffects k mets n reqs (dress busy w) f in
      let dressed = process_each-dress mets busy n reqs w in
      (
        effects,
        rw (e, process_reqs)
            (ap
              (λ o. some (
                record o.0 {
                  is_processing = false;
                  processed_count = (o.0.processed_count + length reqs) % 2 ^ 64;
                },
                effects,
              ))
              dressed),
        subst (λ o. AreEffects k mets n o.1 effects) dressed done,
      )

  -- The loop ends when it has processed `reqs` in order, with an empty queue.
  abbrev pub Ends : ℕ → List Bool → ℕ → List WorkerRequest → Worker → Type 0
  Ends fuel reads n reqs w =
      let (w', outs) = process_each mets n reqs w in
      (q : SpscQueue WorkerRequest) × (effects : List Effect) × (loop fuel reads mets n w
        ≡ some (dress (after_batch q (length reqs) w) w', effects))
      × AreEffects k mets n outs effects
      × (Spsc.Refine.contents q ≡ [])

  pub loop-batch :
      (fuel : ℕ) (reads : List Bool) (n : ℕ) (w w' w'' : Worker) (effects effects' : List Effect)
      → let (reqs, q) = try_dequeue_batch w.queue worker_batch_size in
        ltb 0 (length reqs) ≡ true
        → process_reqs mets n reqs (record w { queue = q }) ≡ some (w', effects)
        → loop fuel reads mets (n + length reqs) w' ≡ some (w'', effects')
        → loop (suc fuel) reads mets n w ≡ some (w'', effects ++ effects')
  unfolding loop
  loop-batch fuel reads n w w' w'' effects effects' h e e' =
      rw (h, loop) (rw e (ap (after effects) e'))

  pub loop-idle :
      (fuel : ℕ) (reads : List Bool) (n : ℕ) (w : Worker)
      → let (reqs, q) = try_dequeue_batch w.queue worker_batch_size in
        ltb 0 (length reqs) ≡ false
        → loop (suc fuel) (true ∷ reads) mets n w ≡ loop fuel reads mets n (record w { queue = q })
  unfolding loop
  loop-idle fuel reads n w h = rw (h, loop) refl

  pub loop-ends :
      (fuel : ℕ) (reads : List Bool) (n : ℕ) (w : Worker)
      → let (reqs, q) = try_dequeue_batch w.queue worker_batch_size in
        let (reqs', q') = try_dequeue_batch q worker_batch_size in
        ltb 0 (length reqs) ≡ false
        → length reqs' ≡ 0
        → loop (suc fuel) (false ∷ reads) mets n w ≡ some (record w { queue = q' }, [])
  unfolding loop
  loop-ends fuel reads n w h h' = rw (h, h', loop) refl
