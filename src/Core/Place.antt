-- ===== src/Core/Place.antt =====
-- The loop that enqueues a result ends when a try finds a place.
use flashsale_system_imitati.Prelude.{
  ℕ, suc, ◌≡◌, ◌<◌, ◌+◌, ◌^◌, ◌⊎◌, refl, ◌∙◌, Bool, Option, none, some, List, [], ◌∷◌, ◌++◌, length,
  arith, inl, inr, dec_lt, subst,
}
use flashsale_system_imitati.Fifo
use flashsale_system_imitati.Messages.{WorkerRequest}
use flashsale_system_imitati.Mpmc
use flashsale_system_imitati.Mpmc.{MpmcQueue}
use flashsale_system_imitati.Mpmc.Inv.{HasRoom, Succeeds}
use flashsale_system_imitati.Worker.{Shared, Worker}
use flashsale_system_imitati.Core.{CSeckillResult, result_default}
use flashsale_system_imitati.Core.Process.{process}
use flashsale_system_imitati.Core.Loop.{
  Met, Effect, put_result, notify_result, process_request, process_all,
}
use flashsale_system_imitati.Core.Dressed.{process_each}

module _ (k : ℕ) where
  -- Each call of `try_enqueue` meets a valid queue and ends, and one of them meets a queue that is not
  -- full: somebody polls.
  abbrev pub FindsPlace : List (List Bool × MpmcQueue CSeckillResult) → Type 0
  FindsPlace [] = ⊥
  FindsPlace ((rounds, q) ∷ tries) =
      Mpmc.Inv.IsValid k q
      × HasRoom k q 0
      × Succeeds rounds
      × ((length (Mpmc.Inv.contents k q) < 2 ^ k) ⊎ FindsPlace tries)

  -- The result went in behind the items of the queue that the first try met which found a place.
  abbrev pub Placed :
      List (List Bool × MpmcQueue CSeckillResult)
      → CSeckillResult
      → MpmcQueue CSeckillResult
      → Type 0
  Placed [] res q' = ⊥
  Placed ((rounds, q) ∷ tries) res q' =
      ((Mpmc.Inv.contents k q' ≡ Mpmc.Inv.contents k q ++ (res ∷ []))
        × (length (Mpmc.Inv.contents k q) < 2 ^ k)
        × Mpmc.Inv.IsValid k q')
      ⊎ (¬ (length (Mpmc.Inv.contents k q) < 2 ^ k) × Placed tries res q')

  pub put_result-Placed :
      (tries : List (List Bool × MpmcQueue CSeckillResult)) (res : CSeckillResult)
      → FindsPlace tries
      → (q' : MpmcQueue CSeckillResult) × (put_result tries res ≡ some q') × Placed tries res q'
  unfolding put_result Fifo.push
  put_result-Placed [] res f = absurd f
  put_result-Placed ((rounds, q) ∷ tries) res f =
      let (q', e, now, start, v) = Mpmc.Enqueue.try_enqueue_refines k q f.0 rounds res f.1 f.2 in
      elim (dec_lt (length (Mpmc.Inv.contents k q)) (2 ^ k)) [
        | yes lt ↦ (q', rw (e, put_result) (ground arith), inl (now ∙ ground arith, lt, v))
        | no full ↦
            let (q'', e', p) = put_result-Placed tries res (later f.3 full) in
            (q'', rw (e, put_result) (ground (arith, e')), inr (full, p))
      ]
    where
      later :
          (length (Mpmc.Inv.contents k q) < 2 ^ k) ⊎ FindsPlace tries
          → ¬ (length (Mpmc.Inv.contents k q) < 2 ^ k)
          → FindsPlace tries
      later (inl lt) full = absurd (full lt)
      later (inr rest) full = rest

  abbrev pub IsEffect : Met → Shared × Option CSeckillResult → Effect → Type 0
  IsEffect met (sh, none) effect =
      (effect.shared ≡ sh) × (effect.result ≡ none) × (effect.result_queue ≡ none)
  IsEffect met (sh, some res) effect =
      (effect.shared ≡ sh)
      × (effect.result ≡ some res)
      × ((q' : MpmcQueue CSeckillResult) × (effect.result_queue ≡ some q')
          × Placed met.tries res q')

  -- What `Process` did to the requests from number `n` on are the effects.
  abbrev pub AreEffects :
      (ℕ → Met) → ℕ → List (Shared × Option CSeckillResult) → List Effect → Type 0
  AreEffects mets n [] [] = Unit
  AreEffects mets n [] (e ∷ es) = ⊥
  AreEffects mets n (o ∷ os) [] = ⊥
  AreEffects mets n (o ∷ os) (e ∷ es) = IsEffect (mets n) o e × AreEffects mets (suc n) os es

  pub AreEffects-append :
      (mets : ℕ → Met) (n m : ℕ) (os os' : List (Shared × Option CSeckillResult))
      (es es' : List Effect)
      → m ≡ n + length os
      → AreEffects mets n os es
      → AreEffects mets m os' es'
      → AreEffects mets n (os ++ os') (es ++ es')
  AreEffects-append mets n m [] os' [] es' h a b =
      subst (λ m. AreEffects mets m os' es') (omega arith) b
  AreEffects-append mets n m [] os' (e ∷ es) es' h a b = absurd a
  AreEffects-append mets n m (o ∷ os) os' [] es' h a b = absurd a
  AreEffects-append mets n m (o ∷ os) os' (e ∷ es) es' h a b =
      (a.0, AreEffects-append mets (suc n) m os os' es es' (omega arith) a.1 b)

  notify_result-IsEffect :
      (met : Met) (w : Worker) (sh : Shared) (out : Option CSeckillResult)
      → FindsPlace met.tries
      → (effect : Effect) × (notify_result met.tries w sh out ≡ some (w, effect))
        × IsEffect met (sh, out) effect
  unfolding notify_result
  notify_result-IsEffect met w sh none f = (_, refl, (refl, refl, refl))
  notify_result-IsEffect met w sh (some res) f =
      let (q', put, p) = put_result-Placed met.tries res f in
      (_, rw (put, notify_result) refl, (refl, refl, (q', refl, p)))

  process_request-IsEffect :
      (met : Met) (req : WorkerRequest) (w : Worker)
      → FindsPlace met.tries
      → let (w', sh', out) = process met.env w met.shared req in
        (effect : Effect) × (process_request met req w ≡ some (w', effect))
        × IsEffect met (sh', out) effect
  unfolding process_request
  process_request-IsEffect met req w f =
      notify_result-IsEffect met (process met.env w met.shared req).0
        (process met.env w met.shared req).1 (process met.env w met.shared req).2 f

  pub process_all-AreEffects :
      (mets : ℕ → Met) (n : ℕ) (reqs : List WorkerRequest) (w : Worker)
      → ((n : ℕ) → FindsPlace (mets n).tries)
      → let (w', outs) = process_each mets n reqs w in
        (effects : List Effect) × (process_all mets n reqs w ≡ some (w', effects))
        × AreEffects mets n outs effects
  unfolding process_all
  process_all-AreEffects mets n [] w f = ([], refl, tt)
  process_all-AreEffects mets n (req ∷ reqs) w f =
      let (effect, e, a) = process_request-IsEffect (mets n) req w (f n) in
      let (effects, es, done) =
        process_all-AreEffects mets (suc n) reqs (process (mets n).env w (mets n).shared req).0 f in
      (effect ∷ effects, rw (e, process_all) (rw es refl), (a, done))
