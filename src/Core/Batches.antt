-- ===== src/Core/Batches.antt =====
-- `EnqueueBatch`: how many of the requests go in.
use flashsale_system_imitati.Prelude.{
  ℕ, suc, ◌+◌, ◌-◌, ◌^◌, ◌≡◌, refl, ap, sym, ◌∙◌, ◌++◌, Bool, true, false, some, List, [], ◌∷◌,
  length, arith, take, min, map, inl, inr, Bool-cases, ltb, append-nil, append_assoc, length-append,
  take-nil,
}
use flashsale_system_imitati.Fifo
use flashsale_system_imitati.Mpmc
use flashsale_system_imitati.Mpmc.{MpmcQueue}
use flashsale_system_imitati.Mpmc.Inv.{HasRoom, Succeeds}
use flashsale_system_imitati.Mpmc.Enqueue.{try_enqueue_refines}
use flashsale_system_imitati.Core.{CSeckillRequest, Request, request_default, to_request, Engine}
use flashsale_system_imitati.Core.Api.{enqueue_all, enqueue_batch}

-- In each call, some round of the loop ends it.
abbrev pub AllSucceed : List (List Bool × CSeckillRequest) → Type 0
AllSucceed [] = Unit
AllSucceed (req ∷ reqs) = Succeeds req.0 × AllSucceed reqs

abbrev pub as_requests : List (List Bool × CSeckillRequest) → List Request
as_requests reqs = map (λ req. to_request req.1) reqs

-- What a bounded FIFO of 2^k places, with `xs` in it, takes of `reqs`.
abbrev room : ℕ → List Request → ℕ
room k xs = 2 ^ k - length xs

module _ (k : ℕ) where
  abbrev Takes : List (List Bool × CSeckillRequest) → MpmcQueue Request → Type 0
  Takes reqs q =
      let n = min (length reqs) (room k (Mpmc.Inv.contents k q)) in
      (q' : MpmcQueue Request) × (enqueue_all reqs q ≡ some (n, q'))
      × (Mpmc.Inv.contents k q' ≡ Mpmc.Inv.contents k q ++ take n (as_requests reqs))
      × Mpmc.Inv.IsValid k q'

  enqueue_all-in :
      (rounds : List Bool) (creq : CSeckillRequest) (reqs : List (List Bool × CSeckillRequest))
      (q q' q'' : MpmcQueue Request) (n : ℕ)
      → Mpmc.try_enqueue rounds q (to_request creq) ≡ some (true, q')
      → enqueue_all reqs q' ≡ some (n, q'')
      → enqueue_all ((rounds, creq) ∷ reqs) q ≡ some (suc n, q'')
  unfolding enqueue_all
  enqueue_all-in rounds creq reqs q q' q'' n h h' = rw (h, enqueue_all) (rw h' refl)

  enqueue_all-full :
      (rounds : List Bool) (creq : CSeckillRequest) (reqs : List (List Bool × CSeckillRequest))
      (q q' : MpmcQueue Request)
      → Mpmc.try_enqueue rounds q (to_request creq) ≡ some (false, q')
      → enqueue_all ((rounds, creq) ∷ reqs) q ≡ some (0, q')
  unfolding enqueue_all
  enqueue_all-full rounds creq reqs q q' h = rw (h, enqueue_all) refl

  enqueue_all-Takes :
      (reqs : List (List Bool × CSeckillRequest)) (q : MpmcQueue Request)
      → Mpmc.Inv.IsValid k q
      → HasRoom k q (length reqs)
      → AllSucceed reqs
      → Takes reqs q
  unfolding enqueue_all Fifo.push
  enqueue_all-Takes [] q v r s = (
    q,
    ap (λ n. some (n, q)) (omega arith),
    sym (ap (λ xs. Mpmc.Inv.contents k q ++ xs) (take-nil Request _) ∙ append-nil _),
    v,
  )
  enqueue_all-Takes ((rounds, creq) ∷ reqs) q v r s =
      let (q', eq, c, d, v') =
        try_enqueue_refines k q v rounds (to_request creq) (omega arith) s.0 in
      let xs = Mpmc.Inv.contents k q in
      elim (Bool-cases (ltb (length xs) (2 ^ k))) [
        | inl t ↦
            let grown : Mpmc.Inv.contents k q' ≡ xs ++ (to_request creq ∷ []) = c ∙ rw t refl in
            let (q'', eq', c', v'') = enqueue_all-Takes reqs q' v' (omega (arith, d)) s.1 in
            let n = min (length reqs) (room k (Mpmc.Inv.contents k q')) in
            let counted : suc n ≡ min (suc (length reqs)) (room k xs) =
              one_more t (length (Mpmc.Inv.contents k q'))
                (ap length grown ∙ length-append xs (to_request creq ∷ [])) in
            (
              q'',
              enqueue_all-in rounds creq reqs q q' q'' n (eq ∙ ap (λ b. some (b, q')) (rw t refl))
                    eq'
                  ∙ ap (λ m. some (m, q'')) counted,
              c'
                  ∙ ap (λ ys. ys ++ take n (as_requests reqs)) grown
                  ∙ append_assoc xs (to_request creq ∷ []) (take n (as_requests reqs))
                  ∙ ap (λ m. xs ++ take m (as_requests ((rounds, creq) ∷ reqs))) counted,
              v'',
            )
        | inr f ↦
            let counted : 0 ≡ min (suc (length reqs)) (room k xs) = no_more f in
            (
              q',
              enqueue_all-full rounds creq reqs q q' (eq ∙ ap (λ b. some (b, q')) (rw f refl))
                  ∙ ap (λ m. some (m, q')) counted,
              c
                  ∙ rw f (sym (append-nil xs))
                  ∙ ap (λ m. xs ++ take m (as_requests ((rounds, creq) ∷ reqs))) counted,
              v',
            )
      ]
    where
      one_more :
          ltb (length (Mpmc.Inv.contents k q)) (2 ^ k) ≡ true
          → (l : ℕ) → l ≡ length (Mpmc.Inv.contents k q) + 1
          → suc (min (length reqs) (2 ^ k - l))
            ≡ min (suc (length reqs)) (room k (Mpmc.Inv.contents k q))
      one_more t l h = ground arith

      no_more :
          ltb (length (Mpmc.Inv.contents k q)) (2 ^ k) ≡ false
          → 0 ≡ min (suc (length reqs)) (room k (Mpmc.Inv.contents k q))
      no_more f = ground arith

-- `EnqueueBatch` on an engine that runs: exactly the first requests go in, behind those that wait and in
-- their order, as many as the queue has free places for, and it answers how many they are; a request with
-- a sold-out SKU is no exception. The loop of each call must end, and the queue's positions must stay
-- below the sign bit of `intptr_t`.
pub enqueue_batch-takes :
    (k : ℕ) (reqs : List (List Bool × CSeckillRequest)) (e : Engine)
    → Mpmc.Inv.IsValid k e.queue
    → e.running ≡ true
    → HasRoom k e.queue (length reqs)
    → AllSucceed reqs
    → let n = min (length reqs) (2 ^ k - length (Mpmc.Inv.contents k e.queue)) in
      (q : MpmcQueue Request) × (enqueue_batch reqs e ≡ some (n, record e { queue = q }))
      × (Mpmc.Inv.contents k q ≡ Mpmc.Inv.contents k e.queue ++ take n (as_requests reqs))
      × Mpmc.Inv.IsValid k q
unfolding enqueue_batch
enqueue_batch-takes k reqs e v on r s =
    let (q, eq, c, v') = enqueue_all-Takes k reqs e.queue v r s in
    (q, simp (on, eq, enqueue_batch), c, v')
