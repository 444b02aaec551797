-- ===== src/OrderWorker/Workers.antt =====
-- A worker's action keeps the invariant.
use flashsale_system_imitati.Prelude.{
  ℕ, ◌≡◌, refl, ap, sym, ◌∙◌, subst, Bool, true, false, List, [], ◌∷◌, if◌then◌else◌, inl, inr,
  Bool-cases, Option, some, none, get_elem?, set,
}
use flashsale_system_imitati.Prelude.Dict.{contains}
use flashsale_system_imitati.Fifo
use flashsale_system_imitati.OrderWorker.{
  OrderIntent, Consumer, polls, looks, retries, holds, counted, writes, drops, ended, QueueOps,
  System, try_mark, dequeue, consume,
}
use flashsale_system_imitati.OrderWorker.Queue.{QueueLaws}
use flashsale_system_imitati.OrderWorker.Inv.{
  holding, busy, writing, dropping, having, at_end, IsSystem,
}
use flashsale_system_imitati.OrderWorker.Polls.{polls-empty, retries-empty, dequeue-some, looks-Is}
use flashsale_system_imitati.OrderWorker.Marks.{
  counted-new, counted-seen, holds-Is, writes-Is, drops-Is,
}

-- A move that can be made keeps the invariant.
abbrev pub Survives : {Q : Type 0} {ops : QueueOps Q} → QueueLaws ops → Option (System Q) → Type 0
Survives laws none = Unit
Survives laws (some s) = IsSystem laws s

module _ {Q : Type 0} (ops : QueueOps Q) (laws : QueueLaws ops) (s : System Q) (v : IsSystem laws s)
    (wid : ℕ) where
  dequeue-Is :
      (w w' : Consumer)
      → get_elem? s.workers wid ≡ some w
      → (holding w ≡ 0)
        × (busy w ≡ 0)
        × (at_end w ≡ 0)
        × ((x : ℕ) → (writing x w ≡ 0) × (having x w ≡ 0) × (dropping x w ≡ 0))
      → ((q : Q)
          → laws.contents s.queue ≡ []
          → laws.contents q ≡ []
          → IsSystem laws (record s { queue = q; workers = set s.workers wid w' }))
      → IsSystem laws (dequeue ops wid w' s)
  unfolding dequeue
  dequeue-Is w w' at light empty = elim (Fifo.pop_cases (laws.contents s.queue)) [
    | inl (e, p) ↦
        let law = laws.try_dequeue-pop s.queue ∙ p in
        rw (ap (λ o. o.0) law, dequeue) (empty (ops.try_dequeue s.queue).1 e (ap (λ o. o.1) law))
    | inr (intent, rest, e, p) ↦
        let law = laws.try_dequeue-pop s.queue ∙ p in
        rw (ap (λ o. o.0) law, dequeue)
          (dequeue-some laws s v wid (ops.try_dequeue s.queue).1 intent w at light
            (e ∙ ap (λ xs. intent ∷ xs) (sym (ap (λ o. o.1) law))))
  ]

  abbrev After : OrderIntent → Bool × List ℕ → Type 0
  After intent o = IsSystem laws (record s {
    idem = o.1;
    workers = set s.workers wid (if o.0 then writes intent else drops intent);
  })

  marked_once : (x : ℕ) → contains x s.idem ≡ false → try_mark x s.idem ≡ (true, x ∷ s.idem)
  unfolding try_mark
  marked_once x f = rw f refl

  marked_twice : (x : ℕ) → contains x s.idem ≡ true → try_mark x s.idem ≡ (false, s.idem)
  unfolding try_mark
  marked_twice x t = rw t refl

  pub consume-Survives :
      (w : Consumer) → get_elem? s.workers wid ≡ some w → Survives laws (consume ops wid w s)
  unfolding consume try_mark
  consume-Survives polls at =
      dequeue-Is polls looks at (refl, refl, refl, λ x. (refl, refl, refl))
        (λ q. polls-empty laws s v wid q at)
  consume-Survives retries at =
      dequeue-Is retries ended at (refl, refl, refl, λ x. (refl, refl, refl))
        (λ q. retries-empty laws s v wid q at)
  consume-Survives looks at =
      looks-Is laws s v wid (if s.producers_done then retries else polls) at
        (elim (Bool-cases s.producers_done) [
          | inl t ↦ inr (ap (λ b. if b then retries else polls) t, t)
          | inr f ↦ inl (ap (λ b. if b then retries else polls) f)
        ])
  consume-Survives (holds intent) at = holds-Is laws s v wid intent at
  consume-Survives (counted intent) at = elim (Bool-cases (contains intent.request_id s.idem)) [
    | inl t ↦
        subst (After intent) (sym (marked_twice intent.request_id t))
          (counted-seen laws s v wid intent at t)
    | inr f ↦
        subst (After intent) (sym (marked_once intent.request_id f))
          (counted-new laws s v wid intent at f)
  ]
  consume-Survives (writes intent) at = writes-Is laws s v wid intent at
  consume-Survives (drops intent) at = drops-Is laws s v wid intent at
  consume-Survives ended at = tt
