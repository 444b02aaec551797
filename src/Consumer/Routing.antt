-- ===== src/Consumer/Routing.antt =====
-- What becomes of a message: the verdict, and the queue that gets the intent.
use native.Mathlib.Nat.{mod-lt}
use flashsale_system_imitati.Prelude.{
  Option, none, some, inl, inr, Option-cases, ℕ, zero, suc, ◌<◌, ◌≡◌, refl, ap, ◌∙◌, ◌++◌, false,
  none, some, List, [], ◌∷◌, length, ltb, ◌==◌, if◌then◌else◌, Default, arith, inl, inr, Bool-cases,
}
use flashsale_system_imitati.Fifo
use flashsale_system_imitati.Spsc
use flashsale_system_imitati.Spsc.{SpscQueue}
use flashsale_system_imitati.Consumer.{
  Chars, OrderIntent, parse_intent, route_index, consumer_workers, Verdict, ack, term,
  enqueue_intent, consume,
}

instance abbrev pub intent_default : Default OrderIntent
intent_default = record {
  dflt = record { request_id = 0; user_id = 0; sku_id = 0; qty = 0; ts_ns = 0 };
}

abbrev Queues : Type 0
Queues = List (SpscQueue OrderIntent)

abbrev pub AllQueues : Queues → Type 0
AllQueues [] = Unit
AllQueues (q ∷ qs) = Spsc.Inv.IsValid q × AllQueues qs

-- The intents that wait for worker `i`, and the capacity of its queue.
abbrev pub waiting_for : ℕ → Queues → List OrderIntent
waiting_for i [] = []
waiting_for zero (q ∷ qs) = Spsc.Refine.contents q
waiting_for (suc i) (q ∷ qs) = waiting_for i qs

abbrev pub capacity_of : ℕ → Queues → ℕ
capacity_of i [] = 0
capacity_of zero (q ∷ qs) = Spsc.Refine.capacity q
capacity_of (suc i) (q ∷ qs) = capacity_of i qs

enqueue_intent-eq :
    (i : ℕ) (o : OrderIntent) (qs : Queues)
    → AllQueues qs
    → i < length qs
    → (((enqueue_intent i o qs).0, waiting_for i (enqueue_intent i o qs).1)
        ≡ Fifo.push (capacity_of i qs) (waiting_for i qs) o)
      × ((j : ℕ) → (j == i) ≡ false → waiting_for j (enqueue_intent i o qs).1 ≡ waiting_for j qs)
      × AllQueues (enqueue_intent i o qs).1
unfolding enqueue_intent
enqueue_intent-eq i o [] v h = absurd (omega arith)
enqueue_intent-eq zero o (q ∷ qs) v h = (
  Spsc.Refine.try_enqueue_refines o v.0,
  first (Spsc.try_enqueue q o).1,
  (Spsc.Inv.try_enqueue-IsValid o v.0, v.1),
)
  where
    first :
        (q' : SpscQueue OrderIntent) (j : ℕ)
        → (j == 0) ≡ false
        → waiting_for j (q' ∷ qs) ≡ waiting_for j (q ∷ qs)
    first q' zero ne = absurd (ground arith)
    first q' (suc j) ne = refl
enqueue_intent-eq (suc i) o (q ∷ qs) v h =
    let (own, others, v') = enqueue_intent-eq i o qs v.1 (omega arith) in
    (own, rest (enqueue_intent i o qs).1 others, (v.0, v'))
  where
    rest :
        (qs' : Queues)
        → ((j : ℕ) → (j == i) ≡ false → waiting_for j qs' ≡ waiting_for j qs)
        → (j : ℕ) → (j == suc i) ≡ false
        → waiting_for j (q ∷ qs') ≡ waiting_for j (q ∷ qs)
    rest qs' others zero ne = refl
    rest qs' others (suc j) ne = others j (ground arith)

-- The verdict on an intent, and what the queue of its worker holds afterwards.
abbrev pub Routed : OrderIntent → Queues → Verdict × Queues → Type 0
Routed o qs (verdict, qs') =
    let i = route_index o consumer_workers in
    let after : Verdict × List OrderIntent = (verdict, waiting_for i qs') in
    (after ≡ (
      if ltb (length (waiting_for i qs)) (capacity_of i qs)
      then (ack, waiting_for i qs ++ (o ∷ []))
      else (term, waiting_for i qs)))
    × ((j : ℕ) → (j == i) ≡ false → waiting_for j qs' ≡ waiting_for j qs)
    × AllQueues qs'

route_index-lt : (o : OrderIntent) → route_index o consumer_workers < consumer_workers
unfolding route_index
route_index-lt o = mod-lt _ (omega arith)

verdict-push :
    (n : ℕ) (xs : List OrderIntent) (o : OrderIntent)
    → let after : Verdict × List OrderIntent =
        (if (Fifo.push n xs o).0 then ack else term, (Fifo.push n xs o).1) in
      after ≡ (if ltb (length xs) n then (ack, xs ++ (o ∷ [])) else (term, xs))
unfolding Fifo.push
verdict-push n xs o = elim (Bool-cases (ltb (length xs) n)) [
  | inl t ↦ rw t refl
  | inr f ↦ rw f refl
]

-- What becomes of a message, by what its payload parses to.
abbrev pub Consumed : Queues → Option OrderIntent → Verdict × Queues → Type 0
Consumed qs none out = out ≡ (term, qs)
Consumed qs (some o) out = Routed o qs out

-- With four valid queues, a message that does not parse is rejected and changes nothing. One that parses
-- is acknowledged exactly if the queue of its worker has room, and is then the last in it; else it is
-- rejected and that queue stays as it is. No other queue changes, and all queues stay valid.
pub consume-Consumed :
    (payload : Chars) (qs : Queues)
    → AllQueues qs
    → length qs ≡ consumer_workers
    → Consumed qs (parse_intent payload) (consume payload qs)
unfolding consume
consume-Consumed payload qs v n = elim (Option-cases (parse_intent payload)) [
  | inl e ↦ rw (e, consume) refl
  | inr (o, e) ↦ rw (e, consume) (routed o)
]
  where
    routed :
        (o : OrderIntent)
        → Routed o qs (
          if (enqueue_intent (route_index o consumer_workers) o qs).0 then ack else term,
          (enqueue_intent (route_index o consumer_workers) o qs).1,
        )
    routed o =
        let i = route_index o consumer_workers in
        let (own, others, v') = enqueue_intent-eq i o qs v (omega (arith, n, route_index-lt o)) in
        (
          ap (λ out. (if out.0 then ack else term, out.1)) own
              ∙ verdict-push (capacity_of i qs) (waiting_for i qs) o,
          others,
          v',
        )
