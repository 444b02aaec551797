-- ===== src/Engine/Enqueue.antt =====
-- `EnqueueRequest`: what it answers, and where the request goes.
use native.Mathlib.Nat.{mod-lt}
use flashsale_system_imitati.Prelude.{
  ℕ, zero, suc, ◌+◌, ◌%◌, ◌^◌, ◌<◌, ◌≡◌, refl, ap, ◌∙◌, ◌++◌, Bool, true, false, not, some, List,
  [], ◌∷◌, length, ltb, ◌==◌, if◌then◌else◌, inl, inr, Bool-cases, arith, subst,
}
use flashsale_system_imitati.Prelude.Int.{ℤ, pos, eqb_ℤ, abs}
use flashsale_system_imitati.Fifo
use flashsale_system_imitati.Messages.{
  CSeckillRequest, Request, request_default, worker_request_default,
}
use flashsale_system_imitati.Mpmc
use flashsale_system_imitati.Mpmc.Inv.{HasRoom, Succeeds}
use flashsale_system_imitati.Mpmc.Enqueue.{try_enqueue_refines}
use flashsale_system_imitati.Lane.{Lane, accept}
use flashsale_system_imitati.Lane.Kept.{IsLane}
use flashsale_system_imitati.Engine.{
  Engine, worker_count, shard_index, enqueue_at, enqueue, sold_out, ingress_request,
  enqueue_request,
}

-- Every lane is valid, with positions below the sign bit of `intptr_t`.
abbrev pub AllLanes : ℕ → List Lane → Type 0
AllLanes k [] = Unit
AllLanes k (l ∷ ls) = IsLane k l × HasRoom k l.queue 0 × AllLanes k ls

pub record IsEngine (k : ℕ) (e : Engine) : Type 0 where
  pub lanes_valid : AllLanes k e.lanes
  pub lane_count : length e.lanes ≡ worker_count

-- The requests that wait for the dispatcher of shard `i`, oldest first.
abbrev pub waiting_at : ℕ → ℕ → List Lane → List Request
waiting_at k i [] = []
waiting_at k zero (l ∷ ls) = Mpmc.Inv.contents k l.queue
waiting_at k (suc i) (l ∷ ls) = waiting_at k i ls

-- The shard's FIFO after a request, and whether it went in.
abbrev shard_push : ℕ → List Request → Request → Bool × List Request
shard_push k xs req = Fifo.push (2 ^ k) xs req

enqueue_at-eq :
    (k i : ℕ) (rounds : List Bool) (req : Request) (ls : List Lane)
    → AllLanes k ls
    → i < length ls
    → Succeeds rounds
    → (ls' : List Lane) × (enqueue_at i rounds req ls
        ≡ some ((shard_push k (waiting_at k i ls) req).0, ls'))
      × (waiting_at k i ls' ≡ (shard_push k (waiting_at k i ls) req).1)
      × ((j : ℕ) → (j == i) ≡ false → waiting_at k j ls' ≡ waiting_at k j ls)
      × AllLanes k ls'
      × (length ls' ≡ length ls)
unfolding enqueue_at accept
enqueue_at-eq k i rounds req [] v h s = absurd (omega arith)
enqueue_at-eq k zero rounds req (l ∷ ls) v h s =
    let (q', e, c, d, v') = try_enqueue_refines k l.queue v.0.queue_valid rounds req v.1 s in
    (
      record l { queue = q' } ∷ ls,
      rw (e, accept, enqueue_at) refl,
      c,
      first (record l { queue = q' }),
      (record { queue_valid = v'; worker_queue_valid = v.0.worker_queue_valid }, omega arith, v.2),
      refl,
    )
  where
    first :
        (l' : Lane) (j : ℕ) → (j == 0) ≡ false → waiting_at k j (l' ∷ ls) ≡ waiting_at k j (l ∷ ls)
    first l' zero ne = absurd (ground arith)
    first l' (suc j) ne = refl
enqueue_at-eq k (suc i) rounds req (l ∷ ls) v h s =
    let (ls', e, c, others, v', n) = enqueue_at-eq k i rounds req ls v.2 (omega arith) s in
    (l ∷ ls', rw (e, enqueue_at) refl, c, rest ls' others, (v.0, v.1, v'), ap suc n)
  where
    rest :
        (ls' : List Lane)
        → ((j : ℕ) → (j == i) ≡ false → waiting_at k j ls' ≡ waiting_at k j ls)
        → (j : ℕ) → (j == suc i) ≡ false
        → waiting_at k j (l ∷ ls') ≡ waiting_at k j (l ∷ ls)
    rest ls' others zero ne = refl
    rest ls' others (suc j) ne = others j (ground arith)

-- What `EnqueueRequest` should answer.
abbrev pub answer : ℕ → CSeckillRequest → Engine → ℤ
answer k creq e =
    if not e.running
    then pos 0
    else if sold_out creq.sku_id e
    then pos 2
    else if ltb (length (waiting_at k (shard_index creq.sku_id) e.lanes)) (2 ^ k)
    then pos 1
    else pos 0

-- A call after which the engine is `e'`, with the answer `out`: where it is 1, `req` has gone to the
-- end of its shard's queue, and nothing else has changed in the queues.
pub record Admitted (k : ℕ) (req : Request) (e e' : Engine) (out : ℤ) : Type 0 where
  pub own_shard : waiting_at k (shard_index req.sku_id) e'.lanes ≡ (
      if eqb_ℤ out (pos 1)
      then waiting_at k (shard_index req.sku_id) e.lanes ++ (req ∷ [])
      else waiting_at k (shard_index req.sku_id) e.lanes)
  pub others :
      (j : ℕ)
      → (j == shard_index req.sku_id) ≡ false
      → waiting_at k j e'.lanes ≡ waiting_at k j e.lanes
  pub valid : IsEngine k e'
  pub counted :
      e'.enqueue_count
      ≡ (if eqb_ℤ out (pos 1) then (e.enqueue_count + 1) % 2 ^ 64 else e.enqueue_count)

pub shard_index-lt : (sku_id : ℤ) → shard_index sku_id < worker_count
unfolding shard_index
shard_index-lt sku_id = mod-lt (abs sku_id) (omega arith)

not-Admitted :
    (k : ℕ) (req : Request) (e : Engine) (out : ℤ)
    → eqb_ℤ out (pos 1) ≡ false
    → IsEngine k e
    → Admitted k req e e out
not-Admitted k req e out h v = record {
  own_shard = rw h refl;
  others = λ j ne. refl;
  valid = v;
  counted = rw h refl;
}

push-room :
    (n : ℕ) (xs : List Request) (x : Request)
    → ltb (length xs) n ≡ true
    → Fifo.push n xs x ≡ (true, xs ++ (x ∷ []))
unfolding Fifo.push
push-room n xs x t = rw t refl

push-full :
    (n : ℕ) (xs : List Request) (x : Request)
    → ltb (length xs) n ≡ false
    → Fifo.push n xs x ≡ (false, xs)
unfolding Fifo.push
push-full n xs x f = rw f refl

pub enqueue-Admitted :
    (k : ℕ) (rounds : List Bool) (req : Request) (e : Engine)
    → IsEngine k e
    → Succeeds rounds
    → let room = ltb (length (waiting_at k (shard_index req.sku_id) e.lanes)) (2 ^ k) in
      (e' : Engine) × (enqueue rounds req e ≡ some (room, e'))
      × Admitted k req e e' (if room then pos 1 else pos 0)
unfolding enqueue
enqueue-Admitted k rounds req e v s =
    let (ls', eq, own, others, v', n) =
      enqueue_at-eq k (shard_index req.sku_id) rounds req e.lanes v.lanes_valid
        (omega (arith, v.lane_count, shard_index-lt req.sku_id)) s in
    let xs = waiting_at k (shard_index req.sku_id) e.lanes in
    elim (Bool-cases (ltb (length xs) (2 ^ k))) [
      | inl t ↦ rw t (
        record e { lanes = ls'; enqueue_count = (e.enqueue_count + 1) % 2 ^ 64 },
        rw (eq, push-room (2 ^ k) xs req t, enqueue) refl,
        record {
          own_shard = own ∙ ap (λ o. o.1) (push-room (2 ^ k) xs req t);
          others = others;
          valid = record { lanes_valid = v'; lane_count = n ∙ v.lane_count };
          counted = refl;
        },
      )
      | inr f ↦ rw f (
        record e { lanes = ls' },
        rw (eq, push-full (2 ^ k) xs req f, enqueue) refl,
        record {
          own_shard = own ∙ ap (λ o. o.1) (push-full (2 ^ k) xs req f);
          others = others;
          valid = record { lanes_valid = v'; lane_count = n ∙ v.lane_count };
          counted = refl;
        },
      )
    ]

-- On a valid engine, where the loop of `try_enqueue` ends, `EnqueueRequest` answers 0 if the engine does
-- not run, else 2 if the SKU's flag is set, else 1 if the queue of the SKU's shard has room and 0 if it
-- is full. With the answer 1 the request, stamped, is the last in that queue and is counted; with another
-- answer no queue changes. The queues of the other shards never change, and the engine stays valid.
pub enqueue_request-Admitted :
    (k : ℕ) (rounds : List Bool) (uninit : Request) (now : ℤ) (creq : CSeckillRequest) (e : Engine)
    → IsEngine k e
    → Succeeds rounds
    → (e' : Engine) × (enqueue_request rounds uninit now creq e ≡ some (answer k creq e, e'))
      × Admitted k (ingress_request uninit now creq) e e' (answer k creq e)
unfolding enqueue_request ingress_request
enqueue_request-Admitted k rounds uninit now creq e v s =
    let (e', eq, ok) = enqueue-Admitted k rounds (ingress_request uninit now creq) e v s in
    elim (Bool-cases e.running) [
      | inr off ↦ (
        e,
        simp (off, enqueue_request),
        subst (λ out. Admitted k req e e out) (simp off) (not-Admitted k req e (pos 0) refl v),
      )
      | inl on ↦ elim (Bool-cases (sold_out creq.sku_id e)) [
        | inl gone ↦ (
          e,
          simp (on, gone, enqueue_request),
          subst (λ out. Admitted k req e e out) (simp (on, gone))
              (not-Admitted k req e (pos 2) refl v),
        )
        | inr some_left ↦ elim (Bool-cases room) [
          | inl t ↦ (
            e',
            simp (on, some_left, eq, t, enqueue_request, ingress_request),
            subst (λ out. Admitted k req e e' out) (simp (on, some_left, t)) ok,
          )
          | inr f ↦ (
            e',
            simp (on, some_left, eq, f, enqueue_request, ingress_request),
            subst (λ out. Admitted k req e e' out) (simp (on, some_left, f)) ok,
          )
        ]
      ]
    ]
  where
    req : Request
    req = ingress_request uninit now creq

    room : Bool
    room = ltb (length (waiting_at k (shard_index creq.sku_id) e.lanes)) (2 ^ k)
