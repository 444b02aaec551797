-- ===== src/Lane/Stock.antt =====
-- The stock of a lane's worker, whatever the order in which the lane's threads move.
use flashsale_system_imitati.Prelude.{
  ℕ, ◌≡◌, refl, sym, subst, ◌++◌, Bool, true, false, Option, none, some, List, [], ◌∷◌, length,
  Bool-cases, Option-cases, List-cases, inl, inr, arith,
}
use flashsale_system_imitati.Prelude.Int.{ℤ}
use flashsale_system_imitati.Fifo.{option_list}
use flashsale_system_imitati.Messages.{
  Request, WorkerRequest, CSeckillResult, request_default, worker_request_default, result_default,
  to_worker_request,
}
use flashsale_system_imitati.Spsc
use flashsale_system_imitati.Mpmc
use flashsale_system_imitati.Mpmc.Inv.{HasRoom}
use flashsale_system_imitati.Mpmc.{MpmcQueue}
use flashsale_system_imitati.Worker.{Shared, Env, process}
use flashsale_system_imitati.Worker.Stock.{
  IsOrder, IsStocked, StockKept, StockKept-trans, process-stock,
}
use flashsale_system_imitati.Lane.{
  Lane, Trace, silent, Move, accepts, dispatches, pushes, fetches, begins, handles, delivers,
  finishes, accept, dispatch, push, fetch, begin_batch, handle, deliver, finish, step, run, join,
}
use flashsale_system_imitati.Lane.Kept.{cores, in_flight, IsLane}
use flashsale_system_imitati.Lane.Order.{AllRun, step-Kept, run-join}

abbrev pub Orders : List WorkerRequest → Type 0
Orders [] = Unit
Orders (r ∷ rs) = IsOrder r × Orders rs

Orders-append : (xs ys : List WorkerRequest) → Orders xs → Orders ys → Orders (xs ++ ys)
Orders-append [] ys a b = b
Orders-append (x ∷ xs) ys a b = (a.0, Orders-append xs ys a.1 b)

Orders-split : (xs ys : List WorkerRequest) → Orders (xs ++ ys) → Orders xs × Orders ys
Orders-split [] ys h = (tt, h)
Orders-split (x ∷ xs) ys h = let (a, b) = Orders-split xs ys h.1 in ((h.0, a), b)

Orders-cores : (xs : List WorkerRequest) → Orders xs → Orders (cores xs)
Orders-cores [] h = tt
Orders-cores (x ∷ xs) h = (
  record { id_regular = h.0.id_regular; qty_nonneg = h.0.qty_nonneg; qty_fits = h.0.qty_fits },
  Orders-cores xs h.1,
)

Orders-of_cores : (xs : List WorkerRequest) → Orders (cores xs) → Orders xs
Orders-of_cores [] h = tt
Orders-of_cores (x ∷ xs) h = (
  record { id_regular = h.0.id_regular; qty_nonneg = h.0.qty_nonneg; qty_fits = h.0.qty_fits },
  Orders-of_cores xs h.1,
)

-- A request that a move offers to the lane is an order.
abbrev pub Offers : Move → Type 0
Offers (accepts rounds req) = IsOrder (to_worker_request req)
Offers _ = Unit

abbrev pub AllOffer : List Move → Type 0
AllOffer [] = Unit
AllOffer (move ∷ moves) = Offers move × AllOffer moves

-- What a move of `l` that comes to an end does to the stock.
abbrev Stocks : Lane → Option (Lane × Trace) → Type 0
Stocks l none = Unit
Stocks l (some (l', tr)) =
    Orders tr.accepted
    × (Orders tr.handled
        → IsStocked l.worker.inventory
        → StockKept l.worker.inventory l'.worker.inventory tr.results)

no_sale : (l l' : Lane) → l.worker.inventory ≡ l'.worker.inventory → Stocks l (some (l', silent))
no_sale l l' e = (tt, λ o s. (rw (← e) s, λ k. rw e (omega arith)))

module _ (l : Lane) where
  accepts-stock :
      (rounds : List Bool) (req : Request)
      → IsOrder (to_worker_request req)
      → Stocks l (step (accepts rounds req) l)
  unfolding step accept
  accepts-stock rounds req o = elim (Option-cases (Mpmc.try_enqueue rounds l.queue req)) [
    | inl e ↦ rw (e, accept, step) tt
    | inr ((true, q), e) ↦ rw (e, accept, step) ((o, tt), λ _ s. (s, λ k. omega arith))
    | inr ((false, q), e) ↦ rw (e, accept, step) (tt, λ _ s. (s, λ k. omega arith))
  ]

  dispatches-stock :
      (rounds : List Bool) (now now_push : ℤ) → Stocks l (step (dispatches rounds now now_push) l)
  unfolding step dispatch
  dispatches-stock rounds now now_push = elim (Option-cases l.held) [
    | inr (wreq, h) ↦ rw (h, dispatch, step) (no_sale l l refl)
    | inl h ↦ elim (Option-cases (Mpmc.try_dequeue rounds l.queue)) [
      | inl e ↦ rw (h, e, dispatch, step) tt
      | inr ((none, q), e) ↦ rw (h, e, dispatch, step) (tt, λ _ s. (s, λ k. omega arith))
      | inr ((some req, q), e) ↦ rw (h, e, dispatch, step) (tt, λ _ s. (s, λ k. omega arith))
    ]
  ]

  inventory-push : (push l).worker.inventory ≡ l.worker.inventory
  unfolding push
  inventory-push = elim (Option-cases l.held) [
    | inl h ↦ rw (h, push) refl
    | inr (wreq, h) ↦ elim (Bool-cases (Spsc.try_enqueue l.worker.queue wreq).0) [
      | inl t ↦ rw (h, t, push) refl
      | inr f ↦ rw (h, f, push) refl
    ]
  ]

  inventory-fetch : (now : ℤ) → (fetch now l).worker.inventory ≡ l.worker.inventory
  unfolding fetch
  inventory-fetch now = elim (List-cases l.batch) [
    | inr (x, rest, b) ↦ rw (b, fetch) refl
    | inl b ↦ elim (Bool-cases l.worker.is_processing) [
      | inl t ↦ rw (b, t, fetch) refl
      | inr f ↦ rw (b, f, fetch) refl
    ]
  ]

  inventory-begin_batch : (begin_batch l).worker.inventory ≡ l.worker.inventory
  unfolding begin_batch
  inventory-begin_batch = elim (List-cases l.batch) [
    | inr (x, rest, b) ↦ rw (b, begin_batch) refl
    | inl b ↦ rw (b, begin_batch) refl
  ]

  inventory-finish : (finish l).worker.inventory ≡ l.worker.inventory
  unfolding finish
  inventory-finish = elim (List-cases l.batch) [
    | inr (x, rest, b) ↦ rw (b, finish) refl
    | inl b ↦ elim (Option-cases l.outbox) [
      | inr (res, o) ↦ rw (b, o, finish) refl
      | inl o ↦ elim (Bool-cases l.worker.is_processing) [
        | inl t ↦ rw (b, o, t, finish) refl
        | inr f ↦ rw (b, o, f, finish) refl
      ]
    ]
  ]

  handles-stock : (env : Env) (sh : Shared) → Stocks l (step (handles env sh) l)
  unfolding step handle
  handles-stock env sh = elim (List-cases l.batch) [
    | inl b ↦ rw (b, handle, step) (no_sale l l refl)
    | inr (req, rest, b) ↦ elim (Option-cases l.outbox) [
      | inr (res, o) ↦ rw (b, o, handle, step) (no_sale l l refl)
      | inl o ↦ elim (Bool-cases l.worker.is_processing) [
        | inr f ↦ rw (b, o, handle, step) (rw f (no_sale l l refl))
        | inl t ↦
            subst (Stocks l) (sym (called req rest b o t))
              (tt, λ orders s. process-stock env l.worker sh req orders.0 s)
      ]
    ]
  ]
    where
      called :
          (req : WorkerRequest) (rest : List WorkerRequest)
          → l.batch ≡ req ∷ rest
          → l.outbox ≡ none
          → l.worker.is_processing ≡ true
          → step (handles env sh) l
            ≡ some (
              record l {
                worker = (process env l.worker sh req).0;
                batch = rest;
                outbox = (process env l.worker sh req).2;
              },
              record {
                accepted = [];
                handled = req ∷ [];
                results = option_list (process env l.worker sh req).2;
              },
            )
      called req rest b o t = rw (b, o, handle, step) (rw t refl)

  delivers-stock :
      (rounds : List Bool) (results : MpmcQueue CSeckillResult)
      → Stocks l (step (delivers rounds results) l)
  unfolding step deliver
  delivers-stock rounds results = elim (Option-cases l.outbox) [
    | inl o ↦ rw (o, deliver, step) (no_sale l l refl)
    | inr (res, o) ↦ elim (Option-cases (Mpmc.try_enqueue rounds results res)) [
      | inl e ↦ rw (o, e, deliver, step) tt
      | inr ((true, q), e) ↦ rw (o, e, deliver, step) (tt, λ _ s. (s, λ k. omega arith))
      | inr ((false, q), e) ↦ rw (o, e, deliver, step) (tt, λ _ s. (s, λ k. omega arith))
    ]
  ]

step-stock : (move : Move) (l : Lane) → Offers move → Stocks l (step move l)
unfolding step
step-stock (accepts rounds req) l o = accepts-stock l rounds req o
step-stock (dispatches rounds now now_push) l o = dispatches-stock l rounds now now_push
step-stock pushes l o = no_sale l (push l) (sym (inventory-push l))
step-stock (fetches now) l o = no_sale l (fetch now l) (sym (inventory-fetch l now))
step-stock begins l o = no_sale l (begin_batch l) (sym (inventory-begin_batch l))
step-stock (handles env sh) l o = handles-stock l env sh
step-stock (delivers rounds results) l o = delivers-stock l rounds results
step-stock finishes l o = no_sale l (finish l) (sym (inventory-finish l))

-- In a lane whose queues are valid, whose worker has its counts in range and where only orders are on
-- their way, any sequence of moves that offers only orders goes through, if the calls on the queues end
-- and the positions stay below the sign bit of `intptr_t`; after it the counts are in range, and for
-- every SKU the items left and the items that the results report as sold make up the stock from before.
pub run-stock :
    (k : ℕ) (moves : List Move) (l : Lane)
    → IsLane k l
    → HasRoom k l.queue (length moves)
    → AllRun moves
    → AllOffer moves
    → Orders (in_flight k l)
    → IsStocked l.worker.inventory
    → (l' : Lane) × (tr : Trace) × (run moves l ≡ some (l', tr))
      × StockKept l.worker.inventory l'.worker.inventory tr.results
unfolding run
run-stock k [] l v r s o i st = (l, silent, refl, (st, λ k. omega arith))
run-stock k (move ∷ moves) l v r s o i st =
    let (l', tr, e, kept) = step-Kept k move l v (omega arith) s.0 in
    let (accepted, sales) = subst (Stocks l) e (step-stock move l o.0) in
    let (handled, later) = Orders-split (cores tr.handled) (in_flight k l') (
      subst Orders kept.in_order (
        Orders-append (in_flight k l) (cores tr.accepted) i (Orders-cores tr.accepted accepted))) in
    let one = sales (Orders-of_cores tr.handled handled) st in
    let (l'', trs, es, rest) =
      run-stock k moves l' kept.still (omega (arith, kept.moved)) s.1 o.1 later one.0 in
    (
      l'',
      join tr trs,
      run-join move moves l l' l'' tr trs e es,
      StockKept-trans l.worker.inventory l'.worker.inventory l''.worker.inventory tr.results
          trs.results one rest,
    )
