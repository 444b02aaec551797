-- ===== src/Lane/Order.antt =====
-- No request is lost, repeated or overtaken on its way through a lane.
use flashsale_system_imitati.Prelude.{
  ℕ, ◌≡◌, refl, sym, ap, ◌∙◌, ◌++◌, some, List, [], ◌∷◌, length, map-append, append-nil,
  append_assoc, arith,
}
use flashsale_system_imitati.Prelude.Lists.{append_middle}
use flashsale_system_imitati.Messages.{request_default, worker_request_default, result_default}
use flashsale_system_imitati.Mpmc
use flashsale_system_imitati.Mpmc.Inv.{HasRoom, Succeeds}
use flashsale_system_imitati.Mpmc.{MpmcQueue}
use flashsale_system_imitati.Lane.{
  Lane, Trace, silent, Move, accepts, dispatches, pushes, fetches, begins, handles, delivers,
  finishes, step, run, join,
}
use flashsale_system_imitati.Lane.Kept.{core, cores, in_flight, IsLane, Goes}
use flashsale_system_imitati.Lane.Dispatcher.{accepts-Kept, dispatches-Kept, push-Kept}
use flashsale_system_imitati.Lane.Consumer.{
  fetch-Kept, begin-Kept, handle-Kept, deliver-Kept, finish-Kept,
}

-- A move whose calls on the queues end: in some round of their loops a compare-exchange would succeed.
abbrev pub Runs : Move → Type 0
Runs (accepts rounds req) = Succeeds rounds
Runs (dispatches rounds now now_push) = Succeeds rounds
Runs pushes = Unit
Runs (fetches now) = Unit
Runs begins = Unit
Runs (handles env sh) = Unit
Runs (delivers rounds results) =
    (kr : ℕ) × Mpmc.Inv.IsValid kr results × HasRoom kr results 0 × Succeeds rounds
Runs finishes = Unit

abbrev pub AllRun : List Move → Type 0
AllRun [] = Unit
AllRun (move ∷ moves) = Runs move × AllRun moves

pub step-Kept :
    (k : ℕ) (move : Move) (l : Lane) (v : IsLane k l)
    → HasRoom k l.queue 1
    → Runs move
    → Goes k l v move
step-Kept k (accepts rounds req) l v r s = accepts-Kept k l v rounds req (omega arith) s
step-Kept k (dispatches rounds now now_push) l v r s = dispatches-Kept k l v rounds now now_push r s
step-Kept k pushes l v r s = push-Kept k l v
step-Kept k (fetches now) l v r s = fetch-Kept k l v now
step-Kept k begins l v r s = begin-Kept k l v
step-Kept k (handles env sh) l v r s = handle-Kept k l v env sh
step-Kept k (delivers rounds results) l v r s =
    let (kr, vr, rr, sr) = s in deliver-Kept k l v rounds results kr vr rr sr
step-Kept k finishes l v r s = finish-Kept k l v

-- A move, then the others.
pub run-join :
    (move : Move) (moves : List Move) (l l' l'' : Lane) (tr trs : Trace)
    → step move l ≡ some (l', tr)
    → run moves l' ≡ some (l'', trs)
    → run (move ∷ moves) l ≡ some (l'', join tr trs)
unfolding run
run-join move moves l l' l'' tr trs e es = rw (e, run) (rw es refl)

-- In a lane whose queues are valid, any sequence of moves of its threads goes through, if the calls on
-- the queues end and the positions stay below the sign bit of `intptr_t`. Apart from the times that the
-- threads write into them, the requests that were on their way before, followed by those that were
-- accepted, are those that `Process` was called with, followed by those on their way after. So each
-- accepted request is processed once, in the order of acceptance, or still on its way.
pub run-in_order :
    (k : ℕ) (moves : List Move) (l : Lane)
    → IsLane k l
    → HasRoom k l.queue (length moves)
    → AllRun moves
    → (l' : Lane) × (tr : Trace) × (run moves l ≡ some (l', tr))
      × (in_flight k l ++ cores tr.accepted ≡ cores tr.handled ++ in_flight k l')
      × IsLane k l'
unfolding run
run-in_order k [] l v r s = (l, silent, refl, append-nil _, v)
run-in_order k (move ∷ moves) l v r s =
    let (l', tr, e, kept) = step-Kept k move l v (omega arith) s.0 in
    let (l'', trs, es, order, v'') =
      run-in_order k moves l' kept.still (omega (arith, kept.moved)) s.1 in
    (
      l'',
      join tr trs,
      run-join move moves l l' l'' tr trs e es,
      ap (λ xs. in_flight k l ++ xs) (map-append core tr.accepted trs.accepted)
          ∙ append_middle (in_flight k l) (cores tr.accepted) (cores tr.handled) (in_flight k l')
              (cores trs.accepted) (cores trs.handled ++ in_flight k l'') kept.in_order order
          ∙ sym (append_assoc (cores tr.handled) (cores trs.handled) (in_flight k l''))
          ∙ ap (λ xs. xs ++ in_flight k l'') (sym (map-append core tr.handled trs.handled)),
      v'',
    )
