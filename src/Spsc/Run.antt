-- ===== src/Spsc/Run.antt =====
-- Sequences of calls on one `SpscQueue`, of which no client can tell it from a bounded FIFO.
use flashsale_system_imitati.Prelude.{
  ℕ, ◌^◌, ◌<◌, ◌≡◌, refl, sym, ap, ◌∙◌, ◌-◌, true, List, [], ◌∷◌, length, Default, arith,
  length-replicate, add_size, length-set,
}
use flashsale_system_imitati.Fifo
use flashsale_system_imitati.Fifo.{Op, put, put_batch, get, get_batch, Reply, is_some, option_list}
use flashsale_system_imitati.Spsc.{
  SpscQueue, init, try_enqueue, try_enqueue_batch, size, try_dequeue, try_dequeue_batch,
}
use flashsale_system_imitati.Spsc.Inv.{
  IsValid, init-IsValid, try_enqueue-IsValid, try_enqueue_batch-IsValid, try_dequeue-IsValid,
  try_dequeue_batch-IsValid, length-copy_in_ring,
}
use flashsale_system_imitati.Spsc.Refine.{
  contents, capacity, length-contents, try_enqueue_refines, try_enqueue_batch_refines,
  try_dequeue_refines, try_dequeue_batch_refines,
}

module _ {A : Type 0} ⦃d : Default A⦄ where
  pub step : SpscQueue A → Op A → Reply A × SpscQueue A
  step q (put x) =
      let (done, q') = try_enqueue q x in (record { done = done; items = []; count = 0 }, q')
  step q (put_batch xs) =
      let (done, q') = try_enqueue_batch q xs in (record { done = done; items = []; count = 0 }, q')
  step q get =
      let (out, q') = try_dequeue q in
      (record { done = is_some out; items = option_list out; count = 0 }, q')
  step q (get_batch n) =
      let (out, q') = try_dequeue_batch q n in
      (record { done = true; items = out; count = length out }, q')
  step q Op.size = (record { done = true; items = []; count = size q }, q)

  pub run : SpscQueue A → List (Op A) → List (Reply A)
  run q [] = []
  run q (op ∷ ops) = let (reply, q') = step q op in reply ∷ run q' ops

  step-IsValid : {q : SpscQueue A} (op : Op A) → IsValid q → IsValid (step q op).1
  unfolding step
  step-IsValid (put x) v = try_enqueue-IsValid x v
  step-IsValid (put_batch xs) v = try_enqueue_batch-IsValid xs v
  step-IsValid get v = try_dequeue-IsValid v
  step-IsValid (get_batch n) v = try_dequeue_batch-IsValid n v
  step-IsValid Op.size v = v

  capacity-step : (q : SpscQueue A) (op : Op A) → capacity (step q op).1 ≡ capacity q
  unfolding step try_enqueue try_enqueue_batch try_dequeue try_dequeue_batch
  capacity-step q (put x) = ground (arith, length-set q.buffer q.tail x)
  capacity-step q (put_batch xs) = ground (arith, length-copy_in_ring q.buffer q.tail xs)
  capacity-step q get = ground arith
  capacity-step q (get_batch n) = ground arith
  capacity-step q Op.size = refl

  -- One call returns what the FIFO returns, and leaves the queue holding the FIFO's list.
  pub step_refines :
      {q : SpscQueue A} (op : Op A)
      → IsValid q
      → let (reply, q') = step q op in (reply, contents q') ≡ Fifo.step (capacity q) (contents q) op
  unfolding step Fifo.step
  step_refines (put x) v = λ i. (
    record { done = (try_enqueue_refines x v i).0; items = []; count = 0 },
    (try_enqueue_refines x v i).1,
  )
  step_refines (put_batch xs) v = λ i. (
    record { done = (try_enqueue_batch_refines xs v i).0; items = []; count = 0 },
    (try_enqueue_batch_refines xs v i).1,
  )
  step_refines get v = λ i. (
    record {
      done = is_some (try_dequeue_refines v i).0;
      items = option_list (try_dequeue_refines v i).0;
      count = 0;
    },
    (try_dequeue_refines v i).1,
  )
  step_refines (get_batch n) v = λ i. (
    record {
      done = true;
      items = (try_dequeue_batch_refines n v i).0;
      count = length (try_dequeue_batch_refines n v i).0;
    },
    (try_dequeue_batch_refines n v i).1,
  )
  step_refines {q} Op.size v =
      λ i. (record { done = true; items = []; count = sym (length-contents q) i }, contents q)

  -- Any sequence of single and batch calls on a valid queue returns, call for call, what a FIFO of
  -- the same capacity returns that starts with the items in the queue.
  pub run_refines :
      (ops : List (Op A)) {q : SpscQueue A}
      → IsValid q
      → run q ops ≡ Fifo.run (capacity q) (contents q) ops
  unfolding run Fifo.run
  run_refines [] v = refl
  run_refines (op ∷ ops) {q} v =
      rw (run_refines ops (step-IsValid op v), ← step_refines op v, capacity-step q op)

  -- A new queue, of a capacity below 2^63 - 1, behaves as the empty FIFO of that capacity.
  pub run-init : (n : ℕ) (ops : List (Op A)) → n < 2 ^ 63 - 1 → run (init n) ops ≡ Fifo.run n [] ops
  unfolding init size
  run-init n ops h =
      run_refines ops (init-IsValid n (omega arith))
      ∙ ap (λ c. Fifo.run c [] ops) (omega (arith, length-replicate (add_size n 1) d.dflt))
