-- ===== src/Spsc/Refine.antt =====
-- A valid `SpscQueue` behaves as the bounded FIFO of the items that it holds.
use native.Mathlib.Nat.{mod-eq_of_lt, mod-eq-sub-mod, mod-add-mod}
use flashsale_system_imitati.Prelude.{
  ℕ, suc, ◌+◌, ◌-◌, ◌%◌, ◌≤◌, ◌<◌, ◌≡◌, sym, ap, ap₂, ◌∙◌, List, [], ◌∷◌, ◌++◌, length, take, drop,
  min, Default, arith, set, length-set, dec_lt, ◌↔◌, add_size, take-append_min, drop-append_min,
  length-append, take-nil, drop-nil,
}
use flashsale_system_imitati.Fifo
use flashsale_system_imitati.Spsc.{
  SpscQueue, try_enqueue, try_enqueue_batch, size, try_dequeue, available, try_dequeue_batch,
  copy_in_ring,
}
use flashsale_system_imitati.Spsc.Inv.{
  IsValid, mod_wrap, length-copy_in_ring, size-eq, size-lt, tail-eq, free_space-add-size,
  available-eq-size,
}
use flashsale_system_imitati.Spsc.Window.{
  window, length-window, window_of_ne_zero, window-add, window-set, copy_out_ring-window,
  window-copy_in_ring,
}

module _ {A : Type 0} ⦃d : Default A⦄ where
  -- The items that wait, oldest first.
  abbrev pub contents : SpscQueue A → List A
  contents q = window q.buffer (length q.buffer) q.head (size q)

  -- The capacity that the constructor was given.
  abbrev pub capacity : SpscQueue A → ℕ
  capacity q = length q.buffer - 1

  pub length-contents : (q : SpscQueue A) → length (contents q) ≡ size q
  length-contents q = length-window q.buffer (length q.buffer) q.head (size q)

  -- The size is the one number of steps from `head` to `tail`.
  size_unique :
      (q : SpscQueue A) (k : ℕ)
      → IsValid q
      → k < length q.buffer
      → q.tail ≡ (q.head + k) % length q.buffer
      → size q ≡ k
  size_unique q k v h e = elim (dec_lt (q.head + k) (length q.buffer)) [
    | yes p ↦ omega (arith, (size-eq q v).0, e ∙ mod-eq_of_lt p)
    | no p ↦ omega (
      arith,
      (size-eq q v).1,
      e
          ∙ mod-eq-sub-mod (omega arith)
          ∙ mod-eq_of_lt {n = q.head + k - length q.buffer} (omega arith),
    )
  ]

  -- `tail` after `k` more items.
  tail-enqueue :
      (q : SpscQueue A) (k : ℕ)
      → IsValid q
      → k < length q.buffer
      → add_size q.tail k % length q.buffer ≡ (q.head + (size q + k)) % length q.buffer
  tail-enqueue q k v h =
      ap (λ j. j % length q.buffer) (omega arith)
      ∙ ap (λ j. (j + k) % length q.buffer) (tail-eq q v)
      ∙ mod-add-mod (q.head + size q) (length q.buffer) k
      ∙ ap (λ j. j % length q.buffer) (omega arith)

  -- `tail` seen from `head` after `k` items have gone.
  tail-dequeue :
      (q : SpscQueue A) (k : ℕ)
      → IsValid q
      → k ≤ size q
      → q.tail ≡ (add_size q.head k % length q.buffer + (size q - k)) % length q.buffer
  tail-dequeue q k v h =
      tail-eq q v
      ∙ ap (λ j. j % length q.buffer) (omega arith)
      ∙ sym (mod-add-mod (q.head + k) (length q.buffer) (size q - k))
      ∙ ap (λ j. (j % length q.buffer + (size q - k)) % length q.buffer)
          (omega (arith, size-lt q v))

  next_tail_inside :
      (q : SpscQueue A)
      → IsValid q
      → q.tail + 1 < length q.buffer
      → add_size q.tail 1 % length q.buffer ≡ q.tail + 1
  next_tail_inside q v p = ap (λ j. j % length q.buffer) (omega arith) ∙ mod-eq_of_lt p

  next_tail_wraps :
      (q : SpscQueue A)
      → IsValid q
      → ¬ (q.tail + 1 < length q.buffer)
      → add_size q.tail 1 % length q.buffer ≡ 0
  next_tail_wraps q v p =
      ap (λ j. j % length q.buffer) (omega arith) ∙ mod_wrap 0 (length q.buffer) v.room

  -- The test for a full queue.
  pub full_iff :
      (q : SpscQueue A)
      → IsValid q
      → (add_size q.tail 1 % length q.buffer ≡ q.head) ↔ (size q ≡ capacity q)
  full_iff q v = elim (dec_lt (q.tail + 1) (length q.buffer)) [
    | yes p ↦ grind (arith, size-eq q v, next_tail_inside q v p)
    | no p ↦ grind (arith, size-eq q v, next_tail_wraps q v p)
  ]

  -- The queue after `xs` have been written past its contents.
  pub contents-put :
      (q : SpscQueue A) (buf xs : List A)
      → IsValid q
      → length buf ≡ length q.buffer
      → size q + length xs < length q.buffer
      → window buf (length q.buffer) q.head (size q + length xs) ≡ contents q ++ xs
      → contents (record {
        head = q.head;
        tail = add_size q.tail (length xs) % length q.buffer;
        buffer = buf;
      })
        ≡ contents q ++ xs
  contents-put q buf xs v e h w = ap₂ (λ n k. window buf n q.head k) e steps ∙ w
    where
      after : SpscQueue A
      after = record {
        head = q.head;
        tail = add_size q.tail (length xs) % length q.buffer;
        buffer = buf;
      }

      steps : size after ≡ size q + length xs
      steps = size_unique after (size q + length xs) (omega arith) (omega arith) (
          tail-enqueue q (length xs) v (omega arith)
          ∙ ap (λ n. (q.head + (size q + length xs)) % n) (sym e))

  -- The queue after its oldest `k` items have gone.
  pub contents-got :
      (q : SpscQueue A) (k : ℕ)
      → IsValid q
      → k ≤ size q
      → let q' : SpscQueue A = record q { head = add_size q.head k % length q.buffer } in
        contents q ≡ window q.buffer (length q.buffer) q.head k ++ contents q'
  contents-got q k v h =
      ap (window q.buffer (length q.buffer) q.head) (omega arith)
      ∙ window-add q.buffer (length q.buffer) q.head k (size q - k) v.head_in
      ∙ ap₂
          (λ i j.
            window q.buffer (length q.buffer) q.head k ++ window q.buffer (length q.buffer) i j)
          (ap (λ j. j % length q.buffer) (omega (arith, size-lt q v))) (sym steps)
    where
      after : SpscQueue A
      after = record q { head = add_size q.head k % length q.buffer }

      steps : size after ≡ size q - k
      steps =
          size_unique after (size q - k) (omega arith) (omega (arith, size-lt q v))
            (tail-dequeue q k v h)

  -- The test for an empty queue.
  pub empty_iff : (q : SpscQueue A) → IsValid q → (q.head ≡ q.tail) ↔ (size q ≡ 0)
  empty_iff q v = grind (arith, size-eq q v)

  -- `try_enqueue` returns what `Fifo.push` returns, and leaves the queue holding its list.
  pub try_enqueue_refines :
      {q : SpscQueue A} (x : A)
      → IsValid q
      → let (done, q') = try_enqueue q x in
        (done, contents q') ≡ Fifo.push (capacity q) (contents q) x
  unfolding try_enqueue Fifo.push
  try_enqueue_refines {q} x v = ground (
    arith,
    full_iff q v,
    length-contents q,
    contents-put q (set q.buffer q.tail x) (x ∷ []) v (length-set q.buffer q.tail x),
    window-set q.buffer (length q.buffer) x (size q) q.head q.tail,
    tail-eq q v,
    size-lt q v,
    size_one,
  )
    where
      size_one : size q + 1 ≡ suc (size q)
      size_one = omega arith

  -- `try_dequeue` returns what `Fifo.pop` returns, and leaves the queue holding its list.
  pub try_dequeue_refines :
      {q : SpscQueue A}
      → IsValid q
      → let (out, q') = try_dequeue q in (out, contents q') ≡ Fifo.pop (contents q)
  unfolding try_dequeue Fifo.pop
  try_dequeue_refines {q} v = ground (
    arith,
    empty_iff q v,
    contents-got q 1 v,
    window_of_ne_zero q.buffer (length q.buffer) q.head (size q),
  )

  -- A batch goes in whole or not at all, as `Fifo.push_batch` says.
  pub try_enqueue_batch_refines :
      {q : SpscQueue A} (xs : List A)
      → IsValid q
      → let (done, q') = try_enqueue_batch q xs in
        (done, contents q') ≡ Fifo.push_batch (capacity q) (contents q) xs
  unfolding try_enqueue_batch Fifo.push_batch
  try_enqueue_batch_refines {q} xs v = ground (
    arith,
    free_space-add-size q v,
    length-contents q,
    contents-put q (copy_in_ring q.buffer q.tail xs) xs v (length-copy_in_ring q.buffer q.tail xs),
    window-copy_in_ring q.buffer xs q.head (size q) q.tail,
    tail-eq q v,
    size-lt q v,
  )

  -- The oldest `k` items, `k` the smaller of the size and `n`, are what `Fifo.pop_batch` takes.
  pop_batch-contents :
      (q : SpscQueue A) (n k : ℕ)
      → IsValid q
      → k ≡ min (size q) n
      → let q' : SpscQueue A = record q { head = add_size q.head k % length q.buffer } in
        (window q.buffer (length q.buffer) q.head k, contents q') ≡ Fifo.pop_batch (contents q) n
  unfolding Fifo.pop_batch
  pop_batch-contents q n k v h = sym (
      ap (λ l. (take n l, drop n l)) split ∙ λ i.
      (take-append_min n front rest counted i, drop-append_min n front rest counted i))
    where
      front : List A
      front = window q.buffer (length q.buffer) q.head k

      rest : List A
      rest = contents (record q { head = add_size q.head k % length q.buffer })

      split : contents q ≡ front ++ rest
      split = contents-got q k v (omega arith)

      counted : length front ≡ min (length front + length rest) n
      counted = omega (
        arith,
        ap length split,
        length-append front rest,
        length-contents q,
        length-window q.buffer (length q.buffer) q.head k,
      )

  -- A batch out is the oldest items, as many as asked for or as there are.
  pub try_dequeue_batch_refines :
      {q : SpscQueue A} (n : ℕ)
      → IsValid q
      → let (out, q') = try_dequeue_batch q n in (out, contents q') ≡ Fifo.pop_batch (contents q) n
  unfolding try_dequeue_batch Fifo.pop_batch
  try_dequeue_batch_refines {q} n v = ground (
    arith,
    empty_iff q v,
    available-eq-size q v,
    size-lt q v,
    copy_out_ring-window q.buffer q.head (min (available q) n),
    pop_batch-contents q n (min (available q) n) v,
    take-nil A n,
    drop-nil A n,
  )
