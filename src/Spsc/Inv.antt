-- ===== src/Spsc/Inv.antt =====
-- The representation invariant of `SpscQueue`: indices in range, and no `size_t` wrap.
use flashsale_system_imitati.Prelude.{
  ℕ, ◌+◌, ◌-◌, ◌%◌, ◌^◌, ◌≤◌, ◌<◌, ◌≡◌, List, length, length-set, length-replicate, Default,
  add_size, sub_size, arith, [], ◌∷◌, refl, sym, ap, ◌∙◌, set, min, take, drop, dec_lt,
}
use native.Mathlib.Nat.{mod-eq_of_lt}
use flashsale_system_imitati.Spsc.{
  SpscQueue, init, copy_in, copy_in_ring, try_enqueue, free_space, try_enqueue_batch, size,
  try_dequeue, available, try_dequeue_batch,
}

pub record IsValid {ℓ} {A : Type ℓ} (q : SpscQueue A) : Type ℓ where
  pub room : 0 < length q.buffer
  pub small : length q.buffer ≤ 2 ^ 63
  pub head_in : q.head < length q.buffer
  pub tail_in : q.tail < length q.buffer

pub mod_wrap : (x n : ℕ) → x < n → (x + n) % n ≡ x
mod_wrap x n h = grind arith

module _ {ℓ} {A : Type ℓ} where
  pub length-copy_in :
      (buf : List A) (at : ℕ) (xs : List A) → length (copy_in buf at xs) ≡ length buf
  unfolding copy_in
  length-copy_in buf at [] = refl
  length-copy_in buf at (x ∷ xs) = length-copy_in (set buf at x) (at + 1) xs ∙ length-set buf at x

  pub length-copy_in_ring :
      (buf : List A) (at : ℕ) (xs : List A) → length (copy_in_ring buf at xs) ≡ length buf
  unfolding copy_in_ring
  length-copy_in_ring buf at xs = ground (
    arith,
    length-copy_in buf at (take (min (length xs) (sub_size (length buf) at)) xs),
    length-copy_in (copy_in buf at (take (min (length xs) (sub_size (length buf) at)) xs)) 0
        (drop (min (length xs) (sub_size (length buf) at)) xs),
  )

  -- Without the wraps.
  pub size-eq :
      (q : SpscQueue A)
      → IsValid q
      → (q.head ≤ q.tail → size q ≡ q.tail - q.head)
        × (q.tail < q.head → size q ≡ length q.buffer + q.tail - q.head)
  unfolding size
  size-eq q v = ground arith

  pub size-lt : (q : SpscQueue A) → IsValid q → size q < length q.buffer
  unfolding size
  size-lt q v = ground arith

  pub tail-eq : (q : SpscQueue A) → IsValid q → q.tail ≡ (q.head + size q) % length q.buffer
  tail-eq q v = elim (dec_lt q.tail q.head) [
    | yes p ↦
        sym (mod_wrap q.tail (length q.buffer) v.tail_in)
        ∙ ap (λ j. j % length q.buffer) (omega (arith, (size-eq q v).1 p))
    | no p ↦
        sym (mod-eq_of_lt v.tail_in)
        ∙ ap (λ j. j % length q.buffer) (omega (arith, (size-eq q v).0 (omega arith)))
  ]

  pub free_space-add-size :
      (q : SpscQueue A) → IsValid q → free_space q + size q + 1 ≡ length q.buffer
  unfolding free_space size
  free_space-add-size q v = ground arith

  pub try_enqueue-IsValid : {q : SpscQueue A} (x : A) → IsValid q → IsValid (try_enqueue q x).1
  unfolding try_enqueue
  try_enqueue-IsValid {q} x v = ground (arith, length-set q.buffer q.tail x)

  pub try_enqueue_batch-IsValid :
      {q : SpscQueue A} (xs : List A) → IsValid q → IsValid (try_enqueue_batch q xs).1
  unfolding try_enqueue_batch
  try_enqueue_batch-IsValid {q} xs v = ground (arith, length-copy_in_ring q.buffer q.tail xs)

module _ {ℓ} {A : Type ℓ} ⦃d : Default A⦄ where
  pub init-IsValid : (capacity : ℕ) → capacity < 2 ^ 63 → IsValid (init {A = A} capacity)
  unfolding init
  init-IsValid capacity h = omega (arith, length-replicate (add_size capacity 1) d.dflt)

  pub available-eq-size : (q : SpscQueue A) → IsValid q → available q ≡ size q
  unfolding available size
  available-eq-size q v = ground arith

  pub try_dequeue-IsValid : {q : SpscQueue A} → IsValid q → IsValid (try_dequeue q).1
  unfolding try_dequeue
  try_dequeue-IsValid v = ground arith

  pub try_dequeue_batch-IsValid :
      {q : SpscQueue A} (n : ℕ) → IsValid q → IsValid (try_dequeue_batch q n).1
  unfolding try_dequeue_batch
  try_dequeue_batch-IsValid n v = ground arith
