-- ===== src/Mpmc/Inv.antt =====
-- The invariant of an `MpmcQueue` that no thread is at work on.
use Prim.Native.Nat.{bit_and}
use flashsale_system_imitati.Prelude.{
  ℕ, ◌+◌, ◌-◌, ◌%◌, ◌^◌, ◌≤◌, ◌<◌, ◌≡◌, ap, ◌∙◌, List, [], ◌∷◌, length, get_or, Default, arith, map,
  length-map, Bool, true, false,
}
use flashsale_system_imitati.Prelude.Int.{from_bits64, ◌-ℤ◌}
use flashsale_system_imitati.Prelude.Bits.{bit_and-mask}
use flashsale_system_imitati.Spsc.Window.{window, length-window}
use flashsale_system_imitati.Mpmc.{
  MpmcQueue, cell_default, free, stop, again, compare_sequence, index,
}

pub record IsValid {ℓ} {A : Type ℓ} ⦃d : Default A⦄ (k : ℕ) (q : MpmcQueue A) : Type ℓ where
  pub two_cells : 0 < k
  pub cells : length q.buffer ≡ 2 ^ k
  pub masked : q.mask ≡ 2 ^ k - 1
  pub ordered : q.dequeue_pos ≤ q.enqueue_pos
  pub bounded : q.enqueue_pos ≤ q.dequeue_pos + 2 ^ k
  -- A cell from the dequeue position on, below the enqueue position, holds an item.
  pub filled :
      (at : ℕ)
      → q.dequeue_pos ≤ at
      → at < q.enqueue_pos
      → (get_or q.buffer (at % 2 ^ k) cell_default.dflt).sequence ≡ at + 1
  -- The others wait for a producer.
  pub waiting :
      (at : ℕ)
      → q.enqueue_pos ≤ at
      → at < q.dequeue_pos + 2 ^ k
      → (get_or q.buffer (at % 2 ^ k) cell_default.dflt).sequence ≡ at

-- For `n` more items to come out, the positions stay below the sign bit of `intptr_t`.
abbrev pub HasRoom {ℓ} : {A : Type ℓ} → ℕ → MpmcQueue A → ℕ → Type 0
HasRoom k q n = q.dequeue_pos + n + 2 ^ k + 2 ^ k < 2 ^ 63

-- `dif` is the true difference where both numbers are below 2^63.
pub compare_sequence-eq :
    (seq expected : ℕ)
    → seq < 2 ^ 63
    → expected < 2 ^ 63
    → (seq ≡ expected → compare_sequence seq expected ≡ free)
      × (seq < expected → compare_sequence seq expected ≡ stop)
      × (expected < seq → compare_sequence seq expected ≡ again)
unfolding compare_sequence from_bits64 ◌-ℤ◌
compare_sequence-eq seq expected hs he = ground arith

module _ {A : Type 0} ⦃d : Default A⦄ where
  pub index-eq : (k : ℕ) (q : MpmcQueue A) (at : ℕ) → IsValid k q → index q at ≡ at % 2 ^ k
  index-eq k q at v = ap (λ m. bit_and at m) v.masked ∙ bit_and-mask at k

  -- The items that wait, oldest first.
  abbrev pub contents : ℕ → MpmcQueue A → List A
  contents k q =
      map (λ c. c.item)
        (window q.buffer (2 ^ k) (q.dequeue_pos % 2 ^ k) (q.enqueue_pos - q.dequeue_pos))

  pub length-contents :
      (k : ℕ) (q : MpmcQueue A) → length (contents k q) ≡ q.enqueue_pos - q.dequeue_pos
  length-contents k q =
      length-map _ _
      ∙ length-window q.buffer (2 ^ k) (q.dequeue_pos % 2 ^ k) (q.enqueue_pos - q.dequeue_pos)

-- In some round a compare-exchange would succeed.
abbrev pub Succeeds : List Bool → Type 0
Succeeds [] = ⊥
Succeeds (true ∷ rounds) = Unit
Succeeds (false ∷ rounds) = Succeeds rounds
