-- ===== src/Mpmc/Start.antt =====
-- A new `MpmcQueue`, and the size that it reports.
use Prim.Native.Nat.{bit_and}
use native.Mathlib.Nat.{mod-eq_of_lt, mod_self}
use flashsale_system_imitati.Prelude.{
  ℕ, zero, suc, ◌+◌, ◌-◌, ◌^◌, ◌<◌, ◌≡◌, refl, ap, ◌∙◌, some, [], length, get_or, Default, arith,
  sub_size,
}
use flashsale_system_imitati.Prelude.Bits.{bit_and-mask, pow-pos}
use flashsale_system_imitati.Mpmc.{MpmcQueue, cell_default, new_cells, init, size}
use flashsale_system_imitati.Mpmc.Inv.{IsValid, HasRoom, contents, length-contents}
use flashsale_system_imitati.Mpmc.Enqueue.{two-le-pow}

length-new_cells : (A : Type 0) ⦃d : Default A⦄ (i n : ℕ) → length (new_cells {A = A} i n) ≡ n
unfolding new_cells
length-new_cells A i zero = refl
length-new_cells A i (suc n) = ap suc (length-new_cells A (i + 1) n)

-- Cell `j` waits for the producer of position `i + j`.
sequence-new_cells :
    (A : Type 0) ⦃d : Default A⦄ (i n j : ℕ)
    → j < n
    → (get_or (new_cells {A = A} i n) j cell_default.dflt).sequence ≡ i + j
unfolding new_cells
sequence-new_cells A i zero j h = absurd (omega arith)
sequence-new_cells A i (suc n) zero h = omega arith
sequence-new_cells A i (suc n) (suc j) h =
    sequence-new_cells A (i + 1) n j (omega arith) ∙ omega arith

module _ {A : Type 0} ⦃d : Default A⦄ where
  -- A queue of 2^k cells, with `k` from 1 to 62, is built, is valid, holds nothing and starts at
  -- position 0.
  pub init_lem :
      (k : ℕ)
      → 0 < k
      → 2 ^ k < 2 ^ 63
      → (q : MpmcQueue A) × (init (2 ^ k) ≡ some q)
        × IsValid k q
        × (contents k q ≡ [])
        × (q.dequeue_pos ≡ 0)
  unfolding init
  init_lem k h small = (
    fresh,
    ground (arith, two-le-pow k h, power),
    record {
      two_cells = h;
      cells = length-new_cells A 0 (2 ^ k);
      masked = refl;
      ordered = omega arith;
      bounded = omega arith;
      filled = λ at lo hi. absurd (omega arith);
      waiting = λ at lo hi.
          ap (λ i. (get_or fresh.buffer i cell_default.dflt).sequence) (mod-eq_of_lt (omega arith))
          ∙ sequence-new_cells A 0 (2 ^ k) at (omega arith)
          ∙ omega arith;
    },
    refl,
    refl,
  )
    where
      fresh : MpmcQueue A
      fresh = record {
        buffer = new_cells 0 (2 ^ k);
        mask = 2 ^ k - 1;
        enqueue_pos = 0;
        dequeue_pos = 0;
      }

      power : bit_and (2 ^ k) (sub_size (2 ^ k) 1) ≡ 0
      power =
          ap (bit_and (2 ^ k)) (omega (arith, pow-pos k))
          ∙ bit_and-mask (2 ^ k) k
          ∙ mod_self (2 ^ k)

  -- On a valid queue, with the positions below the sign bit of `intptr_t`, the size that is reported is
  -- the number of items that wait.
  pub size-eq-length :
      (k : ℕ) (q : MpmcQueue A) → IsValid k q → HasRoom k q 0 → size q ≡ length (contents k q)
  unfolding size
  size-eq-length k q v r = ground (arith, length-contents k q, v.ordered, v.bounded)
