-- ===== src/Mpmc/Enqueue.antt =====
-- `try_enqueue` by itself is a push.
use native.Mathlib.Nat.{mod-lt, mod-add-mod, add-mod_right, pow-suc}
use flashsale_system_imitati.Prelude.{
  ℕ, zero, suc, ◌+◌, ◌-◌, ◌%◌, ◌^◌, ◌≤◌, ◌<◌, ◌≡◌, ◌≢◌, refl, sym, ap, ap₂, ◌∙◌, Bool, true, false,
  some, List, [], ◌∷◌, ◌++◌, get_or, set, ltb, if◌then◌else◌, Default, arith, map, map-append,
  dec_lt, add_size, length-set, get_or-set_self, get_or-set_ne,
}
use flashsale_system_imitati.Prelude.Bits.{pow-pos}
use flashsale_system_imitati.Fifo
use flashsale_system_imitati.Spsc.Window.{window, window-set, mod-ne}
use flashsale_system_imitati.Mpmc.{
  Cell, MpmcQueue, cell_default, free, stop, compare_sequence, look_enqueue, claim_enqueue, publish,
  enqueue_loop, try_enqueue,
}
use flashsale_system_imitati.Mpmc.Inv.{
  IsValid, HasRoom, compare_sequence-eq, index-eq, contents, length-contents, Succeeds,
}

pub two-le-pow : (k : ℕ) → 0 < k → 2 ≤ 2 ^ k
two-le-pow zero h = absurd (omega arith)
two-le-pow (suc k) h = omega (arith, pow-suc 2 k, pow-pos k)

module _ {A : Type 0} ⦃d : Default A⦄ (k : ℕ) (q : MpmcQueue A) (v : IsValid k q) where
  -- The queue after an item has gone in, without wraps and masks.
  abbrev pushed : A → MpmcQueue A
  pushed x = record q {
    buffer =
        set q.buffer (q.enqueue_pos % 2 ^ k) (record { sequence = q.enqueue_pos + 1; item = x });
    enqueue_pos = q.enqueue_pos + 1;
  }

  publish-eq :
      (x : A) → HasRoom k q 0 → publish (claim_enqueue q q.enqueue_pos) q.enqueue_pos x ≡ pushed x
  unfolding publish claim_enqueue
  publish-eq x r = λ i. record q {
    buffer = set q.buffer (index-eq k q q.enqueue_pos v i) (record { sequence = next i; item = x });
    enqueue_pos = next i;
  }
    where
      next : add_size q.enqueue_pos 1 ≡ q.enqueue_pos + 1
      next = omega (arith, v.bounded)

  -- The cell at the enqueue position is free just if the queue is not full.
  look_enqueue-eq :
      HasRoom k q 0
      → look_enqueue q q.enqueue_pos
        ≡ (if ltb q.enqueue_pos (q.dequeue_pos + 2 ^ k) then free else stop)
  unfolding look_enqueue
  look_enqueue-eq r =
      ap (λ i. compare_sequence (get_or q.buffer i cell_default.dflt).sequence q.enqueue_pos)
        (index-eq k q q.enqueue_pos v)
      ∙ elim (dec_lt q.enqueue_pos (q.dequeue_pos + 2 ^ k)) [
        | yes room ↦ ground (
          arith,
          v.waiting q.enqueue_pos,
          compare_sequence-eq (sequence_at q.enqueue_pos) q.enqueue_pos,
        )
        | no full ↦ ground (
          arith,
          v.bounded,
          v.ordered,
          round,
          two-le-pow k v.two_cells,
          v.filled q.dequeue_pos,
          compare_sequence-eq (sequence_at q.enqueue_pos) q.enqueue_pos,
        )
      ]
    where
      sequence_at : ℕ → ℕ
      sequence_at at = (get_or q.buffer (at % 2 ^ k) cell_default.dflt).sequence

      -- At a full queue the two positions have one cell.
      round :
          q.enqueue_pos ≡ q.dequeue_pos + 2 ^ k
          → sequence_at q.enqueue_pos ≡ sequence_at q.dequeue_pos
      round e =
          ap (λ i. (get_or q.buffer i cell_default.dflt).sequence)
            (ap (λ p. p % 2 ^ k) e ∙ add-mod_right q.dequeue_pos (2 ^ k))

  pushed-IsValid : (x : A) → q.enqueue_pos < q.dequeue_pos + 2 ^ k → IsValid k (pushed x)
  pushed-IsValid x h = record {
    two_cells = v.two_cells;
    cells = length-set q.buffer _ _ ∙ v.cells;
    masked = v.masked;
    ordered = omega (arith, v.ordered);
    bounded = omega arith;
    filled = λ at lo hi. elim (dec_lt at q.enqueue_pos) [
      | yes old ↦ other at (mod-ne at q.enqueue_pos (2 ^ k) old (omega arith)) ∙ v.filled at lo old
      | no new ↦ self at (omega arith)
    ];
    waiting = λ at lo hi.
        other at
          (λ e. mod-ne q.enqueue_pos at (2 ^ k) (omega arith) (omega (arith, v.ordered)) (sym e))
        ∙ v.waiting at (omega arith) hi;
  }
    where
      other :
          (at : ℕ)
          → at % 2 ^ k ≢ q.enqueue_pos % 2 ^ k
          → (get_or (pushed x).buffer (at % 2 ^ k) cell_default.dflt).sequence
            ≡ (get_or q.buffer (at % 2 ^ k) cell_default.dflt).sequence
      other at ne = ap (λ c. c.sequence) (get_or-set_ne q.buffer _ _ (λ e. ne (sym e)))

      self :
          (at : ℕ)
          → at ≡ q.enqueue_pos
          → (get_or (pushed x).buffer (at % 2 ^ k) cell_default.dflt).sequence ≡ at + 1
      self at e =
          ap (λ p. (get_or (pushed x).buffer (p % 2 ^ k) cell_default.dflt).sequence) e
          ∙ ap (λ c. c.sequence)
              (get_or-set_self q.buffer (q.enqueue_pos % 2 ^ k) _ _
                (omega (arith, v.cells, mod-lt q.enqueue_pos (pow-pos k))))
          ∙ ap (λ p. p + 1) (sym e)

  contents-pushed :
      (x : A)
      → q.enqueue_pos < q.dequeue_pos + 2 ^ k
      → contents k (pushed x) ≡ contents k q ++ (x ∷ [])
  contents-pushed x h =
      ap (map (λ c. c.item)) (
        ap (window (pushed x).buffer (2 ^ k) (q.dequeue_pos % 2 ^ k))
          {y = suc (q.enqueue_pos - q.dequeue_pos)} (omega (arith, v.ordered))
        ∙ window-set q.buffer (2 ^ k) (record { sequence = q.enqueue_pos + 1; item = x })
            (q.enqueue_pos - q.dequeue_pos) (q.dequeue_pos % 2 ^ k) (q.enqueue_pos % 2 ^ k)
            (omega (arith, v.cells)) (mod-lt q.dequeue_pos (pow-pos k)) (omega (arith, v.ordered))
            (ap (λ p. p % 2 ^ k) (omega (arith, v.ordered))
              ∙ sym (mod-add-mod q.dequeue_pos (2 ^ k) (q.enqueue_pos - q.dequeue_pos))))
      ∙ map-append (λ (c : Cell A). c.item) _ _

  loop-free :
      (rounds : List Bool) (x : A)
      → look_enqueue q q.enqueue_pos ≡ free
      → Succeeds rounds
      → enqueue_loop rounds q q.enqueue_pos x
        ≡ some (true, publish (claim_enqueue q q.enqueue_pos) q.enqueue_pos x)
  unfolding enqueue_loop
  loop-free [] x e s = absurd s
  loop-free (true ∷ rounds) x e s = rw (e, enqueue_loop)
  loop-free (false ∷ rounds) x e s = rw (e, enqueue_loop) (loop-free rounds x e s)

  loop-stop :
      (rounds : List Bool) (x : A)
      → look_enqueue q q.enqueue_pos ≡ stop
      → Succeeds rounds
      → enqueue_loop rounds q q.enqueue_pos x ≡ some (false, q)
  unfolding enqueue_loop
  loop-stop [] x e s = absurd s
  loop-stop (cas ∷ rounds) x e s = rw (e, enqueue_loop)

  -- On a valid queue, with no other thread at work, the positions below the sign bit of `intptr_t` and a
  -- compare-exchange that succeeds in some round, `try_enqueue` returns what a FIFO of 2^k places
  -- returns, leaves the items that this FIFO then holds, keeps the dequeue position, and leaves the
  -- queue valid.
  pub try_enqueue_refines :
      (rounds : List Bool) (x : A)
      → HasRoom k q 0
      → Succeeds rounds
      → (q' : MpmcQueue A) × (try_enqueue rounds q x
          ≡ some ((Fifo.push (2 ^ k) (contents k q) x).0, q'))
        × (contents k q' ≡ (Fifo.push (2 ^ k) (contents k q) x).1)
        × (q'.dequeue_pos ≡ q.dequeue_pos)
        × IsValid k q'
  unfolding try_enqueue Fifo.push
  try_enqueue_refines rounds x r s = elim (dec_lt q.enqueue_pos (q.dequeue_pos + 2 ^ k)) [
    | yes room ↦ (
      pushed x,
      loop-free rounds x (look_enqueue-eq r ∙ ground arith) s
          ∙ ap₂ (λ b q'. some (b, q')) (ground (arith, length-contents k q)) (publish-eq x r),
      contents-pushed x room ∙ ground (arith, length-contents k q),
      refl,
      pushed-IsValid x room,
    )
    | no full ↦ (
      q,
      loop-stop rounds x (look_enqueue-eq r ∙ ground arith) s
          ∙ ap (λ b. some (b, q)) (ground (arith, length-contents k q, v.bounded)),
      ground (arith, length-contents k q, v.bounded),
      refl,
      v,
    )
  ]
