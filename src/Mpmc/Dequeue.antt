-- ===== src/Mpmc/Dequeue.antt =====
-- `try_dequeue` by itself is a pop.
use native.Mathlib.Nat.{mod-lt, mod-add-mod, add-mod_right}
use flashsale_system_imitati.Prelude.{
  ℕ, ◌+◌, ◌-◌, ◌%◌, ◌^◌, ◌≤◌, ◌<◌, ◌≡◌, ◌≢◌, sym, ap, ap₂, ◌∙◌, Bool, true, false, some, none, List,
  [], ◌∷◌, get_or, set, ltb, if◌then◌else◌, Default, arith, map, dec_lt, add_size, length-set,
  get_or-set_self, get_or-set_ne,
}
use flashsale_system_imitati.Prelude.Bits.{pow-pos}
use flashsale_system_imitati.Fifo
use flashsale_system_imitati.Spsc.Window.{window, window-set_after, mod-ne, window_of_ne_zero}
use flashsale_system_imitati.Mpmc.{
  Cell, MpmcQueue, cell_default, free, stop, compare_sequence, cell_at, look_dequeue, claim_dequeue,
  release, dequeue_loop, try_dequeue,
}
use flashsale_system_imitati.Mpmc.Inv.{
  IsValid, HasRoom, compare_sequence-eq, index-eq, contents, Succeeds,
}

module _ {A : Type 0} ⦃d : Default A⦄ (k : ℕ) (q : MpmcQueue A) (v : IsValid k q) where
  -- The cell of a position.
  abbrev cell_of : ℕ → Cell A
  cell_of at = get_or q.buffer (at % 2 ^ k) cell_default.dflt

  -- The queue after its oldest item has gone, without wraps and masks.
  abbrev popped : MpmcQueue A
  popped = record q {
    buffer =
        set q.buffer (q.dequeue_pos % 2 ^ k)
          (record (cell_of q.dequeue_pos) { sequence = q.dequeue_pos + 2 ^ k });
    dequeue_pos = q.dequeue_pos + 1;
  }

  release-eq : HasRoom k q 1 → release (claim_dequeue q q.dequeue_pos) q.dequeue_pos ≡ popped
  unfolding release claim_dequeue
  release-eq r = λ i. record q {
    buffer = set q.buffer (index-eq k q q.dequeue_pos v i) (record {
      sequence = round i;
      item = (get_or q.buffer (index-eq k q q.dequeue_pos v i) cell_default.dflt).item;
    });
    dequeue_pos = next i;
  }
    where
      next : add_size q.dequeue_pos 1 ≡ q.dequeue_pos + 1
      next = omega arith

      round : add_size (add_size q.dequeue_pos q.mask) 1 ≡ q.dequeue_pos + 2 ^ k
      round = omega (arith, v.masked, pow-pos k)

  look_dequeue-eq :
      HasRoom k q 1
      → look_dequeue q q.dequeue_pos ≡ (if ltb q.dequeue_pos q.enqueue_pos then free else stop)
  unfolding look_dequeue
  look_dequeue-eq r =
      ap₂ (λ i n. compare_sequence (get_or q.buffer i cell_default.dflt).sequence n)
        (index-eq k q q.dequeue_pos v) next
      ∙ elim (dec_lt q.dequeue_pos q.enqueue_pos) [
        | yes some_item ↦ ground (
          arith,
          v.filled q.dequeue_pos,
          compare_sequence-eq (cell_of q.dequeue_pos).sequence (q.dequeue_pos + 1),
        )
        | no empty ↦ ground (
          arith,
          v.ordered,
          pow-pos k,
          v.waiting q.dequeue_pos,
          compare_sequence-eq (cell_of q.dequeue_pos).sequence (q.dequeue_pos + 1),
        )
      ]
    where
      next : add_size q.dequeue_pos 1 ≡ q.dequeue_pos + 1
      next = omega arith

  popped-IsValid : q.dequeue_pos < q.enqueue_pos → IsValid k popped
  popped-IsValid h = record {
    two_cells = v.two_cells;
    cells = length-set q.buffer _ _ ∙ v.cells;
    masked = v.masked;
    ordered = omega arith;
    bounded = omega (arith, v.bounded);
    filled = λ at lo hi.
        other at
          (λ e. mod-ne q.dequeue_pos at (2 ^ k) (omega arith) (omega (arith, v.bounded)) (sym e))
        ∙ v.filled at (omega arith) hi;
    waiting = λ at lo hi. elim (dec_lt at (q.dequeue_pos + 2 ^ k)) [
      | yes old ↦
          other at (λ e. mod-ne q.dequeue_pos at (2 ^ k) (omega arith) old (sym e))
          ∙ v.waiting at lo old
      | no new ↦ self at (omega arith)
    ];
  }
    where
      other :
          (at : ℕ)
          → at % 2 ^ k ≢ q.dequeue_pos % 2 ^ k
          → (get_or popped.buffer (at % 2 ^ k) cell_default.dflt).sequence ≡ (cell_of at).sequence
      other at ne = ap (λ c. c.sequence) (get_or-set_ne q.buffer _ _ (λ e. ne (sym e)))

      self :
          (at : ℕ)
          → at ≡ q.dequeue_pos + 2 ^ k
          → (get_or popped.buffer (at % 2 ^ k) cell_default.dflt).sequence ≡ at
      self at e =
          ap (λ i. (get_or popped.buffer i cell_default.dflt).sequence)
            (ap (λ p. p % 2 ^ k) e ∙ add-mod_right q.dequeue_pos (2 ^ k))
          ∙ ap (λ c. c.sequence)
              (get_or-set_self q.buffer (q.dequeue_pos % 2 ^ k) _ _
                (omega (arith, v.cells, mod-lt q.dequeue_pos (pow-pos k))))
          ∙ sym e

  contents-popped :
      q.dequeue_pos < q.enqueue_pos
      → contents k q ≡ (cell_of q.dequeue_pos).item ∷ contents k popped
  contents-popped h = ap (map (λ c. c.item)) (
      window_of_ne_zero q.buffer (2 ^ k) (q.dequeue_pos % 2 ^ k) (q.enqueue_pos - q.dequeue_pos)
        (omega arith)
      ∙ ap (λ l. cell_of q.dequeue_pos ∷ l) rest)
    where
      first : (q.dequeue_pos % 2 ^ k + 1) % 2 ^ k ≡ (q.dequeue_pos + 1) % 2 ^ k
      first = mod-add-mod q.dequeue_pos (2 ^ k) 1

      rest :
          window q.buffer
            (2 ^ k)
            ((q.dequeue_pos % 2 ^ k + 1) % 2 ^ k)
            (q.enqueue_pos - q.dequeue_pos - 1)
          ≡ window popped.buffer
              (2 ^ k)
              ((q.dequeue_pos + 1) % 2 ^ k)
              (q.enqueue_pos - (q.dequeue_pos + 1))
      rest =
          sym (
            window-set_after q.buffer (2 ^ k) _ (q.dequeue_pos % 2 ^ k) 0
              (q.enqueue_pos - q.dequeue_pos - 1) (mod-lt q.dequeue_pos (pow-pos k))
              (omega (arith, v.bounded)))
          ∙ ap₂ (window popped.buffer (2 ^ k)) first (omega arith)

  contents-none : ¬ (q.dequeue_pos < q.enqueue_pos) → contents k q ≡ []
  contents-none h =
      ap (λ n. map (λ (c : Cell A). c.item) (window q.buffer (2 ^ k) (q.dequeue_pos % 2 ^ k) n))
        {y = 0} (omega arith)

  loop-free :
      (rounds : List Bool)
      → look_dequeue q q.dequeue_pos ≡ free
      → Succeeds rounds
      → dequeue_loop rounds q q.dequeue_pos
        ≡ some (
          some (cell_at q q.dequeue_pos).item,
          release (claim_dequeue q q.dequeue_pos) q.dequeue_pos,
        )
  unfolding dequeue_loop
  loop-free [] e s = absurd s
  loop-free (true ∷ rounds) e s = rw (e, dequeue_loop)
  loop-free (false ∷ rounds) e s = rw (e, dequeue_loop) (loop-free rounds e s)

  loop-stop :
      (rounds : List Bool)
      → look_dequeue q q.dequeue_pos ≡ stop
      → Succeeds rounds
      → dequeue_loop rounds q q.dequeue_pos ≡ some (none, q)
  unfolding dequeue_loop
  loop-stop [] e s = absurd s
  loop-stop (cas ∷ rounds) e s = rw (e, dequeue_loop)

  -- On a valid queue, with no other thread at work, the positions below the sign bit of `intptr_t` and a
  -- compare-exchange that succeeds in some round, `try_dequeue` returns the oldest item, or that there
  -- is none, leaves the other items, moves the dequeue position by at most one, and leaves the queue
  -- valid.
  pub try_dequeue_refines :
      (rounds : List Bool)
      → HasRoom k q 1
      → Succeeds rounds
      → (q' : MpmcQueue A) × (try_dequeue rounds q ≡ some ((Fifo.pop (contents k q)).0, q'))
        × (contents k q' ≡ (Fifo.pop (contents k q)).1)
        × (q'.dequeue_pos ≤ q.dequeue_pos + 1)
        × IsValid k q'
  unfolding try_dequeue Fifo.pop
  try_dequeue_refines rounds r s = elim (dec_lt q.dequeue_pos q.enqueue_pos) [
    | yes some_item ↦ (
      popped,
      loop-free rounds (look_dequeue-eq r ∙ ground arith) s
          ∙ ap₂ (λ out q'. some (out, q'))
              (ap (λ i. some (get_or q.buffer i cell_default.dflt).item)
                  (index-eq k q q.dequeue_pos v)
                ∙ ap (λ xs. (Fifo.pop xs).0) (sym (contents-popped some_item)))
              (release-eq r),
      ap (λ xs. (Fifo.pop xs).1) (sym (contents-popped some_item)),
      omega arith,
      popped-IsValid some_item,
    )
    | no empty ↦ (
      q,
      loop-stop rounds (look_dequeue-eq r ∙ ground arith) s
          ∙ ap (λ xs. some ((Fifo.pop xs).0, q)) (sym (contents-none empty)),
      contents-none empty ∙ ap (λ xs. (Fifo.pop xs).1) (sym (contents-none empty)),
      omega arith,
      v,
    )
  ]
