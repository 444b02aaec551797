-- ===== src/Mpmc/Tests.antt =====
-- `MpmcQueue` on concrete inputs.
use flashsale_system_imitati.Prelude.{
  ◌≤◌, ℕ, ◌+◌, ◌^◌, ◌%◌, get_or, ◌≡◌, refl, true, false, some, none, [], ◌∷◌, Default, arith,
  length,
}
use flashsale_system_imitati.Fifo
use flashsale_system_imitati.Mpmc.{MpmcQueue, cell_default, init, try_enqueue, try_dequeue, size}
use flashsale_system_imitati.Mpmc.Inv.{IsValid, contents}
use flashsale_system_imitati.Mpmc.Enqueue.{try_enqueue_refines}
use flashsale_system_imitati.Mpmc.Dequeue.{try_dequeue_refines}
use flashsale_system_imitati.Mpmc.Start.{init_lem, size-eq-length}

instance abbrev nat_default : Default ℕ
nat_default = record { dflt = 0 }

-- Two cells; positions 3 and up, with the item of position 3 waiting.
abbrev one_item : MpmcQueue ℕ
one_item = record {
  buffer = record { sequence = 4; item = 0 } ∷ record { sequence = 4; item = 9 } ∷ [];
  mask = 1;
  enqueue_pos = 4;
  dequeue_pos = 3;
}

at_three : (at : ℕ) → at ≡ 3 → (get_or one_item.buffer (at % 2) cell_default.dflt).sequence ≡ at + 1
at_three at e = rw e refl

at_four : (at : ℕ) → at ≡ 4 → (get_or one_item.buffer (at % 2) cell_default.dflt).sequence ≡ at
at_four at e = rw e refl

one_item-IsValid : IsValid 1 one_item
one_item-IsValid = record {
  two_cells = omega arith;
  cells = refl;
  masked = refl;
  ordered = omega arith;
  bounded = omega arith;
  filled = λ at lo hi. at_three at (omega arith);
  waiting = λ at lo hi. at_four at (omega arith);
}

try_enqueue_refines_example :
    (q' : MpmcQueue ℕ) × (try_enqueue (false ∷ true ∷ []) one_item 5 ≡ some (true, q'))
    × (contents 1 q' ≡ 9 ∷ 5 ∷ [])
    × (q'.dequeue_pos ≡ 3)
    × IsValid 1 q'
unfolding Fifo.push
try_enqueue_refines_example =
    try_enqueue_refines 1 one_item one_item-IsValid (false ∷ true ∷ []) 5 (omega arith) tt

try_dequeue_refines_example :
    (q' : MpmcQueue ℕ) × (try_dequeue (true ∷ []) one_item ≡ some (some 9, q'))
    × (contents 1 q' ≡ [])
    × (q'.dequeue_pos ≤ 4)
    × IsValid 1 q'
unfolding Fifo.pop
try_dequeue_refines_example =
    try_dequeue_refines 1 one_item one_item-IsValid (true ∷ []) (omega arith) tt

init_lem_example :
    (q : MpmcQueue ℕ) × (init (2 ^ 12) ≡ some q)
    × IsValid 12 q
    × (contents 12 q ≡ [])
    × (q.dequeue_pos ≡ 0)
init_lem_example = init_lem 12 (omega arith) (omega arith)

size-eq-length_example : size one_item ≡ length (contents 1 one_item)
size-eq-length_example = size-eq-length 1 one_item one_item-IsValid (omega arith)

bad_capacity : init {A = ℕ} 12 ≡ none
unfolding init
bad_capacity = refl
