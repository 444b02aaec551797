-- ===== src/Spsc/Tests.antt =====
-- `SpscQueue` on concrete inputs.
use flashsale_system_imitati.Prelude.{ℕ, ◌≡◌, refl, false, List, [], ◌∷◌, Default, arith}
use flashsale_system_imitati.Fifo
use flashsale_system_imitati.Fifo.{Op, put, put_batch, get, get_batch}
use flashsale_system_imitati.Spsc.{
  SpscQueue, init, try_enqueue_batch, size, try_dequeue_batch, free_space, copy_out_ring, available,
  copy_out,
}
use flashsale_system_imitati.Spsc.Inv.{IsValid}
use flashsale_system_imitati.Spsc.Refine.{contents}
use flashsale_system_imitati.Spsc.Run.{run, run_refines, run-init}

instance abbrev nat_default : Default ℕ
nat_default = record { dflt = 0 }

-- 7, 8, 9 round the end of a buffer of five cells.
abbrev wrapped : SpscQueue ℕ
wrapped = record { head = 3; tail = 1; buffer = 9 ∷ 0 ∷ 0 ∷ 7 ∷ 8 ∷ [] }

abbrev script : List (Op ℕ)
script =
    put_batch (1 ∷ 2 ∷ []) ∷ put 3 ∷ get ∷ put_batch (4 ∷ 5 ∷ []) ∷ get_batch 3 ∷ Op.size ∷ get ∷ []

wrapped-IsValid : IsValid wrapped
wrapped-IsValid = omega arith

contents-wrapped : contents wrapped ≡ 7 ∷ 8 ∷ 9 ∷ []
unfolding size
contents-wrapped = refl

batch_wraps : (try_dequeue_batch wrapped 9).0 ≡ 7 ∷ 8 ∷ 9 ∷ []
unfolding try_dequeue_batch copy_out_ring available copy_out
batch_wraps = refl

batch_too_large : (try_enqueue_batch wrapped (1 ∷ 2 ∷ [])).0 ≡ false
unfolding try_enqueue_batch free_space
batch_too_large = refl

run_refines_example : run wrapped script ≡ Fifo.run 4 (contents wrapped) script
run_refines_example = run_refines script wrapped-IsValid

run-init_example : run (init 4) script ≡ Fifo.run 4 [] script
run-init_example = run-init 4 script (omega arith)
