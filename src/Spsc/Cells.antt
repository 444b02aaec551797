-- ===== src/Spsc/Cells.antt =====
-- Which cells the two copy loops of `try_enqueue_batch` write.
use flashsale_system_imitati.Prelude.{ℕ, ◌^◌, ◌≤◌, ◌<◌, List, length, take, min, sub_size}
use flashsale_system_imitati.Spsc.{copy_in}

module _ {ℓ} {A : Type ℓ} (d : A) where
  module _ (buf items : List A) (at : ℕ) (inside : at < length buf) (small : length buf ≤ 2 ^ 63)
      (fits : length items ≤ length buf) where
    abbrev first_chunk : ℕ
    first_chunk = min (length items) (sub_size (length buf) at)

    abbrev once : List A
    once = copy_in buf at (take first_chunk items)
