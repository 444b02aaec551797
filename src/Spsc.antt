-- ===== src/Spsc.antt =====
-- `SpscQueue` of backend/handler/spsc_queue.hpp (engine/src/spsc_queue.hpp has the same text): the
-- ring of each dispatcher and worker. An operation here is one call that runs by itself; in Threads two calls overlap.
pub mod Inv
pub mod Cells
pub mod Window
pub mod Refine
pub mod Run
pub mod Threads
pub mod Race
pub mod Interleave
mod Tests
mod RaceTests
use flashsale_system_imitati.Prelude.{
  ℕ, zero, suc, ◌-◌, ◌+◌, ◌%◌, Bool, true, false, Option, none, some, List, [], ◌∷◌, ◌++◌, min, ltb,
  leb, ◌==◌, if◌then◌else◌, length, get_or, set, take, drop, replicate, Default, add_size, sub_size,
}

pub record SpscQueue {ℓ} (A : Type ℓ) : Type ℓ where
  pub head : ℕ
  pub tail : ℕ
  pub buffer : List A

module _ {ℓ} {A : Type ℓ} where
  -- `items[i]` written to `buffer_[at + i]`, for each `i` in turn.
  unfoldable pub copy_in : List A → ℕ → List A → List A
  copy_in buf at [] = buf
  copy_in buf at (x ∷ xs) = copy_in (set buf at x) (at + 1) xs

module _ {ℓ} {A : Type ℓ} where
  unfoldable pub try_enqueue : SpscQueue A → A → Bool × SpscQueue A
  try_enqueue q item =
      let current_tail = q.tail in
      let next_tail = add_size current_tail 1 % length q.buffer in
      if next_tail == q.head
      then (false, q)
      else (true, record q { buffer = set q.buffer current_tail item; tail = next_tail })

  -- The room for a batch: one cell always stays empty.
  unfoldable pub free_space : SpscQueue A → ℕ
  free_space q =
      if ltb q.tail q.head
      then sub_size (sub_size q.head q.tail) 1
      else sub_size (sub_size (length q.buffer) (sub_size q.tail q.head)) 1

  -- The items that fit before the end of the buffer are copied first, the rest from index 0.
  unfoldable pub copy_in_ring : List A → ℕ → List A → List A
  copy_in_ring buf at items =
      let count = length items in
      let first_chunk = min count (sub_size (length buf) at) in
      let once = copy_in buf at (take first_chunk items) in
      if ltb first_chunk count then copy_in once 0 (drop first_chunk items) else once

  unfoldable pub try_enqueue_batch : SpscQueue A → List A → Bool × SpscQueue A
  try_enqueue_batch q items =
      let count = length items in
      if ltb (free_space q) count then (false, q) else (
        true,
        record q {
          buffer = copy_in_ring q.buffer q.tail items;
          tail = add_size q.tail count % length q.buffer;
        },
      )

  -- Thread-safe size approximation.
  unfoldable pub size : SpscQueue A → ℕ
  size q =
      if leb q.head q.tail
      then sub_size q.tail q.head
      else sub_size (length q.buffer) (sub_size q.head q.tail)

module _ {ℓ} {A : Type ℓ} ⦃d : Default A⦄ where
  -- `SpscQueue(capacity)`: one cell more, to tell empty from full.
  unfoldable pub init : ℕ → SpscQueue A
  init capacity = record { head = 0; tail = 0; buffer = replicate (add_size capacity 1) d.dflt }

  -- `buffer_[i]`; `in_bounds` shows that every read is of a cell.
  abbrev pub cell : List A → ℕ → A
  cell buf i = get_or buf i d.dflt

  -- `buffer_[at + i]` for `i` below `n`, in turn.
  unfoldable pub copy_out : List A → ℕ → ℕ → List A
  copy_out buf at zero = []
  copy_out buf at (suc n) = cell buf at ∷ copy_out buf (at + 1) n

  -- The option is what goes to `item`.
  unfoldable pub try_dequeue : SpscQueue A → Option A × SpscQueue A
  try_dequeue q =
      let current_head = q.head in
      if current_head == q.tail then (none, q) else (
        some (cell q.buffer current_head),
        record q { head = add_size current_head 1 % length q.buffer },
      )

  -- What `try_dequeue_batch` calls `available`.
  unfoldable pub available : SpscQueue A → ℕ
  available q =
      if leb q.head q.tail
      then sub_size q.tail q.head
      else add_size (sub_size (length q.buffer) q.head) q.tail

  -- `count` items from index `at` on: up to the end of the buffer, then from index 0.
  unfoldable pub copy_out_ring : List A → ℕ → ℕ → List A
  copy_out_ring buf at count =
      let first_chunk = min count (sub_size (length buf) at) in
      let first = copy_out buf at first_chunk in
      if ltb first_chunk count then first ++ copy_out buf 0 (count - first_chunk) else first

  -- The list is what goes to `items`; its length is the count returned.
  unfoldable pub try_dequeue_batch : SpscQueue A → ℕ → List A × SpscQueue A
  try_dequeue_batch q max_count =
      let count = min (available q) max_count in
      if q.head == q.tail then ([], q) else (
        copy_out_ring q.buffer q.head count,
        record q { head = add_size q.head count % length q.buffer },
      )
