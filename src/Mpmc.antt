-- ===== src/Mpmc.antt =====
-- `MpmcQueue` of backend/handler/mpmc_queue.hpp (engine/src/mpmc_queue.hpp has the same text): the
-- bounded queue of the requests that come in, and of the results. The steps between which other
-- threads may run are functions of their own; `try_enqueue` and `try_dequeue` compose them into calls
-- that run by themselves.
pub mod Inv
pub mod Enqueue
pub mod Dequeue
pub mod Start
mod Tests
use Prim.Native.Nat.{bit_and}
use flashsale_system_imitati.Prelude.{
  ℕ, zero, suc, ◌+◌, ◌-◌, Bool, true, false, Option, none, some, List, [], ◌∷◌, ltb, ◌==◌, ◌||◌,
  not, if◌then◌else◌, length, get_or, set, Default, add_size, sub_size,
}
use flashsale_system_imitati.Prelude.Int.{ℤ, pos, ◌-ℤ◌, from_bits64, eqb_ℤ, ltb_ℤ}

-- `item` is the field `data`.
pub record Cell {ℓ} (A : Type ℓ) : Type ℓ where
  pub sequence : ℕ
  pub item : A

pub record MpmcQueue {ℓ} (A : Type ℓ) : Type ℓ where
  pub buffer : List (Cell A)
  pub mask : ℕ
  pub enqueue_pos : ℕ
  pub dequeue_pos : ℕ

instance abbrev pub cell_default {ℓ} : {A : Type ℓ} ⦃d : Default A⦄ → Default (Cell A)
cell_default ⦃d⦄ = record { dflt = record { sequence = 0; item = d.dflt } }

-- What a thread finds out about the cell of a position: the position is its own to claim, the queue is
-- full (or empty), or another thread was faster and the position is to be read again.
pub data Look : Type 0 where
  free stop again : Look

-- `dif`, with what is done about it: `expected` is the sequence number of a cell that is free.
unfoldable pub compare_sequence : ℕ → ℕ → Look
compare_sequence seq expected =
    let dif = from_bits64 seq -ℤ from_bits64 expected in
    if eqb_ℤ dif (pos 0) then free else if ltb_ℤ dif (pos 0) then stop else again

module _ {ℓ} {A : Type ℓ} ⦃d : Default A⦄ where
  unfoldable pub new_cells : ℕ → ℕ → List (Cell A)
  new_cells i zero = []
  new_cells i (suc n) = record { sequence = i; item = d.dflt } ∷ new_cells (i + 1) n

  -- The constructor: `none` is the exception for a capacity that is no power of 2, or 1.
  unfoldable pub init : ℕ → Option (MpmcQueue A)
  unfolding new_cells
  init capacity =
      if ltb capacity 2 || not (bit_and capacity (sub_size capacity 1) == 0)
      then none
      else some (record {
        buffer = new_cells 0 capacity;
        mask = capacity - 1;
        enqueue_pos = 0;
        dequeue_pos = 0;
      })

  -- `buffer_[pos & mask_]`
  abbrev pub index : MpmcQueue A → ℕ → ℕ
  index q at = bit_and at q.mask

  abbrev pub cell_at : MpmcQueue A → ℕ → Cell A
  cell_at q at = get_or q.buffer (index q at) cell_default.dflt

  unfoldable pub look_enqueue : MpmcQueue A → ℕ → Look
  look_enqueue q at = compare_sequence (cell_at q at).sequence at

  unfoldable pub look_dequeue : MpmcQueue A → ℕ → Look
  look_dequeue q at = compare_sequence (cell_at q at).sequence (add_size at 1)

  -- The compare-exchange that succeeds.
  unfoldable pub claim_enqueue : MpmcQueue A → ℕ → MpmcQueue A
  claim_enqueue q at = record q { enqueue_pos = add_size at 1 }

  unfoldable pub claim_dequeue : MpmcQueue A → ℕ → MpmcQueue A
  claim_dequeue q at = record q { dequeue_pos = add_size at 1 }

  -- The data, then the sequence number that shows it to the consumers.
  unfoldable pub publish : MpmcQueue A → ℕ → A → MpmcQueue A
  publish q at x = record q {
    buffer = set q.buffer (index q at) (record { sequence = add_size at 1; item = x });
  }

  -- The data has been read: the sequence number that gives the cell to the producers, a round later.
  unfoldable pub release : MpmcQueue A → ℕ → MpmcQueue A
  release q at = record q {
    buffer =
        set q.buffer (index q at)
          (record (cell_at q at) { sequence = add_size (add_size at q.mask) 1 });
  }

  -- The loop of `try_enqueue` with no other thread at work, from the position `at`. The list says of
  -- each round whether a compare-exchange in it would succeed (`compare_exchange_weak` may fail where
  -- nothing has changed); `none` means that the list ended before the loop.
  unfoldable pub enqueue_loop : List Bool → MpmcQueue A → ℕ → A → Option (Bool × MpmcQueue A)
  enqueue_loop [] q at x = none
  enqueue_loop (cas ∷ rounds) q at x =
      let more = enqueue_loop rounds q q.enqueue_pos x in
      elim (look_enqueue q at) [
        | free ↦ if cas then some (true, publish (claim_enqueue q at) at x) else more
        | stop ↦ some (false, q)
        | again ↦ more
      ]

  unfoldable pub try_enqueue : List Bool → MpmcQueue A → A → Option (Bool × MpmcQueue A)
  try_enqueue rounds q x = enqueue_loop rounds q q.enqueue_pos x

  unfoldable pub dequeue_loop : List Bool → MpmcQueue A → ℕ → Option (Option A × MpmcQueue A)
  dequeue_loop [] q at = none
  dequeue_loop (cas ∷ rounds) q at =
      let more = dequeue_loop rounds q q.dequeue_pos in
      elim (look_dequeue q at) [
        | free ↦
            if cas then some (some (cell_at q at).item, release (claim_dequeue q at) at) else more
        | stop ↦ some (none, q)
        | again ↦ more
      ]

  unfoldable pub try_dequeue : List Bool → MpmcQueue A → Option (Option A × MpmcQueue A)
  try_dequeue rounds q = dequeue_loop rounds q q.dequeue_pos

  -- Approximate size.
  unfoldable pub size : MpmcQueue A → ℕ
  size q = if ltb q.enqueue_pos q.dequeue_pos then 0 else sub_size q.enqueue_pos q.dequeue_pos
