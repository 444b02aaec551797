-- ===== src/Spsc/Threads.antt =====
-- One producer and one consumer in `try_enqueue` and `try_dequeue` at the same time: each access to
-- `head_`, `tail_` or a cell is a move of its own, and the threads' moves come in any order.
use flashsale_system_imitati.Prelude.{
  ℕ, ◌%◌, Option, none, some, List, [], ◌∷◌, ◌++◌, ◌==◌, if◌then◌else◌, length, set, Default, Bool,
  true, false, add_size,
}
use flashsale_system_imitati.Spsc.{SpscQueue, cell}

-- The producer: between two calls, with `current_tail`, past its test, past its write to the cell.
pub data Producer (A : Type 0) : Type 0 where
  waits : Producer A
  loaded_tail : A → ℕ → Producer A
  has_room : A → ℕ → ℕ → Producer A
  wrote : A → ℕ → Producer A

-- The consumer: between two calls, with `current_head`, past its test, with the item.
pub data Consumer (A : Type 0) : Type 0 where
  rests : Consumer A
  loaded_head : ℕ → Consumer A
  has_item : ℕ → Consumer A
  read : ℕ → A → Consumer A

pub record System (A : Type 0) : Type 0 where
  pub queue : SpscQueue A
  pub producer : Producer A
  pub consumer : Consumer A

-- What a call has decided to return: `try_enqueue(item)` its answer, `try_dequeue` its item or false.
pub data Event (A : Type 0) : Type 0 where
  put : A → Bool → Event A
  got : Option A → Event A

pub data Move (A : Type 0) : Type 0 where
  calls_enqueue : A → Move A
  produces : Move A
  calls_dequeue : Move A
  consumes : Move A

module _ {A : Type 0} where
  -- `try_enqueue(item)` begins, with its load of `tail_`.
  unfoldable pub call_enqueue : A → Producer A → System A → Option (System A × List (Event A))
  call_enqueue x waits s = some (record s { producer = loaded_tail x s.queue.tail }, [])
  call_enqueue x (loaded_tail y t) s = none
  call_enqueue x (has_room y t next) s = none
  call_enqueue x (wrote y next) s = none

  -- The next access of `try_enqueue`.
  unfoldable pub produce : Producer A → System A → Option (System A × List (Event A))
  produce waits s = none
  produce (loaded_tail x current_tail) s =
      let next_tail = add_size current_tail 1 % length s.queue.buffer in
      if next_tail == s.queue.head
      then some (record s { producer = waits }, put x false ∷ [])
      else some (record s { producer = has_room x current_tail next_tail }, [])
  produce (has_room x current_tail next_tail) s = some (
    record s {
      queue = record s.queue { buffer = set s.queue.buffer current_tail x };
      producer = wrote x next_tail;
    },
    [],
  )
  produce (wrote x next_tail) s =
      some (
        record s { queue = record s.queue { tail = next_tail }; producer = waits },
        put x true ∷ [],
      )

module _ {A : Type 0} ⦃d : Default A⦄ where
  -- `try_dequeue` begins, with its load of `head_`.
  unfoldable pub call_dequeue : Consumer A → System A → Option (System A × List (Event A))
  call_dequeue rests s = some (record s { consumer = loaded_head s.queue.head }, [])
  call_dequeue (loaded_head h) s = none
  call_dequeue (has_item h) s = none
  call_dequeue (read h x) s = none

  -- The next access of `try_dequeue`.
  unfoldable pub consume : Consumer A → System A → Option (System A × List (Event A))
  consume rests s = none
  consume (loaded_head current_head) s =
      if current_head == s.queue.tail
      then some (record s { consumer = rests }, got none ∷ [])
      else some (record s { consumer = has_item current_head }, [])
  consume (has_item current_head) s =
      some (record s { consumer = read current_head (cell s.queue.buffer current_head) }, [])
  consume (read current_head x) s = some (
    record s {
      queue = record s.queue { head = add_size current_head 1 % length s.queue.buffer };
      consumer = rests;
    },
    got (some x) ∷ [],
  )

  unfoldable pub step : Move A → System A → Option (System A × List (Event A))
  step (calls_enqueue x) s = call_enqueue x s.producer s
  step produces s = produce s.producer s
  step calls_dequeue s = call_dequeue s.consumer s
  step consumes s = consume s.consumer s

  -- `none`: a move that its thread cannot make.
  unfoldable pub run : List (Move A) → System A → Option (System A × List (Event A))
  run [] s = some (s, [])
  run (move ∷ moves) s = elim (step move s) [
    | none ↦ none
    | some (s', tr) ↦ elim (run moves s') [ none ↦ none | some (s'', trs) ↦ some (s'', tr ++ trs) ]
  ]
