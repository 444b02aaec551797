-- ===== src/Spsc/Interleave.antt =====
-- Calls of `try_enqueue` and `try_dequeue` that overlap take effect one after the other.
use flashsale_system_imitati.Prelude.{
  ℕ, ◌+◌, ◌%◌, ◌≡◌, refl, ap, sym, ◌∙◌, subst, true, false, some, List, [], ◌∷◌, ◌==◌, length, set,
  Default, add_size, arith, dec_lt, Bool-cases, ◌-◌, length-set, inl, inr, Option-cases, none,
}
use flashsale_system_imitati.Spsc.{SpscQueue, cell, size}
use flashsale_system_imitati.Spsc.Inv.{IsValid, size-lt}
use flashsale_system_imitati.Spsc.Refine.{contents, capacity, length-contents, full_iff, empty_iff}
use flashsale_system_imitati.Spsc.Threads.{
  Producer, waits, loaded_tail, has_room, wrote, Consumer, rests, loaded_head, has_item, read,
  System, Event, put, got, Move, calls_enqueue, produces, calls_dequeue, consumes, call_enqueue,
  produce, call_dequeue, consume, step, run,
}
use flashsale_system_imitati.Spsc.Race.{
  ProducerKnows, ConsumerKnows, IsSystem, Follows, Follows-append, push-full, pop-empty, Keeps,
  contents-written, write-IsSystem, publish-Keeps, release-Keeps,
}

length_zero {ℓ} : {A : Type ℓ} (xs : List A) → length xs ≡ 0 → xs ≡ []
length_zero [] h = refl
length_zero (x ∷ xs) h = absurd (omega arith)

module _ {A : Type 0} ⦃d : Default A⦄ where
  module _ (s : System A) (v : IsSystem s) where
    -- A thread that goes on without a write.
    quiet-Keeps :
        (p : Producer A) (c : Consumer A)
        → ProducerKnows s.queue p
        → ConsumerKnows s.queue c
        → Keeps s (some (record s { producer = p; consumer = c }, []))
    quiet-Keeps p c k k' =
        (refl, refl, record { valid = v.valid; producer_knows = k; consumer_knows = k' })

    refused-Keeps :
        (x : A) (t : ℕ)
        → t ≡ s.queue.tail
        → (add_size t 1 % length s.queue.buffer == s.queue.head) ≡ true
        → Keeps s (some (record s { producer = waits }, put x false ∷ []))
    refused-Keeps x t e h = (
      push-full (capacity s.queue) (contents s.queue) x (
          length-contents s.queue
          ∙ (full_iff s.queue v.valid).0
              (ap (λ n. add_size n 1 % length s.queue.buffer) (sym e) ∙ ground arith)),
      refl,
      record { valid = v.valid; producer_knows = tt; consumer_knows = v.consumer_knows },
    )

    found_empty-Keeps :
        (t : ℕ)
        → t ≡ s.queue.head
        → (t == s.queue.tail) ≡ true
        → Keeps s (some (record s { consumer = rests }, got none ∷ []))
    found_empty-Keeps t e h = (
      pop-empty (capacity s.queue) (contents s.queue) (
          length_zero (contents s.queue)
            (length-contents s.queue ∙ (empty_iff s.queue v.valid).0 (sym e ∙ ground arith))),
      refl,
      record { valid = v.valid; producer_knows = v.producer_knows; consumer_knows = tt },
    )

    has_room-Knows :
        (x : A) (t : ℕ)
        → t ≡ s.queue.tail
        → (add_size t 1 % length s.queue.buffer == s.queue.head) ≡ false
        → ProducerKnows s.queue (has_room x t (add_size t 1 % length s.queue.buffer))
    has_room-Knows x t e h = (
      e,
      ap (λ n. add_size n 1 % length s.queue.buffer) e,
      elim (dec_lt (size s.queue + 1) (length s.queue.buffer)) [
        | yes lt ↦ lt
        | no ge ↦ absurd (
            free h (
              ap (λ n. add_size n 1 % length s.queue.buffer) e
              ∙ (full_iff s.queue v.valid).1 (omega (arith, size-lt s.queue v.valid))))
      ],
    )
      where
        free :
            (add_size t 1 % length s.queue.buffer == s.queue.head) ≡ false
            → add_size t 1 % length s.queue.buffer ≡ s.queue.head
            → ⊥
        free f p = ground arith

    has_item-Knows :
        (t : ℕ)
        → t ≡ s.queue.head
        → (t == s.queue.tail) ≡ false
        → ConsumerKnows s.queue (has_item t)
    has_item-Knows t e h = (
      e,
      elim (dec_lt 0 (size s.queue)) [
        | yes lt ↦ lt
        | no ge ↦ absurd (other h (e ∙ (empty_iff s.queue v.valid).1 (omega arith)))
      ],
    )
      where
        other : (t == s.queue.tail) ≡ false → t ≡ s.queue.tail → ⊥
        other f p = ground arith

    produce-Keeps : (p : Producer A) → ProducerKnows s.queue p → Keeps s (produce p s)
    unfolding produce
    produce-Keeps waits k = tt
    produce-Keeps (loaded_tail x t) k =
        elim (Bool-cases (add_size t 1 % length s.queue.buffer == s.queue.head)) [
          | inl full ↦ rw (full, Keeps) (refused-Keeps x t k full)
          | inr free ↦
              rw (free, Keeps)
                (quiet-Keeps _ s.consumer (has_room-Knows x t k free) v.consumer_knows)
        ]
    produce-Keeps (has_room x t next) k =
        subst
          (λ t. Keeps s (
            some (
              record s {
                queue = record s.queue { buffer = set s.queue.buffer t x };
                producer = wrote x next;
              },
              [],
            )))
          (sym k.0)
          (
            sym (contents-written s v x next k.1 k.2),
            length-set s.queue.buffer s.queue.tail x,
            write-IsSystem s v x next k.1 k.2,
          )
    produce-Keeps (wrote x next) k = publish-Keeps s v x next k.0 k.1 k.2

    consume-Keeps : (c : Consumer A) → ConsumerKnows s.queue c → Keeps s (consume c s)
    unfolding consume
    consume-Keeps rests k = tt
    consume-Keeps (loaded_head h) k = elim (Bool-cases (h == s.queue.tail)) [
      | inl empty ↦ rw (empty, Keeps) (found_empty-Keeps h k empty)
      | inr filled ↦
          rw (filled, Keeps) (quiet-Keeps s.producer _ v.producer_knows (has_item-Knows h k filled))
    ]
    consume-Keeps (has_item h) k =
        quiet-Keeps s.producer _ v.producer_knows (k.0, k.1, ap (cell s.queue.buffer) (sym k.0))
    consume-Keeps (read h x) k = release-Keeps s v h x k.0 k.1 k.2

    call_enqueue-Keeps : (x : A) (p : Producer A) → Keeps s (call_enqueue x p s)
    unfolding call_enqueue
    call_enqueue-Keeps x waits = quiet-Keeps _ s.consumer refl v.consumer_knows
    call_enqueue-Keeps x (loaded_tail y t) = tt
    call_enqueue-Keeps x (has_room y t next) = tt
    call_enqueue-Keeps x (wrote y next) = tt

    call_dequeue-Keeps : (c : Consumer A) → Keeps s (call_dequeue c s)
    unfolding call_dequeue
    call_dequeue-Keeps rests = quiet-Keeps s.producer _ v.producer_knows refl
    call_dequeue-Keeps (loaded_head h) = tt
    call_dequeue-Keeps (has_item h) = tt
    call_dequeue-Keeps (read h x) = tt

    step-Keeps : (move : Move A) → Keeps s (step move s)
    unfolding step
    step-Keeps (calls_enqueue x) = call_enqueue-Keeps x s.producer
    step-Keeps produces = produce-Keeps s.producer v.producer_knows
    step-Keeps calls_dequeue = call_dequeue-Keeps s.consumer
    step-Keeps consumes = consume-Keeps s.consumer v.consumer_knows

  run-Keeps : (moves : List (Move A)) (s : System A) → IsSystem s → Keeps s (run moves s)
  unfolding run
  run-Keeps [] s v = (refl, refl, v)
  run-Keeps (move ∷ moves) s v = elim (Option-cases (step move s)) [
    | inl e ↦ rw (e, Keeps) tt
    | inr ((s', tr), e) ↦
        let (order, same, v') : Keeps s (some (s', tr)) = subst (Keeps s) e (step-Keeps s v move) in
        elim (Option-cases (run moves s')) [
          | inl e' ↦ rw (e, Keeps) (rw e' tt)
          | inr ((s'', trs), e') ↦
              let (order', same', v'') : Keeps s' (some (s'', trs)) =
                subst (Keeps s') e' (run-Keeps moves s' v') in
              rw (e, Keeps)
                (rw e' (
                  Follows-append (capacity s.queue) (contents s.queue) tr (contents s'.queue) trs
                      (contents s''.queue) order
                      (subst (λ n. Follows (n - 1) (contents s'.queue) trs (contents s''.queue))
                        same order'),
                  same' ∙ same,
                  v'',
                ))
        ]
  ]

-- Two threads that are between two calls.
abbrev pub begin : {A : Type 0} → SpscQueue A → System A
begin q = record { queue = q; producer = waits; consumer = rests }

-- One thread that calls `try_enqueue` and one that calls `try_dequeue`, on a valid queue, with their
-- accesses to `head_`, `tail_` and the cells in any order, one at a time: the answers of the calls, in the
-- order of the accesses that decide them, are those of calls one after the other on a FIFO with the
-- queue's capacity that holds what the queue held at first, and what this FIFO holds in the end is what
-- the queue holds. So `try_enqueue` refuses exactly when the queue is full and `try_dequeue` exactly when
-- it is empty; no item is lost, repeated, overtaken or given out before it is in; and the queue is valid.
pub run-fifo :
    {A : Type 0} ⦃d : Default A⦄ (q : SpscQueue A) (moves : List (Move A)) (s : System A)
    (events : List (Event A))
    → IsValid q
    → run moves (begin q) ≡ some (s, events)
    → Follows (capacity q) (contents q) events (contents s.queue) × IsValid s.queue
run-fifo q moves s events v h =
    let (order, same, v') : Keeps (begin q) (some (s, events)) = subst (Keeps (begin q)) h (
      run-Keeps moves (begin q) (record { valid = v; producer_knows = tt; consumer_knows = tt })) in
    (order, v'.valid)
