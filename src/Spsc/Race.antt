-- ===== src/Spsc/Race.antt =====
-- The two threads of an SpscQueue do not disturb each other.
use flashsale_system_imitati.Prelude.{
  ℕ, zero, suc, ◌+◌, ◌%◌, ◌≤◌, ◌<◌, ◌≡◌, refl, ap, ap₂, leb, sub_size, sym, ◌∙◌, Option, none, some,
  List, [], ◌∷◌, ◌++◌, if◌then◌else◌, length, set, Default, add_size, arith, true, false, subst,
  length-append, length-set,
}
use flashsale_system_imitati.Prelude.Lists.{get_or-set_self, get_or-set_ne}
use flashsale_system_imitati.Fifo
use flashsale_system_imitati.Spsc.{SpscQueue, cell, size}
use flashsale_system_imitati.Spsc.Inv.{IsValid, tail-eq}
use flashsale_system_imitati.Spsc.Window.{window, window-add, add-mod-ne, step-mod}
use flashsale_system_imitati.Spsc.Refine.{
  contents, capacity, length-contents, contents-put, contents-got, empty_iff,
}
use flashsale_system_imitati.Spsc.Threads.{
  Producer, waits, loaded_tail, has_room, wrote, Consumer, rests, loaded_head, has_item, read,
  System, Event, put, got,
}

module _ {A : Type 0} ⦃d : Default A⦄ where
  -- A write past the window does not show in it.
  window-set_past :
      (buf : List A) (n : ℕ) (x : A) (k j h i : ℕ)
      → k + j < n
      → h < n
      → i ≡ (h + (k + j)) % n
      → window (set buf i x) n h k ≡ window buf n h k
  window-set_past buf n x zero j h i lt hh e = refl
  window-set_past buf n x (suc k) j h i lt hh e =
      let e' : i ≡ (h + suc (k + j)) % n = e ∙ ap (λ m. (h + m) % n) (omega arith) in
      ap₂ ◌∷◌
        (get_or-set_ne buf x d.dflt
          (λ p. add-mod-ne {n = n} {h = h} {k = k + j} hh (omega arith) (sym e' ∙ p)))
        (window-set_past buf n x k j ((h + 1) % n) i (omega arith) (omega arith)
          (e' ∙ step-mod h (k + j) n))

  -- What the producer knows of the queue at each point of its call.
  abbrev pub ProducerKnows : SpscQueue A → Producer A → Type 0
  ProducerKnows q waits = Unit
  ProducerKnows q (loaded_tail x t) = t ≡ q.tail
  ProducerKnows q (has_room x t next) =
      (t ≡ q.tail) × (next ≡ add_size q.tail 1 % length q.buffer) × (size q + 1 < length q.buffer)
  ProducerKnows q (wrote x next) =
      (next ≡ add_size q.tail 1 % length q.buffer)
      × (size q + 1 < length q.buffer)
      × (cell q.buffer q.tail ≡ x)

  abbrev pub ConsumerKnows : SpscQueue A → Consumer A → Type 0
  ConsumerKnows q rests = Unit
  ConsumerKnows q (loaded_head h) = h ≡ q.head
  ConsumerKnows q (has_item h) = (h ≡ q.head) × (0 < size q)
  ConsumerKnows q (read h x) = (h ≡ q.head) × (0 < size q) × (cell q.buffer q.head ≡ x)

  pub record IsSystem (s : System A) : Type 0 where
    pub valid : IsValid s.queue
    pub producer_knows : ProducerKnows s.queue s.producer
    pub consumer_knows : ConsumerKnows s.queue s.consumer

  -- The answers are those that a FIFO of `cap` places gives which holds `xs`, and ends with `ys`.
  abbrev pub Follows : ℕ → List A → List (Event A) → List A → Type 0
  Follows cap xs [] ys = xs ≡ ys
  Follows cap xs (put x done ∷ es) ys =
      ((Fifo.push cap xs x).0 ≡ done) × Follows cap (Fifo.push cap xs x).1 es ys
  Follows cap xs (got out ∷ es) ys = ((Fifo.pop xs).0 ≡ out) × Follows cap (Fifo.pop xs).1 es ys

  pub Follows-append :
      (cap : ℕ) (xs : List A) (es : List (Event A)) (ys : List A) (es' : List (Event A))
      (zs : List A)
      → Follows cap xs es ys
      → Follows cap ys es' zs
      → Follows cap xs (es ++ es') zs
  Follows-append cap xs [] ys es' zs f g = subst (λ l. Follows cap l es' zs) (sym f) g
  Follows-append cap xs (put x done ∷ es) ys es' zs f g =
      (f.0, Follows-append cap (Fifo.push cap xs x).1 es ys es' zs f.1 g)
  Follows-append cap xs (got out ∷ es) ys es' zs f g =
      (f.0, Follows-append cap (Fifo.pop xs).1 es ys es' zs f.1 g)

  -- What a move that can be made keeps.
  abbrev pub Keeps : System A → Option (System A × List (Event A)) → Type 0
  Keeps s none = Unit
  Keeps s (some (s', es)) =
      Follows (capacity s.queue) (contents s.queue) es (contents s'.queue)
      × (length s'.queue.buffer ≡ length s.queue.buffer)
      × IsSystem s'

  push-room :
      (cap : ℕ) (xs : List A) (x : A) (ys : List A)
      → length xs < cap
      → xs ++ (x ∷ []) ≡ ys
      → Follows cap xs (put x true ∷ []) ys
  unfolding Fifo.push
  push-room cap xs x ys h e = (ground arith, ground (arith, e))

  pub push-full :
      (cap : ℕ) (xs : List A) (x : A) → length xs ≡ cap → Follows cap xs (put x false ∷ []) xs
  unfolding Fifo.push
  push-full cap xs x h = (ground arith, ground arith)

  pub pop-empty : (cap : ℕ) (xs : List A) → xs ≡ [] → Follows cap xs (got none ∷ []) xs
  unfolding Fifo.pop
  pop-empty cap xs e = subst (λ l. Follows cap l (got none ∷ []) l) (sym e) (refl, refl)

  pop-item :
      (cap : ℕ) (xs ys : List A) (x : A) → xs ≡ x ∷ ys → Follows cap xs (got (some x) ∷ []) ys
  unfolding Fifo.pop
  pop-item cap xs ys x e = subst (λ l. Follows cap l (got (some x) ∷ []) ys) (sym e) (refl, refl)

  -- More items leave the consumer's knowledge true.
  ConsumerKnows-grown :
      (q q' : SpscQueue A)
      → q'.head ≡ q.head
      → size q ≤ size q'
      → (0 < size q → cell q'.buffer q'.head ≡ cell q.buffer q.head)
      → (c : Consumer A) → ConsumerKnows q c
      → ConsumerKnows q' c
  ConsumerKnows-grown q q' h n same rests k = tt
  ConsumerKnows-grown q q' h n same (loaded_head t) k = k ∙ sym h
  ConsumerKnows-grown q q' h n same (has_item t) k = (k.0 ∙ sym h, omega (arith, k.1))
  ConsumerKnows-grown q q' h n same (read t x) k = (k.0 ∙ sym h, omega (arith, k.1), same k.1 ∙ k.2)

  -- Fewer items leave the producer's knowledge true.
  ProducerKnows-shrunk :
      (q : SpscQueue A) (head : ℕ)
      → size (record q { head = head }) ≤ size q
      → (p : Producer A) → ProducerKnows q p
      → ProducerKnows (record q { head = head }) p
  ProducerKnows-shrunk q head n waits k = tt
  ProducerKnows-shrunk q head n (loaded_tail x t) k = k
  ProducerKnows-shrunk q head n (has_room x t next) k = (k.0, k.1, omega (arith, k.2))
  ProducerKnows-shrunk q head n (wrote x next) k = (k.0, omega (arith, k.1), k.2)

  module _ (s : System A) (v : IsSystem s) where
    abbrev q : SpscQueue A
    q = s.queue

    -- The cell is written.
    module _ (x : A) (next : ℕ) (e : next ≡ add_size q.tail 1 % length q.buffer)
        (r : size q + 1 < length q.buffer) where
      abbrev written : SpscQueue A
      written = record q { buffer = set q.buffer q.tail x }

      size-written : size written ≡ size q
      unfolding size
      size-written =
          ap
            (λ n.
              if leb q.head q.tail
              then sub_size q.tail q.head
              else sub_size n (sub_size q.head q.tail))
            (length-set q.buffer q.tail x)

      pub contents-written : contents written ≡ contents q
      contents-written =
          ap₂ (λ n k. window (set q.buffer q.tail x) n q.head k) (length-set q.buffer q.tail x)
            size-written
          ∙ window-set_past q.buffer (length q.buffer) x (size q) 0 q.head q.tail (omega arith)
              v.valid.head_in
              (tail-eq q v.valid ∙ ap (λ k. (q.head + k) % length q.buffer) (omega arith))

      -- The oldest item is in another cell.
      cell-written : 0 < size q → cell written.buffer q.head ≡ cell q.buffer q.head
      cell-written h =
          get_or-set_ne q.buffer x d.dflt (λ p. omega (arith, (empty_iff q v.valid).0 (sym p), h))

      pub write-IsSystem : IsSystem (record s { queue = written; producer = wrote x next })
      write-IsSystem = record {
        valid = record {
          room = omega (arith, v.valid.room, length-set q.buffer q.tail x);
          small = omega (arith, v.valid.small, length-set q.buffer q.tail x);
          head_in = omega (arith, v.valid.head_in, length-set q.buffer q.tail x);
          tail_in = omega (arith, v.valid.tail_in, length-set q.buffer q.tail x);
        };
        producer_knows = (
          e ∙ ap (λ n. add_size q.tail 1 % n) (sym (length-set q.buffer q.tail x)),
          omega (arith, r, size-written, length-set q.buffer q.tail x),
          get_or-set_self q.buffer q.tail x d.dflt v.valid.tail_in,
        );
        consumer_knows =
            ConsumerKnows-grown q written refl (omega (arith, size-written)) cell-written s.consumer
              v.consumer_knows;
      }

    pub publish-Keeps :
        (x : A) (next : ℕ)
        → next ≡ add_size q.tail 1 % length q.buffer
        → size q + 1 < length q.buffer
        → cell q.buffer q.tail ≡ x
        → Keeps s (
            some (record s { queue = record q { tail = next }; producer = waits }, put x true ∷ []))
    publish-Keeps x next e r c =
        let put_in : contents (record q { tail = next }) ≡ contents q ++ (x ∷ []) =
          ap (λ t. contents (record q { tail = t })) e
          ∙ contents-put q q.buffer (x ∷ []) v.valid refl r (
              window-add q.buffer (length q.buffer) q.head (size q) 1 v.valid.head_in
              ∙ ap (λ y. contents q ++ (y ∷ []))
                  (ap (cell q.buffer) (sym (tail-eq q v.valid)) ∙ c)) in
        let counted =
          sym (length-contents (record q { tail = next }))
          ∙ ap length put_in
          ∙ length-append (contents q) (x ∷ []) in
        (
          push-room (capacity q) (contents q) x (contents (record q { tail = next }))
              (omega (arith, length-contents q, r)) (sym put_in),
          refl,
          record {
            valid = record {
              room = v.valid.room;
              small = v.valid.small;
              head_in = v.valid.head_in;
              tail_in = omega (arith, e, v.valid.room);
            };
            producer_knows = tt;
            consumer_knows =
                ConsumerKnows-grown q (record q { tail = next }) refl
                  (omega (arith, counted, length-contents q)) (λ h. refl) s.consumer
                  v.consumer_knows;
          },
        )

    pub release-Keeps :
        (h : ℕ) (x : A)
        → h ≡ q.head
        → 0 < size q
        → cell q.buffer q.head ≡ x
        → Keeps s (
            some (
              record s {
                queue = record q { head = add_size h 1 % length q.buffer };
                consumer = rests;
              },
              got (some x) ∷ [],
            ))
    release-Keeps h x e r c =
        let next = add_size h 1 % length q.buffer in
        let got_out : contents q ≡ x ∷ contents (record q { head = next }) =
          contents-got q 1 v.valid r
          ∙ ap₂ (λ y t. y ∷ contents (record q { head = add_size t 1 % length q.buffer })) c
              (sym e) in
        let counted : size q ≡ 1 + size (record q { head = next }) =
          sym (length-contents q)
          ∙ ap length got_out
          ∙ omega (arith, length-contents (record q { head = next })) in
        (
          pop-item (capacity q) (contents q) (contents (record q { head = next })) x got_out,
          refl,
          record {
            valid = record {
              room = v.valid.room;
              small = v.valid.small;
              head_in = omega (arith, v.valid.room);
              tail_in = v.valid.tail_in;
            };
            producer_knows =
                ProducerKnows-shrunk q next (omega (arith, counted)) s.producer v.producer_knows;
            consumer_knows = tt;
          },
        )
