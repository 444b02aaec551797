-- ===== src/OrderWorker/Queue.antt =====
-- What the order worker relies on of its queue: calls take effect one at a time, as on a FIFO that may
-- refuse an intent, and that gives one out whenever it has one.
use flashsale_system_imitati.Prelude.{◌≡◌, List, [], ◌∷◌, ◌++◌, if◌then◌else◌}
use flashsale_system_imitati.Fifo.{pop}
use flashsale_system_imitati.OrderWorker.{OrderIntent, QueueOps}

pub record QueueLaws {Q : Type 0} (ops : QueueOps Q) : Type 0 where
  -- Oldest first.
  pub contents : Q → List OrderIntent
  pub contents-try_enqueue :
      (x : OrderIntent) (q : Q)
      → contents (ops.try_enqueue x q).1
        ≡ (if (ops.try_enqueue x q).0 then contents q ++ (x ∷ []) else contents q)
  pub try_dequeue-pop :
      (q : Q) → ((ops.try_dequeue q).0, contents (ops.try_dequeue q).1) ≡ pop (contents q)
