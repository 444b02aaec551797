-- ===== src/Core/Stop.antt =====
-- `Stop` of a worker: its thread ends with an empty queue.
use flashsale_system_imitati.Prelude.{
  ℕ, suc, ◌≡◌, ◌<◌, ◌+◌, ◌%◌, ◌^◌, refl, ap, ◌∙◌, subst, false, some, List, [], length,
}
use flashsale_system_imitati.Messages.{WorkerRequest, worker_request_default}
use flashsale_system_imitati.Spsc
use flashsale_system_imitati.Spsc.{SpscQueue}
use flashsale_system_imitati.Worker.{Worker}
use flashsale_system_imitati.Core.Loop.{Effect, Meets, loop, close_wal, stop}
use flashsale_system_imitati.Core.Rounds.{ReadsFalse}
use flashsale_system_imitati.Core.Drain.{loop-Ends}
use flashsale_system_imitati.Core.Dressed.{Dress, dress, process_each, process_each-dress}
use flashsale_system_imitati.Core.Place.{FindsPlace, AreEffects}

stop-eq :
    (fuel : ℕ) (meets : Meets) (w : Worker) (o : Worker × List Effect)
    → loop fuel meets.reads meets.mets 0 (record w { running = false }) ≡ some o
    → stop fuel meets w ≡ some (close_wal meets.written o.0, o.1)
unfolding stop
stop-eq fuel meets w o h = rw (h, stop) refl

-- `Stop` on a worker that is between two batches ends, if nobody adds to its queue, one of the thread's
-- reads of `running_` finds it false, of the tries to enqueue a result one meets a queue of results that
-- is not full (somebody polls), and the loop has as many rounds as there are requests and reads. All
-- requests of the queue have then been processed in their order, each on the shared atomics that its
-- call met, and nothing else has: the queue is empty, the counter of processed requests has grown by
-- their number, the log is closed, and each result stands in the queue of results, as the last of the
-- items that the first try found which met a free place.
pub stop-drains :
    (k fuel : ℕ) (meets : Meets) (w : Worker)
    → Spsc.Inv.IsValid w.queue
    → ReadsFalse meets.reads
    → ((n : ℕ) → FindsPlace k (meets.mets n).tries)
    → w.is_processing ≡ false
    → w.processed_count < 2 ^ 64
    → length (Spsc.Refine.contents w.queue) + length meets.reads < suc fuel
    → let (w', outs) = process_each meets.mets 0 (Spsc.Refine.contents w.queue) w in
      (q : SpscQueue WorkerRequest) × (effects : List Effect) × (stop fuel meets w
        ≡ some (
          close_wal meets.written (record w' {
            running = false;
            is_processing = false;
            queue = q;
            processed_count = (w.processed_count + length (Spsc.Refine.contents w.queue)) % 2 ^ 64;
          }),
          effects,
        ))
      × AreEffects k meets.mets 0 outs effects
      × (Spsc.Refine.contents q ≡ [])
stop-drains k fuel meets w v off finds idle fits h =
    let (q, effects, ended, done, empty) =
      loop-Ends k meets.mets finds fuel meets.reads 0 (record w { running = false }) v off idle fits
        h in
    let dressed = process_each-dress meets.mets halted 0 (Spsc.Refine.contents w.queue) w in
    (
      q,
      effects,
      stop-eq fuel meets w _ (ended ∙ ap (λ o. some (dress (last q) o.0, effects)) dressed),
      subst (λ o. AreEffects k meets.mets 0 o.1 effects) dressed done,
      empty,
    )
  where
    halted : Dress
    halted = record {
      running = false;
      is_processing = w.is_processing;
      queue = w.queue;
      processed_count = w.processed_count;
    }

    last : SpscQueue WorkerRequest → Dress
    last q = record {
      running = false;
      is_processing = false;
      queue = q;
      processed_count = (w.processed_count + length (Spsc.Refine.contents w.queue)) % 2 ^ 64;
    }
