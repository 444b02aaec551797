-- ===== src/Lib.antt =====
-- A model of the C++ engine of a flash sale: requests come in through a C interface, wait in a queue per
-- shard, are passed by a dispatcher thread to the worker thread of the shard, are decided there against
-- the stock, are logged, and are answered through a queue of results. Beside it stands a consumer of
-- order intents.
--
-- The parts, with the code that each models:
-- - Messages: the structs of backend/handler/bridge.h, `Request` of backend/handler/bridge.cpp and
--   `WorkerRequest` of backend/handler/worker.hpp.
-- - Spsc: `SpscQueue` of backend/handler/spsc_queue.hpp, the queue between a dispatcher and its worker.
--   The state is `head_`, `tail_` and `buffer_`; one function per method. Spsc/Inv has the invariant,
--   Spsc/Refine compares each call with the FIFO of Fifo, Spsc/Run compares sequences of calls,
--   Spsc/Cells says which cells a batch is written to.
--   Spsc/Threads has `try_enqueue` and `try_dequeue` of two threads, access by access, in any order, for
--   Spsc/Race and Spsc/Interleave.
-- - Mpmc: `MpmcQueue` of backend/handler/mpmc_queue.hpp, the queue of requests of a shard, and of
--   results. Loading a cell's sequence number, claiming a position, publishing and releasing are
--   functions of their own.
-- - Wal: `WalLogger` and `WalRecord` of backend/handler/wal.hpp over a file of bytes.
-- - Worker: `Worker` of backend/handler/worker.hpp: `Process` with all its branches, the set of seen
--   ids, the sold-out flags, the log and the stock. Its children prove properties of batches.
-- - Lane: one shard of backend/handler/bridge.cpp: `queues[i]`, the thread of `Dispatcher(i)` and the
--   thread of `Worker::Loop`, as moves that are made one at a time in any order.
-- - Engine: the calls of the C interface of backend/handler/bridge.cpp on the global state.
-- - Core: the engine of engine/src/bridge.cpp and engine/src/worker.hpp, with one queue for all requests,
--   a dispatcher that deals them out to four workers by SKU, and barriers. Core has the dispatcher's
--   loop round by round, Core/Api the calls, Core/Moves the threads in any order, Core/Process `Process`,
--   Core/Loop the worker's loop with `Stop` and `JoinEngine`, Core/Init `InitEngine`. Requests carry no
--   times here, so that those of a `WorkerRequest` are 0. Core/Loop runs each worker's thread by itself:
--   what the thread meets of the others (the shared atomics, the queue of results at each try, what it
--   reads from `running_`) is an argument, and its effects on what is shared are a list.
-- - Consumer: engine/src/core_consumer.cpp: the payload of an order intent, its routing to one of four
--   queues, and the verdict on a message.
-- - OrderWorker: engine/src/order_worker.cpp: producers, a queue, workers with an idempotency table, and
--   the counters of its consistency check, one atomic action at a time. The queue, which is not in the
--   repository, is a parameter (OrderWorker/Queue has its laws).
-- - Fifo is the abstract queue; Prelude has the lists, integers, dictionaries and tests that are shared.
-- The files engine/src/spsc_queue.hpp, engine/src/mpmc_queue.hpp and engine/src/wal.hpp have the same
-- text as those under backend/handler.
--
-- How the code is modelled: numbers are natural numbers with the wrap at 2^64 (2^32 for `int`) written
-- out; ℤ has the signed ones. Atomics are fields of the state that is passed on. Clock readings, answers
-- of system calls and uninitialised memory are arguments. An unordered map is an association list, a set
-- a list without repetitions. What code leaves to a loop that waits (the dispatcher on a full worker
-- queue, `Process` on a full result queue) is one move for a round of the loop.
--
-- Bounds and fuel: the loops of `MpmcQueue` run on a list of rounds, which says for each whether a
-- compare-exchange would succeed, and end as soon as one does; `Succeeds` says that there is one.
-- `WalLogger::Recover` runs on one round for each byte of the file, and a round reads 40 bytes.
-- `std::to_string` runs on 20 digits, the most that a `uint64_t` has. Positions of an `MpmcQueue` are
-- assumed below 2^63, where the code's `intptr_t` difference is exact.
-- `Worker::Loop` after `Stop` runs on rounds; as many as the queue has requests and the thread reads of
-- `running_` are enough. Its loop on a full queue of results runs on the tries that it is given.
-- The counters of the order worker do not wrap, since there are 1,600,000 intents.
--
-- Not modelled: the interleaving of steps inside a call of `MpmcQueue` or a batch call of `SpscQueue`;
-- memory orders weaker than one access after the other;
-- `WarmUpEngine`, `JoinEngine` and the monitor thread of backend/handler/bridge.cpp; backoff, sleeping
-- and tracing, which change no state here; the Go server, its caches and its database.
pub mod Prelude
pub mod Fifo
pub mod Spsc
pub mod Mpmc
pub mod OrderWorker
pub mod Wal
pub mod Messages
pub mod Worker
pub mod Lane
pub mod Engine
pub mod Consumer
pub mod Core
