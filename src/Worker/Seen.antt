-- ===== src/Worker/Seen.antt =====
-- Idempotency: which requests of a batch get a result, and what is forgotten when the set of seen ids
-- is emptied.
use flashsale_system_imitati.Prelude.{
  ℕ, ◌+◌, ◌≤◌, ◌<◌, ◌≡◌, ◌≢◌, refl, ◌∙◌, Bool, true, false, not, ◌&&◌, ◌||◌, none, List, [], ◌∷◌,
  ◌++◌, length, ◌==◌, if◌then◌else◌, arith,
}
use flashsale_system_imitati.Prelude.Dict.{contains}
use flashsale_system_imitati.Fifo.{option_list}
use flashsale_system_imitati.Messages.{WorkerRequest, CSeckillResult}
use flashsale_system_imitati.Worker.{
  Shared, Env, Worker, benchmark_limit, max_seen, is_duplicate, process, process_batch,
  process_order, deduct, sell, benchmark_result, write_to_wal, run_check,
}
use flashsale_system_imitati.Worker.Cases.{deduct_cases, process_cases, remember, Outcome}
use flashsale_system_imitati.Worker.Stock.{prepare_result-fields}

-- The results that carry an id.
abbrev pub results_for : ℕ → List CSeckillResult → ℕ
results_for id [] = 0
results_for id (res ∷ rs) = (if res.request_id == id then 1 else 0) + results_for id rs

results_for-append :
    (id : ℕ) (xs ys : List CSeckillResult)
    → results_for id (xs ++ ys) ≡ results_for id xs + results_for id ys
results_for-append id [] ys = omega arith
results_for-append id (x ∷ xs) ys = omega (arith, results_for-append id xs ys)

abbrev pub requested : ℕ → List (Env × WorkerRequest) → Bool
requested id [] = false
requested id ((env, req) ∷ reqs) = req.request_id == id || requested id reqs

-- The other parts of a call leave the set of seen ids alone.
seen-deduct :
    (env : Env) (w : Worker) (sh : Shared) (req : WorkerRequest)
    → (deduct env w sh req).0.seen_requests ≡ w.seen_requests
unfolding sell write_to_wal
seen-deduct env w sh req =
    deduct_cases env w sh req (λ out. out.0.seen_requests ≡ w.seen_requests) (λ _. refl)
      (λ stock _ _. ground arith) (λ _ _ _. refl)

module _ (env : Env) (w : Worker) (sh : Shared) (req : WorkerRequest) where
  seen-process_order : (process_order env w sh req).0.seen_requests ≡ w.seen_requests
  unfolding process_order
  seen-process_order =
      seen-deduct env (record w { check = run_check req.request_id w.check }) sh req

  results-process_order :
      (id : ℕ)
      → results_for id (option_list (process_order env w sh req).2)
        ≡ (if req.request_id == id then 1 else 0)
  unfolding process_order
  results-process_order id = ground (arith, prepare_result-fields req)

-- What a call, from `w`, does about the id `id`: with the ids seen so far it is remembered after it just
-- if it was remembered before or is the request's, and the request gets a result just if it was not.
abbrev Answers : ℕ → Worker → WorkerRequest → Outcome → Type 0
Answers id w req out =
    (contains id out.0.seen_requests ≡ (req.request_id == id || contains id w.seen_requests))
    × (length out.0.seen_requests ≤ length w.seen_requests + 1)
    × (results_for id (option_list out.2)
        ≡ (if not (contains id w.seen_requests) && req.request_id == id then 1 else 0))

is_duplicate-true :
    (seen : List ℕ) (r : ℕ) → (is_duplicate seen r).0 ≡ true → contains r seen ≡ true
unfolding is_duplicate
is_duplicate-true seen r e = ground arith

is_duplicate-false :
    (seen : List ℕ) (r : ℕ)
    → length seen < max_seen
    → (is_duplicate seen r).0 ≡ false
    → (contains r seen ≡ false) × ((is_duplicate seen r).1 ≡ r ∷ seen)
unfolding is_duplicate
is_duplicate-false seen r h e = ground arith

id-benchmark_result :
    (env : Env) (req : WorkerRequest) → (benchmark_result env req).request_id ≡ req.request_id
unfolding benchmark_result
id-benchmark_result env req = ground arith

process-Answers :
    (env : Env) (w : Worker) (sh : Shared) (req : WorkerRequest) (id : ℕ)
    → id ≢ 0
    → id ≤ benchmark_limit
    → length w.seen_requests < max_seen
    → Answers id w req (process env w sh req)
unfolding contains
process-Answers env w sh req id h1 h2 room =
    process_cases env w sh req (Answers id w req) (λ e. ground arith) (λ e. ground arith)
      (λ e. ground (arith, id-benchmark_result env req))
      (λ _ _ e. ground (arith, is_duplicate-true w.seen_requests req.request_id e))
      (λ _ _ e. ground (
        arith,
        is_duplicate-false w.seen_requests req.request_id room e,
        seen-process_order env (remember w req.request_id) sh req,
        results-process_order env (remember w req.request_id) sh req id,
      ))

-- In a batch that cannot fill the set of seen ids (the ids in it and the requests of the batch are at
-- most 100000 together), each order id, that is one from 1 to 18000000000000000000, gets exactly one
-- result if some request of the batch carries it and the worker has not seen it before, and none
-- otherwise, however often it is requested.
pub process_batch-once :
    (reqs : List (Env × WorkerRequest)) (w : Worker) (sh : Shared) (id : ℕ)
    → id ≢ 0
    → id ≤ benchmark_limit
    → length w.seen_requests + length reqs ≤ max_seen
    → results_for id (process_batch reqs w sh).2
      ≡ (if not (contains id w.seen_requests) && requested id reqs then 1 else 0)
unfolding process_batch
process_batch-once [] w sh id h1 h2 room = ground arith
process_batch-once ((env, req) ∷ reqs) w sh id h1 h2 room =
    let (w', sh', out) = process env w sh req in
    let answers = process-Answers env w sh req id h1 h2 (omega arith) in
    ground (
      arith,
      answers,
      process_batch-once reqs w' sh' id h1 h2 (omega (arith, answers)),
      results_for-append id (option_list out) (process_batch reqs w' sh').2,
    )

-- A worker that remembers 100000 ids forgets all of them at the next new order: a request that was a
-- duplicate just before, and changed nothing, is then processed again and gets a second result.
pub process-forgets :
    (env env' : Env) (w : Worker) (sh sh' : Shared) (new old : WorkerRequest)
    → length w.seen_requests ≡ max_seen
    → contains new.request_id w.seen_requests ≡ false
    → new.request_id ≢ 0
    → new.request_id ≤ benchmark_limit
    → contains old.request_id w.seen_requests ≡ true
    → old.request_id ≢ 0
    → old.request_id ≤ benchmark_limit
    → (process env' w sh' old ≡ (w, sh', none))
      × (let w' : Worker = (process env w sh new).0 in
          results_for old.request_id (option_list (process env' w' sh' old).2) ≡ 1)
unfolding is_duplicate contains
process-forgets env env' w sh sh' new old full fresh n0 n1 seen o0 o1 = (
  process_cases env' w sh' old (λ out. out ≡ (w, sh', none)) (λ e. absurd (o0 e))
      (λ e. absurd (omega arith)) (λ e. absurd (omega arith)) (λ _ _ _. refl)
      (λ _ _ e. ground arith),
  ground (arith, empty, process-Answers env' (process env w sh new).0 sh' old old.request_id o0 o1),
)
  where
    empty : (process env w sh new).0.seen_requests ≡ []
    empty =
        process_cases env w sh new (λ out. out.0.seen_requests ≡ []) (λ e. absurd (n0 e))
          (λ e. absurd (omega arith)) (λ e. absurd (omega arith)) (λ _ _ e. ground arith)
          (λ _ _ e. seen-process_order env (remember w new.request_id) sh new ∙ ground arith)
