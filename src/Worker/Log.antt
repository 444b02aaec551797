-- ===== src/Worker/Log.antt =====
-- The log of a worker: after a crash it tells just which orders were sold.
use flashsale_system_imitati.Prelude.{
  ℕ, ◌^◌, ◌<◌, ◌≡◌, refl, sym, ap, ap₂, subst, ◌∙◌, some, List, [], ◌∷◌, ◌++◌, map, append_assoc,
  append-nil, length, if◌then◌else◌, arith, map-append, map-map,
}
use flashsale_system_imitati.Prelude.Int.{ℤ, pos, IsI64, eqb_ℤ, to_i32, ◌-ℤ◌}
use flashsale_system_imitati.Prelude.Dict.{insert}
use flashsale_system_imitati.Fifo.{option_list}
use flashsale_system_imitati.Messages.{WorkerRequest, CSeckillResult}
use flashsale_system_imitati.Wal.{Bytes, WalLogger, WalRecord, append, encode, recover, record_size}
use flashsale_system_imitati.Wal.RoundTrip.{
  Entry, AllStorable, log_of, append-whole, log_of-append, AllStorable-append, recover-log_of,
  recover-torn,
}
use flashsale_system_imitati.Worker.{
  Shared, Env, Worker, wal_record, write_to_wal, sell, deduct, process_order, process,
  process_batch, run_check,
}
use flashsale_system_imitati.Worker.Cases.{deduct_cases, process_cases, remember}
use flashsale_system_imitati.Worker.Stock.{IsOrder, prepare_result-fields}

-- What the log and the results both tell of an order that was sold: SKU, quantity, request and guest.
abbrev pub Sale : Type 0
Sale = ℤ × ℤ × ℕ × ℕ

abbrev pub sale_of_record : WalRecord → Sale
sale_of_record r = (r.sku_id, r.qty, r.request_id, r.guest_id)

abbrev sale_of_result : CSeckillResult → List Sale
sale_of_result res =
    if eqb_ℤ res.status (pos 1)
    then (res.sku_id, res.qty, res.request_id, res.guest_id) ∷ []
    else []

abbrev pub sales_of : List CSeckillResult → List Sale
sales_of [] = []
sales_of (res ∷ rs) = sale_of_result res ++ sales_of rs

-- The call meets a `write` that takes all 40 bytes, and values that fit their types.
pub record IsLogged (env : Env) (req : WorkerRequest) : Type 0 where
  pub order : IsOrder req
  pub whole : env.written ≡ pos record_size
  pub time_fits : env.timestamp_ns < 2 ^ 64
  pub sku_fits : IsI64 req.sku_id
  pub guest_fits : req.guest_id < 2 ^ 64

abbrev pub AllLogged : List (Env × WorkerRequest) → Type 0
AllLogged [] = Unit
AllLogged ((env, req) ∷ reqs) = IsLogged env req × AllLogged reqs

-- In `w'` the log that was `file` has grown by entries that tell the sales, and is still open.
record Grown (file : Bytes) (log : WalLogger) (w' : Worker) (sales : List Sale) : Type 0 where
  entries : List Entry
  grows : w'.wal_file ≡ file ++ log_of entries
  tells : map (λ e. sale_of_record e.1) entries ≡ sales
  storable : AllStorable entries
  same_log : w'.wal ≡ some log

no_sale : (w : Worker) (log : WalLogger) → w.wal ≡ some log → Grown w.wal_file log w []
no_sale w log l = record {
  entries = [];
  grows = sym (append-nil w.wal_file);
  tells = refl;
  storable = tt;
  same_log = l;
}

write_to_wal-Grown :
    (env : Env) (w : Worker) (req : WorkerRequest) (log : WalLogger)
    → IsLogged env req
    → w.wal ≡ some log
    → Grown w.wal_file log
        (write_to_wal env w req)
        ((req.sku_id, req.qty, req.request_id, req.guest_id) ∷ [])
unfolding write_to_wal wal_record
write_to_wal-Grown env w req log v e = record {
  entries = (env.pad, wal_record env req) ∷ [];
  grows =
      rw (e, write_to_wal)
        (ap (λ n. (append n w.wal_file (encode env.pad (wal_record env req))).1) v.whole
          ∙ ap (λ o. o.1) (append-whole w.wal_file env.pad (wal_record env req))
          ∙ ap (λ l. w.wal_file ++ l) (sym (append-nil (encode env.pad (wal_record env req)))));
  tells = refl;
  storable = (omega (arith, v.order.id_regular), tt);
  same_log = ground arith;
}

-- The sales that a call reports by its status.
abbrev sales_by : WorkerRequest → ℤ → List Sale
sales_by req status =
    if eqb_ℤ status (pos 1) then (req.sku_id, req.qty, req.request_id, req.guest_id) ∷ [] else []

module _ (env : Env) (w : Worker) (sh : Shared) (req : WorkerRequest) (log : WalLogger) where
  deduct-Grown :
      IsLogged env req
      → w.wal ≡ some log
      → Grown w.wal_file log (deduct env w sh req).0 (sales_by req (deduct env w sh req).2)
  unfolding sell
  deduct-Grown v e =
      deduct_cases env w sh req (λ out. Grown w.wal_file log out.0 (sales_by req out.2))
        (λ _. no_sale w log e)
        (λ stock _ _.
          write_to_wal-Grown env
            (record w { inventory = insert req.sku_id (to_i32 (stock -ℤ req.qty)) w.inventory }) req
            log v e)
        (λ _ _ _. no_sale w log e)

module _ (env : Env) (w : Worker) (sh : Shared) (req : WorkerRequest) (log : WalLogger) where
  process_order-Grown :
      IsLogged env req
      → w.wal ≡ some log
      → Grown w.wal_file log
          (process_order env w sh req).0
          (sales_of (option_list (process_order env w sh req).2))
  unfolding process_order
  process_order-Grown v e =
      subst (Grown w.wal_file log (deduct env checked sh req).0)
        (ground (arith, prepare_result-fields req)) (deduct-Grown env checked sh req log v e)
    where
      checked : Worker
      checked = record w { check = run_check req.request_id w.check }

module _ (env : Env) (w : Worker) (sh : Shared) (req : WorkerRequest) (log : WalLogger) where
  process-Grown :
      IsLogged env req
      → w.wal ≡ some log
      → Grown w.wal_file log
          (process env w sh req).0
          (sales_of (option_list (process env w sh req).2))
  process-Grown v e =
      process_cases env w sh req (λ out. Grown w.wal_file log out.0 (sales_of (option_list out.2)))
        (λ _. no_sale w log e) (λ _. no_sale w log e)
        (λ h. absurd (omega (arith, v.order.id_regular))) (λ _ _ _. no_sale w log e)
        (λ _ _ _. process_order-Grown env (remember w req.request_id) sh req log v e)

Grown-trans :
    (file : Bytes) (log : WalLogger) (w' w'' : Worker) (s s' : List Sale)
    → Grown file log w' s
    → Grown w'.wal_file log w'' s'
    → Grown file log w'' (s ++ s')
Grown-trans file log w' w'' s s' a b = record {
  entries = a.entries ++ b.entries;
  grows =
      b.grows
      ∙ ap (λ f. f ++ log_of b.entries) a.grows
      ∙ append_assoc file (log_of a.entries) (log_of b.entries)
      ∙ ap (λ l. file ++ l) (sym (log_of-append a.entries b.entries));
  tells =
      map-append (λ (e : Entry). sale_of_record e.1) a.entries b.entries ∙ ap₂ ◌++◌ a.tells b.tells;
  storable = AllStorable-append a.entries b.entries a.storable b.storable;
  same_log = b.same_log;
}

sales_of-append : (xs ys : List CSeckillResult) → sales_of (xs ++ ys) ≡ sales_of xs ++ sales_of ys
sales_of-append [] ys = refl
sales_of-append (x ∷ xs) ys =
    ap (λ l. sale_of_result x ++ l) (sales_of-append xs ys)
    ∙ sym (append_assoc (sale_of_result x) (sales_of xs) (sales_of ys))

process_batch-Grown :
    (reqs : List (Env × WorkerRequest)) (w : Worker) (sh : Shared) (log : WalLogger)
    → AllLogged reqs
    → w.wal ≡ some log
    → Grown w.wal_file log (process_batch reqs w sh).0 (sales_of (process_batch reqs w sh).2)
unfolding process_batch
process_batch-Grown [] w sh log v e = no_sale w log e
process_batch-Grown ((env, req) ∷ reqs) w sh log v e =
    let (w', sh', out) = process env w sh req in
    let one = process-Grown env w sh req log v.0 e in
    rw (sales_of-append (option_list out) (process_batch reqs w' sh').2) (
      Grown-trans w.wal_file log w' (process_batch reqs w' sh').0 (sales_of (option_list out))
        (sales_of (process_batch reqs w' sh').2) one
        (process_batch-Grown reqs w' sh' log v.1 one.same_log))

-- A worker that starts with an empty log, and whose writes take all their bytes, processes a batch of
-- orders and then crashes in the middle of one more write, of which fewer than 40 bytes reach the file:
-- `WalLogger::Recover` on that file gives exactly the orders that the results of the batch report as
-- sold, in their order.
pub process_batch-recover :
    (reqs : List (Env × WorkerRequest)) (w : Worker) (sh : Shared) (log : WalLogger) (torn : Bytes)
    → AllLogged reqs
    → w.wal ≡ some log
    → w.wal_file ≡ []
    → length torn < record_size
    → map sale_of_record (recover (some ((process_batch reqs w sh).0.wal_file ++ torn)))
      ≡ sales_of (process_batch reqs w sh).2
process_batch-recover reqs w sh log torn v e empty h =
    ap (λ file. map sale_of_record (recover (some (file ++ torn))))
      (grown.grows ∙ ap (λ file. file ++ log_of grown.entries) empty)
    ∙ ap (map sale_of_record) (
        recover-log_of grown.entries torn grown.storable
        ∙ ap (λ rs. map (λ e. e.1) grown.entries ++ rs) (recover-torn torn h)
        ∙ append-nil (map (λ e. e.1) grown.entries))
    ∙ map-map sale_of_record (λ e. e.1) grown.entries
    ∙ grown.tells
  where
    grown : Grown w.wal_file log (process_batch reqs w sh).0 (sales_of (process_batch reqs w sh).2)
    grown = process_batch-Grown reqs w sh log v e
