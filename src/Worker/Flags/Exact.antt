-- ===== src/Worker/Flags/Exact.antt =====
-- Through every batch of orders, a flag is set exactly if nothing is left of its SKU.
use flashsale_system_imitati.Prelude.{ℕ, ◌≡◌, ◌↔◌, true, some, List, [], ◌∷◌, length, arith}
use flashsale_system_imitati.Prelude.Int.{ℤ}
use flashsale_system_imitati.Prelude.Dict.{find}
use flashsale_system_imitati.Messages.{WorkerRequest}
use flashsale_system_imitati.Worker.{Shared, Env, Worker, process, process_batch}
use flashsale_system_imitati.Worker.Stock.{IsOrder, IsStocked, stock_of, process-stock}
use flashsale_system_imitati.Worker.Batch.{AllOrders}
use flashsale_system_imitati.Worker.Flags.{flag_at, FlagsApart}
use flashsale_system_imitati.Worker.Flags.Kept.{FlagsKept, process-FlagsKept}
use flashsale_system_imitati.Worker.Flags.Raised.{process-Raised}
use flashsale_system_imitati.Worker.Flags.Lowers.{process-Lowers}

-- The flags have cells of their own, and a flag is set exactly if nothing is left of its SKU.
pub record FlagsExact (w : Worker) (sh : Shared) : Type 0 where
  pub cells_apart : FlagsApart w.sold_out_flags (length sh.flags)
  pub set_iff :
      (k : ℤ) (at : ℕ)
      → find k w.sold_out_flags ≡ some at
      → (flag_at sh at ≡ true) ↔ (stock_of k w.inventory ≡ 0)

FlagsApart-kept :
    {w w' : Worker} {sh sh' : Shared}
    → FlagsKept w sh w' sh'
    → FlagsApart w.sold_out_flags (length sh.flags)
    → FlagsApart w'.sold_out_flags (length sh'.flags)
FlagsApart-kept {w} {w'} {sh} {sh'} kept f = rw (kept.same_map, kept.same_cells) f

-- One call of `Process` on an order keeps the flags exact.
process-FlagsExact :
    (env : Env) (w : Worker) (sh : Shared) (req : WorkerRequest)
    → IsOrder req
    → IsStocked w.inventory
    → FlagsExact w sh
    → FlagsExact (process env w sh req).0 (process env w sh req).1
process-FlagsExact env w sh req o s f = record {
  cells_apart = FlagsApart-kept kept f.cells_apart;
  set_iff = λ k at e.
      let e' : find k w.sold_out_flags ≡ some at = rw (← kept.same_map) e in
      ground (
        arith,
        f.set_iff k at e',
        kept.monotone at,
        process-Raised env w sh req (length sh.flags) f.cells_apart k at e',
        process-Lowers env w sh req o s k at e' (f.cells_apart.inside k at e'),
        (process-stock env w sh req o s).1 k,
      );
}
  where
    kept : FlagsKept w sh (process env w sh req).0 (process env w sh req).1
    kept = process-FlagsKept env w sh req

-- A batch of orders keeps the flags exact: on a worker whose counts are in range and whose flags are set
-- exactly for the flagged SKUs with no stock, they are so after it.
pub process_batch-FlagsExact :
    (reqs : List (Env × WorkerRequest)) (w : Worker) (sh : Shared)
    → AllOrders reqs
    → IsStocked w.inventory
    → FlagsExact w sh
    → FlagsExact (process_batch reqs w sh).0 (process_batch reqs w sh).1
unfolding process_batch
process_batch-FlagsExact [] w sh o s f = f
process_batch-FlagsExact ((env, req) ∷ reqs) w sh o s f =
    process_batch-FlagsExact reqs (process env w sh req).0 (process env w sh req).1 o.1
      (process-stock env w sh req o.0 s).0 (process-FlagsExact env w sh req o.0 s f)
