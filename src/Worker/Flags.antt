-- ===== src/Worker/Flags.antt =====
-- The sold-out flags: what it means that they agree with the stock.
pub mod Raised
pub mod Kept
pub mod Lowers
pub mod Exact
use flashsale_system_imitati.Prelude.{
  ℕ, zero, suc, ◌+◌, ◌-◌, ◌^◌, ◌≤◌, ◌<◌, ◌≡◌, ◌≢◌, ◌↔◌, ◌⊎◌, inl, inr, refl, sym, ap, ◌∙◌, Bool,
  true, false, Option, none, some, List, Option-cases, Bool-cases, [], ◌∷◌, length, get_or, set,
  get_or-set_self, get_or-set_ne, length-set, if◌then◌else◌, arith,
}
use flashsale_system_imitati.Prelude.Int.{ℤ, pos, pos_part, ◌≤ℤ◌, ◌-ℤ◌, to_i32, eqb_ℤ, eqb_ℤ_iff}
use flashsale_system_imitati.Prelude.Dict.{Dict, find, insert, find-insert, find-insert_self}
use flashsale_system_imitati.Messages.{WorkerRequest, CSeckillResult}
use flashsale_system_imitati.Worker.{
  Shared, Env, Worker, process, process_batch, process_order, deduct, sell, refuse, set_flag,
  write_to_wal, count_barrier, run_check,
}
use flashsale_system_imitati.Worker.Cases.{deduct_cases, process_cases, remember, Outcome}
use flashsale_system_imitati.Worker.Stock.{
  IsOrder, IsStocked, StockKept, stock_of, process-stock, inventory-write_to_wal, left-nonneg,
}
use flashsale_system_imitati.Worker.Batch.{AllOrders}

-- The flag at an address; a worker's flags have addresses of their own, inside the cells.
abbrev pub flag_at : Shared → ℕ → Bool
flag_at sh at = get_or sh.flags at false

pub record FlagsApart (flags : Dict ℕ) (cells : ℕ) : Type 0 where
  pub inside : (k : ℤ) (at : ℕ) → find k flags ≡ some at → at < cells
  pub apart : (j k : ℤ) (at : ℕ) → find j flags ≡ some at → find k flags ≡ some at → j ≡ k
