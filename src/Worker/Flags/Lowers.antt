-- ===== src/Worker/Flags/Lowers.antt =====
-- A call that empties a stock sets its flag.
use flashsale_system_imitati.Prelude.{
  ℕ, ◌<◌, ◌≡◌, ◌⊎◌, inl, inr, sym, ap, ◌∙◌, true, false, some, length, get_or-set_self, arith,
}
use flashsale_system_imitati.Prelude.Int.{ℤ, pos, ◌≤ℤ◌, ◌-ℤ◌, to_i32, eqb_ℤ, eqb_ℤ_iff}
use flashsale_system_imitati.Prelude.Dict.{Dict, find, insert, find-insert}
use flashsale_system_imitati.Messages.{WorkerRequest}
use flashsale_system_imitati.Worker.{
  Shared, Env, Worker, process, process_order, deduct, sell, set_flag, run_check,
}
use flashsale_system_imitati.Worker.Cases.{deduct_cases, process_cases, remember}
use flashsale_system_imitati.Worker.Stock.{
  IsOrder, IsStocked, stock_of, inventory-write_to_wal, left-nonneg,
}
use flashsale_system_imitati.Worker.Flags.{flag_at}

-- A call that sells the last item of a SKU sets its flag.
abbrev pub Lowers : Worker → Shared → Dict ℤ → Shared → Type 0
Lowers w sh m sh' =
    (k : ℤ) (at : ℕ)
    → find k w.sold_out_flags ≡ some at
    → at < length sh.flags
    → stock_of k m ≡ 0
    → (stock_of k w.inventory ≡ 0) ⊎ (flag_at sh' at ≡ true)

set_flag-sets :
    (w : Worker) (k : ℤ) (sh : Shared) (at : ℕ)
    → find k w.sold_out_flags ≡ some at
    → at < length sh.flags
    → flag_at (set_flag w k sh) at ≡ true
unfolding set_flag
set_flag-sets w k sh at e h = ground (arith, get_or-set_self sh.flags at true false)

-- The stock of a SKU after `left` items are left of another, or of it.
stock_of-insert_cases :
    (k j left : ℤ) (m : Dict ℤ)
    → stock_of j (insert k left m) ≡ 0
    → pos 0 ≤ℤ left
    → (stock_of j m ≡ 0) ⊎ ((k ≡ j) × (eqb_ℤ left (pos 0) ≡ true))
stock_of-insert_cases k j left m z h = ground (arith, find-insert k j left m, eqb_ℤ_iff k j)

module _ (env : Env) (w : Worker) (sh : Shared) (req : WorkerRequest) where
  sell-Lowers :
      (stock : ℤ)
      → pos 0 ≤ℤ to_i32 (stock -ℤ req.qty)
      → Lowers w sh (sell env w sh req stock).0.inventory (sell env w sh req stock).1
  unfolding sell
  sell-Lowers stock h k at e inside z =
      elim (stock_of-insert_cases req.sku_id k (to_i32 (stock -ℤ req.qty)) w.inventory
        (ap (stock_of k) (sym (inventory-write_to_wal env _ req)) ∙ z) h) [
          | inl a ↦ inl a
          | inr (same, none_left) ↦ inr (
              rw none_left (
                set_flag-sets w req.sku_id _ at (ap (λ j. find j w.sold_out_flags) same ∙ e)
                  inside))
        ]

  deduct-Lowers :
      IsOrder req
      → IsStocked w.inventory
      → Lowers w sh (deduct env w sh req).0.inventory (deduct env w sh req).1
  deduct-Lowers o s =
      deduct_cases env w sh req (λ out. Lowers w sh out.0.inventory out.1) (λ _ k at _ _ z. inl z)
        (λ stock e le.
          sell-Lowers stock (left-nonneg stock req.qty o.qty_nonneg le (s _ stock e).1))
        (λ stock _ _ k at _ _ z. inl z)

pub process-Lowers :
    (env : Env) (w : Worker) (sh : Shared) (req : WorkerRequest)
    → IsOrder req
    → IsStocked w.inventory
    → Lowers w sh (process env w sh req).0.inventory (process env w sh req).1
unfolding process_order
process-Lowers env w sh req o s =
    process_cases env w sh req (λ out. Lowers w sh out.0.inventory out.1) (λ _ k at _ _ z. inl z)
      (λ _ k at _ _ z. inl z) (λ _ k at _ _ z. inl z) (λ _ _ _ k at _ _ z. inl z)
      (λ _ _ _.
        deduct-Lowers env
          (record (remember w req.request_id) { check = run_check req.request_id w.check }) sh req o
          s)
