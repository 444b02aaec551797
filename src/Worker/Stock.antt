-- ===== src/Worker/Stock.antt =====
-- The stock of a worker: what `Process` sells comes out of the inventory, and no more.
use flashsale_system_imitati.Prelude.{
  ℕ, ◌+◌, ◌-◌, ◌≤◌, ◌≡◌, ap, ◌∙◌, ◌&&◌, Option, none, some, List, [], ◌∷◌, ◌++◌, if◌then◌else◌,
  arith,
}
use flashsale_system_imitati.Prelude.Int.{
  ℤ, pos, pos_part, ◌≤ℤ◌, ◌-ℤ◌, eqb_ℤ, eqb_ℤ_iff, IsI32, to_i32, to_i32_id,
}
use flashsale_system_imitati.Prelude.Dict.{Dict, find, insert, find-insert}
use flashsale_system_imitati.Fifo.{option_list}
use flashsale_system_imitati.Messages.{WorkerRequest, CSeckillResult}
use flashsale_system_imitati.Worker.Cases.{deduct_cases, process_cases, remember}
use flashsale_system_imitati.Worker.{
  Shared, Env, Worker, benchmark_limit, write_to_wal, sell, deduct, process_order, process,
  prepare_result, run_check,
}

-- An order: a quantity that is not negative, and an id that no benchmark request has.
pub record IsOrder (req : WorkerRequest) : Type 0 where
  pub id_regular : req.request_id ≤ benchmark_limit
  pub qty_nonneg : pos 0 ≤ℤ req.qty
  pub qty_fits : IsI32 req.qty

-- Every count in the inventory is an `int` that is not negative.
abbrev pub IsStocked : Dict ℤ → Type 0
IsStocked m = (k z : ℤ) → find k m ≡ some z → (pos 0 ≤ℤ z) × IsI32 z

abbrev count_or_zero : Option ℤ → ℕ
count_or_zero none = 0
count_or_zero (some z) = pos_part z

-- The items left of a SKU.
abbrev pub stock_of : ℤ → Dict ℤ → ℕ
stock_of k m = count_or_zero (find k m)

-- The items of a SKU that a result reports as sold.
abbrev pub sold_by : ℤ → CSeckillResult → ℕ
sold_by k res = if eqb_ℤ res.status (pos 1) && eqb_ℤ res.sku_id k then pos_part res.qty else 0

abbrev pub sold : ℤ → List CSeckillResult → ℕ
sold k [] = 0
sold k (res ∷ rs) = sold_by k res + sold k rs

pub sold-append : (k : ℤ) (xs ys : List CSeckillResult) → sold k (xs ++ ys) ≡ sold k xs + sold k ys
sold-append k [] ys = omega arith
sold-append k (x ∷ xs) ys = omega (arith, sold-append k xs ys)

le-pos_part : (a b : ℤ) → pos 0 ≤ℤ a → a ≤ℤ b → pos_part a ≤ pos_part b
le-pos_part a b ha h = ground arith

sub-eq :
    (stock qty : ℤ)
    → pos 0 ≤ℤ qty
    → qty ≤ℤ stock
    → stock -ℤ qty ≡ pos (pos_part stock - pos_part qty)
unfolding ◌-ℤ◌
sub-eq stock qty hq hs = ground arith

-- The subtraction does not overflow.
left-eq :
    (stock qty : ℤ)
    → pos 0 ≤ℤ qty
    → qty ≤ℤ stock
    → IsI32 stock
    → to_i32 (stock -ℤ qty) ≡ pos (pos_part stock - pos_part qty)
left-eq stock qty hq hs hi =
    ap to_i32 (sub-eq stock qty hq hs)
    ∙ to_i32_id (pos (pos_part stock - pos_part qty)) (omega arith)

pub left-nonneg :
    (stock qty : ℤ) → pos 0 ≤ℤ qty → qty ≤ℤ stock → IsI32 stock → pos 0 ≤ℤ to_i32 (stock -ℤ qty)
left-nonneg stock qty hq hs hi = rw (left-eq stock qty hq hs hi) (omega arith)

pub inventory-write_to_wal :
    (env : Env) (w : Worker) (req : WorkerRequest)
    → (write_to_wal env w req).inventory ≡ w.inventory
unfolding write_to_wal
inventory-write_to_wal env w req = ground arith

IsStocked-insert :
    (m : Dict ℤ) (sku_id stock : ℤ) (n : ℕ)
    → IsStocked m
    → find sku_id m ≡ some stock
    → IsStocked (insert sku_id (pos (pos_part stock - n)) m)
IsStocked-insert m sku_id stock n s e k z h =
    ground (arith, find-insert sku_id k (pos (pos_part stock - n)) m, s sku_id stock e, s k z)

stock_of-insert :
    (m : Dict ℤ) (sku_id k stock : ℤ) (n : ℕ)
    → find sku_id m ≡ some stock
    → n ≤ pos_part stock
    → stock_of k (insert sku_id (pos (pos_part stock - n)) m) + (if eqb_ℤ sku_id k then n else 0)
      ≡ stock_of k m
stock_of-insert m sku_id k stock n e h =
    ground (arith, find-insert sku_id k (pos (pos_part stock - n)) m, eqb_ℤ_iff sku_id k)

-- From stock `m` to stock `m'`, with these results: the counts are in range, and for every SKU what is
-- left and what the results report as sold make up what there was.
abbrev pub StockKept : Dict ℤ → Dict ℤ → List CSeckillResult → Type 0
StockKept m m' outs = IsStocked m' × ((k : ℤ) → stock_of k m' + sold k outs ≡ stock_of k m)

pub StockKept-trans :
    (m m' m'' : Dict ℤ) (outs outs' : List CSeckillResult)
    → StockKept m m' outs
    → StockKept m' m'' outs'
    → StockKept m m'' (outs ++ outs')
StockKept-trans m m' m'' outs outs' a b =
    (b.0, λ k. omega (arith, a.1 k, b.1 k, sold-append k outs outs'))

-- What a call on `req` that reports `status` has done to the stock of `w`.
abbrev Kept : Worker → WorkerRequest → Worker × Shared × ℤ → Type 0
Kept w req (w', sh', status) =
    IsStocked w'.inventory
    × ((k : ℤ)
        → stock_of k w'.inventory
            + (if eqb_ℤ status (pos 1) && eqb_ℤ req.sku_id k then pos_part req.qty else 0)
          ≡ stock_of k w.inventory)

-- The result that reports on a request carries its SKU, quantity, guest and id.
pub prepare_result-fields :
    (req : WorkerRequest)
    → ((prepare_result req).sku_id ≡ req.sku_id)
      × ((prepare_result req).qty ≡ req.qty)
      × ((prepare_result req).guest_id ≡ req.guest_id)
      × ((prepare_result req).request_id ≡ req.request_id)
unfolding prepare_result
prepare_result-fields req = ground arith

module _ (env : Env) (w : Worker) (sh : Shared) (req : WorkerRequest) where
  -- The inventory after a sale.
  inventory-sell :
      (stock : ℤ)
      → pos 0 ≤ℤ req.qty
      → req.qty ≤ℤ stock
      → IsI32 stock
      → (sell env w sh req stock).0.inventory
        ≡ insert req.sku_id (pos (pos_part stock - pos_part req.qty)) w.inventory
  unfolding sell
  inventory-sell stock hq hs hi =
      inventory-write_to_wal env _ req
      ∙ ap (λ z. insert req.sku_id z w.inventory) (left-eq stock req.qty hq hs hi)

  deduct-Kept : IsOrder req → IsStocked w.inventory → Kept w req (deduct env w sh req)
  deduct-Kept o s =
      deduct_cases env w sh req (Kept w req) (λ e. (s, λ k. omega arith)) sold
        (λ stock e h. (s, λ k. omega arith))
    where
      sold :
          (stock : ℤ)
          → find req.sku_id w.inventory ≡ some stock
          → req.qty ≤ℤ stock
          → Kept w req ((sell env w sh req stock).0, (sell env w sh req stock).1, pos 1)
      sold stock e h = (
        rw (inventory-sell stock o.qty_nonneg h (s _ stock e).1)
            (IsStocked-insert w.inventory req.sku_id stock (pos_part req.qty) s e),
        λ k. rw (inventory-sell stock o.qty_nonneg h (s _ stock e).1) (
            stock_of-insert w.inventory req.sku_id k stock (pos_part req.qty) e
              (le-pos_part req.qty stock o.qty_nonneg h)),
      )

module _ (env : Env) (w : Worker) (sh : Shared) (req : WorkerRequest) where
  process_order-stock :
      IsOrder req
      → IsStocked w.inventory
      → StockKept w.inventory
          (process_order env w sh req).0.inventory
          (option_list (process_order env w sh req).2)
  unfolding process_order
  process_order-stock o s = (kept.0, λ k. ground (arith, prepare_result-fields req, kept.1 k))
    where
      checked : Worker
      checked = record w { check = run_check req.request_id w.check }

      kept : Kept checked req (deduct env checked sh req)
      kept = deduct-Kept env checked sh req o s

module _ (env : Env) (w : Worker) (sh : Shared) (req : WorkerRequest) where
  -- One call of `Process` keeps the counts in range, and what its result reports as sold has left the
  -- stock of that SKU; no other stock changes.
  pub process-stock :
      IsOrder req
      → IsStocked w.inventory
      → StockKept w.inventory
          (process env w sh req).0.inventory
          (option_list (process env w sh req).2)
  process-stock o s =
      process_cases env w sh req (λ out. StockKept w.inventory out.0.inventory (option_list out.2))
        (λ _. none_sold) (λ _. none_sold) (λ h. absurd (omega (arith, o.id_regular)))
        (λ _ _ _. none_sold)
        (λ _ _ _. process_order-stock env (remember w req.request_id) sh req o s)
    where
      none_sold : StockKept w.inventory w.inventory []
      none_sold = (s, λ k. omega arith)
