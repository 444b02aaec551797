-- ===== src/Worker/Flags/Raised.antt =====
-- A flag is set only for a SKU of which nothing is left.
use flashsale_system_imitati.Prelude.{
  ℕ, zero, suc, ◌≡◌, ◌⊎◌, inl, inr, refl, ap, ◌∙◌, Bool, true, false, some, List, Option-cases,
  Bool-cases, [], ◌∷◌, get_or, set, arith,
}
use flashsale_system_imitati.Prelude.Int.{ℤ, pos, ◌-ℤ◌, to_i32, eqb_ℤ, eqb_ℤ_iff}
use flashsale_system_imitati.Prelude.Dict.{Dict, find, insert, find-insert_self}
use flashsale_system_imitati.Messages.{WorkerRequest}
use flashsale_system_imitati.Worker.{
  Shared, Env, Worker, process, process_order, deduct, sell, refuse, set_flag, count_barrier,
  run_check,
}
use flashsale_system_imitati.Worker.Cases.{deduct_cases, process_cases, remember}
use flashsale_system_imitati.Worker.Stock.{stock_of, inventory-write_to_wal}
use flashsale_system_imitati.Worker.Flags.{flag_at, FlagsApart}

-- What a change of the flags may do: a flag that is set after it was set before, or is that of a SKU
-- of which `m` has nothing left.
abbrev pub Raised : Worker → Shared → Dict ℤ → Shared → Type 0
Raised w sh m sh' =
    (k : ℤ) (at : ℕ)
    → find k w.sold_out_flags ≡ some at
    → flag_at sh' at ≡ true
    → (flag_at sh at ≡ true) ⊎ (stock_of k m ≡ 0)

get_or-set-true :
    (xs : List Bool) (i j : ℕ)
    → get_or (set xs i true) j false ≡ true
    → (get_or xs j false ≡ true) ⊎ (i ≡ j)
get_or-set-true [] i j h = inl h
get_or-set-true (x ∷ xs) zero zero h = inr refl
get_or-set-true (x ∷ xs) zero (suc j) h = inl h
get_or-set-true (x ∷ xs) (suc i) zero h = inl h
get_or-set-true (x ∷ xs) (suc i) (suc j) h = ground (arith, get_or-set-true xs i j h)

set_flag-true :
    (w : Worker) (k : ℤ) (sh : Shared) (at : ℕ)
    → flag_at (set_flag w k sh) at ≡ true
    → (flag_at sh at ≡ true) ⊎ (find k w.sold_out_flags ≡ some at)
unfolding set_flag
set_flag-true w k sh at h = elim (Option-cases (find k w.sold_out_flags)) [
  | inl e ↦ ground arith
  | inr (a, e) ↦ ground (arith, get_or-set-true sh.flags a at)
]

-- Setting the flag of a SKU of which nothing is left.
set_flag-Raised :
    (w : Worker) (sku_id : ℤ) (sh : Shared) (m : Dict ℤ) (cells : ℕ)
    → FlagsApart w.sold_out_flags cells
    → stock_of sku_id m ≡ 0
    → Raised w sh m (set_flag w sku_id sh)
set_flag-Raised w sku_id sh m cells f z k at e h =
    ground (arith, set_flag-true w sku_id sh at h, f.apart sku_id k at)

-- Nothing else in `Shared` that changes is a flag.
flags_only :
    (w : Worker) (sku_id : ℤ) (sh sh' : Shared)
    → sh.flags ≡ sh'.flags
    → (set_flag w sku_id sh).flags ≡ (set_flag w sku_id sh').flags
unfolding set_flag
flags_only w sku_id sh sh' e = ground arith

stock_of-insert_zero :
    (k z : ℤ) (m : Dict ℤ) → eqb_ℤ z (pos 0) ≡ true → stock_of k (insert k z m) ≡ 0
stock_of-insert_zero k z m h = ground (arith, find-insert_self k z m, eqb_ℤ_iff z (pos 0))

module _ (env : Env) (w : Worker) (sh : Shared) (req : WorkerRequest) where
  sell-Raised :
      (stock : ℤ) (cells : ℕ)
      → FlagsApart w.sold_out_flags cells
      → Raised w sh (sell env w sh req stock).0.inventory (sell env w sh req stock).1
  unfolding sell
  sell-Raised stock cells f = elim (Bool-cases (eqb_ℤ (to_i32 (stock -ℤ req.qty)) (pos 0))) [
    | inl zero_left ↦ rw zero_left (
        set_flag-Raised w req.sku_id _ _ cells f (
          ap (stock_of req.sku_id) (inventory-write_to_wal env _ req)
          ∙ stock_of-insert_zero req.sku_id (to_i32 (stock -ℤ req.qty)) w.inventory zero_left))
    | inr some_left ↦ rw some_left (λ k at _ h. inl h)
  ]

module _ (env : Env) (w : Worker) (sh : Shared) (req : WorkerRequest) (cells : ℕ) where
  refuse-Raised :
      (stock : ℤ)
      → FlagsApart w.sold_out_flags cells
      → find req.sku_id w.inventory ≡ some stock
      → Raised w sh w.inventory (refuse w sh req stock)
  unfolding refuse
  refuse-Raised stock f e = elim (Bool-cases (eqb_ℤ stock (pos 0))) [
    | inl none_left ↦ rw none_left (
        set_flag-Raised w req.sku_id sh w.inventory cells f
          (ground (arith, eqb_ℤ_iff stock (pos 0))))
    | inr some_left ↦ rw some_left (λ k at _ h. inl h)
  ]

  deduct-Raised :
      FlagsApart w.sold_out_flags cells
      → Raised w sh (deduct env w sh req).0.inventory (deduct env w sh req).1
  deduct-Raised f =
      deduct_cases env w sh req (λ out. Raised w sh out.0.inventory out.1) (λ _ k at _ h. inl h)
        (λ stock _ _. sell-Raised env w sh req stock cells f) (λ stock e _. refuse-Raised stock f e)

pub process-Raised :
    (env : Env) (w : Worker) (sh : Shared) (req : WorkerRequest) (cells : ℕ)
    → FlagsApart w.sold_out_flags cells
    → Raised w sh (process env w sh req).0.inventory (process env w sh req).1
unfolding count_barrier process_order
process-Raised env w sh req cells f =
    process_cases env w sh req (λ out. Raised w sh out.0.inventory out.1) (λ _ k at _ h. inl h)
      (λ _ k at _ h. ground arith) (λ _ k at _ h. inl h) (λ _ _ _ k at _ h. inl h)
      (λ _ _ _.
        deduct-Raised env
          (record (remember w req.request_id) { check = run_check req.request_id w.check }) sh req
          cells f)
