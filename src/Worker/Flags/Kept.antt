-- ===== src/Worker/Flags/Kept.antt =====
-- What no call of `Process` does to the flags.
use flashsale_system_imitati.Prelude.{
  ℕ, zero, suc, ◌≡◌, inl, inr, refl, Bool, true, false, List, Option-cases, Bool-cases, [], ◌∷◌,
  length, get_or, set, length-set, arith,
}
use flashsale_system_imitati.Prelude.Int.{ℤ, pos, ◌-ℤ◌, to_i32, eqb_ℤ}
use flashsale_system_imitati.Prelude.Dict.{find}
use flashsale_system_imitati.Messages.{WorkerRequest}
use flashsale_system_imitati.Worker.{
  Shared, Env, Worker, process, process_order, deduct, sell, refuse, set_flag, write_to_wal,
  count_barrier, run_check,
}
use flashsale_system_imitati.Worker.Cases.{deduct_cases, process_cases, remember}
use flashsale_system_imitati.Worker.Flags.{flag_at}

-- A call changes neither the worker's map of flags nor the number of cells, and unsets no flag.
pub record FlagsKept (w : Worker) (sh : Shared) (w' : Worker) (sh' : Shared) : Type 0 where
  pub same_map : w'.sold_out_flags ≡ w.sold_out_flags
  pub same_cells : length sh'.flags ≡ length sh.flags
  pub monotone : (at : ℕ) → flag_at sh at ≡ true → flag_at sh' at ≡ true

get_or-set_mono :
    (xs : List Bool) (i j : ℕ) → get_or xs j false ≡ true → get_or (set xs i true) j false ≡ true
get_or-set_mono [] i j h = h
get_or-set_mono (x ∷ xs) zero zero h = refl
get_or-set_mono (x ∷ xs) zero (suc j) h = h
get_or-set_mono (x ∷ xs) (suc i) zero h = h
get_or-set_mono (x ∷ xs) (suc i) (suc j) h = get_or-set_mono xs i j h

set_flag-FlagsKept : (w : Worker) (k : ℤ) (sh : Shared) → FlagsKept w sh w (set_flag w k sh)
unfolding set_flag
set_flag-FlagsKept w k sh = elim (Option-cases (find k w.sold_out_flags)) [
  | inl e ↦ rw (e, set_flag) (record { same_map = refl; same_cells = refl; monotone = λ at h. h })
  | inr (a, e) ↦
      rw (e, set_flag)
        (record {
          same_map = refl;
          same_cells = length-set sh.flags a true;
          monotone = λ at h. get_or-set_mono sh.flags a at h;
        })
]

flags-write_to_wal :
    (env : Env) (w : Worker) (req : WorkerRequest)
    → (write_to_wal env w req).sold_out_flags ≡ w.sold_out_flags
unfolding write_to_wal
flags-write_to_wal env w req = ground arith

module _ (env : Env) (w : Worker) (sh : Shared) (req : WorkerRequest) where
  sell-FlagsKept :
      (stock : ℤ) → FlagsKept w sh (sell env w sh req stock).0 (sell env w sh req stock).1
  unfolding sell
  sell-FlagsKept stock = elim (Bool-cases (eqb_ℤ (to_i32 (stock -ℤ req.qty)) (pos 0))) [
    | inl none_left ↦ rw none_left (record {
      same_map = flags-write_to_wal env _ req;
      same_cells = (set_flag-FlagsKept w req.sku_id _).same_cells;
      monotone = (set_flag-FlagsKept w req.sku_id _).monotone;
    })
    | inr some_left ↦ rw some_left (record {
      same_map = flags-write_to_wal env _ req;
      same_cells = refl;
      monotone = λ at h. h;
    })
  ]

  refuse-FlagsKept : (stock : ℤ) → FlagsKept w sh w (refuse w sh req stock)
  unfolding refuse
  refuse-FlagsKept stock = elim (Bool-cases (eqb_ℤ stock (pos 0))) [
    | inl none_left ↦ rw none_left (set_flag-FlagsKept w req.sku_id sh)
    | inr some_left ↦
        rw some_left (record { same_map = refl; same_cells = refl; monotone = λ at h. h })
  ]

  deduct-FlagsKept : FlagsKept w sh (deduct env w sh req).0 (deduct env w sh req).1
  deduct-FlagsKept =
      deduct_cases env w sh req (λ out. FlagsKept w sh out.0 out.1)
        (λ _. record { same_map = refl; same_cells = refl; monotone = λ at h. h })
        (λ stock _ _. sell-FlagsKept stock) (λ stock _ _. refuse-FlagsKept stock)

pub process-FlagsKept :
    (env : Env) (w : Worker) (sh : Shared) (req : WorkerRequest)
    → FlagsKept w sh (process env w sh req).0 (process env w sh req).1
unfolding count_barrier process_order
process-FlagsKept env w sh req =
    process_cases env w sh req (λ out. FlagsKept w sh out.0 out.1) (λ _. same) (λ _. ground arith)
      (λ _. same) (λ _ _ _. same)
      (λ _ _ _. record {
        same_map = after.same_map;
        same_cells = after.same_cells;
        monotone = after.monotone;
      })
  where
    checked : Worker
    checked = record (remember w req.request_id) { check = run_check req.request_id w.check }

    after : FlagsKept checked sh (deduct env checked sh req).0 (deduct env checked sh req).1
    after = deduct-FlagsKept env checked sh req

    same : FlagsKept w sh w sh
    same = record { same_map = refl; same_cells = refl; monotone = λ at h. h }
