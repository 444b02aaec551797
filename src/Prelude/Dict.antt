-- ===== src/Prelude/Dict.antt =====
-- `std::unordered_map<int64_t, V>` as an association list, and `std::unordered_set<uint64_t>` as a
-- list, of which the code uses find, insert, size and clear.
use Prim.Native.Nat.{ℕ}
use mathlib.Core.Path.{◌≡◌, refl}
use mathlib.Core.Bool.{Bool, false, ◌||◌}
use mathlib.Core.Option.{Option, none, some}
use mathlib.Core.List.{List, [], ◌∷◌}
use native.Mathlib.Omega.{arith}
use flashsale_system_imitati.Prelude.Tests.{◌==◌, if◌then◌else◌}
use flashsale_system_imitati.Prelude.Int.{ℤ, eqb_ℤ, eqb_ℤ_iff, eqb_ℤ_refl}

abbrev pub Dict : Type 0 → Type 0
Dict V = List (ℤ × V)

module _ {V : Type 0} where
  unfoldable pub find : ℤ → Dict V → Option V
  find k [] = none
  find k ((j, v) ∷ m) = if eqb_ℤ j k then some v else find k m

  -- `m[k] = v`
  unfoldable pub insert : ℤ → V → Dict V → Dict V
  insert k v [] = (k, v) ∷ []
  insert k v ((j, w) ∷ m) = if eqb_ℤ j k then (k, v) ∷ m else (j, w) ∷ insert k v m

  pub find-insert :
      (k j : ℤ) (v : V) (m : Dict V)
      → find j (insert k v m) ≡ (if eqb_ℤ k j then some v else find j m)
  unfolding find insert
  find-insert k j v [] = refl
  find-insert k j v ((i, w) ∷ m) =
      ground (arith, eqb_ℤ_iff k j, eqb_ℤ_iff i k, eqb_ℤ_iff i j, find-insert k j v m)

  pub find-insert_self : (k : ℤ) (v : V) (m : Dict V) → find k (insert k v m) ≡ some v
  find-insert_self k v m = rw (find-insert k k v m, eqb_ℤ_refl k)

unfoldable pub contains : ℕ → List ℕ → Bool
contains a [] = false
contains a (x ∷ xs) = x == a || contains a xs
