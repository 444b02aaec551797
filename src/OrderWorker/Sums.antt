-- ===== src/OrderWorker/Sums.antt =====
-- Sums over threads, and how often an id stands in a list.
use flashsale_system_imitati.Prelude.{
  ℕ, zero, suc, ◌+◌, ◌≤◌, ◌<◌, ◌≡◌, refl, true, false, ◌==◌, if◌then◌else◌, some, List, [], ◌∷◌,
  ◌++◌, set, get_elem?, arith, length,
}
use flashsale_system_imitati.Prelude.Dict.{contains}

abbrev pub total {ℓ} : {A : Type ℓ} → (A → ℕ) → List A → ℕ
total f [] = 0
total f (x ∷ xs) = f x + total f xs

pub total-set {ℓ} :
    {A : Type ℓ} (f : A → ℕ) (xs : List A) (i : ℕ) (x y : A)
    → get_elem? xs i ≡ some x
    → total f (set xs i y) + f x ≡ total f xs + f y
total-set f [] i x y h = absurd (ground (arith, h))
total-set f (z ∷ xs) zero x y h = ground (arith, h)
total-set f (z ∷ xs) (suc i) x y h = omega (arith, total-set f xs i x y h)

pub total-nil {ℓ} : {A : Type ℓ} (f : A → ℕ) (xs : List A) → length xs ≡ 0 → total f xs ≡ 0
total-nil f [] h = refl
total-nil f (x ∷ xs) h = absurd (omega arith)

pub total-append {ℓ} :
    {A : Type ℓ} (f : A → ℕ) (xs ys : List A) → total f (xs ++ ys) ≡ total f xs + total f ys
total-append f [] ys = omega arith
total-append f (x ∷ xs) ys = omega (arith, total-append f xs ys)

pub total_ge {ℓ} :
    {A : Type ℓ} (f : A → ℕ) (xs : List A) (i : ℕ) (x : A)
    → get_elem? xs i ≡ some x
    → f x ≤ total f xs
total_ge f [] i x h = absurd (ground (arith, h))
total_ge f (z ∷ xs) zero x h = ground (arith, h)
total_ge f (z ∷ xs) (suc i) x h = omega (arith, total_ge f xs i x h)

abbrev pub count : ℕ → List ℕ → ℕ
count x [] = 0
count x (y ∷ ys) = (if y == x then 1 else 0) + count x ys

pub count-append : (x : ℕ) (xs ys : List ℕ) → count x (xs ++ ys) ≡ count x xs + count x ys
count-append x [] ys = omega arith
count-append x (y ∷ xs) ys = omega (arith, count-append x xs ys)

pub contains-count :
    (x : ℕ) (xs : List ℕ)
    → (contains x xs ≡ true → 0 < count x xs) × (contains x xs ≡ false → count x xs ≡ 0)
unfolding contains
contains-count x [] = (λ t. absurd (ground arith), λ f. omega arith)
contains-count x (y ∷ ys) =
    let (some_in, none_in) = contains-count x ys in
    (λ t. ground (arith, some_in), λ f. ground (arith, none_in))

-- Is a number this one?
abbrev pub one_if : ℕ → ℕ → ℕ
one_if x y = if y == x then 1 else 0
