-- ===== src/Fifo.antt =====
-- The abstract bounded FIFO that the queues promise: the items waiting, oldest first.
use flashsale_system_imitati.Prelude.{
  ◌≡◌, ◌⊎◌, inl, inr, refl, ℕ, ◌+◌, Bool, true, false, Option, none, some, List, [], ◌∷◌, ◌++◌,
  length, take, drop, ltb, leb, if◌then◌else◌,
}

-- What a client asks of a queue.
pub data Op {ℓ} (A : Type ℓ) : Type ℓ where
  put : A → Op A
  put_batch : List A → Op A
  get : Op A
  get_batch : ℕ → Op A
  size : Op A

-- What it sees: whether it was done, the items that came out, and a count.
pub record Reply {ℓ} (A : Type ℓ) : Type ℓ where
  pub done : Bool
  pub items : List A
  pub count : ℕ

-- An output parameter that was written, or was not.
abbrev pub is_some {ℓ} : {A : Type ℓ} → Option A → Bool
is_some none = false
is_some (some x) = true

abbrev pub option_list {ℓ} : {A : Type ℓ} → Option A → List A
option_list none = []
option_list (some x) = x ∷ []

module _ {ℓ} {A : Type ℓ} where
  unfoldable pub pop : List A → Option A × List A
  pop [] = (none, [])
  pop (x ∷ xs) = (some x, xs)

  pub pop_cases :
      (xs : List A)
      → ((xs ≡ []) × (pop xs ≡ (none, [])))
        ⊎ ((x : A) × (rest : List A) × (xs ≡ x ∷ rest) × (pop xs ≡ (some x, rest)))
  unfolding pop
  pop_cases [] = inl (refl, refl)
  pop_cases (x ∷ rest) = inr (x, rest, refl, refl)

  unfoldable pub pop_batch : List A → ℕ → List A × List A
  pop_batch xs n = (take n xs, drop n xs)

  module _ (cap : ℕ) where
    unfoldable pub push : List A → A → Bool × List A
    push xs x = if ltb (length xs) cap then (true, xs ++ (x ∷ [])) else (false, xs)

    -- All or nothing.
    unfoldable pub push_batch : List A → List A → Bool × List A
    push_batch xs ys = if leb (length xs + length ys) cap then (true, xs ++ ys) else (false, xs)

    unfoldable pub step : List A → Op A → Reply A × List A
    unfolding push push_batch pop pop_batch
    step xs (put x) =
        let (done, xs') = push xs x in (record { done = done; items = []; count = 0 }, xs')
    step xs (put_batch ys) =
        let (done, xs') = push_batch xs ys in (record { done = done; items = []; count = 0 }, xs')
    step xs get =
        let (out, xs') = pop xs in
        (record { done = is_some out; items = option_list out; count = 0 }, xs')
    step xs (get_batch n) =
        let (out, xs') = pop_batch xs n in
        (record { done = true; items = out; count = length out }, xs')
    step xs size = (record { done = true; items = []; count = length xs }, xs)

    -- What a client sees of its calls, in order.
    unfoldable pub run : List A → List (Op A) → List (Reply A)
    run xs [] = []
    run xs (op ∷ ops) = let (reply, xs') = step xs op in reply ∷ run xs' ops
