-- ===== src/Spsc/Window.antt =====
-- The items in a stretch of the ring, and what the copying loops do to them.
use native.Mathlib.Nat.{mod-add-mod, mod-eq_of_lt, mod-eq-sub-mod, mod-lt, add-zero}
use flashsale_system_imitati.Prelude.{
  ℕ, zero, suc, ◌+◌, ◌-◌, ◌%◌, ◌^◌, ◌≤◌, ◌<◌, ◌≡◌, ◌≢◌, refl, sym, ap, ap₂, ◌∙◌, List, [], ◌∷◌,
  ◌++◌, append-nil, append_assoc, length, set, take, drop, length-set, length-take, length-drop,
  take-append-drop, get_or-set_self, get_or-set_ne, Default, dec_lt, dec_le, arith, take_all,
}
use flashsale_system_imitati.Spsc.{cell, copy_in, copy_in_ring, copy_out, copy_out_ring}
use flashsale_system_imitati.Spsc.Inv.{mod_wrap, length-copy_in}

-- Fewer than `n` steps round the ring do not come back to the start.
pub add-mod-ne : {n h k : ℕ} → h < n → suc k < n → (h + suc k) % n ≢ h
add-mod-ne {n} {h} {k} hh hk = elim (dec_lt (h + suc k) n) [
  | yes p ↦ omega (arith, mod-eq_of_lt p)
  | no p ↦ omega (
    arith,
    mod-eq-sub-mod {n = h + suc k} {m = n} (omega arith),
    mod-eq_of_lt {n = h + suc k - n} {m = n} (omega arith),
  )
]

-- Two positions less than a round apart have different cells.
pub mod-ne : (a b n : ℕ) → a < b → b < a + n → a % n ≢ b % n
mod-ne a b n lo hi e =
    add-mod-ne {n = n} {h = a % n} {k = b - a - 1} (mod-lt a (omega arith)) (omega arith)
      (mod-add-mod a n (suc (b - a - 1)) ∙ ap (λ j. j % n) (omega arith) ∙ sym e)

-- One step round the ring may be taken first.
pub step-mod : (h k n : ℕ) → (h + suc k) % n ≡ ((h + 1) % n + k) % n
step-mod h k n = rw mod-add-mod (ap (λ j. j % n) (omega arith))

mod_self : (h j n : ℕ) → 0 < n → h + j ≡ n → (h + j) % n ≡ 0
mod_self h j n hn e = ap (λ i. i % n) (e ∙ omega arith) ∙ mod_wrap 0 n hn

copy_in_ring-short {ℓ} :
    {A : Type ℓ} (buf : List A) (i : ℕ) (xs : List A)
    → length buf ≤ 2 ^ 63
    → i < length buf
    → i + length xs ≤ length buf
    → copy_in_ring buf i xs ≡ copy_in buf i xs
unfolding copy_in_ring
copy_in_ring-short buf i xs hs hi p = ground (arith, take_all (length xs) xs)

copy_in_ring-long {ℓ} :
    {A : Type ℓ} (buf : List A) (i c : ℕ) (xs : List A)
    → length buf ≤ 2 ^ 63
    → i < length buf
    → i + c ≡ length buf
    → c < length xs
    → copy_in_ring buf i xs ≡ copy_in (copy_in buf i (take c xs)) 0 (drop c xs)
unfolding copy_in_ring
copy_in_ring-long buf i c xs hs hi p q = ground arith

module _ {ℓ} {A : Type ℓ} ⦃d : Default A⦄ where
  -- The `k` items from index `h` on, going round at `n`.
  abbrev pub window : List A → ℕ → ℕ → ℕ → List A
  window buf n h zero = []
  window buf n h (suc k) = cell buf h ∷ window buf n ((h + 1) % n) k

  pub length-window : (buf : List A) (n h k : ℕ) → length (window buf n h k) ≡ k
  length-window buf n h zero = refl
  length-window buf n h (suc k) = ap suc (length-window buf n ((h + 1) % n) k)

  pub window_of_ne_zero :
      (buf : List A) (n h k : ℕ)
      → k ≢ 0
      → window buf n h k ≡ cell buf h ∷ window buf n ((h + 1) % n) (k - 1)
  window_of_ne_zero buf n h zero p = absurd (p refl)
  window_of_ne_zero buf n h (suc k) p = ap (λ j. window buf n h (suc j)) (omega arith)

  -- A stretch splits into two.
  pub window-add :
      (buf : List A) (n h j k : ℕ)
      → h < n
      → window buf n h (j + k) ≡ window buf n h j ++ window buf n ((h + j) % n) k
  window-add buf n h zero k hh = rw (add-zero, mod-eq_of_lt hh, zero-add k)
    where
      zero-add : (m : ℕ) → 0 + m ≡ m
      zero-add m = omega arith
  window-add buf n h (suc j) k hh =
      ap (window buf n h) (suc-add j k)
      ∙ ap (λ l. cell buf h ∷ l) (window-add buf n ((h + 1) % n) j k (omega arith))
      ∙ ap (λ i. window buf n h (suc j) ++ window buf n i k) (sym (step-mod h j n))
    where
      suc-add : (a b : ℕ) → suc a + b ≡ suc (a + b)
      suc-add a b = omega arith

  -- Writing just past a stretch extends it by that item.
  pub window-set :
      (buf : List A) (n : ℕ) (x : A) (k h i : ℕ)
      → n ≤ length buf
      → h < n
      → k < n
      → i ≡ (h + k) % n
      → window (set buf i x) n h (suc k) ≡ window buf n h k ++ (x ∷ [])
  window-set buf n x zero h i hs hh hk e =
      rw (e, add-zero, mod-eq_of_lt hh, get_or-set_self buf h x d.dflt (omega arith))
  window-set buf n x (suc k) h i hs hh hk e =
      ap₂ ◌∷◌ (get_or-set_ne buf x d.dflt (rw e (add-mod-ne hh hk)))
        (window-set buf n x k ((h + 1) % n) i hs (omega arith) (omega arith) (e ∙ step-mod h k n))

  -- A write behind a stretch leaves it alone.
  pub window-set_after :
      (buf : List A) (n : ℕ) (x : A) (i j k : ℕ)
      → i < n
      → suc j + k ≤ n
      → window (set buf i x) n ((i + suc j) % n) k ≡ window buf n ((i + suc j) % n) k
  window-set_after buf n x i j zero hi h = refl
  window-set_after buf n x i j (suc k) hi h =
      ap₂ ◌∷◌ (get_or-set_ne buf x d.dflt (λ e. add-mod-ne hi (omega arith) (sym e))) (
        ap (λ m. window (set buf i x) n m k) next
        ∙ window-set_after buf n x i (suc j) k hi (omega arith)
        ∙ ap (λ m. window buf n m k) (sym next))
    where
      next : ((i + suc j) % n + 1) % n ≡ (i + suc (suc j)) % n
      next = mod-add-mod (i + suc j) n 1 ∙ ap (λ m. m % n) (omega arith)

  -- A run of writes just past a stretch that does not reach the end of the buffer.
  pub window-copy_in :
      (buf : List A) (n : ℕ) (xs : List A) (k h i : ℕ)
      → n ≤ length buf
      → h < n
      → k + length xs < n
      → i + length xs ≤ n
      → (0 < length xs → i ≡ (h + k) % n)
      → window (copy_in buf i xs) n h (k + length xs) ≡ window buf n h k ++ xs
  unfolding copy_in
  window-copy_in buf n [] k h i hs hh hk hi e = rw (add-zero, append-nil)
  window-copy_in buf n (x ∷ xs) k h i hs hh hk hi e =
      ap (window (copy_in (set buf i x) (i + 1) xs) n h) (add-suc k (length xs))
      ∙ window-copy_in (set buf i x) n xs (suc k) h (i + 1) (omega (arith, length-set buf i x)) hh
          (omega arith) (omega arith) next
      ∙ ap (λ l. l ++ xs) (window-set buf n x k h i hs hh (omega arith) (e (omega arith)))
      ∙ append_assoc (window buf n h k) (x ∷ []) xs
    where
      add-suc : (a b : ℕ) → a + suc b ≡ suc a + b
      add-suc a b = omega arith

      next : 0 < length xs → i + 1 ≡ (h + suc k) % n
      next more =
          sym (mod-eq_of_lt (omega arith))
          ∙ ap (λ j. (j + 1) % n) (e (omega arith))
          ∙ mod-add-mod (h + k) n 1
          ∙ ap (λ j. j % n) (omega arith)

  -- The loop that reads stays inside the buffer.
  pub copy_out-window :
      (buf : List A) (n h k : ℕ) → h < n → h + k ≤ n → copy_out buf h k ≡ window buf n h k
  unfolding copy_out
  copy_out-window buf n h zero hh hk = refl
  copy_out-window buf n h (suc zero) hh hk = refl
  copy_out-window buf n h (suc (suc k)) hh hk =
      ap (λ l. cell buf h ∷ l)
        (copy_out-window buf n (h + 1) (suc k) (omega arith) (omega arith)
          ∙ ap (λ j. window buf n j (suc k)) (sym (mod-eq_of_lt (omega arith))))

  copy_out_ring-short :
      (buf : List A) (h k : ℕ)
      → length buf ≤ 2 ^ 63
      → h < length buf
      → h + k ≤ length buf
      → copy_out_ring buf h k ≡ copy_out buf h k
  unfolding copy_out_ring
  copy_out_ring-short buf h k hs hh p = ground arith

  copy_out_ring-long :
      (buf : List A) (h j k : ℕ)
      → length buf ≤ 2 ^ 63
      → h < length buf
      → h + j ≡ length buf
      → copy_out_ring buf h (j + suc k) ≡ copy_out buf h j ++ copy_out buf 0 (suc k)
  unfolding copy_out_ring
  copy_out_ring-long buf h j k hs hh p = ground arith

  copy_out_ring-window_long :
      (buf : List A) (h j r k : ℕ)
      → length buf ≤ 2 ^ 63
      → h < length buf
      → h + j ≡ length buf
      → suc r ≤ length buf
      → k ≡ j + suc r
      → copy_out_ring buf h k ≡ window buf (length buf) h k
  copy_out_ring-window_long buf h j r k hs hh p hr e =
      ap (copy_out_ring buf h) e
      ∙ copy_out_ring-long buf h j r hs hh p
      ∙ ap₂ ◌++◌ (copy_out-window buf (length buf) h j hh (omega arith))
          (copy_out-window buf (length buf) 0 (suc r) (omega arith) (omega arith))
      ∙ ap (λ i. window buf (length buf) h j ++ window buf (length buf) i (suc r))
          (sym (mod_self h j (length buf) (omega arith) p))
      ∙ sym (window-add buf (length buf) h j (suc r) hh)
      ∙ ap (window buf (length buf) h) (sym e)

  -- Reading round the end of the buffer, in two runs, gives the stretch.
  pub copy_out_ring-window :
      (buf : List A) (h k : ℕ)
      → length buf ≤ 2 ^ 63
      → h < length buf
      → k ≤ length buf
      → copy_out_ring buf h k ≡ window buf (length buf) h k
  copy_out_ring-window buf h k hs hh hk = elim (dec_le (h + k) (length buf)) [
    | yes p ↦ copy_out_ring-short buf h k hs hh p ∙ copy_out-window buf (length buf) h k hh p
    | no p ↦
        copy_out_ring-window_long buf h (length buf - h) (k - (length buf - h) - 1) k hs hh
          (omega arith) (omega arith) (omega arith)
  ]

  window-copy_in_two :
      (buf ys zs : List A) (n h k i : ℕ)
      → length buf ≡ n
      → h < n
      → k + length ys + length zs < n
      → i + length ys ≡ n
      → i ≡ (h + k) % n
      → window (copy_in (copy_in buf i ys) 0 zs) n h (k + length ys + length zs)
        ≡ window buf n h k ++ ys ++ zs
  window-copy_in_two buf ys zs n h k i hn hh hk hi e =
      window-copy_in (copy_in buf i ys) n zs (k + length ys) h 0
        (omega (arith, length-copy_in buf i ys)) hh hk (omega arith) (λ _. start)
      ∙ ap (λ l. l ++ zs)
          (window-copy_in buf n ys k h i (omega arith) hh (omega arith) (omega arith) (λ _. e))
    where
      start : 0 ≡ (h + (k + length ys)) % n
      start =
          sym (mod_self i (length ys) n (omega arith) hi)
          ∙ ap (λ j. (j + length ys) % n) e
          ∙ mod-add-mod (h + k) n (length ys)
          ∙ ap (λ j. j % n) (omega arith)

  window-copy_in_split :
      (buf xs : List A) (c h k i : ℕ)
      → h < length buf
      → k + length xs < length buf
      → c ≤ length xs
      → i + c ≡ length buf
      → i ≡ (h + k) % length buf
      → window (copy_in (copy_in buf i (take c xs)) 0 (drop c xs)) (length buf) h (k + length xs)
        ≡ window buf (length buf) h k ++ xs
  window-copy_in_split buf xs c h k i hh hk hc hi e =
      ap (window (copy_in (copy_in buf i (take c xs)) 0 (drop c xs)) (length buf) h) lengths
      ∙ window-copy_in_two buf (take c xs) (drop c xs) (length buf) h k i refl hh
          (omega (arith, lengths)) (omega (arith, length-take c xs)) e
      ∙ append_assoc (window buf (length buf) h k) (take c xs) (drop c xs)
      ∙ ap (λ l. window buf (length buf) h k ++ l) (take-append-drop c xs)
    where
      lengths : k + length xs ≡ k + length (take c xs) + length (drop c xs)
      lengths = omega (arith, length-take c xs, length-drop c xs)

  -- Writing round the end of the buffer, in two runs, extends the stretch by the items.
  pub window-copy_in_ring :
      (buf xs : List A) (h k i : ℕ)
      → length buf ≤ 2 ^ 63
      → h < length buf
      → k + length xs < length buf
      → i ≡ (h + k) % length buf
      → window (copy_in_ring buf i xs) (length buf) h (k + length xs)
        ≡ window buf (length buf) h k ++ xs
  window-copy_in_ring buf xs h k i hs hh hk e = elim (dec_le (i + length xs) (length buf)) [
    | yes p ↦
        ap (λ b. window b (length buf) h (k + length xs))
          (copy_in_ring-short buf i xs hs (omega arith) p)
        ∙ window-copy_in buf (length buf) xs k h i (omega arith) hh hk p (λ _. e)
    | no p ↦
        ap (λ b. window b (length buf) h (k + length xs))
          (copy_in_ring-long buf i (length buf - i) xs hs (omega arith) (omega arith) (omega arith))
        ∙ window-copy_in_split buf xs (length buf - i) h k i hh hk (omega arith) (omega arith) e
  ]
