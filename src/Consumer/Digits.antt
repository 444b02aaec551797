-- ===== src/Consumer/Digits.antt =====
-- `parse_u64` on what `std::to_string` prints.
use native.Mathlib.Nat.{pow-suc}
use flashsale_system_imitati.Prelude.{
  ◌≢◌, length, length-append, ℕ, zero, suc, ◌+◌, ◌*◌, ◌/◌, ◌%◌, ◌^◌, ◌≤◌, ◌<◌, ◌≡◌, refl, sym, ap,
  ◌∙◌, ◌++◌, some, [], ◌∷◌, append_assoc, append-nil, dec_lt, arith,
}
use flashsale_system_imitati.Consumer.{Chars, parse_digits, parse_u64, to_digits, to_string}

-- Reading a digit.
parse_digits-digit :
    (d val : ℕ) (cs : Chars)
    → d < 10
    → parse_digits ((48 + d) ∷ cs) val ≡ parse_digits cs ((val * 10 + d) % 2 ^ 64)
unfolding parse_digits
parse_digits-digit d val cs h = ground arith

pub to_digits_small : (fuel n : ℕ) → n < 10 → to_digits (suc fuel) n ≡ (48 + n) ∷ []
unfolding to_digits
to_digits_small fuel n h = ground arith

pub to_digits_large :
    (fuel n : ℕ) → 10 ≤ n → to_digits (suc fuel) n ≡ to_digits fuel (n / 10) ++ ((48 + n % 10) ∷ [])
unfolding to_digits
to_digits_large fuel n h = ground arith

parse_digits-to_digits :
    (fuel n : ℕ) (cs : Chars)
    → n < 10 ^ suc fuel
    → parse_digits (to_digits (suc fuel) n ++ cs) 0 ≡ parse_digits cs (n % 2 ^ 64)
parse_digits-to_digits zero n cs h =
    ap (λ ds. parse_digits (ds ++ cs) 0) (to_digits_small 0 n (omega arith))
    ∙ parse_digits-digit n 0 cs (omega arith)
    ∙ ap (parse_digits cs) (omega arith)
parse_digits-to_digits (suc fuel) n cs h = elim (dec_lt n 10) [
  | yes small ↦
      ap (λ ds. parse_digits (ds ++ cs) 0) (to_digits_small (suc fuel) n small)
      ∙ parse_digits-digit n 0 cs small
      ∙ ap (parse_digits cs) (omega arith)
  | no large ↦
      ap (λ ds. parse_digits (ds ++ cs) 0) (to_digits_large (suc fuel) n (omega arith))
      ∙ ap (λ ds. parse_digits ds 0)
          (append_assoc (to_digits (suc fuel) (n / 10)) ((48 + n % 10) ∷ []) cs)
      ∙ parse_digits-to_digits fuel (n / 10) ((48 + n % 10) ∷ cs)
          (omega (arith, pow-suc 10 (suc fuel)))
      ∙ parse_digits-digit (n % 10) (n / 10 % 2 ^ 64) cs (omega arith)
      ∙ ap (parse_digits cs) (omega arith)
]

parse_u64-digits :
    (ds : Chars) (n : ℕ) → ds ≢ [] → parse_digits ds 0 ≡ some n → parse_u64 ds ≡ some n
unfolding parse_u64
parse_u64-digits [] n h e = absurd (h refl)
parse_u64-digits (d ∷ ds) n h e = e

pub to_digits-nonempty : (fuel n : ℕ) → to_digits (suc fuel) n ≢ []
to_digits-nonempty fuel n e = elim (dec_lt n 10) [
  | yes small ↦ omega (arith, ap length (sym (to_digits_small fuel n small) ∙ e))
  | no large ↦ omega (
    arith,
    ap length (sym (to_digits_large fuel n (omega arith)) ∙ e),
    length-append (to_digits fuel (n / 10)) ((48 + n % 10) ∷ []),
  )
]

-- `parse_u64` takes any number of up to 20 digits, as `std::to_string` would print it, and gives it modulo
-- 2^64: a number that a `uint64_t` cannot hold is not refused.
pub parse_u64-to_string : (n : ℕ) → n < 10 ^ 20 → parse_u64 (to_string n) ≡ some (n % 2 ^ 64)
unfolding parse_digits
parse_u64-to_string n h = parse_u64-digits (to_string n) (n % 2 ^ 64) (to_digits-nonempty 19 n) (
    ap (λ ds. parse_digits ds 0) (sym (append-nil (to_string n)))
    ∙ parse_digits-to_digits 19 n [] h)
