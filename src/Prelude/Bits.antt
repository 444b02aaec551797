-- ===== src/Prelude/Bits.antt =====
-- `x & (2^k - 1)` is the remainder of `x` by 2^k.
use Prim.Native.Nat.{
  ℕ, zero, suc, ◌+◌, ◌-◌, ◌*◌, ◌/◌, ◌%◌, ◌^◌, ◌≤◌, ◌<◌, min, bit_and, digits, bit_and-bitwise,
}
use mathlib.Core.Path.{◌≡◌, sym, ap, ap₂, ◌∙◌}
use native.Mathlib.Nat.{pow-suc, mod-eq_of_lt, mod-lt, div-add-mod, add-mod_right}
use native.Mathlib.Omega.{arith}

pub pow-pos : (k : ℕ) → 0 < 2 ^ k
pow-pos zero = omega arith
pow-pos (suc k) = omega (arith, pow-suc 2 k, pow-pos k)

zero-mod : (k : ℕ) → 0 ≡ 0 % 2 ^ k
zero-mod k = sym (mod-eq_of_lt (pow-pos k))

mod-add-mul : (q m r : ℕ) → r < m → (q * m + r) % m ≡ r
mod-add-mul zero m r h = ap (λ y. y % m) (omega arith) ∙ mod-eq_of_lt h
mod-add-mul (suc q) m r h =
    ap (λ y. y % m) (omega arith) ∙ add-mod_right (q * m + r) m ∙ mod-add-mul q m r h

-- The digits of `bit_and`, by the recursion that defines it, with `n` for its fuel.
abbrev and_of : ℕ → ℕ → ℕ → ℕ
and_of n a b = digits (λ _. zero) min n a b

pub double-mod : (x m : ℕ) → 0 < m → x % (m * 2) ≡ x / 2 % m * 2 + x % 2
double-mod x m h =
    ap (λ y. y % (m * 2)) split
    ∙ mod-add-mul (x / 2 / m) (m * 2) (x / 2 % m * 2 + x % 2) (omega (arith, mod-lt (x / 2) h))
  where
    split : x ≡ x / 2 / m * (m * 2) + (x / 2 % m * 2 + x % 2)
    split = omega (arith, div-add-mod (x / 2) m)

-- The lowest digit of the mask is one, and the others are the shorter mask.
mask-half : (k : ℕ) → ((2 ^ suc k - 1) / 2 ≡ 2 ^ k - 1) × ((2 ^ suc k - 1) % 2 ≡ 1)
mask-half k = omega (arith, pow-suc 2 k, pow-pos k)

and_of-mask : (n a k : ℕ) → a ≤ n → and_of n a (2 ^ k - 1) ≡ a % 2 ^ k
and_of-mask zero zero k h = zero-mod k
and_of-mask zero (suc a) k h = absurd (omega arith)
and_of-mask (suc n) zero k h = zero-mod k
and_of-mask (suc n) (suc a) zero h = omega (arith, and_of-mask n (suc a / 2) zero (omega arith))
and_of-mask (suc n) (suc a) (suc k) h =
    ap₂ (λ b c. and_of n (suc a / 2) b * 2 + min (suc a % 2) c) (mask-half k).0 (mask-half k).1
    ∙ ap (λ b. b * 2 + min (suc a % 2) 1) (and_of-mask n (suc a / 2) k (omega arith))
    ∙ omega arith
    ∙ sym (double-mod (suc a) (2 ^ k) (pow-pos k))
    ∙ ap (λ m. suc a % m) (sym (pow-suc 2 k))

pub bit_and-mask : (a k : ℕ) → bit_and a (2 ^ k - 1) ≡ a % 2 ^ k
bit_and-mask a k = bit_and-bitwise a (2 ^ k - 1) ∙ and_of-mask a a k (omega arith)
