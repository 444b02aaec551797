-- ===== src/Prelude/Pack.antt =====
-- Two numbers packed into one: `(a << k) | b`.
use Prim.Native.Nat.{
  ℕ, zero, suc, ◌+◌, ◌*◌, ◌/◌, ◌%◌, ◌^◌, ◌≤◌, ◌<◌, max, bit_or, digits, bit_or-bitwise,
}
use mathlib.Core.Path.{◌≡◌, ◌∙◌, subst}
use native.Mathlib.Nat.{pow-suc}
use native.Mathlib.Omega.{arith}
use flashsale_system_imitati.Prelude.Bits.{double-mod, pow-pos}

-- The digits of `bit_or`, by the recursion that defines it, with `n` for its fuel.
abbrev or_of : ℕ → ℕ → ℕ → ℕ
or_of n a b = digits (λ b. b) max n a b

-- A number without its `k` low digits, and a number of only these.
or_of-disjoint : (n x b k : ℕ) → x ≤ n → x % 2 ^ k ≡ 0 → b < 2 ^ k → or_of n x b ≡ x + b
or_of-disjoint zero zero b k h low lt = omega arith
or_of-disjoint zero (suc x) b k h low lt = absurd (omega arith)
or_of-disjoint (suc n) zero b k h low lt = omega arith
or_of-disjoint (suc n) (suc x) b zero h low lt =
    omega
      (arith, or_of-disjoint n (suc x / 2) (b / 2) zero (omega arith) (omega arith) (omega arith))
or_of-disjoint (suc n) (suc x) b (suc k) h low lt =
    let low' : suc x % (2 ^ k * 2) ≡ 0 = subst (λ m. suc x % m ≡ 0) (pow-suc 2 k) low in
    let halves = double-mod (suc x) (2 ^ k) (pow-pos k) in
    omega (
      arith,
      low',
      halves,
      or_of-disjoint n (suc x / 2) (b / 2) k (omega arith) (omega (arith, low', halves))
          (omega (arith, pow-suc 2 k)),
    )

pub bit_or-disjoint : (x b k : ℕ) → x % 2 ^ k ≡ 0 → b < 2 ^ k → bit_or x b ≡ x + b
bit_or-disjoint x b k low lt = bit_or-bitwise x b ∙ or_of-disjoint x x b k (omega arith) low lt
