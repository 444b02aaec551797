-- ===== src/Wal/Bytes.antt =====
-- A record's 40 bytes, and back.
use native.Mathlib.Nat.{pow-suc}
use flashsale_system_imitati.Prelude.{
  ℕ, zero, suc, ◌+◌, ◌*◌, ◌/◌, ◌%◌, ◌^◌, ◌<◌, ◌≡◌, refl, ap, ◌∙◌, length, arith,
}
use flashsale_system_imitati.Prelude.Int.{
  ℤ, IsI32, IsI64, to_u64, to_bits32, from_bits32, from_bits64, from_bits32-to_bits32,
  from_bits64-to_u64,
}
use flashsale_system_imitati.Wal.{WalRecord, le_bytes, from_le, encode, decode}

-- The fields hold values of their types.
pub record IsStorable (r : WalRecord) : Type 0 where
  pub timestamp_fits : r.timestamp_ns < 2 ^ 64
  pub sku_fits : IsI64 r.sku_id
  pub qty_fits : IsI32 r.qty
  pub request_fits : r.request_id < 2 ^ 64
  pub guest_fits : r.guest_id < 2 ^ 64

pub length-le_bytes : (k n : ℕ) → length (le_bytes k n) ≡ k
unfolding le_bytes
length-le_bytes zero n = refl
length-le_bytes (suc k) n = ap suc (length-le_bytes k (n / 256))

pub from_le-le_bytes : (k n : ℕ) → n < 256 ^ k → from_le (le_bytes k n) ≡ n
unfolding from_le le_bytes
from_le-le_bytes zero n h = omega (arith, h)
from_le-le_bytes (suc k) n h =
    ap (λ m. n % 256 + 256 * m) (from_le-le_bytes k (n / 256) (omega (arith, pow-suc 256 k)))
    ∙ omega arith

to_u64-lt : (z : ℤ) → to_u64 z < 2 ^ 64
unfolding to_u64
to_u64-lt z = ground arith

to_bits32-lt : (z : ℤ) → to_bits32 z < 2 ^ 32
unfolding to_bits32
to_bits32-lt z = ground arith

pub length-encode : (pad : ℕ) (r : WalRecord) → length (encode pad r) ≡ 40
unfolding encode
length-encode pad r = refl

-- What is read back is what was written, whatever stands in the padding.
pub decode-encode : (pad : ℕ) (r : WalRecord) → IsStorable r → decode (encode pad r) ≡ r
unfolding encode decode
decode-encode pad r v = λ i. record {
  timestamp_ns = from_le-le_bytes 8 r.timestamp_ns (omega arith) i;
  sku_id =
      (ap from_bits64 (from_le-le_bytes 8 (to_u64 r.sku_id) (to_u64-lt r.sku_id))
          ∙ from_bits64-to_u64 r.sku_id v.sku_fits)
        i;
  qty =
      (ap from_bits32 (from_le-le_bytes 4 (to_bits32 r.qty) (to_bits32-lt r.qty))
          ∙ from_bits32-to_bits32 r.qty v.qty_fits)
        i;
  request_id = from_le-le_bytes 8 r.request_id (omega arith) i;
  guest_id = from_le-le_bytes 8 r.guest_id (omega arith) i;
}
