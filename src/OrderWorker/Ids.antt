-- ===== src/OrderWorker/Ids.antt =====
-- Request ids name a producer and a round.
use Prim.Native.Nat.{bit_or}
use flashsale_system_imitati.Prelude.{ℕ, ◌+◌, ◌*◌, ◌%◌, ◌^◌, ◌<◌, ◌≡◌, ap, ◌∙◌, arith}
use flashsale_system_imitati.Prelude.Bits.{bit_and-mask}
use flashsale_system_imitati.Prelude.Pack.{bit_or-disjoint}
use flashsale_system_imitati.OrderWorker.{make_request_id}

-- The producer's number stands in the upper 32 bits, the round in the lower.
make_request_id-eq :
    (producer_id seq : ℕ)
    → make_request_id producer_id seq ≡ producer_id % 2 ^ 32 * 2 ^ 32 + seq % 2 ^ 32
unfolding make_request_id
make_request_id-eq producer_id seq =
    ap (bit_or (producer_id % 2 ^ 32 * 2 ^ 32)) (bit_and-mask seq 32)
    ∙ bit_or-disjoint (producer_id % 2 ^ 32 * 2 ^ 32) (seq % 2 ^ 32) 32 (omega arith) (omega arith)

-- Two request ids are the same only for the same producer and the same round, where both are below 2^32;
-- and every id is a `uint64_t`.
pub make_request_id-injective :
    (producer_id seq producer_id' seq' : ℕ)
    → producer_id < 2 ^ 32
    → seq < 2 ^ 32
    → producer_id' < 2 ^ 32
    → seq' < 2 ^ 32
    → make_request_id producer_id seq ≡ make_request_id producer_id' seq'
    → (producer_id ≡ producer_id') × (seq ≡ seq') × (make_request_id producer_id seq < 2 ^ 64)
make_request_id-injective p s p' s' hp hs hp' hs' e =
    let a = make_request_id-eq p s in
    let b = make_request_id-eq p' s' in
    (omega (arith, a, b, e), omega (arith, a, b, e), omega (arith, a))
