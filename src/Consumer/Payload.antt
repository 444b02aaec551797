-- ===== src/Consumer/Payload.antt =====
-- `parse_intent` on the payloads of the mock client.
use flashsale_system_imitati.Prelude.{
  ℕ, zero, suc, ◌+◌, ◌/◌, ◌%◌, ◌^◌, ◌<◌, ◌≡◌, ◌≢◌, refl, sym, ap, subst, ◌∙◌, ◌++◌, some, List, [],
  ◌∷◌, append_assoc, append-nil, dec_lt, arith, take,
}
use flashsale_system_imitati.Consumer.{
  Chars, OrderIntent, parse_u64, parse_u32, split_parts, parse_ts, parse_parts, parse_intent,
  to_digits, to_string, comma, mock_payload,
}
use flashsale_system_imitati.Consumer.Digits.{
  to_digits-nonempty, to_digits_small, to_digits_large, parse_u64-to_string,
}

abbrev NoComma : Chars → Type 0
NoComma [] = Unit
NoComma (c ∷ cs) = (c ≢ 44) × NoComma cs

NoComma-append : (xs ys : Chars) → NoComma xs → NoComma ys → NoComma (xs ++ ys)
NoComma-append [] ys a b = b
NoComma-append (x ∷ xs) ys a b = (a.0, NoComma-append xs ys a.1 b)

to_digits-NoComma : (fuel n : ℕ) → NoComma (to_digits fuel n)
unfolding to_digits
to_digits-NoComma zero n = tt
to_digits-NoComma (suc fuel) n = elim (dec_lt n 10) [
  | yes small ↦ subst NoComma (sym (to_digits_small fuel n small)) (λ e. omega arith, tt)
  | no large ↦ subst NoComma (sym (to_digits_large fuel n (omega arith))) (
      NoComma-append (to_digits fuel (n / 10)) _ (to_digits-NoComma fuel (n / 10))
        (λ e. omega arith, tt))
]

-- A character that is no comma belongs to the part.
split_parts-other :
    (c : ℕ) (cs part : Chars)
    → c ≢ 44
    → split_parts (c ∷ cs) part ≡ split_parts cs (part ++ (c ∷ []))
unfolding split_parts
split_parts-other c cs part h = ground arith

split_parts-part :
    (ds rest part : Chars)
    → NoComma ds
    → split_parts (ds ++ (comma ++ rest)) part ≡ (part ++ ds) ∷ split_parts rest []
unfolding split_parts
split_parts-part [] rest part h = ap (λ p. p ∷ split_parts rest []) (sym (append-nil part))
split_parts-part (c ∷ cs) rest part h =
    split_parts-other c (cs ++ (comma ++ rest)) part h.0
    ∙ split_parts-part cs rest (part ++ (c ∷ [])) h.1
    ∙ ap (λ p. p ∷ split_parts rest []) (append_assoc part (c ∷ []) cs)

split_parts-last : (ds part : Chars) → NoComma ds → split_parts ds part ≡ (part ++ ds) ∷ []
unfolding split_parts
split_parts-last [] part h = ap (λ p. p ∷ []) (sym (append-nil part))
split_parts-last (c ∷ cs) part h =
    split_parts-other c cs part h.0
    ∙ split_parts-last cs (part ++ (c ∷ [])) h.1
    ∙ ap (λ p. p ∷ []) (append_assoc part (c ∷ []) cs)

mock_parts : ℕ → List Chars
mock_parts seq =
    to_string seq
    ∷ to_string (seq % 1024)
    ∷ to_string (seq % 50 + 1)
    ∷ to_string 1
    ∷ to_string seq
    ∷ []

split_parts-mock_payload : (seq : ℕ) → split_parts (mock_payload seq) [] ≡ mock_parts seq
unfolding mock_payload mock_parts
split_parts-mock_payload seq =
    split_parts-part (to_string seq) _ [] (to_digits-NoComma 20 seq)
    ∙ ap (λ ps. to_string seq ∷ ps)
        (split_parts-part (to_string (seq % 1024)) _ [] (to_digits-NoComma 20 (seq % 1024))
          ∙ ap (λ ps. to_string (seq % 1024) ∷ ps)
              (split_parts-part (to_string (seq % 50 + 1)) _ []
                  (to_digits-NoComma 20 (seq % 50 + 1))
                ∙ ap (λ ps. to_string (seq % 50 + 1) ∷ ps)
                    (split_parts-part (to_string 1) _ [] (to_digits-NoComma 20 1)
                      ∙ ap (λ ps. to_string 1 ∷ ps)
                          (split_parts-last (to_string seq) [] (to_digits-NoComma 20 seq)))))

parse_u64_small : (n : ℕ) → n < 2 ^ 64 → parse_u64 (to_string n) ≡ some n
parse_u64_small n h = parse_u64-to_string n (omega arith) ∙ ap some (omega arith)

parse_u32_small : (n : ℕ) → n < 2 ^ 32 → parse_u32 (to_string n) ≡ some n
unfolding parse_u32
parse_u32_small n h = rw (parse_u64_small n (omega arith), parse_u32) (ground arith)

parse_ts-eq : (ds : Chars) → ds ≢ [] → parse_ts (ds ∷ []) ≡ parse_u64 ds
unfolding parse_ts
parse_ts-eq [] h = absurd (h refl)
parse_ts-eq (d ∷ ds) h = refl

-- What `MockPullClient` means by the payload of the sequence number `seq`.
abbrev pub mock_intent : ℕ → OrderIntent
mock_intent seq = record {
  request_id = seq;
  user_id = seq % 1024;
  sku_id = seq % 50 + 1;
  qty = 1;
  ts_ns = seq;
}

-- `parse_intent` reads back the five numbers that `MockPullClient` has printed, for every `uint64_t`
-- sequence number.
pub parse_intent-mock_payload :
    (seq : ℕ) → seq < 2 ^ 64 → parse_intent (mock_payload seq) ≡ some (mock_intent seq)
unfolding parse_intent mock_parts parse_parts
parse_intent-mock_payload seq h =
    ap (λ ps. parse_parts (take 5 ps)) (split_parts-mock_payload seq)
    ∙ rw
        (
          parse_u64_small seq h,
          parse_u64_small (seq % 1024) (omega arith),
          parse_u32_small (seq % 50 + 1) (omega arith),
          parse_u32_small 1 (omega arith),
          parse_ts-eq (to_string seq) (to_digits-nonempty 19 seq),
          parse_u64_small seq h,
          parse_parts,
        )
        refl
