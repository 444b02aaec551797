-- ===== src/Core/Check.antt =====
-- The correctness check of the dispatcher: what `GetConsumerStats` says of the ids that it has passed.
use flashsale_system_imitati.Prelude.{
  ℕ, suc, ◌+◌, ◌-◌, ◌^◌, ◌≤◌, ◌<◌, ◌≡◌, ◌↔◌, true, List, [], ◌∷◌, length, arith, refl, sym, subst,
}
use flashsale_system_imitati.Core.{SeqCheck, reset_check, count_seq, check_request}

-- The check of one request id after the other.
abbrev pub check_all : List ℕ → SeqCheck → SeqCheck
check_all [] c = c
check_all (id ∷ ids) c = check_all ids (check_request id c)

-- Ids of requests, which are below `UINT64_MAX`.
abbrev pub AllRegular : List ℕ → Type 0
AllRegular [] = Unit
AllRegular (id ∷ ids) = (id < 2 ^ 64 - 1) × AllRegular ids

-- The ids `n`, n + 1, n + 2 and so on.
abbrev pub CountFrom : ℕ → List ℕ → Type 0
CountFrom n [] = Unit
CountFrom n (id ∷ ids) = (id ≡ n) × CountFrom (n + 1) ids

-- No counter is about to wrap, with `n` ids to come.
record IsCounting (n : ℕ) (c : SeqCheck) : Type 0 where
  on : c.enabled ≡ true
  expected_fits : c.expected_seq < 2 ^ 64
  gap_lt : c.gap_count < c.expected_seq
  dup_fits : c.dup_count + n < 2 ^ 64

-- What the check has counted from `c` to `c'` over some ids.
record Counted (ids : List ℕ) (c c' : SeqCheck) : Type 0 where
  gap_grows : c.gap_count ≤ c'.gap_count
  dup_grows : c.dup_count ≤ c'.dup_count
  account :
      c'.expected_seq + c'.dup_count + c.gap_count
      ≡ c.expected_seq + c.dup_count + length ids + c'.gap_count
  clean :
      ((c'.gap_count ≡ c.gap_count) × (c'.dup_count ≡ c.dup_count)) ↔ CountFrom c.expected_seq ids

check_request-eq :
    (n id : ℕ) (c : SeqCheck)
    → IsCounting (suc n) c
    → id < 2 ^ 64 - 1
    → IsCounting n (check_request id c) × Counted (id ∷ []) c (check_request id c)
unfolding check_request count_seq
check_request-eq n id c v h = ground arith

expected_seq-check_request :
    (id : ℕ) (c : SeqCheck)
    → c.enabled ≡ true
    → id ≡ c.expected_seq
    → id < 2 ^ 64 - 1
    → (check_request id c).expected_seq ≡ c.expected_seq + 1
unfolding check_request count_seq
expected_seq-check_request id c on e h = ground arith

check_all-Counted :
    (ids : List ℕ) (c : SeqCheck)
    → IsCounting (length ids) c
    → AllRegular ids
    → Counted ids c (check_all ids c)
check_all-Counted [] c v h = record {
  gap_grows = omega arith;
  dup_grows = omega arith;
  account = omega arith;
  clean = ground arith;
}
check_all-Counted (id ∷ ids) c v h =
    let (v', one) = check_request-eq (length ids) id c v h.0 in
    let more = check_all-Counted ids (check_request id c) v' h.1 in
    record {
      gap_grows = omega (arith, one.gap_grows, more.gap_grows);
      dup_grows = omega (arith, one.dup_grows, more.dup_grows);
      account = omega (arith, one.account, more.account);
      clean = (
        λ h'.
            let same = one.clean.0 (
              omega (arith, one.gap_grows, more.gap_grows),
              omega (arith, one.dup_grows, more.dup_grows),
            ) in
            (
              same.0,
              subst (λ n. CountFrom n ids) (expected same.0)
                  (more.clean.0 (
                    omega (arith, one.gap_grows, more.gap_grows),
                    omega (arith, one.dup_grows, more.dup_grows),
                  )),
            ),
        λ h'.
            let same = one.clean.1 (h'.0, tt) in
            let rest = more.clean.1 (subst (λ n. CountFrom n ids) (sym (expected h'.0)) h'.1) in
            (omega (arith, same.0, rest.0), omega (arith, same.1, rest.1)),
      );
    }
  where
    expected : id ≡ c.expected_seq → (check_request id c).expected_seq ≡ c.expected_seq + 1
    expected e = expected_seq-check_request id c v.on e (omega arith)

-- Once the check has been enabled, and while the dispatcher has passed fewer than 2^64 requests, with
-- ids below `UINT64_MAX`: `GetConsumerStats` reports no gap and no duplicate exactly if the ids were 1,
-- 2, 3 and so on in that order; and always the requests passed and the ids that the gaps count make up
-- the next id that is expected and the duplicates, less 1.
pub check_all-stats :
    (ids : List ℕ)
    → AllRegular ids
    → length ids < 2 ^ 64
    → let c = check_all ids (reset_check true) in
      (((c.gap_count ≡ 0) × (c.dup_count ≡ 0)) ↔ CountFrom 1 ids)
      × (c.expected_seq + c.dup_count ≡ 1 + length ids + c.gap_count)
unfolding reset_check
check_all-stats ids h n =
    let counted =
      check_all-Counted ids (reset_check true)
        (record {
          on = refl;
          expected_fits = omega arith;
          gap_lt = omega arith;
          dup_fits = omega arith;
        })
        h in
    (counted.clean, omega (arith, counted.account))
