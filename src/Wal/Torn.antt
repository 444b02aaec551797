-- ===== src/Wal/Torn.antt =====
-- What an append leaves behind that was written in part.
use flashsale_system_imitati.Prelude.{
  ℕ, ◌-◌, ◌<◌, ◌≡◌, sym, ap, ap₂, ◌∙◌, false, some, List, [], ◌∷◌, ◌++◌, map, length, take, drop,
  length-append, append_assoc, take-append-drop, length-take, length-drop, take_all, arith,
}
use flashsale_system_imitati.Prelude.Int.{pos}
use flashsale_system_imitati.Wal.{Bytes, encode, decode, append, recover, recover_from, record_size}
use flashsale_system_imitati.Wal.Bytes.{length-encode}
use flashsale_system_imitati.Wal.RoundTrip.{
  Entry, AllStorable, log_of, append_all, append_all-eq, recover_from-append, recover_from-torn,
  recover_from_enough, recover-log_of,
}

-- The file after one append of which `write` took `k` bytes only, and one more that was whole.
abbrev pub after_torn : List Entry → ℕ → Entry → Entry → Bytes
after_torn es k (pad, r) (pad', r') =
    let torn : Bytes = (append (pos k) (append_all es []) (encode pad r)).1 in
    (append (pos record_size) torn (encode pad' r')).1

after_torn-eq :
    (es : List Entry) (k : ℕ) (e e' : Entry)
    → after_torn es k e e' ≡ log_of es ++ (take k (encode e.0 e.1) ++ encode e'.0 e'.1)
unfolding append
after_torn-eq es k (pad, r) (pad', r') =
    ap₂ (λ file bs. (file ++ take k (encode pad r)) ++ bs) (append_all-eq es [])
      (take_all record_size (encode pad' r') (omega (arith, length-encode pad' r')))
    ∙ append_assoc (log_of es) (take k (encode pad r)) (encode pad' r')

-- The head of one record and the start of the next are read as one.
recover-split :
    (k : ℕ) (bs cs : Bytes)
    → 0 < k
    → k < record_size
    → length bs ≡ record_size
    → length cs ≡ record_size
    → recover (some (take k bs ++ cs)) ≡ decode (take k bs ++ take (record_size - k) cs) ∷ []
unfolding recover
recover-split k bs cs lo hi hb hc =
    recover_from_enough (length (take k bs ++ cs)) 80 (take k bs ++ cs) (omega arith)
      (omega (arith, length-append (take k bs) cs, length-take k bs))
    ∙ ap (recover_from 80) (sym regroup)
    ∙ recover_from-append 79 front back (
        omega (
          arith,
          length-append (take k bs) (take (record_size - k) cs),
          length-take k bs,
          length-take (record_size - k) cs,
        ))
    ∙ ap (λ rs. decode front ∷ rs)
        (recover_from-torn 79 back (omega (arith, length-drop (record_size - k) cs)))
  where
    front : Bytes
    front = take k bs ++ take (record_size - k) cs

    back : Bytes
    back = drop (record_size - k) cs

    regroup : front ++ back ≡ take k bs ++ cs
    regroup =
        append_assoc (take k bs) (take (record_size - k) cs) back
        ∙ ap (λ l. take k bs ++ l) (take-append-drop (record_size - k) cs)

-- In a log of records whose fields are in range, an append that writes only `k` of the 40 bytes,
-- 0 < k < 40, returns false and leaves the `k` bytes in the file; the next append that succeeds is
-- then not recovered. In its place `Recover` passes on a record whose first
-- `k` bytes are the torn record's and whose other bytes are the next one's first.
pub recover-after_torn :
    (es : List Entry) (k : ℕ) (e e' : Entry)
    → AllStorable es
    → 0 < k
    → k < record_size
    → ((append (pos k) (append_all es []) (encode e.0 e.1)).0 ≡ false)
      × (recover (some (after_torn es k e e'))
          ≡ map (λ e. e.1) es
            ++ decode (take k (encode e.0 e.1) ++ take (record_size - k) (encode e'.0 e'.1)) ∷ [])
unfolding append
recover-after_torn es k e e' v lo hi = (
  ground (arith, length-encode e.0 e.1),
  ap (λ file. recover (some file)) (after_torn-eq es k e e')
      ∙ recover-log_of es (take k (encode e.0 e.1) ++ encode e'.0 e'.1) v
      ∙ ap (λ rs. map (λ e. e.1) es ++ rs)
          (recover-split k (encode e.0 e.1) (encode e'.0 e'.1) lo hi (length-encode e.0 e.1)
            (length-encode e'.0 e'.1)),
)
