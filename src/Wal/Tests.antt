-- ===== src/Wal/Tests.antt =====
-- The log on concrete inputs.
use flashsale_system_imitati.Prelude.{◌-◌, ◌≡◌, refl, false, some, List, [], ◌∷◌, ◌++◌, take, arith}
use flashsale_system_imitati.Prelude.Int.{pos, negsuc, from_bits64, from_bits32, to_u64, to_bits32}
use flashsale_system_imitati.Wal.{
  WalRecord, encode, decode, append, recover, recover_from, record_size,
}
use flashsale_system_imitati.Wal.RoundTrip.{Entry, AllStorable, append_all, recover-append_all}
use flashsale_system_imitati.Wal.Torn.{after_torn, recover-after_torn}

abbrev first : WalRecord
first = record { timestamp_ns = 1000; sku_id = pos 888; qty = pos 1; request_id = 7; guest_id = 42 }

abbrev second : WalRecord
second = record {
  timestamp_ns = 2000;
  sku_id = negsuc 4;
  qty = negsuc 0;
  request_id = 8;
  guest_id = 1;
}

abbrev entries : List Entry
entries = (0, first) ∷ (0xdeadbeef, second) ∷ []

entries-AllStorable : AllStorable entries
entries-AllStorable = (omega arith, (omega arith, tt))

decode-encode_run : decode (encode 0xdeadbeef second) ≡ second
unfolding decode encode from_bits64 from_bits32 to_u64 to_bits32
decode-encode_run = refl

recover_run : recover (some (append_all entries [] ++ 1 ∷ 2 ∷ 3 ∷ [])) ≡ first ∷ second ∷ []
unfolding recover append_all recover_from append decode encode from_bits64 from_bits32 to_u64
    to_bits32
recover_run = refl

recover-append_all_example :
    recover (some (append_all entries [] ++ 1 ∷ 2 ∷ 3 ∷ [])) ≡ first ∷ second ∷ []
recover-append_all_example =
    recover-append_all entries (1 ∷ 2 ∷ 3 ∷ []) entries-AllStorable (omega arith)

recover-after_torn_example :
    ((append (pos 10) (append_all entries []) (encode 0 first)).0 ≡ false)
    × (recover (some (after_torn entries 10 (0, first) (0, second)))
        ≡ first
          ∷ second
          ∷ decode (take 10 (encode 0 first) ++ take (record_size - 10) (encode 0 second))
          ∷ [])
recover-after_torn_example =
    recover-after_torn entries 10 (0, first) (0, second) entries-AllStorable (omega arith)
      (omega arith)
