-- ===== src/Wal.antt =====
-- The write-ahead log, backend/handler/wal.hpp (engine/src/wal.hpp has the same text): `WalLogger`
-- over a file of bytes, and `WalRecord`. What the kernel answers to `open` and `write` is an argument.
pub mod Bytes
pub mod RoundTrip
pub mod Torn
mod Tests
use flashsale_system_imitati.Prelude.{
  ℕ, zero, suc, ◌+◌, ◌*◌, ◌/◌, ◌%◌, ◌^◌, Bool, true, false, Option, none, some, List, [], ◌∷◌, ◌++◌,
  ◌==◌, ltb, if◌then◌else◌, length, take, drop,
}
use flashsale_system_imitati.Prelude.Int.{
  ℤ, pos, negsuc, pos_part, ltb_ℤ, eqb_ℤ, to_u64, to_bits32, from_bits32, from_bits64,
}

-- A byte is a number below 256.
abbrev pub Bytes : Type 0
Bytes = List ℕ

-- `fd` is -1 while no file is open. `buffer` is the array's first `buffer_pos` bytes.
pub record WalLogger : Type 0 where
  pub fd : ℤ
  pub buffer : Bytes
  pub buffer_pos : ℕ

pub record WalRecord : Type 0 where
  pub timestamp_ns : ℕ
  pub sku_id : ℤ
  pub qty : ℤ
  pub request_id : ℕ
  pub guest_id : ℕ

-- The constructor: `none` is the exception thrown when `open` fails.
unfoldable pub open_log : ℤ → Option WalLogger
open_log fd =
    if ltb_ℤ fd (pos 0) then none else some (record { fd = fd; buffer = []; buffer_pos = 0 })

-- `write` on a file opened with O_APPEND: it appends the first `written` bytes, or fails with -1 and
-- changes nothing.
abbrev pub append_written : ℤ → Bytes → Bytes → Bytes
append_written written file bytes = file ++ take (pos_part written) bytes

-- `WriteRaw`, where `write` answers `written`. It returns true if all bytes were written.
unfoldable pub write_raw : ℤ → Bytes → Bytes → Bool × Bytes
write_raw written file bytes =
    (eqb_ℤ written (pos (length bytes)), append_written written file bytes)

unfoldable pub append : ℤ → Bytes → Bytes → Bool × Bytes
unfolding write_raw
append written file bytes = write_raw written file bytes

-- The user-space buffer goes to the file, and is empty after it.
unfoldable pub flush : ℤ → WalLogger → Bytes → Bool × WalLogger × Bytes
unfolding write_raw
flush written w file =
    if w.buffer_pos == 0
    then (true, w, file)
    else (let (ok, file') = write_raw written file (take w.buffer_pos w.buffer) in
        (ok, record w { buffer_pos = 0 }, file'))

-- `Close`: a second call does nothing.
unfoldable pub close : ℤ → WalLogger → Bytes → WalLogger × Bytes
unfolding flush
close written w file =
    if ltb_ℤ w.fd (pos 0)
    then (w, file)
    else (let (_, w', file') = flush written w file in (record w' { fd = negsuc 0 }, file'))

-- The `k` low bytes of a number, the lowest first, and back.
unfoldable pub le_bytes : ℕ → ℕ → Bytes
le_bytes zero n = []
le_bytes (suc k) n = n % 256 ∷ le_bytes k (n / 256)

unfoldable pub from_le : Bytes → ℕ
from_le [] = 0
from_le (b ∷ bs) = b + 256 * from_le bs

-- `sizeof(WalRecord)`
abbrev pub record_size : ℕ
record_size = 40

-- The bytes of a `WalRecord` in memory. `pad` is the word that stands in the 4 bytes behind `qty`,
-- which nothing initialises.
unfoldable pub encode : ℕ → WalRecord → Bytes
unfolding le_bytes
encode pad r =
    le_bytes 8 r.timestamp_ns
    ++ le_bytes 8 (to_u64 r.sku_id)
    ++ le_bytes 4 (to_bits32 r.qty)
    ++ le_bytes 4 pad
    ++ le_bytes 8 r.request_id
    ++ le_bytes 8 r.guest_id

-- The record that stands in 40 bytes of memory.
unfoldable pub decode : Bytes → WalRecord
unfolding from_le
decode bs = record {
  timestamp_ns = from_le (take 8 bs);
  sku_id = from_bits64 (from_le (take 8 (drop 8 bs)));
  qty = from_bits32 (from_le (take 4 (drop 16 bs)));
  request_id = from_le (take 8 (drop 24 bs));
  guest_id = from_le (take 8 (drop 32 bs));
}

-- The loop of `Recover`, on fuel: the records that the callback is given, in order. `read` on a file
-- gives as many bytes as there are, up to the number asked for.
unfoldable pub recover_from : ℕ → Bytes → List WalRecord
recover_from zero file = []
recover_from (suc fuel) file =
    let rest = decode (take record_size file) ∷ recover_from fuel (drop record_size file) in
    if length (take record_size file) == record_size then rest else []

-- `Recover`: `none` is a file that cannot be opened. Each round reads at least a byte.
unfoldable pub recover : Option Bytes → List WalRecord
recover none = []
recover (some file) = recover_from (length file) file
