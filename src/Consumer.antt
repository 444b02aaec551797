-- ===== src/Consumer.antt =====
-- The order consumer, engine/src/core_consumer.cpp: the payload of an order intent, the mock client that
-- makes such payloads, the routing of an intent to a worker's queue, and the command line. A character is
-- its code.
pub mod Digits
pub mod Payload
pub mod Routing
mod Tests
use flashsale_system_imitati.Prelude.{
  ℕ, zero, suc, ◌+◌, ◌-◌, ◌*◌, ◌/◌, ◌%◌, ◌^◌, Bool, true, false, ◌||◌, Option, none, some, List, [],
  ◌∷◌, ◌++◌, ltb, ◌==◌, take, if◌then◌else◌,
}
use flashsale_system_imitati.Spsc
use flashsale_system_imitati.Spsc.{SpscQueue}

abbrev pub Chars : Type 0
Chars = List ℕ

pub record OrderIntent : Type 0 where
  pub request_id : ℕ
  pub user_id : ℕ
  pub sku_id : ℕ
  pub qty : ℕ
  pub ts_ns : ℕ

-- The loop of `parse_u64` from the value `val` on.
unfoldable pub parse_digits : Chars → ℕ → Option ℕ
parse_digits [] val = some val
parse_digits (c ∷ cs) val =
    let rest = parse_digits cs ((val * 10 + (c - 48)) % 2 ^ 64) in
    if ltb c 48 || ltb 57 c then none else rest

unfoldable pub parse_u64 : Chars → Option ℕ
parse_u64 [] = none
parse_u64 (c ∷ cs) = parse_digits (c ∷ cs) 0

unfoldable pub parse_u32 : Chars → Option ℕ
parse_u32 s = elim (parse_u64 s) [
  | none ↦ none
  | some tmp ↦ if ltb 4_294_967_295 tmp then none else some tmp
]

-- The loop that splits a payload at its commas: `part` is what has been read since `start`.
unfoldable pub split_parts : Chars → Chars → List Chars
split_parts [] part = part ∷ []
split_parts (c ∷ cs) part =
    let next = split_parts cs [] in
    let longer = split_parts cs (part ++ (c ∷ [])) in if c == 44 then part ∷ next else longer

-- `ts_ns`, which may be missing or empty.
unfoldable pub parse_ts : List Chars → Option ℕ
parse_ts [] = some 0
parse_ts ([] ∷ ps) = some 0
parse_ts ((c ∷ cs) ∷ ps) = parse_u64 (c ∷ cs)

-- The fields of an intent, of which the first four are needed.
unfoldable pub parse_parts : List Chars → Option OrderIntent
parse_parts (a ∷ b ∷ c ∷ d ∷ more) = elim (parse_u64 a) [
  | none ↦ none
  | some request_id ↦ elim (parse_u64 b) [
    | none ↦ none
    | some user_id ↦ elim (parse_u32 c) [
      | none ↦ none
      | some sku_id ↦ elim (parse_u32 d) [
        | none ↦ none
        | some qty ↦ elim (parse_ts more) [
          | none ↦ none
          | some ts_ns ↦ some (record {
            request_id = request_id;
            user_id = user_id;
            sku_id = sku_id;
            qty = qty;
            ts_ns = ts_ns;
          })
        ]
      ]
    ]
  ]
]
parse_parts _ = none

-- `parse_intent`: of the parts, five are kept.
unfoldable pub parse_intent : Chars → Option OrderIntent
parse_intent payload = parse_parts (take 5 (split_parts payload []))

-- `std::to_string`, on fuel: the decimal digits of a number, of at most `fuel` digits.
unfoldable pub to_digits : ℕ → ℕ → Chars
to_digits zero n = []
to_digits (suc fuel) n =
    if ltb n 10 then (48 + n) ∷ [] else to_digits fuel (n / 10) ++ ((48 + n % 10) ∷ [])

-- A `uint64_t` has at most 20 digits.
abbrev pub to_string : ℕ → Chars
to_string n = to_digits 20 n

abbrev pub comma : Chars
comma = 44 ∷ []

-- The payload of `MockPullClient` for its sequence number.
unfoldable pub mock_payload : ℕ → Chars
mock_payload seq =
    to_string seq
    ++ (comma
        ++ (to_string (seq % 1024)
            ++ (comma
                ++ (to_string (seq % 50 + 1)
                    ++ (comma ++ (to_string 1 ++ (comma ++ to_string seq)))))))

-- `MockPullClient::fetch_batch`: the payloads of a batch of `max_msgs`, and the next sequence number.
unfoldable pub mock_fetch_batch : ℕ → ℕ → List Chars × ℕ
mock_fetch_batch zero seq = ([], seq)
mock_fetch_batch (suc max_msgs) seq =
    let (payloads, next) = mock_fetch_batch max_msgs ((seq + 1) % 2 ^ 64) in
    (mock_payload seq ∷ payloads, next)

unfoldable pub route_index : OrderIntent → ℕ → ℕ
route_index o workers =
    let key = if o.user_id == 0 then o.request_id else o.user_id in key % workers

-- `kWorkers`
abbrev pub consumer_workers : ℕ
consumer_workers = 4

-- What becomes of a message.
pub data Verdict : Type 0 where
  ack term : Verdict

-- `queues[idx]->try_enqueue(in)`; out of range there is no queue.
unfoldable pub enqueue_intent :
    ℕ → OrderIntent → List (SpscQueue OrderIntent) → Bool × List (SpscQueue OrderIntent)
enqueue_intent idx o [] = (false, [])
enqueue_intent zero o (q ∷ qs) = let (done, q') = Spsc.try_enqueue q o in (done, q' ∷ qs)
enqueue_intent (suc idx) o (q ∷ qs) = let (done, qs') = enqueue_intent idx o qs in (done, q ∷ qs')

-- One message of a batch: parse, route, enqueue, and acknowledge or reject.
unfoldable pub consume :
    Chars → List (SpscQueue OrderIntent) → Verdict × List (SpscQueue OrderIntent)
consume payload qs = elim (parse_intent payload) [
  | none ↦ (term, qs)
  | some o ↦
      let (done, qs') = enqueue_intent (route_index o consumer_workers) o qs in
      (if done then ack else term, qs')
]

-- The loop over a batch.
unfoldable pub consume_all :
    List Chars → List (SpscQueue OrderIntent) → List Verdict × List (SpscQueue OrderIntent)
consume_all [] qs = ([], qs)
consume_all (payload ∷ payloads) qs =
    let (verdict, qs') = consume payload qs in
    let (verdicts, qs'') = consume_all payloads qs' in (verdict ∷ verdicts, qs'')

-- What the environment variable and an argument say of the mode.
pub data ModeWord : Type 0 where
  real_mode mock_mode other_word : ModeWord

-- `use_mock_mode`: the environment's word, if it is set, then the arguments from left to right.
unfoldable pub mode_after : Bool → List ModeWord → Bool
mode_after use_mock [] = use_mock
mode_after use_mock (real_mode ∷ words) = mode_after false words
mode_after use_mock (mock_mode ∷ words) = mode_after true words
mode_after use_mock (other_word ∷ words) = mode_after use_mock words

unfoldable pub use_mock_mode : Option ModeWord → List ModeWord → Bool
use_mock_mode none args = mode_after true args
use_mock_mode (some word) args = mode_after true (word ∷ args)
