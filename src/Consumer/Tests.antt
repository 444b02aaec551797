-- ===== src/Consumer/Tests.antt =====
-- The consumer on concrete inputs.
use flashsale_system_imitati.Prelude.{
  ◌%◌, ◌^◌, ◌+◌, ◌≡◌, refl, none, some, List, [], ◌∷◌, arith, false,
}
use flashsale_system_imitati.Spsc.{SpscQueue}
use flashsale_system_imitati.Consumer.{
  OrderIntent, parse_intent, parse_parts, parse_u64, parse_u32, parse_digits, parse_ts, split_parts,
  mock_payload, to_string, consume, use_mock_mode, mode_after, real_mode, mock_mode, other_word,
}
use flashsale_system_imitati.Consumer.Digits.{parse_u64-to_string}
use flashsale_system_imitati.Consumer.Payload.{mock_intent, parse_intent-mock_payload}
use flashsale_system_imitati.Consumer.Routing.{
  intent_default, AllQueues, Consumed, consume-Consumed,
}

abbrev queue : SpscQueue OrderIntent
queue = record { head = 0; tail = 0; buffer = intent_default.dflt ∷ intent_default.dflt ∷ [] }

abbrev queues : List (SpscQueue OrderIntent)
queues = queue ∷ queue ∷ queue ∷ queue ∷ []

queues-AllQueues : AllQueues queues
queues-AllQueues = (omega arith, (omega arith, (omega arith, (omega arith, tt))))

parse_u64-to_string_example : parse_u64 (to_string (2 ^ 64 + 7)) ≡ some ((2 ^ 64 + 7) % 2 ^ 64)
parse_u64-to_string_example = parse_u64-to_string (2 ^ 64 + 7) (omega arith)

parse_intent-mock_payload_example : parse_intent (mock_payload 2050) ≡ some (mock_intent 2050)
parse_intent-mock_payload_example = parse_intent-mock_payload 2050 (omega arith)

consume-Consumed_example :
    Consumed queues (parse_intent (mock_payload 2050)) (consume (mock_payload 2050) queues)
consume-Consumed_example = consume-Consumed (mock_payload 2050) queues queues-AllQueues refl

-- "1,2,3"
three_fields : parse_intent (49 ∷ 44 ∷ 50 ∷ 44 ∷ 51 ∷ []) ≡ none
unfolding parse_intent parse_parts split_parts
three_fields = refl

-- "1,2,3,4,"
empty_time :
    parse_intent (49 ∷ 44 ∷ 50 ∷ 44 ∷ 51 ∷ 44 ∷ 52 ∷ 44 ∷ [])
    ≡ some (record { request_id = 1; user_id = 2; sku_id = 3; qty = 4; ts_ns = 0 })
unfolding parse_intent parse_parts split_parts parse_u64 parse_u32 parse_digits parse_ts
empty_time = refl

last_word_wins : use_mock_mode (some mock_mode) (real_mode ∷ other_word ∷ []) ≡ false
unfolding use_mock_mode mode_after
last_word_wins = refl
