-- ===== src/KafkaServer/Tests.antt =====
-- Two functions, `a` and `a-b`; and a consumer that seeks back to records in the cache.
use open_lambda.Prelude.{
  ℕ, ◌+◌, ◌≡◌, refl, Bool, true, false, List, [], ◌∷◌, Option, none, some, if◌then◌else◌, ◌==◌,
  count,
}
use open_lambda.Prelude.Texts.{Text}
use open_lambda.KafkaCache.{
  CacheKey, Client, fetched, poll_fetches, fetch, put_all, put, insert, evict_key, touch_lru, same,
}
use open_lambda.KafkaServer.{
  Trigger, Consumer, Manager, opened, closed, Call, registers, new_kafka_manager, consumer_name,
  new_consumer, start_triggers, unregister, register, call, run,
}
use open_lambda.KafkaServer.Consumers.{opens, closes, clients, run-clients}
use open_lambda.KafkaServer.Others.{unregister-register}
use open_lambda.KafkaServer.Consuming.{Loop, Round, consume_loop}
use open_lambda.KafkaServer.Replaying.{loop_replays}

abbrev a : Text
a = 97 ∷ []

abbrev a_b : Text
a_b = 97 ∷ 45 ∷ 98 ∷ []

abbrev trigger : Trigger
trigger = record {
  bootstrap_servers = (104 ∷ []) ∷ [];
  topics = (116 ∷ []) ∷ [];
  auto_offset_reset = [];
}

abbrev any : Trigger → Bool
any t = true

abbrev calls : List Call
calls = registers any a_b (trigger ∷ []) ∷ registers any a (trigger ∷ trigger ∷ []) ∷ []

-- The registration of `a` closes the client of `a-b`.
run-calls : (run calls new_kafka_manager).1 ≡ opened 0 ∷ closed 0 ∷ opened 1 ∷ opened 2 ∷ []
unfolding run call register unregister start_triggers new_consumer new_kafka_manager
run-calls = refl

run-clients_example :
    count 0 (opens (run calls new_kafka_manager).1)
    ≡ count 0 (clients (run calls new_kafka_manager).0.lambda_consumers)
      + count 0 (closes (run calls new_kafka_manager).1)
run-clients_example = run-clients 0 calls

unregister-register_example :
    (unregister a (register any a (trigger ∷ []) new_kafka_manager).0).0.lambda_consumers
    ≡ (unregister a new_kafka_manager).0.lambda_consumers
unregister-register_example = unregister-register any a (trigger ∷ []) new_kafka_manager

abbrev consumer : Consumer
consumer = record { client = 4; lambda_name = a_b; group_id = []; topics = []; from_start = false }

abbrev manager : Manager
manager = record { lambda_consumers = (consumer_name a_b 0, consumer) ∷ []; next_client = 5 }

abbrev key : ℕ → CacheKey
key offset = record { topic = 1; partition = 0; offset = offset }

-- A cache of the records 5 and 6, and the client after a fetch of 7 and 8.
abbrev before : Client ℕ
before = record {
  cache = (key 6, 6) ∷ (key 5, 5) ∷ [];
  evict_order = key 5 ∷ key 6 ∷ [];
  max_size = 10;
  seek_target = none;
}

abbrev after : Client ℕ
after = record {
  cache = (key 8, 8) ∷ (key 7, 7) ∷ (key 6, 6) ∷ (key 5, 5) ∷ [];
  evict_order = key 5 ∷ key 6 ∷ key 7 ∷ key 8 ∷ [];
  max_size = 10;
  seek_target = none;
}

abbrev back_to_5 : ℕ → Option ℕ
back_to_5 r = if r == 7 then some 5 else none

abbrev round : List ℕ → (ℕ → Option ℕ) → Round ℕ
round records reply = record {
  stop = false;
  records = records;
  timeouts = [];
  request_ok = λ r. true;
  reply = reply;
}

abbrev silent : ℕ → Option ℕ
silent r = none

abbrev first : Round ℕ
first = round (7 ∷ 8 ∷ []) back_to_5

abbrev later : List (Round ℕ)
later = round [] silent ∷ round (9 ∷ []) silent ∷ []

abbrev loop : Loop ℕ
loop = record { client = before; error_count = 0 }

poll-first : poll_fetches key (7 ∷ 8 ∷ []) before ≡ some (after, 7 ∷ 8 ∷ [], fetched ∷ [])
unfolding poll_fetches fetch put_all put insert evict_key touch_lru same
poll-first = refl

loop_replays_example :
    (t : Loop ℕ) × (consume_loop key (first ∷ later) loop ≡ some (t, 7 ∷ 5 ∷ 6 ∷ []))
unfolding same
loop_replays_example =
    loop_replays key first later loop after 7 (8 ∷ []) (5 ∷ 6 ∷ []) (fetched ∷ []) 5 poll-first refl
      (refl, refl, refl) (refl, (refl, tt)) refl
      ((refl, λ r. (refl, refl)), ((refl, λ r. (refl, refl)), tt))
