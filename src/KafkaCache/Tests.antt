-- ===== src/KafkaCache/Tests.antt =====
-- A cache of two records. A record is its key and a value.
use open_lambda.Prelude.{ℕ, ◌≡◌, refl, List, [], ◌∷◌, none, some, arith}
use open_lambda.KafkaCache.{
  CacheKey, Client, new_cached_kafka_client, seek, same, touch_lru, insert, evict_key, put, put_all,
  fetch, poll_fetches, seek_to, fetched,
}
use open_lambda.KafkaCache.Invariant.{Inv}
use open_lambda.KafkaCache.Reachable.{seeks, polled, run, run_reachable}

abbrev Rec : Type 0
Rec = CacheKey × ℕ

abbrev key_of : Rec → CacheKey
key_of r = r.0

abbrev at : ℕ → CacheKey
at offset = record { topic = 1; partition = 0; offset = offset }

abbrev record_at : ℕ → ℕ → Rec
record_at offset value = (at offset, value)

abbrev entry : ℕ → ℕ → CacheKey × Rec
entry offset value = (at offset, record_at offset value)

abbrev full_cache : Client Rec
full_cache = record {
  cache = entry 5 50 ∷ entry 4 40 ∷ [];
  evict_order = at 4 ∷ at 5 ∷ [];
  max_size = 2;
  seek_target = none;
}

-- After the record at 6 has come.
abbrev moved_on : Client Rec
moved_on = record full_cache {
  cache = entry 6 60 ∷ entry 5 50 ∷ [];
  evict_order = at 5 ∷ at 6 ∷ [];
}

after_miss :
    poll_fetches key_of (record_at 6 60 ∷ []) (seek (at 6) full_cache)
    ≡ some (moved_on, record_at 6 60 ∷ [], seek_to (at 6) ∷ fetched ∷ [])
unfolding poll_fetches seek fetch put_all put evict_key insert same touch_lru
after_miss = refl

abbrev one_record : List Rec
one_record = record_at 6 60 ∷ []

run_reachable_example :
    (c : Client Rec) × (run key_of
        (polled one_record ∷ seeks (at 6) ∷ polled [] ∷ polled [] ∷ [])
        (new_cached_kafka_client 2)
      ≡ some c)
    × Inv key_of c
run_reachable_example =
    run_reachable key_of 2 (polled one_record ∷ seeks (at 6) ∷ polled [] ∷ polled [] ∷ [])
      (omega arith)
