-- ===== src/KafkaCache/Reachable.antt =====
-- Every state that the Kafka cache reaches through its operations.
use open_lambda.Prelude.{ℕ, ◌≤◌, ◌≡◌, refl, ◌∙◌, List, [], ◌∷◌, Option, none, some, arith}
use open_lambda.KafkaCache.{
  CacheKey, Client, Call, new_cached_kafka_client, seek, put, put_all, fetch, poll_fetches,
  evict_key,
}
use open_lambda.KafkaCache.Invariant.{Inv, poll_fetches-Inv}

-- A call on the cache; a poll comes with what the client underneath would fetch.
pub data Op (Rec : Type 0) : Type 0 where
  seeks : CacheKey → Op Rec
  polled : List Rec → Op Rec

unfoldable pub apply : {Rec : Type 0} → (Rec → CacheKey) → Op Rec → Client Rec → Option (Client Rec)
apply key_of (seeks key) c = some (seek key c)
apply key_of (polled rs) c = elim (poll_fetches key_of rs c) [
  | none ↦ none
  | some (c', _, _) ↦ some c'
]

unfoldable pub run :
    {Rec : Type 0} → (Rec → CacheKey) → List (Op Rec) → Client Rec → Option (Client Rec)
run key_of [] c = some c
run key_of (op ∷ ops) c = elim (apply key_of op c) [ none ↦ none | some c' ↦ run key_of ops c' ]

module _ {Rec : Type 0} (key_of : Rec → CacheKey) where
  apply_poll :
      (rs out : List Rec) (calls : List Call) (c c' : Client Rec)
      → poll_fetches key_of rs c ≡ some (c', out, calls)
      → apply key_of (polled rs) c ≡ some c'
  unfolding apply
  apply_poll rs out calls c c' e = ground (arith, e)

  apply-Inv :
      (op : Op Rec) (c : Client Rec)
      → Inv key_of c
      → (c' : Client Rec) × (apply key_of op c ≡ some c') × Inv key_of c'
  unfolding apply seek
  apply-Inv (seeks key) c inv = (record c { seek_target = some key }, refl, inv)
  apply-Inv (polled rs) c inv =
      let (c', out, calls, e, inv') = poll_fetches-Inv key_of rs c inv in
      (c', apply_poll rs out calls c c' e, inv')

  run_cons :
      (op : Op Rec) (ops : List (Op Rec)) (c c' : Client Rec)
      → apply key_of op c ≡ some c'
      → run key_of (op ∷ ops) c ≡ run key_of ops c'
  unfolding run
  run_cons op ops c c' e = ground (arith, e)

  run-Inv :
      (ops : List (Op Rec)) (c : Client Rec)
      → Inv key_of c
      → (c' : Client Rec) × (run key_of ops c ≡ some c') × Inv key_of c'
  unfolding run
  run-Inv [] c inv = (c, refl, inv)
  run-Inv (op ∷ ops) c inv =
      let (c1, e, inv1) = apply-Inv op c inv in
      let (c2, f, inv2) = run-Inv ops c1 inv1 in (c2, run_cons op ops c c1 e ∙ f, inv2)

  -- A new cache of positive size goes through any seeks and polls, whatever the client underneath
  -- fetches, without a panic. Then its order of eviction holds the keys of the cache, each once; there
  -- are no more of them than its size; and every record stands under its own key.
  pub run_reachable :
      (max_size : ℕ) (ops : List (Op Rec))
      → 1 ≤ max_size
      → (c : Client Rec) × (run key_of ops (new_cached_kafka_client max_size) ≡ some c)
        × Inv key_of c
  unfolding new_cached_kafka_client
  run_reachable max_size ops h =
      run-Inv ops (new_cached_kafka_client max_size)
        (λ k. refl, λ k. omega arith, refl, omega arith, h, tt)

  -- A new cache of size 0 panics at the first fetch that brings a record.
  pub poll-size_zero :
      (r : Rec) (rs : List Rec) → poll_fetches key_of (r ∷ rs) (new_cached_kafka_client 0) ≡ none
  unfolding new_cached_kafka_client poll_fetches fetch put_all put evict_key
  poll-size_zero r rs = refl
