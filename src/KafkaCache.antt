-- ===== src/KafkaCache.antt =====
-- go/worker/event/cachedKafkaClient.go: the cache of Kafka records in front of a client. A record is
-- of a library's type: `Rec` and `key_of`, which reads its topic, partition and offset, are
-- parameters, and what the client underneath fetches is an argument. `none` is a panic.
pub mod Keys
pub mod Invariant
pub mod Replay
pub mod Reachable
mod Tests
use open_lambda.Prelude.{
  ℕ, suc, ◌+◌, ◌<◌, Bool, true, false, ◌&&◌, List, [], ◌∷◌, ◌++◌, Option, none, some, if◌then◌else◌,
  leb, ◌==◌, length,
}

pub record CacheKey : Type 0 where
  pub topic : ℕ
  pub partition : ℕ
  pub offset : ℕ

-- `==` on keys.
unfoldable pub same : CacheKey → CacheKey → Bool
same a b = a.topic == b.topic && a.partition == b.partition && a.offset == b.offset

-- `touchLRU`, in two parts: the list without the first occurrence of a key, and the key at its end.
abbrev pub drop_key : CacheKey → List CacheKey → List CacheKey
drop_key key [] = []
drop_key key (k ∷ ks) = if same k key then ks else k ∷ drop_key key ks

abbrev pub has_key : CacheKey → List CacheKey → Bool
has_key key [] = false
has_key key (k ∷ ks) = if same k key then true else has_key key ks

unfoldable pub touch_lru : CacheKey → List CacheKey → List CacheKey
touch_lru key order = if has_key key order then drop_key key order ++ key ∷ [] else order

-- The cache is a map: an association list in which no key stands twice.
abbrev pub lookup : {Rec : Type 0} → CacheKey → List (CacheKey × Rec) → Option Rec
lookup key [] = none
lookup key ((k, r) ∷ es) = if same k key then some r else lookup key es

abbrev pub delete : {Rec : Type 0} → CacheKey → List (CacheKey × Rec) → List (CacheKey × Rec)
delete key [] = []
delete key ((k, r) ∷ es) = if same k key then es else (k, r) ∷ delete key es

-- The front of `evict_order` is its head. The seek target is a key, the next to serve.
pub record Client (Rec : Type 0) : Type 0 where
  pub cache : List (CacheKey × Rec)
  pub evict_order : List CacheKey
  pub max_size : ℕ
  pub seek_target : Option CacheKey

unfoldable pub new_cached_kafka_client : {Rec : Type 0} → ℕ → Client Rec
new_cached_kafka_client max_size = record {
  cache = [];
  evict_order = [];
  max_size = max_size;
  seek_target = none;
}

unfoldable pub seek : {Rec : Type 0} → CacheKey → Client Rec → Client Rec
seek key c = record c { seek_target = some key }

-- The end of `put`.
unfoldable pub insert : {Rec : Type 0} → CacheKey → Rec → Client Rec → Client Rec
insert key r c = record c { cache = (key, r) ∷ c.cache; evict_order = c.evict_order ++ key ∷ [] }

-- The least recently used record goes; without one, `evictOrder[0]` panics.
unfoldable pub evict_key : {Rec : Type 0} → List CacheKey → Client Rec → Option (Client Rec)
evict_key [] c = none
evict_key (k ∷ ks) c = some (record c { cache = delete k c.cache; evict_order = ks })

unfoldable pub put : {Rec : Type 0} → CacheKey → Rec → Client Rec → Option (Client Rec)
unfolding insert touch_lru evict_key
put key r c = elim (lookup key c.cache) [
  | some old ↦ some (record c { evict_order = touch_lru key c.evict_order })
  | none ↦
      if leb c.max_size (length c.cache)
      then (elim (evict_key c.evict_order c) [ none ↦ none | some c' ↦ some (insert key r c') ])
      else some (insert key r c)
]

-- The records of a fetch, in order.
unfoldable pub put_all :
    {Rec : Type 0} → (Rec → CacheKey) → List Rec → Client Rec → Option (Client Rec)
unfolding put
put_all key_of [] c = some c
put_all key_of (r ∷ rs) c = elim (put (key_of r) r c) [
  | none ↦ none
  | some c' ↦ put_all key_of rs c'
]

-- The calls on the client underneath.
pub data Call : Type 0 where
  seek_to : CacheKey → Call
  fetched : Call

-- What a poll returns, and the calls that it makes.
abbrev pub Poll : Type 0 → Type 0
Poll Rec = Client Rec × List Rec × List Call

abbrev pub next_offset : CacheKey → CacheKey
next_offset key = record key { offset = key.offset + 1 }

-- The part of `PollFetches` that asks the client underneath, which fetches `rs`.
unfoldable pub fetch :
    {Rec : Type 0} → (Rec → CacheKey) → List Rec → List Call → Client Rec → Option (Poll Rec)
fetch key_of rs calls c = elim (put_all key_of rs c) [
  | none ↦ none
  | some c' ↦ some (c', rs, calls ++ fetched ∷ [])
]

unfoldable pub poll_fetches :
    {Rec : Type 0} → (Rec → CacheKey) → List Rec → Client Rec → Option (Poll Rec)
unfolding fetch touch_lru
poll_fetches key_of rs c = elim c.seek_target [
  | none ↦ fetch key_of rs [] c
  | some key ↦ elim (lookup key c.cache) [
    | some r ↦ some (
      record c { evict_order = touch_lru key c.evict_order; seek_target = some (next_offset key) },
      r ∷ [],
      [],
    )
    | none ↦ fetch key_of rs (seek_to key ∷ []) (record c { seek_target = none })
  ]
]
