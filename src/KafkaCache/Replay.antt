-- ===== src/KafkaCache/Replay.antt =====
-- What a seek of the Kafka cache replays, and which records the cache gives up.
use open_lambda.Prelude.{
  ◌≡◌, ◌⊎◌, inl, inr, refl, sym, ◌∙◌, ap, false, List, [], ◌∷◌, ◌++◌, Option, none, some, arith,
  leb, length, Bool-cases, Option-cases, eq_of-some,
}
use open_lambda.KafkaCache.{
  CacheKey, Client, Call, Poll, seek, same, lookup, delete, touch_lru, insert, evict_key, put,
  fetch, poll_fetches, next_offset, seek_to, fetched,
}
use open_lambda.KafkaCache.Keys.{same-eq, same_refl, lookup-delete}
use open_lambda.KafkaCache.Invariant.{poll_hit, poll_miss, put_hit, put_evicts, put_inserts}

-- The records of a cache from a key on, at consecutive offsets.
abbrev pub Cached : {Rec : Type 0} → CacheKey → List Rec → List (CacheKey × Rec) → Type 0
Cached key [] es = Unit
Cached key (r ∷ rs) es = (lookup key es ≡ some r) × Cached (next_offset key) rs es

-- As many polls as there are answers of the client underneath: all records that they return, and all
-- calls that they make.
unfoldable pub polls :
    {Rec : Type 0} → (Rec → CacheKey) → List (List Rec) → Client Rec → Option (Poll Rec)
unfolding poll_fetches
polls key_of [] c = some (c, [], [])
polls key_of (answer ∷ answers) c = elim (poll_fetches key_of answer c) [
  | none ↦ none
  | some (c', out, calls) ↦ elim (polls key_of answers c') [
    | none ↦ none
    | some (c'', out', calls') ↦ some (c'', out ++ out', calls ++ calls')
  ]
]

module _ {Rec : Type 0} (key_of : Rec → CacheKey) where
  polls_cons :
      (answer : List Rec) (answers : List (List Rec)) (c c' c'' : Client Rec)
      → (out out' : List Rec) (calls calls' : List Call)
      → poll_fetches key_of answer c ≡ some (c', out, calls)
      → polls key_of answers c' ≡ some (c'', out', calls')
      → polls key_of (answer ∷ answers) c ≡ some (c'', out ++ out', calls ++ calls')
  unfolding polls
  polls_cons answer answers c c' c'' out out' calls calls' e f = rw (e, polls) (rw f refl)

  polls_replay :
      (key : CacheKey) (rs : List Rec) (answers : List (List Rec)) (c : Client Rec)
      → c.seek_target ≡ some key
      → Cached key rs c.cache
      → length answers ≡ length rs
      → (c' : Client Rec) × (polls key_of answers c ≡ some (c', rs, [])) × (c'.cache ≡ c.cache)
  unfolding polls
  polls_replay key [] [] c target cached len = (c, refl, refl)
  polls_replay key [] (a ∷ others) c target cached len =
      let bad : ⊥ = omega (arith, len) in elim bad [ ]
  polls_replay key (r ∷ rs) [] c target cached len =
      let bad : ⊥ = omega (arith, len) in elim bad [ ]
  polls_replay key (r ∷ rs) (a ∷ others) c target (hit, more) len =
      let c1 : Client Rec = record c {
        evict_order = touch_lru key c.evict_order;
        seek_target = some (next_offset key);
      } in
      let (c2, e, same_cache) =
        polls_replay (next_offset key) rs others c1 refl more (omega (arith, len)) in
      (
        c2,
        polls_cons a others c c1 c2 (r ∷ []) rs [] [] (poll_hit key_of a c key r target hit) e,
        same_cache,
      )

  -- After a seek to records that the cache holds at consecutive offsets, as many polls return them in
  -- order, make no call on the client underneath, and leave the records of the cache as they are.
  pub seek_replays :
      (key : CacheKey) (rs : List Rec) (answers : List (List Rec)) (c : Client Rec)
      → Cached key rs c.cache
      → length answers ≡ length rs
      → (c' : Client Rec) × (polls key_of answers (seek key c) ≡ some (c', rs, []))
        × (c'.cache ≡ c.cache)
  unfolding seek
  seek_replays key rs answers c cached len =
      polls_replay key rs answers (seek key c) refl cached len

  fetch_out :
      (rs : List Rec) (before : List Call) (c c' : Client Rec) (out : List Rec) (calls : List Call)
      → fetch key_of rs before c ≡ some (c', out, calls)
      → (out ≡ rs) × (calls ≡ before ++ fetched ∷ [])
  unfolding fetch
  fetch_out rs before c c' out calls e = ground arith

  -- A poll after a seek to a key that is not in the cache asks the client underneath to seek there,
  -- before anything is fetched, forgets the target, and returns what the client underneath fetched.
  pub seek_misses :
      (key : CacheKey) (rs : List Rec) (c c' : Client Rec) (out : List Rec) (calls : List Call)
      → lookup key c.cache ≡ none
      → poll_fetches key_of rs (seek key c) ≡ some (c', out, calls)
      → (out ≡ rs) × (calls ≡ seek_to key ∷ fetched ∷ [])
  unfolding seek
  seek_misses key rs c c' out calls miss e =
      fetch_out rs (seek_to key ∷ []) (record c { seek_target = none }) c' out calls
        (sym (poll_miss key_of rs (seek key c) key refl miss) ∙ e)

  insert_cache :
      (key : CacheKey) (r : Rec) (c : Client Rec) → (insert key r c).cache ≡ (key, r) ∷ c.cache
  unfolding insert
  insert_cache key r c = refl

  evict_oldest :
      (first : CacheKey) (rest : List CacheKey) (c : Client Rec)
      → c.evict_order ≡ first ∷ rest
      → evict_key c.evict_order c
        ≡ some (record c { cache = delete first c.cache; evict_order = rest })
  unfolding evict_key
  evict_oldest first rest c e = ground (arith, e)

  lookup_new :
      (key k : CacheKey) (r old : Rec) (c : Client Rec) (es : List (CacheKey × Rec))
      → lookup key c.cache ≡ none
      → lookup k c.cache ≡ some old
      → lookup k es ≡ some old
      → lookup k ((key, r) ∷ es) ≡ some old
  lookup_new key k r old c es miss h e = elim (Bool-cases (same key k)) [
    | inl equal ↦
        let one : lookup key c.cache ≡ lookup k c.cache =
          ap (λ i. lookup i c.cache) (same-eq key k equal) in
        cc
    | inr other ↦ rw other e
  ]

  -- A record that is put into the cache is in it then, unless one stood there under its key, and the only
  -- record that may go is the least recently used one.
  pub put_keeps :
      (key k : CacheKey) (r old : Rec) (c c' : Client Rec)
      → put key r c ≡ some c'
      → lookup k c.cache ≡ some old
      → (first : CacheKey) (rest : List CacheKey) → c.evict_order ≡ first ∷ rest
      → same first k ≡ false
      → (lookup k c'.cache ≡ some old)
        × ((kept : Rec) × (lookup key c'.cache ≡ some kept)
            × ((kept ≡ r) ⊎ (lookup key c.cache ≡ some kept)))
  put_keeps key k r old c c' e h first rest order ne = elim (Option-cases (lookup key c.cache)) [
    | inr (there, hit) ↦
        let now : c'.cache ≡ c.cache =
          ap (λ d. d.cache) (eq_of-some (sym e ∙ put_hit key_of key r there c hit)) in
        (rw now h, (there, rw now hit, inr hit))
    | inl miss ↦ elim (Bool-cases (leb c.max_size (length c.cache))) [
      | inl full ↦
          let d : Client Rec = record c { cache = delete first c.cache; evict_order = rest } in
          let now : c'.cache ≡ (key, r) ∷ d.cache =
            ap (λ x. x.cache)
              (eq_of-some (
                sym e
                ∙ put_evicts key_of key r c d miss (ground (arith, full))
                    (evict_oldest first rest c order)))
            ∙ insert_cache key r d in
          (
            rw now (lookup_new key k r old c d.cache miss h (lookup-delete k first c.cache ne ∙ h)),
            (r, rw (now, same_refl key) refl, inl refl),
          )
      | inr small ↦
          let now : c'.cache ≡ (key, r) ∷ c.cache =
            ap (λ x. x.cache)
              (eq_of-some (sym e ∙ put_inserts key_of key r c miss (ground (arith, small))))
            ∙ insert_cache key r c in
          (
            rw now (lookup_new key k r old c c.cache miss h h),
            (r, rw (now, same_refl key) refl, inl refl),
          )
    ]
  ]
