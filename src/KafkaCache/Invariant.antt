-- ===== src/KafkaCache/Invariant.antt =====
-- The Kafka cache stays consistent and within its size.
use open_lambda.Prelude.{
  ◌+◌, ◌≤◌, ◌<◌, ◌≡◌, inl, inr, refl, sym, ◌∙◌, ap, true, List, [], ◌∷◌, ◌++◌, Option, none, some,
  arith, leb, length, length-append, Bool-cases, Option-cases, All,
}
use open_lambda.KafkaCache.{
  CacheKey, Client, Call, same, drop_key, has_key, lookup, delete, touch_lru, insert, evict_key,
  put, put_all, fetch, poll_fetches, next_offset, seek_to, fetched,
}
use open_lambda.KafkaCache.Keys.{
  same-eq, same_refl, occurs, keys, occurs-append, occurs-drop_key, has_key-occurs,
  occurs-touch_lru, length-touch_lru, lookup-none, keys-delete, length-delete,
}

module _ {Rec : Type 0} (key_of : Rec → CacheKey) where
  -- Every record stands under its own key.
  abbrev pub Named : List (CacheKey × Rec) → Type 0
  Named es = All (λ e. key_of e.1 ≡ e.0) es

  -- The order of eviction holds the keys of the cache, each once; there are no more of them than the
  -- cache may hold, which is one at least.
  abbrev pub Inv : Client Rec → Type 0
  Inv c =
      ((k : CacheKey) → occurs k (keys c.cache) ≡ occurs k c.evict_order)
      × ((k : CacheKey) → occurs k c.evict_order ≤ 1)
      × (length c.cache ≡ length c.evict_order)
      × (length c.cache ≤ c.max_size)
      × (1 ≤ c.max_size)
      × Named c.cache

  pub Named-lookup :
      (k : CacheKey) (es : List (CacheKey × Rec)) (r : Rec)
      → Named es
      → lookup k es ≡ some r
      → key_of r ≡ k
  Named-lookup k [] r h e = cc
  Named-lookup k ((j, s) ∷ es) r h e = elim (Bool-cases (same j k)) [
    | inl found ↦
        let same_rec : s ≡ r = ground (arith, found) in
        ap key_of (sym same_rec) ∙ h.0 ∙ same-eq j k found
    | inr other ↦ Named-lookup k es r h.1 (rw other at e)
  ]

  Named-delete : (k : CacheKey) (es : List (CacheKey × Rec)) → Named es → Named (delete k es)
  Named-delete k [] h = h
  Named-delete k ((j, s) ∷ es) h = elim (Bool-cases (same j k)) [
    | inl found ↦ rw found h.1
    | inr other ↦ rw other (h.0, Named-delete k es h.1)
  ]

  touch-Inv :
      (k : CacheKey) (c : Client Rec) (target : Option CacheKey)
      → Inv c
      → Inv (record c { evict_order = touch_lru k c.evict_order; seek_target = target })
  touch-Inv k c target (same_keys, once, len, room, pos, named) = (
    λ j. same_keys j ∙ sym (occurs-touch_lru j k c.evict_order),
    λ j. omega (arith, once j, occurs-touch_lru j k c.evict_order),
    omega (arith, len, length-touch_lru k c.evict_order),
    room,
    pos,
    named,
  )

  insert-Inv :
      (r : Rec) (c : Client Rec)
      → Inv c
      → occurs (key_of r) (keys c.cache) ≡ 0
      → length c.cache + 1 ≤ c.max_size
      → Inv (insert (key_of r) r c)
  unfolding insert
  insert-Inv r c (same_keys, once, len, room, pos, named) new small = (
    λ j. ground (arith, same_keys j, occurs-append j c.evict_order (key_of r ∷ [])),
    λ j. elim (Bool-cases (same (key_of r) j)) [
      | inl found ↦
          let e : occurs j c.evict_order ≡ occurs (key_of r) c.evict_order =
            ap (λ i. occurs i c.evict_order) (sym (same-eq (key_of r) j found)) in
          ground (
            arith,
            found,
            e,
            new,
            same_keys (key_of r),
            occurs-append j c.evict_order (key_of r ∷ []),
          )
      | inr other ↦ ground (arith, other, once j, occurs-append j c.evict_order (key_of r ∷ []))
    ],
    omega (arith, len, length-append c.evict_order (key_of r ∷ [])),
    omega (arith, small),
    pos,
    (refl, named),
  )

  evict-Inv :
      (c : Client Rec) (order : List CacheKey)
      → c.evict_order ≡ order
      → Inv c
      → 1 ≤ length c.cache
      → (c' : Client Rec) × (evict_key order c ≡ some c')
        × Inv c'
        × (length c'.cache + 1 ≡ length c.cache)
        × (c'.max_size ≡ c.max_size)
        × ((j : CacheKey) → occurs j (keys c'.cache) ≤ occurs j (keys c.cache))
  unfolding evict_key
  evict-Inv c [] e (same_keys, once, len, room, pos, named) h =
      let bad : ⊥ = omega (arith, len, ap length e, h) in elim bad [ ]
  evict-Inv c (k ∷ ks) e (same_keys, once, len, room, pos, named) h =
      let front : (j : CacheKey) → occurs j c.evict_order ≡ occurs j (k ∷ ks) =
        λ j. ap (occurs j) e in
      let has : has_key k (keys c.cache) ≡ true =
        has_key-occurs k (keys c.cache) (ground (arith, same_keys k, front k, same_refl k)) in
      let now : (j : CacheKey)
          → occurs j (keys (delete k c.cache)) ≡ occurs j (drop_key k (keys c.cache)) =
        λ j. ap (occurs j) (keys-delete k c.cache) in
      (
        record c { cache = delete k c.cache; evict_order = ks },
        refl,
        (
          λ j. ground (arith, now j, occurs-drop_key j k (keys c.cache) has, same_keys j, front j),
          λ j. ground (arith, front j, once j),
          omega (arith, length-delete k c.cache has, len, ap length e),
          omega (arith, length-delete k c.cache has, room),
          pos,
          Named-delete k c.cache named,
        ),
        length-delete k c.cache has,
        refl,
        λ j. omega (arith, now j, occurs-drop_key j k (keys c.cache) has),
      )

  pub put_hit :
      (key : CacheKey) (r old : Rec) (c : Client Rec)
      → lookup key c.cache ≡ some old
      → put key r c ≡ some (record c { evict_order = touch_lru key c.evict_order })
  unfolding put
  put_hit key r old c h = ground (arith, h)

  pub put_evicts :
      (key : CacheKey) (r : Rec) (c c' : Client Rec)
      → lookup key c.cache ≡ none
      → c.max_size ≤ length c.cache
      → evict_key c.evict_order c ≡ some c'
      → put key r c ≡ some (insert key r c')
  unfolding put
  put_evicts key r c c' h full e = ground (arith, h, full, e)

  pub put_inserts :
      (key : CacheKey) (r : Rec) (c : Client Rec)
      → lookup key c.cache ≡ none
      → length c.cache < c.max_size
      → put key r c ≡ some (insert key r c)
  unfolding put
  put_inserts key r c h small = ground (arith, h, small)

  put_all_cons :
      (r : Rec) (rs : List Rec) (c c' : Client Rec)
      → put (key_of r) r c ≡ some c'
      → put_all key_of (r ∷ rs) c ≡ put_all key_of rs c'
  unfolding put_all
  put_all_cons r rs c c' e = ground (arith, e)

  fetch_puts :
      (rs : List Rec) (calls : List Call) (c c' : Client Rec)
      → put_all key_of rs c ≡ some c'
      → fetch key_of rs calls c ≡ some (c', rs, calls ++ fetched ∷ [])
  unfolding fetch
  fetch_puts rs calls c c' e = ground (arith, e)

  put-Inv :
      (r : Rec) (c : Client Rec)
      → Inv c
      → (c' : Client Rec) × (put (key_of r) r c ≡ some c') × Inv c'
  put-Inv r c inv = elim (Option-cases (lookup (key_of r) c.cache)) [
    | inr (old, hit) ↦ (
      record c { evict_order = touch_lru (key_of r) c.evict_order },
      put_hit (key_of r) r old c hit,
      touch-Inv (key_of r) c c.seek_target inv,
    )
    | inl miss ↦ elim (Bool-cases (leb c.max_size (length c.cache))) [
      | inl full ↦
          let (c', e, inv', len, size, fewer) =
            evict-Inv c c.evict_order refl inv (ground (arith, inv.4)) in
          (
            insert (key_of r) r c',
            put_evicts (key_of r) r c c' miss (ground (arith, full)) e,
            insert-Inv r c' inv'
                (omega (arith, fewer (key_of r), lookup-none (key_of r) c.cache miss))
                (omega (arith, len, size, inv.3)),
          )
      | inr small ↦ (
        insert (key_of r) r c,
        put_inserts (key_of r) r c miss (ground (arith, small)),
        insert-Inv r c inv (lookup-none (key_of r) c.cache miss) (ground (arith, small)),
      )
    ]
  ]

  put_all-Inv :
      (rs : List Rec) (c : Client Rec)
      → Inv c
      → (c' : Client Rec) × (put_all key_of rs c ≡ some c') × Inv c'
  unfolding put_all
  put_all-Inv [] c inv = (c, refl, inv)
  put_all-Inv (r ∷ rs) c inv =
      let (c1, e, inv1) = put-Inv r c inv in
      let (c2, e2, inv2) = put_all-Inv rs c1 inv1 in (c2, put_all_cons r rs c c1 e ∙ e2, inv2)

  fetch-Inv :
      (rs : List Rec) (calls : List Call) (c : Client Rec)
      → Inv c
      → (c' : Client Rec) × (fetch key_of rs calls c ≡ some (c', rs, calls ++ fetched ∷ []))
        × Inv c'
  fetch-Inv rs calls c inv =
      let (c', e, inv') = put_all-Inv rs c inv in (c', fetch_puts rs calls c c' e, inv')

  pub poll_live :
      (rs : List Rec) (c : Client Rec)
      → c.seek_target ≡ none
      → poll_fetches key_of rs c ≡ fetch key_of rs [] c
  unfolding poll_fetches
  poll_live rs c e = ground (arith, e)

  pub poll_hit :
      (rs : List Rec) (c : Client Rec) (key : CacheKey) (r : Rec)
      → c.seek_target ≡ some key
      → lookup key c.cache ≡ some r
      → poll_fetches key_of rs c
        ≡ some (
          record c {
            evict_order = touch_lru key c.evict_order;
            seek_target = some (next_offset key);
          },
          r ∷ [],
          [],
        )
  unfolding poll_fetches
  poll_hit rs c key r e h = ground (arith, e, h)

  pub poll_miss :
      (rs : List Rec) (c : Client Rec) (key : CacheKey)
      → c.seek_target ≡ some key
      → lookup key c.cache ≡ none
      → poll_fetches key_of rs c
        ≡ fetch key_of rs (seek_to key ∷ []) (record c { seek_target = none })
  unfolding poll_fetches
  poll_miss rs c key e h = ground (arith, e, h)

  -- A poll of a consistent cache does not panic, whatever the client underneath fetches, and leaves the
  -- cache consistent and within its size.
  pub poll_fetches-Inv :
      (rs : List Rec) (c : Client Rec)
      → Inv c
      → (c' : Client Rec) × (out : List Rec) × (calls : List Call) × (poll_fetches key_of rs c
          ≡ some (c', out, calls))
        × Inv c'
  poll_fetches-Inv rs c inv = elim (Option-cases c.seek_target) [
    | inl live ↦
        let (c', e, inv') = fetch-Inv rs [] c inv in
        (c', rs, fetched ∷ [], poll_live rs c live ∙ e, inv')
    | inr (key, target) ↦ elim (Option-cases (lookup key c.cache)) [
      | inr (r, hit) ↦ (
        record c {
          evict_order = touch_lru key c.evict_order;
          seek_target = some (next_offset key);
        },
        r ∷ [],
        [],
        poll_hit rs c key r target hit,
        touch-Inv key c (some (next_offset key)) inv,
      )
      | inl miss ↦
          let (c', e, inv') =
            fetch-Inv rs (seek_to key ∷ []) (record c { seek_target = none }) inv in
          (c', rs, seek_to key ∷ fetched ∷ [], poll_miss rs c key target miss ∙ e, inv')
    ]
  ]
