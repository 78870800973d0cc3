-- ===== src/KafkaCache/Keys.antt =====
-- Keys of the Kafka cache, in lists and in the map.
use open_lambda.Prelude.{
  ℕ, suc, ◌+◌, ◌≤◌, ◌≡◌, inl, inr, refl, ap, true, false, List, [], ◌∷◌, ◌++◌, none, some, arith,
  if◌then◌else◌, length, Bool-cases, length-append,
}
use open_lambda.KafkaCache.{CacheKey, same, drop_key, has_key, lookup, delete, touch_lru}

pub same-eq : (a b : CacheKey) → same a b ≡ true → a ≡ b
unfolding same
same-eq a b h = ground arith

pub same_refl : (a : CacheKey) → same a a ≡ true
unfolding same
same_refl a = ground arith

-- How often a key stands in a list.
abbrev pub occurs : CacheKey → List CacheKey → ℕ
occurs key [] = 0
occurs key (k ∷ ks) = let rest = occurs key ks in if same k key then suc rest else rest

abbrev pub keys : {Rec : Type 0} → List (CacheKey × Rec) → List CacheKey
keys [] = []
keys ((k, r) ∷ es) = k ∷ keys es

pub occurs-append :
    (key : CacheKey) (ks js : List CacheKey) → occurs key (ks ++ js) ≡ occurs key ks + occurs key js
occurs-append key [] js = omega arith
occurs-append key (k ∷ ks) js = ground (arith, occurs-append key ks js)

-- Dropping a key takes one occurrence of it away.
pub occurs-drop_key :
    (key k : CacheKey) (ks : List CacheKey)
    → has_key k ks ≡ true
    → occurs key (drop_key k ks) + occurs key (k ∷ []) ≡ occurs key ks
occurs-drop_key key k [] h = cc
occurs-drop_key key k (j ∷ ks) h = elim (Bool-cases (same j k)) [
  | inl found ↦
      let e : same j key ≡ same k key = ap (λ i. same i key) (same-eq j k found) in
      ground (arith, found, e)
  | inr other ↦ ground (arith, other, occurs-drop_key key k ks)
]

pub length-drop_key :
    (k : CacheKey) (ks : List CacheKey)
    → has_key k ks ≡ true
    → length (drop_key k ks) + 1 ≡ length ks
length-drop_key k [] h = cc
length-drop_key k (j ∷ ks) h = ground (arith, length-drop_key k ks)

pub has_key-occurs : (k : CacheKey) (ks : List CacheKey) → 1 ≤ occurs k ks → has_key k ks ≡ true
has_key-occurs k [] h = ground arith
has_key-occurs k (j ∷ ks) h = ground (arith, has_key-occurs k ks)

pub occurs-touch_lru :
    (key k : CacheKey) (ks : List CacheKey) → occurs key (touch_lru k ks) ≡ occurs key ks
unfolding touch_lru
occurs-touch_lru key k ks = elim (Bool-cases (has_key k ks)) [
  | inl found ↦
      rw found
        (omega (arith, occurs-append key (drop_key k ks) (k ∷ []), occurs-drop_key key k ks found))
  | inr missing ↦ rw missing refl
]

pub length-touch_lru : (k : CacheKey) (ks : List CacheKey) → length (touch_lru k ks) ≡ length ks
unfolding touch_lru
length-touch_lru k ks = elim (Bool-cases (has_key k ks)) [
  | inl found ↦
      rw found (omega (arith, length-append (drop_key k ks) (k ∷ []), length-drop_key k ks found))
  | inr missing ↦ rw missing refl
]

module _ {Rec : Type 0} where
  pub lookup-none :
      (k : CacheKey) (es : List (CacheKey × Rec)) → lookup k es ≡ none → occurs k (keys es) ≡ 0
  lookup-none k [] h = refl
  lookup-none k ((j, r) ∷ es) h = ground (arith, lookup-none k es)

  pub lookup-occurs :
      (k : CacheKey) (es : List (CacheKey × Rec)) (r : Rec)
      → lookup k es ≡ some r
      → 1 ≤ occurs k (keys es)
  lookup-occurs k [] r h = cc
  lookup-occurs k ((j, s) ∷ es) r h = ground (arith, lookup-occurs k es r)

  pub keys-delete :
      (k : CacheKey) (es : List (CacheKey × Rec)) → keys (delete k es) ≡ drop_key k (keys es)
  keys-delete k [] = refl
  keys-delete k ((j, r) ∷ es) = ground (arith, keys-delete k es)

  pub length-delete :
      (k : CacheKey) (es : List (CacheKey × Rec))
      → has_key k (keys es) ≡ true
      → length (delete k es) + 1 ≡ length es
  length-delete k [] h = cc
  length-delete k ((j, r) ∷ es) h = ground (arith, length-delete k es)

  -- Deleting a key takes no other key's record away.
  pub lookup-delete :
      (k gone : CacheKey) (es : List (CacheKey × Rec))
      → same gone k ≡ false
      → lookup k (delete gone es) ≡ lookup k es
  lookup-delete k gone [] h = refl
  lookup-delete k gone ((j, r) ∷ es) h = elim (Bool-cases (same j gone)) [
    | inl found ↦
        let e : same j k ≡ same gone k = ap (λ i. same i k) (same-eq j gone found) in
        rw (found, e, h) refl
    | inr other ↦ rw other (ground (arith, lookup-delete k gone es h))
  ]
