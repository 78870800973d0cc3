-- ===== src/KafkaServer/Others.antt =====
-- Which consumers a registration and its end touch.
use open_lambda.Prelude.{
  ℕ, suc, ◌<◌, ◌≡◌, refl, ◌∙◌, ap, Bool, true, false, inl, inr, List, [], ◌∷◌, ◌++◌, append_assoc,
  Option, none, some, arith, if◌then◌else◌, count, Bool-cases, eq_of-some,
}
use open_lambda.Prelude.Texts.{
  Text, same_text, same_text_sound, has_prefix, has_prefix-append, decimal,
}
use open_lambda.KafkaServer.{
  Trigger, Consumer, Manager, Effect, closed, Outcome, consumer_name, new_consumer, sweep, delete,
  with_effects, enter, start_triggers, unregister, register,
}
use open_lambda.KafkaServer.Consumers.{closes}

abbrev pub find_consumer : Text → List (Text × Consumer) → Option Consumer
find_consumer name [] = none
find_consumer name ((n, c) ∷ cs) = if same_text n name then some c else find_consumer name cs

sweep_hit :
    (start n : Text) (c : Consumer) (cs : List (Text × Consumer))
    → has_prefix start n ≡ true
    → sweep start ((n, c) ∷ cs) ≡ ((sweep start cs).0, closed c.client ∷ (sweep start cs).1)
sweep_hit start n c cs hit = rw hit refl

sweep_miss :
    (start n : Text) (c : Consumer) (cs : List (Text × Consumer))
    → has_prefix start n ≡ false
    → sweep start ((n, c) ∷ cs) ≡ ((n, c) ∷ (sweep start cs).0, (sweep start cs).1)
sweep_miss start n c cs miss = rw miss refl

delete_other :
    (name n : Text) (c : Consumer) (cs : List (Text × Consumer))
    → same_text n name ≡ false
    → delete name ((n, c) ∷ cs) ≡ (n, c) ∷ delete name cs
delete_other name n c cs differs = rw differs refl

sweep-delete :
    (start name : Text) (cs : List (Text × Consumer))
    → has_prefix start name ≡ true
    → (sweep start (delete name cs)).0 ≡ (sweep start cs).0
sweep-delete start name [] h = refl
sweep-delete start name ((n, c) ∷ cs) h = elim (Bool-cases (same_text n name)) [
  | inl same ↦
      let hit : has_prefix start n ≡ true = rw (same_text_sound n name same) h in
      rw (same, hit) (sweep-delete start name cs h)
  | inr differs ↦
      let below = sweep-delete start name cs h in
      rw (delete_other name n c cs differs) (elim (Bool-cases (has_prefix start n)) [
        | inl hit ↦ rw (sweep_hit start n c (delete name cs) hit, sweep_hit start n c cs hit) below
        | inr miss ↦
            rw (sweep_miss start n c (delete name cs) miss, sweep_miss start n c cs miss)
              (ap (λ l. (n, c) ∷ l) below)
      ])
]

sweep_twice :
    (start : Text) (cs : List (Text × Consumer))
    → (sweep start (sweep start cs).0).0 ≡ (sweep start cs).0
sweep_twice start [] = refl
sweep_twice start ((n, c) ∷ cs) = elim (Bool-cases (has_prefix start n)) [
  | inl hit ↦ rw hit (sweep_twice start cs)
  | inr miss ↦ rw (miss, miss) (ap (λ l. (n, c) ∷ l) (sweep_twice start cs))
]

consumer_name-prefix :
    (name : Text) (i : ℕ) → has_prefix (name ++ 45 ∷ []) (consumer_name name i) ≡ true
consumer_name-prefix name i =
    let hit = has_prefix-append (name ++ 45 ∷ []) (decimal i) in
    rw (append_assoc name (45 ∷ []) (decimal i)) at hit

with_effects_manager : (es : List Effect) (o : Outcome) → (with_effects es o).0 ≡ o.0
with_effects_manager es (m, fs) = refl

sweep-enter :
    (start name : Text) (m : Manager) (c : Option Consumer)
    → has_prefix start name ≡ true
    → (sweep start (enter name m c).0.lambda_consumers).0 ≡ (sweep start m.lambda_consumers).0
sweep-enter start name m none h = refl
sweep-enter start name m (some c) h = rw h (sweep-delete start name m.lambda_consumers h)

sweep-start_triggers :
    (client_ok : Trigger → Bool) (name : Text) (i : ℕ) (ts : List Trigger) (m : Manager)
    → (sweep (name ++ 45 ∷ []) (start_triggers client_ok name i ts m).0.lambda_consumers).0
      ≡ (sweep (name ++ 45 ∷ []) m.lambda_consumers).0
unfolding start_triggers
sweep-start_triggers client_ok name i [] m = refl
sweep-start_triggers client_ok name i (t ∷ ts) m =
    let c = new_consumer client_ok name t m.next_client in
    let (m', es) = enter (consumer_name name i) m c in
    rw (with_effects_manager es (start_triggers client_ok name (suc i) ts m')) (
      sweep-start_triggers client_ok name (suc i) ts m'
      ∙ sweep-enter (name ++ 45 ∷ []) (consumer_name name i) m c (consumer_name-prefix name i))

-- A registration changes no consumer that its end would leave: the consumers after the two are those
-- after the end alone.
pub unregister-register :
    (client_ok : Trigger → Bool) (name : Text) (ts : List Trigger) (m : Manager)
    → (unregister name (register client_ok name ts m).0).0.lambda_consumers
      ≡ (unregister name m).0.lambda_consumers
unfolding register unregister
unregister-register client_ok name [] m = refl
unregister-register client_ok name (t ∷ ts) m =
    let (m', es) = unregister name m in
    rw (with_effects_manager es (start_triggers client_ok name 0 (t ∷ ts) m')) (
      sweep-start_triggers client_ok name 0 (t ∷ ts) m'
      ∙ sweep_twice (name ++ 45 ∷ []) m.lambda_consumers)

find_swept :
    (start name : Text) (cs : List (Text × Consumer))
    → has_prefix start name ≡ true
    → find_consumer name (sweep start cs).0 ≡ none
find_swept start name [] h = refl
find_swept start name ((n, c) ∷ cs) h = elim (Bool-cases (has_prefix start n)) [
  | inl hit ↦ rw (sweep_hit start n c cs hit) (find_swept start name cs h)
  | inr miss ↦ elim (Bool-cases (same_text n name)) [
    | inl same ↦
        let hit : has_prefix start n ≡ true = rw (same_text_sound n name same) h in
        ground (arith, hit, miss)
    | inr differs ↦ rw (sweep_miss start n c cs miss) (rw differs (find_swept start name cs h))
  ]
]

find-sweep :
    (start name : Text) (c : Consumer) (cs : List (Text × Consumer))
    → has_prefix start name ≡ true
    → find_consumer name cs ≡ some c
    → (find_consumer name (sweep start cs).0 ≡ none)
      × (0 < count c.client (closes (sweep start cs).1))
find-sweep start name c [] h e = ground arith
find-sweep start name c ((n, d) ∷ cs) h e = elim (Bool-cases (same_text n name)) [
  | inl same ↦
      let hit : has_prefix start n ≡ true = rw (same_text_sound n name same) h in
      let is_c : d ≡ c = eq_of-some (rw same at e) in
      let mine : d.client ≡ c.client = ap (λ x. x.client) is_c in
      rw (sweep_hit start n d cs hit) (find_swept start name cs h, ground (arith, mine))
  | inr differs ↦
      let (gone, closed_once) = find-sweep start name c cs h (rw differs at e) in
      elim (Bool-cases (has_prefix start n)) [
        | inl hit ↦ rw (sweep_hit start n d cs hit) (gone, ground (arith, closed_once))
        | inr miss ↦ rw (sweep_miss start n d cs miss) (rw differs gone, closed_once)
      ]
]

-- The end of a registration closes the client of every consumer whose name starts with the name of the
-- function and a hyphen, and takes it from the map: so do those of another function, whose name goes on
-- with a hyphen.
pub unregister_others :
    (name rest : Text) (i : ℕ) (c : Consumer) (m : Manager)
    → find_consumer (consumer_name (name ++ 45 ∷ rest) i) m.lambda_consumers ≡ some c
    → (find_consumer (consumer_name (name ++ 45 ∷ rest) i) (unregister name m).0.lambda_consumers
        ≡ none)
      × (0 < count c.client (closes (unregister name m).1))
unfolding unregister
unregister_others name rest i c m found =
    let start = name ++ 45 ∷ [] in
    let hit = has_prefix-append start (rest ++ 45 ∷ decimal i) in
    let split = append_assoc name (45 ∷ []) (rest ++ 45 ∷ decimal i) in
    let whole = append_assoc name (45 ∷ rest) (45 ∷ decimal i) in
    find-sweep start (consumer_name (name ++ 45 ∷ rest) i) c m.lambda_consumers
      (rw whole (rw split at hit)) found
