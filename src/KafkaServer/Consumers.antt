-- ===== src/KafkaServer/Consumers.antt =====
-- Every Kafka client that the manager opens is closed or belongs to a consumer in its map.
use open_lambda.Prelude.{
  ℕ, suc, ◌+◌, ◌<◌, ◌≡◌, refl, sym, ◌∙◌, ap, Bool, false, ◌⊎◌, inl, inr, List, [], ◌∷◌, ◌++◌,
  append_assoc, Option, none, some, arith, count, count-append, All, All-map, Bool-cases,
}
use open_lambda.Prelude.Texts.{
  Text, same_text, same_text_sound, has_prefix, has_prefix-append, decimal, decimal_injective,
}
use open_lambda.KafkaServer.{
  Trigger, Consumer, Manager, Effect, opened, closed, Outcome, new_kafka_manager, consumer_name,
  new_consumer, sweep, delete, with_effects, enter, start_triggers, unregister, register, close_all,
  cleanup, Call, registers, unregisters, cleans_up, call, run,
}

abbrev pub opens : List Effect → List ℕ
opens [] = []
opens (opened c ∷ es) = c ∷ opens es
opens (closed c ∷ es) = opens es

abbrev pub closes : List Effect → List ℕ
closes [] = []
closes (opened c ∷ es) = closes es
closes (closed c ∷ es) = c ∷ closes es

abbrev pub clients : List (Text × Consumer) → List ℕ
clients [] = []
clients ((name, c) ∷ cs) = c.client ∷ clients cs

opens-append : (es fs : List Effect) → opens (es ++ fs) ≡ opens es ++ opens fs
opens-append [] fs = refl
opens-append (opened c ∷ es) fs = ap (λ l. c ∷ l) (opens-append es fs)
opens-append (closed c ∷ es) fs = opens-append es fs

closes-append : (es fs : List Effect) → closes (es ++ fs) ≡ closes es ++ closes fs
closes-append [] fs = refl
closes-append (opened c ∷ es) fs = closes-append es fs
closes-append (closed c ∷ es) fs = ap (λ l. c ∷ l) (closes-append es fs)

-- What an outcome opens is what it closes and what it adds to the map.
abbrev Accounts : ℕ → Manager → Outcome → Type 0
Accounts id m (m', es) =
    count id (clients m.lambda_consumers) + count id (opens es)
    ≡ count id (clients m'.lambda_consumers) + count id (closes es)

with_effects-Accounts :
    (id : ℕ) (m m' : Manager) (es : List Effect) (o : Outcome)
    → Accounts id m (m', es)
    → Accounts id m' o
    → Accounts id m (with_effects es o)
with_effects-Accounts id m m' es (m'', fs) h k =
    rw (opens-append es fs, closes-append es fs)
      (omega (
        arith,
        h,
        k,
        count-append id (opens es) (opens fs),
        count-append id (closes es) (closes fs),
      ))

sweep-Accounts :
    (id : ℕ) (start : Text) (cs : List (Text × Consumer))
    → (count id (clients cs)
        ≡ count id (clients (sweep start cs).0) + count id (closes (sweep start cs).1))
      × (opens (sweep start cs).1 ≡ [])
sweep-Accounts id start [] = (omega arith, refl)
sweep-Accounts id start ((name, c) ∷ cs) =
    let (counts, no_opens) = sweep-Accounts id start cs in
    elim (Bool-cases (has_prefix start name)) [
      | inl hit ↦ rw hit (ground (arith, counts), no_opens)
      | inr miss ↦ rw miss (ground (arith, counts), no_opens)
    ]

-- The entries of the map that are not swept.
abbrev Missed : Text → Text × Consumer → Type 0
Missed start e = has_prefix start e.0 ≡ false

sweep-Missed : (start : Text) (cs : List (Text × Consumer)) → All (Missed start) (sweep start cs).0
sweep-Missed start [] = tt
sweep-Missed start ((name, c) ∷ cs) = elim (Bool-cases (has_prefix start name)) [
  | inl hit ↦ rw hit (sweep-Missed start cs)
  | inr miss ↦ rw miss (miss, sweep-Missed start cs)
]

-- While the triggers of a function are entered, its consumers in the map are those entered so far.
abbrev Early : Text → ℕ → Text × Consumer → Type 0
Early name i e = Missed (name ++ 45 ∷ []) e ⊎ ((j : ℕ) × (j < i) × (e.0 ≡ consumer_name name j))

append_cancel : (ms xs ys : Text) → ms ++ xs ≡ ms ++ ys → xs ≡ ys
append_cancel [] xs ys e = e
append_cancel (m ∷ ms) xs ys e = append_cancel ms xs ys (ground (arith, e))

Early-absent :
    (name : Text) (i : ℕ) (e : Text × Consumer)
    → Early name i e
    → same_text e.0 (consumer_name name i) ≡ false
Early-absent name i (n, c) h = elim (Bool-cases (same_text n (consumer_name name i))) [
  | inr differs ↦ differs
  | inl same ↦
      let is_new = same_text_sound n (consumer_name name i) same in
      elim h [
        | inl miss ↦
            let hit = has_prefix-append (name ++ 45 ∷ []) (decimal i) in
            let hit' = rw (append_assoc name (45 ∷ []) (decimal i)) at hit in
            let miss' = rw is_new at miss in ground (arith, hit', miss')
        | inr (j, less, is_old) ↦
            let tails =
              append_cancel name (45 ∷ decimal i) (45 ∷ decimal j) (sym is_new ∙ is_old) in
            let digits_eq : decimal i ≡ decimal j =
              append_cancel (45 ∷ []) (decimal i) (decimal j) tails in
            let bad : ⊥ = omega (arith, less, decimal_injective i j digits_eq) in elim bad [ ]
      ]
]

delete-absent :
    (name : Text) (cs : List (Text × Consumer))
    → All (λ e. same_text e.0 name ≡ false) cs
    → delete name cs ≡ cs
delete-absent name [] h = refl
delete-absent name ((n, c) ∷ cs) (h, hs) = rw (h, delete-absent name cs hs) refl

Early-suc :
    (name : Text) (i : ℕ) (cs : List (Text × Consumer))
    → All (Early name i) cs
    → All (Early name (suc i)) cs
Early-suc name i cs h =
    All-map (Early name i) (Early name (suc i)) cs
      (λ e k. elim k [
        | inl miss ↦ inl miss
        | inr (j, less, same) ↦ inr (j, omega (arith, less), same)
      ])
      h

enter-Accounts :
    (id i : ℕ) (name : Text) (m : Manager) (c : Option Consumer)
    → All (Early name i) m.lambda_consumers
    → Accounts id m (enter (consumer_name name i) m c)
      × All (Early name (suc i)) (enter (consumer_name name i) m c).0.lambda_consumers
enter-Accounts id i name m none h = (refl, Early-suc name i m.lambda_consumers h)
enter-Accounts id i name m (some c) h =
    let cs = m.lambda_consumers in
    let absent =
      All-map (Early name i) (λ e. same_text e.0 (consumer_name name i) ≡ false) cs
        (Early-absent name i) h in
    rw (delete-absent (consumer_name name i) cs absent)
      (ground arith, (inr (i, omega arith, refl), Early-suc name i cs h))

start_triggers-Accounts :
    (id : ℕ) (client_ok : Trigger → Bool) (name : Text) (i : ℕ) (ts : List Trigger) (m : Manager)
    → All (Early name i) m.lambda_consumers
    → Accounts id m (start_triggers client_ok name i ts m)
unfolding start_triggers
start_triggers-Accounts id client_ok name i [] m h = refl
start_triggers-Accounts id client_ok name i (t ∷ ts) m h =
    let c = new_consumer client_ok name t m.next_client in
    let (m', es) = enter (consumer_name name i) m c in
    let (now, early) = enter-Accounts id i name m c h in
    with_effects-Accounts id m m' es (start_triggers client_ok name (suc i) ts m') now
      (start_triggers-Accounts id client_ok name (suc i) ts m' early)

unregister-Accounts : (id : ℕ) (name : Text) (m : Manager) → Accounts id m (unregister name m)
unfolding unregister
unregister-Accounts id name m =
    let (counts, no_opens) = sweep-Accounts id (name ++ 45 ∷ []) m.lambda_consumers in
    rw no_opens (omega (arith, counts))

register-Accounts :
    (id : ℕ) (client_ok : Trigger → Bool) (name : Text) (ts : List Trigger) (m : Manager)
    → Accounts id m (register client_ok name ts m)
unfolding register unregister
register-Accounts id client_ok name [] m = refl
register-Accounts id client_ok name (t ∷ ts) m =
    let (m', es) = unregister name m in
    let missed = sweep-Missed (name ++ 45 ∷ []) m.lambda_consumers in
    with_effects-Accounts id m m' es (start_triggers client_ok name 0 (t ∷ ts) m')
      (unregister-Accounts id name m)
      (start_triggers-Accounts id client_ok name 0 (t ∷ ts) m' (
        All-map (Missed (name ++ 45 ∷ [])) (Early name 0) m'.lambda_consumers (λ e h. inl h)
          missed))

closes-close_all : (cs : List (Text × Consumer)) → closes (close_all cs) ≡ clients cs
closes-close_all [] = refl
closes-close_all ((name, c) ∷ cs) = ap (λ l. c.client ∷ l) (closes-close_all cs)

opens-close_all : (cs : List (Text × Consumer)) → opens (close_all cs) ≡ []
opens-close_all [] = refl
opens-close_all ((name, c) ∷ cs) = opens-close_all cs

call-Accounts : (id : ℕ) (o : Call) (m : Manager) → Accounts id m (call o m)
unfolding call cleanup
call-Accounts id (registers client_ok name ts) m = register-Accounts id client_ok name ts m
call-Accounts id (unregisters name) m = unregister-Accounts id name m
call-Accounts id cleans_up m =
    rw (closes-close_all m.lambda_consumers, opens-close_all m.lambda_consumers) (omega arith)

run-Accounts : (id : ℕ) (os : List Call) (m : Manager) → Accounts id m (run os m)
unfolding run
run-Accounts id [] m = refl
run-Accounts id (o ∷ os) m =
    let (m', es) = call o m in
    with_effects-Accounts id m m' es (run os m') (call-Accounts id o m) (run-Accounts id os m')

-- After any calls on a new manager, a Kafka client was opened as often as it was closed and stands in
-- the map: none runs on without a consumer in the map, and none in the map is closed.
pub run-clients :
    (id : ℕ) (os : List Call)
    → count id (opens (run os new_kafka_manager).1)
      ≡ count id (clients (run os new_kafka_manager).0.lambda_consumers)
        + count id (closes (run os new_kafka_manager).1)
unfolding new_kafka_manager
run-clients id os = let all = run-Accounts id os new_kafka_manager in omega (arith, all)
