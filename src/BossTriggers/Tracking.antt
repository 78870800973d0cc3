-- ===== src/BossTriggers/Tracking.antt =====
-- A registration of Kafka triggers that fails leaves consumers that nothing stops.
use open_lambda.Prelude.{
  ℕ, ◌≡◌, refl, ◌∙◌, ap, true, false, ◌&&◌, List, [], ◌∷◌, ◌++◌, none, some, arith, All,
}
use open_lambda.BossTriggers.{
  Trigger, KafkaManager, Effect, started, Answers, set_up_triggers, track, on_worker,
  register_kafka, unregister_kafka,
}

-- The requests that start some triggers on a worker.
abbrev pub started_all : ℕ → ℕ → List Trigger → List Effect
started_all w f [] = []
started_all w f (t ∷ ts) = started w f t.id ∷ started_all w f ts

abbrev pub SetUp : Answers → ℕ → Trigger → Type 0
SetUp a w t = (t.valid && a.sets_up w t.id) ≡ true

set_up_triggers_lem :
    (a : Answers) (f w : ℕ) (before after : List Trigger) (bad : Trigger)
    → All (SetUp a w) before
    → (bad.valid && a.sets_up w bad.id) ≡ false
    → set_up_triggers a f w (before ++ bad ∷ after) ≡ (false, started_all w f before)
unfolding set_up_triggers
set_up_triggers_lem a f w [] after bad h e = rw e refl
set_up_triggers_lem a f w (t ∷ ts) after bad (h, hs) e =
    rw (h, set_up_triggers_lem a f w ts after bad hs e) refl

register_kafka_lem :
    (a : Answers) (f w : ℕ) (ts : List Trigger) (t : Trigger) (before : List Trigger)
    (es : List Effect) (k : KafkaManager)
    → a.worker ≡ some w
    → set_up_triggers a f w (before ++ t ∷ ts) ≡ (false, es)
    → register_kafka a f (before ++ t ∷ ts) k ≡ (false, es, k)
unfolding register_kafka set_up_triggers
register_kafka_lem a f w ts t [] es k chosen fails =
    ap (on_worker (λ v. track f (t ∷ ts) v k (set_up_triggers a f v (t ∷ ts))) k) chosen
    ∙ ap (track f (t ∷ ts) w k) fails
register_kafka_lem a f w ts t (b ∷ before) es k chosen fails =
    let all = b ∷ (before ++ t ∷ ts) in
    ap (on_worker (λ v. track f all v k (set_up_triggers a f v all)) k) chosen
    ∙ ap (track f all w k) fails

-- When the worker does not set up one of the Kafka triggers of a function that had none, the
-- registration fails with those before it started, and the manager does not know of them: whatever the
-- worker would answer, the end of the registration asks it nothing and succeeds.
pub unregister-register_fails :
    (a b : Answers) (f w : ℕ) (before after : List Trigger) (bad : Trigger) (k : KafkaManager)
    → a.worker ≡ some w
    → All (SetUp a w) before
    → (bad.valid && a.sets_up w bad.id) ≡ false
    → k.functions f ≡ none
    → (register_kafka a f (before ++ bad ∷ after) k ≡ (false, started_all w f before, k))
      × (unregister_kafka b f k ≡ (true, [], k))
unfolding unregister_kafka
unregister-register_fails a b f w before after bad k chosen h e unknown = (
  register_kafka_lem a f w after bad before (started_all w f before) k chosen
      (set_up_triggers_lem a f w before after bad h e),
  ground (arith, unknown),
)
