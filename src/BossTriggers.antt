-- ===== src/BossTriggers.antt =====
-- go/boss/event: the triggers of a function at the boss: jobs of the cron library (cron_scheduler.go),
-- Kafka consumers that a worker runs (kafka_manager.go), and both together (manager.go). Functions,
-- workers, schedules and cron entries are numbers; the cron library gives a new number to each entry.
-- What the library and the workers answer is an argument. `Unregister` and `Register` of one function do
-- not run at once.
pub mod Jobs
pub mod Tracking
mod Tests
use open_lambda.Prelude.{
  ℕ, suc, ◌+◌, Bool, true, false, ◌&&◌, ◌||◌, not, List, [], ◌∷◌, ◌++◌, Option, none, some,
  if◌then◌else◌, ◌==◌, elem,
}
use open_lambda.Prelude.Maps.{update}

-- The entries of the cron library, with their functions, and the entries by function.
pub record Scheduler : Type 0 where
  pub entries : List (ℕ × ℕ)
  pub jobs : ℕ → Option (List ℕ)
  pub next_entry : ℕ

abbrev pub ids_of : Option (List ℕ) → List ℕ
ids_of none = []
ids_of (some ids) = ids

unfoldable pub add_job : ℕ → Scheduler → Scheduler
add_job f c = record {
  entries = (c.next_entry, f) ∷ c.entries;
  jobs = update c.jobs f (some (ids_of (c.jobs f) ++ c.next_entry ∷ []));
  next_entry = suc c.next_entry;
}

-- `CronScheduler.Register`; false is an error. A schedule may not parse.
unfoldable pub register_cron : (ℕ → Bool) → ℕ → List ℕ → Scheduler → Bool × Scheduler
register_cron parses f [] c = (true, c)
register_cron parses f (t ∷ ts) c =
    let rest = register_cron parses f ts (add_job f c) in if parses t then rest else (false, c)

abbrev pub remove : List ℕ → List (ℕ × ℕ) → List (ℕ × ℕ)
remove ids [] = []
remove ids ((id, f) ∷ es) = let rest = remove ids es in if elem id ids then rest else (id, f) ∷ rest

abbrev pub remove_jobs : ℕ → Scheduler → Option (List ℕ) → Scheduler
remove_jobs f c none = c
remove_jobs f c (some ids) = record c {
  entries = remove ids c.entries;
  jobs = update c.jobs f none;
}

unfoldable pub unregister_cron : ℕ → Scheduler → Scheduler
unregister_cron f c = remove_jobs f c (c.jobs f)

-- A Kafka trigger, valid if it has topics and servers.
pub record Trigger : Type 0 where
  pub id : ℕ
  pub valid : Bool

-- The functions with Kafka triggers, and the workers that run their consumers.
pub record KafkaManager : Type 0 where
  pub functions : ℕ → Option (List Trigger × ℕ)

-- Requests to a worker that succeed.
pub data Effect : Type 0 where
  started : ℕ → ℕ → ℕ → Effect  -- the worker, the function, the trigger
  stopped : ℕ → ℕ → Effect

-- The answers: the worker that is chosen, if it has an address, and whether a worker sets a trigger up
-- and stops the consumers of a function.
pub record Answers : Type 0 where
  pub worker : Option ℕ
  pub sets_up : ℕ → ℕ → Bool
  pub stops : ℕ → Bool

abbrev pub with_effect : Effect → Bool × List Effect → Bool × List Effect
with_effect e (ok, es) = (ok, e ∷ es)

-- The loop over the triggers, which ends at the first error.
unfoldable pub set_up_triggers : Answers → ℕ → ℕ → List Trigger → Bool × List Effect
set_up_triggers a f worker [] = (true, [])
set_up_triggers a f worker (t ∷ ts) =
    let rest = set_up_triggers a f worker ts in
    if t.valid && a.sets_up worker t.id
    then with_effect (started worker f t.id) rest
    else (false, [])

abbrev pub Outcome : Type 0
Outcome = Bool × List Effect × KafkaManager

abbrev pub track : ℕ → List Trigger → ℕ → KafkaManager → Bool × List Effect → Outcome
track f ts worker k (true, es) =
    (true, es, record { functions = update k.functions f (some (ts, worker)) })
track f ts worker k (false, es) = (false, es, k)

abbrev pub on_worker : (ℕ → Outcome) → KafkaManager → Option ℕ → Outcome
on_worker run k none = (false, [], k)
on_worker run k (some worker) = run worker

-- `KafkaManager.Register`
unfoldable pub register_kafka : Answers → ℕ → List Trigger → KafkaManager → Outcome
register_kafka a f [] k = (true, [], k)
register_kafka a f (t ∷ ts) k =
    on_worker (λ worker. track f (t ∷ ts) worker k (set_up_triggers a f worker (t ∷ ts))) k a.worker

unfoldable pub unregister_kafka : Answers → ℕ → KafkaManager → Outcome
unregister_kafka a f k = elim (k.functions f) [
  | none ↦ (true, [], k)
  | some (ts, worker) ↦
      if a.stops worker
      then (true, stopped worker f ∷ [], record { functions = update k.functions f none })
      else (false, [], k)
]

pub record Manager : Type 0 where
  pub cron_scheduler : Scheduler
  pub kafka_manager : KafkaManager

abbrev pub Managed : Type 0
Managed = Bool × List Effect × Manager

-- `Manager.Unregister`
unfoldable pub unregister : Answers → ℕ → Manager → Managed
unregister a f m =
    let (ok, es, k) = unregister_kafka a f m.kafka_manager in
    (ok, es, record { cron_scheduler = unregister_cron f m.cron_scheduler; kafka_manager = k })

abbrev pub register_consumers :
    Answers → ℕ → List Trigger → List Effect → KafkaManager → Bool × Scheduler → Managed
register_consumers a f ts es k (false, c) =
    (false, es, record { cron_scheduler = c; kafka_manager = k })
register_consumers a f ts es k (true, c) =
    let (ok, fs, k') = register_kafka a f ts k in
    (ok, es ++ fs, record { cron_scheduler = c; kafka_manager = k' })

abbrev pub register_triggers : Answers → (ℕ → Bool) → ℕ → List ℕ → List Trigger → Managed → Managed
register_triggers a parses f schedules ts (false, es, m) = (false, es, m)
register_triggers a parses f schedules ts (true, es, m) =
    register_consumers a f ts es m.kafka_manager (register_cron parses f schedules m.cron_scheduler)

-- `Manager.Register`
unfoldable pub register : Answers → (ℕ → Bool) → ℕ → List ℕ → List Trigger → Manager → Managed
register a parses f schedules ts m = register_triggers a parses f schedules ts (unregister a f m)

pub data Call : Type 0 where
  registers : Answers → (ℕ → Bool) → ℕ → List ℕ → List Trigger → Call
  unregisters : Answers → ℕ → Call

unfoldable pub call : Call → Manager → Managed
call (registers a parses f schedules ts) m = register a parses f schedules ts m
call (unregisters a f) m = unregister a f m

unfoldable pub run : List Call → Manager → Manager
run [] m = m
run (o ∷ os) m = run os (call o m).2

unfoldable pub new_manager : Manager
new_manager = record {
  cron_scheduler = record { entries = []; jobs = λ f. none; next_entry = 1 };
  kafka_manager = record { functions = λ f. none };
}
