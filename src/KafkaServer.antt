-- ===== src/KafkaServer.antt =====
-- go/worker/event/kafkaServer.go: the Kafka consumers of a worker, by function. This file is the
-- manager, which opens and closes them; Consuming is the loop of one. Whether a Kafka client can be made
-- for a trigger is an argument. A call holds the lock of the manager. Which consumer is closed first is
-- left open by Go's maps; here it is the one that stands first in the list.
pub mod Consumers
pub mod Others
pub mod Consuming
pub mod Replaying
mod Tests
use open_lambda.Prelude.{
  ℕ, suc, ◌+◌, Bool, true, false, ◌&&◌, not, List, [], ◌∷◌, ◌++◌, Option, none, some, if◌then◌else◌,
}
use open_lambda.Prelude.Texts.{Text, same_text, has_prefix, decimal}

pub record Trigger : Type 0 where
  pub bootstrap_servers : List Text
  pub topics : List Text
  pub auto_offset_reset : Text

-- A consumer with its client, which is known by a number.
pub record Consumer : Type 0 where
  pub client : ℕ
  pub lambda_name : Text
  pub group_id : Text
  pub topics : List Text
  pub from_start : Bool

pub record Manager : Type 0 where
  pub lambda_consumers : List (Text × Consumer)
  pub next_client : ℕ

pub data Effect : Type 0 where
  opened closed : ℕ → Effect

abbrev pub Outcome : Type 0
Outcome = Manager × List Effect

unfoldable pub new_kafka_manager : Manager
new_kafka_manager = record { lambda_consumers = []; next_client = 0 }

-- `lambda-`
abbrev group_prefix : Text
group_prefix = 108 ∷ 97 ∷ 109 ∷ 98 ∷ 100 ∷ 97 ∷ 45 ∷ []

abbrev earliest : Text
earliest = 101 ∷ 97 ∷ 114 ∷ 108 ∷ 105 ∷ 101 ∷ 115 ∷ 116 ∷ []

abbrev pub consumer_name : Text → ℕ → Text
consumer_name name i = name ++ 45 ∷ decimal i

abbrev is_empty : List Text → Bool
is_empty [] = true
is_empty (t ∷ ts) = false

-- `newLambdaKafkaConsumer`; `none` is an error.
unfoldable pub new_consumer : (Trigger → Bool) → Text → Trigger → ℕ → Option Consumer
new_consumer client_ok name trigger id =
    if not (is_empty trigger.bootstrap_servers)
      && not (is_empty trigger.topics)
      && client_ok trigger
    then some (record {
      client = id;
      lambda_name = name;
      group_id = group_prefix ++ name;
      topics = trigger.topics;
      from_start = same_text trigger.auto_offset_reset earliest;
    })
    else none

-- The consumers whose names do not start with a text, and those that do and are closed.
abbrev pub swept :
    Text
    → Text
    → Consumer
    → List (Text × Consumer) × List Effect
    → List (Text × Consumer) × List Effect
swept start name c (kept, es) =
    if has_prefix start name then (kept, closed c.client ∷ es) else ((name, c) ∷ kept, es)

abbrev pub sweep : Text → List (Text × Consumer) → List (Text × Consumer) × List Effect
sweep start [] = ([], [])
sweep start ((name, c) ∷ cs) = swept start name c (sweep start cs)

abbrev pub delete : Text → List (Text × Consumer) → List (Text × Consumer)
delete name [] = []
delete name ((n, c) ∷ cs) =
    let rest = delete name cs in if same_text n name then rest else (n, c) ∷ rest

abbrev pub with_effects : List Effect → Outcome → Outcome
with_effects es (m, fs) = (m, es ++ fs)

-- A consumer is entered in the map, if there is one.
abbrev pub enter : Text → Manager → Option Consumer → Outcome
enter name m none = (m, [])
enter name m (some c) = (
  record {
    lambda_consumers = (name, c) ∷ delete name m.lambda_consumers;
    next_client = suc m.next_client;
  },
  opened c.client ∷ [],
)

-- The loop over the triggers, from the number of the first.
unfoldable pub start_triggers : (Trigger → Bool) → Text → ℕ → List Trigger → Manager → Outcome
start_triggers client_ok name i [] m = (m, [])
start_triggers client_ok name i (t ∷ ts) m =
    let (m', es) = enter (consumer_name name i) m (new_consumer client_ok name t m.next_client) in
    with_effects es (start_triggers client_ok name (suc i) ts m')

unfoldable pub unregister : Text → Manager → Outcome
unregister name m =
    let (kept, es) = sweep (name ++ 45 ∷ []) m.lambda_consumers in
    (record m { lambda_consumers = kept }, es)

unfoldable pub register : (Trigger → Bool) → Text → List Trigger → Manager → Outcome
register client_ok name [] m = (m, [])
register client_ok name (t ∷ ts) m =
    let (m', es) = unregister name m in
    with_effects es (start_triggers client_ok name 0 (t ∷ ts) m')

-- `cleanup`
abbrev pub close_all : List (Text × Consumer) → List Effect
close_all [] = []
close_all ((name, c) ∷ cs) = closed c.client ∷ close_all cs

unfoldable pub cleanup : Manager → Outcome
cleanup m = (record m { lambda_consumers = [] }, close_all m.lambda_consumers)

pub data Call : Type 0 where
  registers : (Trigger → Bool) → Text → List Trigger → Call
  unregisters : Text → Call
  cleans_up : Call

unfoldable pub call : Call → Manager → Outcome
call (registers client_ok name ts) m = register client_ok name ts m
call (unregisters name) m = unregister name m
call cleans_up m = cleanup m

unfoldable pub run : List Call → Manager → Outcome
run [] m = (m, [])
run (o ∷ os) m = let (m', es) = call o m in with_effects es (run os m')
