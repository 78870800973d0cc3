-- ===== src/BossTriggers/Tests.antt =====
-- Function 1 with two schedules, one of which does not parse, and with Kafka triggers on worker 9.
use open_lambda.Prelude.{ℕ, ◌≡◌, refl, Bool, true, List, [], ◌∷◌, none, some, ◌==◌, not, count}
use open_lambda.BossTriggers.{
  ids_of, add_job, register_cron, unregister_cron, Trigger, KafkaManager, Answers, set_up_triggers,
  register_kafka, unregister_kafka, register, unregister, Call, registers, unregisters, call, run,
  new_manager,
}
use open_lambda.BossTriggers.Jobs.{entries_of, run_jobs}

abbrev answers : Answers
answers = record { worker = some 9; sets_up = λ w t. not (t == 3); stops = λ w. true }

abbrev trigger : ℕ → Trigger
trigger id = record { id = id; valid = true }

abbrev parses : ℕ → Bool
parses t = not (t == 0)

abbrev calls : List Call
calls =
    registers answers parses 1 (5 ∷ 0 ∷ []) (trigger 1 ∷ [])
    ∷ registers answers parses 2 (5 ∷ 6 ∷ []) []
    ∷ unregisters answers 1
    ∷ []

run-calls : (run calls new_manager).cron_scheduler.entries ≡ (3, 2) ∷ (2, 2) ∷ []
unfolding run call register unregister register_cron unregister_cron add_job register_kafka
    unregister_kafka set_up_triggers new_manager
run-calls = refl

run_jobs_example :
    count 3 (entries_of 2 (run calls new_manager).cron_scheduler.entries)
    ≡ count 3 (ids_of ((run calls new_manager).cron_scheduler.jobs 2))
run_jobs_example = run_jobs calls 2 3

abbrev no_triggers : KafkaManager
no_triggers = record { functions = λ f. none }
