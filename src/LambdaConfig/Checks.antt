-- ===== src/LambdaConfig/Checks.antt =====
-- go/common/lambdaConfig.go: which settings of a function are accepted.
use open_lambda.Prelude.{
  ◌≡◌, ◌≢◌, ◌↔◌, refl, sym, ◌∙◌, false, List, [], ◌∷◌, Option, none, some, All, Bool-cases, inl,
  inr,
}
use open_lambda.Prelude.Texts.{Text}
use open_lambda.LambdaConfig.{
  KafkaTrigger, LambdaConfig, Error, empty_method, empty_schedule, check_texts, check_trigger,
  check_kafka, contains, check_key, check_environment, check_lambda_config, decoded,
  load_default_lambda_config, TarItem, broken, item, find_config, cleans_to, lambda_config_filename,
  Tarball, unopened, unzipped, items, extract_config_from_tar_gz,
}

-- A text that is not empty, and a trigger and a variable that can be used.
abbrev pub NonEmpty : Text → Type 0
NonEmpty t = t ≢ []

abbrev pub ValidKafka : KafkaTrigger → Type 0
ValidKafka k = (k.topics ≢ []) × (k.bootstrap_servers ≢ [])

abbrev pub ValidKey : Text × Text → Type 0
ValidKey (k, v) = (k ≢ []) × (contains k 61 ≡ false)

abbrev pub Valid : LambdaConfig → Type 0
Valid c =
    All NonEmpty c.triggers.http
    × All NonEmpty c.triggers.cron
    × All ValidKafka c.triggers.kafka
    × All ValidKey c.environment

check_texts-none :
    (e : Error) (ts : List Text) (rest : Option Error)
    → (check_texts e ts rest ≡ none) ↔ (All NonEmpty ts × (rest ≡ none))
check_texts-none e [] rest = (λ h. (tt, h), λ h. h.1)
check_texts-none e ([] ∷ ts) rest =
    (λ h. let bad : ⊥ = cc in elim bad [ ], λ h. elim (h.0.0 refl) [ ])
check_texts-none e ((c ∷ cs) ∷ ts) rest =
    let (to, from) = check_texts-none e ts rest in
    (λ h. let (all, k) = to h in (((λ e. let bad : ⊥ = cc in bad), all), k), λ h. from (h.0.1, h.1))

check_trigger-none :
    (ts ss : List Text) (rest : Option Error)
    → (check_trigger ts ss rest ≡ none) ↔ (((ts ≢ []) × (ss ≢ [])) × (rest ≡ none))
check_trigger-none [] ss rest = (λ h. let bad : ⊥ = cc in elim bad [ ], λ h. elim (h.0.0 refl) [ ])
check_trigger-none (t ∷ ts) [] rest =
    (λ h. let bad : ⊥ = cc in elim bad [ ], λ h. elim (h.0.1 refl) [ ])
check_trigger-none (t ∷ ts) (s ∷ ss) rest =
    (λ h. (((λ e. let bad : ⊥ = cc in bad), (λ e. let bad : ⊥ = cc in bad)), h), λ h. h.1)

check_kafka-none :
    (ks : List KafkaTrigger) (rest : Option Error)
    → (check_kafka ks rest ≡ none) ↔ (All ValidKafka ks × (rest ≡ none))
check_kafka-none [] rest = (λ h. (tt, h), λ h. h.1)
check_kafka-none (k ∷ ks) rest =
    let (to, from) = check_trigger-none k.topics k.bootstrap_servers (check_kafka ks rest) in
    let (to', from') = check_kafka-none ks rest in
    (
      λ h. let (one, more) = to h in let (all, last) = to' more in ((one, all), last),
      λ h. from (h.0.0, from' (h.0.1, h.1)),
    )

check_key-none :
    (k : Text) (rest : Option Error)
    → (check_key k rest ≡ none) ↔ (((k ≢ []) × (contains k 61 ≡ false)) × (rest ≡ none))
check_key-none [] rest = (λ h. let bad : ⊥ = cc in elim bad [ ], λ h. elim (h.0.0 refl) [ ])
check_key-none (c ∷ cs) rest = elim (Bool-cases (contains (c ∷ cs) 61)) [
  | inl equals ↦
      rw equals ((λ h. let bad : ⊥ = cc in elim bad [ ]), (λ h. let bad : ⊥ = cc in elim bad [ ]))
  | inr plain ↦ rw plain ((λ h. (((λ e. let bad : ⊥ = cc in bad), refl), h)), (λ h. h.1))
]

check_environment-none : (es : List (Text × Text)) → (check_environment es ≡ none) ↔ All ValidKey es
check_environment-none [] = (λ h. tt, λ h. refl)
check_environment-none ((k, v) ∷ es) =
    let (to, from) = check_key-none k (check_environment es) in
    let (to', from') = check_environment-none es in
    (λ h. let (one, more) = to h in (one, to' more), λ h. from (h.0, from' h.1))

-- The settings of a function are accepted exactly when no method and no schedule is empty, each Kafka
-- trigger has a topic and a bootstrap server, and no variable of the environment has an empty name or
-- one with `=`; no other check is made.
pub check_lambda_config-Valid : (c : LambdaConfig) → (check_lambda_config c ≡ none) ↔ Valid c
unfolding check_lambda_config
check_lambda_config-Valid c =
    let rest2 = check_kafka c.triggers.kafka (check_environment c.environment) in
    let (to, from) =
      check_texts-none empty_method c.triggers.http
        (check_texts empty_schedule c.triggers.cron rest2) in
    let (to1, from1) = check_texts-none empty_schedule c.triggers.cron rest2 in
    let (to2, from2) = check_kafka-none c.triggers.kafka (check_environment c.environment) in
    let (to3, from3) = check_environment-none c.environment in
    (
      λ h.
          let (http, h1) = to h in
          let (cron, h2) = to1 h1 in let (kafka, h3) = to2 h2 in (http, cron, kafka, to3 h3),
      λ v. from (v.0, from1 (v.1, from2 (v.2, from3 v.3))),
    )

decoded-Valid :
    (d : Option LambdaConfig) (o : Option LambdaConfig)
    → decoded d ≡ (o, none)
    → (c : LambdaConfig) × (o ≡ some c) × Valid c
decoded-Valid none o e = let bad : ⊥ = cc in elim bad [ ]
decoded-Valid (some c) o e =
    let accepted : check_lambda_config c ≡ none = cc in
    let given : o ≡ some c = cc in (c, given, (check_lambda_config-Valid c).0 accepted)

default-Valid : Valid load_default_lambda_config
default-Valid = (((λ e. let bad : ⊥ = cc in bad), tt), tt, tt, tt)

find_config-Valid :
    (is : List TarItem) (o : Option LambdaConfig)
    → find_config is ≡ (o, none)
    → (c : LambdaConfig) × (o ≡ some c) × Valid c
unfolding find_config
find_config-Valid [] o e =
    let given : o ≡ some load_default_lambda_config = cc in
    (load_default_lambda_config, given, default-Valid)
find_config-Valid (broken ∷ is) o e = let bad : ⊥ = cc in elim bad [ ]
find_config-Valid (item name d ∷ is) o e =
    elim (Bool-cases (cleans_to lambda_config_filename name)) [
      | inl here ↦
          let first : find_config (item name d ∷ is) ≡ decoded d = rw here refl in
          decoded-Valid d o (sym first ∙ e)
      | inr other ↦
          let later : find_config (item name d ∷ is) ≡ find_config is = rw other refl in
          find_config-Valid is o (sym later ∙ e)
    ]

-- Whatever the tarball of a function holds: where the boss reads its settings without an error, there
-- are settings, and they are valid, those by default included.
pub extract_config_from_tar_gz-Valid :
    (t : Tarball) (o : Option LambdaConfig)
    → extract_config_from_tar_gz t ≡ (o, none)
    → (c : LambdaConfig) × (o ≡ some c) × Valid c
unfolding extract_config_from_tar_gz
extract_config_from_tar_gz-Valid unopened o e = let bad : ⊥ = cc in elim bad [ ]
extract_config_from_tar_gz-Valid unzipped o e = let bad : ⊥ = cc in elim bad [ ]
extract_config_from_tar_gz-Valid (items is) o e = find_config-Valid is o e
