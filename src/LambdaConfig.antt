-- ===== src/LambdaConfig.antt =====
-- go/common/lambdaConfig.go: the settings of a function, and its name. Decoding YAML is given by its
-- result; an environment is a list of entries.
mod Checks
mod Tests
use open_lambda.Prelude.{
  ℕ, Bool, true, false, ◌&&◌, ◌||◌, List, [], ◌∷◌, map, Option, none, some, if◌then◌else◌, ◌==◌,
  leb,
}
use open_lambda.Prelude.Texts.{Text, same_text, split}

pub record KafkaTrigger : Type 0 where
  pub bootstrap_servers : List Text
  pub topics : List Text
  pub auto_offset_reset : Text

-- The triggers, by method, by schedule, and for Kafka.
pub record Triggers : Type 0 where
  pub http : List Text
  pub cron : List Text
  pub kafka : List KafkaTrigger

pub record LambdaConfig : Type 0 where
  pub triggers : Triggers
  pub environment : List (Text × Text)
  pub reuse_sandbox : Bool

abbrev pub load_default_lambda_config : LambdaConfig
load_default_lambda_config = record {
  triggers = record { http = (42 ∷ []) ∷ []; cron = []; kafka = [] };
  environment = [];
  reuse_sandbox = true;
}

pub data Error : Type 0 where
  empty_method : Error
  empty_schedule : Error
  no_topic : Error
  no_bootstrap_server : Error
  empty_key : Error
  key_with_equals : Error
  not_opened : Error
  not_parsed : Error
  not_unzipped : Error
  invalid_tar : Error

-- The loops of `checkLambdaConfig`: an error, or what the next loop finds.
abbrev pub check_texts : Error → List Text → Option Error → Option Error
check_texts e [] rest = rest
check_texts e ([] ∷ ts) rest = some e
check_texts e ((c ∷ cs) ∷ ts) rest = check_texts e ts rest

abbrev pub check_trigger : List Text → List Text → Option Error → Option Error
check_trigger [] servers rest = some no_topic
check_trigger (t ∷ ts) [] rest = some no_bootstrap_server
check_trigger (t ∷ ts) (s ∷ ss) rest = rest

abbrev pub check_kafka : List KafkaTrigger → Option Error → Option Error
check_kafka [] rest = rest
check_kafka (k ∷ ks) rest = check_trigger k.topics k.bootstrap_servers (check_kafka ks rest)

-- `strings.Contains` of one byte.
abbrev pub contains : Text → ℕ → Bool
contains [] b = false
contains (c ∷ cs) b = c == b || contains cs b

abbrev pub check_key : Text → Option Error → Option Error
check_key [] rest = some empty_key
check_key (c ∷ cs) rest = if contains (c ∷ cs) 61 then some key_with_equals else rest

abbrev pub check_environment : List (Text × Text) → Option Error
check_environment [] = none
check_environment ((k, v) ∷ es) = check_key k (check_environment es)

unfoldable pub check_lambda_config : LambdaConfig → Option Error
check_lambda_config c = check_texts empty_method c.triggers.http (
    check_texts empty_schedule c.triggers.cron
      (check_kafka c.triggers.kafka (check_environment c.environment)))

-- A decoder's result on the defaults, then the check.
abbrev pub decoded : Option LambdaConfig → Option LambdaConfig × Option Error
decoded none = (none, some not_parsed)
decoded (some c) = (some c, check_lambda_config c)

-- `ol.yaml` in a directory: not there, not to be opened, or what decoding gives.
pub data ConfigFile : Type 0 where
  missing : ConfigFile
  closed : ConfigFile
  file : Option LambdaConfig → ConfigFile

unfoldable pub load_lambda_config : ConfigFile → Option LambdaConfig × Option Error
load_lambda_config missing = (some load_default_lambda_config, none)
load_lambda_config closed = (none, some not_opened)
load_lambda_config (file d) = decoded d

-- `filepath.Clean`, as far as its equality with a file's name tells: the parts of a relative path,
-- the last one first.
abbrev pub dots : Text
dots = 46 ∷ 46 ∷ []

abbrev pub up : List Text → List Text
up [] = dots ∷ []
up (p ∷ ps) = if same_text p dots then dots ∷ p ∷ ps else ps

abbrev pub clean_parts : List Text → List Text → List Text
clean_parts done [] = done
clean_parts done (p ∷ ps) =
    clean_parts
      (if same_text p [] || same_text p (46 ∷ [])
        then done
        else if same_text p dots
        then up done
        else p ∷ done)
      ps

abbrev pub one_part : Text → List Text → Bool
one_part name [] = false
one_part name (p ∷ []) = same_text p name
one_part name (p ∷ q ∷ ps) = false

abbrev pub cleans_to : Text → Text → Bool
cleans_to name [] = false
cleans_to name (c ∷ cs) =
    if c == 47 then false else one_part name (clean_parts [] (split 47 (c ∷ cs)))

-- "ol.yaml"
abbrev pub lambda_config_filename : Text
lambda_config_filename = 111 ∷ 108 ∷ 46 ∷ 121 ∷ 97 ∷ 109 ∷ 108 ∷ []

-- What `tar.Reader.Next` gives: an entry with its name and what decoding it gives, or an error.
pub data TarItem : Type 0 where
  broken : TarItem
  item : Text → Option LambdaConfig → TarItem

unfoldable pub find_config : List TarItem → Option LambdaConfig × Option Error
find_config [] = (some load_default_lambda_config, none)
find_config (broken ∷ is) = (none, some invalid_tar)
find_config (item name d ∷ is) =
    let rest = find_config is in if cleans_to lambda_config_filename name then decoded d else rest

-- A tarball: not to be opened, not zipped, or its items.
pub data Tarball : Type 0 where
  unopened : Tarball
  unzipped : Tarball
  items : List TarItem → Tarball

unfoldable pub extract_config_from_tar_gz : Tarball → Option LambdaConfig × Option Error
extract_config_from_tar_gz unopened = (none, some not_opened)
extract_config_from_tar_gz unzipped = (none, some not_unzipped)
extract_config_from_tar_gz (items is) = find_config is

abbrev pub allowed_http_methods : LambdaConfig → List Text
allowed_http_methods c = c.triggers.http

-- `^[A-Za-z0-9\.\-\_]+$`
abbrev pub name_byte : ℕ → Bool
name_byte c =
    (leb 65 c && leb c 90)
    || (leb 97 c && leb c 122)
    || (leb 48 c && leb c 57)
    || c == 46
    || c == 45
    || c == 95

abbrev pub name_bytes : Text → Bool
name_bytes [] = true
name_bytes (c ∷ cs) = name_byte c && name_bytes cs

unfoldable pub validate_function_name : Text → Bool
validate_function_name [] = false
validate_function_name (c ∷ cs) = name_bytes (c ∷ cs)
