-- ===== src/LambdaConfig/Tests.antt =====
-- go/common/lambdaConfig.go: concrete settings, and instances of the theorems.
use open_lambda.Prelude.{◌≡◌, ◌↔◌, [], ◌∷◌, none}
use open_lambda.LambdaConfig.{LambdaConfig, check_lambda_config, load_default_lambda_config}
use open_lambda.LambdaConfig.Checks.{Valid, check_lambda_config-Valid}

-- A schedule and a variable besides the method by default.
abbrev scheduled : LambdaConfig
scheduled = record load_default_lambda_config {
  triggers = record { http = (42 ∷ []) ∷ []; cron = (64 ∷ []) ∷ []; kafka = [] };
  environment = (65 ∷ [], []) ∷ [];
}

check_lambda_config-Valid_example : (check_lambda_config scheduled ≡ none) ↔ Valid scheduled
check_lambda_config-Valid_example = check_lambda_config-Valid scheduled
