-- ===== src/Settings/Tests.antt =====
-- The default settings of a worker with a pool of 600 MB.
use open_lambda.Prelude.{true}
use open_lambda.Prelude.Int.{pos}
use open_lambda.Settings.{LimitsConfig, zero_limits, absolute, sock, Config}

abbrev user_limits : LimitsConfig
user_limits = record {
  procs = pos 10;
  mem_mb = pos 50;
  cpu_percent = pos 100;
  swappiness = pos 0;
  runtime_sec = pos 30;
}

abbrev installer_limits : LimitsConfig
installer_limits = record zero_limits { mem_mb = pos 250; runtime_sec = pos 300 }

abbrev config : Config
config = record {
  worker_dir = absolute;
  sandbox = sock;
  sock_base_path = absolute;
  pkgs_dir = absolute;
  has_import_cache = true;
  mem_pool_mb = pos 600;
  limits = user_limits;
  installer_limits = installer_limits;
}
