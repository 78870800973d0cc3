-- ===== src/Settings.antt =====
-- go/common/config.go: the limits of sandboxes and the check of a worker's settings.
pub mod Limits
mod Tests
use open_lambda.Prelude.{ℕ, suc, zero, Bool, true, false, Option, none, some, if◌then◌else◌}
use open_lambda.Prelude.Int.{ℤ, pos, negsuc, ◌+ℤ◌, ltb_ℤ}

pub record LimitsConfig : Type 0 where
  pub procs : ℤ
  pub mem_mb : ℤ
  pub cpu_percent : ℤ
  pub swappiness : ℤ
  pub runtime_sec : ℤ

abbrev pub zero_limits : LimitsConfig
zero_limits = record {
  procs = pos 0;
  mem_mb = pos 0;
  cpu_percent = pos 0;
  swappiness = pos 0;
  runtime_sec = pos 0;
}

-- A field that is zero is filled from the default.
abbrev pub fill : ℤ → ℤ → ℤ
fill (pos zero) default = default
fill (pos (suc n)) default = pos (suc n)
fill (negsuc n) default = negsuc n

abbrev pub or_zero : Option LimitsConfig → LimitsConfig
or_zero none = zero_limits
or_zero (some limits) = limits

-- `WithDefaults`; `none` is the nil pointer.
unfoldable pub with_defaults : Option LimitsConfig → Option LimitsConfig → LimitsConfig
with_defaults lc none = or_zero lc
with_defaults lc (some def) =
    let out = or_zero lc in
    record {
      procs = fill out.procs def.procs;
      mem_mb = fill out.mem_mb def.mem_mb;
      cpu_percent = fill out.cpu_percent def.cpu_percent;
      swappiness = fill out.swappiness def.swappiness;
      runtime_sec = fill out.runtime_sec def.runtime_sec;
    }

-- A path, as far as a comparison with "" and `path.IsAbs` tell.
pub data PathName : Type 0 where
  empty relative absolute : PathName

pub data SandboxName : Type 0 where
  sock docker other : SandboxName

-- The settings that the check reads.
pub record Config : Type 0 where
  pub worker_dir : PathName
  pub sandbox : SandboxName
  pub sock_base_path : PathName
  pub pkgs_dir : PathName
  pub has_import_cache : Bool
  pub mem_pool_mb : ℤ
  pub limits : LimitsConfig
  pub installer_limits : LimitsConfig

pub data ConfError : Type 0 where
  relative_worker_dir no_sock_base_path relative_sock_base_path small_pool : ConfError
  no_pkgs_dir relative_pkgs_dir import_cache_on unknown_sandbox : ConfError

abbrev pub max_ℤ : ℤ → ℤ → ℤ
max_ℤ a b = if ltb_ℤ a b then b else a

-- A path that must be given and absolute, with the errors for one that is not.
abbrev pub need_absolute : PathName → ConfError → ConfError → Option ConfError → Option ConfError
need_absolute empty missing rel next = some missing
need_absolute relative missing rel next = some rel
need_absolute absolute missing rel next = next

unfoldable pub check_pool : Config → Option ConfError
check_pool c =
    let most = max_ℤ c.installer_limits.mem_mb c.limits.mem_mb in
    if ltb_ℤ c.mem_pool_mb (most +ℤ most) then some small_pool else none

unfoldable pub check_sandbox : SandboxName → Config → Option ConfError
unfolding check_pool
check_sandbox sock c =
    need_absolute c.sock_base_path no_sock_base_path relative_sock_base_path (check_pool c)
check_sandbox docker c =
    need_absolute c.pkgs_dir no_pkgs_dir relative_pkgs_dir
      (if c.has_import_cache then some import_cache_on else none)
check_sandbox other c = some unknown_sandbox

-- `checkConf`; `none` is no error. The empty path is not absolute either.
unfoldable pub check_conf : Config → Option ConfError
unfolding check_sandbox
check_conf c =
    need_absolute c.worker_dir relative_worker_dir relative_worker_dir (check_sandbox c.sandbox c)
