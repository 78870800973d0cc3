-- ===== src/SandboxApi.antt =====
-- go/worker/sandbox/api.go: what the sandbox layers and their listeners exchange.
use Prim.Native.String.{String}
use open_lambda.Prelude.{ℕ, Bool, Option}

-- `SandboxEventType`.
pub data EventType : Type 0 where
  create destroy destroy_ignored pause unpause fork child_exit : EventType

pub EventType-discrete : Discrete EventType
EventType-discrete = hlevel

-- The calls of `safeSandbox` after which it kills the sandbox if they fail.
pub data Func : Type 0 where
  pause_func unpause_func : Func

-- Why a sandbox is destroyed: an error of type `E` that a call returned, or what a caller says.
pub data Reason (E : Type 0) : Type 0 where
  returned : Func → E → Reason E
  stated : String → Reason E

-- `SandboxDeadError`, in the three forms that `safeSandbox` writes.
pub data DeadError (E : Type 0) : Type 0 where
  killed_after : Func → E → DeadError E
  killed_while : String → Bool → DeadError E
  killed_paused : String → DeadError E

-- The calls of the interface `Sandbox` that change the state of a sandbox, over its states `S` and
-- errors `E`. A sandbox that is passed to a call is known by its ID.
pub record Sandbox (S E : Type 0) : Type 0 where
  pub destroy : Reason E → S → S
  pub pause : S → S × Option E
  pub unpause : S → S × Option E
  pub fork : ℕ → S → S × Option E
  pub child_exit : ℕ → S → S
