-- ===== src/SafeSandbox/Dead.antt =====
-- Calls on a dead sandbox of go/worker/sandbox/safeSandbox.go do no harm.
use open_lambda.Prelude.{◌≡◌, [], none, some, arith}
use open_lambda.SandboxApi.{DeadError, Sandbox, Func, pause_func, unpause_func, killed_after}
use open_lambda.SafeSandbox.{
  SafeSandbox, Outcome, inner_error, dead_error, Call, pauses, unpauses, forks, child_exits, step,
}

abbrev pub func_call : Func → Call
func_call pause_func = pauses
func_call unpause_func = unpauses

-- What a call on a sandbox that is dead by `d` gives: nobody is notified, the sandbox stays as it is,
-- except that the exit of a child still reaches the wrapped sandbox, and a call that can fail
-- returns `d`.
module _ {S E : Type 0} where
  abbrev pub after_death : Sandbox S E → DeadError E → Call → SafeSandbox S E → Outcome S E
  after_death api d pauses sb = (sb, [], some (dead_error d))
  after_death api d unpauses sb = (sb, [], some (dead_error d))
  after_death api d (forks dst) sb = (sb, [], some (dead_error d))
  after_death api d (child_exits child) sb =
      (record sb { inner = api.child_exit child sb.inner }, [], none)
  after_death api d _ sb = (sb, [], none)

  -- Every call on a dead sandbox does just what `after_death` says.
  pub step_dead :
      (api : Sandbox S E) (c : Call) (sb : SafeSandbox S E) (d : DeadError E)
      → sb.dead ≡ some d
      → step api c sb ≡ after_death api d c sb
  unfolding step
  step_dead api pauses sb d e = rw (e, step)
  step_dead api c sb d e = rw (e, step)

  -- A `Pause` or `Unpause` that returns an error of the wrapped sandbox has killed the sandbox.
  pub step_kills :
      (api : Sandbox S E) (f : Func) (sb : SafeSandbox S E) (x : E)
      → (step api (func_call f) sb).2 ≡ some (inner_error x)
      → (step api (func_call f) sb).0.dead ≡ some (killed_after f x)
  unfolding step
  step_kills api pause_func sb x e = ground arith
  step_kills api unpause_func sb x e = ground arith
