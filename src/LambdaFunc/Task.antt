-- ===== src/LambdaFunc/Task.antt =====
-- The task of a lambda function (`Task` of go/worker/lambda/lambdaFunction.go): a turn of its loop is
-- one message and the scaling step that follows. The messages that it sends are returned in order.
use open_lambda.Prelude.{
  ℕ, ◌+◌, ◌-◌, ◌*◌, ◌/◌, Bool, true, false, List, [], ◌∷◌, ◌++◌, Option, none, some, if◌then◌else◌,
  ltb, ◌==◌, length, not, ◌||◌,
}
use open_lambda.RollingAvg
use open_lambda.RollingAvg.{RollingAvg, back, remove_back}
use open_lambda.LambdaFunc.Pull.{Meta, Func, Env, pull_handler_if_stale}

-- An instance: its number, and the code directory that it was started with.
pub record Instance : Type 0 where
  pub id : ℕ
  pub code_dir : ℕ

-- The front of `instances` is the head. `timer` is when the timer fires next.
pub record Task : Type 0 where
  pub func : Func
  pub instances : List Instance
  pub next_id : ℕ
  pub outstanding_reqs : ℕ
  pub exec_ms : RollingAvg
  pub last_scaling : Option ℕ
  pub timer : Option ℕ

pub data Status : Type 0 where
  internal_server_error method_not_allowed too_many_requests : Status

-- What the task sends or starts.
pub data Message : Type 0 where
  refused : Status → Message  -- an error to the client, and `req.done`
  to_instances : Message  -- the request, on `instChan`
  finished : Message  -- `req.done`
  killed : Instance → Message  -- `AsyncKill`, and its channel on `cleanupChan`
  deleted : ℕ → Message  -- a directory on `cleanupChan`
  started : Instance → Message  -- `go linst.Task()`
  stopped : Message  -- the end of the task

-- A message to the task. A request carries its HTTP method, what the function calls answer while
-- the code is checked, and whether `instChan` has room; a finished request, its milliseconds.
pub data Event : Type 0 where
  timeout : Event
  request : ℕ → Env → Bool → Event
  done : ℕ → Event
  kill : Event

abbrev pub any_method : ℕ
any_method = 0

-- `IsHTTPMethodAllowed`, where 0 stands for "*".
abbrev pub is_method_allowed : ℕ → List ℕ → Bool
is_method_allowed method [] = false
is_method_allowed method (m ∷ ms) = m == any_method || m == method || is_method_allowed method ms

abbrev pub allows : Option Meta → ℕ → Bool
allows none method = false
allows (some meta) method = is_method_allowed method meta.methods

abbrev pub kill_all : List Instance → List Message
kill_all [] = []
kill_all (i ∷ is) = killed i ∷ kill_all is

abbrev pub is_other : Option ℕ → Option ℕ → Bool
is_other none new = false
is_other (some old) none = true
is_other (some old) (some new) = not (old == new)

abbrev pub delete_dir : Option ℕ → List Message
delete_dir none = []
delete_dir (some dir) = deleted dir ∷ []

-- The turn goes on to the scaling step, or with `continue` to the next message, or the task ends.
pub data Next : Type 0 where
  scale skip quit : Next

abbrev pub Turn : Type 0
Turn = Task × List Message × Next

-- The `select` at the end of a request that passed its checks.
unfoldable pub dispatch : Bool → Task → Turn
dispatch true s = (record s { outstanding_reqs = s.outstanding_reqs + 1 }, to_instances ∷ [], scale)
dispatch false s = (s, refused too_many_requests ∷ [], scale)

-- Instances of old code are killed, and then the old code is deleted.
unfoldable pub retire : Option ℕ → Task → Task × List Message
retire old s =
    if is_other old s.func.code_dir
    then (record s { instances = [] }, kill_all s.instances ++ delete_dir old)
    else (s, [])

-- A request, once the code has been checked; `old` is the directory before that.
unfoldable pub checked : Option ℕ → ℕ → Bool → Bool → Task → Turn
unfolding dispatch retire
checked old method room false s = (s, refused internal_server_error ∷ [], skip)
checked old method room true s =
    if allows s.func.meta method
    then (let (s', kills) = retire old s in
        let (s'', sent, next) = dispatch room s' in (s'', kills ++ sent, next))
    else (s, refused method_not_allowed ∷ [], skip)

unfoldable pub on_request : ℕ → Env → Bool → Task → Turn
unfolding checked
on_request method env room s =
    let (func, _, ok) = pull_handler_if_stale s.func env in
    checked s.func.code_dir method room ok (record s { func = func })

-- A finished request; the average is of size 10, so that it takes every number in.
unfoldable pub on_done : ℕ → Task → Turn
on_done ms s = elim (RollingAvg.add s.exec_ms ms) [
  | none ↦ (s, [], quit)
  | some avg ↦
      (record s { exec_ms = avg; outstanding_reqs = s.outstanding_reqs - 1 }, finished ∷ [], scale)
]

unfoldable pub on_timeout : Task → Turn
on_timeout s =
    let s' = record s { timer = none } in
    elim s.func.code_dir [ none ↦ (s', [], skip) | some dir ↦ (s', [], scale) ]

unfoldable pub on_event : Event → Task → Turn
unfolding on_request on_done on_timeout
on_event timeout s = on_timeout s
on_event (request method env room) s = on_request method env room s
on_event (done ms) s = on_done ms s
on_event kill s = (s, kill_all s.instances ++ stopped ∷ [], quit)

-- One sandbox for every 10 ms of outstanding work, but no more than requests, and at least one.
unfoldable pub desired_instances : ℕ → ℕ → ℕ
desired_instances outstanding avg =
    let by_work = outstanding * avg / 10 in
    let by_reqs = if ltb outstanding by_work then outstanding else by_work in
    if ltb by_reqs 1 then 1 else by_reqs

-- 100 ms.
abbrev pub adjust_freq : ℕ
adjust_freq = 100_000_000

-- `newInstance`; `none` is the panic where no code has been fetched.
unfoldable pub new_instance : Task → Option (Task × Instance)
new_instance s = elim s.func.code_dir [
  | none ↦ none
  | some dir ↦
      let i : Instance = record { id = s.next_id; code_dir = dir } in
      some (record s { instances = s.instances ++ i ∷ []; next_id = s.next_id + 1 }, i)
]

-- The last element, and the list without it.
abbrev pub last_instance : List Instance → Option Instance
last_instance [] = none
last_instance (i ∷ []) = some i
last_instance (i ∷ j ∷ is) = last_instance (j ∷ is)

abbrev pub but_last : List Instance → List Instance
but_last [] = []
but_last (i ∷ []) = []
but_last (i ∷ j ∷ is) = i ∷ but_last (j ∷ is)

abbrev pub kill_last : Option Instance → List Message
kill_last none = []
kill_last (some i) = killed i ∷ []

-- One instance more or less, as it is wanted.
unfoldable pub adjust : ℕ → ℕ → Task → Option (Task × List Message)
unfolding new_instance
adjust now desired s =
    if ltb (length s.instances) desired
    then (elim (new_instance s) [
      | none ↦ none
      | some (s', i) ↦ some (record s' { last_scaling = some now }, started i ∷ [])
    ])
    else (if ltb desired (length s.instances)
        then some (
          record s { instances = but_last s.instances; last_scaling = some now },
          kill_last (last_instance s.instances),
        )
        else some (s, []))

-- The timer is set again if the goal is not reached.
unfoldable pub rearm : ℕ → ℕ → ℕ → Task → Task
rearm now wait desired s =
    if length s.instances == desired then s else record s { timer = some (now + wait) }

-- The time since the last adjustment allows another one.
abbrev pub may_adjust : ℕ → Option ℕ → Bool
may_adjust now none = true
may_adjust now (some last) = not (ltb (now - last) adjust_freq)

abbrev pub waits : ℕ → Option ℕ → ℕ
waits now none = 0
waits now (some last) = adjust_freq - (now - last)

-- The scaling step at time `now`.
unfoldable pub scale_step : ℕ → Task → Option (Task × List Message)
scale_step now s =
    let desired = desired_instances s.outstanding_reqs s.exec_ms.avg in
    if may_adjust now s.last_scaling
    then (elim (adjust now desired s) [
      | none ↦ none
      | some (s', ms) ↦ some (rearm now adjust_freq desired s', ms)
    ])
    else some (rearm now (waits now s.last_scaling) desired s, [])

-- What follows a message: the scaling step, unless the turn was cut short.
unfoldable pub then_scale : ℕ → Turn → Option (Task × List Message)
then_scale now (s, sent, scale) = elim (scale_step now s) [
  | none ↦ none
  | some (s', ms) ↦ some (s', sent ++ ms)
]
then_scale now (s, sent, skip) = some (s, sent)
then_scale now (s, sent, quit) = some (s, sent)

-- A turn of the loop.
unfoldable pub turn : Event → ℕ → Task → Option (Task × List Message)
turn ev now s = then_scale now (on_event ev s)
