-- ===== src/LambdaFunc/Serving.antt =====
-- What the task of a lambda function answers, and what it counts as outstanding.
use open_lambda.Prelude.{
  ℕ, suc, ◌+◌, ◌≤◌, ◌≡◌, inl, inr, refl, Bool, true, false, List, [], ◌∷◌, ◌++◌, Option, none, some,
  arith, if◌then◌else◌, Option-cases, Bool-cases,
}
use open_lambda.LambdaFunc.Pull.{pull_handler_if_stale}
use open_lambda.LambdaFunc.Task.{
  Task, Instance, Message, Event, Next, refused, to_instances, finished, stopped, timeout, request,
  done, kill, scale, skip, quit, allows, kill_all, delete_dir, kill_last, last_instance, is_other,
  dispatch, retire, checked, on_request, on_done, on_timeout, on_event, adjust, new_instance, rearm,
  desired_instances, scale_step, then_scale, turn,
}

-- The messages that settle what becomes of a request: an error, or the way to the instances.
abbrev pub settles : Message → Bool
settles (refused status) = true
settles to_instances = true
settles _ = false

abbrev pub forwards : Message → Bool
forwards to_instances = true
forwards _ = false

abbrev pub finishes : Message → Bool
finishes finished = true
finishes _ = false

abbrev pub tally : (Message → Bool) → List Message → ℕ
tally p [] = 0
tally p (m ∷ ms) = let rest = tally p ms in if p m then suc rest else rest

tally-append :
    (p : Message → Bool) (ms ns : List Message) → tally p (ms ++ ns) ≡ tally p ms + tally p ns
tally-append p [] ns = omega arith
tally-append p (m ∷ ms) ns = ground (arith, tally-append p ms ns)

-- Messages that are none of these.
abbrev pub Quiet : List Message → Type 0
Quiet ms = (tally settles ms ≡ 0) × (tally forwards ms ≡ 0) × (tally finishes ms ≡ 0)

kill_all-Quiet : (is : List Instance) → Quiet (kill_all is)
kill_all-Quiet [] = (refl, refl, refl)
kill_all-Quiet (i ∷ is) = kill_all-Quiet is

delete_dir-Quiet : (o : Option ℕ) → Quiet (delete_dir o)
delete_dir-Quiet none = (refl, refl, refl)
delete_dir-Quiet (some d) = (refl, refl, refl)

kill_last-Quiet : (o : Option Instance) → Quiet (kill_last o)
kill_last-Quiet none = (refl, refl, refl)
kill_last-Quiet (some i) = (refl, refl, refl)

append-Quiet : (ms ns : List Message) → Quiet ms → Quiet ns → Quiet (ms ++ ns)
append-Quiet ms ns (a, b, c) (a', b', c') = omega (
  arith,
  tally-append settles ms ns,
  tally-append forwards ms ns,
  tally-append finishes ms ns,
  a,
  b,
  c,
  a',
  b',
  c',
)

adjust-Quiet :
    (now desired : ℕ) (s s' : Task) (ms : List Message)
    → adjust now desired s ≡ some (s', ms)
    → Quiet ms × (s'.outstanding_reqs ≡ s.outstanding_reqs)
unfolding adjust new_instance
adjust-Quiet now desired s s' ms h =
    let k = kill_last-Quiet (last_instance s.instances) in ground (arith, k)

scale_step-Quiet :
    (now : ℕ) (s s' : Task) (ms : List Message)
    → scale_step now s ≡ some (s', ms)
    → Quiet ms × (s'.outstanding_reqs ≡ s.outstanding_reqs)
unfolding scale_step rearm
scale_step-Quiet now s s' ms h =
    elim (Option-cases (adjust now (desired_instances s.outstanding_reqs s.exec_ms.avg) s)) [
      | inl stuck ↦ ground (arith, stuck)
      | inr ((s1, ms1), e) ↦ ground (
        arith,
        e,
        adjust-Quiet now (desired_instances s.outstanding_reqs s.exec_ms.avg) s s1 ms1 e,
      )
    ]

abbrev pub asks : Event → ℕ
asks (request method env room) = 1
asks _ = 0

-- A request finishes only if one is outstanding.
abbrev pub Possible : Event → Task → Type 0
Possible (done ms) s = 1 ≤ s.outstanding_reqs
Possible _ s = Unit

-- A reply for every request read, and the outstanding requests are those sent to instances that did
-- not finish.
abbrev pub Accounts : ℕ → Task → Task → List Message → Type 0
Accounts reqs s s' sent =
    (tally settles sent ≡ reqs)
    × (s'.outstanding_reqs + tally finishes sent ≡ s.outstanding_reqs + tally forwards sent)

retire-Quiet :
    (old : Option ℕ) (s : Task)
    → Quiet (retire old s).1 × ((retire old s).0.outstanding_reqs ≡ s.outstanding_reqs)
unfolding retire
retire-Quiet old s = elim (Bool-cases (is_other old s.func.code_dir)) [
  | inl other ↦ rw other (
    append-Quiet (kill_all s.instances) (delete_dir old) (kill_all-Quiet s.instances)
        (delete_dir-Quiet old),
    refl,
  )
  | inr same ↦ rw same ((refl, refl, refl), refl)
]

dispatch-Accounts : (room : Bool) (s : Task) → Accounts 1 s (dispatch room s).0 (dispatch room s).1
unfolding dispatch
dispatch-Accounts true s = (refl, omega arith)
dispatch-Accounts false s = (refl, omega arith)

Accounts-after :
    (s s1 s2 : Task) (kills sent : List Message)
    → Quiet kills × (s1.outstanding_reqs ≡ s.outstanding_reqs)
    → Accounts 1 s1 s2 sent
    → Accounts 1 s s2 (kills ++ sent)
Accounts-after s s1 s2 kills sent ((a, b, c), same) (one, sum) = omega (
  arith,
  tally-append settles kills sent,
  tally-append forwards kills sent,
  tally-append finishes kills sent,
  a,
  b,
  c,
  same,
  one,
  sum,
)

Accounts-before :
    (reqs : ℕ) (s s1 s2 : Task) (sent ms : List Message)
    → Accounts reqs s s1 sent
    → Quiet ms × (s2.outstanding_reqs ≡ s1.outstanding_reqs)
    → Accounts reqs s s2 (sent ++ ms)
Accounts-before reqs s s1 s2 sent ms (one, sum) ((a, b, c), same) = omega (
  arith,
  tally-append settles sent ms,
  tally-append forwards sent ms,
  tally-append finishes sent ms,
  a,
  b,
  c,
  same,
  one,
  sum,
)

checked-Accounts :
    (old : Option ℕ) (method : ℕ) (room ok : Bool) (s : Task)
    → Accounts 1 s (checked old method room ok s).0 (checked old method room ok s).1
unfolding checked
checked-Accounts old method room false s = (refl, omega arith)
checked-Accounts old method room true s = elim (Bool-cases (allows s.func.meta method)) [
  | inl allowed ↦ rw allowed (
      Accounts-after s (retire old s).0 (dispatch room (retire old s).0).0 (retire old s).1
        (dispatch room (retire old s).0).1 (retire-Quiet old s)
        (dispatch-Accounts room (retire old s).0))
  | inr barred ↦ rw barred (refl, omega arith)
]

on_event-Accounts :
    (ev : Event) (s : Task)
    → Possible ev s
    → Accounts (asks ev) s (on_event ev s).0 (on_event ev s).1
unfolding on_event on_request on_done on_timeout
on_event-Accounts timeout s h = ground arith
on_event-Accounts (request method env room) s h =
    let (func, _, ok) = pull_handler_if_stale s.func env in
    checked-Accounts s.func.code_dir method room ok (record s { func = func })
on_event-Accounts (done ms) s h = ground arith
on_event-Accounts kill s h =
    Accounts-before 0 s s s [] (kill_all s.instances ++ stopped ∷ []) (refl, refl)
      (
        append-Quiet (kill_all s.instances) (stopped ∷ []) (kill_all-Quiet s.instances)
            (refl, refl, refl),
        refl,
      )

then_scale-Accounts :
    (reqs now : ℕ) (s s1 s' : Task) (next : Next) (sent ms : List Message)
    → Accounts reqs s s1 sent
    → then_scale now (s1, sent, next) ≡ some (s', ms)
    → Accounts reqs s s' ms
unfolding then_scale
then_scale-Accounts reqs now s s1 s' skip sent ms h e = ground (arith, h)
then_scale-Accounts reqs now s s1 s' quit sent ms h e = ground (arith, h)
then_scale-Accounts reqs now s s1 s' scale sent ms h e = elim (Option-cases (scale_step now s1)) [
  | inl stuck ↦ ground (arith, stuck)
  | inr ((s2, more), step) ↦
      let a = Accounts-before reqs s s1 s2 sent more h (scale_step-Quiet now s1 s2 more step) in
      ground (arith, a, step)
]

-- A turn of the task that does not panic replies to the request that it reads with one error or sends
-- it to the instances, once, and settles nothing where it reads another message. A request counts as
-- outstanding from when it is sent to the instances to when its client hears that it finished: the
-- condition is that none finishes while none is outstanding.
pub turn-Accounts :
    (ev : Event) (now : ℕ) (s s' : Task) (sent : List Message)
    → Possible ev s
    → turn ev now s ≡ some (s', sent)
    → Accounts (asks ev) s s' sent
unfolding turn
turn-Accounts ev now s s' sent h e =
    then_scale-Accounts (asks ev) now s (on_event ev s).0 s' (on_event ev s).2 (on_event ev s).1
      sent (on_event-Accounts ev s h) e
