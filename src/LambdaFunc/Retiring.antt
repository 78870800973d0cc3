-- ===== src/LambdaFunc/Retiring.antt =====
-- When the instances of old code go (lines 295-330 of go/worker/lambda/lambdaFunction.go).
use open_lambda.Prelude.{
  ℕ, ◌≡◌, ◌⊎◌, inl, inr, refl, ◌∙◌, ap, Bool, true, false, List, [], ◌∷◌, Option, none, some, arith,
  Option-cases, Bool-cases,
}
use open_lambda.LambdaFunc.Pull.{Env, pull_handler_if_stale}
use open_lambda.LambdaFunc.Refresh.{pull_failure}
use open_lambda.LambdaFunc.Task.{
  Task, Message, Event, Next, refused, timeout, request, done, kill, scale, skip, quit,
  method_not_allowed, allows, is_other, dispatch, retire, checked, on_request, on_done, on_timeout,
  on_event, scale_step, then_scale, turn,
}
use open_lambda.LambdaFunc.Codes.{
  Runs, Current, Runs-eq, scale_step-Current, retire-Current, dispatch-Current,
}

-- A turn whose only effect is the answer that the method is not allowed.
abbrev pub Barred : List Message → Type 0
Barred sent = sent ≡ refused method_not_allowed ∷ []

checked-Current :
    (old : Option ℕ) (method : ℕ) (room ok : Bool) (s : Task)
    → Runs old s.instances
    → (ok ≡ false → s.func.code_dir ≡ old)
    → Current (checked old method room ok s).0
      ⊎ (Barred (checked old method room ok s).1 × ((checked old method room ok s).2 ≡ skip))
unfolding checked
checked-Current old method room false s h k =
    inl (Runs-eq old s.func.code_dir s.instances s.instances (k refl) refl h)
checked-Current old method room true s h k = elim (Bool-cases (allows s.func.meta method)) [
  | inl allowed ↦ rw allowed (inl (dispatch-Current room (retire old s).0 (retire-Current old s h)))
  | inr barred ↦ rw barred (inr (refl, refl))
]

on_timeout_keeps :
    (s : Task) → ((on_timeout s).0.func ≡ s.func) × ((on_timeout s).0.instances ≡ s.instances)
unfolding on_timeout
on_timeout_keeps s = ground arith

on_done_keeps :
    (ms : ℕ) (s : Task)
    → ((on_done ms s).0.func ≡ s.func) × ((on_done ms s).0.instances ≡ s.instances)
unfolding on_done
on_done_keeps ms s = ground arith

on_event-Current :
    (ev : Event) (s : Task)
    → Current s
    → Current (on_event ev s).0 ⊎ (Barred (on_event ev s).1 × ((on_event ev s).2 ≡ skip))
unfolding on_event on_request
on_event-Current timeout s h =
    let (same, is) = on_timeout_keeps s in
    inl (
      Runs-eq s.func.code_dir (on_timeout s).0.func.code_dir s.instances (on_timeout s).0.instances
        (ap (λ f. f.code_dir) same) is h)
on_event-Current (request method env room) s h =
    let pulled = pull_handler_if_stale s.func env in
    checked-Current s.func.code_dir method room pulled.2 (record s { func = pulled.0 }) h
      (λ e. ap (λ f. f.code_dir) (pull_failure s.func env e).0)
on_event-Current (done ms) s h =
    let (same, is) = on_done_keeps ms s in
    inl (
      Runs-eq s.func.code_dir (on_done ms s).0.func.code_dir s.instances (on_done ms s).0.instances
        (ap (λ f. f.code_dir) same) is h)
on_event-Current kill s h = inl h

then_scale-Current :
    (now : ℕ) (s' s1 : Task) (sent ms : List Message) (next : Next)
    → Current s1 ⊎ (Barred sent × (next ≡ skip))
    → then_scale now (s1, sent, next) ≡ some (s', ms)
    → Current s' ⊎ Barred ms
unfolding then_scale
then_scale-Current now s' s1 sent ms scale (inl h) e = elim (Option-cases (scale_step now s1)) [
  | inl stuck ↦ ground (arith, stuck)
  | inr ((s2, more), step) ↦
      let same : s' ≡ s2 = ground (arith, step) in
      inl (rw same (scale_step-Current now s1 s2 more h step))
]
then_scale-Current now s' s1 sent ms skip (inl h) e =
    let same : s' ≡ s1 = ground arith in inl (rw same h)
then_scale-Current now s' s1 sent ms quit (inl h) e =
    let same : s' ≡ s1 = ground arith in inl (rw same h)
then_scale-Current now s' s1 sent ms skip (inr (barred, _)) e =
    let same : ms ≡ sent = ground arith in inr (same ∙ barred)
then_scale-Current now s' s1 sent ms scale (inr (_, bad)) e = cc
then_scale-Current now s' s1 sent ms quit (inr (_, bad)) e = cc

-- If all instances run the code that the function has, they still do after a turn that does not
-- panic, whatever the turn read, unless the turn only refused a request for its method.
pub turn-Current :
    (ev : Event) (now : ℕ) (s s' : Task) (sent : List Message)
    → Current s
    → turn ev now s ≡ some (s', sent)
    → Current s' ⊎ Barred sent
unfolding turn
turn-Current ev now s s' sent h e =
    then_scale-Current now s' (on_event ev s).0 (on_event ev s).1 sent (on_event ev s).2
      (on_event-Current ev s h) e

is_other_self : (o : Option ℕ) → is_other o o ≡ false
is_other_self none = refl
is_other_self (some d) = ground arith

checked_barred :
    (old : Option ℕ) (method : ℕ) (room ok : Bool) (s : Task)
    → ok ≡ true
    → allows s.func.meta method ≡ false
    → checked old method room ok s ≡ (s, refused method_not_allowed ∷ [], skip)
unfolding checked
checked_barred old method room false s e h = cc
checked_barred old method room true s e h = rw h refl

dispatch_keeps : (room : Bool) (s : Task) → (dispatch room s).0.instances ≡ s.instances
unfolding dispatch
dispatch_keeps true s = refl
dispatch_keeps false s = refl

checked_keeps :
    (old : Option ℕ) (method : ℕ) (room ok : Bool) (s : Task)
    → is_other old s.func.code_dir ≡ false
    → (checked old method room ok s).0.instances ≡ s.instances
unfolding checked retire
checked_keeps old method room false s e = refl
checked_keeps old method room true s e = elim (Bool-cases (allows s.func.meta method)) [
  | inl allowed ↦ rw (allowed, e) (dispatch_keeps room s)
  | inr barred ↦ rw barred refl
]

turn-skip :
    (ev : Event) (now : ℕ) (s s' : Task) (sent : List Message)
    → on_event ev s ≡ (s', sent, skip)
    → turn ev now s ≡ some (s', sent)
unfolding turn then_scale
turn-skip ev now s s' sent e = rw (e, turn) refl

-- A request that is refused for its method after new code was pulled leaves every instance of the old
-- code alive, and no later request retires them as long as its check of the code leaves the code
-- directory as it is.
pub barred_keeps_stale :
    (method later : ℕ) (env env' : Env) (room room' : Bool) (now : ℕ) (s : Task) (new : ℕ)
    → (pull_handler_if_stale s.func env).2 ≡ true
    → (pull_handler_if_stale s.func env).0.code_dir ≡ some new
    → allows (pull_handler_if_stale s.func env).0.meta method ≡ false
    → (pull_handler_if_stale (pull_handler_if_stale s.func env).0 env').0.code_dir ≡ some new
    → (s' : Task) × (turn (request method env room) now s
        ≡ some (s', refused method_not_allowed ∷ []))
      × (s'.func.code_dir ≡ some new)
      × (s'.instances ≡ s.instances)
      × ((on_request later env' room' s').0.instances ≡ s.instances)
unfolding on_request on_event
barred_keeps_stale method later env env' room room' now s new ok code barred same =
    let func = (pull_handler_if_stale s.func env).0 in
    let s' : Task = record s { func = func } in
    let func' = (pull_handler_if_stale func env').0 in
    (
      s',
      turn-skip (request method env room) now s s' (refused method_not_allowed ∷ []) (
          checked_barred s.func.code_dir method room (pull_handler_if_stale s.func env).2 s' ok
            barred),
      code,
      refl,
      checked_keeps func.code_dir later room' (pull_handler_if_stale func env').2
          (record s' { func = func' }) (rw (code, same) (is_other_self (some new))),
    )
