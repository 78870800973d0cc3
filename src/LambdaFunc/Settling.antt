-- ===== src/LambdaFunc/Settling.antt =====
-- The timer alone brings the instances of a lambda function to their goal.
use open_lambda.Prelude.{
  ℕ, suc, zero, ◌≡◌, ◌⊎◌, inl, inr, refl, ◌∙◌, ap, true, List, [], ◌++◌, Option, none, some, arith,
  length,
}
use open_lambda.LambdaFunc.Task.{
  Task, Message, scale_step, turn, then_scale, Event, timeout, on_event, on_timeout, scale,
  may_adjust,
}
use open_lambda.LambdaFunc.Scaling.{Kept, Past, gap, goal, Armed, Scaled, scale_step_lem}

-- The task when it hears of nothing but its timer, which fires when it is due: `none` if it panics, or
-- if the timer is not set.
unfoldable pub wakes : ℕ → Task → Option Task
wakes zero s = some s
wakes (suc n) s = elim s.timer [
  | none ↦ none
  | some t ↦ elim (turn timeout t s) [ none ↦ none | some (s', ms) ↦ wakes n s' ]
]

on_timeout_code :
    (dir : ℕ) (s : Task)
    → s.func.code_dir ≡ some dir
    → on_timeout s ≡ (record s { timer = none }, [], scale)
unfolding on_timeout
on_timeout_code dir s h = ground arith

turn-scale :
    (ev : Event) (now : ℕ) (s s1 s' : Task) (sent ms : List Message)
    → on_event ev s ≡ (s1, sent, scale)
    → scale_step now s1 ≡ some (s', ms)
    → turn ev now s ≡ some (s', sent ++ ms)
unfolding turn then_scale
turn-scale ev now s s1 s' sent ms h e = rw (h, turn) (rw (e, then_scale) refl)

turn-timeout :
    (now dir : ℕ) (s : Task)
    → s.func.code_dir ≡ some dir
    → Past now s.last_scaling
    → (s' : Task) × (ms : List Message) × (turn timeout now s ≡ some (s', ms))
      × Scaled now (record s { timer = none }) s' ms
unfolding on_event
turn-timeout now dir s h k =
    let (s', ms, e, scaled) = scale_step_lem now dir (record s { timer = none }) h k in
    (
      s',
      ms,
      turn-scale timeout now s (record s { timer = none }) s' [] ms (on_timeout_code dir s h) e,
      scaled,
    )

goal-Kept : (s s' : Task) → Kept s s' → goal s' ≡ goal s
goal-Kept s s' (_, reqs, avg) =
    let avg' : s'.exec_ms.avg ≡ s.exec_ms.avg = ap (λ a. a.avg) avg in cc

gap_drops :
    (n t : ℕ) (s s' : Task) (ms : List Message)
    → gap (goal s) s ≡ suc n
    → may_adjust t s.last_scaling ≡ true
    → Scaled t s s' ms
    → (gap (goal s') s' ≡ n) × ((gap (goal s') s' ≡ 0) ⊎ Armed s')
gap_drops n t s s' ms e ok (kept, change, fin) =
    let same : goal s' ≡ goal s = goal-Kept s s' kept in
    rw same (
      elim change [
        | inl (_, _, inl none_missing) ↦ cc
        | inl (_, _, inr early) ↦ cc
        | inr (_, closer, _) ↦ omega (arith, closer, e)
      ],
      fin,
    )

wakes-zero : (s : Task) → wakes zero s ≡ some s
unfolding wakes
wakes-zero s = refl

wakes_step :
    (n t : ℕ) (s s' : Task) (ms : List Message)
    → s.timer ≡ some t
    → turn timeout t s ≡ some (s', ms)
    → wakes (suc n) s ≡ wakes n s'
unfolding wakes
wakes_step n t s s' ms timer run = ground arith

-- Where the goal is reached or the timer is set for a time when an adjustment is allowed, as after
-- every scaling step, the task reaches the goal by its timer alone, in as many timeouts as instances
-- are missing or too many.
pub wakes_settles :
    (n dir : ℕ) (s : Task)
    → s.func.code_dir ≡ some dir
    → gap (goal s) s ≡ n
    → (gap (goal s) s ≡ 0) ⊎ Armed s
    → (s' : Task) × (wakes n s ≡ some s') × (length s'.instances ≡ goal s)
wakes_settles zero dir s h e a = (s, wakes-zero s, omega (arith, e))
wakes_settles (suc n) dir s h e (inl none_missing) = cc
wakes_settles (suc n) dir s h e (inr (t, timer, ok, past)) =
    let (s', ms, run, scaled) = turn-timeout t dir s h past in
    let (left, fin) = gap_drops n t (record s { timer = none }) s' ms e ok scaled in
    let (s'', rest, there) =
      wakes_settles n dir s' (ap (λ f. f.code_dir) scaled.0.0 ∙ h) left fin in
    (s'', wakes_step n t s s' ms timer run ∙ rest, there ∙ goal-Kept s s' scaled.0)
