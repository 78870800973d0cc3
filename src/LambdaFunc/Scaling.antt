-- ===== src/LambdaFunc/Scaling.antt =====
-- How the task of a lambda function scales its instances (lines 371-427 of
-- go/worker/lambda/lambdaFunction.go).
use open_lambda.Prelude.{
  ℕ, ◌+◌, ◌-◌, ◌*◌, ◌/◌, ◌≤◌, ◌<◌, ◌≡◌, ◌↔◌, ◌⊎◌, inl, inr, refl, ◌∙◌, ap, true, false, List, [],
  ◌∷◌, ◌++◌, Option, none, some, arith, ltb, ◌==◌, length, length-append, Bool-cases, eq_of-some,
}
use open_lambda.LambdaFunc.Task.{
  Task, Instance, Message, desired_instances, adjust_freq, new_instance, but_last, kill_last,
  last_instance, adjust, rearm, may_adjust, waits, scale_step, started,
}

-- A number above 1 is within the goal just when there are as many requests outstanding and as many
-- times 10 ms of outstanding work; and the goal is at least 1.
pub desired_instances_lem :
    (outstanding avg n : ℕ)
    → 1 ≤ n
    → (1 ≤ desired_instances outstanding avg)
      × ((n ≤ desired_instances outstanding avg)
          ↔ ((n ≤ 1) ⊎ ((n ≤ outstanding) × (n ≤ outstanding * avg / 10))))
unfolding desired_instances
desired_instances_lem outstanding avg n h = ground arith

-- The goal of a task, which scaling does not move.
abbrev pub goal : Task → ℕ
goal s = desired_instances s.outstanding_reqs s.exec_ms.avg

length-but_last : (is : List Instance) → length (but_last is) ≡ length is - 1
length-but_last [] = omega arith
length-but_last (i ∷ []) = omega arith
length-but_last (i ∷ j ∷ is) = omega (arith, length-but_last (j ∷ is))

-- What scaling leaves as it is.
abbrev pub Kept : Task → Task → Type 0
Kept s s' =
    (s'.func ≡ s.func) × (s'.outstanding_reqs ≡ s.outstanding_reqs) × (s'.exec_ms ≡ s.exec_ms)

-- One adjustment: nothing where the goal is reached, else one instance more or less.
abbrev pub Adjusted : ℕ → ℕ → Task → Task → List Message → Type 0
Adjusted now desired s s' ms =
    Kept s s'
    × (s'.timer ≡ s.timer)
    × (((length s.instances ≡ desired) × (s' ≡ s) × (ms ≡ []))
        ⊎ ((s'.last_scaling ≡ some now)
            × (((length s.instances < desired)
                  × (length s'.instances ≡ length s.instances + 1)
                  × (i : Instance) × (ms ≡ started i ∷ []))
                ⊎ ((desired < length s.instances)
                    × (length s'.instances ≡ length s.instances - 1)
                    × (ms ≡ kill_last (last_instance s.instances))))))

pub new_instance_lem :
    (dir : ℕ) (s : Task)
    → s.func.code_dir ≡ some dir
    → (i : Instance) × (i.code_dir ≡ dir)
      × (new_instance s
          ≡ some (record s { instances = s.instances ++ i ∷ []; next_id = s.next_id + 1 }, i))
unfolding new_instance
new_instance_lem dir s h = (record { id = s.next_id; code_dir = dir }, refl, ground arith)

adjust_lem :
    (now desired dir : ℕ) (s : Task)
    → s.func.code_dir ≡ some dir
    → (s' : Task) × (ms : List Message) × (adjust now desired s ≡ some (s', ms))
      × Adjusted now desired s s' ms
unfolding adjust
adjust_lem now desired dir s h = elim (Bool-cases (ltb (length s.instances) desired)) [
  | inl few ↦
      let (i, _, made) = new_instance_lem dir s h in
      (
        record s {
          instances = s.instances ++ i ∷ [];
          next_id = s.next_id + 1;
          last_scaling = some now;
        },
        started i ∷ [],
        rw (few, made) refl,
        (
          (refl, refl, refl),
          refl,
          inr (refl, inl (ground arith, length-append s.instances (i ∷ []), i, refl)),
        ),
      )
  | inr enough ↦ elim (Bool-cases (ltb desired (length s.instances))) [
    | inl many ↦ (
      record s { instances = but_last s.instances; last_scaling = some now },
      kill_last (last_instance s.instances),
      rw (enough, many) refl,
      ((refl, refl, refl), refl, inr (refl, inr (ground arith, length-but_last s.instances, refl))),
    )
    | inr right ↦
        (s, [], rw (enough, right) refl, ((refl, refl, refl), refl, inl (ground arith, refl, refl)))
  ]
]

-- The last adjustment is not in the future.
abbrev pub Past : ℕ → Option ℕ → Type 0
Past now none = Unit
Past now (some last) = last ≤ now

-- How far the number of instances is from a goal.
abbrev pub gap : ℕ → Task → ℕ
gap desired s = (desired - length s.instances) + (length s.instances - desired)

-- A timer is set, for a time when an adjustment is allowed.
abbrev pub Armed : Task → Type 0
Armed s =
    (t : ℕ) × (s.timer ≡ some t) × (may_adjust t s.last_scaling ≡ true) × Past t s.last_scaling

-- What one scaling step comes to.
abbrev pub Scaled : ℕ → Task → Task → List Message → Type 0
Scaled now s s' ms =
    Kept s s'
    × (((s'.instances ≡ s.instances)
          × (ms ≡ [])
          × ((gap (goal s) s ≡ 0) ⊎ (may_adjust now s.last_scaling ≡ false)))
        ⊎ ((may_adjust now s.last_scaling ≡ true)
            × (gap (goal s) s' + 1 ≡ gap (goal s) s)
            × (s'.last_scaling ≡ some now)))
    × ((gap (goal s) s' ≡ 0) ⊎ Armed s')

rearm_lem :
    (now wait desired : ℕ) (s : Task)
    → may_adjust (now + wait) s.last_scaling ≡ true
    → Past (now + wait) s.last_scaling
    → Kept s (rearm now wait desired s)
      × ((rearm now wait desired s).instances ≡ s.instances)
      × ((rearm now wait desired s).last_scaling ≡ s.last_scaling)
      × ((gap desired (rearm now wait desired s) ≡ 0) ⊎ Armed (rearm now wait desired s))
unfolding rearm
rearm_lem now wait desired s h k = elim (Bool-cases (length s.instances == desired)) [
  | inl a ↦ rw a ((refl, refl, refl), refl, refl, inl (ground arith))
  | inr a ↦ rw a ((refl, refl, refl), refl, refl, inr (now + wait, refl, h, k))
]

scale_step_wait :
    (now : ℕ) (s : Task)
    → Past now s.last_scaling
    → may_adjust now s.last_scaling ≡ false
    → (s' : Task) × (ms : List Message) × (scale_step now s ≡ some (s', ms)) × Scaled now s s' ms
unfolding scale_step
scale_step_wait now s h early =
    let (kept, same, last, fin) =
      rearm_lem now (waits now s.last_scaling) (goal s) s (ground arith) (ground arith) in
    (
      rearm now (waits now s.last_scaling) (goal s) s,
      [],
      rw early refl,
      (kept, inl (same, refl, inr early), fin),
    )

-- By the time that the timer is set for, an adjustment is allowed.
later_lem :
    (now : ℕ) (last last' : Option ℕ)
    → Past now last
    → (last' ≡ last) ⊎ (last' ≡ some now)
    → (may_adjust (now + adjust_freq) last' ≡ true) × Past (now + adjust_freq) last'
later_lem now last none h e = (refl, tt)
later_lem now none (some t) h (inl e) = cc
later_lem now (some r) (some t) h (inl e) =
    let same : t ≡ r = eq_of-some e in (ground arith, omega (arith, same, h))
later_lem now last (some t) h (inr e) =
    let same : t ≡ now = eq_of-some e in (ground arith, omega (arith, same))

Adjusted-last :
    (now desired : ℕ) (s s' : Task) (ms : List Message)
    → Adjusted now desired s s' ms
    → (s'.last_scaling ≡ s.last_scaling) ⊎ (s'.last_scaling ≡ some now)
Adjusted-last now desired s s' ms (_, _, inl (_, e, _)) = inl (ap (λ t. t.last_scaling) e)
Adjusted-last now desired s s' ms (_, _, inr (e, _)) = inr e

Adjusted-gap :
    (now : ℕ) (s s' s'' : Task) (ms : List Message)
    → Adjusted now (goal s) s s' ms
    → s''.instances ≡ s'.instances
    → s''.last_scaling ≡ s'.last_scaling
    → may_adjust now s.last_scaling ≡ true
    → ((s''.instances ≡ s.instances)
        × (ms ≡ [])
        × ((gap (goal s) s ≡ 0) ⊎ (may_adjust now s.last_scaling ≡ false)))
      ⊎ ((may_adjust now s.last_scaling ≡ true)
          × (gap (goal s) s'' + 1 ≡ gap (goal s) s)
          × (s''.last_scaling ≡ some now))
Adjusted-gap now s s' s'' ms (_, _, inl (eq, same, nil)) is last ok =
    inl (is ∙ ap (λ t. t.instances) same, nil, inl (omega (arith, eq)))
Adjusted-gap now s s' s'' ms (_, _, inr (e, inl (lt, len, _, _))) is last ok =
    inr (ok, omega (arith, lt, len, ap length is), last ∙ e)
Adjusted-gap now s s' s'' ms (_, _, inr (e, inr (lt, len, _))) is last ok =
    inr (ok, omega (arith, lt, len, ap length is), last ∙ e)

Kept-trans : (a b c : Task) → Kept a b → Kept b c → Kept a c
Kept-trans a b c (p, q, r) (p', q', r') = (p' ∙ p, q' ∙ q, r' ∙ r)

scale_step_adjust :
    (now dir : ℕ) (s : Task)
    → s.func.code_dir ≡ some dir
    → Past now s.last_scaling
    → may_adjust now s.last_scaling ≡ true
    → (s' : Task) × (ms : List Message) × (scale_step now s ≡ some (s', ms)) × Scaled now s s' ms
unfolding scale_step
scale_step_adjust now dir s h k ok =
    let (s', ms, e, change) = adjust_lem now (goal s) dir s h in
    let (ok', past) =
      later_lem now s.last_scaling s'.last_scaling k (Adjusted-last now (goal s) s s' ms change) in
    let (kept', same, last, fin) = rearm_lem now adjust_freq (goal s) s' ok' past in
    let s'' : Task = rearm now adjust_freq (goal s) s' in
    (
      s'',
      ms,
      rw (ok, e) refl,
      (Kept-trans s s' s'' change.0 kept', Adjusted-gap now s s' s'' ms change same last ok, fin),
    )

-- A scaling step of a function that has code does not panic. It changes nothing else than the number
-- of instances: that stays if it is the goal or if less than 100 ms passed since the last adjustment,
-- and otherwise it comes one closer to the goal. If the goal is not reached then, the timer is set,
-- for a time when the next adjustment is allowed.
pub scale_step_lem :
    (now dir : ℕ) (s : Task)
    → s.func.code_dir ≡ some dir
    → Past now s.last_scaling
    → (s' : Task) × (ms : List Message) × (scale_step now s ≡ some (s', ms)) × Scaled now s s' ms
scale_step_lem now dir s h k = elim (Bool-cases (may_adjust now s.last_scaling)) [
  | inl ok ↦ scale_step_adjust now dir s h k ok
  | inr early ↦ scale_step_wait now s k early
]
