-- ===== src/LambdaInstance/Sandboxes.antt =====
-- The sandboxes of an instance: no panic, and none is left running.
use open_lambda.Prelude.{
  ℕ, ◌≡◌, refl, ◌∙◌, ap, true, List, [], ◌∷◌, ◌++◌, Option, none, some, arith, inl, inr, Bool-cases,
  Option-cases,
}
use open_lambda.LambdaInstance.{
  Settings, State, waiting, serving, stopped, Input, Effect, took, done, created, unpaused, paused,
  destroyed, discarded, acknowledged, Outcome, kill, create, start_new, make_ready, after_request,
  next_round, prefix, serve, step, run,
}

-- The sandbox that runs after some effects, where `up` ran before them.
abbrev pub awake_after : Option ℕ → List Effect → Option ℕ
awake_after up [] = up
awake_after up (created b ∷ es) = awake_after (some b) es
awake_after up (unpaused b ∷ es) = awake_after (some b) es
awake_after up (paused b ∷ es) = awake_after none es
awake_after up (destroyed b ∷ es) = awake_after none es
awake_after up (discarded b ∷ es) = awake_after none es
awake_after up (took r ∷ es) = awake_after up es
awake_after up (done r ∷ es) = awake_after up es
awake_after up (acknowledged ∷ es) = awake_after up es

-- The sandbox that serves; one that waits is paused.
abbrev pub awake : State → Option ℕ
awake (serving b r) = some b
awake _ = none

-- A sandbox waits for the next request only if sandboxes are reused.
abbrev pub Reuses : Settings → State → Type 0
Reuses c (waiting (some b)) = c.reuse_sandbox ≡ true
Reuses c _ = Unit

awake_after-append :
    (up : Option ℕ) (es fs : List Effect)
    → awake_after up (es ++ fs) ≡ awake_after (awake_after up es) fs
awake_after-append up [] fs = refl
awake_after-append up (created b ∷ es) fs = awake_after-append (some b) es fs
awake_after-append up (unpaused b ∷ es) fs = awake_after-append (some b) es fs
awake_after-append up (paused b ∷ es) fs = awake_after-append none es fs
awake_after-append up (destroyed b ∷ es) fs = awake_after-append none es fs
awake_after-append up (discarded b ∷ es) fs = awake_after-append none es fs
awake_after-append up (took r ∷ es) fs = awake_after-append up es fs
awake_after-append up (done r ∷ es) fs = awake_after-append up es fs
awake_after-append up (acknowledged ∷ es) fs = awake_after-append up es fs

abbrev Good : Settings → Option ℕ → Option Outcome → Type 0
Good c up none = ⊥
Good c up (some (s, es)) = Reuses c s × (awake_after up es ≡ awake s)

make_ready-Good :
    (c : Settings) (i : Input) (sb : Option ℕ) (r : ℕ) → Good c none (some (make_ready c i sb r))
unfolding make_ready create start_new
make_ready-Good c i none r = elim (Option-cases (create c i)) [
  | inl failed ↦ rw failed (tt, refl)
  | inr (b, made) ↦ rw made (tt, refl)
]
make_ready-Good c i (some old) r = elim (Bool-cases i.unpause_ok) [
  | inl ok ↦ rw ok (tt, refl)
  | inr dead ↦ elim (Option-cases (create c i)) [
    | inl failed ↦ rw (dead, failed) (tt, refl)
    | inr (b, made) ↦ rw (dead, made) (tt, refl)
  ]
]

serve-Good : (c : Settings) (i : Input) (b r : ℕ) → Good c (some b) (serve c i b r)
unfolding serve after_request next_round kill
serve-Good c i b r = ground arith

prefix-Good :
    (c : Settings) (up : Option ℕ) (es : List Effect) (o : Option Outcome)
    → Good c (awake_after up es) o
    → Good c up (prefix es o)
prefix-Good c up es none bad = elim bad [ ]
prefix-Good c up es (some (s, fs)) (reuses, is_awake) =
    (reuses, awake_after-append up es fs ∙ is_awake)

step-Good : (c : Settings) (i : Input) (s : State) → Reuses c s → Good c (awake s) (step c i s)
unfolding step kill
step-Good c i (waiting none) h = elim (Option-cases i.wake) [
  | inl killed ↦ rw killed (tt, refl)
  | inr (r, woken) ↦
      rw woken (
        prefix-Good c none (took r ∷ []) (some (make_ready c i none r))
          (make_ready-Good c i none r))
]
step-Good c i (waiting (some b)) h = elim (Option-cases i.wake) [
  | inl killed ↦ rw killed (tt, refl)
  | inr (r, woken) ↦ rw woken (
      prefix-Good c none (took r ∷ []) (some (make_ready c i (some b) r))
        (make_ready-Good c i (some b) r))
]
step-Good c i (serving b r) h = serve-Good c i b r
step-Good c i stopped h = (tt, refl)

run_next :
    (c : Settings) (i : Input) (is : List Input) (s u t : State) (fs gs : List Effect)
    → step c i s ≡ some (u, fs)
    → run c is u ≡ some (t, gs)
    → run c (i ∷ is) s ≡ some (t, fs ++ gs)
unfolding run
run_next c i is s u t fs gs first rest = ground (arith, first, rest)

-- From a state where a sandbox waits only if sandboxes are reused, an instance never panics, and the
-- sandbox that its effects leave running is the one that serves: while it waits and after it stopped,
-- each sandbox that it created or unpaused was paused, destroyed or discarded.
pub run_sandboxes :
    (c : Settings) (is : List Input) (s : State)
    → Reuses c s
    → (t : State) × (es : List Effect) × (run c is s ≡ some (t, es))
      × Reuses c t
      × (awake_after (awake s) es ≡ awake t)
unfolding run
run_sandboxes c [] s h = (s, [], refl, h, refl)
run_sandboxes c (i ∷ is) s h = elim (Option-cases (step c i s)) [
  | inl stuck ↦ let good = step-Good c i s h in elim (rw stuck at good) [ ]
  | inr ((u, fs), first) ↦
      let good_first = step-Good c i s h in
      let (reuses, is_awake) = rw first at good_first in
      let (t, gs, rest, good, last) = run_sandboxes c is u reuses in
      (
        t,
        fs ++ gs,
        run_next c i is s u t fs gs first rest,
        good,
        awake_after-append (awake s) fs gs ∙ ap (λ up. awake_after up gs) is_awake ∙ last,
      )
]
