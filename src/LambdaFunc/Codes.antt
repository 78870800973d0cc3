-- ===== src/LambdaFunc/Codes.antt =====
-- Which code the instances of a function run, before and after they are retired (go/worker/lambda/lambdaFunction.go).
use open_lambda.Prelude.{
  ℕ, ◌≡◌, ◌⊎◌, inl, inr, refl, sym, ap, Bool, true, false, List, [], ◌∷◌, ◌++◌, Option, none, some,
  arith, ltb, length, Option-cases, Bool-cases, All, All-append,
}
use open_lambda.LambdaFunc.Task.{
  Task, Instance, Message, but_last, is_other, dispatch, retire, adjust, new_instance, rearm,
  may_adjust, desired_instances, scale_step,
}

-- All instances run one code.
abbrev pub Runs : Option ℕ → List Instance → Type 0
Runs dir is = All (λ i. some i.code_dir ≡ dir) is

-- All instances run the code that the function has now.
abbrev pub Current : Task → Type 0
Current s = Runs s.func.code_dir s.instances

pub Runs-but_last : (dir : Option ℕ) (is : List Instance) → Runs dir is → Runs dir (but_last is)
Runs-but_last dir [] h = h
Runs-but_last dir (i ∷ []) h = tt
Runs-but_last dir (i ∷ j ∷ is) h = (h.0, Runs-but_last dir (j ∷ is) h.1)

pub Runs-eq :
    (d d' : Option ℕ) (is is' : List Instance) → d' ≡ d → is' ≡ is → Runs d is → Runs d' is'
Runs-eq d d' is is' e f h = rw (e, f) h

pub Runs-switch :
    (old new : Option ℕ) (is : List Instance)
    → is_other old new ≡ false
    → Runs old is
    → Runs new is ⊎ (is_other old new ≡ true)
Runs-switch old new [] e h = inl tt
Runs-switch none new (i ∷ is) e h = cc
Runs-switch (some d) none (i ∷ is) e h = cc
Runs-switch (some d) (some n) (i ∷ is) e h =
    let same : d ≡ n = ground arith in
    inl (Runs-eq (some d) (some n) (i ∷ is) (i ∷ is) (ap some (sym same)) refl h)

pub adjust-Current :
    (now desired : ℕ) (s s' : Task) (ms : List Message)
    → Current s
    → adjust now desired s ≡ some (s', ms)
    → Current s' × (s'.func ≡ s.func)
unfolding adjust new_instance
adjust-Current now desired s s' ms h e = elim (Bool-cases (ltb (length s.instances) desired)) [
  | inl few ↦ elim (Option-cases s.func.code_dir) [
    | inl no_code ↦ ground (arith, no_code, few)
    | inr (dir, code) ↦
        let i : Instance = record { id = s.next_id; code_dir = dir } in
        let same : (s'.instances ≡ s.instances ++ i ∷ []) × (s'.func ≡ s.func) = ground arith in
        (
          Runs-eq s.func.code_dir s'.func.code_dir (s.instances ++ i ∷ []) s'.instances
              (ap (λ f. f.code_dir) same.1) same.0
              (All-append (λ j. some j.code_dir ≡ s.func.code_dir) s.instances (i ∷ []) h
                (sym code, tt)),
          same.1,
        )
  ]
  | inr enough ↦ elim (Bool-cases (ltb desired (length s.instances))) [
    | inl many ↦
        let same : (s'.instances ≡ but_last s.instances) × (s'.func ≡ s.func) = ground arith in
        (
          Runs-eq s.func.code_dir s'.func.code_dir (but_last s.instances) s'.instances
              (ap (λ f. f.code_dir) same.1) same.0 (Runs-but_last s.func.code_dir s.instances h),
          same.1,
        )
    | inr right ↦
        let same : (s'.instances ≡ s.instances) × (s'.func ≡ s.func) = ground arith in
        (
          Runs-eq s.func.code_dir s'.func.code_dir s.instances s'.instances
              (ap (λ f. f.code_dir) same.1) same.0 h,
          same.1,
        )
  ]
]

pub scale_step-Current :
    (now : ℕ) (s s' : Task) (ms : List Message)
    → Current s
    → scale_step now s ≡ some (s', ms)
    → Current s'
unfolding scale_step rearm
scale_step-Current now s s' ms h e =
    let d : ℕ = desired_instances s.outstanding_reqs s.exec_ms.avg in
    elim (Bool-cases (may_adjust now s.last_scaling)) [
      | inl ok ↦ elim (Option-cases (adjust now d s)) [
        | inl stuck ↦ ground (arith, stuck, ok)
        | inr ((s1, more), step) ↦
            let same : (s'.instances ≡ s1.instances) × (s'.func ≡ s1.func) =
              ground (arith, step, ok) in
            Runs-eq s1.func.code_dir s'.func.code_dir s1.instances s'.instances
              (ap (λ f. f.code_dir) same.1) same.0 (adjust-Current now d s s1 more h step).0
      ]
      | inr early ↦
          let same : (s'.instances ≡ s.instances) × (s'.func ≡ s.func) = ground (arith, early) in
          Runs-eq s.func.code_dir s'.func.code_dir s.instances s'.instances
            (ap (λ f. f.code_dir) same.1) same.0 h
    ]

pub retire-Current : (old : Option ℕ) (s : Task) → Runs old s.instances → Current (retire old s).0
unfolding retire
retire-Current old s h = elim (Bool-cases (is_other old s.func.code_dir)) [
  | inl other ↦ rw other tt
  | inr same ↦
      rw same
        (elim (Runs-switch old s.func.code_dir s.instances same h) [ inl k ↦ k | inr bad ↦ cc ])
]

pub dispatch-Current : (room : Bool) (s : Task) → Current s → Current (dispatch room s).0
unfolding dispatch
dispatch-Current true s h = h
dispatch-Current false s h = h
