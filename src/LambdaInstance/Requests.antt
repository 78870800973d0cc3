-- ===== src/LambdaInstance/Requests.antt =====
-- What becomes of the requests that an instance takes from the queue.
use open_lambda.Prelude.{
  ℕ, ◌+◌, ◌≤◌, ◌≡◌, ◌⊎◌, inl, inr, refl, ◌∙◌, ap, ◌&&◌, true, false, List, [], ◌∷◌, ◌++◌,
  append_assoc, append-nil, none, some, arith, count, count-append, Option-cases,
}
use open_lambda.LambdaInstance.{
  Settings, State, waiting, serving, stopped, Input, Effect, took, done, created, unpaused, paused,
  destroyed, discarded, acknowledged, kill, create, start_new, make_ready, after_request,
  next_round, serve, step, run,
}

-- The requests that were taken, and those that were replied to, in order.
abbrev pub taken : List Effect → List ℕ
taken [] = []
taken (took r ∷ es) = r ∷ taken es
taken (_ ∷ es) = taken es

abbrev pub replied : List Effect → List ℕ
replied [] = []
replied (done r ∷ es) = r ∷ replied es
replied (_ ∷ es) = replied es

-- The request that is being served.
abbrev pub current : State → List ℕ
current (serving b r) = r ∷ []
current _ = []

-- Where the sandbox is gone after a request, there is no request left in the queue, or the instance is
-- killed.
abbrev pub KeepsNext : Settings → Input → State → Type 0
KeepsNext c i (serving b r) =
    (c.reuse_sandbox && i.trip_ok ≡ true) ⊎ ((i.killed ≡ true) ⊎ (i.next ≡ none))
KeepsNext c i _ = Unit

step_requests :
    (c : Settings) (i : Input) (s s' : State) (es : List Effect)
    → KeepsNext c i s
    → step c i s ≡ some (s', es)
    → current s ++ taken es ≡ replied es ++ current s'
unfolding step make_ready serve kill create start_new after_request next_round
step_requests c i (waiting none) s' es h e = ground arith
step_requests c i (waiting (some b)) s' es h e = ground arith
step_requests c i (serving b r) s' es h e = ground arith
step_requests c i stopped s' es h e = ground arith

taken-append : (es fs : List Effect) → taken (es ++ fs) ≡ taken es ++ taken fs
taken-append [] fs = refl
taken-append (took r ∷ es) fs = ap (λ l. r ∷ l) (taken-append es fs)
taken-append (done r ∷ es) fs = taken-append es fs
taken-append (created b ∷ es) fs = taken-append es fs
taken-append (unpaused b ∷ es) fs = taken-append es fs
taken-append (paused b ∷ es) fs = taken-append es fs
taken-append (destroyed b ∷ es) fs = taken-append es fs
taken-append (discarded b ∷ es) fs = taken-append es fs
taken-append (acknowledged ∷ es) fs = taken-append es fs

replied-append : (es fs : List Effect) → replied (es ++ fs) ≡ replied es ++ replied fs
replied-append [] fs = refl
replied-append (took r ∷ es) fs = replied-append es fs
replied-append (done r ∷ es) fs = ap (λ l. r ∷ l) (replied-append es fs)
replied-append (created b ∷ es) fs = replied-append es fs
replied-append (unpaused b ∷ es) fs = replied-append es fs
replied-append (paused b ∷ es) fs = replied-append es fs
replied-append (destroyed b ∷ es) fs = replied-append es fs
replied-append (discarded b ∷ es) fs = replied-append es fs
replied-append (acknowledged ∷ es) fs = replied-append es fs

-- Each step of a run keeps the next request, where it comes.
abbrev pub Keeps : Settings → List Input → State → Type 0
Keeps c [] s = Unit
Keeps c (i ∷ is) s =
    KeepsNext c i s × (elim (step c i s) [ none ↦ Unit | some (s', es) ↦ Keeps c is s' ])

-- A run is its first step and the rest.
pub run_cons :
    (c : Settings) (i : Input) (is : List Input) (s t : State) (es : List Effect)
    → run c (i ∷ is) s ≡ some (t, es)
    → (u : State) × (fs gs : List Effect) × (step c i s ≡ some (u, fs))
      × (run c is u ≡ some (t, gs))
      × (es ≡ fs ++ gs)
unfolding run
run_cons c i is s t es e = elim (Option-cases (step c i s)) [
  | inl stuck ↦ ground (arith, stuck)
  | inr ((u, fs), first) ↦ elim (Option-cases (run c is u)) [
    | inl stuck ↦ ground (arith, stuck, first)
    | inr ((v, gs), rest) ↦
        let same : (v ≡ t) × (es ≡ fs ++ gs) = ground (arith, first, rest) in
        (u, fs, gs, first, rest ∙ ap (λ x. some (x, gs)) same.0, same.1)
  ]
]

run_nil :
    (c : Settings) (s t : State) (es : List Effect)
    → run c [] s ≡ some (t, es)
    → (s ≡ t) × (es ≡ [])
unfolding run
run_nil c s t es e = ground arith

shuffle :
    (cs f g rf rg u t : List ℕ)
    → cs ++ f ≡ rf ++ u
    → u ++ g ≡ rg ++ t
    → cs ++ (f ++ g) ≡ (rf ++ rg) ++ t
shuffle cs f g rf rg u t h k =
    cc (append_assoc cs f g, append_assoc rf u g, append_assoc rf rg t, h, k)

-- While no request is left in the queue whenever the sandbox of a request that ends is gone, and
-- nothing panics, the requests are replied to in the order in which they were taken, each once, but for
-- the one that is being served.
pub run_replies :
    (c : Settings) (is : List Input) (s t : State) (es : List Effect)
    → Keeps c is s
    → run c is s ≡ some (t, es)
    → current s ++ taken es ≡ replied es ++ current t
run_replies c [] s t es h e =
    let (same, none_yet) = run_nil c s t es e in rw (none_yet, same) (append-nil (current t))
run_replies c (i ∷ is) s t es (h, k) e =
    let (u, fs, gs, first, rest, es_eq) = run_cons c i is s t es e in
    let one = step_requests c i s u fs h first in
    let more = run_replies c is u t gs (rw first at k) rest in
    rw (es_eq, taken-append fs gs, replied-append fs gs)
      (shuffle (current s) (taken fs) (taken gs) (replied fs) (replied gs) (current u) (current t)
        one more)

step-replied :
    (c : Settings) (i : Input) (s s' : State) (es : List Effect) (j : ℕ)
    → step c i s ≡ some (s', es)
    → count j (replied es) + count j (current s') ≤ count j (current s) + count j (taken es)
unfolding step make_ready serve kill create start_new after_request next_round
step-replied c i (waiting none) s' es j e = ground arith
step-replied c i (waiting (some b)) s' es j e = ground arith
step-replied c i (serving b r) s' es j e = ground arith
step-replied c i stopped s' es j e = ground arith

run-replied :
    (c : Settings) (is : List Input) (s t : State) (es : List Effect) (j : ℕ)
    → run c is s ≡ some (t, es)
    → count j (replied es) + count j (current t) ≤ count j (current s) + count j (taken es)
run-replied c [] s t es j e =
    let (same, none_yet) = run_nil c s t es e in rw (none_yet, same) (omega arith)
run-replied c (i ∷ is) s t es j e =
    let (u, fs, gs, first, rest, es_eq) = run_cons c i is s t es e in
    let one = step-replied c i s u fs j first in
    let more = run-replied c is u t gs j rest in
    rw (es_eq, taken-append fs gs, replied-append fs gs)
      (omega (
        arith,
        one,
        more,
        count-append j (taken fs) (taken gs),
        count-append j (replied fs) (replied gs),
      ))

-- Where sandboxes are not reused, the request that an instance takes after another one is lost: the
-- instance waits for a new one, and in no later run is there a reply to the lost one, unless it comes
-- again.
pub next_lost :
    (c : Settings) (i : Input) (b r lost : ℕ) (is : List Input) (t : State) (es : List Effect)
    → c.reuse_sandbox ≡ false
    → i.killed ≡ false
    → i.next ≡ some lost
    → run c is (waiting none) ≡ some (t, es)
    → count lost (taken es) ≡ 0
    → (step c i (serving b r) ≡ some (waiting none, done r ∷ destroyed b ∷ took lost ∷ []))
      × (count lost (replied es) ≡ 0)
unfolding step serve after_request next_round
next_lost c i b r lost is t es reuse alive next e absent =
    (ground arith, omega (arith, run-replied c is (waiting none) t es lost e, absent))
