-- ===== src/LambdaInstance.antt =====
-- go/worker/lambda/lambdaInstance.go: the task of an instance, which serves requests with one sandbox
-- at a time. A step goes from one wait to the next: a request or a kill that it waits for, or a round
-- of the loop that serves. A sandbox and a request are known by numbers.
pub mod Requests
pub mod Sandboxes
mod Tests
use open_lambda.Prelude.{ℕ, Bool, true, false, List, [], ◌∷◌, ◌++◌, Option, none, some}

pub record Settings : Type 0 where
  pub reuse_sandbox : Bool
  pub has_zygotes : Bool  -- a Zygote provider, and Python code

pub data State : Type 0 where
  waiting : Option ℕ → State  -- for a request or a kill, with the sandbox
  serving : ℕ → ℕ → State  -- a sandbox, and the request that it serves
  stopped : State

-- What the task finds and what its calls answer in a step; a step reads what it asks for.
pub record Input : Type 0 where
  pub wake : Option ℕ  -- the request that it waited for, or a kill
  pub unpause_ok : Bool
  pub from_zygote : Option ℕ
  pub from_pool : Option ℕ
  pub trip_ok : Bool  -- `Do`, or the request could not be made and the sandbox is not asked
  pub killed : Bool
  pub next : Option ℕ  -- what is left in the queue
  pub pause_ok : Bool

-- `done` is the reply to the client together with the message on `doneChan`. A sandbox is discarded
-- when a pause or an unpause of it fails, which has killed it.
pub data Effect : Type 0 where
  took done : ℕ → Effect
  created unpaused paused destroyed discarded : ℕ → Effect
  acknowledged : Effect

abbrev pub Outcome : Type 0
Outcome = State × List Effect

-- A kill, while it waits or after a request.
unfoldable pub kill : Option ℕ → Outcome
kill none = (stopped, acknowledged ∷ [])
kill (some b) = (stopped, destroyed b ∷ acknowledged ∷ [])

-- A sandbox from the Zygotes, or else from the pool.
unfoldable pub create : Settings → Input → Option ℕ
create c i = elim c.has_zygotes [
  | false ↦ i.from_pool
  | true ↦ elim i.from_zygote [ some b ↦ some b | none ↦ i.from_pool ]
]

unfoldable pub start_new : Option ℕ → ℕ → Outcome
start_new none r = (waiting none, done r ∷ [])
start_new (some b) r = (serving b r, created b ∷ [])

-- A sandbox for a request: the old one if it can be unpaused, or a new one.
unfoldable pub make_ready : Settings → Input → Option ℕ → ℕ → Outcome
unfolding create start_new
make_ready c i none r = start_new (create c i) r
make_ready c i (some b) r = elim i.unpause_ok [
  | true ↦ (serving b r, unpaused b ∷ [])
  | false ↦ let (s, es) = start_new (create c i) r in (s, discarded b ∷ es)
]

-- The sandbox after a request, and what became of it.
unfoldable pub after_request : Settings → Bool → ℕ → Option ℕ × List Effect
after_request c true b = elim c.reuse_sandbox [
  | true ↦ (some b, [])
  | false ↦ (none, destroyed b ∷ [])
]
after_request c false b = (none, destroyed b ∷ [])

abbrev pub took_next : Option ℕ → List Effect
took_next none = []
took_next (some r) = took r ∷ []

-- The end of a round: the next request if there is one, and else a pause. Where the sandbox is gone,
-- the loop is left, with the next request already taken.
unfoldable pub next_round : Settings → Input → Option ℕ → Option Outcome
next_round c i none = some (waiting none, took_next i.next)
next_round c i (some b) = elim i.next [
  | some r ↦ some (serving b r, took r ∷ [])
  | none ↦ elim c.reuse_sandbox [
    | false ↦ none
    | true ↦ elim i.pause_ok [
      | true ↦ some (waiting (some b), paused b ∷ [])
      | false ↦ some (waiting none, discarded b ∷ [])
    ]
  ]
]

abbrev pub prefix : List Effect → Option Outcome → Option Outcome
prefix es none = none
prefix es (some (s, fs)) = some (s, es ++ fs)

unfoldable pub serve : Settings → Input → ℕ → ℕ → Option Outcome
unfolding after_request next_round kill
serve c i b r =
    let (sb, gone) = after_request c i.trip_ok b in
    prefix (done r ∷ gone) (elim i.killed [ true ↦ some (kill sb) | false ↦ next_round c i sb ])

-- `none` is the panic on a sandbox that is left although sandboxes are not reused.
unfoldable pub step : Settings → Input → State → Option Outcome
unfolding make_ready serve kill
step c i (waiting sb) = elim i.wake [
  | none ↦ some (kill sb)
  | some r ↦ prefix (took r ∷ []) (some (make_ready c i sb r))
]
step c i (serving b r) = serve c i b r
step c i stopped = some (stopped, [])

unfoldable pub run : Settings → List Input → State → Option Outcome
run c [] s = some (s, [])
run c (i ∷ is) s = elim (step c i s) [ none ↦ none | some (s', es) ↦ prefix es (run c is s') ]
