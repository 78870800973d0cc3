-- ===== src/Latency/Averages.antt =====
-- go/common/stats.go: what a snapshot shows.
use open_lambda.Prelude.{
  ℕ, suc, ◌+◌, ◌/◌, ◌<◌, ◌≡◌, refl, ap, ◌∙◌, false, List, [], ◌∷◌, Option, none, some, arith,
  if◌then◌else◌, ◌==◌, Bool-cases, inl, inr, All,
}
use open_lambda.Latency.{
  Tally, add_latency, snapshot_stats, stats_task, Latency, timed, panics, t1_from, t1, t0,
  max_duration_ms,
}

-- How many messages have the name, and the sum of their latencies.
abbrev pub messages_of : ℕ → List (ℕ × ℕ) → ℕ
messages_of k [] = 0
messages_of k ((n, x) ∷ ms) = let rest = messages_of k ms in if n == k then suc rest else rest

abbrev pub sum_of : ℕ → List (ℕ × ℕ) → ℕ
sum_of k [] = 0
sum_of k ((n, x) ∷ ms) = let rest = sum_of k ms in if n == k then x + rest else rest

-- What a snapshot shows for a name.
abbrev pub shown : ℕ → List (ℕ × ℕ × ℕ) → Option (ℕ × ℕ)
shown k [] = none
shown k ((n, count, average) ∷ s) =
    let rest = shown k s in if n == k then some (count, average) else rest

abbrev count_in : ℕ → List Tally → ℕ
count_in k [] = 0
count_in k (t ∷ ts) = let rest = count_in k ts in if t.name == k then t.ms_count else rest

abbrev sum_in : ℕ → List Tally → ℕ
sum_in k [] = 0
sum_in k (t ∷ ts) = let rest = sum_in k ts in if t.name == k then t.ms_sum else rest

-- No tally of a name is empty.
abbrev Counted : Tally → Type 0
Counted t = 0 < t.ms_count

count_in-add_latency :
    (k n x : ℕ) (ts : List Tally)
    → (count_in k (add_latency n x ts) ≡ (if n == k then suc (count_in k ts) else count_in k ts))
      × (sum_in k (add_latency n x ts) ≡ (if n == k then sum_in k ts + x else sum_in k ts))
count_in-add_latency k n x [] = (ground arith, ground arith)
count_in-add_latency k n x (t ∷ ts) =
    let (counts, sums) = count_in-add_latency k n x ts in
    (ground (arith, counts), ground (arith, sums))

add_latency-Counted :
    (n x : ℕ) (ts : List Tally) → All Counted ts → All Counted (add_latency n x ts)
add_latency-Counted n x [] h = (omega arith, tt)
add_latency-Counted n x (t ∷ ts) (h, hs) = elim (Bool-cases (t.name == n)) [
  | inl same ↦ rw same (omega arith, hs)
  | inr other ↦ rw other (h, add_latency-Counted n x ts hs)
]

stats_task-in :
    (k : ℕ) (ms : List (ℕ × ℕ)) (ts : List Tally)
    → All Counted ts
    → All Counted (stats_task ms ts)
      × (count_in k (stats_task ms ts) ≡ count_in k ts + messages_of k ms)
      × (sum_in k (stats_task ms ts) ≡ sum_in k ts + sum_of k ms)
unfolding stats_task
stats_task-in k [] ts h = (h, omega arith, omega arith)
stats_task-in k ((n, x) ∷ ms) ts h =
    let (all, counts, sums) =
      stats_task-in k ms (add_latency n x ts) (add_latency-Counted n x ts h) in
    let (one, more) = count_in-add_latency k n x ts in
    (all, ground (arith, counts, one), ground (arith, sums, more))

-- What a tally shows.
abbrev average_of : ℕ → ℕ → Option (ℕ × ℕ)
average_of count sum = if count == 0 then none else some (count, sum / count)

snapshot_stats-shown :
    (k : ℕ) (ts : List Tally)
    → All Counted ts
    → (s : List (ℕ × ℕ × ℕ)) × (snapshot_stats ts ≡ some s)
      × (shown k s ≡ average_of (count_in k ts) (sum_in k ts))
unfolding snapshot_stats
snapshot_stats-shown k [] h = ([], refl, refl)
snapshot_stats-shown k (t ∷ ts) (h, hs) =
    let (s, done, shows) = snapshot_stats-shown k ts hs in
    let some_count : t.ms_count == 0 ≡ false = ground (arith, h) in
    (
      (t.name, t.ms_count, t.ms_sum / t.ms_count) ∷ s,
      rw (done, some_count) refl,
      elim (Bool-cases (t.name == k)) [
        | inl same ↦ rw (same, some_count) refl
        | inr other ↦ rw other shows
      ],
    )

-- A snapshot after any messages divides by no zero. It shows for a name how many latencies were
-- recorded under it and their sum divided by that number, and nothing for a name without a latency.
pub snapshot_stats-stats_task :
    (k : ℕ) (ms : List (ℕ × ℕ))
    → (s : List (ℕ × ℕ × ℕ)) × (snapshot_stats (stats_task ms []) ≡ some s)
      × (shown k s ≡ (
          if messages_of k ms == 0
          then none
          else some (messages_of k ms, sum_of k ms / messages_of k ms)))
snapshot_stats-stats_task k ms =
    let (all, counts, sums) = stats_task-in k ms [] tt in
    let (s, done, shows) = snapshot_stats-shown k (stats_task ms []) all in
    let count : count_in k (stats_task ms []) ≡ messages_of k ms = omega (arith, counts) in
    let sum : sum_in k (stats_task ms []) ≡ sum_of k ms = omega (arith, sums) in
    (
      s,
      done,
      shows
          ∙ ap (λ (n : ℕ). average_of n (sum_in k (stats_task ms []))) count
          ∙ ap (average_of (messages_of k ms)) sum,
    )

-- A latency that was measured has no start any more.
t1_lem :
    (n start now : ℕ) (sent : List (ℕ × ℕ)) (l : Latency) (sent' : List (ℕ × ℕ))
    → t1 now (t0 n start) sent ≡ timed l sent'
    → (l.start ≡ none) × (l.name ≡ n)
unfolding t1
t1_lem n start now sent l sent' e = (ground (arith, e), ground (arith, e))

t1-none :
    (n now : ℕ) (sent : List (ℕ × ℕ)) (l : Latency)
    → l.start ≡ none
    → l.name ≡ n
    → t1 now l sent ≡ panics ((n, max_duration_ms) ∷ sent)
unfolding t1
t1-none n now sent l e f =
    ap (λ (o : Option ℕ). t1_from o now l sent) e
    ∙ ap (λ (k : ℕ). panics ((k, max_duration_ms) ∷ sent)) f

-- A latency that is measured a second time panics, but only after a second message was sent, with the
-- longest duration there is, which counts in the sum of its name.
pub t1_twice :
    (n start now now' : ℕ) (sent : List (ℕ × ℕ)) (l : Latency) (sent' : List (ℕ × ℕ))
    → t1 now (t0 n start) sent ≡ timed l sent'
    → (sent'' : List (ℕ × ℕ)) × (t1 now' l sent' ≡ panics sent'')
      × (messages_of n sent'' ≡ suc (messages_of n sent'))
      × (sum_of n sent'' ≡ max_duration_ms + sum_of n sent')
t1_twice n start now now' sent l sent' e =
    let (no_start, name) = t1_lem n start now sent l sent' e in
    ((n, max_duration_ms) ∷ sent', t1-none n now' sent' l no_start name, ground arith, ground arith)
