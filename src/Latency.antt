-- ===== src/Latency.antt =====
-- go/common/stats.go: the statistics of latencies that the whole process shares. Names are numbers, and
-- times are nanoseconds; the zero time is `none`. The sums are below 2 ^ 63.
mod Averages
mod Tests
use open_lambda.Prelude.{
  ℕ, suc, ◌+◌, ◌-◌, ◌*◌, ◌/◌, ◌^◌, Bool, List, [], ◌∷◌, Option, none, some, if◌then◌else◌, ltb, leb,
  ◌==◌,
}

-- What `msCounts` and `msSums` hold for a name.
pub record Tally : Type 0 where
  pub name : ℕ
  pub ms_count : ℕ
  pub ms_sum : ℕ

-- One message of `record`.
abbrev pub add_latency : ℕ → ℕ → List Tally → List Tally
add_latency name x [] = record { name = name; ms_count = 1; ms_sum = x } ∷ []
add_latency name x (t ∷ ts) =
    let rest = add_latency name x ts in
    if t.name == name
    then record t { ms_count = suc t.ms_count; ms_sum = t.ms_sum + x } ∷ ts
    else t ∷ rest

-- An entry of the answer: the name, `.cnt`, and `.ms-avg`; `none` is the panic of a division by 0.
abbrev pub with_average : ℕ → ℕ → ℕ → Option (List (ℕ × ℕ × ℕ)) → Option (List (ℕ × ℕ × ℕ))
with_average name count sum none = none
with_average name count sum (some s) =
    if count == 0 then none else some ((name, count, sum / count) ∷ s)

unfoldable pub snapshot_stats : List Tally → Option (List (ℕ × ℕ × ℕ))
snapshot_stats [] = some []
snapshot_stats (t ∷ ts) = with_average t.name t.ms_count t.ms_sum (snapshot_stats ts)

-- The messages that the task receives, in order.
unfoldable pub stats_task : List (ℕ × ℕ) → List Tally → List Tally
stats_task [] ts = ts
stats_task ((name, x) ∷ ms) ts = stats_task ms (add_latency name x ts)

pub record Latency : Type 0 where
  pub name : ℕ
  pub start : Option ℕ
  pub milliseconds : ℕ

abbrev pub t0 : ℕ → ℕ → Latency
t0 name now = record { name = name; start = some now; milliseconds = 0 }

-- A duration of Go is at most 2 ^ 63 - 1 nanoseconds, which `Sub` returns for the zero time.
abbrev pub max_duration_ms : ℕ
max_duration_ms = 9223372036854

-- The latency and the messages that were sent.
pub data Timed : Type 0 where
  timed : Latency → List (ℕ × ℕ) → Timed
  panics : List (ℕ × ℕ) → Timed

abbrev pub measured : Latency → ℕ → List (ℕ × ℕ) → Timed
measured l ms sent = timed (record l { start = none; milliseconds = ms }) ((l.name, ms) ∷ sent)

abbrev pub t1_from : Option ℕ → ℕ → Latency → List (ℕ × ℕ) → Timed
t1_from none now l sent = panics ((l.name, max_duration_ms) ∷ sent)
t1_from (some start) now l sent =
    if leb (start + 2 ^ 63) now
    then measured l max_duration_ms sent
    else if leb (now + 1000000) start
    then panics sent
    else measured l ((now - start) / 1000000) sent

unfoldable pub t1 : ℕ → Latency → List (ℕ × ℕ) → Timed
t1 now l sent = t1_from l.start now l sent
