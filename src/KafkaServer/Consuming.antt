-- ===== src/KafkaServer/Consuming.antt =====
-- The loop of a consumer (`consumeLoop`, `processMessage`) over the client with the cache. What the
-- client underneath fetches and what the function replies are arguments of a round. A reply is read as
-- the offset that its header asks for, which is no negative number; `none` is a reply without a header,
-- or with one that is no number. `none` as a result is a panic of the client.
use open_lambda.Prelude.{
  ℕ, suc, Bool, true, false, List, [], ◌∷◌, ◌++◌, Option, none, some, if◌then◌else◌,
}
use open_lambda.KafkaCache.{CacheKey, Client, Call, seek_to, fetched, Poll, seek, poll_fetches}

pub record Loop (Rec : Type 0) : Type 0 where
  pub client : Client Rec
  pub error_count : ℕ

-- An error of a fetch is a timeout or another one. `request_ok` says that the request for a record can
-- be made.
pub record Round (Rec : Type 0) : Type 0 where
  pub stop : Bool
  pub records : List Rec
  pub timeouts : List Bool
  pub request_ok : Rec → Bool
  pub reply : Rec → Option ℕ

-- Errors come from the client underneath, if it was asked.
abbrev pub errors_of : List Bool → List Call → List Bool
errors_of errs [] = []
errors_of errs (fetched ∷ calls) = errs
errors_of errs (seek_to key ∷ calls) = errors_of errs calls

abbrev pub count_errors : List Bool → ℕ → ℕ
count_errors [] n = n
count_errors (true ∷ errs) n = count_errors errs n
count_errors (false ∷ errs) n = count_errors errs (suc n)

-- The records with which the function is invoked, and the client.
abbrev pub Served : Type 0 → Type 0
Served Rec = Client Rec × List Rec

module _ {Rec : Type 0} (key_of : Rec → CacheKey) where
  abbrev pub then_invoked : Rec → Served Rec → Served Rec
  then_invoked r (c, rs) = (c, r ∷ rs)

  abbrev pub sought : Rec → ℕ → CacheKey
  sought r offset = record (key_of r) { offset = offset }

  -- The loop over the records of a fetch, which a seek leaves.
  unfoldable pub process : (Rec → Bool) → (Rec → Option ℕ) → List Rec → Client Rec → Served Rec
  process request_ok reply [] c = (c, [])
  process request_ok reply (r ∷ rs) c =
      let rest = process request_ok reply rs c in
      if request_ok r
      then (elim (reply r) [
        | some offset ↦ (seek (sought r offset) c, r ∷ [])
        | none ↦ then_invoked r rest
      ])
      else rest

  abbrev pub on_errors :
      Loop Rec → Client Rec → List Rec → Round Rec → List Bool → Loop Rec × List Rec
  on_errors s c got i [] =
      let (c', invoked) = process i.request_ok i.reply got c in (record s { client = c' }, invoked)
  on_errors s c got i (err ∷ errs) =
      (record { client = c; error_count = count_errors (err ∷ errs) s.error_count }, [])

  abbrev pub on_poll : Loop Rec → Round Rec → Option (Poll Rec) → Option (Loop Rec × List Rec)
  on_poll s i none = none
  on_poll s i (some (c, got, calls)) = some (on_errors s c got i (errors_of i.timeouts calls))

  abbrev pub then_more : List Rec → Option (Loop Rec × List Rec) → Option (Loop Rec × List Rec)
  then_more rs none = none
  then_more rs (some (s, rs')) = some (s, rs ++ rs')

  abbrev pub and_then :
      (Loop Rec → Option (Loop Rec × List Rec))
      → Option (Loop Rec × List Rec)
      → Option (Loop Rec × List Rec)
  and_then f none = none
  and_then f (some (s, rs)) = then_more rs (f s)

  unfoldable pub consume_loop : List (Round Rec) → Loop Rec → Option (Loop Rec × List Rec)
  consume_loop [] s = some (s, [])
  consume_loop (i ∷ is) s =
      let round = on_poll s i (poll_fetches key_of i.records s.client) in
      if i.stop then some (s, []) else and_then (consume_loop is) round
