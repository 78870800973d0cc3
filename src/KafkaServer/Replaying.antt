-- ===== src/KafkaServer/Replaying.antt =====
-- What a consumer does with the records of a fetch, and its seeks through the cache.
use open_lambda.Prelude.{
  ℕ, ◌≡◌, refl, ◌∙◌, ap, Bool, true, false, ◌⊎◌, inl, inr, List, [], ◌∷◌, ◌++◌, Option, none, some,
  arith, length, All, Option-cases,
}
use open_lambda.KafkaCache.{CacheKey, Client, Call, seek, poll_fetches, touch_lru, next_offset}
use open_lambda.KafkaCache.Invariant.{poll_hit}
use open_lambda.KafkaCache.Replay.{Cached}
use open_lambda.KafkaServer.Consuming.{
  Loop, Round, errors_of, Served, then_invoked, sought, process, on_errors, on_poll, consume_loop,
}

-- A round of a consumer that goes on, whose requests can be made and whose function asks for no seek.
abbrev pub Quiet : {Rec : Type 0} → Round Rec → Type 0
Quiet {Rec} i = (i.stop ≡ false) × ((r : Rec) → (i.request_ok r ≡ true) × (i.reply r ≡ none))

module _ {Rec : Type 0} (key_of : Rec → CacheKey) where
  -- How the records of a fetch were served: all of them, or those up to one whose reply asks for a seek.
  abbrev pub ServedAs : (Rec → Option ℕ) → List Rec → Client Rec → Served Rec → Type 0
  ServedAs reply got c (c', invoked) =
      (rest : List Rec) × (got ≡ invoked ++ rest)
      × (((rest ≡ []) × (c' ≡ c))
          ⊎ ((before : List Rec) × (r : Rec) × (offset : ℕ) × (invoked ≡ before ++ r ∷ [])
              × (reply r ≡ some offset)
              × (c' ≡ seek (sought key_of r offset) c)))

  then_invoked-ServedAs :
      (reply : Rec → Option ℕ) (r : Rec) (got : List Rec) (c : Client Rec) (served : Served Rec)
      → ServedAs reply got c served
      → ServedAs reply (r ∷ got) c (then_invoked key_of r served)
  then_invoked-ServedAs reply r got c (c', invoked) (rest, split, how) = (
    rest,
    ap (λ l. r ∷ l) split,
    elim how [
      | inl all ↦ inl all
      | inr (before, last, offset, is_last, asked, same) ↦
          inr (r ∷ before, last, offset, ap (λ l. r ∷ l) is_last, asked, same)
    ],
  )

  -- Where a request can be made for every record, the function is invoked with the records of a fetch in
  -- order, each once: with all of them, or up to the first whose reply asks for a seek, which is done.
  pub process-ServedAs :
      (request_ok : Rec → Bool) (reply : Rec → Option ℕ) (got : List Rec) (c : Client Rec)
      → ((r : Rec) → request_ok r ≡ true)
      → ServedAs reply got c (process key_of request_ok reply got c)
  unfolding process
  process-ServedAs request_ok reply [] c ok = ([], refl, inl (refl, refl))
  process-ServedAs request_ok reply (r ∷ rs) c ok = elim (Option-cases (reply r)) [
    | inl quiet ↦
        rw (ok r, quiet)
          (then_invoked-ServedAs reply r rs c (process key_of request_ok reply rs c)
            (process-ServedAs request_ok reply rs c ok))
    | inr (offset, asked) ↦ rw (ok r, asked) (rs, refl, inr ([], r, offset, refl, asked, refl))
  ]

  process_one :
      (i : Round Rec) (r : Rec) (c : Client Rec)
      → Quiet i
      → process key_of i.request_ok i.reply (r ∷ []) c ≡ (c, r ∷ [])
  unfolding process
  process_one i r c (goes_on, quiet) = let (ok, silent) = quiet r in rw (ok, silent) refl

  loop_next :
      (i : Round Rec) (is : List (Round Rec)) (s s' t : Loop Rec) (rs more : List Rec)
      → i.stop ≡ false
      → on_poll key_of s i (poll_fetches key_of i.records s.client) ≡ some (s', rs)
      → consume_loop key_of is s' ≡ some (t, more)
      → consume_loop key_of (i ∷ is) s ≡ some (t, rs ++ more)
  unfolding consume_loop
  loop_next i is s s' t rs more goes_on now later = rw (goes_on, now, later) refl

  replay :
      (key : CacheKey) (rs : List Rec) (is : List (Round Rec)) (s : Loop Rec)
      → s.client.seek_target ≡ some key
      → Cached key rs s.client.cache
      → length is ≡ length rs
      → All Quiet is
      → (t : Loop Rec) × (consume_loop key_of is s ≡ some (t, rs))
  unfolding consume_loop
  replay key [] [] s target cached len quiet = (s, refl)
  replay key [] (i ∷ is) s target cached len quiet =
      let bad : ⊥ = omega (arith, len) in elim bad [ ]
  replay key (r ∷ rs) [] s target cached len quiet =
      let bad : ⊥ = omega (arith, len) in elim bad [ ]
  replay key (r ∷ rs) (i ∷ is) s target (hit, more) len (q, qs) =
      let c : Client Rec = record s.client {
        evict_order = touch_lru key s.client.evict_order;
        seek_target = some (next_offset key);
      } in
      let s' : Loop Rec = record s { client = c } in
      let (t, later) = replay (next_offset key) rs is s' refl more (omega (arith, len)) qs in
      let now : on_poll key_of s i (poll_fetches key_of i.records s.client) ≡ some (s', r ∷ []) =
        ap (on_poll key_of s i) (poll_hit key_of i.records s.client key r target hit)
        ∙ ap (λ x. some (record s { client = x.0 }, x.1)) (process_one i r c q) in
      (t, loop_next i is s s' t (r ∷ []) rs q.0 now later)

  -- When the reply to the first record of a fetch asks for an offset from which the cache holds records
  -- at consecutive offsets, and the replies to these ask for no seek, the function is invoked next with
  -- them in order, whatever Kafka has in the meantime; the rest of the fetch waits.
  pub loop_replays :
      (i : Round Rec) (is : List (Round Rec)) (s : Loop Rec) (c : Client Rec) (r : Rec)
      (rest rs : List Rec)
      → (calls : List Call) (offset : ℕ)
      → poll_fetches key_of i.records s.client ≡ some (c, r ∷ rest, calls)
      → errors_of i.timeouts calls ≡ []
      → (i.stop ≡ false) × (i.request_ok r ≡ true) × (i.reply r ≡ some offset)
      → Cached (sought key_of r offset) rs c.cache
      → length is ≡ length rs
      → All Quiet is
      → (t : Loop Rec) × (consume_loop key_of (i ∷ is) s ≡ some (t, r ∷ rs))
  unfolding process seek
  loop_replays i is s c r rest rs calls offset polled no_errors (goes_on, ok, asked) cached len
        quiet =
      let s' : Loop Rec = record s { client = seek (sought key_of r offset) c } in
      let (t, later) = replay (sought key_of r offset) rs is s' refl cached len quiet in
      let served : process key_of i.request_ok i.reply (r ∷ rest) c ≡ (s'.client, r ∷ []) =
        rw (ok, asked) refl in
      let now : on_poll key_of s i (poll_fetches key_of i.records s.client) ≡ some (s', r ∷ []) =
        ap (on_poll key_of s i) polled
        ∙ ap (λ errs. some (on_errors key_of s c (r ∷ rest) i errs)) no_errors
        ∙ ap (λ x. some (record s { client = x.0 }, x.1)) served in
      (t, loop_next i is s s' t (r ∷ []) rs goes_on now later)
