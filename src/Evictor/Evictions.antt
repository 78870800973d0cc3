-- ===== src/Evictor/Evictions.antt =====
-- One call of `doEvictions` (go/worker/sandbox/evictors.go): its bounds, and whom it kills.
use Prim.Native.Nat.{min}
use open_lambda.Prelude.{
  ℕ, ◌+◌, ◌-◌, ◌*◌, ◌/◌, ◌≤◌, ◌<◌, ◌≡◌, ◌≢◌, ◌∙◌, ap, ◌⊎◌, inl, inr, true, List, [], ◌++◌, some,
  arith, dec_lt, length, length-append, All,
}
use open_lambda.Prelude.Int.{pos}
use open_lambda.Evictor.{Evictor, Kill, concurrent_evictions, evict, do_evictions}
use open_lambda.Evictor.Queues.{Inv}
use open_lambda.Evictor.Policy.{victims, IsGentle}
use open_lambda.Evictor.Kills.{
  Eviction, length-victims, evict-Eviction, length-pos, do_evictions-evict,
}

module _ (total limit available : ℕ) (e : Evictor) (limit_pos : 0 < limit) (v : Inv e) where
  abbrev free : ℕ
  free = available / limit

  abbrev goal : ℕ
  goal = 1 + (total / limit - 2) * 20 / 100

  result : Evictor × List Kill
  result = evict free (pos goal) e

  runs : do_evictions total limit available e ≡ some result
  unfolding result
  runs = do_evictions-evict total limit available e limit_pos

  facts : Eviction free goal e result.0 result.1
  unfolding result
  facts = evict-Eviction free goal e v

  lengths :
      length result.0.evicting_list
      ≡ length e.evicting_list + length facts.gently + length facts.forcibly
  lengths = omega (
    arith,
    ap length facts.joined,
    length-append e.evicting_list (victims result.1),
    length-victims result.1,
    ap length facts.parts,
    length-append facts.gently facts.forcibly,
  )

  quiet : 0 < length facts.forcibly → length e.evicting_list + length facts.gently ≡ 0
  quiet h = omega (
    arith,
    ap length (facts.emergency h).1,
    length-append e.evicting_list (victims facts.gently),
    length-victims facts.gently,
  )

  -- With a positive limit the call does not fault. It keeps the invariant of the queues, never
  -- touches the queue of the sandboxes with children, kills only sandboxes of priority 0 or 1, and
  -- puts the victims, in order, behind those that were being evicted already.
  pub do_evictions_spares :
      (e' : Evictor) × (ks : List Kill) × (do_evictions total limit available e ≡ some (e', ks))
      × Inv e'
      × (e'.parents_list ≡ e.parents_list)
      × All (λ k. e.priority k.victim ≤ 1) ks
      × (e'.evicting_list ≡ e.evicting_list ++ victims ks)
  do_evictions_spares = (result.0, result.1, runs, facts.inv, facts.spared, facts.low, facts.joined)

  -- The kills are gentle ones, of idle sandboxes without children, and then at most one forced one,
  -- of a running sandbox without children. The gentle ones are exactly as many as are missing from
  -- one sandbox plus a fifth of those that fit in excess of two, up to the room for 8 kills at once
  -- and up to the idle sandboxes that there are. A forced one comes only when there is no room for a
  -- sandbox, no kill was under way and no sandbox was idle.
  pub do_evictions_policy :
      (e' : Evictor) × (gently : List Kill) × (forcibly : List Kill) × (do_evictions total limit
          available e
        ≡ some (e', gently ++ forcibly))
      × All (IsGentle e.priority) gently
      × All (λ k. (k.force ≡ true) × (e.priority k.victim ≡ 1)) forcibly
      × (length gently
          ≡ min
              (min
                (1 + (total / limit - 2) * 20 / 100 - available / limit)
                (8 - length e.evicting_list))
              (length e.idle_list))
      × ((length forcibly ≡ 0)
          ⊎ ((length forcibly ≡ 1)
              × (available / limit ≡ 0)
              × (length e.evicting_list ≡ 0)
              × (length e.idle_list ≡ 0)))
  do_evictions_policy = (
    result.0,
    facts.gently,
    facts.forcibly,
    runs ∙ ap (λ ks. some (result.0, ks)) facts.parts,
    facts.gentle,
    facts.forced,
    facts.number,
    elim (dec_lt 0 (length facts.forcibly)) [
      | yes h ↦ inr (
        omega (arith, facts.one),
        (facts.emergency h).0,
        omega (arith, quiet h),
        omega (arith, quiet h, (facts.emergency h).0, facts.number),
      )
      | no h ↦ inl (omega arith)
    ],
  )

  -- The kills under way never exceed 8 if they did not before.
  pub do_evictions_bound :
      length e.evicting_list ≤ concurrent_evictions
      → (e' : Evictor) × (ks : List Kill) × (do_evictions total limit available e ≡ some (e', ks))
        × (length e'.evicting_list ≤ concurrent_evictions)
  do_evictions_bound h = (
    result.0,
    result.1,
    runs,
    elim (dec_lt 0 (length facts.forcibly)) [
      | yes forced ↦ omega (arith, lengths, quiet forced, facts.one)
      | no gentle ↦ omega (arith, lengths, facts.number)
    ],
  )

  -- The system keeps moving: when there is no room for a sandbox and some sandbox without children
  -- is left, a kill is under way after the call.
  pub do_evictions_progress :
      available / limit ≡ 0
      → (e.idle_list ≢ []) ⊎ (e.running_list ≢ [])
      → (e' : Evictor) × (ks : List Kill) × (do_evictions total limit available e ≡ some (e', ks))
        × (0 < length e'.evicting_list)
  do_evictions_progress z (inl some_idle) = (
    result.0,
    result.1,
    runs,
    omega (arith, lengths, z, facts.number, length-pos e.idle_list some_idle),
  )
  do_evictions_progress z (inr some_running) =
      (result.0, result.1, runs, facts.needed z some_running)
