-- ===== src/Evictor/Kills.antt =====
-- The parts of one call of `doEvictions` (go/worker/sandbox/evictors.go): the gentle kills and the emergency.
use Prim.Native.Nat.{min}
use open_lambda.Prelude.{
  sym, ℕ, suc, zero, ◌+◌, ◌-◌, ◌*◌, ◌/◌, ◌≤◌, ◌<◌, ◌≡◌, ◌≢◌, refl, ◌∙◌, ap, subst, true, List, [],
  ◌∷◌, ◌++◌, some, arith, length, length-append, All, All-append, All-map,
}
use open_lambda.Prelude.Int.{ℤ, pos, pos_part, ◌+ℤ◌, ◌-ℤ◌, ◌*ℤ◌, quot}
use open_lambda.Evictor.{
  evicting, Evictor, Kill, move, free_goal, evict_count, evict_front, evict_idle, evict_running,
  evict, do_evictions,
}
use open_lambda.Evictor.Queues.{Inv}
use open_lambda.Evictor.Policy.{
  victims, append-victims, Evicts, Evicts-refl, IsGentle, evict_idle-Gentle, evict_front-running,
}

pub goal_of : ℕ → ℤ
goal_of t = pos 1 +ℤ quot ((pos t -ℤ pos 2) *ℤ pos 20) 100

pub goal_of_lem : (t : ℕ) → goal_of t ≡ pos (1 + (t - 2) * 20 / 100)
unfolding goal_of quot ◌+ℤ◌ ◌-ℤ◌ ◌*ℤ◌
goal_of_lem zero = refl
goal_of_lem (suc zero) = refl
goal_of_lem (suc (suc t)) = ground arith

-- One sandbox, and a fifth of those that fit in excess of two; below two, rounding toward zero
-- leaves one.
pub free_goal_lem :
    (total limit : ℕ) → free_goal total limit ≡ pos (1 + (total / limit - 2) * 20 / 100)
unfolding free_goal goal_of
free_goal_lem total limit = goal_of_lem (total / limit)

-- The count as a number: what is missing, up to the room for more kills.
pub pos_part-evict_count :
    (free goal under_way : ℕ)
    → pos_part (evict_count free (pos goal) under_way) ≡ min (goal - free) (8 - under_way)
unfolding evict_count ◌-ℤ◌
pos_part-evict_count free goal under_way = ground arith

-- The emergency, if it comes.
pub record Emergency (free : ℕ) (e : Evictor) (r : Evictor × List Kill) : Type 0 where
  pub evicts : Evicts e r.0 e.running_list r.0.running_list r.1
  pub same_idle : r.0.idle_list ≡ e.idle_list
  pub forced :
      All
        (λ k. (k.force ≡ true) × (e.priority k.victim ≡ 1) × (free ≡ 0) × (e.evicting_list ≡ []))
        r.1
  pub one : length r.1 ≤ 1
  pub needed : free ≡ 0 → e.evicting_list ≡ [] → e.running_list ≢ [] → length r.1 ≡ 1

pub evict_running-Emergency :
    (free : ℕ) (e : Evictor) (l ev : List ℕ)
    → e.running_list ≡ l
    → e.evicting_list ≡ ev
    → Inv e
    → Emergency free e (evict_running free e)
unfolding evict_running evict_front
evict_running-Emergency zero e (sb ∷ rest) [] h g v =
    let (first, same, low) = evict_front-running e sb rest v h in
    let eq : evict_running 0 e
        ≡ (move sb (some evicting) e, record { victim = sb; force = true } ∷ []) =
      ground arith in
    subst (Emergency 0 e) (sym eq) (record {
      evicts = first;
      same_idle = same;
      forced = ((refl, low, refl, g), tt);
      one = omega arith;
      needed = λ _ _ _. refl;
    })
evict_running-Emergency zero e [] [] h g v =
    let eq : evict_running 0 e ≡ (e, []) = ground arith in
    subst (Emergency 0 e) (sym eq) (record {
      evicts = Evicts-refl e e.running_list v;
      same_idle = refl;
      forced = tt;
      one = omega arith;
      needed = λ _ _ full. absurd (full h);
    })
evict_running-Emergency zero e l (x ∷ ev) h g v =
    let eq : evict_running 0 e ≡ (e, []) = ground arith in
    subst (Emergency 0 e) (sym eq) (record {
      evicts = Evicts-refl e e.running_list v;
      same_idle = refl;
      forced = tt;
      one = omega arith;
      needed = λ _ none_left _. cc (g, none_left);
    })
evict_running-Emergency (suc free) e l ev h g v =
    let eq : evict_running (suc free) e ≡ (e, []) = ground arith in
    subst (Emergency (suc free) e) (sym eq) (record {
      evicts = Evicts-refl e e.running_list v;
      same_idle = refl;
      forced = tt;
      one = omega arith;
      needed = λ z _ _. absurd (omega arith);
    })

-- The whole call: gentle kills first, then the emergency.
pub record Eviction (free goal : ℕ) (e e' : Evictor) (ks : List Kill) : Type 0 where
  pub inv : Inv e'
  pub spared : e'.parents_list ≡ e.parents_list
  pub joined : e'.evicting_list ≡ e.evicting_list ++ victims ks
  pub low : All (λ k. e.priority k.victim ≤ 1) ks
  pub gently : List Kill
  pub forcibly : List Kill
  pub parts : ks ≡ gently ++ forcibly
  pub gentle : All (IsGentle e.priority) gently
  pub number :
      length gently ≡ min (min (goal - free) (8 - length e.evicting_list)) (length e.idle_list)
  pub forced : All (λ k. (k.force ≡ true) × (e.priority k.victim ≡ 1)) forcibly
  pub one : length forcibly ≤ 1
  pub emergency : 0 < length forcibly → (free ≡ 0) × (e.evicting_list ++ victims gently ≡ [])
  pub needed : free ≡ 0 → e.running_list ≢ [] → 0 < length e'.evicting_list

pub All-head {ℓ κ μ} :
    {A : Type μ} {P : A → Type ℓ} {Q : Type κ} (f : (a : A) → P a → Q) (xs : List A)
    → All P xs
    → 0 < length xs
    → Q
All-head f [] h k = absurd (omega arith)
All-head f (x ∷ xs) h k = f x h.0

pub length-victims : (ks : List Kill) → length (victims ks) ≡ length ks
length-victims [] = refl
length-victims (k ∷ ks) = ap suc (length-victims ks)

-- An emergency that is called for leaves a kill under way.
pub Emergency-busy :
    (free : ℕ) (mid e' : Evictor) (ks : List Kill)
    → Emergency free mid (e', ks)
    → (ev : List ℕ) → mid.evicting_list ≡ ev
    → free ≡ 0
    → mid.running_list ≢ []
    → 0 < length e'.evicting_list
Emergency-busy free mid e' ks m [] g z full = omega (
  arith,
  ap length m.evicts.joined,
  length-append mid.evicting_list (victims ks),
  length-victims ks,
  m.needed z g full,
)
Emergency-busy free mid e' ks m (x ∷ ev) g z full =
    omega
      (arith, ap length m.evicts.joined, length-append mid.evicting_list (victims ks), ap length g)

pub evict-Eviction :
    (free goal : ℕ) (e : Evictor)
    → Inv e
    → Eviction free goal e (evict free (pos goal) e).0 (evict free (pos goal) e).1
unfolding evict
evict-Eviction free goal e v =
    let n = pos_part (evict_count free (pos goal) (length e.evicting_list)) in
    let (mid, gently) = evict_idle n e in
    let g = evict_idle-Gentle n e e.idle_list refl v in
    let (e', forcibly) = evict_running free mid in
    let m =
      evict_running-Emergency free mid mid.running_list mid.evicting_list refl refl g.evicts.inv in
    let ranked : mid.priority ≡ e.priority = g.evicts.ranked in
    let forced : All (λ k. (k.force ≡ true) × (e.priority k.victim ≡ 1)) forcibly =
      All-map _ _ forcibly (λ k h. (h.0, ap (λ f. f k.victim) (sym ranked) ∙ h.1)) m.forced in
    record {
      inv = m.evicts.inv;
      spared = m.evicts.spared ∙ g.evicts.spared;
      joined = append-victims _ _ _ gently forcibly g.evicts.joined m.evicts.joined;
      low =
          All-append _ gently forcibly (All-map _ _ gently (λ k h. omega (arith, h.1)) g.gentle)
            (All-map _ _ forcibly (λ k h. omega (arith, h.1)) forced);
      gently = gently;
      forcibly = forcibly;
      parts = refl;
      gentle = g.gentle;
      number =
          g.number
          ∙ ap (λ k. min k (length e.idle_list))
              (pos_part-evict_count free goal (length e.evicting_list));
      forced = forced;
      one = m.one;
      emergency = λ some_forced.
          All-head (λ k h. (h.2, sym g.evicts.joined ∙ h.3)) forcibly m.forced some_forced;
      needed = λ z full.
          Emergency-busy free mid e' forcibly m mid.evicting_list refl z (rw g.same_running full);
    }

pub length-pos : (l : List ℕ) → l ≢ [] → 0 < length l
length-pos [] h = absurd (h refl)
length-pos (x ∷ l) h = omega arith

pub do_evictions-evict :
    (total limit available : ℕ) (e : Evictor)
    → 0 < limit
    → do_evictions total limit available e
      ≡ some (evict (available / limit) (pos (1 + (total / limit - 2) * 20 / 100)) e)
unfolding do_evictions
do_evictions-evict total limit available e h = ground (arith, free_goal_lem total limit)
