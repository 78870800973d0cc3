-- ===== src/Evictor/Policy.antt =====
-- Whom the evictor kills (`doEvictions` of go/worker/sandbox/evictors.go).
use Prim.Native.Nat.{min}
use open_lambda.Prelude.{
  sym, append-nil, append_assoc, ℕ, suc, zero, ◌≤◌, ◌<◌, ◌≡◌, refl, ◌∙◌, ap, subst, inl, inr, true,
  false, List, [], ◌∷◌, ◌++◌, Option, some, arith, ◌==◌, ==_iff, Bool-cases, length, All,
}
use open_lambda.Evictor.{
  Queue, idle, running, parents, evicting, Evictor, Kill, list_of, take_off, put_on, move,
  evict_front, evict_idle,
}
use open_lambda.Evictor.Queues.{Inv, IsValid, on, move-IsValid, state_map-move, priority-move}

on-pos : (o : Option Queue) (q : Queue) → 0 < on o q → o ≡ some q
on-pos (some idle) idle h = refl
on-pos (some running) running h = refl
on-pos (some parents) parents h = refl
on-pos (some evicting) evicting h = refl
on-pos o q h = absurd (omega arith)

-- The front of a queue is where the map says that it is.
front-state_map :
    (e : Evictor) (q : Queue) (sb : ℕ) (rest : List ℕ)
    → IsValid e
    → list_of q e ≡ sb ∷ rest
    → e.state_map sb ≡ some q
front-state_map e q sb rest v h = on-pos (e.state_map sb) q (ground (arith, v sb q))

abbrev pub victims : List Kill → List ℕ
victims [] = []
victims (k ∷ ks) = k.victim ∷ victims ks

pub victims-append : (ks qs : List Kill) → victims (ks ++ qs) ≡ victims ks ++ victims qs
victims-append [] qs = refl
victims-append (k ∷ ks) qs = ap (◌∷◌ k.victim) (victims-append ks qs)

pub append-victims :
    (a b c : List ℕ) (ks qs : List Kill)
    → b ≡ a ++ victims ks
    → c ≡ b ++ victims qs
    → c ≡ a ++ victims (ks ++ qs)
append-victims a b c ks qs e f =
    cc (e, f, victims-append ks qs, append_assoc a (victims ks) (victims qs))

-- What kills do to the evictor: the victims leave the front of a queue for the back of `evicting`,
-- and nothing else moves.
pub record Evicts (e e' : Evictor) (from : List ℕ) (to : List ℕ) (ks : List Kill) : Type 0 where
  pub inv : Inv e'
  pub left : from ≡ victims ks ++ to
  pub joined : e'.evicting_list ≡ e.evicting_list ++ victims ks
  pub spared : e'.parents_list ≡ e.parents_list
  pub ranked : e'.priority ≡ e.priority

move-Inv : (e : Evictor) (sb : ℕ) → Inv e → e.priority sb ≤ 1 → Inv (move sb (some evicting) e)
move-Inv e sb v low = record {
  valid = move-IsValid sb (some evicting) e v.valid;
  placed = λ j.
      rw (state_map-move sb j (some evicting) e, priority-move sb (some evicting) e)
        (elim (Bool-cases (sb == j)) [
          | inl same ↦ rw same (rw (← (==_iff sb j).0 same) low)
          | inr other ↦ rw other (v.placed j)
        ]);
}

evict_front-idle :
    (e : Evictor) (sb : ℕ) (rest : List ℕ)
    → Inv e
    → e.idle_list ≡ sb ∷ rest
    → let e' = move sb (some evicting) e in
      Evicts e e' e.idle_list e'.idle_list (record { victim = sb; force = false } ∷ [])
      × (e'.running_list ≡ e.running_list)
      × (e.priority sb ≡ 0)
unfolding move take_off put_on
evict_front-idle e sb rest v h =
    let at_front = front-state_map e idle sb rest v.valid h in
    let low : e.priority sb ≡ 0 = ground (arith, v.placed sb) in
    (
      record {
        inv = move-Inv e sb v (omega arith);
        left = ground arith;
        joined = ground arith;
        spared = ground arith;
        ranked = priority-move sb (some evicting) e;
      },
      ground arith,
      low,
    )

pub evict_front-running :
    (e : Evictor) (sb : ℕ) (rest : List ℕ)
    → Inv e
    → e.running_list ≡ sb ∷ rest
    → let e' = move sb (some evicting) e in
      Evicts e e' e.running_list e'.running_list (record { victim = sb; force = true } ∷ [])
      × (e'.idle_list ≡ e.idle_list)
      × (e.priority sb ≡ 1)
unfolding move take_off put_on
evict_front-running e sb rest v h =
    let at_front = front-state_map e running sb rest v.valid h in
    let low : e.priority sb ≡ 1 = ground (arith, v.placed sb) in
    (
      record {
        inv = move-Inv e sb v (omega arith);
        left = ground arith;
        joined = ground arith;
        spared = ground arith;
        ranked = priority-move sb (some evicting) e;
      },
      ground arith,
      low,
    )

pub Evicts-trans :
    {e₁ e₂ e₃ : Evictor} (from mid to : List ℕ) (ks qs : List Kill)
    → Evicts e₁ e₂ from mid ks
    → Evicts e₂ e₃ mid to qs
    → Evicts e₁ e₃ from to (ks ++ qs)
Evicts-trans from mid to ks qs a b = record {
  inv = b.inv;
  left = cc (a.left, b.left, victims-append ks qs, append_assoc (victims ks) (victims qs) to);
  joined = append-victims _ _ _ ks qs a.joined b.joined;
  spared = b.spared ∙ a.spared;
  ranked = b.ranked ∙ a.ranked;
}

pub Evicts-refl : (e : Evictor) (l : List ℕ) → Inv e → Evicts e e l l []
Evicts-refl e l v = record {
  inv = v;
  left = refl;
  joined = sym (append-nil e.evicting_list);
  spared = refl;
  ranked = refl;
}

-- A kill that is only wanted, of an idle sandbox without children.
abbrev pub IsGentle : (ℕ → ℕ) → Kill → Type 0
IsGentle priority k = (k.force ≡ false) × (priority k.victim ≡ 0)

pub record Gentle (e : Evictor) (n : ℕ) (r : Evictor × List Kill) : Type 0 where
  pub evicts : Evicts e r.0 e.idle_list r.0.idle_list r.1
  pub same_running : r.0.running_list ≡ e.running_list
  pub gentle : All (IsGentle e.priority) r.1
  pub number : length r.1 ≡ min n (length e.idle_list)

evict_idle-nil : (n : ℕ) (e : Evictor) → e.idle_list ≡ [] → evict_idle (suc n) e ≡ (e, [])
unfolding evict_idle evict_front
evict_idle-nil n e h = ground arith

evict_idle-cons :
    (n : ℕ) (e : Evictor) (sb : ℕ) (rest : List ℕ)
    → e.idle_list ≡ sb ∷ rest
    → let (e', ks) = evict_idle n (move sb (some evicting) e) in
      evict_idle (suc n) e ≡ (e', record { victim = sb; force = false } ∷ ks)
unfolding evict_idle evict_front
evict_idle-cons n e sb rest h = ground arith

pub evict_idle-Gentle :
    (n : ℕ) (e : Evictor) (l : List ℕ) → e.idle_list ≡ l → Inv e → Gentle e n (evict_idle n e)
unfolding evict_idle
evict_idle-Gentle zero e l h v = record {
  evicts = Evicts-refl e e.idle_list v;
  same_running = refl;
  gentle = tt;
  number = omega arith;
}
evict_idle-Gentle (suc n) e [] h v = subst (Gentle e (suc n)) (sym (evict_idle-nil n e h)) (record {
  evicts = Evicts-refl e e.idle_list v;
  same_running = refl;
  gentle = tt;
  number = ground arith;
})
evict_idle-Gentle (suc n) e (sb ∷ rest) h v =
    let (first, same, low) = evict_front-idle e sb rest v h in
    let e' = move sb (some evicting) e in
    let left : e'.idle_list ≡ rest = cc (first.left, h) in
    let more = evict_idle-Gentle n e' rest left first.inv in
    subst (Gentle e (suc n)) (sym (evict_idle-cons n e sb rest h)) (record {
      evicts = Evicts-trans _ _ _ _ _ first more.evicts;
      same_running = more.same_running ∙ same;
      gentle =
          ((refl, low), subst (λ f. All (IsGentle f) (evict_idle n e').1) first.ranked more.gentle);
      number = omega (arith, more.number, ap length left, ap length h);
    })
