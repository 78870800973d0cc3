-- ===== src/HandlerPuller/Entries.antt =====
-- go/worker/lambda/handlerPuller.go: the entries of the cache and their directories.
use open_lambda.Prelude.{
  ℕ, suc, ◌≤◌, ◌<◌, ◌≡◌, ◌≢◌, refl, sym, ap, ◌∙◌, subst, Bool, true, false, List, [], ◌∷◌, Option,
  none, some, arith, if◌then◌else◌, ◌==◌, Bool-cases, inl, inr, All,
}
use open_lambda.Prelude.Texts.{Text, same_text, same_text_sound, same_text_refl}
use open_lambda.Prelude.Maps.{update}
use open_lambda.LambdaConfig.{validate_function_name}
use open_lambda.LambdaFunc.Pull.{python, native}
use open_lambda.HandlerPuller.{
  CacheEntry, Content, code, partial, HandlerPuller, Blob, not_found, unreadable, found, Answers,
  Pulled, pulled, fails, get_cache, drop_cache, remove_all, reset, remove_old, store, put_cache,
  unpack, pull_from_blob, after_pull, is_current, serve, pull, new_handler_puller, give_up, Call,
  pulls, gives_up, state_of, step, run,
}
use open_lambda.HandlerPuller.Directories.{
  NotOlder, Honest, HonestCall, Held, Kept, differ, get_cache-drop_same, get_cache-drop_other,
  apart, remove_all-Held, remove_old-Held, remove_old_keeps, Held-of,
}

put_cache-Kept :
    (n : Text) (version : Option ℕ) (d w : ℕ) (p : HandlerPuller)
    → Kept p
    → p.dirs d ≡ some (code n w)
    → NotOlder version w
    → d ≤ p.next_dir_id
    → Kept (put_cache n version d p)
unfolding put_cache
put_cache-Kept n version d w p kept there age low m =
    let old = get_cache n p.dir_cache in
    let (dir_same, next_same, cache_same) = remove_old_keeps old d p in
    elim (Bool-cases (same_text n m)) [
      | inl same ↦
          let one = same_text_sound n m same in
          rw same (
            w,
            dir_same ∙ there ∙ ap (λ (t : Text). some (code t w)) one,
            age,
            omega (arith, low, next_same),
          )
      | inr other ↦
          let rest : get_cache m (drop_cache n (remove_old old d p).dir_cache)
              ≡ get_cache m p.dir_cache =
            get_cache-drop_other m n (remove_old old d p).dir_cache other
            ∙ ap (get_cache m) cache_same in
          let held =
            remove_old-Held m n (get_cache m p.dir_cache) old d p (λ e. differ n m other (sym e))
              (kept m) (kept n) in
          rw (other, rest)
            (Held-of m (get_cache m p.dir_cache) (remove_old old d p)
              (store n version d (remove_old old d p)) refl refl held)
    ]

-- What a pull from the store does.
abbrev pub Fetched : Text → Option ℕ → HandlerPuller → Pulled → Type 0
Fetched n version p (fails q) = Kept q
Fetched n version p (pulled d q) =
    Kept q
    × (w : ℕ) × (q.dirs d ≡ some (code n w))
    × NotOlder version w
    × (d ≤ q.next_dir_id)
    × (p.next_dir_id < d)
    × (q.dir_cache ≡ p.dir_cache)

-- A directory with a new number is no entry's.
new_dir-Held :
    (m : Text) (o : Option CacheEntry) (c : Content) (p : HandlerPuller)
    → Held m o p
    → Held m o (record p {
      next_dir_id = suc p.next_dir_id;
      dirs = update p.dirs (suc p.next_dir_id) (some c);
    })
new_dir-Held m none c p h = tt
new_dir-Held m (some e) c p (w, there, age, low) =
    let other : suc p.next_dir_id == e.path ≡ false = ground (arith, low) in
    (w, rw other there, age, omega (arith, low))

more_dirs-Held :
    (m : Text) (o : Option CacheEntry) (p : HandlerPuller)
    → Held m o p
    → Held m o (record p { next_dir_id = suc p.next_dir_id })
more_dirs-Held m none p h = tt
more_dirs-Held m (some e) p (w, there, age, low) = (w, there, age, omega (arith, low))

if-Fetched :
    (n : Text) (v : Option ℕ) (p : HandlerPuller) (b : Bool) (x y : Pulled)
    → Fetched n v p x
    → Fetched n v p y
    → Fetched n v p (if b then x else y)
if-Fetched n v p true x y h k = h
if-Fetched n v p false x y h k = k

unpack-Fetched :
    (n : Text) (v : Option ℕ) (w : ℕ) (a : Answers) (p : HandlerPuller)
    → NotOlder v w
    → Kept p
    → Fetched n v p (unpack n w a p)
unpack-Fetched n v w a p age kept =
    let d = suc p.next_dir_id in
    let self : d == d ≡ true = ground arith in
    let full = record p { next_dir_id = d; dirs = update p.dirs d (some (code n w)) } in
    let torn = record p { next_dir_id = d; dirs = update p.dirs d (some partial) } in
    let unmade = record p { next_dir_id = d } in
    let spilt = record p { tmp_files = suc p.tmp_files } in
    let done : Fetched n v p (pulled d full) = (
      λ m. new_dir-Held m (get_cache m p.dir_cache) (code n w) p (kept m),
      w,
      rw self refl,
      age,
      omega arith,
      omega arith,
      refl,
    ) in
    if-Fetched n v p a.tmp_ok
      (if a.copy_ok
        then (if a.mkdir_ok then (if a.tar_ok then pulled d full else fails torn) else fails unmade)
        else fails spilt)
      (fails p)
      (if-Fetched n v p a.copy_ok
        (if a.mkdir_ok then (if a.tar_ok then pulled d full else fails torn) else fails unmade)
        (fails spilt)
        (if-Fetched n v p a.mkdir_ok (if a.tar_ok then pulled d full else fails torn) (fails unmade)
          (if-Fetched n v p a.tar_ok (pulled d full) (fails torn) done
            (λ m. new_dir-Held m (get_cache m p.dir_cache) partial p (kept m)))
          (λ m. more_dirs-Held m (get_cache m p.dir_cache) p (kept m)))
        (λ m. Held-of m (get_cache m p.dir_cache) p spilt refl refl (kept m)))
      kept

pub pull_from_blob-Fetched :
    (n : Text) (a : Answers) (b : Blob) (p : HandlerPuller)
    → Honest a.mod_time b
    → Kept p
    → Fetched n a.mod_time p (pull_from_blob n b a p)
unfolding pull_from_blob
pull_from_blob-Fetched n a not_found p h kept = kept
pull_from_blob-Fetched n a unreadable p h kept = kept
pull_from_blob-Fetched n a (found w) p h kept = unpack-Fetched n a.mod_time w a p h kept

-- What a call of `Pull` does: the state is kept, and a directory that it returns is the entry's.
abbrev pub Served : Text → Option ℕ → Pulled → Type 0
Served n v (fails q) = Kept q
Served n v (pulled d q) =
    Kept q
    × (w : ℕ) × (q.dirs d ≡ some (code n w))
    × NotOlder v w
    × (e : CacheEntry) × (get_cache n q.dir_cache ≡ some e)
    × (e.path ≡ d)
    × (v ≢ none → e.version ≡ v)

after_pull-Served :
    (n : Text) (v : Option ℕ) (p : HandlerPuller) (r : Pulled)
    → Fetched n v p r
    → Served n v (after_pull n v r)
unfolding put_cache
after_pull-Served n v p (fails q) h = h
after_pull-Served n v p (pulled d q) (kept, w, there, age, low, fresh, cache) =
    let self = same_text_refl n in
    let (dir_same, next_same, cache_same) = remove_old_keeps (get_cache n q.dir_cache) d q in
    (
      put_cache-Kept n v d w q kept there age low,
      w,
      dir_same ∙ there,
      age,
      record { version = v; path = d },
      rw self refl,
      refl,
      λ h. refl,
    )

pub current_version : (v e : Option ℕ) → is_current v e ≡ true → (v ≡ e) × (v ≢ none)
current_version none e h = let bad : ⊥ = cc in elim bad [ ]
current_version (some v) none h = let bad : ⊥ = cc in elim bad [ ]
current_version (some v) (some w) h =
    let one : w ≡ v = ground (arith, h) in (ap some (sym one), λ e. let bad : ⊥ = cc in bad)

serve-Served :
    (n : Text) (o : Option CacheEntry) (a : Answers) (p : HandlerPuller)
    → get_cache n p.dir_cache ≡ o
    → Honest a.mod_time a.blob
    → Kept p
    → Served n a.mod_time (serve n o a p)
serve-Served n none a p e h kept =
    after_pull-Served n a.mod_time p (pull_from_blob n a.blob a p)
      (pull_from_blob-Fetched n a a.blob p h kept)
serve-Served n (some c) a p e h kept = elim (Bool-cases (is_current a.mod_time c.version)) [
  | inl now ↦
      let (w, there, age, low) = subst (λ (o : Option CacheEntry). Held n o p) e (kept n) in
      let (same, known) = current_version a.mod_time c.version now in
      rw now (
        kept,
        w,
        there,
        subst (λ (v : Option ℕ). NotOlder v w) (sym same) age,
        c,
        e,
        refl,
        λ some_time. sym same,
      )
  | inr stale ↦ rw stale (
      after_pull-Served n a.mod_time p (pull_from_blob n a.blob a p)
        (pull_from_blob-Fetched n a a.blob p h kept))
]

pub pull-Served :
    (n : Text) (a : Answers) (p : HandlerPuller)
    → Honest a.mod_time a.blob
    → Kept p
    → Served n a.mod_time (pull n a p)
unfolding pull
pull-Served n a p h kept = elim (Bool-cases (validate_function_name n)) [
  | inl ok ↦ rw ok (serve-Served n (get_cache n p.dir_cache) a p refl h kept)
  | inr bad ↦ rw bad kept
]

give_up-Kept :
    (n : Text) (o : Option CacheEntry) (p : HandlerPuller)
    → get_cache n p.dir_cache ≡ o
    → Kept p
    → Kept (give_up python n o p)
unfolding reset
give_up-Kept n none p e kept m = kept m
give_up-Kept n (some c) p e kept m = elim (Bool-cases (same_text n m)) [
  | inl same ↦
      let one = same_text_sound n m same in
      let gone : get_cache m (drop_cache n p.dir_cache) ≡ none =
        ap (λ (t : Text). get_cache t (drop_cache n p.dir_cache)) (sym one)
        ∙ get_cache-drop_same n p.dir_cache in
      rw gone tt
  | inr other ↦
      let (v, there', age', low') = subst (λ (o : Option CacheEntry). Held n o p) e (kept n) in
      rw (get_cache-drop_other m n p.dir_cache other) (
        Held-of m (get_cache m p.dir_cache) (remove_all c.path p) (reset n (remove_all c.path p))
          refl refl
          (remove_all-Held m (get_cache m p.dir_cache) c.path p
            (λ d is_d.
              let (w, there, age, low) =
                subst (λ (o : Option CacheEntry). Held m o p) is_d (kept m) in
              apart m n p d.path c.path w v (λ q. differ n m other (sym q)) there there')
            (kept m)))
]

state_of-Kept : (n : Text) (v : Option ℕ) (r : Pulled) → Served n v r → Kept (state_of r)
state_of-Kept n v (fails q) h = h
state_of-Kept n v (pulled d q) h = h.0

step-Kept : (c : Call) (p : HandlerPuller) → HonestCall c → Kept p → Kept (step c p)
unfolding step
step-Kept (pulls n a) p h kept = state_of-Kept n a.mod_time (pull n a p) (pull-Served n a p h kept)
step-Kept (gives_up python n) p h kept = give_up-Kept n (get_cache n p.dir_cache) p refl kept
step-Kept (gives_up native n) p h kept = elim h [ ]

pub run-Kept : (cs : List Call) (p : HandlerPuller) → All HonestCall cs → Kept p → Kept (run cs p)
unfolding run
run-Kept [] p h kept = kept
run-Kept (c ∷ cs) p (one, more) kept = run-Kept cs (step c p) more (step-Kept c p one kept)

pub new_handler_puller-Kept : Kept new_handler_puller
new_handler_puller-Kept m = tt
