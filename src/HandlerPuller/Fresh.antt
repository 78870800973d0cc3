-- ===== src/HandlerPuller/Fresh.antt =====
-- go/worker/lambda/handlerPuller.go: how old the code is that a pull returns.
use open_lambda.Prelude.{
  ℕ, ◌≤◌, ◌≡◌, ◌≢◌, refl, sym, ap, ◌∙◌, subst, true, false, List, Option, none, some, arith, ◌==◌,
  Bool-cases, inl, inr, All,
}
use open_lambda.Prelude.Texts.{Text}
use open_lambda.LambdaConfig.{validate_function_name}
use open_lambda.LambdaFunc.Pull.{native}
use open_lambda.HandlerPuller.{
  CacheEntry, code, HandlerPuller, Answers, Pulled, pulled, fails, get_cache, put_cache,
  pull_from_blob, after_pull, is_current, serve, pull, new_handler_puller, Call, gives_up, give_up,
  remove_all, step, run,
}
use open_lambda.HandlerPuller.Directories.{NotOlder, Honest, HonestCall, Held}
use open_lambda.HandlerPuller.Entries.{
  Fetched, Served, pull_from_blob-Fetched, current_version, pull-Served, run-Kept,
  new_handler_puller-Kept,
}

pulled-Served :
    (cs : List Call) (n : Text) (a : Answers) (d : ℕ) (q : HandlerPuller)
    → All HonestCall cs
    → Honest a.mod_time a.blob
    → pull n a (run cs new_handler_puller) ≡ pulled d q
    → Served n a.mod_time (pulled d q)
pulled-Served cs n a d q honest now e = subst (Served n a.mod_time) e (
    pull-Served n a (run cs new_handler_puller) now
      (run-Kept cs new_handler_puller honest new_handler_puller-Kept))

-- After any calls by the tasks of the functions in which no native function had to give up the
-- directory it pulled, a directory that `Pull` returns is there and holds code of that function at
-- least as new as what the store had when its attributes were read, if in the store no content is
-- older than the attributes that were read before it.
pub pull-fresh :
    (cs : List Call) (n : Text) (a : Answers) (v d : ℕ) (q : HandlerPuller)
    → All HonestCall cs
    → Honest a.mod_time a.blob
    → a.mod_time ≡ some v
    → pull n a (run cs new_handler_puller) ≡ pulled d q
    → (w : ℕ) × (q.dirs d ≡ some (code n w)) × (v ≤ w)
pull-fresh cs n a v d q honest now at e =
    let (kept, w, there, age, c, is_c, path, version) = pulled-Served cs n a d q honest now e in
    (w, there, subst (λ (t : Option ℕ). NotOlder t w) at age)

some-none : (v : ℕ) (o : Option ℕ) → o ≡ some v → o ≢ none
some-none v o e k = let bad : ⊥ = cc in bad

serve_current :
    (n : Text) (c : CacheEntry) (v : ℕ) (a : Answers) (p : HandlerPuller)
    → a.mod_time ≡ some v
    → c.version ≡ some v
    → serve n (some c) a p ≡ pulled c.path p
serve_current n c v a p at e =
    let now : is_current a.mod_time c.version ≡ true =
      ap (λ (t : Option ℕ). is_current t c.version) at
      ∙ ap (is_current (some v)) e
      ∙ ground arith in
    rw now refl

valid_pulled :
    (n : Text) (a : Answers) (p q : HandlerPuller) (d : ℕ)
    → pull n a p ≡ pulled d q
    → validate_function_name n ≡ true
unfolding pull
valid_pulled n a p q d e = elim (Bool-cases (validate_function_name n)) [
  | inl ok ↦ ok
  | inr wrong ↦
      let failed : pull n a p ≡ fails p = rw wrong refl in let bad : ⊥ = cc in elim bad [ ]
]

pull_entry :
    (n : Text) (o : Option CacheEntry) (a : Answers) (p : HandlerPuller)
    → validate_function_name n ≡ true
    → get_cache n p.dir_cache ≡ o
    → pull n a p ≡ serve n o a p
unfolding pull
pull_entry n o a p ok e = rw (ok, e) refl

-- After any calls in which no native function had to give up the directory it pulled, and if in the
-- store no content is older than the attributes that were read before it, a pull right after one that
-- returned a directory, while the store has the same modification time, returns that directory again,
-- whatever the other answers are, and changes nothing.
pub pull_again :
    (cs : List Call) (n : Text) (a a' : Answers) (v d : ℕ) (q : HandlerPuller)
    → All HonestCall cs
    → Honest a.mod_time a.blob
    → a.mod_time ≡ some v
    → pull n a (run cs new_handler_puller) ≡ pulled d q
    → a'.mod_time ≡ some v
    → pull n a' q ≡ pulled d q
pull_again cs n a a' v d q honest now at e at' =
    let (kept, w, there, age, c, is_c, path, version) = pulled-Served cs n a d q honest now e in
    let ok = valid_pulled n a (run cs new_handler_puller) q d e in
    pull_entry n (some c) a' q ok is_c
    ∙ serve_current n c v a' q at' (version (some-none v a.mod_time at) ∙ at)
    ∙ ap (λ (k : ℕ). pulled k q) path

stale_not_current : (v : ℕ) (t e : Option ℕ) → t ≡ some v → e ≢ some v → is_current t e ≡ false
stale_not_current v t e at ne = elim (Bool-cases (is_current t e)) [
  | inl now ↦ let same = (current_version t e now).0 in elim (ne (sym same ∙ at)) [ ]
  | inr old ↦ old
]

-- The directory of the old entry is gone when the new one is in the cache.
replaced :
    (n : Text) (v : Option ℕ) (c : CacheEntry) (d : ℕ) (p q : HandlerPuller) (r : Pulled)
    → get_cache n p.dir_cache ≡ some c
    → c.path ≤ p.next_dir_id
    → Fetched n v p r
    → after_pull n v r ≡ pulled d q
    → (q.dirs c.path ≡ none) × (d ≢ c.path)
unfolding put_cache
replaced n v c d p q (fails p') at low h e = let bad : ⊥ = cc in elim bad [ ]
replaced n v c d p q (pulled d' p') at low (kept, w, there, age, high, new, cache) e =
    let same : put_cache n v d' p' ≡ q = cc in
    let one : d' ≡ d = cc in
    let entry : get_cache n p'.dir_cache ≡ some c = ap (get_cache n) cache ∙ at in
    let other : c.path == d' ≡ false = ground (arith, low, new) in
    let self : c.path == c.path ≡ true = ground arith in
    let gone : (put_cache n v d' p').dirs c.path ≡ none = rw (entry, other, self) refl in
    (
      ap (λ (p : HandlerPuller). p.dirs c.path) (sym same) ∙ gone,
      λ e. let bad : ⊥ = omega (arith, low, new, one, e) in bad,
    )

-- After any calls by the tasks of the functions in which no native function had to give up the
-- directory it pulled, and if in the store no content is older than the attributes that were read
-- before it, a pull of code with a new modification time removes the directory of the cached entry,
-- which was there until then, before it returns another one.
pub pull_removes_old :
    (cs : List Call) (n : Text) (a : Answers) (v d : ℕ) (c : CacheEntry) (q : HandlerPuller)
    → All HonestCall cs
    → Honest a.mod_time a.blob
    → get_cache n (run cs new_handler_puller).dir_cache ≡ some c
    → a.mod_time ≡ some v
    → c.version ≢ some v
    → pull n a (run cs new_handler_puller) ≡ pulled d q
    → ((run cs new_handler_puller).dirs c.path ≢ none) × (q.dirs c.path ≡ none) × (d ≢ c.path)
pull_removes_old cs n a v d c q honest now at time ne e =
    let p = run cs new_handler_puller in
    let kept = run-Kept cs new_handler_puller honest new_handler_puller-Kept in
    let (w, there, age, low) = subst (λ (o : Option CacheEntry). Held n o p) at (kept n) in
    let stale = stale_not_current v a.mod_time c.version time ne in
    let served : serve n (some c) a p ≡ after_pull n a.mod_time (pull_from_blob n a.blob a p) =
      rw stale refl in
    let fetched = pull_from_blob-Fetched n a a.blob p now kept in
    let ok = valid_pulled n a p q d e in
    let (gone, other) =
      replaced n a.mod_time c d p q (pull_from_blob n a.blob a p) at low fetched
        (sym served ∙ sym (pull_entry n (some c) a p ok at) ∙ e) in
    (λ none_there. let bad : ⊥ = cc in bad, gone, other)

-- A native function that gives up a directory keeps its entry: while the store has the modification
-- time of the entry, the next pull returns the directory, which is gone.
pub native_gone :
    (n : Text) (a : Answers) (v : ℕ) (c : CacheEntry) (p : HandlerPuller)
    → validate_function_name n ≡ true
    → get_cache n p.dir_cache ≡ some c
    → c.version ≡ some v
    → a.mod_time ≡ some v
    → let q = step (gives_up native n) p in (pull n a q ≡ pulled c.path q) × (q.dirs c.path ≡ none)
unfolding step
native_gone n a v c p ok at version time =
    let q = remove_all c.path p in
    let same : give_up native n (get_cache n p.dir_cache) p ≡ q = rw at refl in
    let self : c.path == c.path ≡ true = ground arith in
    let again : pull n a q ≡ pulled c.path q =
      pull_entry n (some c) a q ok at ∙ serve_current n c v a q time version in
    rw same (again, rw self refl)
