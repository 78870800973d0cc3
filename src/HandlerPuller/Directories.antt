-- ===== src/HandlerPuller/Directories.antt =====
-- go/worker/lambda/handlerPuller.go: the cache by name, and the directories that its entries hold.
use open_lambda.Prelude.{
  ℕ, ◌≤◌, ◌≡◌, ◌≢◌, refl, sym, ap, ◌∙◌, true, false, List, [], ◌∷◌, Option, none, some, arith,
  if◌then◌else◌, ◌==◌, Bool-cases, inl, inr,
}
use open_lambda.Prelude.Texts.{Text, same_text, same_text_sound, same_text_refl}
use open_lambda.LambdaFunc.Pull.{python, native}
use open_lambda.HandlerPuller.{
  CacheEntry, Content, code, HandlerPuller, Blob, not_found, unreadable, found, get_cache,
  drop_cache, remove_all, remove_old, Call, pulls, gives_up,
}

-- The modification time is not newer than the content that is read after it.
abbrev pub NotOlder : Option ℕ → ℕ → Type 0
NotOlder none w = Unit
NotOlder (some v) w = v ≤ w

abbrev pub Honest : Option ℕ → Blob → Type 0
Honest v not_found = Unit
Honest v unreadable = Unit
Honest v (found w) = NotOlder v w

-- No content is older than the time that was read before it, and no native function gives up.
abbrev pub HonestCall : Call → Type 0
HonestCall (pulls name a) = Honest a.mod_time a.blob
HonestCall (gives_up python name) = Unit
HonestCall (gives_up native name) = ⊥

abbrev pub Held : Text → Option CacheEntry → HandlerPuller → Type 0
Held m none p = Unit
Held m (some e) p =
    (w : ℕ) × (p.dirs e.path ≡ some (code m w)) × NotOlder e.version w × (e.path ≤ p.next_dir_id)

-- Each entry has its directory, with code of the function that is as new as the entry says.
abbrev pub Kept : HandlerPuller → Type 0
Kept p = (m : Text) → Held m (get_cache m p.dir_cache) p

pub differ : (m n : Text) → same_text m n ≡ false → m ≢ n
differ m n h e =
    let same : same_text m n ≡ true = ap (same_text m) (sym e) ∙ same_text_refl m in
    let bad : ⊥ = cc in bad

pub get_cache-drop_same :
    (n : Text) (es : List (Text × CacheEntry)) → get_cache n (drop_cache n es) ≡ none
get_cache-drop_same n [] = refl
get_cache-drop_same n ((k, e) ∷ es) = elim (Bool-cases (same_text k n)) [
  | inl same ↦ rw same (get_cache-drop_same n es)
  | inr other ↦ rw (other, other) (get_cache-drop_same n es)
]

pub get_cache-drop_other :
    (m n : Text) (es : List (Text × CacheEntry))
    → same_text n m ≡ false
    → get_cache m (drop_cache n es) ≡ get_cache m es
get_cache-drop_other m n [] h = refl
get_cache-drop_other m n ((k, e) ∷ es) h = elim (Bool-cases (same_text k n)) [
  | inl same ↦
      let one = same_text_sound k n same in
      let gone : same_text k m ≡ false = ap (λ (t : Text). same_text t m) one ∙ h in
      rw (same, gone) (get_cache-drop_other m n es h)
  | inr other ↦ rw other (
      ap (λ (o : Option CacheEntry). if same_text k m then some e else o)
        (get_cache-drop_other m n es h))
]

-- Two directories with code of different functions have different numbers.
pub apart :
    (m n : Text) (p : HandlerPuller) (a b : ℕ) (v w : ℕ)
    → m ≢ n
    → p.dirs a ≡ some (code m v)
    → p.dirs b ≡ some (code n w)
    → b == a ≡ false
apart m n p a b v w ne ea eb = elim (Bool-cases (b == a)) [
  | inl same ↦
      let one : b ≡ a = ground (arith, same) in
      let both : some (code m v) ≡ some (code n w) = sym ea ∙ ap p.dirs (sym one) ∙ eb in
      let names : m ≡ n = cc in elim (ne names) [ ]
  | inr other ↦ other
]

pub remove_all-Held :
    (m : Text) (o : Option CacheEntry) (d : ℕ) (p : HandlerPuller)
    → ((e : CacheEntry) → o ≡ some e → d == e.path ≡ false)
    → Held m o p
    → Held m o (remove_all d p)
remove_all-Held m none d p away h = tt
remove_all-Held m (some e) d p away (w, there, old, low) = (w, rw (away e refl) there, old, low)

pub remove_old-Held :
    (m n : Text) (o old : Option CacheEntry) (d : ℕ) (p : HandlerPuller)
    → m ≢ n
    → Held m o p
    → Held n old p
    → Held m o (remove_old old d p)
remove_old-Held m n o none d p ne h k = h
remove_old-Held m n none (some old) d p ne h k = tt
remove_old-Held m n (some e) (some old) d p ne (w, there, age, low) (v, there', age', low') =
    elim (Bool-cases (old.path == d)) [
      | inl same ↦ rw same (w, there, age, low)
      | inr other ↦
          rw other ((w, rw (apart m n p e.path old.path w v ne there there') there, age, low))
    ]

-- The directory that is stored stays.
pub remove_old_keeps :
    (old : Option CacheEntry) (d : ℕ) (p : HandlerPuller)
    → ((remove_old old d p).dirs d ≡ p.dirs d)
      × ((remove_old old d p).next_dir_id ≡ p.next_dir_id)
      × ((remove_old old d p).dir_cache ≡ p.dir_cache)
remove_old_keeps none d p = (refl, refl, refl)
remove_old_keeps (some old) d p = elim (Bool-cases (old.path == d)) [
  | inl same ↦ rw same (refl, refl, refl)
  | inr other ↦ rw (other, other) (refl, refl, refl)
]

-- The whole state but the cache.
pub Held-of :
    (m : Text) (o : Option CacheEntry) (p q : HandlerPuller)
    → p.dirs ≡ q.dirs
    → p.next_dir_id ≡ q.next_dir_id
    → Held m o p
    → Held m o q
Held-of m none p q e n h = tt
Held-of m (some c) p q e n (w, there, age, low) =
    (w, ap (λ (f : ℕ → Option Content). f c.path) (sym e) ∙ there, age, omega (arith, low, n))
