-- ===== src/LambdaStore/Configs.antt =====
-- What `GetConfig` answers.
use open_lambda.Prelude.{
  ℕ, ◌≡◌, ◌⊎◌, refl, sym, ◌∙◌, ap, Bool, true, false, inl, inr, List, [], ◌∷◌, Option, none, some,
  arith, ◌==◌, Bool-cases, Option-cases,
}
use open_lambda.LambdaStore.{
  Store, Result, answers, blocks, find_entry, get_or_create_entry, load_tarball,
  load_config_and_register, cached, loaded, answer_cached, get_config, set_config, drop_entry,
  cache, add_to_registry, remove_entry, remove_from_registry, delete_blob,
}
use open_lambda.Prelude.Maps.{update}

-- The bucket has a function with settings that can be read.
abbrev pub Stored : ℕ → Store → Type 0
Stored f s = (cfg : ℕ) × (s.bucket f ≡ some (some cfg))

-- The bucket has no such function, and the call fails and leaves an entry without settings.
abbrev pub LeavesEntry : ℕ → Store → Result → Type 0
LeavesEntry f s r =
    (t : Store) × (r ≡ answers false none t)
    × (find_entry f t.lambdas ≡ some none)
    × ((s.bucket f ≡ none) ⊎ (s.bucket f ≡ some none))

created_entry :
    (f : ℕ) (s : Store)
    → (find_entry f s.lambdas ≡ none) ⊎ (find_entry f s.lambdas ≡ some none)
    → (find_entry f (get_or_create_entry f s).lambdas ≡ some none)
      × ((get_or_create_entry f s).bucket f ≡ s.bucket f)
unfolding get_or_create_entry
created_entry f s (inl absent) = (ground (arith, absent), ground (arith, absent))
created_entry f s (inr empty) = (ground (arith, empty), ground (arith, empty))

answer_cached_lem :
    (registers : ℕ → ℕ → Bool) (f : ℕ) (s : Store) (tarball : Option (Option ℕ))
    → s.bucket f ≡ tarball
    → find_entry f s.lambdas ≡ some none
    → (Stored f s × (answer_cached registers f s none ≡ blocks))
      ⊎ LeavesEntry f s (answer_cached registers f s none)
unfolding load_config_and_register
answer_cached_lem registers f s none e h =
    inr (s, ap (λ t. loaded f (load_tarball true registers f s t)) e, h, inl e)
answer_cached_lem registers f s (some none) e h =
    inr (s, ap (λ t. loaded f (load_tarball true registers f s t)) e, h, inr e)
answer_cached_lem registers f s (some (some cfg)) e h =
    inl ((cfg, e), ap (λ t. loaded f (load_tarball true registers f s t)) e)

cached-none : (f : ℕ) (s : Store) → find_entry f s.lambdas ≡ some none → cached f s ≡ none
cached-none f s h = ground (arith, h)

-- A `GetConfig` of a function whose settings are not cached never gets them: if the bucket has them, it
-- blocks for ever, on the lock of the entry that it holds itself; if not, it fails and leaves an entry
-- for the function, which is listed from then on.
pub get_config_uncached :
    (registers : ℕ → ℕ → Bool) (f : ℕ) (s : Store)
    → (find_entry f s.lambdas ≡ none) ⊎ (find_entry f s.lambdas ≡ some none)
    → (Stored f s × (get_config registers f s ≡ blocks))
      ⊎ LeavesEntry f s (get_config registers f s)
unfolding get_config
get_config_uncached registers f s h =
    let s' = get_or_create_entry f s in
    let (empty, same) = created_entry f s h in
    let uncached = ap (answer_cached registers f s') (cached-none f s' empty) in
    elim (answer_cached_lem registers f s' (s'.bucket f) refl empty) [
      | inl ((cfg, there), stuck) ↦ inl ((cfg, sym same ∙ there), uncached ∙ stuck)
      | inr (t, failed, left, inl absent) ↦
          inr (t, uncached ∙ failed, left, inl (sym same ∙ absent))
      | inr (t, failed, left, inr unread) ↦
          inr (t, uncached ∙ failed, left, inr (sym same ∙ unread))
    ]

found_entry :
    (f : ℕ) (s : Store) → (c : Option ℕ) × (find_entry f (get_or_create_entry f s).lambdas ≡ some c)
unfolding get_or_create_entry
found_entry f s = elim (Option-cases (find_entry f s.lambdas)) [
  | inl absent ↦ (none, ground (arith, absent))
  | inr (c, there) ↦ (c, ground (arith, there))
]

find_set :
    (f cfg : ℕ) (c : Option ℕ) (es : List (ℕ × Option ℕ))
    → find_entry f es ≡ some c
    → find_entry f (set_config f cfg es) ≡ some (some cfg)
find_set f cfg c [] h = ground arith
find_set f cfg c ((g, d) ∷ es) h = elim (Bool-cases (g == f)) [
  | inl same ↦ rw (same, same) refl
  | inr differs ↦ rw (differs, differs) (find_set f cfg c es (rw differs at h))
]

pending_kept : (f : ℕ) (s : Store) → (get_or_create_entry f s).pending ≡ s.pending
unfolding get_or_create_entry
pending_kept f s = elim (Option-cases (find_entry f s.lambdas)) [
  | inl absent ↦ rw absent refl
  | inr (c, there) ↦ rw there refl
]

-- A function that is removed and uploaded again, before the deletion that the removal started in the
-- background has run, loses its new tarball then: its settings stay cached, and the bucket is empty.
pub late_deletion :
    (registers : ℕ → ℕ → Bool) (f cfg : ℕ) (c : Option ℕ) (s : Store)
    → find_entry f s.lambdas ≡ some c
    → (s' : Store) × (t : Store) × (remove_from_registry f s ≡ answers true none s')
      × (add_to_registry registers true f (some cfg) s' ≡ answers (registers f cfg) none t)
      × (cached f (delete_blob t.pending t) ≡ some cfg)
      × ((delete_blob t.pending t).bucket f ≡ none)
unfolding remove_from_registry add_to_registry
late_deletion registers f cfg c s h =
    let s' : Store = record s { lambdas = drop_entry f s.lambdas; pending = f ∷ s.pending } in
    let u = get_or_create_entry f s' in
    let (d, there) = found_entry f s' in
    let t = cache f cfg (record u { bucket = update u.bucket f (some (some cfg)) }) in
    let set = find_set f cfg d u.lambdas there in
    let pends : u.pending ≡ f ∷ s.pending = pending_kept f s' in
    (
      s',
      t,
      ap (remove_entry f s) h,
      refl,
      ap (λ p. cached f (delete_blob p t)) pends ∙ ground (arith, set),
      ap (λ p. (delete_blob p t).bucket f) pends ∙ ground arith,
    )
