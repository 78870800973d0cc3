-- ===== src/PackagePuller/Pushing.antt =====
-- What GetPkg answers, and what a round of InstallRecursive (go/worker/lambda/packages/packagePuller.go) adds to its list.
use open_lambda.Prelude.Texts.{same_text, same_text_sound, same_text_refl}
use open_lambda.Prelude.{
  ◌≡◌, refl, sym, ◌∙◌, ap, true, false, inl, inr, List, [], ◌∷◌, ◌++◌, append_assoc, append-nil,
  Option, none, some, arith, if◌then◌else◌, All, All-append, All-map, Bool-cases, Option-cases,
}
use open_lambda.PackagePuller.{
  Name, World, Puller, Work, normalize_pkg, known, find_pkg, visit, push_deps, received,
  run_installer, sandbox_install, keep_installed, get_or_install, get_normalized, get_pkg, add_all,
}
use open_lambda.PackagePuller.Names.{known-add_all, add_all-append}

-- Names none of which is in a set or comes twice.
abbrev pub Unseen : List Name → List Name → Type 0
Unseen [] set = Unit
Unseen (d ∷ ds) set = (known d set ≡ false) × Unseen ds (d ∷ set)

pub Unseen-append :
    (ds es set : List Name) → Unseen ds set → Unseen es (add_all ds set) → Unseen (ds ++ es) set
Unseen-append [] es set h k = k
Unseen-append (d ∷ ds) es set (new, h) k = (new, Unseen-append ds es (d ∷ set) h k)

-- A puller that still has the packages of another one.
abbrev pub Keeps : Puller → Puller → Type 0
Keeps p q =
    (m : Name) (deps : List Name)
    → find_pkg m p.packages ≡ some deps
    → find_pkg m q.packages ≡ some deps

pub received_packages :
    (n : Name) (p : Puller) (r : Option (List Name)) → (received n p r).1.packages ≡ p.packages
received_packages n p none = refl
received_packages n p (some deps) = refl

pub sandbox_install_packages :
    (w : World) (n : Name) (p : Puller) → (sandbox_install w n p).1.packages ≡ p.packages
unfolding sandbox_install run_installer
sandbox_install_packages w n p = elim (Bool-cases (known n p.dirs)) [
  | inl there ↦ rw there (received_packages n p (if w.create_ok n then w.pip n true else none))
  | inr absent ↦ elim (Bool-cases (w.mkdir_ok n)) [
    | inl ok ↦
        rw (absent, ok)
          (received_packages n (record p { dirs = n ∷ p.dirs })
            (if w.create_ok n then w.pip n false else none))
    | inr bad ↦ rw (absent, bad) refl
  ]
]

-- The answer of `get_pkg` for a name in normal form.
abbrev pub Found : Name → Puller → Option (List Name) × Puller → Type 0
Found n p (none, q) = Unit
Found n p (some deps, q) = (find_pkg n q.packages ≡ some deps) × Keeps p q

pub keep_installed-Found :
    (n : Name) (p : Puller) (a : Option (List Name) × Puller)
    → find_pkg n p.packages ≡ none
    → a.1.packages ≡ p.packages
    → Found n p (keep_installed n a)
keep_installed-Found n p (none, q) absent same = tt
keep_installed-Found n p (some deps, q) absent same = (
  rw (same_text_refl n) refl,
  λ m ds h. elim (Bool-cases (same_text n m)) [
    | inl e ↦
        let is_m = same_text_sound n m e in
        let both : none ≡ some ds = sym (rw is_m at absent) ∙ h in ground (arith, both)
    | inr differs ↦ rw (differs, same) h
  ],
)

pub get_pkg-Found : (w : World) (n : Name) (p : Puller) → Found (normalize_pkg n) p (get_pkg w n p)
unfolding get_pkg get_normalized get_or_install
get_pkg-Found w n p = elim (Option-cases (find_pkg (normalize_pkg n) p.packages)) [
  | inl absent ↦ rw absent (
      keep_installed-Found (normalize_pkg n) p (sandbox_install w (normalize_pkg n) p) absent
        (sandbox_install_packages w (normalize_pkg n) p))
  | inr (deps, found) ↦ rw found (found, λ m ds h. h)
]

-- What `push_deps` adds.
abbrev pub Pushed : List Name → Work → Work → Type 0
Pushed ds work work' =
    (new : List Name) × (work'.pending ≡ work.pending ++ new)
    × (work'.install_set ≡ add_all new work.install_set)
    × Unseen new work.install_set
    × All (λ d. known d (add_all new work.install_set) ≡ true) ds
    × All (λ d. known d ds ≡ true) new

pub visit-Pushed : (d : Name) (work : Work) → Pushed (d ∷ []) work (visit d work)
visit-Pushed d work = elim (Bool-cases (known d work.install_set)) [
  | inl old ↦ rw old ([], sym (append-nil work.pending), refl, tt, (old, tt), tt)
  | inr new ↦ rw new (
    d ∷ [],
    refl,
    refl,
    (new, tt),
    (ground (arith, same_text_refl d), tt),
    (ground (arith, same_text_refl d), tt),
  )
]

pub Pushed-trans :
    (d : Name) (ds : List Name) (w₀ w₁ w₂ : Work)
    → Pushed (d ∷ []) w₀ w₁
    → Pushed ds w₁ w₂
    → Pushed (d ∷ ds) w₀ w₂
Pushed-trans d ds w₀ w₁ w₂ (n₁, p₁, s₁, u₁, (k₁, _), a₁) (n₂, p₂, s₂, u₂, k₂, a₂) =
    let set = w₀.install_set in
    let join = add_all-append n₁ n₂ set in
    (
      n₁ ++ n₂,
      p₂ ∙ ap (λ l. l ++ n₂) p₁ ∙ append_assoc w₀.pending n₁ n₂,
      s₂ ∙ ap (add_all n₂) s₁ ∙ sym join,
      Unseen-append n₁ n₂ set u₁ (rw s₁ at u₂),
      (
        rw join (known-add_all d n₂ (add_all n₁ set) k₁),
        All-map (λ e. known e (add_all n₂ (add_all n₁ set)) ≡ true)
            (λ e. known e (add_all (n₁ ++ n₂) set) ≡ true) ds (λ e h. rw join h) (rw s₁ at k₂),
      ),
      All-append (λ e. known e (d ∷ ds) ≡ true) n₁ n₂
          (All-map (λ e. known e (d ∷ []) ≡ true) (λ e. known e (d ∷ ds) ≡ true) n₁
            (λ e h. ground (arith, h)) a₁)
          (All-map (λ e. known e ds ≡ true) (λ e. known e (d ∷ ds) ≡ true) n₂
            (λ e h. ground (arith, h)) a₂),
    )

pub push_deps-Pushed : (ds : List Name) (work : Work) → Pushed ds work (push_deps ds work)
push_deps-Pushed [] work = ([], sym (append-nil work.pending), refl, tt, tt, tt)
push_deps-Pushed (d ∷ ds) work =
    Pushed-trans d ds work (visit d work) (push_deps ds (visit d work)) (visit-Pushed d work)
      (push_deps-Pushed ds (visit d work))
