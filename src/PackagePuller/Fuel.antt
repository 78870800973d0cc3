-- ===== src/PackagePuller/Fuel.antt =====
-- The loop of `InstallRecursive` ends: each package enters `installs` at most once.
use open_lambda.Prelude.Texts.{same_text, same_text_sound, same_text_refl}
use open_lambda.Prelude.{
  ℕ, zero, suc, ◌+◌, ◌≤◌, ◌≡◌, refl, Bool, true, false, ◌⊎◌, inl, inr, List, [], ◌∷◌, ◌++◌, map,
  Option, none, some, arith, if◌then◌else◌, length, length-append, All, Bool-cases, eq_of-some,
}
use open_lambda.PackagePuller.{
  Name, World, Puller, Work, Outcome, normalize_pkg, known, find_pkg, visit, push_deps,
  run_installer, sandbox_install, keep_installed, get_or_install, get_normalized, get_pkg, received,
  after_get, installed, failed, install_loop, install_recursive, add_all, before_version,
}

-- How many of some names are not in a set.
abbrev missing : List Name → List Name → ℕ
missing [] set = 0
missing (u ∷ us) set = let rest = missing us set in if known u set then rest else suc rest

missing-le : (us : List Name) (d : Name) (set : List Name) → missing us (d ∷ set) ≤ missing us set
missing-le [] d set = omega arith
missing-le (u ∷ us) d set = ground (arith, missing-le us d set)

missing-lt :
    (us : List Name) (d : Name) (set : List Name)
    → known d us ≡ true
    → known d set ≡ false
    → suc (missing us (d ∷ set)) ≤ missing us set
missing-lt [] d set h new = ground arith
missing-lt (u ∷ us) d set h new = elim (Bool-cases (same_text u d)) [
  | inl same ↦
      let e = same_text_sound u d same in
      rw e (ground (arith, missing-le us d set, new, same_text_refl d))
  | inr differs ↦ ground (arith, missing-lt us d set, differs)
]

missing-le_length : (us set : List Name) → missing us set ≤ length us
missing-le_length [] set = omega arith
missing-le_length (u ∷ us) set = ground (arith, missing-le_length us set)

abbrev Within : List Name → List Name → Type 0
Within us = All (λ d. known d us ≡ true)

visit_measure :
    (us : List Name) (d : Name) (work : Work)
    → known d us ≡ true
    → missing us (visit d work).install_set + length (visit d work).pending
      ≤ missing us work.install_set + length work.pending
visit_measure us d work h = elim (Bool-cases (known d work.install_set)) [
  | inl old ↦ rw old (omega arith)
  | inr new ↦
      rw new
        (omega (arith, missing-lt us d work.install_set h new, length-append work.pending (d ∷ [])))
]

push_measure :
    (us ds : List Name) (work : Work)
    → Within us ds
    → missing us (push_deps ds work).install_set + length (push_deps ds work).pending
      ≤ missing us work.install_set + length work.pending
push_measure us [] work h = omega arith
push_measure us (d ∷ ds) work (h, k) =
    omega (arith, visit_measure us d work h, push_measure us ds (visit d work) k)

-- Every dependency that pip names, and every one of a package that is installed, is one of some names.
abbrev pub Closed : List Name → World → Type 0
Closed us w =
    (n : Name) (already : Bool) (deps : List Name)
    → w.pip n already ≡ some deps
    → All (λ d. known d us ≡ true) (map normalize_pkg deps)

abbrev pub ClosedPackages : List Name → Puller → Type 0
ClosedPackages us p = All (λ e. All (λ d. known d us ≡ true) e.1) p.packages

find_closed :
    (us : List Name) (m : Name) (deps : List Name) (ps : List (Name × List Name))
    → All (λ e. Within us e.1) ps
    → find_pkg m ps ≡ some deps
    → Within us deps
find_closed us m deps [] h e = ground arith
find_closed us m deps ((k, ds) ∷ ps) (h, hs) e = elim (Bool-cases (same_text k m)) [
  | inl same ↦ let e' : some ds ≡ some deps = ground (arith, same) in rw (eq_of-some e') at h
  | inr differs ↦ find_closed us m deps ps hs (ground (arith, differs))
]

abbrev GoodAnswer : List Name → Option (List Name) × Puller → Type 0
GoodAnswer us (none, p) = ClosedPackages us p
GoodAnswer us (some deps, p) = Within us deps × ClosedPackages us p

received-GoodAnswer :
    (us : List Name) (n : Name) (p : Puller) (r : Option (List Name))
    → ((deps : List Name) → r ≡ some deps → Within us (map normalize_pkg deps))
    → ClosedPackages us p
    → GoodAnswer us (received n p r)
received-GoodAnswer us n p none closed h = h
received-GoodAnswer us n p (some deps) closed h = (closed deps refl, h)

answer-Closed :
    (us : List Name) (w : World) (n : Name) (already ok : Bool)
    → Closed us w
    → (deps : List Name) → (if ok then w.pip n already else none) ≡ some deps
    → Within us (map normalize_pkg deps)
answer-Closed us w n already true closed deps e = closed n already deps e
answer-Closed us w n already false closed deps e = ground arith

run_installer-GoodAnswer :
    (us : List Name) (w : World) (n : Name) (already : Bool) (p : Puller)
    → Closed us w
    → ClosedPackages us p
    → GoodAnswer us (run_installer w n already p)
unfolding run_installer
run_installer-GoodAnswer us w n already p closed h =
    received-GoodAnswer us n p (if w.create_ok n then w.pip n already else none)
      (answer-Closed us w n already (w.create_ok n) closed) h

sandbox_install-GoodAnswer :
    (us : List Name) (w : World) (n : Name) (p : Puller)
    → Closed us w
    → ClosedPackages us p
    → GoodAnswer us (sandbox_install w n p)
unfolding sandbox_install
sandbox_install-GoodAnswer us w n p closed h = elim (Bool-cases (known n p.dirs)) [
  | inl there ↦ rw there (run_installer-GoodAnswer us w n true p closed h)
  | inr absent ↦ elim (Bool-cases (w.mkdir_ok n)) [
    | inl ok ↦
        rw (absent, ok)
          (run_installer-GoodAnswer us w n false (record p { dirs = n ∷ p.dirs }) closed h)
    | inr bad ↦ rw (absent, bad) h
  ]
]

keep_installed-GoodAnswer :
    (us : List Name) (n : Name) (a : Option (List Name) × Puller)
    → GoodAnswer us a
    → GoodAnswer us (keep_installed n a)
keep_installed-GoodAnswer us n (none, p) h = h
keep_installed-GoodAnswer us n (some deps, p) (h, k) = (h, (h, k))

get_or_install-GoodAnswer :
    (us : List Name) (w : World) (n : Name) (p : Puller) (found : Option (List Name))
    → Closed us w
    → ClosedPackages us p
    → find_pkg n p.packages ≡ found
    → GoodAnswer us (get_or_install w n p found)
unfolding get_or_install
get_or_install-GoodAnswer us w n p none closed h e =
    keep_installed-GoodAnswer us n (sandbox_install w n p)
      (sandbox_install-GoodAnswer us w n p closed h)
get_or_install-GoodAnswer us w n p (some deps) closed h e =
    (find_closed us n deps p.packages h e, h)

get_pkg-GoodAnswer :
    (us : List Name) (w : World) (n : Name) (p : Puller)
    → Closed us w
    → ClosedPackages us p
    → GoodAnswer us (get_pkg w n p)
unfolding get_pkg get_normalized
get_pkg-GoodAnswer us w n p closed h =
    get_or_install-GoodAnswer us w (normalize_pkg n) p (find_pkg (normalize_pkg n) p.packages)
      closed h refl

-- `InstallRecursive` returns, with packages or with an error.
abbrev pub Returns : Outcome → Type 0
Returns o = ((r : List Name) × (p : Puller) × (o ≡ installed r p)) ⊎ ((p : Puller) × (o ≡ failed p))

after_get-Returns :
    (us : List Name) (k : List Name → Puller → Outcome) (a : Option (List Name) × Puller)
    → GoodAnswer us a
    → ((deps : List Name) (p : Puller) → Within us deps → ClosedPackages us p → Returns (k deps p))
    → Returns (after_get k a)
after_get-Returns us k (none, p) h f = inr (p, refl)
after_get-Returns us k (some deps, p) (h, hp) f = f deps p h hp

install_loop-Returns :
    (us : List Name) (w : World) (fuel : ℕ) (past todo set : List Name) (p : Puller)
    → Closed us w
    → ClosedPackages us p
    → missing us set + length todo ≤ fuel
    → Returns (install_loop w fuel past todo set p)
unfolding install_loop
install_loop-Returns us w fuel past [] set p closed h enough = inl (past, p, refl)
install_loop-Returns us w zero past (n ∷ ns) set p closed h enough =
    let bad : ⊥ = omega (arith, enough) in elim bad [ ]
install_loop-Returns us w (suc fuel) past (n ∷ ns) set p closed h enough =
    after_get-Returns us
      (λ deps p'.
        let work = push_deps deps (record { pending = ns; install_set = set }) in
        install_loop w fuel (past ++ n ∷ []) work.pending work.install_set p')
      (get_pkg w n p) (get_pkg-GoodAnswer us w n p closed h)
      (λ deps p' within hp.
        let start : Work = record { pending = ns; install_set = set } in
        let work = push_deps deps start in
        install_loop-Returns us w fuel (past ++ n ∷ []) work.pending work.install_set p' closed hp
          (omega (arith, enough, push_measure us deps start within)))

-- Where every dependency is one of some names, of the packages that are installed and of those that
-- pip installs, `InstallRecursive` returns after at most as many rounds as there are packages to
-- install and names.
pub install_recursive-Returns :
    (us : List Name) (w : World) (installs : List Name) (p : Puller)
    → Closed us w
    → ClosedPackages us p
    → Returns (install_recursive w (length us + length installs) installs p)
unfolding install_recursive
install_recursive-Returns us w installs p closed h =
    let set = add_all (map before_version installs) [] in
    install_loop-Returns us w (length us + length installs) [] installs set p closed h
      (omega (arith, missing-le_length us set))
