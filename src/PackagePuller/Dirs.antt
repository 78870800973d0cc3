-- ===== src/PackagePuller/Dirs.antt =====
-- Every package that the puller holds as installed has its directory, whatever fails.
use open_lambda.Prelude.Texts.{same_text, same_text_sound, same_text_refl}
use open_lambda.Prelude.{
  ℕ, zero, suc, ◌≡◌, refl, true, false, inl, inr, List, [], ◌∷◌, ◌++◌, map, Option, none, some,
  arith, if◌then◌else◌, All, Bool-cases, Option-cases,
}
use open_lambda.PackagePuller.{
  Name, World, Puller, normalize_pkg, known, find_pkg, remove_dir, received, run_installer,
  sandbox_install, keep_installed, get_or_install, get_normalized, get_pkg, Outcome, installed,
  failed, out_of_fuel, after_get, push_deps, install_loop, install_recursive, add_all,
  before_version,
}

abbrev pub HasDirs : Puller → Type 0
HasDirs p = All (λ e. known e.0 p.dirs ≡ true) p.packages

-- A directory that stands after another one is removed.
known-remove_dir :
    (m n : Name) (ds : List Name)
    → same_text n m ≡ false
    → known m ds ≡ true
    → known m (remove_dir n ds) ≡ true
known-remove_dir m n [] differs h = h
known-remove_dir m n (d ∷ ds) differs h = elim (Bool-cases (same_text d n)) [
  | inl gone ↦
      let d_is_n = same_text_sound d n gone in
      let other : same_text d m ≡ false = rw d_is_n differs in
      rw gone (known-remove_dir m n ds differs (ground (arith, h, other)))
  | inr stays ↦ elim (Bool-cases (same_text d m)) [
    | inl here ↦ rw (stays, here) refl
    | inr other ↦ rw (stays, other) (known-remove_dir m n ds differs (ground (arith, h, other)))
  ]
]

different : (m n : Name) → same_text m n ≡ false → same_text n m ≡ false
different m n h = elim (Bool-cases (same_text n m)) [
  | inl same ↦
      let e = same_text_sound n m same in
      let self = same_text_refl m in let bad : same_text m m ≡ false = rw e at h in ground arith
  | inr differs ↦ differs
]

keeps_dirs :
    (n : Name) (ps : List (Name × List Name)) (ds : List Name)
    → find_pkg n ps ≡ none
    → All (λ e. known e.0 ds ≡ true) ps
    → All (λ e. known e.0 (remove_dir n ds) ≡ true) ps
keeps_dirs n [] ds absent h = tt
keeps_dirs n ((m, deps) ∷ ps) ds absent (h, hs) = elim (Bool-cases (same_text m n)) [
  | inl same ↦ ground (arith, absent, same)
  | inr differs ↦ (
    known-remove_dir m n ds (different m n differs) h,
    keeps_dirs n ps ds (ground (arith, absent, differs)) hs,
  )
]

more_dirs :
    (n : Name) (ps : List (Name × List Name)) (ds : List Name)
    → All (λ e. known e.0 ds ≡ true) ps
    → All (λ e. known e.0 (n ∷ ds) ≡ true) ps
more_dirs n [] ds h = tt
more_dirs n ((m, deps) ∷ ps) ds (h, hs) = (ground (arith, h), more_dirs n ps ds hs)

-- An answer after which all installed packages have directories, the one that was asked for too.
abbrev Ready : Name → Option (List Name) × Puller → Type 0
Ready n (none, q) = HasDirs q
Ready n (some deps, q) = HasDirs q × (known n q.dirs ≡ true)

received-Ready :
    (n : Name) (p : Puller) (r : Option (List Name))
    → find_pkg n p.packages ≡ none
    → HasDirs p
    → known n p.dirs ≡ true
    → Ready n (received n p r)
received-Ready n p none absent h there = keeps_dirs n p.packages p.dirs absent h
received-Ready n p (some deps) absent h there = (h, there)

sandbox_install-Ready :
    (w : World) (n : Name) (p : Puller)
    → find_pkg n p.packages ≡ none
    → HasDirs p
    → Ready n (sandbox_install w n p)
unfolding sandbox_install run_installer
sandbox_install-Ready w n p absent h = elim (Bool-cases (known n p.dirs)) [
  | inl there ↦
      rw there (received-Ready n p (if w.create_ok n then w.pip n true else none) absent h there)
  | inr new ↦ elim (Bool-cases (w.mkdir_ok n)) [
    | inl ok ↦
        let made : Puller = record p { dirs = n ∷ p.dirs } in
        rw (new, ok)
          (received-Ready n made (if w.create_ok n then w.pip n false else none) absent
            (more_dirs n p.packages p.dirs h) (rw (same_text_refl n) refl))
    | inr bad ↦ rw (new, bad) h
  ]
]

keep_installed-HasDirs :
    (n : Name) (a : Option (List Name) × Puller) → Ready n a → HasDirs (keep_installed n a).1
keep_installed-HasDirs n (none, q) h = h
keep_installed-HasDirs n (some deps, q) (h, there) = (there, h)

get_pkg-HasDirs : (w : World) (n : Name) (p : Puller) → HasDirs p → HasDirs (get_pkg w n p).1
unfolding get_pkg get_normalized get_or_install
get_pkg-HasDirs w n p h = elim (Option-cases (find_pkg (normalize_pkg n) p.packages)) [
  | inl absent ↦ rw absent (
      keep_installed-HasDirs (normalize_pkg n) (sandbox_install w (normalize_pkg n) p)
        (sandbox_install-Ready w (normalize_pkg n) p absent h))
  | inr (deps, found) ↦ rw found h
]

-- The puller that is left has a directory for each installed package.
abbrev pub LeavesDirs : Outcome → Type 0
LeavesDirs (installed r p) = HasDirs p
LeavesDirs (failed p) = HasDirs p
LeavesDirs out_of_fuel = Unit

after_get-LeavesDirs :
    (k : List Name → Puller → Outcome) (a : Option (List Name) × Puller)
    → HasDirs a.1
    → ((deps : List Name) (q : Puller) → HasDirs q → LeavesDirs (k deps q))
    → LeavesDirs (after_get k a)
after_get-LeavesDirs k (none, q) h f = h
after_get-LeavesDirs k (some deps, q) h f = f deps q h

install_loop-LeavesDirs :
    (w : World) (fuel : ℕ) (past todo set : List Name) (p : Puller)
    → HasDirs p
    → LeavesDirs (install_loop w fuel past todo set p)
unfolding install_loop
install_loop-LeavesDirs w fuel past [] set p h = h
install_loop-LeavesDirs w zero past (n ∷ ns) set p h = tt
install_loop-LeavesDirs w (suc fuel) past (n ∷ ns) set p h =
    after_get-LeavesDirs
      (λ deps q.
        let work = push_deps deps (record { pending = ns; install_set = set }) in
        install_loop w fuel (past ++ n ∷ []) work.pending work.install_set q)
      (get_pkg w n p) (get_pkg-HasDirs w n p h)
      (λ deps q k.
        let work = push_deps deps (record { pending = ns; install_set = set }) in
        install_loop-LeavesDirs w fuel (past ++ n ∷ []) work.pending work.install_set q k)

-- If each package that the puller holds as installed has its directory, then so it is after an
-- `InstallRecursive` that succeeds or fails, though failed installations remove directories.
pub install_recursive-LeavesDirs :
    (w : World) (fuel : ℕ) (installs : List Name) (p : Puller)
    → HasDirs p
    → LeavesDirs (install_recursive w fuel installs p)
unfolding install_recursive
install_recursive-LeavesDirs w fuel installs p h =
    install_loop-LeavesDirs w fuel [] installs (add_all (map before_version installs) []) p h
