-- ===== src/PackagePuller/Closure.antt =====
-- The result of `InstallRecursive` is the closure of the packages asked for under dependencies.
use open_lambda.Prelude.Texts.{same_text_refl}
use open_lambda.Prelude.{
  ℕ, zero, suc, ◌≡◌, sym, ◌∙◌, ap, subst, true, List, [], ◌∷◌, ◌++◌, append_assoc, append-nil, map,
  Option, none, some, arith, All, All-append, All-map,
}
use open_lambda.PackagePuller.{
  Name, World, Puller, Work, Outcome, normalize_pkg, known, find_pkg, push_deps, get_pkg, installed,
  after_get, install_loop, install_recursive, add_all, before_version,
}
use open_lambda.PackagePuller.Names.{known-append, known-add_all, add_all-append}
use open_lambda.PackagePuller.Pushing.{
  Unseen, Unseen-append, Keeps, Found, get_pkg-Found, Pushed, push_deps-Pushed,
}

-- A package that is installed, each dependency of which is one of some names.
abbrev pub Settled : List Name → Puller → Name → Type 0
Settled set p n =
    (deps : List Name) × (find_pkg (normalize_pkg n) p.packages ≡ some deps)
    × All (λ d. known d set ≡ true) deps

-- A dependency of one of some packages, which is installed.
abbrev pub Wanted : List Name → Puller → Name → Type 0
Wanted ns p d =
    (n : Name) × (deps : List Name) × (known n ns ≡ true)
    × (find_pkg (normalize_pkg n) p.packages ≡ some deps)
    × (known d deps ≡ true)

-- What the loop has done, from `todo` and a set of names.
abbrev Done : List Name → List Name → List Name → Puller → List Name → Puller → Type 0
Done past todo set p r p' =
    (more : List Name) × (r ≡ past ++ (todo ++ more))
    × Unseen more set
    × All (Settled (add_all more set) p') (todo ++ more)
    × All (Wanted r p') more
    × Keeps p p'

known_middle : (n : Name) (ms ks : List Name) → known n (ms ++ n ∷ ks) ≡ true
known_middle n ms ks =
    let split = known-append n ms (n ∷ ks) in let here = same_text_refl n in ground arith

Done-round :
    (past : List Name) (n : Name) (ns set deps : List Name) (work : Work) (p q p' : Puller)
    (r : List Name)
    → Done (past ++ n ∷ []) work.pending work.install_set q r p'
    → Pushed deps (record { pending = ns; install_set = set }) work
    → find_pkg (normalize_pkg n) q.packages ≡ some deps
    → Keeps p q
    → Done past (n ∷ ns) set p r p'
Done-round past n ns set deps work p q p' r (m, re, un, st, wa, ke) (new, pe, se, un', kn, from)
      found keeps =
    let join = add_all-append new m set in
    let flat = append_assoc ns new m in
    let all_of : r ≡ past ++ (n ∷ (ns ++ (new ++ m))) =
      re
      ∙ append_assoc past (n ∷ []) (work.pending ++ m)
      ∙ ap (λ l. past ++ (n ∷ (l ++ m))) pe
      ∙ ap (λ l. past ++ (n ∷ l)) flat in
    let still = ke (normalize_pkg n) deps found in
    let settled : All (Settled (add_all (new ++ m) set) p') (ns ++ (new ++ m)) =
      subst (λ l. All (Settled (add_all (new ++ m) set) p') l) flat
        (subst (λ l. All (Settled (add_all (new ++ m) set) p') (l ++ m)) pe
          (subst (λ l. All (Settled l p') (work.pending ++ m)) (ap (add_all m) se ∙ sym join)
            st)) in
    (
      new ++ m,
      all_of,
      Unseen-append new m set un' (rw se at un),
      (
        (
          deps,
          still,
          All-map (λ e. known e (add_all new set) ≡ true)
              (λ e. known e (add_all (new ++ m) set) ≡ true) deps
              (λ e h. rw join (known-add_all e m (add_all new set) h)) kn,
        ),
        settled,
      ),
      All-append (Wanted r p') new m
          (All-map (λ d. known d deps ≡ true) (Wanted r p') new
            (λ d h. (n, deps, rw all_of (known_middle n past (ns ++ (new ++ m))), still, h)) from)
          wa,
      λ x ds h. ke x ds (keeps x ds h),
    )

after_get-Done :
    (past : List Name) (n : Name) (ns set : List Name) (k : List Name → Puller → Outcome)
    (a : Option (List Name) × Puller) (p p' : Puller) (r : List Name)
    → Found (normalize_pkg n) p a
    → ((deps : List Name) (q : Puller)
        → k deps q ≡ installed r p'
        → (work : Work) × Done (past ++ n ∷ []) work.pending work.install_set q r p'
          × Pushed deps (record { pending = ns; install_set = set }) work)
    → after_get k a ≡ installed r p'
    → Done past (n ∷ ns) set p r p'
after_get-Done past n ns set k (none, q) p p' r h f e = ground arith
after_get-Done past n ns set k (some deps, q) p p' r (found, keeps) f e =
    let (work, later, pushed) = f deps q e in
    Done-round past n ns set deps work p q p' r later pushed found keeps

install_loop-Done :
    (w : World) (fuel : ℕ) (past todo set : List Name) (p p' : Puller) (r : List Name)
    → install_loop w fuel past todo set p ≡ installed r p'
    → Done past todo set p r p'
unfolding install_loop
install_loop-Done w fuel past [] set p p' r e =
    let same : (past ≡ r) × (p ≡ p') = ground arith in
    ([], sym same.0 ∙ sym (append-nil past), tt, tt, tt, λ m ds h. rw same.1 at h)
install_loop-Done w zero past (n ∷ ns) set p p' r e = ground arith
install_loop-Done w (suc fuel) past (n ∷ ns) set p p' r e =
    after_get-Done past n ns set
      (λ deps q.
        let work = push_deps deps (record { pending = ns; install_set = set }) in
        install_loop w fuel (past ++ n ∷ []) work.pending work.install_set q)
      (get_pkg w n p) p p' r (get_pkg-Found w n p)
      (λ deps q h.
        let start : Work = record { pending = ns; install_set = set } in
        let work = push_deps deps start in
        (
          work,
          install_loop-Done w fuel (past ++ n ∷ []) work.pending work.install_set q p' r h,
          push_deps-Pushed deps start,
        ))
      e

-- If `InstallRecursive` succeeds, its result is the packages asked for and then others: no dependency
-- comes twice or is the name, without version, of a package asked for; all are installed; every
-- dependency of one of them is in the result or the name of a package asked for; and each of the
-- others is a dependency of one in the result.
pub install_recursive_closure :
    (w : World) (fuel : ℕ) (installs : List Name) (p p' : Puller) (r : List Name)
    → install_recursive w fuel installs p ≡ installed r p'
    → (more : List Name) × (r ≡ installs ++ more)
      × Unseen more (add_all (map before_version installs) [])
      × All
          (Settled (add_all more (add_all (map before_version installs) [])) p')
          (installs ++ more)
      × All (Wanted r p') more
unfolding install_recursive
install_recursive_closure w fuel installs p p' r e =
    let names = add_all (map before_version installs) [] in
    let (more, all_of, new, settled, wanted, _) =
      install_loop-Done w fuel [] installs names p p' r e in
    (more, all_of, new, settled, wanted)
