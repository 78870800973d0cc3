-- ===== src/PackagePuller.antt =====
-- go/worker/lambda/packages/packagePuller.go: Python packages, each installed once, and the closure of
-- their dependencies. A text is the list of its bytes, in ASCII. pip, which runs in a sandbox, and the
-- file system are parameters (`World`). A call holds the lock of its package while it installs.
pub mod Names
pub mod Fuel
pub mod Pushing
pub mod Closure
pub mod Dirs
mod Tests
use open_lambda.Prelude.Texts.{Text, same_text, same_text_sound, same_text_refl}
use open_lambda.Prelude.{
  ℕ, zero, suc, ◌+◌, Bool, true, false, ◌&&◌, ◌||◌, List, [], ◌∷◌, ◌++◌, map, Option, none, some,
  if◌then◌else◌, ◌==◌, leb, length,
}

abbrev pub Name : Type 0
Name = Text

-- Lower case, with `-` for `_`.
abbrev pub normalize_char : ℕ → ℕ
normalize_char c = if c == 95 then 45 else (if leb 65 c && leb c 90 then c + 32 else c)

unfoldable pub normalize_pkg : Name → Name
normalize_pkg cs = map normalize_char cs

abbrev starts_eq : Name → Bool
starts_eq [] = false
starts_eq (c ∷ cs) = c == 61

-- `strings.Split(install, "==")[0]`
abbrev pub before_version : Name → Name
before_version [] = []
before_version (c ∷ cs) =
    let rest = before_version cs in if c == 61 && starts_eq cs then [] else c ∷ rest

abbrev pub known : Name → List Name → Bool
known n [] = false
known n (m ∷ ms) = same_text m n || known n ms

-- The packages that are installed, with their dependencies, and the directories of packages.
pub record Puller : Type 0 where
  pub packages : List (Name × List Name)
  pub dirs : List Name

abbrev pub find_pkg : Name → List (Name × List Name) → Option (List Name)
find_pkg n [] = none
find_pkg n ((m, deps) ∷ ps) = if same_text m n then some deps else find_pkg n ps

-- The answers of the file system, of the sandbox pool and of the installer, which gets a package and
-- whether its directory was there. `none` is an error, of the request, its status or its body.
pub record World : Type 0 where
  pub mkdir_ok : Name → Bool
  pub create_ok : Name → Bool
  pub pip : Name → Bool → Option (List Name)

abbrev pub remove_dir : Name → List Name → List Name
remove_dir n [] = []
remove_dir n (d ∷ ds) = let rest = remove_dir n ds in if same_text d n then rest else d ∷ rest

-- After a request to the installer; a failure removes the directory.
abbrev pub received : Name → Puller → Option (List Name) → Option (List Name) × Puller
received n p none = (none, record p { dirs = remove_dir n p.dirs })
received n p (some deps) = (some (map normalize_pkg deps), p)

unfoldable pub run_installer : World → Name → Bool → Puller → Option (List Name) × Puller
run_installer w n already p = received n p (if w.create_ok n then w.pip n already else none)

unfoldable pub sandbox_install : World → Name → Puller → Option (List Name) × Puller
sandbox_install w n p =
    if known n p.dirs
    then run_installer w n true p
    else (if w.mkdir_ok n
        then run_installer w n false (record p { dirs = n ∷ p.dirs })
        else (none, p))

abbrev pub keep_installed : Name → Option (List Name) × Puller → Option (List Name) × Puller
keep_installed n (none, p) = (none, p)
keep_installed n (some deps, p) = (some deps, record p { packages = (n, deps) ∷ p.packages })

-- `GetPkg` with its fast and its slow path; the answer is the dependencies.
unfoldable pub get_or_install :
    World → Name → Puller → Option (List Name) → Option (List Name) × Puller
get_or_install w n p (some deps) = (some deps, p)
get_or_install w n p none = keep_installed n (sandbox_install w n p)

unfoldable pub get_normalized : World → Name → Puller → Option (List Name) × Puller
get_normalized w n p = get_or_install w n p (find_pkg n p.packages)

unfoldable pub get_pkg : World → Name → Puller → Option (List Name) × Puller
get_pkg w n p = get_normalized w (normalize_pkg n) p

-- `installs[i:]` and `installSet`.
pub record Work : Type 0 where
  pub pending : List Name
  pub install_set : List Name

abbrev pub visit : Name → Work → Work
visit d work =
    if known d work.install_set
    then work
    else record { pending = work.pending ++ d ∷ []; install_set = d ∷ work.install_set }

abbrev pub push_deps : List Name → Work → Work
push_deps [] work = work
push_deps (d ∷ ds) work = push_deps ds (visit d work)

pub data Outcome : Type 0 where
  installed : List Name → Puller → Outcome
  failed : Puller → Outcome
  out_of_fuel : Outcome

abbrev pub after_get : (List Name → Puller → Outcome) → Option (List Name) × Puller → Outcome
after_get continue (none, p) = failed p
after_get continue (some deps, p) = continue deps p

-- The loop over `installs`, of which the first argument after the fuel is the part before `i`.
unfoldable pub install_loop : World → ℕ → List Name → List Name → List Name → Puller → Outcome
install_loop w fuel past [] set p = installed past p
install_loop w zero past (n ∷ ns) set p = out_of_fuel
install_loop w (suc fuel) past (n ∷ ns) set p =
    after_get
      (λ deps p'.
        let work = push_deps deps (record { pending = ns; install_set = set }) in
        install_loop w fuel (past ++ n ∷ []) work.pending work.install_set p')
      (get_pkg w n p)

abbrev pub add_all : List Name → List Name → List Name
add_all [] set = set
add_all (n ∷ ns) set = add_all ns (n ∷ set)

unfoldable pub install_recursive : World → ℕ → List Name → Puller → Outcome
install_recursive w fuel installs p =
    install_loop w fuel [] installs (add_all (map before_version installs) []) p
