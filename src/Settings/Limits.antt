-- ===== src/Settings/Limits.antt =====
-- What the limits of a worker come to, for the functions and for the evictor.
use open_lambda.Prelude.{ℕ, suc, zero, ◌*◌, ◌≤◌, ◌≡◌, refl, false, Option, none, some, arith}
use open_lambda.Prelude.Int.{ℤ, pos, negsuc, ◌+ℤ◌, ltb_ℤ}
use open_lambda.Evictor.{Evictor, do_evictions}
use open_lambda.Settings.{
  LimitsConfig, fill, with_defaults, SandboxName, sock, docker, other, Config, max_ℤ, check_pool,
  check_sandbox, check_conf,
}

fill_assoc : (a b c : ℤ) → fill (fill a b) c ≡ fill a (fill b c)
fill_assoc (pos zero) b c = refl
fill_assoc (pos (suc n)) b c = refl
fill_assoc (negsuc n) b c = refl

fill_zero : (a : ℤ) → fill a (pos 0) ≡ a
fill_zero (pos zero) = refl
fill_zero (pos (suc n)) = refl
fill_zero (negsuc n) = refl

-- Filling the limits of a function from those of a worker, and the result from the built-in ones, is
-- filling them from what the worker's and the built-in ones come to, also where any of them is nil.
pub with_defaults_assoc :
    (a b c : Option LimitsConfig)
    → with_defaults (some (with_defaults a b)) c ≡ with_defaults a (some (with_defaults b c))
unfolding with_defaults
with_defaults_assoc a none none = simp (fill_zero) refl
with_defaults_assoc a none (some c) = refl
with_defaults_assoc a (some b) none = refl
with_defaults_assoc a (some b) (some c) = simp (fill_assoc) refl

pool_checked : (c : Config) → check_conf c ≡ none → c.sandbox ≡ sock → check_pool c ≡ none
unfolding check_conf check_sandbox
pool_checked c h s = ground (arith, h, s)

room_lem :
    (pool : ℤ) (mem install : ℕ)
    → ltb_ℤ pool (max_ℤ (pos install) (pos mem) +ℤ max_ℤ (pos install) (pos mem)) ≡ false
    → (p : ℕ) × (pool ≡ pos p) × (2 * mem ≤ p) × (2 * install ≤ p)
unfolding ◌+ℤ◌
room_lem (pos p) mem install h = (p, refl, ground (arith, h), ground (arith, h))
room_lem (negsuc p) mem install h = ground (arith, h)

-- The pool of a worker with SOCK sandboxes whose settings pass the check has room for two sandboxes at
-- the limit of functions, and for two at that of installers.
pub check-room :
    (c : Config) (mem install : ℕ)
    → check_conf c ≡ none
    → c.sandbox ≡ sock
    → c.limits.mem_mb ≡ pos mem
    → c.installer_limits.mem_mb ≡ pos install
    → (pool : ℕ) × (c.mem_pool_mb ≡ pos pool) × (2 * mem ≤ pool) × (2 * install ≤ pool)
unfolding check_pool
check-room c mem install h s m i =
    room_lem c.mem_pool_mb mem install (ground (arith, pool_checked c h s, m, i))

pool_without_limit :
    (pool install : ℤ) (mem : ℕ)
    → ltb_ℤ pool (max_ℤ install (pos mem) +ℤ max_ℤ install (pos mem)) ≡ false
    → ltb_ℤ pool (max_ℤ install (pos 0) +ℤ max_ℤ install (pos 0)) ≡ false
unfolding ◌+ℤ◌
pool_without_limit pool install mem h = ground (arith, h)

check_pool_without_limit :
    (c : Config) (mem : ℕ)
    → check_pool c ≡ none
    → c.limits.mem_mb ≡ pos mem
    → check_pool (record c { limits = record c.limits { mem_mb = pos 0 } }) ≡ none
unfolding check_pool
check_pool_without_limit c mem h m =
    let k = pool_without_limit c.mem_pool_mb c.installer_limits.mem_mb mem (ground (arith, h, m)) in
    ground (arith, k)

check_sandbox_without_limit :
    (s : SandboxName) (c : Config) (mem : ℕ)
    → check_sandbox s c ≡ none
    → c.limits.mem_mb ≡ pos mem
    → check_sandbox s (record c { limits = record c.limits { mem_mb = pos 0 } }) ≡ none
unfolding check_sandbox
check_sandbox_without_limit sock c mem h m =
    let k : check_pool c ≡ none = ground (arith, h) in
    let k' = check_pool_without_limit c mem k m in ground (arith, k', h)
check_sandbox_without_limit docker c mem h m = h
check_sandbox_without_limit other c mem h m = h

-- Settings that pass the check still pass it with a memory limit of 0 for functions, whatever
-- nonnegative limit they had; with that limit the evictor faults at every call.
pub check-no_limit :
    (c : Config) (mem total available : ℕ) (e : Evictor)
    → check_conf c ≡ none
    → c.limits.mem_mb ≡ pos mem
    → (check_conf (record c { limits = record c.limits { mem_mb = pos 0 } }) ≡ none)
      × (do_evictions total 0 available e ≡ none)
unfolding do_evictions check_conf
check-no_limit c mem total available e h m =
    let k : check_sandbox c.sandbox c ≡ none = ground (arith, h) in
    let k' = check_sandbox_without_limit c.sandbox c mem k m in (ground (arith, k', h), refl)
