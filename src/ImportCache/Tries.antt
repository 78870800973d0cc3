-- ===== src/ImportCache/Tries.antt =====
-- The two tries of `createChildSandboxFromNode`. Others use the node in the meantime, so that each try
-- finds the node in two states, once for each time that it locks it.
use open_lambda.Prelude.{
  ℕ, ◌≡◌, ◌≢◌, refl, ap, ◌∙◌, Bool, true, false, List, [], ◌∷◌, Option, none, some, arith,
}
use open_lambda.ImportCache.Zygote.{
  Zygote, get_sandbox_in_node, put_sandbox_in_node, Effect, get_inner, discard, slow_path,
}

-- What the pool answers when a sandbox is created from the Zygote.
pub data Creation : Type 0 where
  made : ℕ → Creation
  fork_failed : Creation
  other_error : Creation

pub record Try : Type 0 where
  pub at_get : Zygote
  pub unpause_ok : Bool
  pub zygote_made : Option ℕ
  pub creation : Creation
  pub at_put : Zygote
  pub pause_ok : Bool

pub data Outcome : Type 0 where
  answered : Creation → Outcome
  no_zygote : Outcome  -- the error of `getSandboxInNode`
  negative_count : Outcome  -- the panic of `putSandboxInNode`
  unreachable : Outcome  -- the panic at the end

-- Is the loop left with this answer?
abbrev pub is_final : Creation → Bool → Bool
is_final fork_failed is_new = is_new
is_final c is_new = true

-- The end of a try; `rest` is what comes of the next one.
abbrev pub after_put : Option Zygote → Bool → Creation → Outcome → Outcome
after_put none final c rest = negative_count
after_put (some z) true c rest = answered c
after_put (some z) false c rest = rest

abbrev pub node_of : Option (Zygote × List Effect) → Option Zygote
node_of none = none
node_of (some (z, effects)) = some z

abbrev pub after_get : Option (ℕ × Bool) → Try → Outcome → Outcome
after_get none t rest = no_zygote
after_get (some (b, is_new)) t rest =
    after_put (node_of (put_sandbox_in_node b t.pause_ok t.at_put)) (is_final t.creation is_new)
      t.creation rest

-- The loop, for the tries that are left.
unfoldable pub create_child : Bool → List Try → Outcome
create_child force_new [] = unreachable
create_child force_new (t ∷ ts) =
    let rest = create_child true ts in
    after_get (get_sandbox_in_node force_new t.unpause_ok t.zygote_made t.at_get).2 t rest

-- With `forceNew`, a sandbox that is returned is new.
forced_is_new :
    (ok : Bool) (answer : Option ℕ) (z : Zygote) (b : ℕ) (is_new : Bool)
    → (get_sandbox_in_node true ok answer z).2 ≡ some (b, is_new)
    → is_new ≡ true
unfolding get_sandbox_in_node get_inner discard slow_path
forced_is_new ok answer z b is_new h = ground arith

is_final_new : (c : Creation) → is_final c true ≡ true
is_final_new (made b) = refl
is_final_new fork_failed = refl
is_final_new other_error = refl

after_put_rest :
    (o : Option Zygote) (final : Bool) (c : Creation) (rest : Outcome)
    → after_put o final c rest ≡ unreachable
    → (final ≡ false) × (rest ≡ unreachable)
after_put_rest none final c rest h = cc
after_put_rest (some z) true c rest h = cc
after_put_rest (some z) false c rest h = (refl, h)

after_get_rest :
    (o : Option (ℕ × Bool)) (t : Try) (rest : Outcome)
    → after_get o t rest ≡ unreachable
    → (b : ℕ) × (is_new : Bool) × (o ≡ some (b, is_new))
      × (is_final t.creation is_new ≡ false)
      × (rest ≡ unreachable)
after_get_rest none t rest h = cc
after_get_rest (some (b, is_new)) t rest h =
    let (more, end) =
      after_put_rest (node_of (put_sandbox_in_node b t.pause_ok t.at_put))
        (is_final t.creation is_new) t.creation rest h in
    (b, is_new, refl, more, end)

forced_ends : (t : Try) → create_child true (t ∷ []) ≢ unreachable
unfolding create_child
forced_ends t h =
    let got = (get_sandbox_in_node true t.unpause_ok t.zygote_made t.at_get).2 in
    let (b, is_new, e, more, end) = after_get_rest got t unreachable h in
    let new : is_new ≡ true = forced_is_new t.unpause_ok t.zygote_made t.at_get b is_new e in
    let final : is_final t.creation is_new ≡ true =
      ap (is_final t.creation) new ∙ is_final_new t.creation in
    cc

two_tries :
    (first second : Try)
    → create_child false (first ∷ second ∷ []) ≡ unreachable
    → after_get
        (get_sandbox_in_node false first.unpause_ok first.zygote_made first.at_get).2
        first
        (create_child true (second ∷ []))
      ≡ unreachable
unfolding create_child
two_tries first second h = h

-- Two tries are enough: the panic after the loop is not reached, whatever others do to the node in the
-- meantime and whatever fails.
pub create_child_reachable :
    (first second : Try) → create_child false (first ∷ second ∷ []) ≢ unreachable
create_child_reachable first second h =
    let got = (get_sandbox_in_node false first.unpause_ok first.zygote_made first.at_get).2 in
    let (b, is_new, e, more, end) =
      after_get_rest got first (create_child true (second ∷ [])) (two_tries first second h) in
    forced_ends second end
