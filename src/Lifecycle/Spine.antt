-- ===== src/Lifecycle/Spine.antt =====
-- What the transitions of action_lifecycle.py let an action do.
use autonomous_ai_scout.Base.{
  ◌≡◌, refl, sym, ◌∙◌, ap, subst, Bool, true, Option, none, some, Result, ok, ◌>>=◌, >>=-eq-ok,
  ok-injective, List, [], ◌∷◌, ◌⊎◌, inl, inr, arith, ◌↔◌, text_eq, text_eq_iff, some_injective,
}
use mathlib.Core.Bool.{false≢true}
use autonomous_ai_scout.Lifecycle.State.{
  LifecycleState, proposed, validated, tested, secured, policy_checked, approved, claimed, executed,
  verified, blocked, completed, value, StateInput, member, read_state, is_transition, decide,
  can_transition, advance, read_states, same_states, same_state, required_states,
  authorize_lifecycle_completion, complete_read, parse_state,
}

-- The calls of `advance` along a list of targets.
unfoldable pub advance_all : LifecycleState → List LifecycleState → Result LifecycleState
unfolding advance
advance_all state [] = ok state
advance_all state (target ∷ targets) = do
  next ← advance (member state) (member target)
  advance_all next targets

-- The states that lead from a state to the completion.
abbrev pub spine : LifecycleState → List LifecycleState
spine completed = []
spine verified = completed ∷ []
spine executed = verified ∷ completed ∷ []
spine claimed = executed ∷ verified ∷ completed ∷ []
spine approved = claimed ∷ executed ∷ verified ∷ completed ∷ []
spine policy_checked = approved ∷ claimed ∷ executed ∷ verified ∷ completed ∷ []
spine secured = policy_checked ∷ approved ∷ claimed ∷ executed ∷ verified ∷ completed ∷ []
spine tested = secured ∷ policy_checked ∷ approved ∷ claimed ∷ executed ∷ verified ∷ completed ∷ []
spine validated =
    tested ∷ secured ∷ policy_checked ∷ approved ∷ claimed ∷ executed ∷ verified ∷ completed ∷ []
spine proposed =
    validated ∷ tested ∷ secured ∷ policy_checked ∷ approved ∷ claimed ∷ executed ∷ verified
    ∷ completed ∷ []
spine blocked = []

advance-target :
    (s t : LifecycleState) {u : LifecycleState}
    → advance (member s) (member t) ≡ ok u
    → (is_transition s t ≡ true) × (u ≡ t)
unfolding advance can_transition decide read_state
advance-target s t e = ground arith

advance_all-blocked : (ts : List LifecycleState) → advance_all blocked ts ≡ ok completed → ⊥
unfolding advance_all advance can_transition decide read_state is_transition
advance_all-blocked [] e = absurd (ground arith)
advance_all-blocked (t ∷ ts) e = cc

pub spine-step :
    (s t : LifecycleState) → is_transition s t ≡ true → (t ≡ blocked) ⊎ (spine s ≡ t ∷ spine t)
unfolding is_transition
spine-step s t h = ground arith

unfinished-blocked : (s : LifecycleState) → s ≡ completed → [] ≡ spine s
unfinished-blocked s e = rw e refl

advance_all-spine :
    (s : LifecycleState) (ts : List LifecycleState) → advance_all s ts ≡ ok completed → ts ≡ spine s
unfolding advance_all
advance_all-spine s [] e = unfinished-blocked s (ok-injective e)
advance_all-spine s (t ∷ ts) e =
    let (u, e1, e2) = >>=-eq-ok (advance (member s) (member t)) _ e in
    let (step, same) = advance-target s t e1 in
    let rest = subst (λ v. advance_all v ts ≡ ok completed) same e2 in
    elim (spine-step s t step) [
      | inl b ↦
          absurd (advance_all-blocked ts (subst (λ v. advance_all v ts ≡ ok completed) b rest))
      | inr spine' ↦ ap (λ l. t ∷ l) (advance_all-spine t ts rest) ∙ sym spine'
    ]

-- An action that goes from proposed to completed has passed all the gates in order: the only targets
-- that lead there are validated, tested, secured, policy checked, approved, claimed, executed,
-- verified and completed.
pub completed-only_through :
    (targets : List LifecycleState)
    → advance_all proposed targets ≡ ok completed
    → targets
      ≡ validated ∷ tested ∷ secured ∷ policy_checked ∷ approved ∷ claimed ∷ executed ∷ verified
        ∷ completed ∷ []
completed-only_through targets e = advance_all-spine proposed targets e

pub parse_state-value : (s : LifecycleState) → parse_state (value s) ≡ some s
unfolding parse_state value
parse_state-value proposed = refl
parse_state-value validated = refl
parse_state-value tested = refl
parse_state-value secured = refl
parse_state-value policy_checked = refl
parse_state-value approved = refl
parse_state-value claimed = refl
parse_state-value executed = refl
parse_state-value verified = refl
parse_state-value blocked = refl
parse_state-value completed = refl

pub value-injective : (s t : LifecycleState) → text_eq (value s) (value t) ≡ true → s ≡ t
value-injective s t h = some_injective (
    sym (parse_state-value s)
    ∙ ap parse_state ((text_eq_iff (value s) (value t)).0 h)
    ∙ parse_state-value t)

same_states-eq : (xs ys : List LifecycleState) → same_states xs ys ≡ true → xs ≡ ys
unfolding same_states same_state
same_states-eq [] [] h = refl
same_states-eq [] (y ∷ ys) h = cc
same_states-eq (x ∷ xs) [] h = cc
same_states-eq (x ∷ xs) (y ∷ ys) h = ground (arith, same_states-eq xs ys, value-injective x y)

complete_read-allowed :
    (o : Option (List LifecycleState)) (approval claim post_change : Bool)
    → (complete_read o approval claim post_change).allowed ≡ true
    → (o ≡ some required_states) × (approval ≡ true) × (claim ≡ true) × (post_change ≡ true)
complete_read-allowed none a c p h = absurd (false≢true h)
complete_read-allowed (some xs) a c p h = ground (arith, same_states-eq xs required_states)

-- A completion is authorized exactly if the states that are passed are, in order, all nine that come
-- before it, and the approval, its claim and the verification after the change are present.
pub completion-allowed_iff :
    (states : List StateInput) (approval claim post_change : Bool)
    → ((authorize_lifecycle_completion states approval claim post_change).allowed ≡ true) ↔ (
        (read_states states
          ≡ some (
              proposed ∷ validated ∷ tested ∷ secured ∷ policy_checked ∷ approved ∷ claimed
              ∷ executed ∷ verified ∷ []))
        × (approval ≡ true)
        × (claim ≡ true)
        × (post_change ≡ true))
unfolding authorize_lifecycle_completion same_states value
completion-allowed_iff states approval claim post_change = (
  complete_read-allowed (read_states states) approval claim post_change,
  λ h. complete (read_states states) h.0 h.1 h.2 h.3,
)
  where
    complete :
        (o : Option (List LifecycleState)) {a c p : Bool}
        → o ≡ some required_states
        → a ≡ true
        → c ≡ true
        → p ≡ true
        → (complete_read o a c p).allowed ≡ true
    complete o e f g h = rw (e, f, g, h) refl
