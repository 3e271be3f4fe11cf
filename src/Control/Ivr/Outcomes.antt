-- ===== src/Control/Ivr/Outcomes.antt =====
-- The outcome of a business action: `CompleteBusinessAction` of control/ivr.go.
use mathlib.Core.Option.{some-injective}
use open_voip.Base.{
  ℕ, String, ◌==◌, ◌≡◌, refl, sym, subst, Bool-cases, true, false, not, ◌&&◌, Option-cases, some,
  none, Option, List, [], ◌∷◌, Has, find, eq_iff, ◌∙◌, if_true, inl, inr, arith,
}
use open_voip.Ports.{BusinessAction, CallRecord}
use open_voip.Ports.{ivr}
use open_voip.Control.State.{Cell, Env, IvrRuntime, Result, RuntimeCall, ok, err}
use open_voip.Control.Exec.{asks, continue, fail, pure, with_live, with_option, ◌>>=◌}
use open_voip.Control.Exec.Keeps.{Keeps, keeps_rules}
use open_voip.CallStore.{get_call}
use open_voip.Control.Mutation.{view_version}
use open_voip.Control.Ivr.Inputs.{
  complete_business_action, is_ivr_state, outcome_target, resolve_action, submit_outcome, waits_for,
}

waits_for-true :
    (action_id : String) (rt : RuntimeCall)
    → waits_for action_id rt ≡ true
    → (i : IvrRuntime) × (rt.ivr ≡ some i) × (rt.rec.state ≡ ivr) × (i.action_id ≡ action_id)
unfolding waits_for is_ivr_state
waits_for-true action_id rt h = elim (Option-cases rt.ivr) [
  | inl e ↦ absurd (ground (arith, e))
  | inr (i, e) ↦ (i, e, ground (arith, e), ground (arith, e, eq_iff i.action_id action_id))
]

find-Has : (k v : String) (m : List (String × String)) → find k m ≡ some v → Has (k, v) m
find-Has k v [] h = absurd (cc h)
find-Has k v ((j, u) ∷ m) h = elim (Bool-cases (j == k)) [
  | inl e ↦ inl (cc ((eq_iff j k).0 e, some-injective _ _ (sym (if_true _ _ e) ∙ h)))
  | inr e ↦ inr (find-Has k v m (rw e at h))
]

outcome_target-some :
    (outcome : String) (choices : Option (List (String × String))) (next : String)
    → outcome_target outcome choices ≡ some next
    → (m : List (String × String)) × (choices ≡ some m) × Has (outcome, next) m
unfolding outcome_target
outcome_target-some outcome none next h = absurd (cc h)
outcome_target-some outcome (some m) next h = (m, refl, find-Has outcome next m h)

-- The call waits for this action, and the flow declares the outcome.
pub record IsAwaited (action : BusinessAction) (action_id outcome : String) (c : Cell)
    : Type 0 where
  pub rt : RuntimeCall
  pub live : c.live ≡ some rt
  pub runs : IvrRuntime
  pub flow : rt.ivr ≡ some runs
  pub walking : rt.rec.state ≡ ivr
  pub waits : runs.action_id ≡ action_id
  pub next : String
  pub choices : List (String × String)
  pub offers : action.outcomes ≡ some choices
  pub declared : Has (outcome, next) choices

awaited :
    (action : BusinessAction) (action_id outcome next : String) (rt : RuntimeCall) (c : Cell)
    → c.live ≡ some rt
    → waits_for action_id rt ≡ true
    → outcome_target outcome action.outcomes ≡ some next
    → IsAwaited action action_id outcome c
awaited action action_id outcome next rt c l waits declared =
    let (runs, flow, walking, here) = waits_for-true action_id rt waits in
    let (choices, offers, listed) = outcome_target-some outcome action.outcomes next declared in
    record {
      rt = rt;
      live = l;
      runs = runs;
      flow = flow;
      walking = walking;
      waits = here;
      next = next;
      choices = choices;
      offers = offers;
      declared = listed;
    }

module _ (env : Env) (meta : CallRecord → String → String → String → String) (fuel : ℕ)
    (action_id outcome : String) (c : Cell) where
  -- The call is as it was; the outcome was taken only where it is the one of a completed action.
  abbrev Unmoved : BusinessAction → Result (Unit {0}) × Cell → Type 0
  Unmoved action r =
      (r.1 ≡ c) × (r.0 ≡ ok tt → (action.status == "completed" && action.outcome == outcome) ≡ true)

  resolve_unawaited :
      (action : BusinessAction)
      → ¬ IsAwaited action action_id outcome c
      → Unmoved action (resolve_action env meta fuel action action_id outcome c)
  unfolding resolve_action with_live with_option fail
  resolve_unawaited action h = elim (Option-cases c.live) [
    | inl e ↦ rw e (refl, λ k. absurd (cc k))
    | inr (rt, e) ↦ rw e (elim (Bool-cases (waits_for action_id rt)) [
      | inr idle ↦ rw idle (refl, λ k. absurd (cc k))
      | inl waits ↦ rw waits (elim (Option-cases (outcome_target outcome action.outcomes)) [
        | inl undeclared ↦ rw undeclared (refl, λ k. absurd (cc k))
        | inr (next, declared) ↦
            absurd (h (awaited action action_id outcome next rt c e waits declared))
      ])
    ])
  ]

  view_version-keeps : Keeps (λ d. d ≡ c) (view_version env)
  unfolding view_version get_call
  view_version-keeps = search keeps_rules depth 20

  after_version :
      (action : BusinessAction) (version : Result ℕ) (d : Cell)
      → d ≡ c
      → ¬ IsAwaited action action_id outcome c
      → Unmoved action
          (continue version (λ v. resolve_action env meta fuel action action_id outcome) d)
  after_version action (ok v) d e h =
      subst (λ x. Unmoved action (resolve_action env meta fuel action action_id outcome x)) (sym e)
        (resolve_unawaited action h)
  after_version action (err x) d e h = (e, λ k. absurd (cc k))

  submit-Unmoved :
      (action : BusinessAction)
      → ((action.status == "completed") ≡ false → ¬ IsAwaited action action_id outcome c)
      → Unmoved action (submit_outcome env meta fuel action action_id outcome c)
  unfolding submit_outcome pure fail ◌>>=◌
  submit-Unmoved action h = elim (Bool-cases (action.status == "completed")) [
    | inl completed ↦ rw completed (elim (Bool-cases (action.outcome == outcome)) [
      | inl same ↦ rw same (refl, λ k. refl)
      | inr other ↦ rw other (refl, λ k. absurd (cc k))
    ])
    | inr open' ↦
        let still = after_version action _ _ (view_version-keeps.at c refl) (h open') in
        rw open' (still.0, λ k. ground (arith, open', still.1 k))
  ]

  -- An outcome reported to an action of another call, to an action that was completed, or to one that
  -- the call does not wait for or whose flow does not declare the outcome, leaves everything as it
  -- was: it succeeds only where the action was completed with the same outcome.
  pub outcome_guarded :
      (action : BusinessAction)
      → env.business_action c.log action_id ≡ ok action
      → ((action.call_id == env.call_id && not (action.status == "completed")) ≡ true
          → ¬ IsAwaited action action_id outcome c)
      → Unmoved action (complete_business_action env meta fuel action_id outcome c)
  unfolding complete_business_action asks ◌>>=◌ fail
  outcome_guarded action found h = rw found (elim (Bool-cases (action.call_id == env.call_id)) [
    | inl mine ↦ rw mine (submit-Unmoved action (λ k. h (ground arith)))
    | inr foreign ↦ rw foreign (refl, λ k. absurd (cc k))
  ])
