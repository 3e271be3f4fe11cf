-- ===== src/Control/Hangup/Releasing.antt =====
-- The agent states that a hangup asks for, in their order.
use open_voip.Base.{
  String, ◌==◌, eq_iff, ◌≡◌, ◌≢◌, ◌⊎◌, if_true, if_false, true, refl, inl, inr, ◌||◌, if◌then◌else◌,
  Bool-cases, List, [], ◌∷◌, arith,
}
use open_voip.Ports.{
  AgentState, CallState, acw, active, held, transferring, ringing, agent_ringing, idle, on_call,
}
use open_voip.Control.State.{Cell, Effect, Env, RuntimeCall}
use open_voip.Control.Exec.{ignore, perform, pure, when, ◌>>=◌}
use open_voip.Control.Events.{set_agent_state}
use open_voip.Control.Offer.{is_ringing, is_talking}
use open_voip.Control.Hangup.{
  is_transferring, offered_states, release_agents, release_each, released_legs, to_acw,
}

-- The log after the agents of a list were released to one state.
pub freed : AgentState → List String → List Effect → List Effect
freed to [] l = l
freed to (a ∷ as') l = freed to as' (Effect.set_agent_state a on_call to "hangup" ∷ l)

-- An agent talks or has talked in the call.
abbrev pub WasConnected : RuntimeCall → Type 0
WasConnected rt =
    (rt.rec.state ≡ active)
    ⊎ (rt.rec.state ≡ held)
    ⊎ (rt.rec.state ≡ transferring)
    ⊎ (rt.consult_from ≢ "")

connected_state :
    (s : CallState)
    → (is_talking s || is_transferring s) ≡ true
    → (s ≡ active) ⊎ (s ≡ held) ⊎ (s ≡ transferring)
unfolding is_talking is_transferring
connected_state s h = ground arith

module _ (rt : RuntimeCall) where
  acw_connected : to_acw rt ≡ true → WasConnected rt
  unfolding to_acw
  acw_connected h = elim (Bool-cases (is_talking rt.rec.state || is_transferring rt.rec.state)) [
    | inl e ↦ elim (connected_state rt.rec.state e) [
      | inl a ↦ inl a
      | inr (inl b) ↦ inr (inl b)
      | inr (inr b) ↦ inr (inr (inl b))
    ]
    | inr e ↦ inr (inr (inr (λ none. ground (arith, h, e, none, eq_iff rt.consult_from ""))))
  ]

  connected_to_acw : WasConnected rt → to_acw rt ≡ true
  unfolding to_acw is_talking is_transferring
  connected_to_acw (inl e) = ground (arith, e)
  connected_to_acw (inr (inl e)) = ground (arith, e)
  connected_to_acw (inr (inr (inl e))) = ground (arith, e)
  connected_to_acw (inr (inr (inr n))) = ground (arith, n, eq_iff rt.consult_from "")

  connected_acw : WasConnected rt → (if to_acw rt then acw else idle) ≡ acw
  connected_acw h = if_true _ _ (connected_to_acw h)

  unconnected_idle : ¬ WasConnected rt → (if to_acw rt then acw else idle) ≡ idle
  unconnected_idle n = elim (Bool-cases (to_acw rt)) [
    | inl e ↦ absurd (n (acw_connected e))
    | inr e ↦ if_false _ _ e
  ]

  ringing_idle :
      rt.rec.state ≡ ringing
      → ((offered_states rt).0 ≡ agent_ringing) × ((offered_states rt).1 ≡ idle)
  unfolding offered_states is_ringing
  ringing_idle e = rw e (refl, refl)

  others_alike :
      rt.rec.state ≢ ringing
      → ((offered_states rt).0 ≡ on_call)
        × ((offered_states rt).1 ≡ (if to_acw rt then acw else idle))
  unfolding offered_states is_ringing
  others_alike n = elim (Bool-cases (is_ringing rt.rec.state)) [
    | inl e ↦ absurd (n (ground (arith, e)))
    | inr e ↦ rw e (refl, refl)
  ]

module _ (env : Env) where
  log-release_each :
      (to : AgentState) (ids : List String) (c : Cell)
      → (release_each env to ids c).1.log ≡ freed to ids c.log
  unfolding release_each freed pure ignore set_agent_state perform ◌>>=◌
  log-release_each to [] c = refl
  log-release_each to (a ∷ as') c = log-release_each to as' _

  log_of :
      (rt : RuntimeCall) (c : Cell)
      → (release_agents env rt c).1.log
        ≡ freed (if to_acw rt then acw else idle) (released_legs rt) (
            if rt.offered_agent == ""
            then c.log
            else Effect.set_agent_state rt.offered_agent
                (offered_states rt).0
                (offered_states rt).1
                "hangup"
              ∷ c.log)
  unfolding release_agents when ignore set_agent_state perform pure ◌>>=◌
  log_of rt c = elim (Bool-cases (rt.offered_agent == "")) [
    | inl nobody ↦ simp nobody (log-release_each _ _ _)
    | inr somebody ↦ simp somebody (log-release_each _ _ _)
  ]

  -- Agents are released in this order: the offered agent, then each other agent of a leg once. The agents of
  -- the legs go to after-call work exactly if the call was connected (active, on hold, in transfer or in a
  -- consultation), else to `idle`; the offered agent goes from ringing to `idle` if the call rings, and
  -- else the way of the others. An agent that cannot be released does not keep the others.
  pub log-release_agents :
      (rt : RuntimeCall) (c : Cell)
      → (to from next : AgentState) × (WasConnected rt → to ≡ acw)
        × (¬ WasConnected rt → to ≡ idle)
        × (rt.rec.state ≡ ringing → (from ≡ agent_ringing) × (next ≡ idle))
        × (rt.rec.state ≢ ringing → (from ≡ on_call) × (next ≡ to))
        × ((release_agents env rt c).1.log
            ≡ freed to (released_legs rt) (
                if rt.offered_agent == ""
                then c.log
                else Effect.set_agent_state rt.offered_agent from next "hangup" ∷ c.log))
  log-release_agents rt c = (
    (if to_acw rt then acw else idle),
    (offered_states rt).0,
    (offered_states rt).1,
    connected_acw rt,
    unconnected_idle rt,
    ringing_idle rt,
    others_alike rt,
    log_of rt c,
  )
