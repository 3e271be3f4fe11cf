-- ===== src/Control/Events/Recipients.antt =====
-- Who is told of an event, and who is released when a call ends: each agent once.
use open_voip.Base.{
  some, String, ◌==◌, eq_iff, eq_refl, contains, IsDistinct, ◌≡◌, refl, inl, inr, true, false, not,
  ◌||◌, ◌&&◌, Bool-cases, List, [], ◌∷◌, arith,
}
use open_voip.Ports.{Value}
use open_voip.Control.State.{Cell, Effect, Env, Result, RuntimeCall, ok, err}
use open_voip.Control.Exec.{attempt, fail, perform, pure, with_live, ◌>>=◌}
use open_voip.Control.Events.{
  event, extras, fresh_ids, leg_agents, publish_call, publish_each, recipients, returned,
}

-- `fresh_ids` holds exactly the ids of the list that are not empty and were not seen.
pub contains-fresh_ids :
    (a : String) (seen ids : List String)
    → contains a (fresh_ids seen ids) ≡ (contains a ids && not (a == "") && not (contains a seen))
unfolding fresh_ids
contains-fresh_ids a seen [] = refl
contains-fresh_ids a seen (x ∷ xs) = ground (
  arith,
  contains-fresh_ids a seen xs,
  contains-fresh_ids a (x ∷ seen) xs,
  eq_iff x a,
  eq_iff a x,
  eq_iff x "",
  eq_iff a "",
)

contains_self : (a : String) (seen : List String) → contains a (a ∷ seen) ≡ true
contains_self a seen = rw eq_refl refl

pub fresh_ids-IsDistinct : (seen ids : List String) → IsDistinct (fresh_ids seen ids)
unfolding fresh_ids
fresh_ids-IsDistinct seen [] = tt
fresh_ids-IsDistinct seen (x ∷ xs) = elim (Bool-cases (x == "" || contains x seen)) [
  | inl skip ↦ rw skip (fresh_ids-IsDistinct seen xs)
  | inr take ↦ rw take (
    ground (arith, contains-fresh_ids x (x ∷ seen) xs, contains_self x seen),
    fresh_ids-IsDistinct (x ∷ seen) xs,
  )
]

module _ (agent : String) (rt : RuntimeCall) where
  -- The agents that an event is sent on to are distinct; they are the agent to whom the call is offered
  -- and those of its legs, without the empty id and without the agent that the event names itself.
  pub recipients_exact :
      IsDistinct (recipients agent rt)
      × ((a : String)
          → contains a (recipients agent rt) ≡ (
              (rt.offered_agent == a || contains a (leg_agents rt.legs))
              && not (a == "")
              && not (agent == a)))
  unfolding recipients extras
  recipients_exact = (
    fresh_ids-IsDistinct (agent ∷ []) (extras rt),
    λ a. ground (
      arith,
      contains-fresh_ids a (agent ∷ []) (extras rt),
      eq_iff rt.offered_agent a,
      eq_iff rt.offered_agent "",
      eq_iff a "",
    ),
  )

-- The log after one event to each agent of a list.
pub sent : Env → String → List (String × Value) → List String → List Effect → List Effect
sent env typ payload [] l = l
sent env typ payload (a ∷ as') l =
    sent env typ payload as' (Effect.publish (event env typ a true payload) ∷ l)

module _ (env : Env) (typ : String) (payload : List (String × Value)) where
  log-publish_each :
      (ids : List String) (r : Result (Unit {0})) (c : Cell)
      → (publish_each env typ payload ids r c).1.log ≡ sent env typ payload ids c.log
  unfolding publish_each returned pure fail sent attempt perform ◌>>=◌
  log-publish_each [] (ok _) c = refl
  log-publish_each [] (err e) c = refl
  log-publish_each (a ∷ as') r c = log-publish_each as' _ _

  -- An event goes out once for the agent that it names and then once to each recipient, also where
  -- sending it to one of them fails.
  pub log-publish_call :
      (agent : String) (rt : RuntimeCall) (c : Cell)
      → env.has_call_events ≡ true
      → c.live ≡ some rt
      → (publish_call env typ agent payload c).1.log
        ≡ sent env typ payload
            (recipients agent rt)
            (Effect.publish (event env typ agent false payload) ∷ c.log)
  unfolding publish_call with_live attempt perform ◌>>=◌
  log-publish_call agent rt c on l = simp (on, l) (log-publish_each (recipients agent rt) _ _)
