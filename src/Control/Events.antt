-- ===== src/Control/Events.antt =====
-- Who is on a call, and what it tells the agents and the billing record: `publishCall`, `cdrUpsert`
-- and the leg helpers of control/service.go, control/features.go and control/failure.go.
pub mod Recipients
use open_voip.Base.{
  ℕ, String, ◌==◌, if◌then◌else◌, contains, Bool, true, false, not, ◌||◌, ◌&&◌, Option, none, some,
  List, [], ◌∷◌, ◌++◌,
}
use open_voip.Errs.{Err}
use open_voip.Ports.{
  AgentState, CallEvent, CallLegRecord, CallRecord, CdrWriteRequest, LegRole, Value, customer, text,
}
use open_voip.Ports
use open_voip.Control.State.{Effect, Env, Result, RuntimeCall, ok, err}
use open_voip.Control.Exec.{
  Exec, pure, fail, gets, with_live, ignore, attempt, modify, when, perform, ◌>>=◌, ◌>>◌,
}

unfoldable pub deref : Option String → String
deref none = ""
deref (some s) = s

is_customer : LegRole → Bool
is_customer customer = true
is_customer _ = false

is_agent : LegRole → Bool
is_agent Ports.agent = true
is_agent _ = false

first_id : List CallLegRecord → String
first_id [] = ""
first_id (l ∷ ls) = l.id

find_customer : List CallLegRecord → Option String
unfolding is_customer
find_customer [] = none
find_customer (l ∷ ls) = if is_customer l.role then some l.id else find_customer ls

-- The customer's leg, else the first leg, else none.
unfoldable pub customer_leg : RuntimeCall → String
unfolding find_customer first_id
customer_leg rt = elim (find_customer rt.legs) [ none ↦ first_id rt.legs | some id ↦ id ]

find_agent : List CallLegRecord → String
unfolding is_agent deref
find_agent [] = ""
find_agent (l ∷ ls) = elim l.agent_id [
  | none ↦ find_agent ls
  | some a ↦ if is_agent l.role then a else find_agent ls
]

unfoldable pub current_agent : RuntimeCall → String
unfolding find_agent
current_agent rt =
    if not (rt.active_agent == "")
    then rt.active_agent
    else if not (rt.offered_agent == "")
    then rt.offered_agent
    else find_agent rt.legs

-- The agents of the legs, in the order of the legs.
unfoldable pub leg_agents : List CallLegRecord → List String
leg_agents [] = []
leg_agents (l ∷ ls) =
    let rest = leg_agents ls in elim l.agent_id [ none ↦ rest | some a ↦ a ∷ rest ]

-- The ids of a list that are not empty and not seen before: the loops of `publishCall` and `Hangup`.
unfoldable pub fresh_ids : List String → List String → List String
fresh_ids seen [] = []
fresh_ids seen (a ∷ as') =
    let skip = fresh_ids seen as' in
    let take = a ∷ fresh_ids (a ∷ seen) as' in if a == "" || contains a seen then skip else take

-- `extra` of `publishCall`.
unfoldable pub extras : RuntimeCall → List String
unfolding leg_agents
extras rt =
    if rt.offered_agent == "" then leg_agents rt.legs else rt.offered_agent ∷ leg_agents rt.legs

-- Whom `publishCall` tells besides the agent that it is given.
unfoldable pub recipients : String → RuntimeCall → List String
unfolding fresh_ids extras
recipients agent rt = fresh_ids (agent ∷ []) (extras rt)

unfoldable pub first_error : Result (Unit {0}) → Result (Unit {0}) → Result (Unit {0})
first_error (ok _) r = r
first_error (err e) r = err e

unfoldable pub returned : Result (Unit {0}) → Exec (Unit {0})
returned (ok _) = pure tt
returned (err e) = fail e

module _ (env : Env) where
  abbrev pub event : String → String → Bool → List (String × Value) → CallEvent
  event typ agent only payload = record {
    typ = typ;
    call_id = env.call_id;
    agent_id = agent;
    target_only = only;
    payload = payload;
  }

  -- The loop over `extra`: the first error is kept and the loop goes on.
  unfoldable pub publish_each :
      String → List (String × Value) → List String → Result (Unit {0}) → Exec (Unit {0})
  unfolding first_error returned
  publish_each typ payload [] r = returned r
  publish_each typ payload (a ∷ as') r = do
    r' ← attempt (perform env (Effect.publish (event typ a true payload)))
    publish_each typ payload as' (first_error r r')

  unfoldable pub publish_call : String → String → List (String × Value) → Exec (Unit {0})
  unfolding recipients
  publish_call typ agent payload =
      if env.has_call_events
      then (do
        r ← attempt (perform env (Effect.publish (event typ agent false payload)))
        with_live (returned r) λ rt. publish_each typ payload (recipients agent rt) r)
      else pure tt

  abbrev pub call_id_pair : String × Value
  call_id_pair = ("call_id", text env.call_id)

  -- `setAgentState`.
  unfoldable pub set_agent_state : String → AgentState → AgentState → String → Exec (Unit {0})
  set_agent_state agent from to reason = perform env (Effect.set_agent_state agent from to reason)

  unfoldable pub cdr_request : RuntimeCall → String → CdrWriteRequest
  unfolding deref
  cdr_request rt result = record {
    call_id = env.call_id;
    direction = rt.rec.direction;
    queue_id = deref rt.rec.queue_id;
    agent_id = rt.active_agent;
    caller = rt.caller;
    callee = rt.callee;
    session_type = rt.rec.session_type;
    result = result;
    started_at = rt.rec.created_at;
    answered_at = rt.answered_at;
    ended_at = rt.rec.ended_at;
    video_started_at = rt.video_started_at;
    video_upgrade_ok = rt.video_upgrade_ok;
    screen_share_count = rt.screen_shares;
  }

  unfoldable pub cdr_upsert : String → Exec (Unit {0})
  unfolding cdr_request
  cdr_upsert result =
      with_live (pure tt) λ rt. perform env (Effect.upsert_cdr (cdr_request rt result))

  unfoldable pub emit_acd_offer_failed : String → Option String → String → Exec (Unit {0})
  unfolding publish_call
  emit_acd_offer_failed agent queue reason = ignore (
      publish_call "acd.offer_failed" agent (
        call_id_pair
        ∷ ("agent_id", text agent)
        ∷ ("reason", text reason)
        ∷ elim queue [ none ↦ [] | some q ↦ ("queue_id", text q) ∷ [] ]))

-- `setCallEndDetail`: only where there is something to say.
unfoldable pub set_call_end_detail : String → String → Exec (Unit {0})
set_call_end_detail message code =
    when (not (message == "" && code == ""))
      (modify λ rt. record rt { end_message = message; end_code = code })

-- `setPstnDialState`.
unfoldable pub set_pstn_dial_state : String → Exec (Unit {0})
set_pstn_dial_state state = modify λ rt. record rt { pstn_dial_state = state }

drop_leg : String → List CallLegRecord → List CallLegRecord
drop_leg id [] = []
drop_leg id (l ∷ ls) = let rest = drop_leg id ls in if l.id == id then rest else l ∷ rest

-- `removeLiveLeg`.
unfoldable pub remove_live_leg : String → Exec (Unit {0})
unfolding drop_leg
remove_live_leg id = modify λ rt. record rt { legs = drop_leg id rt.legs }
