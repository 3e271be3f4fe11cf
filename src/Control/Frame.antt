-- ===== src/Control/Frame.antt =====
-- What the helpers of the control service leave alone: a predicate that looks at the state and the
-- version of the live record, and not at the port calls or the leg rows, is kept by every event,
-- billing record, agent update and recording.
use open_voip.Base.{String, ◌≡◌, refl, Option, List, [], ◌∷◌}
use open_voip.Ports.{AgentState, CallLegRecord, Value}
use open_voip.CallStore.{put_leg_rows, insert_leg}
use open_voip.Control.State.{Cell, Env, Result, RuntimeCall, ok, err}
use open_voip.Control.Exec.{modify}
use open_voip.Control.Exec.Keeps.{
  Keeps, IgnoresLog, Keeps-bind, Keeps-ignore, Keeps-when, keeps_rules,
}
use open_voip.Control.Events.{
  returned, publish_each, publish_call, set_agent_state, cdr_upsert, emit_acd_offer_failed,
  set_call_end_detail, set_pstn_dial_state, remove_live_leg,
}
use open_voip.Control.Recording.{begin_recording_if_needed, on_recording_failed, stop_recording}

-- The update leaves the state and the version of the record.
abbrev pub SameRecord : (RuntimeCall → RuntimeCall) → Type 0
SameRecord f =
    (rt : RuntimeCall) → ((f rt).rec.state ≡ rt.rec.state) × ((f rt).rec.version ≡ rt.rec.version)

pub record IsFramed (P : Cell → Type 0) : Type 0 where
  pub logs : IgnoresLog P
  pub legs : (l : List CallLegRecord) → Keeps P (put_leg_rows l)
  pub mods : (f : RuntimeCall → RuntimeCall) → SameRecord f → Keeps P (modify f)

-- What recording and reporting need: they note the recording in the live entry, and no more.
pub record IsQuiet (P : Cell → Type 0) : Type 0 where
  pub logs : IgnoresLog P
  pub notes :
      (id note : String) → Keeps P (modify (λ rt. record rt { recording_id = id; notify = note }))

pub IsFramed-IsQuiet : {P : Cell → Type 0} → IsFramed P → IsQuiet P
IsFramed-IsQuiet k = record { logs = k.logs; notes = λ id note. k.mods _ (λ rt. (refl, refl)) }

module _ {P : Cell → Type 0} (k : IsQuiet P) where
  Keeps-returned : (r : Result (Unit {0})) → Keeps P (returned r)
  unfolding returned
  Keeps-returned (ok _) = search keeps_rules
  Keeps-returned (err e) = search keeps_rules

  module _ (env : Env) where
    Keeps-publish_each :
        (typ : String) (payload : List (String × Value)) (ids : List String) (r : Result (Unit {0}))
        → Keeps P (publish_each env typ payload ids r)
    unfolding publish_each
    Keeps-publish_each typ payload [] r = Keeps-returned r
    Keeps-publish_each typ payload (a ∷ as') r =
        Keeps-bind _ _ (search (keeps_rules, k.logs)) λ r'. Keeps-publish_each typ payload as' _

    pub Keeps-publish_call :
        (typ agent : String) (payload : List (String × Value))
        → Keeps P (publish_call env typ agent payload)
    unfolding publish_call
    Keeps-publish_call typ agent payload =
        search (keeps_rules, k.logs, Keeps-returned, Keeps-publish_each)

    pub Keeps-set_agent_state :
        (agent : String) (from to : AgentState) (reason : String)
        → Keeps P (set_agent_state env agent from to reason)
    unfolding set_agent_state
    Keeps-set_agent_state agent from to reason = search (keeps_rules, k.logs)

    pub Keeps-cdr_upsert : (result : String) → Keeps P (cdr_upsert env result)
    unfolding cdr_upsert
    Keeps-cdr_upsert result = search (keeps_rules, k.logs)

    pub Keeps-emit_acd_offer_failed :
        (agent : String) (queue : Option String) (reason : String)
        → Keeps P (emit_acd_offer_failed env agent queue reason)
    unfolding emit_acd_offer_failed
    Keeps-emit_acd_offer_failed agent queue reason = Keeps-ignore _ (Keeps-publish_call _ _ _)

  module _ (env : Env) where
    pub Keeps-begin_recording_if_needed : Keeps P (begin_recording_if_needed env)
    unfolding begin_recording_if_needed
    Keeps-begin_recording_if_needed =
        search (keeps_rules, k.logs, k.notes, Keeps-publish_call env) depth 20 fits 4000

    pub Keeps-on_recording_failed : (id : String) → Keeps P (on_recording_failed env id)
    unfolding on_recording_failed
    Keeps-on_recording_failed id = search (keeps_rules, k.logs, Keeps-publish_call env) depth 12

    pub Keeps-stop_recording : Keeps P (stop_recording env)
    unfolding stop_recording
    Keeps-stop_recording =
        search (keeps_rules, k.logs, Keeps-on_recording_failed) depth 16 fits 4000

module _ {P : Cell → Type 0} (k : IsFramed P) where
  pub Keeps-set_call_end_detail : (m code : String) → Keeps P (set_call_end_detail m code)
  unfolding set_call_end_detail
  Keeps-set_call_end_detail m code = Keeps-when _ _ (k.mods _ (λ rt. (refl, refl)))

  pub Keeps-set_pstn_dial_state : (state : String) → Keeps P (set_pstn_dial_state state)
  unfolding set_pstn_dial_state
  Keeps-set_pstn_dial_state state = k.mods _ (λ rt. (refl, refl))

  pub Keeps-remove_live_leg : (id : String) → Keeps P (remove_live_leg id)
  unfolding remove_live_leg
  Keeps-remove_live_leg id = k.mods _ (λ rt. (refl, refl))

  pub Keeps-insert_leg : (env : Env) (leg : CallLegRecord) → Keeps P (insert_leg env leg)
  unfolding insert_leg
  Keeps-insert_leg env leg = search (keeps_rules, k.logs, k.legs)
