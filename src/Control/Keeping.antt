-- ===== src/Control/Keeping.antt =====
-- Every operation on a call keeps every invariant of `Control.Invariant`, whether it succeeds or
-- fails: the proofs follow the operations' text.
use open_voip.Base.{ℕ, zero, suc, String, Bool, Option, List, [], ◌∷◌}
use open_voip.Ports.{AgentState, CallLegRecord, CallRecord, HangupReason, TransferRequest, Value}
use open_voip.Control.State.{Cell, Ctx, Env, RuntimeCall}
use open_voip.Control.Exec.{Exec}
use open_voip.Control.Exec.Keeps.{
  Keeps, Keeps-bind, Keeps-if, Keeps-with_live, Keeps-fail, Keeps-with_option, Keeps-pure,
  Keeps-request, keeps_rules,
}
use open_voip.Control.Events.{
  publish_call, set_agent_state, cdr_upsert, emit_acd_offer_failed, remove_live_leg,
}
use open_voip.Control.Recording.{begin_recording_if_needed, stop_recording}
use open_voip.CallStore.{insert_leg}
use open_voip.Control.Frame.{
  IsFramed-IsQuiet, Keeps-publish_call, Keeps-set_agent_state, Keeps-cdr_upsert,
  Keeps-emit_acd_offer_failed, Keeps-insert_leg, Keeps-remove_live_leg,
  Keeps-begin_recording_if_needed, Keeps-stop_recording,
}
use open_voip.Control.Invariant.{IsKept}
use open_voip.Control.Dispatch.{
  ring_device, announce_ringing, ring_failed, offer, offered, try_dispatch,
}
use open_voip.Control.Offer.{
  answered_call, accept_offer, prepare_answer, finish_answer, switch_audio, answer_checked,
  do_answer, resume_from_consult, decline_offered, do_decline,
}
use open_voip.Control.Features.{
  do_hold, conference_invite, request_video, respond_video, screen_share, supervisor_listen,
}
use open_voip.Control.Queueing.{
  publish_position, enter_queue, route_queue, start_voicemail, overflow,
}
use open_voip.Control.Transfer.{
  drop_agent_legs, begin_consult, begin_blind, ring_target, to_agent, to_queue, transfer_talking,
  do_transfer, finish_consult, complete_consult,
}
use open_voip.Control.Hangup.Ending.{Keeps-close_ended}
use open_voip.Control.Hangup.{release_each, release_agents, report_recording, close_ended, end_live}

module _ {P : Cell → Type 0} (env : Env) (k : IsKept env P) where
  pub publish :
      (typ agent : String) (payload : List (String × Value))
      → Keeps P (publish_call env typ agent payload)
  publish = Keeps-publish_call (IsFramed-IsQuiet k.framed) env

  pub agents :
      (agent : String) (from to : AgentState) (reason : String)
      → Keeps P (set_agent_state env agent from to reason)
  agents = Keeps-set_agent_state (IsFramed-IsQuiet k.framed) env

  pub failed_offers :
      (agent : String) (queue : Option String) (reason : String)
      → Keeps P (emit_acd_offer_failed env agent queue reason)
  failed_offers = Keeps-emit_acd_offer_failed (IsFramed-IsQuiet k.framed) env

  bills : (result : String) → Keeps P (cdr_upsert env result)
  bills = Keeps-cdr_upsert (IsFramed-IsQuiet k.framed) env

  records : Keeps P (begin_recording_if_needed env)
  records = Keeps-begin_recording_if_needed (IsFramed-IsQuiet k.framed) env

  pub stops : Keeps P (stop_recording env)
  stops = Keeps-stop_recording (IsFramed-IsQuiet k.framed) env

  pub leaves : (id : String) → Keeps P (remove_live_leg id)
  leaves = Keeps-remove_live_leg k.framed

  pub inserts : (leg : CallLegRecord) → Keeps P (insert_leg env leg)
  inserts = Keeps-insert_leg k.framed env

  Keeps-ring_device : (agent_id : String) → Keeps P (ring_device env agent_id)
  unfolding ring_device
  Keeps-ring_device agent_id = search (keeps_rules, k.framed.logs, k.framed.mods) depth 20 fits 4000

  Keeps-announce_ringing : (agent_id : String) → Keeps P (announce_ringing env agent_id)
  unfolding announce_ringing
  Keeps-announce_ringing agent_id = search (keeps_rules, publish) depth 12

  Keeps-ring_failed : (agent_id : String) → Keeps P (ring_failed env agent_id)
  unfolding ring_failed
  Keeps-ring_failed agent_id = search (keeps_rules, k.transitions, agents, failed_offers) depth 12

  Keeps-offer : (agent_id : String) → Keeps P (offer env agent_id)
  unfolding offer
  Keeps-offer agent_id =
      search (keeps_rules, k.framed.mods, k.transitions, Keeps-ring_device) depth 12

  Keeps-offered :
      (again : Exec (Unit {0})) (agent_id : String)
      → Keeps P again
      → Keeps P (offered env again agent_id)
  unfolding offered
  Keeps-offered again agent_id h =
      search (keeps_rules, agents, Keeps-offer, Keeps-ring_failed, Keeps-announce_ringing) depth 12

  pub Keeps-try_dispatch : (fuel : ℕ) → Keeps P (try_dispatch env fuel)
  unfolding try_dispatch
  Keeps-try_dispatch zero = Keeps-fail _
  Keeps-try_dispatch (suc fuel) = Keeps-with_live _ _ (Keeps-pure tt) λ rt.
      Keeps-if _ _ _ (Keeps-pure tt) (
        Keeps-with_option _ _ _ (Keeps-pure tt) λ q.
          Keeps-bind _ _ (Keeps-request env _ _ k.framed.logs)
            λ a. Keeps-offered _ a (Keeps-try_dispatch fuel))

  Keeps-answer_checked :
      (ctx : Ctx) (agent_id : String) (rt : RuntimeCall)
      → Keeps P (answer_checked env ctx agent_id rt)
  unfolding answer_checked answered_call accept_offer prepare_answer finish_answer switch_audio
  Keeps-answer_checked ctx agent_id rt =
      search
        (keeps_rules, k.framed.logs, k.framed.mods, k.transitions, publish, agents, bills, inserts)
        depth 30 fits 8000

  pub Keeps-do_answer : (ctx : Ctx) (agent_id : String) → Keeps P (do_answer env ctx agent_id)
  unfolding do_answer
  Keeps-do_answer ctx agent_id =
      Keeps-with_live _ _ (Keeps-fail _) (Keeps-answer_checked ctx agent_id)

  pub Keeps-resume_from_consult :
      (rt : RuntimeCall) (reason : String) → Keeps P (resume_from_consult env rt reason)
  unfolding resume_from_consult
  Keeps-resume_from_consult rt reason =
      search (keeps_rules, k.framed.logs, k.framed.mods, k.transitions, publish) depth 20

  Keeps-decline_offered :
      (fuel : ℕ) (agent_id : String) (rt : RuntimeCall)
      → Keeps P (decline_offered env fuel agent_id rt)
  unfolding decline_offered
  Keeps-decline_offered fuel agent_id rt =
      search
        (
          keeps_rules, k.framed.mods, k.transitions, agents, failed_offers,
          Keeps-resume_from_consult, Keeps-try_dispatch,
        )
        depth 20

  pub Keeps-do_decline : (fuel : ℕ) (agent_id : String) → Keeps P (do_decline env fuel agent_id)
  unfolding do_decline
  Keeps-do_decline fuel agent_id = search (keeps_rules, Keeps-decline_offered) depth 12

  pub Keeps-do_hold : (on : Bool) → Keeps P (do_hold env on)
  unfolding do_hold
  Keeps-do_hold on =
      search (keeps_rules, k.framed.logs, k.framed.mods, k.transitions, publish) depth 20

  pub Keeps-conference_invite : (target : String) → Keeps P (conference_invite env target)
  unfolding conference_invite
  Keeps-conference_invite target = search (keeps_rules, k.framed.mods, agents, publish) depth 20

  pub Keeps-request_video : (leg_id : String) → Keeps P (request_video env leg_id)
  unfolding request_video
  Keeps-request_video leg_id = search (keeps_rules, k.framed.mods, publish) depth 12

  pub Keeps-respond_video : (accept : Bool) → Keeps P (respond_video env accept)
  unfolding respond_video
  Keeps-respond_video accept =
      search (keeps_rules, k.framed.logs, k.framed.mods, k.transitions, publish, bills) depth 20

  pub Keeps-screen_share : (leg_id : String) (on : Bool) → Keeps P (screen_share env leg_id on)
  unfolding screen_share
  Keeps-screen_share leg_id on =
      search (keeps_rules, k.framed.logs, k.framed.mods, publish, bills) depth 20

  pub Keeps-supervisor_listen : (supervisor : String) → Keeps P (supervisor_listen env supervisor)
  unfolding supervisor_listen
  Keeps-supervisor_listen supervisor =
      search (keeps_rules, k.framed.logs, k.framed.mods, publish, inserts) depth 30 fits 8000

  pub Keeps-publish_position : Keeps P (publish_position env)
  unfolding publish_position
  Keeps-publish_position = search (keeps_rules, publish) depth 12

  pub Keeps-enter_queue : (fuel : ℕ) → Keeps P (enter_queue env fuel)
  unfolding enter_queue
  Keeps-enter_queue fuel =
      search
        (
          keeps_rules, k.framed.logs, k.framed.mods, k.transitions, publish, bills,
          Keeps-publish_position, Keeps-try_dispatch,
        )
        depth 30 fits 8000

  pub Keeps-route_queue : (fuel : ℕ) (queue_id : String) → Keeps P (route_queue env fuel queue_id)
  unfolding route_queue
  Keeps-route_queue fuel queue_id = search (keeps_rules, k.framed.mods, Keeps-enter_queue) depth 12

  pub Keeps-start_voicemail : Keeps P (start_voicemail env)
  unfolding start_voicemail
  Keeps-start_voicemail = search (keeps_rules, k.framed.logs, publish, records) depth 20

  pub Keeps-overflow : (fuel : ℕ) → Keeps P (overflow env fuel)
  unfolding overflow
  Keeps-overflow fuel =
      search (keeps_rules, publish, Keeps-route_queue, Keeps-start_voicemail) depth 20

  Keeps-drop_agent_legs :
      (agent_id : String) (ls : List CallLegRecord) → Keeps P (drop_agent_legs env agent_id ls)
  unfolding drop_agent_legs
  Keeps-drop_agent_legs agent_id [] = Keeps-pure tt
  Keeps-drop_agent_legs agent_id (l ∷ ls) =
      Keeps-bind _ _ (search (keeps_rules, k.framed.logs, leaves) depth 12)
        λ _. Keeps-drop_agent_legs agent_id ls

  Keeps-finish_consult : (rt : RuntimeCall) → Keeps P (finish_consult env rt)
  unfolding finish_consult
  Keeps-finish_consult rt =
      search
        (
          keeps_rules, k.framed.logs, k.framed.mods, k.transitions, publish, agents,
          Keeps-drop_agent_legs,
        )
        depth 30 fits 8000

  pub Keeps-complete_consult : Keeps P (complete_consult env)
  unfolding complete_consult
  Keeps-complete_consult = search (keeps_rules, Keeps-finish_consult)

  Keeps-begin_consult : (rt : RuntimeCall) → Keeps P (begin_consult env rt)
  unfolding begin_consult
  Keeps-begin_consult rt =
      search (keeps_rules, k.framed.logs, k.framed.mods, k.transitions) depth 12

  Keeps-begin_blind : (rt : RuntimeCall) → Keeps P (begin_blind env rt)
  unfolding begin_blind
  Keeps-begin_blind rt = search (keeps_rules, k.framed.mods, agents, Keeps-drop_agent_legs) depth 12

  Keeps-ring_target :
      (rt : RuntimeCall) (mode target : String) → Keeps P (ring_target env rt mode target)
  unfolding ring_target
  Keeps-ring_target rt mode target =
      search (keeps_rules, k.framed.mods, k.transitions, publish, Keeps-ring_device) depth 20

  Keeps-to_agent : (rt : RuntimeCall) (mode target : String) → Keeps P (to_agent env rt mode target)
  unfolding to_agent
  Keeps-to_agent rt mode target =
      search (keeps_rules, agents, Keeps-begin_consult, Keeps-begin_blind, Keeps-ring_target) depth
        12

  Keeps-to_queue :
      (fuel : ℕ) (rt : RuntimeCall) (queue_id : String) → Keeps P (to_queue env fuel rt queue_id)
  unfolding to_queue
  Keeps-to_queue fuel rt queue_id =
      search (keeps_rules, k.framed.mods, agents, Keeps-enter_queue) depth 12

  Keeps-transfer_talking :
      (fuel : ℕ) (req : TransferRequest) (rt : RuntimeCall)
      → Keeps P (transfer_talking env fuel req rt)
  unfolding transfer_talking
  Keeps-transfer_talking fuel req rt = search (keeps_rules, Keeps-to_agent, Keeps-to_queue) depth 12

  pub Keeps-do_transfer : (fuel : ℕ) (req : TransferRequest) → Keeps P (do_transfer env fuel req)
  unfolding do_transfer
  Keeps-do_transfer fuel req = search (keeps_rules, Keeps-transfer_talking)

  Keeps-release_each : (to : AgentState) (ids : List String) → Keeps P (release_each env to ids)
  unfolding release_each
  Keeps-release_each to [] = Keeps-pure tt
  Keeps-release_each to (a ∷ as') =
      Keeps-bind _ _ (search (keeps_rules, agents)) λ _. Keeps-release_each to as'

  Keeps-release_agents : (rt : RuntimeCall) → Keeps P (release_agents env rt)
  unfolding release_agents
  Keeps-release_agents rt = search (keeps_rules, agents, Keeps-release_each) depth 12

  Keeps-report_recording : Keeps P (report_recording env)
  unfolding report_recording
  Keeps-report_recording = search (keeps_rules, publish) depth 12

  closes :
      (agent : String) (reason : HangupReason) (result : String)
      → Keeps P (close_ended env agent reason result)
  closes = Keeps-close_ended env (IsFramed-IsQuiet k.framed) k.forgets

  pub Keeps-end_live :
      (meta : CallRecord → String → String → String → String) (reason : HangupReason)
      (rt : RuntimeCall)
      → Keeps P (end_live env meta reason rt)
  unfolding end_live
  Keeps-end_live meta reason rt =
      search
        (
          keeps_rules, k.framed.logs, k.framed.mods, k.transitions, bills, stops,
          Keeps-release_agents, Keeps-report_recording, closes,
        )
        depth 30 fits 8000
