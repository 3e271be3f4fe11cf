-- ===== src/Control/Transfer.antt =====
-- Handing a call to another agent or queue: `doTransfer` and `completeConsult` of
-- control/features.go.
use Prim.Native.String.{◌++◌ as str_append}
use open_voip.Base.{
  ℕ, String, ◌==◌, if◌then◌else◌, Bool, true, false, not, ◌&&◌, none, some, List, [], ◌∷◌,
}
use open_voip.Errs.{api, conflict_error, invalid_request_error, unprocessable_error}
use open_voip.Ports.{
  CallLegRecord, QueueSnapshot, TransferRequest, active, acw, agent_ringing, held, idle, on_call,
  ringing, text,
}
use open_voip.Control.State.{Effect, Env, RuntimeCall}
use open_voip.Control.Exec.{
  Exec, pure, fail, asks, with_live, ignore, modify, when, perform, now, ◌>>=◌, ◌>>◌,
}
use open_voip.Control.Events.{
  current_agent, customer_leg, publish_call, call_id_pair, set_agent_state, remove_live_leg,
}
use open_voip.Control.Transition.{transition}
use open_voip.Control.Dispatch.{is_audio, ring_device, session_text}
use open_voip.Control.Offer.{is_talking}
use open_voip.Control.Queueing.{enter_queue}

-- The leg belongs to the agent.
leg_of : String → CallLegRecord → Bool
leg_of agent_id l = elim l.agent_id [ none ↦ false | some a ↦ a == agent_id ]

module _ (env : Env) where
  -- Every leg of the agent leaves the room and the call.
  unfoldable pub drop_agent_legs : String → List CallLegRecord → Exec (Unit {0})
  unfolding leg_of
  drop_agent_legs agent_id [] = pure tt
  drop_agent_legs agent_id (l ∷ ls) = do
    when (leg_of agent_id l) do ignore (perform env (Effect.leave_room l.id)); remove_live_leg l.id
    drop_agent_legs agent_id ls

  -- The customer waits while the agent consults.
  unfoldable pub begin_consult : RuntimeCall → Exec (Unit {0})
  begin_consult rt = do
    ignore (perform env (Effect.set_hold (customer_leg rt) true))
    modify
        (λ r. record r { held = true; consult_from = current_agent rt; transfer_mode = "consult" })
    ignore (transition env held)

  -- The agent leaves at once.
  unfoldable pub begin_blind : RuntimeCall → Exec (Unit {0})
  begin_blind rt = do
    when (not (current_agent rt == "")) do
      ignore (set_agent_state env (current_agent rt) on_call acw "transferred")
      drop_agent_legs (current_agent rt) rt.legs
    modify (λ r. record r { consult_from = ""; transfer_mode = "blind" })

  unfoldable pub ring_target : RuntimeCall → String → String → Exec (Unit {0})
  ring_target rt mode target = do
    ignore (
        publish_call env "call.transferring" target
          (call_id_pair env ∷ ("target_agent_id", text target) ∷ ("mode", text mode) ∷ []))
    t ← now env
    modify (λ r. record r { offered_agent = target; offer_at = some t })
    ignore (transition env ringing)
    ring_device env target
    publish_call env "call.ringing" target (
        call_id_pair env
        ∷ ("queue_name", text rt.queue_name)
        ∷ ("caller", text rt.caller)
        ∷ ("session_type", text (session_text rt.rec.session_type))
        ∷ [])

  unfoldable pub to_agent : RuntimeCall → String → String → Exec (Unit {0})
  to_agent rt mode target = do
    info ← asks (λ l. env.agent_by_id l target)
    if not (is_audio rt.rec.session_type) && not info.video_capable
        then fail (api (unprocessable_error "目标坐席不具备视频能力" "AGENT_NOT_VIDEO_CAPABLE"))
        else do
          set_agent_state env target idle agent_ringing (str_append "transfer:" env.call_id)
          if mode == "consult" then begin_consult rt else begin_blind rt
          ring_target rt mode target

  unfoldable pub rerouted : String → QueueSnapshot → RuntimeCall → RuntimeCall
  rerouted queue_id q rt = record rt {
    rec = record rt.rec { queue_id = some queue_id };
    queue_name = q.name;
    post_call_ivr_flow_id = q.post_call_ivr_flow_id;
    offered_agent = "";
    consult_from = "";
    transfer_mode = "blind";
  }

  unfoldable pub to_queue : ℕ → RuntimeCall → String → Exec (Unit {0})
  unfolding rerouted
  to_queue fuel rt queue_id = do
    q ← asks (λ l. env.get_queue l queue_id)
    if not (is_audio rt.rec.session_type) && not q.video_enabled
        then fail (api (unprocessable_error "目标队列不支持视频" "AGENT_NOT_VIDEO_CAPABLE"))
        else do
          when (not (current_agent rt == ""))
              (ignore (set_agent_state env (current_agent rt) on_call acw "transferred"))
          modify (rerouted queue_id q)
          enter_queue env fuel

  -- An empty mode is a blind transfer.
  unfoldable pub transfer_mode : TransferRequest → String
  transfer_mode req = if req.mode == "" then "blind" else req.mode

  unfoldable pub transfer_talking : ℕ → TransferRequest → RuntimeCall → Exec (Unit {0})
  transfer_talking fuel req rt =
      let mode = transfer_mode req in
      if not (mode == "blind") && not (mode == "consult")
      then fail (api (invalid_request_error "转接模式须为 blind 或 consult"))
      else if not (req.target_agent_id == "")
      then to_agent rt mode req.target_agent_id
      else if req.target_queue_id == ""
      then fail (api (invalid_request_error "转接目标必填"))
      else if mode == "consult"
      then fail (api (invalid_request_error "咨询转仅支持指定坐席"))
      else to_queue fuel rt req.target_queue_id

  unfoldable pub do_transfer : ℕ → TransferRequest → Exec (Unit {0})
  do_transfer fuel req = with_live (fail (api (conflict_error "当前不能转接" "TRANSFER_FAILED"))) λ rt.
      if not (is_talking rt.rec.state)
      then fail (api (conflict_error "当前不能转接" "TRANSFER_FAILED"))
      else transfer_talking fuel req rt

  unfoldable pub finish_consult : RuntimeCall → Exec (Unit {0})
  finish_consult rt = do
    drop_agent_legs rt.consult_from rt.legs
    ignore (set_agent_state env rt.consult_from on_call acw "consult_complete")
    customer ← with_live (pure "") λ r. pure (customer_leg r)
    ignore (perform env (Effect.set_hold customer false))
    modify (λ r. record r { consult_from = ""; transfer_mode = ""; held = false })
    transition env active
    publish_call env "call.transferred" ""
        (call_id_pair env ∷ ("from_agent_id", text rt.consult_from) ∷ [])

  unfoldable pub complete_consult : Exec (Unit {0})
  complete_consult = with_live (fail (api (conflict_error "当前不是咨询转" "TRANSFER_FAILED"))) λ rt.
      if rt.consult_from == ""
      then fail (api (conflict_error "当前不是咨询转" "TRANSFER_FAILED"))
      else finish_consult rt
