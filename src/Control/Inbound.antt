-- ===== src/Control/Inbound.antt =====
-- The creation of an inbound call: `StartInbound` of control/service.go. Its context carries neither a
-- version nor an idempotency key (http/switch_router.go, run.go).
pub mod Creation
pub mod Keeping
pub mod Repeated
use Prim.Native.String.{◌++◌ as str_append}
use open_voip.Base.{
  ℕ, ◌*◌, ◌=?◌, ltb, String, ◌==◌, if◌then◌else◌, Bool, true, false, not, ◌&&◌, Option, none, some,
  [], ◌∷◌,
}
use open_voip.Errs.{
  Err, Sentinel, api, conflict_error, err_not_found, forbidden_error, invalid_request_error,
  is_sentinel, unprocessable_error,
}
use open_voip.Ports.{
  CallLegRecord, CallRecord, InboundRequest, QueueSnapshot, SessionType, audio, created, error,
  text, timeout, video,
}
use open_voip.Ports
use open_voip.CallStore.{get_call, insert_call_with_leg}
use open_voip.Control.State.{Effect, Env, RuntimeCall}
use open_voip.Control.State
use open_voip.Control.Exec.{
  Exec, asks, attempt, fail, fresh_id, gets, ignore, now, perform, pure, with_result, ◌>>=◌, ◌>>◌,
}
use open_voip.Control.Events.{call_id_pair, deref, publish_call}
use open_voip.Control.Failure.{hangup_with_failure}
use open_voip.Control.Hangup.{do_hangup}
use open_voip.Control.Hours.{within_hours}
use open_voip.Control.Ivr.Inputs.{boot_ivr}
use open_voip.Control.Queueing.{enter_queue, route_queue, start_voicemail}

-- The zero value of a queue.
abbrev pub no_queue : QueueSnapshot
no_queue = record {
  config_version = 0;
  name = "";
  video_enabled = false;
  max_wait_sec = 0;
  ivr_flow_id = "";
  audio_profile = "";
  after_hours_action = "";
  overflow_action = "";
  overflow_queue_id = "";
  wait_prompt = "";
  listen_announce = false;
  priority_enabled = false;
  post_call_ivr_flow_id = "";
}

-- What the configuration says of the new call.
pub record Scope : Type 0 where
  pub queue : QueueSnapshot
  pub config_version : ℕ
  pub priority : ℕ

unfoldable pub session_of : InboundRequest → SessionType
session_of req = elim req.session_type [ none ↦ audio | some s ↦ s ]

unfoldable pub is_video_session : SessionType → Bool
is_video_session video = true
is_video_session _ = false

unfoldable pub caller_of : InboundRequest → String
caller_of req =
    if not (req.caller == "")
    then req.caller
    else if req.guest_session_id == ""
    then "guest"
    else str_append "guest:" req.guest_session_id

unfoldable pub callee_of : InboundRequest → QueueSnapshot → String
callee_of req q =
    if not (req.ivr_flow_id == "") && q.name == ""
    then str_append "ivr:" req.ivr_flow_id
    else q.name

unfoldable pub new_record : String → InboundRequest → Scope → ℕ → CallRecord
unfolding session_of
new_record id req s t = record {
  id = id;
  business_ref = "";
  metadata = "";
  version = 1;
  config_version = some s.config_version;
  caller = "";
  callee = "";
  agent_id = "";
  offered_agent = "";
  answered_at = none;
  direction = "inbound";
  session_type = session_of req;
  state = created;
  queue_id = if req.queue_id == "" then none else some req.queue_id;
  parent_call_id = none;
  priority = s.priority;
  created_at = t;
  updated_at = t;
  ended_at = none;
}

unfoldable pub customer_of : String → String → ℕ → CallLegRecord
customer_of id leg_id t = record {
  kind = "";
  leg_state = "";
  participant_ref = "";
  id = leg_id;
  call_id = id;
  role = Ports.customer;
  agent_id = none;
  created_at = t;
}

unfoldable pub new_call :
    CallRecord → CallLegRecord → InboundRequest → QueueSnapshot → ℕ → RuntimeCall
unfolding caller_of callee_of
new_call rec leg req q t = record {
  sip_offer_leg = "";
  sip_offer_cancel = false;
  rec = rec;
  legs = leg ∷ [];
  active_agent = "";
  offered_agent = "";
  offer_at = none;
  queued_at = t;
  answered_at = none;
  caller = caller_of req;
  callee = callee_of req q;
  queue_name = q.name;
  post_call_ivr_flow_id = q.post_call_ivr_flow_id;
  max_wait = if q.max_wait_sec =? 0 then 5 * 60 * 1000 else q.max_wait_sec * 1000;
  held = false;
  recording_id = "";
  video_from_leg = "";
  video_upgrade_ok = false;
  video_started_at = none;
  screen_shares = 0;
  notify = "";
  ivr = none;
  wait_prompt = q.wait_prompt;
  consult_from = "";
  transfer_mode = "";
  end_message = "";
  end_code = "";
  cdr_result = "";
  pstn_dial_state = "";
}

-- `s.calls[callID] = rt`.
unfoldable pub set_live : RuntimeCall → Exec (Unit {0})
set_live rt c = (State.ok tt, record c { live = some rt })

module _ (env : Env) where
  unfoldable pub queue_scope : InboundRequest → Exec Scope
  unfolding session_of is_video_session
  queue_scope req = do
    q ← asks (λ l. env.get_queue l req.queue_id)
    if is_video_session (session_of req) && not q.video_enabled
        then fail (api (unprocessable_error "该队列不支持视频" "AGENT_NOT_VIDEO_CAPABLE"))
        else pure (record {
          queue = q;
          config_version = q.config_version;
          priority = if q.priority_enabled then req.priority else 0;
        })

  unfoldable pub flow_scope : InboundRequest → Exec Scope
  flow_scope req = do
    version ← asks env.active_version
    snap ← asks (λ l. env.latest_ivr l req.ivr_flow_id)
    pure (record { queue = no_queue; config_version = version; priority = req.priority })

  unfoldable pub scope_of : InboundRequest → Exec Scope
  scope_of req =
      if req.queue_id == "" && req.ivr_flow_id == ""
      then fail (api (invalid_request_error "queue_id 或 ivr_flow_id 必填"))
      else if req.queue_id == ""
      then flow_scope req
      else queue_scope req

  -- `withinHours` of control/ivr.go.
  unfoldable pub within_queue_hours : String → Exec Bool
  within_queue_hours queue_id = do
    hours ← attempt (asks (λ l. env.business_hours l queue_id))
    with_result hours (λ _. pure false) λ raw. gets (λ c. within_hours env c.log raw)

  -- The rows of the call, then its live entry.
  unfoldable pub create_call : CallRecord → CallLegRecord → RuntimeCall → Exec (Unit {0})
  create_call rec leg rt = do insert_call_with_leg env rec leg; set_live rt

module _ (env : Env) (meta : CallRecord → String → String → String → String) (fuel : ℕ) where
  unfoldable pub after_hours : QueueSnapshot → Exec (Unit {0})
  after_hours q = do
    ignore (publish_call env "ivr.prompt" "" (call_id_pair env ∷ ("message", text "当前为非工作时间") ∷ []))
    if q.after_hours_action == "voicemail"
        then start_voicemail env
        else if q.after_hours_action == "queue"
        then route_queue env fuel q.overflow_queue_id
        else do_hangup env meta timeout

  unfoldable pub boot_flow : String → Exec (Unit {0})
  boot_flow flow_id = do
    booted ← attempt (boot_ivr env meta fuel flow_id)
    with_result booted (λ e. do ignore (hangup_with_failure env meta error e); fail e) λ _. pure tt

  unfoldable pub await_agent : InboundRequest → Exec (Unit {0})
  unfolding session_of
  await_agent req =
      if req.queue_id == ""
      then fail (api (invalid_request_error "IVR 未能启动且没有后备队列"))
      else (do perform env (Effect.create_room (session_of req) false); enter_queue env fuel)

  unfoldable pub serve_call : InboundRequest → QueueSnapshot → Exec (Unit {0})
  serve_call req q =
      let flow_id = if req.ivr_flow_id == "" then q.ivr_flow_id else req.ivr_flow_id in
      if not req.skip_ivr && not (flow_id == "") then boot_flow flow_id else await_agent req

  unfoldable pub open_call : InboundRequest → QueueSnapshot → String → Exec (Unit {0})
  open_call req q leg_id = do
    ignore (
        publish_call env "leg.incoming" ""
          (call_id_pair env ∷ ("leg_id", text leg_id) ∷ ("role", text "customer") ∷ []))
    ignore (perform env (Effect.set_audio_profile q.audio_profile))
    within ← if req.queue_id == "" then pure true else within_queue_hours env req.queue_id
    if within then serve_call req q else after_hours q

  unfoldable pub start_new : InboundRequest → Exec String
  unfolding new_record customer_of new_call
  start_new req = do
    s ← scope_of env req
    if ltb s.config_version 1 then fail (api (forbidden_error "缺少已激活的配置作用域")) else do
      t ← now env
      leg_id ← fresh_id env
      let rec = new_record env.call_id req s t
      let leg = customer_of env.call_id leg_id t
      create_call env rec leg (new_call rec leg req s.queue t)
      open_call req s.queue leg_id
      pure env.call_id

  -- `StartInbound`.
  unfoldable pub start_inbound : InboundRequest → Exec String
  start_inbound req = do
    existing ← attempt (get_call env)
    with_result existing (λ e. if is_sentinel e err_not_found then start_new req else fail e)
        λ rec.
          if not (deref rec.queue_id == req.queue_id)
          then fail (api (conflict_error "call_id 已用于另一队列" ""))
          else pure rec.id
