-- ===== src/Control/Direct.antt =====
-- Calls that a client controls leg by leg, of control/direct.go: `AddDirectLeg`, `BridgeDirect`,
-- `ReplaceBridge`, `EndBridge`, `LeaveDirectLeg`, `StartDirectRecording` and `StopDirectRecording`, up to
-- the views that they return.
pub mod Legs
pub mod Keeping
pub mod Pairs
pub mod Counting
use Prim.Native.String.{◌++◌ as str_append}
use open_voip.Base.{
  ℕ, String, ◌==◌, ◌++◌, if◌then◌else◌, Bool, true, false, not, ◌&&◌, ◌||◌, Option, none, some,
  List, [], ◌∷◌, length, leb, is_some,
}
use open_voip.Errs.{
  Err, api, wraps, err_not_implemented, conflict_error, invalid_request_error, not_found_error,
}
use open_voip.Ports.{
  CallLegRecord, CallState, LegRole, RecordingMeta, RecordingPolicy, Value, active, text,
}
use open_voip.CallStore.{delete_leg, get_leg, insert_leg}
use open_voip.Control.State.{Ctx, Effect, Env, RuntimeCall}
use open_voip.Control.Exec.{
  Exec, asks, attempt, fail, fresh_id, ignore, modify, now, perform, pure, request, when, with_live,
  with_option, with_result, ◌>>=◌, ◌>>◌,
}
use open_voip.Control.Events.{call_id_pair, publish_call}
use open_voip.Control.Hangup.{stopped_payload}
use open_voip.Control.Mutation.{guard_expected_version, run_idempotent}
use open_voip.Control.Recording.{stop_recording}
use open_voip.Control.Transition.{is_ended, transition}

-- `DirectLegRequest`.
pub record DirectLegRequest : Type 0 where
  pub role : LegRole
  pub agent_id : String

unfoldable pub is_direct_role : LegRole → Bool
is_direct_role LegRole.customer = true
is_direct_role LegRole.agent = true
is_direct_role LegRole.supervisor = true
is_direct_role LegRole.application = true
is_direct_role _ = false

unfoldable pub role_text : LegRole → String
role_text LegRole.application = "application"
role_text LegRole.customer = "customer"
role_text LegRole.agent = "agent"
role_text LegRole.ivr_bot = "ivr_bot"
role_text LegRole.supervisor = "supervisor"
role_text LegRole.pstn = "pstn"

abbrev pub not_implemented : Err
not_implemented = wraps err_not_implemented "功能尚未实现"

-- The loop of `leaveDirectLegOnce`, which takes out one leg.
unfoldable pub drop_first : String → List CallLegRecord → List CallLegRecord
drop_first id [] = []
drop_first id (l ∷ ls) = let rest = drop_first id ls in if l.id == id then ls else l ∷ rest

-- A call that has ended or that waits in a queue is not controlled leg by leg.
unfoldable pub is_closed : RuntimeCall → Bool
is_closed rt = is_ended rt.rec.state || is_some rt.rec.queue_id

unfoldable pub named_agent : String → Option String
named_agent agent_id = if agent_id == "" then none else some agent_id

module _ (env : Env) where
  unfoldable pub direct_leg : DirectLegRequest → String → ℕ → CallLegRecord
  direct_leg req leg_id t = record {
    kind = "";
    leg_state = "";
    participant_ref = "";
    id = leg_id;
    call_id = env.call_id;
    role = req.role;
    agent_id = named_agent req.agent_id;
    created_at = t;
  }

  unfoldable pub join_leg : DirectLegRequest → Exec (Unit {0})
  join_leg req = do
    leg_id ← fresh_id env
    t ← now env
    insert_leg env (direct_leg req leg_id t)
    modify (λ r. record r { legs = r.legs ++ direct_leg req leg_id t ∷ [] })
    ignore (
        publish_call env "leg.added" req.agent_id
          (call_id_pair env ∷ ("leg_id", text leg_id) ∷ ("role", text (role_text req.role)) ∷ []))

  -- `AddDirectLeg`.
  unfoldable pub add_direct_leg : DirectLegRequest → Exec (Unit {0})
  add_direct_leg req =
      if not (is_direct_role req.role)
      then fail (api (invalid_request_error "role 只支持 customer、agent、supervisor、application"))
      else with_live (fail (api (conflict_error "通话不可添加直接控制腿" ""))) λ rt.
        if is_closed rt
        then fail (api (conflict_error "通话不可添加直接控制腿" ""))
        else if leb 2 (length rt.legs)
        then fail (api (conflict_error "直接控制通话最多支持两个媒体腿" ""))
        else join_leg req

  unfoldable pub same_legs : String → String → Bool
  same_legs a b = a == "" || (b == "" || a == b)

  unfoldable pub with_bridge : String → List (String × Value) → List (String × Value)
  with_bridge bridge_id payload =
      if bridge_id == "" then payload else payload ++ ("bridge_id", text bridge_id) ∷ []

  unfoldable pub note_answer : Exec (Unit {0})
  note_answer = with_live (pure tt) λ rt.
      if is_some rt.answered_at
      then pure tt
      else (do t ← now env; modify (λ r. record r { answered_at = some t }))

  -- The state is written, or the bridge of the media layer is taken down again.
  unfoldable pub activate : Exec (Unit {0})
  activate = do
    done ← attempt (transition env active)
    with_result done (λ e. do ignore (perform env Effect.unbridge_legs); fail e) λ _. pure tt

  unfoldable pub bridge_id_of : String → String → Exec String
  bridge_id_of a b =
      if env.has_bridges then request env (Effect.activate_pair a b) env.activated_pair else pure ""

  unfoldable pub bridge_payload : String → String → List (String × Value)
  bridge_payload a b = call_id_pair env ∷ ("leg_a", text a) ∷ ("leg_b", text b) ∷ []

  -- `bridgeDirectOnce`.
  unfoldable pub bridge_direct_once : String → String → Exec (Unit {0})
  bridge_direct_once a b = with_live (fail (api (conflict_error "通话不可桥接" ""))) λ rt.
      if is_closed rt then fail (api (conflict_error "通话不可桥接" "")) else (do
        get_leg env a
        get_leg env b
        perform env (Effect.bridge_legs a b)
        note_answer
        activate
        bridge_id ← bridge_id_of a b
        publish_call env "bridge.active" "" (with_bridge bridge_id (bridge_payload a b))
        publish_call env "call.answered" "" (with_bridge bridge_id (bridge_payload a b)))

  -- `BridgeDirect`.
  unfoldable pub bridge_direct : Ctx → String → String → Exec (Unit {0})
  bridge_direct ctx a b =
      if same_legs a b then fail (api (invalid_request_error "需要两个不同的 leg_id")) else (do
        guard_expected_version env ctx
        run_idempotent env ctx "bridge" (str_append "bridge|" (str_append a (str_append "|" b)))
            (bridge_direct_once a b))

  unfoldable pub replace_bridge_once : String → String → String → Exec (Unit {0})
  replace_bridge_once bridge_id a b = with_live (fail (api (conflict_error "通话不可桥接" ""))) λ rt.
      if is_ended rt.rec.state then fail (api (conflict_error "通话不可桥接" "")) else (do
        get_leg env a
        get_leg env b
        if not env.has_bridges then fail not_implemented else (do
          perform env (Effect.replace_pair bridge_id a b)
          ignore (perform env Effect.unbridge_legs)
          perform env (Effect.bridge_legs a b)
          publish_call env "bridge.updated" "" (
              call_id_pair env
              ∷ ("bridge_id", text bridge_id)
              ∷ ("leg_a", text a)
              ∷ ("leg_b", text b)
              ∷ [])))

  -- `ReplaceBridge`.
  unfoldable pub replace_bridge : Ctx → String → String → String → Exec (Unit {0})
  replace_bridge ctx bridge_id a b =
      if same_legs a b then fail (api (invalid_request_error "需要两个不同的 leg_id")) else (do
        guard_expected_version env ctx
        run_idempotent env ctx "bridge.replace"
            (str_append "bridge.replace|"
              (str_append bridge_id (str_append "|" (str_append a (str_append "|" b)))))
            (replace_bridge_once bridge_id a b))

  -- `EndBridge`.
  unfoldable pub end_bridge : String → Exec (Unit {0})
  end_bridge bridge_id = if not env.has_bridges then fail not_implemented else (do
    perform env (Effect.end_bridge bridge_id)
    ignore (
        publish_call env "bridge.ended" "" (call_id_pair env ∷ ("bridge_id", text bridge_id) ∷ [])))

  -- `leaveDirectLegOnce`.
  unfoldable pub leave_direct_leg_once : String → Exec (Unit {0})
  leave_direct_leg_once leg_id = with_live (fail (api (conflict_error "通话不可移除媒体腿" ""))) λ rt.
      if is_closed rt then fail (api (conflict_error "通话不可移除媒体腿" "")) else (do
        get_leg env leg_id
        perform env (Effect.leave_room leg_id)
        delete_leg env leg_id
        modify (λ r. record r { legs = drop_first leg_id r.legs })
        publish_call env "leg.left" "" (call_id_pair env ∷ ("leg_id", text leg_id) ∷ []))

  -- `LeaveDirectLeg`.
  unfoldable pub leave_direct_leg : Ctx → String → Exec (Unit {0})
  leave_direct_leg ctx leg_id =
      run_idempotent env ctx "leg.leave" (str_append "leg.leave|" leg_id)
        (leave_direct_leg_once leg_id)

  unfoldable pub begin_direct_recording : RecordingPolicy → Exec RecordingMeta
  begin_direct_recording policy = do
    id ← request env (Effect.start_media_recording policy) env.started_recording
    meta ← asks (λ l. env.recording_info l id)
    modify (λ r. record r { recording_id = id })
    ignore (
        publish_call env "recording.started" "" (
          call_id_pair env ∷ ("recording_id", text id) ∷ ("media_type", text meta.media_type) ∷ []))
    pure meta

  -- `StartDirectRecording`.
  unfoldable pub start_direct_recording : RecordingPolicy → Exec RecordingMeta
  start_direct_recording policy =
      if not (policy.mode == "audio" || policy.mode == "video_composite")
      then fail (api (invalid_request_error "mode 无效"))
      else with_live (fail (api (conflict_error "通话不可录制" ""))) λ rt.
        if is_closed rt
        then fail (api (conflict_error "通话不可录制" ""))
        else if not (rt.recording_id == "")
        then asks (λ l. env.recording_info l rt.recording_id)
        else begin_direct_recording policy

  -- `StopDirectRecording`.
  unfoldable pub stop_direct_recording : Exec RecordingMeta
  stop_direct_recording = with_live (fail (api (not_found_error "录音不存在"))) λ rt.
      if is_some rt.rec.queue_id || rt.recording_id == ""
      then fail (api (not_found_error "录音不存在"))
      else (do
        stop_recording env
        meta ← asks (λ l. env.recording_info l rt.recording_id)
        modify (λ r. record r { recording_id = "" })
        ignore (publish_call env "recording.stopped" "" (stopped_payload env rt.recording_id meta))
        pure meta)
