-- ===== src/Control/State.antt =====
-- The state of open-switch/internal/layers/control: `runtimeCall` of service.go and the ports of
-- `Deps`. A command holds the lock of its call (commands.go), so a `Cell` is what one command works
-- on: the live entry of `s.calls` for its call, the call's row and legs in the database, the
-- command table, and the record of every call that was made of a port.
use open_voip.Base.{ℕ, String, Bool, Option, List}
use open_voip.Base.Int.{ℤ}
use open_voip.Errs.{Err}
use open_voip.Ivr.{IvrDoc}
use open_voip.Ports.{
  AgentInfo, AgentState, BusinessAction, CallEvent, CallLegRecord, CallRecord, CdrWriteRequest,
  IvrSnapshot, QueueSnapshot, QueueStatus, RecordingMeta, RecordingPolicy, SessionType,
}

-- A result of Go's `(A, error)`.
pub data Result {ℓ} (A : Type ℓ) : Type ℓ where
  ok : A → Result A
  err : Err → Result A

-- `ivrRuntime` of ivr.go.
pub record IvrRuntime : Type 0 where
  pub doc : IvrDoc
  pub flow_id : String
  pub flow_version : ℕ
  pub node : String
  pub entered : ℕ
  pub timeout : ℤ
  pub invalid_attempts : ℕ
  pub action_id : String
  pub started : ℕ
  pub hops : ℕ
  pub awaiting_answer : Bool

-- `runtimeCall`; `sip_offer_cancel` says whether the cancel function is set.
pub record RuntimeCall : Type 0 where
  pub sip_offer_leg : String
  pub sip_offer_cancel : Bool
  pub rec : CallRecord
  pub legs : List CallLegRecord
  pub active_agent : String
  pub offered_agent : String
  pub offer_at : Option ℕ
  pub queued_at : ℕ
  pub answered_at : Option ℕ
  pub caller : String
  pub callee : String
  pub queue_name : String
  pub post_call_ivr_flow_id : String
  pub max_wait : ℕ
  pub held : Bool
  pub recording_id : String
  pub video_from_leg : String
  pub video_upgrade_ok : Bool
  pub video_started_at : Option ℕ
  pub screen_shares : ℕ
  pub notify : String
  pub ivr : Option IvrRuntime
  pub wait_prompt : String
  pub consult_from : String
  pub transfer_mode : String
  pub end_message : String
  pub end_code : String
  pub cdr_result : String
  pub pstn_dial_state : String

-- `Status` of a row of `os_commands`.
pub data CommandStatus : Type 0 where
  accepted running succeeded failed unknown : CommandStatus

-- `commandRow` of store/commands.go, without its times and its result document.
pub record CommandRow : Type 0 where
  pub id : String
  pub call_id : String
  pub idempotency_key : String
  pub request_hash : String
  pub typ : String
  pub status : CommandStatus
  pub error_code : String

-- A call of a port that changes something outside, as it is recorded.
pub data Effect : Type 0 where
  update_call : CallRecord → Effect
  insert_call_with_leg : CallRecord → CallLegRecord → Effect
  insert_leg : CallLegRecord → Effect
  delete_leg : String → Effect
  create_room : SessionType → Bool → Effect
  close_room : Effect
  stop_injected_audio : Effect
  inject_audio : String → String → Bool → Effect
  begin_queue_answer_handoff : Effect
  set_hold : String → Bool → Effect
  leave_room : String → Effect
  set_audio_profile : String → Effect
  prepare_sip : Effect
  preflight_originate_sip : String → String → Effect
  originate_sip : String → String → Effect
  set_recording_mix_inbound : Bool → Effect
  start_media_recording : RecordingPolicy → Effect
  stop_media_recording : String → Effect
  save_recording : RecordingMeta → Effect
  request_renegotiation : String → Bool → Effect
  set_agent_state : String → AgentState → AgentState → String → Effect
  publish : CallEvent → Effect
  upsert_cdr : CdrWriteRequest → Effect
  end_bridges : Effect
  bridge_legs : String → String → Effect
  unbridge_legs : Effect
  activate_pair : String → String → Effect
  replace_pair : String → String → String → Effect
  end_bridge : String → Effect
  schedule_hangup : Effect
  cancel_sip_offer : Effect
  request_agent : String → Bool → Effect
  create_command : CommandRow → Effect
  update_command : String → CommandStatus → Effect
  publish_command : String → CommandStatus → Effect
  subscribe_dtmf : String → Effect
  defer_until_answered : Effect
  begin_business_action : BusinessAction → Effect
  expire_business_action : String → Effect
  resolve_business_action : String → String → Effect

-- What `withinHoursFromSchedule` asks of `time.Time`: the first three letters of the weekday in lower
-- case, the weekday's number, and the formats "2006-01-02" and "15:04".
pub record LocalTime : Type 0 where
  pub weekday : String
  pub weekday_number : ℕ
  pub date : String
  pub clock : String

-- What the ports answer. An answer may depend on everything that was asked before, so a theorem
-- over every `Env` holds for every behaviour of the ports.
pub record Env : Type 0 where
  pub call_id : String
  pub now : List Effect → ℕ
  pub fresh_id : List Effect → String
  pub reply : List Effect → Effect → Option Err
  pub agent_by_id : List Effect → String → Result AgentInfo
  pub get_queue : List Effect → String → Result QueueSnapshot
  pub requested_agent : List Effect → Result String
  pub started_recording : List Effect → Result String
  pub recording_info : List Effect → String → Result RecordingMeta
  pub recording_policy : List Effect → String → Result RecordingPolicy
  pub notify_message_for_mode : List Effect → String → String
  pub ended_bridges : List Effect → Result (List String)
  pub activated_pair : List Effect → Result String
  pub read_fault : List Effect → Option Err
  pub peers : List Effect → List RuntimeCall
  pub active_version : List Effect → Result ℕ
  pub business_hours : List Effect → String → Result String
  -- What the database says to a second row of one call.
  pub duplicate_key : Err
  pub queue_status : List Effect → String → Result QueueStatus
  pub latest_ivr : List Effect → String → Result IvrSnapshot
  pub business_action : List Effect → String → Result BusinessAction
  -- The length of a prompt, in nanoseconds.
  pub prompt_duration : List Effect → String → Result ℕ
  pub defers : List Effect → Bool
  -- The local time in a time zone, where the zone is known.
  pub local_time : List Effect → String → LocalTime
  -- `json.Unmarshal` of a document and of a schedule, and the functions of package strings.
  pub parse_doc : String → Option IvrDoc
  pub parse_schedule : String → Option (List (String × String))
  pub trim_space : String → String
  pub text_contains : String → String → Bool
  pub split : String → String → List String
  -- `strings.ReplaceAll(s, "{position}", n)`, `strconv.Itoa` and
  -- `strings.HasSuffix(strings.ToLower(s), ".wav")` of Go's standard library.
  pub replace_position : String → String → String
  pub itoa : ℕ → String
  pub is_wav : String → Bool
  pub has_call_events : Bool
  pub has_recordings : Bool
  pub has_recording_policy : Bool
  pub has_bridges : Bool
  pub has_commands : Bool

-- What a request's context carries (scope/*.go, `sipAnswerKey`).
pub record Ctx : Type 0 where
  pub expected_version : ℕ
  pub idempotency : String
  pub sip_answer : Bool

pub record Cell : Type 0 where
  pub live : Option RuntimeCall
  pub row : Option CallRecord
  pub leg_rows : List CallLegRecord
  pub commands : List CommandRow
  pub log : List Effect
