-- ===== src/Ports.antt =====
-- open-switch/internal/ports and ports/dto: what the layers of the switch hand each other. Ids and
-- texts are strings, times and durations are milliseconds, a nil pointer is `none`.
use open_voip.Base.{ℕ, String, Bool, Option, List}
use open_voip.Base.Int.{ℤ}

-- `state` of a call (the constants at the top of control/service.go).
pub data CallState : Type 0 where
  created ivr queued ringing active held transferring ended : CallState

pub CallState-discrete : Discrete CallState
CallState-discrete = hlevel

pub data SessionType : Type 0 where
  audio video mixed : SessionType

pub data LegRole : Type 0 where
  application customer agent ivr_bot supervisor pstn : LegRole

pub data HangupReason : Type 0 where
  normal timeout abandon error transfer : HangupReason

-- The agent states that the call control names; `any` is the empty `fromState`.
pub data AgentState : Type 0 where
  any idle agent_ringing on_call acw busy offline : AgentState

-- `CallRecord`, the persisted record of a call.
pub record CallRecord : Type 0 where
  pub id : String
  pub business_ref : String
  pub metadata : String
  pub version : ℕ
  pub config_version : Option ℕ
  pub caller : String
  pub callee : String
  pub agent_id : String
  pub offered_agent : String
  pub answered_at : Option ℕ
  pub direction : String
  pub session_type : SessionType
  pub state : CallState
  pub queue_id : Option String
  pub parent_call_id : Option String
  pub priority : ℕ
  pub created_at : ℕ
  pub updated_at : ℕ
  pub ended_at : Option ℕ

-- `CallLegRecord`.
pub record CallLegRecord : Type 0 where
  pub kind : String
  pub leg_state : String
  pub participant_ref : String
  pub id : String
  pub call_id : String
  pub role : LegRole
  pub agent_id : Option String
  pub created_at : ℕ

-- `AgentInfo`, the fields that the call control reads.
pub record AgentInfo : Type 0 where
  pub config_version : ℕ
  pub terminal_type : String
  pub sip_username : String
  pub agent_id : String
  pub extension : String
  pub video_capable : Bool
  pub state : AgentState

-- `QueueSnapshot`, the fields that the call control reads.
pub record QueueSnapshot : Type 0 where
  pub config_version : ℕ
  pub name : String
  pub video_enabled : Bool
  pub max_wait_sec : ℕ
  pub ivr_flow_id : String
  pub audio_profile : String
  pub after_hours_action : String
  pub overflow_action : String
  pub overflow_queue_id : String
  pub wait_prompt : String
  pub listen_announce : Bool
  pub priority_enabled : Bool
  pub post_call_ivr_flow_id : String

-- `RecordingPolicy`, the fields that the call control reads and sets.
pub record RecordingPolicy : Type 0 where
  pub mode : String
  pub notify_guest : Bool
  pub notify_message : String
  pub gate_inbound_until_prompt : Bool

-- `RecordingMeta`, the fields that the call control reads and reports.
pub record RecordingMeta : Type 0 where
  pub id : String
  pub call_id : String
  pub file_path : String
  pub media_type : String
  pub recording_semantics : String
  pub status : String
  pub failure_reason : String
  pub channels : ℕ
  pub duration_samples : ℕ
  pub sample_rate_hz : ℕ
  pub file_size : ℕ
  pub leg_paths : List String
  pub started_at : ℕ
  pub ended_at : Option ℕ

-- `CDRWriteRequest`.
pub record CdrWriteRequest : Type 0 where
  pub call_id : String
  pub direction : String
  pub queue_id : String
  pub agent_id : String
  pub caller : String
  pub callee : String
  pub session_type : SessionType
  pub result : String
  pub started_at : ℕ
  pub answered_at : Option ℕ
  pub ended_at : Option ℕ
  pub video_started_at : Option ℕ
  pub video_upgrade_ok : Bool
  pub screen_share_count : ℕ

-- `QueueStatusView`, the fields that the call control reads.
pub record QueueStatus : Type 0 where
  pub waiting : ℕ
  pub available_agents : ℕ

-- `IVRSnapshot`, the fields that the call control reads.
pub record IvrSnapshot : Type 0 where
  pub snapshot_id : String
  pub flow_id : String
  pub version : ℕ
  pub payload_json : String

-- `BusinessAction`; the deadline is in milliseconds.
pub record BusinessAction : Type 0 where
  pub id : String
  pub call_id : String
  pub node_id : String
  pub action : String
  pub outcomes : Option (List (String × String))
  pub deadline : ℤ
  pub status : String
  pub outcome : String

-- `TransferRequest`; the mode is trimmed and in lower case.
pub record TransferRequest : Type 0 where
  pub mode : String
  pub target_agent_id : String
  pub target_queue_id : String

-- A value of an event's payload.
pub data Value : Type 0 where
  text : String → Value
  num : ℕ → Value
  flag : Bool → Value
  time : ℕ → Value
  texts : List String → Value
  null : Value

-- `CallEvent`, with its payload as pairs of a key and a value.
pub record CallEvent : Type 0 where
  pub typ : String
  pub call_id : String
  pub agent_id : String
  pub target_only : Bool
  pub payload : List (String × Value)

-- `InboundRequest`; the call id is the one of the ports. `session_type` is none where it is not given.
pub record InboundRequest : Type 0 where
  pub ivr_flow_id : String
  pub queue_id : String
  pub guest_session_id : String
  pub session_type : Option SessionType
  pub priority : ℕ
  pub caller : String
  pub skip_ivr : Bool
