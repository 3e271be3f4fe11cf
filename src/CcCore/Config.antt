-- ===== src/CcCore/Config.antt =====
-- The configuration bundle: ports/configuration.go.
use open_voip.Base.{String, List}
use open_voip.Base.Int.{ℤ}

-- `QueueConfig` and the other parts of `ConfigBundle`, the fields that are checked.
pub record QueueConfig : Type 0 where
  pub id : String
  pub name : String
  pub max_wait_sec : ℤ
  pub audio_profile : String
  pub dispatch_strategy : String
  pub recording_policy : String
  pub overflow_action : String
  pub overflow_queue_id : String
  pub after_hours_action : String
  pub business_hours_json : String
  pub ivr_flow_id : String
  pub post_call_ivr_flow_id : String
  pub skill_ids : List String
  pub agent_ids : List String

pub record SkillConfig : Type 0 where
  pub id : String
  pub name : String

pub record AgentConfig : Type 0 where
  pub id : String
  pub user_ref : String
  pub extension : String
  pub terminal_type : String
  pub sip_username : String
  pub skill_ids : List String

pub record DidConfig : Type 0 where
  pub id : String
  pub trunk_id : String
  pub did : String
  pub target_type : String
  pub target_id : String

pub record IvrConfig : Type 0 where
  pub flow_id : String
  pub version : ℤ
  pub payload_json : String

pub record ConfigBundle : Type 0 where
  pub queues : List QueueConfig
  pub skills : List SkillConfig
  pub agents : List AgentConfig
  pub dids : List DidConfig
  pub ivrs : List IvrConfig
