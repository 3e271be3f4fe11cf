-- ===== src/Tests/Bundles.antt =====
-- A concrete configuration, and the theorem applied to it.
use Prim.Native.String.{String}
use open_voip.Base.{refl, [], ◌∷◌}
use open_voip.Base.Int.{pos}
use open_voip.CcCore.Bundle.{
  agent_fault, agent_ids, agents_fault, all_links_fault, did_fault, did_target_fault, dids_fault,
  flow_fault, flow_ids, flows_fault, has_stranger, is_action, links_fault, queue_config_fault,
  queue_ids, queues_fault, route_key, skill_fault, skill_ids, skills_fault, validate_bundle,
}
use open_voip.CcCore.Bundle.Consistent.{IsConsistent, validate_bundle-IsConsistent}
use open_voip.CcCore.Config.{ConfigBundle, QueueConfig}
use open_voip.CcCore.Hours.{hours_fault}
use open_voip.CcCore.Validation.{discover, doc_fault, has_unseen, reach_fault, validate_ivr, walk}
use open_voip.CcCore.Nodes.{
  bad_retries, edges_at, edges_of, flow_node_fault, has_missing, node_fault, nodes_fault,
  type_fault,
}
use open_voip.Ivr.{node_at}
use open_voip.Tests.Flows.{library}

-- One queue that overflows into another, an agent, a flow and a route to it.
abbrev queue_of : String → String → QueueConfig
queue_of id next = record {
  id = id;
  name = "sales";
  max_wait_sec = pos 60;
  audio_profile = "narrowband";
  dispatch_strategy = "longest_idle";
  recording_policy = "off";
  overflow_action = "queue";
  overflow_queue_id = next;
  after_hours_action = "hangup";
  business_hours_json = "always";
  ivr_flow_id = "flow-1";
  post_call_ivr_flow_id = "";
  skill_ids = "billing" ∷ [];
  agent_ids = "ada" ∷ [];
}

abbrev shop_floor : ConfigBundle
shop_floor = record {
  queues = queue_of "q-1" "q-2" ∷ queue_of "q-2" "q-1" ∷ [];
  skills = record { id = "billing"; name = "Billing" } ∷ [];
  agents =
      record {
        id = "ada";
        user_ref = "u-1";
        extension = "1001";
        terminal_type = "sip";
        sip_username = "ada";
        skill_ids = "billing" ∷ [];
      }
      ∷ [];
  dids =
      record {
        id = "d-1";
        trunk_id = "*";
        did = "+4930";
        target_type = "ivr";
        target_id = "flow-1";
      }
      ∷ [];
  ivrs = record { flow_id = "flow-1"; version = pos 1; payload_json = "{}" } ∷ [];
}

validate_bundle-IsConsistent_example : IsConsistent library shop_floor
unfolding doc_fault nodes_fault flow_node_fault node_fault type_fault bad_retries edges_of edges_at
    has_missing reach_fault walk discover has_unseen node_at validate_bundle validate_ivr
    hours_fault queues_fault queue_config_fault skills_fault skill_fault agents_fault agent_fault
    flows_fault flow_fault dids_fault did_fault did_target_fault all_links_fault links_fault
    has_stranger is_action queue_ids skill_ids agent_ids flow_ids route_key
validate_bundle-IsConsistent_example = validate_bundle-IsConsistent library shop_floor refl
