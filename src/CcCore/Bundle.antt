-- ===== src/CcCore/Bundle.antt =====
-- `validateBundle` of cccore/configuration.go: what a configuration must pass before it is stored. The sets
-- of ids that were seen are lists.
pub mod Consistent
pub mod Fresh
use Prim.Native.String.{◌++◌ as str_append}
use open_voip.Base.{
  String, ◌==◌, if◌then◌else◌, contains, Bool, true, false, not, ◌||◌, ◌&&◌, Option, none, List, [],
  ◌∷◌,
}
use open_voip.Base.Int.{ℤ, pos, leb_ℤ}
use open_voip.Errs.{ApiError}
use open_voip.CcCore.{Library}
use open_voip.CcCore.Config.{
  AgentConfig, ConfigBundle, DidConfig, IvrConfig, QueueConfig, SkillConfig,
}
use open_voip.CcCore.Faults.{fault, first_fault}
use open_voip.CcCore.Hours.{hours_fault}
use open_voip.CcCore.Validation.{validate_ivr}

-- The ids of the parts.
unfoldable pub queue_ids : List QueueConfig → List String
queue_ids [] = []
queue_ids (q ∷ qs) = q.id ∷ queue_ids qs

unfoldable pub skill_ids : List SkillConfig → List String
skill_ids [] = []
skill_ids (s ∷ ss) = s.id ∷ skill_ids ss

unfoldable pub agent_ids : List AgentConfig → List String
agent_ids [] = []
agent_ids (a ∷ as') = a.id ∷ agent_ids as'

unfoldable pub flow_ids : List IvrConfig → List String
flow_ids [] = []
flow_ids (i ∷ is) = i.flow_id ∷ flow_ids is

-- An id that is not in the set.
unfoldable pub has_stranger : List String → List String → Bool
has_stranger known [] = false
has_stranger known (id ∷ ids) = not (contains id known) || has_stranger known ids

unfoldable pub is_action : String → Bool
is_action s = s == "hangup" || s == "voicemail" || s == "queue"

-- The key of a route, its parts joined by the character 0.
unfoldable pub route_key : DidConfig → String
route_key d = str_append d.trunk_id (str_append "\0" d.did)

unfoldable pub did_target_fault : List String → List String → DidConfig → Option ApiError
did_target_fault queues flows d =
    if d.target_type == "queue"
    then (if contains d.target_id queues then none else fault "DID 引用了不存在的队列")
    else if d.target_type == "ivr"
    then (if contains d.target_id flows then none else fault "DID 引用了不存在的 IVR")
    else if d.target_type == "reject"
    then (if d.target_id == "" then none else fault "拒绝路由不能包含 target_id")
    else fault "DID target_type 无效"

module _ (lib : Library) where
  unfoldable pub queue_config_fault : List String → QueueConfig → Option ApiError
  queue_config_fault seen q =
      if not (lib.is_uuid q.id) || q.name == ""
      then fault "队列 id/name 无效"
      else if contains q.id seen
      then fault "队列 ID 重复"
      else if leb_ℤ q.max_wait_sec (pos 0)
      then fault "max_wait_sec 必须大于 0"
      else if not (q.audio_profile == "narrowband")
      then fault "当前媒体版本仅支持 narrowband；wideband 和 hd_webrtc 尚未通过质量验收"
      else if not (q.dispatch_strategy == "longest_idle" || q.dispatch_strategy == "round_robin")
      then fault "队列分配策略无效"
      else if not (
          q.recording_policy == "off"
          || q.recording_policy == "audio"
          || q.recording_policy == "video_composite")
      then fault "录制策略无效"
      else if not (is_action q.overflow_action)
      then fault "溢出动作无效"
      else if not (is_action q.after_hours_action)
      then fault "非工作时间动作无效"
      else hours_fault lib q.business_hours_json

  unfoldable pub queues_fault : List String → List QueueConfig → Option ApiError
  queues_fault seen [] = none
  queues_fault seen (q ∷ qs) =
      first_fault (queue_config_fault seen q) (queues_fault (q.id ∷ seen) qs)

  unfoldable pub skill_fault : List String → SkillConfig → Option ApiError
  skill_fault seen s =
      if not (lib.is_uuid s.id) || lib.trim_space s.name == ""
      then fault "技能 id/name 无效"
      else if contains s.id seen
      then fault "技能 ID 重复"
      else none

  unfoldable pub skills_fault : List String → List SkillConfig → Option ApiError
  skills_fault seen [] = none
  skills_fault seen (s ∷ ss) = first_fault (skill_fault seen s) (skills_fault (s.id ∷ seen) ss)

  unfoldable pub agent_fault :
      List String → List String → List String → List String → AgentConfig → Option ApiError
  agent_fault skills ids extensions users a =
      if not (lib.is_uuid a.id)
        || lib.trim_space a.user_ref == ""
        || lib.trim_space a.extension == ""
      then fault "坐席 id/user_ref/extension 无效"
      else if contains a.id ids
      then fault "坐席 ID 重复"
      else if contains a.extension extensions
      then fault "分机号重复"
      else if not (a.sip_username == "") && contains a.sip_username users
      then fault "SIP 账号重复"
      else if not (a.terminal_type == "webrtc") && not (a.terminal_type == "sip")
      then fault "坐席终端类型无效"
      else if a.terminal_type == "sip" && lib.trim_space a.sip_username == ""
      then fault "SIP 坐席必须配置 sip_username"
      else if has_stranger skills a.skill_ids
      then fault "坐席引用不存在的技能"
      else none

  unfoldable pub agents_fault :
      List String → List String → List String → List String → List AgentConfig → Option ApiError
  agents_fault skills ids extensions users [] = none
  agents_fault skills ids extensions users (a ∷ as') =
      first_fault (agent_fault skills ids extensions users a) (
        agents_fault skills (a.id ∷ ids) (a.extension ∷ extensions)
          (if a.sip_username == "" then users else a.sip_username ∷ users) as')

  unfoldable pub flow_fault : List String → List String → IvrConfig → Option ApiError
  flow_fault queues seen i =
      if not (lib.is_uuid i.flow_id) || leb_ℤ i.version (pos 0) || not (lib.is_json i.payload_json)
      then fault "IVR 快照无效"
      else if contains i.flow_id seen
      then fault "IVR flow_id 重复"
      else validate_ivr lib (λ q. contains q queues) i.payload_json

  unfoldable pub flows_fault : List String → List String → List IvrConfig → Option ApiError
  flows_fault queues seen [] = none
  flows_fault queues seen (i ∷ is) =
      first_fault (flow_fault queues seen i) (flows_fault queues (i.flow_id ∷ seen) is)

  unfoldable pub did_fault : List String → List String → List String → DidConfig → Option ApiError
  did_fault queues flows seen d =
      if not (lib.is_uuid d.id) || d.did == ""
      then fault "DID id/号码无效"
      else if contains (route_key d) seen
      then fault "DID 路由重复"
      else did_target_fault queues flows d

  unfoldable pub dids_fault :
      List String → List String → List String → List DidConfig → Option ApiError
  dids_fault queues flows seen [] = none
  dids_fault queues flows seen (d ∷ ds) =
      first_fault (did_fault queues flows seen d) (dids_fault queues flows (route_key d ∷ seen) ds)

-- The second loop over the queues: what they refer to.
unfoldable pub links_fault :
    List String → List String → List String → List String → QueueConfig → Option ApiError
links_fault queues skills agents flows q =
    if (q.overflow_action == "queue" || q.after_hours_action == "queue")
      && q.overflow_queue_id == ""
    then fault "队列跳转必须配置目标队列"
    else if not (q.overflow_queue_id == "")
        && (not (contains q.overflow_queue_id queues) || q.overflow_queue_id == q.id)
    then fault "队列溢出目标无效"
    else if not (q.ivr_flow_id == "") && not (contains q.ivr_flow_id flows)
    then fault "队列引用不存在的 IVR"
    else if not (q.post_call_ivr_flow_id == "") && not (contains q.post_call_ivr_flow_id flows)
    then fault "队列引用不存在的后续 IVR"
    else if has_stranger skills q.skill_ids
    then fault "队列引用不存在的技能"
    else if has_stranger agents q.agent_ids
    then fault "队列引用不存在的坐席"
    else none

unfoldable pub all_links_fault :
    List String → List String → List String → List String → List QueueConfig → Option ApiError
all_links_fault queues skills agents flows [] = none
all_links_fault queues skills agents flows (q ∷ qs) =
    first_fault (links_fault queues skills agents flows q)
      (all_links_fault queues skills agents flows qs)

unfoldable pub validate_bundle : Library → ConfigBundle → Option ApiError
validate_bundle lib b =
    let queues = queue_ids b.queues in
    let skills = skill_ids b.skills in
    let flows = flow_ids b.ivrs in
    first_fault (queues_fault lib [] b.queues) (
      first_fault (skills_fault lib [] b.skills) (
        first_fault (agents_fault lib skills [] [] [] b.agents) (
          first_fault (flows_fault lib queues [] b.ivrs) (
            first_fault (dids_fault lib queues flows [] b.dids)
              (all_links_fault queues skills (agent_ids b.agents) flows b.queues)))))
