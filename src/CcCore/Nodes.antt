-- ===== src/CcCore/Nodes.antt =====
-- The checks of `validateIVR` on single nodes, of cccore/ivr_validation.go: what a type must say, and where
-- its edges lead. They go through Go maps, in no fixed order: with several faults another one may be
-- reported than in the model.
use Prim.Native.String.{◌++◌ as str_append}
use Prim.Native.String.{[] as text_end, ◌∷◌ as text_cons}
use open_voip.Base.{
  byte_length, ◌=?◌, String, ◌==◌, if◌then◌else◌, length, Bool, true, false, not, ◌||◌, ◌&&◌,
  is_some, Option, none, some, List, [], ◌∷◌, ◌++◌,
}
use open_voip.Base.Int.{ℤ, pos, ltb_ℤ}
use open_voip.Errs.{ApiError}
use open_voip.Ivr.{IvrDoc, IvrNode, node_at}
use open_voip.CcCore.{Library}
use open_voip.CcCore.Hours.{hours_fault}
use open_voip.CcCore.Faults.{fault, first_fault}

-- `node.Choices`, where a nil map has no keys.
abbrev pub choices_of : IvrNode → List (String × String)
choices_of node = elim node.choices [ none ↦ [] | some choices ↦ choices ]

unfoldable pub targets_of : List (String × String) → List String
targets_of [] = []
targets_of ((key, target) ∷ rest) = target ∷ targets_of rest

-- `edges[id]` of a node that passed its checks.
unfoldable pub edges_of : IvrNode → List String
edges_of node =
    if node.typ == "play"
    then node.next ∷ []
    else if node.typ == "menu" || node.typ == "business_action"
    then node.default ∷ targets_of (choices_of node)
      ++ (if node.invalid == "" then [] else node.invalid ∷ [])
    else if node.typ == "time_condition"
    then node.open_to ∷ node.closed_to ∷ []
    else if node.typ == "queue_condition"
    then node.open_to ∷ node.busy_to ∷ node.closed_to ∷ []
    else if node.typ == "collect_input"
    then node.next ∷ node.default ∷ []
    else if node.typ == "tts" || node.typ == "asr"
    then node.default ∷ []
    else []

abbrev pub edges_of_found : Option IvrNode → List String
edges_of_found none = []
edges_of_found (some node) = edges_of node

-- `edges[id]` of the whole document.
unfoldable pub edges_at : IvrDoc → String → List String
edges_at doc id = edges_of_found (node_at doc id)

-- A target that is named and that no node has.
unfoldable pub has_missing : IvrDoc → List String → Bool
has_missing doc [] = false
has_missing doc (target ∷ rest) =
    not (target == "") && not (is_some (node_at doc target)) || has_missing doc rest

unfoldable pub bad_retries : Option ℤ → Bool
bad_retries none = false
bad_retries (some n) = ltb_ℤ n (pos 0) || ltb_ℤ (pos 5) n

module _ (lib : Library) (queues : String → Bool) where
  unfoldable pub bad_key : List (String × String) → Bool
  bad_key [] = false
  bad_key ((key, target) ∷ rest) =
      not (byte_length key =? 1) || not (lib.text_contains "0123456789*#" key) || bad_key rest

  unfoldable pub branch_fault : IvrNode → Option ApiError
  branch_fault node =
      if length (choices_of node) =? 0
      then fault "IVR 分支不能为空"
      else if node.typ == "business_action"
          && (lib.trim_space node.action == "" || ltb_ℤ node.timeout_sec (pos 1))
      then fault "业务动作必须指定 action 与超时"
      else if node.default == ""
      then fault "IVR 分支必须指定 default 超时去向"
      else if node.typ == "menu" && bad_key (choices_of node)
      then fault "无效 DTMF 分支"
      else none

  unfoldable pub time_fault : IvrNode → Option ApiError
  time_fault node =
      let schedule = lib.trim_space node.schedule in
      let targets =
        if node.open_to == "" || node.closed_to == "" then fault "时间判断必须配置营业与非营业去向" else none in
      if schedule == "" || schedule == "always"
      then targets
      else first_fault (hours_fault lib schedule) targets

  unfoldable pub queue_fault : IvrNode → Option ApiError
  queue_fault node =
      if not (queues node.queue_id)
      then fault "排队判断引用了不存在的队列"
      else if node.open_to == ""
      then fault "排队判断必须配置空闲去向"
      else if node.busy_to == "" && node.closed_to == ""
      then fault "排队判断必须配置忙碌去向"
      else none

  unfoldable pub all_dtmf : String → Bool
  all_dtmf text_end = true
  all_dtmf (text_cons c cs) = lib.contains_rune "0123456789*#" c && all_dtmf cs

  unfoldable pub collect_fault : IvrNode → Option ApiError
  collect_fault node =
      if lib.trim_space node.result_key == "" || node.accepted_digits == ""
      then fault "按键采集必须指定 result_key 与 accepted_digits"
      else if not (all_dtmf node.accepted_digits)
      then fault "按键采集包含无效 DTMF"
      else if node.next == "" || node.default == ""
      then fault "按键采集必须指定 next 与 default"
      else none

  unfoldable pub route_fault : IvrNode → Option ApiError
  route_fault node =
      if not (node.session_type == "")
        && not (node.session_type == "audio")
        && not (node.session_type == "video")
      then fault "IVR 通话类型无效"
      else if not (queues node.queue_id)
      then fault "IVR 引用了不存在的队列"
      else none

  -- The `switch` on the node's type.
  unfoldable pub type_fault : IvrNode → Option ApiError
  type_fault node =
      if node.typ == "hangup" || node.typ == "voicemail"
      then none
      else if node.typ == "route_queue"
      then route_fault node
      else if node.typ == "play"
      then (if node.next == "" then fault "play 必须指定 next" else none)
      else if node.typ == "menu" || node.typ == "business_action"
      then branch_fault node
      else if node.typ == "time_condition"
      then time_fault node
      else if node.typ == "queue_condition"
      then queue_fault node
      else if node.typ == "collect_input"
      then collect_fault node
      else if node.typ == "tts" || node.typ == "asr"
      then (if node.default == "" then fault "tts/asr 节点必须指定 default 兜底分支" else none)
      else fault (str_append "不支持的 IVR 节点: " node.typ)

  unfoldable pub node_fault : IvrNode → Option ApiError
  node_fault node =
      if bad_retries node.max_retries
      then fault "IVR 无效按键重试必须为 0–5 次"
      else if ltb_ℤ node.timeout_sec (pos 0) || ltb_ℤ (pos 120) node.timeout_sec
      then fault "IVR 超时必须为 0–120 秒"
      else type_fault node

  -- One turn of the loop over the nodes, and the loop.
  unfoldable pub flow_node_fault : IvrDoc → IvrNode → Option ApiError
  flow_node_fault doc node =
      first_fault (node_fault node)
        (if has_missing doc (edges_of node) then fault "IVR 后续节点不存在" else none)

  unfoldable pub nodes_fault : IvrDoc → List (String × IvrNode) → Option ApiError
  nodes_fault doc [] = none
  nodes_fault doc ((id, node) ∷ rest) =
      first_fault (flow_node_fault doc node) (nodes_fault doc rest)
