-- ===== src/Ivr.antt =====
-- The documents of IVR flows: `ivrDoc` and `ivrNode` of open-switch/internal/layers/control/ivr.go.
-- The JSON of a document is read by Go's standard library; a map is a list of keys and values.
use open_voip.Base.{String, Option, none, List, find}
use open_voip.Base.Int.{ℤ, pos}

-- `ivrNode`. `choices` is none for a nil map.
pub record IvrNode : Type 0 where
  pub typ : String
  pub action : String
  pub prompt : String
  pub file : String
  pub timeout_sec : ℤ
  pub max_retries : Option ℤ
  pub choices : Option (List (String × String))
  pub default : String
  pub invalid : String
  pub queue_id : String
  pub session_type : String
  pub next : String
  pub open_to : String
  pub closed_to : String
  pub schedule : String
  pub waiting_gt : ℤ
  pub busy_to : String
  pub accepted_digits : String
  pub result_key : String

-- `ivrDoc`.
pub record IvrDoc : Type 0 where
  pub start : String
  pub nodes : List (String × IvrNode)

-- The zero value, which Go's map gives for a key that it lacks.
abbrev pub zero_node : IvrNode
zero_node = record {
  typ = "";
  action = "";
  prompt = "";
  file = "";
  timeout_sec = pos 0;
  max_retries = none;
  choices = none;
  default = "";
  invalid = "";
  queue_id = "";
  session_type = "";
  next = "";
  open_to = "";
  closed_to = "";
  schedule = "";
  waiting_gt = pos 0;
  busy_to = "";
  accepted_digits = "";
  result_key = "";
}

-- `node, ok := doc.Nodes[id]`.
unfoldable pub node_at : IvrDoc → String → Option IvrNode
node_at doc id = find id doc.nodes
