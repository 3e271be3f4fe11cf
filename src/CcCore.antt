-- ===== src/CcCore.antt =====
-- layers/cccore, the configuration of the call centre: the checks that a bundle of queues, agents, flows and
-- routes passes before it is stored.
pub mod Agents
pub mod Bundle
pub mod Config
pub mod Faults
pub mod Hours
pub mod Nodes
pub mod Normal
pub mod Validation
use Prim.Native.Char.{Char}
use open_voip.Base.{String, Bool, Option, List}
use open_voip.Ivr.{IvrDoc}

-- What the checks ask of Go's standard library: `json.Unmarshal` of a flow and of a schedule,
-- `TrimSpace`, `Contains`, `ContainsRune` and `Split` of package strings, whether `time.LoadLocation`
-- knows a zone, whether `time.Parse` takes a text as a date and as a time of day, and whether
-- `uuid.Parse` and `json.Valid` take it.
pub record Library : Type 0 where
  pub parse_doc : String → Option IvrDoc
  pub parse_schedule : String → Option (List (String × String))
  pub trim_space : String → String
  pub text_contains : String → String → Bool
  pub contains_rune : String → Char → Bool
  pub split : String → String → List String
  pub is_zone : String → Bool
  pub is_date : String → Bool
  pub is_clock : String → Bool
  pub is_uuid : String → Bool
  pub is_json : String → Bool
