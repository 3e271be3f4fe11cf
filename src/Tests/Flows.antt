-- ===== src/Tests/Flows.antt =====
-- Concrete IVR flows and SIP devices, and the theorems applied to them.
use Prim.Native.String.{String}
use open_voip.Base.{
  ◌*◌, ◌+◌, ◌<◌, ◌≤◌, ◌⊎◌, ◌↔◌, ◌≡◌, refl, inl, inr, Bool-cases, ◌==◌, ◌&&◌, Bool, true, false,
  is_some, none, some, contains, List, [], ◌∷◌,
}
use open_voip.Base.Int.{pos, pos_part, leb_ℤ}
use open_voip.Ivr.{IvrDoc, IvrNode, node_at, zero_node}
use open_voip.Ports.{BusinessAction, CallState, InboundRequest}
use open_voip.Errs.{Err}
use open_voip.Control.Inbound.{start_inbound}
use open_voip.Control.Inbound.Repeated.{IsAllowed, inbound-IsAllowed}
use open_voip.Control.State.{Cell, Env, IvrRuntime, LocalTime, RuntimeCall, err, ok}
use open_voip.Control.Hours.{window_of, within_windows}
use open_voip.Control.Ivr.{play_node_wait_seconds}
use open_voip.Control.Ivr.Inputs.{
  complete_business_action, goto_node, parse_ivr_payload, run_current,
}
use open_voip.Control.Ivr.Outcomes.{outcome_guarded}
use open_voip.Control.Ivr.Termination.{jump_fuel_suffices}
use open_voip.Control.Ivr.Waiting.{wait_covers_prompt}
use open_voip.CcCore.{Library}
use open_voip.CcCore.Hours.{days_fault, day_fault, window_fault, all_clocks}
use open_voip.CcCore.Hours.Serving.{DayHours, accepted_hours_serve, is_open}
use open_voip.CcCore.Nodes.{
  edges_of, edges_at, flow_node_fault, has_missing, node_fault, nodes_fault, type_fault,
  bad_retries,
}
use open_voip.CcCore.Validation.{discover, doc_fault, has_unseen, reach_fault, walk, walk_fuel}
use open_voip.CcCore.Validation.Booting.{published_flow_parses}
use open_voip.CcCore.Validation.Exact.{IsPublishable, validation_exact}
use open_voip.CcCore.Validation.Fuel.{walk_fuel_suffices}
use open_voip.CcCore.Validation.Search.{Reach, walk_exact}
use open_voip.Tests.{call_in, cell_of, keep_metadata, ports}

abbrev speech : String → IvrNode
speech next = record zero_node { typ = "tts"; default = next }

-- A flow that never leaves its two nodes.
abbrev circle : IvrDoc
circle = record { start = "a"; nodes = ("a", speech "b") ∷ ("b", speech "a") ∷ [] }

abbrev at_node : IvrDoc → String → IvrRuntime
at_node doc node = record {
  doc = doc;
  flow_id = "flow-1";
  flow_version = 1;
  node = node;
  entered = 0;
  timeout = pos 15000;
  invalid_attempts = 0;
  action_id = "action-1";
  started = 1;
  hops = 0;
  awaiting_answer = false;
}

abbrev in_flow : IvrDoc → String → RuntimeCall
in_flow doc node = record (call_in CallState.ivr) { ivr = some (at_node doc node) }

abbrev circling : Cell
circling = cell_of (in_flow circle "a")

jump_fuel_suffices_example :
    ((goto_node ports keep_metadata 0 "b" circling).0 ≡ ok tt)
    × ((run_current ports keep_metadata 0 circling).0 ≡ ok tt)
jump_fuel_suffices_example = jump_fuel_suffices ports keep_metadata 0 "b" circling

wait_covers_prompt_example :
    let wait = play_node_wait_seconds (pos 2) 3_200_000_000 in
    (3_200_000_000 + 600_000_000 ≤ pos_part wait * 1_000_000_000)
    × (leb_ℤ (pos 2) wait ≡ true)
    × ((wait ≡ pos 2) ⊎ (pos_part wait * 1_000_000_000 < 3_200_000_000 + 1_600_000_000))
wait_covers_prompt_example = wait_covers_prompt (pos 2) 3_200_000_000

-- A standard library that reads every payload as the circle.
abbrev pub library : Library
library = record {
  parse_doc = λ s. some circle;
  parse_schedule = λ s. none;
  trim_space = λ s. s;
  text_contains = λ s t. true;
  contains_rune = λ s c. true;
  split = λ s sep. "09:00" ∷ "18:00" ∷ [];
  is_zone = λ s. true;
  is_date = λ s. true;
  is_clock = λ s. true;
  is_uuid = λ s. true;
  is_json = λ s. true;
}

abbrev no_queue : String → Bool
no_queue q = false

-- What the checks of a concrete flow compute through.
abbrev checker : Unit {0}
unfolding doc_fault nodes_fault flow_node_fault node_fault type_fault bad_retries edges_of edges_at
    has_missing reach_fault walk discover has_unseen node_at days_fault day_fault window_fault
    all_clocks
checker = tt

validation_exact_example :
    (doc_fault library no_queue circle ≡ none) ↔ IsPublishable library no_queue circle
validation_exact_example = validation_exact library no_queue circle

walk_exact_example : (contains "b" ("b" ∷ "a" ∷ []) ≡ true) ↔ Reach circle "b"
unfolding checker
walk_exact_example = walk_exact circle 3 ("b" ∷ "a" ∷ []) refl "b"

circle_closed : (id : String) → has_missing circle (edges_at circle id) ≡ false
unfolding checker
circle_closed id = elim (Bool-cases ("a" == id)) [
  | inl e ↦ rw e refl
  | inr n ↦ rw n (elim (Bool-cases ("b" == id)) [ inl e ↦ rw e refl | inr m ↦ rw m refl ])
]

walk_fuel_suffices_example : is_some (walk circle (walk_fuel circle) ("a" ∷ []) ("a" ∷ [])) ≡ true
walk_fuel_suffices_example = walk_fuel_suffices circle circle_closed

published_flow_parses_example :
    parse_ivr_payload (record ports { parse_doc = λ s. some circle }) "{}" circling
    ≡ (ok circle, circling)
unfolding checker
published_flow_parses_example =
    published_flow_parses library no_queue (record ports { parse_doc = λ s. some circle }) circle
      "{}" circling refl refl

abbrev monday : LocalTime
monday = record { weekday = "mon"; weekday_number = 1; date = "2026-01-05"; clock = "10:30" }

abbrev office : List (String × String)
office = ("timezone", "Asia/Shanghai") ∷ ("mon", "09:00-18:00") ∷ ("sun", "closed") ∷ []

abbrev clerk : Env
clerk = record ports { split = λ s sep. "09:00" ∷ "18:00" ∷ [] }

accepted_hours_serve_example :
    (d : DayHours library (window_of clerk monday office)) × (within_windows clerk monday office
      ≡ is_open d "10:30")
unfolding checker
accepted_hours_serve_example =
    accepted_hours_serve library office refl clerk monday
      (record { date_key = refl; weekday_key = refl; number_key = refl }) refl

abbrev payment : BusinessAction
payment = record {
  id = "action-1";
  call_id = "call-1";
  node_id = "pay";
  action = "charge";
  outcomes = some (("paid", "bye") ∷ []);
  deadline = pos 0;
  status = "completed";
  outcome = "paid";
}

abbrev shop : Env
shop = record ports { business_action = λ l a. ok payment }

outcome_guarded_example :
    ((complete_business_action shop keep_metadata 0 "action-1" "paid" circling).1 ≡ circling)
    × ((complete_business_action shop keep_metadata 0 "action-1" "paid" circling).0 ≡ ok tt
        → ("completed" == "completed" && "paid" == "paid") ≡ true)
outcome_guarded_example =
    outcome_guarded shop keep_metadata 0 "action-1" "paid" circling payment refl
      (λ h. absurd (cc h))

-- A caller who asks for a queue.
abbrev asks_for : String → InboundRequest
asks_for queue = record {
  ivr_flow_id = "";
  queue_id = queue;
  guest_session_id = "";
  session_type = none;
  priority = 1;
  caller = "bob";
  skip_ivr = false;
}

abbrev empty : Cell
empty = record { live = none; row = none; leg_rows = []; commands = []; log = [] }

inbound-IsAllowed_example :
    IsAllowed ports [] (asks_for "")
    ⊎ ((e : Err) × (start_inbound ports keep_metadata 0 (asks_for "") empty ≡ (err e, empty)))
inbound-IsAllowed_example = inbound-IsAllowed ports keep_metadata 0 (asks_for "") empty refl refl
