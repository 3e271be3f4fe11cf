-- ===== src/Control/Ivr/InputKeeping.antt =====
-- What moves a call through its flow keeps every invariant of `Control.Invariant`: the inputs of
-- control/ivr.go and the entry of control/ivr_entry.go.
use open_voip.Base.{ℕ, String, Bool, List, [], ◌∷◌}
use open_voip.Ivr.{IvrNode}
use open_voip.Ports.{BusinessAction, CallLegRecord, CallRecord, IvrSnapshot, Value}
use open_voip.CallStore.{delete_leg, get_call}
use open_voip.Control.State.{Cell, Ctx, Env, IvrRuntime, RuntimeCall}
use open_voip.Control.Exec.{Exec}
use open_voip.Control.Exec.Keeps.{Keeps, Keeps-bind, Keeps-if, Keeps-pure, keeps_rules}
use open_voip.Control.Invariant.{IsServed}
use open_voip.Control.Ivr.{follow}
use open_voip.Control.Ivr.Keeping.{
  Keeps-follow, Keeps-goto_ivr, Keeps-on_ivr, Keeps-run_ivr_node, Keeps-with_ivr,
}
use open_voip.Control.Ivr.Inputs.{
  add_bot, begin_ivr, boot_ivr, choose_digit, collect_digit, complete_business_action,
  drop_service_leg, drop_service_legs, enter_flow, enter_ivr, enter_ivr_once, goto_node,
  invalid_digit, jump_fuel, leave_service, listen_digits, node_timed_out, on_dtmf,
  parse_ivr_payload, prompt_finished, resolve_action, run_current, start_ivr_payload,
  submit_outcome, tick_ivr,
}
use open_voip.Control.Keeping.{Keeps-enter_queue, agents, inserts, leaves, publish, stops}
use open_voip.Control.Queueing.{enter_queue}
use open_voip.Control.Events.{publish_call}
use open_voip.Control.Recording.{stop_recording}
use open_voip.Control.Mutation.{view_version}
use open_voip.Control.Mutation.Keeps.{Keeps-guard, Keeps-run_idempotent}

module _ {P : Cell → Type 0} (env : Env) (s : IsServed env P)
    (meta : CallRecord → String → String → String → String) (fuel : ℕ) where
  events :
      (typ agent : String) (payload : List (String × Value))
      → Keeps P (publish_call env typ agent payload)
  events = publish env s.kept

  Keeps-run_current : Keeps P (run_current env meta fuel)
  unfolding run_current
  Keeps-run_current =
      Keeps-run_ivr_node env s meta fuel _ (Keeps-goto_ivr env s meta fuel jump_fuel)

  Keeps-goto_node : (node : String) → Keeps P (goto_node env meta fuel node)
  unfolding goto_node
  Keeps-goto_node = Keeps-goto_ivr env s meta fuel jump_fuel

  follows :
      (target : String) (otherwise : Exec (Unit {0}))
      → Keeps P otherwise
      → Keeps P (follow (goto_node env meta fuel) target otherwise)
  follows target otherwise = Keeps-follow _ target otherwise Keeps-goto_node

  queues : Keeps P (enter_queue env fuel)
  queues = Keeps-enter_queue env s.kept fuel

  Keeps-parse_ivr_payload : (payload : String) → Keeps P (parse_ivr_payload env payload)
  unfolding parse_ivr_payload
  Keeps-parse_ivr_payload payload = search keeps_rules depth 20

  Keeps-add_bot : Keeps P (add_bot env)
  unfolding add_bot
  Keeps-add_bot = search (keeps_rules, s.kept.framed.mods, inserts env s.kept) depth 20 fits 4000

  Keeps-listen_digits : Keeps P (listen_digits env)
  unfolding listen_digits
  Keeps-listen_digits = search (keeps_rules, s.kept.framed.logs) depth 12

  Keeps-start_ivr_payload : (snap : IvrSnapshot) → Keeps P (start_ivr_payload env meta fuel snap)
  unfolding start_ivr_payload
  Keeps-start_ivr_payload snap =
      search
        (
          keeps_rules,
          s.kept.framed.logs,
          s.kept.framed.mods,
          s.kept.transitions,
          events,
          Keeps-parse_ivr_payload,
          Keeps-add_bot,
          Keeps-listen_digits,
          Keeps-run_current,
          Keeps-on_ivr env s,
        )
        depth 30 fits 8000

  pub Keeps-boot_ivr : (flow_id : String) → Keeps P (boot_ivr env meta fuel flow_id)
  unfolding boot_ivr
  Keeps-boot_ivr flow_id = search (keeps_rules, Keeps-start_ivr_payload)

  pub Keeps-begin_ivr : Keeps P (begin_ivr env meta fuel)
  unfolding begin_ivr
  Keeps-begin_ivr =
      Keeps-with_ivr _ _ (Keeps-pure tt)
        λ rt i. search (keeps_rules, Keeps-on_ivr env s, Keeps-run_current) depth 12

  pub Keeps-prompt_finished : (loop : Bool) → Keeps P (prompt_finished env meta fuel loop)
  unfolding prompt_finished
  Keeps-prompt_finished loop =
      Keeps-if _ _ _ (Keeps-pure tt)
        (Keeps-with_ivr _ _ (Keeps-pure tt) λ rt i. search (keeps_rules, follows, queues) depth 12)

  Keeps-node_timed_out :
      (i : IvrRuntime) (node : IvrNode) → Keeps P (node_timed_out env meta fuel i node)
  unfolding node_timed_out
  Keeps-node_timed_out i node = search (keeps_rules, s.kept.framed.logs, follows, queues) depth 12

  pub Keeps-tick_ivr : Keeps P (tick_ivr env meta fuel)
  unfolding tick_ivr
  Keeps-tick_ivr =
      Keeps-with_ivr _ _ (Keeps-pure tt)
        λ rt i. search (keeps_rules, events, s.ends, Keeps-node_timed_out) depth 20

  Keeps-collect_digit :
      (rt : RuntimeCall) (i : IvrRuntime) (node : IvrNode) (digit : String)
      → Keeps P (collect_digit env meta fuel rt i node digit)
  unfolding collect_digit
  Keeps-collect_digit rt i node digit = search (keeps_rules, events, s.ends, follows) depth 12

  Keeps-invalid_digit :
      (i : IvrRuntime) (node : IvrNode) → Keeps P (invalid_digit env meta fuel i node)
  unfolding invalid_digit
  Keeps-invalid_digit i node = search (keeps_rules, follows, Keeps-on_ivr env s) depth 12

  Keeps-choose_digit :
      (i : IvrRuntime) (node : IvrNode) (digit : String)
      → Keeps P (choose_digit env meta fuel i node digit)
  unfolding choose_digit
  Keeps-choose_digit i node digit =
      search (keeps_rules, Keeps-goto_node, Keeps-invalid_digit) depth 12

  pub Keeps-on_dtmf : (digit : String) → Keeps P (on_dtmf env meta fuel digit)
  unfolding on_dtmf
  Keeps-on_dtmf digit =
      Keeps-with_ivr _ _ (Keeps-pure tt)
        λ rt i. search (keeps_rules, Keeps-collect_digit, Keeps-choose_digit)

  Keeps-resolve_action :
      (action : BusinessAction) (action_id outcome : String)
      → Keeps P (resolve_action env meta fuel action action_id outcome)
  unfolding resolve_action
  Keeps-resolve_action action action_id outcome =
      search (keeps_rules, s.kept.framed.logs, Keeps-goto_node) depth 12

  Keeps-submit_outcome :
      (action : BusinessAction) (action_id outcome : String)
      → Keeps P (submit_outcome env meta fuel action action_id outcome)
  unfolding submit_outcome view_version get_call
  Keeps-submit_outcome action action_id outcome =
      search (keeps_rules, Keeps-resolve_action) depth 20

  pub Keeps-complete_business_action :
      (action_id outcome : String)
      → Keeps P (complete_business_action env meta fuel action_id outcome)
  unfolding complete_business_action
  Keeps-complete_business_action action_id outcome =
      search (keeps_rules, Keeps-submit_outcome) depth 12

  Keeps-delete_leg : (id : String) → Keeps P (delete_leg env id)
  unfolding delete_leg
  Keeps-delete_leg id = search (keeps_rules, s.kept.framed.logs, s.kept.framed.legs) depth 12

  Keeps-drop_service_leg : (leg : CallLegRecord) → Keeps P (drop_service_leg env meta fuel leg)
  unfolding drop_service_leg
  Keeps-drop_service_leg leg =
      search
        (keeps_rules, s.kept.framed.logs, agents env s.kept, leaves env s.kept, Keeps-delete_leg)
        depth 20

  Keeps-drop_service_legs :
      (legs : List CallLegRecord) → Keeps P (drop_service_legs env meta fuel legs)
  unfolding drop_service_legs
  Keeps-drop_service_legs [] = Keeps-pure tt
  Keeps-drop_service_legs (l ∷ ls) =
      Keeps-bind _ _ (Keeps-drop_service_leg l) λ _. Keeps-drop_service_legs ls

  stopping : Keeps P (stop_recording env)
  stopping = stops env s.kept

  Keeps-leave_service : (rt : RuntimeCall) → Keeps P (leave_service env meta fuel rt)
  unfolding leave_service
  Keeps-leave_service rt =
      search
        (keeps_rules, s.kept.framed.logs, s.kept.framed.mods, stopping, Keeps-drop_service_legs)
        depth 20

  Keeps-enter_flow :
      (flow_id : String) (rt : RuntimeCall) → Keeps P (enter_flow env meta fuel flow_id rt)
  unfolding enter_flow
  Keeps-enter_flow flow_id rt =
      search (keeps_rules, Keeps-parse_ivr_payload, Keeps-leave_service, Keeps-start_ivr_payload)
        depth 12

  Keeps-enter_ivr_once :
      (ctx : Ctx) (flow_id : String) → Keeps P (enter_ivr_once env meta fuel ctx flow_id)
  unfolding enter_ivr_once
  Keeps-enter_ivr_once ctx flow_id =
      search (keeps_rules, Keeps-guard env s.kept.framed.logs s.tables, Keeps-enter_flow) depth 12

  pub Keeps-enter_ivr :
      (ctx : Ctx) (flow_id : String) → Keeps P (enter_ivr env meta fuel ctx flow_id)
  unfolding enter_ivr
  Keeps-enter_ivr ctx flow_id =
      Keeps-run_idempotent env s.kept.framed.logs s.tables _ (Keeps-enter_ivr_once ctx flow_id) ctx
        _ _
