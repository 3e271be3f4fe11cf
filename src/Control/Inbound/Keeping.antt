-- ===== src/Control/Inbound/Keeping.antt =====
-- `StartInbound` keeps every invariant of `Control.Invariant`, whether it succeeds or fails.
use open_voip.Base.{ℕ, String, List}
use open_voip.Ports.{CallRecord, InboundRequest, QueueSnapshot, Value}
use open_voip.CallStore.{get_call}
use open_voip.Control.State.{Cell, Env}
use open_voip.Control.Exec.Keeps.{Keeps, keeps_rules}
use open_voip.Control.Events.{publish_call}
use open_voip.Control.Inbound.{
  after_hours, await_agent, boot_flow, flow_scope, open_call, queue_scope, scope_of, serve_call,
  start_inbound, start_new, within_queue_hours,
}
use open_voip.Control.Invariant.{IsServed}
use open_voip.Control.Ivr.InputKeeping.{Keeps-boot_ivr}
use open_voip.Control.Ivr.Keeping.{Keeps-hangup_with_failure}
use open_voip.Control.Keeping.{Keeps-enter_queue, Keeps-route_queue, Keeps-start_voicemail, publish}
use open_voip.Control.Queueing.{enter_queue, start_voicemail}

module _ {P : Cell → Type 0} (env : Env) (s : IsServed env P)
    (meta : CallRecord → String → String → String → String) (fuel : ℕ) where
  events :
      (typ agent : String) (payload : List (String × Value))
      → Keeps P (publish_call env typ agent payload)
  events = publish env s.kept

  queues : Keeps P (enter_queue env fuel)
  queues = Keeps-enter_queue env s.kept fuel

  voicemail : Keeps P (start_voicemail env)
  voicemail = Keeps-start_voicemail env s.kept

  Keeps-scope_of : (req : InboundRequest) → Keeps P (scope_of env req)
  unfolding scope_of queue_scope flow_scope
  Keeps-scope_of req = search keeps_rules depth 20

  Keeps-within_queue_hours : (queue_id : String) → Keeps P (within_queue_hours env queue_id)
  unfolding within_queue_hours
  Keeps-within_queue_hours queue_id = search keeps_rules depth 12

  Keeps-after_hours : (q : QueueSnapshot) → Keeps P (after_hours env meta fuel q)
  unfolding after_hours
  Keeps-after_hours q =
      search (keeps_rules, s.ends, events, voicemail, Keeps-route_queue env s.kept) depth 12

  Keeps-boot_flow : (flow_id : String) → Keeps P (boot_flow env meta fuel flow_id)
  unfolding boot_flow
  Keeps-boot_flow flow_id =
      search (keeps_rules, Keeps-boot_ivr env s meta, Keeps-hangup_with_failure env s meta) depth 12

  Keeps-await_agent : (req : InboundRequest) → Keeps P (await_agent env meta fuel req)
  unfolding await_agent
  Keeps-await_agent req = search (keeps_rules, s.kept.framed.logs, queues) depth 12

  Keeps-serve_call :
      (req : InboundRequest) (q : QueueSnapshot) → Keeps P (serve_call env meta fuel req q)
  unfolding serve_call
  Keeps-serve_call req q = search (keeps_rules, Keeps-boot_flow, Keeps-await_agent)

  Keeps-open_call :
      (req : InboundRequest) (q : QueueSnapshot) (leg_id : String)
      → Keeps P (open_call env meta fuel req q leg_id)
  unfolding open_call
  Keeps-open_call req q leg_id =
      search
        (
          keeps_rules, s.kept.framed.logs, events, Keeps-within_queue_hours, Keeps-serve_call,
          Keeps-after_hours,
        )
        depth 20

  Keeps-start_new : (req : InboundRequest) → Keeps P (start_new env meta fuel req)
  unfolding start_new
  Keeps-start_new req = search (keeps_rules, Keeps-scope_of, s.creates, Keeps-open_call) depth 20

  pub Keeps-start_inbound : (req : InboundRequest) → Keeps P (start_inbound env meta fuel req)
  unfolding start_inbound get_call
  Keeps-start_inbound req = search (keeps_rules, Keeps-start_new) depth 20
