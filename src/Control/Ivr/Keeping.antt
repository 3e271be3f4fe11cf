-- ===== src/Control/Ivr/Keeping.antt =====
-- The IVR engine of control/ivr.go and control/ivr_entry.go keeps every invariant of
-- `Control.Invariant`, whether it succeeds or fails.
use open_voip.Base.{ℕ, zero, suc, String, refl, Bool}
use open_voip.Errs.{Err}
use open_voip.Ivr.{IvrNode}
use open_voip.Ports.{CallRecord, HangupReason}
use open_voip.Control.State.{Cell, Env, IvrRuntime, RuntimeCall}
use open_voip.Control.Exec.{Exec, modify}
use open_voip.Control.Exec.Keeps.{
  Keeps, Keeps-bind, Keeps-if, Keeps-with_live, Keeps-fail, Keeps-with_option, Keeps-pure,
  Keeps-ignore, Keeps-gets, Keeps-now, Keeps-when, keeps_rules,
}
use open_voip.Control.Events.{set_call_end_detail}
use open_voip.Control.Frame.{Keeps-set_call_end_detail}
use open_voip.Control.Invariant.{IsServed}
use open_voip.Control.Failure.{
  apply_failure_detail, default_detail, emit_command_failed, ensure_end_message, fail_call,
  hangup_with_failure,
}
use open_voip.Control.Ivr.{
  act, condition_node, hours_node, route_node, speech_node, voicemail_node, announce_node,
  begin_action, follow, goto_ivr, inject_customer_audio, jump, node_failed, node_seconds, on_ivr,
  queue_condition_busy, run_ivr_node, run_node, set_timer, with_ivr,
}
use open_voip.Control.Keeping.{Keeps-enter_queue, Keeps-route_queue, Keeps-start_voicemail, publish}

module _ {P : Cell → Type 0} where
  pub Keeps-with_ivr :
      (absent : Exec (Unit {0})) (present : RuntimeCall → IvrRuntime → Exec (Unit {0}))
      → Keeps P absent
      → ((rt : RuntimeCall) (i : IvrRuntime) → Keeps P (present rt i))
      → Keeps P (with_ivr absent present)
  unfolding with_ivr
  Keeps-with_ivr absent present ka kp =
      Keeps-with_live _ _ ka λ rt. Keeps-with_option _ _ _ ka λ i. kp rt i

  pub Keeps-follow :
      (again : String → Exec (Unit {0})) (target : String) (otherwise : Exec (Unit {0}))
      → ((node : String) → Keeps P (again node))
      → Keeps P otherwise
      → Keeps P (follow again target otherwise)
  unfolding follow
  Keeps-follow again target otherwise ka ko = Keeps-if _ _ _ (Keeps-ignore _ ko) (ka target)

module _ {P : Cell → Type 0} (env : Env) (s : IsServed env P)
    (meta : CallRecord → String → String → String → String) where
  -- A change of the IVR part leaves the record of the call.
  pub Keeps-on_ivr : (f : IvrRuntime → IvrRuntime) → Keeps P (modify (on_ivr f))
  unfolding on_ivr
  Keeps-on_ivr f = s.kept.framed.mods _ (λ rt. (refl, refl))

  details : (message code : String) → Keeps P (set_call_end_detail message code)
  details = Keeps-set_call_end_detail s.kept.framed

  pub Keeps-apply_failure_detail : (e : Err) → Keeps P (apply_failure_detail e)
  unfolding apply_failure_detail
  Keeps-apply_failure_detail e = details _ _

  Keeps-default_detail : (reason : HangupReason) → Keeps P (default_detail reason)
  unfolding default_detail
  Keeps-default_detail reason = search (keeps_rules, details)

  pub Keeps-fail_call :
      (reason : HangupReason) (code message : String)
      → Keeps P (fail_call env meta reason code message)
  unfolding fail_call
  Keeps-fail_call reason code message =
      search (keeps_rules, details, Keeps-default_detail, s.ends) depth 12

  pub Keeps-hangup_with_failure :
      (reason : HangupReason) (e : Err) → Keeps P (hangup_with_failure env meta reason e)
  unfolding hangup_with_failure ensure_end_message
  Keeps-hangup_with_failure reason e =
      search (keeps_rules, Keeps-apply_failure_detail, Keeps-default_detail, s.ends) depth 12

  Keeps-emit_command_failed :
      (code message reason : String) → Keeps P (emit_command_failed env code message reason)
  unfolding emit_command_failed
  Keeps-emit_command_failed code message reason = search (keeps_rules, publish env s.kept) depth 12

  Keeps-inject_customer_audio :
      (file : String) (loop : Bool) → Keeps P (inject_customer_audio env file loop)
  unfolding inject_customer_audio
  Keeps-inject_customer_audio file loop = search (keeps_rules, s.kept.framed.logs)

  Keeps-queue_condition_busy : (node : IvrNode) → Keeps P (queue_condition_busy env node)
  unfolding queue_condition_busy
  Keeps-queue_condition_busy node = search keeps_rules depth 12

  Keeps-node_seconds : (node : IvrNode) → Keeps P (node_seconds env node)
  unfolding node_seconds
  Keeps-node_seconds node = search keeps_rules depth 12

  Keeps-set_timer : (node : IvrNode) → Keeps P (set_timer env node)
  unfolding set_timer
  Keeps-set_timer node = search (keeps_rules, Keeps-node_seconds, Keeps-on_ivr) depth 12

  Keeps-node_failed :
      (code message reason : String) (e : Err)
      → Keeps P (node_failed env meta code message reason e)
  unfolding node_failed
  Keeps-node_failed code message reason e =
      search (keeps_rules, Keeps-emit_command_failed, Keeps-hangup_with_failure)

  Keeps-begin_action : (i : IvrRuntime) (node : IvrNode) → Keeps P (begin_action env meta i node)
  unfolding begin_action
  Keeps-begin_action i node =
      search (keeps_rules, s.kept.framed.logs, Keeps-on_ivr, Keeps-node_failed) depth 20

  Keeps-route_node : (fuel : ℕ) (node : IvrNode) → Keeps P (route_node env meta fuel node)
  unfolding route_node
  Keeps-route_node fuel node =
      search (keeps_rules, s.kept.framed.mods, Keeps-route_queue env s.kept, Keeps-node_failed)
        depth 12

  Keeps-voicemail_node : (node : IvrNode) → Keeps P (voicemail_node env meta node)
  unfolding voicemail_node
  Keeps-voicemail_node node =
      Keeps-bind _ _ (Keeps-when _ _ (Keeps-ignore _ (Keeps-inject_customer_audio _ _)))
        λ _. Keeps-ignore _ (Keeps-start_voicemail env s.kept)

  module _ (fuel : ℕ) (again : String → Exec (Unit {0}))
      (goes : (node : String) → Keeps P (again node)) where
    Keeps-hours_node : (node : IvrNode) → Keeps P (hours_node env meta again node)
    unfolding hours_node
    Keeps-hours_node node =
        Keeps-bind _ _ (Keeps-gets _) λ o. Keeps-follow again _ _ goes (s.ends meta _)

    Keeps-condition_node : (node : IvrNode) → Keeps P (condition_node env meta fuel again node)
    unfolding condition_node
    Keeps-condition_node node =
        Keeps-bind _ _ (Keeps-queue_condition_busy node)
          λ busy. Keeps-follow again _ _ goes (Keeps-enter_queue env s.kept fuel)

    Keeps-speech_node : (node : IvrNode) → Keeps P (speech_node env meta again node)
    unfolding speech_node
    Keeps-speech_node node =
        Keeps-bind _ _ (Keeps-ignore _ (publish env s.kept _ _ _))
          λ _. Keeps-follow again _ _ goes (s.ends meta _)

    Keeps-act : (i : IvrRuntime) (node : IvrNode) → Keeps P (act env meta fuel again i node)
    unfolding act
    Keeps-act i node =
        search
          (
            keeps_rules, s.ends, Keeps-begin_action, Keeps-route_node, Keeps-hours_node,
            Keeps-condition_node, Keeps-voicemail_node, Keeps-speech_node,
          )
          depth 20 fits 4000

    Keeps-announce_node :
        (i : IvrRuntime) (node : IvrNode) → Keeps P (announce_node env meta fuel again i node)
    unfolding announce_node
    Keeps-announce_node i node =
        search (keeps_rules, publish env s.kept, Keeps-set_timer, Keeps-act) depth 12

    Keeps-run_node :
        (i : IvrRuntime) (node : IvrNode) → Keeps P (run_node env meta fuel again i node)
    unfolding run_node
    Keeps-run_node i node =
        search (keeps_rules, Keeps-inject_customer_audio, Keeps-node_failed, Keeps-announce_node)
          depth 12

    pub Keeps-run_ivr_node : Keeps P (run_ivr_node env meta fuel again)
    unfolding run_ivr_node
    Keeps-run_ivr_node =
        Keeps-with_ivr _ _ (Keeps-pure tt)
          λ rt i. search (keeps_rules, Keeps-enter_queue env s.kept, Keeps-run_node)

  Keeps-jump :
      (fuel : ℕ) (again : String → Exec (Unit {0})) (node : String)
      → ((next : String) → Keeps P (again next))
      → Keeps P (jump env meta fuel again node)
  unfolding jump
  Keeps-jump fuel again node goes = Keeps-with_ivr _ _ (Keeps-pure tt) λ rt i.
      Keeps-if _ _ _
        (Keeps-bind _ _ (Keeps-on_ivr _) λ _.
          Keeps-bind _ _ (Keeps-emit_command_failed _ _ _)
            λ _. Keeps-ignore _ (Keeps-fail_call _ _ _))
        (Keeps-bind _ _ (Keeps-now env)
          λ t. Keeps-bind _ _ (Keeps-on_ivr _) λ _. Keeps-run_ivr_node fuel again goes)

  pub Keeps-goto_ivr :
      (fuel jumps : ℕ) (node : String) → Keeps P (goto_ivr env meta fuel jumps node)
  unfolding goto_ivr
  Keeps-goto_ivr fuel zero node = Keeps-fail _
  Keeps-goto_ivr fuel (suc jumps) node = Keeps-jump fuel _ node (Keeps-goto_ivr fuel jumps)
