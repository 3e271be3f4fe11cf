-- ===== src/Control/Ivr.antt =====
-- The IVR engine: the steps of a call through the graph of a flow, from control/ivr.go.
pub mod InputKeeping
pub mod Inputs
pub mod Keeping
pub mod Outcomes
pub mod Termination
pub mod Waiting
use open_voip.Base.{
  ℕ, zero, suc, ◌+◌, ◌-◌, ◌*◌, ◌/◌, ltb, leb, String, ◌==◌, if◌then◌else◌, find, Bool, true, false,
  not, ◌||◌, ◌&&◌, is_some, Option, none, some, List, [], ◌∷◌, ◌++◌,
}
use open_voip.Base.Int.{ℤ, pos, negsuc, leb_ℤ, ltb_ℤ, millis}
use open_voip.Errs.{Err, api, conflict_error, invalid_request_error, not_found_error, other}
use open_voip.Ivr.{IvrDoc, IvrNode, node_at, zero_node}
use open_voip.Ports.{
  BusinessAction, CallRecord, CallState, HangupReason, QueueStatus, SessionType, audio, error,
  mixed, normal, text, timeout, video,
}
use open_voip.Control.State.{Effect, Env, IvrRuntime, Result, RuntimeCall}
use open_voip.Control.Exec.{
  Exec, asks, attempt, fail, fresh_id, gets, ignore, modify, now, perform, pure, when, with_live,
  with_option, with_result, ◌>>=◌, ◌>>◌,
}
use open_voip.Control.Events.{call_id_pair, customer_leg, publish_call}
use open_voip.Control.Failure.{emit_command_failed, fail_call, hangup_with_failure}
use open_voip.Control.Hangup.{do_hangup}
use open_voip.Control.Hours.{value_of, within_hours}
use open_voip.Control.Queueing.{enter_queue, route_queue, start_voicemail}

-- `maxIVRHops`, and `maxIVRDuration` in milliseconds.
abbrev pub max_ivr_hops : ℕ
max_ivr_hops = 100

abbrev pub max_ivr_duration : ℕ
max_ivr_duration = 30 * 60 * 1000

-- `playNodeWaitSeconds`, of a length in nanoseconds.
unfoldable pub play_node_wait_seconds : ℤ → ℕ → ℤ
play_node_wait_seconds configured duration =
    let need = (duration + 600_000_000 + 1_000_000_000 - 1) / 1_000_000_000 in
    let least = if ltb need 1 then 1 else need in
    if ltb_ℤ configured (pos least) then pos least else configured

-- The seconds of a node that says none.
unfoldable pub default_seconds : String → ℤ → ℤ
default_seconds typ seconds =
    if leb_ℤ seconds (pos 0) && leb_ℤ (pos 0) seconds
    then (if typ == "menu" || typ == "collect_input" then pos 8 else pos 2)
    else seconds

-- A change of the IVR part of a live call, where it has one.
unfoldable pub on_ivr : (IvrRuntime → IvrRuntime) → RuntimeCall → RuntimeCall
on_ivr f rt = record rt { ivr = elim rt.ivr [ none ↦ none | some i ↦ some (f i) ] }

-- `rt == nil || rt.ivr == nil`.
unfoldable pub with_ivr :
    Exec (Unit {0}) → (RuntimeCall → IvrRuntime → Exec (Unit {0})) → Exec (Unit {0})
with_ivr absent present = with_live absent λ rt. with_option rt.ivr absent λ i. present rt i

-- `dto.SessionType(node.SessionType)`, of the types that there are.
unfoldable pub session_type_of : String → SessionType → SessionType
session_type_of s old =
    if s == "audio"
    then audio
    else if s == "video"
    then video
    else if s == "mixed"
    then mixed
    else old

-- `entered.Add(timeout)`.
deadline : ℕ → ℤ → ℤ
deadline t (pos n) = pos (t + n)
deadline t (negsuc n) = if ltb n t then pos (t - n - 1) else negsuc (n - t)

-- On to a node, or out of the flow where none is named.
unfoldable pub follow : (String → Exec (Unit {0})) → String → Exec (Unit {0}) → Exec (Unit {0})
follow again target otherwise = if target == "" then ignore otherwise else again target

unfoldable pub queue_target : IvrNode → Bool → String
queue_target node busy =
    if busy then (if node.busy_to == "" then node.closed_to else node.busy_to) else node.open_to

is_prompted : IvrNode → Bool
is_prompted node =
    node.typ == "play" || node.typ == "menu" || node.typ == "collect_input" && not (node.file == "")

is_timed : IvrNode → Bool
is_timed node = node.typ == "play" || node.typ == "menu" || node.typ == "collect_input"

unfoldable pub enter_node : String → ℕ → ℕ → IvrRuntime → IvrRuntime
enter_node node hops t i = record i {
  hops = hops;
  node = node;
  entered = t;
  invalid_attempts = 0;
  action_id = "";
}

module _ (env : Env) where
  -- `injectCustomerAudio`.
  unfoldable pub inject_customer_audio : String → Bool → Exec (Unit {0})
  inject_customer_audio file loop =
      with_live (pure tt) λ rt. perform env (Effect.inject_audio (customer_leg rt) file loop)

  -- `queueConditionBusy`.
  unfoldable pub queue_condition_busy : IvrNode → Exec Bool
  queue_condition_busy node = if node.queue_id == "" then pure true else do
    status ← attempt (asks (λ l. env.queue_status l node.queue_id))
    with_result status (λ _. pure true)
        λ st. pure (
          (if ltb_ℤ node.waiting_gt (pos 0)
            then ltb 0 st.waiting
            else ltb_ℤ node.waiting_gt (pos st.waiting))
          || not (ltb 0 st.available_agents))

  -- The seconds that a node waits.
  unfoldable pub node_seconds : IvrNode → Exec ℤ
  node_seconds node =
      if node.typ == "play" && not (node.file == "")
      then (do
        length ← attempt (asks (λ l. env.prompt_duration l node.file))
        with_result length (λ _. pure (default_seconds node.typ node.timeout_sec))
            λ d. pure (
              default_seconds node.typ
                (if ltb 0 d then play_node_wait_seconds node.timeout_sec d else node.timeout_sec)))
      else pure (default_seconds node.typ node.timeout_sec)

  unfoldable pub set_timer : IvrNode → Exec (Unit {0})
  unfolding is_timed
  set_timer node = when (is_timed node) do
    seconds ← node_seconds node
    t ← now env
    modify (on_ivr (λ i. record i { timeout = millis seconds; entered = t }))

module _ (env : Env) (meta : CallRecord → String → String → String → String) where
  -- What a node does when its prompt cannot be played, its action not begun, or its queue not found.
  unfoldable pub node_failed : String → String → String → Err → Exec (Unit {0})
  node_failed code message reason e = do
    emit_command_failed env code message reason
    ignore (hangup_with_failure env meta error e)

  unfoldable pub begin_action : IvrRuntime → IvrNode → Exec (Unit {0})
  unfolding deadline
  begin_action i node = when (i.action_id == "") do
    id ← fresh_id env
    t ← now env
    modify
        (on_ivr (λ r. record r { action_id = id; entered = t; timeout = millis node.timeout_sec }))
    begun ← attempt (
        perform env (
          Effect.begin_business_action (record {
            id = id;
            call_id = env.call_id;
            node_id = i.node;
            action = node.action;
            outcomes = node.choices;
            deadline = deadline t (millis node.timeout_sec);
            status = "";
            outcome = "";
          })))
    with_result begun (node_failed "IVR_ACTION_FAILED" "IVR 业务动作启动失败" "ivr_action") λ _. pure tt

  -- The node hands the call to a queue.
  unfoldable pub route_node : ℕ → IvrNode → Exec (Unit {0})
  route_node fuel node = do
    when (not (node.session_type == "")) (
        modify λ rt. record rt {
          rec = record rt.rec {
            session_type = session_type_of node.session_type rt.rec.session_type;
          };
        })
    routed ← attempt (route_queue env fuel node.queue_id)
    with_result routed (node_failed "ROUTE_QUEUE_FAILED" "转队列失败" "route_queue") λ _. pure tt

  unfoldable pub hours_node : (String → Exec (Unit {0})) → IvrNode → Exec (Unit {0})
  hours_node again node = do
    open' ← gets (λ c. within_hours env c.log node.schedule)
    follow again (if open' then node.open_to else node.closed_to) (do_hangup env meta normal)

  unfoldable pub condition_node : ℕ → (String → Exec (Unit {0})) → IvrNode → Exec (Unit {0})
  unfolding queue_target
  condition_node fuel again node = do
    busy ← queue_condition_busy env node
    follow again (queue_target node busy) (enter_queue env fuel)

  unfoldable pub voicemail_node : IvrNode → Exec (Unit {0})
  voicemail_node node = do
    when (not (node.file == "")) (ignore (inject_customer_audio env node.file false))
    ignore (start_voicemail env)

  unfoldable pub speech_node : (String → Exec (Unit {0})) → IvrNode → Exec (Unit {0})
  speech_node again node = do
    ignore (
        publish_call env "command.failed" "" (
          call_id_pair env
          ∷ ("reason", text "tts_asr_unsupported")
          ∷ ("node_type", text node.typ)
          ∷ []))
    follow again node.default (do_hangup env meta normal)

  -- What the node does once it was announced. `again` is `gotoIVR`; `fuel` is for dispatching.
  unfoldable pub act : ℕ → (String → Exec (Unit {0})) → IvrRuntime → IvrNode → Exec (Unit {0})
  act fuel again i node =
      if node.typ == "business_action"
      then begin_action i node
      else if node.typ == "hangup"
      then ignore (do_hangup env meta normal)
      else if node.typ == "route_queue"
      then route_node fuel node
      else if node.typ == "time_condition"
      then hours_node again node
      else if node.typ == "queue_condition"
      then condition_node fuel again node
      else if node.typ == "voicemail"
      then voicemail_node node
      else if node.typ == "tts" || node.typ == "asr"
      then speech_node again node
      else pure tt

  unfoldable pub announce_node :
      ℕ → (String → Exec (Unit {0})) → IvrRuntime → IvrNode → Exec (Unit {0})
  announce_node fuel again i node = do
    set_timer env node
    ignore (
        publish_call env "ivr.prompt" ""
          (call_id_pair env ∷ ("prompt", text node.prompt) ∷ ("type", text node.typ) ∷ []))
    act fuel again i node

  unfoldable pub run_node : ℕ → (String → Exec (Unit {0})) → IvrRuntime → IvrNode → Exec (Unit {0})
  unfolding is_prompted
  run_node fuel again i node =
      if is_prompted node
      then (do
        played ← attempt (inject_customer_audio env node.file (node.typ == "menu"))
        with_result played (node_failed "IVR_PROMPT_FAILED" "IVR 放音失败" "ivr_prompt")
            λ _. announce_node fuel again i node)
      else announce_node fuel again i node

  -- `runIVRNode`.
  unfoldable pub run_ivr_node : ℕ → (String → Exec (Unit {0})) → Exec (Unit {0})
  run_ivr_node fuel again = with_ivr (pure tt) λ rt i.
      with_option (node_at i.doc i.node) (ignore (enter_queue env fuel)) (run_node fuel again i)

  -- `gotoIVR`, whose next jumps are `again`.
  unfoldable pub jump : ℕ → (String → Exec (Unit {0})) → String → Exec (Unit {0})
  unfolding enter_node
  jump fuel again node = with_ivr (pure tt) λ rt i.
      if ltb max_ivr_hops (suc i.hops)
      then (do
        modify (on_ivr (λ r. record r { hops = suc r.hops }))
        emit_command_failed env "IVR_HOP_LIMIT" "IVR 跳转次数过多" "ivr_hop_limit"
        ignore (fail_call env meta error "IVR_HOP_LIMIT" "IVR 跳转次数过多"))
      else (do
        t ← now env
        modify (on_ivr (enter_node node (suc i.hops) t))
        run_ivr_node fuel again)

  -- `gotoIVR` and `runIVRNode` call each other; each call takes a unit of `jumps`.
  unfoldable pub goto_ivr : ℕ → ℕ → String → Exec (Unit {0})
  goto_ivr fuel zero node = fail (other "fuel")
  goto_ivr fuel (suc jumps) node = jump fuel (goto_ivr fuel jumps) node
