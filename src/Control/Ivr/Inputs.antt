-- ===== src/Control/Ivr/Inputs.antt =====
-- What moves a call through its flow, from control/ivr.go and control/ivr_entry.go: the start, the end
-- of a prompt, the clock, a digit, and the outcome of a business action.
use Prim.Native.String.{◌++◌ as str_append}
use open_voip.Base.{
  byte_length, ℕ, suc, ◌-◌, ◌=?◌, ltb, String, ◌==◌, if◌then◌else◌, find, Bool, true, false, not,
  ◌||◌, ◌&&◌, is_some, Option, none, some, List, [], ◌∷◌, ◌++◌,
}
use open_voip.Base.Int.{ℤ, pos, leb_ℤ}
use open_voip.Errs.{api, conflict_error, invalid_request_error, not_found_error}
use open_voip.Ivr.{IvrDoc, IvrNode, node_at, zero_node}
use open_voip.Ports.{
  BusinessAction, CallLegRecord, CallRecord, CallState, IvrSnapshot, LegRole, acw, audio, ivr_bot,
  normal, num, on_call, text, timeout,
}
use open_voip.Ports
use open_voip.CallStore.{delete_leg, insert_leg}
use open_voip.Control.State.{Ctx, Effect, Env, IvrRuntime, RuntimeCall}
use open_voip.Control.Exec.{
  Exec, asks, attempt, fail, fresh_id, gets, ignore, modify, now, perform, pure, when, with_live,
  with_option, with_result, ◌>>=◌, ◌>>◌,
}
use open_voip.Control.Events.{call_id_pair, deref, publish_call, remove_live_leg, set_agent_state}
use open_voip.Control.Hangup.{do_hangup}
use open_voip.Control.Ivr.{
  follow, goto_ivr, max_ivr_duration, max_ivr_hops, on_ivr, run_ivr_node, with_ivr,
}
use open_voip.Control.Mutation.{guard_expected_version, run_idempotent, view_version}
use open_voip.Control.Offer.{is_talking}
use open_voip.Control.Queueing.{enter_queue}
use open_voip.Control.Recording.{stop_recording}
use open_voip.Control.Transition.{transition}

-- Enough for every chain of jumps, since no call jumps more often.
abbrev pub jump_fuel : ℕ
jump_fuel = suc max_ivr_hops

unfoldable pub is_ivr_state : CallState → Bool
is_ivr_state CallState.ivr = true
is_ivr_state _ = false

unfoldable pub is_supported : String → Bool
is_supported typ =
    typ == "play"
    || typ == "menu"
    || typ == "collect_input"
    || typ == "business_action"
    || typ == "hangup"
    || typ == "route_queue"
    || typ == "time_condition"
    || typ == "queue_condition"
    || typ == "voicemail"
    || typ == "tts"
    || typ == "asr"

unfoldable pub first_unsupported : List (String × IvrNode) → Option String
unfolding is_supported
first_unsupported [] = none
first_unsupported ((id, node) ∷ rest) =
    let later = first_unsupported rest in if is_supported node.typ then later else some node.typ

-- A leg of the far end.
unfoldable pub is_remote : LegRole → Bool
is_remote Ports.customer = true
is_remote Ports.pstn = true
is_remote _ = false

is_bot : LegRole → Bool
is_bot ivr_bot = true
is_bot _ = false

unfoldable pub has_bot : List CallLegRecord → Bool
unfolding is_bot
has_bot [] = false
has_bot (l ∷ ls) = is_bot l.role || has_bot ls

-- The last leg of the far end, else none; and the first.
unfoldable pub last_remote : List CallLegRecord → String
unfolding is_remote
last_remote [] = ""
last_remote (l ∷ ls) =
    let later = last_remote ls in
    if later == "" then (if is_remote l.role then l.id else "") else later

unfoldable pub first_remote : List CallLegRecord → String
unfolding is_remote
first_remote [] = ""
first_remote (l ∷ ls) = let later = first_remote ls in if is_remote l.role then l.id else later

is_agent : LegRole → Bool
is_agent Ports.agent = true
is_agent _ = false

-- The legs that go on into a flow.
unfoldable pub stays : LegRole → Bool
unfolding is_remote is_bot
stays role = is_remote role || is_bot role

-- `action.Outcomes[outcome]`.
unfoldable pub outcome_target : String → Option (List (String × String)) → Option String
outcome_target outcome none = none
outcome_target outcome (some choices) = find outcome choices

unfoldable pub begun_ivr : IvrDoc → IvrSnapshot → ℕ → IvrRuntime
begun_ivr doc snap t = record {
  doc = doc;
  flow_id = snap.flow_id;
  flow_version = snap.version;
  node = doc.start;
  entered = t;
  timeout = pos 15000;
  invalid_attempts = 0;
  action_id = "";
  started = t;
  hops = 0;
  awaiting_answer = false;
}

unfoldable pub bot_leg : String → String → ℕ → CallLegRecord
bot_leg id call_id t = record {
  kind = "";
  leg_state = "";
  participant_ref = "";
  id = id;
  call_id = call_id;
  role = ivr_bot;
  agent_id = none;
  created_at = t;
}

-- The node that a runtime stands at, as Go's map gives it.
unfoldable pub current_node : IvrRuntime → IvrNode
current_node i = elim (node_at i.doc i.node) [ none ↦ zero_node | some node ↦ node ]

unfoldable pub has_waited : ℕ → IvrRuntime → Bool
has_waited t i =
    leb_ℤ (if leb_ℤ i.timeout (pos 0) then pos 12000 else i.timeout) (pos (t - i.entered))

-- The tries that a menu allows.
unfoldable pub retry_limit : IvrNode → ℤ
retry_limit node = elim node.max_retries [ none ↦ pos 2 | some limit ↦ limit ]

unfoldable pub invalid_target : IvrNode → String
invalid_target node = if node.invalid == "" then node.default else node.invalid

unfoldable pub waits_for : String → RuntimeCall → Bool
unfolding is_ivr_state
waits_for action_id rt = elim rt.ivr [
  | none ↦ false
  | some i ↦ is_ivr_state rt.rec.state && i.action_id == action_id
]

module _ (env : Env) where
  -- `parseIVRPayload`. Of several nodes that are not supported, a Go map may name any.
  unfoldable pub parse_ivr_payload : String → Exec IvrDoc
  unfolding first_unsupported
  parse_ivr_payload payload =
      with_option (env.parse_doc payload) (fail (api (invalid_request_error "IVR 快照无效"))) λ doc.
        if doc.start == ""
        then fail (api (invalid_request_error "IVR 快照无效"))
        else if not (is_some (node_at doc doc.start))
        then fail (api (invalid_request_error "IVR 起始节点不存在"))
        else with_option (first_unsupported doc.nodes) (pure doc)
            λ typ. fail (api (invalid_request_error (str_append "不支持的 IVR 节点类型: " typ)))

  unfoldable pub add_bot : Exec (Unit {0})
  unfolding has_bot bot_leg
  add_bot = do
    t ← now env
    id ← fresh_id env
    known ← with_live (pure false) λ rt. pure (has_bot rt.legs)
    when (not known) do
      ignore (insert_leg env (bot_leg id env.call_id t))
      modify (λ rt. record rt { legs = rt.legs ++ bot_leg id env.call_id t ∷ [] })

  unfoldable pub listen_digits : Exec (Unit {0})
  unfolding last_remote
  listen_digits = with_live (pure tt) λ rt.
      when (not (last_remote rt.legs == ""))
        (ignore (perform env (Effect.subscribe_dtmf (last_remote rt.legs))))

module _ (env : Env) (meta : CallRecord → String → String → String → String) (fuel : ℕ) where
  -- `runIVRNode` with all the jumps that it may take.
  unfoldable pub run_current : Exec (Unit {0})
  run_current = run_ivr_node env meta fuel (goto_ivr env meta fuel jump_fuel)

  unfoldable pub goto_node : String → Exec (Unit {0})
  goto_node node = goto_ivr env meta fuel jump_fuel node

  unfoldable pub start_ivr_payload : IvrSnapshot → Exec (Unit {0})
  unfolding begun_ivr
  start_ivr_payload snap = do
    doc ← parse_ivr_payload env snap.payload_json
    perform env (Effect.create_room audio false)
    add_bot env
    t ← now env
    modify (λ rt. record rt { ivr = some (begun_ivr doc snap t) })
    listen_digits env
    transition env CallState.ivr
    ignore (
        publish_call env "routing.entered_ivr" "" (
          call_id_pair env
          ∷ ("snapshot_id", text snap.snapshot_id)
          ∷ ("flow_id", text snap.flow_id)
          ∷ []))
    ignore (perform env Effect.defer_until_answered)
    deferred ← gets (λ c. env.defers c.log)
    if deferred then modify (on_ivr (λ i. record i { awaiting_answer = true })) else run_current

  -- `bootIVR`.
  unfoldable pub boot_ivr : String → Exec (Unit {0})
  boot_ivr flow_id = do snap ← asks (λ l. env.latest_ivr l flow_id); start_ivr_payload snap

  -- `beginIVR`: the far end has answered.
  unfoldable pub begin_ivr : Exec (Unit {0})
  begin_ivr = with_ivr (pure tt) λ rt i. if not i.awaiting_answer then pure tt else do
    t ← now env
    modify (on_ivr (λ r. record r { awaiting_answer = false; entered = t; started = t }))
    run_current

  -- `OnIVRPromptFinished`.
  unfoldable pub prompt_finished : Bool → Exec (Unit {0})
  prompt_finished loop =
      if loop
      then pure tt
      else with_ivr (pure tt) λ rt i.
        if i.awaiting_answer
        then pure tt
        else with_option (node_at i.doc i.node) (pure tt) λ node.
          if not (node.typ == "play")
          then pure tt
          else follow goto_node node.next (enter_queue env fuel)

  unfoldable pub node_timed_out : IvrRuntime → IvrNode → Exec (Unit {0})
  node_timed_out i node = do
    expired ← attempt (
        if node.typ == "business_action"
        then perform env (Effect.expire_business_action i.action_id)
        else pure tt)
    with_result expired (λ _. pure tt)
        λ _.
          follow goto_node (if node.typ == "play" then node.next else node.default)
            (enter_queue env fuel)

  -- `tickIVR`.
  unfoldable pub tick_ivr : Exec (Unit {0})
  unfolding current_node has_waited
  tick_ivr = with_ivr (pure tt) λ rt i. if i.awaiting_answer then pure tt else do
    t ← now env
    if not (i.started =? 0) && ltb max_ivr_duration (t - i.started)
        then (do
          ignore (
              publish_call env "command.failed" ""
                (call_id_pair env ∷ ("reason", text "ivr_timeout") ∷ []))
          ignore (do_hangup env meta timeout))
        else if has_waited t i
        then node_timed_out i (current_node i)
        else pure tt

  unfoldable pub collect_digit : RuntimeCall → IvrRuntime → IvrNode → String → Exec (Unit {0})
  collect_digit rt i node digit =
      if not (byte_length digit =? 1 && env.text_contains node.accepted_digits digit)
      then pure tt
      else (do
        told ← attempt (
            publish_call env "ivr.input_collected" rt.rec.agent_id (
              call_id_pair env
              ∷ ("agent_id", text rt.rec.agent_id)
              ∷ ("flow_id", text i.flow_id)
              ∷ ("flow_version", num i.flow_version)
              ∷ ("node_id", text i.node)
              ∷ ("result_key", text node.result_key)
              ∷ ("input", text digit)
              ∷ []))
        with_result told (λ _. pure tt) λ _. follow goto_node node.next (do_hangup env meta normal))

  unfoldable pub invalid_digit : IvrRuntime → IvrNode → Exec (Unit {0})
  unfolding retry_limit invalid_target
  invalid_digit i node = do
    modify (on_ivr (λ r. record r { invalid_attempts = suc r.invalid_attempts }))
    if leb_ℤ (retry_limit node) (pos (suc i.invalid_attempts))
        then follow goto_node (invalid_target node) (pure tt)
        else pure tt

  unfoldable pub choose_digit : IvrRuntime → IvrNode → String → Exec (Unit {0})
  choose_digit i node digit =
      if not (node.typ == "menu")
      then pure tt
      else with_option node.choices (pure tt)
          λ choices. with_option (find digit choices) (invalid_digit i node) goto_node

  -- `onDTMF`.
  unfoldable pub on_dtmf : String → Exec (Unit {0})
  unfolding is_ivr_state current_node
  on_dtmf digit = with_ivr (pure tt) λ rt i.
      if not (is_ivr_state rt.rec.state) || i.awaiting_answer
      then pure tt
      else if (current_node i).typ == "collect_input"
      then collect_digit rt i (current_node i) digit
      else choose_digit i (current_node i) digit

  unfoldable pub resolve_action : BusinessAction → String → String → Exec (Unit {0})
  unfolding waits_for
  resolve_action action action_id outcome =
      with_live (fail (api (conflict_error "业务动作已结束" ""))) λ rt.
        if not (waits_for action_id rt)
        then fail (api (conflict_error "业务动作已结束" ""))
        else with_option (outcome_target outcome action.outcomes)
            (fail (api (invalid_request_error "业务结果未在流程中声明")))
            λ next. do
              perform env (Effect.resolve_business_action action_id outcome)
              goto_node next

  unfoldable pub submit_outcome : BusinessAction → String → String → Exec (Unit {0})
  submit_outcome action action_id outcome =
      if action.status == "completed"
      then (if action.outcome == outcome
          then pure tt
          else fail (api (conflict_error "业务动作已提交其他结果" "")))
      else (do ignore_version ← view_version env; resolve_action action action_id outcome)

  -- `CompleteBusinessAction`.
  unfoldable pub complete_business_action : String → String → Exec (Unit {0})
  complete_business_action action_id outcome = do
    action ← asks (λ l. env.business_action l action_id)
    if not (action.call_id == env.call_id)
        then fail (api (not_found_error "业务动作不存在"))
        else submit_outcome action action_id outcome

  -- A leg that does not go on into the flow.
  unfoldable pub drop_service_leg : CallLegRecord → Exec (Unit {0})
  unfolding stays is_agent
  drop_service_leg leg = if stays leg.role then pure tt else do
    perform env (Effect.leave_room leg.id)
    delete_leg env leg.id
    when (is_agent leg.role && not (deref leg.agent_id == ""))
        (set_agent_state env (deref leg.agent_id) on_call acw "ivr.enter")
    remove_live_leg leg.id

  unfoldable pub drop_service_legs : List CallLegRecord → Exec (Unit {0})
  drop_service_legs [] = pure tt
  drop_service_legs (l ∷ ls) = do drop_service_leg l; drop_service_legs ls

  unfoldable pub leave_service : RuntimeCall → Exec (Unit {0})
  unfolding first_remote
  leave_service rt = do
    when rt.held do
      perform env (Effect.set_hold (first_remote rt.legs) false)
      modify (λ r. record r { held = false })
    stop_recording env
    perform env Effect.stop_injected_audio
    drop_service_legs rt.legs
    modify (λ r. record r { active_agent = ""; offered_agent = ""; ivr = none })

  unfoldable pub enter_flow : String → RuntimeCall → Exec (Unit {0})
  unfolding first_remote
  enter_flow flow_id rt = do
    snap ← asks (λ l. env.latest_ivr l flow_id)
    doc ← parse_ivr_payload env snap.payload_json
    if first_remote rt.legs == ""
        then fail (api (invalid_request_error "通话缺少客户腿"))
        else do leave_service rt; start_ivr_payload snap

  -- `enterIVROnce`; what follows carries neither the version nor the key of the request.
  unfoldable pub enter_ivr_once : Ctx → String → Exec (Unit {0})
  enter_ivr_once ctx flow_id = do
    guard_expected_version env ctx
    with_live (fail (api (not_found_error "通话不存在"))) λ rt.
        if not (is_talking rt.rec.state)
        then fail (api (conflict_error "当前状态无法进入后续 IVR" ""))
        else if flow_id == ""
        then fail (api (invalid_request_error "flow_id 必填"))
        else enter_flow flow_id rt

  -- `EnterIVR`.
  unfoldable pub enter_ivr : Ctx → String → Exec (Unit {0})
  enter_ivr ctx flow_id =
      run_idempotent env ctx "ivr.enter" (str_append "ivr.enter|" flow_id)
        (enter_ivr_once ctx flow_id)
