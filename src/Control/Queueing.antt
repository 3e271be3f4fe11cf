-- ===== src/Control/Queueing.antt =====
-- Waiting for an agent: `enterQueue`, `routeQueue`, `publishPosition` of control/ivr.go, and the
-- overflow and voicemail of control/features.go.
pub mod Order
use Prim.Native.String.{◌++◌ as str_append}
use open_voip.Base.{
  ℕ, suc, ◌-◌, ◌*◌, String, ◌==◌, ◌=?◌, ltb, if◌then◌else◌, Bool, true, false, not, ◌||◌, ◌&&◌,
  Option, none, some, List, [], ◌∷◌,
}
use open_voip.Errs.{api, not_found_error}
use open_voip.Ports.{QueueSnapshot, audio, num, queued, text}
use open_voip.Control.State.{Effect, Env, RuntimeCall}
use open_voip.Control.Exec.{
  Exec, pure, fail, gets, asks, with_live, with_option, with_result, ignore, attempt, modify, when,
  perform, now, ◌>>=◌, ◌>>◌,
}
use open_voip.Control.Events.{customer_leg, deref, publish_call, call_id_pair, cdr_upsert}
use open_voip.Control.Transition.{transition}
use open_voip.Control.Recording.{begin_recording_if_needed}
use open_voip.Control.Dispatch.{is_audio, is_queued, try_dispatch}

-- Both calls wait in one queue; `none` stands for no queue.
same_queue : Option String → Option String → Bool
same_queue (some q) (some r) = q == r
same_queue _ _ = false

-- The other call is served first: by its priority, then by the time it has waited.
unfoldable pub ahead_of : RuntimeCall → RuntimeCall → Bool
unfolding same_queue
ahead_of o rt =
    is_queued o.rec.state
    && same_queue o.rec.queue_id rt.rec.queue_id
    && (ltb rt.rec.priority o.rec.priority
        || (o.rec.priority =? rt.rec.priority && ltb o.queued_at rt.queued_at))

unfoldable pub count_ahead : RuntimeCall → List RuntimeCall → ℕ
unfolding ahead_of
count_ahead rt [] = 0
count_ahead rt (o ∷ os) = let n = count_ahead rt os in if ahead_of o rt then suc n else n

module _ (env : Env) where
  -- `peers` are the live calls, this one among them.
  unfoldable pub position : RuntimeCall → List RuntimeCall → ℕ
  unfolding count_ahead
  position rt calls = suc (count_ahead rt calls)

  position_message : RuntimeCall → ℕ → String
  position_message rt pos =
      if rt.wait_prompt == ""
      then str_append (str_append "您前面还有 " (env.itoa (pos - 1))) " 位，请稍候"
      else env.replace_position rt.wait_prompt (env.itoa pos)

  -- Without a live call the position is 1.
  position_notice : Exec (ℕ × String)
  unfolding position_message position
  position_notice = with_live (pure (1, "正在等待空闲坐席")) λ rt.
      gets λ c. (position rt (env.peers c.log), position_message rt (position rt (env.peers c.log)))

  unfoldable pub publish_position : Exec (Unit {0})
  unfolding position_notice
  publish_position = do
    notice ← position_notice
    ignore (
        publish_call env "queue.position_changed" ""
          (call_id_pair env ∷ ("position", num notice.0) ∷ ("message", text notice.1) ∷ []))

  queue_room : RuntimeCall → Exec (Unit {0})
  queue_room rt = do
    ignore
        (perform env (Effect.create_room rt.rec.session_type (not (is_audio rt.rec.session_type))))
    when (env.is_wav rt.wait_prompt && not (rt.wait_prompt == ""))
        (ignore (perform env (Effect.inject_audio (customer_leg rt) rt.wait_prompt true)))

  unfoldable pub enter_queue : ℕ → Exec (Unit {0})
  unfolding queue_room deref
  enter_queue fuel = do
    transition env queued
    with_live (pure tt) λ rt. when (not (deref rt.rec.queue_id == "")) (
        ignore (
          publish_call env "queue.entered" ""
            (call_id_pair env ∷ ("queue_id", text (deref rt.rec.queue_id)) ∷ [])))
    t ← now env
    modify (λ rt. record rt { queued_at = t; ivr = none })
    with_live (pure tt) queue_room
    ignore (cdr_upsert env "queued")
    publish_position
    try_dispatch env fuel

  -- The call takes over the queue's settings.
  routed_call : String → QueueSnapshot → RuntimeCall → RuntimeCall
  routed_call queue_id q rt = record rt {
    rec = record rt.rec {
      queue_id = some queue_id;
      priority = if q.priority_enabled then rt.rec.priority else 0;
    };
    queue_name = q.name;
    post_call_ivr_flow_id = q.post_call_ivr_flow_id;
    callee = q.name;
    wait_prompt = q.wait_prompt;
    max_wait = q.max_wait_sec * 1000;
  }

  unfoldable pub route_queue : ℕ → String → Exec (Unit {0})
  unfolding routed_call
  route_queue fuel queue_id = do
    q ← asks (λ l. env.get_queue l queue_id)
    with_live (fail (api (not_found_error "通话不存在")))
        λ _. do modify (routed_call queue_id q); enter_queue fuel

  unfoldable pub start_voicemail : Exec (Unit {0})
  start_voicemail = with_live (pure tt) λ rt. do
    ignore (perform env (Effect.create_room audio false))
    ignore (begin_recording_if_needed env)
    ignore (perform env (Effect.inject_audio (customer_leg rt) "" false))
    ignore (
        publish_call env "call.voicemail" ""
          (call_id_pair env ∷ ("message", text "请在提示音后留言，结束后将自动挂断") ∷ []))
    ignore (perform env Effect.schedule_hangup)

  overflow_to : ℕ → QueueSnapshot → Exec Bool
  overflow_to fuel q =
      if q.overflow_action == "queue"
      then (do
        routed ← attempt (route_queue fuel q.overflow_queue_id)
        with_result routed (λ _. pure false)
            λ _. do
              ignore (
                  publish_call env "queue.overflowed" ""
                    (call_id_pair env ∷ ("queue_id", text q.overflow_queue_id) ∷ []))
              pure true)
      else if q.overflow_action == "voicemail"
      then (do start_voicemail; pure true)
      else pure false

  -- Whether a call that has waited too long was taken over by its queue's overflow.
  unfoldable pub overflow : ℕ → Exec Bool
  unfolding overflow_to
  overflow fuel = with_live (pure false) λ rt. with_option rt.rec.queue_id (pure false) λ queue. do
    found ← attempt (asks (λ l. env.get_queue l queue))
    with_result found (λ _. pure false) (overflow_to fuel)
