-- ===== src/Control/Features.antt =====
-- Holding, video, conference, supervision: the operations at the head of control/features.go.
pub mod Downgrade
use Prim.Native.String.{◌++◌ as str_append}
use open_voip.Base.{
  suc, ◌+◌, String, ◌++◌, if◌then◌else◌, Bool, true, false, not, ◌&&◌, some, [], ◌∷◌,
}
use open_voip.Errs.{api, conflict_error, not_found_error, unprocessable_error}
use open_voip.Ports.{
  CallLegRecord, CallState, LegRole, active, agent_ringing, audio, flag, held, idle, mixed, text,
}
use open_voip.CallStore.{insert_leg, update_call}
use open_voip.Control.State.{Effect, Env, RuntimeCall}
use open_voip.Control.Exec.{
  Exec, pure, fail, asks, with_live, with_option, with_result, ignore, attempt, modify, when,
  perform, now, fresh_id, ◌>>=◌, ◌>>◌,
}
use open_voip.Control.Events.{customer_leg, publish_call, call_id_pair, set_agent_state, cdr_upsert}
use open_voip.Control.Transition.{transition}
use open_voip.Control.Dispatch.{is_audio, session_text}
use open_voip.Control.Offer.{is_talking}

is_active : CallState → Bool
is_active active = true
is_active _ = false

module _ (env : Env) where
  hold_talking : Bool → RuntimeCall → Exec (Unit {0})
  hold_talking on rt = do
    perform env (Effect.set_hold (customer_leg rt) on)
    modify (λ r. record r { held = on })
    transition env (if on then held else active)
    publish_call env (if on then "call.hold" else "call.unhold") rt.offered_agent
        (call_id_pair env ∷ ("leg_id", text (customer_leg rt)) ∷ [])

  unfoldable pub do_hold : Bool → Exec (Unit {0})
  unfolding hold_talking
  do_hold on = with_live (fail (api (not_found_error "通话不存在"))) λ rt.
      if not (is_talking rt.rec.state)
      then fail (api (conflict_error "当前不能保持" ""))
      else hold_talking on rt

  -- The leg is noted before the state is looked at.
  unfoldable pub request_video : String → Exec (Unit {0})
  request_video leg_id = do
    modify (λ rt. record rt { video_from_leg = leg_id })
    with_live (fail (api (not_found_error "通话不存在"))) λ rt.
        if not (is_talking rt.rec.state)
        then fail (api (not_found_error "通话不存在"))
        else publish_call env "video.requested" ""
            (call_id_pair env ∷ ("from_leg_id", text leg_id) ∷ [])

  accept_video : RuntimeCall → Exec (Unit {0})
  accept_video rt = do
    t ← now env
    modify (λ r. record r {
      rec = record r.rec { session_type = mixed };
      video_upgrade_ok = true;
      video_started_at = some t;
    })
    transition env rt.rec.state
    ignore (perform env (Effect.request_renegotiation rt.video_from_leg true))
    ignore (cdr_upsert env "answered")
    publish_call env "video.accepted" "" (call_id_pair env ∷ [])

  unfoldable pub respond_video : Bool → Exec (Unit {0})
  unfolding accept_video
  respond_video accept = with_live (fail (api (not_found_error "通话不存在"))) λ rt.
      if not accept
      then publish_call env "video.declined" "" (call_id_pair env ∷ [])
      else accept_video rt

  -- `DowngradeVideo` behind its version check. The version in memory follows the one that the
  -- database has counted.
  unfoldable pub downgrade_video : Exec (Unit {0})
  downgrade_video = do
    modify (λ rt. record rt { rec = record rt.rec { session_type = audio } })
    with_live (fail (api (not_found_error "通话不存在"))) λ rt. do
      update_call env rt.rec
      modify (λ r. record r { rec = record r.rec { version = r.rec.version + 1 } })
      ignore (perform env (Effect.request_renegotiation "" false))
      ignore (cdr_upsert env "answered")
      publish_call env "video.downgraded" ""
          (call_id_pair env ∷ ("session_type", text "audio") ∷ [])

  unfoldable pub screen_share : String → Bool → Exec (Unit {0})
  screen_share leg_id on = do
    when on (modify (λ rt. record rt { screen_shares = suc rt.screen_shares }))
    with_live (fail (api (not_found_error "通话不存在"))) λ rt. do
      ignore (cdr_upsert env "answered")
      when on (ignore (perform env (Effect.request_renegotiation leg_id true)))
      publish_call env (if on then "screen_share.started" else "screen_share.stopped") ""
          (call_id_pair env ∷ ("leg_id", text leg_id) ∷ [])

  invite : String → RuntimeCall → Exec (Unit {0})
  invite target rt = do
    info ← asks (λ l. env.agent_by_id l target)
    if not (is_audio rt.rec.session_type) && not info.video_capable
        then fail (api (unprocessable_error "目标坐席不具备视频能力" "AGENT_NOT_VIDEO_CAPABLE"))
        else do
          set_agent_state env target idle agent_ringing (str_append "conference:" env.call_id)
          t ← now env
          modify (λ r. record r { offered_agent = target; offer_at = some t })
          publish_call env "call.ringing" target (
              call_id_pair env
              ∷ ("session_type", text (session_text rt.rec.session_type))
              ∷ ("caller", text rt.caller)
              ∷ ("conference", flag true)
              ∷ [])

  unfoldable pub conference_invite : String → Exec (Unit {0})
  unfolding invite is_active
  conference_invite target = with_live (fail (api (conflict_error "仅通话中可邀请" ""))) λ rt.
      if not (is_active rt.rec.state)
      then fail (api (conflict_error "仅通话中可邀请" ""))
      else invite target rt

  announced : RuntimeCall → Exec Bool
  announced rt = with_option rt.rec.queue_id (pure false) λ q. do
    found ← attempt (asks (λ l. env.get_queue l q))
    with_result found (λ _. pure false) λ snapshot. pure snapshot.listen_announce

  listen : String → RuntimeCall → Exec String
  unfolding announced
  listen supervisor rt = do
    t ← now env
    leg_id ← fresh_id env
    let leg : CallLegRecord = record {
      kind = "";
      leg_state = "";
      participant_ref = "";
      id = leg_id;
      call_id = env.call_id;
      role = LegRole.supervisor;
      agent_id = some supervisor;
      created_at = t;
    }
    insert_leg env leg
    modify (λ r. record r { legs = r.legs ++ leg ∷ [] })
    announce ← announced rt
    when announce do
      ignore (
          perform env (
            Effect.inject_audio (customer_leg (record rt { legs = rt.legs ++ leg ∷ [] })) "" false))
      ignore (
          publish_call env "recording.notice" ""
            (call_id_pair env ∷ ("message", text "班长已加入监听") ∷ []))
    ignore (
        publish_call env "call.supervisor_listen" supervisor
          (call_id_pair env ∷ ("leg_id", text leg_id) ∷ ("announced", flag announce) ∷ []))
    pure leg_id

  unfoldable pub supervisor_listen : String → Exec String
  unfolding listen
  supervisor_listen supervisor = with_live (fail (api (not_found_error "通话不存在或未接通"))) λ rt.
      if not (is_talking rt.rec.state)
      then fail (api (not_found_error "通话不存在或未接通"))
      else listen supervisor rt
