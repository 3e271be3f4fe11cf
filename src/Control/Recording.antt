-- ===== src/Control/Recording.antt =====
-- Recording of a call: `beginRecordingIfNeeded`, `startRecording`, `stopRecording` of
-- control/features.go and `OnRecordingFailed` of control/recording_failure.go.
use open_voip.Base.{
  ℕ, String, ◌==◌, if◌then◌else◌, Bool, true, false, not, ◌||◌, ◌&&◌, List, [], ◌∷◌, none, some,
}
use open_voip.Ports.{
  CallState, RecordingMeta, RecordingPolicy, SessionType, Value, audio, null, num, text, texts,
  time,
}
use open_voip.Control.State.{Effect, Env, RuntimeCall}
use open_voip.Control.Exec.{
  Exec, pure, gets, asks, with_live, with_result, ignore, attempt, modify, when, perform, request,
  now, ◌>>=◌, ◌>>◌,
}
use open_voip.Control.Events.{deref, publish_call, call_id_pair}

is_audio : SessionType → Bool
is_audio audio = true
is_audio _ = false

is_ivr : CallState → Bool
is_ivr CallState.ivr = true
is_ivr _ = false

recording_id : Exec String
recording_id = with_live (pure "") λ rt. pure rt.recording_id

module _ (env : Env) where
  -- The record that `startRecording` saves when the media layer cannot describe the recording.
  abbrev bare_meta : String → String → ℕ → RecordingMeta
  bare_meta id mode started = record {
    id = id;
    call_id = env.call_id;
    file_path = "";
    media_type = mode;
    recording_semantics = "";
    status = "";
    failure_reason = "";
    channels = 0;
    duration_samples = 0;
    sample_rate_hz = 0;
    file_size = 0;
    leg_paths = [];
    started_at = started;
    ended_at = none;
  }

  save_started : String → RecordingPolicy → Exec (Unit {0})
  save_started id policy = do
    meta ← attempt (asks (λ l. env.recording_info l id))
    with_result meta
        (λ _. do
          t ← now env
          ignore (perform env (Effect.save_recording (bare_meta id policy.mode t))))
        λ m. ignore (perform env (Effect.save_recording m))

  recording_failed_notice : Exec (Unit {0})
  recording_failed_notice = ignore (
      publish_call env "recording.failed" ""
        (call_id_pair env ∷ ("message", text "录音启动失败，请联系管理员") ∷ []))

  start_recording : RecordingPolicy → Exec (Unit {0})
  unfolding recording_id save_started recording_failed_notice
  start_recording policy = if policy.mode == "" || policy.mode == "off" then pure tt else (do
    old ← recording_id
    if not (old == "") then pure tt else do
      started ← attempt (request env (Effect.start_media_recording policy) env.started_recording)
      with_result started (λ _. recording_failed_notice)
          λ id. if id == "" then recording_failed_notice else (do
            modify (λ rt. record rt { recording_id = id; notify = policy.notify_message })
            when env.has_recordings (save_started id policy)))

  -- A video policy records an audio call as audio.
  adjusted_policy : SessionType → RecordingPolicy → List Effect → RecordingPolicy
  unfolding is_audio
  adjusted_policy session policy l =
      if policy.mode == "video_composite" && is_audio session
      then record policy { mode = "audio"; notify_message = env.notify_message_for_mode l "audio" }
      else policy

  -- In an IVR the inbound track waits for the prompt.
  gated_policy : CallState → RecordingPolicy → RecordingPolicy
  unfolding is_ivr
  gated_policy state policy =
      if is_ivr state then record policy { gate_inbound_until_prompt = true } else policy

  begin_with_policy : RuntimeCall → RecordingPolicy → Exec (Unit {0})
  unfolding adjusted_policy gated_policy
  begin_with_policy rt found = do
    policy ← gets (λ c. gated_policy rt.rec.state (adjusted_policy rt.rec.session_type found c.log))
    start_recording policy
    when (policy.notify_guest && not (policy.notify_message == "")) (
        ignore (
          publish_call env "recording.notice" ""
            (call_id_pair env ∷ ("message", text policy.notify_message) ∷ [])))

  unfoldable pub begin_recording_if_needed : Exec (Unit {0})
  unfolding begin_with_policy start_recording
  begin_recording_if_needed = with_live (pure tt) λ rt.
      if not (rt.recording_id == "")
      then pure tt
      else if not env.has_recording_policy
      then pure tt
      else (do
        policy ← attempt (asks (λ l. env.recording_policy l (deref rt.rec.queue_id)))
        with_result policy (λ _. pure tt) (begin_with_policy rt))

  failed_payload : RecordingMeta → List (String × Value)
  failed_payload m =
      ("id", text m.id)
      ∷ ("recording_id", text m.id)
      ∷ ("call_id", text m.call_id)
      ∷ ("file_path", text m.file_path)
      ∷ ("media_type", text m.media_type)
      ∷ ("started_at", time m.started_at)
      ∷ ("ended_at", elim m.ended_at [ none ↦ null | some t ↦ time t ])
      ∷ ("file_size", num m.file_size)
      ∷ ("leg_paths", texts m.leg_paths)
      ∷ ("sample_rate_hz", num m.sample_rate_hz)
      ∷ ("recording_semantics", text m.recording_semantics)
      ∷ ("channels", num m.channels)
      ∷ ("duration_samples", num m.duration_samples)
      ∷ ("status", text "failed")
      ∷ ("failure_reason", text m.failure_reason)
      ∷ ("message", text "录音保存失败，通话将继续。已录制的部分可在录音页面查看。")
      ∷ []

  -- `OnRecordingFailed`: the partial file is kept and reported; the call goes on.
  unfoldable pub on_recording_failed : String → Exec (Unit {0})
  unfolding failed_payload
  on_recording_failed id = do
    meta ← attempt (asks (λ l. env.recording_info l id))
    with_result meta (λ _. pure tt)
        λ m. do
          when env.has_recordings (ignore (perform env (Effect.save_recording m)))
          ignore (publish_call env "recording.failed" "" (failed_payload m))

  unfoldable pub stop_recording : Exec (Unit {0})
  unfolding recording_id
  stop_recording = do
    id ← recording_id
    if id == "" then pure tt else do
      stopped ← attempt (perform env (Effect.stop_media_recording id))
      with_result stopped (λ _. on_recording_failed id) (λ _. pure tt)
      when env.has_recordings
          do meta ← asks (λ l. env.recording_info l id); perform env (Effect.save_recording meta)
