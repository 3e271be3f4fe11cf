-- ===== src/Tests.antt =====
-- Concrete calls, and the theorems applied to them.
mod Agents
mod Bundles
mod Direct
mod Flows
mod Media
use open_voip.Base.{
  ◌≢◌, ◌<◌, inr, inl, String, ◌==◌, eq_iff, ◌≡◌, refl, Bool, true, false, none, some, List, [], ◌∷◌,
  contains, IsDistinct, not, ◌||◌, ◌&&◌, ◌⊎◌, if◌then◌else◌,
}
use open_voip.Errs.{Err, api, conflict_error, not_found_error, other}
use open_voip.Ports.{
  AgentInfo, CallLegRecord, CallRecord, CallState, QueueSnapshot, RecordingMeta, RecordingPolicy,
  AgentState, acw, agent_ringing, on_call, timeout, idle, active, audio, ended, held, normal,
  queued, ringing,
}
use open_voip.Ports
use open_voip.Commands.{find_key}
use open_voip.Control.State.{Cell, CommandRow, Ctx, Effect, Env, RuntimeCall, err, ok, succeeded}
use open_voip.Control.Events.{event, extras, leg_agents, publish_call, recipients}
use open_voip.Control.Events.Recipients.{log-publish_call, recipients_exact, sent}
use open_voip.Control.Transition.{next_record, transition}
use open_voip.Control.Transition.Laws.{transition_atomic}
use open_voip.Control.Ticking.{served_before}
use open_voip.CallStore.{written_row}
use open_voip.Control.Invariant.{IsOver, IsSynced}
use open_voip.Control.Dispatch.{is_queued, ring_device}
use open_voip.Control.Offer.{already_answered, do_answer}
use open_voip.Control.Offer.Answering.{IsAnswered, IsOffered, answer_connects, answer_guarded}
use open_voip.Control.Hangup.{do_hangup, offered_states, release_agents, released_legs, to_acw}
use open_voip.Control.Hangup.Ending.{
  IsGone, do_hangup-twice, do_hangup_ends, released, released_exact,
}
use open_voip.Control.Hangup.Releasing.{WasConnected, freed, log-release_agents}
use open_voip.Control.Mutation.{answer, run_idempotent}
use open_voip.Control.Mutation.Retry.{answer_once}
use open_voip.Control.Queueing.{ahead_of, position}
use open_voip.Control.Queueing.Order.{position-served_before}
use open_voip.Control.Lifecycle.{
  Request, answers, dispatches, hangs_up, holds, run, run-IsOver, run-IsSynced,
}
use open_voip.CallStore.{put_row, put_leg_rows, update_call, insert_leg, get_call}
use open_voip.Control.Exec.{
  pure, fail, gets, asks, with_live, with_option, ignore, attempt, with_result, modify, when,
  from_reply, ◌>>=◌, perform, request, now, fresh_id,
}
use open_voip.Control.Events.{
  extras, recipients, returned, publish_each, cdr_request, cdr_upsert, set_agent_state,
}
use open_voip.Control.Recording.{begin_recording_if_needed, stop_recording}
use open_voip.Control.Transition.{
  after_transition, record_state, guarded_state, write_state, is_ended,
}
use open_voip.Control.Offer.{
  answered_call, agent_leg, switch_audio, prepare_answer, finish_answer, accept_offer,
  answer_checked, consulting, not_ringing,
}
use open_voip.Control.Hangup.{
  release_each, report_bridges, end_bridges, report_recording, close_ended, end_live, end_persisted,
  delete_live, hangup_result,
}
use open_voip.Commands.{
  tell_result, accept, touches, accept_key, add_row, mark_running, complete, put_commands,
}
use open_voip.Control.Mutation.{guard_expected_version, accepted_command, run_command, replayed}

abbrev browser_agent : AgentInfo
browser_agent = record {
  config_version = 1;
  terminal_type = "webrtc";
  sip_username = "";
  agent_id = "ada";
  extension = "1001";
  video_capable = true;
  state = idle;
}

abbrev a_queue : QueueSnapshot
a_queue = record {
  config_version = 1;
  name = "sales";
  video_enabled = true;
  max_wait_sec = 60;
  ivr_flow_id = "";
  audio_profile = "narrowband";
  after_hours_action = "";
  overflow_action = "";
  overflow_queue_id = "";
  wait_prompt = "";
  listen_announce = false;
  priority_enabled = false;
  post_call_ivr_flow_id = "";
}

-- Ports that all work; the queue's dispatcher names one agent.
abbrev ports : Env
ports = record {
  call_id = "call-1";
  now = λ l. 1000;
  fresh_id = λ l. "fresh";
  reply = λ l e. none;
  agent_by_id = λ l a. ok browser_agent;
  get_queue = λ l q. ok a_queue;
  requested_agent = λ l. ok "ada";
  started_recording = λ l. err (other "recorder down");
  recording_info = λ l i. err (other "recorder down");
  recording_policy = λ l q. err (other "no policy");
  notify_message_for_mode = λ l m. "";
  ended_bridges = λ l. ok [];
  activated_pair = λ l. ok "bridge-1";
  read_fault = λ l. none;
  peers = λ l. [];
  active_version = λ l. ok 1;
  business_hours = λ l q. ok "always";
  duplicate_key = other "duplicate key";
  queue_status = λ l q. err (other "no queue");
  latest_ivr = λ l f. err (other "no flow");
  business_action = λ l a. err (other "no action");
  prompt_duration = λ l f. ok 3_200_000_000;
  defers = λ l. false;
  local_time =
      λ l tz. record { weekday = "mon"; weekday_number = 1; date = "2026-01-05"; clock = "10:30" };
  parse_doc = λ s. none;
  parse_schedule = λ s. none;
  trim_space = λ s. s;
  text_contains = λ s t. contains t (s ∷ []);
  split = λ s sep. s ∷ [];
  replace_position = λ s n. s;
  itoa = λ n. "n";
  is_wav = λ s. false;
  has_call_events = true;
  has_recordings = false;
  has_recording_policy = false;
  has_bridges = true;
  has_commands = true;
}

is_update : Effect → Bool
is_update (Effect.update_call r) = true
is_update _ = false

-- The same ports, with a database that refuses every write of a call.
abbrev broken : Env
unfolding is_update
broken = record ports {
  reply = λ l e. if is_update e then some (api (not_found_error "down")) else none;
}

abbrev rec_in : CallState → CallRecord
rec_in s = record {
  id = "call-1";
  business_ref = "";
  metadata = "";
  version = 3;
  config_version = none;
  caller = "bob";
  callee = "sales";
  agent_id = "";
  offered_agent = "";
  answered_at = none;
  direction = "inbound";
  session_type = audio;
  state = s;
  queue_id = some "q";
  parent_call_id = none;
  priority = 0;
  created_at = 1;
  updated_at = 2;
  ended_at = none;
}

abbrev customer_of_call : CallLegRecord
customer_of_call = record {
  kind = "webrtc";
  leg_state = "new";
  participant_ref = "";
  id = "leg-1";
  call_id = "call-1";
  role = Ports.customer;
  agent_id = none;
  created_at = 1;
}

abbrev call_in : CallState → RuntimeCall
call_in s = record {
  sip_offer_leg = "";
  sip_offer_cancel = false;
  rec = rec_in s;
  legs = customer_of_call ∷ [];
  active_agent = "";
  offered_agent = "";
  offer_at = none;
  queued_at = 5;
  answered_at = none;
  caller = "bob";
  callee = "sales";
  queue_name = "sales";
  post_call_ivr_flow_id = "";
  max_wait = 0;
  held = false;
  recording_id = "";
  video_from_leg = "";
  video_upgrade_ok = false;
  video_started_at = none;
  screen_shares = 0;
  notify = "";
  ivr = none;
  wait_prompt = "";
  consult_from = "";
  transfer_mode = "";
  end_message = "";
  end_code = "";
  cdr_result = "";
  pstn_dial_state = "";
}

abbrev cell_of : RuntimeCall → Cell
cell_of rt = record {
  live = some rt;
  row = some rt.rec;
  leg_rows = rt.legs;
  commands = [];
  log = [];
}

-- The call rings at its agent.
abbrev rings : RuntimeCall
rings = record (call_in ringing) { offered_agent = "ada" }

abbrev plain : Ctx
plain = record { expected_version = 0; idempotency = ""; sip_answer = false }

abbrev keyed : Ctx
keyed = record { expected_version = 0; idempotency = "key-1"; sip_answer = false }

abbrev keep_metadata : CallRecord → String → String → String → String
keep_metadata r m c s = r.metadata

abbrev a_day : List (Env × Request)
a_day =
    (ports, dispatches 2)
    ∷ (ports, answers plain "ada")
    ∷ (broken, holds plain true)
    ∷ (ports, hangs_up keep_metadata plain normal)
    ∷ []

-- What a concrete run computes through.
abbrev machine : Unit {0}
unfolding put_row put_leg_rows update_call insert_leg get_call pure fail gets asks with_live
    with_option ignore attempt with_result modify when from_reply ◌>>=◌ perform request now fresh_id
    extras recipients returned publish_each cdr_request cdr_upsert set_agent_state
    begin_recording_if_needed stop_recording after_transition record_state guarded_state write_state
    is_ended answered_call agent_leg switch_audio prepare_answer finish_answer accept_offer
    answer_checked consulting not_ringing release_each report_bridges end_bridges report_recording
    close_ended end_live end_persisted delete_live hangup_result accept accept_key add_row touches
    mark_running complete tell_result put_commands guard_expected_version accepted_command
    run_command replayed do_answer do_hangup answer run_idempotent transition written_row
    next_record publish_call offered_states released_legs leg_agents to_acw find_key
    already_answered release_agents ring_device
machine = tt

run-IsSynced_example : IsSynced (run a_day (cell_of (call_in queued)))
run-IsSynced_example =
    run-IsSynced a_day (cell_of (call_in queued)) (record { agree = (refl, refl) })

abbrev over : Cell
over = cell_of (call_in ended)

run-IsOver_example : IsOver (run a_day over)
run-IsOver_example = run-IsOver a_day over (record { over = (refl, refl) })

answer_connects_example :
    IsOffered plain "ada" rings
    × IsAnswered "ada" rings (do_answer ports plain "ada" (cell_of rings)).1
unfolding machine
answer_connects_example = answer_connects ports plain "ada" rings (cell_of rings) refl refl refl

answer_guarded_example :
    ((already_answered rings "eve" ≡ true)
      × (do_answer ports plain "eve" (cell_of rings) ≡ (ok tt, cell_of rings)))
    ⊎ ((e : Err) × (do_answer ports plain "eve" (cell_of rings) ≡ (err e, cell_of rings)))
unfolding machine
answer_guarded_example =
    answer_guarded ports plain "eve" rings (cell_of rings) refl
      (λ o. absurd (cc ((eq_iff "ada" "eve").1 o.to_agent)))

answer_once_example :
    (answer broken keyed "ada" (answer ports keyed "ada" (cell_of rings)).1).1
    ≡ (answer ports keyed "ada" (cell_of rings)).1
unfolding machine broken
answer_once_example = answer_once ports broken keyed "ada" (cell_of rings) refl refl refl refl refl

do_hangup_ends_example : IsGone (do_hangup ports keep_metadata normal (cell_of rings)).1
unfolding machine
do_hangup_ends_example =
    do_hangup_ends ports normal keep_metadata rings (cell_of rings) refl refl refl

-- A call that is gone.
abbrev gone : Cell
gone = record { live = none; row = some (rec_in ended); leg_rows = []; commands = []; log = [] }

transition_atomic_example :
    let c' = (transition broken held (cell_of (call_in active))).1 in
    (c'.live ≡ some (call_in active)) × (c'.row ≡ some (rec_in active))
unfolding machine broken
transition_atomic_example =
    transition_atomic broken (call_in active) held (cell_of (call_in active)) refl refl

released_exact_example :
    IsDistinct (released rings)
    × ((a : String)
        → contains a (released rings)
          ≡ ((rings.offered_agent == a || contains a (leg_agents rings.legs)) && not (a == "")))
released_exact_example = released_exact rings

log-publish_call_example :
    (publish_call ports "call.ringing" "eve" [] (cell_of rings)).1.log
    ≡ sent ports "call.ringing" []
        (recipients "eve" rings)
        (Effect.publish (event ports "call.ringing" "eve" false []) ∷ [])
log-publish_call_example =
    log-publish_call ports "call.ringing" [] "eve" rings (cell_of rings) refl refl

-- A call that rang a SIP device before it rings at a browser.
abbrev rang_sip : RuntimeCall
rang_sip = record rings { sip_offer_leg = "sip-leg" }

-- A first run of the key has succeeded.
abbrev done_row : CommandRow
done_row = record {
  id = "cmd-1";
  call_id = "call-1";
  idempotency_key = "key-1";
  request_hash = "hold|true";
  typ = "hold";
  status = succeeded;
  error_code = "";
}

abbrev after_hold : Cell
after_hold = record (cell_of (call_in active)) { commands = done_row ∷ [] }

-- Two calls of one queue: the urgent one came later.
abbrev urgent : RuntimeCall
urgent = record (call_in queued) { rec = record (rec_in queued) { priority = 2 }; queued_at = 9 }

do_hangup-twice_example :
    let c' = (do_hangup ports keep_metadata normal (cell_of rings)).1 in
    do_hangup ports keep_metadata timeout c' ≡ (ok tt, c')
unfolding machine
do_hangup-twice_example =
    do_hangup-twice ports ports keep_metadata normal timeout rings (cell_of rings) refl
      (λ h. absurd (cc h)) refl refl

log-release_agents_example :
    (to from next : AgentState) × (WasConnected rings → to ≡ acw)
    × (¬ WasConnected rings → to ≡ idle)
    × (rings.rec.state ≡ ringing → (from ≡ agent_ringing) × (next ≡ idle))
    × (rings.rec.state ≢ ringing → (from ≡ on_call) × (next ≡ to))
    × ((release_agents ports rings (cell_of rings)).1.log
        ≡ freed to (released_legs rings) (Effect.set_agent_state "ada" from next "hangup" ∷ []))
log-release_agents_example = log-release_agents ports rings (cell_of rings)

recipients_exact_example :
    IsDistinct (recipients "eve" rings)
    × ((a : String)
        → contains a (recipients "eve" rings) ≡ (
            (rings.offered_agent == a || contains a (leg_agents rings.legs))
            && not (a == "")
            && not ("eve" == a)))
recipients_exact_example = recipients_exact "eve" rings

position-served_before_example :
    position ports urgent (call_in queued ∷ urgent ∷ [])
    < position ports (call_in queued) (call_in queued ∷ urgent ∷ [])
unfolding served_before
position-served_before_example =
    position-served_before urgent (call_in queued) "q" ports (call_in queued ∷ urgent ∷ []) refl
      refl refl refl (inr (inl refl))
