-- ===== src/CcCore/Normal.antt =====
-- `normalizeBundle` and `NormalizeDID` of cccore/configuration.go: the defaults of a configuration, before it
-- is checked.
use Prim.Native.Char.{Char, code}
use Prim.Native.String.{[] as text_end, ◌∷◌ as text_cons}
use open_voip.Base.{◌=?◌, leb, String, ◌==◌, if◌then◌else◌, Bool, true, false, ◌&&◌, ◌||◌, map}
use open_voip.Base.Int.{ℤ, pos, negsuc}
use open_voip.CcCore.{Library}
use open_voip.CcCore.Config.{AgentConfig, ConfigBundle, DidConfig, QueueConfig}

unfoldable pub is_digit : Char → Bool
is_digit c = leb 48 (code c) && leb (code c) 57

-- The digits of a number, and a plus where it stands first.
unfoldable pub did_digits : Bool → String → String
did_digits first text_end = text_end
did_digits first (text_cons c s) =
    if is_digit c || first && code c =? 43
    then text_cons c (did_digits false s)
    else did_digits false s

-- The value of a field that is not given.
unfoldable pub or_default : String → String → String
or_default s value = if s == "" then value else s

-- `if q.MaxWaitSec == 0`.
unfoldable pub wait_or_default : ℤ → ℤ
wait_or_default (pos n) = if n =? 0 then pos 300 else pos n
wait_or_default (negsuc n) = negsuc n

module _ (lib : Library) where
  -- The value of a field that is blank.
  unfoldable pub blank_default : String → String → String
  blank_default s value = if lib.trim_space s == "" then value else s

  unfoldable pub normalize_did : String → String
  normalize_did value = did_digits true (lib.trim_space value)

  unfoldable pub normalize_queue : QueueConfig → QueueConfig
  normalize_queue q = record q {
    name = lib.trim_space q.name;
    audio_profile = or_default (lib.trim_space q.audio_profile) "narrowband";
    max_wait_sec = wait_or_default q.max_wait_sec;
    dispatch_strategy = or_default q.dispatch_strategy "longest_idle";
    recording_policy = or_default q.recording_policy "off";
    overflow_action = or_default q.overflow_action "hangup";
    after_hours_action = or_default q.after_hours_action "hangup";
    business_hours_json = blank_default q.business_hours_json "always";
  }

  unfoldable pub normalize_agent : AgentConfig → AgentConfig
  normalize_agent a = record a { terminal_type = or_default a.terminal_type "webrtc" }

  unfoldable pub normalize_route : DidConfig → DidConfig
  normalize_route d = record d {
    trunk_id = blank_default d.trunk_id "*";
    did = normalize_did d.did;
    target_type = or_default d.target_type "queue";
  }

  unfoldable pub normalize_bundle : ConfigBundle → ConfigBundle
  normalize_bundle b = record b {
    queues = map normalize_queue b.queues;
    agents = map normalize_agent b.agents;
    dids = map normalize_route b.dids;
  }
