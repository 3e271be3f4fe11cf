-- ===== src/Media/Playout.antt =====
-- The playout buffer of a leg, layers/media/playout_buffer.go: `legPlayoutBuffer` with `accept`,
-- `pullSamplesLocked`, `pullFrame`, `resetLocked`, `push`, `ingest` and `close`. The map of samples is a
-- function from positions; positions are integers that do not reach the ends of an `int64`, and times are
-- integers of nanoseconds. The jitter buffer of LiveKit, which calls `accept`, and the resampler with
-- its rate correction (`pullAdaptiveFrame`) are left out. `accept` and `resetLocked` ask the clock: each
-- packet and each reset comes with the time that it is told.
pub mod Accepting
pub mod Playing
mod Bounded
pub mod Pulling
pub mod Streams
pub mod Delivery
use open_voip.Base.{
  ℕ, zero, suc, ◌+◌, ◌-◌, ◌*◌, ◌%◌, ◌^◌, Bool, true, false, ◌&&◌, ◌||◌, not, Option, none, some,
  List, [], ◌∷◌, ◌++◌, map, length, is_some, ltb, leb, ◌=?◌, if◌then◌else◌,
}
use open_voip.Base.Int.{ℤ, pos, negsuc, ◌+ℤ◌, ◌-ℤ◌, ltb_ℤ, leb_ℤ, eqb_ℤ, max_ℤ, pos_part}
use open_voip.Media.Pcm.{decode_pcm16, encode_pcm16, rtp_sample_index}

-- `mixFrameSamples`, `defaultPlayoutCap` and `inputPCMReserve`.
abbrev pub mix_frame_samples : ℕ
mix_frame_samples = 160

abbrev pub default_playout_cap : ℕ
default_playout_cap = 1600

abbrev pub input_pcm_reserve : ℤ
input_pcm_reserve = pos 30_000_000

-- The concealment of SpanDSP, which `g711PLC` of native_audio_linux.go wraps, and the tables of package
-- g711. `receive` and `fill` write over the samples that they are given.
pub record Native (Plc : Type 0) : Type 0 where
  pub new_plc : Plc
  pub receive : Plc → List ℤ → List ℤ × Plc
  pub fill : Plc → List ℤ → List ℤ × Plc
  pub decode_ulaw : ℕ → ℤ
  pub decode_alaw : ℕ → ℤ

-- `rtp.Packet` and `jitter.ExtPacket`, as far as they are read, with the time at which `accept` comes to
-- the packet.
pub record Packet : Type 0 where
  pub sequence_number : ℕ
  pub timestamp : ℕ
  pub ssrc : ℕ
  pub payload_type : ℕ
  pub payload : List ℕ

pub record ExtPacket : Type 0 where
  pub packet : Packet
  pub received_at : Option ℤ
  pub handled_at : ℤ

abbrev pub Samples : Type 0
Samples = ℤ → Option ℤ

abbrev pub no_samples : Samples
no_samples p = none

-- `samples[p] = v` and `delete(samples, p)`.
abbrev pub put : ℤ → ℤ → Samples → Samples
put p v m q = if eqb_ℤ q p then some v else m q

abbrev pub delete : ℤ → Samples → Samples
delete p m q = if eqb_ℤ q p then none else m q

pub record Buffer (Plc : Type 0) : Type 0 where
  pub generation : ℕ
  pub plc : Plc
  pub cap_samples : ℕ
  pub ready_at : Option ℤ
  pub anchored : Bool
  pub last_ts : ℕ
  pub ssrc : ℕ
  pub position : ℤ
  pub cursor : ℤ
  pub max_written : ℤ
  pub samples : Samples
  pub closed : Bool
  pub late_run_samples : ℕ
  pub resyncs : ℕ
  pub late_samples : ℕ
  pub plc_samples : ℕ
  pub overflow_samples : ℕ

module _ {Plc : Type 0} where
  -- `push`, up to the packet that it hands to the jitter buffer.
  unfoldable pub push : ℤ → Packet → Buffer Plc → Option Packet × Buffer Plc
  push now p b = if b.closed then (none, b) else (
    some p,
    if is_some b.ready_at then b else record b { ready_at = some (now +ℤ input_pcm_reserve) },
  )

  -- `ingest`.
  unfoldable pub ingest : ℤ → ℕ → ℕ → ℕ → List ℤ → Buffer Plc → Option Packet × Buffer Plc
  ingest now seq ssrc ts [] b = (none, b)
  ingest now seq ssrc ts (v ∷ pcm) b =
      let p : Packet = record {
        sequence_number = seq;
        timestamp = ts;
        ssrc = ssrc;
        payload_type = 127;
        payload = encode_pcm16 (v ∷ pcm);
      } in
      push now p b

  -- `close`.
  pub close : Buffer Plc → Buffer Plc
  close b = record b { closed = true; samples = no_samples }

module _ {Plc : Type 0} (native : Native Plc) where
  open native use {new_plc, receive, fill, decode_ulaw, decode_alaw}

  -- `newLegPlayoutBuffer`.
  unfoldable pub new_buffer : ℕ → Buffer Plc
  new_buffer cap = record {
    generation = 0;
    plc = new_plc;
    cap_samples = if leb cap (3 * mix_frame_samples) then default_playout_cap else cap;
    ready_at = none;
    anchored = false;
    last_ts = 0;
    ssrc = 0;
    position = pos 0;
    cursor = pos 0;
    max_written = pos 0;
    samples = no_samples;
    closed = false;
    late_run_samples = 0;
    resyncs = 0;
    late_samples = 0;
    plc_samples = 0;
    overflow_samples = 0;
  }

  -- `resetLocked`.
  unfoldable pub reset : ℤ → Buffer Plc → Buffer Plc
  reset now b = record b {
    generation = b.generation + 1;
    anchored = false;
    position = pos 0;
    cursor = pos 0;
    max_written = pos 0;
    ready_at = some (now +ℤ input_pcm_reserve);
    samples = no_samples;
    plc = new_plc;
    late_run_samples = 0;
  }
