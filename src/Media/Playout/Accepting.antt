-- ===== src/Media/Playout/Accepting.antt =====
-- `accept` of layers/media/playout_buffer.go: what becomes of the packets that the jitter buffer hands over.
use open_voip.Base.{
  ℕ, ◌+◌, ◌-◌, ◌*◌, true, ◌&&◌, Option, none, some, List, [], ◌∷◌, map, length, leb, ◌=?◌,
  if◌then◌else◌,
}
use open_voip.Base.Int.{ℤ, pos, ◌+ℤ◌, ◌-ℤ◌, ltb_ℤ, leb_ℤ, eqb_ℤ, max_ℤ, pos_part}
use open_voip.Media.Pcm.{decode_pcm16, rtp_sample_index}
use open_voip.Media.Playout.{
  Buffer, ExtPacket, Native, Packet, Samples, input_pcm_reserve, mix_frame_samples, no_samples, put,
}

-- Before playback starts a packet may show an earlier phase of the stream's clock: `start` samples
-- before it arrived. A sample takes 125000 ns.
abbrev pub earlier : ℤ → ℤ → ℤ
earlier a b = if ltb_ℤ b a then b else a

abbrev pub from : ℤ → Samples → Samples
from c m q = if ltb_ℤ q c then none else m q

module _ {Plc : Type 0} where
  unfoldable pub anchor : Packet → Buffer Plc → Buffer Plc
  anchor p b =
      if b.anchored
      then record b {
        position = b.position +ℤ rtp_sample_index p.timestamp b.last_ts;
        last_ts = p.timestamp;
      }
      else record b { anchored = true; last_ts = p.timestamp; position = pos 0 }

  unfoldable pub earliest : Option ℤ → Option ℤ → Buffer Plc → Option ℤ
  earliest none ready b = ready
  earliest (some received) none b = none
  earliest (some received) (some ready) b =
      if eqb_ℤ b.cursor (pos 0)
        && (leb_ℤ (pos 0) b.position && leb_ℤ b.position (pos b.cap_samples))
      then some
          (earlier ready (received -ℤ pos (pos_part b.position * 125_000) +ℤ input_pcm_reserve))
      else some ready

  unfoldable pub phase : Option ℤ → Buffer Plc → Buffer Plc
  phase received b = record b { ready_at = earliest received b.ready_at b }

  -- A packet that lies behind the cursor and not before what was written lengthens the run of late
  -- samples.
  unfoldable pub count_late : ℤ → ℕ → Buffer Plc → Buffer Plc
  count_late end n b = record b {
    late_run_samples =
        if leb_ℤ end b.cursor && leb_ℤ b.max_written b.position then b.late_run_samples + n else 0;
  }

  unfoldable pub store_one : ℤ → ℤ → Buffer Plc → Buffer Plc
  store_one p v b =
      if ltb_ℤ p b.cursor
      then record b { late_samples = b.late_samples + 1 }
      else record b { samples = put p v b.samples }

  -- The loop over the samples of a packet.
  unfoldable pub store : ℤ → List ℤ → Buffer Plc → Buffer Plc
  store p [] b = b
  store p (v ∷ pcm) b = store (p +ℤ pos 1) pcm (store_one p v b)

module _ {Plc : Type 0} (native : Native Plc) where
  open native use {new_plc, receive, fill, decode_ulaw, decode_alaw}

  -- The samples of a payload; `none` is the `continue` of an unknown payload type.
  unfoldable pub decode : Packet → Option (List ℤ)
  decode p =
      if p.payload_type =? 0
      then some (map decode_ulaw p.payload)
      else if p.payload_type =? 8
      then some (map decode_alaw p.payload)
      else if p.payload_type =? 127
      then some (decode_pcm16 p.payload)
      else none

  unfoldable pub resync : ℤ → ℤ → ℕ → Buffer Plc → Buffer Plc
  resync now end n b = record b {
    late_samples = b.late_samples + n;
    max_written = end;
    cursor = end;
    samples = no_samples;
    plc = new_plc;
    ready_at = some (now +ℤ input_pcm_reserve);
    generation = b.generation + 1;
    resyncs = b.resyncs + 1;
    late_run_samples = 0;
  }

  -- Where the packet ends more than `cap - 320` samples past the cursor, the cursor jumps.
  unfoldable pub skip_ahead : ℤ → Buffer Plc → Buffer Plc
  skip_ahead end b =
      let room = pos (b.cap_samples - 320) in
      if ltb_ℤ room (end -ℤ b.cursor)
      then record b {
        overflow_samples = b.overflow_samples + pos_part (end -ℤ room -ℤ b.cursor);
        cursor = end -ℤ room;
        samples = from (end -ℤ room) b.samples;
        plc = new_plc;
        generation = b.generation + 1;
      }
      else b

  -- The buffer that takes the samples of a packet which ends at `end`.
  unfoldable pub make_room : ℤ → Buffer Plc → Buffer Plc
  make_room end b =
      let placed = skip_ahead end b in record placed { max_written = max_ℤ placed.max_written end }

  unfoldable pub accept_pcm : ℤ → List ℤ → Buffer Plc → Buffer Plc
  unfolding resync
  accept_pcm now pcm b =
      let n = length pcm in
      let end = b.position +ℤ pos n in
      let counted = count_late end n b in
      if leb (3 * mix_frame_samples) counted.late_run_samples
      then resync now end n counted
      else store b.position pcm (make_room end counted)

  unfoldable pub accept_decoded : ExtPacket → Option (List ℤ) → Buffer Plc → Buffer Plc
  accept_decoded e none b = b
  accept_decoded e (some pcm) b =
      accept_pcm e.handled_at pcm (phase e.received_at (anchor e.packet b))

  -- One round of the loop of `accept`.
  unfoldable pub accept_packet : ExtPacket → Buffer Plc → Buffer Plc
  accept_packet e b = accept_decoded e (decode e.packet) (record b { ssrc = e.packet.ssrc })

  unfoldable pub accept_each : List ExtPacket → Buffer Plc → Buffer Plc
  accept_each [] b = b
  accept_each (e ∷ packets) b = accept_each packets (accept_packet e b)

  -- `accept`.
  unfoldable pub accept_packets : List ExtPacket → Buffer Plc → Buffer Plc
  accept_packets packets b = if b.closed then b else accept_each packets b
