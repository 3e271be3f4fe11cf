-- ===== src/Tests/Media.antt =====
-- Concrete packets and frames, and the theorems applied to them.
use open_voip.Base.{
  ℕ, ◌+◌, ◌-◌, true, ◌≡◌, refl, List, [], ◌∷◌, none, some, is_some, length, arith, if◌then◌else◌,
}
use open_voip.Base.Int.{ℤ, pos, negsuc, ◌+ℤ◌, ◌-ℤ◌, ◌≤ℤ◌, max_ℤ}
use open_voip.Media.Pcm.{encode_pcm16, decode_pcm16, rtp_sample_index, signed16, unsigned16}
use open_voip.Media.Pcm.Trip.{rtp_sample_index-shifted}
use open_voip.Media.Playout.{Buffer, ExtPacket, Native, Packet, ingest, new_buffer, push}
use open_voip.Media.Playout.Accepting.{
  accept_packets, accept_decoded, accept_each, accept_packet, accept_pcm, anchor, count_late,
  decode, earliest, skip_ahead, phase, make_room, resync, store, store_one,
}
use open_voip.Media.Playout.Playing.{conceal, pull_runs, pull_samples, take_run, silence}
use open_voip.Media.Playout.Delivery.{IsGentle, pull_samples-accept_packets}
use open_voip.Media.Playout.Pulling.{IsInPlace, inside, pull_samples_exact}
use open_voip.Media.Playout.Streams.{arrive, play, run, run_bounds}

-- A concealment that repeats what it is given, with the count of its frames as its state.
abbrev native : Native ℕ
native = record {
  new_plc = 0;
  receive = λ c pcm. (pcm, c + 1);
  fill = λ c pcm. (pcm, c + 1);
  decode_ulaw = λ b. pos b;
  decode_alaw = λ b. pos b;
}

native-IsInPlace : IsInPlace native
native-IsInPlace = record { length-receive = λ c pcm. refl; length-fill = λ c pcm. refl }

native-IsGentle : IsGentle native (λ c. Unit)
native-IsGentle = record { steady_new = tt; steady_receive = λ c pcm s. refl }

-- Three samples, one of them negative.
abbrev voice : List ℤ
voice = pos 300 ∷ negsuc 299 ∷ pos 7 ∷ []

abbrev packet : Packet
packet = record {
  sequence_number = 9;
  timestamp = 4_294_967_000;
  ssrc = 5;
  payload_type = 127;
  payload = 44 ∷ 1 ∷ 212 ∷ 254 ∷ 7 ∷ 0 ∷ [];
}

abbrev arrived : ExtPacket
arrived = record { packet = packet; received_at = some (pos 1000); handled_at = pos 2000 }

-- The clock of the stream goes over its end between two packets.
rtp_sample_index-shifted_example : rtp_sample_index 24 4_294_967_000 ≡ pos 320
rtp_sample_index-shifted_example =
    rtp_sample_index-shifted 4_294_967_000 (pos 320) (omega arith) (omega arith) (omega arith)

abbrev filled_buffer : Buffer ℕ
unfolding accept_packets accept_each accept_packet accept_decoded accept_pcm anchor count_late
    decode earliest new_buffer skip_ahead phase make_room resync store store_one decode_pcm16
    signed16 ◌+ℤ◌ ◌-ℤ◌ max_ℤ
filled_buffer = accept_packets native (arrived ∷ []) (new_buffer native 1600)

still_stored :
    is_some (
      (run native (arrive (arrived ∷ []) ∷ play (pos 0) 2 ∷ []) (new_buffer native 1600)).samples
        (pos 2))
    ≡ true
unfolding run pull_samples pull_runs take_run conceal silence accept_packets accept_each
    accept_packet accept_decoded accept_pcm anchor count_late decode earliest new_buffer skip_ahead
    phase make_room resync store store_one decode_pcm16 signed16 ◌+ℤ◌ ◌-ℤ◌ max_ℤ
still_stored = refl

-- Batches, frames and a new stream, one after the other.
run_bounds_example :
    let b = run native (arrive (arrived ∷ []) ∷ play (pos 0) 2 ∷ []) (new_buffer native 1600) in
    (b.cursor ≤ℤ pos 2) × (pos 2 +ℤ pos 1 ≤ℤ b.cursor +ℤ pos (b.cap_samples - 320))
run_bounds_example =
    run_bounds native native-IsInPlace 1600 (arrive (arrived ∷ []) ∷ play (pos 0) 2 ∷ []) (pos 2)
      still_stored

pull_samples_exact_example :
    (length (pull_samples native (pos 40_000_000) 2 filled_buffer).0 ≡ 2)
    × ((pull_samples native (pos 40_000_000) 2 filled_buffer).1.cursor
        ≡ filled_buffer.cursor +ℤ pos 2)
    × ((q : ℤ)
        → (pull_samples native (pos 40_000_000) 2 filled_buffer).1.samples q
          ≡ (if inside filled_buffer.cursor 2 q then none else filled_buffer.samples q))
unfolding filled_buffer
pull_samples_exact_example =
    pull_samples_exact native (pos 40_000_000) 2 filled_buffer native-IsInPlace refl

pull_samples-accept_packets_example :
    (pull_samples native (pos 40_000_000) 3 (
      accept_packets native
        (arrived ∷ [])
        (ingest (pos 0) 9 5 4_294_967_000 voice (new_buffer native 1600)).1)).0
    ≡ voice
unfolding ingest push encode_pcm16 unsigned16 new_buffer anchor ◌+ℤ◌ accept_packets accept_each
    accept_packet accept_decoded accept_pcm count_late decode earliest skip_ahead phase make_room
    resync store store_one decode_pcm16 signed16 ◌-ℤ◌ max_ℤ
pull_samples-accept_packets_example =
    pull_samples-accept_packets native (λ c. Unit) native-IsGentle (pos 0) (pos 40_000_000) 9 5
      4_294_967_000 voice (new_buffer native 1600) arrived refl (omega arith) (omega arith) tt refl
      refl
