-- ===== src/Media/Pcm.antt =====
-- Samples of 16 bits and positions in an RTP stream: `encodePCM16` of application.go, and the decoding
-- of `accept` and `rtpSampleIndex` of playout_buffer.go. A sample is an `int16`, an integer from
-- -32768 to 32767; a byte is a number below 256.
pub mod Trip
use open_voip.Base.{ℕ, ◌+◌, ◌-◌, ◌*◌, ◌/◌, ◌%◌, ◌^◌, List, [], ◌∷◌, ltb, if◌then◌else◌}
use open_voip.Base.Int.{ℤ, pos, negsuc}

-- `uint16(v)` of an `int16`.
unfoldable pub unsigned16 : ℤ → ℕ
unsigned16 (pos n) = n % 2 ^ 16
unsigned16 (negsuc n) = 2 ^ 16 - 1 - n % 2 ^ 16

-- `int16(w)` of a `uint16`.
unfoldable pub signed16 : ℕ → ℤ
signed16 w = if ltb w (2 ^ 15) then pos w else negsuc (2 ^ 16 - 1 - w)

-- `int32(w)` of a `uint32`.
unfoldable pub signed32 : ℕ → ℤ
signed32 w = if ltb w (2 ^ 31) then pos w else negsuc (2 ^ 32 - 1 - w)

-- `encodePCM16`: two bytes for each sample, the lower one first.
unfoldable pub encode_pcm16 : List ℤ → List ℕ
unfolding unsigned16
encode_pcm16 [] = []
encode_pcm16 (v ∷ pcm) = unsigned16 v % 256 ∷ unsigned16 v / 256 ∷ encode_pcm16 pcm

-- Payload type 127 of `accept`: `len/2` samples, so that an odd byte at the end is dropped.
unfoldable pub decode_pcm16 : List ℕ → List ℤ
unfolding signed16
decode_pcm16 [] = []
decode_pcm16 (b ∷ []) = []
decode_pcm16 (lo ∷ (hi ∷ bytes)) = signed16 (lo + 256 * hi) ∷ decode_pcm16 bytes

-- `rtpSampleIndex`: the `uint32` difference, read as an `int32`.
unfoldable pub rtp_sample_index : ℕ → ℕ → ℤ
unfolding signed32
rtp_sample_index ts anchor = signed32 ((ts + 2 ^ 32 - anchor) % 2 ^ 32)
