-- ===== src/Media/Pcm/Trip.antt =====
-- There and back: samples through their bytes, and steps of a stream through its timestamps.
use open_voip.Base.{ℕ, ◌+◌, ◌-◌, ◌*◌, ◌/◌, ◌%◌, ◌^◌, ◌<◌, ◌≤◌, ◌≡◌, refl, List, [], ◌∷◌, All, arith}
use open_voip.Base.Int.{ℤ, pos, negsuc, pos_part, neg_part}
use open_voip.Media.Pcm.{
  signed16, unsigned16, encode_pcm16, decode_pcm16, rtp_sample_index, signed32,
}

-- The values of an `int16`.
abbrev pub IsInt16 : ℤ → Type 0
IsInt16 v = (pos_part v < 2 ^ 15) × (neg_part v ≤ 2 ^ 15)

signed16-unsigned16 :
    (v : ℤ) → IsInt16 v → signed16 (unsigned16 v % 256 + 256 * (unsigned16 v / 256)) ≡ v
unfolding signed16 unsigned16
signed16-unsigned16 (pos n) h = ground arith
signed16-unsigned16 (negsuc n) h = ground arith

-- The samples that the buffer reads from a payload are the ones that `encodePCM16` wrote, for every
-- list of `int16` samples.
pub decode_pcm16-encode_pcm16 :
    (pcm : List ℤ) → All IsInt16 pcm → decode_pcm16 (encode_pcm16 pcm) ≡ pcm
unfolding decode_pcm16 encode_pcm16
decode_pcm16-encode_pcm16 [] h = refl
decode_pcm16-encode_pcm16 (v ∷ pcm) h =
    cc (signed16-unsigned16 v h.0, decode_pcm16-encode_pcm16 pcm h.1)

-- The timestamp of a packet that comes `d` samples after another, or before it, on a clock of 32 bits.
abbrev pub shifted : ℕ → ℤ → ℕ
shifted ts d = (ts + pos_part d + 2 ^ 32 - neg_part d) % 2 ^ 32

-- A packet `d` samples away is read as `d` samples away, also where the clock of 32 bits goes over its
-- end between the two, for every `d` that an `int32` holds.
pub rtp_sample_index-shifted :
    (ts : ℕ) (d : ℤ)
    → ts < 2 ^ 32
    → pos_part d < 2 ^ 31
    → neg_part d ≤ 2 ^ 31
    → rtp_sample_index (shifted ts d) ts ≡ d
unfolding rtp_sample_index signed32
rtp_sample_index-shifted ts (pos n) h below above = ground arith
rtp_sample_index-shifted ts (negsuc n) h below above = ground arith
