-- ===== src/Media.antt =====
-- The parts of layers/media that compute: samples and their bytes, and the playout buffer of a leg.
pub mod Pcm
pub mod Playout
