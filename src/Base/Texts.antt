-- ===== src/Base/Texts.antt =====
-- The length of a text as Go's `len` counts it, in bytes of UTF-8.
use Prim.Native.Char.{code}
use Prim.Native.Nat.{ℕ, ◌+◌}
use Prim.Native.String.{String, [] as text_end, ◌∷◌ as text_cons}
use open_voip.Base.Tests.{ltb, if◌then◌else◌}

utf8_width : ℕ → ℕ
utf8_width n = if ltb n 128 then 1 else if ltb n 2048 then 2 else if ltb n 65536 then 3 else 4

unfoldable pub byte_length : String → ℕ
unfolding utf8_width
byte_length text_end = 0
byte_length (text_cons c s) = utf8_width (code c) + byte_length s
