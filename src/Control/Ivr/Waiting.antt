-- ===== src/Control/Ivr/Waiting.antt =====
-- How long a node that plays a prompt waits: `playNodeWaitSeconds` of control/ivr.go.
use open_voip.Base.{ℕ, ◌+◌, ◌*◌, ◌≤◌, ◌<◌, ◌≡◌, ◌⊎◌, true, arith}
use open_voip.Base.Int.{ℤ, pos, negsuc, pos_part, leb_ℤ}
use open_voip.Control.Ivr.{play_node_wait_seconds}

-- The seconds cover the prompt, whose length is in nanoseconds, and 600 ms more; they are no fewer than
-- those configured; and where they are not the configured ones, no second could be spared.
pub wait_covers_prompt :
    (configured : ℤ) (duration : ℕ)
    → let wait = play_node_wait_seconds configured duration in
      (duration + 600_000_000 ≤ pos_part wait * 1_000_000_000)
      × (leb_ℤ configured wait ≡ true)
      × ((wait ≡ configured) ⊎ (pos_part wait * 1_000_000_000 < duration + 1_600_000_000))
unfolding play_node_wait_seconds
wait_covers_prompt (pos n) duration = ground arith
wait_covers_prompt (negsuc n) duration = ground arith
