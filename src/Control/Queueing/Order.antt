-- ===== src/Control/Queueing/Order.antt =====
-- The order of a queue: who is ahead of whom, and the position that a call is told.
use open_voip.Base.{
  Has, ℕ, ◌<◌, ◌≤◌, String, eq_iff, ◌≡◌, inl, inr, Bool, true, false, ◌&&◌, ◌||◌, Option, none,
  some, List, [], ◌∷◌, arith, ltb, ◌=?◌,
}
use open_voip.Ports.{queued}
use open_voip.Control.Dispatch.{is_queued}
use open_voip.Control.Ticking.{served_before}
use open_voip.Control.State.{Env, RuntimeCall}
use open_voip.Control.Queueing.{ahead_of, count_ahead, position, same_queue}

same_queue_trans :
    (a b c : Option String) → same_queue a b ≡ true → same_queue b c ≡ true → same_queue a c ≡ true
unfolding same_queue
same_queue_trans (some a) (some b) (some c) h k =
    ground (arith, h, k, eq_iff a b, eq_iff b c, eq_iff a c)
same_queue_trans none b c h k = absurd (cc h)
same_queue_trans (some a) none c h k = absurd (cc h)
same_queue_trans (some a) (some b) none h k = absurd (cc k)

-- By priority, then by time.
abbrev sooner : ℕ → ℕ → ℕ → ℕ → Bool
sooner p q r t = ltb r p || (p =? r && ltb q t)

sooner_trans :
    (p s q t r u : ℕ) → sooner p s q t ≡ true → sooner q t r u ≡ true → sooner p s r u ≡ true
sooner_trans p s q t r u h k = ground (arith, h, k)

module _ (a b c : RuntimeCall) where
  ahead_of_irreflexive : ahead_of a a ≡ false
  unfolding ahead_of
  ahead_of_irreflexive = ground arith

  ahead_of_trans : ahead_of a b ≡ true → ahead_of b c ≡ true → ahead_of a c ≡ true
  unfolding ahead_of
  ahead_of_trans h k = ground (
    arith,
    same_queue_trans a.rec.queue_id b.rec.queue_id c.rec.queue_id,
    sooner_trans a.rec.priority b.rec.priority a.queued_at b.queued_at c.rec.priority c.queued_at,
  )

module _ (o rt : RuntimeCall) (before : ahead_of o rt ≡ true) where
  count_ahead_mono : (calls : List RuntimeCall) → count_ahead o calls ≤ count_ahead rt calls
  unfolding count_ahead
  count_ahead_mono [] = ground arith
  count_ahead_mono (x ∷ xs) = ground (arith, count_ahead_mono xs, ahead_of_trans x o rt)

  count_ahead_strict :
      (calls : List RuntimeCall) → Has o calls → count_ahead o calls < count_ahead rt calls
  unfolding count_ahead
  count_ahead_strict [] m = elim m [ ]
  count_ahead_strict (x ∷ xs) (inl e) =
      ground (arith, count_ahead_mono xs, ahead_of_irreflexive o o o)
  count_ahead_strict (x ∷ xs) (inr m) =
      ground (arith, count_ahead_strict xs m, ahead_of_trans x o rt)

  count_ahead_less :
      (env : Env) (calls : List RuntimeCall)
      → Has o calls
      → position env o calls < position env rt calls
  unfolding position
  count_ahead_less env calls m = ground (arith, count_ahead_strict calls m)

-- Two calls of one queue, the first still waiting, in the order in which `tick` serves them.
ahead_of-served_before :
    (o rt : RuntimeCall) (queue : String)
    → o.rec.state ≡ queued
    → o.rec.queue_id ≡ some queue
    → rt.rec.queue_id ≡ some queue
    → served_before o rt ≡ true
    → ahead_of o rt ≡ true
unfolding ahead_of same_queue served_before is_queued
ahead_of-served_before o rt queue waits here there first =
    rw (waits, here, there) ground (arith, first, eq_iff queue queue)

-- Of two calls of one queue, the first of them queued and counted among the live calls, the one that `tick`
-- serves first is told the smaller position.
pub position-served_before :
    (o rt : RuntimeCall) (queue : String) (env : Env) (calls : List RuntimeCall)
    → o.rec.state ≡ queued
    → o.rec.queue_id ≡ some queue
    → rt.rec.queue_id ≡ some queue
    → served_before o rt ≡ true
    → Has o calls
    → position env o calls < position env rt calls
position-served_before o rt queue env calls waits here there first m =
    count_ahead_less o rt (ahead_of-served_before o rt queue waits here there first) env calls m
