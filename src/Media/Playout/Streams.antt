-- ===== src/Media/Playout/Streams.antt =====
-- A playout buffer over any history of batches, frames and resets.
use open_voip.Base.{
  ℕ, ◌-◌, ◌≡◌, fun_ext, if_both, true, false, Option, none, List, [], ◌∷◌, Bool-cases, inl, inr,
  is_some, arith, if◌then◌else◌,
}
use open_voip.Base.Int.{ℤ, pos, ◌+ℤ◌, ◌≤ℤ◌, int_laws}
use open_voip.Media.Playout.{
  Buffer, ExtPacket, Native, Packet, close, Samples, new_buffer, push, reset,
}
use open_voip.Media.Playout.Accepting.{accept_packets}
use open_voip.Media.Playout.Playing.{pull_samples, is_waiting}
use open_voip.Media.Playout.Bounded.{
  IsBounded, Held, Within, new_buffer-IsBounded, reset-IsBounded, accept_packets-IsBounded,
}
use open_voip.Media.Playout.Pulling.{
  IsInPlace, inside, pull_samples_exact, pull_samples-Stays, is_waiting-pull_samples,
}

-- What can happen to a buffer: a batch of the jitter buffer, a frame of the mixer, a reset on a new
-- stream, a packet on its way in, and the end.
pub data Event : Type 0 where
  arrive : List ExtPacket → Event
  play : ℤ → ℕ → Event
  restart : ℤ → Event
  enter : ℤ → Packet → Event
  shut : Event

outside_from : (p q : ℤ) (n : ℕ) → inside p n q ≡ false → p ≤ℤ q → p +ℤ pos n ≤ℤ q
outside_from p q n h low = ground arith

module _ {Plc : Type 0} (native : Native Plc) where
  abbrev pub happen : Event → Buffer Plc → Buffer Plc
  happen (arrive packets) b = accept_packets native packets b
  happen (play now n) b = (pull_samples native now n b).1
  happen (restart now) b = reset native now b
  happen (enter now p) b = (push now p b).1
  happen shut b = close b

  unfoldable pub run : List Event → Buffer Plc → Buffer Plc
  run [] b = b
  run (e ∷ events) b = run events (happen e b)

  push-IsBounded : (now : ℤ) (p : Packet) (b : Buffer Plc) → Held b (push now p b).1
  unfolding push
  push-IsBounded now p b h =
      if_both (λ (r : Option Packet × Buffer Plc). IsBounded r.1) b.closed h
        (if_both IsBounded (is_some b.ready_at) h
          (record { capacity = h.capacity; room = h.room; stored = h.stored }))

  -- What is not taken out lies behind the frame.
  rest-Within :
      (p hi : ℤ) (n : ℕ) (m : Samples)
      → Within p hi m
      → Within (p +ℤ pos n) hi (λ q. if inside p n q then none else m q)
  rest-Within p hi n m h q e = elim (Bool-cases (inside p n q)) [
    | inl taken ↦ absurd (cc (rw taken at e))
    | inr left ↦ let (low, high) = h q (rw left at e) in (outside_from p q n left low, high)
  ]

  pull-IsBounded :
      (now : ℤ) (n : ℕ) (b : Buffer Plc)
      → IsInPlace native
      → is_waiting now b ≡ false
      → Held b (pull_samples native now n b).1
  pull-IsBounded now n b i due h =
      let (size, cursor, left) = pull_samples_exact native now n b i due in
      let (written, capacity) = pull_samples-Stays native now n b i in
      record {
        capacity = rw capacity h.capacity;
        room = rw (written, cursor, capacity) (omega (int_laws, h.room));
        stored =
            rw (written, cursor, fun_ext left)
              (rest-Within b.cursor b.max_written n b.samples h.stored);
      }

  play-IsBounded :
      (now : ℤ) (n : ℕ) (b : Buffer Plc) → IsInPlace native → Held b (pull_samples native now n b).1
  play-IsBounded now n b i h = elim (Bool-cases (is_waiting now b)) [
    | inl early ↦ rw (is_waiting-pull_samples native now n b early) h
    | inr due ↦ pull-IsBounded now n b i due h
  ]

  -- A new buffer stays bounded over every history.
  bounded : (events : List Event) (b : Buffer Plc) → IsInPlace native → Held b (run events b)
  unfolding run close
  bounded [] b i h = h
  bounded (arrive packets ∷ events) b i h =
      bounded events _ i (accept_packets-IsBounded native packets b h)
  bounded (play now n ∷ events) b i h = bounded events _ i (play-IsBounded now n b i h)
  bounded (restart now ∷ events) b i h = bounded events _ i (reset-IsBounded native now b h)
  bounded (enter now p ∷ events) b i h = bounded events _ i (push-IsBounded now p b h)
  bounded (shut ∷ events) b i h =
      bounded events _ i (record { capacity = h.capacity; room = h.room; stored = λ q e. cc })

  -- Whatever packets come, whatever frames are played and whenever the stream starts again: each stored
  -- sample of a buffer of capacity `cap` lies from the cursor on, and less than `cap - 320` samples past
  -- it. A concealment that returns as many samples as it is given is supposed.
  pub run_bounds :
      (i : IsInPlace native) (cap : ℕ) (events : List Event) (q : ℤ)
      → is_some ((run events (new_buffer native cap)).samples q) ≡ true
      → let b = run events (new_buffer native cap) in
        (b.cursor ≤ℤ q) × (q +ℤ pos 1 ≤ℤ b.cursor +ℤ pos (b.cap_samples - 320))
  run_bounds i cap events q e =
      let h = bounded events (new_buffer native cap) i (new_buffer-IsBounded native cap) in
      let (low, high) = h.stored q e in (low, omega (int_laws, h.room))
