-- ===== src/Media/Playout/Bounded.antt =====
-- How far the stored samples of a playout buffer reach, operation by operation.
use open_voip.Base.{
  ℕ, ◌+◌, ◌-◌, ◌<◌, ◌≡◌, true, false, Option, none, some, List, [], ◌∷◌, Bool-cases, if_both, inl,
  inr, is_some, length, leb, arith,
}
use open_voip.Base.Int.{
  ℤ, pos, ◌+ℤ◌, ◌-ℤ◌, ◌≤ℤ◌, ltb_ℤ, eqb_ℤ, leb_ℤ, pos_part, neg_part, eq_of_parts, max_ℤ-left,
  max_ℤ-right, max_ℤ-least, int_laws,
}
use open_voip.Media.Playout.{
  Buffer, ExtPacket, Native, Packet, Samples, new_buffer, put, reset, delete,
}
use open_voip.Media.Playout.Accepting.{
  accept_packets, accept_decoded, accept_each, accept_packet, accept_pcm, anchor, count_late,
  decode, skip_ahead, phase, make_room, store, store_one, from,
}

-- Every stored sample lies from `lo` on and before `hi`.
abbrev pub Within : ℤ → ℤ → Samples → Type 0
Within lo hi m = (p : ℤ) → is_some (m p) ≡ true → (lo ≤ℤ p) × (p +ℤ pos 1 ≤ℤ hi)

-- A stored sample lies from the cursor on, before the end of what was written, and that is at most
-- `cap - 320` samples past the cursor.
pub record IsBounded {Plc : Type 0} (b : Buffer Plc) : Type 0 where
  pub capacity : 320 < b.cap_samples
  pub room : b.max_written ≤ℤ b.cursor +ℤ pos (b.cap_samples - 320)
  pub stored : Within b.cursor b.max_written b.samples

-- A test of integers, read as an order.
leb_ℤ→≤ : (a b : ℤ) → leb_ℤ a b ≡ true → a ≤ℤ b
leb_ℤ→≤ a b h = ground arith

ltb_ℤ→≤ : (a b : ℤ) → ltb_ℤ a b ≡ false → b ≤ℤ a
ltb_ℤ→≤ a b h = ground arith

ltb_ℤ→lt : (a b : ℤ) → ltb_ℤ a b ≡ true → pos_part a + neg_part b < pos_part b + neg_part a
ltb_ℤ→lt a b h = ground arith

eqb_ℤ→≡ : (a b : ℤ) → eqb_ℤ a b ≡ true → a ≡ b
eqb_ℤ→≡ a b h = eq_of_parts a b (ground arith)

module _ (lo hi : ℤ) where
  Within-put :
      (p v : ℤ) (m : Samples)
      → lo ≤ℤ p
      → p +ℤ pos 1 ≤ℤ hi
      → Within lo hi m
      → Within lo hi (put p v m)
  Within-put p v m low high h q e = elim (Bool-cases (eqb_ℤ q p)) [
    | inl same ↦ rw (eqb_ℤ→≡ q p same) (low, high)
    | inr other ↦ h q (rw other at e)
  ]

  Within-delete : (p : ℤ) (m : Samples) → Within lo hi m → Within lo hi (delete p m)
  Within-delete p m h q e = elim (Bool-cases (eqb_ℤ q p)) [
    | inl same ↦ absurd (cc (rw same at e))
    | inr other ↦ h q (rw other at e)
  ]

  Within-from : (c : ℤ) (m : Samples) → Within lo hi m → Within c hi (from c m)
  Within-from c m h q e = elim (Bool-cases (ltb_ℤ q c)) [
    | inl before ↦ absurd (cc (rw before at e))
    | inr after ↦ (ltb_ℤ→≤ q c after, (h q (rw after at e)).1)
  ]

  Within-wider : (hi' : ℤ) (m : Samples) → hi ≤ℤ hi' → Within lo hi m → Within lo hi' m
  Within-wider hi' m w h q e = let (low, high) = h q e in (low, omega arith)

module _ {Plc : Type 0} where
  store-IsBounded :
      (p : ℤ) (pcm : List ℤ) (b : Buffer Plc)
      → p +ℤ pos (length pcm) ≤ℤ b.max_written
      → IsBounded b
      → IsBounded (store p pcm b)
  unfolding store store_one
  store-IsBounded p [] b e h = h
  store-IsBounded p (v ∷ pcm) b e h = elim (Bool-cases (ltb_ℤ p b.cursor)) [
    | inl late ↦ rw late (
        store-IsBounded (p +ℤ pos 1) pcm _ (omega int_laws)
          (record { capacity = h.capacity; room = h.room; stored = h.stored }))
    | inr early ↦ rw early (
        store-IsBounded (p +ℤ pos 1) pcm _ (omega int_laws) (record {
          capacity = h.capacity;
          room = h.room;
          stored = Within-put _ _ p v _ (ltb_ℤ→≤ p b.cursor early) (omega int_laws) h.stored;
        }))
  ]

  -- Bounds that no other field of a buffer has a part in.
  abbrev pub Held : Buffer Plc → Buffer Plc → Type 0
  Held b b' = IsBounded b → IsBounded b'

  anchor-IsBounded : (p : Packet) (b : Buffer Plc) → Held b (anchor p b)
  unfolding anchor
  anchor-IsBounded p b h = elim (Bool-cases b.anchored) [
    | inl e ↦ rw e (record { capacity = h.capacity; room = h.room; stored = h.stored })
    | inr e ↦ rw e (record { capacity = h.capacity; room = h.room; stored = h.stored })
  ]

  phase-IsBounded : (t : Option ℤ) (b : Buffer Plc) → Held b (phase t b)
  unfolding phase
  phase-IsBounded t b h = record { capacity = h.capacity; room = h.room; stored = h.stored }

module _ {Plc : Type 0} (native : Native Plc) where
  pub new_buffer-IsBounded : (cap : ℕ) → IsBounded (new_buffer native cap)
  unfolding new_buffer ◌+ℤ◌
  new_buffer-IsBounded cap = record {
    capacity = ground arith;
    room = ground arith;
    stored = λ p h. cc;
  }

  pub reset-IsBounded : (now : ℤ) (b : Buffer Plc) → Held b (reset native now b)
  unfolding reset
  reset-IsBounded now b h = record {
    capacity = h.capacity;
    room = omega int_laws;
    stored = λ p e. cc;
  }

  make_room-IsBounded : (end : ℤ) (b : Buffer Plc) → Held b (make_room native end b)
  unfolding make_room skip_ahead
  make_room-IsBounded end b h =
      let room = pos (b.cap_samples - 320) in
      elim (Bool-cases (ltb_ℤ room (end -ℤ b.cursor))) [
        | inl over ↦
            let far = ltb_ℤ→lt room (end -ℤ b.cursor) over in
            rw over (record {
              capacity = h.capacity;
              room =
                  max_ℤ-least b.max_written end (end -ℤ room +ℤ room) (omega (int_laws, h.room))
                    (omega int_laws);
              stored =
                  Within-wider (end -ℤ room) b.max_written _ _ (max_ℤ-left b.max_written end)
                    (Within-from b.cursor b.max_written (end -ℤ room) _ h.stored);
            })
        | inr fits ↦
            let near = ltb_ℤ→≤ room (end -ℤ b.cursor) fits in
            rw fits (record {
              capacity = h.capacity;
              room = max_ℤ-least b.max_written end (b.cursor +ℤ room) h.room (omega int_laws);
              stored =
                  Within-wider b.cursor b.max_written _ _ (max_ℤ-left b.max_written end) h.stored;
            })
      ]

  end-make_room : (end : ℤ) (b : Buffer Plc) → end ≤ℤ (make_room native end b).max_written
  unfolding make_room
  end-make_room end b = max_ℤ-right (skip_ahead native end b).max_written end

  accept_pcm-IsBounded :
      (now : ℤ) (pcm : List ℤ) (b : Buffer Plc) → Held b (accept_pcm native now pcm b)
  unfolding accept_pcm count_late
  accept_pcm-IsBounded now pcm b h =
      let end = b.position +ℤ pos (length pcm) in
      let counted = count_late end (length pcm) b in
      elim (Bool-cases (leb 480 counted.late_run_samples)) [
        | inl lost ↦
            rw lost (record { capacity = h.capacity; room = omega int_laws; stored = λ p e. cc })
        | inr kept ↦ rw kept (
            store-IsBounded b.position pcm _ (end-make_room end counted) (
              make_room-IsBounded end counted
                (record { capacity = h.capacity; room = h.room; stored = h.stored })))
      ]

  accept_decoded-IsBounded :
      (e : ExtPacket) (pcm : Option (List ℤ)) (b : Buffer Plc)
      → Held b (accept_decoded native e pcm b)
  unfolding accept_decoded
  accept_decoded-IsBounded e none b h = h
  accept_decoded-IsBounded e (some pcm) b h =
      accept_pcm-IsBounded e.handled_at pcm _
        (phase-IsBounded e.received_at _ (anchor-IsBounded e.packet b h))

  accept_each-IsBounded :
      (packets : List ExtPacket) (b : Buffer Plc) → Held b (accept_each native packets b)
  unfolding accept_each accept_packet
  accept_each-IsBounded [] b h = h
  accept_each-IsBounded (e ∷ packets) b h = accept_each-IsBounded packets _ (
      accept_decoded-IsBounded e (decode native e.packet) _
        (record { capacity = h.capacity; room = h.room; stored = h.stored }))

  pub accept_packets-IsBounded :
      (packets : List ExtPacket) (b : Buffer Plc) → Held b (accept_packets native packets b)
  unfolding accept_packets
  accept_packets-IsBounded packets b h =
      if_both IsBounded b.closed h (accept_each-IsBounded packets b h)
