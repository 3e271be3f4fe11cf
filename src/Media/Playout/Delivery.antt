-- ===== src/Media/Playout/Delivery.antt =====
-- What goes into a playout buffer comes out of it: the samples of a packet that arrives where playback
-- stands, from `ingest` through `accept` to `pullSamplesLocked`.
use mathlib.Core.List.{append-nil}
use open_voip.Base.{
  ℕ, zero, suc, ◌-◌, ◌<◌, ◌≤◌, ◌≡◌, ◌∙◌, sym, refl, ap, subst, true, false, Option, some, List, [],
  ◌∷◌, All, Bool-cases, inl, inr, is_some, length, arith, if_both, if_true, if_false,
}
use open_voip.Base.Int.{
  ℤ, pos, ◌+ℤ◌, ◌-ℤ◌, ◌≤ℤ◌, max_ℤ, ltb_ℤ, eqb_ℤ, leb_ℤ, +ℤ_parts, -ℤ_parts, int_laws,
}
use open_voip.Media.Pcm.{encode_pcm16}
use open_voip.Media.Pcm.Trip.{IsInt16, decode_pcm16-encode_pcm16}
use open_voip.Media.Playout.{
  Buffer, ExtPacket, Native, Packet, Samples, input_pcm_reserve, ingest, push, put,
}
use open_voip.Media.Playout.Accepting.{
  accept_packets, accept_decoded, accept_each, accept_packet, accept_pcm, anchor, count_late,
  decode, skip_ahead, phase, make_room, store, store_one,
}
use open_voip.Media.Playout.Playing.{conceal, pull_runs, pull_samples, take_run, is_waiting}
use open_voip.Media.Playout.Pulling.{Filled, slots, take_run-Filled}

-- SpanDSP blends the first samples after a gap that it has filled, and leaves the others as they are: in a
-- steady state there is no gap behind.
pub record IsGentle {Plc : Type 0} (native : Native Plc) (Steady : Plc → Type 0) : Type 0 where
  pub steady_new : Steady native.new_plc
  pub steady_receive : (c : Plc) (pcm : List ℤ) → Steady c → (native.receive c pcm).0 ≡ pcm

eqb_self : (p : ℤ) → eqb_ℤ p p ≡ true
eqb_self p = ground arith

not_before : (p c : ℤ) → c ≤ℤ p → ltb_ℤ p c ≡ false
not_before p c h = ground arith

apart : (p q : ℤ) → q +ℤ pos 1 ≤ℤ p → eqb_ℤ q p ≡ false
apart p q h = ground (arith, +ℤ_parts q (pos 1))

module _ {Plc : Type 0} where
  store_one_other :
      (p v q : ℤ) (b : Buffer Plc) → q +ℤ pos 1 ≤ℤ p → (store_one p v b).samples q ≡ b.samples q
  unfolding store_one
  store_one_other p v q b h =
      if_both (λ (r : Buffer Plc). r.samples q ≡ b.samples q) (ltb_ℤ p b.cursor) refl
        (rw (apart p q h))

  store_one_early :
      (p v : ℤ) (b : Buffer Plc)
      → b.cursor ≤ℤ p
      → store_one p v b ≡ record b { samples = put p v b.samples }
  unfolding store_one
  store_one_early p v b h = rw (not_before p b.cursor h)

  store_before :
      (p q : ℤ) (pcm : List ℤ) (b : Buffer Plc)
      → q +ℤ pos 1 ≤ℤ p
      → (store p pcm b).samples q ≡ b.samples q
  unfolding store
  store_before p q [] b h = refl
  store_before p q (v ∷ pcm) b h =
      store_before (p +ℤ pos 1) q pcm (store_one p v b) (omega int_laws) ∙ store_one_other p v q b h

  -- Samples from the cursor on are stored as they are.
  store-slots :
      (p : ℤ) (pcm : List ℤ) (b : Buffer Plc)
      → b.cursor ≤ℤ p
      → Filled p (length pcm) (store p pcm b).samples
        × (slots p (length pcm) (store p pcm b).samples ≡ pcm)
        × ((store p pcm b).cursor ≡ b.cursor)
        × ((store p pcm b).plc ≡ b.plc)
  unfolding store
  store-slots p [] b h = (tt, refl, refl, refl)
  store-slots p (v ∷ pcm) b h =
      let b' = record b { samples = put p v b.samples } in
      let (filled, kept, cursor, plc) = store-slots (p +ℤ pos 1) pcm b' (omega int_laws) in
      let first : (store (p +ℤ pos 1) pcm b').samples p ≡ some v =
        store_before (p +ℤ pos 1) p pcm b' (omega int_laws) ∙ rw (eqb_self p) in
      rw (store_one_early p v b h, store)
        ((rw first, filled), rw first (ap (λ l. v ∷ l) kept), cursor, plc)

-- From `p` on the buffer holds exactly the samples of `pcm`, and playback has come to `c`.
abbrev Holds : {Plc : Type 0} → ℤ → List ℤ → ℤ → Plc → Buffer Plc → Type 0
Holds p pcm c plc b =
    Filled p (length pcm) b.samples
    × (slots p (length pcm) b.samples ≡ pcm)
    × (b.cursor ≡ c)
    × (b.plc ≡ plc)

length-slots : (p : ℤ) (n : ℕ) (m : Samples) → length (slots p n m) ≡ n
length-slots p zero m = refl
length-slots p (suc n) m = ap suc (length-slots (p +ℤ pos 1) n m)

abbrev made : ℕ → ℕ → ℕ → List ℤ → Packet
made seq ssrc ts pcm = record {
  sequence_number = seq;
  timestamp = ts;
  ssrc = ssrc;
  payload_type = 127;
  payload = encode_pcm16 pcm;
}

module _ {Plc : Type 0} (native : Native Plc) where
  -- A packet that starts at the cursor is no late one, and it fits: it is stored.
  accept_pcm-fresh :
      (now : ℤ) (pcm : List ℤ) (b : Buffer Plc)
      → b.position ≡ b.cursor
      → 0 < length pcm
      → length pcm ≤ b.cap_samples - 320
      → Holds b.position pcm b.cursor b.plc (accept_pcm native now pcm b)
  unfolding accept_pcm count_late make_room skip_ahead
  accept_pcm-fresh now pcm b here more fits =
      let end = b.position +ℤ pos (length pcm) in
      let ahead : leb_ℤ end b.cursor ≡ false =
        ground (arith, +ℤ_parts b.position (pos (length pcm))) in
      let near : ltb_ℤ (pos (b.cap_samples - 320)) (end -ℤ b.cursor) ≡ false =
        ground (arith, +ℤ_parts b.position (pos (length pcm)), -ℤ_parts end b.cursor) in
      let counted = record b { max_written = max_ℤ b.max_written end; late_run_samples = 0 } in
      rw (ahead, near) (store-slots b.position pcm counted (rw here (omega arith)))

  pull_runs-zero : (fuel : ℕ) (p : ℤ) (b : Buffer Plc) → pull_runs native fuel p 0 b ≡ ([], b)
  unfolding pull_runs
  pull_runs-zero zero p b = refl
  pull_runs-zero (suc fuel) p b = refl

  -- A frame without a gap passes the concealment as one run.
  pull_runs-Filled :
      (Steady : Plc → Type 0) (g : IsGentle native Steady) (n : ℕ) (p : ℤ) (b : Buffer Plc)
      → Steady b.plc
      → Filled p n b.samples
      → (pull_runs native n p n b).0 ≡ slots p n b.samples
  unfolding pull_runs conceal
  pull_runs-Filled Steady g zero p b s f = refl
  pull_runs-Filled Steady g (suc k) p b s f =
      let run = take_run true p (suc k) b.samples in
      let whole : run.0 ≡ slots p (suc k) b.samples = take_run-Filled p (suc k) b.samples f in
      let size : length run.0 ≡ suc k = ap length whole ∙ length-slots p (suc k) b.samples in
      let done : suc k - length run.0 ≡ 0 = omega (arith, size) in
      rw f.0 (rw (g.steady_receive b.plc run.0 s, done, pull_runs-zero) (append-nil _ ∙ whole))

  ingest_packet :
      (t : ℤ) (seq ssrc ts : ℕ) (pcm : List ℤ) (b : Buffer Plc) (p : Packet)
      → (ingest t seq ssrc ts pcm b).0 ≡ some p
      → (p.payload_type ≡ 127)
        × (p.payload ≡ encode_pcm16 pcm)
        × (b.closed ≡ false)
        × (0 < length pcm)
  unfolding ingest push
  ingest_packet t seq ssrc ts [] b p e = absurd (cc)
  ingest_packet t seq ssrc ts (v ∷ pcm) b p e = elim (Bool-cases b.closed) [
    | inl shut ↦ absurd (cc (rw shut at e))
    | inr live ↦
        let same : some (made seq ssrc ts (v ∷ pcm)) ≡ some p = rw live at e in
        let q : made seq ssrc ts (v ∷ pcm) ≡ p = cc in
        (sym (ap (λ r. r.payload_type) q), sym (ap (λ r. r.payload) q), live, omega arith)
  ]

  decode-encode :
      (pcm : List ℤ) (p : Packet)
      → p.payload_type ≡ 127
      → p.payload ≡ encode_pcm16 pcm
      → All IsInt16 pcm
      → decode native p ≡ some pcm
  unfolding decode
  decode-encode pcm p typ payload h = rw (typ, payload) (ap some (decode_pcm16-encode_pcm16 pcm h))

  -- `ingest` may set the time at which playback starts, and nothing else.
  ingest_keeps :
      (t : ℤ) (seq ssrc ts : ℕ) (pcm : List ℤ) (b : Buffer Plc)
      → b.closed ≡ false
      → (ready : Option ℤ) × ((ingest t seq ssrc ts pcm b).1 ≡ record b { ready_at = ready })
  unfolding ingest push
  ingest_keeps t seq ssrc ts [] b live = (b.ready_at, refl)
  ingest_keeps t seq ssrc ts (v ∷ pcm) b live =
      let opened = ap (λ (r : Option Packet × Buffer Plc). r.1) (if_false _ _ live) in
      elim (Bool-cases (is_some b.ready_at)) [
        | inl set ↦ (b.ready_at, opened ∙ if_true _ _ set)
        | inr unset ↦ (some (t +ℤ input_pcm_reserve), opened ∙ if_false _ _ unset)
      ]

  anchor_fields :
      (p : Packet) (s : ℕ) (b : Buffer Plc)
      → let a = anchor p (record b { ssrc = s }) in
        (a.position ≡ (anchor p b).position)
        × (a.cursor ≡ b.cursor)
        × (a.cap_samples ≡ b.cap_samples)
        × (a.plc ≡ b.plc)
  unfolding anchor
  anchor_fields p s b = elim (Bool-cases b.anchored) [
    | inl on ↦ (simp on, simp on, simp on, simp on)
    | inr off ↦ (simp off, simp off, simp off, simp off)
  ]

  anchor-ready :
      (p : Packet) (ready : Option ℤ) (b : Buffer Plc)
      → (anchor p (record b { ready_at = ready })).position ≡ (anchor p b).position
  unfolding anchor
  anchor-ready p ready b = elim (Bool-cases b.anchored) [ inl on ↦ simp on | inr off ↦ simp off ]

  -- The packet alone, taken by a live buffer.
  accept_packets-Holds :
      (e : ExtPacket) (pcm : List ℤ) (b : Buffer Plc)
      → b.closed ≡ false
      → decode native e.packet ≡ some pcm
      → 0 < length pcm
      → length pcm ≤ b.cap_samples - 320
      → (anchor e.packet b).position ≡ b.cursor
      → Holds b.cursor pcm b.cursor b.plc (accept_packets native (e ∷ []) b)
  unfolding accept_packets accept_each accept_packet accept_decoded phase
  accept_packets-Holds e pcm b live known more fits here =
      let seen = record b { ssrc = e.packet.ssrc } in
      let ready = phase e.received_at (anchor e.packet seen) in
      let (position, cursor, capacity, plc) = anchor_fields e.packet e.packet.ssrc b in
      let stands : ready.position ≡ b.cursor = position ∙ here in
      let (filled, kept, stays, same) =
        accept_pcm-fresh e.handled_at pcm ready (stands ∙ sym cursor) more (rw capacity fits) in
      let placed = accept_pcm native e.handled_at pcm ready in
      let taken : accept_packets native (e ∷ []) b ≡ placed = simp (live, known) in
      subst (λ r. Holds b.cursor pcm b.cursor b.plc r) (sym taken)
        (
          subst (λ c. Filled c (length pcm) placed.samples) stands filled,
          subst (λ c. slots c (length pcm) placed.samples ≡ pcm) stands kept,
          stays ∙ cursor,
          same ∙ plc,
        )

  -- Samples that `ingest` turns into a packet, which starts where playback stands and fits into the
  -- buffer, come out of the next frame that is due as they went in. Of SpanDSP it is supposed that it leaves
  -- samples alone that follow no gap, and that no gap is behind.
  pub pull_samples-accept_packets :
      (Steady : Plc → Type 0) (g : IsGentle native Steady) (t now : ℤ) (seq ssrc ts : ℕ)
      (pcm : List ℤ) (b : Buffer Plc) (e : ExtPacket)
      → (ingest t seq ssrc ts pcm b).0 ≡ some e.packet
      → All IsInt16 pcm
      → length pcm ≤ b.cap_samples - 320
      → Steady b.plc
      → (anchor e.packet b).position ≡ b.cursor
      → is_waiting now (accept_packets native (e ∷ []) (ingest t seq ssrc ts pcm b).1) ≡ false
      → (pull_samples native now
          (length pcm)
          (accept_packets native (e ∷ []) (ingest t seq ssrc ts pcm b).1)).0
        ≡ pcm
  unfolding pull_samples
  pull_samples-accept_packets Steady g t now seq ssrc ts pcm b e sent values fits steady here due =
      let (typ, payload, live, more) = ingest_packet t seq ssrc ts pcm b e.packet sent in
      let (ready, entered) = ingest_keeps t seq ssrc ts pcm b live in
      let known = decode-encode pcm e.packet typ payload values in
      let b' = record b { ready_at = ready } in
      let taken = accept_packets native (e ∷ []) b' in
      let (filled, kept, stays, same) =
        accept_packets-Holds e pcm b' live known more fits (anchor-ready e.packet ready b ∙ here) in
      let whole : (pull_runs native (length pcm) b.cursor (length pcm) taken).0 ≡ pcm =
        pull_runs-Filled Steady g (length pcm) b.cursor taken (subst Steady (sym same) steady)
          filled
        ∙ kept in
      let n = length pcm in
      ap (λ (r : List ℤ × Buffer Plc). r.0) (if_false _ _ due)
      ∙ ap
          (λ (r : Buffer Plc).
            let r' = accept_packets native (e ∷ []) r in (pull_runs native n r'.cursor n r').0)
          entered
      ∙ ap (λ c. (pull_runs native n c n taken).0) stays
      ∙ whole
