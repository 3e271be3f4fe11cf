-- ===== src/Media/Playout/Playing.antt =====
-- `pullSamplesLocked` and `pullFrame` of layers/media/playout_buffer.go: the frames that a playout buffer gives.
use open_voip.Base.{
  ℕ, zero, suc, ◌+◌, ◌-◌, Bool, true, false, ◌&&◌, ◌||◌, not, Option, none, some, List, [], ◌∷◌,
  ◌++◌, length, is_some, if◌then◌else◌,
}
use open_voip.Base.Int.{ℤ, pos, ◌+ℤ◌, ltb_ℤ}
use open_voip.Media.Playout.{
  Buffer, Native, Samples, default_playout_cap, delete, mix_frame_samples,
}

abbrev pub value : Option ℤ → ℤ
value none = pos 0
value (some v) = v

-- The inner loop: the positions from `p` on, at most `k`, that are filled as the first one is.
unfoldable pub take_run : Bool → ℤ → ℕ → Samples → List ℤ × Samples
take_run present p zero m = ([], m)
take_run present p (suc k) m =
    let rest = take_run present (p +ℤ pos 1) k (delete p m) in
    if is_some (m p) && present || not (is_some (m p)) && not present
    then (value (m p) ∷ rest.0, rest.1)
    else ([], m)

unfoldable pub silence : ℕ → List ℤ
silence zero = []
silence (suc n) = pos 0 ∷ silence n

module _ {Plc : Type 0} where
  abbrev pub is_waiting : ℤ → Buffer Plc → Bool
  is_waiting now b =
      b.closed || not b.anchored || elim b.ready_at [ none ↦ false | some t ↦ ltb_ℤ now t ]

module _ {Plc : Type 0} (native : Native Plc) where
  open native use {new_plc, receive, fill, decode_ulaw, decode_alaw}

  -- What is done with a run: present samples pass the concealment, missing ones are filled in unless
  -- they lie too far behind the end of what was written.
  unfoldable pub conceal : Bool → ℤ → List ℤ → Buffer Plc → List ℤ × Buffer Plc
  conceal true p run b = ((receive b.plc run).0, record b { plc = (receive b.plc run).1 })
  conceal false p run b =
      if ltb_ℤ p (b.max_written +ℤ pos default_playout_cap)
      then (
        (fill b.plc run).0,
        record b { plc = (fill b.plc run).1; plc_samples = b.plc_samples + length run },
      )
      else (run, b)

  -- The outer loop over what is left of the frame, on fuel.
  unfoldable pub pull_runs : ℕ → ℤ → ℕ → Buffer Plc → List ℤ × Buffer Plc
  pull_runs zero p k b = ([], b)
  pull_runs (suc fuel) p zero b = ([], b)
  pull_runs (suc fuel) p (suc k) b =
      let present = is_some (b.samples p) in
      let run = take_run present p (suc k) b.samples in
      let done = conceal present p run.0 (record b { samples = run.1 }) in
      let rest = pull_runs fuel (p +ℤ pos (length run.0)) (suc k - length run.0) done.1 in
      (done.0 ++ rest.0, rest.1)

  -- `pullSamplesLocked`; each run takes one sample at least.
  unfoldable pub pull_samples : ℤ → ℕ → Buffer Plc → List ℤ × Buffer Plc
  pull_samples now n b =
      let pulled = pull_runs n b.cursor n b in
      if is_waiting now b
      then (silence n, b)
      else (pulled.0, record pulled.1 { cursor = b.cursor +ℤ pos n })

  -- `pullFrame`.
  pub pull_frame : ℤ → Buffer Plc → List ℤ × Buffer Plc
  pull_frame now b = pull_samples now mix_frame_samples b
