-- ===== src/Media/Playout/Pulling.antt =====
-- What `pullSamplesLocked` takes out of the buffer, against the stored samples read one by one.
use mathlib.Core.Path.{◌≡⟨◌⟩◌, ◌∎}
use open_voip.Base.{
  ℕ, zero, suc, ◌+◌, ◌-◌, ◌<◌, ◌≤◌, ◌≡◌, ◌∙◌, sym, refl, ap, subst, fun_ext, Bool, true, false,
  ◌&&◌, ◌||◌, not, Option, none, List, [], ◌∷◌, Bool-cases, if_both, inl, inr, is_some, length,
  length-append, if◌then◌else◌, arith,
}
use open_voip.Base.Int.{ℤ, pos, ◌+ℤ◌, ◌≤ℤ◌, ltb_ℤ, eqb_ℤ, leb_ℤ, +ℤ_parts, int_laws}
use open_voip.Media.Playout.{Buffer, Native, Samples, delete, default_playout_cap}
use open_voip.Media.Playout.Playing.{
  conceal, pull_runs, pull_samples, take_run, value, is_waiting, silence,
}

-- The samples at `n` positions from `p` on, a missing one as zero.
abbrev pub slots : ℤ → ℕ → Samples → List ℤ
slots p zero m = []
slots p (suc n) m = value (m p) ∷ slots (p +ℤ pos 1) n m

-- All `n` positions from `p` on are filled.
abbrev pub Filled : ℤ → ℕ → Samples → Type 0
Filled p zero m = Unit
Filled p (suc n) m = (is_some (m p) ≡ true) × Filled (p +ℤ pos 1) n m

-- A position is one of the `n` from `p` on.
abbrev pub inside : ℤ → ℕ → ℤ → Bool
inside p n q = leb_ℤ p q && ltb_ℤ q (p +ℤ pos n)

-- What is stored without the `n` positions from `p` on.
abbrev pub cut : ℤ → ℕ → Samples → Samples
cut p n m q = if inside p n q then none else m q

inside-zero : (p q : ℤ) → inside p 0 q ≡ false
inside-zero p q = ground (arith, +ℤ_parts p (pos 0))

inside-add : (p q : ℤ) (a b : ℕ) → inside p (a + b) q ≡ (inside (p +ℤ pos a) b q || inside p a q)
inside-add p q a b =
    ground (arith, +ℤ_parts p (pos a), +ℤ_parts (p +ℤ pos a) (pos b), +ℤ_parts p (pos (a + b)))

inside-one : (p q : ℤ) → inside p 1 q ≡ eqb_ℤ q p
inside-one p q = ground (arith, +ℤ_parts p (pos 1))

inside_before : (p q : ℤ) (n : ℕ) → q +ℤ pos 1 ≤ℤ p → inside p n q ≡ false
inside_before p q n h = ground (arith, +ℤ_parts q (pos 1))

inside_after : (p q : ℤ) (n : ℕ) → p +ℤ pos n ≤ℤ q → inside p n q ≡ false
inside_after p q n h = ground arith

cut-zero : (p : ℤ) (m : Samples) → cut p 0 m ≡ m
cut-zero p m = fun_ext λ q. rw (inside-zero p q)

either :
    (s t : Bool) (o : Option ℤ)
    → (if s || t then none else o) ≡ (if s then none else if t then none else o)
either true t o = refl
either false t o = refl

cut-cut : (p : ℤ) (a b : ℕ) (m : Samples) → cut p (a + b) m ≡ cut (p +ℤ pos a) b (cut p a m)
cut-cut p a b m =
    fun_ext λ q. rw (inside-add p q a b) (either (inside (p +ℤ pos a) b q) (inside p a q) (m q))

cut-one : (p : ℤ) (m : Samples) → cut p 1 m ≡ delete p m
cut-one p m = fun_ext λ q. rw (inside-one p q)

cut-delete : (p : ℤ) (n : ℕ) (m : Samples) → cut p (suc n) m ≡ cut (p +ℤ pos 1) n (delete p m)
cut-delete p n m =
    cut p (suc n) m
    ≡⟨ ap (λ k. cut p k m) (omega arith) ⟩ cut p (1 + n) m
    ≡⟨ cut-cut p 1 n m ⟩ cut (p +ℤ pos 1) n (cut p 1 m)
    ≡⟨ ap (cut (p +ℤ pos 1) n) (cut-one p m) ⟩ cut (p +ℤ pos 1) n (delete p m) ∎

-- A run: how long it is at most, and what it leaves.
take_run-cut :
    (present : Bool) (p : ℤ) (k : ℕ) (m : Samples)
    → (length (take_run present p k m).0 ≤ k)
      × ((take_run present p k m).1 ≡ cut p (length (take_run present p k m).0) m)
unfolding take_run
take_run-cut present p zero m = (omega arith, sym (cut-zero p m))
take_run-cut present p (suc k) m =
    let (short, rest) = take_run-cut present (p +ℤ pos 1) k (delete p m) in
    elim (Bool-cases (is_some (m p) && present || not (is_some (m p)) && not present)) [
      | inl same ↦ rw same (omega arith, rest ∙ sym (cut-delete p _ m))
      | inr other ↦ rw other (omega arith, sym (cut-zero p m))
    ]

-- The run at a position goes on for one sample at least.
take_run-first : (p : ℤ) (k : ℕ) (m : Samples) → 0 < length (take_run (is_some (m p)) p (suc k) m).0
unfolding take_run
take_run-first p k m = elim (Bool-cases (is_some (m p))) [
  | inl here ↦ rw here (omega arith)
  | inr gone ↦ rw gone (omega arith)
]

slots-cut :
    (p q : ℤ) (a n : ℕ) (m : Samples) → p +ℤ pos a ≤ℤ q → slots q n (cut p a m) ≡ slots q n m
slots-cut p q a zero m h = refl
slots-cut p q a (suc n) m h =
    let rest = slots-cut p (q +ℤ pos 1) a n m (omega int_laws) in
    rw (inside_after p q a h) (ap (λ l. value (m q) ∷ l) rest)

Filled-cut :
    (p q : ℤ) (a n : ℕ) (m : Samples) → p +ℤ pos a ≤ℤ q → Filled q n m → Filled q n (cut p a m)
Filled-cut p q a zero m h f = tt
Filled-cut p q a (suc n) m h f =
    (rw (inside_after p q a h) f.0, Filled-cut p (q +ℤ pos 1) a n m (omega int_laws) f.1)

-- A run over filled positions takes them all.
pub take_run-Filled :
    (p : ℤ) (k : ℕ) (m : Samples) → Filled p k m → (take_run true p k m).0 ≡ slots p k m
unfolding take_run
take_run-Filled p zero m h = refl
take_run-Filled p (suc k) m h = rw h.0 (
    ap (λ l. value (m p) ∷ l)
      (subst (λ d. (take_run true (p +ℤ pos 1) k d).0 ≡ slots (p +ℤ pos 1) k m) (cut-one p m)
        (take_run-Filled (p +ℤ pos 1) k (cut p 1 m)
            (Filled-cut p (p +ℤ pos 1) 1 k m (omega int_laws) h.1)
          ∙ slots-cut p (p +ℤ pos 1) 1 k m (omega int_laws))))

-- SpanDSP writes over the samples that it is given: as many come back.
pub record IsInPlace {Plc : Type 0} (native : Native Plc) : Type 0 where
  pub length-receive : (c : Plc) (pcm : List ℤ) → length (native.receive c pcm).0 ≡ length pcm
  pub length-fill : (c : Plc) (pcm : List ℤ) → length (native.fill c pcm).0 ≡ length pcm

module _ {Plc : Type 0} (native : Native Plc) where
  -- Only the concealment and its count move.
  abbrev pub Stays : Buffer Plc → Buffer Plc → Type 0
  Stays b b' =
      (b'.samples ≡ b.samples) × (b'.max_written ≡ b.max_written) × (b'.cap_samples ≡ b.cap_samples)

  conceal-Stays :
      (present : Bool) (p : ℤ) (run : List ℤ) (b : Buffer Plc)
      → Stays b (conceal native present p run b).1
  unfolding conceal
  conceal-Stays true p run b = (refl, refl, refl)
  conceal-Stays false p run b =
      if_both (λ (r : List ℤ × Buffer Plc). Stays b r.1)
        (ltb_ℤ p (b.max_written +ℤ pos default_playout_cap)) (refl, refl, refl) (refl, refl, refl)

  length-conceal :
      (present : Bool) (p : ℤ) (run : List ℤ) (b : Buffer Plc)
      → IsInPlace native
      → length (conceal native present p run b).0 ≡ length run
  unfolding conceal
  length-conceal true p run b h = h.length-receive b.plc run
  length-conceal false p run b h =
      if_both (λ (r : List ℤ × Buffer Plc). length r.0 ≡ length run)
        (ltb_ℤ p (b.max_written +ℤ pos default_playout_cap)) (h.length-fill b.plc run) refl

  -- With fuel for each position the loop comes to the end of the frame.
  pull_runs-cut :
      (fuel : ℕ) (p : ℤ) (k : ℕ) (b : Buffer Plc)
      → IsInPlace native
      → k ≤ fuel
      → (length (pull_runs native fuel p k b).0 ≡ k)
        × ((pull_runs native fuel p k b).1.samples ≡ cut p k b.samples)
        × ((pull_runs native fuel p k b).1.max_written ≡ b.max_written)
        × ((pull_runs native fuel p k b).1.cap_samples ≡ b.cap_samples)
  unfolding pull_runs
  pull_runs-cut zero p zero b h enough = (refl, sym (cut-zero p b.samples), refl, refl)
  pull_runs-cut zero p (suc k) b h enough = absurd (omega arith)
  pull_runs-cut (suc fuel) p zero b h enough = (refl, sym (cut-zero p b.samples), refl, refl)
  pull_runs-cut (suc fuel) p (suc k) b h enough =
      let present = is_some (b.samples p) in
      let run = take_run present p (suc k) b.samples in
      let n = length run.0 in
      let taken = record b { samples = run.1 } in
      let done = conceal native present p run.0 taken in
      let (short, left) = take_run-cut present p (suc k) b.samples in
      let some_more = take_run-first p k b.samples in
      let stays = conceal-Stays present p run.0 taken in
      let ih = pull_runs-cut fuel (p +ℤ pos n) (suc k - n) done.1 h (omega arith) in
      let split : n + (suc k - n) ≡ suc k = omega arith in
      (
        omega (
          arith,
          length-append done.0 (pull_runs native fuel (p +ℤ pos n) (suc k - n) done.1).0,
          length-conceal present p run.0 taken h,
        ),
        ih.1
            ∙ ap (cut (p +ℤ pos n) (suc k - n)) (stays.0 ∙ left)
            ∙ sym (cut-cut p n (suc k - n) b.samples)
            ∙ ap (λ t. cut p t b.samples) split,
        ih.2 ∙ stays.1,
        ih.3 ∙ stays.2,
      )

  -- A frame that is due has `n` samples, and with it go exactly the `n` positions from the cursor on: what
  -- was stored there is no longer stored, all else is as before, and the cursor stands behind them.
  pub pull_samples_exact :
      (now : ℤ) (n : ℕ) (b : Buffer Plc)
      → IsInPlace native
      → is_waiting now b ≡ false
      → (length (pull_samples native now n b).0 ≡ n)
        × ((pull_samples native now n b).1.cursor ≡ b.cursor +ℤ pos n)
        × ((q : ℤ)
            → (pull_samples native now n b).1.samples q
              ≡ (if inside b.cursor n q then none else b.samples q))
  unfolding pull_samples
  pull_samples_exact now n b h due =
      let (size, left, written, capacity) = pull_runs-cut n b.cursor n b h (omega arith) in
      rw due (size, refl, λ q. ap (λ m. m q) left)

  -- Where the end of what was written and the capacity stay.
  pub pull_samples-Stays :
      (now : ℤ) (n : ℕ) (b : Buffer Plc)
      → IsInPlace native
      → ((pull_samples native now n b).1.max_written ≡ b.max_written)
        × ((pull_samples native now n b).1.cap_samples ≡ b.cap_samples)
  unfolding pull_samples
  pull_samples-Stays now n b h =
      let (size, left, written, capacity) = pull_runs-cut n b.cursor n b h (omega arith) in
      if_both
        (λ (r : List ℤ × Buffer Plc).
          (r.1.max_written ≡ b.max_written) × (r.1.cap_samples ≡ b.cap_samples))
        (is_waiting now b) (refl, refl) (written, capacity)

  -- Before playback is due a frame is silence, and nothing moves.
  pub is_waiting-pull_samples :
      (now : ℤ) (n : ℕ) (b : Buffer Plc)
      → is_waiting now b ≡ true
      → pull_samples native now n b ≡ (silence n, b)
  unfolding pull_samples
  is_waiting-pull_samples now n b early = simp early
