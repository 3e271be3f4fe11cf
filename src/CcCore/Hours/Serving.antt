-- ===== src/CcCore/Hours/Serving.antt =====
-- Service hours that `validateHours` accepts are windows of a day to `withinHoursFromSchedule`.
use mathlib.Core.Option.{some-injective}
use open_voip.Base.{
  String, ◌==◌, eq_iff, ◌≡◌, refl, subst, find, contains, if◌then◌else◌, Bool, Bool-cases, true,
  false, not, ◌||◌, ◌&&◌, inl, inr, Option, none, some, List, [], ◌∷◌, arith,
}
use open_voip.CcCore.{Library}
use open_voip.CcCore.Faults.{first_fault-none, guard-none, otherwise}
use open_voip.CcCore.Hours.{all_clocks, day_fault, days_fault, weekdays, window_fault}
use open_voip.Control.State.{Env, LocalTime}
use open_voip.Control.Hours.{found_or, in_window, text_lt, window_of, within_windows}

-- What a day of accepted hours says: nothing, closed all day, or open from one time to a later one.
pub data DayHours (lib : Library) (window : String) : Type 0 where
  unnamed : (window == "") ≡ true → DayHours lib window
  closed : (window == "closed") ≡ true → DayHours lib window
  open_from :
      (from to : String)
      → lib.split window "-" ≡ from ∷ to ∷ []
      → text_lt from to ≡ true
      → DayHours lib window

-- Open from the first time on, and before the second.
abbrev pub is_open : {lib : Library} {window : String} → DayHours lib window → String → Bool
is_open (unnamed _) clock = false
is_open (closed _) clock = false
is_open (open_from from to _ _) clock = not (text_lt clock from) && text_lt clock to

module _ (lib : Library) where
  window_parts :
      (parts : List String)
      → window_fault lib parts ≡ none
      → (from : String) × (to : String) × (parts ≡ from ∷ to ∷ []) × (text_lt from to ≡ true)
  unfolding window_fault
  window_parts [] h = absurd (cc h)
  window_parts (a ∷ []) h = absurd (cc h)
  window_parts (a ∷ b ∷ []) h =
      let clocks = (guard-none (not (all_clocks lib (a ∷ b ∷ []))) "工作时间须为 HH:MM" _).0 h in
      let order = (guard-none (not (text_lt a b)) "工作时间结束须晚于开始；跨日请拆分" none).0 clocks.1 in
      (a, b, refl, ground (arith, order.0))
  window_parts (a ∷ b ∷ x ∷ rest) h = absurd (cc h)

  -- A day's entry, where it is neither empty nor closed.
  day_window :
      (day window : String)
      → (day == "timezone") ≡ false
      → (window == "closed") ≡ false
      → day_fault lib day window ≡ none
      → window_fault lib (lib.split window "-") ≡ none
  unfolding day_fault
  day_window day window n c h =
      otherwise (day == "timezone") _ _ h (λ e. absurd cc)
        λ a h1.
          let dated =
            (guard-none (not (contains day weekdays || lib.is_date day)) "工作时间日期无效" _).0 h1 in
          otherwise (window == "closed") _ _ dated.1 (λ e. absurd cc) (λ b h2. h2)

  find_day :
      (hours : List (String × String)) (day window : String)
      → days_fault lib hours ≡ none
      → find day hours ≡ some window
      → day_fault lib day window ≡ none
  unfolding days_fault
  find_day [] day window h e = absurd (cc e)
  find_day ((j, w) ∷ rest) day window h e =
      let split = (first_fault-none (day_fault lib j w) (days_fault lib rest)).0 h in
      elim (Bool-cases (j == day)) [
        | inl same ↦
            let is_w : w ≡ window =
              some-injective _ _
                (subst (λ b. (if b then some w else find day rest) ≡ some window) same e) in
            subst (λ k. day_fault lib k window ≡ none) ((eq_iff j day).0 same)
              (subst (λ v. day_fault lib j v ≡ none) is_w split.0)
        | inr other ↦
            find_day rest day window split.1
              (subst (λ b. (if b then some w else find day rest) ≡ some window) other e)
      ]

-- The keys of a day are no time zone.
pub record IsDay (env : Env) (now : LocalTime) : Type 0 where
  pub date_key : (now.date == "timezone") ≡ false
  pub weekday_key : (now.weekday == "timezone") ≡ false
  pub number_key : (env.itoa now.weekday_number == "timezone") ≡ false

module _ (lib : Library) (hours : List (String × String))
    (accepted : days_fault lib hours ≡ none) where
  abbrev Proper : String → Type 0
  Proper w = (w == "") ≡ false → (w == "closed") ≡ false → window_fault lib (lib.split w "-") ≡ none

  Proper-found :
      (key : String) (o : Option String) (rest : String)
      → (key == "timezone") ≡ false
      → find key hours ≡ o
      → Proper rest
      → Proper (found_or o rest)
  Proper-found key none rest n e p = p
  Proper-found key (some w) rest n e p =
      λ named open'. day_window lib key w n open' (find_day lib hours key w accepted e)

  module _ (env : Env) (now : LocalTime) (day : IsDay env now) where
    Proper-window : Proper (window_of env now hours)
    unfolding window_of
    Proper-window = Proper-found now.date _ _ day.date_key refl (
        Proper-found now.weekday _ _ day.weekday_key refl (
          Proper-found (env.itoa now.weekday_number) _ "" day.number_key refl
            (λ named. absurd (cc named))))

    -- Hours that were accepted give every day a window that is missing, closed or from one time to a
    -- later one, and a call is served exactly if the clock has reached the first and not the second, as
    -- texts. The runtime splits texts as the validation does.
    pub accepted_hours_serve :
        env.split ≡ lib.split
        → (d : DayHours lib (window_of env now hours)) × (within_windows env now hours
            ≡ is_open d now.clock)
    unfolding within_windows in_window
    accepted_hours_serve same = elim (Bool-cases (window_of env now hours == "")) [
      | inl e ↦ (unnamed e, rw e refl)
      | inr named ↦ elim (Bool-cases (window_of env now hours == "closed")) [
        | inl e ↦ (closed e, rw (named, e) refl)
        | inr open' ↦
            let parts = window_parts lib _ (Proper-window named open') in
            (
              open_from parts.0 parts.1 parts.2 parts.3,
              (rw (named, open') (rw same (rw parts.2 refl))),
            )
      ]
    ]
