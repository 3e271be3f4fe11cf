-- ===== src/Control/Hours.antt =====
-- Service hours: `withinHoursFromSchedule` of control/ivr_hours.go.
use Prim.Native.String.{compare as text_compare}
use Prim.Native.Nat.{Ordering}
use open_voip.Base.{
  String, ◌==◌, if◌then◌else◌, find, Bool, true, false, not, ◌||◌, ◌&&◌, Option, none, some, List,
  [], ◌∷◌,
}
use open_voip.Control.State.{Effect, Env, LocalTime}

-- `<` and `>=` of Go's strings.
abbrev pub text_lt : String → String → Bool
text_lt s t = elim (text_compare s t) [ Ordering.lt ↦ true | _ ↦ false ]

-- `m[key]`, with the zero value for a key that is not there.
abbrev pub value_of : String → List (String × String) → String
value_of key m = elim (find key m) [ none ↦ "" | some v ↦ v ]

-- The current time lies in the window `from-to`, its end excluded.
unfoldable pub in_window : String → List String → Bool
in_window cur (from ∷ to ∷ []) = not (text_lt cur from) && text_lt cur to
in_window cur _ = false

-- `m[key]`, else the value that was found before.
abbrev pub found_or : Option String → String → String
found_or none otherwise = otherwise
found_or (some window) otherwise = window

module _ (env : Env) where
  -- The window of a day: a date's own, else the weekday's by its name, else by its number.
  unfoldable pub window_of : LocalTime → List (String × String) → String
  window_of now m =
      found_or (find now.date m)
        (found_or (find now.weekday m) (found_or (find (env.itoa now.weekday_number) m) ""))

  unfoldable pub within_windows : LocalTime → List (String × String) → Bool
  unfolding in_window window_of
  within_windows now m =
      if window_of now m == "" || window_of now m == "closed"
      then false
      else in_window now.clock (env.split (window_of now m) "-")

  unfoldable pub within_hours : List Effect → String → Bool
  unfolding within_windows
  within_hours l raw =
      let schedule = env.trim_space raw in
      if schedule == "" || schedule == "always" then true else elim (env.parse_schedule schedule) [
        | none ↦ false
        | some m ↦ within_windows (env.local_time l (value_of "timezone" m)) m
      ]
