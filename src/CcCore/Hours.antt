-- ===== src/CcCore/Hours.antt =====
-- `validateHours` of cccore/ivr_validation.go. It goes through a Go map, in no fixed order: with several
-- faults it may report another one than the model.
pub mod Serving
use open_voip.Base.{
  String, ◌==◌, if◌then◌else◌, contains, Bool, true, false, not, ◌||◌, ◌&&◌, Option, none, some,
  List, [], ◌∷◌,
}
use open_voip.CcCore.Faults.{fault, first_fault}
use open_voip.Errs.{ApiError, invalid_request_error}
use open_voip.Control.Hours.{text_lt}
use open_voip.CcCore.{Library}

abbrev pub weekdays : List String
weekdays =
    "mon" ∷ "tue" ∷ "wed" ∷ "thu" ∷ "fri" ∷ "sat" ∷ "sun" ∷ "0" ∷ "1" ∷ "2" ∷ "3" ∷ "4" ∷ "5" ∷ "6"
    ∷ []

module _ (lib : Library) where
  unfoldable pub all_clocks : List String → Bool
  all_clocks [] = true
  all_clocks (p ∷ ps) = lib.is_clock p && all_clocks ps

  unfoldable pub window_fault : List String → Option ApiError
  window_fault (from ∷ to ∷ []) =
      if not (all_clocks (from ∷ to ∷ []))
      then fault "工作时间须为 HH:MM"
      else if not (text_lt from to)
      then fault "工作时间结束须晚于开始；跨日请拆分"
      else none
  window_fault _ = fault "工作时间窗口无效"

  unfoldable pub day_fault : String → String → Option ApiError
  day_fault day window =
      if day == "timezone"
      then (if lib.is_zone window then none else fault "工作时间时区无效")
      else if not (contains day weekdays || lib.is_date day)
      then fault "工作时间日期无效"
      else if window == "closed"
      then none
      else window_fault (lib.split window "-")

  unfoldable pub days_fault : List (String × String) → Option ApiError
  days_fault [] = none
  days_fault ((day, window) ∷ rest) = first_fault (day_fault day window) (days_fault rest)

  abbrev pub schedule_fault : Option (List (String × String)) → Option ApiError
  schedule_fault none = fault "工作时间必须为 weekday → HH:MM-HH:MM 的映射"
  schedule_fault (some hours) = days_fault hours

  unfoldable pub hours_fault : String → Option ApiError
  hours_fault raw = if raw == "always" then none else schedule_fault (lib.parse_schedule raw)
