-- ===== src/Clock/Tests.antt =====
-- app/clock/market_calendar.py on the days of the published schedule.
use sentry.Prelude.{ℕ, ◌≤◌, ◌<◌, ◌≡◌, ◌↔◌, refl, some, [], ◌∷◌}
use sentry.Clock.MarketCalendar.{
  Date, MarketPhase, date, holidays, phase, easter_sunday, time, regular_session_close,
}
use sentry.Clock.Sessions.{IsRegular, phase-regular}

easter_2026 : easter_sunday 2026 ≡ date 2026 4 5
unfolding easter_sunday date
easter_2026 = refl

holidays_2028 :
    holidays 2028
    ≡ date 2028 1 17
      ∷ date 2028 2 21
      ∷ date 2028 4 14
      ∷ date 2028 5 29
      ∷ date 2028 7 4
      ∷ date 2028 9 4
      ∷ date 2028 11 23
      ∷ date 2028 12 25
      ∷ date 2028 6 19
      ∷ []
unfolding holidays date sentry.Clock.MarketCalendar.observed sentry.Clock.MarketCalendar.nth_weekday
    sentry.Clock.MarketCalendar.last_weekday easter_sunday
holidays_2028 = refl

-- The day after Thanksgiving, 2026.
abbrev early_friday : Date
early_friday = record { year = 2026; month = 11; day = 27 }

phase-regular_example :
    ((phase early_friday (time 12 59) ≡ some MarketPhase.regular)
      ↔ IsRegular early_friday (time 12 59))
    × ((phase early_friday (time 12 59) ≡ some MarketPhase.regular) ↔ (
        (close : ℕ) × (regular_session_close early_friday ≡ some (some close))
        × (time 9 30 ≤ time 12 59)
        × (time 12 59 < close)))
phase-regular_example = phase-regular early_friday (time 12 59)
