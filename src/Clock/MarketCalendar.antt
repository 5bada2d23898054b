-- ===== src/Clock/MarketCalendar.antt =====
-- app/clock/market_calendar.py: `UsEquityCalendar`. A day is its proleptic Gregorian ordinal, as in
-- Python's `date.toordinal`; a time of day is microseconds since midnight in New York.
use sentry.Prelude.{
  ℕ, ◌+◌, ◌-◌, ◌*◌, ◌/◌, ◌%◌, Bool, not, ◌&&◌, ◌||◌, Option, none, some, List, [], ◌∷◌, ◌++◌, ltb,
  leb, ◌==◌, if◌then◌else◌, elem,
}
use sentry.Domain.Market.{Day}

pub data MarketPhase : Type 0 where
  weekend holiday overnight pre_market regular post_market : MarketPhase

-- `date(year, month, day)`
pub record Date : Type 0 where
  pub year : ℕ
  pub month : ℕ
  pub day : ℕ

abbrev pub is_leap : ℕ → Bool
is_leap year = year % 4 == 0 && (not (year % 100 == 0) || year % 400 == 0)

abbrev pub days_before_year : ℕ → ℕ
days_before_year year = let y = year - 1 in y * 365 + y / 4 - y / 100 + y / 400

abbrev pub days_before_month : ℕ → ℕ
days_before_month month =
    if month == 1
    then 0
    else if month == 2
    then 31
    else if month == 3
    then 59
    else if month == 4
    then 90
    else if month == 5
    then 120
    else if month == 6
    then 151
    else if month == 7
    then 181
    else if month == 8
    then 212
    else if month == 9
    then 243
    else if month == 10
    then 273
    else if month == 11
    then 304
    else 334

-- `date(year, month, day).toordinal()`
unfoldable pub date : ℕ → ℕ → ℕ → Day
date year month day =
    days_before_year year
    + days_before_month month
    + (if is_leap year && ltb 2 month then 1 else 0)
    + day

unfoldable pub ordinal : Date → Day
unfolding date
ordinal d = date d.year d.month d.day

-- `day.weekday()`: Monday is 0.
abbrev pub weekday : Day → ℕ
weekday day = (day + 6) % 7

unfoldable pub observed : Day → Day
observed day = if weekday day == 5 then day - 1 else if weekday day == 6 then day + 1 else day

unfoldable pub nth_weekday : ℕ → ℕ → ℕ → ℕ → Day
nth_weekday year month wanted nth =
    let current = date year month 1 in current + (wanted + 7 - weekday current) % 7 + 7 * (nth - 1)

unfoldable pub last_weekday : ℕ → ℕ → ℕ → Day
last_weekday year month wanted =
    let current = (if month == 12 then date (year + 1) 1 1 else date year (month + 1) 1) - 1 in
    current - (weekday current + 7 - wanted) % 7

unfoldable pub easter_sunday : ℕ → Day
easter_sunday year =
    let a = year % 19 in
    let b = year / 100 in
    let c = year % 100 in
    let d = b / 4 in
    let e = b % 4 in
    let f = (b + 8) / 25 in
    let g = (b - f + 1) / 3 in
    let h = (19 * a + b - d - g + 15) % 30 in
    let i = c / 4 in
    let k = c % 4 in
    let ell = (32 + 2 * e + 2 * i - h - k) % 7 in
    let m = (a + 11 * h + 22 * ell) / 451 in
    date year ((h + ell + 114 - 7 * m) / 31) ((h + ell + 114 - 7 * m) % 31 + 1)

-- `day.year == year`
abbrev pub in_year : ℕ → Day → Bool
in_year year day = leb (date year 1 1) day && ltb day (date (year + 1) 1 1)

abbrev pub keep_year : ℕ → List Day → List Day
keep_year year [] = []
keep_year year (day ∷ days) =
    if in_year year day then day ∷ keep_year year days else keep_year year days

unfoldable pub holidays : ℕ → List Day
holidays year =
    let new_year = date year 1 1 in
    keep_year year (
      nth_weekday year 1 0 3
        ∷ nth_weekday year 2 0 3
        ∷ (easter_sunday year - 2)
        ∷ last_weekday year 5 0
        ∷ observed (date year 7 4)
        ∷ nth_weekday year 9 0 1
        ∷ nth_weekday year 11 3 4
        ∷ observed (date year 12 25)
        ∷ (if weekday new_year == 5 then [] else observed new_year ∷ [])
      ++ (if leb 2022 year then observed (date year 6 19) ∷ [] else []))

unfoldable pub is_regular_session : Date → Bool
is_regular_session d = ltb (weekday (ordinal d)) 5 && not (elem (ordinal d) (holidays d.year))

-- `_VERIFIED_EARLY_CLOSES.get(year)`; `none` is what `_require_verified_year` raises on.
unfoldable pub early_closes : ℕ → Option (List Day)
early_closes year =
    if year == 2026
    then some (date 2026 11 27 ∷ date 2026 12 24 ∷ [])
    else if year == 2027
    then some (date 2027 11 26 ∷ [])
    else if year == 2028
    then some (date 2028 7 3 ∷ date 2028 11 24 ∷ [])
    else none

-- `time(hour, minute)`
abbrev pub time : ℕ → ℕ → ℕ
time hour minute = (hour * 60 + minute) * 60000000

abbrev pub close_among : Date → List Day → ℕ
close_among d early = if elem (ordinal d) early then time 13 0 else time 16 0

-- `regular_session_close`: the outer `none` is the CalendarCoverageError, the inner one a closed day.
unfoldable pub regular_session_close : Date → Option (Option ℕ)
regular_session_close d = elim (early_closes d.year) [
  | none ↦ none
  | some early ↦ some (if is_regular_session d then some (close_among d early) else none)
]

-- `phase` from the opening on: the session's close, which the source asserts to be there, and then the
-- late close.
abbrev pub after_open : List Day → Date → ℕ → Option (Option ℕ) → Option MarketPhase
after_open early d value none = none
after_open early d value (some none) = none
after_open early d value (some (some close)) = some (
    if ltb value close
    then MarketPhase.regular
    else if ltb value (if elem (ordinal d) early then time 17 0 else time 20 0)
    then MarketPhase.post_market
    else MarketPhase.overnight)

-- `phase` at a local date and time of day, in a verified year with these early closes.
unfoldable pub phase_among : List Day → Date → ℕ → Option MarketPhase
phase_among early d value =
    let opened = after_open early d value (regular_session_close d) in
    if leb 5 (weekday (ordinal d))
    then some MarketPhase.weekend
    else if elem (ordinal d) (holidays d.year)
    then some MarketPhase.holiday
    else if ltb value (time 4 0)
    then some MarketPhase.overnight
    else if ltb value (time 9 30)
    then some MarketPhase.pre_market
    else opened

-- `none` is the CalendarCoverageError of `_require_verified_year`.
unfoldable pub phase : Date → ℕ → Option MarketPhase
phase d value = elim (early_closes d.year) [ none ↦ none | some early ↦ phase_among early d value ]
