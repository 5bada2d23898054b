-- ===== src/Clock/Sessions.antt =====
-- app/clock/market_calendar.py: when `phase` says that the regular session is on, and that the days
-- from which the holidays are made are the weekdays that they are meant to be.
use sentry.Prelude.{
  ℕ, ◌+◌, ◌-◌, ◌*◌, sym, ◌∙◌, ◌≤◌, ◌<◌, ◌≡◌, ◌↔◌, refl, ap, inl, inr, Bool, true, false, none, some,
  List, [], ◌∷◌, ◌==◌, elem, Bool-cases, arith, if◌then◌else◌, Option-cases,
}
use sentry.Domain.Market.{Day}
use sentry.Clock.MarketCalendar.{
  Date, MarketPhase, weekday, is_regular_session, early_closes, time, close_among,
  regular_session_close, phase_among, phase, date, nth_weekday, observed, last_weekday,
  easter_sunday, holidays, ordinal,
}

-- The holidays of the published schedule, date by date.
abbrev pub published_holidays : ℕ → List Day
published_holidays year =
    if year == 2026
    then date 2026 1 19
      ∷ date 2026 2 16
      ∷ date 2026 4 3
      ∷ date 2026 5 25
      ∷ date 2026 7 3
      ∷ date 2026 9 7
      ∷ date 2026 11 26
      ∷ date 2026 12 25
      ∷ date 2026 1 1
      ∷ date 2026 6 19
      ∷ []
    else if year == 2027
    then date 2027 1 18
      ∷ date 2027 2 15
      ∷ date 2027 3 26
      ∷ date 2027 5 31
      ∷ date 2027 7 5
      ∷ date 2027 9 6
      ∷ date 2027 11 25
      ∷ date 2027 12 24
      ∷ date 2027 1 1
      ∷ date 2027 6 18
      ∷ []
    else date 2028 1 17
      ∷ date 2028 2 21
      ∷ date 2028 4 14
      ∷ date 2028 5 29
      ∷ date 2028 7 4
      ∷ date 2028 9 4
      ∷ date 2028 11 23
      ∷ date 2028 12 25
      ∷ date 2028 6 19
      ∷ []

-- The early closes of the published schedule.
abbrev pub published_early : ℕ → List Day
published_early year =
    if year == 2026
    then date 2026 11 27 ∷ date 2026 12 24 ∷ []
    else if year == 2027
    then date 2027 11 26 ∷ []
    else date 2028 7 3 ∷ date 2028 11 24 ∷ []

-- The regular session is on, by the published schedule.
pub record IsRegular (d : Date) (value : ℕ) : Type 0 where
  pub from_2026 : 2026 ≤ d.year
  pub to_2028 : d.year ≤ 2028
  pub weekday : weekday (ordinal d) < 5
  pub no_holiday : elem (ordinal d) (published_holidays d.year) ≡ false
  pub opened : time 9 30 ≤ value
  pub before_close :
      value < (if elem (ordinal d) (published_early d.year) then time 13 0 else time 16 0)

holidays_2026 : holidays 2026 ≡ published_holidays 2026
unfolding holidays nth_weekday last_weekday easter_sunday observed date
holidays_2026 = refl

holidays_2027 : holidays 2027 ≡ published_holidays 2027
unfolding holidays nth_weekday last_weekday easter_sunday observed date
holidays_2027 = refl

holidays_2028 : holidays 2028 ≡ published_holidays 2028
unfolding holidays nth_weekday last_weekday easter_sunday observed date
holidays_2028 = refl

-- A verified year, with its early closes.
abbrev IsVerified : ℕ → List Day → Type 0
IsVerified year early =
    (2026 ≤ year)
    × (year ≤ 2028)
    × (early ≡ published_early year)
    × (holidays year ≡ published_holidays year)

same_year : (y z : ℕ) → (y == z) ≡ true → y ≡ z
same_year y z h = ground arith

schedule_2026 : (early : List Day) → early_closes 2026 ≡ some early → IsVerified 2026 early
unfolding early_closes
schedule_2026 early e = (omega arith, omega arith, cc (e), holidays_2026)

schedule_2027 : (early : List Day) → early_closes 2027 ≡ some early → IsVerified 2027 early
unfolding early_closes
schedule_2027 early e = (omega arith, omega arith, cc (e), holidays_2027)

schedule_2028 : (early : List Day) → early_closes 2028 ≡ some early → IsVerified 2028 early
unfolding early_closes
schedule_2028 early e = (omega arith, omega arith, cc (e), holidays_2028)

unverified :
    (year : ℕ)
    → (year == 2026) ≡ false
    → (year == 2027) ≡ false
    → (year == 2028) ≡ false
    → early_closes year ≡ none
unfolding early_closes
unverified year a b c = rw (a, b, c, if◌then◌else◌) refl

schedule_year :
    (year : ℕ) (early : List Day) → early_closes year ≡ some early → IsVerified year early
schedule_year year early e = elim (Bool-cases (year == 2026)) [
  | inl a ↦ let same = same_year year 2026 a in rw same (schedule_2026 early (rw same at e))
  | inr a ↦ elim (Bool-cases (year == 2027)) [
    | inl b ↦ let same = same_year year 2027 b in rw same (schedule_2027 early (rw same at e))
    | inr b ↦ elim (Bool-cases (year == 2028)) [
      | inl c ↦ let same = same_year year 2028 c in rw same (schedule_2028 early (rw same at e))
      | inr c ↦ absurd (cc (e, unverified year a b c))
    ]
  ]
]

year_verified :
    (year : ℕ) → 2026 ≤ year → year ≤ 2028 → (early : List Day) × (early_closes year ≡ some early)
unfolding early_closes
year_verified year h k = elim (Option-cases (early_closes year)) [
  | inl e ↦ absurd (ground arith)
  | inr found ↦ found
]

module _ (d : Date) (value : ℕ) (early : List Day)
    (verified : early_closes d.year ≡ some early) where
  -- The session is on by the early closes of the year.
  abbrev IsOn : Type 0
  IsOn = (is_regular_session d ≡ true) × (time 9 30 ≤ value) × (value < close_among d early)

  session_close :
      (session : Bool)
      → is_regular_session d ≡ session
      → regular_session_close d ≡ some (if session then some (close_among d early) else none)
  unfolding regular_session_close
  session_close session e = rw (verified, regular_session_close, e) refl

  phase_among-regular : phase_among early d value ≡ some MarketPhase.regular → IsOn
  unfolding phase_among is_regular_session
  phase_among-regular e = elim (Bool-cases (is_regular_session d)) [
    | inl on ↦
        let seen = rw (session_close true on) at e in
        (on, ground (arith, seen), ground (arith, seen))
    | inr off ↦ let seen = rw (session_close false off) at e in absurd (ground (arith, seen))
  ]

  regular-phase_among : IsOn → phase_among early d value ≡ some MarketPhase.regular
  unfolding phase_among is_regular_session
  regular-phase_among h = rw (session_close true h.0) (ground arith)

  IsOn-IsRegular : IsOn → IsRegular d value
  unfolding is_regular_session
  IsOn-IsRegular h =
      let (from, to, same, published) = schedule_year d.year early verified in
      record {
        from_2026 = from;
        to_2028 = to;
        weekday = ground arith;
        no_holiday = ap (elem (ordinal d)) (sym published) ∙ ground arith;
        opened = h.1;
        before_close = rw (sym same) h.2;
      }

  IsRegular-IsOn : IsRegular d value → IsOn
  unfolding is_regular_session
  IsRegular-IsOn h =
      let (from, to, same, published) = schedule_year d.year early verified in
      let open_day : elem (ordinal d) (holidays d.year) ≡ false =
        ap (elem (ordinal d)) published ∙ h.no_holiday in
      let week = h.weekday in (ground arith, h.opened, rw same h.before_close)

  phase-regular_of : IsOn → phase d value ≡ some MarketPhase.regular
  unfolding phase
  phase-regular_of h = rw (verified, phase) (regular-phase_among h)

  close_of : IsOn → regular_session_close d ≡ some (some (close_among d early))
  close_of h = session_close true h.0

  IsOn_before :
      (close : ℕ)
      → regular_session_close d ≡ some (some close)
      → time 9 30 ≤ value
      → value < close
      → IsOn
  IsOn_before close e from to = elim (Bool-cases (is_regular_session d)) [
    | inl on ↦
        let same : close ≡ close_among d early = cc (e, session_close true on) in
        (on, from, rw (sym same) to)
    | inr off ↦ absurd (cc (e, session_close false off))
  ]

module _ (d : Date) (value : ℕ) where
  -- The day is in a verified year, and the session is on.
  abbrev IsVerifiedOn : Type 0
  IsVerifiedOn =
      (early : List Day) × (verified : early_closes d.year ≡ some early) × IsOn d value early
        verified

  phase-IsVerifiedOn : phase d value ≡ some MarketPhase.regular → IsVerifiedOn
  unfolding phase
  phase-IsVerifiedOn e = elim (Option-cases (early_closes d.year)) [
    | inl none_known ↦ absurd (cc (rw (none_known, phase) at e))
    | inr (early, verified) ↦
        (early, verified, phase_among-regular d value early verified (rw (verified, phase) at e))
  ]

  closed-IsVerifiedOn :
      (close : ℕ)
      → regular_session_close d ≡ some (some close)
      → time 9 30 ≤ value
      → value < close
      → IsVerifiedOn
  unfolding regular_session_close
  closed-IsVerifiedOn close e from to = elim (Option-cases (early_closes d.year)) [
    | inl none_known ↦ absurd (cc (rw (none_known, regular_session_close) at e))
    | inr (early, verified) ↦ (early, verified, IsOn_before d value early verified close e from to)
  ]

-- `phase` says REGULAR exactly on a weekday of 2026 to 2028 that the published schedule does not list as
-- a holiday, from 9:30 and before 13:00 where it lists an early close, before 16:00 otherwise; and
-- exactly where `regular_session_close` gives a close of the day and the time is from 9:30 and before
-- that close.
pub phase-regular :
    (d : Date) (value : ℕ)
    → ((phase d value ≡ some MarketPhase.regular) ↔ IsRegular d value)
      × ((phase d value ≡ some MarketPhase.regular) ↔ (
          (close : ℕ) × (regular_session_close d ≡ some (some close))
          × (time 9 30 ≤ value)
          × (value < close)))
phase-regular d value = (
  (
    λ e. let on = phase-IsVerifiedOn d value e in IsOn-IsRegular d value on.0 on.1 on.2,
    λ h.
        let known = year_verified d.year h.from_2026 h.to_2028 in
        phase-regular_of d value known.0 known.1 (IsRegular-IsOn d value known.0 known.1 h),
  ),
  (
    λ e.
        let on = phase-IsVerifiedOn d value e in
        (close_among d on.0, close_of d value on.0 on.1 on.2, on.2.1, on.2.2),
    λ h.
        let on = closed-IsVerifiedOn d value h.0 h.1 h.2 h.3 in
        phase-regular_of d value on.0 on.1 on.2,
  ),
)

-- The n-th weekday of a month is that weekday, in the n-th seven days of the month.
nth_weekday-IsNth :
    (year month wanted n : ℕ)
    → wanted < 7
    → 1 ≤ n
    → (weekday (nth_weekday year month wanted n) ≡ wanted)
      × (date year month 1 + 7 * (n - 1) ≤ nth_weekday year month wanted n)
      × (nth_weekday year month wanted n < date year month 1 + 7 * n)
unfolding nth_weekday
nth_weekday-IsNth year month wanted n h k = (omega arith, omega arith, omega arith)

-- A holiday is observed on a weekday, at most one day away.
observed-weekday :
    (day : Day)
    → 1 ≤ day
    → (weekday (observed day) < 5) × (day ≤ observed day + 1) × (observed day ≤ day + 1)
unfolding observed
observed-weekday day h = (ground arith, ground arith, ground arith)
