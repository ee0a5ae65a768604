-- ===== src/Massmail/Hours.antt =====
-- The business hours of the mailings (massmail/settings.py) and the wait for them
-- (`get_seconds_to_business_time`, massmail/utils/sendmassmail.py). A time is the number of seconds
-- since Monday began, on the clock of the site; parts of a second are left out.
use optima_management.Base.{
  ℕ, ◌+◌, ◌-◌, ◌*◌, ◌/◌, ◌%◌, ◌<◌, ◌≡◌, Bool, not, ◌&&◌, arith, ltb, leb, ◌==◌, if◌then◌else◌,
}

abbrev pub seconds_of_day : ℕ
seconds_of_day = 86400

abbrev pub week : ℕ
week = 604800

-- BUSINESS_TIME_START and BUSINESS_TIME_END, in seconds of the day.
abbrev pub business_time_start : ℕ
business_time_start = 30600

abbrev pub business_time_end : ℕ
business_time_end = 63000

-- `now.weekday()`
abbrev pub weekday : ℕ → ℕ
weekday now = now / seconds_of_day

-- `now.replace(hour=..., minute=...)` keeps the seconds.
unfoldable pub replace_time : ℕ → ℕ → ℕ
replace_time time now = weekday now * seconds_of_day + time + now % 60

-- The days to Monday, for Friday, Saturday and Sunday.
unfoldable pub days_off : ℕ → ℕ
days_off now = if leb 4 (weekday now) then 7 - weekday now else 0

unfoldable pub get_seconds_to_business_time : ℕ → ℕ
unfolding replace_time days_off
get_seconds_to_business_time now =
    let bt_start = replace_time business_time_start now + days_off now * seconds_of_day in
    let bt_end = replace_time business_time_end now + days_off now * seconds_of_day in
    if ltb now bt_start
    then bt_start - now
    else if ltb bt_end now
    then seconds_of_day + bt_start - now
    else 0

-- Monday to Thursday, from 8:30 to the last second of 17:30.
abbrev pub is_business_time : ℕ → Bool
is_business_time t =
    ltb (t / 86400) 4
    && (leb business_time_start (t % 86400) && ltb (t % 86400) (business_time_end + 60))

-- Thursday behind 17:30.
abbrev pub is_thursday_evening : ℕ → Bool
is_thursday_evening t = (t / 86400 == 3) && leb (business_time_end + 60) (t % 86400)

-- A thread that asks and sleeps for the answer wakes in the business hours of a Monday to Thursday
-- exactly where it did not ask on a Thursday evening.
pub get_seconds_to_business_time_lem :
    (now : ℕ)
    → now < week
    → is_business_time ((now + get_seconds_to_business_time now) % week)
      ≡ not (is_thursday_evening now)
unfolding get_seconds_to_business_time replace_time days_off
get_seconds_to_business_time_lem now h = ground arith
