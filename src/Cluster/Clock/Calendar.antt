-- ===== src/Cluster/Clock/Calendar.antt =====
-- The rules of the Gregorian calendar, against which deploy/data/cluster-api.mjs's dates are checked.
use cartyx_infrastructure.Base.{
  ℕ, ◌+◌, ◌%◌, ◌==◌, ◌&&◌, ◌||◌, not, Bool, ltb, if◌then◌else◌, zero, suc,
}
use cartyx_infrastructure.Cluster.Clock.{Date}

-- The rules of the calendar.
abbrev pub is_leap : ℕ → Bool
is_leap y = ((y % 4 == 0) && not (y % 100 == 0)) || (y % 400 == 0)

abbrev pub february : ℕ → ℕ
february y = if is_leap y then 29 else 28

abbrev pub month_length : ℕ → ℕ → ℕ
month_length y m =
    if m == 2 then february y else if (m == 4) || (m == 6) || (m == 9) || (m == 11) then 30 else 31

abbrev pub next_day : ℕ → ℕ → ℕ → ℕ
next_day y m d = if ltb d (month_length y m) then d + 1 else 1

abbrev pub next_month : ℕ → ℕ → ℕ → ℕ
next_month y m d = if ltb d (month_length y m) then m else if ltb m 12 then m + 1 else 1

abbrev pub next_year : ℕ → ℕ → ℕ → ℕ
next_year y m d = if ltb d (month_length y m) then y else if ltb m 12 then y else y + 1

-- The day after a date.
abbrev pub next_date : Date → Date
next_date d = record {
  year = next_year d.year d.month d.day;
  month = next_month d.year d.month d.day;
  day = next_day d.year d.month d.day;
}

-- The date of a day by counting from 1970-01-01.
unfoldable pub calendar : ℕ → Date
calendar zero = record { year = 1970; month = 1; day = 1 }
calendar (suc n) = next_date (calendar n)
