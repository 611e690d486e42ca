-- ===== src/Cluster/Clock/Reading.antt =====
-- What `microTime` of deploy/data/cluster-api.mjs prints, read back.
use cartyx_infrastructure.Base.{
  ℕ, ◌+◌, ◌-◌, ◌*◌, ◌/◌, ◌%◌, ◌≤◌, ◌<◌, ◌≡◌, Text, text, [], ◌∷◌, take, drop, arith, refl, sym,
  text_eq, ends_with, drop_last,
}
use cartyx_infrastructure.Cluster.Clock.{
  day_ms, two_digits, three_digits, four_digits, date_of_day, to_iso_string, micro_time,
}
use cartyx_infrastructure.Cluster.Clock.Calendar.{calendar}
use cartyx_infrastructure.Cluster.Clock.Dates.{
  month_length-cases, date_of_day-calendar, date_of_day-IsValid,
}

-- The number that decimal digits stand for, after those that were read.
abbrev pub number_after : ℕ → Text → ℕ
number_after n [] = n
number_after n (c ∷ s) = number_after (n * 10 + (c - b'0')) s

-- The number that stands in a text from a place on, with so many digits.
abbrev pub number_at : ℕ → ℕ → Text → ℕ
number_at place digits s = number_after 0 (take digits (drop place s))

year_bound : (n : ℕ) → n ≤ 2932896 → (date_of_day n).year ≤ 9999
unfolding date_of_day
year_bound n h = ground arith

two_digits_read : (n : ℕ) → n ≤ 99 → number_after 0 (two_digits n []) ≡ n
two_digits_read n h = omega arith

three_digits_read : (n : ℕ) → n ≤ 999 → number_after 0 (three_digits n []) ≡ n
three_digits_read n h = omega arith

four_digits_read : (n : ℕ) → n ≤ 9999 → number_after 0 (four_digits n []) ≡ n
four_digits_read n h = omega arith

time_of_day :
    (ms : ℕ)
    → ms % day_ms / 3600000 * 3600000
        + ms % 3600000 / 60000 * 60000
        + ms % 60000 / 1000 * 1000
        + ms % 1000
      ≡ ms % day_ms
time_of_day ms = omega arith

at_most : {d l : ℕ} → l ≤ 31 → d ≤ l → d ≤ 99
at_most h k = omega arith

-- Of a time in the years 1970 to 9999, `microTime` prints the year, the month and the day that counting
-- days by the Gregorian calendar gives, then hour, minute, second and millisecond of this day, and
-- three zeros for the microseconds.
pub micro_time-calendar :
    (ms : ℕ)
    → ms < 253402300800000
    → ((number_at 0 4 (micro_time ms) ≡ (calendar (ms / day_ms)).year)
        × (number_at 5 2 (micro_time ms) ≡ (calendar (ms / day_ms)).month)
        × (number_at 8 2 (micro_time ms) ≡ (calendar (ms / day_ms)).day))
      × ((number_at 11 2 (micro_time ms) * 3600000
            + number_at 14 2 (micro_time ms) * 60000
            + number_at 17 2 (micro_time ms) * 1000
            + number_at 20 3 (micro_time ms))
          ≡ ms % day_ms)
      × (drop 23 (micro_time ms) ≡ text "000Z")
unfolding micro_time to_iso_string ends_with drop_last text_eq text
micro_time-calendar ms h =
    let year : (date_of_day (ms / day_ms)).year ≤ 9999 = year_bound (ms / day_ms) (omega arith) in
    let (m1, m2, d1, d2) = date_of_day-IsValid (ms / day_ms) in
    let same = sym (date_of_day-calendar (ms / day_ms)) in
    let hour = two_digits_read (ms % day_ms / 3600000) (omega arith) in
    let minute = two_digits_read (ms % 3600000 / 60000) (omega arith) in
    let second = two_digits_read (ms % 60000 / 1000) (omega arith) in
    let rest = three_digits_read (ms % 1000) (omega arith) in
    (
      rw same (
        four_digits_read (date_of_day (ms / day_ms)).year year,
        two_digits_read (date_of_day (ms / day_ms)).month (omega arith),
        two_digits_read (date_of_day (ms / day_ms)).day (
            at_most
              (month_length-cases (date_of_day (ms / day_ms)).year
                (date_of_day (ms / day_ms)).month).1
              d2),
      ),
      rw (hour, minute, second, rest) (time_of_day ms),
      refl,
    )
