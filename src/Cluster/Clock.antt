-- ===== src/Cluster/Clock.antt =====
-- Dates as JavaScript prints them, and `microTime` of deploy/data/cluster-api.mjs.
pub mod MicroTime
pub mod Calendar
pub mod Years
pub mod Months
pub mod Dates
pub mod Reading
use cartyx_infrastructure.Base.{
  ℕ, ◌+◌, ◌-◌, ◌*◌, ◌/◌, ◌%◌, Text, [], ◌∷◌, ◌++◌, map, ◌==◌, ◌||◌, leb, if◌then◌else◌, ends_with,
  drop_last,
}

abbrev pub day_ms : ℕ
day_ms = 86400000

pub record Date : Type 0 where
  pub year : ℕ
  pub month : ℕ
  pub day : ℕ

-- The proleptic Gregorian date of a day counted from 1970-01-01, by eras of 400 years from March.
unfoldable pub date_of_day : ℕ → Date
date_of_day n =
    let z : ℕ = n + 719468 in
    let era : ℕ = z / 146097 in
    let doe : ℕ = z % 146097 in
    let yoe : ℕ = (doe - doe / 1460 + doe / 36524 - doe / 146096) / 365 in
    let doy : ℕ = doe - (365 * yoe + yoe / 4 - yoe / 100) in
    let mp : ℕ = (5 * doy + 2) / 153 in
    record {
      year = yoe + era * 400 + (if leb 10 mp then 1 else 0);
      month = if leb 10 mp then mp - 9 else mp + 3;
      day = doy - (153 * mp + 2) / 5 + 1;
    }

abbrev pub digit : ℕ → ℕ
digit n = b'0' + n % 10

abbrev pub two_digits : ℕ → Text → Text
two_digits n rest = digit (n / 10) ∷ digit n ∷ rest

abbrev pub three_digits : ℕ → Text → Text
three_digits n rest = digit (n / 100) ∷ two_digits n rest

abbrev pub four_digits : ℕ → Text → Text
four_digits n rest = digit (n / 1000) ∷ three_digits n rest

-- `new Date(ms).toISOString()`, for the years 1970 to 9999.
unfoldable pub to_iso_string : ℕ → Text
unfolding date_of_day
to_iso_string ms =
    let d = date_of_day (ms / day_ms) in
    four_digits d.year (
      b'-'
      ∷ two_digits d.month (
          b'-'
          ∷ two_digits d.day (
              b'T'
              ∷ two_digits (ms % day_ms / 3600000) (
                  b':'
                  ∷ two_digits (ms % 3600000 / 60000) (
                      b':'
                      ∷ two_digits (ms % 60000 / 1000)
                          (b'.' ∷ three_digits (ms % 1000) (b'Z' ∷ [])))))))

-- `microTime`: `date.toISOString().replace(/Z$/, '000Z')`
unfoldable pub micro_time : ℕ → Text
unfolding to_iso_string
micro_time ms =
    let iso = to_iso_string ms in
    if ends_with iso (b'Z' ∷ []) then drop_last 1 iso ++ (b'0' ∷ b'0' ∷ b'0' ∷ b'Z' ∷ []) else iso

abbrev pub dashed : ℕ → ℕ
dashed c = if c == b':' || c == b'.' then b'-' else c

-- `date.toISOString().replaceAll(/[:.]/g, '-')`
unfoldable pub file_stamp : ℕ → Text
unfolding to_iso_string
file_stamp ms = map dashed (to_iso_string ms)
