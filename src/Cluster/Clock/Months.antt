-- ===== src/Cluster/Clock/Months.antt =====
-- How deploy/data/cluster-api.mjs's dates go from month to month of a year that begins in March.
use cartyx_infrastructure.Base.{
  ℕ, ◌+◌, ◌-◌, ◌*◌, ◌/◌, ◌≤◌, ◌≡◌, leb, if◌then◌else◌, arith, refl, ◌∙◌,
}
use cartyx_infrastructure.Cluster.Clock.{Date}
use cartyx_infrastructure.Cluster.Clock.Calendar.{
  february, next_day, next_month, next_year, next_date,
}

abbrev pub year_at : ℕ → ℕ → ℕ
year_at y doy = y + (if leb 10 ((5 * doy + 2) / 153) then 1 else 0)

abbrev pub month_at : ℕ → ℕ
month_at doy =
    if leb 10 ((5 * doy + 2) / 153) then (5 * doy + 2) / 153 - 9 else (5 * doy + 2) / 153 + 3

abbrev pub day_at : ℕ → ℕ
day_at doy = doy - (153 * ((5 * doy + 2) / 153) + 2) / 5 + 1

pub day_within :
    (y doy : ℕ)
    → doy + 1 ≤ 336 + february (y + 1)
    → day_at (doy + 1) ≡ next_day (year_at y doy) (month_at doy) (day_at doy)
day_within y doy h = ground arith

pub month_within :
    (y doy : ℕ)
    → doy + 1 ≤ 336 + february (y + 1)
    → month_at (doy + 1) ≡ next_month (year_at y doy) (month_at doy) (day_at doy)
month_within y doy h = ground arith

pub year_within :
    (y doy : ℕ)
    → doy + 1 ≤ 336 + february (y + 1)
    → year_at y (doy + 1) ≡ next_year (year_at y doy) (month_at doy) (day_at doy)
year_within y doy h = ground arith

pub new_year :
    (y doy : ℕ)
    → doy + 1 ≡ 337 + february (y + 1)
    → (1 ≡ next_day (year_at y doy) (month_at doy) (day_at doy))
      × (3 ≡ next_month (year_at y doy) (month_at doy) (day_at doy))
      × (y + 1 ≡ next_year (year_at y doy) (month_at doy) (day_at doy))
new_year y doy h = (ground arith, ground arith, ground arith)

-- The date of a day of a year that begins in March.
abbrev pub civil : ℕ → ℕ → Date
civil y doy = record { year = year_at y doy; month = month_at doy; day = day_at doy }

abbrev pub date : ℕ → ℕ → ℕ → Date
date y m d = record { year = y; month = m; day = d }

pub Date-eq : {y y' m m' d d' : ℕ} → y ≡ y' → m ≡ m' → d ≡ d' → date y m d ≡ date y' m' d'
Date-eq ey em ed = rw (ey, em, ed) refl

pub civil_within :
    (y doy : ℕ) → doy + 1 ≤ 336 + february (y + 1) → civil y (doy + 1) ≡ next_date (civil y doy)
civil_within y doy h = Date-eq (year_within y doy h) (month_within y doy h) (day_within y doy h)

pub plus_zero : (n : ℕ) → n + 0 ≡ n
plus_zero n = omega arith

pub civil_new :
    (y doy : ℕ) → doy + 1 ≡ 337 + february (y + 1) → civil (y + 1) 0 ≡ next_date (civil y doy)
civil_new y doy h = let (d, m, y') = new_year y doy h in Date-eq (plus_zero (y + 1) ∙ y') m d

pub era_year : (y yoe era : ℕ) → y ≡ yoe + 1 → y + era * 400 ≡ yoe + era * 400 + 1
era_year y yoe era h = omega arith
