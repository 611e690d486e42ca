-- ===== src/Cluster/Clock/Years.antt =====
-- How the days of deploy/data/cluster-api.mjs's dates are counted within an era of 400 years.
use cartyx_infrastructure.Base.{ℕ, ◌+◌, ◌-◌, ◌*◌, ◌/◌, ◌≤◌, ◌<◌, ◌≡◌, arith}
use cartyx_infrastructure.Cluster.Clock.Calendar.{february}

-- A year of an era, and a day of this year.
abbrev pub yoe_of : ℕ → ℕ
yoe_of doe = (doe - doe / 1460 + doe / 36524 - doe / 146096) / 365

abbrev pub doy_of : ℕ → ℕ
doy_of doe = doe - (365 * yoe_of doe + yoe_of doe / 4 - yoe_of doe / 100)

-- The next day of an era is in the same year or begins the next.
pub doe_step :
    (doe : ℕ) → doe + 1 < 146097 → yoe_of (doe + 1) ≡ yoe_of doe → doy_of (doe + 1) ≡ doy_of doe + 1
doe_step doe h e = omega arith

pub doe_year :
    (doe : ℕ)
    → doe + 1 < 146097
    → yoe_of doe < yoe_of (doe + 1)
    → (yoe_of (doe + 1) ≡ yoe_of doe + 1) × (doy_of (doe + 1) ≡ 0)
doe_year doe h e = (omega arith, omega arith)

pub year_length :
    (doe : ℕ)
    → doe + 1 < 146097
    → yoe_of doe < yoe_of (doe + 1)
    → doy_of doe + 1 ≡ 337 + february (yoe_of doe + 1)
year_length doe h e = ground arith

pub year_room :
    (doe : ℕ)
    → doe + 1 < 146097
    → yoe_of (doe + 1) ≡ yoe_of doe
    → doy_of doe + 1 ≤ 336 + february (yoe_of doe + 1)
year_room doe h e = ground arith
