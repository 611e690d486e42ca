-- ===== src/Cluster/Clock/Dates.antt =====
-- The dates of deploy/data/cluster-api.mjs are those of the Gregorian calendar.
use mathlib.Core.Path.{subst}
use cartyx_infrastructure.Base.{
  ℕ, ◌+◌, ◌*◌, ◌/◌, ◌%◌, ◌≤◌, ◌<◌, ◌≡◌, ltb, arith, refl, zero, suc, Bool-cases, ltb→lt, sym, ap,
  ◌∙◌, inl, inr, ◌⊎◌, false,
}
use cartyx_infrastructure.Cluster.Clock.{Date, date_of_day}
use cartyx_infrastructure.Cluster.Clock.Calendar.{
  february, month_length, next_day, next_month, next_year, next_date, calendar,
}
use cartyx_infrastructure.Cluster.Clock.Years.{
  yoe_of, doy_of, doe_step, doe_year, year_length, year_room,
}
use cartyx_infrastructure.Cluster.Clock.Months.{civil, civil_within, civil_new, era_year}

february_of_era : (yoe era : ℕ) → february (yoe + era * 400 + 1) ≡ february (yoe + 1)
february_of_era yoe era = ground arith

abbrev of_era : ℕ → ℕ → Date
of_era era doe = civil (yoe_of doe + era * 400) (doy_of doe)

civil-eq : {y y' doy doy' : ℕ} → y ≡ y' → doy ≡ doy' → civil y doy ≡ civil y' doy'
civil-eq ey ed = rw (ey, ed) refl

same_year :
    (doe : ℕ)
    → doe + 1 < 146097
    → ltb (yoe_of doe) (yoe_of (doe + 1)) ≡ false
    → yoe_of (doe + 1) ≡ yoe_of doe
same_year doe h b = ground arith

-- The next day of the same era.
era_within : (era doe : ℕ) → doe + 1 < 146097 → of_era era (doe + 1) ≡ next_date (of_era era doe)
era_within era doe h = elim (Bool-cases (ltb (yoe_of doe) (yoe_of (doe + 1)))) [
  | inl b ↦
      let lt : yoe_of doe < yoe_of (doe + 1) = ltb→lt (yoe_of doe) (yoe_of (doe + 1)) b in
      let (y, d) = doe_year doe h lt in
      civil-eq (era_year (yoe_of (doe + 1)) (yoe_of doe) era y) d
      ∙ civil_new (yoe_of doe + era * 400) (doy_of doe)
          (year_length doe h lt ∙ ap (λ f. 337 + f) (sym (february_of_era (yoe_of doe) era)))
  | inr b ↦
      let y : yoe_of (doe + 1) ≡ yoe_of doe = same_year doe h b in
      civil-eq (ap (λ t. t + era * 400) y) (doe_step doe h y)
      ∙ civil_within (yoe_of doe + era * 400) (doy_of doe) (
          subst (λ f. doy_of doe + 1 ≤ 336 + f) (sym (february_of_era (yoe_of doe) era))
            (year_room doe h y))
]

-- The first day of the next era.
era_new : (era : ℕ) → of_era (era + 1) 0 ≡ next_date (of_era era 146096)
era_new era =
    civil-eq {y = 0 + (era + 1) * 400} {y' = 399 + era * 400 + 1} {doy = 0} (omega arith) refl
    ∙ civil_new (399 + era * 400) 365 (ap (λ f. 337 + f) (sym (february_of_era 399 era)))

day_parts :
    (n : ℕ)
    → ((n + 719468) % 146097 + 1 < 146097
        × ((n + 1 + 719468) % 146097 ≡ (n + 719468) % 146097 + 1)
        × ((n + 1 + 719468) / 146097 ≡ (n + 719468) / 146097))
      ⊎ (((n + 719468) % 146097 ≡ 146096)
          × ((n + 1 + 719468) % 146097 ≡ 0)
          × ((n + 1 + 719468) / 146097 ≡ (n + 719468) / 146097 + 1))
day_parts n = elim (Bool-cases (ltb ((n + 719468) % 146097 + 1) 146097)) [
  | inl b ↦ inl (ltb→lt _ _ b, ground arith, ground arith)
  | inr b ↦ inr (ground arith, ground arith, ground arith)
]

suc_is_plus : (n : ℕ) → suc n ≡ n + 1
suc_is_plus n = omega arith

date_of_day-next : (n : ℕ) → date_of_day (n + 1) ≡ next_date (date_of_day n)
unfolding date_of_day
date_of_day-next n = elim (day_parts n) [
  | inl (h, doe, era) ↦
      parts-eq era doe ∙ era_within ((n + 719468) / 146097) ((n + 719468) % 146097) h
  | inr (last, first, era) ↦
      parts-eq era first
      ∙ era_new ((n + 719468) / 146097)
      ∙ ap (λ doe. next_date (of_era ((n + 719468) / 146097) doe)) (sym last)
]
  where
    parts-eq : {era era' doe doe' : ℕ} → era ≡ era' → doe ≡ doe' → of_era era doe ≡ of_era era' doe'
    parts-eq e e' = rw (e, e') refl

-- The date of each day is the one that counting the days from 1970-01-01 gives, by the lengths of the
-- months and the leap years of the Gregorian calendar.
pub date_of_day-calendar : (n : ℕ) → date_of_day n ≡ calendar n
unfolding calendar date_of_day
date_of_day-calendar zero = refl
date_of_day-calendar (suc n) =
    ap date_of_day (suc_is_plus n) ∙ date_of_day-next n ∙ ap next_date (date_of_day-calendar n)

-- A month of the year, and a day of this month.
abbrev pub IsValid : Date → Type 0
IsValid d = (1 ≤ d.month) × (d.month ≤ 12) × (1 ≤ d.day) × (d.day ≤ month_length d.year d.month)

pub month_length-cases : (y m : ℕ) → (28 ≤ month_length y m) × (month_length y m ≤ 31)
month_length-cases y m = (ground arith, ground arith)

-- Which of the two cases it is does not matter for the bounds.
next-cases :
    (y m d : ℕ)
    → ((d < month_length y m)
        × (next_day y m d ≡ d + 1)
        × (next_month y m d ≡ m)
        × (next_year y m d ≡ y))
      ⊎ ((next_day y m d ≡ 1) × ((next_month y m d ≡ 1) ⊎ ((next_month y m d ≡ m + 1) × (m < 12))))
next-cases y m d = elim (Bool-cases (ltb d (month_length y m))) [
  | inl h ↦ inl (ltb→lt d (month_length y m) h, rw h refl, rw h refl, rw h refl)
  | inr h ↦ inr (
    rw h refl,
    elim (Bool-cases (ltb m 12)) [
      | inl k ↦ inr (rw (h, k) refl, ltb→lt m 12 k)
      | inr k ↦ inl (rw (h, k) refl)
    ],
  )
]

next_date-IsValid : (d : Date) → IsValid d → IsValid (next_date d)
next_date-IsValid d (m1, m2, d1, d2) = elim (next-cases d.year d.month d.day) [
  | inl (room, day, month, year) ↦ rw (day, month, year) (m1, m2, omega arith, omega arith)
  | inr (day, next) ↦
      let (low, _) =
        month_length-cases (next_year d.year d.month d.day) (next_month d.year d.month d.day) in
      rw day (
        elim next [ inl e ↦ rw e (omega arith) | inr (e, _) ↦ rw e (omega arith) ],
        elim next [ inl e ↦ rw e (omega arith) | inr (e, lt) ↦ rw e (omega arith) ],
        omega arith,
        omega arith,
      )
]

calendar-IsValid : (n : ℕ) → IsValid (calendar n)
unfolding calendar
calendar-IsValid zero = (omega arith, omega arith, omega arith, omega arith)
calendar-IsValid (suc n) = next_date-IsValid (calendar n) (calendar-IsValid n)

-- Each day's date has a month from 1 to 12, and a day from 1 to the month's length in its year.
pub date_of_day-IsValid : (n : ℕ) → IsValid (date_of_day n)
date_of_day-IsValid n = subst IsValid (sym (date_of_day-calendar n)) (calendar-IsValid n)
