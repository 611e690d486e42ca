-- ===== src/Cluster/Clock/MicroTime.antt =====
-- The form of a Lease's `MicroTime`.
use cartyx_infrastructure.Base.{
  ℕ, text, ◌++◌, ◌≡◌, refl, length, take, drop, ends_with, drop_last, text_eq,
}
use cartyx_infrastructure.Cluster.Clock.{date_of_day, to_iso_string, micro_time}

-- `microTime` gives the date to the millisecond with three zeros more, so that six digits stand between
-- the point and the `Z`, 27 characters in all.
pub micro_time_has_six_digits :
    (ms : ℕ)
    → (micro_time ms ≡ take 23 (to_iso_string ms) ++ text "000Z")
      × (length (micro_time ms) ≡ 27)
      × (take 1 (drop 19 (micro_time ms)) ≡ text ".")
unfolding micro_time to_iso_string date_of_day ends_with drop_last text_eq text
micro_time_has_six_digits ms = (refl, refl, refl)
