-- ===== src/Metrics/Printing.antt =====
-- The text that the exporter of deploy/data/backup-metrics.mjs prints, line by line.
use cartyx_infrastructure.Base.{
  ℕ, Text, text, List, [], ◌∷◌, ◌++◌, Bool, true, false, not, Option, none, some, ◌≡◌, refl,
  includes, if◌then◌else◌, decimal,
}
use cartyx_infrastructure.Script.{ok}
use cartyx_infrastructure.Cluster.Paths.{environments, paths, paths_in}
use cartyx_infrastructure.Metrics.{
  StatusData, exposition, thousandths, timestamp, number_or_zero, gauges, has_phase,
}

-- 1 in one of these phases, and else 0.
abbrev pub flag : List Text → Option Text → Text
flag phases phase = elim phase [
  | none ↦ text "0"
  | some p ↦ if includes phases p then text "1" else text "0"
]

-- A gauge, and what follows it.
abbrev pub metric : Text → Text → Text → Text → Text
metric head namespace value rest = head ++ (namespace ++ (text "\"} " ++ (value ++ rest)))

-- The text of the metrics, line by line.
abbrev pub page : Text → Text → Text → Text → Text → Text → Text → Text → Text
page namespace enabled success attempted failed busy bytes expiry =
    metric
      (text "# TYPE cartyx_data_backup_enabled gauge\ncartyx_data_backup_enabled{environment=\"")
      namespace enabled
      (metric
        (text
          "\n# TYPE cartyx_data_backup_last_success_timestamp_seconds gauge\ncartyx_data_backup_last_success_timestamp_seconds{environment=\"")
        namespace success
        (metric
          (text
            "\n# TYPE cartyx_data_backup_last_attempt_timestamp_seconds gauge\ncartyx_data_backup_last_attempt_timestamp_seconds{environment=\"")
          namespace attempted
          (metric
            (text
              "\n# TYPE cartyx_data_backup_failed gauge\ncartyx_data_backup_failed{environment=\"")
            namespace failed
            (metric
              (text
                "\n# TYPE cartyx_data_backup_in_progress gauge\ncartyx_data_backup_in_progress{environment=\"")
              namespace busy
              (metric
                (text
                  "\n# TYPE cartyx_data_backup_archive_bytes gauge\ncartyx_data_backup_archive_bytes{environment=\"")
                namespace bytes
                (metric
                  (text
                    "\n# TYPE cartyx_data_certificate_expiry_timestamp_seconds gauge\ncartyx_data_certificate_expiry_timestamp_seconds{environment=\"")
                  namespace expiry (text "\n")))))))

pub paths_accepted :
    (namespace : Text)
    → includes environments namespace ≡ true
    → paths namespace ≡ ok (paths_in namespace)
unfolding paths
paths_accepted namespace h = rw h refl

bit_text : (b : Bool) → decimal (if b then 1 else 0) ≡ (if b then text "1" else text "0")
unfolding decimal text
bit_text true = refl
bit_text false = refl

enabled_text : (b : Bool) → decimal (if not b then 1 else 0) ≡ (if b then text "0" else text "1")
unfolding decimal text
enabled_text true = refl
enabled_text false = refl

flag_text :
    (state : StatusData) (phases : List Text)
    → decimal (if has_phase state phases then 1 else 0) ≡ flag phases state.phase
flag_text state phases = go state.phase
  where
    go :
        (phase : Option Text)
        → decimal (if elim phase [ none ↦ false | some p ↦ includes phases p ] then 1 else 0)
          ≡ flag phases phase
    go none = bit_text false
    go (some p) = bit_text (includes phases p)

module _ (parse : Text → Option ℕ) (number : Text → Option Text) (namespace : Text) where
  -- What is printed of a state, a schedule and a certificate.
  abbrev pub page_of : StatusData → Bool → Text → Text
  page_of state suspended expires =
      page namespace (if suspended then text "0" else text "1")
        (thousandths (timestamp parse number state.last_success))
        (thousandths (timestamp parse number state.last_attempt))
        (flag (text "failed" ∷ text "recovered" ∷ []) state.phase)
        (flag (text "preparing" ∷ text "archiving" ∷ text "uploading" ∷ []) state.phase)
        (number_or_zero parse number state.bytes)
        (thousandths (timestamp parse number (some expires)))

  pub exposed :
      (state : StatusData) (suspended : Bool) (expires : Text)
      → exposition namespace (gauges parse number state suspended expires)
        ≡ page_of state suspended expires
  unfolding exposition text
  exposed state suspended expires =
      rw
        (
          enabled_text suspended,
          flag_text state (text "failed" ∷ text "recovered" ∷ []),
          flag_text state (text "preparing" ∷ text "archiving" ∷ text "uploading" ∷ []),
        )
        refl
