-- ===== src/Metrics/Tests.antt =====
-- Answers of the exporter, and the theorem at them.
use cartyx_infrastructure.Base.{
  ℕ, Text, text, [], ◌∷◌, Bool, true, false, Option, none, some, ◌≡◌, refl, text_eq, includes,
  decimal, if◌then◌else◌,
}
use mathlib.Core.Option.{or_else}
use cartyx_infrastructure.Script.{
  Env, Settled, resolved, rejected, call, after_call, and_then, settling, catching,
}
use cartyx_infrastructure.Cluster.Paths.{paths, paths_in}
use cartyx_infrastructure.Metrics.{
  StatusData, thousandths, exposition, metrics_for, Request, Answer, get_status, get_cron,
  read_certificate, write_head, end_with, suspended_of, collect, unavailable, serve, started,
}
use cartyx_infrastructure.Metrics.Writing.{reply, headed}
use cartyx_infrastructure.Metrics.Serving.{IsServed, answer-IsServed}

-- Two dates, and no others.
abbrev parse : Text → Option ℕ
parse [] = none
parse (c ∷ s) = some 1764172800120

-- Numbers that print as they are written.
abbrev number : Text → Option Text
number s = some s

abbrev state : StatusData
unfolding text
state = record {
  last_success = some (text "2025-11-26T16:00:00.120Z");
  last_attempt = none;
  phase = some (text "failed");
  bytes = some (text "1024");
}

-- A cluster whose status can be read or not, with this schedule.
abbrev answer : Bool → Option Bool → (q : Request) → Settled (Answer q)
unfolding state text
answer there cron get_status = if there then resolved (some state) else rejected (text "Forbidden")
answer there cron get_cron = resolved cron
answer there cron read_certificate = resolved []

abbrev cluster : Bool → Option Bool → Env Answer
cluster there cron = record {
  answer = λ q log. record { result = answer there cron q; elapsed = 1; signalled = false };
  oversleep = λ log. record { result = resolved tt; elapsed = 0; signalled = false };
}

abbrev printed : Text
unfolding text
printed =
    text
      "# TYPE cartyx_data_backup_enabled gauge\ncartyx_data_backup_enabled{environment=\"dev\"} 1\n# TYPE cartyx_data_backup_last_success_timestamp_seconds gauge\ncartyx_data_backup_last_success_timestamp_seconds{environment=\"dev\"} 1764172800.12\n# TYPE cartyx_data_backup_last_attempt_timestamp_seconds gauge\ncartyx_data_backup_last_attempt_timestamp_seconds{environment=\"dev\"} 0\n# TYPE cartyx_data_backup_failed gauge\ncartyx_data_backup_failed{environment=\"dev\"} 1\n# TYPE cartyx_data_backup_in_progress gauge\ncartyx_data_backup_in_progress{environment=\"dev\"} 0\n# TYPE cartyx_data_backup_archive_bytes gauge\ncartyx_data_backup_archive_bytes{environment=\"dev\"} 1024\n# TYPE cartyx_data_certificate_expiry_timestamp_seconds gauge\ncartyx_data_certificate_expiry_timestamp_seconds{environment=\"dev\"} 0\n"

metrics_of_failure :
    (serve parse number
      (cluster true (some false))
      (text "dev")
      (text "/metrics")
      (started 0)).1.vars
    ≡ reply 200 printed
unfolding text text_eq includes decimal call after_call and_then settling catching or_else paths
    paths_in thousandths exposition metrics_for write_head end_with suspended_of collect unavailable
    serve state answer printed
metrics_of_failure = refl

forbidden :
    (serve parse number
      (cluster false (some false))
      (text "dev")
      (text "/metrics")
      (started 0)).1.vars
    ≡ reply 503 (text "Backup metrics unavailable\n")
unfolding text text_eq includes decimal call after_call and_then settling catching or_else paths
    paths_in thousandths exposition metrics_for write_head end_with suspended_of collect unavailable
    serve state answer printed
forbidden = refl

-- The status 200 is out when the missing `spec` is noticed.
cut_off :
    (serve parse number (cluster true none) (text "dev") (text "/metrics") (started 0)).1.vars
    ≡ headed 200
unfolding text text_eq includes decimal call after_call and_then settling catching or_else paths
    paths_in thousandths exposition metrics_for write_head end_with suspended_of collect unavailable
    serve state answer printed
cut_off = refl

answer-IsServed_example :
    IsServed parse number
      (text "dev")
      (cluster true none)
      (text "/metrics")
      (serve parse number (cluster true none) (text "dev") (text "/metrics") (started 0))
unfolding text text_eq includes
answer-IsServed_example =
    answer-IsServed parse number (text "dev") (cluster true none) refl (text "/metrics") 0
