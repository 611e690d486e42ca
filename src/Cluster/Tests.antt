-- ===== src/Cluster/Tests.antt =====
-- The helpers of deploy/data/cluster-api.mjs at concrete values, and the theorems at them.
use cartyx_infrastructure.Cluster.Clock.Calendar.{calendar}
use cartyx_infrastructure.Cluster.Clock.Reading.{number_at, micro_time-calendar}
use cartyx_infrastructure.Base.{
  ◌*◌, ◌+◌, ◌/◌, ◌%◌, drop, Text, text, [], Bool, false, ◌≡◌, leb, refl, arith, ends_with,
  drop_last, decimal,
}
use cartyx_infrastructure.Script.{
  World, Script, Settled, resolved, rejected, sleep, and_then, ok, stop, throw,
}
use cartyx_infrastructure.Script.Post.{Post, returned}
use cartyx_infrastructure.Script.Discipline.{IsThrow}
use cartyx_infrastructure.Cluster.Clock.{day_ms, date_of_day, to_iso_string, micro_time, file_stamp}
use cartyx_infrastructure.Cluster.Paths.{encode_uri_component}
use cartyx_infrastructure.Cluster.Http.{settle, responded}
use cartyx_infrastructure.Cluster.Request.{Answer}
use cartyx_infrastructure.Cluster.Sample.{healthy}
use cartyx_infrastructure.Cluster.Wait.{until}
use cartyx_infrastructure.Cluster.Wait.Ending.{IsPassed, until-Ends}
use cartyx_infrastructure.Cluster.Documents.{Original}
use cartyx_infrastructure.Cluster.Resume.{resume}
use cartyx_infrastructure.Cluster.Resume.Ending.{IsResumed, resume-Ends}

micro_time_of_leap_day : micro_time 1709210096789 ≡ text "2024-02-29T12:34:56.789000Z"
unfolding text micro_time to_iso_string date_of_day ends_with drop_last
micro_time_of_leap_day = refl

file_stamp_of_leap_day : file_stamp 1709210096789 ≡ text "2024-02-29T12-34-56-789Z"
unfolding text file_stamp to_iso_string date_of_day
file_stamp_of_leap_day = refl

encoded_selector : encode_uri_component (text "a=b,c") ≡ text "a%3Db%2Cc"
unfolding text encode_uri_component
encoded_selector = refl

abbrev fresh : World Answer (Unit {0})
fresh = record { log = []; time = 0; cancelled = false; vars = tt }

-- A check that says yes at a time.
abbrev after_five_seconds : Script (World Answer (Unit {0})) Bool
after_five_seconds w = (ok (leb 5000 w.time), w)

until-Ends_example :
    Post
      (λ _. IsPassed healthy after_five_seconds)
      (λ h _. IsThrow h)
      (until healthy after_five_seconds (text "a") 6 fresh)
until-Ends_example =
    until-Ends healthy after_five_seconds (λ w. returned (omega arith)) (text "a") 6 fresh

until_passes : (until healthy after_five_seconds (text "a") 7 fresh).0 ≡ ok tt
unfolding until and_then sleep
until_passes = refl

until_times_out :
    (until healthy after_five_seconds (text "a") 2 fresh).0
    ≡ stop (throw (text "Timed out waiting for a"))
unfolding until and_then sleep text
until_times_out = refl

abbrev standard : Original
standard = record { graph = 1; cassandra = 1; helm = false; flux = false }

resume-Ends_example :
    Post (λ _. IsResumed healthy standard) (λ h _. IsThrow h) (resume healthy standard fresh)
resume-Ends_example = resume-Ends healthy standard fresh

-- Every body is taken for what it says.
abbrev parse : Text → Settled Text
parse body = resolved body

message_of_failure :
    settle parse (text "GET") (text "/") (responded 404 (text "secret"))
    ≡ rejected (text "Kubernetes GET /: HTTP 404")
unfolding text settle decimal
message_of_failure = refl

micro_time-calendar_example :
    ((number_at 0 4 (micro_time 1788852961635) ≡ (calendar (1788852961635 / day_ms)).year)
      × (number_at 5 2 (micro_time 1788852961635) ≡ (calendar (1788852961635 / day_ms)).month)
      × (number_at 8 2 (micro_time 1788852961635) ≡ (calendar (1788852961635 / day_ms)).day))
    × ((number_at 11 2 (micro_time 1788852961635) * 3600000
          + number_at 14 2 (micro_time 1788852961635) * 60000
          + number_at 17 2 (micro_time 1788852961635) * 1000
          + number_at 20 3 (micro_time 1788852961635))
        ≡ 1788852961635 % day_ms)
    × (drop 23 (micro_time 1788852961635) ≡ text "000Z")
micro_time-calendar_example = micro_time-calendar 1788852961635 (omega arith)
