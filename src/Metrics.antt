-- ===== src/Metrics.antt =====
-- deploy/data/backup-metrics.mjs: the exporter of the backup's state.
pub mod Printing
pub mod Writing
pub mod Serving
mod Tests
use mathlib.Core.Option.{get_or, or_else}
use cartyx_infrastructure.Base.{
  ℕ, zero, suc, ◌+◌, ◌-◌, ◌*◌, ◌/◌, ◌%◌, Text, text, List, [], ◌∷◌, ◌++◌, Bool, true, false, not,
  ◌&&◌, leb, ◌==◌, Option, none, some, text_eq, every, includes, decimal, if◌then◌else◌,
}
use cartyx_infrastructure.Script.{
  Env, Outcome, ok, stop, throw, fail, modify, ◌>>◌, Script, World, call, pure, attempt, settled,
  try_catch, and_then, ◌>>=◌,
}
use cartyx_infrastructure.Cluster.Paths.{Paths, paths}

-- The data of the status ConfigMap.
pub record StatusData : Type 0 where
  pub last_success : Option Text
  pub last_attempt : Option Text
  pub phase : Option Text
  pub bytes : Option Text

abbrev pub has_phase : StatusData → List Text → Bool
has_phase state phases = elim state.phase [ none ↦ false | some phase ↦ includes phases phase ]

abbrev bit : Bool → ℕ
bit b = if b then 1 else 0

-- A number of thousandths, as JavaScript prints it.
unfoldable pub thousandths : ℕ → Text
thousandths n =
    let whole = decimal (n / 1000) in
    let a : ℕ = n % 1000 / 100 in
    let b : ℕ = n % 100 / 10 in
    let c : ℕ = n % 10 in
    if not (c == 0)
    then whole ++ (b'.' ∷ (b'0' + a) ∷ (b'0' + b) ∷ (b'0' + c) ∷ [])
    else if not (b == 0)
    then whole ++ (b'.' ∷ (b'0' + a) ∷ (b'0' + b) ∷ [])
    else if not (a == 0)
    then whole ++ (b'.' ∷ (b'0' + a) ∷ [])
    else whole

abbrev pub failed_gauge : StatusData → ℕ
failed_gauge state = bit (has_phase state (text "failed" ∷ text "recovered" ∷ []))

abbrev pub in_progress_gauge : StatusData → ℕ
in_progress_gauge state =
    bit (has_phase state (text "preparing" ∷ text "archiving" ∷ text "uploading" ∷ []))

-- One line of type and one of value for each gauge.
unfoldable pub exposition : Text → List (Text × Text) → Text
exposition environment [] = []
exposition environment ((name, value) ∷ rest) =
    text "# TYPE "
    ++ (name
        ++ (text " gauge\n"
            ++ (name
                ++ (text "{environment=\""
                    ++ (environment
                        ++ (text "\"} "
                            ++ (value ++ (text "\n" ++ exposition environment rest))))))))

-- `Date.parse`, in milliseconds, and `Number` as it is printed, each without a value where it gives
-- `NaN`, and `Number` also where it gives 0.
module _ (parse : Text → Option ℕ) (number : Text → Option Text) where
  -- `timestamp`, in milliseconds.
  abbrev pub timestamp : Option Text → ℕ
  timestamp value = elim value [ none ↦ 0 | some s ↦ elim (parse s) [ none ↦ 0 | some ms ↦ ms ] ]

  -- `Number(state.bytes) || 0`
  abbrev pub number_or_zero : Option Text → Text
  number_or_zero value = elim value [
    | none ↦ text "0"
    | some s ↦ elim (number s) [ none ↦ text "0" | some printed ↦ printed ]
  ]

  -- `values`
  abbrev pub gauges : StatusData → Bool → Text → List (Text × Text)
  gauges state suspended expires =
      (text "cartyx_data_backup_enabled", decimal (bit (not suspended)))
      ∷ (
        text "cartyx_data_backup_last_success_timestamp_seconds",
        thousandths (timestamp state.last_success),
      )
      ∷ (
        text "cartyx_data_backup_last_attempt_timestamp_seconds",
        thousandths (timestamp state.last_attempt),
      )
      ∷ (text "cartyx_data_backup_failed", decimal (failed_gauge state))
      ∷ (text "cartyx_data_backup_in_progress", decimal (in_progress_gauge state))
      ∷ (text "cartyx_data_backup_archive_bytes", number_or_zero state.bytes)
      ∷ (
        text "cartyx_data_certificate_expiry_timestamp_seconds",
        thousandths (timestamp (some expires)),
      )
      ∷ []

  -- The environment is one that `paths` accepts.
  unfoldable pub metrics_for : Text → StatusData → Bool → Text → Outcome Text
  metrics_for environment state suspended expires = elim (paths environment) [
    | ok p ↦ ok (exposition environment (gauges state suspended expires))
    | stop h ↦ stop h
  ]

pub data Request : Type 0 where
  get_status : Request
  get_cron : Request
  read_certificate : Request

-- Of `get_status`, its data, if it has any; of `get_cron`, whether `spec.suspend` is true, if it has a
-- `spec`; of `read_certificate`, its `validTo`.
abbrev pub Answer : Request → Type 0
Answer get_status = Option StatusData
Answer get_cron = Option Bool
Answer read_certificate = Text

-- The status and the body of the response, as far as they have been given.
pub record Response : Type 0 where
  pub head : Option ℕ
  pub body : Option Text

abbrev pub State : Type 0
State = World Answer Response

-- `{}`
abbrev pub no_data : StatusData
no_data = record { last_success = none; last_attempt = none; phase = none; bytes = none }

-- `response.writeHead(status)`, which throws if it is called again.
unfoldable pub write_head : ℕ → Script State (Unit {0})
write_head status w = elim w.vars.head [
  | none ↦ (ok tt, record w { vars = record w.vars { head = some status } })
  | some sent ↦ (stop (throw (text "Cannot write headers after they are sent to the client")), w)
]

-- `response.end(body)`, with the status 200 if none was given.
unfoldable pub end_with : Text → Script State (Unit {0})
end_with body =
    modify
      (λ w. record w { vars = record { head = or_else w.vars.head (some 200); body = some body } })

-- `cron.spec.suspend`
unfoldable pub suspended_of : Option Bool → Script State Bool
suspended_of none = fail (text "Cannot read properties of undefined (reading 'suspend')")
suspended_of (some suspended) = pure suspended

-- The `catch`.
unfoldable pub unavailable : Script State (Unit {0})
unfolding write_head end_with
unavailable = do write_head 503; end_with (text "Backup metrics unavailable\n")

module _ (parse : Text → Option ℕ) (number : Text → Option Text) (env : Env Answer) where
  -- The body of the `try`.
  unfoldable pub collect : Text → Script State (Unit {0})
  unfolding write_head end_with suspended_of
  collect namespace = do
    s ← attempt (call env get_status)
    c ← attempt (call env get_cron)
    status ← settled s
    cron ← settled c
    expires ← call env read_certificate
    write_head 200
    suspended ← suspended_of cron
    body ← (λ w. (metrics_for parse number namespace (get_or status no_data) suspended expires, w))
    end_with body

  -- The handler of a request.
  unfoldable pub serve : Text → Text → Script State (Unit {0})
  unfolding collect unavailable write_head end_with
  serve namespace url =
      if text_eq url (text "/healthz")
      then end_with (text "ok")
      else if not (text_eq url (text "/metrics"))
      then (do write_head 404; end_with [])
      else try_catch (collect namespace) (λ _. unavailable)

-- The handler is called before anything is written.
abbrev pub started : ℕ → State
started now = record {
  log = [];
  time = now;
  cancelled = false;
  vars = record { head = none; body = none };
}
