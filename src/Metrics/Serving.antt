-- ===== src/Metrics/Serving.antt =====
-- What the exporter of deploy/data/backup-metrics.mjs answers, and how it can fail to.
use mathlib.Core.Option.{get_or, or_else}
use cartyx_infrastructure.Base.{
  ne_of_text_eq, ℕ, Text, text, [], ◌∷◌, Bool, true, Option, none, some, ◌≡◌, refl, ap, ◌⊎◌, inl,
  inr, ◌≢◌, text_eq, includes, Bool-cases, eq_of_text_eq,
}
use cartyx_infrastructure.Script.{
  Env, Event, Outcome, Stop, ok, stop, throw, exit, diverged, Settled, resolved, rejected, called,
  call, after_call, attempt, settling, outcome_of, settled, and_then, catching,
}
use cartyx_infrastructure.Script.Post.{
  Post, returned, stopped, call-Post, weaken-Post, and_then-Post,
}
use cartyx_infrastructure.Script.Discipline.{IsThrow, Did, latest, earlier}
use cartyx_infrastructure.Cluster.Paths.{environments, paths}
use cartyx_infrastructure.Metrics.{
  StatusData, metrics_for, Request, Answer, State, get_status, get_cron, read_certificate, no_data,
  write_head, end_with, suspended_of, collect, unavailable, serve, started,
}
use cartyx_infrastructure.Metrics.Printing.{page_of, paths_accepted, exposed}
use cartyx_infrastructure.Metrics.Writing.{
  HasLost, Told, Told-later, reply, silent, headed, head-Post, twice-Post, end-Post,
}

module _ (parse : Text → Option ℕ) (number : Text → Option Text) (namespace : Text)
    (env : Env Answer) where
  attempt-Post :
      (q : Request) (w : State)
      → w.vars ≡ silent
      → Post
          (λ r w'.
            (w'.vars ≡ silent) × Told q r w'.log × ((e : Event Answer) × (w'.log ≡ e ∷ w.log)))
          (λ _ _. ⊥)
          (attempt (call env q) w)
  unfolding call after_call settling
  attempt-Post q w v = go (env.answer q w.log).result refl
    where
      go :
          (r : Settled (Answer q))
          → (env.answer q w.log).result ≡ r
          → Post
              (λ r' w'.
                (w'.vars ≡ silent) × Told q r' w'.log × ((e : Event Answer) × (w'.log ≡ e ∷ w.log)))
              (λ _ _. ⊥)
              (settling (outcome_of r, after_call env q w))
      go (resolved a) e = returned (v, rw e latest, (_, refl))
      go (rejected m) e = returned (v, (q, m, [], w.log, ap (λ r. called q r ∷ w.log) e), (_, refl))

  -- What stops the `try`.
  abbrev Broken : Stop → State → Type 0
  Broken h w =
      IsThrow h
      × (((w.vars ≡ silent) × HasLost w.log) ⊎ ((w.vars ≡ headed 200) × Did get_cron none w.log))

  value-Post :
      (q : Request) (r : Settled (Answer q)) (w : State)
      → w.vars ≡ silent
      → Told q r w.log
      → Post (λ a w'. (w' ≡ w) × (r ≡ resolved a)) Broken (settled r w)
  value-Post q (resolved a) w v d = returned (refl, refl)
  value-Post q (rejected m) w v d = stopped (tt, inl (v, d))

  -- The response is the state that the three reads gave.
  abbrev pub IsScraped : State → Type 0
  IsScraped w =
      (status : Option StatusData) × (suspended : Bool) × (expires : Text) × Did get_status status
        w.log
      × Did get_cron (some suspended) w.log
      × Did read_certificate expires w.log
      × (w.vars
          ≡ reply 200 (page_of parse number namespace (get_or status no_data) suspended expires))

  metrics_for_known :
      (state : StatusData) (suspended : Bool) (expires : Text)
      → includes environments namespace ≡ true
      → metrics_for parse number namespace state suspended expires
        ≡ ok (page_of parse number namespace state suspended expires)
  unfolding metrics_for paths text
  metrics_for_known state suspended expires known =
      rw (paths_accepted namespace known, exposed parse number namespace state suspended expires)
        refl

  module _ (known : includes environments namespace ≡ true) where
    -- What follows the three reads.
    written-Post :
        (status : Option StatusData) (cron : Option Bool) (expires : Text) (w : State)
        → w.vars ≡ silent
        → Did get_status status w.log
        → Did get_cron cron w.log
        → Did read_certificate expires w.log
        → Post
            (λ _. IsScraped)
            Broken
            (and_then (write_head 200 w) (λ _ w1. and_then (suspended_of cron w1) (λ suspended w2.
              and_then
                (metrics_for parse number namespace (get_or status no_data) suspended expires, w2)
                end_with)))
    unfolding suspended_of and_then
    written-Post status none expires w v d1 d2 d3 =
        and_then-Post (weaken-Post (head-Post 200 w v) (λ _ _ x. x) (λ _ _ bad. absurd bad))
          λ _ w1 (same, head). stopped (tt, inr (head, rw same d2))
    written-Post status (some suspended) expires w v d1 d2 d3 =
        and_then-Post (weaken-Post (head-Post 200 w v) (λ _ _ x. x) (λ _ _ bad. absurd bad))
          λ _ w1 (same, head).
            rw (metrics_for_known (get_or status no_data) suspended expires known) (
              weaken-Post (end-Post 200 _ w1 head)
                (λ _ w2 (same', out). (
                  status,
                  suspended,
                  expires,
                  rw (same', same) d1,
                  rw (same', same) d2,
                  rw (same', same) d3,
                  out,
                ))
                (λ _ _ bad. absurd bad))

    collect-Post :
        (w : State)
        → w.vars ≡ silent
        → Post (λ _. IsScraped) Broken (collect parse number env namespace w)
    unfolding collect after_call
    collect-Post w v =
        and_then-Post
          (weaken-Post (attempt-Post get_status w v) (λ _ _ x. x) (λ _ _ bad. absurd bad))
          λ s w1 (v1, d1, _).
            and_then-Post
              (weaken-Post (attempt-Post get_cron w1 v1) (λ _ _ x. x) (λ _ _ bad. absurd bad))
              λ c w2 (v2, d2, (e2, more)).
                let d1' : Told get_status s w2.log =
                  rw more (Told-later get_status s e2 w1.log d1) in
                and_then-Post (value-Post get_status s w2 v2 d1') λ status w3 (e3, is_status).
                  and_then-Post (value-Post get_cron c w3 (rw e3 v2) (rw e3 d2))
                    λ cron w4 (e4, is_cron).
                      and_then-Post
                        {Q = λ expires w5.
                          (w5.vars ≡ silent)
                          × Did get_status status w5.log
                          × Did get_cron cron w5.log
                          × Did read_certificate expires w5.log}
                        (call-Post env read_certificate w4
                          (λ expires e. (
                            rw (e4, e3) v2,
                            earlier (rw (e4, e3) (rw is_status at d1')),
                            earlier (rw (e4, e3) (rw is_cron at d2)),
                            rw e latest,
                          ))
                          (λ m e. (
                            tt,
                            inl (
                              rw (e4, e3) v2,
                              (
                                read_certificate,
                                m,
                                [],
                                w4.log,
                                ap (λ r. called read_certificate r ∷ w4.log) e,
                              ),
                            ),
                          )))
                        λ expires w5 (v5, a, b, c'). written-Post status cron expires w5 v5 a b c'

  -- A read failed, and the response says so.
  abbrev pub IsUnavailable : State → Type 0
  IsUnavailable w = HasLost w.log × (w.vars ≡ reply 503 (text "Backup metrics unavailable\n"))

  -- The schedule has no `spec`: the status 200 is out, there is no body, and the handler throws.
  abbrev pub IsCutOff : Outcome (Unit {0}) × State → Type 0
  IsCutOff r =
      (r.0 ≡ stop (throw (text "Cannot write headers after they are sent to the client")))
      × Did get_cron none r.1.log
      × (r.1.vars ≡ headed 200)

  abbrev pub IsMetrics : Outcome (Unit {0}) × State → Type 0
  IsMetrics r = ((r.0 ≡ ok tt) × IsScraped r.1) ⊎ (((r.0 ≡ ok tt) × IsUnavailable r.1) ⊎ IsCutOff r)

  -- What a request is answered.
  abbrev pub IsServed : Text → Outcome (Unit {0}) × State → Type 0
  IsServed url r =
      ((url ≡ text "/healthz") × (r.0 ≡ ok tt) × (r.1.vars ≡ reply 200 (text "ok")))
      ⊎ (((url ≢ text "/healthz")
            × (url ≢ text "/metrics")
            × (r.0 ≡ ok tt)
            × (r.1.vars ≡ reply 404 []))
          ⊎ ((url ≡ text "/metrics") × IsMetrics r))

  unavailable-Post :
      (w : State)
      → w.vars ≡ silent
      → HasLost w.log
      → Post (λ _. IsUnavailable) (λ _ _. ⊥) (unavailable w)
  unfolding unavailable
  unavailable-Post w v lost = and_then-Post (head-Post 503 w v) λ _ w1 (same, head).
      weaken-Post (end-Post 503 _ w1 head) (λ _ w2 (same', out). (rw (same', same) lost, out))
        (λ _ _ bad. bad)

  caught : (w : State) → Broken (throw []) w → IsMetrics (unavailable w)
  unfolding unavailable and_then
  caught w (_, inl (v, lost)) = ended (unavailable-Post w v lost)
    where
      ended :
          {r : Outcome (Unit {0}) × State} → Post (λ _. IsUnavailable) (λ _ _. ⊥) r → IsMetrics r
      ended (returned p) = inr (inl (refl, p))
      ended (stopped bad) = absurd bad
  caught w (_, inr (head, d)) =
      cut (and_then-Post (twice-Post 503 200 w head) λ _ _ bad. absurd bad)
    where
      cut :
          {r : Outcome (Unit {0}) × State}
          → Post
              (λ _ _. ⊥)
              (λ h w'.
                (h ≡ throw (text "Cannot write headers after they are sent to the client"))
                × (w' ≡ w))
              r
          → IsMetrics r
      cut (returned bad) = absurd bad
      cut (stopped (thrown, same)) = inr (inr (ap stop thrown, rw same d, rw same head))

  module _ (known : includes environments namespace ≡ true) where
    scraped :
        (now : ℕ)
        → IsMetrics (catching (collect parse number env namespace (started now)) (λ _. unavailable))
    unfolding catching
    scraped now = ended (collect-Post known (started now) refl)
      where
        ended :
            {r : Outcome (Unit {0}) × State}
            → Post (λ _. IsScraped) Broken r
            → IsMetrics (catching r (λ _. unavailable))
        ended (returned p) = inl (refl, p)
        ended (stopped {h = throw e} {s = w} p) = caught w p
        ended (stopped {h = exit n} p) = absurd p.0
        ended (stopped {h = diverged} p) = absurd p.0

    -- In an environment that `paths` accepts, `/healthz` is answered with 200 and `ok`, and a path
    -- other than `/metrics` with 404 and nothing. `/metrics` is answered with 200 and the seven gauges
    -- of the status, the schedule and the certificate that were read, or, if a read was rejected,
    -- with 503; only if the schedule that was read has no `spec`, the handler throws after the
    -- status 200, and the response has no body.
    pub answer-IsServed :
        (url : Text) (now : ℕ) → IsServed url (serve parse number env namespace url (started now))
    unfolding serve write_head end_with and_then or_else
    answer-IsServed url now = elim (Bool-cases (text_eq url (text "/healthz"))) [
      | inl health ↦ rw health (inl (eq_of_text_eq _ _ health, refl, refl))
      | inr other ↦ elim (Bool-cases (text_eq url (text "/metrics"))) [
        | inr unknown ↦
            rw (other, unknown)
              (inr (inl (ne_of_text_eq _ _ other, ne_of_text_eq _ _ unknown, refl, refl)))
        | inl metrics ↦ rw (other, metrics) (inr (inr (eq_of_text_eq _ _ metrics, scraped now)))
      ]
    ]
