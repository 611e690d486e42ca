-- ===== src/Kubernetes/Whole.antt =====
-- A whole run of deploy/data/kubernetes.mjs: its arguments, and the three actions.
use cartyx_infrastructure.Base.{
  ℕ, Text, text, [], ◌∷◌, true, false, Option, none, some, not, ◌||◌, ◌&&◌, ◌≡◌, ◌⊎◌, inl, inr,
  refl, Bool-cases, sym, includes, ne_of_text_eq, text_eq, eq_of_text_eq, true_of_guard,
  both_of_guard,
}
use cartyx_infrastructure.Script.{Env, given, or_empty}
use cartyx_infrastructure.Script.Post.{Post, weaken-Post}
use cartyx_infrastructure.Script.Discipline.{Obeys}
use cartyx_infrastructure.Kubernetes.Requests.{Answer, Settings, State, get_namespace}
use cartyx_infrastructure.Kubernetes.Main.{
  actions, own_namespace, namespace_of, is_scratch, serve, administer, run,
}
use cartyx_infrastructure.Kubernetes.Trust.{Allowed, Plain, IsAdmitted, IsScoped, environment, here}
use cartyx_infrastructure.Kubernetes.Tidy.{
  IsTidy, Plain-Allowed, Plain-MadeNothing, Fails, Plain-Fails, after-early_call,
  after-early_throw_if,
}
use cartyx_infrastructure.Kubernetes.Ends.{IsServed}
use cartyx_infrastructure.Kubernetes.Checking.{check_cql_security-Post}
use cartyx_infrastructure.Kubernetes.Copying.{provision_backup_secret-Post}
use cartyx_infrastructure.Kubernetes.Adding.{provision_secret-Post}

not_eq : (s t : Text) → text_eq s t ≡ false → text_eq t s ≡ false
not_eq s t h = elim (Bool-cases (text_eq t s)) [
  | inl same ↦ absurd (ne_of_text_eq s t h (sym (eq_of_text_eq t s same)))
  | inr other ↦ other
]

-- What the guard of `DATA_NAMESPACE` leaves of its values.
namespace_cases :
    (action target : Text) (value : Option Text)
    → given value
        && (not (text_eq action (text "cql-security"))
            || not (is_scratch target (elim value [ none ↦ own_namespace target | some n ↦ n ])))
      ≡ false
    → (elim value [ none ↦ own_namespace target | some n ↦ n ] ≡ own_namespace target)
      ⊎ (elim value [ none ↦ own_namespace target | some n ↦ n ] ≡ [])
      ⊎ ((action ≡ text "cql-security")
          × (is_scratch target (elim value [ none ↦ own_namespace target | some n ↦ n ]) ≡ true))
namespace_cases action target none h = inl refl
namespace_cases action target (some []) h = inr (inl refl)
namespace_cases action target (some (c ∷ n)) h =
    let (first, second) =
      both_of_guard (not (text_eq action (text "cql-security"))) (not (is_scratch target (c ∷ n)))
        h in
    inr (inr (eq_of_text_eq _ _ (true_of_guard _ first), true_of_guard _ second))

-- The action that is left.
third :
    (action : Text)
    → text_eq action (text "provision-backup-secret") ≡ false
    → text_eq action (text "cql-security") ≡ false
    → includes actions action ≡ true
    → action ≡ text "provision-secret"
unfolding actions includes
third action h h' known = elim (Bool-cases (text_eq (text "provision-secret") action)) [
  | inl same ↦ sym (eq_of_text_eq _ _ same)
  | inr other ↦
      let e : text_eq (text "provision-backup-secret") action ≡ false =
        not_eq action (text "provision-backup-secret") h in
      let e' : text_eq (text "cql-security") action ≡ false =
        not_eq action (text "cql-security") h' in
      cc (rw (other, e, e') at known)
]

module _ (env : Env Answer) (settings : Settings) where
  abbrev pub Finishes : Unit {0} → State → Type 0
  Finishes _ w = (Obeys (Allowed settings) w.log × IsTidy settings w.log) × IsServed settings w.log

  scoped :
      given settings.namespace
          && (not (text_eq (or_empty settings.action) (text "cql-security"))
              || not (is_scratch (environment settings) (here settings)))
        ≡ false
      → IsScoped settings
  unfolding namespace_of
  scoped = namespace_cases (or_empty settings.action) (environment settings) settings.namespace

  serve-Post :
      (w : State)
      → IsAdmitted settings
      → Obeys (Plain settings) w.log
      → Post Finishes
          (Fails settings env)
          (serve env (or_empty settings.action) (environment settings) (here settings) w)
  unfolding serve
  serve-Post w admitted o =
      elim (Bool-cases (text_eq (or_empty settings.action) (text "provision-backup-secret"))) [
        | inl h ↦ rw h (
            let chosen = eq_of_text_eq _ _ h in
            weaken-Post (provision_backup_secret-Post env settings admitted w chosen o)
              (λ _ w1 (o1, done). (
                (Plain-Allowed settings w1.log o1, inl (Plain-MadeNothing settings o1)),
                inl (chosen, done),
              ))
              (Plain-Fails settings env))
        | inr h ↦
            rw h (elim (Bool-cases (text_eq (or_empty settings.action) (text "cql-security"))) [
              | inl h' ↦ rw h' (
                  let chosen = eq_of_text_eq _ _ h' in
                  weaken-Post (check_cql_security-Post env settings admitted w chosen o)
                    (λ _ _ (tidy, done). (tidy, inr (inl (chosen, done)))) (λ _ _ bad. bad))
              | inr h' ↦ rw h' (
                  weaken-Post (provision_secret-Post env settings admitted w o)
                    (λ _ _ (tidy, done).
                      (tidy, inr (inr (third (or_empty settings.action) h h' admitted.0, done))))
                    (λ _ _ bad. bad))
            ])
      ]

  pub run-Post : (now : ℕ) → Post Finishes (Fails settings env) (run env settings now)
  unfolding administer
  run-Post now =
      let w : State = record { log = []; time = now; cancelled = false; vars = tt } in
      after-early_throw_if settings env _ _ w _ tt λ known.
        after-early_throw_if settings env _ _ w _ tt λ configured.
          after-early_throw_if settings env _ _ w _ tt λ in_scope.
            let (action, target) = both_of_guard _ _ known in
            let admitted : IsAdmitted settings = (
              true_of_guard _ action,
              true_of_guard _ target,
              true_of_guard _ configured,
              scoped in_scope,
            ) in
            after-early_call settings env (get_namespace (here settings)) w
              ((admitted, refl, tt), tt) tt λ _ w1 (_, _, o1, _). serve-Post w1 admitted o1
