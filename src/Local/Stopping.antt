-- ===== src/Local/Stopping.antt =====
-- `local-backup` of deploy/data/backup.mjs makes each call only where it is allowed.
use mathlib.Core.Path.{subst}
use cartyx_infrastructure.Base.{
  ℕ, Text, text, ◌∷◌, true, Option, none, some, ◌≡◌, ◌==◌, ◌∙◌, inl, inr, refl, ap, sym, Bool-cases,
  arith,
}
use cartyx_infrastructure.Script.{
  Env, Log, Settled, resolved, rejected, outcome_of, attempt, settling, and_then, after_call, call,
  ◌>>=◌, called,
}
use cartyx_infrastructure.Script.Post.{Post, returned, weaken-Post, and_then-Post}
use cartyx_infrastructure.Script.Discipline.{
  Did, latest, earlier, Obeys, Keeps, Kept, just-call, after-call, after-attempt, after-gets,
  after-settled,
}
use cartyx_infrastructure.Script.Blocks.{exact-call}
use cartyx_infrastructure.Cluster.Clock.{to_iso_string}
use cartyx_infrastructure.Local.Places.{Place, suffixed}
use cartyx_infrastructure.Local.Requests.{
  Configured, ArchiveManifest, Request, Answer, Settings, State, stop_service, drain, save_volume,
  receive, hash_file, write_manifest,
}
use cartyx_infrastructure.Local.Saving.{Source, check_tar, manifest_of, run_tar, save}
use cartyx_infrastructure.Local.Trust.{IsSource, IsSource-kept, Held, output, AllStopped}
use cartyx_infrastructure.Local.Finding.{IsLocked}

number_of_test : (a b : ℕ) → (a == b) ≡ true → a ≡ b
number_of_test a b h = ground arith

later_of :
    {q q' : Request} {a : Answer q} {r : Settled (Answer q')} {log log' : Log Answer}
    → log' ≡ called q' r ∷ log
    → Did q a log
    → Did q a log'
later_of e d = rw e (earlier d)

module _ (env : Env Answer) (settings : Settings) (c : Configured) where
  -- What is known of a promise once it has settled: nothing is lost, and this if it resolved.
  abbrev Settles : (Log Answer → Type 0) → State → Settled (Unit {0}) → State → Type 0
  Settles F w s w' =
      Obeys (Held settings) w'.log
      × Keeps w.log w'.log
      × ((u : Unit {0}) → s ≡ resolved u → F w'.log)

  tar-Post :
      (s : Source) (w : State)
      → IsLocked env settings c w.log
      → IsSource c s w.log
      → AllStopped w.log
      → Obeys (Held settings) w.log
      → Post
          (Settles (Did (save_volume s.volume c.cassandra) (some 0)) w)
          (Kept env (Held settings))
          (attempt (run_tar env s.volume c.cassandra) w)
  unfolding run_tar check_tar call after_call and_then settling
  tar-Post s w l source quiet o =
      go (env.answer (save_volume s.volume c.cassandra) w.log).result refl
    where
      q : Request
      q = save_volume s.volume c.cassandra

      held : Held settings q w.log
      held = (l, (c, s, source, quiet, (refl, refl)))

      go :
          (r : Settled (Option ℕ))
          → (env.answer q w.log).result ≡ r
          → Post
              (Settles (Did q (some 0)) w)
              (Kept env (Held settings))
              (settling (and_then (outcome_of r, after_call env q w) check_tar))
      go (rejected m) e = returned ((held, o), (λ _ _ d. earlier d), (λ u same. cc same))
      go (resolved none) e = returned ((held, o), (λ _ _ d. earlier d), (λ u same. cc same))
      go (resolved (some n)) e = elim (Bool-cases (n == 0)) [
        | inl h ↦ rw h (
            let zero_done : (env.answer q w.log).result ≡ resolved (some 0) =
              e ∙ ap (λ m. resolved (some m)) (number_of_test n 0 h) in
            returned (
              (held, o),
              (λ _ _ d. earlier d),
              (λ u same. subst (λ r. Did q (some 0) (called q r ∷ w.log)) (sym zero_done) latest),
            ))
        | inr h ↦ rw h (returned ((held, o), (λ _ _ d. earlier d), (λ u same. cc same)))
      ]

  -- A run of the body that returns has written a manifest.
  abbrev pub Saved : Unit {0} → State → Type 0
  Saved _ w =
      Obeys (Held settings) w.log
      × ((place : Place) × (m : ArchiveManifest) × Did (write_manifest place m) tt w.log)

  record_archive-Post :
      (s : Source) (id name : Text) (w : State)
      → IsLocked env settings c w.log
      → IsSource c s w.log
      → Did (save_volume s.volume c.cassandra) (some 0) w.log
      → Did (receive (name ∷ output settings)) tt w.log
      → Obeys (Held settings) w.log
      → (created : Text)
      → Post Saved (Kept env (Held settings)) (
          (call env (hash_file (name ∷ output settings)) >>= λ sum. call env (
              write_manifest
                (suffixed (name ∷ output settings) (text ".json"))
                (manifest_of c s.details s.graph id (name ∷ output settings) created sum)))
            w)
  unfolding manifest_of
  record_archive-Post s id name w l source packed received o created =
      after-call env (Held settings) (hash_file (name ∷ output settings)) w (l, tt) o
        λ sum w1 (hashed, k1, o1, _).
          weaken-Post
            (just-call env (Held settings)
              (write_manifest (suffixed (name ∷ output settings) (text ".json"))
                (manifest_of c s.details s.graph id (name ∷ output settings) created sum))
              w1
              (
                k1 _ _ l,
                (
                  c,
                  s,
                  name,
                  IsSource-kept k1 source,
                  (
                    k1 _ _ packed,
                    k1 _ _ received,
                    hashed,
                    refl,
                    (refl, refl),
                    (refl, refl),
                    (refl, refl),
                  ),
                  refl,
                ),
              )
              o1)
            (λ _ w2 (done, _, o2, _). (o2, (_, _, done))) (λ _ _ bad. bad)

  pub save-Post :
      (s : Source) (id name : Text) (w : State)
      → IsLocked env settings c w.log
      → IsSource c s w.log
      → Obeys (Held settings) w.log
      → Post Saved (Kept env (Held settings)) (save env c s id (name ∷ output settings) w)
  unfolding save
  save-Post s id name w l source o =
      exact-call env (Held settings) (stop_service (text "janusgraph") 60) w
        (l, ((c, s, source), inl refl)) o
        λ _ w1 e1 o1.
          exact-call env (Held settings) drain w1 (later_of e1 l, (w.log, e1)) o1
            λ _ w2 e2 o2.
              exact-call env (Held settings) (stop_service (text "cassandra") 180) w2
                (
                  later_of e2 (later_of e1 l),
                  (
                    (c, s, IsSource-kept (λ _ _ d. later_of e2 (later_of e1 d)) source),
                    inr (refl, (w1.log, e2, (w.log, e1))),
                  ),
                )
                o2
                λ _ w3 e3 o3.
                  let k : Keeps w.log w3.log = λ _ _ d. later_of e3 (later_of e2 (later_of e1 d)) in
                  and_then-Post
                    (tar-Post s w3 (k _ _ l) (IsSource-kept k source)
                      (w2.log, e3, (w1.log, e2, (w.log, e1))) o3)
                    λ completed w4 (o4, k4, packed).
                      after-attempt env (Held settings) (receive (name ∷ output settings)) w4 _
                        (k4 _ _ (k _ _ l), tt) o4
                        λ received w5 got k5 o5.
                          after-settled env (Held settings) received w5 _ o5 λ _ all_received.
                            after-settled env (Held settings) completed w5 _ o5 λ _ all_packed.
                              after-gets env (Held settings) (λ u. u.time) w5 _
                                (record_archive-Post s id name w5 (k5 _ _ (k4 _ _ (k _ _ l)))
                                  (IsSource-kept (λ q a d. k5 q a (k4 q a (k q a d))) source)
                                  (k5 _ _ (packed _ all_packed)) (got _ all_received) o5
                                  (to_iso_string w5.time))
