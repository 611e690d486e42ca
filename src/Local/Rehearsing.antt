-- ===== src/Local/Rehearsing.antt =====
-- `local-restore` of deploy/data/backup.mjs makes each call only where it is allowed.
use mathlib.Core.Path.{subst}
use cartyx_infrastructure.Base.{
  ℕ, Text, text, ◌∷◌, Bool, true, false, not, ◌||◌, ◌≡◌, ◌==◌, inl, inr, refl, sym, Bool-cases,
  eq_of_guard, number_of_guard, both_of_guard, text_eq,
}
use cartyx_infrastructure.Script.{Env, Log, Script}
use cartyx_infrastructure.Script.Post.{Post, returned, weaken-Post, and_then-Post}
use cartyx_infrastructure.Script.Discipline.{
  Did, Obeys, Kept, Adds, just-call, just-throw_if, after-call, after-throw_if, after-gets,
}
use cartyx_infrastructure.Upload.Checked.{basename-IsPlain}
use cartyx_infrastructure.Local.Places.{Place, dirname, last_name, resolve}
use cartyx_infrastructure.Local.Requests.{
  Configured, ArchiveManifest, Answer, Settings, State, hash_file, read_manifest, image_id,
  create_volume, extract, write_override, start_restored, smoke_test,
}
use cartyx_infrastructure.Local.Restoring.{
  contains, or_else, mismatched, restore_volume, override_for, other_image, check_manifest,
  rehearse_in, restore_locally,
}
use cartyx_infrastructure.Local.Trust.{
  IsSameImage, IsSameImage-kept, IsFitting, IsFitting-kept, IsVerified, IsVerified-kept, IsLoaded,
  IsLoaded-kept, Calm, output, given_place,
}
use cartyx_infrastructure.Local.Finding.{IsLocked, IsReady}

matched_parts :
    (c : Configured) (m : ArchiveManifest)
    → mismatched c m ≡ false
    → (m.format ≡ 2) × (m.cassandra_image ≡ c.cassandra) × (m.janusgraph_image ≡ c.janusgraph)
unfolding mismatched
matched_parts c m h =
    let (first, graph) =
      both_of_guard (not (m.format == 2) || not (text_eq m.cassandra_image c.cassandra))
        (not (text_eq m.janusgraph_image c.janusgraph)) h in
    let (format, cassandra) =
      both_of_guard (not (m.format == 2)) (not (text_eq m.cassandra_image c.cassandra)) first in
    (number_of_guard m.format 2 format, eq_of_guard _ _ cassandra, eq_of_guard _ _ graph)

module _ (env : Env Answer) (settings : Settings) (c : Configured) where
  other_image-Post :
      (image recorded : Text) (w : State)
      → IsLocked env settings c w.log
      → Obeys (Calm settings) w.log
      → Post
          (Adds env (Calm settings) (λ b log. b ≡ false → IsSameImage image recorded log) w)
          (Kept env (Calm settings))
          (other_image env image recorded w)
  unfolding other_image
  other_image-Post image recorded w l o = elim (Bool-cases (contains image (text "@sha256:"))) [
    | inl h ↦ rw h (returned (o, (λ _ _ d. d), (λ _. inl refl)))
    | inr h ↦ rw h (
        after-call env (Calm settings) (image_id image) w ((l, tt), tt) o
          λ actual w1 (d, k1, o1, _). returned (
            o1,
            k1,
            (λ same. inr (
                subst (λ t. Did (image_id image) t w1.log) (sym (eq_of_guard recorded actual same))
                  d)),
          ))
  ]

  -- The second test is made if the first is false.
  or_else-Post :
      (F : Log Answer → Type 0) (b : Bool) (m : Script State Bool) (w : State)
      → Obeys (Calm settings) w.log
      → Post
          (Adds env (Calm settings) (λ r log. r ≡ false → F log) w)
          (Kept env (Calm settings))
          (m w)
      → Post
          (Adds env (Calm settings) (λ r log. r ≡ false → (b ≡ false) × F log) w)
          (Kept env (Calm settings))
          (or_else b m w)
  unfolding or_else
  or_else-Post F true m w o p = returned (o, (λ _ _ d. d), (λ e. cc e))
  or_else-Post F false m w o p =
      weaken-Post p (λ _ _ (o1, k1, f). (o1, k1, (λ e. (refl, f e)))) (λ _ _ bad. bad)

  check_manifest-Post :
      (m : ArchiveManifest) (place : Place) (w : State)
      → IsReady env settings c w.log
      → Did (read_manifest place) m w.log
      → Obeys (Calm settings) w.log
      → Post
          (Adds env (Calm settings) (λ _. IsFitting c m place) w)
          (Kept env (Calm settings))
          (check_manifest env c m w)
  unfolding check_manifest mismatched
  check_manifest-Post m place w (l, config) read o =
      and_then-Post
        (or_else-Post _ (mismatched c m) _ w o
          (other_image-Post c.cassandra m.cassandra_image_id w l o))
        λ first w1 (o1, k1, f1).
          and_then-Post
            (or_else-Post _ first _ w1 o1
              (other_image-Post c.janusgraph m.janusgraph_image_id w1 (k1 _ _ l) o1))
            λ second w2 (o2, k2, f2). after-throw_if env (Calm settings) _ _ w2 _ o2 λ suited.
              just-throw_if env (Calm settings) _ _ w2 o2 λ plain.
                let (fit, local) = both_of_guard second _ suited in
                let (fit1, graph_same) = f2 fit in
                let (matched, cassandra_same) = f1 fit1 in
                let (format, cassandra, graph) = matched_parts c m matched in
                (
                  o2,
                  (λ q a d. k2 q a (k1 q a d)),
                  (
                    k2 _ _ (k1 _ _ config),
                    k2 _ _ (k1 _ _ read),
                    (format, eq_of_guard _ _ local),
                    (cassandra, IsSameImage-kept k2 cassandra_same),
                    (graph, graph_same),
                    basename-IsPlain m.file plain,
                  ),
                )

  -- A rehearsal that returns has tested the stack that it started.
  abbrev pub Rehearsed : Unit {0} → State → Type 0
  Rehearsed _ w = Obeys (Calm settings) w.log × ((url : Text) × Did (smoke_test url) tt w.log)

  rehearse_in-Post :
      (m : ArchiveManifest) (now : ℕ) (w : State)
      → IsLocked env settings c w.log
      → IsVerified c m (given_place settings) w.log
      → Obeys (Calm settings) w.log
      → Post Rehearsed (Kept env (Calm settings)) (
          rehearse_in env c
            (output settings)
            (resolve (dirname (given_place settings)) m.file)
            (restore_volume now)
            w)
  unfolding rehearse_in
  rehearse_in-Post m now w l v o =
      let volume : Text = restore_volume now in
      let archive : Place = resolve (dirname (given_place settings)) m.file in
      let place : Place = text "restore.compose.yaml" ∷ output settings in
      after-call env (Calm settings) (create_volume volume) w ((l, ((now, refl), (c, m, v))), tt) o
        λ _ w1 (created, k1, o1, _).
          after-call env (Calm settings)
            (extract volume (dirname archive) c.cassandra (last_name archive)) w1
            ((k1 _ _ l, (created, (c, m, IsVerified-kept k1 v, refl, refl, refl))), tt) o1
            λ _ w2 (extracted, k2, o2, _).
              let l2 = k2 _ _ (k1 _ _ l) in
              let loaded : IsLoaded (given_place settings) volume w2.log =
                (c, m, IsVerified-kept (λ q a d. k2 q a (k1 q a d)) v, k2 _ _ created, extracted) in
              after-call env (Calm settings) (write_override place (override_for volume)) w2
                ((l2, (volume, refl, loaded)), tt) o2
                λ _ w3 (written, k3, o3, _).
                  after-call env (Calm settings) (start_restored place) w3
                    ((k3 _ _ l2, (volume, written, IsLoaded-kept k3 loaded)), tt) o3
                    λ _ w4 (started, k4, o4, _).
                      weaken-Post
                        (just-call env (Calm settings)
                          (smoke_test (text "wss://localhost:18183/gremlin")) w4
                          ((k4 _ _ (k3 _ _ l2), (place, started)), tt) o4)
                        (λ _ w5 (done, _, o5, _). (o5, (_, done))) (λ _ _ bad. bad)

  pub restore_locally-Post :
      (w : State)
      → IsReady env settings c w.log
      → Obeys (Calm settings) w.log
      → Post Rehearsed
          (Kept env (Calm settings))
          (restore_locally env c (output settings) settings w)
  unfolding restore_locally
  restore_locally-Post w (l, config) o =
      let place : Place = given_place settings in
      after-throw_if env (Calm settings) _ _ w _ o λ named.
        after-call env (Calm settings) (read_manifest place) w ((l, tt), tt) o
          λ m w1 (read, k1, o1, _).
            and_then-Post (check_manifest-Post m place w1 (k1 _ _ l, k1 _ _ config) read o1)
              λ _ w2 (o2, k2, fitting).
                after-call env (Calm settings) (hash_file (resolve (dirname place) m.file)) w2
                  ((k2 _ _ (k1 _ _ l), tt), tt) o2
                  λ sum w3 (hashed, k3, o3, _).
                    after-throw_if env (Calm settings) _ _ w3 _ o3 λ matches.
                      after-gets env (Calm settings) (λ u. u.time) w3 _
                        (rehearse_in-Post m w3.time w3 (k3 _ _ (k2 _ _ (k1 _ _ l)))
                          (
                            IsFitting-kept k3 fitting,
                            subst (λ t. Did (hash_file (resolve (dirname place) m.file)) t w3.log)
                                (eq_of_guard sum m.sha256 matches) hashed,
                          )
                          o3)
