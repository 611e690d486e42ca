-- ===== src/Images/Publishing.antt =====
-- What deploy/images/publish-manifests.mjs knows of an image when it publishes it.
use mathlib.Core.Path.{subst}
use cartyx_infrastructure.Base.{
  ℕ, Text, text, List, [], ◌∷◌, ◌++◌, true, false, some, ◌≡◌, refl, true_of_guard,
}
use cartyx_infrastructure.Script.{Env, Log, Settled, called, Outcome, ok, or_empty}
use cartyx_infrastructure.Script.Post.{Post, returned, stopped, weaken-Post, and_then-Post}
use cartyx_infrastructure.Script.Discipline.{
  Did, Keeps, Obeys, Kept, Adds, just-call, after-call, after-throw_if, for_each-Post, Obeys-append,
  Post-Obeys,
}
use cartyx_infrastructure.Images.{
  Entry, Request, Answer, Settings, State, read_record, create_index, inspect_digest,
  inspect_entries, append_summary, is_index_digest, platforms_of, architectures, verified_digest,
  publish_image, publish_images, run,
}
use cartyx_infrastructure.Images.Trust.{
  repository, tag, IsVerified, IsPaired, Allowed, complete_platforms, match_parts,
}

module _ (env : Env Answer) (settings : Settings) where
  abbrev P : Request → Log Answer → Type 0
  P = Allowed settings

  IsVerified-kept :
      {architecture name digest : Text} {log log' : Log Answer}
      → Keeps log log'
      → IsVerified settings architecture name digest log
      → IsVerified settings architecture name digest log'
  IsVerified-kept k (r, read, a, b, c, d, e) = (r, k _ _ read, a, b, c, d, e)

  verified_digest-Post :
      (architecture name : Text) (w : State)
      → Obeys P w.log
      → Post
          (Adds env P (λ digest. IsVerified settings architecture name digest) w)
          (Kept env P)
          (verified_digest env architecture settings.revision (repository settings name) name w)
  unfolding verified_digest
  verified_digest-Post architecture name w o =
      after-call env P (read_record architecture name) w tt o λ r w1 (read, k1, o1, _).
        after-throw_if env P _ _ w1 _ o1 λ matches.
          let (a, b, c, d) =
            match_parts architecture settings.revision (repository settings name) r matches in
          returned (o1, k1, (r, read, a, b, c, d, refl))

  -- The image stands in the summary.
  abbrev pub IsSummed : Text → Log Answer → Type 0
  IsSummed name log =
      (reference : Text) × Did (append_summary name reference (tag settings name)) tt log

  publish_image-Post :
      (name : Text) (w : State)
      → Obeys P w.log
      → Post (Adds env P (λ _. IsSummed name) w) (Kept env P) (
          publish_image env
            (or_empty settings.owner)
            (or_empty settings.id)
            (or_empty settings.attempt)
            settings.revision
            name
            w)
  unfolding publish_image
  publish_image-Post name w o =
      let t : Text = tag settings name in
      and_then-Post (verified_digest-Post (text "amd64") name w o) λ first w1 (o1, k1, v1).
        and_then-Post (verified_digest-Post (text "arm64") name w1 o1) λ second w2 (o2, k2, v2).
          let digests : List Text = first ∷ second ∷ [] in
          let index : IsPaired settings name digests w2.log =
            (first, second, refl, IsVerified-kept k2 v1, v2) in
          after-call env P (create_index t digests) w2 (name, refl, index) o2
            λ _ w3 (created, k3, o3, _).
              after-call env P (inspect_digest t) w3 tt o3 λ digest w4 (has, k4, o4, _).
                after-call env P (inspect_entries t) w4 tt o4 λ answer w5 (listed, k5, o5, _).
                  after-throw_if env P _ _ w5 _ o5 λ complete.
                    after-throw_if env P _ _ w5 _ o5 λ proper.
                      let (entries, same, both_there) =
                        complete_platforms answer (true_of_guard _ complete) in
                      let k : Keeps w2.log w5.log = λ q a x. k5 q a (k4 q a (k3 q a x)) in
                      weaken-Post
                        (just-call env P
                          (append_summary name (repository settings name ++ (text "@" ++ digest)) t)
                          w5
                          (
                            digests,
                            digest,
                            entries,
                            (refl, refl),
                            (
                              k5 _ _ (k4 _ _ created),
                              (
                                first,
                                second,
                                refl,
                                IsVerified-kept k (IsVerified-kept k2 v1),
                                IsVerified-kept k v2,
                              ),
                            ),
                            (k5 _ _ has, true_of_guard _ proper),
                            (subst (λ x. Did (inspect_entries t) x w5.log) same listed, both_there),
                          )
                          o5)
                        (λ _ w6 (done, k6, o6, _).
                          (o6, (λ q a x. k6 q a (k q a (k2 q a (k1 q a x)))), (_, done)))
                        (λ _ _ bad. bad)

  abbrev pub Publishes : Unit {0} → State → Type 0
  Publishes _ w =
      Obeys P w.log × (IsSummed (text "cassandra") w.log × IsSummed (text "janusgraph") w.log)

  run-Post : (now : ℕ) → Post Publishes (Kept env P) (run env settings now)
  unfolding publish_images
  run-Post now =
      let w : State = record { log = []; time = now; cancelled = false; vars = tt } in
      after-throw_if env P _ _ w _ tt λ known.
        weaken-Post
          (for_each-Post env P (λ name. IsSummed name)
            (λ _ _ _ k (reference, d). (reference, k _ _ d))
            (publish_image env (or_empty settings.owner) (or_empty settings.id)
              (or_empty settings.attempt) settings.revision)
            w (λ name u _ ou. publish_image-Post name u ou)
            (text "cassandra" ∷ text "janusgraph" ∷ []) w (λ _ _ x. x) tt)
          (λ _ _ (o1, _, (first, (second, _))). (o1, (first, second))) (λ _ _ bad. bad)

  -- Whenever a run creates an index, it is for the tag of an image's repository and of this run, and
  -- is made of one digest for each architecture, which was recorded for this image, this architecture
  -- and this revision, and names the repository and a SHA-256 hash.
  pub index-IsVerified :
      (now : ℕ) (later log : Log Answer) (t : Text) (digests : List Text) (r : Settled (Unit {0}))
      → (run env settings now).1.log ≡ later ++ (called (create_index t digests) r ∷ log)
      → (name : Text) × (t ≡ tag settings name) × IsPaired settings name digests log
  index-IsVerified now later log t digests r e =
      Obeys-append P later (create_index t digests) r log (rw e at (Post-Obeys P (run-Post now)))

  -- Whenever a run puts an image into the summary, its index was created of one digest for each
  -- architecture, which was recorded for this image, this architecture and this revision, the index
  -- under the tag has just the two Linux architectures, and the reference is the repository with the
  -- hash of this index.
  pub summary-IsPublished :
      (now : ℕ) (later log : Log Answer) (name reference t : Text) (r : Settled (Unit {0}))
      → (run env settings now).1.log ≡ later ++ (called (append_summary name reference t) r ∷ log)
      → (digests : List Text) × (digest : Text) × (entries : List Entry) × ((t ≡ tag settings name)
          × (reference ≡ repository settings name ++ (text "@" ++ digest)))
        × (Did (create_index t digests) tt log × IsPaired settings name digests log)
        × (Did (inspect_digest t) digest log × (is_index_digest digest ≡ true))
        × (Did (inspect_entries t) (some entries) log × (platforms_of entries ≡ architectures))
  summary-IsPublished now later log name reference t r e =
      Obeys-append P later (append_summary name reference t) r log
        (rw e at (Post-Obeys P (run-Post now)))

  -- A run that ends without an error has put both images into the summary, under the tag of the run.
  pub publication_success-IsSummed :
      (now : ℕ)
      → (run env settings now).0 ≡ ok tt
      → IsSummed (text "cassandra") (run env settings now).1.log
        × IsSummed (text "janusgraph") (run env settings now).1.log
  publication_success-IsSummed now e = published (run-Post now) e
    where
      published :
          {r : Outcome (Unit {0}) × State}
          → Post Publishes (Kept env P) r
          → r.0 ≡ ok tt
          → IsSummed (text "cassandra") r.1.log × IsSummed (text "janusgraph") r.1.log
      published (returned p) e = p.1
      published (stopped p) e = cc e
