-- ===== src/Images/Accepting.antt =====
-- How deploy/images/record-digests.mjs and deploy/images/publish-manifests.mjs meet: the record of one
-- passes the guard of the other.
use mathlib.Core.Path.{subst}
use mathlib.Core.List.{Memᴰ}
use cartyx_infrastructure.Base.{
  ℕ, Text, text, List, [], ◌∷◌, ◌++◌, true, false, Option, none, some, ◌≡◌, ◌⊎◌, inl, inr, refl,
  ◌∙◌, Bool-cases, starts_with, text_eq_refl,
}
use cartyx_infrastructure.Script.{Env, Log, Settled, called, or_empty, for_each, and_then}
use cartyx_infrastructure.Script.Post.{Post, returned, stopped, weaken-Post, and_then-Post}
use cartyx_infrastructure.Script.Discipline.{
  Did, IsThrow, Obeys, Kept, just-call, after-call, after-throw_if, Obeys-append, Post-Obeys,
}
use cartyx_infrastructure.Images.{is_owner, is_reference, repository_of, is_mismatch}
use cartyx_infrastructure.Images.Recording.{
  Details, DigestRecord, Request, Answer, Settings, State, inspect_image, write_record,
  before_colon, digest_for, first_of, published, read_back, record_image, record_digests, run,
}
use cartyx_infrastructure.Images.Naming.{
  HasNoColon, HasNoColon-append, before_colon-append, is_owner-HasNoColon, same_value_refl,
  digest_for-prefix, digest_for-Memᴰ,
}

-- Docker said this of the record's image: the record has its identity and its architecture, and one
-- of its digests.
abbrev pub IsInspected : DigestRecord → Details → Log Answer → Type 0
IsInspected r d log =
    ((ds : List Details) × Did (inspect_image r.image) (d ∷ ds) log)
    × (r.image_id ≡ d.id)
    × (r.architecture ≡ d.architecture)
    × Memᴰ r.digest d.repo_digests

module _ (settings : Settings) where
  -- The image is the one that this name stands for.
  abbrev IsNamed : Text → Text → Type 0
  IsNamed name image =
      ((name ≡ text "cassandra") × (image ≡ or_empty settings.cassandra_image))
      ⊎ ((name ≡ text "janusgraph") × (image ≡ or_empty settings.janusgraph_image))

  -- When each call is allowed.
  abbrev Allowed : Request → Log Answer → Type 0
  Allowed (write_record name r) log =
      IsNamed name r.image
      × (starts_with r.digest (before_colon r.image ++ text "@sha256:") ≡ true)
      × (is_reference r.digest ≡ true)
      × (r.source_revision ≡ settings.revision)
      × ((d : Details) × IsInspected r d log)
  Allowed _ log = Unit

  first_of-Post :
      (ds : List Details) (w : State)
      → Obeys Allowed w.log
      → Post
          (λ d w'. (w' ≡ w) × ((rest : List Details) × (ds ≡ d ∷ rest)))
          (λ h w'. IsThrow h × Obeys Allowed w'.log)
          (first_of ds w)
  unfolding first_of
  first_of-Post [] w o = stopped (tt, o)
  first_of-Post (d ∷ ds) w o = returned (refl, (ds, refl))

  published-Post :
      (found : Option Text) (w : State)
      → Obeys Allowed w.log
      → Post
          (λ d w'. (w' ≡ w) × (found ≡ some d) × (is_reference d ≡ true))
          (λ h w'. IsThrow h × Obeys Allowed w'.log)
          (published found w)
  unfolding published and_then
  published-Post none w o = stopped (tt, o)
  published-Post (some d) w o = elim (Bool-cases (is_reference d)) [
    | inl fits ↦ rw fits (returned (refl, refl, fits))
    | inr other ↦ rw other (stopped (tt, o))
  ]

  module _ (env : Env Answer) where
    record_image-Post :
        (name : Text) (variable : Option Text) (w : State)
        → IsNamed name (or_empty variable)
        → Obeys Allowed w.log
        → Post
            (λ _ w'. Obeys Allowed w'.log)
            (Kept env Allowed)
            (record_image env settings.revision (name, variable) w)
    unfolding record_image
    record_image-Post name variable w named o =
        let image : Text = or_empty variable in
        after-throw_if env Allowed _ _ w _ o λ _.
          after-call env Allowed (inspect_image image) w tt o λ answers w1 (asked, _, o1, _).
            and_then-Post (first_of-Post answers w1 o1) λ details w2 (e2, (rest, first)).
              and_then-Post
                (published-Post (digest_for (before_colon image) details.repo_digests) w2
                  (rw e2 o1))
                λ d w3 (e3, found, fits).
                  weaken-Post
                    (just-call env Allowed (write_record name _) w3
                      (
                        named,
                        digest_for-prefix (before_colon image) d _ found,
                        fits,
                        refl,
                        (
                          details,
                          (
                            (
                              rest,
                              rw (e3, e2)
                                  (subst (λ ds. Did (inspect_image image) ds w1.log) first asked),
                            ),
                            refl,
                            refl,
                            digest_for-Memᴰ (before_colon image) d _ found,
                          ),
                        ),
                      )
                      (rw (e3, e2) o1))
                    (λ _ _ (_, _, o4, _). o4) (λ _ _ x. x)

    run-Post :
        (now : ℕ)
        → Post (λ _ w'. Obeys Allowed w'.log × Unit {0}) (Kept env Allowed) (run env settings now)
    unfolding record_digests for_each
    run-Post now =
        and_then-Post
          (record_image-Post (text "cassandra") settings.cassandra_image _ (inl (refl, refl)) tt)
          λ _ w1 o1.
            and_then-Post
              (record_image-Post (text "janusgraph") settings.janusgraph_image w1 (inr (refl, refl))
                o1)
              λ _ w2 o2. returned (o2, tt)

repository_of-HasNoColon :
    (owner name : Text)
    → is_owner owner ≡ true
    → HasNoColon name
    → HasNoColon (repository_of owner name)
unfolding text
repository_of-HasNoColon owner name h n =
    HasNoColon-append (text "ghcr.io/") (owner ++ (text "/cartyx-" ++ name)) refl (
      HasNoColon-append owner (text "/cartyx-" ++ name) (is_owner-HasNoColon owner h)
        (HasNoColon-append (text "/cartyx-") name refl n))

accepted :
    (revision : Option Text) (owner name tag : Text) (r : DigestRecord)
    → is_owner owner ≡ true
    → HasNoColon name
    → r.image ≡ repository_of owner name ++ (text ":" ++ tag)
    → starts_with r.digest (before_colon r.image ++ text "@sha256:") ≡ true
    → is_reference r.digest ≡ true
    → r.source_revision ≡ revision
    → is_mismatch r.architecture revision (repository_of owner name) (read_back r) ≡ false
unfolding is_mismatch
accepted revision owner name tag r proper n image starts fits same =
    let cut : before_colon r.image ≡ repository_of owner name =
      rw
        (
          image,
          before_colon-append (repository_of owner name) tag
              (repository_of-HasNoColon owner name proper n),
        )
        refl in
    rw (text_eq_refl r.architecture, same, same_value_refl revision, (rw cut at starts), fits) refl

module _ (env : Env Answer) (settings : Settings) where
  -- Whenever record-digests.mjs writes a record about an image of an owner with a proper name, docker
  -- was asked about this image, the record has the identity and one of the digests that docker gave,
  -- and publish-manifests.mjs accepts the record at the same revision and under the architecture that
  -- docker gave, provided that both images are named as publish-manifests.mjs names their
  -- repositories, with some tag.
  pub record-IsAccepted :
      (now : ℕ) (owner cassandra_tag janusgraph_tag : Text)
      → is_owner owner ≡ true
      → or_empty settings.cassandra_image
        ≡ repository_of owner (text "cassandra") ++ (text ":" ++ cassandra_tag)
      → or_empty settings.janusgraph_image
        ≡ repository_of owner (text "janusgraph") ++ (text ":" ++ janusgraph_tag)
      → (later log : Log Answer) (name : Text) (r : DigestRecord) (s : Settled (Unit {0}))
      → (run env settings now).1.log ≡ later ++ (called (write_record name r) s ∷ log)
      → (d : Details) × IsInspected r d log
        × (is_mismatch d.architecture settings.revision (repository_of owner name) (read_back r)
            ≡ false)
  unfolding text
  record-IsAccepted now owner t t' proper cassandra janusgraph later log name r s e =
      let (named, starts, fits, same, (d, inspected)) =
        Obeys-append (Allowed settings) later (write_record name r) s log
          (rw e at (Post-Obeys (Allowed settings) (run-Post settings env now))) in
      let mine : is_mismatch r.architecture settings.revision (repository_of owner name)
            (read_back r)
          ≡ false =
        elim named [
          | inl (c, image) ↦ rw c (
              accepted settings.revision owner (text "cassandra") t r proper refl
                (image ∙ cassandra) starts fits same)
          | inr (j, image) ↦ rw j (
              accepted settings.revision owner (text "janusgraph") t' r proper refl
                (image ∙ janusgraph) starts fits same)
        ] in
      (
        d,
        inspected,
        subst
            (λ a. is_mismatch a settings.revision (repository_of owner name) (read_back r) ≡ false)
            inspected.2 mine,
      )
