-- ===== src/Images/Recording.antt =====
-- deploy/images/record-digests.mjs: the digests of the images that one architecture has pushed.
use cartyx_infrastructure.Base.{
  ℕ, Text, text, List, [], ◌∷◌, ◌++◌, false, not, ◌==◌, Option, if◌then◌else◌, none, some,
  starts_with,
}
use cartyx_infrastructure.Script.{
  Env, Outcome, Script, World, call, pure, fail, throw_if, for_each, or_empty, ◌>>=◌, ◌>>◌,
}
use cartyx_infrastructure.Images.{ImageRecord, is_reference}

-- What `docker image inspect` says of an image.
pub record Details : Type 0 where
  pub id : Text
  pub repo_digests : List Text
  pub architecture : Text

-- What is written about an image.
pub record DigestRecord : Type 0 where
  pub image : Text
  pub digest : Text
  pub image_id : Text
  pub architecture : Text
  pub source_revision : Option Text

pub data Request : Type 0 where
  inspect_image : Text → Request
  write_record : Text → DigestRecord → Request

abbrev pub Answer : Request → Type 0
Answer (inspect_image image) = List Details
Answer _ = Unit

-- `CARTYX_CASSANDRA_IMAGE`, `CARTYX_JANUSGRAPH_IMAGE` and `GITHUB_SHA`.
pub record Settings : Type 0 where
  pub cassandra_image : Option Text
  pub janusgraph_image : Option Text
  pub revision : Option Text

abbrev pub State : Type 0
State = World Answer (Unit {0})

-- `s.split(':')[0]`
unfoldable pub before_colon : Text → Text
before_colon [] = []
before_colon (c ∷ s) = let rest = before_colon s in if c == b':' then [] else c ∷ rest

-- `RepoDigests.find(...)`
unfoldable pub digest_for : Text → List Text → Option Text
digest_for repository [] = none
digest_for repository (d ∷ ds) =
    let rest = digest_for repository ds in
    if starts_with d (repository ++ text "@sha256:") then some d else rest

-- `[details]`
unfoldable pub first_of : List Details → Script State Details
first_of [] = fail (text "Cannot read properties of undefined (reading 'RepoDigests')")
first_of (d ∷ ds) = pure d

-- The test of `digest`.
unfoldable pub published : Option Text → Script State Text
unfolding is_reference
published none = fail (text "Missing published digest")
published (some d) = do throw_if (not (is_reference d)) (text "Missing published digest"); pure d

-- What publish-manifests.mjs reads of the record.
abbrev pub read_back : DigestRecord → ImageRecord
read_back r = record {
  digest = r.digest;
  architecture = r.architecture;
  source_revision = r.source_revision;
}

module _ (env : Env Answer) where
  -- A body of the loop.
  unfoldable pub record_image : Option Text → Text × Option Text → Script State (Unit {0})
  unfolding before_colon digest_for first_of published
  record_image revision (name, variable) = do
    let image = or_empty variable
    throw_if (not (starts_with image (text "ghcr.io/"))) (text "Expected a GHCR candidate")
    answers ← call env (inspect_image image)
    details ← first_of answers
    digest ← published (digest_for (before_colon image) details.repo_digests)
    call env (
        write_record name (record {
          image = image;
          digest = digest;
          image_id = details.id;
          architecture = details.architecture;
          source_revision = revision;
        }))

  -- The whole script.
  unfoldable pub record_digests : Settings → Script State (Unit {0})
  unfolding record_image
  record_digests s =
      for_each
        ((text "cassandra", s.cassandra_image) ∷ (text "janusgraph", s.janusgraph_image) ∷ [])
        (record_image s.revision)

-- A run of the process.
abbrev pub run : Env Answer → Settings → ℕ → Outcome (Unit {0}) × State
run env s now = record_digests env s (record { log = []; time = now; cancelled = false; vars = tt })
