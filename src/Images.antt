-- ===== src/Images.antt =====
-- deploy/images/publish-manifests.mjs: the images of both architectures under one tag.
pub mod Trust
pub mod Publishing
pub mod Recording
pub mod Naming
pub mod Accepting
mod Tests
mod RecordingTests
use cartyx_infrastructure.Base.{
  ℕ, Text, text, List, [], ◌∷◌, ◌++◌, Bool, true, false, not, ◌||◌, ◌&&◌, ◌==◌, ltb, leb, Option,
  none, some, length, drop, ◌+◌, every, text_eq, starts_with, some_of, if◌then◌else◌,
}
use cartyx_infrastructure.Script.{
  Env, Outcome, Script, World, call, pure, throw_if, for_each, or_empty, ◌>>=◌, ◌>>◌,
}
use cartyx_infrastructure.Restore.Checks.{is_digest}

-- What deploy/images/record-digests.mjs wrote about an image.
pub record ImageRecord : Type 0 where
  pub digest : Text
  pub architecture : Text
  pub source_revision : Option Text

pub record Platform : Type 0 where
  pub os : Text
  pub architecture : Text

-- An entry of an index, which may have no platform.
abbrev pub Entry : Type 0
Entry = Option Platform

-- `read_record` reads the record of an image of an architecture, `inspect_digest` the digest of an
-- index, and `inspect_entries` its entries, if it has any.
pub data Request : Type 0 where
  read_record : Text → Text → Request
  create_index : Text → List Text → Request
  inspect_digest : Text → Request
  inspect_entries : Text → Request
  append_summary : Text → Text → Text → Request

abbrev pub Answer : Request → Type 0
Answer (read_record architecture name) = ImageRecord
Answer (inspect_digest tag) = Text
Answer (inspect_entries tag) = Option (List Entry)
Answer _ = Unit

-- `GITHUB_REPOSITORY_OWNER`, `GITHUB_RUN_ID`, `GITHUB_RUN_ATTEMPT` and `GITHUB_SHA`.
pub record Settings : Type 0 where
  pub owner : Option Text
  pub id : Option Text
  pub attempt : Option Text
  pub revision : Option Text

abbrev pub State : Type 0
State = World Answer (Unit {0})

abbrev pub is_lower : ℕ → Bool
is_lower c = leb b'a' c && leb c b'z'

abbrev pub is_digit : ℕ → Bool
is_digit c = leb b'0' c && leb c b'9'

-- /^[a-z0-9-]+$/
unfoldable pub is_owner : Text → Bool
is_owner s = ltb 0 (length s) && every (λ c. is_lower c || is_digit c || (c == b'-')) s

-- /^\d+$/
unfoldable pub is_number : Text → Bool
is_number s = ltb 0 (length s) && every is_digit s

-- What stands before the first `@`.
unfoldable pub before_at : Text → Text
before_at [] = []
before_at (c ∷ s) = let rest = before_at s in if c == b'@' then [] else c ∷ rest

abbrev pub is_name : Text → Bool
is_name s =
    ltb 0 (length s)
    && every (λ c. is_lower c || is_digit c || (c == b'.') || (c == b'/') || (c == b'-')) s

-- /^[a-z0-9./-]+@sha256:[a-f0-9]{64}$/
unfoldable pub is_reference : Text → Bool
unfolding before_at
is_reference s =
    is_name (before_at s)
    && starts_with (drop (length (before_at s)) s) (text "@sha256:")
    && is_digest (drop (length (before_at s) + 8) s)

-- /^sha256:[a-f0-9]{64}$/
unfoldable pub is_index_digest : Text → Bool
is_index_digest s = starts_with s (text "sha256:") && is_digest (drop 7 s)

-- `a === b`, where both can be undefined.
unfoldable pub same_value : Option Text → Option Text → Bool
same_value none none = true
same_value (some a) (some b) = text_eq a b
same_value _ _ = false

-- `a <= b`, by code units.
unfoldable pub text_le : Text → Text → Bool
text_le [] t = true
text_le (a ∷ s) [] = false
text_le (a ∷ s) (b ∷ t) = ltb a b || ((a == b) && text_le s t)

unfoldable pub insert : Text → List Text → List Text
unfolding text_le
insert s [] = s ∷ []
insert s (t ∷ ts) = let rest = insert s ts in if text_le s t then s ∷ t ∷ ts else t ∷ rest

-- `platforms`
unfoldable pub platforms_of : List Entry → List Text
unfolding insert
platforms_of [] = []
platforms_of (none ∷ entries) = platforms_of entries
platforms_of (some p ∷ entries) =
    let rest = platforms_of entries in
    if text_eq p.os (text "linux") then insert p.architecture rest else rest

unfoldable pub same_texts : List Text → List Text → Bool
same_texts [] [] = true
same_texts (s ∷ ss) (t ∷ ts) = text_eq s t && same_texts ss ts
same_texts _ _ = false

abbrev pub architectures : List Text
architectures = text "amd64" ∷ text "arm64" ∷ []

-- The test of `platforms`, which is undefined if the index has no entries.
unfoldable pub is_complete : Option (List Entry) → Bool
unfolding platforms_of same_texts
is_complete none = false
is_complete (some entries) = same_texts (platforms_of entries) architectures

-- `repository` and `tag`
abbrev pub repository_of : Text → Text → Text
repository_of owner name = text "ghcr.io/" ++ (owner ++ (text "/cartyx-" ++ name))

abbrev pub tag_of : Text → Text → Text → Text
tag_of repository id attempt = repository ++ (text ":build-" ++ (id ++ (text "-" ++ attempt)))

unfoldable pub is_mismatch : Text → Option Text → Text → ImageRecord → Bool
unfolding is_reference same_value
is_mismatch architecture revision repository r =
    not (text_eq r.architecture architecture)
    || not (same_value r.source_revision revision)
    || not (starts_with r.digest (repository ++ text "@sha256:"))
    || not (is_reference r.digest)

module _ (env : Env Answer) where
  -- A body of `map`.
  unfoldable pub verified_digest : Text → Option Text → Text → Text → Script State Text
  unfolding is_mismatch
  verified_digest architecture revision repository name = do
    r ← call env (read_record architecture name)
    throw_if (is_mismatch architecture revision repository r) (text "Mismatched verified artifact")
    pure r.digest

  -- A body of the loop over the names.
  unfoldable pub publish_image : Text → Text → Text → Option Text → Text → Script State (Unit {0})
  unfolding verified_digest is_complete is_index_digest
  publish_image owner id attempt revision name = do
    let repository = repository_of owner name
    let tag = tag_of repository id attempt
    first ← verified_digest (text "amd64") revision repository name
    second ← verified_digest (text "arm64") revision repository name
    call env (create_index tag (first ∷ second ∷ []))
    digest ← call env (inspect_digest tag)
    entries ← call env (inspect_entries tag)
    throw_if (not (is_complete entries))
        (text "Published index must contain both tested Linux architectures")
    throw_if (not (is_index_digest digest)) (text "Missing final index digest")
    call env (append_summary name (repository ++ (text "@" ++ digest)) tag)

  -- The whole script.
  unfoldable pub publish_images : Settings → Script State (Unit {0})
  unfolding publish_image is_owner is_number
  publish_images s = do
    throw_if
        (not (is_owner (or_empty s.owner))
          || not (is_number (or_empty s.id))
          || not (is_number (or_empty s.attempt)))
        (text "Invalid release identity")
    for_each (text "cassandra" ∷ text "janusgraph" ∷ [])
        (publish_image (or_empty s.owner) (or_empty s.id) (or_empty s.attempt) s.revision)

-- A run of the process.
abbrev pub run : Env Answer → Settings → ℕ → Outcome (Unit {0}) × State
run env s now = publish_images env s (record { log = []; time = now; cancelled = false; vars = tt })
