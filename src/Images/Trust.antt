-- ===== src/Images/Trust.antt =====
-- When each call of deploy/images/publish-manifests.mjs is founded.
use cartyx_infrastructure.Base.{
  Text, text, List, [], ◌∷◌, ◌++◌, true, false, not, ◌||◌, Option, none, some, ◌≡◌, refl, ap, arith,
  Bool, ◌&&◌, text_eq, eq_of_guard, eq_of_text_eq, true_of_guard, both_of_guard, starts_with,
}
use cartyx_infrastructure.Script.{Log, or_empty}
use cartyx_infrastructure.Script.Discipline.{Did}
use cartyx_infrastructure.Images.{
  ImageRecord, Entry, Request, Answer, Settings, read_record, create_index, inspect_digest,
  inspect_entries, append_summary, is_reference, is_index_digest, same_value, platforms_of,
  same_texts, architectures, is_complete, repository_of, tag_of, is_mismatch,
}

pub same_value-eq : (a b : Option Text) → same_value a b ≡ true → a ≡ b
unfolding same_value
same_value-eq none none h = refl
same_value-eq (some a) (some b) h = ap some (eq_of_text_eq a b h)
same_value-eq none (some b) h = cc h
same_value-eq (some a) none h = cc h

pub both : (a b : Bool) → a && b ≡ true → (a ≡ true) × (b ≡ true)
both a b h = (ground arith, ground arith)

pub same_texts-eq : (ss ts : List Text) → same_texts ss ts ≡ true → ss ≡ ts
unfolding same_texts
same_texts-eq [] [] h = refl
same_texts-eq [] (t ∷ ts) h = cc h
same_texts-eq (s ∷ ss) [] h = cc h
same_texts-eq (s ∷ ss) (t ∷ ts) h =
    let (same, rest) = both (text_eq s t) (same_texts ss ts) h in
    rw (eq_of_text_eq s t same, same_texts-eq ss ts rest) refl

module _ (settings : Settings) where
  abbrev pub repository : Text → Text
  repository name = repository_of (or_empty settings.owner) name

  abbrev pub tag : Text → Text
  tag name = tag_of (repository name) (or_empty settings.id) (or_empty settings.attempt)

  -- The digest was recorded for this architecture, of this revision, and is one of the repository.
  abbrev pub IsVerified : Text → Text → Text → Log Answer → Type 0
  IsVerified architecture name digest log =
      (r : ImageRecord) × Did (read_record architecture name) r log
      × (r.architecture ≡ architecture)
      × (r.source_revision ≡ settings.revision)
      × (starts_with r.digest (repository name ++ text "@sha256:") ≡ true)
      × (is_reference r.digest ≡ true)
      × (digest ≡ r.digest)

  -- The index of an image is made of the verified digest of each architecture.
  abbrev pub IsPaired : Text → List Text → Log Answer → Type 0
  IsPaired name digests log =
      (first : Text) × (second : Text) × (digests ≡ first ∷ second ∷ [])
      × IsVerified (text "amd64") name first log
      × IsVerified (text "arm64") name second log

  -- When each call is allowed.
  abbrev pub Allowed : Request → Log Answer → Type 0
  Allowed (create_index t digests) log = (name : Text) × (t ≡ tag name) × IsPaired name digests log
  Allowed (append_summary name reference t) log =
      (digests : List Text) × (digest : Text) × (entries : List Entry) × ((t ≡ tag name)
        × (reference ≡ repository name ++ (text "@" ++ digest)))
      × (Did (create_index t digests) tt log × IsPaired name digests log)
      × (Did (inspect_digest t) digest log × (is_index_digest digest ≡ true))
      × (Did (inspect_entries t) (some entries) log × (platforms_of entries ≡ architectures))
  Allowed _ log = Unit

pub complete_platforms :
    (answer : Option (List Entry))
    → is_complete answer ≡ true
    → (entries : List Entry) × (answer ≡ some entries) × (platforms_of entries ≡ architectures)
unfolding is_complete
complete_platforms none h = cc h
complete_platforms (some entries) h = (entries, refl, same_texts-eq _ _ h)

-- What the guard of a record shows.
pub match_parts :
    (architecture : Text) (revision : Option Text) (repository : Text) (r : ImageRecord)
    → is_mismatch architecture revision repository r ≡ false
    → (r.architecture ≡ architecture)
      × (r.source_revision ≡ revision)
      × (starts_with r.digest (repository ++ text "@sha256:") ≡ true)
      × (is_reference r.digest ≡ true)
unfolding is_mismatch
match_parts architecture revision repository r h =
    let (abc, d) =
      both_of_guard
        (not (text_eq r.architecture architecture)
          || not (same_value r.source_revision revision)
          || not (starts_with r.digest (repository ++ text "@sha256:")))
        (not (is_reference r.digest)) h in
    let (ab, c) =
      both_of_guard
        (not (text_eq r.architecture architecture) || not (same_value r.source_revision revision))
        (not (starts_with r.digest (repository ++ text "@sha256:"))) abc in
    let (a, b) =
      both_of_guard (not (text_eq r.architecture architecture))
        (not (same_value r.source_revision revision)) ab in
    (eq_of_guard _ _ a, same_value-eq _ _ (true_of_guard _ b), true_of_guard _ c, true_of_guard _ d)
