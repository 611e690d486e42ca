-- ===== src/Images/Tests.antt =====
-- Publications by deploy/images/publish-manifests.mjs, and the theorems at them.
use cartyx_infrastructure.Base.{
  Text, text, List, [], ◌∷◌, ◌++◌, true, false, none, some, take, drop, ◌≡◌, refl, text_eq,
  starts_with,
}
use cartyx_infrastructure.Script.{
  Env, Log, Settled, resolved, called, ok, call, after_call, and_then, for_each,
}
use cartyx_infrastructure.Script.Discipline.{Did}
use cartyx_infrastructure.Restore.Checks.{is_digest}
use cartyx_infrastructure.Images.{
  ImageRecord, Entry, Request, Answer, Settings, read_record, create_index, inspect_digest,
  inspect_entries, append_summary, is_owner, is_number, before_at, is_reference, is_index_digest,
  same_value, text_le, insert, platforms_of, same_texts, architectures, is_complete, is_mismatch,
  verified_digest, publish_image, publish_images, run,
}
use cartyx_infrastructure.Images.Trust.{repository, tag, IsPaired}
use cartyx_infrastructure.Images.Publishing.{index-IsVerified, summary-IsPublished}

abbrev release : Settings
unfolding text
release = record {
  owner = some (text "o");
  id = some (text "7");
  attempt = some (text "1");
  revision = some (text "r");
}

abbrev hash : Text
unfolding text
hash = text "sha256:0123456789abcdef0123456789abcdef0123456789abcdef0123456789abcdef"

abbrev digest_of : Text → Text
unfolding text release hash
digest_of name = repository release name ++ (text "@" ++ hash)

abbrev record_of : Text → Text → ImageRecord
unfolding text digest_of
record_of architecture name = record {
  digest = digest_of name;
  architecture = architecture;
  source_revision = some (text "r");
}

-- An index of both architectures, with the attestation that has no platform.
abbrev entries : List Entry
unfolding text
entries =
    some (record { os = text "linux"; architecture = text "arm64" })
    ∷ some (record { os = text "unknown"; architecture = text "unknown" })
    ∷ none
    ∷ some (record { os = text "linux"; architecture = text "amd64" })
    ∷ []

abbrev answer : (q : Request) → Settled (Answer q)
unfolding text record_of hash entries
answer (read_record architecture name) = resolved (record_of architecture name)
answer (create_index t digests) = resolved tt
answer (inspect_digest t) = resolved hash
answer (inspect_entries t) = resolved (some entries)
answer (append_summary name reference t) = resolved tt

abbrev registry : Env Answer
unfolding answer
registry = record {
  answer = λ q log. record { result = answer q; elapsed = 1; signalled = false };
  oversleep = λ log. record { result = resolved tt; elapsed = 0; signalled = false };
}

abbrev cassandra : Text
unfolding text
cassandra = text "cassandra"

abbrev cassandra_tag : Text
unfolding text release cassandra
cassandra_tag = tag release cassandra

-- The calls of an image.
abbrev published : Text → Log Answer → Log Answer
unfolding text release digest_of record_of hash entries
published name log =
    called (append_summary name (digest_of name) (tag release name)) (resolved tt)
    ∷ called (inspect_entries (tag release name)) (resolved (some entries))
    ∷ called (inspect_digest (tag release name)) (resolved hash)
    ∷ called (create_index (tag release name) (digest_of name ∷ digest_of name ∷ [])) (resolved tt)
    ∷ called (read_record (text "arm64") name) (resolved (record_of (text "arm64") name))
    ∷ called (read_record (text "amd64") name) (resolved (record_of (text "amd64") name))
    ∷ log

abbrev log_of_both : Log Answer
unfolding text cassandra published
log_of_both = published (text "janusgraph") (published cassandra [])

both-trace : (run registry release 0).1.log ≡ log_of_both
unfolding text text_eq starts_with call after_call and_then for_each is_digest is_owner is_number
    before_at is_reference is_index_digest same_value text_le insert platforms_of same_texts
    is_complete is_mismatch verified_digest publish_image publish_images release hash digest_of
    record_of entries answer registry cassandra published log_of_both
both-trace = refl

both-outcome : (run registry release 0).0 ≡ ok tt
unfolding text text_eq starts_with call after_call and_then for_each is_digest is_owner is_number
    before_at is_reference is_index_digest same_value text_le insert platforms_of same_texts
    is_complete is_mismatch verified_digest publish_image publish_images release hash digest_of
    record_of entries answer registry
both-outcome = refl

-- An uppercase owner is refused before any call.
refused : (run registry (record release { owner = some (text "O") }) 0).1.log ≡ []
unfolding text and_then is_owner is_number publish_images release registry
refused = refl

index-IsVerified_example :
    (name : Text) × (cassandra_tag ≡ tag release name)
    × IsPaired release name (digest_of cassandra ∷ digest_of cassandra ∷ []) (drop 10 log_of_both)
unfolding log_of_both published cassandra_tag
index-IsVerified_example =
    index-IsVerified registry release 0 (take 9 log_of_both) (drop 10 log_of_both) cassandra_tag
      (digest_of cassandra ∷ digest_of cassandra ∷ []) (resolved tt) both-trace

summary-IsPublished_example :
    (digests : List Text) × (digest : Text) × (es : List Entry) × ((cassandra_tag
        ≡ tag release cassandra)
      × (digest_of cassandra ≡ repository release cassandra ++ (text "@" ++ digest)))
    × (Did (create_index cassandra_tag digests) tt (drop 7 log_of_both)
        × IsPaired release cassandra digests (drop 7 log_of_both))
    × (Did (inspect_digest cassandra_tag) digest (drop 7 log_of_both)
        × (is_index_digest digest ≡ true))
    × (Did (inspect_entries cassandra_tag) (some es) (drop 7 log_of_both)
        × (platforms_of es ≡ architectures))
unfolding log_of_both published cassandra_tag
summary-IsPublished_example =
    summary-IsPublished registry release 0 (take 6 log_of_both) (drop 7 log_of_both) cassandra
      (digest_of cassandra) cassandra_tag (resolved tt) both-trace
