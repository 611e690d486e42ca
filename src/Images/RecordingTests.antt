-- ===== src/Images/RecordingTests.antt =====
-- Records by deploy/images/record-digests.mjs, and the theorem that publish-manifests.mjs accepts them.
use cartyx_infrastructure.Base.{
  Text, text, [], ◌∷◌, ◌++◌, Bool, true, false, some, take, drop, ◌≡◌, refl, starts_with,
}
use cartyx_infrastructure.Script.{
  Env, Log, Settled, resolved, called, stop, throw, call, after_call, and_then, for_each,
}
use cartyx_infrastructure.Restore.Checks.{is_digest}
use cartyx_infrastructure.Images.{is_owner, before_at, is_reference, is_mismatch, repository_of}
use cartyx_infrastructure.Images.Recording.{
  Details, DigestRecord, Request, Answer, Settings, inspect_image, write_record, before_colon,
  digest_for, first_of, published, read_back, record_image, record_digests, run,
}
use cartyx_infrastructure.Images.Accepting.{IsInspected, record-IsAccepted}

abbrev candidates : Settings
unfolding text
candidates = record {
  cassandra_image = some (text "ghcr.io/o/cartyx-cassandra:c");
  janusgraph_image = some (text "ghcr.io/o/cartyx-janusgraph:j");
  revision = some (text "r");
}

abbrev hash : Text
unfolding text
hash = text "@sha256:0123456789abcdef0123456789abcdef0123456789abcdef0123456789abcdef"

-- An image that was also pushed to another registry.
abbrev details_of : Text → Details
unfolding text hash before_colon
details_of image = record {
  id = text "i";
  repo_digests = (text "example.org/x" ++ hash) ∷ (before_colon image ++ hash) ∷ [];
  architecture = text "arm64";
}

abbrev answer : Bool → (q : Request) → Settled (Answer q)
unfolding details_of
answer true (inspect_image image) = resolved (details_of image ∷ [])
answer false (inspect_image image) = resolved []
answer there (write_record name r) = resolved tt

abbrev docker : Bool → Env Answer
docker there = record {
  answer = λ q log. record { result = answer there q; elapsed = 1; signalled = false };
  oversleep = λ log. record { result = resolved tt; elapsed = 0; signalled = false };
}

abbrev recorded : Text → DigestRecord
unfolding text details_of hash before_colon
recorded image = record {
  image = image;
  digest = before_colon image ++ hash;
  image_id = text "i";
  architecture = text "arm64";
  source_revision = some (text "r");
}

abbrev cassandra : Text
unfolding text
cassandra = text "ghcr.io/o/cartyx-cassandra:c"

abbrev janusgraph : Text
unfolding text
janusgraph = text "ghcr.io/o/cartyx-janusgraph:j"

abbrev both : Log Answer
unfolding text cassandra janusgraph details_of recorded
both =
    called (write_record (text "janusgraph") (recorded janusgraph)) (resolved tt)
    ∷ called (inspect_image janusgraph) (resolved (details_of janusgraph ∷ []))
    ∷ called (write_record (text "cassandra") (recorded cassandra)) (resolved tt)
    ∷ called (inspect_image cassandra) (resolved (details_of cassandra ∷ []))
    ∷ []

both-trace : (run (docker true) candidates 0).1.log ≡ both
unfolding text starts_with call after_call and_then for_each is_digest before_at is_reference
    before_colon digest_for first_of published record_image record_digests candidates hash
    details_of answer recorded cassandra janusgraph both
both-trace = refl

-- An image that docker does not know.
missing :
    (run (docker false) candidates 0).0
    ≡ stop (throw (text "Cannot read properties of undefined (reading 'RepoDigests')"))
unfolding text starts_with call after_call and_then for_each first_of record_image record_digests
    candidates answer
missing = refl

record-IsAccepted_example :
    (d : Details) × IsInspected (recorded cassandra) d (drop 3 both)
    × (is_mismatch d.architecture
          (some (text "r"))
          (repository_of (text "o") (text "cassandra"))
          (read_back (recorded cassandra))
        ≡ false)
unfolding text candidates recorded cassandra both is_owner
record-IsAccepted_example =
    record-IsAccepted (docker true) candidates 0 (text "o") (text "c") (text "j") refl refl refl
      (take 2 both) (drop 3 both) (text "cassandra") (recorded cassandra) (resolved tt) both-trace
