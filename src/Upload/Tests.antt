-- ===== src/Upload/Tests.antt =====
-- Runs of deploy/data/backup-upload.mjs, and the theorems at one of them.
use cartyx_infrastructure.Base.{
  false, Text, text, [], ◌∷◌, ◌++◌, some, drop, ◌≡◌, refl, text_eq, starts_with,
}
use cartyx_infrastructure.Script.{
  Env, Log, Settled, resolved, called, ok, call, after_call, and_then, finishing,
}
use cartyx_infrastructure.Upload.{
  LocalManifest, Request, Answer, Settings, read_manifest, hash_beside, size_beside, put_archive,
  hash_stored, put_manifest, trimmed, last_segment, basename, object_key, send, upload, run,
}
use cartyx_infrastructure.Upload.Checked.{IsChecked, IsStored, publication-IsStored}

abbrev manifest : LocalManifest
unfolding text
manifest = record {
  file = text "a.tar.gz";
  sha256 = text "5a";
  environment = text "local";
  id = text "i";
}

abbrev answer : (q : Request) → Settled (Answer q)
unfolding text manifest
answer (read_manifest path) = resolved manifest
answer (hash_beside file) = resolved (text "5a")
answer (size_beside file) = resolved 10
answer (put_archive key size) = resolved tt
answer (hash_stored key) = resolved (text "5a")
answer (put_manifest key m) = resolved tt

abbrev healthy : Env Answer
healthy = record {
  answer = λ q log. record { result = answer q; elapsed = 1; signalled = false };
  oversleep = λ log. record { result = resolved tt; elapsed = 0; signalled = false };
}

abbrev settings : Settings
unfolding text
settings = record {
  manifest_path = some (text "a.json");
  endpoint = some (text "https://e");
  bucket = some (text "b");
  access_key = some (text "k");
  secret_key = some (text "s");
}

abbrev archive_key : Text
unfolding text
archive_key = text "cartyx-data/local/i/a.tar.gz"

abbrev trace : Log Answer
unfolding text
trace =
    called (put_manifest (archive_key ++ text ".json") manifest) (resolved tt)
    ∷ called (hash_stored archive_key) (resolved (text "5a"))
    ∷ called (put_archive archive_key 10) (resolved tt)
    ∷ called (size_beside (text "a.tar.gz")) (resolved 10)
    ∷ called (size_beside (text "a.tar.gz")) (resolved 10)
    ∷ called (hash_beside (text "a.tar.gz")) (resolved (text "5a"))
    ∷ called (read_manifest (text "a.json")) (resolved manifest)
    ∷ []

healthy-trace : (run healthy settings 0).1.log ≡ trace
unfolding text text_eq starts_with call after_call and_then finishing trimmed last_segment basename
    send upload manifest settings archive_key trace answer
healthy-trace = refl

healthy-outcome : (run healthy settings 0).0 ≡ ok tt
unfolding text text_eq starts_with call after_call and_then finishing trimmed last_segment basename
    send upload manifest settings archive_key answer
healthy-outcome = refl

publication-IsStored_example :
    (archive_key ++ text ".json" ≡ object_key manifest ++ text ".json")
    × IsChecked settings manifest (drop 1 trace)
    × IsStored manifest (drop 1 trace)
unfolding trace
publication-IsStored_example =
    publication-IsStored healthy settings 0 [] (drop 1 trace) (archive_key ++ text ".json") manifest
      (resolved tt) healthy-trace
