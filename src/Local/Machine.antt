-- ===== src/Local/Machine.antt =====
-- A machine on which the runs of deploy/data/backup.mjs are tested.
use cartyx_infrastructure.Base.{ℕ, Text, text, [], ◌∷◌, false, some, text_eq, if◌then◌else◌}
use cartyx_infrastructure.Script.{Env, Settled, resolved}
use cartyx_infrastructure.Local.Places.{Place}
use cartyx_infrastructure.Local.Requests.{
  Configured, Container, ArchiveManifest, Request, Answer, read_config, ensure_directory,
  create_lock, remove_lock, find_container, inspect, stop_service, drain, save_volume, receive,
  hash_file, write_manifest, start_services, read_manifest, image_id, create_volume, extract,
  write_override, start_restored, smoke_test,
}
use cartyx_infrastructure.Local.Saving.{manifest_of}

unfoldable pub configured : Configured
unfolding text
configured = record { cassandra = text "c"; janusgraph = text "j@sha256:1" }

unfoldable pub details : Container
unfolding text
details = record {
  image = text "i";
  config_image = text "c";
  mounts = record { destination = text "/var/lib/cassandra"; name = some (text "v") } ∷ [];
}

unfoldable pub graph : Container
unfolding text
graph = record { image = text "k"; config_image = text "j@sha256:1"; mounts = [] }

unfoldable pub name : Text
unfolding text
name = text "local-1970-01-01T00-00-00-003Z.tar.gz"

unfoldable pub archive_file : Place
unfolding text name
archive_file = name ∷ text "backups" ∷ text ".local" ∷ text "r" ∷ []

unfoldable pub manifest : ArchiveManifest
unfolding name text configured details graph manifest_of archive_file
manifest =
    manifest_of configured details graph (text "local-1970-01-01T00-00-00-003Z") archive_file
      (text "1970-01-01T00:00:00.012Z") (text "5a")

-- A machine whose tar ends with an exit code.
unfoldable pub answer : ℕ → (q : Request) → Settled (Answer q)
unfolding text configured details graph manifest
answer code (read_config) = resolved configured
answer code (find_container service) = resolved service
answer code (inspect container) =
    resolved (if text_eq container (text "cassandra") then details else graph)
answer code (save_volume volume image) = resolved (some code)
answer code (hash_file p) = resolved (text "5a")
answer code (read_manifest p) = resolved manifest
answer code (image_id image) = resolved (text "i")
answer code (ensure_directory p) = resolved tt
answer code (create_lock p) = resolved tt
answer code (remove_lock p) = resolved tt
answer code (stop_service service seconds) = resolved tt
answer code (drain) = resolved tt
answer code (receive p) = resolved tt
answer code (write_manifest p m) = resolved tt
answer code (start_services) = resolved tt
answer code (create_volume volume) = resolved tt
answer code (extract volume directory image file) = resolved tt
answer code (write_override p content) = resolved tt
answer code (start_restored p) = resolved tt
answer code (smoke_test url) = resolved tt

abbrev pub machine : ℕ → Env Answer
machine code = record {
  answer = λ q log. record { result = answer code q; elapsed = 1; signalled = false };
  oversleep = λ log. record { result = resolved tt; elapsed = 0; signalled = false };
}

unfoldable pub backups : Place
unfolding text
backups = text "backups" ∷ text ".local" ∷ text "r" ∷ []
