-- ===== src/Secrets/Tests.antt =====
-- Runs of deploy/data/secrets.mjs, and the theorems at them.
use cartyx_infrastructure.Base.{
  Text, text, List, [], ◌∷◌, Bool, true, false, Option, some, drop, ◌≡◌, ◌⊎◌, refl, text_eq,
  includes, ends_with,
}
use cartyx_infrastructure.Script.{
  Env, Log, Settled, resolved, called, ok, call, after_call, and_then, for_each,
}
use cartyx_infrastructure.Secrets.{
  Request, Answer, ensure_directory, create_directory, change_mode, exists, random_hex, write_new,
  write_file, request_certificate, export_certificate, known_environments, app_key, key_names,
  parent, directory_of, file_in, alternative_names, certificate_config, chosen, write_key,
  add_app_key, create_all, provision, run,
}
use cartyx_infrastructure.Secrets.Writing.{LacksAppKey, IsFresh, IsDrawn, IsProvided}
use cartyx_infrastructure.Secrets.Provision.{new_key-IsDrawn, provision_success-IsProvided}

-- A machine on which the paths that a test accepts exist.
abbrev answer : (Text → Bool) → (q : Request) → Settled (Answer q)
unfolding text
answer here (exists path) = resolved (here path)
answer here (random_hex n) = resolved (text "5a")
answer here (ensure_directory path) = resolved tt
answer here (create_directory path) = resolved tt
answer here (change_mode path mode) = resolved tt
answer here (write_new path content) = resolved tt
answer here (write_file path content) = resolved tt
answer here (request_certificate d) = resolved tt
answer here (export_certificate d) = resolved tt

abbrev machine : (Text → Bool) → Env Answer
machine here = record {
  answer = λ q log. record { result = answer here q; elapsed = 1; signalled = false };
  oversleep = λ log. record { result = resolved tt; elapsed = 0; signalled = false };
}

abbrev empty : Env Answer
empty = machine (λ path. false)

abbrev provided : Env Answer
unfolding text ends_with
provided = machine (λ path. ends_with path (text "tls.p12"))

abbrev directory : Text
unfolding text
directory = text ".local/data/dev"

abbrev dev : Option Text
unfolding text
dev = some (text "dev")

-- Credentials without the application's key.
abbrev added : Log Answer
unfolding text directory app_key
added =
    called (write_new (file_in directory app_key) (text "5a\n")) (resolved tt)
    ∷ called (random_hex 32) (resolved (text "5a"))
    ∷ called (exists (file_in directory app_key)) (resolved false)
    ∷ called (exists (file_in directory (text "tls.p12"))) (resolved true)
    ∷ called (change_mode parent 448) (resolved tt)
    ∷ called (ensure_directory parent) (resolved tt)
    ∷ []

provided-trace : (run provided dev 0).1.log ≡ added
unfolding text text_eq includes ends_with call after_call and_then known_environments app_key
    write_key add_app_key provision provided directory dev added answer
provided-trace = refl

-- The keys, the latest first.
abbrev keys : List Text → Log Answer → Log Answer
unfolding text directory
keys [] log = log
keys (name ∷ names) log = keys names (
    called (write_new (file_in directory name) (text "5a\n")) (resolved tt)
    ∷ called (random_hex 32) (resolved (text "5a"))
    ∷ log)

-- No credentials.
abbrev created : Log Answer
unfolding text directory app_key key_names keys certificate_config
created =
    called (change_mode (file_in directory (text "tls.p12")) 420) (resolved tt)
    ∷ called (export_certificate directory) (resolved tt)
    ∷ called (request_certificate directory) (resolved tt)
    ∷ called (write_file (file_in directory (text "openssl.cnf")) (certificate_config (text "dev")))
        (resolved tt)
    ∷ keys key_names (
        called (create_directory directory) (resolved tt)
        ∷ called (exists directory) (resolved false)
        ∷ called (exists (file_in directory (text "tls.p12"))) (resolved false)
        ∷ called (change_mode parent 448) (resolved tt)
        ∷ called (ensure_directory parent) (resolved tt)
        ∷ [])

empty-trace : (run empty dev 0).1.log ≡ created
unfolding text text_eq includes call after_call and_then for_each known_environments app_key
    key_names write_key create_all certificate_config provision directory dev keys created answer
empty-trace = refl

empty-outcome : (run empty dev 0).0 ≡ ok tt
unfolding text text_eq includes call after_call and_then for_each known_environments app_key
    key_names write_key create_all certificate_config provision directory dev answer
empty-outcome = refl

names_of_two : alternative_names (text "a" ∷ text "b" ∷ []) ≡ text "DNS:a,DNS:b"
unfolding text alternative_names
names_of_two = refl

new_key-IsDrawn_example :
    IsDrawn (text "5a\n") (drop 1 added)
    × (((file_in directory app_key ≡ file_in (directory_of (chosen dev)) app_key)
          × LacksAppKey (directory_of (chosen dev)) (drop 1 added))
        ⊎ IsFresh (directory_of (chosen dev)) (drop 1 added))
unfolding text added directory dev
new_key-IsDrawn_example =
    new_key-IsDrawn provided dev 0 [] (drop 1 added) (file_in directory app_key) (text "5a\n")
      (resolved tt) provided-trace

provision_success-IsProvided_example :
    IsProvided (directory_of (chosen dev)) (run empty dev 0).1.log
provision_success-IsProvided_example = provision_success-IsProvided empty dev 0 empty-outcome
