-- ===== src/Restore/Loading.antt =====
-- What deploy/data/restore-cluster.mjs creates, loads and tests.
use cartyx_infrastructure.Base.{
  ℕ, Text, text, List, [], ◌∷◌, ◌++◌, true, Option, none, some, ◌==◌, ◌+◌, ◌-◌, ◌/◌, decimal,
  if◌then◌else◌,
}
use cartyx_infrastructure.Script.{
  Env, Script, call, pure, fail, gets, modify, for_each, ◌>>=◌, ◌>>◌,
}
use cartyx_infrastructure.Cluster.Clock.{to_iso_string}
use cartyx_infrastructure.Restore.Requests.{
  Completion, Outcomes, Answer, State, make_directory, member_credential, write_credential,
  create_namespace, create_secret, create_claim, create_loader, wait_loader, extract, delete_loader,
  install_chart, forward_port, smoke_test, security_test, cql_security_test, get_claim,
  write_result,
}

-- `keys`
unfoldable pub credential_names : List Text
unfolding text
credential_names =
    text "tls.p12"
    ∷ text "tls.crt"
    ∷ text "tls-password"
    ∷ text "gremlin-password"
    ∷ text "gremlin-app-password"
    ∷ text "cassandra-admin-password"
    ∷ text "cassandra-graph-password"
    ∷ text "cassandra-state-password"
    ∷ []

-- `code === 0 ? resolve() : reject(...)`
unfoldable pub check_extraction : Option ℕ → Script State (Unit {0})
check_extraction none = fail (text "Volume extraction failed: null")
check_extraction (some n) =
    if n == 0 then pure tt else fail (text "Volume extraction failed: " ++ decimal n)

-- `result`
abbrev pub result_of : Text → Text → Text → Text → ℕ → ℕ → Completion → Outcomes
result_of environment namespace volume key now started m = record {
  verified_at = to_iso_string now;
  environment = environment;
  namespace = namespace;
  volume = volume;
  manifest_key = key;
  sha256 = m.sha256;
  duration_seconds = (now - started + 500) / 1000;
  source_captured_at = m.captured_at;
}

module _ (env : Env Answer) where
  unfoldable pub copy_member : Text → Text → Text → Script State (Unit {0})
  copy_member archive credentials name = do
    content ← call env (member_credential archive name)
    call env (write_credential (credentials ++ (text "/" ++ name)) content)

  unfoldable pub copy_credentials : Text → Text → Script State (Unit {0})
  unfolding copy_member
  copy_credentials archive credentials = do
    call env (make_directory credentials)
    for_each credential_names (copy_member archive credentials)

  -- Everything is created, and nothing that exists is changed.
  unfoldable pub load : Text → Text → Text → Text → Completion → Script State (Unit {0})
  unfolding check_extraction
  load namespace archive credentials storage m = do
    call env (create_namespace namespace)
    call env (create_secret namespace credentials credential_names)
    call env (create_claim namespace storage)
    call env (create_loader namespace m.cassandra_image)
    call env (wait_loader namespace)
    code ← call env (extract namespace archive)
    check_extraction code
    call env (delete_loader namespace)

  unfoldable pub test_services : Text → Text → Text → Script State (Unit {0})
  test_services environment namespace credentials = do
    call env (install_chart namespace environment)
    modify (λ w. record w { vars = record { forwarding = true } })
    port ← call env (forward_port namespace)
    call env (smoke_test credentials port)
    call env (security_test credentials port)
    call env (cql_security_test environment namespace)

  unfoldable pub conclude : Text → Text → Text → Text → ℕ → Completion → Script State (Unit {0})
  conclude environment namespace directory key started m = do
    volume ← call env (get_claim namespace)
    now ← gets (λ w. w.time)
    call env (
        write_result (directory ++ text "/result.json")
          (result_of environment namespace volume key now started m))
