-- ===== src/Cluster/Paths.antt =====
-- `paths` of deploy/data/cluster-api.mjs.
use cartyx_infrastructure.Base.{
  ℕ, ◌+◌, ◌-◌, ◌/◌, ◌%◌, Text, text, List, [], ◌∷◌, ◌++◌, Bool, ◌&&◌, ◌||◌, ltb, leb, ◌==◌,
  if◌then◌else◌, includes,
}
use cartyx_infrastructure.Script.{Outcome, ok, stop, throw}

-- The characters that `encodeURIComponent` leaves alone.
is_unreserved : ℕ → Bool
is_unreserved c =
    (leb b'a' c && leb c b'z')
    || (leb b'A' c && leb c b'Z')
    || (leb b'0' c && leb c b'9')
    || (c == b'-' || c == b'_' || c == b'.' || c == b'!' || c == b'~' || c == b'*')
    || (c == 0x27 || c == b'(' || c == b')')

hex_digit : ℕ → ℕ
hex_digit n = if ltb n 10 then b'0' + n else b'A' + (n - 10)

-- `encodeURIComponent`, on ASCII text.
unfoldable pub encode_uri_component : Text → Text
unfolding is_unreserved hex_digit
encode_uri_component [] = []
encode_uri_component (c ∷ s) =
    (if is_unreserved c then c ∷ [] else b'%' ∷ hex_digit (c / 16) ∷ hex_digit (c % 16) ∷ [])
    ++ encode_uri_component s

pub record Paths : Type 0 where
  pub namespace : Text
  pub lease : Text
  pub status : Text
  pub helm : Text
  pub flux : Text
  pub graph : Text
  pub cassandra : Text
  pub pods : Text → Text

-- The object that `paths` returns for a namespace that it accepts.
unfoldable pub paths_in : Text → Paths
unfolding text encode_uri_component
paths_in namespace = record {
  namespace = namespace;
  lease =
      text "/apis/coordination.k8s.io/v1/namespaces/"
      ++ (namespace ++ text "/leases/cartyx-data-backup");
  status =
      text "/api/v1/namespaces/" ++ (namespace ++ text "/configmaps/cartyx-data-backup-status");
  helm =
      text "/apis/helm.toolkit.fluxcd.io/v2/namespaces/"
      ++ (namespace ++ text "/helmreleases/cartyx-data");
  flux =
      text "/apis/kustomize.toolkit.fluxcd.io/v1/namespaces/flux-system/kustomizations/data-"
      ++ namespace;
  graph =
      text "/apis/apps/v1/namespaces/" ++ (namespace ++ text "/deployments/cartyx-data-janusgraph");
  cassandra =
      text "/apis/apps/v1/namespaces/" ++ (namespace ++ text "/statefulsets/cartyx-data-cassandra");
  pods = λ component.
      text "/api/v1/namespaces/"
      ++ (namespace
          ++ (text "/pods?labelSelector="
              ++ encode_uri_component (
                  text "app.kubernetes.io/instance=cartyx-data,app.kubernetes.io/component="
                  ++ component)));
}

abbrev pub environments : List Text
environments = text "dev" ∷ text "prod" ∷ []

unfoldable pub paths : Text → Outcome Paths
unfolding text includes paths_in
paths namespace =
    if includes environments namespace
    then ok (paths_in namespace)
    else stop (throw (text "Backup namespace must be dev or prod"))
