-- ===== src/Cluster/Documents.antt =====
-- The Kubernetes objects that deploy/data/backup-cluster.mjs and cluster-api.mjs read, with the
-- fields that they read, and the documents that they write.
use cartyx_infrastructure.Base.{ℕ, Text, List, Option, Bool}
use cartyx_infrastructure.Script.{Settled}

-- What a backup restores: `{ graph: 1, cassandra: 1, helm: false, flux: false }`.
pub record Original : Type 0 where
  pub graph : ℕ
  pub cassandra : ℕ
  pub helm : Bool
  pub flux : Bool

-- `original` is what reading and parsing the annotation `backup.cartyx.io/original` gives or throws.
pub record Lease : Type 0 where
  pub holder : Option Text
  pub resource_version : Text
  pub original : Settled Original

pub record Condition : Type 0 where
  pub kind : Text
  pub status : Text

-- A HelmRelease or a Kustomization. A missing `conditions` is an empty list, a missing `suspend`
-- is false. `history` holds the chart versions, the latest first.
pub record Release : Type 0 where
  pub suspend : Bool
  pub conditions : List Condition
  pub last_applied_revision : Option Text
  pub history : List (Option Text)

-- The Deployment or the StatefulSet, with `status.availableReplicas` of the one and
-- `status.readyReplicas` of the other as `ready`, and the first container's image and environment.
pub record Workload : Type 0 where
  pub replicas : ℕ
  pub ready : Option ℕ
  pub image : Text
  pub variables : List (Text × Option Text)

pub record Pod : Type 0 where
  pub phase : Text

pub data Component : Type 0 where
  janusgraph cassandra : Component

-- The merge patches of the Lease: acquisition, and release with or without a version to match.
pub data LeasePatch : Type 0 where
  acquire : Text → Original → Text → Text → ℕ → LeasePatch
  release : Option Text → LeasePatch

-- A merge patch of the status ConfigMap. A field that is `none` keeps its value.
pub record StatusPatch : Type 0 where
  pub phase : Text
  pub error : Option Text
  pub last_attempt : Option Text
  pub owner : Option Text
  pub last_success : Option Text
  pub key : Option Text
  pub sha256 : Option Text
  pub bytes : Option Text

pub record Manifest : Type 0 where
  pub format : ℕ
  pub method : Text
  pub environment : Text
  pub id : Text
  pub captured_at : Text
  pub cassandra_image : Text
  pub janusgraph_image : Text
  pub chart_revision : Option Text
  pub graph_keyspace : Option Text
  pub state_keyspace : Option Text
  pub sha256 : Option Text
  pub bytes : Option ℕ
  pub key : Option Text

-- An entry of a bucket listing, its `LastModified` in milliseconds, and a page of it.
pub record StoredObject : Type 0 where
  pub key : Text
  pub last_modified : ℕ

pub record Page : Type 0 where
  pub contents : List StoredObject
  pub is_truncated : Bool
  pub next_token : Option Text

-- The data of the ConfigMap `cartyx-data-config`.
abbrev pub ConfigData : Type 0
ConfigData = List (Text × Text)
