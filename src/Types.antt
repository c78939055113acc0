-- ===== src/Types.antt =====
-- The data of rust-core/src/runtime.rs: options, leases, manifests, and the codecs that turn them
-- into stored objects.
use serverless_db.Base.{ℕ, ◌*◌, String, Bool, false, Option, none, some, List, [], Text, ◌≡◌}
use serverless_db.Store.{Key}

pub record RoutingEndpoint : Type 0 where
  pub role : String
  pub region : Option String
  pub url : String

pub record RuntimeOptions : Type 0 where
  pub snapshot_every_ops : ℕ
  pub snapshot_every_ms : ℕ
  pub metadata_every_ops : ℕ
  pub group_commit_max_ops : ℕ
  pub group_commit_delay_ms : ℕ
  pub writer_queue_capacity : ℕ
  pub max_durable_wal_bytes : ℕ
  pub writer_lease_ttl_ms : ℕ
  pub read_replica : Bool
  pub replica_refresh_interval_ms : ℕ
  pub replica_bookmark_wait_timeout_ms : ℕ
  pub primary_url : Option String
  pub routing_region : Option String
  pub routing_endpoints : List RoutingEndpoint
  pub forward_connect_timeout_ms : ℕ
  pub forward_request_timeout_ms : ℕ
  pub forward_max_attempts : ℕ
  pub forward_retry_backoff_ms : ℕ
  pub routing_endpoint_failure_threshold : ℕ
  pub routing_endpoint_cooldown_ms : ℕ
  pub sqlite_synchronous : String
  pub supabase_project_id : String

-- `RuntimeOptions::default`.
abbrev pub default_options : RuntimeOptions
default_options = record {
  snapshot_every_ops = 1000;
  snapshot_every_ms = 60000;
  metadata_every_ops = 100;
  group_commit_max_ops = 64;
  group_commit_delay_ms = 2;
  writer_queue_capacity = 1024;
  max_durable_wal_bytes = 64 * 1024 * 1024;
  writer_lease_ttl_ms = 30000;
  read_replica = false;
  replica_refresh_interval_ms = 1000;
  replica_bookmark_wait_timeout_ms = 5000;
  primary_url = none;
  routing_region = none;
  routing_endpoints = [];
  forward_connect_timeout_ms = 1000;
  forward_request_timeout_ms = 5000;
  forward_max_attempts = 3;
  forward_retry_backoff_ms = 25;
  routing_endpoint_failure_threshold = 2;
  routing_endpoint_cooldown_ms = 1000;
  sqlite_synchronous = "NORMAL";
  supabase_project_id = "demo";
}

-- The fields of `ProjectRuntime` that its operations on a project read.
pub record Runtime : Type 0 where
  pub options : RuntimeOptions
  pub runtime_id : String

pub record WriterLease : Type 0 where
  pub schema_version : ℕ
  pub project_id : String
  pub owner_id : String
  pub fencing_token : ℕ
  pub acquired_at_ms : ℕ
  pub expires_at_ms : ℕ

abbrev pub Bytes : Type 0
Bytes = List ℕ

pub record WalSegmentManifest : Type 0 where
  pub id : ℕ
  pub key : Key
  pub offset : ℕ
  pub len : ℕ
  pub sha256 : Text

pub record SnapshotManifest : Type 0 where
  pub key : Key
  pub bytes : ℕ
  pub sha256 : Text

pub record WalChainManifest : Type 0 where
  pub prefix : String
  pub durable_bytes : ℕ
  pub segments : List WalSegmentManifest

pub record DurableManifest : Type 0 where
  pub schema_version : ℕ
  pub project_id : String
  pub generation : ℕ
  pub previous_generation : ℕ
  pub fencing_token : Option ℕ
  pub owner_id : Option String
  pub commit_seq : ℕ
  pub bookmark : Text
  pub updated_at : ℕ
  pub reason : Option Text
  pub snapshot : SnapshotManifest
  pub wal : WalChainManifest
  pub ops_since_snapshot : ℕ
  pub gc_watermark_generation : ℕ

-- What the runtime uses of serde_json and sha2, with the objects that they write. `Doc` is a
-- stored object; its bytes are what `put_bytes` is given. The laws are serde's round trip.
pub record Codec : Type 1 where
  pub Doc : Type 0
  pub raw : Bytes → Doc
  pub bytes : Doc → Bytes
  pub bytes-raw : (b : Bytes) → bytes (raw b) ≡ b
  pub lease_doc : WriterLease → Doc
  pub as_lease : Doc → Option WriterLease
  pub as_lease-lease_doc : (l : WriterLease) → as_lease (lease_doc l) ≡ some l
  pub manifest_doc : DurableManifest → Doc
  pub as_manifest : Doc → Option DurableManifest
  pub as_manifest-manifest_doc : (m : DurableManifest) → as_manifest (manifest_doc m) ≡ some m
  -- An entry of the change log or of the lease audit: for people, never read back.
  pub change_doc : Text → Doc
  pub sha256 : Bytes → Text
