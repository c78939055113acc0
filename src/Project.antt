-- ===== src/Project.antt =====
-- One project of a runtime, rust-core/src/runtime.rs: the writer's state, manifests, WAL segments,
-- snapshots and recovery. SQLite is a parameter: `Sqlite` says what the runtime relies on.
pub mod Writer
pub mod Chain
pub mod Durable
pub mod Recovery
pub mod Opening
pub mod Commit
pub mod Crash
pub mod Compaction
pub mod Sequence
pub mod Legacy
pub mod Replica
use serverless_db.Base.{
  ℕ, suc, ◌+◌, ◌-◌, ◌%◌, ◌≡◌, String, Text, codes, Bool, true, false, not, ◌&&◌, ◌||◌, Option, none,
  some, List, [], ◌∷◌, ◌++◌, ltb, leb, ◌==◌, str_eq, if◌then◌else◌, saturating_add, length, drop,
}
use serverless_db.Error.{
  ApiError, Result, ok, err, new, invalid_durable_manifest, unsupported_schema_version,
  manifest_project_mismatch, failed_to_read, length_mismatch, checksum_mismatch, non_contiguous_id,
  non_contiguous_offset, wal_byte_mismatch, no_snapshot, generation_regression, generation_conflict,
  wal_budget_exceeded, local_file_failed, sqlite_failed,
}
use serverless_db.Io.{Io, pure, raise, lift, ◌>>=◌, ◌>>◌}
use serverless_db.Text.{text_eq}
use serverless_db.Bookmark.{bookmark_for_seq, bookmark_to_seq}
use serverless_db.Store.{
  Key, manifest, snapshot_generation, wal_segment, change_log, World, fault, Fault, done, tail,
  exists, read_bytes, put_bytes, delete_all, ignore,
}
use serverless_db.Types.{
  Bytes, Codec, Runtime, WalSegmentManifest, SnapshotManifest, WalChainManifest, DurableManifest,
}
use serverless_db.Lease.{ensure_writer_lease}

-- The bytes of a WAL file; a missing file counts as an empty one.
abbrev pub wal_bytes_of : Option Bytes → Bytes
wal_bytes_of none = []
wal_bytes_of (some wal) = wal

-- What the runtime relies on of SQLite in WAL mode with automatic checkpoints off. A connection has
-- committed content and a WAL file; `read db wal` is the content of a database file with a WAL.
pub record Sqlite : Type 1 where
  pub Conn : Type 0
  pub Content : Type 0
  pub content : Conn → Content
  -- The file behind the connection with the extension `sqlite-wal`, if there is one.
  pub wal_file : Conn → Option Bytes
  pub read : Bytes → Bytes → Content
  -- `VACUUM INTO`: the file that it writes.
  pub vacuum_into : Conn → Option Bytes
  pub read-vacuum_into :
      (conn : Conn) (db : Bytes) → vacuum_into conn ≡ some db → read db [] ≡ content conn
  -- `open_project_connection` and `ensure_meta`, on a database file and a WAL.
  pub open_files : Bytes → Bytes → Option Conn
  pub content-open_files :
      (db wal : Bytes) (conn : Conn) → open_files db wal ≡ some conn → content conn ≡ read db wal
  -- A fresh WAL continues the database file that was opened.
  pub wal-open_files :
      (db : Bytes) (conn : Conn)
      → open_files db [] ≡ some conn
      → read db (wal_bytes_of (wal_file conn)) ≡ content conn
  -- `Connection::open_in_memory`.
  pub placeholder : Conn

pub record ProjectState (Conn : Type 0) : Type 0 where
  pub project_id : String
  pub conn : Conn
  pub generation : ℕ
  pub commit_seq : ℕ
  pub current_snapshot : Option SnapshotManifest
  pub wal_segments : List WalSegmentManifest
  pub last_durable_wal_bytes : ℕ
  pub next_wal_segment_id : ℕ
  pub ops_since_snapshot : ℕ
  pub last_snapshot_at_ms : ℕ
  pub writer_lease_fencing_token : Option ℕ

-- The state under its lock, and the world outside.
pub record Machine (D Conn : Type 0) : Type 0 where
  pub world : World D
  pub state : ProjectState Conn

abbrev pub parsed_or {ℓ} : {A : Type ℓ} → ApiError → Option A → Result A
parsed_or e none = err e
parsed_or e (some a) = ok a

-- `if let Ok(..)`, `if let Err(..)`: the result as a value.
abbrev pub attempt {ℓ κ} : {S : Type ℓ} {A : Type κ} → Io S A → Io S (Result A)
attempt m s = let (r, t) = m s in (ok r, t)

unfoldable pub is_wal_of : String → Key → Bool
is_wal_of pid (wal_segment q i) = str_eq q pid
is_wal_of pid _ = false

module _ (c : Codec) where
  open c use {Doc, raw, bytes, manifest_doc, as_manifest, sha256, change_doc}

  abbrev checked : String → DurableManifest → Result (Option DurableManifest)
  checked pid m =
      if not (m.schema_version == 1)
      then err (new 503 unsupported_schema_version)
      else if not (str_eq m.project_id pid)
      then err (new 503 manifest_project_mismatch)
      else ok (some m)

  unfoldable pub load_manifest : String → Io (World Doc) (Option DurableManifest)
  load_manifest pid = do
    found ← exists (manifest pid)
    if not found then pure none else do
      bytes' ← read_bytes (manifest pid)
      m ← lift (parsed_or (new 503 invalid_durable_manifest) (as_manifest bytes'))
      lift (checked pid m)

  abbrev newer : ℕ → Result (Option DurableManifest) → Bool
  newer generation (ok (some existing)) = ltb generation existing.generation
  newer generation _ = false

  abbrev other : ℕ → Result (Option DurableManifest) → Bool
  other generation (ok (some post_write)) = not (post_write.generation == generation)
  other generation _ = false

  unfoldable pub put_manifest : DurableManifest → Io (World Doc) (Unit {0})
  put_manifest m = do
    existing ← attempt (load_manifest m.project_id)
    if newer m.generation existing then raise (new 409 generation_regression) else do
      put_bytes (manifest m.project_id) (manifest_doc m)
      post_write ← attempt (load_manifest m.project_id)
      if other m.generation post_write then raise (new 409 generation_conflict) else pure tt

  -- A failure to read becomes the error of `read_verified_object`.
  abbrev or_unreadable : Result Doc → Result Doc
  or_unreadable (ok d) = ok d
  or_unreadable (err e) = err (new 503 failed_to_read)

  abbrev verified : ℕ → Text → Bytes → Result Bytes
  verified expected_len expected_sha256 b =
      if not (length b == expected_len)
      then err (new 503 length_mismatch)
      else if not (text_eq (sha256 b) expected_sha256)
      then err (new 503 checksum_mismatch)
      else ok b

  unfoldable pub read_verified_object : Key → ℕ → Text → Io (World Doc) Bytes
  read_verified_object key expected_len expected_sha256 = do
    r ← attempt (read_bytes key)
    d ← lift (or_unreadable r)
    lift (verified expected_len expected_sha256 (bytes d))

  -- `restore_snapshot`, up to the write of the local file: what is written.
  unfoldable pub restore_snapshot : SnapshotManifest → Io (World Doc) Bytes
  restore_snapshot s = read_verified_object s.key s.bytes s.sha256

  abbrev is_id : Option ℕ → ℕ → Bool
  is_id none id = true
  is_id (some expected) id = id == expected

  -- The loop of `restore_manifest_wal`: the offset reached, and the file written so far.
  unfoldable pub restore_segments :
      List WalSegmentManifest → Option ℕ → ℕ → Bytes → Io (World Doc) (ℕ × Bytes)
  restore_segments [] expected_id expected_offset file = pure (expected_offset, file)
  restore_segments (segment ∷ segments) expected_id expected_offset file =
      if not (is_id expected_id segment.id)
      then raise (new 503 non_contiguous_id)
      else if not (segment.offset == expected_offset)
      then raise (new 503 non_contiguous_offset)
      else (do
        b ← read_verified_object segment.key segment.len segment.sha256
        restore_segments segments (some (segment.id + 1)) (expected_offset + segment.len)
            (file ++ b))

  abbrev complete : ℕ → ℕ × Bytes → Result Bytes
  complete durable_bytes (offset, file) =
      if not (offset == durable_bytes) then err (new 503 wal_byte_mismatch) else ok file

  unfoldable pub restore_manifest_wal : DurableManifest → Io (World Doc) Bytes
  restore_manifest_wal m = do
    r ← restore_segments m.wal.segments none 0 []
    lift (complete m.wal.durable_bytes r)

  -- The two files that recovery from a manifest writes, as in `ensure_project` and
  -- `rehydrate_state_from_manifest`.
  unfoldable pub restore_files : DurableManifest → Io (World Doc) (Bytes × Bytes)
  restore_files m = do
    db ← restore_snapshot m.snapshot
    wal ← restore_manifest_wal m
    pure (db, wal)
