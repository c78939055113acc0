-- ===== src/Project/Opening.antt =====
-- A project that is opened, rust-core/src/runtime.rs: `ensure_project` for one that is not open yet, up to
-- the threads that it starts. The project id has passed `safe_project_id`. `cached` are the local files
-- of the project, which are opened where the store has no snapshot.
use serverless_db.Base.{
  ℕ, ◌≡◌, refl, ◌∙◌, ltb, String, Bool, true, false, not, ◌&&◌, codes, Option, none, some, List, [],
  length, arith, Bool-cases, inl, inr, eq_iff, if◌then◌else◌,
}
use serverless_db.Error.{Result, ok, err, new, sqlite_failed, local_file_failed, not_on_replica}
use serverless_db.Io.{Io, pure, raise, lift, ◌>>=◌, ◌>>◌}
use serverless_db.Store.{
  Key, snapshot, World, Fault, done, lost, unacknowledged, fault, tail, exists, read_bytes,
  put_bytes, insert, change_log,
}
use serverless_db.Types.{
  Bytes, Codec, Runtime, WalSegmentManifest, SnapshotManifest, DurableManifest,
}
use serverless_db.Project.{
  Sqlite, ProjectState, Machine, parsed_or, load_manifest, restore_snapshot, restore_manifest_wal,
}
use serverless_db.Project.Chain.{sum_len, read_verified_object_complete, restore_segments_complete}
use serverless_db.Project.Durable.{IsRecoverable}
use serverless_db.Project.Legacy.{restore_legacy_wal_segments}
use serverless_db.Project.Replica.{manifest_commit_seq, next_id}
use serverless_db.Project.Writer.{
  Writer, get, append_change_log, persist_snapshot, ensure_writer_lease_for_state,
}

-- What a project is opened on.
pub record Restored : Type 0 where
  pub generation : ℕ
  pub commit_seq : ℕ
  pub current_snapshot : Option SnapshotManifest
  pub segments : List WalSegmentManifest
  pub db : Bytes
  pub wal : Bytes

abbrev ops_of : Option DurableManifest → ℕ
ops_of none = 0
ops_of (some m) = m.ops_since_snapshot

module _ (c : Codec) (s : Sqlite) (rt : Runtime) (now : ℕ) where
  open c use {Doc, bytes, sha256, change_doc}
  open s use {Conn, Content, content, open_files, read, content-open_files}

  abbrev local_end : Fault → Result (Unit {0})
  local_end done = ok tt
  local_end lost = err (new 500 local_file_failed)
  local_end unacknowledged = err (new 500 local_file_failed)

  -- A call of the local file system, which may fail.
  abbrev local_call : Io (World Doc) (Unit {0})
  local_call w = (local_end (fault w.faults), record w { faults = tail w.faults })

  abbrev snapshot_exists : String → Option DurableManifest → Io (World Doc) Bool
  snapshot_exists pid none = exists (snapshot pid)
  snapshot_exists pid (some m) = pure true

  -- The files of the manifest, or those from before manifests.
  unfoldable pub restore : String → Option DurableManifest → Io (World Doc) Restored
  restore pid (some m) = do
    db ← restore_snapshot c m.snapshot
    local_call
    wal ← restore_manifest_wal c m
    local_call
    pure (record {
      generation = m.generation;
      commit_seq = manifest_commit_seq (some m);
      current_snapshot = some m.snapshot;
      segments = m.wal.segments;
      db = db;
      wal = wal;
    })
  restore pid none = do
    d ← read_bytes (snapshot pid)
    local_call
    (segments, wal) ← restore_legacy_wal_segments c pid
    local_call
    pure (record {
      generation = 0;
      commit_seq = 0;
      current_snapshot =
          some (record { key = snapshot pid; bytes = length (bytes d); sha256 = sha256 (bytes d) });
      segments = segments;
      db = bytes d;
      wal = wal;
    })

  abbrev restore_if :
      Bool → String → Option DurableManifest → Bytes × Bytes → Io (World Doc) Restored
  restore_if true pid m cached = restore pid m
  restore_if false pid m cached = pure (record {
    generation = 0;
    commit_seq = 0;
    current_snapshot = none;
    segments = [];
    db = cached.0;
    wal = cached.1;
  })

  abbrev pub opened : String → Option DurableManifest → Restored → Conn → ProjectState Conn
  opened pid m r conn = record {
    project_id = pid;
    conn = conn;
    generation = r.generation;
    commit_seq = r.commit_seq;
    current_snapshot = r.current_snapshot;
    wal_segments = r.segments;
    last_durable_wal_bytes = sum_len r.segments;
    next_wal_segment_id = next_id r.segments;
    ops_since_snapshot = ops_of m;
    last_snapshot_at_ms = now;
    writer_lease_fencing_token = none;
  }

  -- A new project gets its first snapshot, under the lease; a restored one a line in its change log.
  unfoldable pub settle_opened : Bool → Writer c s (Unit {0})
  settle_opened false = do
    ensure_writer_lease_for_state c s rt now
    persist_snapshot c s rt now (codes "init")
  settle_opened true = do
    st ← get c s
    if ltb 0 st.last_durable_wal_bytes && not rt.options.read_replica
        then append_change_log c s rt now (codes "rehydrate_from_snapshot_and_wal")
        else pure tt

  abbrev settled : Result (Unit {0}) × Machine Doc Conn → Result (ProjectState Conn) × World Doc
  settled (ok u, x) = (ok x.state, x.world)
  settled (err e, x) = (err e, x.world)

  abbrev settle : Bool → ProjectState Conn → Io (World Doc) (ProjectState Conn)
  settle there st w = settled (settle_opened there (record { world = w; state = st }))

  unfoldable pub ensure_project : String → Bytes × Bytes → Io (World Doc) (ProjectState Conn)
  ensure_project pid cached = do
    local_call
    m ← load_manifest c pid
    there ← snapshot_exists pid m
    if rt.options.read_replica && not there then raise (new 404 not_on_replica) else do
      r ← restore_if there pid m cached
      conn ← lift (parsed_or (new 500 sqlite_failed) (open_files r.db r.wal))
      settle there (opened pid m r conn)

  -- The world in which no call fails.
  abbrev calm : List (Key × Doc) → World Doc
  calm objects = record { objects = objects; faults = [] }

  abbrev restored_of :
      (pid : String) (objects : List (Key × Doc)) (v : Content)
      → IsRecoverable c s pid objects v
      → Restored
  restored_of pid objects v h = record {
    generation = h.man.generation;
    commit_seq = manifest_commit_seq (some h.man);
    current_snapshot = some h.man.snapshot;
    segments = h.man.wal.segments;
    db = h.db;
    wal = h.wal;
  }

  restore_complete :
      (pid : String) (objects : List (Key × Doc)) (v : Content)
      (h : IsRecoverable c s pid objects v)
      → restore pid (some h.man) (calm objects) ≡ (ok (restored_of pid objects v h), calm objects)
  unfolding restore restore_snapshot restore_manifest_wal
  restore_complete pid objects v h = ground (
    arith,
    read_verified_object_complete c (calm objects) h.man.snapshot.key h.man.snapshot.bytes
        h.man.snapshot.sha256 h.db h.snap_stored refl,
    restore_segments_complete c (calm objects) refl none [] h.chain tt,
    h.total,
  )

  load_complete :
      (pid : String) (objects : List (Key × Doc)) (v : Content)
      (h : IsRecoverable c s pid objects v)
      → load_manifest c pid (calm objects) ≡ (ok (some h.man), calm objects)
  unfolding load_manifest exists read_bytes
  load_complete pid objects v h =
      ground (arith, h.stored, h.parsed, h.version, h.project, eq_iff h.man.project_id pid)

  -- What follows the opening of a restored project leaves its state alone, and succeeds.
  settle_complete :
      (st : ProjectState Conn) (objects : List (Key × Doc))
      → (w : World Doc) × (settle true st (calm objects) ≡ (ok st, w))
  unfolding settle_opened append_change_log put_bytes
  settle_complete st objects =
      elim (Bool-cases (ltb 0 st.last_durable_wal_bytes && not rt.options.read_replica)) [
        | inl e ↦ (
          calm (
              insert
                (change_log st.project_id now st.ops_since_snapshot
                  (codes "rehydrate_from_snapshot_and_wal"))
                (change_doc (codes "rehydrate_from_snapshot_and_wal")) objects),
          ground (arith, e),
        )
        | inr e ↦ (calm objects, ground (arith, e))
      ]

  -- Where no call fails, a project that can be recovered is opened, whatever the local files were: the
  -- connection has the content that recovery gives, and the state goes on from the manifest. (SQLite
  -- opens the two files that recovery restores.)
  pub ensure_project_complete :
      (pid : String) (cached : Bytes × Bytes) (objects : List (Key × Doc)) (v : Content)
      → (h : IsRecoverable c s pid objects v) → (conn : Conn) → open_files h.db h.wal ≡ some conn
      → (st : ProjectState Conn) × (w : World Doc) × (ensure_project pid cached (calm objects)
          ≡ (ok st, w))
        × (content st.conn ≡ v)
        × (st.generation ≡ h.man.generation)
        × (st.wal_segments ≡ h.man.wal.segments)
  unfolding ensure_project
  ensure_project_complete pid cached objects v h conn o =
      let st = opened pid (some h.man) (restored_of pid objects v h) conn in
      let (w, q) = settle_complete st objects in
      (
        st,
        w,
        ground (arith, load_complete pid objects v h, restore_complete pid objects v h, o, q),
        content-open_files h.db h.wal conn o ∙ h.reads,
        refl,
        refl,
      )
