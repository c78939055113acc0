-- ===== src/Project/Writer.antt =====
-- The writer's side of a project, rust-core/src/runtime.rs: `durabilize_wal`, `persist_snapshot`,
-- `write_manifest`, `ensure_wal_budget` and the tests that they use. `now` is `now_ms()` in the call.
use serverless_db.Base.{
  ℕ, ◌+◌, ◌-◌, ◌%◌, Text, codes, Bool, not, ◌&&◌, ◌||◌, Option, none, some, [], ◌∷◌, ◌++◌, ltb, leb,
  ◌==◌, if◌then◌else◌, saturating_add, length, drop,
}
use serverless_db.Error.{
  Result, ok, err, new, no_snapshot, wal_budget_exceeded, local_file_failed, sqlite_failed,
}
use serverless_db.Io.{Io, pure, raise, lift, ◌>>=◌, ◌>>◌}
use serverless_db.Bookmark.{bookmark_for_seq}
use serverless_db.Store.{
  snapshot_generation, wal_segment, change_log, World, fault, Fault, done, lost, unacknowledged,
  tail, put_bytes, delete_all, ignore,
}
use serverless_db.Types.{
  Bytes, Codec, Runtime, WriterLease, WalSegmentManifest, SnapshotManifest, DurableManifest,
}
use serverless_db.Lease.{ensure_writer_lease}
use serverless_db.Project.{
  Sqlite, ProjectState, Machine, parsed_or, attempt, is_wal_of, put_manifest,
}

module _ (c : Codec) (s : Sqlite) where
  open c use {Doc, raw, sha256, change_doc}
  open s use {Conn, wal_file, vacuum_into, open_files, placeholder}

  abbrev pub Writer : Type 0 → Type 0
  Writer A = Io (Machine Doc Conn) A

  abbrev pub in_world : {A : Type 0} → Io (World Doc) A → Writer A
  in_world m x = let (r, w) = m x.world in (r, record x { world = w })

  abbrev pub get : Writer (ProjectState Conn)
  get x = (ok x.state, x)

  abbrev pub modify : (ProjectState Conn → ProjectState Conn) → Writer (Unit {0})
  modify f x = (ok tt, record x { state = f x.state })

  -- A call of the local file system, which may fail.
  abbrev local_end : Fault → Result (Unit {0})
  local_end done = ok tt
  local_end lost = err (new 500 local_file_failed)
  local_end unacknowledged = err (new 500 local_file_failed)

  abbrev pub local_file : Writer (Unit {0})
  local_file = in_world (λ w. (local_end (fault w.faults), record w { faults = tail w.faults }))

  module _ (rt : Runtime) (now : ℕ) where
    unfoldable pub append_change_log : Text → Writer (Unit {0})
    append_change_log reason = do
      st ← get
      in_world (
          put_bytes (change_log st.project_id now st.ops_since_snapshot reason) (change_doc reason))

    abbrev pub manifest_of : ProjectState Conn → Option Text → SnapshotManifest → DurableManifest
    manifest_of st reason snapshot = record {
      schema_version = 1;
      project_id = st.project_id;
      generation = st.generation;
      previous_generation = st.generation - 1;
      fencing_token = st.writer_lease_fencing_token;
      owner_id = some rt.runtime_id;
      commit_seq = st.commit_seq;
      bookmark = bookmark_for_seq st.commit_seq;
      updated_at = now;
      reason = reason;
      snapshot = snapshot;
      wal = record {
        prefix = st.project_id;
        durable_bytes = st.last_durable_wal_bytes;
        segments = st.wal_segments;
      };
      ops_since_snapshot = st.ops_since_snapshot;
      gc_watermark_generation = st.generation - 1;
    }

    unfoldable pub write_manifest : Option Text → Writer (Unit {0})
    write_manifest reason = do
      st ← get
      snapshot ← lift (parsed_or (new 500 no_snapshot) st.current_snapshot)
      in_world (put_manifest c (manifest_of st reason snapshot))

    -- The manifest of a new snapshot: its generation is the next one, and its WAL is empty.
    abbrev pub snapshot_manifest_of : ProjectState Conn → Text → SnapshotManifest → DurableManifest
    snapshot_manifest_of st reason snapshot = record {
      schema_version = 1;
      project_id = st.project_id;
      generation = st.generation + 1;
      previous_generation = st.generation;
      fencing_token = st.writer_lease_fencing_token;
      owner_id = some rt.runtime_id;
      commit_seq = st.commit_seq;
      bookmark = bookmark_for_seq st.commit_seq;
      updated_at = now;
      reason = some reason;
      snapshot = snapshot;
      wal = record { prefix = st.project_id; durable_bytes = 0; segments = [] };
      ops_since_snapshot = 0;
      gc_watermark_generation = st.generation + 1 - 1;
    }

    abbrev pub snapshot_of : ProjectState Conn → Bytes → SnapshotManifest
    snapshot_of st db = record {
      key = snapshot_generation st.project_id (st.generation + 1);
      bytes = length db;
      sha256 = sha256 db;
    }

    -- `persist_snapshot` up to the manifest: what the object store is given.
    unfoldable pub upload_snapshot : Text → Writer Bytes
    upload_snapshot reason = do
      st ← get
      local_file
      db ← lift (parsed_or (new 500 sqlite_failed) (vacuum_into st.conn))
      local_file
      in_world (put_bytes (snapshot_generation st.project_id (st.generation + 1)) (raw db))
      in_world (put_manifest c (snapshot_manifest_of st reason (snapshot_of st db)))
      pure db

    -- `persist_snapshot` from there: the local cache is replaced and the state reset.
    unfoldable pub replace_cache : Text → Bytes → Writer (Unit {0})
    replace_cache reason db = do
      modify (λ st. record st { conn = placeholder })
      local_file
      conn ← lift (parsed_or (new 500 sqlite_failed) (open_files db []))
      modify (λ st. record st {
        conn = conn;
        generation = st.generation + 1;
        current_snapshot = some (snapshot_of st db);
        wal_segments = [];
        last_durable_wal_bytes = 0;
        next_wal_segment_id = 0;
        ops_since_snapshot = 0;
        last_snapshot_at_ms = now;
      })
      st ← get
      in_world (ignore (delete_all (is_wal_of st.project_id)))
      append_change_log reason

    unfoldable pub persist_snapshot : Text → Writer (Unit {0})
    persist_snapshot reason = do db ← upload_snapshot reason; replace_cache reason db

    unfoldable pub should_write_metadata : ProjectState Conn → Bool
    should_write_metadata st =
        ltb 0 rt.options.metadata_every_ops
        && st.ops_since_snapshot % rt.options.metadata_every_ops == 0

    -- `now_ms() - last_snapshot_at_ms` is taken in u128: the clock does not run back.
    unfoldable pub should_snapshot : ProjectState Conn → Bool
    should_snapshot st =
        (ltb 0 rt.options.snapshot_every_ops
          && leb rt.options.snapshot_every_ops st.ops_since_snapshot)
        || (ltb 0 rt.options.snapshot_every_ms
            && leb rt.options.snapshot_every_ms (now - st.last_snapshot_at_ms))

    -- The WAL is shorter than what is durable: it was started anew.
    unfoldable pub restart_chain : ℕ → Writer (Unit {0})
    restart_chain wal_len = do
      st ← get
      if not (ltb wal_len st.last_durable_wal_bytes) then pure tt else do
        in_world (delete_all (is_wal_of st.project_id))
        modify (λ r. record r {
          last_durable_wal_bytes = 0;
          next_wal_segment_id = 0;
          wal_segments = [];
        })

    abbrev pub segment_of : ProjectState Conn → Bytes → WalSegmentManifest
    segment_of st segment = record {
      id = st.next_wal_segment_id;
      key = wal_segment st.project_id st.next_wal_segment_id;
      offset = st.last_durable_wal_bytes;
      len = length segment;
      sha256 = sha256 segment;
    }

    abbrev pub push_segment : Bytes → ProjectState Conn → ProjectState Conn
    push_segment segment st = record st {
      wal_segments = st.wal_segments ++ segment_of st segment ∷ [];
      next_wal_segment_id = st.next_wal_segment_id + 1;
    }

    -- `if !segment.is_empty()`.
    abbrev pub upload_segment : Bytes → Writer (Unit {0})
    upload_segment [] = pure tt
    upload_segment (b ∷ bs) = do
      st ← get
      in_world (put_bytes (wal_segment st.project_id st.next_wal_segment_id) (raw (b ∷ bs)))
      modify (push_segment (b ∷ bs))

    -- The bytes of the WAL that are not durable yet become one segment.
    unfoldable pub upload_tail : Bytes → Writer (Unit {0})
    upload_tail wal = do
      st ← get
      if not (ltb st.last_durable_wal_bytes (length wal))
          then pure tt
          else do local_file; upload_segment (drop st.last_durable_wal_bytes wal)

    abbrev pub upload_wal : Option Bytes → Writer (Unit {0})
    upload_wal none = pure tt
    upload_wal (some wal) = do
      local_file
      restart_chain (length wal)
      upload_tail wal
      modify (λ st. record st { last_durable_wal_bytes = length wal })

    abbrev at_least_one : ℕ → ℕ
    at_least_one n = if leb 1 n then n else 1

    -- `durabilize_wal` up to the manifest, whose write makes the batch durable.
    unfoldable pub commit_wal : Text → ℕ → Writer (Unit {0})
    commit_wal reason committed_ops = do
      st ← get
      upload_wal (wal_file st.conn)
      modify (λ r. record r {
        ops_since_snapshot = r.ops_since_snapshot + at_least_one committed_ops;
        commit_seq = saturating_add r.commit_seq 1;
      })
      write_manifest (some reason)

    -- A compaction that fails is logged; the batch is durable all the same.
    abbrev pub after_compaction : Result (Unit {0}) → Writer (Unit {0})
    after_compaction (ok u) x = (ok tt, x)
    after_compaction (err e) x = (ok tt, (append_change_log (codes "snapshot_failed") x).1)

    unfoldable pub compact : Text → Writer (Unit {0})
    compact reason = do
      st ← get
      if not (should_snapshot st) then pure tt else do
        r ← attempt (persist_snapshot (codes "compact_after:" ++ reason))
        after_compaction r

    abbrev pub log_metadata : Text → Writer (Unit {0})
    log_metadata reason = do
      st ← get
      if should_write_metadata st then append_change_log reason else pure tt

    unfoldable pub durabilize_wal : Text → ℕ → Writer (Unit {0})
    durabilize_wal reason committed_ops = do
      commit_wal reason committed_ops
      log_metadata reason
      compact reason

    abbrev over_budget : Result (Unit {0}) → Writer (Unit {0})
    over_budget (ok u) = pure tt
    over_budget (err e) = raise (new 507 wal_budget_exceeded)

    unfoldable pub ensure_wal_budget : Writer (Unit {0})
    ensure_wal_budget = do
      st ← get
      if rt.options.max_durable_wal_bytes == 0
            || ltb st.last_durable_wal_bytes rt.options.max_durable_wal_bytes
          then pure tt
          else do r ← attempt (persist_snapshot (codes "wal_budget")); over_budget r

    abbrev hold : Option WriterLease → ProjectState Conn → ProjectState Conn
    hold none st = st
    hold (some lease) st = record st { writer_lease_fencing_token = some lease.fencing_token }

    unfoldable pub ensure_writer_lease_for_state : Writer (Unit {0})
    ensure_writer_lease_for_state = do
      st ← get
      lease ← in_world (ensure_writer_lease c rt now st.project_id st.writer_lease_fencing_token)
      modify (hold lease)
